-- ===== src/Lib.antt =====
-- dsac: data structures, algorithms, concurrency and an example of a replicated register, in C++.
-- This library models the parts below and proves what makes them correct. Paths are from the
-- repository's root.
--
-- Sort: dsac/include/dsac/algorithm. A range is a list; the access `*i` is the Option `get_elem?`, so
-- that a sort that returns has stayed inside its range. `Sort/Order` is the argument `comp`; `Bubble`,
-- `Insertion`, `Selection` and `Check` are the functions of detail/*.hpp with their loops as recursion
-- on the rounds that are left, and the overloads with `std::less`. The `Laws` below each prove it.
--
-- Replication: dsac/examples/dist.registry.replication/src/domains/register. `Register` is the register
-- of one node (domain/register.*, infrastructure/inmemory/detail/register.cpp), `Cluster` is
-- domain/cluster.*, and `Coordinator` has the handlers of application/commands/coordinator, which read
-- and write the registers of all nodes through presentation/web/register_replica_client.cpp. What
-- the network does is part of each node: whether the read of a command reaches it, whether its reply is
-- one of the first, and whether the write of a command, which is a request of its own also where it repairs,
-- comes before the command returns, later or never. `reflag` sets this anew between two commands, and
-- `pending` has the writes under way. A command returns when a quorum of its requests has ended; commands
-- follow one another. `Repair` is one command, `Reads` a read after a write with anything between.
--
-- Concurrency: dsac/include/dsac/concurrency and dsac/src/concurrency. Each part is a state that counts
-- how many threads stand where, and a step relation; `Run` is reachability. `Mutex`, `Semaphore` and
-- `SharedState` make each atomic access a step, and a failed assertion is a step to a place of its own; the
-- calls of `Barrier`, `Mvar` and of the queue of `Pool` run under a mutex and are one step up to their
-- return or wait. A waiter of `Barrier` tests its predicate only when `notify_all` or a spurious wakeup has
-- woken it. Tasks may be submitted to `Pool` also during `join`. Counters of threads are numbers without
-- bound; the counter of the barrier is a size_t and wraps.
--
-- Cache: dsac/include/dsac/cache. `Lru` and `LruK` are the two caches; `Keys` has the list of items as
-- the list of their keys, `Items` the index. A null pointer that is used is the fault `none`.
--
-- Intrusive: dsac/include/dsac/container/intrusive. The links in a memory of nodes; `Chain` says which
-- list of nodes they stand for, and `Attach`, `Detach` and `Pop` what the methods do to it, which is what
-- the caches rely on.
--
-- Heap: dsac/include/dsac/container/heap. The storage is a list. The loops are recursion on rounds, as
-- many as there are elements: each round moves the index strictly up or down, so that they are enough.
-- Indices are numbers; the `int` of the source holds them for fewer than 2 ^ 30 elements.
--
-- Avl: dsac/include/dsac/container/tree/avl_tree.hpp. A pointer is the tree below it; `Balance` has the
-- rotations, `Mend` what follows an insertion into a child, `Insert`, `Place` and `Ordered` the
-- insertion, `Delete`, `Removal` and `Total` the deletion, and `Keys` the order of the keys that are visited. The destructor is not modelled.
--
-- HashTable: dsac/include/dsac/container/hash/hashtable.hpp. The nodes on one entry of the vector are a list;
-- `hash` and the equality of keys are arguments. `Chain` and `Buckets` are one entry and the vector,
-- `Rehash` the growth, `Run` the table against a function from keys to values.
--
-- Graphviz: the analyzers of dsac/{include/dsac,src}/container/graph/detail/graphviz_*. A text is a list of
-- bytes; `Lexer` is the lexical analyzer, with the position as what is left of the text, `Ast` the syntax
-- tree, `Parser` the syntax analyzer, as functions of its state into a result or an exception. Its loops
-- and its recursion take rounds, one more than the text has bytes; `Shrinking`, `Rounds` and `Total` show
-- that they are enough. `Print` is the grammar of the texts that are written and read back. `Reader` is
-- dsac/include/dsac/container/graph/read_graphviz.hpp with the insertions of directed_graph.hpp; the keys that
-- the types of nodes and edges give to a name are arguments.
--
-- DisjointSet: dsac/{include/dsac,src}/container/graph/disjoint_set_union.*. The loops of `Find` take one
-- round more than there are vertices; in a forest this is enough.
--
-- Concurrency/FirstN and Concurrency/FirstOf: dsac/include/dsac/concurrency/futures/combine. The state has the
-- context that the callbacks share, and for each future where its callback stands.
--
-- Sort/Merge: dsac/include/dsac/algorithm/merge_sort.hpp. The recursion takes as many rounds as there are
-- elements; `operator<=` is an argument. The indices are `int` of 32 bits, and a sum that overflows is `none`.
--
-- SharedPtr: dsac/include/dsac/memory/shared_ptr.hpp. The pointers of a program are a list, and what one
-- constructor allocates is a block of the heap. `Blocks` has the heap, `Owners` the list of the blocks that
-- the pointers hold, `Slots` and `Calls` what each call does to it, `Run` any calls.
--
-- Bfs: dsac/include/dsac/algorithm/breadth_first_search.hpp. The graph is the ends of the edges of each node. The
-- loop over the queue takes one round more than there are nodes, and the one over the path one for each
-- node that was visited. `Expand` and `Queue` are one node, `Search` the loop, `Path` the path and the whole.
--
-- Prelude: shared names, tests into Bool, lists measured by native numbers, arrays, signed integers.
-- Tests: runs at concrete inputs, one theorem applied in each example.
--
-- Every other loop is recursion on its range or on the rounds left, so that no fuel is chosen.
-- Not modelled: vendored code (functional/expected.hpp, functional/function2.hpp, memory/not_null.hpp,
-- httplib.hpp), JSON and HTTP, fibers and their assembly, coroutines and the network examples; and, left
-- for later, the other locks and stacks, the other trees, the extendible hash table, the other searches
-- in graphs, the other sorts, the dynamic array and the patterns.
pub mod Avl
pub mod Bfs
pub mod Cache
pub mod Concurrency
pub mod DisjointSet
pub mod Graphviz
pub mod HashTable
pub mod Heap
pub mod Intrusive
pub mod Prelude
pub mod Replication
pub mod SharedPtr
pub mod Sort
pub mod Tests
