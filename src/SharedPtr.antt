-- ===== src/SharedPtr.antt =====
-- memory/shared_ptr.hpp. The pointers of a program are a list of slots, so that two names of one pointer are one
-- index. The object, the counter and the deleter that one constructor allocates are a block; `none` is an access
-- to what was freed or to a null pointer, or a slot outside the list. The calls run one after the other.
pub mod Blocks
pub mod Owners
pub mod Slots
pub mod Calls
pub mod Run
use dsac.Prelude.{
  [], ◌∷◌, ℕ, ◌+◌, ◌-◌, Bool, true, false, List, Option, none, some, get_elem?, ◌==◌, ◌>>=◌,
  if◌then◌else◌,
}
use dsac.Prelude.Arrays.{write}

-- the object, `ref_count_` and `deleter_`; the counter is `none` once it was deleted
pub record Block : Type 0 where
  pub object : Bool
  pub count : Option ℕ
  pub deleter : Bool

-- the members, by the number of the block they point to
pub record SharedPtr : Type 0 where
  pub ptr : Option ℕ
  pub ref_count : Option ℕ
  pub deleter : Option ℕ

-- blocks from `fresh` on were not allocated yet
pub record Heap : Type 0 where
  pub fresh : ℕ
  pub block : ℕ → Block

pub record World : Type 0 where
  pub slots : List SharedPtr
  pub heap : Heap

abbrev pub null : SharedPtr
null = record { ptr = none; ref_count = none; deleter = none }

abbrev pub store : ℕ → Block → Heap → Heap
store a b h = record h { block = λ x. if x == a then b else h.block x }

-- `shared_ptr(T* other)`; the flag says that `other` is not null
unfoldable pub construct : Bool → Heap → SharedPtr × Heap
construct given h = (
  record {
    ptr = if given then some h.fresh else none;
    ref_count = some h.fresh;
    deleter = some h.fresh;
  },
  record (store h.fresh (record { object = given; count = some 1; deleter = true }) h) {
    fresh = h.fresh + 1;
  },
)

-- `++(*ref_count_)`
unfoldable pub increment : Option ℕ → Heap → Option Heap
increment none h = none
increment (some a) h =
    (h.block a).count >>= λ n. some (store a (record (h.block a) { count = some (n + 1) }) h)

-- the copy constructor
unfoldable pub copy : SharedPtr → Heap → Option (SharedPtr × Heap)
unfolding increment
copy other h = elim other.ptr [
  | none ↦ some (other, h)
  | some p ↦ increment other.ref_count h >>= λ h'. some (other, h')
]

-- `--(*ref_count_)`, and the new count
unfoldable pub decrement : Option ℕ → Heap → Option (ℕ × Heap)
decrement none h = none
decrement (some a) h =
    (h.block a).count >>= λ n. some (n - 1, store a (record (h.block a) { count = some (n - 1) }) h)

-- `delete` of the counter, of the object and of the deleter
unfoldable pub delete_count : Option ℕ → Heap → Option Heap
delete_count none h = none
delete_count (some a) h =
    (h.block a).count >>= λ n. some (store a (record (h.block a) { count = none }) h)

unfoldable pub delete_object : ℕ → Option ℕ → Heap → Option Heap
delete_object p none h = none
delete_object p (some d) h =
    if (h.block d).deleter
    then (if (h.block p).object
        then some (store p (record (h.block p) { object = false }) h)
        else none)
    else none

unfoldable pub delete_deleter : Option ℕ → Heap → Option Heap
delete_deleter none h = none
delete_deleter (some a) h =
    if (h.block a).deleter then some (store a (record (h.block a) { deleter = false }) h) else none

-- the destructor
unfoldable pub destroy : SharedPtr → Heap → Option Heap
unfolding decrement delete_count delete_object delete_deleter
destroy s h = elim s.ptr [
  | none ↦ some h
  | some p ↦ do
    (n, h1) ← decrement s.ref_count h
    if n == 0
        then (do
          h2 ← delete_count s.ref_count h1
          h3 ← delete_object p s.deleter h2
          delete_deleter s.deleter h3)
        else some h1
]

-- the calls of a program
pub data Call : Type 0 where
  make : ℕ → Call  -- `make_shared`, or the constructor with `new T`
  copy_construct : ℕ → ℕ → Call
  move_construct : ℕ → ℕ → Call
  copy_assign : ℕ → ℕ → Call
  move_assign : ℕ → ℕ → Call
  reset : ℕ → Call
  reset_to : ℕ → Call  -- `reset(new T)`
  swap : ℕ → ℕ → Call
  leave : ℕ → Call  -- the end of the scope; the slot is null until a constructor is called on it

-- `std::exchange` of the members with null
unfoldable pub take : ℕ → List SharedPtr → Option (SharedPtr × List SharedPtr)
take i slots = get_elem? slots i >>= λ s. write slots i null >>= λ slots'. some (s, slots')

-- `tmp.swap(*this)` and the destructor of `tmp`
unfoldable pub swap_in : ℕ → SharedPtr → World → Option World
unfolding destroy
swap_in i tmp w = do
  old ← get_elem? w.slots i
  slots ← write w.slots i tmp
  h ← destroy old w.heap
  some (record { slots = slots; heap = h })

unfoldable pub call : Call → World → Option World
unfolding construct copy take swap_in
call (make i) w =
    let made = construct true w.heap in
    write w.slots i (made.0) >>= λ slots. some (record { slots = slots; heap = made.1 })
call (copy_construct i j) w = do
  other ← get_elem? w.slots j
  (s, h) ← copy other w.heap
  slots ← write w.slots i s
  some (record { slots = slots; heap = h })
call (move_construct i j) w = do
  (s, slots) ← take j w.slots
  slots' ← write slots i s
  some (record w { slots = slots' })
call (copy_assign i j) w = if j == i then some w else (do
  other ← get_elem? w.slots j
  (tmp, h) ← copy other w.heap
  swap_in i tmp (record w { heap = h }))
call (move_assign i j) w = do
  w1 ← swap_in i null w
  (s, slots) ← take j w1.slots
  slots' ← write slots i s
  some (record w1 { slots = slots' })
call (reset i) w = swap_in i null w
call (reset_to i) w =
    let made = construct true w.heap in swap_in i (made.0) (record w { heap = made.1 })
call (swap i j) w = do
  a ← get_elem? w.slots i
  b ← get_elem? w.slots j
  slots ← write w.slots i b
  slots' ← write slots j a
  some (record w { slots = slots' })
call (leave i) w = swap_in i null w

unfoldable pub run : List Call → World → Option World
unfolding call
run [] w = some w
run (c ∷ calls) w = call c w >>= run calls
