-- ===== src/Replication/Coordinator.antt =====
-- infrastructure/policy/majority_quorum.hpp, presentation/web/register_replica_client.cpp and
-- application/commands/coordinator: a read or a write of the coordinator over all nodes.
-- What the network does with a request, and the order in which the nodes reply, are part of each node's record.
-- A read and the write that repairs are two requests, each with its own fate.
pub mod Laws
pub mod Reads
pub mod Repair
use dsac.Prelude.{
  ℕ, ◌+◌, ◌/◌, Bool, true, false, List, [], ◌∷◌, ◌++◌, ◌≡◌, Option, none, some, length, ltb,
  if◌then◌else◌, map,
}
use dsac.Prelude.Int.{ℤ}
use dsac.Replication.Register
use dsac.Replication.Register.{RegisterValueObject, Register}
use dsac.Replication.Cluster.{
  Snapshot, ClusterValueObject, Outcome, ok, throw, Reply, answer, failure, cast,
  restore_from_snapshots, is_consistent, get_latest_value, get_latest_timestamp,
}

-- `majority_quorum_policy::quorum`
unfoldable pub quorum : ℕ → ℕ
quorum n = n / 2 + 1

-- when the request of a write comes to the node: before the command returns, afterwards or never
pub data Arrival : Type 0 where
  in_time late lost : Arrival

pub record Node : Type 0 where
  pub register : Register
  -- writes under way to the node, whose commands have returned
  pub pending : List RegisterValueObject
  -- the read of this command reaches the node
  pub online : Bool
  -- the fate of the write of this command
  pub arrival : Arrival
  -- the node's reply is one of those that `first_n` waits for
  pub among_first : Bool

-- what the replica's controller answers to a read: a register that is not set is an error
reply_of : Option RegisterValueObject → Reply
reply_of none = failure
reply_of (some r) = answer r

-- `register_replica_client::async_read`
unfoldable pub async_read : Node → Reply
unfolding reply_of Register.read
async_read node = if node.online then reply_of (Register.read node.register) else failure

-- `register_replica_client::async_write`: the result of the request is dropped
unfoldable pub async_write : RegisterValueObject → Node → Node
async_write o node = elim node.arrival [
  | in_time ↦ record node { register = Register.write o node.register }
  | late ↦ record node { pending = o ∷ node.pending }
  | lost ↦ node
]

-- `first_n` over the reads: the replies that it waits for, in the order of the replicas
unfoldable pub collect : List Node → List Reply
unfolding async_read
collect [] = []
collect (node ∷ nodes) = if node.among_first then async_read node ∷ collect nodes else collect nodes

-- A handler returns, or raises the error of a future.
pub data Handled {ℓ} (A : Type ℓ) : Type ℓ where
  returns : A → Handled A
  raises : Handled A

-- `cluster_value_object::restore_from_replicas`; `first_n` fails where the quorum exceeds the nodes
unfoldable pub restore_from_replicas : List Node → Handled ClusterValueObject
unfolding collect quorum cast restore_from_snapshots
restore_from_replicas nodes =
    if ltb (length nodes) (quorum (length nodes))
    then raises
    else returns (restore_from_snapshots (cast (collect nodes)))

-- `cluster_value_object::store_to_replicas`: every future of a write holds a null pointer. The call returns when
-- a quorum of the requests has ended, one way or the other; `arrival` says which writes were stored by then.
unfoldable pub store_to_replicas : RegisterValueObject → List Node → Handled (List Node)
unfolding async_write quorum
store_to_replicas o nodes =
    if ltb (length nodes) (quorum (length nodes))
    then raises
    else returns (map (async_write o) nodes)

-- `write_register_command_handler::handle`
unfoldable pub handle_write : RegisterValueObject → List Node → Handled (List Node)
unfolding store_to_replicas
handle_write o nodes = store_to_replicas o nodes

-- the object of `get_latest_value` and `get_latest_timestamp`
latest : ClusterValueObject → Outcome RegisterValueObject
unfolding get_latest_value get_latest_timestamp
latest cluster = elim (get_latest_value cluster) [
  | throw e ↦ throw e
  | ok v ↦ elim (get_latest_timestamp cluster) [
    | throw e ↦ throw e
    | ok t ↦ ok (record { value = v; timestamp = t })
  ]
]

-- the body of the `try`, after the write of the repair
finish : List Node → ClusterValueObject → Handled (Option RegisterValueObject × List Node)
unfolding latest
finish nodes cluster = elim (latest cluster) [
  | ok r ↦ returns (some r, nodes)
  | throw e ↦ returns (none, nodes)
]

-- `if (not cluster.is_consistent())`
repair : List Node → ClusterValueObject → Handled (List Node)
unfolding is_consistent handle_write latest
repair nodes cluster =
    if is_consistent cluster
    then returns nodes
    else elim (latest cluster) [ ok r ↦ handle_write r nodes | throw e ↦ returns nodes ]

serve : List Node → ClusterValueObject → Handled (Option RegisterValueObject × List Node)
unfolding repair finish
serve nodes cluster = elim (repair nodes cluster) [
  | raises ↦ raises
  | returns nodes' ↦ finish nodes' cluster
]

-- `read_and_write_register_command_handler::handle`; a `cluster_exception` is `std::nullopt`
unfoldable pub handle_read : List Node → Handled (Option RegisterValueObject × List Node)
unfolding restore_from_replicas serve
handle_read nodes = elim (restore_from_replicas nodes) [
  | raises ↦ raises
  | returns cluster ↦ serve nodes cluster
]

-- The network between two commands: which nodes a read reaches, which reply first, and what becomes of a write.
unfoldable pub reflag : List (Bool × Bool × Arrival) → List Node → List Node
reflag [] nodes = nodes
reflag (f ∷ fs) [] = []
reflag ((reached, first, outcome) ∷ fs) (node ∷ nodes) =
    record node { online = reached; among_first = first; arrival = outcome } ∷ reflag fs nodes

-- One command after another, and the arrival of late writes in any order.
pub data Step (nodes : List Node) : List Node → Type 0 where
  network : (flags : List (Bool × Bool × Arrival)) → Step nodes (reflag flags nodes)
  write_command :
      (o : RegisterValueObject)
      → {nodes' : List Node} → handle_write o nodes ≡ returns nodes'
      → Step nodes nodes'
  read_command :
      {r : Option RegisterValueObject}
      → {nodes' : List Node} → handle_read nodes ≡ returns (r, nodes')
      → Step nodes nodes'
  late_write :
      (o : RegisterValueObject)
      → (earlier later : List RegisterValueObject) → (front back : List Node) → (node : Node)
      → nodes ≡ front ++ node ∷ back
      → node.pending ≡ earlier ++ o ∷ later
      → Step nodes (
          front
          ++ record node { register = Register.write o node.register; pending = earlier ++ later }
            ∷ back)
