-- ===== src/Replication/Coordinator/Repair.antt =====
-- application/commands/coordinator: the two handlers on every branch, and the repair of a read.
use dsac.Prelude.{
  ◌<◌, ◌≡◌, refl, false, List, [], ◌∷◌, ◌⊎◌, inl, inr, arith, All, Any, Bool-cases, ap, ◌∙◌, length,
  map, none, some, if◌then◌else◌, ltb,
}
use dsac.Replication.Register.{RegisterValueObject}
use dsac.Replication.Register.Laws.{IsAtLeast, write-IsAtLeast_self}
use dsac.Replication.Cluster.{
  SnapshotError, cast, Snapshot, valid, unexpected, restore_from_snapshots, is_consistent,
  ClusterValueObject, get_latest_value, get_latest_timestamp, get_fresh_snapshot,
}
use dsac.Replication.Cluster.Laws.{
  is_consistent→All, All→is_consistent, IsUnset, get_fresh_snapshot_cases,
}
use dsac.Replication.Coordinator.{
  in_time, late, lost, Node, quorum, async_write, collect, returns, raises, handle_write,
  handle_read, serve, repair, finish, latest, restore_from_replicas,
}
use dsac.Replication.Coordinator.Laws.{quorum_bounds}

enough : (nodes : List Node) → 0 < length nodes → ltb (length nodes) (quorum (length nodes)) ≡ false
enough nodes h = ground (arith, quorum_bounds (length nodes))

map_same {ℓ} : {A : Type ℓ} (f : A → A) (xs : List A) → All (λ x. f x ≡ x) xs → map f xs ≡ xs
map_same f [] h = refl
map_same f (x ∷ xs) (e, rest) = rw (e, map_same f xs rest)

pub handle_write_lem :
    (o : RegisterValueObject) (nodes : List Node)
    → 0 < length nodes
    → handle_write o nodes ≡ returns (map (async_write o) nodes)
unfolding handle_write
handle_write_lem o nodes h = rw (enough nodes h)

All-unreached :
    (o : RegisterValueObject) (nodes : List Node)
    → All (λ node. node.arrival ≡ lost) nodes
    → All (λ node. async_write o node ≡ node) nodes
unfolding async_write
All-unreached o [] h = tt
All-unreached o (node ∷ nodes) (off, rest) = (ground arith, All-unreached o nodes rest)

-- A write over one node or more is confirmed also when it reaches none of them, and then no register
-- has changed.
pub handle_write_unreached :
    (o : RegisterValueObject) (nodes : List Node)
    → 0 < length nodes
    → All (λ node. node.arrival ≡ lost) nodes
    → handle_write o nodes ≡ returns nodes
handle_write_unreached o nodes h off =
    handle_write_lem o nodes h
    ∙ ap returns (map_same (async_write o) nodes (All-unreached o nodes off))

repair-valid :
    (nodes : List Node) (ss : List Snapshot) (r : RegisterValueObject)
    → 0 < length nodes
    → let c : ClusterValueObject = record { snapshots = ss; fresh_snapshot = valid r } in
      repair nodes c ≡ returns (if is_consistent c then nodes else map (async_write r) nodes)
unfolding repair latest get_latest_value get_latest_timestamp
repair-valid nodes ss r h = ground (arith, handle_write_lem r nodes)

-- what `serve` does once the fresh snapshot is known
serve-valid :
    (nodes : List Node) (ss : List Snapshot) (r : RegisterValueObject)
    → 0 < length nodes
    → let c : ClusterValueObject = record { snapshots = ss; fresh_snapshot = valid r } in
      serve nodes c
      ≡ returns (some r, (if is_consistent c then nodes else map (async_write r) nodes))
unfolding serve finish latest get_latest_value get_latest_timestamp
serve-valid nodes ss r h = rw (repair-valid nodes ss r h, serve)

serve-unset :
    (nodes : List Node) (ss : List Snapshot) (e : SnapshotError)
    → serve nodes (record { snapshots = ss; fresh_snapshot = unexpected e }) ≡ returns (none, nodes)
unfolding serve repair finish latest get_latest_value get_latest_timestamp is_consistent
serve-unset nodes ss e = refl

-- what has become of the write of `r` to the node
abbrev pub IsRepaired : RegisterValueObject → Node → Type 0
IsRepaired r node = elim node.arrival [
  | in_time ↦ IsAtLeast r.timestamp node.register
  | late ↦ Any (λ w. w ≡ r) node.pending
  | lost ↦ Unit
]

async_write-IsRepaired : (r : RegisterValueObject) (node : Node) → IsRepaired r (async_write r node)
unfolding async_write
async_write-IsRepaired r node = ground (arith, write-IsAtLeast_self r node.register)

All-IsRepaired-map :
    (r : RegisterValueObject) (nodes : List Node) → All (IsRepaired r) (map (async_write r) nodes)
All-IsRepaired-map r [] = tt
All-IsRepaired-map r (node ∷ nodes) = (async_write-IsRepaired r node, All-IsRepaired-map r nodes)

handle_read-serve :
    (nodes : List Node)
    → 0 < length nodes
    → handle_read nodes ≡ serve nodes (restore_from_snapshots (cast (collect nodes)))
unfolding handle_read restore_from_replicas
handle_read-serve nodes h = rw (enough nodes h, handle_read)

-- the nodes that the read leaves
abbrev pub repaired_nodes : RegisterValueObject → List Node → List Node
repaired_nodes r nodes =
    let ss = cast (collect nodes) in
    if is_consistent (record { snapshots = ss; fresh_snapshot = valid r })
    then nodes
    else map (async_write r) nodes

pub handle_read-cases :
    (nodes : List Node)
    → 0 < length nodes
    → (All IsUnset (cast (collect nodes)) × (handle_read nodes ≡ returns (none, nodes)))
      ⊎ ((r : RegisterValueObject) × (get_fresh_snapshot (cast (collect nodes)) ≡ valid r)
          × Any (λ s. s ≡ valid r) (cast (collect nodes))
          × (handle_read nodes ≡ returns (some r, repaired_nodes r nodes)))
unfolding restore_from_snapshots
handle_read-cases nodes h =
    let ss = cast (collect nodes) in
    elim (get_fresh_snapshot_cases ss) [
      | inl (unset, (e, fresh)) ↦
          inl (unset, handle_read-serve nodes h ∙ rw fresh (serve-unset nodes ss e))
      | inr (r, fresh, member) ↦
          inr (r, fresh, member, handle_read-serve nodes h ∙ rw fresh (serve-valid nodes ss r h))
    ]

-- what a read has done to the nodes: nothing, where the replies agree, or else its repair
repaired_nodes-cases :
    (r : RegisterValueObject) (nodes : List Node)
    → (All (λ s. s ≡ valid r) (cast (collect nodes)) × (repaired_nodes r nodes ≡ nodes))
      ⊎ ((All (λ s. s ≡ valid r) (cast (collect nodes)) → ⊥)
          × All (IsRepaired r) (repaired_nodes r nodes))
unfolding is_consistent
repaired_nodes-cases r nodes =
    let ss = cast (collect nodes) in
    let c : ClusterValueObject = record { snapshots = ss; fresh_snapshot = valid r } in
    elim (Bool-cases (is_consistent c)) [
      | inl e ↦ inl (is_consistent→All r ss e, rw e refl)
      | inr e ↦
          inr (λ all. let f = All→is_consistent r ss all in cc, rw e (All-IsRepaired-map r nodes))
    ]

-- without nodes, `first_n` fails
pub handle_write-none : (o : RegisterValueObject) → handle_write o [] ≡ raises
unfolding handle_write quorum
handle_write-none o = refl

pub handle_read-none : handle_read [] ≡ raises
unfolding handle_read restore_from_replicas quorum
handle_read-none = refl

pub repaired_nodes-shape :
    (r : RegisterValueObject) (nodes : List Node)
    → (repaired_nodes r nodes ≡ nodes) ⊎ (repaired_nodes r nodes ≡ map (async_write r) nodes)
repaired_nodes-shape r nodes =
    elim (Bool-cases
      (is_consistent (record { snapshots = cast (collect nodes); fresh_snapshot = valid r }))) [
        | inl e ↦ inl (rw e refl)
        | inr e ↦ inr (rw e refl)
      ]

-- A read over one node or more returns. If no reply in time is valid, it returns nothing and changes no node.
-- Otherwise it returns one of the valid replies. If all replies are that one, it changes no node; and if they are
-- not, then of the writes of the repair those that arrive before the return have left a register that is set and no
-- older than the object returned, and those that arrive later are under way to their nodes.
pub handle_read_repairs :
    (nodes : List Node)
    → 0 < length nodes
    → (All IsUnset (cast (collect nodes)) × (handle_read nodes ≡ returns (none, nodes)))
      ⊎ ((r : RegisterValueObject) × (nodes' : List Node) × Any
            (λ s. s ≡ valid r)
            (cast (collect nodes))
          × (handle_read nodes ≡ returns (some r, nodes'))
          × ((All (λ s. s ≡ valid r) (cast (collect nodes)) × (nodes' ≡ nodes))
              ⊎ ((All (λ s. s ≡ valid r) (cast (collect nodes)) → ⊥) × All (IsRepaired r) nodes')))
handle_read_repairs nodes h = elim (handle_read-cases nodes h) [
  | inl unset ↦ inl unset
  | inr (r, fresh, member, run) ↦
      inr (r, repaired_nodes r nodes, member, run, repaired_nodes-cases r nodes)
]
