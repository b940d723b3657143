-- ===== src/Replication/Coordinator/Laws.antt =====
-- application/commands/coordinator: majorities of the nodes, and the registers that no step makes older.
use dsac.Prelude.{
  ℕ, ◌+◌, ◌*◌, ◌≤◌, ◌<◌, ◌≡◌, Bool, true, false, ◌&&◌, List, [], ◌∷◌, ◌++◌, inl, inr, arith, Any,
  Bool-cases, length, map, none, some, leb, if◌then◌else◌,
}
use dsac.Replication.Register
use dsac.Replication.Register.{RegisterValueObject, Register}
use dsac.Replication.Cluster.{cast, to_snapshot, Snapshot, valid, unexpected}
use dsac.Replication.Coordinator.{
  Arrival, in_time, late, lost, Node, quorum, async_write, async_read, collect, reflag, reply_of,
}

-- the nodes that satisfy a test, counted
unfoldable pub count_nodes : (Node → Bool) → List Node → ℕ
count_nodes test [] = 0
count_nodes test (node ∷ nodes) = (if test node then 1 else 0) + count_nodes test nodes

-- Over one node or more, a majority is at most all of them, and two majorities have a node in common.
pub quorum_bounds : (n : ℕ) → 0 < n → (quorum n ≤ n) × (n < 2 * quorum n)
unfolding quorum
quorum_bounds n h = omega arith

-- the node's reply to a read is one of those that the read waits for
abbrev pub replies_in_time : Node → Bool
replies_in_time node = node.online && node.among_first

-- the write of this command is stored before the command returns
abbrev pub stores_in_time : Node → Bool
stores_in_time node = elim node.arrival [ in_time ↦ true | late ↦ false | lost ↦ false ]

-- `s` is a valid snapshot with a timestamp of at least `t`
abbrev pub IsSince : ℕ → Snapshot → Type 0
IsSince t (valid r) = t ≤ r.timestamp
IsSince t (unexpected e) = ⊥

-- the register is set, with a timestamp of at least `t`
unfoldable pub is_since : ℕ → Register → Bool
is_since t none = false
is_since t (some r) = leb t r.timestamp

pub write-is_since :
    (t : ℕ) (o : RegisterValueObject) (register : Register)
    → is_since t register ≡ true
    → is_since t (Register.write o register) ≡ true
unfolding is_since Register.write
write-is_since t o none h = absurd (cc)
write-is_since t o (some r) h = ground arith

write-is_since_self :
    (o : RegisterValueObject) (register : Register)
    → is_since o.timestamp (Register.write o register) ≡ true
unfolding is_since Register.write
write-is_since_self o none = ground arith
write-is_since_self o (some r) = ground arith

pub async_write-is_since :
    (t : ℕ) (o : RegisterValueObject) (node : Node)
    → is_since t node.register ≡ true
    → is_since t (async_write o node).register ≡ true
unfolding async_write
async_write-is_since t o node h = ground (arith, write-is_since t o node.register)

pub async_write-is_since_self :
    (o : RegisterValueObject) (node : Node)
    → stores_in_time node ≡ true
    → is_since o.timestamp (async_write o node).register ≡ true
unfolding async_write
async_write-is_since_self o node h = ground (arith, write-is_since_self o node.register)

pub count_nodes-map :
    (f : Node → Node) (p q : Node → Bool)
    → ((node : Node) → p node ≡ true → q (f node) ≡ true)
    → (nodes : List Node) → count_nodes p nodes ≤ count_nodes q (map f nodes)
unfolding count_nodes
count_nodes-map f p q keep [] = omega arith
count_nodes-map f p q keep (node ∷ nodes) =
    let rest = count_nodes-map f p q keep nodes in ground (arith, keep node)

pub count_nodes-append :
    (p : Node → Bool) (xs ys : List Node)
    → count_nodes p (xs ++ ys) ≡ count_nodes p xs + count_nodes p ys
unfolding count_nodes
count_nodes-append p [] ys = omega arith
count_nodes-append p (x ∷ xs) ys = omega (arith, count_nodes-append p xs ys)

pub length-map : (f : Node → Node) (nodes : List Node) → length (map f nodes) ≡ length nodes
length-map f [] = omega arith
length-map f (node ∷ nodes) = omega (arith, length-map f nodes)

pub reflag-keeps :
    (t : ℕ) (flags : List (Bool × Bool × Arrival)) (nodes : List Node)
    → (length (reflag flags nodes) ≡ length nodes)
      × (count_nodes (λ node. is_since t node.register) (reflag flags nodes)
          ≡ count_nodes (λ node. is_since t node.register) nodes)
unfolding reflag count_nodes
reflag-keeps t [] nodes = (omega arith, omega arith)
reflag-keeps t (f ∷ fs) [] = (omega arith, omega arith)
reflag-keeps t ((reached, first, outcome) ∷ fs) (node ∷ nodes) =
    let (len, count) = reflag-keeps t fs nodes in (omega arith, omega arith)

async_read-IsSince :
    (t : ℕ) (node : Node)
    → is_since t node.register ≡ true
    → node.online ≡ true
    → IsSince t (to_snapshot (async_read node))
unfolding to_snapshot async_read reply_of Register.read is_since
async_read-IsSince t node h on = ground arith

-- If so many registers are recent, and so many nodes reply in time, that together they are more than all nodes,
-- then one of the snapshots of the read is valid and recent.
pub overlap-Any :
    (t : ℕ) (nodes : List Node)
    → length nodes
      < count_nodes (λ node. is_since t node.register) nodes + count_nodes replies_in_time nodes
    → Any (IsSince t) (cast (collect nodes))
unfolding count_nodes collect cast
overlap-Any t [] h = absurd (omega arith)
overlap-Any t (node ∷ nodes) h = elim (Bool-cases node.among_first) [
  | inl first ↦ elim (Bool-cases (is_since t node.register && node.online)) [
    | inl both ↦ rw first (inl (async_read-IsSince t node (ground arith) (ground arith)))
    | inr other ↦ rw first (inr (overlap-Any t nodes (ground arith)))
  ]
  | inr after ↦ rw after (overlap-Any t nodes (ground arith))
]
