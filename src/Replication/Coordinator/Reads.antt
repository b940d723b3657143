-- ===== src/Replication/Coordinator/Reads.antt =====
-- application/commands/coordinator: a read that comes after a write, with other commands between.
use dsac.Prelude.{
  ℕ, ◌≤◌, ◌<◌, ◌≡◌, Bool, false, List, [], ◌∷◌, ◌++◌, inl, inr, arith, All, Any, refl, subst, sym,
  length, length-append, map, some, Option,
}
use dsac.Prelude.Int.{ltbℤ}
use dsac.Concurrency.Run.{Reach, Reach-invariant}
use dsac.Replication.Register
use dsac.Replication.Register.{RegisterValueObject, Register}
use dsac.Replication.Cluster.{cast, Snapshot, valid, unexpected}
use dsac.Replication.Cluster.Laws.{IsAtMost, IsUnset, get_fresh_snapshot-All}
use dsac.Replication.Coordinator.{
  Node, quorum, async_write, collect, returns, handle_write, handle_read, Step, network,
  write_command, read_command, late_write,
}
use dsac.Replication.Coordinator.Laws.{
  count_nodes, count_nodes-map, count_nodes-append, length-map, quorum_bounds, replies_in_time,
  stores_in_time, IsSince, is_since, write-is_since, async_write-is_since,
  async_write-is_since_self, reflag-keeps, overlap-Any,
}
use dsac.Replication.Coordinator.Repair.{
  handle_write_lem, handle_read-cases, repaired_nodes, repaired_nodes-shape, handle_write-none,
  handle_read-none,
}

-- how many registers are set with a timestamp of at least `t`
abbrev count_since : ℕ → List Node → ℕ
count_since t nodes = count_nodes (λ node. is_since t node.register) nodes

-- `nodes'` are as many nodes as `nodes`, and no fewer of them are recent
record IsKept (t : ℕ) (nodes nodes' : List Node) : Type 0 where
  same : length nodes' ≡ length nodes
  count : count_since t nodes ≤ count_since t nodes'

write-IsKept :
    (t : ℕ) (o : RegisterValueObject) (nodes : List Node)
    → IsKept t nodes (map (async_write o) nodes)
write-IsKept t o nodes = record {
  same = length-map (async_write o) nodes;
  count =
      count_nodes-map (async_write o) (λ node. is_since t node.register)
        (λ node. is_since t node.register) (async_write-is_since t o) nodes;
}

IsKept-refl : (t : ℕ) (nodes : List Node) → IsKept t nodes nodes
IsKept-refl t nodes = record { same = refl; count = omega arith }

write_command-IsKept :
    (t : ℕ) (o : RegisterValueObject) (nodes nodes' : List Node)
    → handle_write o nodes ≡ returns nodes'
    → IsKept t nodes nodes'
write_command-IsKept t o [] nodes' run = absurd (let e = handle_write-none o in cc)
write_command-IsKept t o (node ∷ nodes) nodes' run =
    let e : map (async_write o) (node ∷ nodes) ≡ nodes' =
      let f = handle_write_lem o (node ∷ nodes) (omega arith) in grind arith in
    subst (IsKept t (node ∷ nodes)) e (write-IsKept t o (node ∷ nodes))

read_command-IsKept :
    (t : ℕ) (r : Option RegisterValueObject) (nodes nodes' : List Node)
    → handle_read nodes ≡ returns (r, nodes')
    → IsKept t nodes nodes'
read_command-IsKept t r [] nodes' run = absurd (let e = handle_read-none in cc)
read_command-IsKept t r (node ∷ nodes) nodes' run =
    elim (handle_read-cases (node ∷ nodes) (omega arith)) [
      | inl (unset, f) ↦
          let e : node ∷ nodes ≡ nodes' = grind arith in
          subst (IsKept t (node ∷ nodes)) e (IsKept-refl t (node ∷ nodes))
      | inr (w, fresh, member, f) ↦
          let e : repaired_nodes w (node ∷ nodes) ≡ nodes' = grind arith in
          subst (IsKept t (node ∷ nodes)) e (elim (repaired_nodes-shape w (node ∷ nodes)) [
            | inl g ↦ subst (IsKept t (node ∷ nodes)) (sym g) (IsKept-refl t (node ∷ nodes))
            | inr g ↦ subst (IsKept t (node ∷ nodes)) (sym g) (write-IsKept t w (node ∷ nodes))
          ])
    ]

late_write-IsKept :
    (t : ℕ) (o : RegisterValueObject) (pending : List RegisterValueObject) (front back : List Node)
    (node : Node)
    → IsKept t (front ++ node ∷ back) (
        front
        ++ record node { register = Register.write o node.register; pending = pending } ∷ back)
unfolding count_nodes
late_write-IsKept t o pending front back node =
    let test : Node → Bool = λ n. is_since t n.register in
    let node' : Node = record node {
      register = Register.write o node.register;
      pending = pending;
    } in
    record {
      same = omega (arith, length-append front (node ∷ back), length-append front (node' ∷ back));
      count = ground (
        arith,
        count_nodes-append test front (node ∷ back),
        count_nodes-append test front (node' ∷ back),
        write-is_since t o node.register,
      );
    }

Step-IsKept : (t : ℕ) (nodes nodes' : List Node) → Step nodes nodes' → IsKept t nodes nodes'
Step-IsKept t nodes _ (network flags) =
    let (len, count) = reflag-keeps t flags nodes in record { same = len; count = omega arith }
Step-IsKept t nodes nodes' (write_command o run) = write_command-IsKept t o nodes nodes' run
Step-IsKept t nodes nodes' (read_command {r} run) = read_command-IsKept t r nodes nodes' run
Step-IsKept t nodes _ (late_write o earlier later front back node e f) =
    subst
      (λ ns. IsKept t ns (
        front
        ++ record node { register = Register.write o node.register; pending = earlier ++ later }
          ∷ back))
      (sym e) (late_write-IsKept t o (earlier ++ later) front back node)

Reach-IsKept : (t : ℕ) {nodes nodes' : List Node} → Reach Step nodes nodes' → IsKept t nodes nodes'
Reach-IsKept t {nodes} run =
    Reach-invariant (IsKept t nodes)
      (λ ns ns' st h.
        let g = Step-IsKept t ns ns' st in
        record { same = omega (arith, h.same, g.same); count = omega (arith, h.count, g.count) })
      run (IsKept-refl t nodes)

-- a write that a majority stores in time is in a majority of the registers, and stays there
write-IsKept_majority :
    (o : RegisterValueObject) (nodes : List Node) {nodes1 : List Node}
    → handle_write o nodes ≡ returns nodes1
    → (length nodes1 ≡ length nodes)
      × (0 < length nodes1)
      × (count_nodes stores_in_time nodes ≤ count_since o.timestamp nodes1)
write-IsKept_majority o [] run = absurd (let e = handle_write-none o in cc)
write-IsKept_majority o (node ∷ nodes) {nodes1} run =
    let all = node ∷ nodes in
    let e : map (async_write o) all ≡ nodes1 =
      let f = handle_write_lem o all (omega arith) in grind arith in
    let len = length-map (async_write o) all in
    let count =
      count_nodes-map (async_write o) stores_in_time (λ n. is_since o.timestamp n.register)
        (async_write-is_since_self o) all in
    subst
      (λ ns.
        (length ns ≡ length all)
        × (0 < length ns)
        × (count_nodes stores_in_time all ≤ count_since o.timestamp ns))
      e (len, omega arith, count)

none_unset : (t : ℕ) (ss : List Snapshot) → Any (IsSince t) ss → All IsUnset ss → ⊥
none_unset t [] h unset = h
none_unset t (valid r ∷ ss) h unset = unset.0
none_unset t (unexpected e ∷ ss) (inl h) unset = h
none_unset t (unexpected e ∷ ss) (inr h) unset = none_unset t ss h unset.1

-- a recent snapshot whose value is not greater than that of `r`
recent_below :
    (t : ℕ) (r : RegisterValueObject) (ss : List Snapshot)
    → Any (IsSince t) ss
    → All (IsAtMost (valid r)) ss
    → (a : RegisterValueObject) × (t ≤ a.timestamp)
      × Any (λ s. s ≡ valid a) ss
      × (ltbℤ r.value a.value ≡ false)
recent_below t r [] h most = absurd h
recent_below t r (valid a ∷ ss) (inl h) most = (a, h, inl refl, most.0)
recent_below t r (unexpected e ∷ ss) (inl h) most = absurd h
recent_below t r (s ∷ ss) (inr h) most =
    let (a, since, member, below) = recent_below t r ss h most.1 in (a, since, inr member, below)

-- A write that has returned, and that a majority stored before, is seen by every later read that a majority
-- answers in time, whatever reads and writes, one after another, late arrivals and changes of the network come
-- between, if among the valid replies to that read one with a value that is not greater has a timestamp that is not
-- greater: the read returns one of the replies, with a timestamp of at least that of the write.
pub majority_read_after_write :
    (o : RegisterValueObject) (nodes : List Node) {nodes1 nodes2 : List Node}
    → handle_write o nodes ≡ returns nodes1
    → quorum (length nodes) ≤ count_nodes stores_in_time nodes
    → Reach Step nodes1 nodes2
    → quorum (length nodes2) ≤ count_nodes replies_in_time nodes2
    → ((a b : RegisterValueObject)
        → Any (λ s. s ≡ valid a) (cast (collect nodes2))
        → Any (λ s. s ≡ valid b) (cast (collect nodes2))
        → ltbℤ b.value a.value ≡ false
        → a.timestamp ≤ b.timestamp)
    → (r : RegisterValueObject) × (nodes3 : List Node) × (handle_read nodes2
        ≡ returns (some r, nodes3))
      × Any (λ s. s ≡ valid r) (cast (collect nodes2))
      × (o.timestamp ≤ r.timestamp)
majority_read_after_write o nodes {nodes1} {nodes2} wrote stored between answered rising =
    let t = o.timestamp in
    let ss = cast (collect nodes2) in
    let (len, pos, count) = write-IsKept_majority o nodes wrote in
    let kept = Reach-IsKept t between in
    let lengths : length nodes2 ≡ length nodes = omega (arith, kept.same) in
    let two = quorum_bounds (length nodes2) (omega arith) in
    let most : quorum (length nodes2) ≤ count_nodes stores_in_time nodes =
      subst (λ n. quorum n ≤ count_nodes stores_in_time nodes) (sym lengths) stored in
    let recent = overlap-Any t nodes2 (omega (arith, kept.count)) in
    elim (handle_read-cases nodes2 (omega arith)) [
      | inl (unset, run) ↦ absurd (none_unset t ss recent unset)
      | inr (r, fresh, member, run) ↦
          let greatest = subst (λ g. All (IsAtMost g) ss) fresh (get_fresh_snapshot-All ss) in
          let (a, since, found, below) = recent_below t r ss recent greatest in
          let newer = rising a r found member below in
          (r, repaired_nodes r nodes2, run, member, omega arith)
    ]
