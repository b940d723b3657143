-- ===== src/Tests/Replicas.antt =====
-- Reads and writes over concrete nodes of examples/dist.registry.replication.
use dsac.Prelude.{
  ◌≤◌, ◌≡◌, ◌⊎◌, inl, inr, refl, Bool, true, false, List, [], ◌∷◌, none, some, arith, length, All,
  Any,
}
use dsac.Prelude.Int.{pos, negsuc, ltbℤ}
use dsac.Replication.Register.{RegisterValueObject, Register, write, read}
use dsac.Replication.Register.Laws.{deliver, deliver_newest}
use dsac.Replication.Cluster.{
  valid, ok, restore_from_snapshots, get_latest_value, get_latest_timestamp, cast,
}
use dsac.Replication.Cluster.Laws.{IsUnset, get_latest_timestamp_stale}
use dsac.Replication.Coordinator.{
  Arrival, in_time, late, lost, Node, quorum, returns, collect, reflag, handle_read, handle_write,
  Step, network,
}
use dsac.Replication.Coordinator.Laws.{count_nodes, replies_in_time, stores_in_time}
use dsac.Replication.Coordinator.Reads.{majority_read_after_write}
use dsac.Concurrency.Run.{Reach, here, next}
use dsac.Replication.Coordinator.Repair.{IsRepaired, handle_write_unreached, handle_read_repairs}

abbrev older : RegisterValueObject
older = record { value = pos 9; timestamp = 1 }

abbrev newest : RegisterValueObject
newest = record { value = negsuc 2; timestamp = 2 }

abbrev latest : RegisterValueObject
latest = record { value = pos 10; timestamp = 2 }

abbrev node : Register → List RegisterValueObject → Bool → Bool → Arrival → Node
node register pending online among_first arrival = record {
  register = register;
  pending = pending;
  online = online;
  among_first = among_first;
  arrival = arrival;
}

-- Of three nodes, the read does not reach the last; and the repair reaches the second one late.
abbrev cluster : List Node
cluster =
    node (some older) [] true true in_time
    ∷ node none [] true true late
    ∷ node (some older) [] false false lost
    ∷ []

abbrev unreached : List Node
unreached = node (some older) [] false true lost ∷ []

quorum_values : (quorum 1 ≡ 1) × (quorum 3 ≡ 2) × (quorum 4 ≡ 3)
unfolding quorum
quorum_values = (refl, refl, refl)

read_repairs :
    handle_read cluster
    ≡ returns (
      some older,
      node (some older) [] true true in_time
          ∷ node none (older ∷ []) true true late
          ∷ node (some older) [] false false lost
          ∷ [],
    )
unfolding handle_read write
read_repairs = refl

-- A write is stored by the first two of three nodes, and is under way to the last.
abbrev written : List Node
written =
    node (some latest) [] true true in_time
    ∷ node (some latest) [] true true in_time
    ∷ node (some older) (latest ∷ []) true true late
    ∷ []

abbrev before_write : List Node
before_write =
    node (some older) [] true true in_time
    ∷ node none [] true true in_time
    ∷ node (some older) [] true true late
    ∷ []

-- Then the network loses the first node.
abbrev flags : List (Bool × Bool × Arrival)
flags = (false, false, lost) ∷ (true, true, in_time) ∷ (true, true, in_time) ∷ []

abbrev before_read : List Node
before_read =
    node (some latest) [] false false lost
    ∷ node (some latest) [] true true in_time
    ∷ node (some older) (latest ∷ []) true true in_time
    ∷ []

write_run : handle_write latest before_write ≡ returns written
unfolding handle_write write
write_run = refl

network_run : Reach Step written before_read
unfolding reflag
network_run = next here (network flags)

written_stored : quorum (length before_write) ≤ count_nodes stores_in_time before_write
unfolding quorum count_nodes
written_stored = omega arith

read_answered : quorum (length before_read) ≤ count_nodes replies_in_time before_read
unfolding quorum count_nodes
read_answered = omega arith

replies_rising :
    (a b : RegisterValueObject)
    → Any (λ s. s ≡ valid a) (cast (collect before_read))
    → Any (λ s. s ≡ valid b) (cast (collect before_read))
    → ltbℤ b.value a.value ≡ false
    → a.timestamp ≤ b.timestamp
unfolding collect cast
replies_rising a b (inl e) (inl f) le = grind arith
replies_rising a b (inl e) (inr (inl f)) le = grind arith
replies_rising a b (inr (inl e)) (inl f) le = grind arith
replies_rising a b (inr (inl e)) (inr (inl f)) le = grind arith
replies_rising a b (inr (inr m)) y le = absurd m
replies_rising a b (inl e) (inr (inr m)) le = absurd m
replies_rising a b (inr (inl e)) (inr (inr m)) le = absurd m

majority_read_after_write_example :
    (r : RegisterValueObject) × (nodes : List Node) × (handle_read before_read
      ≡ returns (some r, nodes))
    × Any (λ s. s ≡ valid r) (cast (collect before_read))
    × (2 ≤ r.timestamp)
majority_read_after_write_example =
    majority_read_after_write latest before_write write_run written_stored network_run read_answered
      replies_rising

handle_read_repairs_example :
    (All IsUnset (cast (collect cluster)) × (handle_read cluster ≡ returns (none, cluster)))
    ⊎ ((r : RegisterValueObject) × (nodes : List Node) × Any
          (λ s. s ≡ valid r)
          (cast (collect cluster))
        × (handle_read cluster ≡ returns (some r, nodes))
        × ((All (λ s. s ≡ valid r) (cast (collect cluster)) × (nodes ≡ cluster))
            ⊎ ((All (λ s. s ≡ valid r) (cast (collect cluster)) → ⊥) × All (IsRepaired r) nodes)))
handle_read_repairs_example = handle_read_repairs cluster (omega arith)

handle_write_unreached_example : handle_write newest unreached ≡ returns unreached
handle_write_unreached_example = handle_write_unreached newest unreached (omega arith) (refl, tt)

get_latest_timestamp_stale_example :
    (get_latest_value (restore_from_snapshots (valid older ∷ valid newest ∷ [])) ≡ ok (pos 9))
    × (get_latest_timestamp (restore_from_snapshots (valid older ∷ valid newest ∷ [])) ≡ ok 1)
    × (get_latest_value (restore_from_snapshots (valid newest ∷ valid older ∷ [])) ≡ ok (pos 9))
    × (get_latest_timestamp (restore_from_snapshots (valid newest ∷ valid older ∷ [])) ≡ ok 1)
get_latest_timestamp_stale_example = get_latest_timestamp_stale older newest (omega arith) refl

deliver_newest_example :
    (r : RegisterValueObject) × (read (deliver (newest ∷ older ∷ []) (some older)) ≡ some r)
    × All (λ w. w.timestamp ≤ r.timestamp) (newest ∷ older ∷ [])
    × ((some older ≡ some r) ⊎ Any (λ w. r ≡ w) (newest ∷ older ∷ []))
deliver_newest_example = deliver_newest (some older) newest (older ∷ [])
