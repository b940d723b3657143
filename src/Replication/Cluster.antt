-- ===== src/Replication/Cluster.antt =====
-- domain/shapshot.hpp, domain/cluster.hpp, domain/cluster.cpp, domain/details/cast.cpp and
-- domain/exception/cluster_exception.hpp: what the snapshots of some nodes say of the cluster.
pub mod Laws
use dsac.Prelude.{ℕ, Bool, true, false, not, ◌&&◌, ◌||◌, List, [], ◌∷◌, map, if◌then◌else◌}
use dsac.Prelude.Int.{ℤ, ltbℤ}
use dsac.Replication.Register.{RegisterValueObject, equal}

pub data SnapshotError : Type 0 where
  snapshot_not_found : SnapshotError

-- `using snapshot = strong_type<expected<register_value_object, snapshot_error>, struct Snapshot>`
pub data Snapshot : Type 0 where
  valid : RegisterValueObject → Snapshot
  unexpected : SnapshotError → Snapshot

pub data ClusterException : Type 0 where
  not_found_latest_value not_found_latest_timestamp : ClusterException

-- What a method returns, or throws.
pub data Outcome {ℓ} (A : Type ℓ) : Type ℓ where
  ok : A → Outcome A
  throw : ClusterException → Outcome A

abbrev pub has_value : Snapshot → Bool
has_value (valid r) = true
has_value (unexpected e) = false

-- `bsnapshot->get()->get_value().get() > fsnapshot->get()->get_value().get()`, both valid
value_greater : Snapshot → Snapshot → Bool
value_greater (valid b) (valid f) = ltbℤ f.value b.value
value_greater _ _ = false

-- the two tests in the body of the loop of `get_fresh_snapshot`
pick_fresh : Snapshot → Snapshot → Snapshot
unfolding value_greater
pick_fresh f b =
    if not (has_value b) then f else if not (has_value f) || value_greater b f then b else f

fresh_loop : Snapshot → List Snapshot → Snapshot
fresh_loop f [] = f
fresh_loop f (b ∷ bs) = fresh_loop (pick_fresh f b) bs

unfoldable pub get_fresh_snapshot : List Snapshot → Snapshot
unfolding fresh_loop pick_fresh
get_fresh_snapshot [] = unexpected snapshot_not_found
get_fresh_snapshot (s ∷ ss) = fresh_loop s (s ∷ ss)

-- `class cluster_value_object`
pub record ClusterValueObject : Type 0 where
  pub snapshots : List Snapshot
  pub fresh_snapshot : Snapshot

unfoldable pub restore_from_snapshots : List Snapshot → ClusterValueObject
unfolding get_fresh_snapshot
restore_from_snapshots ss = record { snapshots = ss; fresh_snapshot = get_fresh_snapshot ss }

-- `operator==` of `expected`
equal_snapshots : Snapshot → Snapshot → Bool
equal_snapshots (valid a) (valid b) = equal a b
equal_snapshots (unexpected snapshot_not_found) (unexpected snapshot_not_found) = true
equal_snapshots _ _ = false

-- `std::ranges::all_of`
equals_each : Snapshot → List Snapshot → Bool
unfolding equal_snapshots
equals_each f [] = true
equals_each f (s ∷ ss) = equal_snapshots s f && equals_each f ss

unfoldable pub is_consistent : ClusterValueObject → Bool
unfolding equals_each
is_consistent c =
    if not (has_value c.fresh_snapshot) then true else equals_each c.fresh_snapshot c.snapshots

unfoldable pub get_latest_value : ClusterValueObject → Outcome ℤ
get_latest_value c = elim c.fresh_snapshot [
  | valid r ↦ ok r.value
  | unexpected e ↦ throw not_found_latest_value
]

unfoldable pub get_latest_timestamp : ClusterValueObject → Outcome ℕ
get_latest_timestamp c = elim c.fresh_snapshot [
  | valid r ↦ ok r.timestamp
  | unexpected e ↦ throw not_found_latest_timestamp
]

-- `result<register_value_object>`: a reply, or the error of the request
pub data Reply : Type 0 where
  answer : RegisterValueObject → Reply
  failure : Reply

unfoldable pub to_snapshot : Reply → Snapshot
to_snapshot (answer r) = valid r
to_snapshot failure = unexpected snapshot_not_found

unfoldable pub cast : List Reply → List Snapshot
unfolding to_snapshot
cast = map to_snapshot
