-- ===== src/Replication/Cluster/Laws.antt =====
-- domain/cluster.cpp: which snapshot is called fresh, and when the cluster is consistent.
use dsac.Prelude.{
  ◌<◌, ◌≡◌, ◌↔◌, refl, true, false, List, [], ◌∷◌, ◌⊎◌, inl, inr, arith, All, Any, sym, subst, ◌∙◌,
}
use dsac.Prelude.Int.{ltbℤ, ltbℤ_asymm, ltbℤ_negative_trans, eqbℤ-eq, eqbℤ_refl}
use dsac.Replication.Register.{RegisterValueObject}
use dsac.Replication.Cluster.{
  Snapshot, SnapshotError, valid, unexpected, snapshot_not_found, pick_fresh, fresh_loop,
  get_fresh_snapshot, restore_from_snapshots, is_consistent, equals_each, equal_snapshots,
  get_latest_value, get_latest_timestamp, ok,
}

-- `s` is no snapshot with a greater value than `g`
abbrev pub IsAtMost : Snapshot → Snapshot → Type 0
IsAtMost (valid g) (valid s) = ltbℤ g.value s.value ≡ false
IsAtMost (unexpected e) (valid s) = ⊥
IsAtMost g (unexpected e) = Unit

IsAtMost-refl : (s : Snapshot) → IsAtMost s s
IsAtMost-refl (valid r) = ground (arith, ltbℤ_asymm r.value r.value)
IsAtMost-refl (unexpected e) = tt

IsAtMost-trans : (g f s : Snapshot) → IsAtMost g f → IsAtMost f s → IsAtMost g s
IsAtMost-trans (valid g) (valid f) (valid s) h k =
    ground (arith, ltbℤ_negative_trans s.value f.value g.value)
IsAtMost-trans (valid g) (unexpected e) (valid s) h k = absurd k
IsAtMost-trans (unexpected e) (valid f) (valid s) h k = absurd h
IsAtMost-trans (unexpected e) (unexpected d) (valid s) h k = absurd k
IsAtMost-trans (valid g) f (unexpected e) h k = tt
IsAtMost-trans (unexpected d) f (unexpected e) h k = tt

pick_fresh-IsAtMost : (f b : Snapshot) → IsAtMost (pick_fresh f b) f × IsAtMost (pick_fresh f b) b
unfolding pick_fresh
pick_fresh-IsAtMost (valid f) (valid b) =
    ground
      (arith, ltbℤ_asymm f.value b.value, ltbℤ_asymm f.value f.value, ltbℤ_asymm b.value b.value)
pick_fresh-IsAtMost (valid f) (unexpected e) = (IsAtMost-refl (valid f), tt)
pick_fresh-IsAtMost (unexpected e) (valid b) = (tt, IsAtMost-refl (valid b))
pick_fresh-IsAtMost (unexpected e) (unexpected d) = (tt, tt)

fresh_loop-IsAtMost :
    (f : Snapshot) (bs : List Snapshot)
    → IsAtMost (fresh_loop f bs) f × All (IsAtMost (fresh_loop f bs)) bs
unfolding fresh_loop
fresh_loop-IsAtMost f [] = (IsAtMost-refl f, tt)
fresh_loop-IsAtMost f (b ∷ bs) =
    let (first, rest) = fresh_loop-IsAtMost (pick_fresh f b) bs in
    let (below, above) = pick_fresh-IsAtMost f b in
    let g = fresh_loop (pick_fresh f b) bs in
    (
      IsAtMost-trans g (pick_fresh f b) f first below,
      (IsAtMost-trans g (pick_fresh f b) b first above, rest),
    )

pick_fresh-cases : (f b : Snapshot) → (pick_fresh f b ≡ f) ⊎ (pick_fresh f b ≡ b)
unfolding pick_fresh
pick_fresh-cases f b = ground arith

fresh_loop-Any : (f : Snapshot) (bs : List Snapshot) → Any (λ s. fresh_loop f bs ≡ s) (f ∷ bs)
unfolding fresh_loop
fresh_loop-Any f [] = inl refl
fresh_loop-Any f (b ∷ bs) = go (pick_fresh-cases f b) (fresh_loop-Any (pick_fresh f b) bs)
  where
    go :
        {g : Snapshot}
        → (pick_fresh f b ≡ f) ⊎ (pick_fresh f b ≡ b)
        → Any (λ s. g ≡ s) (pick_fresh f b ∷ bs)
        → Any (λ s. g ≡ s) (f ∷ b ∷ bs)
    go (inl e) (inl h) = inl (h ∙ e)
    go (inr e) (inl h) = inr (inl (h ∙ e))
    go c (inr h) = inr (inr h)

-- The fresh snapshot of a nonempty set is one of its snapshots; no valid snapshot of the set has a
-- greater value, and it is valid if any of them is.
get_fresh_snapshot_greatest :
    (s : Snapshot) (ss : List Snapshot)
    → Any (λ t. get_fresh_snapshot (s ∷ ss) ≡ t) (s ∷ ss)
      × All (IsAtMost (get_fresh_snapshot (s ∷ ss))) (s ∷ ss)
unfolding get_fresh_snapshot
get_fresh_snapshot_greatest s ss =
    (once _ (fresh_loop-Any s (s ∷ ss)), (fresh_loop-IsAtMost s (s ∷ ss)).1)
  where
    once : (P : Snapshot → Type 0) → Any P (s ∷ s ∷ ss) → Any P (s ∷ ss)
    once P (inl p) = inl p
    once P (inr m) = m

-- A snapshot with a greater value is called the latest state although it is older.
pub get_latest_timestamp_stale :
    (old new : RegisterValueObject)
    → old.timestamp < new.timestamp
    → ltbℤ new.value old.value ≡ true
    → (get_latest_value (restore_from_snapshots (valid old ∷ valid new ∷ [])) ≡ ok old.value)
      × (get_latest_timestamp (restore_from_snapshots (valid old ∷ valid new ∷ []))
          ≡ ok old.timestamp)
      × (get_latest_value (restore_from_snapshots (valid new ∷ valid old ∷ [])) ≡ ok old.value)
      × (get_latest_timestamp (restore_from_snapshots (valid new ∷ valid old ∷ []))
          ≡ ok old.timestamp)
unfolding restore_from_snapshots get_latest_value get_latest_timestamp
get_latest_timestamp_stale old new older greater = ground (
  arith,
  ltbℤ_asymm new.value old.value,
  ltbℤ_asymm new.value new.value,
  ltbℤ_asymm old.value old.value,
)

abbrev pub IsUnset : Snapshot → Type 0
IsUnset (valid r) = ⊥
IsUnset (unexpected e) = Unit

equal_snapshots-eq :
    (s : Snapshot) (r : RegisterValueObject) → equal_snapshots s (valid r) ≡ true → s ≡ valid r
unfolding equal_snapshots
equal_snapshots-eq (valid a) r h = ground (arith, eqbℤ-eq a.value r.value)
equal_snapshots-eq (unexpected e) r h = ground arith

equals_each→All :
    (r : RegisterValueObject) (ss : List Snapshot)
    → equals_each (valid r) ss ≡ true
    → All (λ s. s ≡ valid r) ss
unfolding equals_each
equals_each→All r [] h = tt
equals_each→All r (s ∷ ss) h =
    (equal_snapshots-eq s r (ground arith), equals_each→All r ss (ground arith))

All→equals_each :
    (r : RegisterValueObject) (ss : List Snapshot)
    → All (λ s. s ≡ valid r) ss
    → equals_each (valid r) ss ≡ true
unfolding equals_each
All→equals_each r [] h = refl
All→equals_each r (s ∷ ss) (e, rest) =
    rw (e, All→equals_each r ss rest) (ground (arith, eqbℤ_refl r.value))

All-IsUnset :
    (e : SnapshotError) (ss : List Snapshot) → All (IsAtMost (unexpected e)) ss → All IsUnset ss
All-IsUnset e [] h = tt
All-IsUnset e (valid r ∷ ss) h = absurd h.0
All-IsUnset e (unexpected d ∷ ss) h = (tt, All-IsUnset e ss h.1)

Any-All {ℓ} :
    {A : Type ℓ} {P Q : A → Type 0} (xs : List A) → Any P xs → All Q xs → (x : A) × P x × Q x
Any-All (x ∷ xs) (inl p) (q, _) = (x, p, q)
Any-All (x ∷ xs) (inr m) (_, rest) = Any-All xs m rest
Any-All [] h _ = absurd h

pub is_consistent→All :
    (r : RegisterValueObject) (ss : List Snapshot)
    → is_consistent (record { snapshots = ss; fresh_snapshot = valid r }) ≡ true
    → All (λ s. s ≡ valid r) ss
unfolding is_consistent
is_consistent→All r ss h = equals_each→All r ss h

pub All→is_consistent :
    (r : RegisterValueObject) (ss : List Snapshot)
    → All (λ s. s ≡ valid r) ss
    → is_consistent (record { snapshots = ss; fresh_snapshot = valid r }) ≡ true
unfolding is_consistent
All→is_consistent r ss h = All→equals_each r ss h

consistent→cases :
    (f : Snapshot) (ss : List Snapshot)
    → All (IsAtMost f) ss
    → is_consistent (record { snapshots = ss; fresh_snapshot = f }) ≡ true
    → All IsUnset ss ⊎ ((r : RegisterValueObject) × All (λ s. s ≡ valid r) ss)
unfolding is_consistent
consistent→cases (valid r) ss most h = inr (r, is_consistent→All r ss h)
consistent→cases (unexpected e) ss most h = inl (All-IsUnset e ss most)

pub get_fresh_snapshot-All : (ss : List Snapshot) → All (IsAtMost (get_fresh_snapshot ss)) ss
get_fresh_snapshot-All [] = tt
get_fresh_snapshot-All (s ∷ ss) = (get_fresh_snapshot_greatest s ss).1

consistent_of_unset :
    (f : Snapshot) (ss : List Snapshot)
    → IsUnset f
    → is_consistent (record { snapshots = ss; fresh_snapshot = f }) ≡ true
unfolding is_consistent
consistent_of_unset (valid r) ss h = absurd h
consistent_of_unset (unexpected e) ss h = refl

cases→consistent :
    (f : Snapshot) (ss : List Snapshot)
    → Any (λ t. f ≡ t) ss
    → All IsUnset ss ⊎ ((r : RegisterValueObject) × All (λ s. s ≡ valid r) ss)
    → is_consistent (record { snapshots = ss; fresh_snapshot = f }) ≡ true
unfolding is_consistent
cases→consistent f ss member (inl unset) =
    let (t, same, empty) = Any-All ss member unset in
    consistent_of_unset f ss (subst IsUnset (sym same) empty)
cases→consistent f ss member (inr (r, all)) =
    let (t, same, is) = Any-All ss member all in rw (same ∙ is) (All→equals_each r ss all)

-- The cluster restored from some snapshots is consistent exactly when none of them is valid, or all
-- of them are valid and hold one value with one timestamp.
is_consistent_iff :
    (ss : List Snapshot)
    → (is_consistent (restore_from_snapshots ss) ≡ true)
      ↔ (All IsUnset ss ⊎ ((r : RegisterValueObject) × All (λ s. s ≡ valid r) ss))
unfolding restore_from_snapshots is_consistent
is_consistent_iff [] = (λ h. inl tt, λ h. refl)
is_consistent_iff (s ∷ ss) = (
  consistent→cases (get_fresh_snapshot (s ∷ ss)) (s ∷ ss) (get_fresh_snapshot-All (s ∷ ss)),
  cases→consistent (get_fresh_snapshot (s ∷ ss)) (s ∷ ss) (get_fresh_snapshot_greatest s ss).0,
)

Snapshot-cases :
    (s : Snapshot)
    → ((r : RegisterValueObject) × (s ≡ valid r)) ⊎ ((e : SnapshotError) × (s ≡ unexpected e))
Snapshot-cases (valid r) = inl (r, refl)
Snapshot-cases (unexpected e) = inr (e, refl)

Any-imp {ℓ} :
    {A : Type ℓ} (P Q : A → Type 0) → ((x : A) → P x → Q x) → (xs : List A) → Any P xs → Any Q xs
Any-imp P Q f [] h = absurd h
Any-imp P Q f (x ∷ xs) (inl p) = inl (f x p)
Any-imp P Q f (x ∷ xs) (inr m) = inr (Any-imp P Q f xs m)

pub get_fresh_snapshot_cases :
    (ss : List Snapshot)
    → (All IsUnset ss × ((e : SnapshotError) × (get_fresh_snapshot ss ≡ unexpected e)))
      ⊎ ((r : RegisterValueObject) × (get_fresh_snapshot ss ≡ valid r) × Any (λ s. s ≡ valid r) ss)
unfolding get_fresh_snapshot
get_fresh_snapshot_cases [] = inl (tt, (snapshot_not_found, refl))
get_fresh_snapshot_cases (s ∷ ss) =
    let (member, most) = get_fresh_snapshot_greatest s ss in
    elim (Snapshot-cases (get_fresh_snapshot (s ∷ ss))) [
      | inl (r, e) ↦ inr (
        r,
        e,
        Any-imp (λ t. get_fresh_snapshot (s ∷ ss) ≡ t) (λ t. t ≡ valid r) (λ t h. sym h ∙ e)
            (s ∷ ss) member,
      )
      | inr (d, e) ↦
          inl (All-IsUnset d (s ∷ ss) (subst (λ g. All (IsAtMost g) (s ∷ ss)) e most), (d, e))
    ]
