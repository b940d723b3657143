-- ===== src/Avl/Ordered.antt =====
-- container/tree/avl_tree-inl.hpp: balance and order of `InsertImpl` together.
use dsac.Prelude.{◌≡◌, ◌⊎◌, refl, Bool, true, false, some, All, Any, Returns, Bool-cases, inl, inr}
use dsac.Sort.Order.{StrictWeak}
use dsac.Avl.{Tree, insert_impl, insert, contains, visit}
use dsac.Avl.Balance.{IsBalanced}
use dsac.Avl.Insert.{IsEquivalent, Inserted, insert_impl-Inserted}
use dsac.Avl.Keys.{Any-imp, contains-Any, contains-All}
use dsac.Avl.Place.{IsIncreasing, IsPlaced, insert_impl-IsPlaced, insert_impl-IsIncreasing}

module _ {ℓ} {T : Type ℓ} {less : T → T → Bool} (order : StrictWeak less) where
  insert_impl-IsOrdered :
      (added : T) (t : Tree T)
      → IsBalanced t
      → IsIncreasing less (visit t)
      → Returns (insert_impl less added t) (λ r.
        ((r.0 ≡ false) × (r.1 ≡ t) × Any (IsEquivalent order added) (visit t))
        ⊎ ((r.0 ≡ true)
            × IsBalanced r.1
            × IsIncreasing less (visit r.1)
            × IsPlaced less added (visit t) (visit r.1)))
  unfolding Inserted
  insert_impl-IsOrdered added t b h =
      let (r, run, i) = insert_impl-Inserted order added t b in (r, run, go r run i)
    where
      go :
          (r : Bool × Tree T)
          → insert_impl less added t ≡ some r
          → Inserted order added t r
          → ((r.0 ≡ false) × (r.1 ≡ t) × Any (IsEquivalent order added) (visit t))
            ⊎ ((r.0 ≡ true)
                × IsBalanced r.1
                × IsIncreasing less (visit r.1)
                × IsPlaced less added (visit t) (visit r.1))
      go (true, t') run (inl (e, m, pos)) = inr (
        refl,
        m.balanced,
        insert_impl-IsIncreasing less added t t' run h,
        insert_impl-IsPlaced less added t t' run,
      )
      go (false, t') run (inl (e, m, pos)) = absurd (cc)
      go (is_added, t') run (inr (e, same, found)) = inl (e, same, found)

module _ {ℓ} {T : Type ℓ} {less : T → T → Bool} (order : StrictWeak less)
    (equal : T → T → Bool) where
  -- For a strict weak order, `Insert` into a balanced tree whose visited keys are increasing uses no null
  -- pointer. It answers false and leaves the tree, and then some key of the tree equals the new one or is
  -- neither less nor greater; or it answers true, and then no key equalled the new one, and the tree it leaves
  -- is balanced, and its visited keys are increasing, and those of before with the new one between two
  -- neighbours.
  pub insert-IsOrdered :
      (added : T) (t : Tree T)
      → IsBalanced t
      → IsIncreasing less (visit t)
      → Returns (insert less equal added t) (λ r.
        ((r.0 ≡ false)
          × (r.1 ≡ t)
          × Any
              (λ k. (equal added k ≡ true) ⊎ ((less added k ≡ false) × (less k added ≡ false)))
              (visit t))
        ⊎ ((r.0 ≡ true)
            × All (λ k. equal added k ≡ false) (visit t)
            × IsBalanced r.1
            × IsIncreasing less (visit r.1)
            × IsPlaced less added (visit t) (visit r.1)))
  unfolding insert
  insert-IsOrdered added t b h = elim (Bool-cases (contains less equal added t)) [
    | inl e ↦ (
      (false, t),
      rw (e, insert) refl,
      inl (refl, refl, Any-imp (λ k. inl) (visit t) (contains-Any equal less added t e)),
    )
    | inr e ↦
        let (r, run, i) = insert_impl-IsOrdered order added t b h in
        (
          r,
          rw (e, insert, run) refl,
          elim i [
            | inl (f, same, found) ↦ inl (f, same, Any-imp (λ k. inr) (visit t) found)
            | inr (f, balanced, increasing, placed) ↦
                inr (f, contains-All equal less added t e, balanced, increasing, placed)
          ],
        )
  ]
