-- ===== src/Avl/Insert.antt =====
-- container/tree/avl_tree-inl.hpp: `InsertImpl` returns, and its tree is balanced.
use dsac.Prelude.{
  ℕ, suc, ◌+◌, ◌≤◌, ◌<◌, ◌≡◌, ◌⊎◌, inl, inr, refl, sym, ap, subst, Bool, true, false, some, arith,
  Any, ◌∷◌, ◌++◌, Returns, Bool-cases,
}
use dsac.Sort.Order.{StrictWeak}
use dsac.Avl.{Tree, empty, node, depth, leaf, get_key, insert_impl, visit}
use dsac.Avl.Balance.{IsBalanced}
use dsac.Avl.Keys.{Any-append_left, Any-append_right}
use dsac.Avl.Mend.{Deeper, IsMended, mend_left, mend_right}

has_key {ℓ} : {T : Type ℓ} (t : Tree T) → 0 < depth t → (key : T) × (get_key t ≡ some key)
unfolding get_key
has_key empty h = absurd (omega arith)
has_key (node key left right height) h = (key, refl)

module _ {ℓ} {T : Type ℓ} {less : T → T → Bool} (order : StrictWeak less) (added : T) where
  -- neither less nor greater than the key to add
  abbrev pub IsEquivalent : T → Type 0
  IsEquivalent key = (less added key ≡ false) × (less key added ≡ false)

  -- What `InsertImpl` makes of `t`.
  unfoldable pub Inserted : Tree T → Bool × Tree T → Type ℓ
  Inserted t (is_added, t') =
      ((is_added ≡ true) × IsMended order added (depth t) t' × (0 < depth t'))
      ⊎ ((is_added ≡ false) × (t' ≡ t) × Any IsEquivalent (visit t))

  deep_enough : (n : ℕ) (t : Tree T) → 0 < n → IsMended order added n t → 0 < depth t
  unfolding Deeper
  deep_enough n t pos m = go m.deeper
    where
      go : Deeper order added n t → 0 < depth t
      go (inl e) = omega arith
      go (inr (e, lean)) = omega arith

  went_left :
      (key : T) (l r : Tree T) (h : ℕ) (l' : Tree T)
      → IsBalanced (node key l r h)
      → less added key ≡ true
      → insert_impl less added l ≡ some (true, l')
      → IsMended order added (depth l) l'
      → 0 < depth l'
      → Returns (insert_impl less added (node key l r h)) (Inserted (node key l r h))
  unfolding insert_impl Inserted
  went_left key l r h l' b before run m pos =
      let (source, g) = has_key l' pos in
      let (t, mends, done) = mend_left order added key source l r l' h b before m g in
      (
        (true, t),
        rw (before, insert_impl, run, g, mends) refl,
        inl (
          refl,
          subst (λ n. IsMended order added n t) (omega arith) done,
          deep_enough (suc h) t (omega arith) done,
        ),
      )

  went_right :
      (key : T) (l r : Tree T) (h : ℕ) (r' : Tree T)
      → IsBalanced (node key l r h)
      → less added key ≡ false
      → less key added ≡ true
      → insert_impl less added r ≡ some (true, r')
      → IsMended order added (depth r) r'
      → 0 < depth r'
      → Returns (insert_impl less added (node key l r h)) (Inserted (node key l r h))
  unfolding insert_impl Inserted
  went_right key l r h r' b before after run m pos =
      let (source, g) = has_key r' pos in
      let (t, mends, done) = mend_right order added key source l r r' h b before after m g in
      (
        (true, t),
        rw (before, insert_impl, after, run, g, mends) refl,
        inl (
          refl,
          subst (λ n. IsMended order added n t) (omega arith) done,
          deep_enough (suc h) t (omega arith) done,
        ),
      )

  stayed_left :
      (key : T) (l r : Tree T) (h : ℕ) (l' : Tree T)
      → less added key ≡ true
      → insert_impl less added l ≡ some (false, l')
      → insert_impl less added (node key l r h) ≡ some (false, node key l' r h)
  unfolding insert_impl
  stayed_left key l r h l' before run = rw (before, insert_impl, run) refl

  stayed_right :
      (key : T) (l r : Tree T) (h : ℕ) (r' : Tree T)
      → less added key ≡ false
      → less key added ≡ true
      → insert_impl less added r ≡ some (false, r')
      → insert_impl less added (node key l r h) ≡ some (false, node key l r' h)
  unfolding insert_impl
  stayed_right key l r h r' before after run = rw (before, insert_impl, after, run) refl

  stayed :
      (key : T) (l r : Tree T) (h : ℕ)
      → less added key ≡ false
      → less key added ≡ false
      → insert_impl less added (node key l r h) ≡ some (false, node key l r h)
  unfolding insert_impl
  stayed key l r h before after = rw (before, insert_impl, after) refl

  at_left :
      (key : T) (l r : Tree T) (h : ℕ)
      → IsBalanced (node key l r h)
      → less added key ≡ true
      → Returns (insert_impl less added l) (Inserted l)
      → Returns (insert_impl less added (node key l r h)) (Inserted (node key l r h))
  unfolding Inserted visit
  at_left key l r h b before ((true, l'), run, inl (e, m, pos)) =
      went_left key l r h l' b before run m pos
  at_left key l r h b before ((false, l'), run, inl (e, m, pos)) = absurd (cc)
  at_left key l r h b before ((true, l'), run, inr (e, same, found)) = absurd (cc)
  at_left key l r h b before ((false, l'), run, inr (e, same, found)) = (
    (false, node key l' r h),
    stayed_left key l r h l' before run,
    inr (
      refl,
      ap (λ x. node key x r h) same,
      Any-append_left IsEquivalent (visit l) (key ∷ visit r) found,
    ),
  )

  at_right :
      (key : T) (l r : Tree T) (h : ℕ)
      → IsBalanced (node key l r h)
      → less added key ≡ false
      → less key added ≡ true
      → Returns (insert_impl less added r) (Inserted r)
      → Returns (insert_impl less added (node key l r h)) (Inserted (node key l r h))
  unfolding Inserted visit
  at_right key l r h b before after ((true, r'), run, inl (e, m, pos)) =
      went_right key l r h r' b before after run m pos
  at_right key l r h b before after ((false, r'), run, inl (e, m, pos)) = absurd (cc)
  at_right key l r h b before after ((true, r'), run, inr (e, same, found)) = absurd (cc)
  at_right key l r h b before after ((false, r'), run, inr (e, same, found)) = (
    (false, node key l r' h),
    stayed_right key l r h r' before after run,
    inr (
      refl,
      ap (λ x. node key l x h) same,
      Any-append_right IsEquivalent (visit l) (key ∷ visit r) (inr found),
    ),
  )

  pub insert_impl-Inserted :
      (t : Tree T) → IsBalanced t → Returns (insert_impl less added t) (Inserted t)
  unfolding Inserted insert_impl Deeper visit
  insert_impl-Inserted empty b = (
    (true, leaf added),
    refl,
    inl (
      refl,
      record {
        balanced = (tt, tt, refl, omega arith, omega arith);
        deeper = inr (omega arith, inl (refl, refl));
      },
      omega arith,
    ),
  )
  insert_impl-Inserted (node key l r h) (bl, br, eh, le, re) = elim (Bool-cases (less added key)) [
    | inl before ↦ at_left key l r h (bl, br, eh, le, re) before (insert_impl-Inserted l bl)
    | inr not_before ↦ elim (Bool-cases (less key added)) [
      | inl after ↦
          at_right key l r h (bl, br, eh, le, re) not_before after (insert_impl-Inserted r br)
      | inr not_after ↦
          let found : Any IsEquivalent (visit l ++ key ∷ visit r) =
            Any-append_right IsEquivalent (visit l) (key ∷ visit r) (inl (not_before, not_after)) in
          ((false, node key l r h), stayed key l r h not_before not_after, inr (refl, refl, found))
    ]
  ]

  -- For a strict weak order, `InsertImpl` of a balanced tree uses no null pointer, and leaves a balanced
  -- tree with right heights, at most one deeper.
  pub insert_impl-IsBalanced :
      (t : Tree T)
      → IsBalanced t
      → Returns (insert_impl less added t) (λ r. IsBalanced r.1 × (depth r.1 ≤ depth t + 1))
  unfolding Inserted Deeper
  insert_impl-IsBalanced t b = let (r, run, i) = insert_impl-Inserted t b in (r, run, go r i)
    where
      go : (r : Bool × Tree T) → Inserted t r → IsBalanced r.1 × (depth r.1 ≤ depth t + 1)
      go (_, t') (inl (e, m, pos)) = (m.balanced, grown m.deeper)
        where
          grown : Deeper order added (depth t) t' → depth t' ≤ depth t + 1
          grown (inl same) = omega arith
          grown (inr (more, lean)) = omega arith
      go (_, t') (inr (e, same, found)) =
          (subst IsBalanced (sym same) b, omega (arith, ap depth same))
