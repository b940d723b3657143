-- ===== src/Avl/Total.antt =====
-- container/tree/avl_tree-inl.hpp: `DeleteImpl` uses no null pointer, whatever the heights are.
use dsac.Prelude.{
  ℕ, ◌+◌, ◌≡◌, ◌⊎◌, refl, ◌∙◌, Bool, false, List, ◌∷◌, ◌++◌, Option, some, arith, ◌==◌, ◌>>=◌, All,
  true, Returns, Bool-cases, inl, inr,
}
use dsac.Sort.Order.{StrictWeak}
use dsac.Avl.{
  Tree, empty, node, depth, get_max_height, balancing_subtree, rotate, small_left_rotation,
  small_right_rotation, update_height, find_min_child, delete_min_child, delete_root, delete_impl,
  visit,
}
use dsac.Avl.Place.{IsIncreasing}
use dsac.Avl.Delete.{run_left, run_right, run_here}
use dsac.Avl.Removal.{delete_impl-IsRemoved}

-- an operation that meets no null pointer
abbrev IsSome {ℓ} : {A : Type ℓ} → Option A → Type ℓ
IsSome {A} m = (x : A) × (m ≡ some x)

module _ {ℓ} {T : Type ℓ} where
  small_left-IsSome :
      (key : T) (l r : Tree T) (h : ℕ)
      → depth l + 2 ≡ depth r
      → IsSome (small_left_rotation (node key l r h) >>= update_height)
  unfolding small_left_rotation update_height
  small_left-IsSome key l empty h e = absurd (omega arith)
  small_left-IsSome key l (node rkey rl rr rh) h e = (_, refl)

  small_right-IsSome :
      (key : T) (l r : Tree T) (h : ℕ)
      → depth l ≡ depth r + 2
      → IsSome (small_right_rotation (node key l r h) >>= update_height)
  unfolding small_right_rotation update_height
  small_right-IsSome key empty r h e = absurd (omega arith)
  small_right-IsSome key (node lkey ll lr lh) r h e = (_, refl)

  balancing_subtree-IsSome :
      (key : T) (l r : Tree T) (h : ℕ) → IsSome (balancing_subtree false (node key l r h))
  unfolding balancing_subtree rotate update_height
  balancing_subtree-IsSome key l r h = elim (Bool-cases (depth l + 2 == depth r)) [
    | inl e ↦
        let (t, run) = small_left-IsSome key l r h (ground arith) in
        (t, rw (e, balancing_subtree, rotate) run)
    | inr e ↦ elim (Bool-cases (depth l == depth r + 2)) [
      | inl f ↦
          let (t, run) = small_right-IsSome key l r h (ground arith) in
          (t, rw (e, balancing_subtree, rotate, f) run)
      | inr f ↦ (node key l r (get_max_height l r), rw (e, balancing_subtree, rotate, f) refl)
    ]
  ]

  find_min_child-IsSome :
      (key : T) (l r : Tree T) (h : ℕ) → IsSome (find_min_child (node key l r h))
  unfolding find_min_child
  find_min_child-IsSome key empty r h = ((key, h), refl)
  find_min_child-IsSome key (node lkey ll lr lh) r h = find_min_child-IsSome lkey ll lr lh

  delete_min_child-IsSome :
      (key : T) (l r : Tree T) (h : ℕ) → IsSome (delete_min_child (node key l r h))
  unfolding delete_min_child
  delete_min_child-IsSome key empty r h = (r, refl)
  delete_min_child-IsSome key (node lkey ll lr lh) r h =
      let (l, run) = delete_min_child-IsSome lkey ll lr lh in (node key l r h, rw run refl)

  delete_root-IsSome : (l r : Tree T) → IsSome (delete_root l r)
  unfolding delete_root
  delete_root-IsSome l empty = (l, refl)
  delete_root-IsSome l (node rkey rl rr rh) =
      let ((key, height), found) = find_min_child-IsSome rkey rl rr rh in
      let (r, rest) = delete_min_child-IsSome rkey rl rr rh in
      (node key l r height, rw (found, rest) refl)

module _ {ℓ} {T : Type ℓ} {less : T → T → Bool} (order : StrictWeak less) where
  delete_impl-IsSome : (deleted : T) (t : Tree T) → IsSome (delete_impl less deleted t)
  unfolding delete_impl
  delete_impl-IsSome deleted empty = (empty, refl)
  delete_impl-IsSome deleted (node key l r h) = elim (Bool-cases (less deleted key)) [
    | inl before ↦
        let (l', child) = delete_impl-IsSome deleted l in
        let (t, mended) = balancing_subtree-IsSome key l' r h in
        let f : less key deleted ≡ false = ground (arith, order.asymm deleted key) in
        (t, run_left less deleted key l r h before ∙ rw (child, f) mended)
    | inr not_before ↦ elim (Bool-cases (less key deleted)) [
      | inl after ↦
          let (r', child) = delete_impl-IsSome deleted r in
          let (t, mended) = balancing_subtree-IsSome key l r' h in
          (t, run_right less deleted key l r h not_before after ∙ rw (child, not_before) mended)
      | inr not_after ↦
          let (t, run) = delete_root-IsSome l r in
          (t, run_here less deleted key l r h not_before not_after ∙ run)
    ]
  ]

  -- For a strict weak order and a tree whose visited keys are increasing, `DeleteImpl` uses no null pointer; and
  -- the keys are visited as before, and each is less or greater than the key to delete, or they are visited as
  -- before but for one, which is neither less nor greater than the key to delete.
  pub delete_impl_total :
      (deleted : T) (t : Tree T)
      → IsIncreasing less (visit t)
      → Returns (delete_impl less deleted t) (λ t'.
        ((visit t' ≡ visit t)
          × All (λ k. (less deleted k ≡ true) ⊎ (less k deleted ≡ true)) (visit t))
        ⊎ ((key : T) × (front : List T) × (back : List T) × (less deleted key ≡ false)
            × (less key deleted ≡ false)
            × (visit t ≡ front ++ key ∷ back)
            × (visit t' ≡ front ++ back)))
  delete_impl_total deleted t h =
      let (t', run) = delete_impl-IsSome deleted t in
      (t', run, delete_impl-IsRemoved order deleted t t' h run)
