-- ===== src/Avl/Delete.antt =====
-- container/tree/avl_tree-inl.hpp: what `DeleteImpl` removes, and that it does not keep the balance.
use mathlib.Core.List.{append_assoc, append-nil}
use dsac.Prelude.{
  ℕ, ◌≡◌, ◌<◌, refl, sym, ap, ◌∙◌, Bool, true, false, List, ◌∷◌, ◌++◌, some, arith, ◌>>=◌,
  bind-some, inl, inr, ◌⊎◌, ltb, All,
}
use dsac.Avl.{
  Tree, empty, node, leaf, balancing_subtree, rotate, small_left_rotation, update_height,
  find_min_child, delete_min_child, delete_root, delete_impl, visit,
}
use dsac.Avl.Balance.{IsBalanced}
use dsac.Avl.Keys.{All-append}

module _ {ℓ} {T : Type ℓ} where
  -- the smallest key is visited first, and the other keys are kept
  min_child-visit :
      (t t' : Tree T) (key : T) (height : ℕ)
      → find_min_child t ≡ some (key, height)
      → delete_min_child t ≡ some t'
      → visit t ≡ key ∷ visit t'
  unfolding find_min_child delete_min_child visit
  min_child-visit empty t' key height f d = absurd (cc)
  min_child-visit (node k empty r h) t' key height f d =
      let a : k ≡ key = grind arith in let b : r ≡ t' = grind arith in rw (a, b) refl
  min_child-visit (node k (node lk ll lr lh) r h) t' key height f d =
      let (l, e, g) =
        bind-some (delete_min_child (node lk ll lr lh)) (λ l. some (node k l r h)) t' d in
      let rebuilt : node k l r h ≡ t' = grind arith in
      ap (λ ks. ks ++ k ∷ visit r) (min_child-visit (node lk ll lr lh) l key height f e)
      ∙ ap (λ u. key ∷ visit u) rebuilt

module _ {ℓ} {A : Type ℓ} where
  first :
      (a b : Bool) (x y z : A)
      → a ≡ true
      → (elim a [ true ↦ x | false ↦ elim b [ true ↦ y | false ↦ z ] ]) ≡ x
  first true b x y z e = refl
  first false b x y z e = absurd (cc)

  second :
      (a b : Bool) (x y z : A)
      → a ≡ false
      → b ≡ true
      → (elim a [ true ↦ x | false ↦ elim b [ true ↦ y | false ↦ z ] ]) ≡ y
  second true b x y z e f = absurd (cc)
  second false true x y z e f = refl
  second false false x y z e f = absurd (cc)

  third :
      (a b : Bool) (x y z : A)
      → a ≡ false
      → b ≡ false
      → (elim a [ true ↦ x | false ↦ elim b [ true ↦ y | false ↦ z ] ]) ≡ z
  third true b x y z e f = absurd (cc)
  third false true x y z e f = absurd (cc)
  third false false x y z e f = refl

module _ {ℓ} {T : Type ℓ} (less : T → T → Bool) where
  -- less or greater than the key to delete
  abbrev pub IsApart : T → T → Type 0
  IsApart deleted key = (less deleted key ≡ true) ⊎ (less key deleted ≡ true)

  -- `keys'` is `keys`, all of which are apart from `deleted`, or `keys` without one key that is not
  unfoldable pub IsRemoved : T → List T → List T → Type ℓ
  IsRemoved deleted keys keys' =
      ((keys' ≡ keys) × All (IsApart deleted) keys)
      ⊎ ((key : T) × (front : List T) × (back : List T) × (less deleted key ≡ false)
          × (less key deleted ≡ false)
          × (keys ≡ front ++ key ∷ back)
          × (keys' ≡ front ++ back))

  pub IsRemoved-left :
      (deleted k : T) (xs xs' ys : List T)
      → All (IsApart deleted) (k ∷ ys)
      → IsRemoved deleted xs xs'
      → IsRemoved deleted (xs ++ k ∷ ys) (xs' ++ k ∷ ys)
  unfolding IsRemoved
  IsRemoved-left deleted k xs xs' ys apart (inl (e, others)) =
      inl (ap (λ l. l ++ k ∷ ys) e, All-append (IsApart deleted) xs (k ∷ ys) others apart)
  IsRemoved-left deleted k xs xs' ys apart (inr (key, front, back, f, g, before, after)) = inr (
    key,
    front,
    back ++ k ∷ ys,
    f,
    g,
    ap (λ l. l ++ k ∷ ys) before ∙ append_assoc front (key ∷ back) (k ∷ ys),
    ap (λ l. l ++ k ∷ ys) after ∙ append_assoc front back (k ∷ ys),
  )

  pub IsRemoved-right :
      (deleted k : T) (xs ys ys' : List T)
      → All (IsApart deleted) xs
      → IsApart deleted k
      → IsRemoved deleted ys ys'
      → IsRemoved deleted (xs ++ k ∷ ys) (xs ++ k ∷ ys')
  unfolding IsRemoved
  IsRemoved-right deleted k xs ys ys' apart here (inl (e, others)) =
      inl (ap (λ l. xs ++ k ∷ l) e, All-append (IsApart deleted) xs (k ∷ ys) apart (here, others))
  IsRemoved-right deleted k xs ys ys' apart here (inr (key, front, back, f, g, before, after)) =
      inr (
        key,
        xs ++ k ∷ front,
        back,
        f,
        g,
        ap (λ l. xs ++ k ∷ l) before ∙ sym (append_assoc xs (k ∷ front) (key ∷ back)),
        ap (λ l. xs ++ k ∷ l) after ∙ sym (append_assoc xs (k ∷ front) back),
      )

  pub delete_root-visit : (l r t : Tree T) → delete_root l r ≡ some t → visit t ≡ visit l ++ visit r
  unfolding delete_root visit
  delete_root-visit l empty t e =
      let same : l ≡ t = grind arith in ap visit (sym same) ∙ sym (append-nil (visit l))
  delete_root-visit l (node rk rl rr rh) t e =
      let right = node rk rl rr rh in
      let ((key, height), found, rest) = bind-some (find_min_child right) _ t e in
      let (r', kept, done) = bind-some (delete_min_child right) _ t rest in
      let same : node key l r' height ≡ t = grind arith in
      ap visit (sym same)
      ∙ ap (λ ks. visit l ++ ks) (sym (min_child-visit right r' key height found kept))

  pub run_left :
      (deleted key : T) (l r : Tree T) (h : ℕ)
      → less deleted key ≡ true
      → delete_impl less deleted (node key l r h) ≡ (
          delete_impl less deleted l >>= λ l'.
          balancing_subtree (less key deleted) (node key l' r h))
  unfolding delete_impl
  run_left deleted key l r h before = first (less deleted key) (less key deleted) _ _ _ before

  pub run_right :
      (deleted key : T) (l r : Tree T) (h : ℕ)
      → less deleted key ≡ false
      → less key deleted ≡ true
      → delete_impl less deleted (node key l r h) ≡ (
          delete_impl less deleted r >>= λ r'.
          balancing_subtree (less deleted key) (node key l r' h))
  unfolding delete_impl
  run_right deleted key l r h before after =
      second (less deleted key) (less key deleted) _ _ _ before after

  pub run_here :
      (deleted key : T) (l r : Tree T) (h : ℕ)
      → less deleted key ≡ false
      → less key deleted ≡ false
      → delete_impl less deleted (node key l r h) ≡ delete_root l r
  unfolding delete_impl
  run_here deleted key l r h before after =
      third (less deleted key) (less key deleted) _ _ _ before after

-- A deletion can leave a tree that is not balanced: after the key on the left is gone, the subtree on the
-- right, which is deeper on its left side, is rotated once instead of twice.
pub delete_unbalances :
    (a b c d : ℕ)
    → a < b
    → IsBalanced (node b (leaf a) (node d (leaf c) empty 1) 2)
      × (delete_impl ltb a (node b (leaf a) (node d (leaf c) empty 1) 2)
          ≡ some (node d (node b empty (leaf c) 1) empty 2))
      × (IsBalanced (node d (node b empty (leaf c) 1) empty 2) → ⊥)
unfolding delete_root balancing_subtree rotate small_left_rotation update_height
delete_unbalances a b c d lt =
    let t : ltb a b ≡ true = ground arith in
    let f : ltb b a ≡ false = ground arith in
    let s : ltb a a ≡ false = ground arith in
    let gone : delete_impl ltb a (leaf a) ≡ some empty = run_here ltb a a empty empty 0 s s in
    (
      (
        (tt, tt, refl, omega arith, omega arith),
        ((tt, tt, refl, omega arith, omega arith), tt, refl, omega arith, omega arith),
        refl,
        omega arith,
        omega arith,
      ),
      run_left ltb a b (leaf a) (node d (leaf c) empty 1) 2 t
          ∙ ap
              (λ m. m >>= λ l'. balancing_subtree (ltb b a) (node b l' (node d (leaf c) empty 1) 2))
              gone
          ∙ ap (λ i. balancing_subtree i (node b empty (node d (leaf c) empty 1) 2)) f,
      λ h. let (x, y, z, le, re) = h in absurd (omega arith),
    )
