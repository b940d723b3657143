-- ===== src/Avl/Balance.antt =====
-- container/tree/avl_tree-inl.hpp: an insertion keeps the heights right and the tree balanced.
use dsac.Prelude.{
  ℕ, suc, ◌+◌, ◌≤◌, ◌≡◌, ◌≢◌, ◌⊎◌, refl, Bool, true, false, some, arith, max, ◌==◌, if◌then◌else◌,
  ◌>>=◌, Returns,
}
use dsac.Avl.{
  Tree, empty, node, depth, get_max_height, small_left_rotation, small_right_rotation,
  large_left_rotation, large_right_rotation, update_height, rotate, balancing_subtree,
}

module _ {ℓ} {T : Type ℓ} where
  -- The heights are right, and those of two siblings differ by at most 1.
  abbrev pub IsBalanced : Tree T → Type 0
  IsBalanced empty = Unit
  IsBalanced (node key left right height) =
      IsBalanced left
      × IsBalanced right
      × (height ≡ max (depth left) (depth right))
      × (depth left ≤ depth right + 1)
      × (depth right ≤ depth left + 1)

  -- the tree is a leaf, or leans to the side where `added` went
  abbrev pub IsLeaning : (T → T → Bool) → T → Tree T → Type 0
  IsLeaning less added empty = ⊥
  IsLeaning less added (node key left right height) =
      ((depth left ≡ 0) × (depth right ≡ 0))
      ⊎ ((less added key ≡ true) × (depth left ≡ suc (depth right)))
      ⊎ ((less added key ≡ false) × (less key added ≡ true) × (depth right ≡ suc (depth left)))

  -- what a rotation leaves: a balanced tree of the depth before the insertion
  abbrev pub Rotated : ℕ → Tree T → Type 0
  Rotated n t = IsBalanced t × (depth t ≡ n + 2)

  balancing_right :
      (inner : Bool) (key : T) (l r : Tree T) (h : ℕ)
      → depth l ≡ depth r + 2
      → balancing_subtree inner (node key l r h) ≡ (
          (if inner
            then large_right_rotation (node key l r h)
            else small_right_rotation (node key l r h))
          >>= update_height)
  unfolding balancing_subtree rotate
  balancing_right inner key l r h e =
      let a : (depth l + 2 == depth r) ≡ false = ground arith in
      let b : (depth l == depth r + 2) ≡ true = ground arith in rw (a, b) refl

  balancing_left :
      (inner : Bool) (key : T) (l r : Tree T) (h : ℕ)
      → depth r ≡ depth l + 2
      → balancing_subtree inner (node key l r h) ≡ (
          (if inner
            then large_left_rotation (node key l r h)
            else small_left_rotation (node key l r h))
          >>= update_height)
  unfolding balancing_subtree rotate
  balancing_left inner key l r h e =
      let a : (depth l + 2 == depth r) ≡ true = ground arith in rw a refl

  pub right_small :
      (key lkey : T) (ll lr r : Tree T) (lh h : ℕ)
      → IsBalanced (node lkey ll lr lh)
      → IsBalanced r
      → depth ll ≡ suc (depth lr)
      → depth (node lkey ll lr lh) ≡ depth r + 2
      → Returns (balancing_subtree false (node key (node lkey ll lr lh) r h)) (Rotated (depth r))
  unfolding small_right_rotation update_height
  right_small key lkey ll lr r lh h bl br lean tall =
      let s = node key lr r (get_max_height lr r) in
      let (bll, blr, eh, le, re) = bl in
      (
        node lkey ll s (get_max_height ll s),
        balancing_right false key (node lkey ll lr lh) r h tall,
        (
          (bll, (blr, br, refl, omega arith, omega arith), refl, omega arith, omega arith),
          omega arith,
        ),
      )

  pub left_small :
      (key rkey : T) (l rl rr : Tree T) (rh h : ℕ)
      → IsBalanced l
      → IsBalanced (node rkey rl rr rh)
      → depth rr ≡ suc (depth rl)
      → depth (node rkey rl rr rh) ≡ depth l + 2
      → Returns (balancing_subtree false (node key l (node rkey rl rr rh) h)) (Rotated (depth l))
  unfolding small_left_rotation update_height
  left_small key rkey l rl rr rh h bl br lean tall =
      let s = node key l rl (get_max_height l rl) in
      let (brl, brr, eh, le, re) = br in
      (
        node rkey s rr (get_max_height s rr),
        balancing_left false key l (node rkey rl rr rh) h tall,
        (
          ((bl, brl, refl, omega arith, omega arith), brr, refl, omega arith, omega arith),
          omega arith,
        ),
      )

  pub right_large :
      (key lkey mkey : T) (ll ml mr r : Tree T) (mh lh h : ℕ)
      → IsBalanced (node lkey ll (node mkey ml mr mh) lh)
      → IsBalanced r
      → depth (node mkey ml mr mh) ≡ suc (depth ll)
      → depth (node lkey ll (node mkey ml mr mh) lh) ≡ depth r + 2
      → Returns
          (balancing_subtree true (node key (node lkey ll (node mkey ml mr mh) lh) r h))
          (Rotated (depth r))
  unfolding large_right_rotation small_left_rotation small_right_rotation update_height
  right_large key lkey mkey ll ml mr r mh lh h bl br lean tall =
      let a = node lkey ll ml (get_max_height ll ml) in
      let b = node key mr r (get_max_height mr r) in
      let (bll, (bml, bmr, mh_eq, mle, mre), eh, le, re) = bl in
      (
        node mkey a b (get_max_height a b),
        balancing_right true key (node lkey ll (node mkey ml mr mh) lh) r h tall,
        (
          (
            (bll, bml, refl, omega arith, omega arith),
            (bmr, br, refl, omega arith, omega arith),
            refl,
            omega arith,
            omega arith,
          ),
          omega arith,
        ),
      )

  pub left_large :
      (key rkey mkey : T) (l ml mr rr : Tree T) (mh rh h : ℕ)
      → IsBalanced l
      → IsBalanced (node rkey (node mkey ml mr mh) rr rh)
      → depth (node mkey ml mr mh) ≡ suc (depth rr)
      → depth (node rkey (node mkey ml mr mh) rr rh) ≡ depth l + 2
      → Returns
          (balancing_subtree true (node key l (node rkey (node mkey ml mr mh) rr rh) h))
          (Rotated (depth l))
  unfolding large_left_rotation small_left_rotation small_right_rotation update_height
  left_large key rkey mkey l ml mr rr mh rh h bl br lean tall =
      let a = node key l ml (get_max_height l ml) in
      let b = node rkey mr rr (get_max_height mr rr) in
      let ((bml, bmr, mh_eq, mle, mre), brr, eh, le, re) = br in
      (
        node mkey a b (get_max_height a b),
        balancing_left true key l (node rkey (node mkey ml mr mh) rr rh) h tall,
        (
          (
            (bl, bml, refl, omega arith, omega arith),
            (bmr, brr, refl, omega arith, omega arith),
            refl,
            omega arith,
            omega arith,
          ),
          omega arith,
        ),
      )

  -- where the depths do not differ by 2
  pub still :
      (inner : Bool) (key : T) (l r : Tree T) (h : ℕ)
      → depth l ≢ depth r + 2
      → depth l + 2 ≢ depth r
      → balancing_subtree inner (node key l r h) ≡ some (node key l r (get_max_height l r))
  unfolding balancing_subtree rotate update_height
  still inner key l r h n m = ground arith
