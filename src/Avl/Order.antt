-- ===== src/Avl/Order.antt =====
-- container/tree/avl_tree-inl.hpp: where `InsertImpl` puts the key in the order of `Visit`.
use mathlib.Core.List.{append_assoc}
use dsac.Prelude.{
  ◌≡◌, refl, sym, ap, ◌∙◌, Bool, true, false, List, [], ◌∷◌, ◌++◌, Option, none, some, ◌==◌,
  if◌then◌else◌, ◌>>=◌, ◌+◌,
}
use dsac.Avl.{
  Tree, empty, node, depth, small_left_rotation, small_right_rotation, large_left_rotation,
  large_right_rotation, update_height, rotate, balancing_subtree, visit,
}

module _ {ℓ} {T : Type ℓ} where
  -- a step that keeps the order of the visits, where it returns
  abbrev pub Keeps : Option (Tree T) → List T → Type ℓ
  Keeps m keys = (t : Tree T) → m ≡ some t → visit t ≡ keys

  visited : Option (Tree T) → List T
  visited none = []
  visited (some t) = visit t

  some-Keeps : (t : Tree T) → Keeps (some t) (visit t)
  unfolding visited
  some-Keeps t u e = sym (ap visited e)

  bind-Keeps :
      (m : Option (Tree T)) (f : Tree T → Option (Tree T)) (keys keys' : List T)
      → Keeps m keys
      → ((t : Tree T) → visit t ≡ keys → Keeps (f t) keys')
      → Keeps (m >>= f) keys'
  bind-Keeps none f keys keys' h k t e = absurd (cc)
  bind-Keeps (some u) f keys keys' h k t e = k u (h u refl) t e

  if-Keeps :
      (c : Bool) (x y : Option (Tree T)) (keys : List T)
      → Keeps x keys
      → Keeps y keys
      → Keeps (if c then x else y) keys
  if-Keeps true x y keys h k = h
  if-Keeps false x y keys h k = k

  small_left-Keeps : (t : Tree T) → Keeps (small_left_rotation t) (visit t)
  unfolding small_left_rotation visit visited
  small_left-Keeps empty u e = absurd (cc)
  small_left-Keeps (node key l empty h) u e = absurd (cc)
  small_left-Keeps (node key l (node rkey rl rr rh) h) u e =
      sym (ap visited e) ∙ append_assoc (visit l) (key ∷ visit rl) (rkey ∷ visit rr)

  small_right-Keeps : (t : Tree T) → Keeps (small_right_rotation t) (visit t)
  unfolding small_right_rotation visit visited
  small_right-Keeps empty u e = absurd (cc)
  small_right-Keeps (node key empty r h) u e = absurd (cc)
  small_right-Keeps (node key (node lkey ll lr lh) r h) u e =
      sym (ap visited e) ∙ sym (append_assoc (visit ll) (lkey ∷ visit lr) (key ∷ visit r))

  large_left-Keeps : (t : Tree T) → Keeps (large_left_rotation t) (visit t)
  unfolding large_left_rotation visit
  large_left-Keeps empty = λ u e. absurd (cc)
  large_left-Keeps (node key l r h) =
      bind-Keeps (small_right_rotation r) (λ r'. small_left_rotation (node key l r' h)) (visit r)
        (visit l ++ key ∷ visit r) (small_right-Keeps r)
        (λ r' same u e.
          small_left-Keeps (node key l r' h) u e ∙ ap (λ ks. visit l ++ key ∷ ks) same)

  large_right-Keeps : (t : Tree T) → Keeps (large_right_rotation t) (visit t)
  unfolding large_right_rotation visit
  large_right-Keeps empty = λ u e. absurd (cc)
  large_right-Keeps (node key l r h) =
      bind-Keeps (small_left_rotation l) (λ l'. small_right_rotation (node key l' r h)) (visit l)
        (visit l ++ key ∷ visit r) (small_left-Keeps l)
        (λ l' same u e.
          small_right-Keeps (node key l' r h) u e ∙ ap (λ ks. ks ++ key ∷ visit r) same)

  rotate-Keeps : (inner : Bool) (t : Tree T) → Keeps (rotate inner t) (visit t)
  unfolding rotate
  rotate-Keeps inner empty = λ u e. absurd (cc)
  rotate-Keeps inner (node key l r h) =
      let t = node key l r h in
      if-Keeps (depth l + 2 == depth r) _ _ (visit t)
        (if-Keeps inner _ _ (visit t) (large_left-Keeps t) (small_left-Keeps t))
        (if-Keeps (depth l == depth r + 2) _ _ (visit t)
          (if-Keeps inner _ _ (visit t) (large_right-Keeps t) (small_right-Keeps t)) (some-Keeps t))

  update_height-Keeps : (t : Tree T) → Keeps (update_height t) (visit t)
  unfolding update_height visit visited
  update_height-Keeps empty u e = absurd (cc)
  update_height-Keeps (node key l r h) u e = sym (ap visited e)

  -- `BalancingSubtree` keeps the keys and the order in which they are visited.
  pub balancing_subtree-Keeps :
      (inner : Bool) (t : Tree T) → Keeps (balancing_subtree inner t) (visit t)
  unfolding balancing_subtree
  balancing_subtree-Keeps inner t =
      bind-Keeps (rotate inner t) update_height (visit t) (visit t) (rotate-Keeps inner t)
        (λ u same v e. update_height-Keeps u v e ∙ same)
