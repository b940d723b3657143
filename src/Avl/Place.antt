-- ===== src/Avl/Place.antt =====
-- container/tree/avl_tree-inl.hpp: `InsertImpl` puts the key where the order of `Visit` wants it.
use mathlib.Core.List.{append_assoc}
use dsac.Prelude.{
  ℕ, ◌≡◌, refl, sym, ap, ◌∙◌, subst, Bool, true, false, List, [], ◌∷◌, ◌++◌, Option, none, some,
  arith, ◌>>=◌, Bool-cases, inl, inr,
}
use dsac.Avl.{Tree, empty, node, leaf, get_key, balancing_subtree, insert_impl, visit}
use dsac.Avl.Order.{balancing_subtree-Keeps}

module _ {ℓ} {T : Type ℓ} (less : T → T → Bool) where
  -- each key is less than the next one
  abbrev pub IsIncreasing : List T → Type 0
  IsIncreasing [] = Unit
  IsIncreasing (x ∷ []) = Unit
  IsIncreasing (x ∷ y ∷ xs) = (less x y ≡ true) × IsIncreasing (y ∷ xs)

  -- the last of `xs` is less than `a`
  abbrev pub IsBelow : List T → T → Type 0
  IsBelow [] a = Unit
  IsBelow (x ∷ []) a = less x a ≡ true
  IsBelow (x ∷ y ∷ xs) a = IsBelow (y ∷ xs) a

  abbrev pub IsOver : List T → T → Type 0
  IsOver [] a = Unit
  IsOver (y ∷ ys) a = less a y ≡ true

  IsIncreasing-place :
      (xs ys : List T) (a : T)
      → IsBelow xs a
      → IsOver ys a
      → IsIncreasing (xs ++ ys)
      → IsIncreasing (xs ++ a ∷ ys)
  IsIncreasing-place [] [] a below over h = tt
  IsIncreasing-place [] (y ∷ ys) a below over h = (over, h)
  IsIncreasing-place (x ∷ []) [] a below over h = (below, tt)
  IsIncreasing-place (x ∷ []) (y ∷ ys) a below over h = (below, (over, h.1))
  IsIncreasing-place (x ∷ z ∷ xs) ys a below over h =
      (h.0, IsIncreasing-place (z ∷ xs) ys a below over h.1)

  -- `keys'` is `keys` with `added` between two neighbours that are less and greater
  pub record IsPlaced (added : T) (keys keys' : List T) : Type ℓ where
    pub front : List T
    pub back : List T
    pub before_eq : keys ≡ front ++ back
    pub after_eq : keys' ≡ front ++ added ∷ back
    pub below : IsBelow front added
    pub over : IsOver back added

  IsBelow-append :
      (xs ys : List T) (k a : T) → less k a ≡ true → IsBelow ys a → IsBelow (xs ++ k ∷ ys) a
  IsBelow-append [] [] k a h b = h
  IsBelow-append [] (y ∷ ys) k a h b = b
  IsBelow-append (x ∷ []) ys k a h b = IsBelow-append [] ys k a h b
  IsBelow-append (x ∷ z ∷ xs) ys k a h b = IsBelow-append (z ∷ xs) ys k a h b

  IsOver-append :
      (xs ys : List T) (k a : T) → less a k ≡ true → IsOver xs a → IsOver (xs ++ k ∷ ys) a
  IsOver-append [] ys k a h o = h
  IsOver-append (x ∷ xs) ys k a h o = o

  place_left :
      (added k : T) (xs xs' ys : List T)
      → less added k ≡ true
      → IsPlaced added xs xs'
      → IsPlaced added (xs ++ k ∷ ys) (xs' ++ k ∷ ys)
  place_left added k xs xs' ys h p = record {
    front = p.front;
    back = p.back ++ k ∷ ys;
    before_eq = ap (λ l. l ++ k ∷ ys) p.before_eq ∙ append_assoc p.front p.back (k ∷ ys);
    after_eq = ap (λ l. l ++ k ∷ ys) p.after_eq ∙ append_assoc p.front (added ∷ p.back) (k ∷ ys);
    below = p.below;
    over = IsOver-append p.back ys k added h p.over;
  }

  place_right :
      (added k : T) (xs ys ys' : List T)
      → less k added ≡ true
      → IsPlaced added ys ys'
      → IsPlaced added (xs ++ k ∷ ys) (xs ++ k ∷ ys')
  place_right added k xs ys ys' h p = record {
    front = xs ++ k ∷ p.front;
    back = p.back;
    before_eq = ap (λ l. xs ++ k ∷ l) p.before_eq ∙ sym (append_assoc xs (k ∷ p.front) p.back);
    after_eq =
        ap (λ l. xs ++ k ∷ l) p.after_eq ∙ sym (append_assoc xs (k ∷ p.front) (added ∷ p.back));
    below = IsBelow-append xs p.front k added h p.below;
    over = p.over;
  }

  -- what a call of `InsertImpl` that added the key went through
  record IsDescent (m : Option (Bool × Tree T)) (f : Tree T → Tree T) (t : Tree T) : Type ℓ where
    child : Tree T
    inner : Bool
    returned : m ≡ some (true, child)
    mended : balancing_subtree inner (f child) ≡ some t

  abbrev added_to : Tree T → Option (Bool × Tree T)
  added_to u = some (true, u)

  -- the rest of the call after the one on the child
  abbrev finish : (Tree T → Tree T) → (T → Bool) → Bool × Tree T → Option (Bool × Tree T)
  finish f c r = elim r.0 [
    | true ↦ get_key r.1 >>= λ source. balancing_subtree (c source) (f r.1) >>= λ u. some (true, u)
    | false ↦ some (false, f r.1)
  ]

  descent :
      (m : Option (Bool × Tree T)) (f : Tree T → Tree T) (c : T → Bool) (t : Tree T)
      → (m >>= finish f c) ≡ some (true, t)
      → IsDescent m f t
  descent none f c t e = absurd (cc)
  descent (some (false, l)) f c t e = absurd (ground arith)
  descent (some (true, l)) f c t e = keyed (get_key l) e
    where
      mend :
          (inner : Bool) (o : Option (Tree T))
          → balancing_subtree inner (f l) ≡ o
          → (o >>= added_to) ≡ some (true, t)
          → IsDescent (some (true, l)) f t
      mend inner none b h = absurd (cc)
      mend inner (some u) b h = record {
        child = l;
        inner = inner;
        returned = refl;
        mended = b ∙ grind arith;
      }

      keyed :
          (o : Option T)
          → (o >>= λ source. balancing_subtree (c source) (f l) >>= added_to) ≡ some (true, t)
          → IsDescent (some (true, l)) f t
      keyed none h = absurd (cc)
      keyed (some source) h = mend (c source) (balancing_subtree (c source) (f l)) refl h

  run_left :
      (added key : T) (l r : Tree T) (h : ℕ)
      → less added key ≡ true
      → insert_impl less added (node key l r h) ≡ (
          insert_impl less added l >>= finish (λ l'. node key l' r h) (λ source. less source added))
  unfolding insert_impl
  run_left added key l r h before = rw (before, insert_impl) refl

  run_right :
      (added key : T) (l r : Tree T) (h : ℕ)
      → less added key ≡ false
      → less key added ≡ true
      → insert_impl less added (node key l r h) ≡ (
          insert_impl less added r >>= finish (λ r'. node key l r' h) (λ source. less added source))
  unfolding insert_impl
  run_right added key l r h before after = rw (before, insert_impl, after) refl

  run_equal :
      (added key : T) (l r : Tree T) (h : ℕ)
      → less added key ≡ false
      → less key added ≡ false
      → insert_impl less added (node key l r h) ≡ some (false, node key l r h)
  unfolding insert_impl
  run_equal added key l r h before after = rw (before, insert_impl, after) refl

  -- Where `InsertImpl` answers true, the keys are visited as before, with the new one between a last
  -- lesser and a first greater neighbour.
  pub insert_impl-IsPlaced :
      (added : T) (t t' : Tree T)
      → insert_impl less added t ≡ some (true, t')
      → IsPlaced added (visit t) (visit t')
  unfolding insert_impl visit
  insert_impl-IsPlaced added empty t' run =
      let e : leaf added ≡ t' = grind arith in
      record {
        front = [];
        back = [];
        before_eq = refl;
        after_eq = sym (ap visit e);
        below = tt;
        over = tt;
      }
  insert_impl-IsPlaced added (node key l r h) t' run = elim (Bool-cases (less added key)) [
    | inl before ↦
        let d =
          descent (insert_impl less added l) (λ l'. node key l' r h) (λ source. less source added)
            t' (sym (run_left added key l r h before) ∙ run) in
        let p = insert_impl-IsPlaced added l d.child d.returned in
        let same = balancing_subtree-Keeps d.inner (node key d.child r h) t' d.mended in
        subst (IsPlaced added (visit l ++ key ∷ visit r)) (sym same)
          (place_left added key (visit l) (visit d.child) (visit r) before p)
    | inr not_before ↦ elim (Bool-cases (less key added)) [
      | inl after ↦
          let d =
            descent (insert_impl less added r) (λ r'. node key l r' h) (λ source. less added source)
              t' (sym (run_right added key l r h not_before after) ∙ run) in
          let p = insert_impl-IsPlaced added r d.child d.returned in
          let same = balancing_subtree-Keeps d.inner (node key l d.child h) t' d.mended in
          subst (IsPlaced added (visit l ++ key ∷ visit r)) (sym same)
            (place_right added key (visit l) (visit r) (visit d.child) after p)
      | inr not_after ↦
          absurd (let e = run_equal added key l r h not_before not_after in grind arith)
    ]
  ]

  -- An insertion that answers true keeps the visited keys increasing.
  pub insert_impl-IsIncreasing :
      (added : T) (t t' : Tree T)
      → insert_impl less added t ≡ some (true, t')
      → IsIncreasing (visit t)
      → IsIncreasing (visit t')
  insert_impl-IsIncreasing added t t' run h =
      let p = insert_impl-IsPlaced added t t' run in
      subst IsIncreasing (sym p.after_eq)
        (IsIncreasing-place p.front p.back added p.below p.over (subst IsIncreasing p.before_eq h))
