-- ===== src/Heap/Down.antt =====
-- container/heap/binary_heap-inl.hpp: `HeapifyDown` mends a heap below its root.
use mathlib.Core.List.Perm
use dsac.Prelude.{
  ℕ, zero, suc, ◌+◌, ◌≤◌, ◌<◌, ◌≡◌, ◌≢◌, refl, ℕ_discrete, ◌∙◌, Bool, true, false, List, some,
  arith, length, get_elem?, Perm, Returns, Bool-cases, inl, inr, ◌==◌, if◌then◌else◌,
}
use dsac.Prelude.Arrays.{
  exchange, swap-exchange, get_elem?-exchange, length-exchange, exchange-perm, get_elem?_of_lt,
  lt_of_get_elem?,
}
use dsac.Sort.Order.{StrictWeak}
use dsac.Heap.{
  get_index_parent, get_index_left_child, get_index_right_child, exist_left_child,
  exist_right_child, smaller_child, heapify_down,
}
use dsac.Heap.Order.{IsAbove, IsHeap, IsHeapBelow}

module _ {ℓ} {T : Type ℓ} {comp : T → T → Bool} (order : StrictWeak comp) where
  -- a child of `i`, and none goes before it
  record IsSmaller (i : ℕ) (xs : List T) (c : ℕ) : Type ℓ where
    parent : get_index_parent c ≡ i
    after : i < c
    inside : c < length xs
    least : (j : ℕ) → 0 < j → get_index_parent j ≡ i → IsAbove comp xs c j

  smaller_child-IsSmaller :
      (i : ℕ) (xs : List T)
      → get_index_left_child i < length xs
      → Returns (smaller_child comp i xs) (IsSmaller i xs)
  unfolding smaller_child
  smaller_child-IsSmaller i xs lt = elim (Bool-cases (exist_right_child i xs)) [
    | inl t ↦
        let (r, hr) = get_elem?_of_lt xs (get_index_right_child i) (ground arith) in
        let (l, hl) = get_elem?_of_lt xs (get_index_left_child i) lt in
        elim (Bool-cases (comp r l)) [
          | inl before ↦ (
            get_index_right_child i,
            ground arith,
            record {
              parent = omega arith;
              after = omega arith;
              inside = ground arith;
              least = λ j jp e x y hx hy. ground (arith, order.asymm r l, order.asymm r r);
            },
          )
          | inr not_before ↦ (
            get_index_left_child i,
            ground arith,
            record {
              parent = omega arith;
              after = omega arith;
              inside = lt;
              least = λ j jp e x y hx hy. ground (arith, order.asymm l l);
            },
          )
        ]
    | inr f ↦ (
      get_index_left_child i,
      ground arith,
      record {
        parent = omega arith;
        after = omega arith;
        inside = lt;
        least = λ j jp e x y hx hy. ground (arith, lt_of_get_elem? xs j hy, order.asymm x y);
      },
    )
  ]

  exchange-IsHeapBelow :
      (i c : ℕ) (xs : List T) (x y : T)
      → get_elem? xs i ≡ some x
      → get_elem? xs c ≡ some y
      → comp x y ≡ false
      → IsSmaller i xs c
      → IsHeapBelow comp i xs
      → IsHeapBelow comp c (exchange xs i c x y)
  exchange-IsHeapBelow i c xs x y hi hc f s h = record {
    others = λ j jp n a b ha hb.
        let e = s.parent in
        let after = s.after in
        ground (
          arith,
          at j,
          at (get_index_parent j),
          (λ (m : get_index_parent j ≢ i). h.others j jp m a b),
          (λ (m : get_index_parent j ≡ i). s.least j jp m y b),
          (λ (m : 0 < i). h.children c (omega arith) m e a y),
        );
    children = λ j jp cp m a b ha hb.
        let e = s.parent in
        let after = s.after in
        ground (arith, at j, at (get_index_parent c), h.others j jp (omega arith) y b);
  }
    where
      at :
          (k : ℕ)
          → get_elem? (exchange xs i c x y) k
            ≡ (if c == k then some x else if i == k then some y else get_elem? xs k)
      at = get_elem?-exchange xs i c hi hc

  -- where no child of `i` goes before it
  IsHeapBelow-IsHeap :
      (i c : ℕ) (xs : List T) (x y : T)
      → get_elem? xs i ≡ some x
      → get_elem? xs c ≡ some y
      → comp x y ≡ true
      → IsSmaller i xs c
      → IsHeapBelow comp i xs
      → IsHeap comp xs
  IsHeapBelow-IsHeap i c xs x y hi hc t s h j jp a b ha hb =
      elim (ℕ_discrete (get_index_parent j) i) [
        | yes e ↦ ground (arith, s.least j jp e y b, order.asymm x y, order.negative_trans x y b)
        | no n ↦ h.others j jp n a b ha hb
      ]

  -- where `i` has no child
  IsHeapBelow-leaf :
      (i : ℕ) (xs : List T) → exist_left_child i xs ≡ false → IsHeapBelow comp i xs → IsHeap comp xs
  IsHeapBelow-leaf i xs f h j jp a b ha hb = elim (ℕ_discrete (get_index_parent j) i) [
    | yes e ↦ absurd (ground (arith, lt_of_get_elem? xs j hb))
    | no n ↦ h.others j jp n a b ha hb
  ]

  down_leaf :
      (n i : ℕ) (xs : List T)
      → exist_left_child i xs ≡ false
      → heapify_down comp (suc n) i xs ≡ some xs
  unfolding heapify_down
  down_leaf n i xs e = rw (e, heapify_down) refl

  down_stop :
      (n i c : ℕ) (xs : List T) (x y : T)
      → exist_left_child i xs ≡ true
      → smaller_child comp i xs ≡ some c
      → get_elem? xs i ≡ some x
      → get_elem? xs c ≡ some y
      → comp x y ≡ true
      → heapify_down comp (suc n) i xs ≡ some xs
  unfolding heapify_down
  down_stop n i c xs x y e s hi hc t = rw (e, heapify_down, s, hi, hc, t) refl

  down_swap :
      (n i c : ℕ) (xs : List T) (x y : T)
      → exist_left_child i xs ≡ true
      → smaller_child comp i xs ≡ some c
      → get_elem? xs i ≡ some x
      → get_elem? xs c ≡ some y
      → comp x y ≡ false
      → heapify_down comp (suc n) i xs ≡ heapify_down comp n c (exchange xs i c x y)
  unfolding heapify_down
  down_swap n i c xs x y e s hi hc f =
      rw (e, heapify_down, s, hi, hc, f, swap-exchange xs i c hi hc) refl

  pub heapify_down-IsHeap :
      (n i : ℕ) (xs : List T)
      → length xs < n + i
      → i ≤ length xs
      → IsHeapBelow comp i xs
      → Returns (heapify_down comp n i xs) (λ ys. Perm ys xs × IsHeap comp ys)
  heapify_down-IsHeap zero i xs lt le h = absurd (omega arith)
  heapify_down-IsHeap (suc n) i xs lt le h = elim (Bool-cases (exist_left_child i xs)) [
    | inr f ↦ (xs, down_leaf n i xs f, (Perm.refl xs, IsHeapBelow-leaf i xs f h))
    | inl e ↦
        let (c, small, s) = smaller_child-IsSmaller i xs (ground arith) in
        let (x, hi) = get_elem?_of_lt xs i (omega (arith, s.after, s.inside)) in
        let (y, hc) = get_elem?_of_lt xs c s.inside in
        elim (Bool-cases (comp x y)) [
          | inl t ↦ (
            xs,
            down_stop n i c xs x y e small hi hc t,
            (Perm.refl xs, IsHeapBelow-IsHeap i c xs x y hi hc t s h),
          )
          | inr f ↦
              let zs = exchange xs i c x y in
              let len = length-exchange xs i c x y in
              let (ys, run, (perm, heap)) =
                heapify_down-IsHeap n c zs (omega (arith, s.after)) (omega (arith, s.inside))
                  (exchange-IsHeapBelow i c xs x y hi hc f s h) in
              (
                ys,
                down_swap n i c xs x y e small hi hc f ∙ run,
                (Perm.trans perm (exchange-perm xs i c hi hc), heap),
              )
        ]
  ]
