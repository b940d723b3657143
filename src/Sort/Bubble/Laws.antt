-- ===== src/Sort/Bubble/Laws.antt =====
-- algorithm/detail/bubble_sort.hpp: the range that `bubble_sort` leaves.
use dsac.Prelude.{
  ℕ, zero, suc, ◌+◌, ◌<◌, ◌≡◌, refl, Bool, true, false, List, some, Perm, arith, inl, inr, subst,
  ℕ_discrete, get_elem?, length, ◌==◌, if◌then◌else◌, Returns, Bool-cases,
}
use native.Mathlib.Numerals.{add-one}
use mathlib.Core.List.Perm
use dsac.Prelude.Arrays.{
  exchange, swap-exchange, get_elem?-exchange, exchange-perm, get_elem?_of_lt, length-perm,
}
use dsac.Sort.Order.{StrictWeak, IsSortedTo, IsSorting, perm-IsSorting, IsSorting-of_to}
use dsac.Sort.Bubble.{compare_and_swap, inner_loop, outer_loop, bubble_sort}

module _ {ℓ} {A : Type ℓ} {comp : A → A → Bool} (order : StrictWeak comp) where
  -- the `i` elements at the front are sorted, and the element at `i` goes after the first `j`
  record IsPlaced (i j : ℕ) (xs : List A) : Type ℓ where
    sorted : IsSortedTo comp i xs
    above :
        (p : ℕ) (x z : A)
        → p < j
        → get_elem? xs p ≡ some x
        → get_elem? xs i ≡ some z
        → comp z x ≡ false

  swap-IsPlaced :
      (i j : ℕ) (xs : List A) (x y : A)
      → j < i
      → get_elem? xs i ≡ some x
      → get_elem? xs j ≡ some y
      → comp x y ≡ true
      → IsPlaced i j xs
      → IsPlaced i (suc j) (exchange xs i j x y)
  swap-IsPlaced i j xs x y lt hi hj t h = record {
    sorted = λ p q a b pq qi ha hb. ground (
      arith,
      at p,
      at q,
      h.sorted j q y b,
      h.sorted p q a b,
      h.above p a x,
      order.asymm x y,
      order.negative_trans x y b,
    );
    above = λ p a z pj ha hz. ground (arith, at p, at i, h.sorted p j a y, order.asymm x y);
  }
    where
      at :
          (k : ℕ)
          → get_elem? (exchange xs i j x y) k
            ≡ (if j == k then some x else if i == k then some y else get_elem? xs k)
      at = get_elem?-exchange xs i j hi hj

  compare_and_swap-IsPlaced :
      (i j : ℕ) (xs : List A)
      → j < i
      → i < length xs
      → IsPlaced i j xs
      → Returns (compare_and_swap comp i j xs) (λ ys. Perm ys xs × IsPlaced i (suc j) ys)
  unfolding compare_and_swap
  compare_and_swap-IsPlaced i j xs ji il h =
      let (x, hi) = get_elem?_of_lt xs i il in
      let (y, hj) = get_elem?_of_lt xs j (omega arith) in
      elim (Bool-cases (comp x y)) [
        | inl t ↦ (
          exchange xs i j x y,
          rw (hi, hj, t) (swap-exchange xs i j hi hj),
          (exchange-perm xs i j hi hj, swap-IsPlaced i j xs x y ji hi hj t h),
        )
        | inr f ↦ (
          xs,
          rw (hi, hj, f) refl,
          (
            Perm.refl xs,
            record { sorted = h.sorted; above = λ p a z pj ha hz. ground (arith, h.above p a z) },
          ),
        )
      ]

  inner_loop-IsPlaced :
      (n i j : ℕ) (xs : List A)
      → n + j ≡ i
      → i < length xs
      → IsPlaced i j xs
      → Returns (inner_loop comp n i j xs) (λ ys. Perm ys xs × IsPlaced i i ys)
  unfolding inner_loop
  inner_loop-IsPlaced zero i j xs e il h =
      let e' : j ≡ i = omega arith in (xs, refl, (Perm.refl xs, subst (λ k. IsPlaced i k xs) e' h))
  inner_loop-IsPlaced (suc n) i j xs e il h =
      let (ys, run, (p, h')) = compare_and_swap-IsPlaced i j xs (omega arith) il h in
      let (zs, rest, (p', done)) =
        inner_loop-IsPlaced n i (j + 1) ys (omega arith) (omega (arith, length-perm p))
          (rw (← add-one j) at h') in
      (zs, rw run rest, (Perm.trans p' p, done))

  IsPlaced-IsSortedTo : (i : ℕ) (xs : List A) → IsPlaced i i xs → IsSortedTo comp (i + 1) xs
  IsPlaced-IsSortedTo i xs h p q x y pq qi hx hy = elim (ℕ_discrete q i) [
    | yes e ↦ h.above p x y (omega arith) hx (rw e at hy)
    | no n ↦ h.sorted p q x y pq (omega arith) hx hy
  ]

  outer_loop-IsSortedTo :
      (n i : ℕ) (xs : List A)
      → n + i ≡ length xs
      → IsSortedTo comp i xs
      → Returns (outer_loop comp n i xs) (IsSorting comp xs)
  unfolding outer_loop
  outer_loop-IsSortedTo zero i xs e h = (xs, refl, IsSorting-of_to comp xs (omega arith) h)
  outer_loop-IsSortedTo (suc n) i xs e h =
      let (ys, run, (p, placed)) =
        inner_loop-IsPlaced i i 0 xs (omega arith) (omega arith)
          (record { sorted = h; above = λ p x z lt. absurd (omega arith) }) in
      let (zs, rest, s) =
        outer_loop-IsSortedTo n (i + 1) ys (omega (arith, length-perm p))
          (IsPlaced-IsSortedTo i ys placed) in
      (zs, rw run rest, perm-IsSorting comp p s)

  -- Bubble sort never leaves the range, and puts it in order, for every strict weak order.
  bubble_sort-IsSorting : (xs : List A) → Returns (bubble_sort comp xs) (IsSorting comp xs)
  unfolding bubble_sort
  bubble_sort-IsSorting xs =
      outer_loop-IsSortedTo (length xs) 0 xs (omega arith) (λ p q x y pq lt. absurd (omega arith))
