-- ===== src/Sort/Selection/Laws.antt =====
-- algorithm/detail/selection_sort.hpp: the range that `selection_sort` leaves.
use native.Mathlib.Numerals.{add-one}
use dsac.Prelude.{
  ℕ, zero, suc, ◌+◌, ◌≤◌, ◌<◌, ◌≡◌, refl, Bool, false, List, some, arith, inl, inr, subst,
  get_elem?, length, ◌==◌, if◌then◌else◌, Returns, Bool-cases,
}
use dsac.Prelude.Arrays.{
  swap, swap-exchange, get_elem?-exchange, length-exchange, exchange, exchange-perm,
  get_elem?_of_lt, lt_of_get_elem?,
}
use dsac.Sort.Order.{StrictWeak, IsSortedTo, IsSorting, perm-IsSorting, IsSorting-of_to}
use dsac.Sort.Selection.{find_min, select_loop, selection_sort}

module _ {ℓ} {A : Type ℓ} {comp : A → A → Bool} (order : StrictWeak comp) where
  -- `z` stands at `m`, and none of the elements from `i` up to `j` goes before it
  record IsMin (i j m : ℕ) (z : A) (xs : List A) : Type ℓ where
    lower : i ≤ m
    inside : m < length xs
    stands : get_elem? xs m ≡ some z
    least : (q : ℕ) (y : A) → i ≤ q → q < j → get_elem? xs q ≡ some y → comp y z ≡ false

  find_min-IsMin :
      (n i j m : ℕ) (z : A) (xs : List A)
      → n + j ≡ length xs
      → i ≤ j
      → IsMin i j m z xs
      → Returns (find_min comp n j m xs) (λ k. (w : A) × IsMin i (length xs) k w xs)
  unfolding find_min
  find_min-IsMin zero i j m z xs e ij h =
      let e' : j ≡ length xs = omega arith in (m, refl, (z, subst (λ k. IsMin i k m z xs) e' h))
  find_min-IsMin (suc n) i j m z xs e ij h =
      let (x, hx) = get_elem?_of_lt xs j (omega arith) in
      elim (Bool-cases (comp x z)) [
        | inl t ↦
            rw (hx, h.stands, t)
              (find_min-IsMin n i (j + 1) j x xs (omega arith) (omega arith) (record {
                lower = ij;
                inside = omega arith;
                stands = hx;
                least = λ q y iq qj hy. ground (
                  arith,
                  h.least q y,
                  order.asymm x z,
                  order.asymm x x,
                  order.negative_trans x z y,
                );
              }))
        | inr f ↦
            rw (hx, h.stands, f)
              (find_min-IsMin n i (j + 1) m z xs (omega arith) (omega arith) (record {
                lower = h.lower;
                inside = h.inside;
                stands = h.stands;
                least = λ q y iq qj hy. ground (arith, h.least q y);
              }))
      ]

  -- the first `i` elements are sorted, and no later element goes before one of them
  record IsSplit (i : ℕ) (xs : List A) : Type ℓ where
    sorted : IsSortedTo comp i xs
    split :
        (p q : ℕ) (x y : A)
        → p < i
        → i ≤ q
        → get_elem? xs p ≡ some x
        → get_elem? xs q ≡ some y
        → comp y x ≡ false

  exchange-IsSplit :
      (i m : ℕ) (x z : A) (xs : List A)
      → get_elem? xs i ≡ some x
      → IsSplit i xs
      → IsMin i (length xs) m z xs
      → IsSplit (suc i) (exchange xs i m x z)
  exchange-IsSplit i m x z xs hx h least = record {
    sorted = λ p q a b pq qi ha hb.
        ground (arith, at p, at q, h.sorted p q a b, h.split p m a z, least.lower, least.stands);
    split = λ p q a b pi iq ha hb. ground (
      arith,
      at p,
      at q,
      h.split p q a b,
      h.split p i a x,
      h.split p m a z,
      least.lower,
      least.stands,
      least.inside,
      least.least q b,
      least.least i x,
      bound q b,
    );
  }
    where
      at :
          (k : ℕ)
          → get_elem? (exchange xs i m x z) k
            ≡ (if m == k then some x else if i == k then some z else get_elem? xs k)
      at = get_elem?-exchange xs i m hx least.stands

      bound : (q : ℕ) (b : A) → get_elem? xs q ≡ some b → q < length xs
      bound q b = lt_of_get_elem? xs q

  select_loop-IsSorting :
      (n i : ℕ) (xs : List A)
      → n + i ≡ length xs
      → IsSplit i xs
      → Returns (select_loop comp n i xs) (IsSorting comp xs)
  unfolding select_loop swap
  select_loop-IsSorting zero i xs e h = (xs, refl, IsSorting-of_to comp xs (omega arith) h.sorted)
  select_loop-IsSorting (suc n) i xs e h =
      let (x, hx) = get_elem?_of_lt xs i (omega arith) in
      let (m, found, (z, least)) =
        find_min-IsMin n i (i + 1) i x xs (omega arith) (omega arith) (record {
          lower = omega arith;
          inside = omega arith;
          stands = hx;
          least = λ q y iq qi hy. ground (arith, order.asymm x x);
        }) in
      let ys = exchange xs i m x z in
      let (zs, rest, done) =
        select_loop-IsSorting n (i + 1) ys (omega (arith, length-exchange xs i m x z))
          (rw (← add-one i) at (exchange-IsSplit i m x z xs hx h least)) in
      (
        zs,
        rw (found, swap-exchange xs i m hx least.stands) rest,
        perm-IsSorting comp (exchange-perm xs i m hx least.stands) done,
      )

  -- Selection sort never leaves the range, and puts it in order, for every strict weak order.
  selection_sort-IsSorting : (xs : List A) → Returns (selection_sort comp xs) (IsSorting comp xs)
  unfolding selection_sort
  selection_sort-IsSorting xs = select_loop-IsSorting (length xs) 0 xs (omega arith) (record {
    sorted = λ p q x y pq lt. absurd (omega arith);
    split = λ p q x y lt. absurd (omega arith);
  })
