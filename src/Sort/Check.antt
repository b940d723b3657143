-- ===== src/Sort/Check.antt =====
-- algorithm/detail/is_sorted.hpp and algorithm/is_sorted/is_sorted_seq.hpp. A forward iterator that
-- only moves on is the part of the range that is left.
use dsac.Prelude.{ℕ, zero, suc, ◌≡◌, ◌↔◌, refl, Bool, true, false, List, [], ◌∷◌, arith, length}
use dsac.Sort.Order.{StrictWeak, less, IsSortedTo}

module _ {ℓ} {A : Type ℓ} (comp : A → A → Bool) where
  -- the `for`, with `*begin` and the range from `next` on
  unfoldable pub adjacent_loop : A → List A → Bool
  adjacent_loop x [] = true
  adjacent_loop x (y ∷ rest) = elim (comp y x) [ true ↦ false | false ↦ adjacent_loop y rest ]

  unfoldable pub is_sorted : List A → Bool
  unfolding adjacent_loop
  is_sorted [] = true
  is_sorted (x ∷ xs) = adjacent_loop x xs

-- the overloads with `std::less`
unfoldable pub is_sorted_less : List ℕ → Bool
unfolding is_sorted
is_sorted_less = is_sorted less

module _ {ℓ} {A : Type ℓ} {comp : A → A → Bool} (order : StrictWeak comp) where
  IsSorted-cons :
      (x y : A) (xs : List A)
      → comp y x ≡ false
      → IsSortedTo comp (suc (length xs)) (y ∷ xs)
      → IsSortedTo comp (suc (suc (length xs))) (x ∷ y ∷ xs)
  IsSorted-cons x y xs f h zero zero a b pq qn ha hb = absurd (omega arith)
  IsSorted-cons x y xs f h zero (suc zero) a b pq qn ha hb = ground arith
  IsSorted-cons x y xs f h zero (suc (suc q)) a b pq qn ha hb =
      ground (arith, h zero (suc q) y b, order.negative_trans x y b)
  IsSorted-cons x y xs f h (suc p) zero a b pq qn ha hb = absurd (omega arith)
  IsSorted-cons x y xs f h (suc p) (suc q) a b pq qn ha hb =
      h p q a b (omega arith) (omega arith) ha hb

  adjacent_loop→IsSorted :
      (x : A) (xs : List A)
      → adjacent_loop comp x xs ≡ true
      → IsSortedTo comp (suc (length xs)) (x ∷ xs)
  unfolding adjacent_loop
  adjacent_loop→IsSorted x [] h = λ p q a b pq qn. absurd (omega arith)
  adjacent_loop→IsSorted x (y ∷ rest) h =
      IsSorted-cons x y rest (ground arith) (adjacent_loop→IsSorted y rest (ground arith))

  IsSorted→adjacent_loop :
      (x : A) (xs : List A)
      → IsSortedTo comp (suc (length xs)) (x ∷ xs)
      → adjacent_loop comp x xs ≡ true
  unfolding adjacent_loop
  IsSorted→adjacent_loop x [] h = refl
  IsSorted→adjacent_loop x (y ∷ rest) h = ground (
    arith,
    h 0 1 x y (omega arith) (omega arith) refl refl,
    IsSorted→adjacent_loop y rest
        (λ p q a b pq qn. h (suc p) (suc q) a b (omega arith) (omega arith)),
  )

  -- For a strict weak order, `is_sorted` answers true exactly when no element of the range goes
  -- before an earlier one, adjacent or not.
  pub is_sorted_iff : (xs : List A) → (is_sorted comp xs ≡ true) ↔ IsSortedTo comp (length xs) xs
  unfolding is_sorted
  is_sorted_iff [] = (λ h p q a b pq qn. absurd (omega arith), λ h. refl)
  is_sorted_iff (x ∷ xs) = (adjacent_loop→IsSorted x xs, IsSorted→adjacent_loop x xs)
