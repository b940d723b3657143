-- ===== src/Sort/Merge.antt =====
-- algorithm/merge_sort.hpp. The indices are `int` of 32 bits; an index is at most the sum `low + high`, so only
-- that sum is tested. The recursion takes the rounds that may be left, as many as there are elements; `none` is
-- an access outside the array, a sum that overflows, or too few rounds.
pub mod Merging
pub mod Ordered
pub mod Laws
use dsac.Prelude.{
  ℕ, zero, suc, ◌+◌, ◌-◌, ◌/◌, ◌^◌, Bool, true, false, List, [], ◌∷◌, Option, none, some, get_elem?,
  length, ltb, ◌>>=◌,
}
use dsac.Prelude.Arrays.{write}

module _ {ℓ} {A : Type ℓ} where
  -- the loops that fill `L` and `R`
  unfoldable pub copy : ℕ → ℕ → List A → Option (List A)
  copy zero from arr = some []
  copy (suc n) from arr = do x ← get_elem? arr from; rest ← copy n (from + 1) arr; some (x ∷ rest)

  -- the loop over the elements that are left on one side
  unfoldable pub write_all : List A → ℕ → List A → Option (List A)
  write_all [] k arr = some arr
  write_all (x ∷ xs) k arr = write arr k x >>= write_all xs (k + 1)

-- `less_eq` is `operator<=`.
module _ {ℓ} {A : Type ℓ} (less_eq : A → A → Bool) where
  -- The loop over `k`, with what is left of `L` and `R` from `i` and `j` on, and the loops that follow it: they
  -- write the side that is left where the other has ended.
  unfoldable pub merge_loop : ℕ → List A → List A → ℕ → List A → Option (List A)
  unfolding write_all
  merge_loop high [] right k arr = write_all right k arr
  merge_loop high (x ∷ left) [] k arr = write_all (x ∷ left) k arr
  merge_loop high (x ∷ left) (y ∷ right) k arr = elim (ltb high k) [
    | true ↦ some arr
    | false ↦ elim (less_eq x y) [
      | true ↦ write arr k x >>= merge_loop high left (y ∷ right) (k + 1)
      | false ↦ write arr k y >>= merge_loop high (x ∷ left) right (k + 1)
    ]
  ]

  unfoldable pub merge : List A → ℕ → ℕ → ℕ → Option (List A)
  unfolding copy merge_loop
  merge arr low mid high = do
    left ← copy (mid - low + 1) low arr
    right ← copy (high - mid) (mid + 1) arr
    merge_loop high left right low arr

  unfoldable pub merge_sort_top_down_impl : ℕ → ℕ → ℕ → List A → Option (List A)
  unfolding merge
  merge_sort_top_down_impl zero low high arr = none
  merge_sort_top_down_impl (suc n) low high arr = elim (ltb low high) [
    | false ↦ some arr
    | true ↦ elim (ltb (low + high) (2 ^ 31)) [
      | false ↦ none  -- signed overflow
      | true ↦
          let middle = (low + high) / 2 in
          merge_sort_top_down_impl n low middle arr >>= λ arr1.
          merge_sort_top_down_impl n (middle + 1) high arr1 >>= λ arr2. merge arr2 low middle high
    ]
  ]

  -- of an empty array `high` is -1, and the call returns at once
  unfoldable pub merge_sort : List A → Option (List A)
  unfolding merge_sort_top_down_impl
  merge_sort [] = some []
  merge_sort (x ∷ xs) = merge_sort_top_down_impl (length (x ∷ xs)) 0 (length xs) (x ∷ xs)
