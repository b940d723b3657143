-- ===== src/Sort/Bubble.antt =====
-- algorithm/detail/bubble_sort.hpp and algorithm/bubble_sort/bubble_sort_seq.hpp.
pub mod Laws
use dsac.Prelude.{
  ℕ, zero, suc, ◌+◌, ◌≤◌, ◌<◌, ◌≡◌, refl, Bool, true, false, List, Option, none, some, Perm, arith,
  get_elem?, length, if◌then◌else◌, ◌>>=◌,
}
use dsac.Prelude.Arrays.{swap}
use dsac.Sort.Order.{less}

module _ {ℓ} {A : Type ℓ} (comp : A → A → Bool) where
  -- `if (comp(*i, *j)) std::iter_swap(i, j);`
  unfoldable pub compare_and_swap : ℕ → ℕ → List A → Option (List A)
  compare_and_swap i j xs = do
    x ← get_elem? xs i
    y ← get_elem? xs j
    if comp x y then swap xs i j else some xs

  -- `for (j = begin; j < i; ++j)`, with the rounds left as the first argument
  unfoldable pub inner_loop : ℕ → ℕ → ℕ → List A → Option (List A)
  inner_loop zero i j xs = some xs
  inner_loop (suc n) i j xs = compare_and_swap i j xs >>= inner_loop n i (j + 1)

  -- `for (i = begin; i != end; ++i)`
  unfoldable pub outer_loop : ℕ → ℕ → List A → Option (List A)
  outer_loop zero i xs = some xs
  outer_loop (suc n) i xs = inner_loop i i 0 xs >>= outer_loop n (i + 1)

  unfoldable pub bubble_sort : List A → Option (List A)
  unfolding outer_loop inner_loop compare_and_swap
  bubble_sort xs = outer_loop (length xs) 0 xs

-- the overload with `std::less`
unfoldable pub bubble_sort_less : List ℕ → Option (List ℕ)
unfolding bubble_sort
bubble_sort_less = bubble_sort less
