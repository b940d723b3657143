-- ===== src/Sort/Selection.antt =====
-- algorithm/detail/selection_sort.hpp and algorithm/selection_sort/selection_sort_seq.hpp.
pub mod Laws
use dsac.Prelude.{
  ℕ, zero, suc, ◌+◌, ◌-◌, Bool, List, Option, some, get_elem?, length, if◌then◌else◌, ◌>>=◌,
}
use dsac.Prelude.Arrays.{swap}
use dsac.Sort.Order.{less}

module _ {ℓ} {A : Type ℓ} (comp : A → A → Bool) where
  -- `for (j = i + 1; j < end; ++j)`, with the rounds left as the first argument
  unfoldable pub find_min : ℕ → ℕ → ℕ → List A → Option ℕ
  find_min zero j min xs = some min
  find_min (suc n) j min xs = do
    x ← get_elem? xs j
    y ← get_elem? xs min
    find_min n (j + 1) (if comp x y then j else min) xs

  -- `for (i = begin; i < end; ++i)`
  unfoldable pub select_loop : ℕ → ℕ → List A → Option (List A)
  select_loop zero i xs = some xs
  select_loop (suc n) i xs = do
    min ← find_min n (i + 1) i xs
    ys ← swap xs i min
    select_loop n (i + 1) ys

  unfoldable pub selection_sort : List A → Option (List A)
  unfolding select_loop find_min
  selection_sort xs = select_loop (length xs) 0 xs

-- the overload with `std::less`
unfoldable pub selection_sort_less : List ℕ → Option (List ℕ)
unfolding selection_sort
selection_sort_less = selection_sort less
