-- ===== src/Sort/Insertion.antt =====
-- algorithm/detail/insertion_sort.hpp and algorithm/insertion_sort/insertion_sort_seq.hpp.
pub mod Laws
use dsac.Prelude.{
  ℕ, zero, suc, ◌+◌, ◌-◌, Bool, true, false, List, Option, some, get_elem?, length, ◌>>=◌,
}
use dsac.Prelude.Arrays.{write}
use dsac.Sort.Order.{less}

module _ {ℓ} {A : Type ℓ} (comp : A → A → Bool) where
  -- `while ((i >= 0) && comp(key, begin[i]))` and the write after it. The argument is `i + 1`, so
  -- that the signed `i` stops at 0 here where the source's stops at -1.
  unfoldable pub shift : A → ℕ → List A → Option (List A)
  shift key zero xs = write xs zero key
  shift key (suc i) xs = do
    x ← get_elem? xs i
    elim (comp key x) [ true ↦ write xs (suc i) x >>= shift key i | false ↦ write xs (suc i) key ]

  -- `for (j = 1; j < n; ++j)`, with the rounds left as the first argument
  unfoldable pub insert_loop : ℕ → ℕ → List A → Option (List A)
  insert_loop zero j xs = some xs
  insert_loop (suc n) j xs = do key ← get_elem? xs j; ys ← shift key j xs; insert_loop n (j + 1) ys

  unfoldable pub insertion_sort : List A → Option (List A)
  unfolding insert_loop shift
  insertion_sort xs = insert_loop (length xs - 1) 1 xs

-- the overload with `std::less`
unfoldable pub insertion_sort_less : List ℕ → Option (List ℕ)
unfolding insertion_sort
insertion_sort_less = insertion_sort less
