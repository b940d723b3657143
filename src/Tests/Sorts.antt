-- ===== src/Tests/Sorts.antt =====
-- The sorts of algorithm/ on concrete ranges.
use dsac.Prelude.{
  ℕ, ◌≡◌, ◌↔◌, refl, Bool, true, false, List, [], ◌∷◌, some, length, Returns, leb, arith,
}
use dsac.Prelude.Arrays.{swap, write}
use dsac.Sort.Order.{
  StrictWeak, less, greater, less-StrictWeak, greater-StrictWeak, IsSortedTo, IsSorting,
}
use dsac.Sort.Bubble.{bubble_sort_less}
use dsac.Sort.Insertion.{insertion_sort, insertion_sort_less}
use dsac.Sort.Insertion.Laws.{insertion_sort-IsSorting}
use dsac.Sort.Selection.{selection_sort_less}
use dsac.Sort.Merge.{merge_sort}
use dsac.Sort.Merge.Ordered.{less_of}
use dsac.Sort.Merge.Laws.{merge_sort-IsSorting}
use dsac.Sort.Check.{is_sorted, is_sorted_less, is_sorted_iff}

abbrev mixed : List ℕ
mixed = 3 ∷ 1 ∷ 2 ∷ 3 ∷ 0 ∷ []

abbrev ordered : List ℕ
ordered = 0 ∷ 1 ∷ 2 ∷ 3 ∷ 3 ∷ []

bubble_sort_mixed : bubble_sort_less mixed ≡ some ordered
unfolding bubble_sort_less swap
bubble_sort_mixed = refl

insertion_sort_mixed : insertion_sort_less mixed ≡ some ordered
unfolding insertion_sort_less write
insertion_sort_mixed = refl

insertion_sort_descending : insertion_sort greater mixed ≡ some (3 ∷ 3 ∷ 2 ∷ 1 ∷ 0 ∷ [])
unfolding insertion_sort write
insertion_sort_descending = refl

selection_sort_mixed : selection_sort_less mixed ≡ some ordered
unfolding selection_sort_less swap
selection_sort_mixed = refl

is_sorted_mixed : is_sorted_less mixed ≡ false
unfolding is_sorted_less
is_sorted_mixed = refl

is_sorted_ordered : is_sorted_less ordered ≡ true
unfolding is_sorted_less
is_sorted_ordered = refl

insertion_sort-IsSorting_example : Returns (insertion_sort greater mixed) (IsSorting greater mixed)
insertion_sort-IsSorting_example = insertion_sort-IsSorting greater-StrictWeak mixed

is_sorted_iff_example : (is_sorted less mixed ≡ true) ↔ IsSortedTo less (length mixed) mixed
is_sorted_iff_example = is_sorted_iff less-StrictWeak mixed

abbrev less_eq : ℕ → ℕ → Bool
less_eq = leb

less_eq-StrictWeak : StrictWeak (less_of less_eq)
less_eq-StrictWeak = record { asymm = ground arith; negative_trans = ground arith }

merge_sort-mixed : merge_sort less_eq mixed ≡ some ordered
unfolding merge_sort write
merge_sort-mixed = refl

merge_sort-IsSorting_example :
    Returns (merge_sort less_eq mixed) (IsSorting (less_of less_eq) mixed)
merge_sort-IsSorting_example = merge_sort-IsSorting less_eq less_eq-StrictWeak mixed (omega arith)
