-- ===== src/Heap.antt =====
-- container/heap/binary_heap.hpp and container/heap/binary_heap-inl.hpp. The indices are `int`; a heap
-- has fewer than 2 ^ 30 elements, so that none wraps. The loops take the rounds that may be left; an
-- access outside the storage, or too few rounds, is `none`.
pub mod Order
pub mod Insert
pub mod Down
pub mod Pool
use dsac.Prelude.{
  ℕ, zero, suc, ◌+◌, ◌-◌, ◌*◌, ◌/◌, Bool, true, false, List, [], ◌∷◌, ◌++◌, Option, none, some,
  length, get_elem?, ltb, ◌>>=◌, if◌then◌else◌, ◌&&◌,
}
use dsac.Prelude.Arrays.{swap, write}

-- `int` in the source, as the other indices; the storage has fewer than 2 ^ 30 elements, so that no sum overflows
abbrev pub get_index_left_child : ℕ → ℕ
get_index_left_child index = 2 * index + 1

abbrev pub get_index_right_child : ℕ → ℕ
get_index_right_child index = 2 * index + 2

-- `(0 - 1) / 2` is 0, rounded towards 0
abbrev pub get_index_parent : ℕ → ℕ
get_index_parent index = (index - 1) / 2

module _ {ℓ} {T : Type ℓ} where
  abbrev pub exist_left_child : ℕ → List T → Bool
  exist_left_child index storage = ltb (get_index_left_child index) (length storage)

  abbrev pub exist_right_child : ℕ → List T → Bool
  exist_right_child index storage = ltb (get_index_right_child index) (length storage)

  -- `storage_.pop_back()`
  unfoldable pub pop_back : List T → List T
  pop_back [] = []
  pop_back (x ∷ []) = []
  pop_back (x ∷ y ∷ xs) = x ∷ pop_back (y ∷ xs)

module _ {ℓ} {T : Type ℓ} (comp : T → T → Bool) where
  -- the loop of `HeapifyUp`; the parent's index is never negative
  unfoldable pub heapify_up : ℕ → ℕ → List T → Option (List T)
  heapify_up zero index storage = none
  heapify_up (suc n) index storage = do
    x ← get_elem? storage index
    parent ← get_elem? storage (get_index_parent index)
    elim (comp x parent) [
      | true ↦ swap storage (get_index_parent index) index >>= heapify_up n (get_index_parent index)
      | false ↦ some storage
    ]

  -- `smaller_child_index`
  unfoldable pub smaller_child : ℕ → List T → Option ℕ
  smaller_child index storage = elim (exist_right_child index storage) [
    | false ↦ some (get_index_left_child index)
    | true ↦ do
      right ← get_elem? storage (get_index_right_child index)
      left ← get_elem? storage (get_index_left_child index)
      some (if comp right left then get_index_right_child index else get_index_left_child index)
  ]

  -- the loop of `HeapifyDown`
  unfoldable pub heapify_down : ℕ → ℕ → List T → Option (List T)
  unfolding smaller_child
  heapify_down zero index storage = none
  heapify_down (suc n) index storage = elim (exist_left_child index storage) [
    | false ↦ some storage
    | true ↦ do
      child ← smaller_child index storage
      x ← get_elem? storage index
      y ← get_elem? storage child
      elim (comp x y) [
        | true ↦ some storage
        | false ↦ swap storage index child >>= heapify_down n child
      ]
  ]

  unfoldable pub insert : T → List T → Option (List T)
  unfolding heapify_up
  insert key storage = let s = storage ++ key ∷ [] in heapify_up (length s) (length s - 1) s

  -- An empty storage throws `std::out_of_range`, here `none`.
  unfoldable pub peek : List T → Option T
  peek [] = none
  peek (x ∷ xs) = some x

  unfoldable pub pool : List T → Option (T × List T)
  unfolding peek pop_back heapify_down
  pool storage = do
    min_value ← peek storage
    back ← get_elem? storage (length storage - 1)
    s ← write storage 0 back
    t ← heapify_down (length storage) 0 (pop_back s)
    some (min_value, t)

  unfoldable pub is_empty : List T → Bool
  is_empty [] = true
  is_empty (x ∷ xs) = false
