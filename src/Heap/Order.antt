-- ===== src/Heap/Order.antt =====
-- container/heap/binary_heap.hpp: the order of a heap, and of one that is being mended.
use dsac.Prelude.{
  ℕ, zero, suc, ◌≤◌, ◌<◌, ◌≡◌, ◌≢◌, Bool, false, List, some, arith, length, get_elem?,
}
use dsac.Prelude.Arrays.{get_elem?_of_lt, lt_of_get_elem?}
use dsac.Sort.Order.{StrictWeak}
use dsac.Heap.{get_index_parent}

module _ {ℓ} {T : Type ℓ} (comp : T → T → Bool) where
  -- the element at `j` does not go before its parent's
  abbrev pub IsAbove : List T → ℕ → ℕ → Type ℓ
  IsAbove xs i j = (x y : T) → get_elem? xs i ≡ some x → get_elem? xs j ≡ some y → comp y x ≡ false

  abbrev pub IsHeap : List T → Type ℓ
  IsHeap xs = (j : ℕ) → 0 < j → IsAbove xs (get_index_parent j) j

  -- a heap but for the element at `i`, which may go before its parent's
  pub record IsHeapExcept (i : ℕ) (xs : List T) : Type ℓ where
    pub others : (j : ℕ) → 0 < j → j ≢ i → IsAbove xs (get_index_parent j) j
    pub children :
        (j : ℕ) → 0 < j → 0 < i → get_index_parent j ≡ i → IsAbove xs (get_index_parent i) j

  -- a heap but for the children of `i`, which may go before it
  pub record IsHeapBelow (i : ℕ) (xs : List T) : Type ℓ where
    pub others : (j : ℕ) → 0 < j → get_index_parent j ≢ i → IsAbove xs (get_index_parent j) j
    pub children :
        (j : ℕ) → 0 < j → 0 < i → get_index_parent j ≡ i → IsAbove xs (get_index_parent i) j

module _ {ℓ} {T : Type ℓ} {comp : T → T → Bool} (order : StrictWeak comp) where
  -- no element goes before the root
  root_below : (n j : ℕ) (xs : List T) → j ≤ n → IsHeap comp xs → IsAbove comp xs 0 j
  root_below n zero xs b h x y hx hy = ground (arith, order.asymm x y)
  root_below (suc n) (suc j) xs b h x y hx hy =
      let lt : get_index_parent (suc j) < length xs =
        omega (arith, lt_of_get_elem? xs (suc j) hy) in
      let (p, hp) = get_elem?_of_lt xs (get_index_parent (suc j)) lt in
      order.negative_trans x p y
        (root_below n (get_index_parent (suc j)) xs (omega arith) h x p hx hp)
        (h (suc j) (omega arith) p y hp hy)
  root_below zero (suc j) xs b h x y hx hy = absurd (omega arith)

  pub IsHeap-root : (j : ℕ) (xs : List T) → IsHeap comp xs → IsAbove comp xs 0 j
  IsHeap-root j xs h = root_below j j xs (omega arith) h
