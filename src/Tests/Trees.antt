-- ===== src/Tests/Trees.antt =====
-- The binary heap and the AVL tree of container/ on concrete keys.
use dsac.Prelude.{
  ℕ, zero, suc, ◌+◌, ◌≤◌, ◌≡◌, ◌⊎◌, refl, true, false, List, [], ◌∷◌, ◌++◌, some, get_elem?,
  Returns, Perm, arith, ltb, ◌==◌, All, Any,
}
use dsac.Sort.Order.{less, less-StrictWeak}
use dsac.Heap
use dsac.Heap.Order.{IsHeap}
use dsac.Heap.Insert.{insert-IsHeap}
use dsac.Heap.Pool.{pool-IsHeap}
use dsac.Prelude.Arrays.{swap, write}
use dsac.Avl.{
  find_min_child, delete_min_child, Tree, empty, node, leaf, depth, get_key, balancing_subtree,
  rotate, small_left_rotation, small_right_rotation, large_left_rotation, large_right_rotation,
  update_height, visit, insert_impl, delete_impl, delete_root, contains,
}
use dsac.Avl
use dsac.Avl.Balance.{IsBalanced}
use dsac.Avl.Insert.{insert_impl-IsBalanced}
use dsac.Avl.Place.{IsIncreasing, IsPlaced}
use dsac.Avl.Ordered.{insert-IsOrdered}
use dsac.Avl.Delete.{delete_unbalances}
use dsac.Avl.Total.{delete_impl_total}

abbrev small_heap : List ℕ
small_heap = 1 ∷ 4 ∷ 2 ∷ []

small_heap-IsHeap : IsHeap less small_heap
small_heap-IsHeap zero jp a b ha hb = absurd (omega arith)
small_heap-IsHeap (suc zero) jp a b ha hb = ground arith
small_heap-IsHeap (suc (suc zero)) jp a b ha hb = ground arith
small_heap-IsHeap (suc (suc (suc j))) jp a b ha hb = absurd (cc)

insert-IsHeap_example :
    Returns (Heap.insert less 0 small_heap) (λ ys. Perm ys (0 ∷ small_heap) × IsHeap less ys)
insert-IsHeap_example = insert-IsHeap less-StrictWeak 0 small_heap small_heap-IsHeap

pool-IsHeap_example : Returns (Heap.pool less small_heap) (λ r.
    ((j : ℕ) (y : ℕ) → get_elem? small_heap j ≡ some y → less y (r.0) ≡ false)
    × Perm (r.0 ∷ r.1) small_heap
    × IsHeap less r.1)
pool-IsHeap_example = pool-IsHeap less-StrictWeak 1 (4 ∷ 2 ∷ []) small_heap-IsHeap

heap_insert : Heap.insert less 0 small_heap ≡ some (0 ∷ 1 ∷ 2 ∷ 4 ∷ [])
unfolding Heap.insert Heap.heapify_up swap
heap_insert = refl

heap_pool : Heap.pool less (0 ∷ 1 ∷ 2 ∷ 4 ∷ []) ≡ some (0, 1 ∷ 4 ∷ 2 ∷ [])
unfolding Heap.pool Heap.peek Heap.pop_back Heap.heapify_down Heap.smaller_child swap write
heap_pool = refl

-- 2 above 1 and 3
abbrev small_tree : Tree ℕ
small_tree = node 2 (leaf 1) (leaf 3) 1

-- the keys 1, 2, where 3 makes a rotation
abbrev leaning : Tree ℕ
leaning = node 1 empty (leaf 2) 1

insert_impl_rotates : insert_impl ltb 3 leaning ≡ some (true, small_tree)
unfolding insert_impl balancing_subtree rotate small_left_rotation update_height get_key
insert_impl_rotates = refl

leaning-IsBalanced : IsBalanced leaning
leaning-IsBalanced = (tt, (tt, tt, refl, omega arith, omega arith), refl, omega arith, omega arith)

insert_impl-IsBalanced_example :
    Returns (insert_impl less 3 leaning) (λ r. IsBalanced r.1 × (depth r.1 ≤ depth leaning + 1))
insert_impl-IsBalanced_example = insert_impl-IsBalanced less-StrictWeak 3 leaning leaning-IsBalanced

leaning-IsIncreasing : IsIncreasing less (visit leaning)
unfolding visit
leaning-IsIncreasing = (refl, tt)

insert-IsOrdered_example : Returns (Avl.insert less (λ x y. x == y) 3 leaning) (λ r.
    ((r.0 ≡ false)
      × (r.1 ≡ leaning)
      × Any (λ k. ((3 == k) ≡ true) ⊎ ((less 3 k ≡ false) × (less k 3 ≡ false))) (visit leaning))
    ⊎ ((r.0 ≡ true)
        × All (λ k. (3 == k) ≡ false) (visit leaning)
        × IsBalanced r.1
        × IsIncreasing less (visit r.1)
        × IsPlaced less 3 (visit leaning) (visit r.1)))
insert-IsOrdered_example =
    insert-IsOrdered less-StrictWeak (λ x y. x == y) 3 leaning leaning-IsBalanced
      leaning-IsIncreasing

delete_impl_here : delete_impl ltb 2 small_tree ≡ some (node 3 (leaf 1) empty 0)
unfolding delete_impl delete_root find_min_child delete_min_child
delete_impl_here = refl

small_tree-IsIncreasing : IsIncreasing less (visit small_tree)
unfolding visit
small_tree-IsIncreasing = ground arith

delete_impl_total_example : Returns (delete_impl less 2 small_tree) (λ t'.
    ((visit t' ≡ visit small_tree)
      × All (λ k. (less 2 k ≡ true) ⊎ (less k 2 ≡ true)) (visit small_tree))
    ⊎ ((key : ℕ) × (front : List ℕ) × (back : List ℕ) × (less 2 key ≡ false)
        × (less key 2 ≡ false)
        × (visit small_tree ≡ front ++ key ∷ back)
        × (visit t' ≡ front ++ back)))
delete_impl_total_example = delete_impl_total less-StrictWeak 2 small_tree small_tree-IsIncreasing

delete_unbalances_example :
    IsBalanced {T = ℕ} (node 2 (leaf 1) (node 4 (leaf 3) empty 1) 2)
    × (delete_impl ltb 1 (node 2 (leaf 1) (node 4 (leaf 3) empty 1) 2)
        ≡ some (node 4 (node 2 empty (leaf 3) 1) empty 2))
    × (IsBalanced {T = ℕ} (node 4 (node 2 empty (leaf 3) 1) empty 2) → ⊥)
delete_unbalances_example = delete_unbalances 1 2 3 4 (omega arith)

avl_insert_twice : Avl.insert ltb (λ x y. x == y) 2 small_tree ≡ some (false, small_tree)
unfolding Avl.insert contains
avl_insert_twice = refl
