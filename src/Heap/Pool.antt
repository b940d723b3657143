-- ===== src/Heap/Pool.antt =====
-- container/heap/binary_heap-inl.hpp: `Pool` answers with the least element and keeps the order.
use mathlib.Core.List.Perm
use dsac.Prelude.{
  ℕ, zero, suc, ◌-◌, ◌<◌, ◌≡◌, refl, subst, ap, ◌∙◌, sym, Bool, false, List, [], ◌∷◌, ◌++◌, some,
  arith, length, get_elem?, Perm, Returns, length-append, snoc_of_length,
}
use dsac.Prelude.Arrays.{write, lt_of_get_elem?, get_elem?-append, get_elem?-snoc, perm-snoc}
use dsac.Sort.Order.{StrictWeak}
use dsac.Heap.{get_index_parent, heapify_down, pop_back, peek, pool}
use dsac.Heap.Order.{IsHeap, IsHeapBelow, IsHeap-root}
use dsac.Heap.Down.{heapify_down-IsHeap}

module _ {ℓ} {T : Type ℓ} {comp : T → T → Bool} (order : StrictWeak comp) where
  pop_back-snoc : (xs : List T) (x : T) → pop_back (xs ++ x ∷ []) ≡ xs
  unfolding pop_back
  pop_back-snoc [] x = refl
  pop_back-snoc (y ∷ []) x = refl
  pop_back-snoc (y ∷ z ∷ xs) x = ap (◌∷◌ y) (pop_back-snoc (z ∷ xs) x)

  -- the last element put in place of the root
  root-IsHeapBelow :
      (x b : T) (ys : List T) → IsHeap comp (x ∷ ys ++ b ∷ []) → IsHeapBelow comp 0 (b ∷ ys)
  root-IsHeapBelow x b ys h = record {
    others = λ j jp n a c ha hc.
        h j jp a c (inside (get_index_parent j) a (omega arith) ha) (inside j c jp hc);
    children = λ j jp ip. absurd (omega arith);
  }
    where
      inside :
          (j : ℕ) (a : T)
          → 0 < j
          → get_elem? (b ∷ ys) j ≡ some a
          → get_elem? (x ∷ ys ++ b ∷ []) j ≡ some a
      inside zero a p e = absurd (omega arith)
      inside (suc j) a p e = get_elem?-append ys (b ∷ []) j (lt_of_get_elem? ys j e) ∙ e

  pool_many :
      (x b : T) (ys zs : List T)
      → heapify_down comp (suc (suc (length ys))) 0 (b ∷ ys) ≡ some zs
      → pool comp (x ∷ ys ++ b ∷ []) ≡ some (x, zs)
  unfolding pool peek write pop_back
  pool_many x b ys zs e =
      let s = x ∷ ys ++ b ∷ [] in
      let len : length (ys ++ b ∷ []) ≡ suc (length ys) = length-append ys (b ∷ []) ∙ omega arith in
      let last : suc (length ys) ≡ length s - 1 = omega arith in
      let back : get_elem? s (length s - 1) ≡ some b =
        subst (λ k. get_elem? s k ≡ some b) last (get_elem?-snoc ys b) in
      rw (back, pop_back-snoc (b ∷ ys) b, len, e) refl

  pool_one : (x : T) → pool comp (x ∷ []) ≡ some (x, [])
  unfolding pool peek write pop_back heapify_down
  pool_one x = refl

  -- For a strict weak order, `Pool` of a heap that is not empty returns an element that no element goes
  -- before, and leaves a heap of the others.
  pub pool-IsHeap :
      (x : T) (xs : List T)
      → IsHeap comp (x ∷ xs)
      → Returns (pool comp (x ∷ xs)) (λ r.
        ((j : ℕ) (y : T) → get_elem? (x ∷ xs) j ≡ some y → comp y (r.0) ≡ false)
        × Perm (r.0 ∷ r.1) (x ∷ xs)
        × IsHeap comp r.1)
  pool-IsHeap x [] h = (
    (x, []),
    pool_one x,
    (
      (λ j y hy. IsHeap-root order j (x ∷ []) h x y refl hy),
      Perm.refl (x ∷ []),
      λ j jp a b ha hb. absurd (ground arith),
    ),
  )
  pool-IsHeap x (z ∷ xs) h =
      let (b, ys, cut) = snoc_of_length (z ∷ xs) (omega arith) in
      let (zs, run, (perm, heap)) =
        heapify_down-IsHeap order (suc (suc (length ys))) 0 (b ∷ ys) (omega arith) (omega arith)
          (root-IsHeapBelow x b ys (subst (λ l. IsHeap comp (x ∷ l)) cut h)) in
      let whole : Perm (x ∷ zs) (x ∷ ys ++ b ∷ []) =
        Perm.trans (Perm.cons x perm) (Perm.cons x (Perm.symm (perm-snoc b ys))) in
      (
        (x, zs),
        subst (λ l. pool comp (x ∷ l) ≡ some (x, zs)) (sym cut) (pool_many x b ys zs run),
        (
          λ j y hy. IsHeap-root order j (x ∷ z ∷ xs) h x y refl hy,
          subst (λ l. Perm (x ∷ zs) (x ∷ l)) (sym cut) whole,
          heap,
        ),
      )
