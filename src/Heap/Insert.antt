-- ===== src/Heap/Insert.antt =====
-- container/heap/binary_heap-inl.hpp: `Insert` keeps the order.
use mathlib.Core.List.Perm
use dsac.Prelude.{
  ℕ, zero, suc, ◌+◌, ◌-◌, ◌<◌, ◌≡◌, ◌≢◌, refl, subst, ℕ_discrete, ◌∙◌, sym, Bool, true, false, List,
  [], ◌∷◌, ◌++◌, some, arith, length, get_elem?, Perm, Returns, Bool-cases, inl, inr, ◌==◌,
  if◌then◌else◌, length-append,
}
use dsac.Prelude.Arrays.{
  exchange, swap-exchange, get_elem?-exchange, length-exchange, exchange-perm, get_elem?_of_lt,
  lt_of_get_elem?, get_elem?-append, perm-snoc,
}
use dsac.Sort.Order.{StrictWeak}
use dsac.Heap.{get_index_parent, heapify_up, insert}
use dsac.Heap.Order.{IsHeap, IsHeapExcept}

module _ {ℓ} {T : Type ℓ} {comp : T → T → Bool} (order : StrictWeak comp) where
  exchange-IsHeapExcept :
      (i : ℕ) (xs : List T) (x p : T)
      → 0 < i
      → get_elem? xs i ≡ some x
      → get_elem? xs (get_index_parent i) ≡ some p
      → comp x p ≡ true
      → IsHeapExcept comp i xs
      → IsHeapExcept comp (get_index_parent i) (exchange xs (get_index_parent i) i p x)
  exchange-IsHeapExcept i xs x p pos hi hp t h = record {
    others = λ j jp n a b ha hb. ground (
      arith,
      at j,
      at (get_index_parent j),
      (λ (m : j ≢ i). h.others j jp m a b),
      (λ (m : j ≢ i). h.others j jp m p b),
      (λ (e : get_index_parent j ≡ i). h.children j jp pos e p b),
      order.asymm x p,
      order.negative_trans x p b,
    );
    children = λ j jp ip e a b ha hb. ground (
      arith,
      at j,
      at (get_index_parent (get_index_parent i)),
      (λ (m : j ≢ i). h.others j jp m p b),
      (λ (m : get_index_parent i ≢ i). h.others (get_index_parent i) ip m a p),
      order.negative_trans a p b,
    );
  }
    where
      at :
          (k : ℕ)
          → get_elem? (exchange xs (get_index_parent i) i p x) k ≡ (
              if i == k then some p else if get_index_parent i == k then some x else get_elem? xs k)
      at = get_elem?-exchange xs (get_index_parent i) i hp hi

  -- where the element at `i` does not go before its parent
  IsHeapExcept-IsHeap :
      (i : ℕ) (xs : List T) (x p : T)
      → get_elem? xs i ≡ some x
      → get_elem? xs (get_index_parent i) ≡ some p
      → comp x p ≡ false
      → IsHeapExcept comp i xs
      → IsHeap comp xs
  IsHeapExcept-IsHeap i xs x p hi hp f h j jp a b ha hb = elim (ℕ_discrete j i) [
    | yes e ↦ ground arith
    | no n ↦ h.others j jp n a b ha hb
  ]

  heapify_up-IsHeap :
      (n i : ℕ) (xs : List T)
      → i < n
      → i < length xs
      → IsHeapExcept comp i xs
      → Returns (heapify_up comp n i xs) (λ ys. Perm ys xs × IsHeap comp ys)
  unfolding heapify_up
  heapify_up-IsHeap zero i xs lt il h = absurd (omega arith)
  heapify_up-IsHeap (suc n) i xs lt il h =
      let (x, hi) = get_elem?_of_lt xs i il in
      let (p, hp) = get_elem?_of_lt xs (get_index_parent i) (omega arith) in
      elim (Bool-cases (comp x p)) [
        | inl t ↦
            let pos : 0 < i = ground (arith, order.asymm x p) in
            let ys = exchange xs (get_index_parent i) i p x in
            let (zs, run, (perm, heap)) =
              heapify_up-IsHeap n (get_index_parent i) ys (omega arith)
                (omega (arith, length-exchange xs (get_index_parent i) i p x))
                (exchange-IsHeapExcept i xs x p pos hi hp t h) in
            (
              zs,
              rw (hi, hp, t, swap-exchange xs (get_index_parent i) i hp hi) run,
              (Perm.trans perm (exchange-perm xs (get_index_parent i) i hp hi), heap),
            )
        | inr f ↦ (xs, rw (hi, hp, f) refl, (Perm.refl xs, IsHeapExcept-IsHeap i xs x p hi hp f h))
      ]

  append-IsHeapExcept :
      (key : T) (xs : List T) → IsHeap comp xs → IsHeapExcept comp (length xs) (xs ++ key ∷ [])
  append-IsHeapExcept key xs h = record {
    others = λ j jp n a b ha hb.
        let lt = in_range j b hb in
        h j jp a b (sym (get_elem?-append xs (key ∷ []) (get_index_parent j) (omega arith)) ∙ ha)
          (sym (get_elem?-append xs (key ∷ []) j (omega arith)) ∙ hb);
    children = λ j jp ip e a b ha hb. let lt = in_range j b hb in absurd (omega arith);
  }
    where
      in_range : (j : ℕ) (b : T) → get_elem? (xs ++ key ∷ []) j ≡ some b → j < length xs + 1
      in_range j b hb =
          omega (arith, lt_of_get_elem? (xs ++ key ∷ []) j hb, length-append xs (key ∷ []))

  -- For a strict weak order, `Insert` returns, and leaves a heap of the elements and the new one.
  pub insert-IsHeap :
      (key : T) (xs : List T)
      → IsHeap comp xs
      → Returns (insert comp key xs) (λ ys. Perm ys (key ∷ xs) × IsHeap comp ys)
  unfolding insert
  insert-IsHeap key xs h =
      let s = xs ++ key ∷ [] in
      let len : length s ≡ length xs + 1 = length-append xs (key ∷ []) in
      let e : length xs ≡ length s - 1 = omega arith in
      let (ys, run, (perm, heap)) =
        heapify_up-IsHeap (length s) (length s - 1) s (omega arith) (omega arith)
          (subst (λ i. IsHeapExcept comp i s) e (append-IsHeapExcept key xs h)) in
      (ys, run, (Perm.trans perm (perm-snoc key xs), heap))
