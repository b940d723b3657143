-- ===== src/Sort/Merge/Laws.antt =====
-- algorithm/merge_sort.hpp: the array that `MergeSort` leaves.
use mathlib.Core.List.Perm
use mathlib.Core.List.{append-nil, append_assoc}
use dsac.Prelude.{
  ℕ, zero, suc, ◌+◌, ◌-◌, ◌/◌, ◌^◌, ◌≤◌, ◌<◌, ◌≡◌, refl, sym, ap, ◌∙◌, subst, Bool, true, List, [],
  ◌∷◌, ◌++◌, some, arith, length, length-append, ltb, Perm, Returns, Bool-cases, inl, inr, ◌>>=◌,
}
use dsac.Prelude.Arrays.{length-perm}
use dsac.Sort.Order.{StrictWeak, IsSorting}
use dsac.Sort.Merge.{copy, write_all, merge_loop, merge, merge_sort_top_down_impl, merge_sort}
use dsac.Sort.Merge.Merging.{merged, merged-perm, merge_loop-merged, copy-middle, write_all-middle}
use dsac.Sort.Merge.Ordered.{cut, less_of, Sorted, merged-Sorted, Sorted-before}

module _ {ℓ} {A : Type ℓ} (less_eq : A → A → Bool) (order : StrictWeak (less_of less_eq)) where
  -- what the call does to the segment `seg` between `pre` and `post`
  record IsSegment (low high : ℕ) (arr pre seg post : List A) : Type ℓ where
    array : arr ≡ pre ++ (seg ++ post)
    first : low ≡ length pre
    last : suc high ≡ low + length seg

  merge-halves :
      (left right pre post : List A) (low mid high : ℕ)
      → low ≡ length pre
      → low ≤ mid
      → suc mid ≡ low + length left
      → suc high ≡ suc mid + length right
      → merge less_eq (pre ++ (left ++ (right ++ post))) low mid high
        ≡ some (pre ++ (merged less_eq left right ++ post))
  unfolding merge
  merge-halves left right pre post low mid high e1 le e2 e3 =
      let array = pre ++ (left ++ (right ++ post)) in
      let lefts : copy (mid - low + 1) low array ≡ some left =
        subst (λ n. copy n low array ≡ some left) (omega arith)
          (subst (λ k. copy (length left) k array ≡ some left) (sym e1)
            (copy-middle left pre (right ++ post))) in
      let shifted : (pre ++ left) ++ (right ++ post) ≡ array =
        append_assoc pre left (right ++ post) in
      let rights : copy (high - mid) (mid + 1) array ≡ some right =
        subst (λ n. copy n (mid + 1) array ≡ some right) (omega arith)
          (subst (λ k. copy (length right) k array ≡ some right)
            (omega (arith, length-append pre left))
            (subst (λ l. copy (length right) (length (pre ++ left)) l ≡ some right) shifted
              (copy-middle right (pre ++ left) post))) in
      let both : pre ++ ((left ++ right) ++ post) ≡ array =
        ap (pre ++◌) (append_assoc left right post) in
      let written : merge_loop less_eq high left right low array
          ≡ some (pre ++ (merged less_eq left right ++ post)) =
        merge_loop-merged less_eq high left right low array (omega arith)
        ∙ ap (λ k. write_all (merged less_eq left right) k array) e1
        ∙ sym (ap (write_all (merged less_eq left right) (length pre)) both)
        ∙ write_all-middle (merged less_eq left right) (left ++ right) pre post
            (length-perm (merged-perm less_eq left right)) in
      rw (lefts, rights) written

  merge_sort_top_down_impl-split :
      (n low high : ℕ) (arr arr1 arr2 arr3 : List A)
      → ltb low high ≡ true
      → ltb (low + high) (2 ^ 31) ≡ true
      → merge_sort_top_down_impl less_eq n low ((low + high) / 2) arr ≡ some arr1
      → merge_sort_top_down_impl less_eq n ((low + high) / 2 + 1) high arr1 ≡ some arr2
      → merge less_eq arr2 low ((low + high) / 2) high ≡ some arr3
      → merge_sort_top_down_impl less_eq (suc n) low high arr ≡ some arr3
  unfolding merge_sort_top_down_impl
  merge_sort_top_down_impl-split n low high arr arr1 arr2 arr3 e fits run1 run2 made =
      rw (e, fits, merge_sort_top_down_impl)
        (ap
            (λ m. m >>= λ a.
              merge_sort_top_down_impl less_eq n ((low + high) / 2 + 1) high a >>= λ b.
              merge less_eq b low ((low + high) / 2) high)
            run1
          ∙ ap (λ m. m >>= λ b. merge less_eq b low ((low + high) / 2) high) run2
          ∙ made)

  merge_sort_top_down_impl-segment :
      (n low high : ℕ) (arr pre seg post : List A)
      → length seg ≤ n
      → 0 < length seg
      → high < 2 ^ 30
      → IsSegment low high arr pre seg post
      → (out : List A) × (merge_sort_top_down_impl less_eq n low high arr
          ≡ some (pre ++ (out ++ post)))
        × Sorted less_eq out
        × Perm out seg
  unfolding merge_sort_top_down_impl
  merge_sort_top_down_impl-segment zero low high arr pre seg post le pos small h =
      absurd (omega arith)
  merge_sort_top_down_impl-segment (suc n) low high arr pre seg post le pos small h =
      elim (Bool-cases (ltb low high)) [
        | inr e ↦ (
          seg,
          rw (e, merge_sort_top_down_impl) (ap some h.array),
          short seg (ground (arith, e, h.last)),
          Perm.refl seg,
        )
        | inl e ↦
            let middle = (low + high) / 2 in
            let (left, right, whole, len) = cut (suc middle - low) seg (ground (arith, h.last)) in
            let lens : length left + length right ≡ length seg =
              sym (length-append left right) ∙ ap length whole in
            let array : arr ≡ pre ++ (left ++ (right ++ post)) =
              h.array
              ∙ ap (λ s. pre ++ (s ++ post)) (sym whole)
              ∙ ap (pre ++◌) (append_assoc left right post) in
            let (out1, run1, s1, p1) =
              merge_sort_top_down_impl-segment n low middle arr pre left (right ++ post)
                (ground (arith, h.last)) (ground (arith, h.last)) (ground (arith, h.last))
                (record { array = array; first = h.first; last = ground (arith, h.last) }) in
            let (out2, run2, s2, p2) =
              merge_sort_top_down_impl-segment n (middle + 1) high
                (pre ++ (out1 ++ (right ++ post))) (pre ++ out1) right post (ground (arith, h.last))
                (ground (arith, h.last)) small
                (record {
                  array = sym (append_assoc pre out1 (right ++ post));
                  first = ground (arith, h.first, h.last, length-append pre out1, length-perm p1);
                  last = ground (arith, h.last);
                }) in
            let made =
              merge-halves out1 out2 pre post low middle high h.first (ground (arith, h.last))
                (ground (arith, h.last, length-perm p1))
                (ground (arith, h.last, length-perm p1, length-perm p2)) in
            (
              merged less_eq out1 out2,
              merge_sort_top_down_impl-split n low high arr (pre ++ (out1 ++ (right ++ post)))
                  (pre ++ (out1 ++ (out2 ++ post))) (pre ++ (merged less_eq out1 out2 ++ post)) e
                  (ground (arith, h.last)) run1
                  (run2 ∙ ap some (append_assoc pre out1 (out2 ++ post))) made,
              merged-Sorted less_eq order out1 out2 s1 s2,
              Perm.trans (merged-perm less_eq out1 out2)
                  (subst (Perm (out1 ++ out2)) whole (Perm.append p1 p2)),
            )
      ]
    where
      short : (xs : List A) → length xs ≤ 1 → Sorted less_eq xs
      short [] h = tt
      short (x ∷ []) h = (tt, tt)
      short (x ∷ y ∷ xs) h = absurd (omega arith)

  -- Merge sort of at most 2 ^ 30 elements never leaves the array nor overflows an `int` index, and puts the array in
  -- order, where `a < b`, as not `b <= a`, is a strict weak order.
  pub merge_sort-IsSorting :
      (xs : List A)
      → length xs ≤ 2 ^ 30
      → Returns (merge_sort less_eq xs) (IsSorting (less_of less_eq) xs)
  unfolding merge_sort
  merge_sort-IsSorting [] le =
      ([], refl, record { sorted = λ p q x y pq lt. absurd (omega arith); perm = Perm.refl [] })
  merge_sort-IsSorting (x ∷ xs) le =
      let (out, run, s, p) =
        merge_sort_top_down_impl-segment (length (x ∷ xs)) 0 (length xs) (x ∷ xs) [] (x ∷ xs) []
          (omega arith) (omega arith) (omega arith)
          (record { array = sym (append-nil (x ∷ xs)); first = refl; last = omega arith }) in
      (
        out,
        run ∙ ap some (append-nil out),
        record {
          sorted = λ i j a b ij lt ha hb. Sorted-before less_eq order out i j a b s ij ha hb;
          perm = p;
        },
      )
