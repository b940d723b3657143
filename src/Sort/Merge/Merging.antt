-- ===== src/Sort/Merge/Merging.antt =====
-- algorithm/merge_sort.hpp: what one call of `Merge` makes of two sorted halves.
use mathlib.Core.List.Perm
use mathlib.Core.Path.{fun_ext}
use mathlib.Core.List.{append-nil, append_assoc, perm_middle}
use dsac.Prelude.{
  ltb, suc, ◌≤◌, ℕ, suc, ◌+◌, ◌≤◌, ◌≡◌, refl, sym, ap, ◌∙◌, subst, Bool, true, false, List, [], ◌∷◌,
  ◌++◌, some, arith, get_elem?, length, length-append, Perm, ◌>>=◌, Bool-cases, inl, inr,
}
use dsac.Prelude.Arrays.{write, length-perm}
use dsac.Sort.Merge.{copy, write_all, merge_loop}

module _ {ℓ} {A : Type ℓ} where
  pub get_elem?-middle :
      (pre : List A) (x : A) (post : List A) → get_elem? (pre ++ x ∷ post) (length pre) ≡ some x
  get_elem?-middle [] x post = refl
  get_elem?-middle (y ∷ pre) x post = get_elem?-middle pre x post

  write-middle :
      (pre : List A) (x y : A) (post : List A)
      → write (pre ++ x ∷ post) (length pre) y ≡ some (pre ++ y ∷ post)
  unfolding write
  write-middle [] x y post = refl
  write-middle (z ∷ pre) x y post = rw (write-middle pre x y post) refl

  length-snoc : (pre : List A) (x : A) → length (pre ++ x ∷ []) ≡ length pre + 1
  length-snoc pre x = length-append pre (x ∷ [])

  pub snoc-append :
      (pre : List A) (x : A) (post : List A) → (pre ++ x ∷ []) ++ post ≡ pre ++ x ∷ post
  snoc-append pre x post = append_assoc pre (x ∷ []) post

  pub copy-middle :
      (seg pre post : List A) → copy (length seg) (length pre) (pre ++ (seg ++ post)) ≡ some seg
  unfolding copy
  copy-middle [] pre post = refl
  copy-middle (x ∷ seg) pre post =
      let rest : copy (length seg) (length pre + 1) (pre ++ x ∷ (seg ++ post)) ≡ some seg =
        subst (λ k. copy (length seg) k (pre ++ x ∷ (seg ++ post)) ≡ some seg) (length-snoc pre x)
          (subst (λ l. copy (length seg) (length (pre ++ x ∷ [])) l ≡ some seg)
            (snoc-append pre x (seg ++ post)) (copy-middle seg (pre ++ x ∷ []) post)) in
      rw (get_elem?-middle pre x (seg ++ post), rest) refl

  pub write_all-middle :
      (ys seg pre post : List A)
      → length ys ≡ length seg
      → write_all ys (length pre) (pre ++ (seg ++ post)) ≡ some (pre ++ (ys ++ post))
  unfolding write_all
  write_all-middle [] [] pre post e = refl
  write_all-middle [] (x ∷ seg) pre post e = absurd (omega arith)
  write_all-middle (y ∷ ys) [] pre post e = absurd (omega arith)
  write_all-middle (y ∷ ys) (x ∷ seg) pre post e =
      let rest = write_all-middle ys seg (pre ++ y ∷ []) post (omega arith) in
      let moved : write_all ys (length pre + 1) (pre ++ y ∷ (seg ++ post))
          ≡ some (pre ++ y ∷ (ys ++ post)) =
        subst (λ k. write_all ys k (pre ++ y ∷ (seg ++ post)) ≡ some (pre ++ y ∷ (ys ++ post)))
          (length-snoc pre y)
          (sym (ap (write_all ys (length (pre ++ y ∷ []))) (snoc-append pre y (seg ++ post)))
            ∙ rest
            ∙ ap some (snoc-append pre y (ys ++ post))) in
      rw (write-middle pre x y (seg ++ post)) moved

module _ {ℓ} {A : Type ℓ} (less_eq : A → A → Bool) where
  -- two lists in one
  unfoldable pub merged : List A → List A → List A
  merged [] right = right
  merged (x ∷ left) [] = x ∷ left
  merged (x ∷ left) (y ∷ right) = elim (less_eq x y) [
    | true ↦ x ∷ merged left (y ∷ right)
    | false ↦ y ∷ merged (x ∷ left) right
  ]

  pub merge_loop-merged :
      (high : ℕ) (left right : List A) (k : ℕ) (arr : List A)
      → k + (length left + length right) ≤ suc high
      → merge_loop less_eq high left right k arr ≡ write_all (merged left right) k arr
  unfolding merge_loop merged
  merge_loop-merged high [] right k arr le = refl
  merge_loop-merged high (x ∷ left) [] k arr le = refl
  merge_loop-merged high (x ∷ left) (y ∷ right) k arr le =
      let inside : ltb high k ≡ false = ground arith in
      elim (Bool-cases (less_eq x y)) [
        | inl e ↦
            let rest =
              λ (a : List A). merge_loop-merged high left (y ∷ right) (k + 1) a (omega arith) in
            rw (inside, e, merge_loop, merged) (ap (λ f. write arr k x >>= f) (fun_ext rest))
        | inr e ↦
            let rest =
              λ (a : List A). merge_loop-merged high (x ∷ left) right (k + 1) a (omega arith) in
            rw (inside, e, merge_loop, merged) (ap (λ f. write arr k y >>= f) (fun_ext rest))
      ]

  pub merged-perm : (left right : List A) → Perm (merged left right) (left ++ right)
  unfolding merged
  merged-perm [] right = Perm.refl right
  merged-perm (x ∷ left) [] =
      subst (Perm (x ∷ left)) (sym (append-nil (x ∷ left))) (Perm.refl (x ∷ left))
  merged-perm (x ∷ left) (y ∷ right) = elim (Bool-cases (less_eq x y)) [
    | inl e ↦ rw (e, merged) (Perm.cons x (merged-perm left (y ∷ right)))
    | inr e ↦
        rw (e, merged)
          (Perm.trans (Perm.cons y (merged-perm (x ∷ left) right))
            (Perm.symm (perm_middle (x ∷ left) right)))
  ]

  pub length-merged :
      (left right : List A) → length (merged left right) ≡ length left + length right
  length-merged left right = length-perm (merged-perm left right) ∙ length-append left right
