-- ===== src/Sort/Merge/Ordered.antt =====
-- algorithm/merge_sort.hpp: two sorted lists in one.
use dsac.Prelude.{
  ℕ, zero, suc, ◌≤◌, ◌<◌, ◌≡◌, refl, ap, Bool, true, false, not, List, [], ◌∷◌, ◌++◌, some, arith,
  get_elem?, length, All, Bool-cases, inl, inr,
}
use dsac.Sort.Order.{StrictWeak}
use dsac.Sort.Merge.Merging.{merged}

pub cut {ℓ} :
    {A : Type ℓ}
    → (n : ℕ) (xs : List A) → n ≤ length xs
    → (left right : List A) × (left ++ right ≡ xs) × length left ≡ n
cut zero xs le = ([], xs, refl, refl)
cut (suc n) [] le = absurd (omega arith)
cut (suc n) (x ∷ xs) le =
    let (left, right, e, l) = cut n xs (omega arith) in (x ∷ left, right, ap (x ∷◌) e, omega arith)

module _ {ℓ} {A : Type ℓ} (less_eq : A → A → Bool) where
  -- `a < b`, which is that not `b <= a`
  abbrev pub less_of : A → A → Bool
  less_of a b = not (less_eq b a)

  -- no element goes before `x`
  abbrev Above : A → List A → Type 0
  Above x ys = All (λ y. less_eq x y ≡ true) ys

  abbrev pub Sorted : List A → Type 0
  Sorted [] = Unit
  Sorted (x ∷ xs) = Above x xs × Sorted xs

module _ {ℓ} {A : Type ℓ} (less_eq : A → A → Bool) (order : StrictWeak (less_of less_eq)) where
  less_eq_trans : (a b c : A) → less_eq a b ≡ true → less_eq b c ≡ true → less_eq a c ≡ true
  less_eq_trans a b c h k = ground (arith, order.negative_trans a b c)

  less_eq_total : (a b : A) → less_eq a b ≡ false → less_eq b a ≡ true
  less_eq_total a b h = ground (arith, order.asymm b a)

  Above-trans :
      (a b : A) (xs : List A) → less_eq a b ≡ true → Above less_eq b xs → Above less_eq a xs
  Above-trans a b [] h k = tt
  Above-trans a b (x ∷ xs) h (k, rest) = (less_eq_trans a b x h k, Above-trans a b xs h rest)

  merged-Above :
      (a : A) (left right : List A)
      → Above less_eq a left
      → Above less_eq a right
      → Above less_eq a (merged less_eq left right)
  unfolding merged
  merged-Above a [] right h k = k
  merged-Above a (x ∷ left) [] h k = h
  merged-Above a (x ∷ left) (y ∷ right) (hx, h) (ky, k) = elim (Bool-cases (less_eq x y)) [
    | inl e ↦ rw (e, merged) (hx, merged-Above a left (y ∷ right) h (ky, k))
    | inr e ↦ rw (e, merged) (ky, merged-Above a (x ∷ left) right (hx, h) k)
  ]

  pub merged-Sorted :
      (left right : List A)
      → Sorted less_eq left
      → Sorted less_eq right
      → Sorted less_eq (merged less_eq left right)
  unfolding merged
  merged-Sorted [] right h k = k
  merged-Sorted (x ∷ left) [] h k = h
  merged-Sorted (x ∷ left) (y ∷ right) (hx, h) (ky, k) = elim (Bool-cases (less_eq x y)) [
    | inl e ↦
        rw (e, merged)
          (
            merged-Above x left (y ∷ right) hx (e, Above-trans x y right e ky),
            merged-Sorted left (y ∷ right) h (ky, k),
          )
    | inr e ↦
        rw (e, merged)
          (
            merged-Above y (x ∷ left) right
                (less_eq_total x y e, Above-trans y x left (less_eq_total x y e) hx) ky,
            merged-Sorted (x ∷ left) right (hx, h) k,
          )
  ]

  get_elem?-Above :
      (x y : A) (xs : List A) (i : ℕ)
      → Above less_eq x xs
      → get_elem? xs i ≡ some y
      → less_eq x y ≡ true
  get_elem?-Above x y [] i h e = absurd (ground arith)
  get_elem?-Above x y (z ∷ xs) zero (h, rest) e = ground arith
  get_elem?-Above x y (z ∷ xs) (suc i) (h, rest) e = get_elem?-Above x y xs i rest e

  pub Sorted-before :
      (xs : List A) (p q : ℕ) (x y : A)
      → Sorted less_eq xs
      → p < q
      → get_elem? xs p ≡ some x
      → get_elem? xs q ≡ some y
      → less_of less_eq y x ≡ false
  Sorted-before [] p q x y s lt hp hq = absurd (ground arith)
  Sorted-before (z ∷ xs) p zero x y s lt hp hq = absurd (omega arith)
  Sorted-before (z ∷ xs) zero (suc q) x y (above, s) lt hp hq =
      ground (arith, get_elem?-Above z y xs q above hq)
  Sorted-before (z ∷ xs) (suc p) (suc q) x y (above, s) lt hp hq =
      Sorted-before xs p q x y s (omega arith) hp hq
