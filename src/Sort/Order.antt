-- ===== src/Sort/Order.antt =====
-- The argument `Compare comp` of the sorts.
use mathlib.Core.List.Perm
use dsac.Prelude.Arrays.{length-perm}
use dsac.Prelude.{
  ℕ, ◌<◌, ◌≡◌, Bool, true, false, List, some, Perm, subst, arith, get_elem?, length, ltb,
}

-- What the C++ library asks of a comparator: a strict weak order. `std::less` and `std::greater`
-- are such.
pub record StrictWeak {ℓ} {A : Type ℓ} (comp : A → A → Bool) : Type ℓ where
  pub asymm : (a b : A) → comp a b ≡ true → comp b a ≡ false
  pub negative_trans : (a b c : A) → comp b a ≡ false → comp c b ≡ false → comp c a ≡ false

-- `std::less` on the numbers.
abbrev pub less : ℕ → ℕ → Bool
less = ltb

pub less-StrictWeak : StrictWeak less
less-StrictWeak = record { asymm = ground arith; negative_trans = ground arith }

abbrev pub greater : ℕ → ℕ → Bool
greater a b = ltb b a

pub greater-StrictWeak : StrictWeak greater
greater-StrictWeak = record { asymm = ground arith; negative_trans = ground arith }

module _ {ℓ} {A : Type ℓ} (comp : A → A → Bool) where
  -- of the first `n` elements no later one goes before an earlier one
  abbrev pub IsSortedTo : ℕ → List A → Type ℓ
  IsSortedTo n xs =
      (p q : ℕ) (x y : A)
      → p < q
      → q < n
      → get_elem? xs p ≡ some x
      → get_elem? xs q ≡ some y
      → comp y x ≡ false

  -- `ys` is `xs` put in order
  pub record IsSorting (xs ys : List A) : Type ℓ where
    pub sorted : IsSortedTo (length xs) ys
    pub perm : Perm ys xs

  -- a sorted rearrangement of a rearrangement
  pub perm-IsSorting : {xs ys zs : List A} → Perm ys xs → IsSorting ys zs → IsSorting xs zs
  perm-IsSorting {zs} p s = record {
    sorted = subst (λ n. IsSortedTo n zs) (length-perm p) s.sorted;
    perm = Perm.trans s.perm p;
  }

  pub IsSorting-of_to : {n : ℕ} (xs : List A) → n ≡ length xs → IsSortedTo n xs → IsSorting xs xs
  IsSorting-of_to xs e h = record { sorted = subst (λ n. IsSortedTo n xs) e h; perm = Perm.refl xs }
