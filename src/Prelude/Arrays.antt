-- ===== src/Prelude/Arrays.antt =====
-- A `std::vector`, or a range of random access iterators, as a list. An access outside it is the
-- fault `none`.
use mathlib.Core.Logic.{∥∥₁_elim}
use native.Mathlib.Nat.{ℕ_set}
use Prim.Native.Nat.{ℕ, zero, suc, ◌<◌}
use mathlib.Core.Path.{◌≡◌, refl, ap, ◌∙◌}
use mathlib.Core.List.{List, [], ◌∷◌, ◌++◌, Perm, Permᴰ}
use mathlib.Core.List.Perm
use mathlib.Core.Option.{Option, none, some}
use native.Mathlib.Omega.{arith}
use dsac.Prelude.Tests.{◌==◌, if◌then◌else◌}
use dsac.Prelude.Lists.{length, get_elem?, set, length-set}
use dsac.Prelude.Fallible.{◌>>=◌}

module _ {ℓ} {A : Type ℓ} where
  -- `xs[i] = v`
  unfoldable pub write : List A → ℕ → A → Option (List A)
  write [] i v = none
  write (x ∷ xs) zero v = some (v ∷ xs)
  write (x ∷ xs) (suc i) v = write xs i v >>= λ r. some (x ∷ r)

  -- `std::iter_swap`, `std::swap(xs[i], xs[j])`
  unfoldable pub swap : List A → ℕ → ℕ → Option (List A)
  unfolding write
  swap xs i j = do x ← get_elem? xs i; y ← get_elem? xs j; zs ← write xs i y; write zs j x

  -- what a swap leaves when `x` stands at `i` and `y` at `j`
  abbrev pub exchange : List A → ℕ → ℕ → A → A → List A
  exchange xs i j x y = set (set xs i y) j x

  pub lt_of_get_elem? : (xs : List A) (i : ℕ) {x : A} → get_elem? xs i ≡ some x → i < length xs
  lt_of_get_elem? [] i h = absurd (cc)
  lt_of_get_elem? (x ∷ xs) zero h = omega arith
  lt_of_get_elem? (x ∷ xs) (suc i) h = omega (arith, lt_of_get_elem? xs i h)

  pub get_elem?_of_lt : (xs : List A) (i : ℕ) → i < length xs → (x : A) × (get_elem? xs i ≡ some x)
  get_elem?_of_lt [] i h = absurd (omega arith)
  get_elem?_of_lt (x ∷ xs) zero h = (x, refl)
  get_elem?_of_lt (x ∷ xs) (suc i) h = get_elem?_of_lt xs i (omega arith)

  pub write-set : (xs : List A) (i : ℕ) (v : A) → i < length xs → write xs i v ≡ some (set xs i v)
  unfolding write
  write-set [] i v h = absurd (omega arith)
  write-set (x ∷ xs) zero v h = refl
  write-set (x ∷ xs) (suc i) v h = rw (write-set xs i v (omega arith))

  pub get_elem?-set :
      (xs : List A) (i k : ℕ) (v : A)
      → i < length xs
      → get_elem? (set xs i v) k ≡ (if i == k then some v else get_elem? xs k)
  get_elem?-set [] i k v h = absurd (omega arith)
  get_elem?-set (x ∷ xs) zero zero v h = refl
  get_elem?-set (x ∷ xs) zero (suc k) v h = ground arith
  get_elem?-set (x ∷ xs) (suc i) zero v h = ground arith
  get_elem?-set (x ∷ xs) (suc i) (suc k) v h = ground (arith, get_elem?-set xs i k v)

  pub set-set : (xs : List A) (i : ℕ) (v w : A) → set (set xs i v) i w ≡ set xs i w
  set-set [] i v w = refl
  set-set (x ∷ xs) zero v w = refl
  set-set (x ∷ xs) (suc i) v w = ap (◌∷◌ x) (set-set xs i v w)

  pub set_same : (xs : List A) (i : ℕ) {x : A} → get_elem? xs i ≡ some x → set xs i x ≡ xs
  set_same [] i h = refl
  set_same (x ∷ xs) zero h = ground arith
  set_same (x ∷ xs) (suc i) h = ap (◌∷◌ x) (set_same xs i h)

  module _ (xs : List A) (i j : ℕ) {x y : A} where
    pub swap-exchange :
        get_elem? xs i ≡ some x → get_elem? xs j ≡ some y → swap xs i j ≡ some (exchange xs i j x y)
    unfolding swap
    swap-exchange hi hj = rw (
      hi,
      hj,
      write-set xs i y (lt_of_get_elem? xs i hi),
      write-set (set xs i y) j x (rw length-set (lt_of_get_elem? xs j hj)),
    )

    pub get_elem?-exchange :
        get_elem? xs i ≡ some x
        → get_elem? xs j ≡ some y
        → (k : ℕ)
        → get_elem? (exchange xs i j x y) k
          ≡ (if j == k then some x else if i == k then some y else get_elem? xs k)
    get_elem?-exchange hi hj k = rw (
      get_elem?-set (set xs i y) j k x (rw length-set (lt_of_get_elem? xs j hj)),
      get_elem?-set xs i k y (lt_of_get_elem? xs i hi),
    )

  pub length-exchange : (xs : List A) (i j : ℕ) (x y : A) → length (exchange xs i j x y) ≡ length xs
  length-exchange xs i j x y = length-set (set xs i y) j x ∙ length-set xs i y

  -- a write trades the old entry for the new one
  set-perm :
      (xs : List A) (i : ℕ) {x : A} (v : A)
      → get_elem? xs i ≡ some x
      → Perm (x ∷ set xs i v) (v ∷ xs)
  set-perm [] i v h = absurd (cc)
  set-perm (z ∷ xs) zero {x} v h = let e : z ≡ x = cc in rw (← e) (Perm.swap v z xs)
  set-perm (z ∷ xs) (suc i) {x} v h =
      Perm.trans (Perm.swap z x (set xs i v))
        (Perm.trans (Perm.cons z (set-perm xs i v h)) (Perm.swap v z xs))

  pub exchange-perm :
      (xs : List A) (i j : ℕ) {x y : A}
      → get_elem? xs i ≡ some x
      → get_elem? xs j ≡ some y
      → Perm (exchange xs i j x y) xs
  exchange-perm xs i j {x} {y} hi hj =
      let kept : get_elem? (set xs i y) j ≡ some y =
        ground (arith, get_elem?-set xs i j y, lt_of_get_elem? xs i hi) in
      Perm.cons_inv (Perm.trans (set-perm (set xs i y) j x kept) (set-perm xs i y hi))

  length-permᴰ : {xs ys : List A} → Permᴰ xs ys → length xs ≡ length ys
  length-permᴰ (Permᴰ.trans first second) = length-permᴰ first ∙ length-permᴰ second
  length-permᴰ (Permᴰ.cons x rest) = omega (arith, length-permᴰ rest)
  length-permᴰ (Permᴰ.swap x y) = omega arith
  length-permᴰ Permᴰ.nil = omega arith

  pub length-perm : {xs ys : List A} → Perm xs ys → length xs ≡ length ys
  length-perm {xs} {ys} p = ∥∥₁_elim p (ℕ_set (length xs) (length ys)) (λ d. length-permᴰ d)

  pub get_elem?-append :
      (xs ys : List A) (i : ℕ) → i < length xs → get_elem? (xs ++ ys) i ≡ get_elem? xs i
  get_elem?-append [] ys i h = absurd (omega arith)
  get_elem?-append (x ∷ xs) ys zero h = refl
  get_elem?-append (x ∷ xs) ys (suc i) h = get_elem?-append xs ys i (omega arith)

  pub perm-snoc : (x : A) (xs : List A) → Perm (xs ++ x ∷ []) (x ∷ xs)
  perm-snoc x [] = Perm.refl (x ∷ [])
  perm-snoc x (y ∷ ys) = Perm.trans (Perm.cons y (perm-snoc x ys)) (Perm.swap x y ys)

  pub get_elem?-snoc : (xs : List A) (x : A) → get_elem? (xs ++ x ∷ []) (length xs) ≡ some x
  get_elem?-snoc [] x = refl
  get_elem?-snoc (y ∷ ys) x = get_elem?-snoc ys x
