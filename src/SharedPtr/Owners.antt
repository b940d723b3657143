-- ===== src/SharedPtr/Owners.antt =====
-- memory/shared_ptr.hpp: which block each pointer holds, as a list.
use dsac.Prelude.{
  ℕ, zero, suc, ◌+◌, ◌≤◌, ◌<◌, ◌≡◌, refl, ap, ◌∙◌, Bool-cases, inl, inr, List, [], ◌∷◌, Option,
  none, some, arith, get_elem?, set, length, map, ◌==◌, if◌then◌else◌,
}
use dsac.Prelude.Arrays.{write, set-set}
use dsac.SharedPtr.{
  Call, make, copy_construct, move_construct, copy_assign, move_assign, reset, reset_to, swap,
  leave,
}
use dsac.SharedPtr.Blocks.{held, is}

-- the pointers that hold the block `x`
abbrev pub count : ℕ → List (Option ℕ) → ℕ
count x [] = 0
count x (o ∷ os) = is o x + count x os

-- the block of the pointer `i`
abbrev pub at : List (Option ℕ) → ℕ → Option ℕ
at [] i = none
at (o ∷ os) zero = o
at (o ∷ os) (suc i) = at os i

-- what a call makes of the number of blocks and of the pointers
abbrev pub own : Call → ℕ × List (Option ℕ) → ℕ × List (Option ℕ)
own (make i) (f, os) = (f + 1, set os i (some f))
own (copy_construct i j) (f, os) = (f, set os i (at os j))
own (move_construct i j) (f, os) = (f, set (set os j none) i (at os j))
own (copy_assign i j) (f, os) = (f, set os i (at os j))
own (move_assign i j) (f, os) =
    (f, if j == i then set os i none else set (set os j none) i (at os j))
own (reset i) (f, os) = (f, set os i none)
own (reset_to i) (f, os) = (f + 1, set os i (some f))
own (swap i j) (f, os) = (f, set (set os i (at os j)) j (at os i))
own (leave i) (f, os) = (f, set os i none)

-- The slots are there, and a constructor is called on a null one.
abbrev pub IsCall : Call → List (Option ℕ) → Type 0
IsCall (make i) os = (i < length os) × (at os i ≡ none)
IsCall (copy_construct i j) os = (i < length os) × (j < length os) × (at os i ≡ none)
IsCall (move_construct i j) os = (i < length os) × (j < length os) × (at os i ≡ none)
IsCall (copy_assign i j) os = (i < length os) × (j < length os)
IsCall (move_assign i j) os = (i < length os) × (j < length os)
IsCall (reset i) os = i < length os
IsCall (reset_to i) os = i < length os
IsCall (swap i j) os = (i < length os) × (j < length os)
IsCall (leave i) os = i < length os

pub get_elem?-held :
    (os : List (Option ℕ)) (i : ℕ)
    → i < length os
    → get_elem? (map held os) i ≡ some (held (at os i))
get_elem?-held [] i lt = absurd (omega arith)
get_elem?-held (o ∷ os) zero lt = refl
get_elem?-held (o ∷ os) (suc i) lt = get_elem?-held os i (omega arith)

pub write-held :
    (os : List (Option ℕ)) (i : ℕ) (o : Option ℕ)
    → i < length os
    → write (map held os) i (held o) ≡ some (map held (set os i o))
unfolding write
write-held [] i o lt = absurd (omega arith)
write-held (q ∷ os) zero o lt = refl
write-held (q ∷ os) (suc i) o lt = rw (write-held os i o (omega arith)) refl

pub is-le : (os : List (Option ℕ)) (i x : ℕ) → is (at os i) x ≤ count x os
is-le [] i x = omega arith
is-le (o ∷ os) zero x = omega arith
is-le (o ∷ os) (suc i) x = omega (arith, is-le os i x)

pub count-set :
    (os : List (Option ℕ)) (i x : ℕ) (o : Option ℕ)
    → i < length os
    → count x (set os i o) + is (at os i) x ≡ count x os + is o x
count-set [] i x o lt = absurd (omega arith)
count-set (q ∷ os) zero x o lt = omega arith
count-set (q ∷ os) (suc i) x o lt = omega (arith, count-set os i x o (omega arith))

pub at-set :
    (os : List (Option ℕ)) (i j : ℕ) (o : Option ℕ)
    → i < length os
    → at (set os i o) j ≡ (if j == i then o else at os j)
at-set [] i j o lt = absurd (omega arith)
at-set (q ∷ os) zero zero o lt = refl
at-set (q ∷ os) zero (suc j) o lt = ground arith
at-set (q ∷ os) (suc i) zero o lt = ground arith
at-set (q ∷ os) (suc i) (suc j) o lt = at-set os i j o (omega arith) ∙ ground arith

-- a value that is written over later
pub set-over :
    (os : List (Option ℕ)) (i j : ℕ) (o p q : Option ℕ)
    → set (set (set os i o) j p) i q ≡ set (set os j p) i q
set-over [] i j o p q = refl
set-over (r ∷ os) zero zero o p q = refl
set-over (r ∷ os) zero (suc j) o p q = refl
set-over (r ∷ os) (suc i) zero o p q = ap (p ∷◌) (set-set os i o q)
set-over (r ∷ os) (suc i) (suc j) o p q = ap (r ∷◌) (set-over os i j o p q)

pub at-set-none : (os : List (Option ℕ)) (i j : ℕ) → at os i ≡ none → at (set os j none) i ≡ none
at-set-none [] i j free = refl
at-set-none (q ∷ os) zero zero free = refl
at-set-none (q ∷ os) zero (suc j) free = free
at-set-none (q ∷ os) (suc i) zero free = free
at-set-none (q ∷ os) (suc i) (suc j) free = at-set-none os i j free

pub set-at : (os : List (Option ℕ)) (i : ℕ) → set os i (at os i) ≡ os
set-at [] i = refl
set-at (q ∷ os) zero = refl
set-at (q ∷ os) (suc i) = ap (q ∷◌) (set-at os i)

pub at-set-at :
    (os : List (Option ℕ)) (i j : ℕ) → i < length os → at (set os i (at os j)) j ≡ at os j
at-set-at os i j lt = elim (Bool-cases (j == i)) [
  | inl e ↦ at-set os i j (at os j) lt ∙ rw e refl
  | inr e ↦ at-set os i j (at os j) lt ∙ rw e refl
]

-- the steps of the move assignment, also of a pointer to itself
pub set-moved :
    (os : List (Option ℕ)) (i j : ℕ)
    → i < length os
    → set (set (set os i none) j none) i (at (set os i none) j)
      ≡ (if j == i then set os i none else set (set os j none) i (at os j))
set-moved os i j lt =
    let over = set-over os i j none none (at (set os i none) j) in
    elim (Bool-cases (j == i)) [
      | inl e ↦
          let same : j ≡ i = ground arith in
          let taken : at (set os i none) j ≡ none = at-set os i j none lt ∙ rw e refl in
          rw e (
            over
            ∙ ap (set (set os j none) i) taken
            ∙ ap (λ k. set (set os k none) i none) same
            ∙ set-set os i none none)
      | inr e ↦
          let taken : at (set os i none) j ≡ at os j = at-set os i j none lt ∙ rw e refl in
          rw e (over ∙ ap (set (set os j none) i) taken)
    ]

pub at-set_free : (os : List (Option ℕ)) (i : ℕ) → i < length os → at (set os i none) i ≡ none
at-set_free [] i lt = refl
at-set_free (q ∷ os) zero lt = refl
at-set_free (q ∷ os) (suc i) lt = at-set_free os i (omega arith)
