-- ===== src/Bfs/Expand.antt =====
-- algorithm/breadth_first_search.hpp: what the loop over the edges of one node adds.
use dsac.Prelude.{
  ℕ, zero, suc, ◌+◌, ◌≤◌, ◌<◌, ◌≡◌, inl, inr, refl, ap, ◌∙◌, subst, Bool, true, false, List, [],
  ◌∷◌, ◌++◌, arith, ◌==◌, ◌||◌, if◌then◌else◌, Bool-cases,
}
use dsac.Bfs.{has}

pub has-snoc : (x y : ℕ) (ys : List ℕ) → has x (ys ++ y ∷ []) ≡ (has x ys || y == x)
unfolding has
has-snoc x y [] = elim (Bool-cases (y == x)) [ inl e ↦ rw e refl | inr e ↦ rw e refl ]
has-snoc x y (z ∷ ys) = elim (Bool-cases (z == x)) [
  | inl e ↦ rw (e, has) refl
  | inr e ↦ rw (e, has) (has-snoc x y ys)
]

pub not-has-nil : (x : ℕ) → has x [] ≡ true → ⊥
unfolding has
not-has-nil x q = ground arith

pub has-cons : (x y : ℕ) (ys : List ℕ) → has x (y ∷ ys) ≡ ((y == x) || has x ys)
unfolding has
has-cons x y ys = elim (Bool-cases (y == x)) [ inl e ↦ rw (e, has) refl | inr e ↦ rw (e, has) refl ]

-- the nodes below `n` that were not visited
abbrev pub unseen : ℕ → List ℕ → ℕ
unseen zero visited = 0
unseen (suc n) visited = (if has n visited then 0 else 1) + unseen n visited

unseen-above : (n x : ℕ) (visited : List ℕ) → n ≤ x → unseen n (x ∷ visited) ≡ unseen n visited
unseen-above zero x visited le = refl
unseen-above (suc n) x visited le =
    let same : has n (x ∷ visited) ≡ has n visited = has-cons n x visited ∙ ground arith in
    rw same
      (ap (λ k. (if has n visited then 0 else 1) + k) (unseen-above n x visited (omega arith)))

pub unseen-cons :
    (n x : ℕ) (visited : List ℕ)
    → x < n
    → has x visited ≡ false
    → unseen n (x ∷ visited) + 1 ≡ unseen n visited
unseen-cons zero x visited lt new = absurd (omega arith)
unseen-cons (suc n) x visited lt new = elim (Bool-cases (x == n)) [
  | inl e ↦
      let same : x ≡ n = ground arith in
      let now : has n (x ∷ visited) ≡ true = has-cons n x visited ∙ ground arith in
      let before : has n visited ≡ false = subst (λ k. has k visited ≡ false) same new in
      rw (now, before) (omega (arith, unseen-above n x visited (omega (arith, same))))
  | inr e ↦
      let other : has n (x ∷ visited) ≡ has n visited = has-cons n x visited ∙ ground arith in
      let rest = unseen-cons n x visited (ground (arith, e)) new in rw other (omega (arith, rest))
]

-- each key was found from a node whose key came before, and has an edge from it; the source was first
abbrev pub has_key : ℕ → List (ℕ × ℕ) → Bool
has_key x [] = false
has_key x ((k, v) ∷ actions) = k == x || has_key x actions

abbrev pub IsChain : (ℕ → List ℕ) → ℕ → List (ℕ × ℕ) → Type 0
IsChain edges source [] = ⊥
IsChain edges source ((k, v) ∷ []) = (k ≡ source) × (v ≡ source)
IsChain edges source ((k, v) ∷ (a ∷ actions)) =
    (has_key k (a ∷ actions) ≡ false)
    × (has_key v (a ∷ actions) ≡ true)
    × (has k (edges v) ≡ true)
    × IsChain edges source (a ∷ actions)

pub unseen-le : (n : ℕ) (visited : List ℕ) → unseen n visited ≤ n
unseen-le zero visited = omega arith
unseen-le (suc n) visited = elim (Bool-cases (has n visited)) [
  | inl e ↦ rw e (omega (arith, unseen-le n visited))
  | inr e ↦ rw e (omega (arith, unseen-le n visited))
]
