-- ===== src/DisjointSet/Forest.antt =====
-- container/graph/disjoint_set_union.*: the vector as a forest, in which every vertex leads to a root.
use dsac.Prelude.{
  ℕ, zero, suc, ◌+◌, ◌≤◌, ◌<◌, ◌≡◌, ◌≢◌, refl, sym, ap, ◌∙◌, subst, List, [], ◌∷◌, some, arith,
  length, get_elem?, set, ◌==◌, if◌then◌else◌, ℕ_discrete, ◌⊎◌, inl, inr,
}
use dsac.Prelude.Arrays.{get_elem?-set, lt_of_get_elem?}

-- `n` steps lead from a vertex to its root
abbrev pub Reaches : List ℕ → ℕ → ℕ → ℕ → Type 0
Reaches parents zero v r = (v ≡ r) × (get_elem? parents r ≡ some r)
Reaches parents (suc n) v r =
    (p : ℕ) × (get_elem? parents v ≡ some p) × (p ≢ v) × Reaches parents n p r

pub Reaches-root :
    (parents : List ℕ) (n v r : ℕ) → Reaches parents n v r → get_elem? parents r ≡ some r
Reaches-root parents zero v r (e, f) = f
Reaches-root parents (suc n) v r (p, e, ne, rest) = Reaches-root parents n p r rest

pub Reaches-unique :
    (parents : List ℕ) (n m v r s : ℕ) → Reaches parents n v r → Reaches parents m v s → r ≡ s
Reaches-unique parents zero zero v r s (e, f) (g, h) = sym e ∙ g
Reaches-unique parents zero (suc m) v r s (e, f) (p, g, ne, rest) = absurd (ne (ground arith))
Reaches-unique parents (suc n) zero v r s (p, e, ne, rest) (g, h) = absurd (ne (ground arith))
Reaches-unique parents (suc n) (suc m) v r s (p, e, ne, rest) (q, f, nf, rest') =
    let same : q ≡ p = ground arith in
    Reaches-unique parents n m p r s rest (subst (λ w. Reaches parents m w s) same rest')

-- the vertices that are not roots, from the vertex `i` on
abbrev pub inner : ℕ → List ℕ → ℕ
inner i [] = 0
inner i (p ∷ parents) = (if p == i then 0 else 1) + inner (suc i) parents

pub inner-le : (i : ℕ) (parents : List ℕ) → inner i parents ≤ length parents
inner-le i [] = omega arith
inner-le i (p ∷ parents) = ground (arith, inner-le (suc i) parents)

-- a vertex that is no root gets another parent
pub inner-set_inner :
    (i v p q : ℕ) (parents : List ℕ)
    → get_elem? parents v ≡ some p
    → p ≢ i + v
    → q ≢ i + v
    → inner i (set parents v q) ≡ inner i parents
inner-set_inner i v p q [] e a b = refl
inner-set_inner i zero p q (x ∷ parents) e a b = ground arith
inner-set_inner i (suc v) p q (x ∷ parents) e a b =
    omega
      (arith, inner-set_inner (suc i) v p q parents e (λ h. a (omega arith)) (λ h. b (omega arith)))

-- a root gets a parent
pub inner-set_root :
    (i v q : ℕ) (parents : List ℕ)
    → get_elem? parents v ≡ some (i + v)
    → q ≢ i + v
    → inner i (set parents v q) ≡ suc (inner i parents)
inner-set_root i v q [] e b = absurd (cc)
inner-set_root i zero q (x ∷ parents) e b = ground arith
inner-set_root i (suc v) q (x ∷ parents) e b =
    let moved : i + suc v ≡ suc i + v = omega arith in
    omega (arith, inner-set_root (suc i) v q parents (e ∙ ap some moved) (λ h. b (omega arith)))

-- Every vertex leads to a root, by inner vertices.
abbrev pub IsForest : List ℕ → Type 0
IsForest parents =
    (v : ℕ) → v < length parents → (r : ℕ) × (n : ℕ) × (n ≤ inner 0 parents) × Reaches parents n v r

-- the root of a vertex
abbrev pub Root : List ℕ → ℕ → ℕ → Type 0
Root parents v r = (n : ℕ) × Reaches parents n v r

pub Reaches-lt : (parents : List ℕ) (n v r : ℕ) → Reaches parents n v r → v < length parents
Reaches-lt parents zero v r (e, f) = omega (arith, lt_of_get_elem? parents r f)
Reaches-lt parents (suc n) v r (p, e, ne, rest) = lt_of_get_elem? parents v e

module _ (parents : List ℕ) (v q : ℕ) (lt : v < length parents) where
  get_here : get_elem? (set parents v q) v ≡ some q
  get_here = ground (arith, get_elem?-set parents v v q lt)

  get_there : (u : ℕ) → u ≢ v → get_elem? (set parents v q) u ≡ get_elem? parents u
  get_there u ne = ground (arith, get_elem?-set parents v u q lt)

-- An inner vertex is put below its root: the roots stay, and no way gets longer.
pub Reaches-shortcut :
    (parents : List ℕ) (k v p r : ℕ)
    → get_elem? parents v ≡ some p
    → p ≢ v
    → Reaches parents k v r
    → (n u s : ℕ) → Reaches parents n u s
    → (m : ℕ) × (m ≤ n) × Reaches (set parents v r) m u s
Reaches-shortcut parents k v p r e ne way zero u s (same, f) =
    let lt = Reaches-lt parents k v r way in
    (0, omega arith, (same, get_there parents v r lt s (λ h. ne (ground arith)) ∙ f))
Reaches-shortcut parents k v p r e ne way (suc n) u s (q, f, nf, rest) = elim (ℕ_discrete u v) [
  | yes same ↦
      let lt = Reaches-lt parents k v r way in
      let to_r : r ≡ s =
        Reaches-unique parents k (suc n) v r s way
          (p, e, ne, subst (λ w. Reaches parents n w s) (ground arith) rest) in
      let root = Reaches-root parents k v r way in
      let apart : r ≢ v = λ h. ne (ground arith) in
      (
        1,
        omega arith,
        (
          r,
          rw same (get_here parents v r lt),
          rw same apart,
          (to_r, rw (← to_r) (get_there parents v r lt r apart ∙ root)),
        ),
      )
  | no other ↦
      let (m, le, short) = Reaches-shortcut parents k v p r e ne way n q s rest in
      (
        suc m,
        omega arith,
        (q, get_there parents v r (Reaches-lt parents k v r way) u other ∙ f, nf, short),
      )
]

-- A root is put below another one: the vertices below it get the other root, and one step more.
pub Reaches-joined :
    (parents : List ℕ) (r1 r2 : ℕ)
    → get_elem? parents r1 ≡ some r1
    → get_elem? parents r2 ≡ some r2
    → r1 ≢ r2
    → (n u s : ℕ) → Reaches parents n u s
    → ((s ≢ r2) × Reaches (set parents r2 r1) n u s)
      ⊎ ((s ≡ r2) × Reaches (set parents r2 r1) (suc n) u r1)
Reaches-joined parents r1 r2 e f ne zero u s (same, g) =
    let lt = lt_of_get_elem? parents r2 f in
    elim (ℕ_discrete s r2) [
      | yes h ↦ inr (
        h,
        (
          r1,
          rw (same, h) (get_here parents r2 r1 lt),
          λ k. ne (k ∙ same ∙ h),
          (refl, get_there parents r2 r1 lt r1 ne ∙ e),
        ),
      )
      | no h ↦ inl (h, (same, get_there parents r2 r1 lt s h ∙ g))
    ]
Reaches-joined parents r1 r2 e f ne (suc n) u s (p, g, np, rest) =
    let lt = lt_of_get_elem? parents r2 f in
    let apart : u ≢ r2 = λ h. np (ground arith) in
    let edge = get_there parents r2 r1 lt u apart ∙ g in
    go edge (Reaches-joined parents r1 r2 e f ne n p s rest)
  where
    go :
        get_elem? (set parents r2 r1) u ≡ some p
        → ((s ≢ r2) × Reaches (set parents r2 r1) n p s)
          ⊎ ((s ≡ r2) × Reaches (set parents r2 r1) (suc n) p r1)
        → ((s ≢ r2) × Reaches (set parents r2 r1) (suc n) u s)
          ⊎ ((s ≡ r2) × Reaches (set parents r2 r1) (suc (suc n)) u r1)
    go edge (inl (h, way)) = inl (h, (p, edge, np, way))
    go edge (inr (h, way)) = inr (h, (p, edge, np, way))
