-- ===== src/DisjointSet/Joining.antt =====
-- container/graph/disjoint_set_union.*: a root below another root.
use dsac.Prelude.{
  ℕ, suc, ◌≤◌, ◌≡◌, ◌≢◌, ◌⊎◌, inl, inr, refl, sym, ap, ◌∙◌, subst, List, some, arith, get_elem?,
  set, length-set, ℕ_discrete,
}
use dsac.DisjointSet.Forest.{Reaches, Reaches-joined, inner, inner-set_root, IsForest, Root}
use dsac.DisjointSet.Connected.{Connected, Root-unique}

-- what `Union(v1, v2)` makes of the vertices that are connected
abbrev pub Joined : (ℕ → ℕ → Type 0) → ℕ → ℕ → ℕ → ℕ → Type 0
Joined R v1 v2 u w = R u w ⊎ (R u v1 × R w v2) ⊎ (R u v2 × R w v1)

-- the forest with the root `r2` below the root `r1`
module _ (a : List ℕ) (r1 r2 : ℕ) (e : get_elem? a r1 ≡ some r1) (f : get_elem? a r2 ≡ some r2)
    (ne : r1 ≢ r2) where
  pub joined-IsForest : IsForest a → IsForest (set a r2 r1)
  joined-IsForest forest v lt =
      let count = inner-set_root 0 r2 r1 a (f ∙ ap some (omega arith)) (λ h. ne (omega arith)) in
      go count (forest v (omega (arith, length-set a r2 r1)))
    where
      go :
          inner 0 (set a r2 r1) ≡ suc (inner 0 a)
          → ((r : ℕ) × (n : ℕ) × (n ≤ inner 0 a) × Reaches a n v r)
          → (r : ℕ) × (n : ℕ) × (n ≤ inner 0 (set a r2 r1)) × Reaches (set a r2 r1) n v r
      go count (r, n, le, way) = elim (Reaches-joined a r1 r2 e f ne n v r way) [
        | inl (other, way') ↦ (r, n, omega arith, way')
        | inr (same, way') ↦ (r1, suc n, omega arith, way')
      ]

  -- the roots after the join
  joined-Root_below : (u : ℕ) → Root a u r2 → Root (set a r2 r1) u r1
  joined-Root_below u (n, way) = elim (Reaches-joined a r1 r2 e f ne n u r2 way) [
    | inl (other, way') ↦ absurd (other refl)
    | inr (same, way') ↦ (suc n, way')
  ]

  joined-Root_other : (u r : ℕ) → r ≢ r2 → Root a u r → Root (set a r2 r1) u r
  joined-Root_other u r other (n, way) = elim (Reaches-joined a r1 r2 e f ne n u r way) [
    | inl (h, way') ↦ (n, way')
    | inr (same, way') ↦ absurd (other same)
  ]

  module _ (v1 v2 : ℕ) (root1 : Root a v1 r1) (root2 : Root a v2 r2) where
    pub Joined-apart :
        (u w ru rw' : ℕ)
        → Root a u ru
        → Root a w rw'
        → Connected (set a r2 r1) u w
        → Joined (Connected a) v1 v2 u w
    Joined-apart u w ru rw' left right (r, left', right') = elim (ℕ_discrete ru r2) [
      | yes eu ↦
          let below = joined-Root_below u (subst (Root a u) eu left) in
          let er : r1 ≡ r = Root-unique (set a r2 r1) u r1 r below left' in
          elim (ℕ_discrete rw' r2) [
            | yes ew ↦ inl (r2, subst (Root a u) eu left, subst (Root a w) ew right)
            | no nw ↦
                let ew : rw' ≡ r =
                  Root-unique (set a r2 r1) w rw' r (joined-Root_other w rw' nw right) right' in
                inr (
                  inr (
                    (r2, subst (Root a u) eu left, root2),
                    (r1, subst (Root a w) (ew ∙ sym er) right, root1),
                  ))
          ]
      | no nu ↦
          let er : ru ≡ r =
            Root-unique (set a r2 r1) u ru r (joined-Root_other u ru nu left) left' in
          elim (ℕ_discrete rw' r2) [
            | yes ew ↦
                let below = joined-Root_below w (subst (Root a w) ew right) in
                let es : r1 ≡ r = Root-unique (set a r2 r1) w r1 r below right' in
                inr (
                  inl (
                    (r1, subst (Root a u) (er ∙ sym es) left, root1),
                    (r2, subst (Root a w) ew right, root2),
                  ))
            | no nw ↦
                let ew : rw' ≡ r =
                  Root-unique (set a r2 r1) w rw' r (joined-Root_other w rw' nw right) right' in
                inl (ru, left, subst (Root a w) (ew ∙ sym er) right)
          ]
    ]

    pub Joined-together : (u w : ℕ) → Joined (Connected a) v1 v2 u w → Connected (set a r2 r1) u w
    Joined-together u w (inl (r, left, right)) = elim (ℕ_discrete r r2) [
      | yes h ↦ (
        r1,
        joined-Root_below u (subst (Root a u) h left),
        joined-Root_below w (subst (Root a w) h right),
      )
      | no h ↦ (r, joined-Root_other u r h left, joined-Root_other w r h right)
    ]
    Joined-together u w (inr (inl ((r, left, at1), (s, right, at2)))) =
        let er : r ≡ r1 = Root-unique a v1 r r1 at1 root1 in
        let es : s ≡ r2 = Root-unique a v2 s r2 at2 root2 in
        (
          r1,
          joined-Root_other u r1 ne (subst (Root a u) er left),
          joined-Root_below w (subst (Root a w) es right),
        )
    Joined-together u w (inr (inr ((r, left, at2), (s, right, at1)))) =
        let er : r ≡ r2 = Root-unique a v2 r r2 at2 root2 in
        let es : s ≡ r1 = Root-unique a v1 s r1 at1 root1 in
        (
          r1,
          joined-Root_below u (subst (Root a u) er left),
          joined-Root_other w r1 ne (subst (Root a w) es right),
        )
