-- ===== src/DisjointSet/Connected.antt =====
-- container/graph/disjoint_set_union.*: `IsConnected` compares the roots.
use dsac.Prelude.{
  ℕ, ◌<◌, ◌≡◌, ◌↔◌, refl, sym, ◌∙◌, subst, Bool, true, List, some, arith, length, ◌==◌, ==_iff,
}
use dsac.DisjointSet.{is_connected, returned}
use dsac.DisjointSet.Forest.{Reaches-unique, IsForest, Root}
use dsac.DisjointSet.Find.{IsSame, IsSame-trans, IsSame-IsForest, find-Root}

-- two vertices with the same root
abbrev pub Connected : List ℕ → ℕ → ℕ → Type 0
Connected parents u w = (r : ℕ) × Root parents u r × Root parents w r

pub Root-IsSame : (a b : List ℕ) (u r : ℕ) → IsSame a b → Root a u r → Root b u r
Root-IsSame a b u r h (n, way) = let (m, le, way') = h.roots n u r way in (m, way')

pub Root-unique : (a : List ℕ) (u r s : ℕ) → Root a u r → Root a u s → r ≡ s
Root-unique a u r s (n, way) (m, way') = Reaches-unique a n m u r s way way'

-- a vertex of a forest has a root
pub rooted : (a : List ℕ) (u : ℕ) → IsForest a → u < length a → (r : ℕ) × Root a u r
rooted a u forest lt = let (r, n, le, way) = forest u lt in (r, (n, way))

Connected-IsSame_back :
    (a b : List ℕ) (u w : ℕ)
    → IsForest a
    → u < length a
    → w < length a
    → IsSame a b
    → Connected b u w
    → Connected a u w
Connected-IsSame_back a b u w forest ltu ltw h (r, left, right) =
    let (s, ru) = rooted a u forest ltu in
    let (t, rw') = rooted a w forest ltw in
    let eu : s ≡ r = Root-unique b u s r (Root-IsSame a b u s h ru) left in
    let ew : t ≡ r = Root-unique b w t r (Root-IsSame a b w t h rw') right in
    (s, ru, subst (Root a w) (ew ∙ sym eu) rw')

pub Connected-IsSame :
    (a b : List ℕ) (u w : ℕ)
    → IsForest a
    → u < length a
    → w < length a
    → IsSame a b
    → Connected b u w ↔ Connected a u w
Connected-IsSame a b u w forest ltu ltw h = (
  Connected-IsSame_back a b u w forest ltu ltw h,
  λ (r, left, right). (r, Root-IsSame a b u r h left, Root-IsSame a b w r h right),
)

pub is_connected-Connected :
    (a : List ℕ) (u w : ℕ)
    → IsForest a
    → u < length a
    → w < length a
    → (c : Bool) × (b : List ℕ) × (is_connected u w a ≡ some (returned c b))
      × ((c ≡ true) ↔ Connected a u w)
      × IsSame a b
unfolding is_connected
is_connected-Connected a u w forest ltu ltw =
    let (r, a1, run1, root1, same1) = find-Root a u forest ltu in
    let (s, a2, run2, root2, same2) =
      find-Root a1 w (IsSame-IsForest a a1 same1 forest) (omega (arith, same1.width)) in
    let (t, root_w) = rooted a w forest ltw in
    let et : t ≡ s = Root-unique a1 w t s (Root-IsSame a a1 w t same1 root_w) root2 in
    let root_s : Root a w s = subst (Root a w) et root_w in
    (
      r == s,
      a2,
      rw (run1, run2) refl,
      (
        λ h. (r, root1, subst (Root a w) (sym ((==_iff r s).0 h)) root_s),
        λ (q, left, right).
            (==_iff r s).1 (Root-unique a u r q root1 left ∙ Root-unique a w q s right root_s),
      ),
      IsSame-trans a a1 a2 same1 same2,
    )
