-- ===== src/DisjointSet/Find.antt =====
-- container/graph/disjoint_set_union.*: `Find` answers with the root, and keeps the roots.
use dsac.Prelude.{
  ℕ, zero, suc, ◌≤◌, ◌<◌, ◌≡◌, ◌≢◌, refl, ◌∙◌, true, false, List, some, arith, length, get_elem?,
  set, length-set, ltb, ◌==◌, ◌>>=◌, Returns, ℕ_discrete,
}
use dsac.Prelude.Arrays.{write-set, lt_of_get_elem?}
use dsac.DisjointSet.{find_parent, compress, find, returned, out_of_range}
use dsac.DisjointSet.Forest.{
  Reaches, Reaches-root, Reaches-shortcut, inner, inner-le, inner-set_inner, IsForest, Root,
}

find_parent-Reaches :
    (parents : List ℕ) (n m v r : ℕ)
    → Reaches parents m v r
    → m < n
    → find_parent n v parents ≡ some r
unfolding find_parent
find_parent-Reaches parents zero m v r way h = absurd (omega arith)
find_parent-Reaches parents (suc n) zero v r (same, e) h =
    let at : get_elem? parents v ≡ some r = rw same e in
    let test : (r == v) ≡ true = ground arith in rw (at, ◌>>=◌, test) refl
find_parent-Reaches parents (suc n) (suc m) v r (p, e, ne, rest) h =
    let test : (p == v) ≡ false = ground arith in
    rw (e, ◌>>=◌, test) (find_parent-Reaches parents n m p r rest (omega arith))

-- The forest has the roots of another one.
pub record IsSame (parents parents' : List ℕ) : Type 0 where
  pub width : length parents' ≡ length parents
  pub inners : inner 0 parents' ≡ inner 0 parents
  pub roots : (n u s : ℕ) → Reaches parents n u s → (m : ℕ) × (m ≤ n) × Reaches parents' m u s

IsSame-refl : (parents : List ℕ) → IsSame parents parents
IsSame-refl parents = record {
  width = refl;
  inners = refl;
  roots = λ n u s way. (n, omega arith, way);
}

pub IsSame-trans : (a b c : List ℕ) → IsSame a b → IsSame b c → IsSame a c
IsSame-trans a b c h k = record {
  width = k.width ∙ h.width;
  inners = k.inners ∙ h.inners;
  roots = λ n u s way.
      let (m, le, way1) = h.roots n u s way in
      let (l, le', way2) = k.roots m u s way1 in (l, omega arith, way2);
}

pub IsSame-IsForest : (a b : List ℕ) → IsSame a b → IsForest a → IsForest b
IsSame-IsForest a b h forest v lt =
    let (r, n, le, way) = forest v (omega (arith, h.width)) in
    let (m, le', way') = h.roots n v r way in (r, m, omega (arith, h.inners), way')

compress-IsSame :
    (parents : List ℕ) (n m v r : ℕ)
    → Reaches parents m v r
    → m < n
    → Returns (compress n v r parents) (IsSame parents)
unfolding compress
compress-IsSame parents zero m v r way h = absurd (omega arith)
compress-IsSame parents (suc n) zero v r (same, e) h =
    let at : get_elem? parents v ≡ some r = rw same e in
    let test : (r == r) ≡ true = ground arith in
    (parents, rw (at, ◌>>=◌, test) refl, IsSame-refl parents)
compress-IsSame parents (suc n) (suc m) v r (p, e, ne, rest) h = elim (ℕ_discrete p r) [
  | yes at_root ↦
      let test : (p == r) ≡ true = ground arith in
      (parents, rw (e, ◌>>=◌, test) refl, IsSame-refl parents)
  | no above ↦
      let test : (p == r) ≡ false = ground arith in
      let way : Reaches parents (suc m) v r = (p, e, ne, rest) in
      let root = Reaches-root parents (suc m) v r way in
      let apart : r ≢ v = λ k. ne (ground arith) in
      let short = Reaches-shortcut parents (suc m) v p r e ne way in
      let one : IsSame parents (set parents v r) = record {
        width = length-set parents v r;
        inners =
            inner-set_inner 0 v p r parents e (λ k. ne (omega arith)) (λ k. apart (omega arith));
        roots = short;
      } in
      let (k, le, way') = short m p r rest in
      let (parents', run, two) = compress-IsSame (set parents v r) n k p r way' (omega arith) in
      (
        parents',
        rw (e, ◌>>=◌, test, write-set parents v r (lt_of_get_elem? parents v e)) run,
        IsSame-trans parents (set parents v r) parents' one two,
      )
]

-- `Find` of a vertex that is there answers with its root.
pub find-Root :
    (parents : List ℕ) (v : ℕ)
    → IsForest parents
    → v < length parents
    → (r : ℕ) × (parents' : List ℕ) × (find v parents ≡ some (returned r parents'))
      × Root parents v r
      × IsSame parents parents'
unfolding find
find-Root parents v forest lt =
    let (r, n, le, way) = forest v lt in
    let enough : n < suc (length parents) = omega (arith, inner-le 0 parents) in
    let test : ltb v (length parents) ≡ true = ground arith in
    let (parents', run, same) = compress-IsSame parents (suc (length parents)) n v r way enough in
    (
      r,
      parents',
      rw (test, find, find_parent-Reaches parents (suc (length parents)) n v r way enough, run)
          refl,
      (n, way),
      same,
    )

pub find-out_of_range :
    (parents : List ℕ) (v : ℕ) → length parents ≤ v → find v parents ≡ some out_of_range
unfolding find
find-out_of_range parents v h =
    let test : ltb v (length parents) ≡ false = ground arith in rw (test, find) refl
