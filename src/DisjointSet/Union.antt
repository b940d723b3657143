-- ===== src/DisjointSet/Union.antt =====
-- container/graph/disjoint_set_union.*: `Union` joins two sets and no others.
use dsac.Prelude.{
  ℕ, ◌<◌, ◌≡◌, ◌≢◌, ◌↔◌, inl, inr, refl, sym, ◌∙◌, subst, Bool, true, false, List, some, arith,
  length, set, length-set, Bool-cases,
}
use dsac.Prelude.Arrays.{write-set, lt_of_get_elem?}
use dsac.DisjointSet.{union, returned}
use dsac.DisjointSet.Forest.{Reaches-root, IsForest, Root}
use dsac.DisjointSet.Find.{IsSame, IsSame-trans, IsSame-IsForest, find-Root}
use dsac.DisjointSet.Connected.{
  Connected, Root-IsSame, Root-unique, rooted, Connected-IsSame, is_connected-Connected,
}
use dsac.DisjointSet.Joining.{Joined-apart, Joined-together, Joined, joined-IsForest}

-- `Union` connects what was connected, and the sets of the two vertices.
pub record IsUnion (v1 v2 : ℕ) (a b : List ℕ) : Type 0 where
  pub forest : IsForest b
  pub width : length b ≡ length a
  pub connected :
      (u w : ℕ) → u < length a → w < length a → Connected b u w ↔ Joined (Connected a) v1 v2 u w

pub Connected-trans : (a : List ℕ) (u v w : ℕ) → Connected a u v → Connected a v w → Connected a u w
Connected-trans a u v w (r, left, mid) (s, mid', right) =
    (r, left, subst (Root a w) (Root-unique a v s r mid' mid) right)

pub Connected-sym : (a : List ℕ) (u v : ℕ) → Connected a u v → Connected a v u
Connected-sym a u v (r, left, right) = (r, right, left)

-- the two vertices were connected
idle : (v1 v2 : ℕ) (a b : List ℕ) → IsForest a → IsSame a b → Connected a v1 v2 → IsUnion v1 v2 a b
idle v1 v2 a b forest same c = record {
  forest = IsSame-IsForest a b same forest;
  width = same.width;
  connected = λ u w ltu ltw.
      let iff = Connected-IsSame a b u w forest ltu ltw same in
      (λ h. inl (iff.0 h), λ j. iff.1 (merge u w j));
}
  where
    merge : (u w : ℕ) → Joined (Connected a) v1 v2 u w → Connected a u w
    merge u w (inl h) = h
    merge u w (inr (inl (h, k))) =
        Connected-trans a u v1 w h (Connected-trans a v1 v2 w c (Connected-sym a w v2 k))
    merge u w (inr (inr (h, k))) =
        Connected-trans a u v2 w h
          (Connected-trans a v2 v1 w (Connected-sym a v1 v2 c) (Connected-sym a w v1 k))

-- vertices that are not connected have other roots
different :
    (c : Bool) (v1 v2 : ℕ) (a b : List ℕ)
    → IsForest a
    → v1 < length a
    → v2 < length a
    → IsSame a b
    → ((c ≡ true) ↔ Connected a v1 v2)
    → c ≡ false
    → (r : ℕ) → Root b v1 r
    → Root b v2 r
    → ⊥
different c v1 v2 a b forest lt1 lt2 same iff no_c r at1 at2 =
    let yes_c = iff.1 ((Connected-IsSame a b v1 v2 forest lt1 lt2 same).0 (r, at1, at2)) in cc

-- what was joined after the ways got shorter
Joined-back :
    (a a2 b : List ℕ) (v1 v2 u w : ℕ)
    → IsForest a
    → v1 < length a
    → v2 < length a
    → u < length a
    → w < length a
    → IsSame a a2
    → (Connected b u w ↔ Joined (Connected a2) v1 v2 u w)
    → Connected b u w ↔ Joined (Connected a) v1 v2 u w
Joined-back a a2 b v1 v2 u w forest lt1 lt2 ltu ltw same iff =
    (λ h. there (iff.0 h), λ j. iff.1 (back j))
  where
    there : Joined (Connected a2) v1 v2 u w → Joined (Connected a) v1 v2 u w
    there (inl h) = inl ((Connected-IsSame a a2 u w forest ltu ltw same).0 h)
    there (inr (inl (h, k))) = inr (
        inl (
          (Connected-IsSame a a2 u v1 forest ltu lt1 same).0 h,
          (Connected-IsSame a a2 w v2 forest ltw lt2 same).0 k,
        ))
    there (inr (inr (h, k))) = inr (
        inr (
          (Connected-IsSame a a2 u v2 forest ltu lt2 same).0 h,
          (Connected-IsSame a a2 w v1 forest ltw lt1 same).0 k,
        ))

    back : Joined (Connected a) v1 v2 u w → Joined (Connected a2) v1 v2 u w
    back (inl h) = inl ((Connected-IsSame a a2 u w forest ltu ltw same).1 h)
    back (inr (inl (h, k))) = inr (
        inl (
          (Connected-IsSame a a2 u v1 forest ltu lt1 same).1 h,
          (Connected-IsSame a a2 w v2 forest ltw lt2 same).1 k,
        ))
    back (inr (inr (h, k))) = inr (
        inr (
          (Connected-IsSame a a2 u v2 forest ltu lt2 same).1 h,
          (Connected-IsSame a a2 w v1 forest ltw lt1 same).1 k,
        ))

pub union-IsUnion :
    (v1 v2 : ℕ) (a : List ℕ)
    → IsForest a
    → v1 < length a
    → v2 < length a
    → (b : List ℕ) × (union v1 v2 a ≡ some (returned tt b)) × IsUnion v1 v2 a b
unfolding union
union-IsUnion v1 v2 a forest lt1 lt2 =
    let (c, a0, run0, iff, same0) = is_connected-Connected a v1 v2 forest lt1 lt2 in
    let forest0 = IsSame-IsForest a a0 same0 forest in
    elim (Bool-cases c) [
      | inl yes_connected ↦
          (a0, rw (run0, yes_connected) refl, idle v1 v2 a a0 forest same0 (iff.0 yes_connected))
      | inr not_connected ↦
          let (r1, a1, run1, root1, same1) = find-Root a0 v1 forest0 (omega (arith, same0.width)) in
          let forest1 = IsSame-IsForest a0 a1 same1 forest0 in
          let (r2, a2, run2, root2, same2) =
            find-Root a1 v2 forest1 (omega (arith, same0.width, same1.width)) in
          let same = IsSame-trans a a0 a2 same0 (IsSame-trans a0 a1 a2 same1 same2) in
          let forest2 = IsSame-IsForest a a2 same forest in
          let at1 : Root a2 v1 r1 =
            Root-IsSame a1 a2 v1 r1 same2 (Root-IsSame a0 a1 v1 r1 same1 root1) in
          let at2 : Root a2 v2 r2 = Root-IsSame a1 a2 v2 r2 same2 root2 in
          let apart : r1 ≢ r2 = λ h.
            different c v1 v2 a a2 forest lt1 lt2 same iff not_connected r1 at1
              (subst (Root a2 v2) (sym h) at2) in
          let e = Reaches-root a2 at1.0 v1 r1 at1.1 in
          let f = Reaches-root a2 at2.0 v2 r2 at2.1 in
          (
            set a2 r2 r1,
            rw (run0, not_connected, run1, run2, write-set a2 r2 r1 (lt_of_get_elem? a2 r2 f)) refl,
            record {
              forest = joined-IsForest a2 r1 r2 e f apart forest2;
              width = length-set a2 r2 r1 ∙ same.width;
              connected = λ u w ltu ltw.
                  Joined-back a a2 (set a2 r2 r1) v1 v2 u w forest lt1 lt2 ltu ltw same (
                    λ h.
                        let (ru, left) = rooted a2 u forest2 (omega (arith, same.width)) in
                        let (rw', right) = rooted a2 w forest2 (omega (arith, same.width)) in
                        Joined-apart a2 r1 r2 e f apart v1 v2 at1 at2 u w ru rw' left right h,
                    Joined-together a2 r1 r2 e f apart v1 v2 at1 at2 u w,
                  );
            },
          )
    ]
