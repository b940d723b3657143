-- ===== src/DisjointSet/Run.antt =====
-- container/graph/disjoint_set_union.*: a new system of sets after any calls of `Union`.
use dsac.Prelude.{
  ℕ, zero, suc, ◌+◌, ◌<◌, ◌≡◌, ◌⊎◌, ◌↔◌, inl, inr, refl, sym, ap, ◌∙◌, subst, Bool, true, List, [],
  ◌∷◌, Option, some, arith, length, get_elem?,
}
use dsac.Prelude.Arrays.{lt_of_get_elem?}
use dsac.DisjointSet.{from, make, is_connected, union, Answer, returned, on_answer}
use dsac.DisjointSet.Forest.{Reaches, Reaches-lt, IsForest}
use dsac.DisjointSet.Connected.{Connected, is_connected-Connected, rooted}
use dsac.DisjointSet.Joining.{Joined}
use dsac.DisjointSet.Union.{union-IsUnion, Connected-trans, Connected-sym}

-- calls of `Union`, one after the other
unfoldable pub union_all : List (ℕ × ℕ) → List ℕ → Option (Answer (Unit {0}))
unfolding union
union_all [] parents = some (returned tt parents)
union_all ((v1, v2) ∷ pairs) parents =
    on_answer (union v1 v2 parents) λ done parents'. union_all pairs parents'

abbrev pub HasPair : ℕ → ℕ → List (ℕ × ℕ) → Type 0
HasPair u w [] = ⊥
HasPair u w ((v1, v2) ∷ pairs) = ((u ≡ v1) × (w ≡ v2)) ⊎ HasPair u w pairs

-- the least equivalence of the vertices below `n` that holds of the pairs
pub data Linked (n : ℕ) (pairs : List (ℕ × ℕ)) : ℕ → ℕ → Type 0 where
  link : (u w : ℕ) → HasPair u w pairs → Linked n pairs u w
  same : (u : ℕ) → u < n → Linked n pairs u u
  back : (u w : ℕ) → Linked n pairs u w → Linked n pairs w u
  chain : (u v w : ℕ) → Linked n pairs u v → Linked n pairs v w → Linked n pairs u w

get_elem?-from : (n i j : ℕ) → j < n → get_elem? (from n i) j ≡ some (i + j)
get_elem?-from zero i j h = absurd (omega arith)
get_elem?-from (suc n) i zero h = ap some (omega arith)
get_elem?-from (suc n) i (suc j) h =
    get_elem?-from n (suc i) j (omega arith) ∙ ap some (omega arith)

length-from : (n i : ℕ) → length (from n i) ≡ n
length-from zero i = refl
length-from (suc n) i = ap suc (length-from n (suc i))

make_root : (n v : ℕ) → v < n → get_elem? (make n) v ≡ some v
unfolding make
make_root n v h = get_elem?-from n 0 v h ∙ ap some (omega arith)

length-make : (n : ℕ) → length (make n) ≡ n
unfolding make
length-make n = length-from n 0

make-IsForest : (n : ℕ) → IsForest (make n)
make-IsForest n v lt = (v, 0, omega arith, (refl, make_root n v (omega (arith, length-make n))))

make-alone : (n k u r : ℕ) → Reaches (make n) k u r → u ≡ r
make-alone n zero u r (e, f) = e
make-alone n (suc k) u r (p, e, ne, rest) =
    let at = make_root n u (omega (arith, length-make n, lt_of_get_elem? (make n) u e)) in
    absurd (ne (grind arith))

-- What holds after calls for the pairs `rest`, in a row of calls for `pairs`.
module _ (n : ℕ) (pairs : List (ℕ × ℕ)) where
  abbrev Within : List (ℕ × ℕ) → Type 0
  Within rest = (u w : ℕ) → HasPair u w rest → HasPair u w pairs × (u < n) × (w < n)

  record IsRun (rest : List (ℕ × ℕ)) (a b : List ℕ) : Type 0 where
    forest : IsForest b
    width : length b ≡ n
    sound : (u w : ℕ) → Connected b u w → Linked n pairs u w
    kept : (u w : ℕ) → Connected a u w → Connected b u w
    linked : (u w : ℕ) → HasPair u w rest → Connected b u w

  sound_join :
      (v1 v2 u w : ℕ) (a : List ℕ)
      → ((u w : ℕ) → Connected a u w → Linked n pairs u w)
      → HasPair v1 v2 pairs
      → Joined (Connected a) v1 v2 u w
      → Linked n pairs u w
  sound_join v1 v2 u w a sound p (inl h) = sound u w h
  sound_join v1 v2 u w a sound p (inr (inl (h, k))) =
      chain u v1 w (sound u v1 h) (chain v1 v2 w (link v1 v2 p) (back w v2 (sound w v2 k)))
  sound_join v1 v2 u w a sound p (inr (inr (h, k))) =
      chain u v2 w (sound u v2 h)
        (chain v2 v1 w (back v1 v2 (link v1 v2 p)) (back w v1 (sound w v1 k)))

  Connected-lt : (a : List ℕ) (u w : ℕ) → Connected a u w → (u < length a) × (w < length a)
  Connected-lt a u w (r, (k, left), (l, right)) =
      (Reaches-lt a k u r left, Reaches-lt a l w r right)

  union_all-IsRun :
      (rest : List (ℕ × ℕ)) (a : List ℕ)
      → Within rest
      → IsForest a
      → length a ≡ n
      → ((u w : ℕ) → Connected a u w → Linked n pairs u w)
      → (b : List ℕ) × (union_all rest a ≡ some (returned tt b)) × IsRun rest a b
  unfolding union_all
  union_all-IsRun [] a within forest width sound = (
    a,
    refl,
    record {
      forest = forest;
      width = width;
      sound = sound;
      kept = λ u w h. h;
      linked = λ u w h. absurd h;
    },
  )
  union_all-IsRun ((v1, v2) ∷ rest) a within forest width sound =
      let (p, lt1, lt2) = within v1 v2 (inl (refl, refl)) in
      let (a1, run1, un) = union-IsUnion v1 v2 a forest (omega arith) (omega arith) in
      let sound1 = λ (u w : ℕ) (h : Connected a1 u w).
        let (ltu, ltw) = Connected-lt a1 u w h in
        sound_join v1 v2 u w a sound p
          ((un.connected u w (omega (arith, un.width)) (omega (arith, un.width))).0 h) in
      let (b, run2, run) =
        union_all-IsRun rest a1 (λ u w h. within u w (inr h)) un.forest (un.width ∙ width) sound1 in
      let kept1 = λ (u w : ℕ) (h : Connected a u w).
        let (ltu, ltw) = Connected-lt a u w h in (un.connected u w ltu ltw).1 (inl h) in
      let (r1, root1) = rooted a v1 forest (omega arith) in
      let (r2, root2) = rooted a v2 forest (omega arith) in
      let new : Connected a1 v1 v2 =
        (un.connected v1 v2 (omega arith) (omega arith)).1
          (inr (inl ((r1, root1, root1), (r2, root2, root2)))) in
      (
        b,
        rw run1 run2,
        record {
          forest = run.forest;
          width = run.width;
          sound = run.sound;
          kept = λ u w h. run.kept u w (kept1 u w h);
          linked = λ u w h. pair u w v1 v2 rest b h (run.kept v1 v2 new) (run.linked u w);
        },
      )
    where
      pair :
          (u w v1 v2 : ℕ) (rest : List (ℕ × ℕ)) (b : List ℕ)
          → HasPair u w ((v1, v2) ∷ rest)
          → Connected b v1 v2
          → (HasPair u w rest → Connected b u w)
          → Connected b u w
      pair u w v1 v2 rest b (inl (eu, ew)) new old = rw (eu, ew) new
      pair u w v1 v2 rest b (inr h) new old = old h

  Linked-Connected :
      (b : List ℕ) (u w : ℕ)
      → IsForest b
      → length b ≡ n
      → ((u w : ℕ) → HasPair u w pairs → Connected b u w)
      → Linked n pairs u w
      → Connected b u w
  Linked-Connected b u w forest width linked (link _ _ p) = linked u w p
  Linked-Connected b u w forest width linked (same _ lt) =
      let (r, root) = rooted b u forest (omega arith) in (r, root, root)
  Linked-Connected b u w forest width linked (back v _ h) =
      Connected-sym b v u (Linked-Connected b v u forest width linked h)
  Linked-Connected b u w forest width linked (chain _ v _ h k) =
      Connected-trans b u v w (Linked-Connected b u v forest width linked h)
        (Linked-Connected b v w forest width linked k)

alone : (n : ℕ) (pairs : List (ℕ × ℕ)) (u w : ℕ) → Connected (make n) u w → Linked n pairs u w
alone n pairs u w (r, (k, left), (l, right)) =
    let eu : u ≡ r = make-alone n k u r left in
    let ew : w ≡ r = make-alone n l w r right in
    subst (Linked n pairs u) (eu ∙ sym ew)
      (same u (omega (arith, Reaches-lt (make n) k u r left, length-make n)))

-- A new system of `n` sets, after any calls of `Union` with vertices below `n`: no call throws, and then
-- `IsConnected` of two vertices answers true exactly when a chain of the pairs that were joined links them.
pub union_all-Linked :
    (n : ℕ) (pairs : List (ℕ × ℕ))
    → ((u w : ℕ) → HasPair u w pairs → (u < n) × (w < n))
    → (b : List ℕ) × (union_all pairs (make n) ≡ some (returned tt b))
      × ((u w : ℕ)
          → u < n
          → w < n
          → (c : Bool) × (b' : List ℕ) × (is_connected u w b ≡ some (returned c b'))
            × ((c ≡ true) ↔ Linked n pairs u w))
union_all-Linked n pairs within =
    let (b, returns, run) =
      union_all-IsRun n pairs pairs (make n)
        (λ u w h. let (ltu, ltw) = within u w h in (h, ltu, ltw)) (make-IsForest n) (length-make n)
        (alone n pairs) in
    (
      b,
      returns,
      λ u w ltu ltw.
          let (c, b', answer, iff, kept) =
            is_connected-Connected b u w run.forest (omega (arith, run.width))
              (omega (arith, run.width)) in
          (
            c,
            b',
            answer,
            (
              λ h. run.sound u w (iff.0 h),
              λ h. iff.1 (Linked-Connected n pairs b u w run.forest run.width run.linked h),
            ),
          ),
    )
