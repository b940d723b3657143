-- ===== src/Bfs/Path.antt =====
-- algorithm/breadth_first_search.hpp: the path that `bfs` returns.
use dsac.Prelude.{
  ℕ, zero, suc, ◌≤◌, ◌<◌, ◌≡◌, ◌⊎◌, inl, inr, refl, sym, ◌∙◌, subst, Bool, true, false, List, [],
  ◌∷◌, Option, some, arith, length, ◌==◌, Bool-cases, ◌>>=◌,
}
use dsac.Bfs.{action, has, is_node, search, walk_back, finish, start, bfs}
use dsac.Bfs.Expand.{has-cons, unseen-cons, unseen-le, has_key, IsChain}
use dsac.Bfs.Queue.{IsQueued, IsDone}
use dsac.Bfs.Search.{IsFound, search-IsFound}

module _ (edges : ℕ → List ℕ) where
  -- an edge leads from `x` to the first node, and on to `d`
  abbrev pub Leads : ℕ → List ℕ → ℕ → Type 0
  Leads x [] d = x ≡ d
  Leads x (y ∷ ys) d = (has y (edges x) ≡ true) × Leads y ys d

  -- a path along edges from the first node to the last
  abbrev pub IsPath : ℕ → ℕ → List ℕ → Type 0
  IsPath source d [] = ⊥
  IsPath source d (x ∷ xs) = (x ≡ source) × Leads x xs d

  pub data Reaches (x : ℕ) : ℕ → Type 0 where
    here : Reaches x x
    follow : (y z : ℕ) → Reaches x y → has z (edges y) ≡ true → Reaches x z

module _ (edges : ℕ → List ℕ) (source : ℕ) where
  -- `b` answers as `actions` for the keys of `actions`
  abbrev Agrees : List (ℕ × ℕ) → List (ℕ × ℕ) → Type 0
  Agrees actions b = (y : ℕ) → has_key y actions ≡ true → action y b ≡ action y actions

  Agrees-tail :
      (k v : ℕ) (actions b : List (ℕ × ℕ))
      → has_key k actions ≡ false
      → Agrees ((k, v) ∷ actions) b
      → Agrees actions b
  unfolding action
  Agrees-tail k v actions b new agrees y q =
      let other : k == y ≡ false = apart (Bool-cases (k == y)) in
      agrees y (rw other q) ∙ rw (other, action) refl
    where
      apart : (k == y ≡ true) ⊎ (k == y ≡ false) → k == y ≡ false
      apart (inl e) =
          let same : k ≡ y = ground (arith, e) in
          absurd (clash (subst (λ z. has_key z actions ≡ false) same new) q)
        where
          clash : has_key y actions ≡ false → has_key y actions ≡ true → ⊥
          clash f t = ground (arith, f, t)
      apart (inr e) = e

  walk_back-IsPath :
      (actions b : List (ℕ × ℕ)) (x d : ℕ) (path : List ℕ) (k : ℕ)
      → IsChain edges source actions
      → Agrees actions b
      → has_key x actions ≡ true
      → Leads edges x path d
      → length actions ≤ k
      → (p : List ℕ) × (walk_back k source b x path ≡ some p) × IsPath edges source d p
  unfolding walk_back action
  walk_back-IsPath [] b x d path k chain agrees key leads le = absurd chain
  walk_back-IsPath (a ∷ actions) b x d path zero chain agrees key leads le = absurd (omega arith)
  walk_back-IsPath ((k0, v) ∷ []) b x d path (suc k) (ek, ev) agrees key leads le =
      let same : x ≡ source = ground (arith, key, ek) in
      let at : x == source ≡ true = ground (arith, same) in (x ∷ path, rw at refl, (same, leads))
  walk_back-IsPath ((k0, v) ∷ (a ∷ actions)) b x d path (suc k) (new, old, there, chain) agrees key
        leads le =
      elim (Bool-cases (x == source)) [
        | inl e ↦ (x ∷ path, rw e refl, (ground (arith, e), leads))
        | inr e ↦ elim (Bool-cases (k0 == x)) [
          | inl f ↦
              let same : k0 ≡ x = ground (arith, f) in
              let at : action x b ≡ some v = agrees x key ∙ rw (f, action) refl in
              let (p, runs, is_path) =
                walk_back-IsPath (a ∷ actions) b v d (x ∷ path) k chain
                  (Agrees-tail k0 v (a ∷ actions) b new agrees) old
                  (subst (λ z. has z (edges v) ≡ true) same there, leads) (omega arith) in
              (p, rw (e, at) runs, is_path)
          | inr f ↦
              walk_back-IsPath (a ∷ actions) b x d path (suc k) chain
                (Agrees-tail k0 v (a ∷ actions) b new agrees) (ground (arith, key, f)) leads
                (omega arith)
        ]
      ]

  -- all nodes that the source reaches were visited
  Reaches-visited :
      (destination : Option ℕ) (n : ℕ) (visited : List ℕ) (x : ℕ)
      → has source visited ≡ true
      → ((y : ℕ) → has y visited ≡ true → IsDone n edges source destination y visited)
      → Reaches edges source x
      → has x visited ≡ true
  Reaches-visited destination n visited x seen all here = seen
  Reaches-visited destination n visited x seen all (follow y z way there) =
      (all y (Reaches-visited destination n visited y seen all way)).1 z there

nowhere : (x : ℕ) → has x [] ≡ false
unfolding has
nowhere x = refl

start-IsQueued :
    (n : ℕ) (edges : ℕ → List ℕ) (source : ℕ) (destination : Option ℕ)
    → source < n
    → IsQueued n edges source destination (λ x. ⊥) (start source)
start-IsQueued n edges source destination lt = record {
  chain = (refl, refl);
  keys = λ x. ground (arith, has-cons x source [], nowhere x);
  queued = λ x q. q;
  below = λ x q. ground (arith, has-cons x source [], q, nowhere x);
  closed = λ x q. inl q;
}

-- what `finish` makes of the search
finished :
    (n : ℕ) (edges : ℕ → List ℕ) (source d : ℕ) (r : Option (Bool × List (ℕ × ℕ)))
    → IsFound n edges source (some d) r
    → (path : List ℕ) × ((r >>= finish source (some d)) ≡ some path)
      × (IsPath edges source d path ⊎ ((path ≡ []) × ¬ Reaches edges source d))
unfolding finish
finished n edges source d r (inl (d', actions, same, e, chain, key)) =
    let one : d ≡ d' = ground (arith, same) in
    let (path, runs, is_path) =
      walk_back-IsPath edges source actions actions d d [] (length actions) chain (λ y q. refl)
        (subst (λ k. has_key k actions ≡ true) (sym one) key) refl (omega arith) in
    (path, rw e runs, inl is_path)
finished n edges source d r (inr (actions, visited, e, seen, all)) = (
  [],
  rw e refl,
  inr (
    refl,
    λ way.
        let (other, followed) =
          all d (Reaches-visited edges source (some d) n visited d seen all way) in
        absurd (itself other),
  ),
)
  where
    itself : is_node (some d) d ≡ false → ⊥
    itself other = ground (arith, other)

-- In a graph of `size` nodes, `bfs` from a node to another ends, with a path along edges from the one to the
-- other, or with the empty path where no path leads there.
pub bfs_finds :
    (size : ℕ) (edges : ℕ → List ℕ) (source d : ℕ)
    → source < size
    → ((x y : ℕ) → has y (edges x) ≡ true → y < size)
    → (path : List ℕ) × (bfs size edges (some source) (some d) ≡ some path)
      × (IsPath edges source d path ⊎ ((path ≡ []) × ¬ Reaches edges source d))
unfolding bfs finish
bfs_finds size edges source d lt inside =
    finished size edges source d (search edges (some d) (suc size) (start source)) (
      search-IsFound size edges source (some d) (suc size) (start source) inside
        (start-IsQueued size edges source (some d) lt) (has-cons source source [] ∙ ground arith)
        (omega (arith, unseen-cons size source [] lt (nowhere source), unseen-le size [])))
