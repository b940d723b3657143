-- ===== src/Bfs.antt =====
-- algorithm/breadth_first_search.hpp. A node is a number, and `edges` gives the nodes at the ends of the edges of
-- `considered->edges`. `none` is a use of a null pointer, or too few rounds: one more than the nodes that may be
-- reached, and for the path one for each node that was.
pub mod Expand
pub mod Queue
pub mod Search
pub mod Path
use dsac.Prelude.{
  ℕ, zero, suc, Bool, true, false, List, [], ◌∷◌, ◌++◌, Option, none, some, length, ◌==◌, ◌>>=◌,
  if◌then◌else◌,
}

-- `processing`, `visited` and `possible_actions`, the last pair first
pub record Queued : Type 0 where
  pub processing : List ℕ
  pub visited : List ℕ
  pub possible_actions : List (ℕ × ℕ)

-- the node of a key in `possible_actions`
unfoldable pub action : ℕ → List (ℕ × ℕ) → Option ℕ
action key [] = none
action key ((k, v) ∷ actions) = if k == key then some v else action key actions

unfoldable pub has : ℕ → List ℕ → Bool
has x [] = false
has x (y ∷ ys) = if y == x then true else has x ys

-- the loop over the edges of `considered`
unfoldable pub expand : ℕ → List ℕ → Queued → Queued
unfolding has
expand considered [] s = s
expand considered (to ∷ tos) s = expand considered tos (
    if has to s.visited then s else record {
      processing = s.processing ++ to ∷ [];
      visited = to ∷ s.visited;
      possible_actions = (to, considered) ∷ s.possible_actions;
    })

abbrev pub is_node : Option ℕ → ℕ → Bool
is_node none x = false
is_node (some d) x = x == d

module _ (edges : ℕ → List ℕ) (destination : Option ℕ) where
  -- the loop over the queue: `found`, and the actions
  unfoldable pub search : ℕ → Queued → Option (Bool × List (ℕ × ℕ))
  unfolding expand
  search zero s = none
  search (suc n) s = elim s.processing [
    | [] ↦ some (false, s.possible_actions)
    | considered ∷ rest ↦
        if is_node destination considered
        then some (true, s.possible_actions)
        else search n (expand considered (edges considered) (record s { processing = rest }))
  ]

-- the loop over the front of the path
unfoldable pub walk_back : ℕ → ℕ → List (ℕ × ℕ) → ℕ → List ℕ → Option (List ℕ)
unfolding action
walk_back zero source actions latest path = none
walk_back (suc n) source actions latest path =
    if latest == source then some (latest ∷ path) else elim (action latest actions) [
      | none ↦ some (latest ∷ path)
      | some before ↦ walk_back n source actions before (latest ∷ path)
    ]

-- what follows the loop over the queue
unfoldable pub finish : ℕ → Option ℕ → Bool × List (ℕ × ℕ) → Option (List ℕ)
unfolding walk_back
finish source destination (false, actions) = some []
finish source none (true, actions) = some []
finish source (some d) (true, actions) = walk_back (length actions) source actions d []

-- The start of `bfs`, and the whole, on what `get_node` gives for the two keys; the hash of a null iterator
-- dereferences it.
abbrev pub start : ℕ → Queued
start source = record {
  processing = source ∷ [];
  visited = source ∷ [];
  possible_actions = (source, source) ∷ [];
}

unfoldable pub bfs : ℕ → (ℕ → List ℕ) → Option ℕ → Option ℕ → Option (List ℕ)
unfolding search finish
bfs size edges none destination = none
bfs size edges (some source) destination =
    search edges destination (suc size) (start source) >>= finish source destination
