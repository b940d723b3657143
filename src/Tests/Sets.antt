-- ===== src/Tests/Sets.antt =====
-- Runs of container/graph/disjoint_set_union.*.
use dsac.Prelude.{ℕ, ◌<◌, ◌≡◌, ◌↔◌, refl, Bool, true, List, [], ◌∷◌, some, arith}
use dsac.Prelude.Arrays.{write}
use dsac.DisjointSet.{make, is_connected, find, returned, out_of_range}
use dsac.DisjointSet.Run.{union_all, HasPair, Linked, union_all-Linked}

abbrev pairs : List (ℕ × ℕ)
pairs = (0, 1) ∷ (2, 3) ∷ (1, 3) ∷ []

union_all-pairs : union_all pairs (make 5) ≡ some (returned tt (0 ∷ 0 ∷ 0 ∷ 2 ∷ 4 ∷ []))
unfolding union_all make write
union_all-pairs = refl

find_compresses : find 3 (0 ∷ 0 ∷ 0 ∷ 2 ∷ 4 ∷ []) ≡ some (returned 0 (0 ∷ 0 ∷ 0 ∷ 0 ∷ 4 ∷ []))
unfolding find write
find_compresses = refl

find_outside : find 5 (make 5) ≡ some out_of_range
unfolding find make
find_outside = refl

pairs_inside : (u w : ℕ) → HasPair u w pairs → (u < 5) × (w < 5)
pairs_inside u w h = ground arith

union_all-Linked_example :
    (b : List ℕ) × (union_all pairs (make 5) ≡ some (returned tt b))
    × ((u w : ℕ)
        → u < 5
        → w < 5
        → (c : Bool) × (b' : List ℕ) × (is_connected u w b ≡ some (returned c b'))
          × ((c ≡ true) ↔ Linked 5 pairs u w))
union_all-Linked_example = union_all-Linked 5 pairs pairs_inside
