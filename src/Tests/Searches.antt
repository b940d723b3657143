-- ===== src/Tests/Searches.antt =====
-- Runs of algorithm/breadth_first_search.hpp.
use dsac.Prelude.{ℕ, zero, suc, ◌<◌, ◌≡◌, ◌⊎◌, refl, true, List, [], ◌∷◌, none, some, arith}
use dsac.Bfs.{has, bfs}
use dsac.Bfs.Path.{IsPath, Reaches, bfs_finds}

-- 0 -> 1, 2; 1 -> 3; 2 -> 3; 3 -> 4; nothing leads to 5
abbrev diamond : ℕ → List ℕ
diamond zero = 1 ∷ 2 ∷ []
diamond (suc zero) = 3 ∷ []
diamond (suc (suc zero)) = 3 ∷ []
diamond (suc (suc (suc zero))) = 4 ∷ []
diamond (suc (suc (suc (suc x)))) = []

bfs-diamond : bfs 6 diamond (some 0) (some 4) ≡ some (0 ∷ 1 ∷ 3 ∷ 4 ∷ [])
unfolding bfs
bfs-diamond = refl

bfs_unreached : bfs 6 diamond (some 0) (some 5) ≡ some []
unfolding bfs
bfs_unreached = refl

bfs_no_source : bfs 6 diamond none (some 0) ≡ none
unfolding bfs
bfs_no_source = refl

diamond_inside : (x y : ℕ) → has y (diamond x) ≡ true → y < 6
unfolding has
diamond_inside zero y h = ground arith
diamond_inside (suc zero) y h = ground arith
diamond_inside (suc (suc zero)) y h = ground arith
diamond_inside (suc (suc (suc zero))) y h = ground arith
diamond_inside (suc (suc (suc (suc x)))) y h = ground arith

bfs_finds_example :
    (path : List ℕ) × (bfs 6 diamond (some 0) (some 4) ≡ some path)
    × (IsPath diamond 0 4 path ⊎ ((path ≡ []) × ¬ Reaches diamond 0 4))
bfs_finds_example = bfs_finds 6 diamond 0 4 (omega arith) diamond_inside
