-- ===== src/Tests/Tables.antt =====
-- Runs of container/hash/hashtable.hpp.
use dsac.Prelude.{ℕ, ◌+◌, ◌*◌, ◌≡◌, refl, List, [], ◌∷◌, none, some, arith, length, ◌==◌, Returns}
use dsac.Prelude.Arrays.{write}
use dsac.Cache.Keys.{Equality}
use dsac.HashTable.{HashTable, make, get_node, rehash, get_value, contains}
use dsac.HashTable.Chain.{is_some}
use dsac.HashTable.Buckets.{IsValid, view}
use dsac.HashTable.Run.{Update, call_insert, call_remove, run, map_run, run-reads}
use dsac.HashTable.Rehash.{rehash-IsMoved, count}

abbrev equal_numbers : Equality ℕ
equal_numbers = record { equal = ◌==◌; equal_refl = ground arith; equal→≡ = ground arith }

-- the hash of a number is the number
abbrev hash_number : ℕ → ℕ
hash_number key = key

-- 1, 9 and 17 fall on one entry
abbrev updates : List (Update ℕ ℕ)
updates =
    call_insert 1 10 ∷ call_insert 9 20 ∷ call_insert 17 30 ∷ call_insert 9 21 ∷ call_remove 1 ∷ []

run-updates :
    run hash_number equal_numbers updates make
    ≡ some (record {
      buffer_size = 2;
      hashtable = [] ∷ ((9, 21) ∷ (17, 30) ∷ []) ∷ [] ∷ [] ∷ [] ∷ [] ∷ [] ∷ [] ∷ [];
    })
unfolding run write
run-updates = refl

-- With eight keys the table grows at the eighth call, and it counts seven nodes a second time.
abbrev growing : List (Update ℕ ℕ)
growing =
    call_insert 0 0
    ∷ call_insert 1 1
    ∷ call_insert 2 2
    ∷ call_insert 3 3
    ∷ call_insert 4 4
    ∷ call_insert 5 5
    ∷ call_insert 6 6
    ∷ call_insert 7 7
    ∷ []

run-growing :
    run hash_number equal_numbers growing make
    ≡ some (record {
      buffer_size = 15;
      hashtable =
          ((0, 0) ∷ [])
          ∷ ((1, 1) ∷ [])
          ∷ ((2, 2) ∷ [])
          ∷ ((3, 3) ∷ [])
          ∷ ((4, 4) ∷ [])
          ∷ ((5, 5) ∷ [])
          ∷ ((6, 6) ∷ [])
          ∷ ((7, 7) ∷ [])
          ∷ []
          ∷ []
          ∷ []
          ∷ []
          ∷ []
          ∷ []
          ∷ []
          ∷ []
          ∷ [];
    })
unfolding run write
run-growing = refl

run-reads_example : Returns (run hash_number equal_numbers updates make) (λ t.
    (q : ℕ)
    → (get_value hash_number equal_numbers q t ≡ some (map_run equal_numbers updates (λ k. none) q))
      × (contains hash_number equal_numbers q t
          ≡ some (is_some (map_run equal_numbers updates (λ k. none) q))))
run-reads_example = run-reads hash_number equal_numbers updates

-- a table with one node, where the key 9 belongs
abbrev one_node : HashTable ℕ ℕ
one_node = record {
  buffer_size = 1;
  hashtable = [] ∷ ((9, 20) ∷ []) ∷ [] ∷ [] ∷ [] ∷ [] ∷ [] ∷ [] ∷ [];
}

one_node-IsValid : IsValid hash_number equal_numbers one_node
unfolding get_node
one_node-IsValid = record {
  some_bucket = omega arith;
  placed = (
    (tt, tt),
    (
      ((refl, tt), (refl, tt)),
      ((tt, tt), ((tt, tt), ((tt, tt), ((tt, tt), ((tt, tt), ((tt, tt), tt)))))),
    ),
  );
}

rehash-IsMoved_example : Returns (rehash hash_number equal_numbers one_node) (λ t'.
    IsValid hash_number equal_numbers t'
    × (length t'.hashtable ≡ length one_node.hashtable * 2)
    × ((q : ℕ)
        → view hash_number equal_numbers t'.hashtable q
          ≡ view hash_number equal_numbers one_node.hashtable q)
    × (t'.buffer_size ≡ one_node.buffer_size + count one_node.hashtable))
rehash-IsMoved_example = rehash-IsMoved hash_number equal_numbers one_node one_node-IsValid
