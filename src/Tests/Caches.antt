-- ===== src/Tests/Caches.antt =====
-- The caches of cache/ and the intrusive list that they use, on concrete calls.
use dsac.Prelude.{
  ℕ, ◌≡◌, ◌≤◌, ◌==◌, refl, true, false, List, [], ◌∷◌, none, some, arith, length, Returns, take,
  ◌>>=◌,
}
use dsac.Cache.Keys.{Equality, mem, pop_back, detach}
use dsac.Cache.Items
use dsac.Cache.Items.{Item, keys_of}
use dsac.Cache.Lru
use dsac.Cache.Lru.{Lru, Call, call_put, call_get}
use dsac.Cache.Lru.Put.{used}
use dsac.Cache.Lru.Recency.{run_recent, use_all}
use dsac.Cache.LruK
use dsac.Cache.LruK.{LruK}
use dsac.Cache.LruK.Put.{IsMoved, put-IsMoved}
use dsac.Cache.LruK.Run.{make-IsBounded, put_all_bounded, put_no_history}

abbrev numbers : Equality ℕ
numbers = record { equal = ◌==◌; equal_refl = ground arith; equal→≡ = ground arith }

program : Unit {0}
unfolding Lru.run LruK.put_all LruK.get Items.find Items.erase mem pop_back detach used use_all
program = tt

-- the caches below hold numbers
abbrev empty_lru : ℕ → Lru ℕ ℕ
empty_lru capacity = Lru.make capacity

abbrev empty_lru_k : ℕ → ℕ → LruK ℕ ℕ
empty_lru_k capacity k = LruK.make capacity k

abbrev calls : List (Call ℕ ℕ)
calls = call_put 1 10 ∷ call_put 2 20 ∷ call_get 1 ∷ call_put 3 30 ∷ call_get 2 ∷ call_put 1 11 ∷ []

-- The key 2 is dropped, and the value of 1 stays.
run_calls :
    Lru.run numbers calls (empty_lru 2)
    ≡ some (record {
      capacity = 2;
      cache = 1 ∷ 3 ∷ [];
      index = record { key = 3; value = 30 } ∷ record { key = 1; value = 10 } ∷ [];
    })
unfolding program
run_calls = refl

-- A cache of capacity 0 uses a null pointer.
put_capacity_zero : Lru.put numbers 1 10 (empty_lru 0) ≡ none
unfolding program
put_capacity_zero = refl

run_recent_example :
    Returns
      (Lru.run numbers calls (empty_lru 2))
      (λ t. (t.cache ≡ take 2 (use_all numbers 2 calls [])) × (Lru.size numbers t ≤ 2))
run_recent_example = run_recent numbers 2 calls (omega arith)

put-IsMoved_example :
    Returns (LruK.put numbers 1 10 (empty_lru_k 3 2)) (IsMoved numbers 1 (empty_lru_k 3 2))
put-IsMoved_example =
    put-IsMoved numbers 1 10 (empty_lru_k 3 2)
      (make-IsBounded numbers 3 2 (omega arith) (omega arith) (omega arith))

abbrev entries : List (ℕ × ℕ)
entries = (1, 10) ∷ (2, 20) ∷ (3, 30) ∷ (1, 11) ∷ (4, 40) ∷ []

put_all_run :
    LruK.put_all numbers entries (empty_lru_k 3 2)
    ≡ some (record {
      capacity = 3;
      k = 2;
      history_cache = 4 ∷ 3 ∷ [];
      history_index = record { key = 4; value = 40 } ∷ record { key = 3; value = 30 } ∷ [];
      buffer_cache = 1 ∷ [];
      buffer_index = record { key = 1; value = 10 } ∷ [];
    })
unfolding program
put_all_run = refl

put_all_bounded_example : Returns (LruK.put_all numbers entries (empty_lru_k 3 2)) (λ t.
    (LruK.size numbers t ≤ 3)
    × (length t.buffer_index ≤ 2)
    × ((key : ℕ) → mem numbers key t.history_cache ≡ true → mem numbers key t.buffer_cache ≡ false))
put_all_bounded_example =
    put_all_bounded numbers 3 2 entries (omega arith) (omega arith) (omega arith)

-- Three keys are put and then got.
abbrev all_got : LruK ℕ ℕ
all_got = record {
  capacity = 3;
  k = 2;
  history_cache = [];
  history_index = [];
  buffer_cache = 3 ∷ 2 ∷ 1 ∷ [];
  buffer_index =
      record { key = 3; value = 30 }
      ∷ record { key = 2; value = 20 }
      ∷ record { key = 1; value = 10 }
      ∷ [];
}

all_got_run :
    (LruK.put_all numbers ((1, 10) ∷ (2, 20) ∷ (3, 30) ∷ []) (empty_lru_k 3 2) >>= λ s.
    some (LruK.get numbers 3 (LruK.get numbers 2 (LruK.get numbers 1 s).1).1).1)
    ≡ some all_got
unfolding program
all_got_run = refl

is_new : mem numbers 4 (keys_of all_got.buffer_index) ≡ false
unfolding mem
is_new = refl

put_no_history_example : LruK.put numbers 4 40 all_got ≡ none
put_no_history_example = put_no_history numbers 4 40 all_got refl refl refl (omega arith) is_new
