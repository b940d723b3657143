-- ===== src/Cache/LruK.antt =====
-- cache/lru-k.hpp and cache/detail/lru-k-inl.hpp: a history of the keys used once, and a buffer of the
-- keys used again. A null pointer that is used is the fault `none`.
pub mod Laws
pub mod Moves
pub mod Put
pub mod Run
use dsac.Prelude.{
  ℕ, ◌+◌, ◌-◌, ◌%◌, ◌^◌, Bool, true, false, List, [], ◌∷◌, Option, none, some, length, ◌==◌, ◌>>=◌,
}
use dsac.Cache.Keys.{Equality, pop_back, detach}
use dsac.Cache.Items
use dsac.Cache.Items.{Item}

-- `class lru_k`
pub record LruK (K V : Type 0) : Type 0 where
  pub capacity : ℕ
  pub k : ℕ
  pub history_cache : List K  -- the keys of the items, from the front
  pub history_index : List (Item K V)
  pub buffer_cache : List K
  pub buffer_index : List (Item K V)

abbrev pub make : {K V : Type 0} → ℕ → ℕ → LruK K V
make capacity k = record {
  capacity = capacity;
  k = k;
  history_cache = [];
  history_index = [];
  buffer_cache = [];
  buffer_index = [];
}

-- `a - b` of the type size_t
abbrev pub minus : ℕ → ℕ → ℕ
minus a b = (a + 2 ^ 64 - b % 2 ^ 64) % 2 ^ 64

module _ {K V : Type 0} (keys : Equality K) where
  unfoldable pub size : LruK K V → ℕ
  size s = length s.history_index + length s.buffer_index

  -- `promote`, of an item of the buffer
  unfoldable pub promote : K → LruK K V → LruK K V
  promote key s = record s { buffer_cache = key ∷ detach keys key s.buffer_cache }

  unfoldable pub move_to_buffer : K → V → LruK K V → LruK K V
  move_to_buffer key value s = record s {
    history_cache = detach keys key s.history_cache;
    history_index = Items.erase keys key s.history_index;
    buffer_cache = key ∷ s.buffer_cache;
    buffer_index = record { key = key; value = value } ∷ s.buffer_index;
  }

  unfoldable pub pop_history : LruK K V → Option (LruK K V)
  pop_history s = do
    (back, rest) ← pop_back s.history_cache
    some (record s { history_cache = rest; history_index = Items.erase keys back s.history_index })

  unfoldable pub pop_at_history_cache_while_overflow : LruK K V → Option (LruK K V)
  unfolding pop_history
  pop_at_history_cache_while_overflow s =
      elim (minus (minus s.capacity (length s.history_index)) (length s.buffer_index) == 0) [
        | true ↦ pop_history s
        | false ↦ some s
      ]

  unfoldable pub pop_buffer : LruK K V → Option (LruK K V)
  pop_buffer s = do
    (back, rest) ← pop_back s.buffer_cache
    some (record s { buffer_cache = rest; buffer_index = Items.erase keys back s.buffer_index })

  unfoldable pub pop_at_buffer_cache_while_overflow : LruK K V → Option (LruK K V)
  unfolding pop_buffer
  pop_at_buffer_cache_while_overflow s = elim (minus s.k (length s.buffer_index) == 0) [
    | true ↦ pop_buffer s
    | false ↦ some s
  ]

  unfoldable pub insert : K → V → LruK K V → LruK K V
  insert key value s = record s {
    history_cache = key ∷ s.history_cache;
    history_index = record { key = key; value = value } ∷ s.history_index;
  }

  unfoldable pub put : K → V → LruK K V → Option (LruK K V)
  unfolding promote move_to_buffer insert pop_at_history_cache_while_overflow
      pop_at_buffer_cache_while_overflow
  put key value s = elim (Items.find keys key s.history_index) [
    | some old ↦ pop_at_buffer_cache_while_overflow s >>= λ t. some (move_to_buffer key old t)
    | none ↦ elim (Items.find keys key s.buffer_index) [
      | some _ ↦ some (promote key s)
      | none ↦ pop_at_history_cache_while_overflow s >>= λ t. some (insert key value t)
    ]
  ]

  -- The value that the pointer is to, and the cache.
  unfoldable pub get : K → LruK K V → Option V × LruK K V
  unfolding promote move_to_buffer
  get key s = elim (Items.find keys key s.history_index) [
    | some value ↦ (some value, move_to_buffer key value s)
    | none ↦ elim (Items.find keys key s.buffer_index) [
      | some value ↦ (some value, promote key s)
      | none ↦ (none, s)
    ]
  ]

  unfoldable pub put_all : List (K × V) → LruK K V → Option (LruK K V)
  unfolding put
  put_all [] s = some s
  put_all ((key, value) ∷ rest) s = put key value s >>= put_all rest
