-- ===== src/Cache/Lru.antt =====
-- cache/lru.hpp and cache/detail/lru-inl.hpp. A null pointer or `index_.end()` that is used is the
-- fault `none`.
pub mod Laws
pub mod Put
pub mod Recency
use dsac.Prelude.{ℕ, Bool, true, false, List, [], ◌∷◌, Option, none, some, length, ◌==◌, ◌>>=◌}
use dsac.Cache.Keys.{Equality, pop_back, detach}
use dsac.Cache.Items
use dsac.Cache.Items.{Item}

-- `class lru`
pub record Lru (K V : Type 0) : Type 0 where
  pub capacity : ℕ
  pub cache : List K  -- the keys of the items of `cache_`, from the front
  pub index : List (Item K V)

abbrev pub make : {K V : Type 0} → ℕ → Lru K V
make capacity = record { capacity = capacity; cache = []; index = [] }

module _ {K V : Type 0} (keys : Equality K) where
  unfoldable pub size : Lru K V → ℕ
  size s = length s.index

  unfoldable pub promote : K → Lru K V → Lru K V
  promote key s = record s { cache = key ∷ detach keys key s.cache }

  -- the body of `if (size() == capacity_)`
  unfoldable pub evict : Lru K V → Option (Lru K V)
  evict s = do
    (back, rest) ← pop_back s.cache
    _ ← Items.find keys back s.index
    some (record s { cache = rest; index = Items.erase keys back s.index })

  unfoldable pub make_room : Lru K V → Option (Lru K V)
  unfolding size evict
  make_room s = elim (size s == s.capacity) [ true ↦ evict s | false ↦ some s ]

  unfoldable pub insert : K → V → Lru K V → Lru K V
  insert key value s = record s {
    cache = key ∷ s.cache;
    index = record { key = key; value = value } ∷ s.index;
  }

  unfoldable pub put : K → V → Lru K V → Option (Lru K V)
  unfolding make_room promote insert
  put key value s = elim (Items.find keys key s.index) [
    | some _ ↦ some (promote key s)
    | none ↦ make_room s >>= λ t. some (insert key value t)
  ]

  -- The value that the pointer is to, and the cache with the item promoted.
  unfoldable pub get : K → Lru K V → Option V × Lru K V
  unfolding promote
  get key s = elim (Items.find keys key s.index) [
    | none ↦ (none, s)
    | some value ↦ (some value, promote key s)
  ]

-- A use of the cache, and uses one after the other.
pub data Call (K V : Type 0) : Type 0 where
  call_put : K → V → Call K V
  call_get : K → Call K V

module _ {K V : Type 0} (keys : Equality K) where
  unfoldable pub call : Call K V → Lru K V → Option (Lru K V)
  unfolding put get
  call (call_put key value) s = put keys key value s
  call (call_get key) s = some (get keys key s).1

  unfoldable pub run : List (Call K V) → Lru K V → Option (Lru K V)
  unfolding call
  run [] s = some s
  run (c ∷ cs) s = call c s >>= run cs
