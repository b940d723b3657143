-- ===== src/HashTable.antt =====
-- container/hash/hashtable.hpp. A chain of nodes is the list of their keys and values. `none` is an access
-- outside the vector. `hash` is `Hash`, and `keys` the equality of keys.
pub mod Chain
pub mod Buckets
pub mod Rehash
pub mod Run
use dsac.Prelude.{
  ℕ, zero, suc, ◌+◌, ◌-◌, ◌*◌, ◌%◌, Bool, true, false, List, [], ◌∷◌, ◌++◌, Option, none, some,
  length, get_elem?, ltb, ◌>>=◌, if◌then◌else◌,
}
use dsac.Prelude.Arrays.{write}
use dsac.Cache.Keys.{Equality}

-- the nodes that hang on one entry of the vector
abbrev pub Bucket : Type 0 → Type 0 → Type 0
Bucket K V = List (K × V)

pub record HashTable (K V : Type 0) : Type 0 where
  pub buffer_size : ℕ
  pub hashtable : List (Bucket K V)

module _ {K V : Type 0} where
  abbrev pub empties : ℕ → List (Bucket K V)
  empties zero = []
  empties (suc n) = [] ∷ empties n

  -- `default_size_` is 8
  abbrev pub make : HashTable K V
  make = record { buffer_size = 0; hashtable = empties 8 }

module _ {K V : Type 0} (keys : Equality K) where
  -- the loop of `Contains`
  unfoldable pub contains_node : K → Bucket K V → Bool
  contains_node key [] = false
  contains_node key ((k, v) ∷ nodes) = if keys.equal k key then true else contains_node key nodes

  -- the loop of `GetValue`
  unfoldable pub get_node : K → Bucket K V → Option V
  get_node key [] = none
  get_node key ((k, v) ∷ nodes) = if keys.equal k key then some v else get_node key nodes

  -- the loop of `InsertImpl`, with the new node at the end or the value set
  unfoldable pub insert_node : K → V → Bucket K V → Bucket K V
  insert_node key value [] = (key, value) ∷ []
  insert_node key value ((k, v) ∷ nodes) =
      if keys.equal k key then (k, value) ∷ nodes else (k, v) ∷ insert_node key value nodes

  -- the loop of `Remove`, with the node unlinked
  unfoldable pub remove_node : K → Bucket K V → Bucket K V
  remove_node key [] = []
  remove_node key ((k, v) ∷ nodes) =
      if keys.equal k key then nodes else (k, v) ∷ remove_node key nodes

module _ {K V : Type 0} (hash : K → ℕ) where
  abbrev pub hashing : K → List (Bucket K V) → ℕ
  hashing key hashtable = hash key % length hashtable

module _ {K V : Type 0} (hash : K → ℕ) (keys : Equality K) where
  unfoldable pub insert_impl : K → V → HashTable K V → Option (HashTable K V)
  unfolding contains_node insert_node
  insert_impl key value t = do
    bucket ← get_elem? t.hashtable (hashing hash key t.hashtable)
    hashtable ← write t.hashtable (hashing hash key t.hashtable) (insert_node keys key value bucket)
    some (record {
      buffer_size = if contains_node keys key bucket then t.buffer_size else t.buffer_size + 1;
      hashtable = hashtable;
    })

  -- the loop over the nodes of one entry, and the loop over the entries
  unfoldable pub insert_nodes : Bucket K V → HashTable K V → Option (HashTable K V)
  unfolding insert_impl
  insert_nodes [] t = some t
  insert_nodes ((k, v) ∷ nodes) t = insert_impl k v t >>= insert_nodes nodes

  unfoldable pub insert_buckets : List (Bucket K V) → HashTable K V → Option (HashTable K V)
  unfolding insert_nodes
  insert_buckets [] t = some t
  insert_buckets (bucket ∷ latest_hashtable) t =
      insert_nodes bucket t >>= insert_buckets latest_hashtable

  -- `buffer_size_` is not set back
  unfoldable pub rehash : HashTable K V → Option (HashTable K V)
  unfolding insert_buckets
  rehash t = insert_buckets t.hashtable (record t { hashtable = empties (length t.hashtable * 2) })

  -- `buffer_size_ / size > 0.75`; the quotient is exact, since the size is a power of two
  unfoldable pub try_rehash : HashTable K V → Option (HashTable K V)
  unfolding rehash
  try_rehash t = elim (ltb (3 * length t.hashtable) (4 * t.buffer_size)) [
    | true ↦ rehash t
    | false ↦ some t
  ]

  unfoldable pub insert : K → V → HashTable K V → Option (HashTable K V)
  unfolding try_rehash insert_impl
  insert key value t = try_rehash t >>= insert_impl key value

  unfoldable pub contains : K → HashTable K V → Option Bool
  unfolding contains_node
  contains key t = do
    bucket ← get_elem? t.hashtable (hashing hash key t.hashtable)
    some (contains_node keys key bucket)

  -- `some none` is the exception `std::out_of_range`
  unfoldable pub get_value : K → HashTable K V → Option (Option V)
  unfolding get_node
  get_value key t = do
    bucket ← get_elem? t.hashtable (hashing hash key t.hashtable)
    some (get_node keys key bucket)

  unfoldable pub remove : K → HashTable K V → Option (HashTable K V)
  unfolding contains_node remove_node
  remove key t = do
    bucket ← get_elem? t.hashtable (hashing hash key t.hashtable)
    elim (contains_node keys key bucket) [
      | false ↦ some t
      | true ↦ do
        hashtable ← write t.hashtable (hashing hash key t.hashtable) (remove_node keys key bucket)
        some (record { buffer_size = t.buffer_size - 1; hashtable = hashtable })
    ]
