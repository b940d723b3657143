-- ===== src/Cache/Items.antt =====
-- `index`: the unordered set of a cache's items, looked up by key. The order of its elements is not
-- used; a new one is put to the front.
use dsac.Prelude.{
  suc, ◌≡◌, refl, ap, true, false, List, [], ◌∷◌, Option, none, some, arith, length, if◌then◌else◌,
}
use dsac.Cache.Keys.{Equality, mem, detach}

-- `struct item`
pub record Item (K V : Type 0) : Type 0 where
  pub key : K
  pub value : V

module _ {K V : Type 0} where
  abbrev pub keys_of : List (Item K V) → List K
  keys_of [] = []
  keys_of (item ∷ items) = item.key ∷ keys_of items

  pub length-keys_of : (items : List (Item K V)) → length (keys_of items) ≡ length items
  length-keys_of [] = refl
  length-keys_of (item ∷ items) = ap suc (length-keys_of items)

module _ {K V : Type 0} (keys : Equality K) where
  -- `index_.find`: the value of the item that is found
  unfoldable pub find : K → List (Item K V) → Option V
  find k [] = none
  find k (item ∷ items) = if keys.equal item.key k then some item.value else find k items

  -- `index_.erase`
  unfoldable pub erase : K → List (Item K V) → List (Item K V)
  erase k [] = []
  erase k (item ∷ items) = if keys.equal item.key k then items else item ∷ erase k items

  pub keys_of-erase :
      (k : K) (items : List (Item K V)) → keys_of (erase k items) ≡ detach keys k (keys_of items)
  unfolding erase detach
  keys_of-erase k [] = refl
  keys_of-erase k (item ∷ items) = ground (arith, keys_of-erase k items)

  pub find-none :
      (k : K) (items : List (Item K V)) → mem keys k (keys_of items) ≡ false → find k items ≡ none
  unfolding find mem
  find-none k [] h = refl
  find-none k (item ∷ items) h = ground (arith, find-none k items)

  pub mem-of_find :
      (k : K) (items : List (Item K V)) (v : V)
      → find k items ≡ some v
      → mem keys k (keys_of items) ≡ true
  unfolding find mem
  mem-of_find k [] v h = absurd (ground arith)
  mem-of_find k (item ∷ items) v h = ground (arith, mem-of_find k items v)

  pub mem-of_find-none :
      (k : K) (items : List (Item K V)) → find k items ≡ none → mem keys k (keys_of items) ≡ false
  unfolding find mem
  mem-of_find-none k [] h = refl
  mem-of_find-none k (item ∷ items) h = ground (arith, mem-of_find-none k items)

  -- erasing one key leaves the values of the others
  pub find-erase :
      (j k : K) (items : List (Item K V))
      → keys.equal k j ≡ false
      → find j (erase k items) ≡ find j items
  unfolding find erase
  find-erase j k [] n = refl
  find-erase j k (item ∷ items) n =
      ground (arith, find-erase j k items n, keys.equal→≡ item.key k, keys.equal→≡ item.key j)
