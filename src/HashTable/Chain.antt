-- ===== src/HashTable/Chain.antt =====
-- container/hash/hashtable.hpp: the loops over one chain of nodes.
use dsac.Prelude.{
  ◌≡◌, refl, Bool, true, false, [], ◌∷◌, Option, none, some, arith, All, if◌then◌else◌,
}
use dsac.Cache.Keys.{Equality}
use dsac.HashTable.{Bucket, contains_node, get_node, insert_node, remove_node}

abbrev pub is_some {ℓ} : {A : Type ℓ} → Option A → Bool
is_some none = false
is_some (some a) = true

module _ {K V : Type 0} (keys : Equality K) where
  -- no two nodes have the same key
  abbrev pub Distinct : Bucket K V → Type 0
  Distinct [] = Unit
  Distinct ((k, v) ∷ nodes) = (get_node keys k nodes ≡ none) × Distinct nodes

  pub contains_node-get_node :
      (key : K) (nodes : Bucket K V)
      → contains_node keys key nodes ≡ is_some (get_node keys key nodes)
  unfolding contains_node get_node
  contains_node-get_node key [] = refl
  contains_node-get_node key ((k, v) ∷ nodes) = ground (arith, contains_node-get_node key nodes)

  pub get_node-insert_node :
      (q key : K) (value : V) (nodes : Bucket K V)
      → get_node keys q (insert_node keys key value nodes)
        ≡ (if keys.equal key q then some value else get_node keys q nodes)
  unfolding get_node insert_node
  get_node-insert_node q key value [] = refl
  get_node-insert_node q key value ((k, v) ∷ nodes) = ground (
    arith,
    get_node-insert_node q key value nodes,
    keys.equal→≡ k key,
    keys.equal→≡ k q,
    keys.equal→≡ key q,
    keys.equal_refl q,
    keys.equal_refl key,
  )

  pub insert_node-Distinct :
      (key : K) (value : V) (nodes : Bucket K V)
      → Distinct nodes
      → Distinct (insert_node keys key value nodes)
  unfolding get_node insert_node
  insert_node-Distinct key value [] h = (refl, tt)
  insert_node-Distinct key value ((k, v) ∷ nodes) (fresh, h) = ground (
    arith,
    insert_node-Distinct key value nodes h,
    get_node-insert_node k key value nodes,
    keys.equal→≡ key k,
    keys.equal_refl k,
  )

  pub get_node-remove_node :
      (q key : K) (nodes : Bucket K V)
      → Distinct nodes
      → get_node keys q (remove_node keys key nodes)
        ≡ (if keys.equal key q then none else get_node keys q nodes)
  unfolding get_node remove_node
  get_node-remove_node q key [] h = ground arith
  get_node-remove_node q key ((k, v) ∷ nodes) (fresh, h) = ground (
    arith,
    get_node-remove_node q key nodes h,
    keys.equal→≡ k key,
    keys.equal→≡ k q,
    keys.equal→≡ key q,
    keys.equal_refl q,
    keys.equal_refl key,
  )

  pub remove_node-Distinct :
      (key : K) (nodes : Bucket K V) → Distinct nodes → Distinct (remove_node keys key nodes)
  unfolding get_node remove_node
  remove_node-Distinct key [] h = tt
  remove_node-Distinct key ((k, v) ∷ nodes) (fresh, h) =
      ground (arith, remove_node-Distinct key nodes h, get_node-remove_node k key nodes h)

  -- what holds of every key holds after the loops
  module _ (P : K → Type 0) where
    abbrev pub Keys : Bucket K V → Type 0
    Keys nodes = All (λ (e : K × V). P (e.0)) nodes

    pub insert_node-Keys :
        (key : K) (value : V) (nodes : Bucket K V)
        → P key
        → Keys nodes
        → Keys (insert_node keys key value nodes)
    unfolding insert_node
    insert_node-Keys key value [] p h = (p, tt)
    insert_node-Keys key value ((k, v) ∷ nodes) p (q, h) =
        ground (arith, insert_node-Keys key value nodes p h)

    pub remove_node-Keys :
        (key : K) (nodes : Bucket K V) → Keys nodes → Keys (remove_node keys key nodes)
    unfolding remove_node
    remove_node-Keys key [] h = tt
    remove_node-Keys key ((k, v) ∷ nodes) (q, h) = ground (arith, remove_node-Keys key nodes h)
