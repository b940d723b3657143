-- ===== src/HashTable/Buckets.antt =====
-- container/hash/hashtable.hpp: the vector of chains, and what the operations do to the values that are found.
use dsac.Prelude.{
  ℕ, zero, suc, ◌+◌, ◌-◌, ◌%◌, ◌<◌, ◌≡◌, refl, sym, ap, ◌∙◌, subst, Bool, true, false, List, [],
  ◌∷◌, Option, none, some, arith, length, get_elem?, set, length-set, ◌>>=◌, if◌then◌else◌, Returns,
  Bool-cases, inl, inr,
}
use dsac.Prelude.Arrays.{write-set, get_elem?_of_lt, lt_of_get_elem?}
use dsac.Cache.Keys.{Equality}
use dsac.HashTable.{
  Bucket, HashTable, hashing, contains_node, get_node, insert_node, remove_node, insert_impl,
  contains, get_value, remove,
}
use dsac.HashTable.Chain.{
  Distinct, Keys, is_some, contains_node-get_node, get_node-insert_node, insert_node-Distinct,
  insert_node-Keys, get_node-remove_node, remove_node-Distinct, remove_node-Keys,
}

is_some-false {ℓ} : {A : Type ℓ} (o : Option A) → is_some o ≡ false → o ≡ none
is_some-false none h = refl
is_some-false (some a) h = absurd (cc)

module _ {K V : Type 0} (hash : K → ℕ) (keys : Equality K) where
  -- the chain at `i` is a chain of a vector of `n` entries
  abbrev pub IsBucket : ℕ → ℕ → Bucket K V → Type 0
  IsBucket n i nodes = Distinct keys nodes × Keys keys (λ k. hash k % n ≡ i) nodes

  -- every chain from the entry `i` on is one
  abbrev pub IsPlaced : ℕ → ℕ → List (Bucket K V) → Type 0
  IsPlaced n i [] = Unit
  IsPlaced n i (nodes ∷ buckets) = IsBucket n i nodes × IsPlaced n (suc i) buckets

  pub record IsValid (t : HashTable K V) : Type 0 where
    pub some_bucket : 0 < length t.hashtable
    pub placed : IsPlaced (length t.hashtable) 0 t.hashtable

  IsPlaced-get_elem? :
      (n i j : ℕ) (buckets : List (Bucket K V)) (nodes : Bucket K V)
      → IsPlaced n i buckets
      → get_elem? buckets j ≡ some nodes
      → IsBucket n (i + j) nodes
  IsPlaced-get_elem? n i j [] nodes h e = absurd (cc)
  IsPlaced-get_elem? n i zero (b ∷ buckets) nodes h e =
      let same : b ≡ nodes = grind arith in
      let here : i ≡ i + 0 = omega arith in rw (← same, ← here) h.0
  IsPlaced-get_elem? n i (suc j) (b ∷ buckets) nodes h e =
      let next : suc i + j ≡ i + suc j = omega arith in
      rw (← next) (IsPlaced-get_elem? n (suc i) j buckets nodes h.1 e)

  IsPlaced-set :
      (n i j : ℕ) (buckets : List (Bucket K V)) (nodes : Bucket K V)
      → IsPlaced n i buckets
      → IsBucket n (i + j) nodes
      → IsPlaced n i (set buckets j nodes)
  IsPlaced-set n i j [] nodes h b = tt
  IsPlaced-set n i zero (c ∷ buckets) nodes h b =
      let here : i + 0 ≡ i = omega arith in (subst (λ k. IsBucket n k nodes) here b, h.1)
  IsPlaced-set n i (suc j) (c ∷ buckets) nodes h b =
      let next : i + suc j ≡ suc i + j = omega arith in
      (h.0, IsPlaced-set n (suc i) j buckets nodes h.1 (subst (λ k. IsBucket n k nodes) next b))

  -- the value under a key, if there is one
  unfoldable pub view : List (Bucket K V) → K → Option V
  unfolding get_node
  view buckets q = get_elem? buckets (hashing hash q buckets) >>= get_node keys q

  -- a lookup at `j` after the chain at `i` was replaced
  get_elem?-set-get_node :
      (c : Bool) (buckets : List (Bucket K V)) (i j : ℕ) (q : K) (nodes nodes' : Bucket K V)
      (o : Option V)
      → (c ≡ true → i ≡ j)
      → get_elem? buckets i ≡ some nodes
      → get_node keys q nodes' ≡ (if c then o else get_node keys q nodes)
      → (get_elem? (set buckets i nodes') j >>= get_node keys q)
        ≡ (if c then o else (get_elem? buckets j >>= get_node keys q))
  get_elem?-set-get_node c [] i j q nodes nodes' o near at e = absurd (cc)
  get_elem?-set-get_node c (b ∷ bs) zero zero q nodes nodes' o near at e =
      let same : b ≡ nodes = grind arith in rw same e
  get_elem?-set-get_node true (b ∷ bs) zero (suc j) q nodes nodes' o near at e =
      absurd (omega (arith, near refl))
  get_elem?-set-get_node false (b ∷ bs) zero (suc j) q nodes nodes' o near at e = refl
  get_elem?-set-get_node true (b ∷ bs) (suc i) zero q nodes nodes' o near at e =
      absurd (omega (arith, near refl))
  get_elem?-set-get_node false (b ∷ bs) (suc i) zero q nodes nodes' o near at e = refl
  get_elem?-set-get_node c (b ∷ bs) (suc i) (suc j) q nodes nodes' o near at e =
      get_elem?-set-get_node c bs i j q nodes nodes' o (λ t. omega (arith, near t)) at e

  view-set :
      (buckets : List (Bucket K V)) (key q : K) (nodes nodes' : Bucket K V) (o : Option V)
      → get_elem? buckets (hashing hash key buckets) ≡ some nodes
      → get_node keys q nodes' ≡ (if keys.equal key q then o else get_node keys q nodes)
      → view (set buckets (hashing hash key buckets) nodes') q
        ≡ (if keys.equal key q then o else view buckets q)
  unfolding view
  view-set buckets key q nodes nodes' o at e =
      rw (length-set buckets (hashing hash key buckets) nodes') (
        get_elem?-set-get_node (keys.equal key q) buckets (hashing hash key buckets)
          (hashing hash q buckets) q nodes nodes' o
          (λ same. ap (λ k. hashing hash k buckets) (keys.equal→≡ key q same)) at e)

  has_bucket :
      (t : HashTable K V) (key : K)
      → IsValid t
      → (nodes : Bucket K V) × (get_elem? t.hashtable (hashing hash key t.hashtable) ≡ some nodes)
        × IsBucket (length t.hashtable) (hashing hash key t.hashtable) nodes
  has_bucket t key v =
      let pos : 0 < length t.hashtable = v.some_bucket in
      let (nodes, at) = get_elem?_of_lt t.hashtable (hashing hash key t.hashtable) (grind arith) in
      let i = hashing hash key t.hashtable in
      let start : 0 + i ≡ i = omega arith in
      (
        nodes,
        at,
        subst (λ k. IsBucket (length t.hashtable) k nodes) start
            (IsPlaced-get_elem? (length t.hashtable) 0 i t.hashtable nodes v.placed at),
      )

  -- a chain of the table is replaced
  replaced :
      (t : HashTable K V) (key : K) (nodes' : Bucket K V) (n : ℕ)
      → IsValid t
      → IsBucket (length t.hashtable) (hashing hash key t.hashtable) nodes'
      → IsValid (record {
        buffer_size = n;
        hashtable = set t.hashtable (hashing hash key t.hashtable) nodes';
      })
  replaced t key nodes' n v b =
      let i = hashing hash key t.hashtable in
      let len = length-set t.hashtable i nodes' in
      let start : i ≡ 0 + i = omega arith in
      record {
        some_bucket = rw len v.some_bucket;
        placed = rw len (
            IsPlaced-set (length t.hashtable) 0 i t.hashtable nodes' v.placed
              (subst (λ k. IsBucket (length t.hashtable) k nodes') start b));
      }

  -- `InsertImpl` puts the value under the key, in a vector of the same size.
  pub record IsInserted (key : K) (value : V) (t t' : HashTable K V) : Type 0 where
    pub valid : IsValid t'
    pub width : length t'.hashtable ≡ length t.hashtable
    pub reads :
        (q : K)
        → view t'.hashtable q ≡ (if keys.equal key q then some value else view t.hashtable q)
    pub counted :
        t'.buffer_size
        ≡ (if is_some (view t.hashtable key) then t.buffer_size else t.buffer_size + 1)

  pub insert_impl-IsInserted :
      (key : K) (value : V) (t : HashTable K V)
      → IsValid t
      → Returns (insert_impl hash keys key value t) (IsInserted key value t)
  unfolding insert_impl view
  insert_impl-IsInserted key value t v =
      let (nodes, at, (distinct, placed)) = has_bucket t key v in
      let i = hashing hash key t.hashtable in
      let nodes' = insert_node keys key value nodes in
      let run = write-set t.hashtable i nodes' (lt_of_get_elem? t.hashtable i at) in
      (
        record {
          buffer_size = if contains_node keys key nodes then t.buffer_size else t.buffer_size + 1;
          hashtable = set t.hashtable i nodes';
        },
        rw (at, run) refl,
        record {
          valid = replaced t key nodes' _ v (
            insert_node-Distinct keys key value nodes distinct,
            insert_node-Keys keys _ key value nodes refl placed,
          );
          width = length-set t.hashtable i nodes';
          reads = λ q.
              view-set t.hashtable key q nodes nodes' (some value) at
                (get_node-insert_node keys q key value nodes);
          counted = rw (at, contains_node-get_node keys key nodes) refl;
        },
      )

  -- `Remove` takes the value away, in a vector of the same size.
  pub record IsRemoved (key : K) (t t' : HashTable K V) : Type 0 where
    pub valid : IsValid t'
    pub reads :
        (q : K) → view t'.hashtable q ≡ (if keys.equal key q then none else view t.hashtable q)

  absent :
      (t : HashTable K V) (key q : K) (nodes : Bucket K V)
      → get_elem? t.hashtable (hashing hash key t.hashtable) ≡ some nodes
      → contains_node keys key nodes ≡ false
      → view t.hashtable q ≡ (if keys.equal key q then none else view t.hashtable q)
  unfolding view
  absent t key q nodes at missing = elim (Bool-cases (keys.equal key q)) [
    | inl same ↦
        let gone : is_some (get_node keys key nodes) ≡ false =
          sym (contains_node-get_node keys key nodes) ∙ missing in
        let e : view t.hashtable key ≡ none =
          rw at (is_some-false (get_node keys key nodes) gone) in
        rw same (ap (λ k. view t.hashtable k) (sym (keys.equal→≡ key q same)) ∙ e)
    | inr other ↦ rw other refl
  ]

  pub remove-IsRemoved :
      (key : K) (t : HashTable K V) → IsValid t → Returns (remove hash keys key t) (IsRemoved key t)
  unfolding remove view
  remove-IsRemoved key t v =
      let (nodes, at, (distinct, placed)) = has_bucket t key v in
      let i = hashing hash key t.hashtable in
      let nodes' = remove_node keys key nodes in
      let run = write-set t.hashtable i nodes' (lt_of_get_elem? t.hashtable i at) in
      let reads = λ (q : K).
        view-set t.hashtable key q nodes nodes' none at
          (get_node-remove_node keys q key nodes distinct) in
      elim (Bool-cases (contains_node keys key nodes)) [
        | inl found ↦ (
          record { buffer_size = t.buffer_size - 1; hashtable = set t.hashtable i nodes' },
          rw (at, ◌>>=◌, found, run) refl,
          record {
            valid = replaced t key nodes' _ v (
              remove_node-Distinct keys key nodes distinct,
              remove_node-Keys keys _ key nodes placed,
            );
            reads = reads;
          },
        )
        | inr missing ↦ (
          t,
          rw (at, ◌>>=◌, missing) refl,
          record { valid = v; reads = λ q. absent t key q nodes at missing },
        )
      ]

  pub get_value-view :
      (key : K) (t : HashTable K V)
      → IsValid t
      → get_value hash keys key t ≡ some (view t.hashtable key)
  unfolding get_value view
  get_value-view key t v = let (nodes, at, b) = has_bucket t key v in rw at refl

  pub contains-view :
      (key : K) (t : HashTable K V)
      → IsValid t
      → contains hash keys key t ≡ some (is_some (view t.hashtable key))
  unfolding contains view
  contains-view key t v =
      let (nodes, at, b) = has_bucket t key v in rw (at, contains_node-get_node keys key nodes) refl
