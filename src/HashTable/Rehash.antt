-- ===== src/HashTable/Rehash.antt =====
-- container/hash/hashtable.hpp: `Rehash` keeps every value that is found, and counts every node again.
use dsac.Prelude.{
  ℕ, zero, suc, ◌+◌, ◌*◌, ◌%◌, ◌≤◌, ◌<◌, ◌≡◌, refl, ap, ◌∙◌, subst, List, [], ◌∷◌, Option, none,
  some, arith, length, get_elem?, ◌>>=◌, if◌then◌else◌, Returns, Bool-cases, inl, inr, ◌==◌,
  Option-cases, ℕ_discrete,
}
use dsac.Cache.Keys.{Equality}
use dsac.HashTable.{
  Bucket, HashTable, hashing, empties, get_node, insert_nodes, insert_buckets, rehash,
}
use dsac.HashTable.Chain.{Distinct, Keys}
use dsac.HashTable.Buckets.{IsPlaced, IsValid, view, insert_impl-IsInserted}

abbrev or_else {ℓ} : {A : Type ℓ} → Option A → Option A → Option A
or_else none b = b
or_else (some a) b = some a

module _ {K V : Type 0} where
  abbrev pub count : List (Bucket K V) → ℕ
  count [] = 0
  count (nodes ∷ buckets) = length nodes + count buckets

length-empties : (K V : Type 0) (n : ℕ) → length {A = Bucket K V} (empties n) ≡ n
length-empties K V zero = refl
length-empties K V (suc n) = ap suc (length-empties K V n)

all_moved : {V : Type 0} (o x y : Option V) → x ≡ none → o ≡ y → or_else o x ≡ y
all_moved none x y e f = e ∙ f
all_moved (some v) x y e f = f

-- A key that hashes to `j`, with the value `o` in the chain at `i`, before and after the chain is moved.
module _ {V : Type 0} (i j : ℕ) (o x : Option V) {x1 : Option V} where
  not_moved : x1 ≡ or_else o x → x ≡ none → ((v : V) → o ≡ some v → j ≡ i) → suc i ≤ j → x1 ≡ none
  not_moved e old home h = elim (Option-cases o) [
    | inl none_here ↦ e ∙ rw none_here old
    | inr (v, here) ↦ absurd (omega (arith, home v here))
  ]

  joined :
      {x2 r : Option V}
      → x1 ≡ or_else o x
      → x2 ≡ or_else r x1
      → ((v : V) → o ≡ some v → j ≡ i)
      → (j < suc i → r ≡ none)
      → x2 ≡ or_else (if j == i then o else r) x
  joined e f home rest = elim (Option-cases o) [
    | inl none_here ↦ elim (ℕ_discrete j i) [
      | yes same ↦ ground (arith, rest (omega arith))
      | no other ↦ ground arith
    ]
    | inr (v, here) ↦ ground (arith, home v here, rest (omega (arith, home v here)))
  ]

module _ {K : Type 0} (hash : K → ℕ) (keys : Equality K) where
  empties-IsPlaced : (V : Type 0) (n i m : ℕ) → IsPlaced {V = V} hash keys n i (empties m)
  empties-IsPlaced V n i zero = tt
  empties-IsPlaced V n i (suc m) = ((tt, tt), empties-IsPlaced V n (suc i) m)

module _ {K V : Type 0} (hash : K → ℕ) (keys : Equality K) where
  no_node : (m i : ℕ) (q : K) → (get_elem? (empties {K = K} {V = V} m) i >>= get_node keys q) ≡ none
  unfolding get_node
  no_node zero i q = refl
  no_node (suc m) zero q = refl
  no_node (suc m) (suc i) q = no_node m i q

  pub empties-IsValid :
      (b m : ℕ)
      → 0 < m
      → IsValid {V = V} hash keys (record { buffer_size = b; hashtable = empties m })
  empties-IsValid b m pos = record {
    some_bucket = rw (length-empties K V m) pos;
    placed = empties-IsPlaced hash keys V (length (empties m)) 0 m;
  }

  pub view-empties : (m : ℕ) (q : K) → view hash keys (empties {V = V} m) q ≡ none
  unfolding view
  view-empties m q = no_node m (hashing hash q (empties m)) q

  -- The nodes of one chain are put into a table that has none of their keys.
  record IsMoved (n m : ℕ) (reads : K → Option V) (t t' : HashTable K V) : Type 0 where
    valid : IsValid hash keys t'
    width : length t'.hashtable ≡ n
    found :
        (q : K) → view hash keys t'.hashtable q ≡ or_else (reads q) (view hash keys t.hashtable q)
    counted : t'.buffer_size ≡ t.buffer_size + m

  insert_nodes-IsMoved :
      (nodes : Bucket K V) (t : HashTable K V)
      → IsValid hash keys t
      → Distinct keys nodes
      → ((q : K) (v : V) → get_node keys q nodes ≡ some v → view hash keys t.hashtable q ≡ none)
      → Returns
          (insert_nodes hash keys nodes t)
          (IsMoved (length t.hashtable) (length nodes) (λ q. get_node keys q nodes) t)
  unfolding insert_nodes get_node
  insert_nodes-IsMoved [] t valid distinct apart =
      (t, refl, record { valid = valid; width = refl; found = λ q. refl; counted = omega arith })
  insert_nodes-IsMoved ((k, v) ∷ nodes) t valid (fresh, distinct) apart =
      let (t1, run1, i) = insert_impl-IsInserted hash keys k v t valid in
      let (t2, run2, m) =
        insert_nodes-IsMoved nodes t1 i.valid distinct
          (λ q w e. ground (arith, i.reads q, keys.equal→≡ k q, apart q w)) in
      let new : view hash keys t.hashtable k ≡ none =
        ground (arith, apart k v, keys.equal_refl k) in
      (
        t2,
        rw run1 run2,
        record {
          valid = m.valid;
          width = m.width ∙ i.width;
          found = λ q. ground (arith, m.found q, i.reads q, keys.equal→≡ k q);
          counted = ground (arith, m.counted, i.counted, new);
        },
      )

  -- the chain of `q`, which hashes to `j`, from the entry `i` on
  abbrev from : (i j : ℕ) → K → List (Bucket K V) → Option V
  from i j q [] = none
  from i j q (nodes ∷ buckets) = if j == i then get_node keys q nodes else from (suc i) j q buckets

  from-lt : (i j : ℕ) (q : K) (buckets : List (Bucket K V)) → j < i → from i j q buckets ≡ none
  from-lt i j q [] h = refl
  from-lt i j q (nodes ∷ buckets) h = ground (arith, from-lt (suc i) j q buckets)

  from-get_elem? :
      (i j : ℕ) (q : K) (buckets : List (Bucket K V))
      → from i (i + j) q buckets ≡ (get_elem? buckets j >>= get_node keys q)
  from-get_elem? i j q [] = refl
  from-get_elem? i zero q (nodes ∷ buckets) = ground arith
  from-get_elem? i (suc j) q (nodes ∷ buckets) =
      let next : suc i + j ≡ i + suc j = omega arith in
      let rest : from (suc i) (i + suc j) q buckets ≡ (get_elem? buckets j >>= get_node keys q) =
        subst (λ k. from (suc i) k q buckets ≡ (get_elem? buckets j >>= get_node keys q)) next
          (from-get_elem? (suc i) j q buckets) in
      ground (arith, rest)

  whole :
      (j : ℕ) (q : K) (buckets : List (Bucket K V))
      → from 0 j q buckets ≡ (get_elem? buckets j >>= get_node keys q)
  whole j q buckets =
      let start : 0 + j ≡ j = omega arith in
      subst (λ k. from 0 k q buckets ≡ (get_elem? buckets j >>= get_node keys q)) start
        (from-get_elem? 0 j q buckets)

  get_node-Keys :
      (P : K → Type 0) (q : K) (v : V) (nodes : Bucket K V)
      → Keys keys P nodes
      → get_node keys q nodes ≡ some v
      → P q
  unfolding get_node
  get_node-Keys P q v [] h e = absurd (cc)
  get_node-Keys P q v ((k, w) ∷ nodes) (p, h) e = elim (Bool-cases (keys.equal k q)) [
    | inl same ↦ subst P (keys.equal→≡ k q same) p
    | inr other ↦ get_node-Keys P q v nodes h (ground arith)
  ]

  insert_buckets-IsMoved :
      (n i : ℕ) (buckets : List (Bucket K V)) (t : HashTable K V)
      → IsPlaced hash keys n i buckets
      → IsValid hash keys t
      → ((q : K) → i ≤ hash q % n → view hash keys t.hashtable q ≡ none)
      → Returns
          (insert_buckets hash keys buckets t)
          (IsMoved (length t.hashtable) (count buckets) (λ q. from i (hash q % n) q buckets) t)
  unfolding insert_buckets
  insert_buckets-IsMoved n i [] t placed valid apart =
      (t, refl, record { valid = valid; width = refl; found = λ q. refl; counted = omega arith })
  insert_buckets-IsMoved n i (nodes ∷ buckets) t ((distinct, at), placed) valid apart =
      let home = λ (q : K) (v : V) (e : get_node keys q nodes ≡ some v).
        get_node-Keys (λ k. hash k % n ≡ i) q v nodes at e in
      let (t1, run1, m1) =
        insert_nodes-IsMoved nodes t valid distinct
          (λ q v e. apart q (omega (arith, home q v e))) in
      let (t2, run2, m2) = insert_buckets-IsMoved n (suc i) buckets t1 placed m1.valid (λ q h.
        not_moved i (hash q % n) (get_node keys q nodes) _ (m1.found q) (apart q (omega arith))
          (home q) h) in
      (
        t2,
        rw run1 run2,
        record {
          valid = m2.valid;
          width = m2.width ∙ m1.width;
          found = λ q.
              joined i (hash q % n) (get_node keys q nodes) _ (m1.found q) (m2.found q) (home q)
                (from-lt (suc i) (hash q % n) q buckets);
          counted = omega (arith, m1.counted, m2.counted);
        },
      )

  -- For a valid table, `Rehash` returns a valid table with twice the entries in which the same values are
  -- found. Its `buffer_size_` counts every node a second time.
  pub rehash-IsMoved :
      (t : HashTable K V)
      → IsValid hash keys t
      → Returns (rehash hash keys t) (λ t'.
        IsValid hash keys t'
        × (length t'.hashtable ≡ length t.hashtable * 2)
        × ((q : K) → view hash keys t'.hashtable q ≡ view hash keys t.hashtable q)
        × (t'.buffer_size ≡ t.buffer_size + count t.hashtable))
  unfolding rehash view
  rehash-IsMoved t valid =
      let n = length t.hashtable in
      let fresh : HashTable K V = record t { hashtable = empties (n * 2) } in
      let pos : 0 < n = valid.some_bucket in
      let (t', run, m) =
        insert_buckets-IsMoved n 0 t.hashtable fresh valid.placed
          (empties-IsValid t.buffer_size (n * 2) (omega arith)) (λ q h. view-empties (n * 2) q) in
      (
        t',
        run,
        (
          m.valid,
          m.width ∙ length-empties K V (n * 2),
          λ q.
              m.found q
              ∙ all_moved (from 0 (hash q % n) q t.hashtable) _ _ (view-empties (n * 2) q)
                  (whole (hash q % n) q t.hashtable),
          m.counted,
        ),
      )
