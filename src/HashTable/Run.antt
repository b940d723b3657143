-- ===== src/HashTable/Run.antt =====
-- container/hash/hashtable.hpp: the table against a function from keys to values.
use dsac.Prelude.{
  ℕ, ◌*◌, ◌≡◌, refl, ap, ◌∙◌, List, [], ◌∷◌, Option, none, some, arith, length, ltb, ◌>>=◌,
  if◌then◌else◌, Returns, Bool-cases, inl, inr,
}
use dsac.Cache.Keys.{Equality}
use dsac.HashTable.{HashTable, make, insert, try_rehash, remove, get_value, contains}
use dsac.HashTable.Chain.{is_some}
use dsac.HashTable.Buckets.{
  IsValid, view, insert_impl-IsInserted, remove-IsRemoved, get_value-view, contains-view,
}
use dsac.HashTable.Rehash.{rehash-IsMoved, empties-IsValid, view-empties}

pub data Update (K V : Type 0) : Type 0 where
  call_insert : K → V → Update K V
  call_remove : K → Update K V

module _ {K V : Type 0} (hash : K → ℕ) (keys : Equality K) where
  unfoldable pub update : Update K V → HashTable K V → Option (HashTable K V)
  unfolding insert remove
  update (call_insert key value) t = insert hash keys key value t
  update (call_remove key) t = remove hash keys key t

  unfoldable pub run : List (Update K V) → HashTable K V → Option (HashTable K V)
  unfolding update
  run [] t = some t
  run (u ∷ us) t = update u t >>= run us

-- the same calls on a function from keys to values
module _ {K V : Type 0} (keys : Equality K) where
  abbrev pub map_update : Update K V → (K → Option V) → K → Option V
  map_update (call_insert key value) m q = if keys.equal key q then some value else m q
  map_update (call_remove key) m q = if keys.equal key q then none else m q

  abbrev pub map_run : List (Update K V) → (K → Option V) → K → Option V
  map_run [] m = m
  map_run (u ∷ us) m = map_run us (map_update u m)

module _ {K V : Type 0} (hash : K → ℕ) (keys : Equality K) where
  -- the table stands for `m`
  record Refines (m : K → Option V) (t : HashTable K V) : Type 0 where
    valid : IsValid hash keys t
    reads : (q : K) → view hash keys t.hashtable q ≡ m q

  try_rehash-Refines :
      (m : K → Option V) (t : HashTable K V)
      → Refines m t
      → Returns (try_rehash hash keys t) (Refines m)
  unfolding try_rehash
  try_rehash-Refines m t h = elim (Bool-cases (ltb (3 * length t.hashtable) (4 * t.buffer_size))) [
    | inl full ↦
        let (t', run, (valid, width, reads, counted)) = rehash-IsMoved hash keys t h.valid in
        (t', rw (full, try_rehash) run, record { valid = valid; reads = λ q. reads q ∙ h.reads q })
    | inr room ↦ (t, rw (room, try_rehash) refl, h)
  ]

  insert-Refines :
      (key : K) (value : V) (m : K → Option V) (t : HashTable K V)
      → Refines m t
      → Returns (insert hash keys key value t) (Refines (map_update keys (call_insert key value) m))
  unfolding insert
  insert-Refines key value m t h =
      let (t1, run1, h1) = try_rehash-Refines m t h in
      let (t2, run2, i) = insert_impl-IsInserted hash keys key value t1 h1.valid in
      (
        t2,
        rw run1 run2,
        record {
          valid = i.valid;
          reads =
              λ q. i.reads q ∙ ap (λ o. if keys.equal key q then some value else o) (h1.reads q);
        },
      )

  remove-Refines :
      (key : K) (m : K → Option V) (t : HashTable K V)
      → Refines m t
      → Returns (remove hash keys key t) (Refines (map_update keys (call_remove key) m))
  remove-Refines key m t h =
      let (t', run, r) = remove-IsRemoved hash keys key t h.valid in
      (
        t',
        run,
        record {
          valid = r.valid;
          reads = λ q. r.reads q ∙ ap (λ o. if keys.equal key q then none else o) (h.reads q);
        },
      )

  run-Refines :
      (us : List (Update K V)) (m : K → Option V) (t : HashTable K V)
      → Refines m t
      → Returns (run hash keys us t) (Refines (map_run keys us m))
  unfolding run update
  run-Refines [] m t h = (t, refl, h)
  run-Refines (call_insert key value ∷ us) m t h =
      let (t1, run1, h1) = insert-Refines key value m t h in
      let (t2, run2, h2) = run-Refines us (map_update keys (call_insert key value) m) t1 h1 in
      (t2, rw run1 run2, h2)
  run-Refines (call_remove key ∷ us) m t h =
      let (t1, run1, h1) = remove-Refines key m t h in
      let (t2, run2, h2) = run-Refines us (map_update keys (call_remove key) m) t1 h1 in
      (t2, rw run1 run2, h2)

  -- Any calls of `Insert` and `Remove` on a new table stay inside the vector, and then `GetValue` and
  -- `Contains` of every key answer as a map with the same calls: the last value inserted under the key, or
  -- the exception if there is none or it was removed since.
  pub run-reads :
      (us : List (Update K V))
      → Returns (run hash keys us make) (λ t.
        (q : K)
        → (get_value hash keys q t ≡ some (map_run keys us (λ k. none) q))
          × (contains hash keys q t ≡ some (is_some (map_run keys us (λ k. none) q))))
  run-reads us =
      let start : Refines (λ k. none) make = record {
        valid = empties-IsValid hash keys 0 8 (omega arith);
        reads = view-empties hash keys 8;
      } in
      let (t, returned, h) = run-Refines us (λ k. none) make start in
      (
        t,
        returned,
        λ q. (
          get_value-view hash keys q t h.valid ∙ ap some (h.reads q),
          contains-view hash keys q t h.valid ∙ ap (λ o. some (is_some o)) (h.reads q),
        ),
      )
