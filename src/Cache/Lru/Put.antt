-- ===== src/Cache/Lru/Put.antt =====
-- cache/lru.hpp: what one call of `put` or `get` leaves.
use dsac.Prelude.{
  suc, ◌<◌, ◌≡◌, ◌≢◌, refl, ap, sym, subst, ℕ_discrete, ◌⊎◌, ◌∙◌, true, false, List, [], ◌∷◌, ◌++◌,
  none, some, arith, length, if◌then◌else◌, Returns, Bool-cases, Option-cases, inl, inr,
  length-append, take, take_all, take-append,
}
use dsac.Cache.Keys.{
  Equality, snoc_of_length, mem, mem-snoc, Distinct-snoc, Distinct, detach, length-detach,
}
use dsac.Cache.Items
use dsac.Cache.Items.{Item, keys_of}
use dsac.Cache.Lru.{Lru, size, promote, evict, make_room, insert, put, get}
use dsac.Cache.Lru.Laws.{IsValid, promote-IsValid, insert-IsValid, evict-IsValid, evict_lem}

module _ {K : Type 0} (keys : Equality K) where
  -- `key`, then the others from the most recently used on
  unfoldable pub used : K → List K → List K
  used key recent = key ∷ detach keys key recent

  detach-absent : (key : K) (xs : List K) → mem keys key xs ≡ false → detach keys key xs ≡ xs
  unfolding mem detach
  detach-absent key [] h = refl
  detach-absent key (x ∷ xs) h = ground (arith, detach-absent key xs)

module _ {K V : Type 0} (keys : Equality K) where
  -- What `put key value` makes of `s`.
  pub record IsPut (key : K) (value : V) (s t : Lru K V) : Type 0 where
    pub valid : IsValid keys t
    pub capacity_eq : t.capacity ≡ s.capacity
    pub order : t.cache ≡ take s.capacity (used keys key s.cache)
    -- a value that is stored already is kept
    pub stored :
        Items.find keys key t.index
        ≡ elim (Items.find keys key s.index) [ none ↦ some value | some old ↦ some old ]
    pub others :
        (j : K)
        → keys.equal key j ≡ false
        → mem keys j t.cache ≡ true
        → Items.find keys j t.index ≡ Items.find keys j s.index

  promote-IsPut :
      (key : K) (value old : V) (s : Lru K V)
      → Items.find keys key s.index ≡ some old
      → IsValid keys s
      → IsPut key value s (promote keys key s)
  unfolding promote used
  promote-IsPut key value old s f h =
      let m = sym (h.listed key) ∙ Items.mem-of_find keys key s.index old f in
      record {
        valid = promote-IsValid keys key s m h;
        capacity_eq = refl;
        order = sym (
            take_all s.capacity (key ∷ detach keys key s.cache)
              (omega (arith, h.bound, length-detach keys key s.cache m)));
        stored = ground arith;
        others = λ j n i. refl;
      }

  insert-IsPut :
      (key : K) (value : V) (s : Lru K V)
      → Items.find keys key s.index ≡ none
      → length s.cache < s.capacity
      → IsValid keys s
      → IsPut key value s (insert keys key value s)
  unfolding insert used Items.find
  insert-IsPut key value s f room h =
      let m = sym (h.listed key) ∙ Items.mem-of_find-none keys key s.index f in
      record {
        valid = insert-IsValid keys key value s m room h;
        capacity_eq = refl;
        order =
            rw (detach-absent keys key s.cache m) (sym (take_all s.capacity (key ∷ s.cache) room));
        stored = ground (arith, keys.equal_refl key);
        others = λ j n i. ground arith;
      }

  replace-IsPut :
      (key : K) (value : V) (x : K) (ys : List K) (s : Lru K V)
      → Items.find keys key s.index ≡ none
      → length s.cache ≡ s.capacity
      → s.cache ≡ ys ++ x ∷ []
      → IsValid keys s
      → IsPut key value s
          (insert keys key value (record s { cache = ys; index = Items.erase keys x s.index }))
  unfolding insert used Items.find mem
  replace-IsPut key value x ys s f full e h =
      let m = sym (h.listed key) ∙ Items.mem-of_find-none keys key s.index f in
      let t : Lru K V = record s { cache = ys; index = Items.erase keys x s.index } in
      let i : IsValid keys t = evict-IsValid keys x ys s e h in
      let total : suc (length ys) ≡ s.capacity =
        omega (arith, ap length e, length-append ys (x ∷ [])) in
      record {
        valid = insert-IsValid keys key value t (absent m) (omega arith) i;
        capacity_eq = refl;
        order = ordered m total;
        stored = ground (arith, keys.equal_refl key);
        others = λ j n q. ground (
          arith,
          Items.find-erase keys j x s.index (other j (Bool-cases (keys.equal x j)) (ground arith)),
        );
      }
    where
      absent : mem keys key s.cache ≡ false → mem keys key ys ≡ false
      absent m = ground (arith, ap (mem keys key) e, mem-snoc keys key x ys)

      ordered :
          mem keys key s.cache ≡ false
          → suc (length ys) ≡ s.capacity
          → key ∷ ys ≡ take s.capacity (key ∷ detach keys key s.cache)
      ordered m total =
          rw (detach-absent keys key s.cache m, ← total, e)
            (ap (◌∷◌ key) (sym (take-append ys (x ∷ []))))

      other :
          (j : K)
          → (keys.equal x j ≡ true) ⊎ (keys.equal x j ≡ false)
          → mem keys j ys ≡ true
          → keys.equal x j ≡ false
      other j (inr n) q = n
      other j (inl same) q =
          let (_, fresh) = Distinct-snoc keys x ys (subst (Distinct keys) e h.distinct) in
          let eq = keys.equal→≡ x j same in absurd (cc)

  put_found :
      (key : K) (value old : V) (s : Lru K V)
      → Items.find keys key s.index ≡ some old
      → put keys key value s ≡ some (promote keys key s)
  unfolding put
  put_found key value old s f = rw (f, put) refl

  put_full :
      (key : K) (value : V) (s t : Lru K V)
      → Items.find keys key s.index ≡ none
      → length s.index ≡ s.capacity
      → evict keys s ≡ some t
      → put keys key value s ≡ some (insert keys key value t)
  unfolding put make_room size
  put_full key value s t f full e = ground arith

  put_room :
      (key : K) (value : V) (s : Lru K V)
      → Items.find keys key s.index ≡ none
      → length s.index ≢ s.capacity
      → put keys key value s ≡ some (insert keys key value s)
  unfolding put make_room size
  put_room key value s f room = ground arith

  put-absent :
      (key : K) (value : V) (s : Lru K V)
      → 0 < s.capacity
      → Items.find keys key s.index ≡ none
      → IsValid keys s
      → Returns (put keys key value s) (IsPut key value s)
  put-absent key value s pos f h = elim (ℕ_discrete (length s.index) s.capacity) [
    | yes e ↦
        let (x, ys, cut) = snoc_of_length s.cache (omega (arith, h.size_eq)) in
        let t : Lru K V = record s { cache = ys; index = Items.erase keys x s.index } in
        (
          insert keys key value t,
          put_full key value s t f e (evict_lem keys x ys s cut h),
          replace-IsPut key value x ys s f (sym h.size_eq ∙ e) cut h,
        )
    | no n ↦ (
      insert keys key value s,
      put_room key value s f n,
      insert-IsPut key value s f (omega (arith, h.size_eq, h.bound)) h,
    )
  ]

  -- For a cache with room for one item or more, `put` uses no null pointer. The key is then the most
  -- recently used of the items, of which the cache holds as many as its capacity allows, the least
  -- recently used being dropped; a value that is there already is kept, and so are the values of the
  -- other items.
  pub put-IsPut :
      (key : K) (value : V) (s : Lru K V)
      → 0 < s.capacity
      → IsValid keys s
      → Returns (put keys key value s) (IsPut key value s)
  put-IsPut key value s pos h = elim (Option-cases (Items.find keys key s.index)) [
    | inl f ↦ put-absent key value s pos f h
    | inr (old, f) ↦
        (promote keys key s, put_found key value old s f, promote-IsPut key value old s f h)
  ]

  -- What `get key` makes of `s`.
  pub record IsGot (key : K) (s t : Lru K V) : Type 0 where
    pub valid : IsValid keys t
    pub capacity_eq : t.capacity ≡ s.capacity
    pub order : t.cache ≡ (if mem keys key s.cache then used keys key s.cache else s.cache)
    pub kept : t.index ≡ s.index

  -- `get` answers with the value that the index has, or with a null pointer, and makes a key that is
  -- found the most recently used.
  pub get-IsGot :
      (key : K) (s : Lru K V)
      → IsValid keys s
      → ((get keys key s).0 ≡ Items.find keys key s.index) × IsGot key s (get keys key s).1
  unfolding get used promote
  get-IsGot key s h = elim (Option-cases (Items.find keys key s.index)) [
    | inl f ↦
        let m = sym (h.listed key) ∙ Items.mem-of_find-none keys key s.index f in
        (
          ground arith,
          rw (f, get) (record { valid = h; capacity_eq = refl; order = rw m refl; kept = refl }),
        )
    | inr (v, f) ↦
        let m = sym (h.listed key) ∙ Items.mem-of_find keys key s.index v f in
        (
          ground arith,
          rw (f, get)
              (record {
                valid = promote-IsValid keys key s m h;
                capacity_eq = refl;
                order = rw m refl;
                kept = refl;
              }),
        )
  ]
