-- ===== src/Cache/LruK/Run.antt =====
-- cache/detail/lru-k-inl.hpp: runs of `put`, and what `get` makes of them.
use dsac.Prelude.{
  ℕ, ◌-◌, ◌^◌, ◌≤◌, ◌<◌, ◌≡◌, refl, ap, ◌∙◌, true, false, List, [], ◌∷◌, none, arith, length, ◌==◌,
  Returns,
}
use dsac.Cache.Keys.{Equality, pop_back, pop_back-empty, mem}
use dsac.Cache.Items
use dsac.Cache.Items.{Item, keys_of, length-keys_of}
use dsac.Cache.Lru.Laws
use dsac.Cache.Lru.Laws.{IsValid}
use dsac.Cache.LruK.{
  LruK, make, minus, size, pop_history, pop_at_history_cache_while_overflow, put, put_all,
}
use dsac.Cache.LruK.Laws.{IsBounded, minus_lem}
use dsac.Cache.LruK.Put.{put-IsMoved}

module _ {K V : Type 0} (keys : Equality K) where
  pub make-IsBounded :
      (capacity k : ℕ)
      → 0 < k
      → k < capacity
      → capacity < 2 ^ 64
      → IsBounded {V = V} keys (make capacity k)
  unfolding mem
  make-IsBounded capacity k pos small large = record {
    history_valid = Laws.make-IsValid keys capacity;
    buffer_valid = Laws.make-IsValid keys k;
    apart = λ key m. refl;
    total = omega arith;
    some_k = pos;
    k_small = small;
    capacity_small = large;
  }

  put_all-IsBounded :
      (entries : List (K × V)) (s : LruK K V)
      → IsBounded keys s
      → Returns
          (put_all keys entries s)
          (λ t. IsBounded keys t × (t.capacity ≡ s.capacity) × (t.k ≡ s.k))
  unfolding put_all
  put_all-IsBounded [] s h = (s, refl, (h, refl, refl))
  put_all-IsBounded ((key, value) ∷ rest) s h =
      let (t, once, p) = put-IsMoved keys key value s h in
      let (u, others, (done, c, e)) = put_all-IsBounded rest t p.bounded in
      (u, rw once others, (done, c ∙ p.same_sizes.0, e ∙ p.same_sizes.1))

  -- With 0 < k < capacity, any sequence of calls of `put` on a new cache returns. It then holds at most
  -- `capacity` items, of which at most k are in the buffer, and no key is in the history and in the
  -- buffer.
  pub put_all_bounded :
      (capacity k : ℕ) (entries : List (K × V))
      → 0 < k
      → k < capacity
      → capacity < 2 ^ 64
      → Returns (put_all keys entries (make capacity k)) (λ t.
        (size keys t ≤ capacity)
        × (length t.buffer_index ≤ k)
        × ((key : K) → mem keys key t.history_cache ≡ true → mem keys key t.buffer_cache ≡ false))
  unfolding size
  put_all_bounded capacity k entries pos small large =
      let (t, returns, (h, c, e)) =
        put_all-IsBounded entries (make capacity k) (make-IsBounded capacity k pos small large) in
      let a = h.history_valid.size_eq in
      let b = h.buffer_valid.size_eq in
      let bound = h.buffer_valid.bound in
      (t, returns, (omega (arith, h.total), omega arith, h.apart))

  -- A cache whose items are all in the buffer, as calls of `get` leave it, uses a null pointer when a new
  -- key is put and the cache is full.
  pub put_no_history :
      (key : K) (value : V) (s : LruK K V)
      → s.history_cache ≡ []
      → s.history_index ≡ []
      → length s.buffer_index ≡ s.capacity
      → s.capacity < 2 ^ 64
      → mem keys key (keys_of s.buffer_index) ≡ false
      → put keys key value s ≡ none
  unfolding put pop_at_history_cache_while_overflow pop_history Items.find
  put_no_history key value s c i full small new =
      let f = Items.find-none keys key s.buffer_index new in
      let m = minus_lem s.capacity (length s.history_index) (omega (arith, ap length i)) small in
      let n =
        minus_lem (s.capacity - length s.history_index) (length s.buffer_index)
          (omega (arith, ap length i)) (omega arith) in
      let g : Items.find keys key s.history_index ≡ none = ap (Items.find keys key) i in
      let p : pop_back s.history_cache ≡ none = ap pop_back c ∙ pop_back-empty in
      let e : (minus (minus s.capacity (length s.history_index)) (length s.buffer_index) == 0)
          ≡ true =
        rw (m, n) (let z = ap length i in ground arith) in
      rw (g, put, f, pop_at_history_cache_while_overflow, e, pop_history, p) refl
