-- ===== src/Cache/LruK/Put.antt =====
-- cache/detail/lru-k-inl.hpp: `put` on each branch.
use dsac.Prelude.{
  ◌-◌, ◌≡◌, refl, ap, sym, ◌∙◌, ◌∷◌, none, some, length, if◌then◌else◌, Returns, Option-cases, inl,
  inr, take,
}
use dsac.Cache.Keys.{Equality, mem, detach}
use dsac.Cache.Items
use dsac.Cache.Items.{Item, keys_of, length-keys_of}
use dsac.Cache.LruK.{LruK, promote, move_to_buffer, insert, put}
use dsac.Cache.LruK.Laws.{IsBounded, put_found, put_again, put_new, pop_history-HasRoom}
use dsac.Cache.LruK.Moves.{
  insert-IsBounded, promote-IsBounded, move_to_buffer-IsBounded, pop_buffer-HasSpace,
}

module _ {K V : Type 0} (keys : Equality K) where
  -- What `put key` makes of `s`.
  pub record IsMoved (key : K) (s t : LruK K V) : Type 0 where
    pub bounded : IsBounded keys t
    pub same_sizes : (t.capacity ≡ s.capacity) × (t.k ≡ s.k)
    pub history_order : t.history_cache ≡ (
        if mem keys key s.history_cache
        then detach keys key s.history_cache
        else if mem keys key s.buffer_cache
        then s.history_cache
        else take (s.capacity - length s.buffer_cache) (key ∷ s.history_cache))
    pub buffer_order : t.buffer_cache ≡ (
        if mem keys key s.history_cache
        then take s.k (key ∷ s.buffer_cache)
        else if mem keys key s.buffer_cache
        then key ∷ detach keys key s.buffer_cache
        else s.buffer_cache)

  put_found-IsMoved :
      (key : K) (value old : V) (s : LruK K V)
      → Items.find keys key s.history_index ≡ some old
      → IsBounded keys s
      → Returns (put keys key value s) (IsMoved key s)
  unfolding move_to_buffer
  put_found-IsMoved key value old s f h =
      let (t, pops, r) = pop_buffer-HasSpace keys s h in
      let m = sym (h.history_valid.listed key) ∙ Items.mem-of_find keys key s.history_index old f in
      (
        move_to_buffer keys key old t,
        put_found keys key value old s t f pops,
        record {
          bounded =
              move_to_buffer-IsBounded keys key old t (ap (mem keys key) r.same_history ∙ m) r.space
                r.bounded;
          same_sizes = r.same_sizes;
          history_order = rw (m, r.same_history) refl;
          buffer_order = rw m (r.cut key);
        },
      )

  put_again-IsMoved :
      (key : K) (value old : V) (s : LruK K V)
      → Items.find keys key s.history_index ≡ none
      → Items.find keys key s.buffer_index ≡ some old
      → IsBounded keys s
      → Returns (put keys key value s) (IsMoved key s)
  unfolding promote
  put_again-IsMoved key value old s f g h =
      let m =
        sym (h.history_valid.listed key) ∙ Items.mem-of_find-none keys key s.history_index f in
      let n = sym (h.buffer_valid.listed key) ∙ Items.mem-of_find keys key s.buffer_index old g in
      (
        promote keys key s,
        put_again keys key value old s f g,
        record {
          bounded = promote-IsBounded keys key s n h;
          same_sizes = (refl, refl);
          history_order = rw (m, n) refl;
          buffer_order = rw (m, n) refl;
        },
      )

  put_new-IsMoved :
      (key : K) (value : V) (s : LruK K V)
      → Items.find keys key s.history_index ≡ none
      → Items.find keys key s.buffer_index ≡ none
      → IsBounded keys s
      → Returns (put keys key value s) (IsMoved key s)
  unfolding insert
  put_new-IsMoved key value s f g h =
      let (t, pops, r) = pop_history-HasRoom keys s h in
      let m =
        sym (h.history_valid.listed key) ∙ Items.mem-of_find-none keys key s.history_index f in
      let n = sym (h.buffer_valid.listed key) ∙ Items.mem-of_find-none keys key s.buffer_index g in
      (
        insert keys key value t,
        put_new keys key value s t f g pops,
        record {
          bounded = insert-IsBounded keys key value s t m n r;
          same_sizes = r.same_sizes;
          history_order = rw (m, n) (r.cut key);
          buffer_order = rw (m, n) r.same_buffer;
        },
      )

  -- With 0 < k < capacity, and no buffer larger than k, `put` uses no null pointer, and the bounds still
  -- hold. A new key goes to the front of the history, which drops its last key if the cache was full; a
  -- key of the history moves to the front of the buffer, which keeps k keys; a key of the buffer moves
  -- to its front.
  pub put-IsMoved :
      (key : K) (value : V) (s : LruK K V)
      → IsBounded keys s
      → Returns (put keys key value s) (IsMoved key s)
  put-IsMoved key value s h = elim (Option-cases (Items.find keys key s.history_index)) [
    | inr (old, f) ↦ put_found-IsMoved key value old s f h
    | inl f ↦ elim (Option-cases (Items.find keys key s.buffer_index)) [
      | inr (old, g) ↦ put_again-IsMoved key value old s f g h
      | inl g ↦ put_new-IsMoved key value s f g h
    ]
  ]
