-- ===== src/Cache/LruK/Moves.antt =====
-- cache/detail/lru-k-inl.hpp: the moves of an item between the lists keep the bounds.
use dsac.Prelude.{
  ℕ, suc, ◌<◌, ◌≡◌, refl, ap, sym, ◌∙◌, true, false, List, [], ◌∷◌, ◌++◌, some, arith, length, ◌==◌,
  Returns, length-append, take, take_all, take-append, ℕ_discrete,
}
use dsac.Cache.Keys.{
  Equality, pop_back, pop_back-snoc, snoc_of_length, mem, mem-detach, length-detach, mem-snoc,
}
use dsac.Cache.Items
use dsac.Cache.Items.{Item, keys_of, length-keys_of}
use dsac.Cache.Lru
use dsac.Cache.Lru.{Lru}
use dsac.Cache.Lru.Laws
use dsac.Cache.Lru.Laws.{IsValid}
use dsac.Cache.LruK.{
  LruK, minus, promote, move_to_buffer, pop_buffer, pop_at_buffer_cache_while_overflow, insert,
}
use dsac.Cache.LruK.Laws.{history, buffer, IsBounded, minus_lem, HasRoom}

module _ {K V : Type 0} (keys : Equality K) where
  pub insert-IsBounded :
      (key : K) (value : V) (s t : LruK K V)
      → mem keys key s.history_cache ≡ false
      → mem keys key s.buffer_cache ≡ false
      → HasRoom keys s t
      → IsBounded keys (insert keys key value t)
  unfolding insert Lru.insert mem
  insert-IsBounded key value s t f g h =
      let b = h.bounded in
      let absent : mem keys key t.history_cache ≡ false = ground (arith, h.kept key) in
      record {
        history_valid =
            Laws.insert-IsValid keys key value (history keys t) absent (omega (arith, h.room))
              b.history_valid;
        buffer_valid = b.buffer_valid;
        apart = λ j m. ground (arith, b.apart j, ap (mem keys j) h.same_buffer, keys.equal→≡ key j);
        total = omega (arith, h.room);
        some_k = b.some_k;
        k_small = b.k_small;
        capacity_small = b.capacity_small;
      }

  pub promote-IsBounded :
      (key : K) (s : LruK K V)
      → mem keys key s.buffer_cache ≡ true
      → IsBounded keys s
      → IsBounded keys (promote keys key s)
  unfolding promote Lru.promote mem
  promote-IsBounded key s m h = record {
    history_valid = h.history_valid;
    buffer_valid = Laws.promote-IsValid keys key (buffer keys s) m h.buffer_valid;
    apart = λ j i. ground (
      arith,
      h.apart j,
      h.apart key,
      mem-detach keys j key s.buffer_cache h.buffer_valid.distinct,
      keys.equal→≡ key j,
    );
    total = omega (arith, h.total, length-detach keys key s.buffer_cache m);
    some_k = h.some_k;
    k_small = h.k_small;
    capacity_small = h.capacity_small;
  }

  pub move_to_buffer-IsBounded :
      (key : K) (value : V) (s : LruK K V)
      → mem keys key s.history_cache ≡ true
      → length s.buffer_cache < s.k
      → IsBounded keys s
      → IsBounded keys (move_to_buffer keys key value s)
  unfolding move_to_buffer Lru.insert mem
  move_to_buffer-IsBounded key value s m room h =
      let len = length-detach keys key s.history_cache m in
      record {
        history_valid = Laws.detach-IsValid keys key (history keys s) m h.history_valid;
        buffer_valid =
            Laws.insert-IsValid keys key value (buffer keys s) (h.apart key m) room h.buffer_valid;
        apart = λ j i.
            ground
              (arith, h.apart j, mem-detach keys j key s.history_cache h.history_valid.distinct);
        total = omega (arith, h.total);
        some_k = h.some_k;
        k_small = h.k_small;
        capacity_small = h.capacity_small;
      }

  -- What is left where the buffer had to make room.
  pub record HasSpace (s t : LruK K V) : Type 0 where
    pub bounded : IsBounded keys t
    pub space : length t.buffer_cache < t.k
    pub same_history : t.history_cache ≡ s.history_cache
    pub same_sizes : (t.capacity ≡ s.capacity) × (t.k ≡ s.k)
    pub cut : (key : K) → key ∷ t.buffer_cache ≡ take s.k (key ∷ s.buffer_cache)

  shrunk : K → List K → LruK K V → LruK K V
  shrunk x ys s = record s { buffer_cache = ys; buffer_index = Items.erase keys x s.buffer_index }

  shrunk-IsBounded :
      (x : K) (ys : List K) (s : LruK K V)
      → s.buffer_cache ≡ ys ++ x ∷ []
      → IsBounded keys s
      → IsBounded keys (shrunk x ys s)
  unfolding shrunk
  shrunk-IsBounded x ys s e h = record {
    history_valid = h.history_valid;
    buffer_valid = Laws.evict-IsValid keys x ys (buffer keys s) e h.buffer_valid;
    apart = λ key m. ground (arith, h.apart key, ap (mem keys key) e, mem-snoc keys key x ys);
    total = omega (arith, h.total, ap length e, length-append ys (x ∷ []));
    some_k = h.some_k;
    k_small = h.k_small;
    capacity_small = h.capacity_small;
  }

  pop_buffer_if_full :
      (x : K) (ys : List K) (s : LruK K V)
      → (minus s.k (length s.buffer_index) == 0) ≡ true
      → s.buffer_cache ≡ ys ++ x ∷ []
      → pop_at_buffer_cache_while_overflow keys s ≡ some (shrunk x ys s)
  unfolding pop_at_buffer_cache_while_overflow pop_buffer shrunk
  pop_buffer_if_full x ys s e f =
      let p : pop_back s.buffer_cache ≡ some (x, ys) = ap pop_back f ∙ pop_back-snoc ys x in
      rw (pop_at_buffer_cache_while_overflow, e, p) refl

  pop_buffer_if_room :
      (s : LruK K V)
      → (minus s.k (length s.buffer_index) == 0) ≡ false
      → pop_at_buffer_cache_while_overflow keys s ≡ some s
  unfolding pop_at_buffer_cache_while_overflow
  pop_buffer_if_room s e = rw (pop_at_buffer_cache_while_overflow, e) refl

  pub pop_buffer-HasSpace :
      (s : LruK K V)
      → IsBounded keys s
      → Returns (pop_at_buffer_cache_while_overflow keys s) (HasSpace s)
  unfolding shrunk
  pop_buffer-HasSpace s h =
      let size = h.buffer_valid.size_eq in
      let bound = h.buffer_valid.bound in
      let small = h.k_small in
      let large = h.capacity_small in
      let m = minus_lem s.k (length s.buffer_index) (omega arith) (omega arith) in
      elim (ℕ_discrete (length s.buffer_cache) s.k) [
        | yes e ↦
            let (x, ys, cut) = snoc_of_length s.buffer_cache (omega (arith, h.some_k)) in
            (
              shrunk x ys s,
              pop_buffer_if_full x ys s (rw m (ground arith)) cut,
              record {
                bounded = shrunk-IsBounded x ys s cut h;
                space = omega (arith, ap length cut, length-append ys (x ∷ []));
                same_history = refl;
                same_sizes = (refl, refl);
                cut = λ key.
                    cut_full key x ys s.k cut
                      (omega (arith, ap length cut, length-append ys (x ∷ [])));
              },
            )
        | no n ↦ (
          s,
          pop_buffer_if_room s (rw m (ground arith)),
          record {
            bounded = h;
            space = omega arith;
            same_history = refl;
            same_sizes = (refl, refl);
            cut = λ key. sym (take_all s.k (key ∷ s.buffer_cache) (omega arith));
          },
        )
      ]
    where
      cut_full :
          (key x : K) (ys : List K) (n : ℕ)
          → s.buffer_cache ≡ ys ++ x ∷ []
          → n ≡ suc (length ys)
          → key ∷ ys ≡ take n (key ∷ s.buffer_cache)
      cut_full key x ys n e m = rw (m, e) (ap (◌∷◌ key) (sym (take-append ys (x ∷ []))))
