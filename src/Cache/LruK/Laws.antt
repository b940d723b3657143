-- ===== src/Cache/LruK/Laws.antt =====
-- cache/detail/lru-k-inl.hpp: the bounds of the history and of the buffer.
use dsac.Prelude.{
  ℕ, suc, ◌+◌, ◌-◌, ◌^◌, ◌≤◌, ◌<◌, ◌≡◌, ◌≢◌, refl, ap, sym, ◌∙◌, true, false, List, [], ◌∷◌, ◌++◌,
  none, some, arith, length, ◌==◌, Returns, length-append, take, take_all, take-append, ℕ_discrete,
}
use dsac.Cache.Keys.{Equality, pop_back, pop_back-snoc, snoc_of_length, mem, mem-snoc}
use dsac.Cache.Items
use dsac.Cache.Items.{Item, keys_of, length-keys_of}
use dsac.Cache.Lru.{Lru}
use dsac.Cache.Lru.Laws
use dsac.Cache.Lru.Laws.{IsValid}
use dsac.Cache.LruK.{
  LruK, minus, promote, move_to_buffer, pop_history, pop_at_history_cache_while_overflow,
  pop_at_buffer_cache_while_overflow, insert, put,
}

pub minus_lem : (a b : ℕ) → b ≤ a → a < 2 ^ 64 → minus a b ≡ a - b
minus_lem a b h w = omega arith

module _ {K V : Type 0} (keys : Equality K) where
  -- Each of the two lists with its index is like a cache of its own.
  abbrev pub history : LruK K V → Lru K V
  history s = record { capacity = s.capacity; cache = s.history_cache; index = s.history_index }

  abbrev pub buffer : LruK K V → Lru K V
  buffer s = record { capacity = s.k; cache = s.buffer_cache; index = s.buffer_index }

  pub record IsBounded (s : LruK K V) : Type 0 where
    pub history_valid : IsValid keys (history s)
    pub buffer_valid : IsValid keys (buffer s)
    pub apart :
        (key : K) → mem keys key s.history_cache ≡ true → mem keys key s.buffer_cache ≡ false
    pub total : length s.history_cache + length s.buffer_cache ≤ s.capacity
    pub some_k : 0 < s.k
    pub k_small : s.k < s.capacity
    pub capacity_small : s.capacity < 2 ^ 64

  pub put_found :
      (key : K) (value old : V) (s t : LruK K V)
      → Items.find keys key s.history_index ≡ some old
      → pop_at_buffer_cache_while_overflow keys s ≡ some t
      → put keys key value s ≡ some (move_to_buffer keys key old t)
  unfolding put
  put_found key value old s t f e = rw (f, put, e) refl

  pub put_again :
      (key : K) (value old : V) (s : LruK K V)
      → Items.find keys key s.history_index ≡ none
      → Items.find keys key s.buffer_index ≡ some old
      → put keys key value s ≡ some (promote keys key s)
  unfolding put
  put_again key value old s f g = rw (f, put, g) refl

  pub put_new :
      (key : K) (value : V) (s t : LruK K V)
      → Items.find keys key s.history_index ≡ none
      → Items.find keys key s.buffer_index ≡ none
      → pop_at_history_cache_while_overflow keys s ≡ some t
      → put keys key value s ≡ some (insert keys key value t)
  unfolding put
  put_new key value s t f g e = rw (f, put, g, e) refl

  popped : K → List K → LruK K V → LruK K V
  popped x ys s = record s {
    history_cache = ys;
    history_index = Items.erase keys x s.history_index;
  }

  popped-IsBounded :
      (x : K) (ys : List K) (s : LruK K V)
      → s.history_cache ≡ ys ++ x ∷ []
      → IsBounded s
      → IsBounded (popped x ys s)
  unfolding popped
  popped-IsBounded x ys s e h = record {
    history_valid = Laws.evict-IsValid keys x ys (history s) e h.history_valid;
    buffer_valid = h.buffer_valid;
    apart = λ key m. h.apart key (ap (mem keys key) e ∙ ground (arith, mem-snoc keys key x ys));
    total = omega (arith, h.total, ap length e, length-append ys (x ∷ []));
    some_k = h.some_k;
    k_small = h.k_small;
    capacity_small = h.capacity_small;
  }

  -- the history is full or not
  history_full :
      (s : LruK K V)
      → IsBounded s
      → length s.history_cache + length s.buffer_cache ≡ s.capacity
      → (minus (minus s.capacity (length s.history_index)) (length s.buffer_index) == 0) ≡ true
  history_full s h e =
      let a =
        minus_lem s.capacity (length s.history_index) (omega (arith, h.history_valid.size_eq))
          h.capacity_small in
      let b =
        minus_lem (s.capacity - length s.history_index) (length s.buffer_index)
          (omega (arith, h.history_valid.size_eq, h.buffer_valid.size_eq))
          (omega (arith, h.capacity_small)) in
      let c = h.history_valid.size_eq in let d = h.buffer_valid.size_eq in rw (a, b) (ground arith)

  history_room :
      (s : LruK K V)
      → IsBounded s
      → length s.history_cache + length s.buffer_cache ≢ s.capacity
      → (minus (minus s.capacity (length s.history_index)) (length s.buffer_index) == 0) ≡ false
  history_room s h e =
      let t = h.total in
      let c = h.history_valid.size_eq in
      let d = h.buffer_valid.size_eq in
      let a = minus_lem s.capacity (length s.history_index) (omega arith) h.capacity_small in
      let b =
        minus_lem (s.capacity - length s.history_index) (length s.buffer_index) (omega arith)
          (omega (arith, h.capacity_small)) in
      rw (a, b) (ground arith)

  -- What is left where the history had to make room.
  pub record HasRoom (s t : LruK K V) : Type 0 where
    pub bounded : IsBounded t
    pub room : length t.history_cache + length t.buffer_cache < t.capacity
    pub kept : (key : K) → mem keys key t.history_cache ≡ true → mem keys key s.history_cache ≡ true
    pub same_buffer : t.buffer_cache ≡ s.buffer_cache
    pub same_index : t.buffer_index ≡ s.buffer_index
    pub same_sizes : (t.capacity ≡ s.capacity) × (t.k ≡ s.k)
    pub cut :
        (key : K)
        → key ∷ t.history_cache ≡ take (s.capacity - length s.buffer_cache) (key ∷ s.history_cache)

  pop_history_lem :
      (x : K) (ys : List K) (s : LruK K V)
      → s.history_cache ≡ ys ++ x ∷ []
      → pop_history keys s ≡ some (popped x ys s)
  unfolding pop_history popped
  pop_history_lem x ys s e =
      let p : pop_back s.history_cache ≡ some (x, ys) = ap pop_back e ∙ pop_back-snoc ys x in
      rw p refl

  pop_history_if_full :
      (s t : LruK K V)
      → (minus (minus s.capacity (length s.history_index)) (length s.buffer_index) == 0) ≡ true
      → pop_history keys s ≡ some t
      → pop_at_history_cache_while_overflow keys s ≡ some t
  unfolding pop_at_history_cache_while_overflow
  pop_history_if_full s t e f = rw (pop_at_history_cache_while_overflow, e) f

  pop_history_if_room :
      (s : LruK K V)
      → (minus (minus s.capacity (length s.history_index)) (length s.buffer_index) == 0) ≡ false
      → pop_at_history_cache_while_overflow keys s ≡ some s
  unfolding pop_at_history_cache_while_overflow
  pop_history_if_room s e = rw (pop_at_history_cache_while_overflow, e) refl

  pub pop_history-HasRoom :
      (s : LruK K V)
      → IsBounded s
      → Returns (pop_at_history_cache_while_overflow keys s) (HasRoom s)
  unfolding popped
  pop_history-HasRoom s h =
      elim (ℕ_discrete (length s.history_cache + length s.buffer_cache) s.capacity) [
        | yes e ↦
            let (x, ys, cut) =
              snoc_of_length s.history_cache (omega (arith, h.buffer_valid.bound, h.k_small)) in
            (
              popped x ys s,
              pop_history_if_full s (popped x ys s) (history_full s h e)
                  (pop_history_lem x ys s cut),
              record {
                bounded = popped-IsBounded x ys s cut h;
                room = omega (arith, ap length cut, length-append ys (x ∷ []));
                kept = λ key m. ap (mem keys key) cut ∙ ground (arith, mem-snoc keys key x ys);
                same_buffer = refl;
                same_index = refl;
                same_sizes = (refl, refl);
                cut = λ key.
                    cut_full key x ys (s.capacity - length s.buffer_cache) cut
                      (omega (arith, ap length cut, length-append ys (x ∷ [])));
              },
            )
        | no n ↦ (
          s,
          pop_history_if_room s (history_room s h n),
          record {
            bounded = h;
            room = omega (arith, h.total);
            kept = λ key m. m;
            same_buffer = refl;
            same_index = refl;
            same_sizes = (refl, refl);
            cut = λ key. sym (
                take_all (s.capacity - length s.buffer_cache) (key ∷ s.history_cache)
                  (omega (arith, h.total)));
          },
        )
      ]
    where
      cut_full :
          (key x : K) (ys : List K) (n : ℕ)
          → s.history_cache ≡ ys ++ x ∷ []
          → n ≡ suc (length ys)
          → key ∷ ys ≡ take n (key ∷ s.history_cache)
      cut_full key x ys n e m = rw (m, e) (ap (◌∷◌ key) (sym (take-append ys (x ∷ []))))
