-- ===== src/Cache/Lru/Laws.antt =====
-- cache/detail/lru-inl.hpp: the bound, and the values that are kept.
use dsac.Prelude.{
  ℕ, suc, ◌+◌, ◌≤◌, ◌<◌, ◌≡◌, refl, ap, sym, subst, ◌∙◌, true, false, List, [], ◌∷◌, ◌++◌, some,
  arith, length, Option-cases, inl, inr, length-append,
}
use dsac.Cache.Keys.{
  Equality, detach, pop_back, pop_back-snoc, mem, Distinct, mem-detach, length-detach,
  detach-Distinct, mem-snoc, Distinct-snoc,
}
use dsac.Cache.Items
use dsac.Cache.Items.{Item, keys_of, length-keys_of}
use dsac.Cache.Lru.{Lru, make, promote, evict, insert}

module _ {K V : Type 0} (keys : Equality K) where
  -- The list and the index hold the same items, each once, and not more than the capacity.
  pub record IsValid (s : Lru K V) : Type 0 where
    pub listed : (k : K) → mem keys k (keys_of s.index) ≡ mem keys k s.cache
    pub size_eq : length s.index ≡ length s.cache
    pub distinct : Distinct keys s.cache
    pub distinct_index : Distinct keys (keys_of s.index)
    pub bound : length s.cache ≤ s.capacity

  pub make-IsValid : (capacity : ℕ) → IsValid (make capacity)
  unfolding mem
  make-IsValid capacity = record {
    listed = λ k. refl;
    size_eq = refl;
    distinct = tt;
    distinct_index = tt;
    bound = omega arith;
  }

  pub promote-IsValid :
      (key : K) (s : Lru K V)
      → mem keys key s.cache ≡ true
      → IsValid s
      → IsValid (promote keys key s)
  unfolding promote mem
  promote-IsValid key s m h = record {
    listed = λ k.
        ground (arith, h.listed k, mem-detach keys k key s.cache h.distinct, keys.equal→≡ key k);
    size_eq = h.size_eq ∙ sym (length-detach keys key s.cache m);
    distinct = (
      ground (arith, mem-detach keys key key s.cache h.distinct, keys.equal_refl key),
      detach-Distinct keys key s.cache h.distinct,
    );
    distinct_index = h.distinct_index;
    bound = omega (arith, h.bound, length-detach keys key s.cache m);
  }

  pub insert-IsValid :
      (key : K) (value : V) (s : Lru K V)
      → mem keys key s.cache ≡ false
      → length s.cache < s.capacity
      → IsValid s
      → IsValid (insert keys key value s)
  unfolding insert mem
  insert-IsValid key value s m room h = record {
    listed = λ k. ground (arith, h.listed k);
    size_eq = ap suc h.size_eq;
    distinct = (m, h.distinct);
    distinct_index = (h.listed key ∙ m, h.distinct_index);
    bound = omega arith;
  }

  pub evict-IsValid :
      (x : K) (ys : List K) (s : Lru K V)
      → s.cache ≡ ys ++ x ∷ []
      → IsValid s
      → IsValid (record s { cache = ys; index = Items.erase keys x s.index })
  evict-IsValid x ys s e h =
      let (distinct, fresh) = Distinct-snoc keys x ys (subst (Distinct keys) e h.distinct) in
      let m : mem keys x (keys_of s.index) ≡ true =
        h.listed x ∙ ap (mem keys x) e ∙ ground (arith, mem-snoc keys x x ys, keys.equal_refl x) in
      let len = length-append ys (x ∷ []) in
      let total : length s.cache ≡ length ys + 1 = ap length e ∙ len in
      record {
        listed = λ k.
            ap (mem keys k) (Items.keys_of-erase keys x s.index)
            ∙ ground (
              arith,
              h.listed k,
              ap (mem keys k) e,
              mem-snoc keys k x ys,
              mem-detach keys k x (keys_of s.index) h.distinct_index,
              keys.equal→≡ x k,
            );
        size_eq = omega (
          arith,
          h.size_eq,
          length-keys_of s.index,
          length-keys_of (Items.erase keys x s.index),
          ap length (Items.keys_of-erase keys x s.index),
          length-detach keys x (keys_of s.index) m,
        );
        distinct = distinct;
        distinct_index =
            subst (Distinct keys) (sym (Items.keys_of-erase keys x s.index))
              (detach-Distinct keys x (keys_of s.index) h.distinct_index);
        bound = omega (arith, h.bound);
      }

  pub evict_lem :
      (x : K) (ys : List K) (s : Lru K V)
      → s.cache ≡ ys ++ x ∷ []
      → IsValid s
      → evict keys s ≡ some (record s { cache = ys; index = Items.erase keys x s.index })
  unfolding evict
  evict_lem x ys s e h =
      let popped : pop_back s.cache ≡ some (x, ys) = ap pop_back e ∙ pop_back-snoc ys x in
      let m : mem keys x (keys_of s.index) ≡ true =
        h.listed x ∙ ap (mem keys x) e ∙ ground (arith, mem-snoc keys x x ys, keys.equal_refl x) in
      elim (Option-cases (Items.find keys x s.index)) [
        | inl n ↦ absurd (let f = Items.mem-of_find-none keys x s.index n in cc)
        | inr (v, f) ↦ rw (popped, f) refl
      ]

  -- an item that is taken out of both
  pub detach-IsValid :
      (key : K) (s : Lru K V)
      → mem keys key s.cache ≡ true
      → IsValid s
      → IsValid (record s { cache = detach keys key s.cache; index = Items.erase keys key s.index })
  detach-IsValid key s m h =
      let i = h.listed key ∙ m in
      let e = Items.keys_of-erase keys key s.index in
      record {
        listed = λ k.
            ap (mem keys k) e
            ∙ ground (
              arith,
              h.listed k,
              mem-detach keys k key (keys_of s.index) h.distinct_index,
              mem-detach keys k key s.cache h.distinct,
            );
        size_eq = omega (
          arith,
          h.size_eq,
          length-keys_of s.index,
          length-keys_of (Items.erase keys key s.index),
          ap length e,
          length-detach keys key (keys_of s.index) i,
          length-detach keys key s.cache m,
        );
        distinct = detach-Distinct keys key s.cache h.distinct;
        distinct_index =
            subst (Distinct keys) (sym e)
              (detach-Distinct keys key (keys_of s.index) h.distinct_index);
        bound = omega (arith, h.bound, length-detach keys key s.cache m);
      }
