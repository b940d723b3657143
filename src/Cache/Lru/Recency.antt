-- ===== src/Cache/Lru/Recency.antt =====
-- cache/lru.hpp: which items the cache holds after any sequence of calls.
use dsac.Prelude.{
  ℕ, zero, suc, ◌≤◌, ◌<◌, ◌≡◌, refl, ap, sym, ◌∙◌, Bool, true, false, List, [], ◌∷◌, arith,
  if◌then◌else◌, Returns, Bool-cases, inl, inr, take, take_all, length-take, take-take,
}
use dsac.Cache.Keys.{Equality, mem, detach, length-detach}
use dsac.Cache.Lru.{Lru, make, size, get, Call, call_put, call_get, call, run}
use dsac.Cache.Lru.Laws.{IsValid, make-IsValid}
use dsac.Cache.Lru.Put.{used, put-IsPut, get-IsGot}

module _ {K : Type 0} (keys : Equality K) where
  detach-take :
      (key : K) (n : ℕ) (xs : List K)
      → take n (detach keys key (take (suc n) xs)) ≡ take n (detach keys key xs)
  unfolding detach
  detach-take key zero xs = refl
  detach-take key (suc n) [] = refl
  detach-take key (suc n) (x ∷ xs) = elim (Bool-cases (keys.equal x key)) [
    | inl t ↦ rw t (take-take (suc n) xs)
    | inr f ↦ rw f (ap (◌∷◌ x) (detach-take key n xs))
  ]

  -- the keys in use before `n` are cut off, or after
  take-used :
      (key : K) (n : ℕ) (xs : List K)
      → take n (used keys key (take n xs)) ≡ take n (used keys key xs)
  unfolding used
  take-used key zero xs = refl
  take-used key (suc n) xs = ap (◌∷◌ key) (detach-take key n xs)

  -- a key that is not cut off stays within the cut
  take-used_hit :
      (key : K) (n : ℕ) (xs : List K)
      → mem keys key (take n xs) ≡ true
      → used keys key (take n xs) ≡ take n (used keys key xs)
  unfolding used
  take-used_hit key n xs h =
      sym (
        take_all n (key ∷ detach keys key (take n xs))
          (omega (arith, length-detach keys key (take n xs) h, length-take n xs)))
      ∙ take-used key n xs

-- All keys ever used, from the most recently used on. A `get` of a key that is not among the first
-- `capacity` of them is no use.
module _ {K V : Type 0} (keys : Equality K) (capacity : ℕ) where
  unfoldable pub use_call : Call K V → List K → List K
  use_call (call_put key value) recent = used keys key recent
  use_call (call_get key) recent =
      if mem keys key (take capacity recent) then used keys key recent else recent

  unfoldable pub use_all : List (Call K V) → List K → List K
  use_all [] recent = recent
  use_all (c ∷ cs) recent = use_all cs (use_call c recent)

module _ {K V : Type 0} (keys : Equality K) where
  -- the cache holds the first `capacity` of the keys in use
  record IsRecent (capacity : ℕ) (recent : List K) (s : Lru K V) : Type 0 where
    valid : IsValid keys s
    capacity_eq : s.capacity ≡ capacity
    held : s.cache ≡ take capacity recent

  call-IsRecent :
      (capacity : ℕ) (recent : List K) (c : Call K V) (s : Lru K V)
      → 0 < capacity
      → IsRecent capacity recent s
      → Returns (call keys c s) (IsRecent capacity (use_call keys capacity c recent))
  unfolding call use_call
  call-IsRecent capacity recent (call_put key value) s pos h =
      let (t, run, p) = put-IsPut keys key value s (omega (arith, h.capacity_eq)) h.valid in
      (
        t,
        run,
        record {
          valid = p.valid;
          capacity_eq = p.capacity_eq ∙ h.capacity_eq;
          held = p.order ∙ rw (h.capacity_eq, h.held) (take-used keys key capacity recent);
        },
      )
  call-IsRecent capacity recent (call_get key) s pos h =
      let (answer, g) = get-IsGot keys key s h.valid in
      (
        (get keys key s).1,
        refl,
        record {
          valid = g.valid;
          capacity_eq = g.capacity_eq ∙ h.capacity_eq;
          held = g.order ∙ rw h.held (held (mem keys key (take capacity recent)) refl);
        },
      )
    where
      held :
          (b : Bool)
          → mem keys key (take capacity recent) ≡ b
          → (if b then used keys key (take capacity recent) else take capacity recent)
            ≡ take capacity (if b then used keys key recent else recent)
      held true e = take-used_hit keys key capacity recent e
      held false e = refl

  run-IsRecent :
      (capacity : ℕ) (recent : List K) (cs : List (Call K V)) (s : Lru K V)
      → 0 < capacity
      → IsRecent capacity recent s
      → Returns (run keys cs s) (IsRecent capacity (use_all keys capacity cs recent))
  unfolding run use_all
  run-IsRecent capacity recent [] s pos h = (s, refl, h)
  run-IsRecent capacity recent (c ∷ cs) s pos h =
      let (t, once, h') = call-IsRecent capacity recent c s pos h in
      let (u, rest, done) = run-IsRecent capacity (use_call keys capacity c recent) cs t pos h' in
      (u, rw once rest, done)

  -- From an empty cache with room for one item or more, any sequence of calls of `put` and `get`
  -- returns, and leaves exactly the most recently used keys, in that order, as many as the capacity
  -- allows; `size` is never greater than the capacity.
  pub run_recent :
      (capacity : ℕ) (cs : List (Call K V))
      → 0 < capacity
      → Returns
          (run keys cs (make capacity))
          (λ t. (t.cache ≡ take capacity (use_all keys capacity cs [])) × (size keys t ≤ capacity))
  unfolding size
  run_recent capacity cs pos =
      let (t, returns, h) = run-IsRecent capacity [] cs (make capacity) pos (record {
        valid = make-IsValid keys capacity;
        capacity_eq = refl;
        held = sym (take_none capacity);
      }) in
      (t, returns, (h.held, omega (arith, h.valid.bound, h.valid.size_eq, h.capacity_eq)))
    where
      take_none : (n : ℕ) → take {A = K} n [] ≡ []
      take_none zero = refl
      take_none (suc n) = refl
