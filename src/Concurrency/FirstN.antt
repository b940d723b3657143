-- ===== src/Concurrency/FirstN.antt =====
-- concurrency/futures/combine/first_n.hpp: the callbacks of all futures on one context. Each access to
-- `completed` and `stored` is a step, and so are a store to `v`, and the loop over `v` with `promise_.set`.
pub mod Counting
pub mod Laws
use dsac.Prelude.{
  ℕ, suc, ◌+◌, ◌≤◌, ◌<◌, ◌≡◌, Bool, true, false, List, [], ◌∷◌, ◌++◌, Option, none, some, length,
  get_elem?, set, ltb, if◌then◌else◌,
}

-- where the callback of one future stands
pub data Place : Type 0 where
  pending : Place  -- the future has no result yet
  counted : Place  -- among the first `min`
  written : Place  -- the result is in `v`
  last : Place  -- the one that sets the promise
  finished : Place
  late : Place  -- returned, `c > ctx->min`

-- `struct context`; `promises` are the values that `promise_.set` was called with
pub record Context (A : Type 0) : Type 0 where
  pub v : List (Option A)
  pub min : ℕ
  pub completed : ℕ
  pub stored : ℕ
  pub promises : List (List A)
  pub places : List Place

module _ {A : Type 0} where
  abbrev pub nothing : List A → List (Option A)
  nothing [] = []
  nothing (x ∷ xs) = none ∷ nothing xs

  abbrev pub waiting : List A → List Place
  waiting [] = []
  waiting (x ∷ xs) = pending ∷ waiting xs

  -- the context of the futures whose results will be `results`
  abbrev pub make : List A → ℕ → Context A
  make results n = record {
    v = nothing results;
    min = n;
    completed = 0;
    stored = 0;
    promises = [];
    places = waiting results;
  }

  -- `none` is `make_future_on_error`
  abbrev pub first_n : List A → ℕ → Option (Context A)
  first_n results n = if ltb (length results) n then none else some (make results n)

  -- the loop that builds `result_computation`
  abbrev pub collect : List (Option A) → List A
  collect [] = []
  collect (none ∷ v) = collect v
  collect (some x ∷ v) = x ∷ collect v

  -- A step of the callback of the future `i`, in the context `c`.
  pub data Step (results : List A) (c : Context A) : Context A → Type 0 where
    count_in :
        (i : ℕ)
        → get_elem? c.places i ≡ some pending
        → 1 + c.completed ≤ c.min
        → Step results c (record c { completed = 1 + c.completed; places = set c.places i counted })
    count_late :
        (i : ℕ)
        → get_elem? c.places i ≡ some pending
        → c.min < 1 + c.completed
        → Step results c (record c { completed = 1 + c.completed; places = set c.places i late })
    store :
        (i : ℕ) (x : A)
        → get_elem? c.places i ≡ some counted
        → get_elem? results i ≡ some x
        → Step results c (record c { v = set c.v i (some x); places = set c.places i written })
    add_more :
        (i : ℕ)
        → get_elem? c.places i ≡ some written
        → 1 + c.stored < c.min
        → Step results c (record c { stored = 1 + c.stored; places = set c.places i finished })
    add_last :
        (i : ℕ)
        → get_elem? c.places i ≡ some written
        → c.min ≤ 1 + c.stored
        → Step results c (record c { stored = 1 + c.stored; places = set c.places i last })
    set_promise :
        (i : ℕ)
        → get_elem? c.places i ≡ some last
        → Step results c
            (record c { promises = collect c.v ∷ c.promises; places = set c.places i finished })
