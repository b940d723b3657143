-- ===== src/Concurrency/FirstOf.antt =====
-- concurrency/futures/combine/first_of.hpp: the callbacks of all futures on one context. The exchange of `done_`
-- is a step, and so is `promise_.set`.
pub mod Laws
use dsac.Prelude.{ℕ, ◌≡◌, Bool, true, false, List, [], ◌∷◌, some, get_elem?, set}

-- where the callback of one future stands
pub data Place : Type 0 where
  pending : Place  -- the future has no result yet
  winning : Place  -- `exchange` gave false
  finished : Place

-- `struct context`; `promises` are the values that `promise_.set` was called with
pub record Context (A : Type 0) : Type 0 where
  pub done : Bool
  pub promises : List A
  pub places : List Place

module _ {A : Type 0} where
  abbrev pub waiting : List A → List Place
  waiting [] = []
  waiting (x ∷ xs) = pending ∷ waiting xs

  abbrev pub make : List A → Context A
  make results = record { done = false; promises = []; places = waiting results }

  pub data Step (results : List A) (c : Context A) : Context A → Type 0 where
    exchange_first :
        (i : ℕ)
        → get_elem? c.places i ≡ some pending
        → c.done ≡ false
        → Step results c (record c { done = true; places = set c.places i winning })
    exchange_late :
        (i : ℕ)
        → get_elem? c.places i ≡ some pending
        → c.done ≡ true
        → Step results c (record c { places = set c.places i finished })
    set_promise :
        (i : ℕ) (x : A)
        → get_elem? c.places i ≡ some winning
        → get_elem? results i ≡ some x
        → Step results c (record c { promises = x ∷ c.promises; places = set c.places i finished })
