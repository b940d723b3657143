-- ===== src/Concurrency/Mvar.antt =====
-- concurrency/synchronization/mvar.hpp, the template `mvar<T>`: a slot for one value. A call runs under
-- `mutex_` until it returns or waits; a woken thread tests its predicate again as a new call does.
pub mod Laws
use dsac.Prelude.{ℕ, ◌+◌, ◌-◌, ◌<◌, ◌≡◌, Bool, true, false, List, [], ◌∷◌, ◌++◌, Option, none, some}

pub record Mvar (T : Type 0) : Type 0 where
  pub storage : Option T
  pub asleep_until_value : ℕ  -- in `has_value_storage_.wait`
  pub asleep_until_free : ℕ  -- in `not_value_storage_.wait`
  pub produced : List T  -- what the calls of `put` that returned have put, oldest first
  pub consumed : List T  -- what the calls of `take` have returned, oldest first

-- `mvar<void>`, whose `contains_` is whether a value is stored
abbrev pub MvarVoid : Type 0
MvarVoid = Mvar Unit

abbrev pub make : {T : Type 0} → Mvar T
make = record {
  storage = none;
  asleep_until_value = 0;
  asleep_until_free = 0;
  produced = [];
  consumed = [];
}

module _ {T : Type 0} where
  -- `notify_all` leaves nobody asleep
  unfoldable pub put : T → Mvar T → Mvar T
  put x m = elim m.storage [
    | none ↦ record m { storage = some x; asleep_until_value = 0; produced = m.produced ++ x ∷ [] }
    | some _ ↦ record m { asleep_until_free = m.asleep_until_free + 1 }
  ]

  unfoldable pub take : Mvar T → Mvar T
  take m = elim m.storage [
    | none ↦ record m { asleep_until_value = m.asleep_until_value + 1 }
    | some x ↦ record m { storage = none; asleep_until_free = 0; consumed = m.consumed ++ x ∷ [] }
  ]

  unfoldable pub read_only : Mvar T → Mvar T
  read_only m = elim m.storage [
    | none ↦ record m { asleep_until_value = m.asleep_until_value + 1 }
    | some _ ↦ m
  ]

  unfoldable pub is_empty : Mvar T → Bool
  is_empty m = elim m.storage [ none ↦ true | some _ ↦ false ]

  pub data Step (m : Mvar T) : Mvar T → Type 0 where
    call_put : (x : T) → Step m (put x m)
    call_take : Step m (take m)
    call_read_only : Step m (read_only m)
    wake_value :
        0 < m.asleep_until_value
        → Step m (record m { asleep_until_value = m.asleep_until_value - 1 })
    wake_free :
        0 < m.asleep_until_free → Step m (record m { asleep_until_free = m.asleep_until_free - 1 })
