-- ===== src/Concurrency/Mvar/Laws.antt =====
-- concurrency/synchronization/mvar.hpp: every value put is taken once, in order, and nobody sleeps who
-- could go on.
use mathlib.Core.List.{append-nil}
use dsac.Prelude.{
  ◌<◌, ◌≡◌, refl, true, false, List, [], ◌∷◌, ◌++◌, Option, none, some, arith, inl, inr,
  Option-cases,
}
use dsac.Concurrency.Run.{Reach, Reach-invariant}
use dsac.Concurrency.Mvar.{
  Mvar, Step, make, put, take, read_only, is_empty, call_put, call_take, call_read_only, wake_value,
  wake_free,
}

module _ {T : Type 0} where
  -- the value that is stored, if any
  abbrev pub pending : Option T → List T
  pending none = []
  pending (some x) = x ∷ []

  record IsValid (m : Mvar T) : Type 0 where
    history : m.produced ≡ m.consumed ++ pending m.storage
    value_sleepers : 0 < m.asleep_until_value → is_empty m ≡ true
    free_sleepers : 0 < m.asleep_until_free → is_empty m ≡ false

  put-IsValid : (x : T) (m : Mvar T) → IsValid m → IsValid (put x m)
  unfolding put is_empty
  put-IsValid x m h = ground (arith, append-nil m.consumed)

  take-IsValid : (m : Mvar T) → IsValid m → IsValid (take m)
  unfolding take is_empty
  take-IsValid m h = elim (Option-cases m.storage) [
    | inl e ↦ ground arith
    | inr (y, e) ↦ ground (arith, append-nil (m.consumed ++ y ∷ []))
  ]

  Step-IsValid : (s t : Mvar T) → Step s t → IsValid s → IsValid t
  unfolding read_only is_empty
  Step-IsValid s _ (call_put x) h = put-IsValid x s h
  Step-IsValid s _ call_take h = take-IsValid s h
  Step-IsValid s _ call_read_only h = ground arith
  Step-IsValid s _ (wake_value p) h = record {
    history = h.history;
    value_sleepers = λ q. h.value_sleepers p;
    free_sleepers = h.free_sleepers;
  }
  Step-IsValid s _ (wake_free p) h = record {
    history = h.history;
    value_sleepers = h.value_sleepers;
    free_sleepers = λ q. h.free_sleepers p;
  }

  -- From the default constructor on, in every interleaving, the values taken are the values put, in the order of the puts and each once,
  -- up to the one that is stored; a thread sleeps in `take` or `read_only` only while the slot is empty,
  -- and in `put` only while it is full.
  pub Reach-history :
      {m : Mvar T}
      → Reach Step make m
      → (m.produced ≡ m.consumed ++ pending m.storage)
        × (0 < m.asleep_until_value → is_empty m ≡ true)
        × (0 < m.asleep_until_free → is_empty m ≡ false)
  unfolding is_empty
  Reach-history r =
      let h = Reach-invariant IsValid Step-IsValid r (record {
        history = refl;
        value_sleepers = λ p. refl;
        free_sleepers = λ p. absurd (omega arith);
      }) in
      (h.history, h.value_sleepers, h.free_sleepers)
