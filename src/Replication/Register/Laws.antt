-- ===== src/Replication/Register/Laws.antt =====
-- infrastructure/inmemory/detail/register.cpp: what any order of writes leaves in a register.
use dsac.Prelude.{
  ℕ, ◌≤◌, ◌≡◌, ◌≢◌, refl, none, some, List, [], ◌∷◌, ◌⊎◌, inl, inr, arith, All, Any, ltb, ltb→lt,
  Bool-cases, ap, sym,
}
use dsac.Replication.Register.{RegisterValueObject, Register, write, read}

-- `register` is set, with a timestamp of at least `t`
abbrev pub IsAtLeast : ℕ → Register → Type 0
IsAtLeast t none = ⊥
IsAtLeast t (some r) = t ≤ r.timestamp

pub write-IsAtLeast_self :
    (o : RegisterValueObject) (register : Register) → IsAtLeast o.timestamp (write o register)
unfolding write
write-IsAtLeast_self o register = ground arith

pub write-IsAtLeast :
    (t : ℕ) (o : RegisterValueObject) (register : Register)
    → IsAtLeast t register
    → IsAtLeast t (write o register)
unfolding write
write-IsAtLeast t o register h = ground arith

-- Writes with different timestamps may be delivered in either order.
write-write_comm :
    (a b : RegisterValueObject) (register : Register)
    → a.timestamp ≢ b.timestamp
    → write a (write b register) ≡ write b (write a register)
unfolding write
write-write_comm a b register h = ground arith

-- The messages delivered to a node, in the order of their arrival.
unfoldable pub deliver : List RegisterValueObject → Register → Register
deliver [] register = register
deliver (o ∷ os) register = deliver os (write o register)

deliver-some :
    (old : RegisterValueObject) (os : List RegisterValueObject)
    → (r : RegisterValueObject) × (deliver os (some old) ≡ some r)
      × (old.timestamp ≤ r.timestamp)
      × All (λ w. w.timestamp ≤ r.timestamp) os
      × ((r ≡ old) ⊎ Any (λ w. r ≡ w) os)
unfolding deliver write
deliver-some old [] = (old, refl, omega arith, tt, inl refl)
deliver-some old (o ∷ os) = elim (Bool-cases (ltb old.timestamp o.timestamp)) [
  | inl t ↦
      let (r, run, le, all, from) = deliver-some o os in
      (r, rw t run, omega (arith, ltb→lt old.timestamp o.timestamp t), (le, all), inr from)
  | inr f ↦
      let (r, run, le, all, from) = deliver-some old os in
      (r, rw f run, le, (ground arith, all), kept from)
]
  where
    kept :
        {r : RegisterValueObject}
        → (r ≡ old) ⊎ Any (λ w. r ≡ w) os
        → (r ≡ old) ⊎ Any (λ w. r ≡ w) (o ∷ os)
    kept (inl e) = inl e
    kept (inr m) = inr (inr m)

-- After one or more messages, in any order, a node holds what it held before or one of the
-- messages, and no message has a greater timestamp than what it holds.
pub deliver_newest :
    (register : Register) (o : RegisterValueObject) (os : List RegisterValueObject)
    → (r : RegisterValueObject) × (read (deliver (o ∷ os) register) ≡ some r)
      × All (λ w. w.timestamp ≤ r.timestamp) (o ∷ os)
      × ((register ≡ some r) ⊎ Any (λ w. r ≡ w) (o ∷ os))
unfolding deliver write read
deliver_newest none o os =
    let (r, run, le, all, from) = deliver-some o os in (r, run, (le, all), inr from)
deliver_newest (some old) o os =
    let (r, run, le, all, from) = deliver-some old (o ∷ os) in (r, run, all, origin from)
  where
    origin :
        {r : RegisterValueObject}
        → (r ≡ old) ⊎ Any (λ w. r ≡ w) (o ∷ os)
        → (some old ≡ some r) ⊎ Any (λ w. r ≡ w) (o ∷ os)
    origin (inl e) = inl (ap some (sym e))
    origin (inr m) = inr m
