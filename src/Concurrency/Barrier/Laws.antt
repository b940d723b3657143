-- ===== src/Concurrency/Barrier/Laws.antt =====
-- src/concurrency/synchronization/barrier.cpp: nobody passes before all have arrived, and the barrier
-- can be used again and again.
use dsac.Prelude.{
  ℕ, ◌+◌, ◌-◌, ◌*◌, ◌^◌, ◌≤◌, ◌<◌, ◌≡◌, ◌≢◌, ◌⊎◌, ℕ_discrete, subst, inl, inr, refl, arith,
}
use dsac.Concurrency.Run.{Reach, Reach-invariant}
use dsac.Concurrency.Barrier.{
  Barrier, State, Step, make, decrement, increment, arrive_and_wait, arrive, leave_unblocking,
  leave_blocking, sleep_unblocking, sleep_blocking, spurious_unblocking, spurious_blocking,
}

State-cases : (s : State) → (s ≡ State.blocking) ⊎ (s ≡ State.unblocking)
State-cases State.blocking = inl refl
State-cases State.unblocking = inr refl

-- how many threads of the round at hand have arrived
abbrev arrived_in_round : Barrier → ℕ
arrived_in_round b = elim b.state [
  | State.blocking ↦ b.size_awaited_threads - b.current_awaited_threads
  | State.unblocking ↦ b.current_awaited_threads
]

-- those that wait for this round's end, and those that have not left the last one
abbrev waiting : Barrier → ℕ
waiting b = elim b.state [ State.blocking ↦ b.for_unblocking | State.unblocking ↦ b.for_blocking ]

abbrev late : Barrier → ℕ
late b = elim b.state [ State.blocking ↦ b.for_blocking | State.unblocking ↦ b.for_unblocking ]

abbrev woken_late : Barrier → ℕ
woken_late b = elim b.state [
  | State.blocking ↦ b.woken_blocking
  | State.unblocking ↦ b.woken_unblocking
]

record IsRound (size round : ℕ) (b : Barrier) : Type 0 where
  size_eq : b.size_awaited_threads ≡ size
  bound : b.current_awaited_threads ≤ size
  threads : b.outside + b.for_unblocking + b.for_blocking ≡ size
  wait : waiting b ≡ arrived_in_round b
  open_round : arrived_in_round b < size
  calls : b.arrived ≡ round + arrived_in_round b
  returns : b.left + late b ≡ round
  woken_of_unblocking : b.woken_unblocking ≤ b.for_unblocking
  woken_of_blocking : b.woken_blocking ≤ b.for_blocking
  woken : woken_late b ≡ late b

decrement_lem : (n : ℕ) → 0 < n → n < 2 ^ 64 → decrement n ≡ n - 1
decrement_lem n p h = omega arith

increment_lem : (n : ℕ) → n + 1 < 2 ^ 64 → increment n ≡ n + 1
increment_lem n h = omega arith

module _ (size round : ℕ) (b : Barrier) (small : size < 2 ^ 64) (p : 0 < b.outside)
    (h : IsRound size round b) where
  last_blocking :
      b.state ≡ State.blocking
      → b.current_awaited_threads ≡ 1
      → IsRound size (round + size) (arrive_and_wait b)
  unfolding arrive_and_wait
  last_blocking s e = ground (arith, decrement_lem b.current_awaited_threads)

  more_blocking :
      b.state ≡ State.blocking
      → b.current_awaited_threads ≢ 1
      → IsRound size round (arrive_and_wait b)
  unfolding arrive_and_wait
  more_blocking s e = ground (arith, decrement_lem b.current_awaited_threads)

  last_unblocking :
      b.state ≡ State.unblocking
      → b.current_awaited_threads + 1 ≡ size
      → IsRound size (round + size) (arrive_and_wait b)
  unfolding arrive_and_wait
  last_unblocking s e = ground (arith, increment_lem b.current_awaited_threads)

  more_unblocking :
      b.state ≡ State.unblocking
      → b.current_awaited_threads + 1 ≢ size
      → IsRound size round (arrive_and_wait b)
  unfolding arrive_and_wait
  more_unblocking s e = ground (arith, increment_lem b.current_awaited_threads)

  arrive-IsRound :
      IsRound size round (arrive_and_wait b) ⊎ IsRound size (round + size) (arrive_and_wait b)
  arrive-IsRound = elim (State-cases b.state) [
    | inl s ↦ elim (ℕ_discrete b.current_awaited_threads 1) [
      | yes e ↦ inr (last_blocking s e)
      | no e ↦ inl (more_blocking s e)
    ]
    | inr s ↦ elim (ℕ_discrete (b.current_awaited_threads + 1) size) [
      | yes e ↦ inr (last_unblocking s e)
      | no e ↦ inl (more_unblocking s e)
    ]
  ]

-- The state after whole rounds of `size` arrivals each.
abbrev InRound : ℕ → Barrier → Type 0
InRound size b = (rounds : ℕ) × IsRound size (rounds * size) b

Step-InRound :
    (size : ℕ) → size < 2 ^ 64 → (s t : Barrier) → Step s t → InRound size s → InRound size t
Step-InRound size small s _ (arrive p) (k, h) = elim (arrive-IsRound size (k * size) s small p h) [
  | inl same ↦ (k, same)
  | inr new ↦ (k + 1, subst (λ r. IsRound size r (arrive_and_wait s)) (grind arith) new)
]
Step-InRound size small s _ (leave_unblocking p e) (k, h) = (k, ground arith)
Step-InRound size small s _ (leave_blocking p e) (k, h) = (k, ground arith)
Step-InRound size small s _ (sleep_unblocking p e) (k, h) = (k, ground arith)
Step-InRound size small s _ (sleep_blocking p e) (k, h) = (k, ground arith)
Step-InRound size small s _ (spurious_unblocking p) (k, h) = (k, ground arith)
Step-InRound size small s _ (spurious_blocking p) (k, h) = (k, ground arith)

Reach-InRound :
    (size : ℕ) {b : Barrier}
    → 0 < size
    → size < 2 ^ 64
    → Reach Step (make size size) b
    → InRound size b
Reach-InRound size pos small r =
    Reach-invariant (InRound size) (Step-InRound size small) r (0, ground arith)

-- When `size` threads use the barrier, a call returns only in a round in which all of them have
-- arrived: the calls that returned are at most the largest multiple of `size` among the arrivals.
pub no_early_return :
    (size : ℕ) {b : Barrier}
    → 0 < size
    → size < 2 ^ 64
    → Reach Step (make size size) b
    → (rounds : ℕ) × (b.left ≤ rounds * size)
      × (rounds * size ≤ b.arrived)
      × (b.arrived < rounds * size + size)
no_early_return size pos small r =
    let (k, h) = Reach-InRound size pos small r in
    (k, omega (arith, h.returns), omega (arith, h.calls), omega (arith, h.calls, h.open_round))

-- When `size` threads use the barrier, it does not block for good: in every reachable state some thread is
-- outside, or a waiting thread has been woken and the predicate that it is about to test holds.
pub no_deadlock :
    (size : ℕ) {b : Barrier}
    → 0 < size
    → size < 2 ^ 64
    → Reach Step (make size size) b
    → (0 < b.outside)
      ⊎ ((0 < b.woken_unblocking) × (b.state ≡ State.unblocking))
      ⊎ ((0 < b.woken_blocking) × (b.state ≡ State.blocking))
no_deadlock size pos small r =
    let (k, h) = Reach-InRound size pos small r in
    ground (arith, h.wait, h.threads, h.open_round, h.woken)
