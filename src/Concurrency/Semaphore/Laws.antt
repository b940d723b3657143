-- ===== src/Concurrency/Semaphore/Laws.antt =====
-- src/concurrency/synchronization/semaphore.cpp: tokens are conserved, and a wakeup can be lost.
use dsac.Prelude.{ℕ, zero, suc, ◌+◌, ◌-◌, ◌≤◌, ◌<◌, ◌≡◌, refl, none, some, arith}
use dsac.Concurrency.Run.{Reach, here, next, Reach-invariant}
use dsac.Concurrency.Semaphore.{
  Semaphore, Step, make, blocking, taking, lock, relock, test_zero, test_nonzero, block, take, add,
  notify_none, notify_one, wake_spuriously,
}

record IsBalanced (consumers : ℕ) (s : Semaphore) : Type 0 where
  balance : s.tokens + s.acquired ≡ consumers + s.released
  ready : s.mutex ≡ some taking → 0 < s.tokens

Step-IsBalanced : (n : ℕ) (s t : Semaphore) → Step s t → IsBalanced n s → IsBalanced n t
Step-IsBalanced n s _ (lock m) h = record { balance = h.balance; ready = λ e. cc }
Step-IsBalanced n s _ (relock m w) h = record { balance = h.balance; ready = λ e. cc }
Step-IsBalanced n s _ (test_zero m z) h = record { balance = h.balance; ready = λ e. cc }
Step-IsBalanced n s _ (test_nonzero m z) h = record {
  balance = h.balance;
  ready = λ e. omega arith;
}
Step-IsBalanced n s _ (block m) h = record { balance = h.balance; ready = λ e. cc }
Step-IsBalanced n s _ (take m) h = record {
  balance = omega (arith, h.balance, h.ready m);
  ready = λ e. cc;
}
Step-IsBalanced n s _ add h = record {
  balance = omega (arith, h.balance);
  ready = λ e. omega arith;
}
Step-IsBalanced n s _ (notify_none p z) h = record { balance = h.balance; ready = h.ready }
Step-IsBalanced n s _ (notify_one p a) h = record { balance = h.balance; ready = h.ready }
Step-IsBalanced n s _ (wake_spuriously a) h = record { balance = h.balance; ready = h.ready }

-- In every interleaving, as many calls of `acquire` have returned as tokens were taken: never more
-- than there were at first and were added, and `--tokens_` does not wrap.
Reach-balance :
    (consumers : ℕ) {s : Semaphore}
    → Reach Step (make consumers) s
    → (s.tokens + s.acquired ≡ consumers + s.released)
      × (s.acquired ≤ consumers + s.released)
      × (s.mutex ≡ some taking → 0 < s.tokens)
Reach-balance consumers {s} r =
    let h =
      Reach-invariant (IsBalanced consumers) (Step-IsBalanced consumers) r
        (record { balance = omega arith; ready = λ e. cc }) in
    (h.balance, omega (arith, h.balance), h.ready)

-- one thread sleeps, and no step of another thread is under way that would wake it
abbrev pub IsStranded : Semaphore → Type 0
IsStranded s = (s.asleep ≡ 1) × (s.woken ≡ 0) × (s.notifying ≡ 0) × (s.mutex ≡ none)

-- a thread has found no token, and does not sleep yet
record IsBlocking (tokens : ℕ) (s : Semaphore) : Type 0 where
  mutex : s.mutex ≡ some blocking
  none_asleep : s.asleep ≡ 0
  none_woken : s.woken ≡ 0
  none_notifying : s.notifying ≡ 0
  stock : s.tokens ≡ tokens

-- `n` calls of `release` at that moment notify nobody
releases :
    (n : ℕ) {s : Semaphore}
    → Reach Step (make 0) s
    → IsBlocking 0 s
    → (t : Semaphore) × Reach Step (make 0) t × IsBlocking n t
releases zero {s} r h = (s, r, h)
releases (suc n) r h =
    let (t, r', h') = releases n r h in
    (
      record t {
        tokens = t.tokens + 1;
        released = t.released + 1;
        notifying = t.notifying + 1 - 1;
      },
      next (next r' add) (notify_none (omega arith) h'.none_asleep),
      record {
        mutex = h'.mutex;
        none_asleep = h'.none_asleep;
        none_woken = h'.none_woken;
        none_notifying = omega (arith, h'.none_notifying);
        stock = omega (arith, h'.stock);
      },
    )

-- A wakeup can be lost: for any number of tokens above 0 there is a run at whose end a thread sleeps
-- in `acquire` beside that many tokens, and no call of `release` is under way.
pub lost_wakeup :
    (n : ℕ) → (s : Semaphore) × Reach Step (make 0) s × (s.tokens ≡ suc n) × IsStranded s
lost_wakeup n =
    let (t, r, h) = releases (suc n) (next (next here (lock refl)) (test_zero refl refl)) (record {
      mutex = refl;
      none_asleep = refl;
      none_woken = refl;
      none_notifying = refl;
      stock = refl;
    }) in
    (
      record t { mutex = none; asleep = t.asleep + 1 },
      next r (block h.mutex),
      h.stock,
      (omega (arith, h.none_asleep), h.none_woken, h.none_notifying, refl),
    )
