-- ===== src/Concurrency/Semaphore.antt =====
-- concurrency/synchronization/semaphore.hpp and src/concurrency/synchronization/semaphore.cpp.
-- `tokens_` is read and written without the mutex by `release`, so its two accesses are steps of
-- their own. There are fewer than 2 ^ 64 tokens, so that the counter does not wrap.
pub mod Laws
use dsac.Prelude.{ℕ, ◌+◌, ◌-◌, ◌<◌, ◌≡◌, ◌≢◌, Option, none, some}

-- where the thread stands that holds `mutex_` in `acquire`
pub data Holder : Type 0 where
  testing : Holder  -- before the predicate of `not_zero_.wait`
  blocking : Holder  -- the predicate was false: before the wait itself
  taking : Holder  -- the predicate was true: before `--tokens_`

-- `class semaphore::pimpl`, and how many threads stand where
pub record Semaphore : Type 0 where
  pub tokens : ℕ
  pub mutex : Option Holder
  pub asleep : ℕ  -- in the wait of `not_zero_`
  pub woken : ℕ  -- notified, and about to lock `mutex_` again
  pub notifying : ℕ  -- in `release`, between `++tokens_` and `notify_one`
  pub acquired : ℕ  -- calls of `acquire` that returned
  pub released : ℕ  -- calls of `release` that added their token

abbrev pub make : ℕ → Semaphore
make consumers = record {
  tokens = consumers;
  mutex = none;
  asleep = 0;
  woken = 0;
  notifying = 0;
  acquired = 0;
  released = 0;
}

pub data Step (s : Semaphore) : Semaphore → Type 0 where
  lock : s.mutex ≡ none → Step s (record s { mutex = some testing })
  relock :
      s.mutex ≡ none → 0 < s.woken → Step s (record s { mutex = some testing; woken = s.woken - 1 })
  test_zero : s.mutex ≡ some testing → s.tokens ≡ 0 → Step s (record s { mutex = some blocking })
  test_nonzero : s.mutex ≡ some testing → s.tokens ≢ 0 → Step s (record s { mutex = some taking })
  block : s.mutex ≡ some blocking → Step s (record s { mutex = none; asleep = s.asleep + 1 })
  take :
      s.mutex ≡ some taking
      → Step s (record s { mutex = none; tokens = s.tokens - 1; acquired = s.acquired + 1 })
  add :
      Step s
        (record s { tokens = s.tokens + 1; released = s.released + 1; notifying = s.notifying + 1 })
  notify_none : 0 < s.notifying → s.asleep ≡ 0 → Step s (record s { notifying = s.notifying - 1 })
  notify_one :
      0 < s.notifying
      → 0 < s.asleep
      → Step s
          (record s { notifying = s.notifying - 1; asleep = s.asleep - 1; woken = s.woken + 1 })
  wake_spuriously : 0 < s.asleep → Step s (record s { asleep = s.asleep - 1; woken = s.woken + 1 })
