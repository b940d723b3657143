-- ===== src/Concurrency/Mutex.antt =====
-- concurrency/synchronization/mutex.hpp and src/concurrency/synchronization/mutex.cpp: a mutex over a
-- futex. The kernel's `FUTEX_WAIT` compares and sleeps in one step.
pub mod Laws
use dsac.Prelude.{ℕ, ◌+◌, ◌-◌, ◌<◌, ◌≡◌, ◌≢◌}

-- `class mutex`, and how many threads stand where
pub record Mutex : Type 0 where
  pub state : ℕ  -- 0 unlocked, 1 locked, 2 locked with waiters
  pub seen_one : ℕ  -- in `lock`: `c` is 1, before `compare_and_set(&state_, 1, 2)`
  pub waiting : ℕ  -- in `lock`: before `FUTEX_WAIT`
  pub asleep : ℕ  -- in `FUTEX_WAIT`
  pub retrying : ℕ  -- in `lock`: before `compare_and_set(&state_, 0, 2)`
  pub critical : ℕ  -- between the end of `lock` and `unlock`
  pub freeing : ℕ  -- in `unlock`: before `state_.store(0)`
  pub waking : ℕ  -- in `unlock`: before `FUTEX_WAKE`

abbrev pub make : Mutex
make = record {
  state = 0;
  seen_one = 0;
  waiting = 0;
  asleep = 0;
  retrying = 0;
  critical = 0;
  freeing = 0;
  waking = 0;
}

pub data Step (s : Mutex) : Mutex → Type 0 where
  -- `compare_and_set(&state_, 0, 1)`
  first_free : s.state ≡ 0 → Step s (record s { state = 1; critical = s.critical + 1 })
  first_one : s.state ≡ 1 → Step s (record s { seen_one = s.seen_one + 1 })
  first_two : s.state ≡ 2 → Step s (record s { waiting = s.waiting + 1 })
  -- `compare_and_set(&state_, 1, 2) != 0`
  mark_free :
      0 < s.seen_one
      → s.state ≡ 0
      → Step s (record s { seen_one = s.seen_one - 1; retrying = s.retrying + 1 })
  mark_one :
      0 < s.seen_one
      → s.state ≡ 1
      → Step s (record s { state = 2; seen_one = s.seen_one - 1; waiting = s.waiting + 1 })
  mark_two :
      0 < s.seen_one
      → s.state ≡ 2
      → Step s (record s { seen_one = s.seen_one - 1; waiting = s.waiting + 1 })
  -- `sys_call(&state_, FUTEX_WAIT, 2)`
  sleep :
      0 < s.waiting
      → s.state ≡ 2
      → Step s (record s { waiting = s.waiting - 1; asleep = s.asleep + 1 })
  stay_awake :
      0 < s.waiting
      → s.state ≢ 2
      → Step s (record s { waiting = s.waiting - 1; retrying = s.retrying + 1 })
  wake_spuriously :
      0 < s.asleep → Step s (record s { asleep = s.asleep - 1; retrying = s.retrying + 1 })
  -- `(c = compare_and_set(&state_, 0, 2)) != 0`
  retry_free :
      0 < s.retrying
      → s.state ≡ 0
      → Step s (record s { state = 2; retrying = s.retrying - 1; critical = s.critical + 1 })
  retry_one :
      0 < s.retrying
      → s.state ≡ 1
      → Step s (record s { retrying = s.retrying - 1; seen_one = s.seen_one + 1 })
  retry_two :
      0 < s.retrying
      → s.state ≡ 2
      → Step s (record s { retrying = s.retrying - 1; waiting = s.waiting + 1 })
  -- `state_.fetch_sub(1) != 1`
  release_last :
      0 < s.critical → s.state ≡ 1 → Step s (record s { state = 0; critical = s.critical - 1 })
  release_more :
      0 < s.critical
      → s.state ≢ 1
      → Step s
          (record s { state = s.state - 1; critical = s.critical - 1; freeing = s.freeing + 1 })
  -- `state_.store(0)`
  free :
      0 < s.freeing
      → Step s (record s { state = 0; freeing = s.freeing - 1; waking = s.waking + 1 })
  -- `sys_call(&state_, FUTEX_WAKE, 1)`
  wake_none : 0 < s.waking → s.asleep ≡ 0 → Step s (record s { waking = s.waking - 1 })
  wake_one :
      0 < s.waking
      → 0 < s.asleep
      → Step s
          (record s { waking = s.waking - 1; asleep = s.asleep - 1; retrying = s.retrying + 1 })
