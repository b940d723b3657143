-- ===== src/Concurrency/Barrier.antt =====
-- concurrency/synchronization/barrier.hpp and src/concurrency/synchronization/barrier.cpp. A call of
-- `arrive_and_wait` runs under `mutex_` until it returns or waits. A waiting thread tests its predicate again
-- only when `notify_all`, or a spurious wakeup, has woken it, and sleeps again while the predicate fails.
pub mod Laws
use dsac.Prelude.{ℕ, ◌+◌, ◌-◌, ◌%◌, ◌^◌, ◌<◌, ◌≡◌, ◌≢◌, ◌==◌, Bool, if◌then◌else◌}

pub data State : Type 0 where
  blocking unblocking : State

-- `class barrier::pimpl`, and how many threads wait for which state
pub record Barrier : Type 0 where
  pub size_awaited_threads : ℕ
  pub current_awaited_threads : ℕ  -- size_t
  pub state : State
  pub outside : ℕ  -- threads that are in no call
  pub for_unblocking : ℕ  -- in `cv_.wait` for `state::unblocking`
  pub for_blocking : ℕ  -- in `cv_.wait` for `state::blocking`
  pub woken_unblocking : ℕ  -- of `for_unblocking`: woken, and about to test the predicate
  pub woken_blocking : ℕ  -- of `for_blocking`
  pub arrived : ℕ  -- calls of `arrive_and_wait` so far
  pub left : ℕ  -- calls that returned

-- a barrier and the threads that use it
abbrev pub make : ℕ → ℕ → Barrier
make size threads = record {
  size_awaited_threads = size;
  current_awaited_threads = size;
  state = State.blocking;
  outside = threads;
  for_unblocking = 0;
  for_blocking = 0;
  woken_unblocking = 0;
  woken_blocking = 0;
  arrived = 0;
  left = 0;
}

-- `--current_awaited_threads_` and `++current_awaited_threads_`
abbrev pub decrement : ℕ → ℕ
decrement n = (n + 2 ^ 64 - 1) % 2 ^ 64

abbrev pub increment : ℕ → ℕ
increment n = (n + 1) % 2 ^ 64

-- `cv_.notify_all()`
abbrev pub notify_all : Barrier → Barrier
notify_all b = record b { woken_unblocking = b.for_unblocking; woken_blocking = b.for_blocking }

-- `arrive_and_wait` up to its return or its wait
arrive_blocking : Barrier → Barrier
arrive_blocking b =
    let n = decrement b.current_awaited_threads in
    if n == 0
    then notify_all (record b {
      current_awaited_threads = n;
      state = State.unblocking;
      arrived = b.arrived + 1;
      left = b.left + 1;
    })
    else record b {
      current_awaited_threads = n;
      outside = b.outside - 1;
      for_unblocking = b.for_unblocking + 1;
      arrived = b.arrived + 1;
    }

arrive_unblocking : Barrier → Barrier
arrive_unblocking b =
    let n = increment b.current_awaited_threads in
    if n == b.size_awaited_threads
    then notify_all (record b {
      current_awaited_threads = n;
      state = State.blocking;
      arrived = b.arrived + 1;
      left = b.left + 1;
    })
    else record b {
      current_awaited_threads = n;
      outside = b.outside - 1;
      for_blocking = b.for_blocking + 1;
      arrived = b.arrived + 1;
    }

unfoldable pub arrive_and_wait : Barrier → Barrier
unfolding arrive_blocking arrive_unblocking
arrive_and_wait b = elim b.state [
  | State.blocking ↦ arrive_blocking b
  | State.unblocking ↦ arrive_unblocking b
]

pub data Step (b : Barrier) : Barrier → Type 0 where
  arrive : 0 < b.outside → Step b (arrive_and_wait b)
  -- a woken waiter that finds the predicate true returns, else it sleeps again
  leave_unblocking :
      0 < b.woken_unblocking
      → b.state ≡ State.unblocking
      → Step b (record b {
        outside = b.outside + 1;
        for_unblocking = b.for_unblocking - 1;
        woken_unblocking = b.woken_unblocking - 1;
        left = b.left + 1;
      })
  sleep_unblocking :
      0 < b.woken_unblocking
      → b.state ≢ State.unblocking
      → Step b (record b { woken_unblocking = b.woken_unblocking - 1 })
  spurious_unblocking :
      b.woken_unblocking < b.for_unblocking
      → Step b (record b { woken_unblocking = b.woken_unblocking + 1 })
  -- a woken waiter that finds the predicate true returns, else it sleeps again
  leave_blocking :
      0 < b.woken_blocking
      → b.state ≡ State.blocking
      → Step b (record b {
        outside = b.outside + 1;
        for_blocking = b.for_blocking - 1;
        woken_blocking = b.woken_blocking - 1;
        left = b.left + 1;
      })
  sleep_blocking :
      0 < b.woken_blocking
      → b.state ≢ State.blocking
      → Step b (record b { woken_blocking = b.woken_blocking - 1 })
  spurious_blocking :
      b.woken_blocking < b.for_blocking
      → Step b (record b { woken_blocking = b.woken_blocking + 1 })
