-- ===== src/Tests/Threads.antt =====
-- Schedules of the threads of concurrency/.
use dsac.Prelude.{
  ℕ, ◌+◌, ◌*◌, ◌≤◌, ◌<◌, ◌≡◌, ◌≢◌, ◌⊎◌, refl, true, false, [], ◌∷◌, ◌++◌, none, some, arith, length,
}
use dsac.Concurrency.Run.{Reach, here, next}
use dsac.Concurrency.Semaphore
use dsac.Concurrency.Semaphore.{Semaphore}
use dsac.Concurrency.Semaphore.Laws.{lost_wakeup, IsStranded}
use dsac.Concurrency.Mutex
use dsac.Concurrency.Mutex.{Mutex}
use dsac.Concurrency.Mutex.Laws.{mutual_exclusion, no_lost_wakeup}
use dsac.Concurrency.Barrier
use dsac.Concurrency.Barrier.{Barrier, State}
use dsac.Concurrency.Barrier.Laws.{no_early_return, no_deadlock}
use dsac.Concurrency.Mvar
use dsac.Concurrency.Mvar.{Mvar}
use dsac.Concurrency.Mvar.Laws.{Reach-history, pending}
use dsac.Concurrency.SharedState
use dsac.Concurrency.SharedState.{SharedState, returned, threw}
use dsac.Concurrency.SharedState.Laws.{callback_called_once}
use dsac.Concurrency.Pool
use dsac.Concurrency.Pool.{Pool, work, poison_pill}
use dsac.Concurrency.Pool.Tasks.{queued}
use dsac.Concurrency.Pool.Laws.{join-executed}

-- One thread takes the only token.
abbrev one_acquired : Semaphore
one_acquired = record {
  tokens = 0;
  mutex = none;
  asleep = 0;
  woken = 0;
  notifying = 0;
  acquired = 1;
  released = 0;
}

acquire_run : Reach Semaphore.Step (Semaphore.make 1) one_acquired
acquire_run =
    next (next (next here (Semaphore.lock refl)) (Semaphore.test_nonzero refl (omega arith)))
      (Semaphore.take refl)

lost_wakeup_example :
    (s : Semaphore) × Reach Semaphore.Step (Semaphore.make 0) s × (s.tokens ≡ 3) × IsStranded s
lost_wakeup_example = lost_wakeup 2

-- One thread holds the mutex, and another sleeps in `lock`.
abbrev contended : Mutex
contended = record {
  state = 2;
  seen_one = 0;
  waiting = 0;
  asleep = 1;
  retrying = 0;
  critical = 1;
  freeing = 0;
  waking = 0;
}

contended_run : Reach Mutex.Step Mutex.make contended
contended_run =
    next
      (next (next (next here (Mutex.first_free refl)) (Mutex.first_one refl))
        (Mutex.mark_one (omega arith) refl))
      (Mutex.sleep (omega arith) refl)

mutual_exclusion_example : contended.critical ≤ 1
mutual_exclusion_example = mutual_exclusion contended_run

no_lost_wakeup_example : ((contended.critical ≡ 1) × (contended.state ≡ 2)) ⊎ (0 < 0)
no_lost_wakeup_example = no_lost_wakeup contended_run (omega arith)

-- Both threads of a barrier for two arrive.
abbrev all_arrived : Barrier
all_arrived = record {
  size_awaited_threads = 2;
  current_awaited_threads = 0;
  state = State.unblocking;
  outside = 1;
  for_unblocking = 1;
  for_blocking = 0;
  woken_unblocking = 1;
  woken_blocking = 0;
  arrived = 2;
  left = 1;
}

arrive_run : Reach Barrier.Step (Barrier.make 2 2) all_arrived
unfolding Barrier.arrive_and_wait
arrive_run = next (next here (Barrier.arrive (omega arith))) (Barrier.arrive (omega arith))

no_early_return_example :
    (rounds : ℕ) × (all_arrived.left ≤ rounds * 2)
    × (rounds * 2 ≤ all_arrived.arrived)
    × (all_arrived.arrived < rounds * 2 + 2)
no_early_return_example = no_early_return 2 (omega arith) (omega arith) arrive_run

no_deadlock_example :
    (0 < all_arrived.outside)
    ⊎ ((0 < all_arrived.woken_unblocking) × (all_arrived.state ≡ State.unblocking))
    ⊎ ((0 < all_arrived.woken_blocking) × (all_arrived.state ≡ State.blocking))
no_deadlock_example = no_deadlock 2 (omega arith) (omega arith) arrive_run

-- Two values are put, and one is taken between.
abbrev one_left : Mvar ℕ
one_left = record {
  storage = some 8;
  asleep_until_value = 0;
  asleep_until_free = 0;
  produced = 7 ∷ 8 ∷ [];
  consumed = 7 ∷ [];
}

put_run : Reach Mvar.Step Mvar.make one_left
unfolding Mvar.put Mvar.take
put_run =
    next (next (next (next here Mvar.call_take) (Mvar.call_put 7)) Mvar.call_take) (Mvar.call_put 8)

Reach-history_example :
    (one_left.produced ≡ one_left.consumed ++ pending one_left.storage)
    × (0 < one_left.asleep_until_value → Mvar.is_empty one_left ≡ true)
    × (0 < one_left.asleep_until_free → Mvar.is_empty one_left ≡ false)
Reach-history_example = Reach-history put_run

-- The callback is set first, and the result is set then; the executor makes the call.
abbrev satisfied : SharedState ℕ
satisfied = record {
  result = some 5;
  has_callback_stored = true;
  state = SharedState.done;
  producer = returned;
  consumer = returned;
  executor = true;
  submitted = [];
  invoked = 5 ∷ [];
}

satisfied_run : Reach (SharedState.Step 5) (SharedState.make true) satisfied
unfolding SharedState.has_result SharedState.has_callback
satisfied_run =
    let set_callback : Reach (SharedState.Step 5) (SharedState.make true) (record {
      result = none;
      has_callback_stored = true;
      state = SharedState.only_callback;
      producer = SharedState.before;
      consumer = returned;
      executor = true;
      submitted = [];
      invoked = [];
    }) =
      next (next (next here (SharedState.consume refl refl)) (SharedState.consume_load refl))
        (SharedState.consume_exchange refl refl) in
    next
      (next
        (next
          (next
            (next (next set_callback (SharedState.produce refl refl))
              (SharedState.produce_load refl))
            (SharedState.produce_switch refl (λ e. cc)))
          (SharedState.produce_store refl))
        (SharedState.produce_call refl refl refl refl))
      (SharedState.executor_runs refl)

callback_called_once_example :
    (returned ≢ threw)
    × (returned ≢ threw)
    × ((satisfied.invoked ≡ []) ⊎ (satisfied.invoked ≡ 5 ∷ []))
    × (returned ≡ returned
        → returned ≡ returned
        → ((satisfied.invoked ≡ 5 ∷ []) × (satisfied.submitted ≡ []))
          ⊎ ((satisfied.executor ≡ true)
              × (satisfied.submitted ≡ 5 ∷ [])
              × (satisfied.invoked ≡ [])))
callback_called_once_example = callback_called_once 5 satisfied_run

-- One worker runs the one task, `join` is called, and a task that is submitted then stays in the queue.
abbrev joined : Pool ℕ
joined = record {
  tasks = work 6 ∷ [];
  workers = 1;
  running = 0;
  joining = true;
  pills = 0;
  early = 1;
  submitted = 4 ∷ 6 ∷ [];
  executed = 4 ∷ [];
}

joined_run : Reach Pool.Step (Pool.make 1) joined
joined_run =
    next
      (next
        (next
          (next (next (next here (Pool.submit 4)) (Pool.join refl)) (Pool.push_pill (omega arith)))
          (Pool.submit 6))
        (Pool.run_task (omega arith) refl))
      (Pool.stop_worker (omega arith) refl)

join-executed_example :
    (joined.joining ≡ true)
    × (joined.submitted ≡ joined.executed ++ queued joined.tasks)
    × (joined.early ≤ length joined.executed)
    × (length joined.submitted ≡ joined.early → joined.executed ≡ joined.submitted)
join-executed_example = join-executed 1 joined_run (omega arith) refl
