-- ===== src/Concurrency/Pool.antt =====
-- concurrency/executors/blocking_queue.hpp, concurrency/executors/detail/blocking_queue-inl.hpp and
-- src/concurrency/executors/static_thread_pool.cpp: worker threads that take tasks off a queue. `push`
-- and `pop` run under the queue's mutex; `pop` waits until the queue is not empty.
pub mod Tasks
pub mod Laws
use dsac.Prelude.{
  ℕ, ◌+◌, ◌-◌, ◌<◌, ◌≡◌, ◌≢◌, Bool, true, false, List, [], ◌∷◌, ◌++◌, length, Option, none, some,
}

-- `task`: a function, or the empty function that join pushes
pub data Task (T : Type 0) : Type 0 where
  work : T → Task T
  poison_pill : Task T

-- `unbounded_blocking_mpmc_queue::push`
abbrev pub push {ℓ} : {A : Type ℓ} → A → List A → List A
push value buffer = buffer ++ value ∷ []

-- `unbounded_blocking_mpmc_queue::pop` where it does not wait
abbrev pub pop {ℓ} : {A : Type ℓ} → List A → Option (A × List A)
pop [] = none
pop (value ∷ buffer) = some (value, buffer)

-- `class static_thread_poll`
pub record Pool (T : Type 0) : Type 0 where
  pub tasks : List (Task T)
  pub workers : ℕ
  pub running : ℕ  -- worker threads that have not returned
  pub joining : Bool  -- `join` has been called
  pub pills : ℕ  -- poison pills that `join` has still to push
  pub early : ℕ  -- how many tasks had been submitted when `join` was called
  pub submitted : List T  -- the arguments of `submit`, oldest first
  pub executed : List T  -- the tasks that workers have taken, oldest first

abbrev pub make : {T : Type 0} → ℕ → Pool T
make workers = record {
  tasks = [];
  workers = workers;
  running = workers;
  joining = false;
  pills = 0;
  early = 0;
  submitted = [];
  executed = [];
}

-- `submit` may be called at any time, also by a task that runs during `join`. `join` is called once.
pub data Step {T : Type 0} (p : Pool T) : Pool T → Type 0 where
  submit :
      (x : T)
      → Step p (record p { tasks = push (work x) p.tasks; submitted = p.submitted ++ x ∷ [] })
  join :
      p.joining ≡ false
      → Step p (record p { joining = true; pills = p.workers; early = length p.submitted })
  push_pill :
      0 < p.pills → Step p (record p { tasks = push poison_pill p.tasks; pills = p.pills - 1 })
  run_task :
      {x : T} {rest : List (Task T)}
      → 0 < p.running
      → pop p.tasks ≡ some (work x, rest)
      → Step p (record p { tasks = rest; executed = p.executed ++ x ∷ [] })
  stop_worker :
      {rest : List (Task T)}
      → 0 < p.running
      → pop p.tasks ≡ some (poison_pill, rest)
      → Step p (record p { tasks = rest; running = p.running - 1 })
