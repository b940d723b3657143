-- ===== src/Concurrency/Pool/Laws.antt =====
-- src/concurrency/executors/static_thread_pool.cpp: every task is run at most once, and `join` waits for those
-- that were submitted before it was called.
use mathlib.Core.List.{append-nil, append_assoc}
use dsac.Prelude.{
  ℕ, ◌+◌, ◌-◌, ◌≤◌, ◌<◌, ◌≡◌, ◌≢◌, refl, sym, ap, length, length-append, ◌∙◌, true, false, List, [],
  ◌∷◌, ◌++◌, arith, inl, inr, Bool-cases,
}
use dsac.Concurrency.Run.{Reach, Reach-invariant}
use dsac.Concurrency.Pool.Tasks.{
  queued, count_pills, lead, queued-push_work, queued-push_pill, count_pills-push_work,
  count_pills-push_pill, lead-push_work, lead-push_pill, no_pills-lead, pop→cons,
}
use dsac.Concurrency.Pool.{
  Pool, Task, work, poison_pill, push, pop, make, Step, submit, join, push_pill, run_task,
  stop_worker,
}

module _ {T : Type 0} where
  record IsValid (p : Pool T) : Type 0 where
    history : p.submitted ≡ p.executed ++ queued p.tasks
    before_join :
        p.joining ≡ false → (p.running ≡ p.workers) × (p.pills ≡ 0) × (count_pills p.tasks ≡ 0)
    after_join :
        p.joining ≡ true
        → (p.running ≡ count_pills p.tasks + p.pills) × (p.early ≤ length p.executed + lead p.tasks)
    drained : p.running ≢ p.workers → (p.joining ≡ true) × (p.early ≤ length p.executed)

  submit-IsValid :
      (x : T) (p : Pool T)
      → IsValid p
      → IsValid (record p { tasks = push (work x) p.tasks; submitted = p.submitted ++ x ∷ [] })
  submit-IsValid x p h =
      let count = count_pills-push_work x p.tasks in
      let longer = lead-push_work x p.tasks in
      record {
        history =
            rw (h.history, queued-push_work) (append_assoc p.executed (queued p.tasks) (x ∷ []));
        before_join = λ f. let b = h.before_join f in (b.0, b.1, count ∙ b.2);
        after_join = λ f. let a = h.after_join f in (omega arith, omega arith);
        drained = h.drained;
      }

  push_pill-IsValid :
      (p : Pool T)
      → 0 < p.pills
      → IsValid p
      → IsValid (record p { tasks = push poison_pill p.tasks; pills = p.pills - 1 })
  push_pill-IsValid p q h =
      let count = count_pills-push_pill p.tasks in
      let same = lead-push_pill p.tasks in
      record {
        history = rw queued-push_pill h.history;
        before_join = λ f. let b = h.before_join f in absurd (omega arith);
        after_join = λ f. let a = h.after_join f in (omega arith, omega arith);
        drained = h.drained;
      }

  run_task-IsValid :
      {x : T} {rest : List (Task T)} (p : Pool T)
      → 0 < p.running
      → p.tasks ≡ work x ∷ rest
      → IsValid p
      → IsValid (record p { tasks = rest; executed = p.executed ++ x ∷ [] })
  unfolding queued count_pills lead
  run_task-IsValid {x} {rest} p q e h =
      let count = ap count_pills e in
      let shorter = ap lead e in
      let longer = length-append p.executed (x ∷ []) in
      record {
        history =
            h.history
            ∙ ap (λ ts. p.executed ++ queued ts) e
            ∙ sym (append_assoc p.executed (x ∷ []) (queued rest));
        before_join = λ f. let b = h.before_join f in (b.0, b.1, sym count ∙ b.2);
        after_join = λ f. let a = h.after_join f in (omega arith, omega arith);
        drained = λ n. let d = h.drained n in (d.0, omega arith);
      }

  stop_worker-IsValid :
      {rest : List (Task T)} (p : Pool T)
      → 0 < p.running
      → p.tasks ≡ poison_pill ∷ rest
      → IsValid p
      → IsValid (record p { tasks = rest; running = p.running - 1 })
  unfolding queued count_pills lead
  stop_worker-IsValid {rest} p q e h =
      let count = ap count_pills e in
      let none_left = ap lead e in
      record {
        history = h.history ∙ ap (λ ts. p.executed ++ queued ts) e;
        before_join = λ f. let b = h.before_join f in absurd (omega arith);
        after_join = λ f. let a = h.after_join f in (omega arith, omega arith);
        drained = λ n. elim (Bool-cases p.joining) [
          | inl j ↦ let a = h.after_join j in (j, omega arith)
          | inr j ↦ let b = h.before_join j in absurd (omega arith)
        ];
      }

  join-IsValid :
      (p : Pool T)
      → p.joining ≡ false
      → IsValid p
      → IsValid (record p { joining = true; pills = p.workers; early = length p.submitted })
  join-IsValid p e h =
      let b = h.before_join e in
      let all = ap length h.history ∙ length-append p.executed (queued p.tasks) in
      let leads = no_pills-lead p.tasks b.2 in
      record {
        history = h.history;
        before_join = λ f. absurd (cc);
        after_join = λ f. (omega arith, omega arith);
        drained = λ n. absurd (n b.0);
      }

  Step-IsValid : (p q : Pool T) → Step p q → IsValid p → IsValid q
  Step-IsValid p _ (submit x) h = submit-IsValid x p h
  Step-IsValid p _ (join e) h = join-IsValid p e h
  Step-IsValid p _ (push_pill e) h = push_pill-IsValid p e h
  Step-IsValid p _ (run_task q e) h = run_task-IsValid p q (pop→cons p.tasks e) h
  Step-IsValid p _ (stop_worker q e) h = stop_worker-IsValid p q (pop→cons p.tasks e) h

  make-IsValid : (workers : ℕ) → IsValid (make workers)
  unfolding queued count_pills
  make-IsValid workers = record {
    history = refl;
    before_join = λ f. (refl, refl, refl);
    after_join = λ f. absurd (cc);
    drained = λ n. absurd (n refl);
  }

  Reach-IsValid : {p : Pool T} (workers : ℕ) → Reach Step (make workers) p → IsValid p
  Reach-IsValid workers r = Reach-invariant IsValid Step-IsValid r (make-IsValid workers)

  -- In every interleaving, the tasks taken by the workers are the tasks submitted, in the order of the
  -- calls of `submit` and each once, up to those still in the queue.
  Reach-executed :
      {p : Pool T} (workers : ℕ)
      → Reach Step (make workers) p
      → p.submitted ≡ p.executed ++ queued p.tasks
  Reach-executed workers r = (Reach-IsValid workers r).history

  -- the steps that `join` and the workers have left
  unfoldable pub remaining : Pool T → ℕ
  remaining p = length p.tasks + (p.pills + p.pills)

  remaining-Step :
      (p q : Pool T)
      → Step p q
      → p.joining ≡ true
      → q.submitted ≡ p.submitted
      → remaining q < remaining p
  unfolding remaining
  remaining-Step p _ (submit x) j same =
      let l = length-append p.submitted (x ∷ []) in let m = ap length same in absurd (omega arith)
  remaining-Step p _ (join e) j same = absurd (cc)
  remaining-Step p _ (push_pill e) j same =
      let l = length-append p.tasks (poison_pill ∷ []) in omega arith
  remaining-Step p _ (run_task q e) j same = let l = ap length (pop→cons p.tasks e) in omega arith
  remaining-Step p _ (stop_worker q e) j same =
      let l = ap length (pop→cons p.tasks e) in omega arith

  has-Step :
      (p : Pool T) (ts : List (Task T))
      → p.tasks ≡ ts
      → IsValid p
      → p.joining ≡ true
      → 0 < p.running
      → (q : Pool T) × Step p q × (q.submitted ≡ p.submitted)
  unfolding count_pills
  has-Step p [] e h j r =
      let a = h.after_join j in let c = ap count_pills e in (_, push_pill (omega arith), refl)
  has-Step p (work x ∷ ts) e h j r = (_, run_task {x = x} {rest = ts} r (ap pop e), refl)
  has-Step p (poison_pill ∷ ts) e h j r = (_, stop_worker {rest = ts} r (ap pop e), refl)

  -- Once `join` has been called, each step that submits nothing, whichever thread takes it, lowers `remaining`, so
  -- that no schedule of such steps goes on for ever; and while a worker thread has not returned, some such step can
  -- be taken.
  join-remaining :
      {p : Pool T} (workers : ℕ)
      → Reach Step (make workers) p
      → p.joining ≡ true
      → ((q : Pool T) → Step p q → q.submitted ≡ p.submitted → remaining q < remaining p)
        × (0 < p.running → ((q : Pool T) × Step p q × (q.submitted ≡ p.submitted)))
  join-remaining {p} workers r j = (
    λ q st same. remaining-Step p q st j same,
    has-Step p p.tasks refl (Reach-IsValid workers r) j,
  )

  none-queued : (xs ys : List T) → length (xs ++ ys) ≤ length xs → xs ++ ys ≡ xs
  none-queued xs [] le = append-nil xs
  none-queued xs (y ∷ ys) le = let l = length-append xs (y ∷ ys) in absurd (omega arith)

  -- When every worker thread of a pool with at least one has returned, so that `join` returns: `join` has been
  -- called, the tasks submitted are the tasks taken, in order and each once, up to those still in the queue, and
  -- every task submitted before `join` was called has been taken. If none was submitted later, all were taken.
  pub join-executed :
      {p : Pool T} (workers : ℕ)
      → Reach Step (make workers) p
      → 0 < p.workers
      → p.running ≡ 0
      → (p.joining ≡ true)
        × (p.submitted ≡ p.executed ++ queued p.tasks)
        × (p.early ≤ length p.executed)
        × (length p.submitted ≡ p.early → p.executed ≡ p.submitted)
  join-executed {p} workers r w z =
      let h = Reach-IsValid workers r in
      let d = h.drained (omega arith) in
      let counted = ap length h.history in
      (
        d.0,
        h.history,
        d.1,
        λ e. sym (h.history ∙ none-queued p.executed (queued p.tasks) (omega arith)),
      )
