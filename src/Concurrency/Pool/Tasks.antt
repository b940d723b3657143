-- ===== src/Concurrency/Pool/Tasks.antt =====
-- src/concurrency/executors/static_thread_pool.cpp: the queue of tasks and poison pills.
use dsac.Prelude.{ℕ, suc, ◌≤◌, ◌≡◌, refl, ap, length, List, [], ◌∷◌, ◌++◌, some, arith}
use dsac.Concurrency.Pool.{Task, work, poison_pill, push, pop}

module _ {T : Type 0} where
  -- the work that is queued
  unfoldable pub queued : List (Task T) → List T
  queued [] = []
  queued (work x ∷ ts) = x ∷ queued ts
  queued (poison_pill ∷ ts) = queued ts

  unfoldable pub count_pills : List (Task T) → ℕ
  count_pills [] = 0
  count_pills (work x ∷ ts) = count_pills ts
  count_pills (poison_pill ∷ ts) = suc (count_pills ts)

  -- how many tasks stand before the first pill
  unfoldable pub lead : List (Task T) → ℕ
  lead [] = 0
  lead (work x ∷ ts) = suc (lead ts)
  lead (poison_pill ∷ ts) = 0

  pub queued-push_work :
      (x : T) (ts : List (Task T)) → queued (push (work x) ts) ≡ queued ts ++ x ∷ []
  unfolding queued
  queued-push_work x [] = refl
  queued-push_work x (work y ∷ ts) = ap (◌∷◌ y) (queued-push_work x ts)
  queued-push_work x (poison_pill ∷ ts) = queued-push_work x ts

  pub queued-push_pill : (ts : List (Task T)) → queued (push poison_pill ts) ≡ queued ts
  unfolding queued
  queued-push_pill [] = refl
  queued-push_pill (work y ∷ ts) = ap (◌∷◌ y) (queued-push_pill ts)
  queued-push_pill (poison_pill ∷ ts) = queued-push_pill ts

  pub count_pills-push_work :
      (x : T) (ts : List (Task T)) → count_pills (push (work x) ts) ≡ count_pills ts
  unfolding count_pills
  count_pills-push_work x [] = refl
  count_pills-push_work x (work y ∷ ts) = count_pills-push_work x ts
  count_pills-push_work x (poison_pill ∷ ts) = ap suc (count_pills-push_work x ts)

  pub count_pills-push_pill :
      (ts : List (Task T)) → count_pills (push poison_pill ts) ≡ suc (count_pills ts)
  unfolding count_pills
  count_pills-push_pill [] = refl
  count_pills-push_pill (work y ∷ ts) = count_pills-push_pill ts
  count_pills-push_pill (poison_pill ∷ ts) = ap suc (count_pills-push_pill ts)

  pub lead-push_work : (x : T) (ts : List (Task T)) → lead ts ≤ lead (push (work x) ts)
  unfolding lead
  lead-push_work x [] = omega arith
  lead-push_work x (work y ∷ ts) = let h = lead-push_work x ts in omega arith
  lead-push_work x (poison_pill ∷ ts) = omega arith

  pub lead-push_pill : (ts : List (Task T)) → lead (push poison_pill ts) ≡ lead ts
  unfolding lead
  lead-push_pill [] = refl
  lead-push_pill (work y ∷ ts) = ap suc (lead-push_pill ts)
  lead-push_pill (poison_pill ∷ ts) = refl

  pub no_pills-lead : (ts : List (Task T)) → count_pills ts ≡ 0 → lead ts ≡ length (queued ts)
  unfolding count_pills lead queued
  no_pills-lead [] e = refl
  no_pills-lead (work y ∷ ts) e = ap suc (no_pills-lead ts e)
  no_pills-lead (poison_pill ∷ ts) e = absurd (omega arith)

  pub pop→cons :
      {t : Task T} {rest : List (Task T)} (ts : List (Task T))
      → pop ts ≡ some (t, rest)
      → ts ≡ t ∷ rest
  pop→cons [] e = absurd (cc)
  pop→cons (u ∷ ts) e = grind arith
