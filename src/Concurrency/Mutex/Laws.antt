-- ===== src/Concurrency/Mutex/Laws.antt =====
-- src/concurrency/synchronization/mutex.cpp: mutual exclusion, and no lost wakeup.
use dsac.Prelude.{◌+◌, ◌≤◌, ◌<◌, ◌≡◌, ◌⊎◌, arith, ◌==◌, if◌then◌else◌}
use dsac.Concurrency.Run.{Reach, Reach-invariant}
use dsac.Concurrency.Mutex.{
  Mutex, Step, make, first_free, first_one, first_two, mark_free, mark_one, mark_two, sleep,
  stay_awake, wake_spuriously, retry_free, retry_one, retry_two, release_last, release_more, free,
  wake_none, wake_one,
}

record IsSafe (s : Mutex) : Type 0 where
  small : s.state ≤ 2
  -- the word is 0 exactly while nobody owns the mutex
  owners : s.critical + s.freeing ≡ (if s.state == 0 then 0 else 1)
  -- with nobody on the way to the word, sleepers have left their mark on it
  marked :
      0 < s.asleep
      → (s.state ≡ 2) ⊎ (0 < s.seen_one + s.waiting + s.retrying + s.freeing + s.waking)

Step-IsSafe : (s t : Mutex) → Step s t → IsSafe s → IsSafe t
Step-IsSafe s _ (first_free e) h = ground arith
Step-IsSafe s _ (first_one e) h = ground arith
Step-IsSafe s _ (first_two e) h = ground arith
Step-IsSafe s _ (mark_free p e) h = ground arith
Step-IsSafe s _ (mark_one p e) h = ground arith
Step-IsSafe s _ (mark_two p e) h = ground arith
Step-IsSafe s _ (sleep p e) h = ground arith
Step-IsSafe s _ (stay_awake p e) h = ground arith
Step-IsSafe s _ (wake_spuriously p) h = ground arith
Step-IsSafe s _ (retry_free p e) h = ground arith
Step-IsSafe s _ (retry_one p e) h = ground arith
Step-IsSafe s _ (retry_two p e) h = ground arith
Step-IsSafe s _ (release_last p e) h = ground arith
Step-IsSafe s _ (release_more p e) h = ground arith
Step-IsSafe s _ (free p) h = ground arith
Step-IsSafe s _ (wake_none p e) h = ground arith
Step-IsSafe s _ (wake_one p e) h = ground arith

Reach-IsSafe : {s : Mutex} → Reach Step make s → IsSafe s
Reach-IsSafe r = Reach-invariant IsSafe Step-IsSafe r (ground arith)

-- In every interleaving of any number of threads, at most one is between `lock` and `unlock`.
pub mutual_exclusion : {s : Mutex} → Reach Step make s → s.critical ≤ 1
mutual_exclusion r = ground (arith, Reach-IsSafe r)

-- No wakeup is lost: while a thread sleeps in `lock`, another thread owns the mutex with the mark that
-- makes its `unlock` wake a sleeper, or is under way in `lock` or in `unlock`.
pub no_lost_wakeup :
    {s : Mutex}
    → Reach Step make s
    → 0 < s.asleep
    → ((s.critical ≡ 1) × (s.state ≡ 2))
      ⊎ (0 < s.seen_one + s.waiting + s.retrying + s.freeing + s.waking)
no_lost_wakeup r h = ground (arith, Reach-IsSafe r)
