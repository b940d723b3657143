-- ===== src/Concurrency/Run.antt =====
-- What a system of threads can reach by its steps, in any order.

pub data Reach {S : Type 0} (Step : S → S → Type 0) (s : S) : S → Type 0 where
  here : Reach Step s s
  next : {t u : S} → Reach Step s t → Step t u → Reach Step s u

pub Reach-invariant :
    {S : Type 0} {Step : S → S → Type 0} (P : S → Type 0)
    → ((s t : S) → Step s t → P s → P t)
    → {s t : S} → Reach Step s t
    → P s
    → P t
Reach-invariant P keep here h = h
Reach-invariant P keep (next {t} {u} r st) h = keep t u st (Reach-invariant P keep r h)
