-- ===== src/SharedPtr/Run.antt =====
-- memory/shared_ptr.hpp: any calls of a program.
use dsac.Prelude.{
  ℕ, zero, suc, ◌<◌, ◌≡◌, refl, sym, subst, true, false, List, [], ◌∷◌, Option, none, some, arith,
  map, ◌==◌, Returns,
}
use dsac.SharedPtr.{Call, Heap, World, construct, destroy, run}
use dsac.SharedPtr.Blocks.{held, entry}
use dsac.SharedPtr.Owners.{count, own, IsCall}
use dsac.SharedPtr.Slots.{Refines}
use dsac.SharedPtr.Calls.{call-Refines}

-- the pointers after some calls, and calls that are made on slots that are there
abbrev pub owned : List Call → ℕ × List (Option ℕ) → ℕ × List (Option ℕ)
owned [] s = s
owned (c ∷ calls) s = owned calls (own c s)

abbrev pub AreCalls : List Call → ℕ × List (Option ℕ) → Type 0
AreCalls [] s = Unit
AreCalls (c ∷ calls) s = IsCall c (s.1) × AreCalls calls (own c s)

run-Refines :
    (calls : List Call) (s : ℕ × List (Option ℕ)) (w : World)
    → Refines s w
    → AreCalls calls s
    → Returns (run calls w) (Refines (owned calls s))
unfolding run
run-Refines [] s w h are = (w, refl, h)
run-Refines (c ∷ calls) (f, os) w h (is_call, are) =
    let (w1, runs1, h1) =
      call-Refines c os w (subst (λ g. Refines (g, os) w) (sym h.fresh) h) is_call in
    let (w2, runs2, h2) =
      run-Refines calls (own c (f, os)) w1 (subst (λ g. Refines (own c (g, os)) w1) h.fresh h1)
        are in
    (w2, rw runs1 runs2, h2)

abbrev pub nulls : ℕ → List (Option ℕ)
nulls zero = []
nulls (suc n) = none ∷ nulls n

-- a program with `n` pointers that are null
abbrev pub start : ℕ → World
start n = record { slots = map held (nulls n); heap = record { fresh = 0; block = λ x. entry 0 } }

count-nulls : (n x : ℕ) → count x (nulls n) ≡ 0
count-nulls zero x = refl
count-nulls (suc n) x = omega (arith, count-nulls n x)

-- Any calls of a program on its pointers, the calls of a constructor on null slots, reach no memory that is
-- freed. Afterwards each pointer holds the block that a list of the pointers' blocks has after the same calls;
-- and each block that was allocated has its object, its deleter and the number of its pointers as its count
-- where it has a pointer, and is freed, in all three parts, where it has none.
pub run_owners :
    (n : ℕ) (calls : List Call)
    → AreCalls calls (0, nulls n)
    → Returns (run calls (start n)) (λ w.
      (w.slots ≡ map held ((owned calls (0, nulls n)).1))
      × ((x : ℕ)
          → x < (owned calls (0, nulls n)).0
          → w.heap.block x ≡ entry (count x ((owned calls (0, nulls n)).1))))
run_owners n calls are =
    let first : Refines (0, nulls n) (start n) = record {
      slots = refl;
      fresh = refl;
      counted = record { blocks = λ x lt. absurd (omega arith) };
      below = λ x le. count-nulls n x;
    } in
    let (w, runs, h) = run-Refines calls (0, nulls n) (start n) first are in
    (w, runs, (h.slots, λ x lt. h.counted.blocks x (omega (arith, h.fresh))))

-- A pointer that is constructed from a null `T*` allocates a counter and a deleter that its destructor leaves.
null_leaks :
    (h : Heap)
    → (destroy ((construct false h).0) ((construct false h).1) ≡ some ((construct false h).1))
      × ((construct false h).1.block h.fresh
          ≡ record { object = false; count = some 1; deleter = true })
unfolding construct destroy
null_leaks h = let self : (h.fresh == h.fresh) ≡ true = ground arith in (refl, rw self refl)
