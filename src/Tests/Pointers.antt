-- ===== src/Tests/Pointers.antt =====
-- Runs of memory/shared_ptr.hpp.
use dsac.Prelude.{ℕ, ◌<◌, ◌≡◌, refl, List, [], ◌∷◌, none, some, arith, map, Option, Returns, ◌>>=◌}
use dsac.Prelude.Arrays.{write}
use dsac.SharedPtr.{
  Call, make, copy_construct, move_construct, copy_assign, move_assign, reset, reset_to, swap,
  leave, Heap, run,
}
use dsac.SharedPtr.Blocks.{held, entry}
use dsac.SharedPtr.Owners.{count}
use dsac.SharedPtr.Run.{run_owners, start, nulls, owned}

abbrev three_calls : List Call
three_calls =
    make 0
    ∷ copy_construct 1 0
    ∷ move_construct 2 1
    ∷ reset_to 0
    ∷ copy_assign 0 2
    ∷ swap 0 1
    ∷ move_assign 1 1
    ∷ leave 2
    ∷ reset 0
    ∷ []

abbrev owners_after : ℕ × List (Option ℕ)
owners_after = owned three_calls (0, nulls 3)

owners_end : owners_after ≡ (2, none ∷ none ∷ none ∷ [])
owners_end = refl

-- the blocks 0 and 1 are freed at the end
block_freed : (run three_calls (start 3) >>= λ w. some (w.heap.block 1)) ≡ some (entry 0)
unfolding run write
block_freed = refl

run_owners_example : Returns (run three_calls (start 3)) (λ w.
    (w.slots ≡ map held ((owned three_calls (0, nulls 3)).1))
    × ((x : ℕ)
        → x < (owned three_calls (0, nulls 3)).0
        → w.heap.block x ≡ entry (count x ((owned three_calls (0, nulls 3)).1))))
run_owners_example = run_owners 3 three_calls (
  (omega arith, refl),
  (
    (omega arith, omega arith, refl),
    (
      (omega arith, omega arith, refl),
      (
        omega arith,
        (
          (omega arith, omega arith),
          (
            (omega arith, omega arith),
            ((omega arith, omega arith), (omega arith, (omega arith, tt))),
          ),
        ),
      ),
    ),
  ),
)

abbrev first_heap : Heap
first_heap = record { fresh = 0; block = λ x. entry 0 }
