-- ===== src/Tests/Combinators.antt =====
-- Schedules of the callbacks of concurrency/futures/combine.
use dsac.Prelude.{ℕ, ◌+◌, ◌≤◌, ◌<◌, ◌≡◌, refl, true, List, [], ◌∷◌, none, some, arith, length, All}
use dsac.Concurrency.Run.{Reach, here, next}
use dsac.Concurrency.FirstN
use dsac.Concurrency.FirstN.Counting as FirstN_counting
use dsac.Concurrency.FirstN.Laws.{first_n_one_value, first_n_zero}
use dsac.Concurrency.FirstOf
use dsac.Concurrency.FirstOf.Laws as FirstOf_laws
use dsac.Concurrency.FirstOf.Laws.{first_of_one_value}

abbrev values : List ℕ
values = 10 ∷ 20 ∷ 30 ∷ []

-- The callbacks of the last and of the first future are counted; the one of the second comes late.
abbrev two_of_three : FirstN.Context ℕ
two_of_three = record {
  v = some 10 ∷ none ∷ some 30 ∷ [];
  min = 2;
  completed = 3;
  stored = 2;
  promises = (10 ∷ 30 ∷ []) ∷ [];
  places = FirstN.finished ∷ FirstN.late ∷ FirstN.finished ∷ [];
}

two_of_three_run : Reach (FirstN.Step values) (FirstN.make values 2) two_of_three
two_of_three_run =
    next
      (next
        (next
          (next
            (next
              (next
                (next (next here (FirstN.count_in 2 refl (omega arith)))
                  (FirstN.count_in 0 refl (omega arith)))
                (FirstN.store 0 10 refl refl))
              (FirstN.count_late 1 refl (omega arith)))
            (FirstN.store 2 30 refl refl))
          (FirstN.add_more 2 refl (omega arith)))
        (FirstN.add_last 0 refl (omega arith)))
      (FirstN.set_promise 0 refl)

first_n_one_value_example :
    (length two_of_three.promises ≤ 1)
    × ((r : List ℕ) (rs : List (List ℕ))
        → two_of_three.promises ≡ r ∷ rs
        → (length r ≡ 2) × FirstN_counting.Selection r values)
    × (0 < FirstN_counting.count FirstN_counting.is_last two_of_three.places
        → FirstN_counting.count FirstN_counting.is_counted two_of_three.places ≡ 0)
    × (FirstN_counting.count FirstN_counting.is_finished two_of_three.places
            + FirstN_counting.count FirstN_counting.is_late two_of_three.places
          ≡ length values
        → length two_of_three.promises ≡ 1)
first_n_one_value_example = first_n_one_value values 2 (omega arith) (omega arith) two_of_three_run

-- all callbacks of `first_n` with 0 have returned
abbrev none_of_one : FirstN.Context ℕ
none_of_one = record {
  v = none ∷ [];
  min = 0;
  completed = 1;
  stored = 0;
  promises = [];
  places = FirstN.late ∷ [];
}

none_of_one_run : Reach (FirstN.Step (10 ∷ [])) (FirstN.make (10 ∷ []) 0) none_of_one
none_of_one_run = next here (FirstN.count_late 0 refl (omega arith))

first_n_zero_example : none_of_one.promises ≡ []
first_n_zero_example = first_n_zero (10 ∷ []) none_of_one_run

-- the second future is the first with a result
abbrev second_first : FirstOf.Context ℕ
second_first = record {
  done = true;
  promises = 20 ∷ [];
  places = FirstOf.pending ∷ FirstOf.finished ∷ FirstOf.finished ∷ [];
}

second_first_run : Reach (FirstOf.Step values) (FirstOf.make values) second_first
second_first_run =
    next (next (next here (FirstOf.exchange_first 1 refl refl)) (FirstOf.exchange_late 2 refl refl))
      (FirstOf.set_promise 1 20 refl refl)

first_of_one_value_example :
    (length second_first.promises ≤ 1)
    × All (FirstOf_laws.IsResult values) second_first.promises
    × (0 < FirstOf_laws.count FirstOf_laws.is_finished second_first.places
        → FirstOf_laws.count FirstOf_laws.is_winning second_first.places ≡ 0
        → length second_first.promises ≡ 1)
first_of_one_value_example = first_of_one_value values second_first_run
