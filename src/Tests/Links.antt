-- ===== src/Tests/Links.antt =====
-- The intrusive list on concrete addresses.
use dsac.Prelude.{refl, [], ◌∷◌, none, some, arith, ◌==◌, if◌then◌else◌}
use dsac.Intrusive.{Memory, make, detach, get_next, get_prev}
use dsac.Intrusive.Chain.{IsList}
use dsac.Intrusive.Attach.{make-IsList}
use dsac.Intrusive.Detach.{IsDetached, detach-IsDetached}

abbrev blank : Memory
blank = λ a. record { prev = none; next = none }

-- the list at 0 with the nodes 1, 2 and 3
abbrev three : Memory
three a =
    if a == 0
    then record { prev = some 3; next = some 1 }
    else if a == 1
    then record { prev = some 0; next = some 2 }
    else if a == 2
    then record { prev = some 1; next = some 3 }
    else if a == 3
    then record { prev = some 2; next = some 0 }
    else record { prev = none; next = none }

three-IsList : IsList three 0 (1 ∷ 2 ∷ 3 ∷ [])
unfolding get_next get_prev
three-IsList = record {
  last = 3;
  links = ((refl, refl), ((refl, refl), ((refl, refl), refl)));
  closed = (refl, refl);
  distinct = ground arith;
}

blank-IsList : IsList (make 0 blank) 0 []
blank-IsList = make-IsList 0 blank

detach-IsDetached_example : IsDetached (detach 2 three) 0 2 (1 ∷ 3 ∷ [])
detach-IsDetached_example = detach-IsDetached 0 2 three (1 ∷ []) (3 ∷ []) three-IsList
