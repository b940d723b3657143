-- ===== src/Concurrency/FirstN/Counting.antt =====
-- concurrency/futures/combine/first_n.hpp: how many callbacks stand where, and what `v` holds.
use dsac.Prelude.{
  ℕ, zero, suc, ◌+◌, ◌≤◌, ◌≡◌, refl, sym, subst, ◌∙◌, ap, List, [], ◌∷◌, Option, none, some, arith,
  length, get_elem?, set,
}
use dsac.Concurrency.FirstN.{
  Place, pending, counted, written, last, finished, late, nothing, waiting, collect,
}

abbrev pub count : (Place → ℕ) → List Place → ℕ
count f [] = 0
count f (p ∷ ps) = f p + count f ps

pub count-set :
    (f : Place → ℕ) (ps : List Place) (i : ℕ) (p q : Place)
    → get_elem? ps i ≡ some p
    → count f (set ps i q) + f p ≡ count f ps + f q
count-set f [] i p q e = absurd (cc)
count-set f (r ∷ ps) zero p q e = let same : r ≡ p = grind arith in omega (arith, ap f same)
count-set f (r ∷ ps) (suc i) p q e = omega (arith, count-set f ps i p q e)

pub count-lt :
    (f : Place → ℕ) (ps : List Place) (i : ℕ) (p : Place)
    → get_elem? ps i ≡ some p
    → f p ≤ count f ps
count-lt f [] i p e = absurd (cc)
count-lt f (r ∷ ps) zero p e = let same : r ≡ p = grind arith in omega (arith, ap f same)
count-lt f (r ∷ ps) (suc i) p e = omega (arith, count-lt f ps i p e)

-- before the store, at `last`, after the count of the stores, late, not pending
abbrev pub is_counted : Place → ℕ
is_counted counted = 1
is_counted _ = 0

abbrev pub is_written : Place → ℕ
is_written written = 1
is_written _ = 0

abbrev pub is_last : Place → ℕ
is_last last = 1
is_last _ = 0

abbrev pub is_finished : Place → ℕ
is_finished finished = 1
is_finished _ = 0

abbrev pub is_late : Place → ℕ
is_late late = 1
is_late _ = 0

abbrev pub is_pending : Place → ℕ
is_pending pending = 1
is_pending _ = 0

pub count-all :
    (ps : List Place)
    → count is_pending ps
        + count is_counted ps
        + count is_written ps
        + count is_last ps
        + count is_finished ps
        + count is_late ps
      ≡ length ps
count-all [] = omega arith
count-all (pending ∷ ps) = omega (arith, count-all ps)
count-all (counted ∷ ps) = omega (arith, count-all ps)
count-all (written ∷ ps) = omega (arith, count-all ps)
count-all (last ∷ ps) = omega (arith, count-all ps)
count-all (finished ∷ ps) = omega (arith, count-all ps)
count-all (late ∷ ps) = omega (arith, count-all ps)

module _ {A : Type 0} where
  -- what stands in `v` for a callback that is there
  abbrev pub entry : Place → A → Option A
  entry written x = some x
  entry last x = some x
  entry finished x = some x
  entry _ x = none

  abbrev pub Fits : List A → List (Option A) → List Place → Type 0
  Fits [] [] [] = Unit
  Fits (x ∷ xs) (o ∷ v) (p ∷ ps) = (o ≡ entry p x) × Fits xs v ps
  Fits _ _ _ = ⊥

  pub nothing-Fits : (xs : List A) → Fits xs (nothing xs) (waiting xs)
  nothing-Fits [] = tt
  nothing-Fits (x ∷ xs) = (refl, nothing-Fits xs)

  -- a store
  pub Fits-set :
      (xs : List A) (v : List (Option A)) (ps : List Place) (i : ℕ) (x : A) (q : Place)
      → Fits xs v ps
      → get_elem? xs i ≡ some x
      → Fits xs (set v i (entry q x)) (set ps i q)
  Fits-set [] v ps i x q h e = absurd (cc)
  Fits-set (y ∷ xs) [] ps i x q h e = absurd h
  Fits-set (y ∷ xs) (o ∷ v) [] i x q h e = absurd h
  Fits-set (y ∷ xs) (o ∷ v) (p ∷ ps) zero x q h e =
      let same : y ≡ x = grind arith in (ap (entry q) (sym same), h.1)
  Fits-set (y ∷ xs) (o ∷ v) (p ∷ ps) (suc i) x q h e = (h.0, Fits-set xs v ps i x q h.1 e)

  -- a step that stores nothing
  pub Fits-place :
      (xs : List A) (v : List (Option A)) (ps : List Place) (i : ℕ) (p q : Place)
      → Fits xs v ps
      → get_elem? ps i ≡ some p
      → ((x : A) → entry p x ≡ entry q x)
      → Fits xs v (set ps i q)
  Fits-place [] [] [] i p q h e same = tt
  Fits-place [] [] (r ∷ ps) i p q h e same = absurd h
  Fits-place [] (o ∷ v) ps i p q h e same = absurd h
  Fits-place (x ∷ xs) [] ps i p q h e same = absurd h
  Fits-place (x ∷ xs) (o ∷ v) [] i p q h e same = absurd h
  Fits-place (x ∷ xs) (o ∷ v) (r ∷ ps) zero p q h e same =
      let here : r ≡ p = grind arith in (h.0 ∙ ap (λ k. entry k x) here ∙ same x, h.1)
  Fits-place (x ∷ xs) (o ∷ v) (r ∷ ps) (suc i) p q h e same =
      (h.0, Fits-place xs v ps i p q h.1 e same)

  -- some of the elements, in their order
  pub data Selection : List A → List A → Type 0 where
    none_left : Selection [] []
    skip : (x : A) {ys xs : List A} → Selection ys xs → Selection ys (x ∷ xs)
    take : (x : A) {ys xs : List A} → Selection ys xs → Selection (x ∷ ys) (x ∷ xs)

  pub collect-Selection :
      (xs : List A) (v : List (Option A)) (ps : List Place)
      → Fits xs v ps
      → Selection (collect v) xs
  collect-Selection [] [] [] h = none_left
  collect-Selection [] [] (p ∷ ps) h = absurd h
  collect-Selection [] (o ∷ v) ps h = absurd h
  collect-Selection (x ∷ xs) [] ps h = absurd h
  collect-Selection (x ∷ xs) (o ∷ v) [] h = absurd h
  collect-Selection (x ∷ xs) (none ∷ v) (p ∷ ps) h = skip x (collect-Selection xs v ps h.1)
  collect-Selection (x ∷ xs) (some y ∷ v) (p ∷ ps) h =
      let same : y ≡ x = stored p (h.0) in
      subst (λ z. Selection (z ∷ collect v) (x ∷ xs)) (sym same)
        (take x (collect-Selection xs v ps h.1))
    where
      stored : (p : Place) → some y ≡ entry p x → y ≡ x
      stored pending e = absurd (cc)
      stored counted e = absurd (cc)
      stored written e = cc
      stored last e = cc
      stored finished e = cc
      stored late e = absurd (cc)

  pub length-collect :
      (xs : List A) (v : List (Option A)) (ps : List Place)
      → Fits xs v ps
      → length (collect v) ≡ count is_written ps + count is_last ps + count is_finished ps
  length-collect [] [] [] h = omega arith
  length-collect [] [] (p ∷ ps) h = absurd h
  length-collect [] (o ∷ v) ps h = absurd h
  length-collect (x ∷ xs) [] ps h = absurd h
  length-collect (x ∷ xs) (o ∷ v) [] h = absurd h
  length-collect (x ∷ xs) (o ∷ v) (pending ∷ ps) h =
      rw (h.0) (omega (arith, length-collect xs v ps h.1))
  length-collect (x ∷ xs) (o ∷ v) (counted ∷ ps) h =
      rw (h.0) (omega (arith, length-collect xs v ps h.1))
  length-collect (x ∷ xs) (o ∷ v) (written ∷ ps) h =
      rw (h.0) (omega (arith, length-collect xs v ps h.1))
  length-collect (x ∷ xs) (o ∷ v) (last ∷ ps) h =
      rw (h.0) (omega (arith, length-collect xs v ps h.1))
  length-collect (x ∷ xs) (o ∷ v) (finished ∷ ps) h =
      rw (h.0) (omega (arith, length-collect xs v ps h.1))
  length-collect (x ∷ xs) (o ∷ v) (late ∷ ps) h =
      rw (h.0) (omega (arith, length-collect xs v ps h.1))

  pub length-waiting : (xs : List A) → length (waiting xs) ≡ length xs
  length-waiting [] = refl
  length-waiting (x ∷ xs) = ap suc (length-waiting xs)
