-- ===== src/Concurrency/FirstOf/Laws.antt =====
-- concurrency/futures/combine/first_of.hpp: the promise gets one value, the result of one of the futures.
use dsac.Prelude.{
  ℕ, zero, suc, ◌+◌, ◌≤◌, ◌<◌, ◌≡◌, refl, ap, Bool, true, false, List, [], ◌∷◌, some, arith, length,
  get_elem?, set, All,
}
use dsac.Concurrency.Run.{Reach, Reach-invariant}
use dsac.Concurrency.FirstOf.{
  Place, pending, winning, finished, Context, make, waiting, Step, exchange_first, exchange_late,
  set_promise,
}

abbrev pub count : (Place → ℕ) → List Place → ℕ
count f [] = 0
count f (p ∷ ps) = f p + count f ps

count-set :
    (f : Place → ℕ) (ps : List Place) (i : ℕ) (p q : Place)
    → get_elem? ps i ≡ some p
    → count f (set ps i q) + f p ≡ count f ps + f q
count-set f [] i p q e = absurd (cc)
count-set f (r ∷ ps) zero p q e = let same : r ≡ p = grind arith in omega (arith, ap f same)
count-set f (r ∷ ps) (suc i) p q e = omega (arith, count-set f ps i p q e)

abbrev pub is_winning : Place → ℕ
is_winning winning = 1
is_winning _ = 0

abbrev pub is_finished : Place → ℕ
is_finished finished = 1
is_finished _ = 0

abbrev one_if : Bool → ℕ
one_if true = 1
one_if false = 0

none_placed : {A : Type 0} (f : Place → ℕ) (xs : List A) → f pending ≡ 0 → count f (waiting xs) ≡ 0
none_placed f [] e = refl
none_placed f (x ∷ xs) e = omega (arith, none_placed f xs e)

module _ {A : Type 0} (results : List A) where
  -- the result of some future
  abbrev pub IsResult : A → Type 0
  IsResult x = (i : ℕ) × (get_elem? results i ≡ some x)

  record IsValid (c : Context A) : Type 0 where
    one : length c.promises + count is_winning c.places ≡ one_if c.done
    early : c.done ≡ false → count is_finished c.places ≡ 0
    values : All IsResult c.promises

  Step-IsValid : (c d : Context A) → Step results c d → IsValid c → IsValid d
  Step-IsValid c d (exchange_first i at open_) h =
      let m1 = count-set is_winning c.places i pending winning at in
      let none_done : one_if c.done ≡ 0 = ap one_if open_ in
      record { one = omega (arith, h.one); early = λ e. absurd (cc); values = h.values }
  Step-IsValid c d (exchange_late i at closed) h =
      let m1 = count-set is_winning c.places i pending finished at in
      record { one = omega (arith, h.one); early = λ e. absurd (cc); values = h.values }
  Step-IsValid c d (set_promise i x at here) h =
      let m1 = count-set is_winning c.places i winning finished at in
      record {
        one = omega (arith, h.one);
        early =
            λ e. let none_done : one_if c.done ≡ 0 = ap one_if e in absurd (omega (arith, h.one));
        values = ((i, here), h.values);
      }

  -- Of `first_of`, in every interleaving of the callbacks: the promise is set at most once, with the result of
  -- one of the futures; and once a callback has returned and none is before its `set`, it is set.
  pub first_of_one_value :
      {c : Context A}
      → Reach (Step results) (make results) c
      → (length c.promises ≤ 1)
        × All IsResult c.promises
        × (0 < count is_finished c.places → count is_winning c.places ≡ 0 → length c.promises ≡ 1)
  first_of_one_value {c} reach =
      let start : IsValid (make results) = record {
        one = omega (arith, none_placed is_winning results refl);
        early = λ e. none_placed is_finished results refl;
        values = tt;
      } in
      let h = Reach-invariant IsValid Step-IsValid reach start in
      (
        at_most c.done (length c.promises) (count is_winning c.places) h.one,
        h.values,
        λ some_done all_done.
            exactly c.done (length c.promises) (count is_winning c.places) h.one (h.early) some_done
              all_done,
      )
    where
      at_most : (d : Bool) (p w : ℕ) → p + w ≡ one_if d → p ≤ 1
      at_most true p w e = omega arith
      at_most false p w e = omega arith

      exactly :
          (d : Bool) (p w : ℕ)
          → p + w ≡ one_if d
          → (d ≡ false → count is_finished c.places ≡ 0)
          → 0 < count is_finished c.places
          → w ≡ 0
          → p ≡ 1
      exactly true p w e early s a = omega arith
      exactly false p w e early s a = absurd (omega (arith, early refl))
