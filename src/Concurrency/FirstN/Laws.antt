-- ===== src/Concurrency/FirstN/Laws.antt =====
-- concurrency/futures/combine/first_n.hpp: the promise gets one value, made of the first results.
use dsac.Prelude.{
  ℕ, suc, ◌+◌, ◌-◌, ◌≤◌, ◌<◌, ◌≡◌, refl, sym, ap, ◌∙◌, subst, List, [], ◌∷◌, some, arith, length,
  get_elem?, set, All, length-set,
}
use dsac.Prelude.{min as least}
use dsac.Concurrency.Run.{Reach, Reach-invariant}
use dsac.Concurrency.FirstN.{
  Place, pending, counted, written, last, finished, late, Context, make, collect, waiting, Step,
  count_in, count_late, store, add_more, add_last, set_promise,
}
use dsac.Concurrency.FirstN.Counting.{
  count, count-set, count-lt, count-all, is_counted, is_written, is_last, is_finished, is_late,
  Fits, nothing-Fits, Fits-set, Fits-place, Selection, collect-Selection, length-collect,
  length-waiting,
}

abbrev counts : List Place → ℕ
counts ps = count is_counted ps + count is_written ps + count is_last ps + count is_finished ps

no_promise : {A : Type 0} (P : A → Type 0) (rs : List A) → length rs ≡ 0 → All P rs
no_promise P [] e = tt
no_promise P (r ∷ rs) e = absurd (omega arith)

none_placed : {A : Type 0} (f : Place → ℕ) (xs : List A) → f pending ≡ 0 → count f (waiting xs) ≡ 0
none_placed f [] e = refl
none_placed f (x ∷ xs) e = omega (arith, none_placed f xs e)

moves :
    (ps : List Place) (i : ℕ) (p q : Place)
    → get_elem? ps i ≡ some p
    → (count is_counted (set ps i q) + is_counted p ≡ count is_counted ps + is_counted q)
      × (count is_written (set ps i q) + is_written p ≡ count is_written ps + is_written q)
      × (count is_last (set ps i q) + is_last p ≡ count is_last ps + is_last q)
      × (count is_finished (set ps i q) + is_finished p ≡ count is_finished ps + is_finished q)
      × (count is_late (set ps i q) + is_late p ≡ count is_late ps + is_late q)
moves ps i p q e = (
  count-set is_counted ps i p q e,
  count-set is_written ps i p q e,
  count-set is_last ps i p q e,
  count-set is_finished ps i p q e,
  count-set is_late ps i p q e,
)

module _ {A : Type 0} (results : List A) (n : ℕ) where
  record IsValid (c : Context A) : Type 0 where
    fits : Fits results c.v c.places
    size : length c.places ≡ length results
    wanted : c.min ≡ n
    total : c.completed ≡ counts c.places + count is_late c.places
    winners : counts c.places ≡ least c.completed n
    stores : c.stored ≡ count is_last c.places + count is_finished c.places
    one : length c.promises + count is_last c.places ≡ 1 - (n - c.stored)
    values : All (λ r. r ≡ collect c.v) c.promises

  Step-IsValid : (0 < n) → (c d : Context A) → Step results c d → IsValid c → IsValid d
  Step-IsValid pos c d (count_in i at room) h =
      let (m1, m2, m3, m4, m5) = moves c.places i pending counted at in
      record {
        fits = Fits-place results c.v c.places i pending counted h.fits at (λ x. refl);
        size = length-set c.places i counted ∙ h.size;
        wanted = h.wanted;
        total = omega (arith, h.total);
        winners = omega (arith, h.winners, h.wanted);
        stores = omega (arith, h.stores);
        one = omega (arith, h.one);
        values = h.values;
      }
  Step-IsValid pos c d (count_late i at room) h =
      let (m1, m2, m3, m4, m5) = moves c.places i pending late at in
      record {
        fits = Fits-place results c.v c.places i pending late h.fits at (λ x. refl);
        size = length-set c.places i late ∙ h.size;
        wanted = h.wanted;
        total = omega (arith, h.total);
        winners = omega (arith, h.winners, h.wanted);
        stores = omega (arith, h.stores);
        one = omega (arith, h.one);
        values = h.values;
      }
  Step-IsValid pos c d (store i x at here) h =
      let (m1, m2, m3, m4, m5) = moves c.places i counted written at in
      let some_counted = count-lt is_counted c.places i counted at in
      record {
        fits = Fits-set results c.v c.places i x written h.fits here;
        size = length-set c.places i written ∙ h.size;
        wanted = h.wanted;
        total = omega (arith, h.total);
        winners = omega (arith, h.winners, h.wanted);
        stores = omega (arith, h.stores);
        one = omega (arith, h.one);
        values =
            no_promise (λ r. r ≡ collect (set c.v i (some x))) c.promises
              (omega (arith, h.one, h.stores, h.winners));
      }
  Step-IsValid pos c d (add_more i at more) h =
      let (m1, m2, m3, m4, m5) = moves c.places i written finished at in
      record {
        fits = Fits-place results c.v c.places i written finished h.fits at (λ x. refl);
        size = length-set c.places i finished ∙ h.size;
        wanted = h.wanted;
        total = omega (arith, h.total);
        winners = omega (arith, h.winners, h.wanted);
        stores = omega (arith, h.stores);
        one = omega (arith, h.one, h.wanted);
        values = h.values;
      }
  Step-IsValid pos c d (add_last i at enough) h =
      let (m1, m2, m3, m4, m5) = moves c.places i written last at in
      record {
        fits = Fits-place results c.v c.places i written last h.fits at (λ x. refl);
        size = length-set c.places i last ∙ h.size;
        wanted = h.wanted;
        total = omega (arith, h.total);
        winners = omega (arith, h.winners, h.wanted);
        stores = omega (arith, h.stores);
        one = omega (
          arith,
          h.one,
          h.wanted,
          h.stores,
          h.winners,
          count-lt is_written c.places i written at,
        );
        values = h.values;
      }
  Step-IsValid pos c d (set_promise i at) h =
      let (m1, m2, m3, m4, m5) = moves c.places i last finished at in
      record {
        fits = Fits-place results c.v c.places i last finished h.fits at (λ x. refl);
        size = length-set c.places i finished ∙ h.size;
        wanted = h.wanted;
        total = omega (arith, h.total);
        winners = omega (arith, h.winners, h.wanted);
        stores = omega (arith, h.stores);
        one = omega (arith, h.one, h.wanted);
        values = (refl, h.values);
      }

  make-IsValid : 0 < n → IsValid (make results n)
  make-IsValid pos =
      let m1 = none_placed is_counted results refl in
      let m2 = none_placed is_written results refl in
      let m3 = none_placed is_last results refl in
      let m4 = none_placed is_finished results refl in
      let m5 = none_placed is_late results refl in
      record {
        fits = nothing-Fits results;
        size = length-waiting results;
        wanted = refl;
        total = omega arith;
        winners = omega arith;
        stores = omega arith;
        one = omega arith;
        values = tt;
      }

  value :
      (c : Context A)
      → IsValid c
      → (r : List A) (rs : List (List A)) → c.promises ≡ r ∷ rs
      → (length r ≡ n) × Selection r results
  value c h r rs e =
      let first : r ≡ collect c.v = (subst (All (λ r'. r' ≡ collect c.v)) e h.values).0 in
      let some_promise : length c.promises ≡ suc (length rs) = ap length e in
      (
        rw first
            (omega (arith, length-collect results c.v c.places h.fits, h.one, h.stores, h.winners)),
        subst (λ r'. Selection r' results) (sym first)
            (collect-Selection results c.v c.places h.fits),
      )

  -- Of `first_n` with a number of results that is positive and at most that of the futures, in every
  -- interleaving of the callbacks: the promise is set at most once; where it is set, its value has `n` results of
  -- the futures, in their order; while one callback builds the value, no other one is before its store; and
  -- once all callbacks have returned, the promise is set.
  pub first_n_one_value :
      0 < n
      → n ≤ length results
      → {c : Context A} → Reach (Step results) (make results n) c
      → (length c.promises ≤ 1)
        × ((r : List A) (rs : List (List A))
            → c.promises ≡ r ∷ rs
            → (length r ≡ n) × Selection r results)
        × (0 < count is_last c.places → count is_counted c.places ≡ 0)
        × (count is_finished c.places + count is_late c.places ≡ length results
            → length c.promises ≡ 1)
  first_n_one_value pos enough {c} reach =
      let h = Reach-invariant IsValid (Step-IsValid pos) reach (make-IsValid pos) in
      let all = count-all c.places in
      (
        omega (arith, h.one),
        value c h,
        (λ l. omega (arith, h.one, h.stores, h.winners)),
        (λ done. omega (arith, h.one, h.stores, h.winners, h.total, h.size)),
      )

-- no callback counts as one of the first
record IsIdle {A : Type 0} (c : Context A) : Type 0 where
  none_wanted : c.min ≡ 0
  none_in : count is_counted c.places + count is_written c.places + count is_last c.places ≡ 0
  none_set : c.promises ≡ []

Step-IsIdle :
    {A : Type 0} (results : List A) (c d : Context A) → Step results c d → IsIdle c → IsIdle d
Step-IsIdle results c d (count_in i at room) h = absurd (omega (arith, h.none_wanted))
Step-IsIdle results c d (count_late i at room) h =
    let (m1, m2, m3, m4, m5) = moves c.places i pending late at in
    record {
      none_wanted = h.none_wanted;
      none_in = omega (arith, h.none_in);
      none_set = h.none_set;
    }
Step-IsIdle results c d (store i x at here) h =
    absurd (omega (arith, h.none_in, count-lt is_counted c.places i counted at))
Step-IsIdle results c d (add_more i at more) h =
    absurd (omega (arith, h.none_in, count-lt is_written c.places i written at))
Step-IsIdle results c d (add_last i at enough) h =
    absurd (omega (arith, h.none_in, count-lt is_written c.places i written at))
Step-IsIdle results c d (set_promise i at) h =
    absurd (omega (arith, h.none_in, count-lt is_last c.places i last at))

-- `first_n` of no results gives a future that never gets a value, whatever the callbacks do.
pub first_n_zero :
    {A : Type 0} (results : List A) {c : Context A}
    → Reach (Step results) (make results 0) c
    → c.promises ≡ []
first_n_zero results {c} reach =
    let m1 = none_placed is_counted results refl in
    let m2 = none_placed is_written results refl in
    let m3 = none_placed is_last results refl in
    (Reach-invariant IsIdle (Step-IsIdle results) reach
      (record { none_wanted = refl; none_in = omega arith; none_set = refl })).none_set
