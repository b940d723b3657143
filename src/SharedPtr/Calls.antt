-- ===== src/SharedPtr/Calls.antt =====
-- memory/shared_ptr.hpp: each call of a program.
use dsac.Prelude.{
  ℕ, ◌+◌, ◌≤◌, ◌<◌, ◌≡◌, refl, sym, ap, ◌∙◌, subst, true, List, Option, none, some, arith, set,
  length, length-set, map, ◌==◌, Returns, Bool-cases, inl, inr,
}
use dsac.SharedPtr.{
  Call, make, copy_construct, move_construct, copy_assign, move_assign, reset, reset_to, swap,
  leave, Heap, World, construct, swap_in, call,
}
use dsac.SharedPtr.Blocks.{held, is, IsCounted, IsCounted-same, construct-IsCounted}
use dsac.SharedPtr.Owners.{
  count, at, own, IsCall, get_elem?-held, write-held, count-set, at-set_free, at-set-at, set-at,
  set-moved,
}
use dsac.SharedPtr.Slots.{
  IsBelow, Refines, IsBelow-set, swap_in-held, swap_in-null, copied, at-below, moved,
}

-- a heap whose blocks are held by one pointer more, and the slot that it is written to
placed :
    (f : ℕ) (os : List (Option ℕ)) (i : ℕ) (o : Option ℕ) (h : Heap)
    → i < length os
    → at os i ≡ none
    → h.fresh ≡ f
    → IsCounted (λ x. count x os + is o x) h
    → IsBelow f os
    → ((x : ℕ) → f ≤ x → is o x ≡ 0)
    → Refines (f, set os i o) (record { slots = map held (set os i o); heap = h })
placed f os i o h lt free same counted below new = record {
  slots = refl;
  fresh = same;
  counted =
      IsCounted-same (λ x. count x os + is o x) (λ x. count x (set os i o)) h
        (λ x. omega (arith, count-set os i x o lt, ap (λ q. is q x) free)) counted;
  below = IsBelow-set f os i o lt below new;
}

-- a pointer of a block that has it as one holder more, put into a slot
swapped :
    (f : ℕ) (os : List (Option ℕ)) (i : ℕ) (o : Option ℕ) (w : World)
    → w.slots ≡ map held os
    → i < length os
    → w.heap.fresh ≡ f
    → IsCounted (λ x. count x os + is o x) w.heap
    → IsBelow f os
    → ((x : ℕ) → f ≤ x → is o x ≡ 0)
    → Returns (swap_in i (held o) w) (λ w'. Refines (f, set os i o) w')
swapped f os i o w slots lt e counted below new =
    let (h', runs, same, again) =
      swap_in-held os i o w slots lt counted (subst (λ g. IsBelow g os) (sym e) below) in
    (
      record { slots = map held (set os i o); heap = h' },
      runs,
      record {
        slots = refl;
        fresh = same ∙ e;
        counted = again;
        below = IsBelow-set f os i o lt below new;
      },
    )

pub call-Refines :
    (c : Call) (os : List (Option ℕ)) (w : World)
    → Refines (w.heap.fresh, os) w
    → IsCall c os
    → Returns (call c w) (Refines (own c (w.heap.fresh, os)))
unfolding call
call-Refines (make i) os w h (lt, free) =
    let f = w.heap.fresh in
    let (made, next_, counted) =
      construct-IsCounted (λ x. count x os) w.heap h.counted (h.below f (omega arith)) in
    (
      record { slots = map held (set os i (some f)); heap = (construct true w.heap).1 },
      rw (h.slots, made, write-held os i (some f) lt) refl,
      placed (f + 1) os i (some f) ((construct true w.heap).1) lt free next_ counted
          (λ x le. h.below x (omega arith)) (λ x le. ground arith),
    )
call-Refines (copy_construct i j) os w h (lti, ltj, free) =
    let (h', runs, again) = copied os j w h in
    (
      record { slots = map held (set os i (at os j)); heap = h' },
      rw (h.slots, get_elem?-held os j ltj, runs, write-held os i (at os j) lti) refl,
      placed w.heap.fresh os i (at os j) h' lti free again.same_fresh again.counted h.below
          (at-below w.heap.fresh os j h.below),
    )
call-Refines (move_construct i j) os w h (lti, ltj, free) = moved os i j w h lti ltj free
call-Refines (copy_assign i j) os w h (lti, ltj) = elim (Bool-cases (j == i)) [
  | inl e ↦
      let same : j ≡ i = ground arith in
      (
        w,
        rw e refl,
        subst (λ l. Refines (w.heap.fresh, l) w)
            (sym (ap (λ k. set os i (at os k)) same ∙ set-at os i)) h,
      )
  | inr e ↦
      let (h1, copies, again) = copied os j w h in
      let (w', runs, done) =
        swapped w.heap.fresh os i (at os j) (record w { heap = h1 }) h.slots lti again.same_fresh
          again.counted h.below (at-below w.heap.fresh os j h.below) in
      (
        w',
        rw (e, h.slots, get_elem?-held os j ltj, copies)
            (subst (λ l. swap_in i (held (at os j)) (record { slots = l; heap = h1 }) ≡ some w')
              h.slots runs),
        done,
      )
]
call-Refines (move_assign i j) os w h (lti, ltj) =
    let (w1, resets, h1) = swap_in-null os i w h lti in
    let lti' : i < length (set os i none) = omega (arith, length-set os i none) in
    let ltj' : j < length (set os i none) = omega (arith, length-set os i none) in
    let free : at (set os i none) i ≡ none = at-set_free os i lti in
    let start = subst (λ f. Refines (f, set os i none) w1) (sym h1.fresh) h1 in
    let (w', moves, done) = moved (set os i none) i j w1 start lti' ltj' free in
    (
      w',
      rw resets moves,
      subst (λ l. Refines (w.heap.fresh, l) w') (set-moved os i j lti)
          (subst (λ f. Refines (f, set (set (set os i none) j none) i (at (set os i none) j)) w')
            h1.fresh done),
    )
call-Refines (reset i) os w h lt = swap_in-null os i w h lt
call-Refines (reset_to i) os w h lt =
    let f = w.heap.fresh in
    let (made, next_, counted) =
      construct-IsCounted (λ x. count x os) w.heap h.counted (h.below f (omega arith)) in
    let (w', runs, done) =
      swapped (f + 1) os i (some f) (record w { heap = (construct true w.heap).1 }) h.slots lt next_
        counted (λ x le. h.below x (omega arith)) (λ x le. ground arith) in
    (w', rw made runs, done)
call-Refines (swap i j) os w h (lti, ltj) =
    let os' = set os i (at os j) in
    let ltj' : j < length os' = omega (arith, length-set os i (at os j)) in
    let same : (x : ℕ) → count x (set os' j (at os i)) ≡ count x os = λ x. omega (
      arith,
      count-set os i x (at os j) lti,
      count-set os' j x (at os i) ltj',
      ap (λ o. is o x) (at-set-at os i j lti),
    ) in
    (
      record w { slots = map held (set os' j (at os i)) },
      rw
          (
            h.slots,
            get_elem?-held os i lti,
            get_elem?-held os j ltj,
            write-held os i (at os j) lti,
            write-held os' j (at os i) ltj',
          )
          refl,
      record {
        slots = refl;
        fresh = refl;
        counted =
            IsCounted-same (λ x. count x os) (λ x. count x (set os' j (at os i))) w.heap same
              h.counted;
        below = λ x le. same x ∙ h.below x le;
      },
    )
call-Refines (leave i) os w h lt = swap_in-null os i w h lt
