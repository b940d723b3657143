-- ===== src/SharedPtr/Slots.antt =====
-- memory/shared_ptr.hpp: what stands in one slot.
use dsac.Prelude.{
  ℕ, ◌+◌, ◌-◌, ◌≤◌, ◌<◌, ◌≡◌, refl, ap, List, Option, none, some, arith, set, length, length-set,
  map, ◌>>=◌, Returns,
}
use dsac.Prelude.Arrays.{write}
use dsac.SharedPtr.{Heap, World, null, copy, take, swap_in}
use dsac.SharedPtr.Blocks.{
  held, is, IsCounted, IsRecounted, IsCounted-same, IsHeld, copy-IsRecounted, destroy-IsRecounted,
}
use dsac.SharedPtr.Owners.{count, at, get_elem?-held, write-held, is-le, count-set, at-set-none}

-- no pointer holds a block that was not allocated
abbrev pub IsBelow : ℕ → List (Option ℕ) → Type 0
IsBelow f os = (x : ℕ) → f ≤ x → count x os ≡ 0

-- The world holds the blocks as the list says: each block that was allocated has its object, its deleter
-- and the count of its pointers, or is freed where it has none.
pub record Refines (os : ℕ × List (Option ℕ)) (w : World) : Type 0 where
  pub slots : w.slots ≡ map held (os.1)
  pub fresh : w.heap.fresh ≡ os.0
  pub counted : IsCounted (λ x. count x (os.1)) w.heap
  pub below : IsBelow (os.0) (os.1)

pub IsBelow-set :
    (f : ℕ) (os : List (Option ℕ)) (i : ℕ) (o : Option ℕ)
    → i < length os
    → IsBelow f os
    → ((x : ℕ) → f ≤ x → is o x ≡ 0)
    → IsBelow f (set os i o)
IsBelow-set f os i o lt below new x le = omega (arith, count-set os i x o lt, below x le, new x le)

at-IsHeld :
    (holders : ℕ → ℕ) (h : Heap) (os : List (Option ℕ)) (i : ℕ)
    → IsBelow h.fresh os
    → ((x : ℕ) → count x os ≤ holders x)
    → IsHeld holders h (at os i)
at-IsHeld holders h os i below le = go (at os i) (λ x. is-le os i x)
  where
    go : (o : Option ℕ) → ((x : ℕ) → is o x ≤ count x os) → IsHeld holders h o
    go none least = tt
    go (some b) least = (ground (arith, least b, below b), ground (arith, least b, le b))

-- a pointer that is put into a slot, with the destructor of the one that stood there
pub swap_in-held :
    (os : List (Option ℕ)) (i : ℕ) (o : Option ℕ) (w : World)
    → w.slots ≡ map held os
    → i < length os
    → IsCounted (λ x. count x os + is o x) w.heap
    → IsBelow w.heap.fresh os
    → (h : Heap) × (swap_in i (held o) w
        ≡ some (record { slots = map held (set os i o); heap = h }))
      × (h.fresh ≡ w.heap.fresh)
      × IsCounted (λ x. count x (set os i o)) h
unfolding swap_in
swap_in-held os i o w slots lt counted below =
    let holders = λ (x : ℕ). count x os + is o x in
    let (h, runs, again) =
      destroy-IsRecounted holders (at os i) w.heap counted
        (at-IsHeld holders w.heap os i below (λ x. omega arith)) in
    (
      h,
      rw (slots, get_elem?-held os i lt, write-held os i o lt, runs) refl,
      again.same_fresh,
      IsCounted-same (λ x. holders x - is (at os i) x) (λ x. count x (set os i o)) h
          (λ x. omega (arith, count-set os i x o lt, is-le os i x)) again.counted,
    )

-- `swap_in` of a pointer that holds nothing yet
pub swap_in-null :
    (os : List (Option ℕ)) (i : ℕ) (w : World)
    → Refines (w.heap.fresh, os) w
    → i < length os
    → Returns (swap_in i null w) (λ w'. Refines (w.heap.fresh, set os i none) w')
swap_in-null os i w h lt =
    let zero_more =
      IsCounted-same (λ x. count x os) (λ x. count x os + 0) w.heap (λ x. omega arith) h.counted in
    let (h', runs, same, counted) = swap_in-held os i none w h.slots lt zero_more h.below in
    (
      record { slots = map held (set os i none); heap = h' },
      runs,
      record {
        slots = refl;
        fresh = same;
        counted = counted;
        below = IsBelow-set w.heap.fresh os i none lt h.below (λ x le. refl);
      },
    )

-- a copy that is made of the pointer `j`
pub copied :
    (os : List (Option ℕ)) (j : ℕ) (w : World)
    → Refines (w.heap.fresh, os) w
    → (h : Heap) × (copy (held (at os j)) w.heap ≡ some (held (at os j), h))
      × IsRecounted (λ x. count x os + is (at os j) x) w.heap h
copied os j w h =
    copy-IsRecounted (λ x. count x os) (at os j) w.heap h.counted
      (at-IsHeld (λ x. count x os) w.heap os j h.below (λ x. omega arith))

pub at-below :
    (f : ℕ) (os : List (Option ℕ)) (j : ℕ) → IsBelow f os → (x : ℕ) → f ≤ x → is (at os j) x ≡ 0
at-below f os j below x le = omega (arith, is-le os j x, below x le)

-- `take` of a slot, and a write of what it held
pub moved :
    (os : List (Option ℕ)) (i j : ℕ) (w : World)
    → Refines (w.heap.fresh, os) w
    → i < length os
    → j < length os
    → at os i ≡ none
    → Returns
        (take j w.slots >>= λ r. write (r.1) i (r.0) >>= λ slots. some (record w { slots = slots }))
        (Refines (w.heap.fresh, set (set os j none) i (at os j)))
unfolding take
moved os i j w h lti ltj free =
    let os' = set os j none in
    let lt' : i < length os' = omega (arith, length-set os j none) in
    let none_there : (x : ℕ) → is (at os' i) x ≡ 0 =
      λ x. ap (λ o. is o x) (at-set-none os i j free) in
    (
      record { slots = map held (set os' i (at os j)); heap = w.heap },
      rw
          (
            h.slots,
            get_elem?-held os j ltj,
            write-held os j none ltj,
            write-held os' i (at os j) lt',
          )
          refl,
      record {
        slots = refl;
        fresh = refl;
        counted =
            IsCounted-same (λ x. count x os) (λ x. count x (set os' i (at os j))) w.heap
              (λ x.
                omega
                  (arith, count-set os j x none ltj, count-set os' i x (at os j) lt', none_there x))
              h.counted;
        below = λ x le. ground (
          arith,
          count-set os j x none ltj,
          count-set os' i x (at os j) lt',
          none_there x,
          h.below x,
        );
      },
    )
