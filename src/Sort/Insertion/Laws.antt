-- ===== src/Sort/Insertion/Laws.antt =====
-- algorithm/detail/insertion_sort.hpp: the range that `insertion_sort` leaves.
use native.Mathlib.Numerals.{add-one}
use mathlib.Core.List.Perm
use dsac.Prelude.{
  ℕ, zero, suc, ◌+◌, ◌-◌, ◌≤◌, ◌<◌, ◌≡◌, ◌≢◌, refl, Bool, true, false, List, [], ◌∷◌, some, Perm,
  arith, inl, inr, get_elem?, length, set, length-set, ◌==◌, if◌then◌else◌, Returns, Bool-cases,
}
use dsac.Prelude.Arrays.{
  write-set, get_elem?-set, set-set, set_same, exchange-perm, get_elem?_of_lt, length-perm,
}
use dsac.Sort.Order.{StrictWeak, IsSortedTo, IsSorting, perm-IsSorting, IsSorting-of_to}
use dsac.Sort.Insertion.{shift, insert_loop, insertion_sort}

module _ {ℓ} {A : Type ℓ} {comp : A → A → Bool} (order : StrictWeak comp) where
  -- the first `n` elements but the one at `hole` are sorted, and `key` goes before those behind it
  record HasHole (key : A) (hole n : ℕ) (xs : List A) : Type ℓ where
    sorted :
        (p q : ℕ) (x y : A)
        → p < q
        → q < n
        → p ≢ hole
        → q ≢ hole
        → get_elem? xs p ≡ some x
        → get_elem? xs q ≡ some y
        → comp y x ≡ false
    behind : (q : ℕ) (y : A) → hole < q → q < n → get_elem? xs q ≡ some y → comp key y ≡ true

  fill-IsSortedTo :
      (key : A) (hole n : ℕ) (xs : List A)
      → hole < length xs
      → HasHole key hole n xs
      → ((p : ℕ) (x : A) → p < hole → get_elem? xs p ≡ some x → comp key x ≡ false)
      → IsSortedTo comp n (set xs hole key)
  fill-IsSortedTo key hole n xs lt h before p q x y pq qn hx hy = ground (
    arith,
    get_elem?-set xs hole p key lt,
    get_elem?-set xs hole q key lt,
    h.sorted p q x y,
    h.behind q y,
    before p x,
    order.asymm key y,
  )

  move-HasHole :
      (key : A) (i n : ℕ) (xs : List A) (x : A)
      → suc i < n
      → suc i < length xs
      → get_elem? xs i ≡ some x
      → comp key x ≡ true
      → HasHole key (suc i) n xs
      → HasHole key i n (set xs (suc i) x)
  move-HasHole key i n xs x lt len hx t h = record {
    sorted = λ p q a b pq qn pi qi ha hb.
        ground (arith, at p, at q, h.sorted i q x b, h.sorted p i a x, h.sorted p q a b);
    behind = λ q b iq qn hb. ground (arith, at q, h.behind q b);
  }
    where
      at :
          (k : ℕ) → get_elem? (set xs (suc i) x) k ≡ (if suc i == k then some x else get_elem? xs k)
      at k = get_elem?-set xs (suc i) k x len

  shift-perm :
      (xs : List A) (key : A) (i : ℕ) {x : A}
      → suc i < length xs
      → get_elem? xs i ≡ some x
      → Perm (set (set xs (suc i) x) i key) (set xs (suc i) key)
  shift-perm xs key i {x} lt hx =
      let zs = set xs (suc i) key in
      let first : get_elem? zs (suc i) ≡ some key =
        ground (arith, get_elem?-set xs (suc i) (suc i) key lt) in
      let second : get_elem? zs i ≡ some x = ground (arith, get_elem?-set xs (suc i) i key lt) in
      rw set-set at (exchange-perm zs (suc i) i first second)

  shift-IsSortedTo :
      (key : A) (i n : ℕ) (xs : List A)
      → i < n
      → n ≤ length xs
      → HasHole key i n xs
      → Returns (shift comp key i xs) (λ ys. Perm ys (set xs i key) × IsSortedTo comp n ys)
  unfolding shift
  shift-IsSortedTo key zero n xs lt len h = (
    set xs 0 key,
    write-set xs 0 key (omega arith),
    (Perm.refl _, fill-IsSortedTo key 0 n xs (omega arith) h (λ p x lt. absurd (omega arith))),
  )
  shift-IsSortedTo key (suc i) n xs lt len h =
      let (x, hx) = get_elem?_of_lt xs i (omega arith) in
      elim (Bool-cases (comp key x)) [
        | inr f ↦ (
          set xs (suc i) key,
          rw (hx, f) (write-set xs (suc i) key (omega arith)),
          (
            Perm.refl _,
            fill-IsSortedTo key (suc i) n xs (omega arith) h
                (λ p a below ha. ground (arith, h.sorted p i a x, order.negative_trans a x key)),
          ),
        )
        | inl t ↦
            let moved = move-HasHole key i n xs x lt (omega arith) hx t h in
            let (ys, run, (p, s)) =
              shift-IsSortedTo key i n (set xs (suc i) x) (omega arith) (rw length-set len) moved in
            (
              ys,
              rw (hx, t, write-set xs (suc i) x (omega arith)) run,
              (Perm.trans p (shift-perm xs key i (omega arith) hx), s),
            )
      ]

  insert_loop-IsSortedTo :
      (n j : ℕ) (xs : List A)
      → n + j ≡ length xs
      → IsSortedTo comp j xs
      → Returns (insert_loop comp n j xs) (IsSorting comp xs)
  unfolding insert_loop
  insert_loop-IsSortedTo zero j xs e h = (xs, refl, IsSorting-of_to comp xs (omega arith) h)
  insert_loop-IsSortedTo (suc n) j xs e h =
      let (key, hk) = get_elem?_of_lt xs j (omega arith) in
      let hole : HasHole key j (suc j) xs = record {
        sorted = λ p q x y pq qn pj qj. h p q x y pq (omega arith);
        behind = λ q y jq qn. absurd (omega arith);
      } in
      let (ys, run, (p, s)) = shift-IsSortedTo key j (suc j) xs (omega arith) (omega arith) hole in
      let same = rw (set_same xs j hk) at p in
      let (zs, rest, done) =
        insert_loop-IsSortedTo n (j + 1) ys (omega (arith, length-perm same))
          (rw (← add-one j) at s) in
      (zs, rw (hk, run) rest, perm-IsSorting comp same done)

  -- Insertion sort never leaves the range, and puts it in order, for every strict weak order.
  pub insertion_sort-IsSorting :
      (xs : List A) → Returns (insertion_sort comp xs) (IsSorting comp xs)
  unfolding insertion_sort insert_loop
  insertion_sort-IsSorting [] =
      ([], refl, record { sorted = λ p q x y pq lt. absurd (omega arith); perm = Perm.refl [] })
  insertion_sort-IsSorting (x ∷ xs) =
      insert_loop-IsSortedTo (suc (length xs) - 1) 1 (x ∷ xs) (omega arith)
        (λ p q y z pq lt. absurd (omega arith))
