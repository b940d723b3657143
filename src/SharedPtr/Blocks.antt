-- ===== src/SharedPtr/Blocks.antt =====
-- memory/shared_ptr.hpp: a block is freed with the last pointer that holds it, and not before.
use dsac.Prelude.{
  ℕ, zero, suc, ◌+◌, ◌-◌, ◌<◌, ◌≡◌, ◌≢◌, refl, sym, ap, ◌∙◌, true, false, Option, none, some, arith,
  ◌==◌, if◌then◌else◌, Returns, Bool-cases, inl, inr,
}
use dsac.SharedPtr.{
  Block, SharedPtr, Heap, store, construct, increment, copy, decrement, delete_count, delete_object,
  delete_deleter, destroy,
}

-- a pointer with all of its members in one block, or null
abbrev pub held : Option ℕ → SharedPtr
held o = record { ptr = o; ref_count = o; deleter = o }

-- the block that so many pointers hold
abbrev pub entry : ℕ → Block
entry zero = record { object = false; count = none; deleter = false }
entry (suc n) = record { object = true; count = some (suc n); deleter = true }

-- 1 where the pointer holds the block
abbrev pub is : Option ℕ → ℕ → ℕ
is none x = 0
is (some b) x = if b == x then 1 else 0

-- The blocks that were allocated are as their holders say, of which the block `x` has `holders x`.
pub record IsCounted (holders : ℕ → ℕ) (h : Heap) : Type 0 where
  pub blocks : (x : ℕ) → x < h.fresh → h.block x ≡ entry (holders x)

-- `h'` has the same blocks as `h`, with these holders
pub record IsRecounted (holders : ℕ → ℕ) (h h' : Heap) : Type 0 where
  pub counted : IsCounted holders h'
  pub same_fresh : h'.fresh ≡ h.fresh

-- all blocks but `a` are as their holders say
abbrev AreOthers : (ℕ → ℕ) → ℕ → Heap → Type 0
AreOthers holders a h = (x : ℕ) → x < h.fresh → x ≢ a → h.block x ≡ entry (holders x)

store-AreOthers :
    (holders : ℕ → ℕ) (a : ℕ) (b : Block) (h : Heap)
    → AreOthers holders a h
    → AreOthers holders a (store a b h)
store-AreOthers holders a b h others x lt ne = elim (Bool-cases (x == a)) [
  | inl e ↦ absurd (ground arith)
  | inr e ↦ rw e (others x lt ne)
]

store-IsCounted :
    (holders : ℕ → ℕ) (a : ℕ) (b : Block) (h : Heap)
    → AreOthers holders a h
    → b ≡ entry (holders a)
    → IsCounted holders (store a b h)
store-IsCounted holders a b h others here = record { blocks = at }
  where
    at : (x : ℕ) → x < h.fresh → (store a b h).block x ≡ entry (holders x)
    at x lt = elim (Bool-cases (x == a)) [
      | inl e ↦ let same : a ≡ x = ground arith in rw e (here ∙ ap (λ y. entry (holders y)) same)
      | inr e ↦ rw e (others x lt (ground arith))
    ]

IsCounted-AreOthers :
    (holders holders' : ℕ → ℕ) (a : ℕ) (h : Heap)
    → IsCounted holders h
    → ((x : ℕ) → x ≢ a → holders' x ≡ holders x)
    → AreOthers holders' a h
IsCounted-AreOthers holders holders' a h counted same x lt ne =
    counted.blocks x lt ∙ ap entry (sym (same x ne))

pub IsCounted-same :
    (holders holders' : ℕ → ℕ) (h : Heap)
    → ((x : ℕ) → holders' x ≡ holders x)
    → IsCounted holders h
    → IsCounted holders' h
IsCounted-same holders holders' h same counted = record {
  blocks = λ x lt. counted.blocks x lt ∙ ap entry (sym (same x));
}

entry-positive :
    (m : ℕ) → 0 < m → entry m ≡ record { object = true; count = some m; deleter = true }
entry-positive zero pos = absurd (omega arith)
entry-positive (suc m) pos = refl

-- what a pointer that is held points to is there
abbrev pub IsHeld : (ℕ → ℕ) → Heap → Option ℕ → Type 0
IsHeld holders h none = Unit
IsHeld holders h (some b) = (b < h.fresh) × (0 < holders b)

pub copy-IsRecounted :
    (holders : ℕ → ℕ) (o : Option ℕ) (h : Heap)
    → IsCounted holders h
    → IsHeld holders h o
    → (h' : Heap) × (copy (held o) h ≡ some (held o, h'))
      × IsRecounted (λ x. holders x + is o x) h h'
unfolding copy increment
copy-IsRecounted holders none h counted inside = (
  h,
  refl,
  record {
    counted = IsCounted-same holders (λ x. holders x + 0) h (λ x. omega arith) counted;
    same_fresh = refl;
  },
)
copy-IsRecounted holders (some b) h counted (lt, pos) =
    let at : h.block b ≡ record { object = true; count = some (holders b); deleter = true } =
      counted.blocks b lt ∙ entry-positive (holders b) pos in
    let more = λ (x : ℕ). holders x + is (some b) x in
    let here : record (h.block b) { count = some (holders b + 1) } ≡ entry (more b) =
      ap (λ (k : Block). record k { count = some (holders b + 1) }) at
      ∙ sym (entry-positive (holders b + 1) (omega arith))
      ∙ ap entry (ground arith) in
    (
      store b (record (h.block b) { count = some (holders b + 1) }) h,
      rw (ap (λ (k : Block). k.count) at) refl,
      record {
        counted =
            store-IsCounted more b (record (h.block b) { count = some (holders b + 1) }) h
              (IsCounted-AreOthers holders more b h counted (λ x ne. ground arith)) here;
        same_fresh = refl;
      },
    )

module _ (a : ℕ) (k : Block) (h : Heap) where
  store-at : (store a k h).block a ≡ k
  store-at = let self : (a == a) ≡ true = ground arith in rw self refl

  decrement-store :
      (n : ℕ)
      → h.block a ≡ k
      → k.count ≡ some n
      → decrement (some a) h ≡ some (n - 1, store a (record k { count = some (n - 1) }) h)
  unfolding decrement
  decrement-store n at counter = rw (at, counter) refl

  delete_count-store :
      (n : ℕ)
      → h.block a ≡ k
      → k.count ≡ some n
      → delete_count (some a) h ≡ some (store a (record k { count = none }) h)
  unfolding delete_count
  delete_count-store n at counter = rw (at, counter) refl

  delete_object-store :
      h.block a ≡ k
      → k.deleter ≡ true
      → k.object ≡ true
      → delete_object a (some a) h ≡ some (store a (record k { object = false }) h)
  unfolding delete_object
  delete_object-store at there object = rw (at, there, object) refl

  delete_deleter-store :
      h.block a ≡ k
      → k.deleter ≡ true
      → delete_deleter (some a) h ≡ some (store a (record k { deleter = false }) h)
  unfolding delete_deleter
  delete_deleter-store at there = rw (at, there) refl

-- a block with the count `n`
abbrev counted_block : ℕ → Block
counted_block n = record { object = true; count = some n; deleter = true }

-- the heap after the destructor of the last pointer of a block
abbrev freed : ℕ → ℕ → Heap → Heap
freed b n h =
    store b (record { object = false; count = none; deleter = false })
      (store b (record { object = false; count = none; deleter = true })
        (store b (record { object = true; count = none; deleter = true })
          (store b (counted_block (n - 1)) h)))

destroy-freed :
    (b n : ℕ) (h : Heap)
    → h.block b ≡ counted_block n
    → (n - 1) == 0 ≡ true
    → destroy (held (some b)) h ≡ some (freed b n h)
unfolding destroy
destroy-freed b n h at e =
    let k1 = counted_block (n - 1) in
    let k2 : Block = record { object = true; count = none; deleter = true } in
    let k3 : Block = record { object = false; count = none; deleter = true } in
    let h1 = store b k1 h in
    let h2 = store b k2 h1 in
    let h3 = store b k3 h2 in
    rw
      (
        decrement-store b (counted_block n) h n at refl,
        e,
        delete_count-store b k1 h1 (n - 1) (store-at b k1 h) refl,
        delete_object-store b k2 h2 (store-at b k2 h1) refl refl,
        delete_deleter-store b k3 h3 (store-at b k3 h2) refl,
      )
      refl

-- the heap after the destructor of a pointer, which may be the last one
pub destroy-IsRecounted :
    (holders : ℕ → ℕ) (o : Option ℕ) (h : Heap)
    → IsCounted holders h
    → IsHeld holders h o
    → Returns (destroy (held o) h) (IsRecounted (λ x. holders x - is o x) h)
unfolding destroy
destroy-IsRecounted holders none h counted inside = (
  h,
  refl,
  record {
    counted = IsCounted-same holders (λ x. holders x - 0) h (λ x. omega arith) counted;
    same_fresh = refl;
  },
)
destroy-IsRecounted holders (some b) h counted (lt, pos) =
    let n = holders b in
    let at : h.block b ≡ counted_block n = counted.blocks b lt ∙ entry-positive n pos in
    let less = λ (x : ℕ). holders x - is (some b) x in
    let others = IsCounted-AreOthers holders less b h counted (λ x ne. ground arith) in
    let k1 = counted_block (n - 1) in
    elim (Bool-cases ((n - 1) == 0)) [
      | inl e ↦
          let k2 : Block = record { object = true; count = none; deleter = true } in
          let k3 : Block = record { object = false; count = none; deleter = true } in
          let k4 : Block = record { object = false; count = none; deleter = false } in
          let h1 = store b k1 h in
          let h2 = store b k2 h1 in
          let none_left : zero ≡ less b = ground arith in
          (
            freed b n h,
            destroy-freed b n h at e,
            record {
              counted =
                  store-IsCounted less b k4 (store b k3 h2)
                    (store-AreOthers less b k3 h2
                      (store-AreOthers less b k2 h1 (store-AreOthers less b k1 h others)))
                    (ap entry none_left);
              same_fresh = refl;
            },
          )
      | inr e ↦
          let some_left : n - 1 ≡ less b = ground arith in
          (
            store b k1 h,
            rw (decrement-store b (counted_block n) h n at refl, e) refl,
            record {
              counted =
                  store-IsCounted less b k1 h others
                    (sym (entry-positive (n - 1) (ground arith)) ∙ ap entry some_left);
              same_fresh = refl;
            },
          )
    ]

-- a new block has one holder, the pointer that is constructed
pub construct-IsCounted :
    (holders : ℕ → ℕ) (h : Heap)
    → IsCounted holders h
    → holders h.fresh ≡ 0
    → ((construct true h).0 ≡ held (some h.fresh))
      × ((construct true h).1.fresh ≡ h.fresh + 1)
      × IsCounted (λ x. holders x + is (some h.fresh) x) ((construct true h).1)
unfolding construct
construct-IsCounted holders h counted unheld =
    let more = λ (x : ℕ). holders x + is (some h.fresh) x in
    let one : suc zero ≡ more h.fresh = ground arith in
    let now =
      store-IsCounted more h.fresh (counted_block 1) (record h { fresh = h.fresh + 1 })
        (λ x lt ne. counted.blocks x (ground arith) ∙ ap entry (ground arith)) (ap entry one) in
    (refl, refl, record { blocks = now.blocks })
