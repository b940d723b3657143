-- ===== src/Intrusive/Detach.antt =====
-- container/intrusive/detail/list-inl.hpp: what `detach` leaves in memory.
use dsac.Prelude.{
  ℕ, ◌≡◌, ◌≢◌, refl, sym, ap, ◌∙◌, subst, List, [], ◌∷◌, ◌++◌, Option, none, some, arith,
}
use mathlib.Core.List.{append-nil}
use dsac.Intrusive.{
  Memory, get_prev, get_next, set_next, set_prev, unlink_next, unlink_prev, detach,
}
use dsac.Intrusive.Chain.{
  Fresh, Distinct, Link, Chain, Chain-set_prev, Chain-set_next, Chain-set_next_last, Fresh-last,
  Chain-append, Chain-split, Distinct-split, IsList,
}

-- what `detach` writes when `this` is between `p` and `n`
abbrev detached : ℕ → ℕ → ℕ → Memory → Memory
detached this p n m =
    set_next this none (set_prev this none (set_next p (some n) (set_prev n (some p) m)))

unlink_next_lem :
    (this p n : ℕ) (m : Memory)
    → get_prev this m ≡ some p
    → get_next this m ≡ some n
    → unlink_next this m ≡ set_prev n (some p) m
unfolding unlink_next
unlink_next_lem this p n m e f = rw (f, e, unlink_next) refl

unlink_prev_lem :
    (this p n : ℕ) (m : Memory)
    → get_prev this m ≡ some p
    → get_next this m ≡ some n
    → unlink_prev this m ≡ set_next p (some n) m
unfolding unlink_prev
unlink_prev_lem this p n m e f = rw (e, f, unlink_prev) refl

get-set_prev_other :
    (this n : ℕ) (v : Option ℕ) (m : Memory)
    → this ≢ n
    → (get_prev this (set_prev n v m) ≡ get_prev this m)
      × (get_next this (set_prev n v m) ≡ get_next this m)
unfolding get_prev get_next set_prev
get-set_prev_other this n v m apart = (ground arith, ground arith)

detach_lem :
    (this p n : ℕ) (m : Memory)
    → this ≢ n
    → Link m p this
    → Link m this n
    → detach this m ≡ detached this p n m
unfolding detach
detach_lem this p n m apart (pt, tp) (tn, nt) =
    let (e, f) = get-set_prev_other this n (some p) m apart in
    ap (λ k. set_next this none (set_prev this none k))
      (ap (unlink_prev this) (unlink_next_lem this p n m tp tn)
        ∙ unlink_prev_lem this p n (set_prev n (some p) m) (e ∙ tp) (f ∙ tn))

Chain-detached :
    (this p n : ℕ) (m : Memory) (a : ℕ) (xs : List ℕ) (q : ℕ)
    → Fresh this (a ∷ xs)
    → Fresh n xs
    → Chain (set_next p (some n) (set_prev n (some p) m)) a xs q
    → Chain (detached this p n m) a xs q
Chain-detached this p n m a xs q f g h =
    let m₁ = set_next p (some n) (set_prev n (some p) m) in
    Chain-set_next (set_prev this none m₁) this none a xs q f
      (Chain-set_prev m₁ this none a xs q f.1 h)

-- the front part ends at `p`
Chain-detached_front :
    (this p n : ℕ) (m : Memory) (a : ℕ) (xs : List ℕ)
    → Fresh this (a ∷ xs)
    → Fresh n xs
    → Distinct (a ∷ xs)
    → Chain m a xs p
    → Chain (detached this p n m) a xs p
Chain-detached_front this p n m a xs f g d h = Chain-detached this p n m a xs p f g (
    Chain-set_next_last (set_prev n (some p) m) (some n) a xs p d
      (Chain-set_prev m n (some p) a xs p g h))

-- the back part has no `p`
Chain-detached_back :
    (this p n : ℕ) (m : Memory) (a : ℕ) (xs : List ℕ) (q : ℕ)
    → Fresh this (a ∷ xs)
    → Fresh n xs
    → Fresh p (a ∷ xs)
    → Chain m a xs q
    → Chain (detached this p n m) a xs q
Chain-detached_back this p n m a xs q f g e h = Chain-detached this p n m a xs q f g (
    Chain-set_next (set_prev n (some p) m) p (some n) a xs q e
      (Chain-set_prev m n (some p) a xs q g h))

Link-detached : (this p n : ℕ) (m : Memory) → this ≢ p → this ≢ n → Link (detached this p n m) p n
unfolding get_prev get_next set_prev set_next
Link-detached this p n m np nn = (ground arith, ground arith)

Link-detached_untouched :
    (this p n : ℕ) (m : Memory) (a b : ℕ)
    → this ≢ a
    → p ≢ a
    → this ≢ b
    → n ≢ b
    → Link m a b
    → Link (detached this p n m) a b
unfolding get_prev get_next set_prev set_next
Link-detached_untouched this p n m a b ta pa tb nb (to, from) = (ground arith, ground arith)

-- the last of the front part is none of the back part
Fresh-of_last :
    (m : Memory) (a : ℕ) (xs ys : List ℕ) (p : ℕ)
    → Distinct (a ∷ xs ++ ys)
    → Chain m a xs p
    → Fresh p ys
Fresh-of_last m a [] ys p d e = subst (λ b. Fresh b ys) e d.0
Fresh-of_last m a (x ∷ xs) ys p d (l, h) = Fresh-of_last m x xs ys p d.1 h

-- What `detach` leaves: the node points nowhere, and the list has lost it.
pub record IsDetached (m : Memory) (storage this : ℕ) (xs : List ℕ) : Type 0 where
  pub list : IsList m storage xs
  pub no_prev : get_prev this m ≡ none
  pub no_next : get_next this m ≡ none

detached-unlinked :
    (this p n : ℕ) (m : Memory)
    → (get_prev this (detached this p n m) ≡ none) × (get_next this (detached this p n m) ≡ none)
unfolding get_prev get_next set_prev set_next
detached-unlinked this p n m = (ground arith, ground arith)

-- where `this` is the last
detach-last :
    (storage this : ℕ) (m : Memory) (xs : List ℕ) (p : ℕ)
    → Distinct (storage ∷ xs ++ this ∷ [])
    → Chain m storage xs p
    → Link m p this
    → Link m this storage
    → IsDetached (detach this m) storage this xs
detach-last storage this m xs p d front l k =
    let (dx, fx, fy, rest) = Distinct-split (storage ∷ xs) this [] d in
    let np = Fresh-last m this storage xs p fx front in
    let m' = detached this p storage m in
    let e : m' ≡ detach this m = sym (detach_lem this p storage m fx.0 l k) in
    subst (λ t. IsDetached t storage this xs) e
      (record {
        list = record {
          last = p;
          links = Chain-detached_front this p storage m storage xs fx dx.0 dx front;
          closed = Link-detached this p storage m np fx.0;
          distinct = dx;
        };
        no_prev = (detached-unlinked this p storage m).0;
        no_next = (detached-unlinked this p storage m).1;
      })

-- where `y` is behind `this`
detach-middle :
    (storage this y : ℕ) (m : Memory) (xs ys : List ℕ) (p q : ℕ)
    → Distinct (storage ∷ xs ++ this ∷ y ∷ ys)
    → Chain m storage xs p
    → Link m p this
    → Link m this y
    → Chain m y ys q
    → Link m q storage
    → IsDetached (detach this m) storage this (xs ++ y ∷ ys)
detach-middle storage this y m xs ys p q d front l k back closed =
    let (dx, fx, fy, rest) = Distinct-split (storage ∷ xs) this (y ∷ ys) d in
    let np = Fresh-last m this storage xs p fx front in
    let pb = Fresh-of_last m storage xs (y ∷ ys) p rest front in
    let (dx', yx, yy, rest') = Distinct-split (storage ∷ xs) y ys rest in
    let m' = detached this p y m in
    let e : m' ≡ detach this m = sym (detach_lem this p y m fy.0 l k) in
    subst (λ t. IsDetached t storage this (xs ++ y ∷ ys)) e
      (record {
        list = record {
          last = q;
          links =
              Chain-append m' storage xs p y ys q
                (Chain-detached_front this p y m storage xs fx yx.1 dx front)
                (Link-detached this p y m np fy.0)
                (Chain-detached_back this p y m y ys q fy yy pb back);
          closed =
              Link-detached_untouched this p y m q storage (Fresh-last m this y ys q fy back)
                (Fresh-last m p y ys q pb back) fx.0 yx.0 closed;
          distinct = rest;
        };
        no_prev = (detached-unlinked this p y m).0;
        no_next = (detached-unlinked this p y m).1;
      })

-- `detach` takes a node out of the list that holds it, wherever it stands, and clears its links.
pub detach-IsDetached :
    (storage this : ℕ) (m : Memory) (xs ys : List ℕ)
    → IsList m storage (xs ++ this ∷ ys)
    → IsDetached (detach this m) storage this (xs ++ ys)
detach-IsDetached storage this m xs [] h =
    let (p, front, l, e) = Chain-split m storage xs this [] h.last h.links in
    subst (IsDetached (detach this m) storage this) (sym (append-nil xs)) (
      detach-last storage this m xs p h.distinct front l
        (subst (λ q. Link m q storage) (sym e) h.closed))
detach-IsDetached storage this m xs (y ∷ ys) h =
    let (p, front, l, (k, back)) = Chain-split m storage xs this (y ∷ ys) h.last h.links in
    detach-middle storage this y m xs ys p h.last h.distinct front l k back h.closed
