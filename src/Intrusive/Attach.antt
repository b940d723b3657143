-- ===== src/Intrusive/Attach.antt =====
-- container/intrusive/detail/list-inl.hpp: what `push_back` and `push_front` leave in memory.
use dsac.Prelude.{ℕ, ◌≡◌, ◌≢◌, refl, sym, ap, ◌∙◌, List, [], ◌∷◌, ◌++◌, some, arith, Returns}
use dsac.Intrusive.{
  Memory, get_prev, get_next, set_next, set_prev, attach, make, push_back, push_front,
}
use dsac.Intrusive.Chain.{
  Fresh, Distinct, Link, Chain, Chain-set_prev, Chain-set_next, Chain-set_next_last, Fresh-last,
  Chain-append, Distinct-snoc, IsList,
}

-- A list that is made is empty.
pub make-IsList : (storage : ℕ) (m : Memory) → IsList (make storage m) storage []
unfolding make get_next get_prev set_next set_prev
make-IsList storage m = record {
  last = storage;
  links = refl;
  closed = (ground arith, ground arith);
  distinct = (tt, tt);
}

-- what `attach` writes when `p` is before `next`
abbrev attached : ℕ → ℕ → ℕ → Memory → Memory
attached this next p m =
    set_next this (some next)
      (set_next p (some this) (set_prev this (some p) (set_prev next (some this) m)))

attach_lem :
    (this next p : ℕ) (m : Memory)
    → get_prev next m ≡ some p
    → attach this next m ≡ some (attached this next p m)
unfolding attach
attach_lem this next p m e = rw e refl

-- A chain up to `p` stays one when `this` is put between `p` and `next`.
Chain-attached :
    (this next p : ℕ) (m : Memory) (a : ℕ) (xs : List ℕ)
    → Fresh this (a ∷ xs)
    → Fresh next xs
    → Distinct (a ∷ xs)
    → Chain m a xs p
    → Chain (attached this next p m) a xs p
Chain-attached this next p m a xs f g d h =
    let m₁ = set_prev next (some this) m in
    let m₂ = set_prev this (some p) m₁ in
    let h₁ = Chain-set_prev m next (some this) a xs p g h in
    let h₂ = Chain-set_prev m₁ this (some p) a xs p f.1 h₁ in
    Chain-set_next (set_next p (some this) m₂) this (some next) a xs p f
      (Chain-set_next_last m₂ (some this) a xs p d h₂)

Link-attached :
    (this next p : ℕ) (m : Memory)
    → this ≢ p
    → this ≢ next
    → Link (attached this next p m) p this × Link (attached this next p m) this next
unfolding get_prev get_next set_prev set_next
Link-attached this next p m np nn = ((ground arith, ground arith), (ground arith, ground arith))

Link-untouched :
    (this next p : ℕ) (m : Memory) (a b : ℕ)
    → this ≢ a
    → p ≢ a
    → this ≢ b
    → next ≢ b
    → Link m a b
    → Link (attached this next p m) a b
unfolding get_prev get_next set_prev set_next
Link-untouched this next p m a b ta pa tb nb (to, from) = (ground arith, ground arith)

push_back_lem :
    (storage next p : ℕ) (m : Memory)
    → get_prev storage m ≡ some p
    → push_back storage next m ≡ some (attached next storage p m)
unfolding push_back
push_back_lem storage next p m e = attach_lem next storage p m e

-- `push_back` puts a node that is not in the list at its back.
push_back-IsList :
    (storage next : ℕ) (m : Memory) (xs : List ℕ)
    → IsList m storage xs
    → Fresh next (storage ∷ xs)
    → Returns (push_back storage next m) (λ m'. IsList m' storage (xs ++ next ∷ []))
push_back-IsList storage next m xs h f =
    let p = h.last in
    let m' = attached next storage p m in
    let np = Fresh-last m next storage xs p f h.links in
    let (l, k) = Link-attached next storage p m np f.0 in
    (
      m',
      push_back_lem storage next p m h.closed.1,
      record {
        last = next;
        links =
            Chain-append m' storage xs p next [] next
              (Chain-attached next storage p m storage xs f h.distinct.0 h.distinct h.links) l refl;
        closed = k;
        distinct = Distinct-snoc (storage ∷ xs) next h.distinct f;
      },
    )

push_front_lem :
    (storage next first p : ℕ) (m : Memory)
    → get_next storage m ≡ some first
    → get_prev first m ≡ some p
    → push_front storage next m ≡ some (attached next first p m)
unfolding push_front
push_front_lem storage next first p m e f = rw (e, attach_lem next first p m f) refl

-- `push_front` puts a node that is not in the list at its front.
push_front-IsList :
    (storage next : ℕ) (m : Memory) (xs : List ℕ)
    → IsList m storage xs
    → Fresh next (storage ∷ xs)
    → Returns (push_front storage next m) (λ m'. IsList m' storage (next ∷ xs))
push_front-IsList storage next m [] h f =
    let e : get_next storage m ≡ some storage = ap (λ a. get_next a m) h.links ∙ h.closed.0 in
    let (m', returns, h') = push_back-IsList storage next m [] h f in
    (
      m',
      push_front_lem storage next storage h.last m e h.closed.1
          ∙ sym (push_back_lem storage next h.last m h.closed.1)
          ∙ returns,
      h',
    )
push_front-IsList storage next m (x ∷ xs) h (ns, (nx, fresh)) =
    let m' = attached next x storage m in
    let m₁ = set_prev x (some next) m in
    let m₂ = set_prev next (some storage) m₁ in
    let m₃ = set_next storage (some next) m₂ in
    let k₁ = Chain-set_prev m x (some next) x xs h.last h.distinct.1.0 h.links.1 in
    let k₂ = Chain-set_prev m₁ next (some storage) x xs h.last fresh k₁ in
    let k₃ = Chain-set_next m₂ storage (some next) x xs h.last h.distinct.0 k₂ in
    let k₄ = Chain-set_next m₃ next (some x) x xs h.last (nx, fresh) k₃ in
    let (l, k) = Link-attached next x storage m ns nx in
    let apart = Fresh-last m storage x xs h.last h.distinct.0 h.links.1 in
    let other = Fresh-last m next x xs h.last (nx, fresh) h.links.1 in
    (
      m',
      push_front_lem storage next x storage m h.links.0.0 h.links.0.1,
      record {
        last = h.last;
        links = (l, (k, k₄));
        closed =
            Link-untouched next x storage m h.last storage other apart ns
              (λ e. h.distinct.0.0 (sym e)) h.closed;
        distinct = (((λ e. ns (sym e)), h.distinct.0), ((nx, fresh), h.distinct.1));
      },
    )
