-- ===== src/Intrusive/Pop.antt =====
-- container/intrusive/detail/list-inl.hpp: what `pop_front` and `pop_back` leave in memory.
use dsac.Prelude.{ℕ, ◌≡◌, ◌≢◌, refl, sym, ap, ◌∙◌, subst, List, [], ◌∷◌, ◌++◌, some, arith, ◌==◌}
use mathlib.Core.List.{append-nil}
use dsac.Intrusive.{Memory, get_prev, get_next, detach, empty, pop_front, pop_back}
use dsac.Intrusive.Chain.{Chain-split, IsList}
use dsac.Intrusive.Detach.{IsDetached, detach-IsDetached}

empty-of_next :
    (storage first : ℕ) (m : Memory)
    → get_next storage m ≡ some first
    → empty storage m ≡ (first == storage)
unfolding empty
empty-of_next storage first m e = rw (e, empty) refl

pop_front_lem :
    (storage front : ℕ) (m : Memory)
    → storage ≢ front
    → get_next storage m ≡ some front
    → pop_front storage m ≡ some (some front, detach front m)
unfolding pop_front
pop_front_lem storage front m n e = ground (arith, empty-of_next storage front m)

pop_back_lem :
    (storage first back : ℕ) (m : Memory)
    → storage ≢ first
    → get_next storage m ≡ some first
    → get_prev storage m ≡ some back
    → pop_back storage m ≡ some (some back, detach back m)
unfolding pop_back
pop_back_lem storage first back m n e f = ground (arith, empty-of_next storage first m)

-- `pop_front` answers with the front of the list and takes it out.
pop_front-IsDetached :
    (storage x : ℕ) (m : Memory) (xs : List ℕ)
    → IsList m storage (x ∷ xs)
    → (pop_front storage m ≡ some (some x, detach x m)) × IsDetached (detach x m) storage x xs
pop_front-IsDetached storage x m xs h =
    (pop_front_lem storage x m h.distinct.0.0 h.links.0.0, detach-IsDetached storage x m [] xs h)

-- `pop_back` answers with the back of the list and takes it out.
pop_back-IsDetached :
    (storage x : ℕ) (m : Memory) (xs : List ℕ)
    → IsList m storage (xs ++ x ∷ [])
    → (pop_back storage m ≡ some (some x, detach x m)) × IsDetached (detach x m) storage x xs
pop_back-IsDetached storage x m xs h =
    let (p, front, l, e) = Chain-split m storage xs x [] h.last h.links in
    (
      returns xs h e,
      subst (IsDetached (detach x m) storage x) (append-nil xs)
          (detach-IsDetached storage x m xs [] h),
    )
  where
    returns :
        (xs : List ℕ)
        → (h : IsList m storage (xs ++ x ∷ [])) → x ≡ h.last
        → pop_back storage m ≡ some (some x, detach x m)
    returns [] h e =
        pop_back_lem storage x x m h.distinct.0.0 h.links.0.0 (h.closed.1 ∙ ap some (sym e))
    returns (y ∷ xs) h e =
        pop_back_lem storage y x m h.distinct.0.0 h.links.0.0 (h.closed.1 ∙ ap some (sym e))
