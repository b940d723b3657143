-- ===== src/Avl/Keys.antt =====
-- container/tree/avl_tree-inl.hpp: the keys that `Visit` meets on both sides of a key, where they increase,
-- and what `Contains` finds among them.
use dsac.Prelude.{
  ◌≡◌, inl, inr, Bool, true, false, List, [], ◌∷◌, ◌++◌, arith, All, Any, Bool-cases,
}
use dsac.Sort.Order.{StrictWeak}
use dsac.Avl.{Tree, empty, node, contains, visit}
use dsac.Avl.Place.{IsIncreasing}

module _ {ℓ} {T : Type ℓ} where
  pub All-append : (P : T → Type 0) (xs ys : List T) → All P xs → All P ys → All P (xs ++ ys)
  All-append P [] ys h g = g
  All-append P (x ∷ xs) ys h g = (h.0, All-append P xs ys h.1 g)

  pub All-imp : {P Q : T → Type 0} → ((x : T) → P x → Q x) → (xs : List T) → All P xs → All Q xs
  All-imp f [] h = tt
  All-imp f (x ∷ xs) h = (f x h.0, All-imp f xs h.1)

  pub Any-imp : {P Q : T → Type 0} → ((x : T) → P x → Q x) → (xs : List T) → Any P xs → Any Q xs
  Any-imp f [] h = absurd h
  Any-imp f (x ∷ xs) (inl h) = inl (f x h)
  Any-imp f (x ∷ xs) (inr h) = inr (Any-imp f xs h)

  pub Any-append_left : (P : T → Type 0) (xs ys : List T) → Any P xs → Any P (xs ++ ys)
  Any-append_left P [] ys h = absurd h
  Any-append_left P (x ∷ xs) ys (inl h) = inl h
  Any-append_left P (x ∷ xs) ys (inr h) = inr (Any-append_left P xs ys h)

  pub Any-append_right : (P : T → Type 0) (xs ys : List T) → Any P ys → Any P (xs ++ ys)
  Any-append_right P [] ys h = h
  Any-append_right P (x ∷ xs) ys h = inr (Any-append_right P xs ys h)

module _ {ℓ} {T : Type ℓ} (equal less : T → T → Bool) where
  pub contains-Any :
      (key : T) (t : Tree T)
      → contains less equal key t ≡ true
      → Any (λ k. equal key k ≡ true) (visit t)
  unfolding contains visit
  contains-Any key empty e = absurd (cc)
  contains-Any key (node k l r h) e = elim (Bool-cases (equal key k)) [
    | inl same ↦ Any-append_right _ (visit l) (k ∷ visit r) (inl same)
    | inr other ↦ elim (Bool-cases (contains less equal key l)) [
      | inl f ↦ Any-append_left _ (visit l) (k ∷ visit r) (contains-Any key l f)
      | inr f ↦
          Any-append_right _ (visit l) (k ∷ visit r) (inr (contains-Any key r (ground (arith, e))))
    ]
  ]

  pub contains-All :
      (key : T) (t : Tree T)
      → contains less equal key t ≡ false
      → All (λ k. equal key k ≡ false) (visit t)
  unfolding contains visit
  contains-All key empty e = tt
  contains-All key (node k l r h) e = elim (Bool-cases (equal key k)) [
    | inl same ↦ absurd (ground (arith, e))
    | inr other ↦ elim (Bool-cases (contains less equal key l)) [
      | inl f ↦ absurd (ground (arith, e))
      | inr f ↦
          All-append _ (visit l) (k ∷ visit r) (contains-All key l f)
            (other, contains-All key r (ground (arith, e)))
    ]
  ]

module _ {ℓ} {T : Type ℓ} {less : T → T → Bool} (order : StrictWeak less) where
  pub less_trans : (a b c : T) → less a b ≡ true → less b c ≡ true → less a c ≡ true
  less_trans a b c ab bc = elim (Bool-cases (less a c)) [
    | inl e ↦ e
    | inr e ↦ absurd (let f = order.negative_trans b c a (order.asymm b c bc) e in cc)
  ]

  -- of increasing keys: those on one side of `k`
  pub less-later :
      (k : T) (ys : List T) → IsIncreasing less (k ∷ ys) → All (λ y. less k y ≡ true) ys
  less-later k [] h = tt
  less-later k (y ∷ ys) h =
      (h.0, All-imp (λ z lt. less_trans k y z h.0 lt) ys (less-later y ys h.1))

  pub IsIncreasing-right :
      (xs ys : List T) (k : T) → IsIncreasing less (xs ++ k ∷ ys) → IsIncreasing less (k ∷ ys)
  IsIncreasing-right [] ys k h = h
  IsIncreasing-right (x ∷ []) ys k h = h.1
  IsIncreasing-right (x ∷ z ∷ xs) ys k h = IsIncreasing-right (z ∷ xs) ys k h.1

  pub IsIncreasing-left :
      (xs ys : List T) (k : T) → IsIncreasing less (xs ++ k ∷ ys) → IsIncreasing less xs
  IsIncreasing-left [] ys k h = tt
  IsIncreasing-left (x ∷ []) ys k h = tt
  IsIncreasing-left (x ∷ z ∷ xs) ys k h = (h.0, IsIncreasing-left (z ∷ xs) ys k h.1)

  pub IsIncreasing-tail : (k : T) (ys : List T) → IsIncreasing less (k ∷ ys) → IsIncreasing less ys
  IsIncreasing-tail k [] h = tt
  IsIncreasing-tail k (y ∷ ys) h = h.1

  pub less-earlier :
      (xs ys : List T) (k : T) → IsIncreasing less (xs ++ k ∷ ys) → All (λ x. less x k ≡ true) xs
  less-earlier [] ys k h = tt
  less-earlier (x ∷ []) ys k h = (h.0, tt)
  less-earlier (x ∷ z ∷ xs) ys k h =
      let rest = less-earlier (z ∷ xs) ys k h.1 in (less_trans x z k h.0 rest.0, rest)
