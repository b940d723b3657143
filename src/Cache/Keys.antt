-- ===== src/Cache/Keys.antt =====
-- The items of an `intrusive::list`, as their keys from the front to the back. No two items of a
-- cache have equal keys, so that a pointer to an item is given by the item's key.
use dsac.Prelude.{
  suc, ◌≡◌, refl, Bool, true, false, List, [], ◌∷◌, ◌++◌, Option, none, some, arith, length,
  if◌then◌else◌, ◌>>=◌, ◌||◌,
}
pub use dsac.Prelude.{snoc_of_length}

-- `std::equal_to<Key>`, which holds of equal keys only
pub record Equality (K : Type 0) : Type 0 where
  pub equal : K → K → Bool
  pub equal_refl : (k : K) → equal k k ≡ true
  pub equal→≡ : (j k : K) → equal j k ≡ true → j ≡ k

-- `list::pop_back`: the back and the rest, or a null pointer
unfoldable pub pop_back : {K : Type 0} → List K → Option (K × List K)
pop_back [] = none
pop_back (x ∷ []) = some (x, [])
pop_back (x ∷ y ∷ xs) = do (back, rest) ← pop_back (y ∷ xs); some (back, x ∷ rest)

pub pop_back-empty : {K : Type 0} → pop_back {K = K} [] ≡ none
unfolding pop_back
pop_back-empty = refl

pub pop_back-snoc : {K : Type 0} (xs : List K) (x : K) → pop_back (xs ++ x ∷ []) ≡ some (x, xs)
unfolding pop_back
pop_back-snoc [] x = refl
pop_back-snoc (y ∷ []) x = refl
pop_back-snoc (y ∷ z ∷ xs) x = rw (pop_back-snoc (z ∷ xs) x) refl

module _ {K : Type 0} (keys : Equality K) where
  unfoldable pub mem : K → List K → Bool
  mem k [] = false
  mem k (x ∷ xs) = keys.equal x k || mem k xs

  -- `list_node_base::detach`
  unfoldable pub detach : K → List K → List K
  detach k [] = []
  detach k (x ∷ xs) = if keys.equal x k then xs else x ∷ detach k xs

  abbrev pub Distinct : List K → Type 0
  Distinct [] = Unit
  Distinct (x ∷ xs) = (mem x xs ≡ false) × Distinct xs

  pub mem-detach :
      (j k : K) (xs : List K)
      → Distinct xs
      → mem j (detach k xs) ≡ (if keys.equal k j then false else mem j xs)
  unfolding mem detach
  mem-detach j k [] h = ground arith
  mem-detach j k (x ∷ xs) (fresh, h) = ground (
    arith,
    mem-detach j k xs h,
    keys.equal→≡ x k,
    keys.equal→≡ x j,
    keys.equal→≡ k j,
    keys.equal_refl j,
    keys.equal_refl k,
  )

  pub length-detach :
      (k : K) (xs : List K) → mem k xs ≡ true → suc (length (detach k xs)) ≡ length xs
  unfolding mem detach
  length-detach k [] h = absurd (ground arith)
  length-detach k (x ∷ xs) h = ground (arith, length-detach k xs)

  pub detach-Distinct : (k : K) (xs : List K) → Distinct xs → Distinct (detach k xs)
  unfolding mem detach
  detach-Distinct k [] h = tt
  detach-Distinct k (x ∷ xs) (fresh, h) =
      ground (arith, detach-Distinct k xs h, mem-detach x k xs h)

  pub mem-snoc : (j x : K) (xs : List K) → mem j (xs ++ x ∷ []) ≡ (mem j xs || keys.equal x j)
  unfolding mem
  mem-snoc j x [] = ground arith
  mem-snoc j x (y ∷ xs) = ground (arith, mem-snoc j x xs)

  pub Distinct-snoc :
      (x : K) (xs : List K) → Distinct (xs ++ x ∷ []) → Distinct xs × (mem x xs ≡ false)
  unfolding mem
  Distinct-snoc x [] h = (tt, refl)
  Distinct-snoc x (y ∷ xs) (fresh, h) =
      ground (arith, Distinct-snoc x xs h, mem-snoc y x xs, keys.equal→≡ y x, keys.equal_refl y)
