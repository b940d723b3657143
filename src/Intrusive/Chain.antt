-- ===== src/Intrusive/Chain.antt =====
-- container/intrusive/list.hpp: the links of a list as a path through the memory.
use dsac.Prelude.{ℕ, ◌≡◌, ◌≢◌, refl, sym, subst, ◌∙◌, List, [], ◌∷◌, ◌++◌, Option, some, arith, All}
use dsac.Intrusive.{Memory, get_prev, get_next, set_next, set_prev}

-- `a` is none of `xs`
abbrev pub Fresh : ℕ → List ℕ → Type 0
Fresh a xs = All (λ b. a ≢ b) xs

abbrev pub Distinct : List ℕ → Type 0
Distinct [] = Unit
Distinct (x ∷ xs) = Fresh x xs × Distinct xs

-- `a` and `b` point at each other
abbrev pub Link : Memory → ℕ → ℕ → Type 0
Link m a b = (get_next a m ≡ some b) × (get_prev b m ≡ some a)

-- The links lead from `a` through `xs`, whose last (or `a` itself) is `p`.
abbrev pub Chain : Memory → ℕ → List ℕ → ℕ → Type 0
Chain m a [] p = a ≡ p
Chain m a (x ∷ xs) p = Link m a x × Chain m x xs p

pub Chain-set_prev :
    (m : Memory) (w : ℕ) (v : Option ℕ) (a : ℕ) (xs : List ℕ) (p : ℕ)
    → Fresh w xs
    → Chain m a xs p
    → Chain (set_prev w v m) a xs p
unfolding get_prev get_next set_prev
Chain-set_prev m w v a [] p f h = h
Chain-set_prev m w v a (x ∷ xs) p (n, f) ((to, from), h) =
    ((ground arith, ground arith), Chain-set_prev m w v x xs p f h)

pub Chain-set_next :
    (m : Memory) (w : ℕ) (v : Option ℕ) (a : ℕ) (xs : List ℕ) (p : ℕ)
    → Fresh w (a ∷ xs)
    → Chain m a xs p
    → Chain (set_next w v m) a xs p
unfolding get_prev get_next set_next
Chain-set_next m w v a [] p f h = h
Chain-set_next m w v a (x ∷ xs) p (n, f) ((to, from), h) =
    ((ground arith, ground arith), Chain-set_next m w v x xs p f h)

pub Fresh-last :
    (m : Memory) (w a : ℕ) (xs : List ℕ) (p : ℕ) → Fresh w (a ∷ xs) → Chain m a xs p → w ≢ p
Fresh-last m w a [] p (n, f) h = λ e. n (e ∙ sym h)
Fresh-last m w a (x ∷ xs) p (n, f) (l, h) = Fresh-last m w x xs p f h

-- the last node points where it likes
pub Chain-set_next_last :
    (m : Memory) (v : Option ℕ) (a : ℕ) (xs : List ℕ) (p : ℕ)
    → Distinct (a ∷ xs)
    → Chain m a xs p
    → Chain (set_next p v m) a xs p
unfolding get_prev get_next set_next
Chain-set_next_last m v a [] p d h = h
Chain-set_next_last m v a (x ∷ xs) p (f, d) ((to, from), h) =
    let n = Fresh-last m a x xs p f h in
    ((ground arith, ground arith), Chain-set_next_last m v x xs p d h)

pub Chain-append :
    (m : Memory) (a : ℕ) (xs : List ℕ) (p y : ℕ) (ys : List ℕ) (q : ℕ)
    → Chain m a xs p
    → Link m p y
    → Chain m y ys q
    → Chain m a (xs ++ y ∷ ys) q
Chain-append m a [] p y ys q e l k = (subst (λ b. Link m b y) (sym e) l, k)
Chain-append m a (x ∷ xs) p y ys q (first, h) l k = (first, Chain-append m x xs p y ys q h l k)

pub Chain-split :
    (m : Memory) (a : ℕ) (xs : List ℕ) (y : ℕ) (ys : List ℕ) (q : ℕ)
    → Chain m a (xs ++ y ∷ ys) q
    → (p : ℕ) × Chain m a xs p × Link m p y × Chain m y ys q
Chain-split m a [] y ys q (l, k) = (a, refl, l, k)
Chain-split m a (x ∷ xs) y ys q (first, h) =
    let (p, front, l, k) = Chain-split m x xs y ys q h in (p, (first, front), l, k)

pub Fresh-append : (w : ℕ) (xs ys : List ℕ) → Fresh w xs → Fresh w ys → Fresh w (xs ++ ys)
Fresh-append w [] ys f g = g
Fresh-append w (x ∷ xs) ys (n, f) g = (n, Fresh-append w xs ys f g)

pub Fresh-split : (w : ℕ) (xs ys : List ℕ) → Fresh w (xs ++ ys) → Fresh w xs × Fresh w ys
Fresh-split w [] ys f = (tt, f)
Fresh-split w (x ∷ xs) ys (n, f) = let (front, back) = Fresh-split w xs ys f in ((n, front), back)

-- what is distinct when `y` stands between `xs` and `ys`
pub Distinct-split :
    (xs : List ℕ) (y : ℕ) (ys : List ℕ)
    → Distinct (xs ++ y ∷ ys)
    → Distinct xs × Fresh y xs × Fresh y ys × Distinct (xs ++ ys)
Distinct-split [] y ys (f, d) = (tt, tt, f, d)
Distinct-split (x ∷ xs) y ys (f, d) =
    let (front, (n, back)) = Fresh-split x xs (y ∷ ys) f in
    let (dx, fx, fy, rest) = Distinct-split xs y ys d in
    ((front, dx), (λ e. n (sym e), fx), fy, (Fresh-append x xs ys front back, rest))

pub Distinct-snoc : (xs : List ℕ) (y : ℕ) → Distinct xs → Fresh y xs → Distinct (xs ++ y ∷ [])
Distinct-snoc [] y d f = (tt, tt)
Distinct-snoc (x ∷ xs) y (g, d) (n, f) =
    (Fresh-append x xs (y ∷ []) g (λ e. n (sym e), tt), Distinct-snoc xs y d f)

-- The list at `storage` holds `xs`, from the front to the back.
pub record IsList (m : Memory) (storage : ℕ) (xs : List ℕ) : Type 0 where
  pub last : ℕ
  pub links : Chain m storage xs last
  pub closed : Link m last storage
  pub distinct : Distinct (storage ∷ xs)
