-- ===== src/Graphviz/Shrinking.antt =====
-- container/graph/detail/graphviz_lexical_analyzer.*: a token takes bytes off the text.
use dsac.Prelude.{
  ℕ, zero, suc, ◌+◌, ◌≤◌, ◌≡◌, refl, ap, Bool, true, List, [], ◌∷◌, Option, none, some, arith,
  length, take, Bool-cases, inl, inr,
}
use dsac.Prelude.{◌>>=◌ as ◌>>?◌}
use dsac.Graphviz.Lexer.{
  Text, Token, identifier, keyword, literal, operator, punctuator, eof, mem, is_alpha, is_digit,
  is_identifier, is_literal, span, longest, punctuations, operators, get_next_token, skip_space,
  get_next_keyword, get_next_literal, get_next, drop, or_else, value_or,
}
use dsac.Graphviz.Parser.{}

-- a token other than `eof` counts 1
abbrev pub weight : Token → ℕ
weight identifier = 1
weight keyword = 1
weight literal = 1
weight operator = 1
weight punctuator = 1
weight eof = 0

weight-le : (k : Token) → weight k ≤ 1
weight-le identifier = omega arith
weight-le keyword = omega arith
weight-le literal = omega arith
weight-le operator = omega arith
weight-le punctuator = omega arith
weight-le eof = omega arith

length-skip_space : (t : Text) → length (skip_space t) ≤ length t
unfolding skip_space
length-skip_space [] = omega arith
length-skip_space (c ∷ t) = ground (arith, length-skip_space t)

span-going :
    (p : ℕ → Bool) (c : ℕ) (t : Text)
    → p c ≡ true
    → span p (c ∷ t) ≡ (c ∷ (span p t).0, (span p t).1)
unfolding span
span-going p c t e = rw (e, span) refl

length-span : (p : ℕ → Bool) (t : Text) → length ((span p t).1) ≤ length t
unfolding span
length-span p [] = omega arith
length-span p (c ∷ t) = elim (Bool-cases (p c)) [
  | inl e ↦
      omega (arith, length-span p t, ap (λ (r : Text × Text). length (r.1)) (span-going p c t e))
  | inr e ↦ rw (e, length, span) (omega arith)
]

-- what an attempt leaves of the text `t`
abbrev Shorter : Text → Option ((Token × Text) × Text) → Type 0
Shorter t none = Unit
Shorter t (some ((k, w), rest)) = weight k + length rest ≤ length t

span-Shorter :
    (k : Token) (p : ℕ → Bool) (c : ℕ) (t : Text)
    → p c ≡ true
    → weight k + length ((span p (c ∷ t)).1) ≤ length (c ∷ t)
span-Shorter k p c t e = omega (
  arith,
  length-span p t,
  weight-le k,
  ap (λ (r : Text × Text). length (r.1)) (span-going p c t e),
)

get_next_keyword-Shorter : (t : Text) → Shorter t (get_next_keyword t)
unfolding get_next_keyword
get_next_keyword-Shorter [] = omega arith
get_next_keyword-Shorter (c ∷ t) = elim (Bool-cases (is_alpha c)) [
  | inl e ↦ rw e (span-Shorter _ is_identifier c t (rw e refl))
  | inr e ↦ rw e tt
]

get_next_literal-Shorter : (t : Text) → Shorter t (get_next_literal t)
unfolding get_next_literal
get_next_literal-Shorter [] = omega arith
get_next_literal-Shorter (c ∷ t) = elim (Bool-cases (is_digit c)) [
  | inl e ↦ rw e (span-Shorter literal is_literal c t (rw e refl))
  | inr e ↦ rw e tt
]

length-drop : (n : ℕ) (t : Text) → length (drop n t) ≤ length t
length-drop zero t = omega arith
length-drop (suc n) [] = omega arith
length-drop (suc n) (c ∷ t) = omega (arith, length-drop n t)

abbrev ShorterFound : Text → Option (Text × Text) → Type 0
ShorterFound t none = Unit
ShorterFound t (some (found, rest)) = length rest ≤ length t

longest-ShorterFound :
    (n : ℕ) (entities : List Text) (c : ℕ) (t : Text) → ShorterFound t (longest n entities (c ∷ t))
unfolding longest
longest-ShorterFound zero entities c t = tt
longest-ShorterFound (suc n) entities c t =
    elim (Bool-cases (mem (take (suc n) (c ∷ t)) entities)) [
      | inl e ↦ rw e (length-drop n t)
      | inr e ↦ rw e (longest-ShorterFound n entities c t)
    ]

get_next-Shorter :
    (k : Token) (entities : ℕ → List Text) (t : Text) → Shorter t (get_next k entities t)
unfolding get_next
get_next-Shorter k entities [] = omega arith
get_next-Shorter k entities (c ∷ t) = go _ (longest-ShorterFound _ (entities c) c t)
  where
    go :
        (m : Option (Text × Text))
        → ShorterFound t m
        → Shorter (c ∷ t) (m >>? λ (found, rest). some ((k, found), rest))
    go none h = tt
    go (some (found, rest)) h = omega (arith, weight-le k)

or_else-Shorter :
    (t : Text) (a b : Option ((Token × Text) × Text))
    → Shorter t a
    → Shorter t b
    → Shorter t (or_else a b)
or_else-Shorter t none b h k = k
or_else-Shorter t (some a) b h k = h

value_or-le :
    (s t : Text) (a : Option ((Token × Text) × Text))
    → Shorter s a
    → length s ≤ length t
    → weight ((value_or ((eof, []), s) a).0.0) + length ((value_or ((eof, []), s) a).1) ≤ length t
value_or-le s t none h k = omega arith
value_or-le s t (some ((k', w), rest)) h k = omega arith

-- A token that is not `eof` takes a byte or more.
pub get_next_token-le :
    (t : Text) → weight ((get_next_token t).0.0) + length ((get_next_token t).1) ≤ length t
unfolding get_next_token
get_next_token-le t =
    let s = skip_space t in
    value_or-le s t _
      (or_else-Shorter s _ _ (get_next_keyword-Shorter s) (
        or_else-Shorter s _ _ (get_next_literal-Shorter s) (
          or_else-Shorter s _ _ (get_next-Shorter punctuator punctuations s)
            (get_next-Shorter operator operators s))))
      (length-skip_space t)
