-- ===== src/Graphviz/Rounds.antt =====
-- container/graph/detail/graphviz_syntax_analyzer.*: parsers that do not run out of rounds.
use dsac.Prelude.{
  ℕ, ◌+◌, ◌≤◌, ◌<◌, ◌≡◌, refl, Bool, true, false, Option, none, some, arith, length, if◌then◌else◌,
  Bool-cases, inl, inr,
}
use dsac.Graphviz.Lexer.{Text, Token, identifier, keyword, literal, operator, punctuator, eof}
use dsac.Graphviz.Ast.{Ast, is_empty}
use dsac.Graphviz.Parser.{
  State, Result, ok, unexpected_syntax, out_of_rounds, Parser, bind, ◌>>◌, on_token, require, same,
  advance, get_token, get_token_maybe,
}
use dsac.Graphviz.Shrinking.{weight, get_next_token-le}

-- the tokens that may still be read
abbrev pub measure : State → ℕ
measure s = length s.rest + weight (s.current.0)

-- A result is not for want of rounds, and one that is returned satisfies `Q`.
abbrev pub Post : {A : Type 0} → (A → State → Type 0) → Result (A × State) → Type 0
Post Q (ok (a, t)) = Q a t
Post Q unexpected_syntax = Unit
Post Q out_of_rounds = ⊥

pub bind-Post :
    {A B : Type 0} (Q : A → State → Type 0) (R : B → State → Type 0) (r : Result (A × State))
    (f : A → Parser B)
    → Post Q r
    → ((a : A) (t : State) → Q a t → Post R (f a t))
    → Post R (bind r f)
bind-Post Q R (ok (a, t)) f h k = k a t h
bind-Post Q R unexpected_syntax f h k = tt
bind-Post Q R out_of_rounds f h k = h

advance-le : (s : State) → measure (advance s) ≤ length s.rest
unfolding advance
advance-le s = omega (arith, get_next_token-le s.rest)

same-weight : (k l : Token) → same k l ≡ true → weight k ≡ weight l
same-weight identifier identifier h = refl
same-weight keyword keyword h = refl
same-weight literal literal h = refl
same-weight operator operator h = refl
same-weight punctuator punctuator h = refl
same-weight eof eof h = refl
same-weight k l h = absurd (cc)

pub get_token-Post :
    (k : Token) (s : State) → weight k ≡ 1 → Post (λ w t. measure t < measure s) (get_token k s)
unfolding get_token
get_token-Post k s h = elim (Bool-cases (same (s.current.0) k)) [
  | inl e ↦ rw e (omega (arith, advance-le s, same-weight (s.current.0) k e))
  | inr e ↦ rw e tt
]

abbrev pub found : Option Text → ℕ
found none = 0
found (some w) = 1

pub get_token_maybe-Post :
    (k : Token) (s : State)
    → weight k ≡ 1
    → Post (λ o t. measure t + found o ≤ measure s) (get_token_maybe k s)
unfolding get_token_maybe
get_token_maybe-Post k s h = elim (Bool-cases (same (s.current.0) k)) [
  | inl e ↦ rw e (omega (arith, advance-le s, same-weight (s.current.0) k e))
  | inr e ↦ rw e (omega arith)
]

-- where no tree was read, nothing need have been
abbrev pub size : Ast → ℕ
size a = if is_empty a then 0 else 1

module _ {A : Type 0} (R : A → State → Type 0) where
  pub on_token-Post :
      (o : Option Text) (f : Text → Parser A) (p : Parser A) (t : State)
      → ((w : Text) → o ≡ some w → Post R (f w t))
      → (o ≡ none → Post R (p t))
      → Post R (on_token o f p t)
  on_token-Post none f p t h k = k refl
  on_token-Post (some w) f p t h k = h w refl

  pub if-Post :
      (c : Bool) (p q : Parser A) (t : State)
      → (c ≡ true → Post R (p t))
      → (c ≡ false → Post R (q t))
      → Post R ((if c then p else q) t)
  if-Post true p q t h k = h refl
  if-Post false p q t h k = k refl

  pub choice-Post :
      (c : Bool) (r r' : Result (A × State)) → Post R r → Post R r' → Post R (if c then r else r')
  choice-Post true r r' h k = h
  choice-Post false r r' h k = k

  -- `require` and what follows it
  pub require-Post :
      (c : Bool) (p : Parser A) (t : State) → Post R (p t) → Post R ((require c >> p) t)
  require-Post true p t h = h
  require-Post false p t h = tt
