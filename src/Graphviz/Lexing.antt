-- ===== src/Graphviz/Lexing.antt =====
-- container/graph/detail/graphviz_lexical_analyzer.*: the tokens of a text that was written.
use dsac.Prelude.{ℕ, ◌≡◌, refl, Bool, true, false, List, [], ◌∷◌, ◌++◌, arith}
use dsac.Graphviz.Lexer.{
  Text, identifier, literal, is_space, is_alpha, is_digit, is_identifier, is_literal, mem, keywords,
  span, longest, get_next, get_next_keyword, get_next_literal, skip_space, get_next_token,
}
use dsac.Graphviz.Print.{
  all, is_run, Piece, name, figure, graph_type, assign, connection, open_bracket, close_bracket,
  open_curly, close_curly, semicolon, piece_text, piece_token, print,
}

-- a text at which no word goes on
abbrev Ends : (ℕ → Bool) → Text → Type 0
Ends p [] = Unit
Ends p (c ∷ t) = p c ≡ false

pub span-append : (p : ℕ → Bool) (w t : Text) → all p w ≡ true → Ends p t → span p (w ++ t) ≡ (w, t)
unfolding span
span-append p [] [] h e = refl
span-append p [] (c ∷ t) h e = rw e refl
span-append p (c ∷ w) t h e =
    let here : p c ≡ true = ground arith in
    let rest = span-append p w t (ground arith) e in rw (here, rest) refl

print-Ends : (p : ℕ → Bool) (ps : List Piece) → p 32 ≡ false → Ends p (print ps)
unfolding print
print-Ends p [] h = tt
print-Ends p (q ∷ ps) h = h

pub alpha_not_space : (c : ℕ) → is_alpha c ≡ true → is_space c ≡ false
alpha_not_space c h = ground arith

pub alpha_identifier : (c : ℕ) → is_alpha c ≡ true → is_identifier c ≡ true
alpha_identifier c h = rw h refl

digit_not_space : (c : ℕ) → is_digit c ≡ true → is_space c ≡ false
digit_not_space c h = ground arith

digit_not_alpha : (c : ℕ) → is_digit c ≡ true → is_alpha c ≡ false
digit_not_alpha c h = ground arith

digit_literal : (c : ℕ) → is_digit c ≡ true → is_literal c ≡ true
digit_literal c h = rw h refl

-- what follows a piece does not go on with its word
word_ends : (p : ℕ → Bool) (ps : List Piece) → p 32 ≡ false → span p (print ps) ≡ ([], print ps)
word_ends p ps h = span-append p [] (print ps) refl (print-Ends p ps h)

lex_name :
    (w : Text) (ps : List Piece)
    → is_run is_alpha is_identifier w ≡ true
    → mem w keywords ≡ false
    → get_next_token (32 ∷ (w ++ print ps)) ≡ ((identifier, w), print ps)
unfolding get_next_token skip_space get_next_keyword
lex_name [] ps h k = absurd (cc)
lex_name (c ∷ w) ps h k =
    let alpha : is_alpha c ≡ true = ground arith in
    let tail : all is_identifier w ≡ true = ground arith in
    let word =
      span-append is_identifier (c ∷ w) (print ps) (ground (arith, alpha_identifier c alpha))
        (print-Ends is_identifier ps refl) in
    rw (alpha_not_space c alpha, alpha, word, k) refl

lex_number :
    (w : Text) (ps : List Piece)
    → is_run is_digit is_literal w ≡ true
    → get_next_token (32 ∷ (w ++ print ps)) ≡ ((literal, w), print ps)
unfolding get_next_token skip_space get_next_keyword get_next_literal
lex_number [] ps h = absurd (cc)
lex_number (c ∷ w) ps h =
    let digit : is_digit c ≡ true = ground arith in
    let tail : all is_literal w ≡ true = ground arith in
    let word =
      span-append is_literal (c ∷ w) (print ps) (ground (arith, digit_literal c digit))
        (print-Ends is_literal ps refl) in
    rw (digit_not_space c digit, digit_not_alpha c digit, digit, word) refl

-- A piece is read back, and what follows it is left.
pub get_next_token-print :
    (p : Piece) (ps : List Piece)
    → get_next_token (print (p ∷ ps)) ≡ ((piece_token p, piece_text p), print ps)
unfolding get_next_token skip_space get_next_keyword get_next_literal get_next longest span print
get_next_token-print (name n) ps = lex_name n.text ps n.is_name n.no_keyword
get_next_token-print (figure n) ps = lex_number n.text ps n.is_number
get_next_token-print (graph_type true) ps = rw (word_ends is_identifier ps refl) refl
get_next_token-print (graph_type false) ps = rw (word_ends is_identifier ps refl) refl
get_next_token-print assign ps = refl
get_next_token-print (connection true) ps = refl
get_next_token-print (connection false) ps = refl
get_next_token-print open_bracket ps = refl
get_next_token-print close_bracket ps = refl
get_next_token-print open_curly ps = refl
get_next_token-print close_curly ps = refl
get_next_token-print semicolon ps = refl
