-- ===== src/Graphviz/Lexer.antt =====
-- container/graph/detail/graphviz_lexical_analyzer.*. The position `sp_` is given by the text that follows it.
use dsac.Prelude.{
  ℕ, zero, suc, Bool, true, false, List, [], ◌∷◌, Option, none, some, length, take, leb, ◌==◌, ◌&&◌,
  ◌||◌, if◌then◌else◌, ◌>>=◌,
}

abbrev pub Text : Type 0
Text = List ℕ

-- `enum class token`
pub data Token : Type 0 where
  identifier keyword literal operator punctuator eof : Token

-- the functions of <cctype> in the classic locale
abbrev pub is_space : ℕ → Bool
is_space c = c == 32 || leb 9 c && leb c 13

abbrev pub is_alpha : ℕ → Bool
is_alpha c = leb b'A' c && leb c b'Z' || leb b'a' c && leb c b'z'

abbrev pub is_digit : ℕ → Bool
is_digit c = leb b'0' c && leb c b'9'

-- `kIsIdentifier`
abbrev pub is_identifier : ℕ → Bool
is_identifier c = is_alpha c || is_digit c || c == b'_' || c == b'-'

-- `is_literal`
abbrev pub is_literal : ℕ → Bool
is_literal c = is_digit c || c == b'.'

-- `operator==` of two texts
abbrev pub text_eq : Text → Text → Bool
text_eq [] [] = true
text_eq [] (d ∷ ds) = false
text_eq (c ∷ cs) [] = false
text_eq (c ∷ cs) (d ∷ ds) = c == d && text_eq cs ds

-- `contains` of a set of texts
abbrev pub mem : Text → List Text → Bool
mem t [] = false
mem t (u ∷ us) = text_eq t u || mem t us

abbrev pub graph_word : Text
graph_word = b'g' ∷ b'r' ∷ b'a' ∷ b'p' ∷ b'h' ∷ []

abbrev pub digraph_word : Text
digraph_word = b'd' ∷ b'i' ∷ graph_word

-- `kKeywords`
abbrev pub keywords : List Text
keywords = graph_word ∷ digraph_word ∷ []

-- `kOperators`, by the first byte
abbrev pub operators : ℕ → List Text
operators c =
    if c == b'-'
    then (b'-' ∷ b'-' ∷ []) ∷ (b'-' ∷ b'>' ∷ []) ∷ []
    else if c == b'='
    then (b'=' ∷ []) ∷ []
    else []

-- `kPunctuations`, by the first byte
abbrev pub punctuations : ℕ → List Text
punctuations c =
    if c == b';' || c == b'{' || c == b'}' || c == b'[' || c == b']' then (c ∷ []) ∷ [] else []

abbrev pub drop : ℕ → Text → Text
drop zero t = t
drop (suc n) [] = []
drop (suc n) (c ∷ t) = drop n t

-- `std::find_if_not`: the bytes before the one that is found, and the text from there
unfoldable pub span : (ℕ → Bool) → Text → Text × Text
span p [] = ([], [])
span p (c ∷ t) =
    let rest = span p t in elim (p c) [ true ↦ (c ∷ rest.0, rest.1) | false ↦ ([], c ∷ t) ]

-- the size of `max_combination`; the texts of one set have the same size
abbrev pub max_size : List Text → ℕ
max_size [] = 0
max_size (u ∷ us) = length u

-- `std::clamp` between 0 and the bytes that are left
abbrev pub clamp : ℕ → ℕ → ℕ
clamp zero left = zero
clamp (suc size) zero = zero
clamp (suc size) (suc left) = suc (clamp size left)

-- the `do` loop of `get_next`
unfoldable pub longest : ℕ → List Text → Text → Option (Text × Text)
longest zero entities t = none
longest (suc n) entities t =
    if mem (take (suc n) t) entities
    then some (take (suc n) t, drop (suc n) t)
    else longest n entities t

-- `get_next<token::operator_>` and `get_next<token::punctuator>`
unfoldable pub get_next : Token → (ℕ → List Text) → Text → Option ((Token × Text) × Text)
unfolding longest
get_next token_type entities [] = some ((eof, []), [])
get_next token_type entities (c ∷ t) = do
  (found, rest) ← longest (clamp (max_size (entities c)) (length (c ∷ t))) (entities c) (c ∷ t)
  some ((token_type, found), rest)

-- `get_next<token::keyword>`
unfoldable pub get_next_keyword : Text → Option ((Token × Text) × Text)
unfolding span
get_next_keyword [] = some ((eof, []), [])
get_next_keyword (c ∷ t) =
    if is_alpha c
    then (let word = span is_identifier (c ∷ t) in
        some ((if mem word.0 keywords then keyword else identifier, word.0), word.1))
    else none

-- `get_next<token::literal>`
unfoldable pub get_next_literal : Text → Option ((Token × Text) × Text)
unfolding span
get_next_literal [] = some ((eof, []), [])
get_next_literal (c ∷ t) =
    if is_digit c
    then (let word = span is_literal (c ∷ t) in some ((literal, word.0), word.1))
    else none

abbrev pub or_else :
    Option ((Token × Text) × Text) → Option ((Token × Text) × Text) → Option ((Token × Text) × Text)
or_else none b = b
or_else (some a) b = some a

abbrev pub value_or : (Token × Text) × Text → Option ((Token × Text) × Text) → (Token × Text) × Text
value_or fallback none = fallback
value_or fallback (some a) = a

-- the loop over the white space
unfoldable pub skip_space : Text → Text
skip_space [] = []
skip_space (c ∷ t) = let rest = skip_space t in if is_space c then rest else c ∷ t

-- The token and the text after it; the fallback is `eof` and moves past the white space only.
unfoldable pub get_next_token : Text → (Token × Text) × Text
unfolding skip_space get_next_keyword get_next_literal get_next
get_next_token t =
    let s = skip_space t in
    value_or ((eof, []), s)
      (or_else (get_next_keyword s) (
        or_else (get_next_literal s)
          (or_else (get_next punctuator punctuations s) (get_next operator operators s))))
