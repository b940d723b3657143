-- ===== src/Graphviz/Parser.antt =====
-- container/graph/detail/graphviz_syntax_analyzer.*. Each loop and the recursion of `statement` take the rounds
-- that may be left, as many as the text has bytes and one more.
use dsac.Prelude.{
  ℕ, zero, suc, Bool, true, false, [], ◌∷◌, Option, none, some, length, if◌then◌else◌,
}
use dsac.Graphviz.Lexer.{
  Text, Token, identifier, keyword, literal, operator, punctuator, eof, text_eq, mem, keywords,
  digraph_word, get_next_token,
}
use dsac.Graphviz.Ast.{
  Ast, Asts, empty, node, direct_graph, undirect_graph, statements, edge_direct_connection,
  edge_undirect_connection, attribute, attributes, nil, cons, is_empty,
}

-- `tokenizer_` and `current_token_`
pub record State : Type 0 where
  pub rest : Text
  pub current : Token × Text

pub data Result (A : Type 0) : Type 0 where
  ok : A → Result A
  unexpected_syntax : Result A
  out_of_rounds : Result A

abbrev pub Parser : Type 0 → Type 0
Parser A = State → Result (A × State)

abbrev pub bind : {A B : Type 0} → Result (A × State) → (A → Parser B) → Result (B × State)
bind (ok (a, t)) f = f a t
bind unexpected_syntax f = unexpected_syntax
bind out_of_rounds f = out_of_rounds

infixl 5 ◌>>=◌ ◌>>◌
abbrev pub ◌>>=◌ : {A B : Type 0} → Parser A → (A → Parser B) → Parser B
(p >>= f) s = bind (p s) f

abbrev pub ◌>>◌ : {A B : Type 0} → Parser A → Parser B → Parser B
p >> q = p >>= λ _. q

abbrev pub pure : {A : Type 0} → A → Parser A
pure a s = ok (a, s)

-- `if (!test) throw unexpected_syntax{}`
abbrev pub require : Bool → Parser (Unit {0})
require true s = ok (tt, s)
require false s = unexpected_syntax

-- `has_value` of a token that was asked for
abbrev pub on_token : {A : Type 0} → Option Text → (Text → Parser A) → Parser A → Parser A
on_token (some text) f p = f text
on_token none f p = p

abbrev pub same : Token → Token → Bool
same identifier identifier = true
same keyword keyword = true
same literal literal = true
same operator operator = true
same punctuator punctuator = true
same eof eof = true
same _ _ = false

-- `std::exchange(current_token_, tokenizer_.get_next_token())`
unfoldable pub advance : State → State
advance s = let next = get_next_token s.rest in record { rest = next.1; current = next.0 }

unfoldable pub get_token : Token → Parser Text
get_token expected s =
    if same (s.current.0) expected then ok (s.current.1, advance s) else unexpected_syntax

unfoldable pub get_token_maybe : Token → Parser (Option Text)
get_token_maybe expected s =
    if same (s.current.0) expected then ok (some (s.current.1), advance s) else ok (none, s)

abbrev pub assign_text : Text
assign_text = b'=' ∷ []

abbrev pub direct_text : Text
direct_text = b'-' ∷ b'>' ∷ []

abbrev pub undirect_text : Text
undirect_text = b'-' ∷ b'-' ∷ []

-- the value of an attribute, an identifier or a literal
unfoldable pub attribute_value : Parser Text
attribute_value = get_token_maybe identifier >>= λ name.
    on_token name pure
      (get_token_maybe literal >>= λ number. on_token number pure (λ s. unexpected_syntax))

unfoldable pub parse_attribute : Parser Ast
parse_attribute s =
    if same (s.current.0) identifier
    then (do
      key ← get_token identifier
      assign ← get_token operator
      require (text_eq assign assign_text)
      value ← attribute_value
      pure (attribute key value))
        s
    else ok (empty, s)

-- the loop of `attributes_list`
unfoldable pub attributes_loop : ℕ → Parser Asts
attributes_loop zero s = out_of_rounds
attributes_loop (suc n) s =
    (parse_attribute >>= λ attr.
    if is_empty attr then pure nil else (attributes_loop n >>= λ rest. pure (cons attr rest)))
      s

unfoldable pub attributes_list : ℕ → Parser Ast
attributes_list f s =
    if text_eq (s.current.1) (b'[' ∷ [])
    then (do
      _ ← get_token punctuator
      list ← attributes_loop f
      close ← get_token punctuator
      require (text_eq close (b']' ∷ []))
      pure (attributes list))
        s
    else ok (empty, s)

unfoldable pub node_statement : ℕ → Parser Ast
node_statement f = get_token_maybe identifier >>= λ name.
    on_token name (λ text. attributes_list f >>= λ list. pure (node text list)) (pure empty)

-- `make_edge_by_kind` of `get_connection_kind`, which throws where the operator is not a connection
unfoldable pub make_edge : Text → Ast → Ast → Ast
make_edge connection from to =
    if text_eq connection direct_text
    then edge_direct_connection from to
    else edge_undirect_connection from to

unfoldable pub statement : ℕ → ℕ → Parser Ast
statement f zero s = out_of_rounds
statement f (suc n) s =
    (node_statement f >>= λ left_node. get_token_maybe operator >>= λ connection.
    on_token connection
      (λ text. do
        require (mem text (direct_text ∷ undirect_text ∷ []))
        right ← statement f n
        pure (make_edge text left_node right))
      (pure left_node))
      s

unfoldable pub statement_list : ℕ → ℕ → Parser Asts
statement_list f zero s = out_of_rounds
statement_list f (suc n) s =
    (statement f f >>= λ stmt. if is_empty stmt then pure nil else (do
      semicolon ← get_token punctuator
      require (text_eq semicolon (b';' ∷ []))
      rest ← statement_list f n
      pure (cons stmt rest)))
      s

-- `make_graph_by_kind` of `get_graph_kind`
unfoldable pub make_graph : Text → Text → Ast → Ast
make_graph graph_type name child =
    if text_eq graph_type digraph_word then direct_graph name child else undirect_graph name child

unfoldable pub graph : ℕ → Parser Ast
graph f = do
  graph_type ← get_token keyword
  require (mem graph_type keywords)
  graph_name ← get_token identifier
  open_bracket ← get_token punctuator
  require (text_eq open_bracket (b'{' ∷ []))
  list ← statement_list f f
  close_bracket ← get_token punctuator
  require (text_eq close_bracket (b'}' ∷ []))
  pure (make_graph graph_type graph_name (statements list))

-- the constructor, which reads the first token
unfoldable pub start : Text → State
start graphviz = let next = get_next_token graphviz in record { rest = next.1; current = next.0 }

-- the constructor and `parse`
unfoldable pub parse : Text → Result (Ast × State)
parse graphviz = graph (suc (length graphviz)) (start graphviz)
