-- ===== src/Graphviz/Print.antt =====
-- A grammar of DOT texts, and how its graphs are written: each token after a blank.
use dsac.Prelude.{ℕ, ◌≡◌, Bool, true, false, List, [], ◌∷◌, ◌++◌, Option, none, some, ◌&&◌}
use dsac.Graphviz.Lexer.{
  Text, Token, identifier, keyword, literal, operator, punctuator, mem, keywords, graph_word,
  digraph_word, is_alpha, is_digit, is_identifier, is_literal,
}
use dsac.Graphviz.Ast.{
  Ast, Asts, empty, node, direct_graph, undirect_graph, statements, edge_direct_connection,
  edge_undirect_connection, attribute, attributes, nil, cons,
}
use dsac.Graphviz.Parser.{assign_text, direct_text, undirect_text}

abbrev pub all : (ℕ → Bool) → Text → Bool
all p [] = true
all p (c ∷ t) = p c && all p t

-- a text of at least one byte
abbrev pub is_run : (ℕ → Bool) → (ℕ → Bool) → Text → Bool
is_run first p [] = false
is_run first p (c ∷ t) = first c && all p t

-- a letter, and then letters, digits, `_` and `-`; no keyword
pub record Name : Type 0 where
  pub text : Text
  pub is_name : is_run is_alpha is_identifier text ≡ true
  pub no_keyword : mem text keywords ≡ false

-- a digit, and then digits and dots
pub record Number : Type 0 where
  pub text : Text
  pub is_number : is_run is_digit is_literal text ≡ true

pub data Value : Type 0 where
  word : Name → Value
  number : Number → Value

pub record Node : Type 0 where
  pub name : Name
  pub list : Option (List (Name × Value))

-- a node, or a chain of nodes with `->` (true) and `--` (false) between them
pub data Statement : Type 0 where
  single : Node → Statement
  edge : Node → Bool → Statement → Statement

-- `digraph` (true) or `graph`
pub record Graph : Type 0 where
  pub directed : Bool
  pub name : Name
  pub list : List Statement

-- the tokens that are written
pub data Piece : Type 0 where
  name : Name → Piece
  figure : Number → Piece
  graph_type : Bool → Piece
  assign : Piece
  connection : Bool → Piece
  open_bracket close_bracket open_curly close_curly semicolon : Piece

abbrev pub graph_text : Bool → Text
graph_text true = digraph_word
graph_text false = graph_word

abbrev pub connection_text : Bool → Text
connection_text true = direct_text
connection_text false = undirect_text

abbrev pub piece_text : Piece → Text
piece_text (name n) = n.text
piece_text (figure n) = n.text
piece_text (graph_type d) = graph_text d
piece_text assign = assign_text
piece_text (connection d) = connection_text d
piece_text open_bracket = b'[' ∷ []
piece_text close_bracket = b']' ∷ []
piece_text open_curly = b'{' ∷ []
piece_text close_curly = b'}' ∷ []
piece_text semicolon = b';' ∷ []

abbrev pub piece_token : Piece → Token
piece_token (name n) = identifier
piece_token (figure n) = literal
piece_token (graph_type d) = keyword
piece_token assign = operator
piece_token (connection d) = operator
piece_token open_bracket = punctuator
piece_token close_bracket = punctuator
piece_token open_curly = punctuator
piece_token close_curly = punctuator
piece_token semicolon = punctuator

-- the pieces of each part, before the pieces `rest`
abbrev pub value_pieces : Value → List Piece → List Piece
value_pieces (word n) rest = name n ∷ rest
value_pieces (number n) rest = figure n ∷ rest

abbrev pub attribute_pieces : List (Name × Value) → List Piece → List Piece
attribute_pieces [] rest = rest
attribute_pieces ((key, value) ∷ list) rest =
    name key ∷ assign ∷ value_pieces value (attribute_pieces list rest)

abbrev pub list_pieces : Option (List (Name × Value)) → List Piece → List Piece
list_pieces none rest = rest
list_pieces (some list) rest = open_bracket ∷ attribute_pieces list (close_bracket ∷ rest)

abbrev pub node_pieces : Node → List Piece → List Piece
node_pieces n rest = name n.name ∷ list_pieces n.list rest

abbrev pub statement_pieces : Statement → List Piece → List Piece
statement_pieces (single n) rest = node_pieces n rest
statement_pieces (edge n d s) rest = node_pieces n (connection d ∷ statement_pieces s rest)

abbrev pub statements_pieces : List Statement → List Piece → List Piece
statements_pieces [] rest = rest
statements_pieces (s ∷ list) rest = statement_pieces s (semicolon ∷ statements_pieces list rest)

abbrev pub graph_pieces : Graph → List Piece → List Piece
graph_pieces g rest =
    graph_type g.directed ∷ name g.name ∷ open_curly ∷ statements_pieces g.list (close_curly ∷ rest)

unfoldable pub print : List Piece → Text
print [] = []
print (p ∷ ps) = 32 ∷ (piece_text p ++ print ps)

-- the syntax tree of each part
abbrev pub value_text : Value → Text
value_text (word n) = n.text
value_text (number n) = n.text

abbrev pub attribute_asts : List (Name × Value) → Asts
attribute_asts [] = nil
attribute_asts ((key, value) ∷ list) =
    cons (attribute key.text (value_text value)) (attribute_asts list)

abbrev pub list_ast : Option (List (Name × Value)) → Ast
list_ast none = empty
list_ast (some list) = attributes (attribute_asts list)

abbrev pub node_ast : Node → Ast
node_ast n = node n.name.text (list_ast n.list)

abbrev pub edge_ast : Bool → Ast → Ast → Ast
edge_ast true from to = edge_direct_connection from to
edge_ast false from to = edge_undirect_connection from to

abbrev pub statement_ast : Statement → Ast
statement_ast (single n) = node_ast n
statement_ast (edge n d s) = edge_ast d (node_ast n) (statement_ast s)

abbrev pub statement_asts : List Statement → Asts
statement_asts [] = nil
statement_asts (s ∷ list) = cons (statement_ast s) (statement_asts list)

abbrev pub typed_graph : Bool → Text → Ast → Ast
typed_graph true text child = direct_graph text child
typed_graph false text child = undirect_graph text child

abbrev pub graph_ast : Graph → Ast
graph_ast g = typed_graph g.directed g.name.text (statements (statement_asts g.list))
