-- ===== src/Graphviz/Written.antt =====
-- container/graph/detail/graphviz_syntax_analyzer.*: the pieces of a statement are parsed to its tree.
use dsac.Prelude.{
  ℕ, zero, suc, ◌+◌, ◌≤◌, ◌<◌, ◌≡◌, refl, true, false, List, [], ◌∷◌, Option, none, some, arith,
  length,
}
use dsac.Graphviz.Lexer.{
  Token, identifier, keyword, literal, operator, punctuator, eof, text_eq, get_next_token,
}
use dsac.Graphviz.Ast.{attribute}
use dsac.Graphviz.Parser.{
  State, ok, same, advance, get_token, get_token_maybe, attribute_value, parse_attribute,
  attributes_loop, attributes_list, node_statement, make_edge, statement, start,
}
use dsac.Graphviz.Print.{
  Name, Value, word, number, Node, Statement, single, edge, Piece, name, figure, assign, connection,
  open_bracket, close_bracket, semicolon, piece_text, piece_token, value_pieces, attribute_pieces,
  list_pieces, node_pieces, statement_pieces, print, value_text, attribute_asts, list_ast, node_ast,
  statement_ast,
}
use dsac.Graphviz.Lexing.{get_next_token-print}

-- the analyzer in front of the pieces `ps`
abbrev pub at : List Piece → State
at [] = record { rest = []; current = (eof, []) }
at (p ∷ ps) = record { rest = print ps; current = (piece_token p, piece_text p) }

at-print :
    (ps : List Piece)
    → record { rest = (get_next_token (print ps)).1; current = (get_next_token (print ps)).0 }
      ≡ at ps
unfolding get_next_token print
at-print [] = refl
at-print (p ∷ ps) = rw (get_next_token-print p ps) refl

advance-at : (p : Piece) (ps : List Piece) → advance (at (p ∷ ps)) ≡ at ps
unfolding advance
advance-at p ps = at-print ps

pub start-print : (ps : List Piece) → start (print ps) ≡ at ps
unfolding start
start-print ps = at-print ps

same_refl : (t : Token) → same t t ≡ true
same_refl identifier = refl
same_refl keyword = refl
same_refl literal = refl
same_refl operator = refl
same_refl punctuator = refl
same_refl eof = refl

pub get_token-at :
    (p : Piece) (ps : List Piece)
    → get_token (piece_token p) (at (p ∷ ps)) ≡ ok (piece_text p, at ps)
unfolding get_token
get_token-at p ps = rw (same_refl (piece_token p), advance-at p ps) refl

pub get_token_maybe-at :
    (p : Piece) (ps : List Piece)
    → get_token_maybe (piece_token p) (at (p ∷ ps)) ≡ ok (some (piece_text p), at ps)
unfolding get_token_maybe
get_token_maybe-at p ps = rw (same_refl (piece_token p), advance-at p ps) refl

attribute_value-at :
    (v : Value) (ps : List Piece)
    → attribute_value (at (value_pieces v ps)) ≡ ok (value_text v, at ps)
unfolding attribute_value get_token_maybe
attribute_value-at (word n) ps = rw (advance-at (name n) ps) refl
attribute_value-at (number n) ps = rw (advance-at (figure n) ps) refl

parse_attribute-at :
    (key : Name) (v : Value) (ps : List Piece)
    → parse_attribute (at (name key ∷ assign ∷ value_pieces v ps))
      ≡ ok (attribute key.text (value_text v), at ps)
unfolding parse_attribute
parse_attribute-at key v ps =
    rw
      (
        get_token-at (name key) (assign ∷ value_pieces v ps),
        get_token-at assign (value_pieces v ps),
        attribute_value-at v ps,
      )
      refl

length-attribute_pieces :
    (list : List (Name × Value)) (ps : List Piece)
    → length list + length ps ≤ length (attribute_pieces list ps)
length-attribute_pieces [] ps = omega arith
length-attribute_pieces ((key, word v) ∷ list) ps = omega (arith, length-attribute_pieces list ps)
length-attribute_pieces ((key, number v) ∷ list) ps = omega (arith, length-attribute_pieces list ps)

attributes_loop-at :
    (list : List (Name × Value)) (f : ℕ) (ps : List Piece)
    → length list < f
    → attributes_loop f (at (attribute_pieces list (close_bracket ∷ ps)))
      ≡ ok (attribute_asts list, at (close_bracket ∷ ps))
unfolding attributes_loop
attributes_loop-at list zero ps h = absurd (omega arith)
attributes_loop-at [] (suc f) ps h = unfold parse_attribute in refl
attributes_loop-at ((key, v) ∷ list) (suc f) ps h =
    rw
      (
        parse_attribute-at key v (attribute_pieces list (close_bracket ∷ ps)),
        attributes_loop-at list f ps (omega arith),
      )
      refl

attributes_list-at :
    (list : Option (List (Name × Value))) (f : ℕ) (p : Piece) (ps : List Piece)
    → length (list_pieces list []) < f
    → text_eq (piece_text p) (b'[' ∷ []) ≡ false
    → attributes_list f (at (list_pieces list (p ∷ ps))) ≡ ok (list_ast list, at (p ∷ ps))
unfolding attributes_list
attributes_list-at none f p ps h e = rw e refl
attributes_list-at (some list) f p ps h e =
    rw
      (
        get_token-at open_bracket (attribute_pieces list (close_bracket ∷ p ∷ ps)),
        attributes_loop-at list f (p ∷ ps)
            (omega (arith, length-attribute_pieces list (close_bracket ∷ []))),
        get_token-at close_bracket (p ∷ ps),
      )
      refl

pub node_statement-at :
    (n : Node) (f : ℕ) (p : Piece) (ps : List Piece)
    → length (node_pieces n []) < f
    → text_eq (piece_text p) (b'[' ∷ []) ≡ false
    → node_statement f (at (node_pieces n (p ∷ ps))) ≡ ok (node_ast n, at (p ∷ ps))
unfolding node_statement
node_statement-at n f p ps h e =
    rw
      (
        get_token_maybe-at (name n.name) (list_pieces n.list (p ∷ ps)),
        attributes_list-at n.list f p ps (omega arith) e,
      )
      refl

length-attributes :
    (list : List (Name × Value)) (ps : List Piece)
    → length (attribute_pieces list ps) ≡ length (attribute_pieces list []) + length ps
length-attributes [] ps = omega arith
length-attributes ((key, word v) ∷ list) ps = omega (arith, length-attributes list ps)
length-attributes ((key, number v) ∷ list) ps = omega (arith, length-attributes list ps)

pub length-list_pieces :
    (list : Option (List (Name × Value))) (ps : List Piece)
    → length (list_pieces list ps) ≡ length (list_pieces list []) + length ps
length-list_pieces none ps = omega arith
length-list_pieces (some list) ps = omega (
  arith,
  length-attributes list (close_bracket ∷ ps),
  length-attributes list (close_bracket ∷ []),
)

pub statement-at :
    (s : Statement) (f n : ℕ) (ps : List Piece)
    → length (statement_pieces s []) < f
    → length (statement_pieces s []) < n
    → statement f n (at (statement_pieces s (semicolon ∷ ps)))
      ≡ ok (statement_ast s, at (semicolon ∷ ps))
unfolding statement
statement-at s f zero ps h k = absurd (omega arith)
statement-at (single m) f (suc n) ps h k =
    rw (node_statement-at m f semicolon ps h refl) (unfold get_token_maybe in refl)
statement-at (edge m true s) f (suc n) ps h k =
    let len = length-list_pieces m.list (connection true ∷ statement_pieces s []) in
    rw
      (
        node_statement-at m f (connection true) (statement_pieces s (semicolon ∷ ps)) (omega arith)
            refl,
        get_token_maybe-at (connection true) (statement_pieces s (semicolon ∷ ps)),
        statement-at s f n ps (omega arith) (omega arith),
      )
      (unfold make_edge in refl)
statement-at (edge m false s) f (suc n) ps h k =
    let len = length-list_pieces m.list (connection false ∷ statement_pieces s []) in
    rw
      (
        node_statement-at m f (connection false) (statement_pieces s (semicolon ∷ ps)) (omega arith)
            refl,
        get_token_maybe-at (connection false) (statement_pieces s (semicolon ∷ ps)),
        statement-at s f n ps (omega arith) (omega arith),
      )
      (unfold make_edge in refl)
