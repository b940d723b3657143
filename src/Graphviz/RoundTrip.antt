-- ===== src/Graphviz/RoundTrip.antt =====
-- container/graph/detail/graphviz_syntax_analyzer.*: a text that was written is parsed to its tree.
use dsac.Prelude.{
  ℕ, zero, suc, ◌+◌, ◌≤◌, ◌<◌, ◌≡◌, refl, ap, Bool, true, false, List, [], ◌∷◌, arith, length,
  length-append,
}
use dsac.Graphviz.Lexer.{Text, mem, keywords}
use dsac.Graphviz.Ast.{Ast, statements, is_empty}
use dsac.Graphviz.Parser.{
  ok, bind, get_token_maybe, node_statement, statement, statement_list, make_graph, graph, parse,
}
use dsac.Graphviz.Print.{
  Statement, single, edge, Graph, Piece, name, graph_type, connection, open_curly, close_curly,
  semicolon, piece_text, statement_pieces, statements_pieces, graph_pieces, print, statement_ast,
  statement_asts, graph_ast, typed_graph,
}
use dsac.Graphviz.Written.{at, start-print, get_token-at, length-list_pieces, statement-at}

length-statement_pieces :
    (s : Statement) (ps : List Piece)
    → length (statement_pieces s ps) ≡ length (statement_pieces s []) + length ps
length-statement_pieces (single m) ps = omega (arith, length-list_pieces m.list ps)
length-statement_pieces (edge m d s) ps = omega (
  arith,
  length-list_pieces m.list (connection d ∷ statement_pieces s ps),
  length-list_pieces m.list (connection d ∷ statement_pieces s []),
  length-statement_pieces s ps,
)

statement_pos : (s : Statement) → 0 < length (statement_pieces s [])
statement_pos (single m) = omega arith
statement_pos (edge m d s) = omega arith

statement_not_empty : (s : Statement) → is_empty (statement_ast s) ≡ false
statement_not_empty (single m) = refl
statement_not_empty (edge m true s) = refl
statement_not_empty (edge m false s) = refl

statement_list-at :
    (list : List Statement) (f n : ℕ) (ps : List Piece)
    → length (statements_pieces list []) < f
    → length (statements_pieces list []) < n
    → statement_list f n (at (statements_pieces list (close_curly ∷ ps)))
      ≡ ok (statement_asts list, at (close_curly ∷ ps))
unfolding statement_list
statement_list-at list f zero ps h k = absurd (omega arith)
statement_list-at [] (suc f) (suc n) ps h k =
    unfold statement in unfold node_statement in unfold get_token_maybe in refl
statement_list-at [] zero (suc n) ps h k = absurd (omega arith)
statement_list-at (s ∷ list) f (suc n) ps h k =
    let rest = statements_pieces list (close_curly ∷ ps) in
    let len = length-statement_pieces s (semicolon ∷ statements_pieces list []) in
    rw
      (
        statement-at s f f rest (omega arith) (omega arith),
        bind,
        statement_not_empty s,
        get_token-at semicolon rest,
        statement_list-at list f n ps (omega arith) (omega arith),
      )
      refl

length-statements_pieces :
    (list : List Statement) (ps : List Piece)
    → length (statements_pieces list ps) ≡ length (statements_pieces list []) + length ps
length-statements_pieces [] ps = omega arith
length-statements_pieces (s ∷ list) ps = omega (
  arith,
  length-statement_pieces s (semicolon ∷ statements_pieces list ps),
  length-statement_pieces s (semicolon ∷ statements_pieces list []),
  length-statements_pieces list ps,
)

graph_known : (d : Bool) → mem (piece_text (graph_type d)) keywords ≡ true
graph_known true = refl
graph_known false = refl

make_graph-ast :
    (d : Bool) (n : Text) (a : Ast) → make_graph (piece_text (graph_type d)) n a ≡ typed_graph d n a
unfolding make_graph
make_graph-ast true n a = refl
make_graph-ast false n a = refl

graph-at :
    (g : Graph) (f : ℕ) (ps : List Piece)
    → length (statements_pieces g.list []) < f
    → graph f (at (graph_pieces g ps)) ≡ ok (graph_ast g, at ps)
unfolding graph
graph-at g f ps h =
    let rest = statements_pieces g.list (close_curly ∷ ps) in
    rw
      (
        get_token-at (graph_type g.directed) (name g.name ∷ open_curly ∷ rest),
        graph_known g.directed,
        get_token-at (name g.name) (open_curly ∷ rest),
        get_token-at open_curly rest,
        statement_list-at g.list f f ps h h,
        get_token-at close_curly ps,
      )
      (ap (λ a. ok (a, at ps))
        (make_graph-ast g.directed g.name.text (statements (statement_asts g.list))))

pub length-print : (ps : List Piece) → length ps ≤ length (print ps)
unfolding print
length-print [] = omega arith
length-print (p ∷ ps) = omega (arith, length-print ps, length-append (piece_text p) (print ps))

-- A graph that was written is parsed to its syntax tree, whatever pieces follow it; names are letters and
-- then letters, digits, `_` and `-`, and no keywords.
pub parse-print :
    (g : Graph) (ps : List Piece) → parse (print (graph_pieces g ps)) ≡ ok (graph_ast g, at ps)
unfolding parse
parse-print g ps =
    let len = length-statements_pieces g.list (close_curly ∷ ps) in
    rw (start-print (graph_pieces g ps)) (
      graph-at g (suc (length (print (graph_pieces g ps)))) ps
        (omega (arith, length-print (graph_pieces g ps))))
