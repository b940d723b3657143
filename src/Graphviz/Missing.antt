-- ===== src/Graphviz/Missing.antt =====
-- container/graph/detail/graphviz_*: texts that are read in a way that DOT does not mean.
use dsac.Prelude.{
  ℕ, zero, suc, ◌<◌, ◌≡◌, refl, Bool, true, false, List, [], ◌∷◌, ◌++◌, none, arith, length,
}
use dsac.Graphviz.Lexer.{
  Text, identifier, eof, is_alpha, is_identifier, text_eq, graph_word, digraph_word, get_next_token,
  get_next_keyword, get_next_literal, get_next, skip_space,
}
use dsac.Graphviz.Ast.{empty, node, direct_graph, statements, edge_direct_connection, nil, cons}
use dsac.Graphviz.Parser.{
  ok, statement, statement_list, node_statement, get_token_maybe, make_edge, make_graph, graph,
  parse,
}
use dsac.Graphviz.Print.{
  Name, Piece, name, graph_type, connection, open_curly, close_curly, semicolon, print, all, is_run,
}
use dsac.Graphviz.Lexing.{span-append, alpha_not_space, alpha_identifier}
use dsac.Graphviz.Written.{at, start-print, get_token-at, get_token_maybe-at, node_statement-at}
use dsac.Graphviz.RoundTrip.{length-print}

-- the text of a word and a dash
abbrev dashed : Text → Text
dashed w = w ++ b'-' ∷ []

-- no text that ends in a dash is one with letters only
dashed-text_eq : (w u : Text) → all is_alpha u ≡ true → text_eq (dashed w) u ≡ false
dashed-text_eq [] [] h = refl
dashed-text_eq [] (d ∷ u) h = ground arith
dashed-text_eq (c ∷ w) [] h = refl
dashed-text_eq (c ∷ w) (d ∷ u) h = ground (arith, dashed-text_eq w u)

all-append : (p : ℕ → Bool) (w u : Text) → all p w ≡ true → all p u ≡ true → all p (w ++ u) ≡ true
all-append p [] u h k = k
all-append p (c ∷ w) u h k = ground (arith, all-append p w u)

arrow :
    (w t : Text)
    → is_run is_alpha is_identifier w ≡ true
    → get_next_token (dashed w ++ b'>' ∷ t) ≡ ((identifier, dashed w), b'>' ∷ t)
unfolding get_next_token skip_space get_next_keyword
arrow [] t h = absurd (cc)
arrow (c ∷ w) t h =
    let alpha : is_alpha c ≡ true = ground arith in
    let whole : all is_identifier (dashed (c ∷ w)) ≡ true =
      all-append is_identifier (c ∷ w) (b'-' ∷ []) (ground (arith, alpha_identifier c alpha))
        refl in
    let word = span-append is_identifier (dashed (c ∷ w)) (b'>' ∷ t) whole refl in
    rw
      (
        alpha_not_space c alpha,
        alpha,
        word,
        dashed-text_eq (c ∷ w) graph_word refl,
        dashed-text_eq (c ∷ w) digraph_word refl,
      )
      refl

-- An arrow that follows a name without a blank is not an operator: its dash is taken into the name, and
-- the rest of the text counts as its end, where the analyzer stays.
pub get_next_token-arrow :
    (n : Name) (t : Text)
    → (get_next_token ((n.text ++ b'-' ∷ []) ++ b'>' ∷ t)
        ≡ ((identifier, n.text ++ b'-' ∷ []), b'>' ∷ t))
      × (get_next_token (b'>' ∷ t) ≡ ((eof, []), b'>' ∷ t))
unfolding get_next_token skip_space get_next_keyword get_next_literal get_next
get_next_token-arrow n t = (arrow n.text t n.is_name, refl)

missing_node :
    (a : Name) (f n : ℕ) (ps : List Piece)
    → 1 < f
    → 1 < n
    → statement f n (at (name a ∷ connection true ∷ semicolon ∷ ps))
      ≡ ok (edge_direct_connection (node a.text empty) empty, at (semicolon ∷ ps))
unfolding statement
missing_node a f zero ps h k = absurd (omega arith)
missing_node a f (suc zero) ps h k = absurd (omega arith)
missing_node a f (suc (suc n)) ps h k =
    rw
      (
        node_statement-at (record { name = a; list = none }) f (connection true) (semicolon ∷ ps) h
            refl,
        get_token_maybe-at (connection true) (semicolon ∷ ps),
      )
      (unfold node_statement in unfold get_token_maybe in unfold make_edge in refl)

no_statement :
    (f n : ℕ) (ps : List Piece)
    → 0 < f
    → 0 < n
    → statement_list f n (at (close_curly ∷ ps)) ≡ ok (nil, at (close_curly ∷ ps))
unfolding statement_list statement node_statement get_token_maybe
no_statement zero n ps h k = absurd (omega arith)
no_statement (suc f) zero ps h k = absurd (omega arith)
no_statement (suc f) (suc n) ps h k = refl

missing_list :
    (a : Name) (f n : ℕ) (ps : List Piece)
    → 1 < f
    → 1 < n
    → statement_list f n (at (name a ∷ connection true ∷ semicolon ∷ close_curly ∷ ps))
      ≡ ok (cons (edge_direct_connection (node a.text empty) empty) nil, at (close_curly ∷ ps))
unfolding statement_list
missing_list a f zero ps h k = absurd (omega arith)
missing_list a f (suc n) ps h k =
    rw
      (
        missing_node a f f (close_curly ∷ ps) h h,
        get_token-at semicolon (close_curly ∷ ps),
        no_statement f n ps (omega arith) (omega arith),
      )
      refl

missing_graph :
    (g a : Name) (f : ℕ) (ps : List Piece)
    → 1 < f
    → graph f (
        at (
          graph_type true
          ∷ name g
          ∷ open_curly
          ∷ name a
          ∷ connection true
          ∷ semicolon
          ∷ close_curly
          ∷ ps))
      ≡ ok (
        direct_graph g.text
            (statements (cons (edge_direct_connection (node a.text empty) empty) nil)),
        at ps,
      )
unfolding graph make_graph
missing_graph g a f ps h =
    let rest = name a ∷ connection true ∷ semicolon ∷ close_curly ∷ ps in
    rw
      (
        get_token-at (graph_type true) (name g ∷ open_curly ∷ rest),
        get_token-at (name g) (open_curly ∷ rest),
        get_token-at open_curly rest,
        missing_list a f f ps h h,
        get_token-at close_curly ps,
      )
      refl

-- An edge without its second node is accepted; its tree holds a null pointer.
pub parse-missing_node :
    (g a : Name) (ps : List Piece)
    → parse (
        print (
          graph_type true
          ∷ name g
          ∷ open_curly
          ∷ name a
          ∷ connection true
          ∷ semicolon
          ∷ close_curly
          ∷ ps))
      ≡ ok (
        direct_graph g.text
            (statements (cons (edge_direct_connection (node a.text empty) empty) nil)),
        at ps,
      )
unfolding parse
parse-missing_node g a ps =
    let pieces =
      graph_type true
      ∷ name g
      ∷ open_curly
      ∷ name a
      ∷ connection true
      ∷ semicolon
      ∷ close_curly
      ∷ ps in
    rw (start-print pieces)
      (missing_graph g a (suc (length (print pieces))) ps (omega (arith, length-print pieces)))
