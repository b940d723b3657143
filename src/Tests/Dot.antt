-- ===== src/Tests/Dot.antt =====
-- Runs of the analyzers of container/graph/detail.
use dsac.Prelude.{◌≡◌, ◌≢◌, ◌++◌, List, refl, true, false, [], ◌∷◌, none, some}
use dsac.Graphviz.Lexer.{Text, identifier, eof, get_next_token}
use dsac.Graphviz.Ast.{empty, node, direct_graph, statements, edge_direct_connection, nil, cons}
use dsac.Graphviz.Parser.{ok, out_of_rounds, parse}
use dsac.Graphviz.Print.{
  Name, Number, Graph, single, edge, word, number, name, graph_type, connection, open_curly,
  close_curly, semicolon, print, graph_pieces, graph_ast,
}
use dsac.Graphviz.Written.{at}
use dsac.Graphviz.RoundTrip.{parse-print}
use dsac.Graphviz.Total.{parse-ends}
use dsac.Graphviz.Missing.{get_next_token-arrow, parse-missing_node}
use dsac.Graphviz.Print.{Statement, statement_asts}
use dsac.Graphviz.Reader.{
  DirectedGraph, done, bad_access, has_node, has_edge, visit_statements, visit_graph, read_graphviz,
}
use dsac.Graphviz.Reader.Reading.{in_nodes, in_edges, some_in, read_graphviz-print}

abbrev name_a : Name
name_a = record { text = b'a' ∷ []; is_name = refl; no_keyword = refl }

abbrev name_b2 : Name
name_b2 = record { text = b'b' ∷ b'_' ∷ b'2' ∷ []; is_name = refl; no_keyword = refl }

abbrev name_c : Name
name_c = record { text = b'c' ∷ []; is_name = refl; no_keyword = refl }

abbrev name_d : Name
name_d = record { text = b'd' ∷ []; is_name = refl; no_keyword = refl }

abbrev number_7 : Number
number_7 = record { text = b'7' ∷ b'.' ∷ b'5' ∷ []; is_number = refl }

-- `digraph a { a -> b_2 [ a = 7.5 b_2 = a ] ; b_2 ; }`
abbrev small : Graph
small = record {
  directed = true;
  name = name_a;
  list =
      edge (record { name = name_a; list = none }) true
        (single (record {
          name = name_b2;
          list = some ((name_a, number number_7) ∷ (name_b2, word name_a) ∷ []);
        }))
      ∷ single (record { name = name_b2; list = none })
      ∷ [];
}

parse-print_example :
    parse (print (graph_pieces small (semicolon ∷ []))) ≡ ok (graph_ast small, at (semicolon ∷ []))
parse-print_example = parse-print small (semicolon ∷ [])

get_next_token-arrow_example :
    (get_next_token (b'a' ∷ b'-' ∷ b'>' ∷ b'b' ∷ [])
      ≡ ((identifier, b'a' ∷ b'-' ∷ []), b'>' ∷ b'b' ∷ []))
    × (get_next_token (b'>' ∷ b'b' ∷ []) ≡ ((eof, []), b'>' ∷ b'b' ∷ []))
get_next_token-arrow_example = get_next_token-arrow name_a (b'b' ∷ [])

parse-missing_node_example :
    parse (
      print (
        graph_type true
        ∷ name name_a
        ∷ open_curly
        ∷ name name_b2
        ∷ connection true
        ∷ semicolon
        ∷ close_curly
        ∷ []))
    ≡ ok (
      direct_graph name_a.text
          (statements (cons (edge_direct_connection (node name_b2.text empty) empty) nil)),
      at [],
    )
parse-missing_node_example = parse-missing_node name_a name_b2 []

parse-ends_example : parse (b'{' ∷ []) ≢ out_of_rounds
parse-ends_example = parse-ends (b'{' ∷ [])

-- a key is the name
abbrev same_key : Text → Text
same_key key = key

abbrev edges_of : List Statement
edges_of =
    edge (record { name = name_a; list = none }) true
      (edge (record { name = name_b2; list = none }) true
        (single (record { name = name_c; list = none })))
    ∷ single (record { name = name_d; list = none })
    ∷ []

-- The node that stands alone is not in the graph.
visit_statements-edges_of :
    visit_statements same_key same_key (statement_asts edges_of) (record { nodes = []; edges = [] })
    ≡ done (record {
      nodes =
          record { key = name_b2.text; edges = (name_b2.text ++ b'_' ∷ name_c.text) ∷ [] }
          ∷ record { key = name_c.text; edges = [] }
          ∷ record { key = name_a.text; edges = (name_a.text ++ b'_' ∷ name_b2.text) ∷ [] }
          ∷ [];
      edges =
          record { key = name_b2.text ++ b'_' ∷ name_c.text; from = name_b2.text; to = name_c.text }
          ∷ record {
            key = name_a.text ++ b'_' ∷ name_b2.text;
            from = name_a.text;
            to = name_b2.text;
          }
          ∷ [];
    })
unfolding visit_statements
visit_statements-edges_of = refl

-- `a_c -> d ; a -> c_d ;`: both edges have the key `a_c_d`, and only the first one is there.
key_taken :
    visit_statements same_key same_key
      (cons
        (edge_direct_connection
          (node (name_a.text ++ b'_' ∷ name_c.text) empty)
          (node name_d.text empty))
        (cons
          (edge_direct_connection
            (node name_a.text empty)
            (node (name_c.text ++ b'_' ∷ name_d.text) empty))
          nil))
      (record { nodes = []; edges = [] })
    ≡ done (record {
      nodes =
          record {
            key = b'a' ∷ b'_' ∷ b'c' ∷ [];
            edges = (b'a' ∷ b'_' ∷ b'c' ∷ b'_' ∷ b'd' ∷ []) ∷ [];
          }
          ∷ record { key = b'd' ∷ []; edges = [] }
          ∷ record { key = b'a' ∷ []; edges = [] }
          ∷ record { key = b'c' ∷ b'_' ∷ b'd' ∷ []; edges = [] }
          ∷ [];
      edges =
          record {
            key = b'a' ∷ b'_' ∷ b'c' ∷ b'_' ∷ b'd' ∷ [];
            from = b'a' ∷ b'_' ∷ b'c' ∷ [];
            to = b'd' ∷ [];
          }
          ∷ [];
    })
unfolding visit_statements
key_taken = refl

undirected_graph :
    visit_graph same_key same_key
      (graph_ast (record { directed = false; name = name_a; list = [] }))
    ≡ bad_access
unfolding visit_graph
undirected_graph = refl

read_graphviz-print_example :
    (g : DirectedGraph) × (read_graphviz same_key same_key
        (print (graph_pieces (record { directed = true; name = name_a; list = edges_of }) []))
      ≡ done g)
    × ((q : Text)
        → has_node q g.nodes ≡ some_in same_key same_key (in_nodes same_key same_key q) edges_of)
    × ((q : Text)
        → has_edge q g.edges ≡ some_in same_key same_key (in_edges same_key same_key q) edges_of)
read_graphviz-print_example =
    read_graphviz-print same_key same_key name_a edges_of []
      ((refl, refl, (refl, refl, tt)), (tt, tt))
