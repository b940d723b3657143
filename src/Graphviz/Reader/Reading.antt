-- ===== src/Graphviz/Reader/Reading.antt =====
-- container/graph/read_graphviz.hpp: the graph that a written text gives.
use dsac.Prelude.{◌≡◌, refl, ap, ◌∙◌, Bool, true, false, List, [], ◌∷◌, ◌++◌, some, arith, ◌||◌}
use dsac.Graphviz.Lexer.{Text, text_eq}
use dsac.Graphviz.Ast.{edge_direct_connection}
use dsac.Graphviz.Print.{
  Name, Node, Statement, Piece, single, edge, print, graph_pieces, statement_ast, statement_asts,
  node_ast,
}
use dsac.Graphviz.RoundTrip.{parse-print}
use dsac.Graphviz.Reader.{
  DirectedGraph, done, has_node, has_edge, insert_node, connect, visit, visit_statements,
  visit_graph, read_graphviz,
}
use dsac.Graphviz.Reader.Edges.{insert_node-edges, insert_node-has_node, insert_direct_edge-done}

-- the name of the first node
abbrev pub head_text : Statement → Text
head_text (single n) = n.name.text
head_text (edge n d s) = n.name.text

-- the text of an edge
abbrev pub edge_text : Text → Text → Text
edge_text from to = from ++ b'_' ∷ to

module _ (node_key edge_key : Text → Text) where
  -- the nodes of the edges of a statement, and its edges
  abbrev pub in_nodes : Text → Statement → Bool
  in_nodes q (single n) = false
  in_nodes q (edge n d s) =
      (text_eq (node_key n.name.text) q || text_eq (node_key (head_text s)) q) || in_nodes q s

  abbrev pub in_edges : Text → Statement → Bool
  in_edges q (single n) = false
  in_edges q (edge n d s) =
      text_eq (edge_key (edge_text n.name.text (head_text s))) q || in_edges q s

  abbrev pub some_in : (Statement → Bool) → List Statement → Bool
  some_in p [] = false
  some_in p (s ∷ list) = p s || some_in p list

  -- all connections are `->`, and no edge goes from a node to itself
  abbrev pub IsDirect : Statement → Type 0
  IsDirect (single n) = Unit
  IsDirect (edge n d s) =
      (d ≡ true) × (text_eq (node_key n.name.text) (node_key (head_text s)) ≡ false) × IsDirect s

  abbrev pub AreDirect : List Statement → Type 0
  AreDirect [] = Unit
  AreDirect (s ∷ list) = IsDirect s × AreDirect list

  -- `g'` has the keys of `g`, and those of `nodes` and `edges`
  pub record IsGrown (nodes edges : Text → Bool) (g g' : DirectedGraph) : Type 0 where
    pub grown_nodes : (q : Text) → has_node q g'.nodes ≡ (has_node q g.nodes || nodes q)
    pub grown_edges : (q : Text) → has_edge q g'.edges ≡ (has_edge q g.edges || edges q)

  connect-IsGrown :
      (n : Node) (t : Text) (g : DirectedGraph)
      → text_eq (node_key n.name.text) (node_key t) ≡ false
      → (g' : DirectedGraph) × (connect node_key edge_key (node_ast n) (some t) g
          ≡ done (node_ast n, g'))
        × IsGrown
            (λ q. text_eq (node_key n.name.text) q || text_eq (node_key t) q)
            (λ q. text_eq (edge_key (edge_text n.name.text t)) q)
            g
            g'
  unfolding connect insert_node
  connect-IsGrown n t g other =
      let f = n.name.text in
      let g1 = insert_node (node_key f) g in
      let g2 = insert_node (node_key t) g1 in
      let (g', runs, nodes, edges) =
        insert_direct_edge-done (node_key f) (node_key t) (edge_key (edge_text f t)) g2 other in
      (
        g',
        rw runs refl,
        record {
          grown_nodes = λ q.
              nodes q
              ∙ insert_node-has_node (node_key t) q g1
              ∙ ap (λ b. b || text_eq (node_key t) q) (insert_node-has_node (node_key f) q g)
              ∙ ground arith;
          grown_edges = λ q.
              edges q
              ∙ ap (λ es. has_edge q es || text_eq (edge_key (edge_text f t)) q)
                  (insert_node-edges (node_key t) g1 ∙ insert_node-edges (node_key f) g);
        },
      )

  visit-IsGrown :
      (n : Node) (s : Statement) (g : DirectedGraph)
      → IsDirect (edge n true s)
      → (g' : DirectedGraph) × (visit node_key edge_key
            (edge_direct_connection (node_ast n) (statement_ast s))
            g
          ≡ done (node_ast n, g'))
        × IsGrown (λ q. in_nodes q (edge n true s)) (λ q. in_edges q (edge n true s)) g g'
  unfolding visit
  visit-IsGrown n (single m) g (e, other, rest) =
      let (g', runs, grown) = connect-IsGrown n m.name.text g other in
      (
        g',
        runs,
        record {
          grown_nodes = λ q. grown.grown_nodes q ∙ ground arith;
          grown_edges = λ q. grown.grown_edges q ∙ ground arith;
        },
      )
  visit-IsGrown n (edge m false s) g (e, other, (e', other', rest)) = absurd (ground arith)
  visit-IsGrown n (edge m true s) g (e, other, rest) =
      let (g1, runs1, grown1) = visit-IsGrown m s g rest in
      let (g2, runs2, grown2) = connect-IsGrown n m.name.text g1 other in
      (
        g2,
        rw runs1 runs2,
        record {
          grown_nodes = λ q.
              grown2.grown_nodes q
              ∙ ap
                  (λ b. b || (text_eq (node_key n.name.text) q || text_eq (node_key m.name.text) q))
                  (grown1.grown_nodes q)
              ∙ ground arith;
          grown_edges = λ q.
              grown2.grown_edges q
              ∙ ap (λ b. b || text_eq (edge_key (edge_text n.name.text m.name.text)) q)
                  (grown1.grown_edges q)
              ∙ ground arith;
        },
      )

  visit_statements-IsGrown :
      (list : List Statement) (g : DirectedGraph)
      → AreDirect list
      → (g' : DirectedGraph) × (visit_statements node_key edge_key (statement_asts list) g
          ≡ done g')
        × IsGrown (λ q. some_in (in_nodes q) list) (λ q. some_in (in_edges q) list) g g'
  unfolding visit_statements visit
  visit_statements-IsGrown [] g are =
      (g, refl, record { grown_nodes = λ q. ground arith; grown_edges = λ q. ground arith })
  visit_statements-IsGrown (single n ∷ list) g (is, are) =
      let (g', runs, grown) = visit_statements-IsGrown list g are in
      (
        g',
        runs,
        record {
          grown_nodes = λ q. grown.grown_nodes q ∙ ground arith;
          grown_edges = λ q. grown.grown_edges q ∙ ground arith;
        },
      )
  visit_statements-IsGrown (edge n false s ∷ list) g ((e, other, is), are) = absurd (ground arith)
  visit_statements-IsGrown (edge n true s ∷ list) g (is, are) =
      let (g1, runs1, grown1) = visit-IsGrown n s g is in
      let (g2, runs2, grown2) = visit_statements-IsGrown list g1 are in
      (
        g2,
        rw runs1 runs2,
        record {
          grown_nodes = λ q.
              grown2.grown_nodes q
              ∙ ap (λ b. b || some_in (in_nodes q) list) (grown1.grown_nodes q)
              ∙ ground arith;
          grown_edges = λ q.
              grown2.grown_edges q
              ∙ ap (λ b. b || some_in (in_edges q) list) (grown1.grown_edges q)
              ∙ ground arith;
        },
      )

  -- The graph that is read from a written `digraph` in which every connection is `->` and no edge is a loop, with
  -- whatever pieces after it: it has the key of a node exactly if an edge of the text begins or ends there,
  -- and the key of an edge exactly if an edge of the text has it.
  pub read_graphviz-print :
      (name : Name) (list : List Statement) (ps : List Piece)
      → AreDirect list
      → (g : DirectedGraph) × (read_graphviz node_key edge_key
            (print (graph_pieces (record { directed = true; name = name; list = list }) ps))
          ≡ done g)
        × ((q : Text) → has_node q g.nodes ≡ some_in (in_nodes q) list)
        × ((q : Text) → has_edge q g.edges ≡ some_in (in_edges q) list)
  unfolding read_graphviz visit_graph has_node has_edge
  read_graphviz-print name list ps are =
      let (g, runs, grown) =
        visit_statements-IsGrown list (record { nodes = []; edges = [] }) are in
      (
        g,
        rw (parse-print (record { directed = true; name = name; list = list }) ps, read_graphviz)
            runs,
        λ q. grown.grown_nodes q,
        λ q. grown.grown_edges q,
      )
