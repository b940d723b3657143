-- ===== src/Graphviz/Reader.antt =====
-- container/graph/read_graphviz.hpp with the insertions of container/graph/directed_graph.hpp. A node or an edge
-- is its key: `node_key` and `edge_key` are the keys that `directed_graph_semantic` gives to what `N::make` and
-- `E::make` make of a text. A pointer to a node or an edge is its key too.
pub mod Edges
pub mod Reading
use dsac.Prelude.{ℕ, ◌+◌, Bool, true, false, List, [], ◌∷◌, ◌++◌, Option, none, some, if◌then◌else◌}
use dsac.Graphviz.Lexer.{Text, text_eq}
use dsac.Graphviz.Ast.{
  Ast, Asts, empty, node, direct_graph, undirect_graph, statements, edge_direct_connection,
  edge_undirect_connection, attribute, attributes, nil, cons,
}
use dsac.Graphviz.Parser.{State, Result, ok, unexpected_syntax, out_of_rounds, parse}

-- `proxy_node`: its key, and its edges
pub record ProxyNode : Type 0 where
  pub key : Text
  pub edges : List Text

pub record ProxyEdge : Type 0 where
  pub key : Text
  pub from : Text
  pub to : Text

pub record DirectedGraph : Type 0 where
  pub nodes : List ProxyNode
  pub edges : List ProxyEdge

-- what a call comes to; `bad_access` is a use of a null pointer or of an entry that `kVtable` lacks
pub data Outcome (A : Type 0) : Type 0 where
  done : A → Outcome A
  loops_not_supported bad_access bad_syntax no_rounds : Outcome A

infixl 5 ◌>>=◌
abbrev pub ◌>>=◌ : {A B : Type 0} → Outcome A → (A → Outcome B) → Outcome B
done a >>= f = f a
loops_not_supported >>= f = loops_not_supported
bad_access >>= f = bad_access
bad_syntax >>= f = bad_syntax
no_rounds >>= f = no_rounds

-- `contains` of the nodes and of the edges
unfoldable pub has_node : Text → List ProxyNode → Bool
has_node key [] = false
has_node key (n ∷ nodes) = if text_eq n.key key then true else has_node key nodes

unfoldable pub has_edge : Text → List ProxyEdge → Bool
has_edge key [] = false
has_edge key (e ∷ edges) = if text_eq e.key key then true else has_edge key edges

unfoldable pub insert_node : Text → DirectedGraph → DirectedGraph
unfolding has_node
insert_node key g =
    if has_node key g.nodes
    then g
    else record g { nodes = g.nodes ++ record { key = key; edges = [] } ∷ [] }

-- `from->edges.push_back`
unfoldable pub push_edge : Text → Text → List ProxyNode → List ProxyNode
push_edge from key [] = []
push_edge from key (n ∷ nodes) =
    if text_eq n.key from
    then record n { edges = n.edges ++ key ∷ [] } ∷ nodes
    else n ∷ push_edge from key nodes

unfoldable pub insert_direct_edge : Text → Text → Text → DirectedGraph → Outcome DirectedGraph
unfolding has_edge push_edge
insert_direct_edge from to key g =
    if text_eq from to
    then loops_not_supported
    else if has_edge key g.edges
    then done g
    else done (record {
      nodes = push_edge from key g.nodes;
      edges = g.edges ++ record { key = key; from = from; to = to } ∷ [];
    })

-- the name of a node, if `unsafe_to<ast_node_node>` finds one
abbrev pub node_name : Ast → Option Text
node_name (node name list) = some name
node_name empty = none
node_name (direct_graph name child) = none
node_name (undirect_graph name child) = none
node_name (statements list) = none
node_name (edge_direct_connection from to) = none
node_name (edge_undirect_connection from to) = none
node_name (attribute key value) = none
node_name (attributes list) = none

module _ (node_key edge_key : Text → Text) where
  -- `process_statement` once the second node is known
  unfoldable pub connect : Ast → Option Text → DirectedGraph → Outcome (Ast × DirectedGraph)
  unfolding insert_node insert_direct_edge
  connect from_node to g = elim (node_name from_node) [
    | none ↦ bad_access
    | some from_name ↦ elim to [
      | none ↦ bad_access
      | some to_name ↦
          insert_direct_edge (node_key from_name) (node_key to_name)
            (edge_key (from_name ++ b'_' ∷ to_name))
            (insert_node (node_key to_name) (insert_node (node_key from_name) g))
          >>= λ g'. done (from_node, g')
    ]
  ]

  -- `visit(process_statement, base)`; `kVtable` has no entry for `kind::attributes`
  unfoldable pub visit : Ast → DirectedGraph → Outcome (Ast × DirectedGraph)
  unfolding connect
  visit empty g = bad_access
  visit (node name list) g = done (empty, g)
  visit (direct_graph name child) g = done (empty, g)
  visit (undirect_graph name child) g = done (empty, g)
  visit (statements list) g = done (empty, g)
  visit (edge_undirect_connection from to) g = done (empty, g)
  visit (attribute key value) g = done (empty, g)
  visit (attributes list) g = bad_access
  visit (edge_direct_connection from to) g = elim (node_name to) [
    | some to_name ↦ connect from (some to_name) g
    | none ↦ visit to g >>= λ r. connect from (node_name (r.0)) (r.1)
  ]

  -- the loop over the statements
  unfoldable pub visit_statements : Asts → DirectedGraph → Outcome DirectedGraph
  unfolding visit
  visit_statements nil g = done g
  visit_statements (cons statement list) g = visit statement g >>= λ r. visit_statements list (r.1)

  -- the two calls of `visit` in `read_graphviz`, the second on what the first gives
  unfoldable pub visit_graph : Ast → Outcome DirectedGraph
  unfolding visit_statements
  visit_graph (direct_graph name (statements list)) =
      visit_statements list (record { nodes = []; edges = [] })
  visit_graph (direct_graph name empty) = bad_access
  visit_graph (direct_graph name (attributes list)) = bad_access
  visit_graph (direct_graph name child) = done (record { nodes = []; edges = [] })
  visit_graph _ = bad_access

  unfoldable pub read_graphviz : Text → Outcome DirectedGraph
  unfolding visit_graph
  read_graphviz graphviz = elim (parse graphviz) [
    | ok r ↦ visit_graph (r.0)
    | unexpected_syntax ↦ bad_syntax
    | out_of_rounds ↦ no_rounds
  ]
