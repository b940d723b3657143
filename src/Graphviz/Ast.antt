-- ===== src/Graphviz/Ast.antt =====
-- container/graph/detail/graphviz_abstract_syntax_tree.*. A tree is owned by one pointer; `empty` is the null
-- pointer `kEmpty`.
use dsac.Prelude.{Bool, true, false}
use dsac.Graphviz.Lexer.{Text}

-- one constructor for each `kind`
mutual
  pub data Ast : Type 0 where
    empty : Ast
    node : Text → Ast → Ast
    direct_graph : Text → Ast → Ast
    undirect_graph : Text → Ast → Ast
    statements : Asts → Ast
    edge_direct_connection : Ast → Ast → Ast
    edge_undirect_connection : Ast → Ast → Ast
    attribute : Text → Text → Ast
    attributes : Asts → Ast

  pub data Asts : Type 0 where
    nil : Asts
    cons : Ast → Asts → Asts

-- `== kEmpty`
abbrev pub is_empty : Ast → Bool
is_empty empty = true
is_empty (node name list) = false
is_empty (direct_graph name child) = false
is_empty (undirect_graph name child) = false
is_empty (statements list) = false
is_empty (edge_direct_connection from to) = false
is_empty (edge_undirect_connection from to) = false
is_empty (attribute key value) = false
is_empty (attributes list) = false
