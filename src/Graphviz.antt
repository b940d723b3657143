-- ===== src/Graphviz.antt =====
-- The reader of DOT texts: container/graph/detail/graphviz_*. A text is the list of its bytes, which are ASCII.
pub mod Reader
pub mod Lexer
pub mod Ast
pub mod Parser
pub mod Print
pub mod Lexing
pub mod Written
pub mod RoundTrip
pub mod Shrinking
pub mod Rounds
pub mod Total
pub mod Missing
