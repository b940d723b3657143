-- ===== src/Graphviz/Reader/Edges.antt =====
-- container/graph/directed_graph.hpp: what an insertion of an edge leaves in the graph.
use dsac.Prelude.{
  ◌≡◌, ◌⊎◌, ◌||◌, inl, inr, refl, ap, ◌∙◌, subst, true, false, List, [], ◌∷◌, ◌++◌, arith,
  if◌then◌else◌, Bool-cases,
}
use dsac.Graphviz.Lexer.{Text, text_eq}
use dsac.Graphviz.Reader.{
  ProxyNode, ProxyEdge, DirectedGraph, done, has_node, has_edge, insert_node, push_edge,
  insert_direct_edge,
}

pub text_eq_refl : (t : Text) → text_eq t t ≡ true
text_eq_refl [] = refl
text_eq_refl (c ∷ t) = ground (arith, text_eq_refl t)

pub text_eq→≡ : (t u : Text) → text_eq t u ≡ true → t ≡ u
text_eq→≡ [] [] e = refl
text_eq→≡ [] (d ∷ u) e = absurd (ground arith)
text_eq→≡ (c ∷ t) [] e = absurd (ground arith)
text_eq→≡ (c ∷ t) (d ∷ u) e =
    let same : c ≡ d = ground arith in
    let rest : t ≡ u = text_eq→≡ t u (ground arith) in ap (◌∷ t) same ∙ ap (d ∷◌) rest

-- the keys of a list with one more at its end
has_node-snoc :
    (key q : Text) (nodes : List ProxyNode) (list : List Text)
    → has_node q (nodes ++ record { key = key; edges = list } ∷ [])
      ≡ (if has_node q nodes then true else text_eq key q)
unfolding has_node
has_node-snoc key q [] list = elim (Bool-cases (text_eq key q)) [
  | inl e ↦ rw e refl
  | inr e ↦ rw e refl
]
has_node-snoc key q (n ∷ nodes) list = elim (Bool-cases (text_eq n.key q)) [
  | inl e ↦ rw (e, has_node) refl
  | inr e ↦ rw (e, has_node) (has_node-snoc key q nodes list)
]

has_edge-snoc :
    (k : ProxyEdge) (q : Text) (edges : List ProxyEdge)
    → has_edge q (edges ++ k ∷ []) ≡ (if has_edge q edges then true else text_eq k.key q)
unfolding has_edge
has_edge-snoc k q [] = elim (Bool-cases (text_eq k.key q)) [ inl e ↦ rw e refl | inr e ↦ rw e refl ]
has_edge-snoc k q (n ∷ edges) = elim (Bool-cases (text_eq n.key q)) [
  | inl e ↦ rw (e, has_edge) refl
  | inr e ↦ rw (e, has_edge) (has_edge-snoc k q edges)
]

has_node-push_edge :
    (from key q : Text) (nodes : List ProxyNode)
    → has_node q (push_edge from key nodes) ≡ has_node q nodes
unfolding has_node push_edge
has_node-push_edge from key q [] = refl
has_node-push_edge from key q (n ∷ nodes) = elim (Bool-cases (text_eq n.key from)) [
  | inl e ↦ rw (e, push_edge) refl
  | inr e ↦
      rw (e, push_edge)
        (ap (λ b. if text_eq n.key q then true else b) (has_node-push_edge from key q nodes))
]

pub insert_node-has_node :
    (key q : Text) (g : DirectedGraph)
    → has_node q (insert_node key g).nodes ≡ (has_node q g.nodes || text_eq key q)
unfolding insert_node
insert_node-has_node key q g = elim (Bool-cases (has_node key g.nodes)) [
  | inl e ↦ rw e (there (Bool-cases (text_eq key q)) e)
  | inr e ↦ rw e (has_node-snoc key q g.nodes [] ∙ ground arith)
]
  where
    there :
        (text_eq key q ≡ true) ⊎ (text_eq key q ≡ false)
        → has_node key g.nodes ≡ true
        → has_node q g.nodes ≡ (has_node q g.nodes || text_eq key q)
    there (inl same) e =
        let at = subst (λ k. has_node k g.nodes ≡ true) (text_eq→≡ key q same) e in rw at refl
    there (inr other) e = ground (arith, other)

-- an edge that is no loop
pub insert_direct_edge-done :
    (from to key : Text) (g : DirectedGraph)
    → text_eq from to ≡ false
    → (g' : DirectedGraph) × (insert_direct_edge from to key g ≡ done g')
      × ((q : Text) → has_node q g'.nodes ≡ has_node q g.nodes)
      × ((q : Text) → has_edge q g'.edges ≡ (has_edge q g.edges || text_eq key q))
unfolding insert_direct_edge
insert_direct_edge-done from to key g other = elim (Bool-cases (has_edge key g.edges)) [
  | inl e ↦ (g, rw (other, e) refl, λ q. refl, λ q. there q (Bool-cases (text_eq key q)) e)
  | inr e ↦ (
    record {
      nodes = push_edge from key g.nodes;
      edges = g.edges ++ record { key = key; from = from; to = to } ∷ [];
    },
    rw (other, e) refl,
    λ q. has_node-push_edge from key q g.nodes,
    λ q. has_edge-snoc (record { key = key; from = from; to = to }) q g.edges ∙ ground arith,
  )
]
  where
    there :
        (q : Text)
        → (text_eq key q ≡ true) ⊎ (text_eq key q ≡ false)
        → has_edge key g.edges ≡ true
        → has_edge q g.edges ≡ (has_edge q g.edges || text_eq key q)
    there q (inl same) e =
        let at = subst (λ k. has_edge k g.edges ≡ true) (text_eq→≡ key q same) e in rw at refl
    there q (inr other) e = ground (arith, other)

pub insert_node-edges : (key : Text) (g : DirectedGraph) → (insert_node key g).edges ≡ g.edges
unfolding insert_node
insert_node-edges key g = elim (Bool-cases (has_node key g.nodes)) [
  | inl e ↦ rw e refl
  | inr e ↦ rw e refl
]
