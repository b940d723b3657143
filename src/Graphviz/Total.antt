-- ===== src/Graphviz/Total.antt =====
-- container/graph/detail/graphviz_syntax_analyzer.*: the rounds are enough for every text.
use dsac.Prelude.{ℕ, zero, suc, ◌+◌, ◌≤◌, ◌<◌, ◌≡◌, ◌≢◌, refl, [], ◌∷◌, arith, length}
use dsac.Graphviz.Lexer.{
  Text, identifier, keyword, literal, operator, punctuator, text_eq, mem, keywords,
}
use dsac.Graphviz.Ast.{Ast, empty, nil, is_empty}
use dsac.Graphviz.Parser.{
  State, Result, ok, unexpected_syntax, out_of_rounds, assign_text, direct_text, undirect_text,
  pure, same, get_token, get_token_maybe, attribute_value, parse_attribute, attributes_loop,
  attributes_list, node_statement, make_edge, statement, statement_list, graph, start, parse,
}
use dsac.Graphviz.Shrinking.{get_next_token-le}
use dsac.Graphviz.Rounds.{
  measure, Post, bind-Post, get_token-Post, found, get_token_maybe-Post, size, on_token-Post,
  if-Post, choice-Post, require-Post,
}

attribute_value-Post : (s : State) → Post (λ w t. measure t ≤ measure s) (attribute_value s)
unfolding attribute_value
attribute_value-Post s =
    bind-Post _ _ (get_token_maybe identifier s) _ (get_token_maybe-Post identifier s refl) λ o t h.
      on_token-Post _ o _ _ t (λ w e. omega arith)
        λ e.
          bind-Post _ _ (get_token_maybe literal t) _ (get_token_maybe-Post literal t refl)
            λ o' u k. on_token-Post _ o' _ _ u (λ w e'. omega arith) (λ e'. tt)

parse_attribute-Post :
    (s : State) → Post (λ a t. measure t + size a ≤ measure s) (parse_attribute s)
unfolding parse_attribute
parse_attribute-Post s =
    choice-Post _ (same (s.current.0) identifier) _ (ok (empty, s))
      (bind-Post _ _ (get_token identifier s) _ (get_token-Post identifier s refl) λ key t h.
        bind-Post _ _ (get_token operator t) _ (get_token-Post operator t refl) λ assign u k.
          require-Post _ (text_eq assign assign_text) _ u
            (bind-Post _ _ (attribute_value u) _ (attribute_value-Post u) λ w v l. omega arith))
      (omega arith)

attributes_loop-Post :
    (n : ℕ) (s : State) → measure s < n → Post (λ a t. measure t ≤ measure s) (attributes_loop n s)
unfolding attributes_loop
attributes_loop-Post zero s h = absurd (omega arith)
attributes_loop-Post (suc n) s h =
    bind-Post _ _ (parse_attribute s) _ (parse_attribute-Post s) λ a t k.
      if-Post _ (is_empty a) (pure nil) _ t (λ e. omega arith)
        λ e.
          let less : size a ≡ 1 = rw e refl in
          bind-Post _ _ (attributes_loop n t) _ (attributes_loop-Post n t (omega arith))
            λ rest u l. omega arith

attributes_list-Post :
    (f : ℕ) (s : State) → measure s < f → Post (λ a t. measure t ≤ measure s) (attributes_list f s)
unfolding attributes_list
attributes_list-Post f s h =
    choice-Post _ (text_eq (s.current.1) (b'[' ∷ [])) _ (ok (empty, s))
      (bind-Post _ _ (get_token punctuator s) _ (get_token-Post punctuator s refl) λ w t k.
        bind-Post _ _ (attributes_loop f t) _ (attributes_loop-Post f t (omega arith)) λ list u l.
          bind-Post _ _ (get_token punctuator u) _ (get_token-Post punctuator u refl)
            λ close v m. require-Post _ (text_eq close (b']' ∷ [])) _ v (omega arith))
      (omega arith)

node_statement-Post :
    (f : ℕ) (s : State)
    → measure s < f
    → Post (λ a t. measure t + size a ≤ measure s) (node_statement f s)
unfolding node_statement
node_statement-Post f s h =
    bind-Post _ _ (get_token_maybe identifier s) _ (get_token_maybe-Post identifier s refl) λ o t k.
      on_token-Post _ o _ _ t
        (λ w e.
          let one : found o ≡ 1 = rw e refl in
          bind-Post _ _ (attributes_list f t) _ (attributes_list-Post f t (omega arith))
            λ list u l. omega arith)
        (λ e. omega arith)

size-le : (a : Ast) → size a ≤ 1
size-le a = ground arith

statement-Post :
    (f n : ℕ) (s : State)
    → measure s < f
    → measure s < n
    → Post (λ a t. measure t + size a ≤ measure s) (statement f n s)
unfolding statement
statement-Post f zero s h k = absurd (omega arith)
statement-Post f (suc n) s h k =
    bind-Post _ _ (node_statement f s) _ (node_statement-Post f s h) λ left_node t l.
      bind-Post _ _ (get_token_maybe operator t) _ (get_token_maybe-Post operator t refl) λ o u m.
        on_token-Post _ o _ _ u
          (λ w e.
            let one : found o ≡ 1 = rw e refl in
            require-Post _ (mem w (direct_text ∷ undirect_text ∷ [])) _ u (
              bind-Post _ _ (statement f n u) _ (statement-Post f n u (omega arith) (omega arith))
                λ right v i. omega (arith, size-le (make_edge w left_node right))))
          (λ e. omega arith)

statement_list-Post :
    (f n : ℕ) (s : State)
    → measure s < f
    → measure s < n
    → Post (λ a t. measure t ≤ measure s) (statement_list f n s)
unfolding statement_list
statement_list-Post f zero s h k = absurd (omega arith)
statement_list-Post f (suc n) s h k =
    bind-Post _ _ (statement f f s) _ (statement-Post f f s h h) λ stmt t l.
      if-Post _ (is_empty stmt) (pure nil) _ t (λ e. omega arith)
        λ e. bind-Post _ _ (get_token punctuator t) _ (get_token-Post punctuator t refl) λ w u m.
          require-Post _ (text_eq w (b';' ∷ [])) _ u (
            bind-Post _ _ (statement_list f n u) _
              (statement_list-Post f n u (omega arith) (omega arith)) λ rest v i. omega arith)

graph-Post : (f : ℕ) (s : State) → measure s < f → Post (λ a t. Unit) (graph f s)
unfolding graph
graph-Post f s h = bind-Post _ _ (get_token keyword s) _ (get_token-Post keyword s refl) λ type t k.
    require-Post _ (mem type keywords) _ t (
      bind-Post _ _ (get_token identifier t) _ (get_token-Post identifier t refl) λ n u l.
        bind-Post _ _ (get_token punctuator u) _ (get_token-Post punctuator u refl)
          λ open_bracket v m. require-Post _ (text_eq open_bracket (b'{' ∷ [])) _ v (
            bind-Post _ _ (statement_list f f v) _
              (statement_list-Post f f v (omega arith) (omega arith))
              λ list w i.
                bind-Post _ _ (get_token punctuator w) _ (get_token-Post punctuator w refl)
                  λ close x j. require-Post _ (text_eq close (b'}' ∷ [])) _ x tt))

ended : (r : Result (Ast × State)) → Post (λ a t. Unit) r → r ≢ out_of_rounds
ended (ok (a, t)) h e = cc
ended unexpected_syntax h e = cc
ended out_of_rounds h e = h

-- Every text is parsed to a tree or refused with `unexpected_syntax`: the loops end, since each round reads a
-- token that is not `eof`, for which the lexical analyzer moves on.
pub parse-ends : (t : Text) → parse t ≢ out_of_rounds
unfolding parse start
parse-ends t =
    ended (parse t) (graph-Post (suc (length t)) (start t) (omega (arith, get_next_token-le t)))
