-- ===== src/Bfs/Queue.antt =====
-- algorithm/breadth_first_search.hpp: the nodes that were visited, and those that wait in the queue.
use dsac.Prelude.{
  ℕ, ◌+◌, ◌<◌, ◌≡◌, ◌⊎◌, inl, inr, refl, sym, ap, ◌∙◌, subst, true, false, List, [], ◌∷◌, ◌++◌,
  Option, arith, length, length-append, ◌==◌, ◌||◌, Bool-cases,
}
use dsac.Bfs.{Queued, has, expand, is_node}
use dsac.Bfs.Expand.{not-has-nil, has-snoc, has-cons, unseen, unseen-cons, has_key, IsChain}

module _ (n : ℕ) (edges : ℕ → List ℕ) (source : ℕ) (destination : Option ℕ) where
  -- a node that was taken from the queue: not the destination, and all its edges were followed
  abbrev pub IsDone : ℕ → List ℕ → Type 0
  IsDone x visited =
      (is_node destination x ≡ false) × ((y : ℕ) → has y (edges x) ≡ true → has y visited ≡ true)

  -- Each visited node is in the queue, or done, or is among the exempt ones.
  pub record IsQueued (exempt : ℕ → Type 0) (s : Queued) : Type 0 where
    pub chain : IsChain edges source s.possible_actions
    pub keys : (x : ℕ) → has_key x s.possible_actions ≡ has x s.visited
    pub queued : (x : ℕ) → has x s.processing ≡ true → has x s.visited ≡ true
    pub below : (x : ℕ) → has x s.visited ≡ true → x < n
    pub closed :
        (x : ℕ)
        → has x s.visited ≡ true
        → (has x s.processing ≡ true) ⊎ (exempt x ⊎ IsDone x s.visited)

  IsChain-cons :
      (k v : ℕ) (actions : List (ℕ × ℕ))
      → IsChain edges source actions
      → has_key k actions ≡ false
      → has_key v actions ≡ true
      → has k (edges v) ≡ true
      → IsChain edges source ((k, v) ∷ actions)
  IsChain-cons k v [] chain new old there = absurd chain
  IsChain-cons k v (a ∷ actions) chain new old there = (new, old, there, chain)

  -- a node at the end of an edge of `c` that was not visited
  visit-IsQueued :
      (c to : ℕ) (exempt : ℕ → Type 0) (s : Queued)
      → IsQueued exempt s
      → has c s.visited ≡ true
      → has to (edges c) ≡ true
      → to < n
      → has to s.visited ≡ false
      → IsQueued exempt (record {
        processing = s.processing ++ to ∷ [];
        visited = to ∷ s.visited;
        possible_actions = (to, c) ∷ s.possible_actions;
      })
  visit-IsQueued c to exempt s h seen there lt new = record {
    chain = IsChain-cons to c s.possible_actions h.chain (h.keys to ∙ new) (h.keys c ∙ seen) there;
    keys = λ x. ap (λ b. to == x || b) (h.keys x) ∙ sym (has-cons x to s.visited);
    queued = λ x q. ground (arith, has-snoc x to s.processing, has-cons x to s.visited, h.queued x);
    below = λ x q. ground (arith, has-cons x to s.visited, h.below x);
    closed = λ x q. close x q (Bool-cases (to == x));
  }
    where
      close :
          (x : ℕ)
          → has x (to ∷ s.visited) ≡ true
          → (to == x ≡ true) ⊎ (to == x ≡ false)
          → (has x (s.processing ++ to ∷ []) ≡ true) ⊎ (exempt x ⊎ IsDone x (to ∷ s.visited))
      close x q (inl e) = inl (has-snoc x to s.processing ∙ ground (arith, e))
      close x q (inr e) = elim (h.closed x (ground (arith, has-cons x to s.visited, q, e))) [
        | inl waiting ↦ inl (has-snoc x to s.processing ∙ ground (arith, waiting))
        | inr (inl ex) ↦ inr (inl ex)
        | inr (inr (other, all)) ↦
            inr (inr (other, λ y there. has-cons y to s.visited ∙ ground (arith, all y there)))
      ]

  -- what the loop over the edges `tos` of `c` makes of the state
  pub record IsExpanded (tos : List ℕ) (exempt : ℕ → Type 0) (s s' : Queued) : Type 0 where
    pub again : IsQueued exempt s'
    pub all_seen : (y : ℕ) → has y tos ≡ true → has y s'.visited ≡ true
    pub still_seen : (y : ℕ) → has y s.visited ≡ true → has y s'.visited ≡ true
    pub same_left :
        unseen n s'.visited + length s'.processing ≡ unseen n s.visited + length s.processing

  pub expand-IsExpanded :
      (c : ℕ) (tos : List ℕ) (exempt : ℕ → Type 0) (s : Queued)
      → IsQueued exempt s
      → has c s.visited ≡ true
      → ((y : ℕ) → has y tos ≡ true → (has y (edges c) ≡ true) × (y < n))
      → IsExpanded tos exempt s (expand c tos s)
  unfolding expand
  expand-IsExpanded c [] exempt s h seen there = record {
    again = h;
    all_seen = λ y q. absurd (not-has-nil y q);
    still_seen = λ y q. q;
    same_left = refl;
  }
  expand-IsExpanded c (to ∷ tos) exempt s h seen there = elim (Bool-cases (has to s.visited)) [
    | inl old ↦
        let rest =
          expand-IsExpanded c tos exempt s h seen
            (λ y q. there y (has-cons y to tos ∙ ground (arith, q))) in
        rw old (record {
          again = rest.again;
          all_seen = λ y q.
              either y (expand c tos s) (Bool-cases (to == y)) q rest.all_seen
                (rest.still_seen to old);
          still_seen = rest.still_seen;
          same_left = rest.same_left;
        })
    | inr new ↦
        let (edge, lt) = there to (has-cons to to tos ∙ ground arith) in
        let s1 : Queued = record {
          processing = s.processing ++ to ∷ [];
          visited = to ∷ s.visited;
          possible_actions = (to, c) ∷ s.possible_actions;
        } in
        let h1 = visit-IsQueued c to exempt s h seen edge lt new in
        let rest =
          expand-IsExpanded c tos exempt s1 h1 (has-cons c to s.visited ∙ ground (arith, seen))
            (λ y q. there y (has-cons y to tos ∙ ground (arith, q))) in
        rw new (record {
          again = rest.again;
          all_seen = λ y q.
              either y (expand c tos s1) (Bool-cases (to == y)) q rest.all_seen
                (rest.still_seen to (has-cons to to s.visited ∙ ground arith));
          still_seen = λ y q. rest.still_seen y (has-cons y to s.visited ∙ ground (arith, q));
          same_left = omega (
            arith,
            rest.same_left,
            unseen-cons n to s.visited lt new,
            length-append s.processing (to ∷ []),
          );
        })
  ]
    where
      either :
          (y : ℕ) (s' : Queued)
          → (to == y ≡ true) ⊎ (to == y ≡ false)
          → has y (to ∷ tos) ≡ true
          → ((z : ℕ) → has z tos ≡ true → has z s'.visited ≡ true)
          → has to s'.visited ≡ true
          → has y s'.visited ≡ true
      either y s' (inl e) q all one =
          let same : to ≡ y = ground (arith, e) in subst (λ k. has k s'.visited ≡ true) same one
      either y s' (inr e) q all one = all y (ground (arith, has-cons y to tos, q, e))
