-- ===== src/Bfs/Search.antt =====
-- algorithm/breadth_first_search.hpp: the loop over the queue ends, and what it has found then.
use dsac.Prelude.{
  ℕ, zero, suc, ◌+◌, ◌<◌, ◌≡◌, ◌⊎◌, inl, inr, refl, sym, ap, ◌∙◌, subst, Bool, true, false, List,
  [], ◌∷◌, Option, none, some, arith, length, ◌==◌, ◌||◌, Bool-cases,
}
use dsac.Bfs.{Queued, has, expand, is_node, search}
use dsac.Bfs.Expand.{not-has-nil, has-cons, unseen, has_key, IsChain}
use dsac.Bfs.Queue.{IsDone, IsQueued, expand-IsExpanded}

is_node-some : (o : Option ℕ) (c : ℕ) → is_node o c ≡ true → o ≡ some c
is_node-some none c f = absurd (ground arith)
is_node-some (some d) c f = let same : c ≡ d = ground arith in ap some (sym same)

module _ (n : ℕ) (edges : ℕ → List ℕ) (source : ℕ) (destination : Option ℕ) where
  search-found :
      (k : ℕ) (s : Queued) (c : ℕ) (rest : List ℕ)
      → s.processing ≡ c ∷ rest
      → is_node destination c ≡ true
      → search edges destination (suc k) s ≡ some (true, s.possible_actions)
  unfolding search
  search-found k s c rest e f = rw (e, f) refl

  search-next :
      (k : ℕ) (s : Queued) (c : ℕ) (rest : List ℕ)
      → s.processing ≡ c ∷ rest
      → is_node destination c ≡ false
      → search edges destination (suc k) s
        ≡ search edges destination k (expand c (edges c) (record s { processing = rest }))
  unfolding search
  search-next k s c rest e f = rw (e, f) refl

  -- the first node of the queue is taken
  taken-IsQueued :
      (s : Queued) (c : ℕ) (rest : List ℕ)
      → s.processing ≡ c ∷ rest
      → IsQueued n edges source destination (λ x. ⊥) s
      → IsQueued n edges source destination (λ x. x ≡ c) (record s { processing = rest })
  taken-IsQueued s c rest e h = record {
    chain = h.chain;
    keys = h.keys;
    queued = λ x q. h.queued x (front x ∙ ground (arith, q));
    below = h.below;
    closed = λ x q. close x (h.closed x q) (Bool-cases (c == x));
  }
    where
      front : (x : ℕ) → has x s.processing ≡ ((c == x) || has x rest)
      front x = ap (has x) e ∙ has-cons x c rest

      close :
          (x : ℕ)
          → (has x s.processing ≡ true) ⊎ (⊥ ⊎ IsDone n edges source destination x s.visited)
          → (c == x ≡ true) ⊎ (c == x ≡ false)
          → (has x rest ≡ true) ⊎ ((x ≡ c) ⊎ IsDone n edges source destination x s.visited)
      close x (inl waiting) (inl same) = inr (inl (ground (arith, same)))
      close x (inl waiting) (inr other) = inl (ground (arith, front x, waiting, other))
      close x (inr (inl never)) cases = absurd never
      close x (inr (inr all)) cases = inr (inr all)

  -- the exempt node was expanded
  settled :
      (s : Queued) (c : ℕ)
      → IsQueued n edges source destination (λ x. x ≡ c) s
      → IsDone n edges source destination c s.visited
      → IsQueued n edges source destination (λ x. ⊥) s
  settled s c h all = record {
    chain = h.chain;
    keys = h.keys;
    queued = h.queued;
    below = h.below;
    closed = λ x q. close x (h.closed x q);
  }
    where
      close :
          (x : ℕ)
          → (has x s.processing ≡ true) ⊎ ((x ≡ c) ⊎ IsDone n edges source destination x s.visited)
          → (has x s.processing ≡ true) ⊎ (⊥ ⊎ IsDone n edges source destination x s.visited)
      close x (inl waiting) = inl waiting
      close x (inr (inl same)) =
          inr (inr (subst (λ k. IsDone n edges source destination k s.visited) (sym same) all))
      close x (inr (inr done)) = inr (inr done)

  -- the search ends at the destination, or with all nodes that it reaches done
  abbrev pub IsFound : Option (Bool × List (ℕ × ℕ)) → Type 0
  IsFound r =
      ((d : ℕ) × (actions : List (ℕ × ℕ)) × (destination ≡ some d)
        × (r ≡ some (true, actions))
        × IsChain edges source actions
        × (has_key d actions ≡ true))
      ⊎ ((actions : List (ℕ × ℕ)) × (visited : List ℕ) × (r ≡ some (false, actions))
          × (has source visited ≡ true)
          × ((x : ℕ) → has x visited ≡ true → IsDone n edges source destination x visited))

  search-empty :
      (k : ℕ) (s : Queued)
      → s.processing ≡ []
      → search edges destination (suc k) s ≡ some (false, s.possible_actions)
  unfolding search
  search-empty k s e = rw e refl

  all-IsDone :
      (s : Queued)
      → IsQueued n edges source destination (λ x. ⊥) s
      → s.processing ≡ []
      → (x : ℕ) → has x s.visited ≡ true
      → IsDone n edges source destination x s.visited
  all-IsDone s h e x q = close (h.closed x q)
    where
      close :
          (has x s.processing ≡ true) ⊎ (⊥ ⊎ IsDone n edges source destination x s.visited)
          → IsDone n edges source destination x s.visited
      close (inl waiting) = absurd (not-has-nil x (sym (ap (has x) e) ∙ waiting))
      close (inr (inl never)) = absurd never
      close (inr (inr done)) = done

  -- where the loop stands with its queue known, given the rounds that follow
  search_queue-IsFound :
      (k : ℕ) (s : Queued) (l : List ℕ)
      → s.processing ≡ l
      → ((x y : ℕ) → has y (edges x) ≡ true → y < n)
      → IsQueued n edges source destination (λ x. ⊥) s
      → has source s.visited ≡ true
      → unseen n s.visited + length s.processing < suc k
      → ((s2 : Queued)
          → IsQueued n edges source destination (λ x. ⊥) s2
          → has source s2.visited ≡ true
          → unseen n s2.visited + length s2.processing < k
          → IsFound (search edges destination k s2))
      → IsFound (search edges destination (suc k) s)
  search_queue-IsFound k s [] e inside h seen lt again =
      inr (s.possible_actions, s.visited, search-empty k s e, seen, all-IsDone s h e)
  search_queue-IsFound k s (c ∷ rest) e inside h seen lt again =
      let c_seen = h.queued c (ap (has c) e ∙ has-cons c c rest ∙ ground arith) in
      elim (Bool-cases (is_node destination c)) [
        | inl f ↦ inl (
          c,
          s.possible_actions,
          is_node-some destination c f,
          search-found k s c rest e f,
          h.chain,
          h.keys c ∙ c_seen,
        )
        | inr f ↦
            let s1 : Queued = record s { processing = rest } in
            let x =
              expand-IsExpanded n edges source destination c (edges c) (λ y. y ≡ c) s1
                (taken-IsQueued s c rest e h) c_seen (λ y q. (q, inside c y q)) in
            let s2 = expand c (edges c) s1 in
            subst IsFound (sym (search-next k s c rest e f)) (
              again s2 (settled s2 c x.again (f, x.all_seen)) (x.still_seen source seen)
                (omega (arith, x.same_left, ap length e)))
      ]

  pub search-IsFound :
      (k : ℕ) (s : Queued)
      → ((x y : ℕ) → has y (edges x) ≡ true → y < n)
      → IsQueued n edges source destination (λ x. ⊥) s
      → has source s.visited ≡ true
      → unseen n s.visited + length s.processing < k
      → IsFound (search edges destination k s)
  search-IsFound zero s inside h seen lt = absurd (omega arith)
  search-IsFound (suc k) s inside h seen lt =
      search_queue-IsFound k s s.processing refl inside h seen lt (λ s2. search-IsFound k s2 inside)
