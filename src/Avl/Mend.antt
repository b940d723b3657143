-- ===== src/Avl/Mend.antt =====
-- container/tree/avl_tree-inl.hpp: the rotations after an insertion mend a tree.
use dsac.Prelude.{
  ℕ, suc, ◌+◌, ◌≡◌, ◌≢◌, ◌⊎◌, inl, inr, refl, sym, ap, ◌∙◌, subst, Bool, true, false, some, arith,
  max, Returns, ℕ_discrete,
}
use dsac.Sort.Order.{StrictWeak}
use dsac.Avl.{Tree, empty, node, depth, get_max_height, get_key, balancing_subtree}
use dsac.Avl.Balance.{
  IsBalanced, IsLeaning, Rotated, right_small, right_large, left_small, left_large, still,
}

module _ {ℓ} {T : Type ℓ} {less : T → T → Bool} (order : StrictWeak less) (added : T) where
  -- as deep as before, or one deeper and leaning to where `added` went
  unfoldable pub Deeper : ℕ → Tree T → Type 0
  Deeper n t = (depth t ≡ n) ⊎ ((depth t ≡ suc n) × IsLeaning less added t)

  pub record IsMended (n : ℕ) (t : Tree T) : Type 0 where
    pub balanced : IsBalanced t
    pub deeper : Deeper n t

  Rotated-IsMended : (n m : ℕ) (t : Tree T) → Rotated n t → n + 2 ≡ m → IsMended m t
  unfolding Deeper
  Rotated-IsMended n m t (b, d) e = record { balanced = b; deeper = inl (d ∙ e) }

  -- the left subtree is two deeper than the right one
  mend_left_heavy :
      (key lkey : T) (ll lr r : Tree T) (lh h m : ℕ)
      → IsBalanced (node lkey ll lr lh)
      → IsBalanced r
      → IsLeaning less added (node lkey ll lr lh)
      → depth (node lkey ll lr lh) ≡ depth r + 2
      → depth r + 2 ≡ m
      → Returns
          (balancing_subtree (less lkey added) (node key (node lkey ll lr lh) r h))
          (IsMended m)
  mend_left_heavy key lkey ll lr r lh h m bl br (inl (a, b)) tall e =
      let (bll, blr, e', d, d') = bl in absurd (omega arith)
  mend_left_heavy key lkey ll lr r lh h m bl br (inr (inl (before, lean))) tall e =
      let (t, run, rotated) = right_small key lkey ll lr r lh h bl br lean tall in
      (
        t,
        ap (λ c. balancing_subtree c (node key (node lkey ll lr lh) r h))
              (order.asymm added lkey before)
            ∙ run,
        Rotated-IsMended (depth r) m t rotated e,
      )
  mend_left_heavy key lkey ll (node mkey ml mr mh) r lh h m bl br (inr (inr (f, after, lean))) tall
        e =
      let (t, run, rotated) = right_large key lkey mkey ll ml mr r mh lh h bl br lean tall in
      (
        t,
        ap (λ c. balancing_subtree c (node key (node lkey ll (node mkey ml mr mh) lh) r h)) after
            ∙ run,
        Rotated-IsMended (depth r) m t rotated e,
      )
  mend_left_heavy key lkey ll empty r lh h m bl br (inr (inr (f, after, lean))) tall e =
      absurd (omega arith)

  mend_right_heavy :
      (key rkey : T) (l rl rr : Tree T) (rh h m : ℕ)
      → IsBalanced l
      → IsBalanced (node rkey rl rr rh)
      → IsLeaning less added (node rkey rl rr rh)
      → depth (node rkey rl rr rh) ≡ depth l + 2
      → depth l + 2 ≡ m
      → Returns
          (balancing_subtree (less added rkey) (node key l (node rkey rl rr rh) h))
          (IsMended m)
  mend_right_heavy key rkey l rl rr rh h m bl br (inl (a, b)) tall e =
      let (brl, brr, e', d, d') = br in absurd (omega arith)
  mend_right_heavy key rkey l rl rr rh h m bl br (inr (inr (f, after, lean))) tall e =
      let (t, run, rotated) = left_small key rkey l rl rr rh h bl br lean tall in
      (
        t,
        ap (λ c. balancing_subtree c (node key l (node rkey rl rr rh) h)) f ∙ run,
        Rotated-IsMended (depth l) m t rotated e,
      )
  mend_right_heavy key rkey l (node mkey ml mr mh) rr rh h m bl br (inr (inl (before, lean))) tall
        e =
      let (t, run, rotated) = left_large key rkey mkey l ml mr rr mh rh h bl br lean tall in
      (
        t,
        ap (λ c. balancing_subtree c (node key l (node rkey (node mkey ml mr mh) rr rh) h)) before
            ∙ run,
        Rotated-IsMended (depth l) m t rotated e,
      )
  mend_right_heavy key rkey l empty rr rh h m bl br (inr (inl (before, lean))) tall e =
      absurd (omega arith)

  pub mend_left :
      (key source : T) (l r new : Tree T) (h : ℕ)
      → IsBalanced (node key l r h)
      → less added key ≡ true
      → IsMended (depth l) new
      → get_key new ≡ some source
      → Returns (balancing_subtree (less source added) (node key new r h)) (IsMended (suc h))
  unfolding Deeper get_key
  mend_left key source l r empty h b before mended g = absurd (cc)
  mend_left key source l r (node ckey cl cr ch) h (bl, br, eh, le, re) before mended g =
      let new = node ckey cl cr ch in
      let e : ckey ≡ source = grind arith in
      subst (λ s. Returns (balancing_subtree (less s added) (node key new r h)) (IsMended (suc h)))
        e
        (elim (ℕ_discrete (depth new) (depth r + 2)) [
          | yes tall ↦ heavy tall mended.deeper
          | no n ↦ (
            node key new r (get_max_height new r),
            still (less ckey added) key new r h n (apart mended.deeper),
            record { balanced = balanced n mended.deeper; deeper = light n mended.deeper },
          )
        ])
    where
      heavy :
          depth (node ckey cl cr ch) ≡ depth r + 2
          → Deeper (depth l) (node ckey cl cr ch)
          → Returns
              (balancing_subtree (less ckey added) (node key (node ckey cl cr ch) r h))
              (IsMended (suc h))
      heavy tall (inl same) = absurd (omega arith)
      heavy tall (inr (grown, lean)) =
          mend_left_heavy key ckey cl cr r ch h (suc h) mended.balanced br lean tall (omega arith)

      apart : Deeper (depth l) (node ckey cl cr ch) → depth (node ckey cl cr ch) + 2 ≢ depth r
      apart (inl same) = omega arith
      apart (inr (grown, lean)) = omega arith

      balanced :
          depth (node ckey cl cr ch) ≢ depth r + 2
          → Deeper (depth l) (node ckey cl cr ch)
          → IsBalanced (node key (node ckey cl cr ch) r (max (ch + 1) (depth r)))
      balanced n (inl same) = (mended.balanced, br, refl, omega arith, omega arith)
      balanced n (inr (grown, lean)) = (mended.balanced, br, refl, omega arith, omega arith)

      light :
          depth (node ckey cl cr ch) ≢ depth r + 2
          → Deeper (depth l) (node ckey cl cr ch)
          → Deeper (suc h) (node key (node ckey cl cr ch) r (max (ch + 1) (depth r)))
      light n (inl same) = inl (omega arith)
      light n (inr (grown, lean)) = elim (ℕ_discrete (depth l) (depth r)) [
        | yes even ↦ inr (omega arith, inr (inl (before, omega arith)))
        | no odd ↦ inl (omega arith)
      ]

  pub mend_right :
      (key source : T) (l r new : Tree T) (h : ℕ)
      → IsBalanced (node key l r h)
      → less added key ≡ false
      → less key added ≡ true
      → IsMended (depth r) new
      → get_key new ≡ some source
      → Returns (balancing_subtree (less added source) (node key l new h)) (IsMended (suc h))
  unfolding Deeper get_key
  mend_right key source l r empty h b before after mended g = absurd (cc)
  mend_right key source l r (node ckey cl cr ch) h (bl, br, eh, le, re) before after mended g =
      let new = node ckey cl cr ch in
      let e : ckey ≡ source = grind arith in
      subst (λ s. Returns (balancing_subtree (less added s) (node key l new h)) (IsMended (suc h)))
        e
        (elim (ℕ_discrete (depth new) (depth l + 2)) [
          | yes tall ↦ heavy tall mended.deeper
          | no n ↦ (
            node key l new (get_max_height l new),
            still (less added ckey) key l new h (apart mended.deeper) (λ q. n (sym q)),
            record { balanced = balanced n mended.deeper; deeper = light n mended.deeper },
          )
        ])
    where
      heavy :
          depth (node ckey cl cr ch) ≡ depth l + 2
          → Deeper (depth r) (node ckey cl cr ch)
          → Returns
              (balancing_subtree (less added ckey) (node key l (node ckey cl cr ch) h))
              (IsMended (suc h))
      heavy tall (inl same) = absurd (omega arith)
      heavy tall (inr (grown, lean)) =
          mend_right_heavy key ckey l cl cr ch h (suc h) bl mended.balanced lean tall (omega arith)

      apart : Deeper (depth r) (node ckey cl cr ch) → depth l ≢ depth (node ckey cl cr ch) + 2
      apart (inl same) = omega arith
      apart (inr (grown, lean)) = omega arith

      balanced :
          depth (node ckey cl cr ch) ≢ depth l + 2
          → Deeper (depth r) (node ckey cl cr ch)
          → IsBalanced (node key l (node ckey cl cr ch) (max (depth l) (ch + 1)))
      balanced n (inl same) = (bl, mended.balanced, refl, omega arith, omega arith)
      balanced n (inr (grown, lean)) = (bl, mended.balanced, refl, omega arith, omega arith)

      light :
          depth (node ckey cl cr ch) ≢ depth l + 2
          → Deeper (depth r) (node ckey cl cr ch)
          → Deeper (suc h) (node key l (node ckey cl cr ch) (max (depth l) (ch + 1)))
      light n (inl same) = inl (omega arith)
      light n (inr (grown, lean)) = elim (ℕ_discrete (depth l) (depth r)) [
        | yes even ↦ inr (omega arith, inr (inr (before, after, omega arith)))
        | no odd ↦ inl (omega arith)
      ]
