-- ===== src/Avl/Removal.antt =====
-- container/tree/avl_tree-inl.hpp: which key `DeleteImpl` removes from a tree whose visited keys increase.
use dsac.Prelude.{
  ◌≡◌, ◌⊎◌, refl, sym, ap, ◌∙◌, subst, false, List, ◌∷◌, ◌++◌, some, arith, bind-some, Bool,
  Bool-cases, inl, inr, All,
}
use dsac.Sort.Order.{StrictWeak}
use dsac.Avl.{Tree, empty, node, balancing_subtree, delete_impl, visit}
use dsac.Avl.Keys.{
  All-imp, less_trans, less-later, IsIncreasing-right, IsIncreasing-left, IsIncreasing-tail,
  less-earlier,
}
use dsac.Avl.Order.{balancing_subtree-Keeps}
use dsac.Avl.Place.{IsIncreasing}
use dsac.Avl.Delete.{
  IsApart, IsRemoved, IsRemoved-left, IsRemoved-right, delete_root-visit, run_left, run_right,
  run_here,
}

module _ {ℓ} {T : Type ℓ} {less : T → T → Bool} (order : StrictWeak less) where
  -- Where `DeleteImpl` of a tree whose visited keys are increasing returns, the keys are visited as before, and
  -- all are less or greater than the key to delete, or as before but for one, which is neither.
  pub delete_impl-IsRemoved :
      (deleted : T) (t t' : Tree T)
      → IsIncreasing less (visit t)
      → delete_impl less deleted t ≡ some t'
      → ((visit t' ≡ visit t) × All (IsApart less deleted) (visit t))
        ⊎ ((key : T) × (front : List T) × (back : List T) × (less deleted key ≡ false)
            × (less key deleted ≡ false)
            × (visit t ≡ front ++ key ∷ back)
            × (visit t' ≡ front ++ back))
  unfolding IsRemoved delete_impl visit
  delete_impl-IsRemoved deleted empty t' h run =
      let e : empty ≡ t' = grind arith in inl (ap visit (sym e), tt)
  delete_impl-IsRemoved deleted (node key l r h) t' inc run =
      let right = IsIncreasing-right order (visit l) (visit r) key inc in
      let over = less-later order key (visit r) right in
      let under = less-earlier order (visit l) (visit r) key inc in
      elim (Bool-cases (less deleted key)) [
        | inl before ↦
            let (l', child, rest) =
              bind-some (delete_impl less deleted l)
                (λ l'. balancing_subtree (less key deleted) (node key l' r h)) t'
                (sym (run_left less deleted key l r h before) ∙ run) in
            let same = balancing_subtree-Keeps (less key deleted) (node key l' r h) t' rest in
            subst (IsRemoved less deleted (visit l ++ key ∷ visit r)) (sym same) (
              IsRemoved-left less deleted key (visit l) (visit l') (visit r)
                (
                  inl before,
                  All-imp (λ k lt. inl (less_trans order deleted key k before lt)) (visit r) over,
                )
                (delete_impl-IsRemoved deleted l l'
                  (IsIncreasing-left order (visit l) (visit r) key inc) child))
        | inr not_before ↦ elim (Bool-cases (less key deleted)) [
          | inl after ↦
              let (r', child, rest) =
                bind-some (delete_impl less deleted r)
                  (λ r'. balancing_subtree (less deleted key) (node key l r' h)) t'
                  (sym (run_right less deleted key l r h not_before after) ∙ run) in
              let same = balancing_subtree-Keeps (less deleted key) (node key l r' h) t' rest in
              subst (IsRemoved less deleted (visit l ++ key ∷ visit r)) (sym same) (
                IsRemoved-right less deleted key (visit l) (visit r) (visit r')
                  (All-imp (λ k lt. inr (less_trans order k key deleted lt after)) (visit l) under)
                  (inr after)
                  (delete_impl-IsRemoved deleted r r' (IsIncreasing-tail order key (visit r) right)
                    child))
          | inr not_after ↦ inr (
            key,
            visit l,
            visit r,
            not_before,
            not_after,
            refl,
            delete_root-visit less l r t'
                (sym (run_here less deleted key l r h not_before not_after) ∙ run),
          )
        ]
      ]
