-- ===== src/DisjointSet.antt =====
-- container/graph/disjoint_set_union.*. The loops of `Find` take the rounds that may be left, as many as there
-- are vertices and one more; `none` is an access outside the vector, or too few rounds.
pub mod Forest
pub mod Find
pub mod Connected
pub mod Joining
pub mod Union
pub mod Run
use dsac.Prelude.{
  ℕ, zero, suc, Bool, true, false, List, [], ◌∷◌, Option, none, some, length, get_elem?, ltb, ◌==◌,
  ◌>>=◌,
}
use dsac.Prelude.Arrays.{write}

abbrev pub from : ℕ → ℕ → List ℕ
from zero i = []
from (suc n) i = i ∷ from n (suc i)

-- the constructor, with `std::iota`
unfoldable pub make : ℕ → List ℕ
make size = from size 0

-- the first loop of `Find`
unfoldable pub find_parent : ℕ → ℕ → List ℕ → Option ℕ
find_parent zero vertex parents = none
find_parent (suc n) vertex parents = get_elem? parents vertex >>= λ parent.
    elim (parent == vertex) [ true ↦ some parent | false ↦ find_parent n parent parents ]

-- the second loop of `Find`
unfoldable pub compress : ℕ → ℕ → ℕ → List ℕ → Option (List ℕ)
compress zero vertex parent parents = none
compress (suc n) vertex parent parents = get_elem? parents vertex >>= λ old_parent.
    elim (old_parent == parent) [
      | true ↦ some parents
      | false ↦ write parents vertex parent >>= compress n old_parent parent
    ]

-- an answer, or the exception `DisjointSetOutOfRange`
pub data Answer (A : Type 0) : Type 0 where
  returned : A → List ℕ → Answer A
  out_of_range : Answer A

unfoldable pub find : ℕ → List ℕ → Option (Answer ℕ)
unfolding find_parent compress
find vertex parents = elim (ltb vertex (length parents)) [
  | false ↦ some out_of_range
  | true ↦ do
    parent ← find_parent (suc (length parents)) vertex parents
    parents' ← compress (suc (length parents)) vertex parent parents
    some (returned parent parents')
]

abbrev pub on_answer :
    {A B : Type 0} → Option (Answer A) → (A → List ℕ → Option (Answer B)) → Option (Answer B)
on_answer none f = none
on_answer (some out_of_range) f = some out_of_range
on_answer (some (returned a parents)) f = f a parents

unfoldable pub is_connected : ℕ → ℕ → List ℕ → Option (Answer Bool)
unfolding find
is_connected vertex1 vertex2 parents = on_answer (find vertex1 parents) λ parent1 parents1.
    on_answer (find vertex2 parents1)
      λ parent2 parents2. some (returned (parent1 == parent2) parents2)

unfoldable pub union : ℕ → ℕ → List ℕ → Option (Answer (Unit {0}))
unfolding is_connected find
union vertex1 vertex2 parents =
    on_answer (is_connected vertex1 vertex2 parents) λ connected parents0. elim connected [
      | true ↦ some (returned tt parents0)
      | false ↦ on_answer (find vertex1 parents0) λ parent1 parents1.
          on_answer (find vertex2 parents1) λ parent2 parents2.
            write parents2 parent2 parent1 >>= λ parents3. some (returned tt parents3)
    ]
