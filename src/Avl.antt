-- ===== src/Avl.antt =====
-- container/tree/avl_tree.hpp and container/tree/avl_tree-inl.hpp. Each node has one owner, so that a
-- pointer to a node is the tree below it; a null pointer that is used is the fault `none`.
pub mod Balance
pub mod Mend
pub mod Insert
pub mod Order
pub mod Place
pub mod Keys
pub mod Ordered
pub mod Delete
pub mod Removal
pub mod Total
use dsac.Prelude.{
  ℕ, ◌+◌, Bool, true, false, List, [], ◌∷◌, ◌++◌, Option, none, some, max, ◌==◌, if◌then◌else◌,
  ◌>>=◌, ◌||◌,
}

-- `class Node`, or a null pointer
pub data Tree {ℓ} (T : Type ℓ) : Type ℓ where
  empty : Tree T
  node : T → Tree T → Tree T → ℕ → Tree T

module _ {ℓ} {T : Type ℓ} where
  -- `subtree == nullptr ? 0 : subtree->GetHeight() + 1`
  abbrev pub depth : Tree T → ℕ
  depth empty = 0
  depth (node key left right height) = height + 1

  abbrev pub get_max_height : Tree T → Tree T → ℕ
  get_max_height left right = max (depth left) (depth right)

  -- the constructor `Node(T key)`
  abbrev pub leaf : T → Tree T
  leaf key = node key empty empty 0

  unfoldable pub get_key : Tree T → Option T
  get_key empty = none
  get_key (node key left right height) = some key

  unfoldable pub small_left_rotation : Tree T → Option (Tree T)
  small_left_rotation (node key left (node rkey rleft rright rheight) height) =
      let subtree = node key left rleft (get_max_height left rleft) in
      some (node rkey subtree rright (get_max_height subtree rright))
  small_left_rotation (node key left empty height) = none
  small_left_rotation empty = none

  unfoldable pub small_right_rotation : Tree T → Option (Tree T)
  small_right_rotation (node key (node lkey lleft lright lheight) right height) =
      let subtree = node key lright right (get_max_height lright right) in
      some (node lkey lleft subtree (get_max_height lleft subtree))
  small_right_rotation (node key empty right height) = none
  small_right_rotation empty = none

  unfoldable pub large_left_rotation : Tree T → Option (Tree T)
  unfolding small_left_rotation small_right_rotation
  large_left_rotation empty = none
  large_left_rotation (node key left right height) =
      small_right_rotation right >>= λ r. small_left_rotation (node key left r height)

  unfoldable pub large_right_rotation : Tree T → Option (Tree T)
  unfolding small_left_rotation small_right_rotation
  large_right_rotation empty = none
  large_right_rotation (node key left right height) =
      small_left_rotation left >>= λ l. small_right_rotation (node key l right height)

  -- `subtree->SetHeight(GetMaxHeight(...))`
  unfoldable pub update_height : Tree T → Option (Tree T)
  update_height empty = none
  update_height (node key left right height) =
      some (node key left right (get_max_height left right))

  -- The rotations of `BalancingSubtree`; `inner` is `comp(destination_key, source_key)`.
  unfoldable pub rotate : Bool → Tree T → Option (Tree T)
  unfolding large_left_rotation large_right_rotation
  rotate inner empty = none
  rotate inner (node key left right height) =
      if depth left + 2 == depth right
      then (if inner
          then large_left_rotation (node key left right height)
          else small_left_rotation (node key left right height))
      else if depth left == depth right + 2
      then (if inner
          then large_right_rotation (node key left right height)
          else small_right_rotation (node key left right height))
      else some (node key left right height)

  unfoldable pub balancing_subtree : Bool → Tree T → Option (Tree T)
  unfolding rotate update_height
  balancing_subtree inner subtree = rotate inner subtree >>= update_height

  -- `Visit`: the keys in the order of the visits
  unfoldable pub visit : Tree T → List T
  visit empty = []
  visit (node key left right height) = visit left ++ key ∷ visit right

  -- `DeleteMinChild` and `FindMinChild`
  unfoldable pub delete_min_child : Tree T → Option (Tree T)
  delete_min_child empty = none
  delete_min_child (node key empty right height) = some right
  delete_min_child (node key (node lkey lleft lright lheight) right height) = do
    left ← delete_min_child (node lkey lleft lright lheight)
    some (node key left right height)

  unfoldable pub find_min_child : Tree T → Option (T × ℕ)
  find_min_child empty = none
  find_min_child (node key empty right height) = some (key, height)
  find_min_child (node key (node lkey lleft lright lheight) right height) =
      find_min_child (node lkey lleft lright lheight)

  -- the node that takes the place of the one that is deleted
  unfoldable pub delete_root : Tree T → Tree T → Option (Tree T)
  unfolding find_min_child delete_min_child
  delete_root left empty = some left
  delete_root left (node rkey rleft rright rheight) = do
    (min_key, min_height) ← find_min_child (node rkey rleft rright rheight)
    right ← delete_min_child (node rkey rleft rright rheight)
    some (node min_key left right min_height)

-- `less` is `operator<` of the keys, `greater` the other way round.
module _ {ℓ} {T : Type ℓ} (less : T → T → Bool) where
  unfoldable pub insert_impl : T → Tree T → Option (Bool × Tree T)
  unfolding balancing_subtree get_key
  insert_impl added empty = some (true, leaf added)
  insert_impl added (node key left right height) = elim (less added key) [
    | true ↦ do
      (is_added, l) ← insert_impl added left
      elim is_added [
        | true ↦ do
          source ← get_key l
          t ← balancing_subtree (less source added) (node key l right height)
          some (true, t)
        | false ↦ some (false, node key l right height)
      ]
    | false ↦ elim (less key added) [
      | true ↦ do
        (is_added, r) ← insert_impl added right
        elim is_added [
          | true ↦ do
            source ← get_key r
            t ← balancing_subtree (less added source) (node key left r height)
            some (true, t)
          | false ↦ some (false, node key left r height)
        ]
      | false ↦ some (false, node key left right height)
    ]
  ]

module _ {ℓ} {T : Type ℓ} (less : T → T → Bool) where
  unfoldable pub delete_impl : T → Tree T → Option (Tree T)
  unfolding delete_root balancing_subtree
  delete_impl deleted empty = some empty
  delete_impl deleted (node key left right height) = elim (less deleted key) [
    | true ↦ do
      l ← delete_impl deleted left
      balancing_subtree (less key deleted) (node key l right height)
    | false ↦ elim (less key deleted) [
      | true ↦ do
        r ← delete_impl deleted right
        balancing_subtree (less deleted key) (node key left r height)
      | false ↦ delete_root left right
    ]
  ]

  -- `Delete`
  abbrev pub delete_key : T → Tree T → Option (Tree T)
  delete_key deleted_key root = delete_impl deleted_key root

-- `equal` is `operator==` of the keys.
module _ {ℓ} {T : Type ℓ} (less equal : T → T → Bool) where
  -- `Contains` looks through the whole tree
  unfoldable pub contains : T → Tree T → Bool
  contains key empty = false
  contains key (node k left right height) =
      if equal key k then true else contains key left || contains key right

  unfoldable pub insert : T → Tree T → Option (Bool × Tree T)
  unfolding contains insert_impl
  insert added_key root = elim (contains added_key root) [
    | true ↦ some (false, root)
    | false ↦ insert_impl less added_key root
  ]
