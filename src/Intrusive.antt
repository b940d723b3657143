-- ===== src/Intrusive.antt =====
-- container/intrusive/list.hpp and container/intrusive/detail/list-inl.hpp: nodes that hold the links
-- of a circular list. The memory is a function from addresses to nodes, a null pointer is `none`, and
-- its use is the fault `none`.
pub mod Chain
pub mod Attach
pub mod Detach
pub mod Pop
use dsac.Prelude.{ℕ, Bool, true, false, Option, none, some, ◌==◌, if◌then◌else◌, ◌>>=◌}

-- `struct list_node_base`
pub record Node : Type 0 where
  pub prev : Option ℕ
  pub next : Option ℕ

abbrev pub Memory : Type 0
Memory = ℕ → Node

unfoldable pub get_prev : ℕ → Memory → Option ℕ
get_prev this m = (m this).prev

unfoldable pub get_next : ℕ → Memory → Option ℕ
get_next this m = (m this).next

unfoldable pub set_next : ℕ → Option ℕ → Memory → Memory
set_next this next m = λ a. if a == this then record (m a) { next = next } else m a

unfoldable pub set_prev : ℕ → Option ℕ → Memory → Memory
set_prev this prev m = λ a. if a == this then record (m a) { prev = prev } else m a

-- `attach`: `std::exchange` reads `next->prev_` before it is overwritten
unfoldable pub attach : ℕ → ℕ → Memory → Option Memory
unfolding get_prev set_prev set_next
attach this next m = do
  prev ← get_prev next m
  some (
      set_next this (some next)
        (set_next prev (some this) (set_prev this (some prev) (set_prev next (some this) m))))

-- `if (nullptr != next_) next_->prev_ = prev_;`
unfoldable pub unlink_next : ℕ → Memory → Memory
unfolding get_prev get_next set_prev
unlink_next this m = elim (get_next this m) [
  | none ↦ m
  | some next ↦ set_prev next (get_prev this m) m
]

-- `if (nullptr != prev_) prev_->next_ = next_;`
unfoldable pub unlink_prev : ℕ → Memory → Memory
unfolding get_prev get_next set_next
unlink_prev this m = elim (get_prev this m) [
  | none ↦ m
  | some prev ↦ set_next prev (get_next this m) m
]

unfoldable pub detach : ℕ → Memory → Memory
unfolding unlink_next unlink_prev set_next set_prev
detach this m = set_next this none (set_prev this none (unlink_prev this (unlink_next this m)))

-- The methods of `list`, with the address of `storage_`.
unfoldable pub make : ℕ → Memory → Memory
unfolding set_next set_prev
make storage m = set_prev storage (some storage) (set_next storage (some storage) m)

is_address : ℕ → Option ℕ → Bool
is_address a none = false
is_address a (some b) = b == a

unfoldable pub empty : ℕ → Memory → Bool
unfolding is_address get_next
empty storage m = is_address storage (get_next storage m)

unfoldable pub push_back : ℕ → ℕ → Memory → Option Memory
unfolding attach
push_back storage next m = attach next storage m

unfoldable pub push_front : ℕ → ℕ → Memory → Option Memory
unfolding attach get_next
push_front storage next m = get_next storage m >>= λ first. attach next first m

unfoldable pub pop_front : ℕ → Memory → Option (Option ℕ × Memory)
unfolding empty get_next detach
pop_front storage m =
    if empty storage m
    then some (none, m)
    else get_next storage m >>= λ front. some (some front, detach front m)

unfoldable pub pop_back : ℕ → Memory → Option (Option ℕ × Memory)
unfolding empty get_prev detach
pop_back storage m =
    if empty storage m
    then some (none, m)
    else get_prev storage m >>= λ back. some (some back, detach back m)
