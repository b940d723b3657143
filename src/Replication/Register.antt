-- ===== src/Replication/Register.antt =====
-- domain/register.hpp, domain/register.cpp and infrastructure/inmemory/detail/register.cpp: the
-- register of one node. The mutex makes each method one step.
pub mod Laws
use dsac.Prelude.{
  ℕ, Bool, true, false, ◌&&◌, not, Option, none, some, ltb, ◌==◌, if◌then◌else◌, ◌||◌,
}
use dsac.Prelude.Int.{ℤ, eqbℤ}

-- `class register_value_object`: an `int32_t` that is only copied and compared, and a `size_t`
pub record RegisterValueObject : Type 0 where
  pub value : ℤ
  pub timestamp : ℕ

-- `operator>`
abbrev pub newer : RegisterValueObject → RegisterValueObject → Bool
newer lhs rhs = ltb rhs.timestamp lhs.timestamp

-- `operator==`
abbrev pub equal : RegisterValueObject → RegisterValueObject → Bool
equal lhs rhs = lhs.timestamp == rhs.timestamp && eqbℤ lhs.value rhs.value

-- `std::optional<register_value_object> register_`
abbrev pub Register : Type 0
Register = Option RegisterValueObject

-- `register_->get_timestamp().get() < new_register.get_timestamp().get()`, false if not set
is_register_olden : Register → RegisterValueObject → Bool
is_register_olden none new_register = false
is_register_olden (some old) new_register = ltb old.timestamp new_register.timestamp

is_register_setup : Register → Bool
is_register_setup none = false
is_register_setup (some _) = true

unfoldable pub write : RegisterValueObject → Register → Register
unfolding is_register_olden is_register_setup
write new_register register =
    if not (is_register_setup register) || is_register_olden register new_register
    then some new_register
    else register

unfoldable pub read : Register → Option RegisterValueObject
read register = register

unfoldable pub reset : Register → Register
reset register = none
