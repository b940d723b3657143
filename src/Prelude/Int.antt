-- ===== src/Prelude/Int.antt =====
-- The signed integers, `negsuc n` for -(n + 1), and their comparison.
use Prim.Native.Nat.{ℕ}
use mathlib.Core.Path.{◌≡◌}
use mathlib.Core.Bool.{Bool, true, false}
use native.Mathlib.Omega.{arith}
use dsac.Prelude.Tests.{ltb, ◌==◌}

pub data ℤ : Type 0 where
  pos : ℕ → ℤ
  negsuc : ℕ → ℤ

-- `a < b`
abbrev pub ltbℤ : ℤ → ℤ → Bool
ltbℤ (pos a) (pos b) = ltb a b
ltbℤ (pos a) (negsuc b) = false
ltbℤ (negsuc a) (pos b) = true
ltbℤ (negsuc a) (negsuc b) = ltb b a

abbrev pub eqbℤ : ℤ → ℤ → Bool
eqbℤ (pos a) (pos b) = a == b
eqbℤ (negsuc a) (negsuc b) = a == b
eqbℤ _ _ = false

pub ltbℤ_asymm : (a b : ℤ) → ltbℤ a b ≡ true → ltbℤ b a ≡ false
ltbℤ_asymm a b h = ground arith

pub ltbℤ_negative_trans : (a b c : ℤ) → ltbℤ b a ≡ false → ltbℤ c b ≡ false → ltbℤ c a ≡ false
ltbℤ_negative_trans a b c h k = ground arith

pub eqbℤ-eq : (a b : ℤ) → eqbℤ a b ≡ true → a ≡ b
eqbℤ-eq a b h = ground arith

pub eqbℤ_refl : (a : ℤ) → eqbℤ a a ≡ true
eqbℤ_refl a = ground arith
