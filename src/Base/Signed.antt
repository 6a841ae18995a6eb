-- ===== src/Base/Signed.antt =====
-- Integers over the native numbers, and an int given by its 32 bits.
use Prim.Native.Nat.{ℕ, ◌-◌}
use mathlib.Core.Path.{◌≡◌}
use mathlib.Core.Bool.{Bool, true, false, ◌&&◌}
use native.Mathlib.Omega.{arith}
use zattd.Base.Tests.{ltb, ◌==◌, if◌then◌else◌, u32_mod}

pub data ℤ : Type 0 where
  pos negsuc : ℕ → ℤ

abbrev pub int_eq : ℤ → ℤ → Bool
int_eq (pos a) (pos b) = a == b
int_eq (pos a) (negsuc b) = false
int_eq (negsuc a) (pos b) = false
int_eq (negsuc a) (negsuc b) = a == b

abbrev pub i32_limit : ℕ
i32_limit = 2147483648

-- The number that `%d` prints for a uint32.
abbrev pub signed32 : ℕ → ℤ
signed32 n = if ltb n i32_limit then pos n else negsuc (u32_mod - n - 1)

pub int_eq_eq : (a b : ℤ) → int_eq a b ≡ true → a ≡ b
int_eq_eq (pos a) (pos b) h = ground arith
int_eq_eq (pos a) (negsuc b) h = ground arith
int_eq_eq (negsuc a) (pos b) h = ground arith
int_eq_eq (negsuc a) (negsuc b) h = ground arith

pub int_eq_refl : (a : ℤ) → int_eq a a ≡ true
int_eq_refl (pos a) = ground arith
int_eq_refl (negsuc a) = ground arith

-- A uint32 is printed as another number exactly from 2^31 on.
pub int_eq-signed32 : (i u : ℕ) → int_eq (signed32 i) (pos u) ≡ (i == u && ltb u i32_limit)
int_eq-signed32 i u = ground arith
