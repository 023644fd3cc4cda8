-- ===== src/Prelude/Int.antt =====
-- Python's integers, and the bit patterns that ctypes makes of them. `negsuc n` is -(n + 1).
use numba_dppy.Prelude.{arith, if◌then◌else◌, ltb, ℕ, ◌-◌, ◌<◌, ◌≡◌}
use Prim.Native.Nat.{◌%◌, ◌^◌}

pub data ℤ : Type 0 where
  pos negsuc : ℕ → ℤ

-- the two's complement of a w-bit integer; ctypes does no overflow checking
abbrev pub to_bits : ℕ → ℤ → ℕ
to_bits w (pos n) = n % 2 ^ w
to_bits w (negsuc n) = 2 ^ w - 1 - n % 2 ^ w

-- the signed integer that a w-bit pattern stands for
abbrev pub signed_of : ℕ → ℕ → ℤ
signed_of w b = if ltb b (2 ^ (w - 1)) then pos b else negsuc (2 ^ w - 1 - b)

-- the integers of a signed w-bit type
abbrev pub IsSigned : ℕ → ℤ → Type 0
IsSigned w (pos n) = n < 2 ^ (w - 1)
IsSigned w (negsuc n) = n < 2 ^ (w - 1)

pub signed_of-to_bits_32 : (v : ℤ) → IsSigned 32 v → signed_of 32 (to_bits 32 v) ≡ v
signed_of-to_bits_32 (pos n) h = ground arith
signed_of-to_bits_32 (negsuc n) h = ground arith

pub signed_of-to_bits_64 : (v : ℤ) → IsSigned 64 v → signed_of 64 (to_bits 64 v) ≡ v
signed_of-to_bits_64 (pos n) h = ground arith
signed_of-to_bits_64 (negsuc n) h = ground arith
