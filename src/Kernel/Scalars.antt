-- ===== src/Kernel/Scalars.antt =====
-- Scalar arguments of integer types.
use numba_dppy.Prelude.{[], none, refl, ℕ, ◌∷◌, ◌≡◌}
use numba_dppy.Prelude.Int.{IsSigned, signed_of, signed_of-to_bits_64, to_bits, ℤ}
use numba_dppy.Result.{ok}
use numba_dppy.Argument.{int64, integer_bits, number}
use numba_dppy.Memory.{Runtime, World, c_longlong, int}
use numba_dppy.Access.{AccessType}
use numba_dppy.Kernel.{Kernel, unpack_argument}

module _ (R : Runtime) (self : Kernel) (t : AccessType) (w : World) where
  -- The same of a 64-bit signed parameter.
  pub unpack_int64 :
      (v : ℤ)
      → IsSigned 64 v
      → (b : ℕ) × (unpack_argument R self int64 (number (int v)) t w
          ≡ (ok (c_longlong b ∷ [], none), w))
        × (signed_of 64 b ≡ v)
  unfolding unpack_argument integer_bits
  unpack_int64 v h = (to_bits 64 v, refl, signed_of-to_bits_64 v h)
