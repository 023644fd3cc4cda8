-- ===== src/Argument.antt =====
-- The types and values of kernel arguments, and their conversion to ctypes values: the parts of
-- `DPPYKernel` in numba_dppy/compiler.py that do not touch memory.
use native.Mathlib.Decide.{ℕ_discrete}
use numba_dppy.Prelude.{List, [], false, suc, true, zero, ℕ, ◌++◌, ◌∷◌}
use numba_dppy.Prelude.Int.{pos, to_bits, ℤ}
use numba_dppy.Exec.{Exec, lift, pure, ◌>>=◌}
use numba_dppy.Result.{Result, err, external_error, index_error, ok, type_error}
use numba_dppy.Memory.{
  DType, KernelArg, PyArray, PyNumber, UsmMem, World, bool, c_longlong, c_size_t, float, int,
  pointer,
}

-- The array types of Numba and of the package: `types.Array` and the classes derived from it.
pub data ArrayClass : Type 0 where
  npytypes_array dppy_array usm_shared_array usm_nd_array : ArrayClass

-- The Numba type of an argument.
pub data ArgType : Type 0 where
  -- with the number of dimensions
  array_type : ArrayClass → DType → ℕ → ArgType
  int64 uint64 int32 uint32 float64 float32 boolean complex64 complex128 : ArgType
  other_type : ℕ → ArgType

unfoldable pub ArgType-discrete : Discrete ArgType
ArgType-discrete = hlevel (ℕ_discrete)

unfoldable pub types-discrete : Discrete (List ArgType)
unfolding ArgType-discrete
types-discrete = hlevel (ArgType-discrete)

pub data PyValue : Type 0 where
  number : PyNumber → PyValue
  array : PyArray → PyValue
  other_value : PyValue

-- `ctypes.c_longlong(n)` of a size
abbrev pub c_longlong_of : ℕ → KernelArg
c_longlong_of n = c_longlong (to_bits 64 (pos n))

-- `for ax in range(ndim): kernelargs.append(ctypes.c_longlong(xs[ax]))`
unfoldable pub per_axis : ℕ → List ℕ → Result (List KernelArg)
per_axis zero xs = ok []
per_axis (suc ndim) [] = err index_error
per_axis (suc ndim) (x ∷ xs) = elim (per_axis ndim xs) [
  | ok rest ↦ ok (c_longlong_of x ∷ rest)
  | err e ↦ err e
]

-- `_unpack_device_array_argument`; `meminfo` and `parent` are null.
unfoldable pub unpack_device_array_argument :
    ℕ → ℕ → UsmMem → List ℕ → List ℕ → ℕ → Exec World (List KernelArg)
unpack_device_array_argument size itemsize buf shape strides ndim = do
  dims ← lift (per_axis ndim shape)
  steps ← lift (per_axis ndim strides)
  pure (
      c_size_t 0
      ∷ c_size_t 0
      ∷ c_longlong_of size
      ∷ c_longlong_of itemsize
      ∷ pointer buf
      ∷ (dims ++ steps))

-- `ctypes.c_longlong(val)` and its kin: ctypes takes ints and bools, and refuses floats.
unfoldable pub integer_bits : ℕ → PyValue → Result ℕ
integer_bits w (number (int v)) = ok (to_bits w v)
integer_bits w (number (bool true)) = ok 1
integer_bits w (number (bool false)) = ok 0
integer_bits w _ = err type_error

-- the number that `ctypes.c_double(val)` and `ctypes.c_float(val)` convert
unfoldable pub real_number : PyValue → Result PyNumber
real_number (number n) = ok n
real_number _ = err type_error

-- `int(val)`
unfoldable pub int_of : PyValue → Result ℤ
int_of (number (int v)) = ok v
int_of (number (bool true)) = ok (pos 1)
int_of (number (bool false)) = ok (pos 0)
int_of (number (float _ v)) = ok v
int_of _ = err type_error

-- an attribute of an array, asked of a value that is none
abbrev pub array_of : PyValue → Result PyArray
array_of (array a) = ok a
array_of _ = err external_error
