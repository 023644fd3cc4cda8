-- ===== src/Kernel.antt =====
-- Calling a compiled kernel: `DPPYKernel` of numba_dppy/compiler.py, which unpacks the arguments
-- for the device, submits, and copies the results back.
pub mod Layout
pub mod Unpack
mod Returns
mod Spares
pub mod Frame
pub mod RoundTrip
pub mod Scalars
mod Tests
use numba_dppy.Prelude.{
  Bool, List, Option, String, [], false, if◌then◌else◌, length, none, not, some, str_eq, ℕ, ◌*◌,
  ◌++◌, ◌||◌, ◌∷◌,
}
use numba_dppy.Prelude.Int.{to_bits}
use numba_dppy.Exec.{Exec, lift, or_raise, pure, raise, ◌>>=◌, ◌>>◌}
use numba_dppy.Result.{Result, external_error, not_implemented_error}
use numba_dppy.Range.{Queue, KernelBase}
use numba_dppy.Argument.{
  ArgType, PyValue, array_of, array_type, boolean, float32, float64, int32, int64, int_of,
  integer_bits, per_axis, real_number, uint32, uint64, unpack_device_array_argument, usm_nd_array,
}
use numba_dppy.Memory.{
  KernelArg, PyArray, PyNumber, Runtime, UsmMem, World, c_double, c_float, c_int, c_longlong,
  c_uint, c_uint8, c_ulonglong, prod, shared,
}
use numba_dppy.Usm.{
  QueueArg, as_usm_obj, copy_from_numpy_to_usm_obj, copy_to_numpy_from_usm_obj, has_usm_memory,
  memory, no_queue, sycl_queue,
}
use numba_dppy.Usm.Strides.{get_info_from_suai}
use numba_dppy.Access.{AccessType, check_for_invalid_access_type}

pub record Kernel : Type 0 where
  pub base : KernelBase
  pub open base use *
  pub argument_types : List ArgType
  pub ordered_arg_access_types : List AccessType

-- What is kept of a host array until its data comes back.
pub record DeviceArray : Type 0 where
  pub usm_mem : UsmMem
  pub orig_ndarr : PyArray
  pub packed_ndarr : PyArray
  pub packed : Bool

-- A call of `_unpack_argument`: what it appends to `kernelargs` and to `device_arrs`.
abbrev pub Unpacked : Type 0
Unpacked = List KernelArg × Option DeviceArray

abbrev pub is_access : String → AccessType → Bool
is_access t none = false
is_access t (some a) = str_eq a t

-- when `_unpack_Array` copies the host data in
unfoldable pub copies_in : KernelBase → AccessType → Bool
unfolding check_for_invalid_access_type
copies_in self access_type =
    check_for_invalid_access_type self access_type
    || is_access "read_only" access_type
    || is_access "read_write" access_type

-- when `_pack_argument` copies the device data out
unfoldable pub copies_back : KernelBase → AccessType → Bool
unfolding check_for_invalid_access_type
copies_back self access_type =
    check_for_invalid_access_type self access_type || not (is_access "read_only" access_type)

abbrev pub queue_arg : Option Queue → QueueArg
queue_arg none = no_queue
queue_arg (some q) = QueueArg.sycl_queue q

abbrev pub scalar : (ℕ → KernelArg) → Result ℕ → Exec World Unpacked
scalar c r = do b ← lift r; pure (c b ∷ [], none)

abbrev pub real : (PyNumber → KernelArg) → PyValue → Exec World Unpacked
real c val = do n ← lift (real_number val); pure (c n ∷ [], none)

module _ (R : Runtime) (self : Kernel) where
  -- `_unpack_USMNdArrayType`
  unfoldable pub unpack_usm_nd_array : PyArray → Exec World Unpacked
  unfolding unpack_device_array_argument per_axis get_info_from_suai
  unpack_usm_nd_array val = do
    info ← lift (get_info_from_suai val)
    args ←
        unpack_device_array_argument info.total_size info.itemsize info.usm_mem info.shape
          info.strides info.ndim
    pure (args, none)

  -- `val.flatten(order="C")` where `val` is not C-contiguous
  abbrev pub packed_of : PyArray → Exec World PyArray
  packed_of val = if val.c_contiguous then pure val else R.flatten val

  abbrev pub copy_in : AccessType → UsmMem → PyArray → Exec World (Unit {0})
  copy_in access_type usm_mem packed_val =
      if copies_in self.base access_type
      then copy_from_numpy_to_usm_obj R (memory usm_mem) packed_val
      else pure tt

  -- what `device_arrs[-1]` becomes
  abbrev pub device_array : PyArray → UsmMem → PyArray → DeviceArray
  device_array val usm_mem packed_val = record {
    usm_mem = usm_mem;
    orig_ndarr = val;
    packed_ndarr = packed_val;
    packed = not val.c_contiguous;
  }

  -- `_unpack_Array` on an array without USM memory, up to the arguments of the kernel
  unfoldable pub copy_to_device : PyArray → AccessType → Exec World DeviceArray
  copy_to_device val access_type = do
    usm_mem ← as_usm_obj R val (queue_arg self.sycl_queue) "shared" false
    packed_val ← packed_of val
    copy_in access_type usm_mem packed_val
    pure (device_array val usm_mem packed_val)

  abbrev pub array_args : PyArray → UsmMem → Exec World (List KernelArg)
  array_args a usm_mem =
      unpack_device_array_argument (prod a.shape) a.itemsize usm_mem a.shape a.strides
        (length a.shape)

  -- an array that has USM memory: nothing is kept for later
  abbrev pub share_array : PyArray → UsmMem → Exec World Unpacked
  share_array val usm_mem = do args ← array_args val usm_mem; pure (args, none)

  abbrev pub copy_array : PyArray → AccessType → Exec World Unpacked
  copy_array val access_type = do
    d ← copy_to_device val access_type
    args ← array_args d.packed_ndarr d.usm_mem
    pure (args, some d)

  -- `_unpack_Array`
  unfoldable pub unpack_array : PyArray → AccessType → Exec World Unpacked
  unpack_array val access_type = elim (has_usm_memory val) [
    | some usm_mem ↦ share_array val usm_mem
    | none ↦ copy_array val access_type
  ]

  -- `_unpack_argument`
  unfoldable pub unpack_argument : ArgType → PyValue → AccessType → Exec World Unpacked
  unpack_argument (array_type usm_nd_array _ _) val access_type = do
    a ← lift (array_of val)
    unpack_usm_nd_array a
  unpack_argument (array_type _ _ _) val access_type = do
    a ← lift (array_of val)
    unpack_array a access_type
  unpack_argument int64 val access_type = scalar c_longlong (integer_bits 64 val)
  unpack_argument uint64 val access_type = scalar c_ulonglong (integer_bits 64 val)
  unpack_argument int32 val access_type = scalar c_int (integer_bits 32 val)
  unpack_argument uint32 val access_type = scalar c_uint (integer_bits 32 val)
  unpack_argument float64 val access_type = real c_double val
  unpack_argument float32 val access_type = real c_float val
  unpack_argument boolean val access_type = do
    v ← lift (int_of val)
    pure (c_uint8 (to_bits 8 v) ∷ [], none)
  unpack_argument _ val access_type = raise not_implemented_error

  -- the first loop of `__call__`, over the `zip` of three lists
  unfoldable pub unpack_arguments :
      List ArgType
      → List PyValue
      → List AccessType
      → Exec World (List KernelArg × List (Option DeviceArray))
  unpack_arguments (ty ∷ tys) (val ∷ vals) (access_type ∷ rest) = do
    (args, d) ← unpack_argument ty val access_type
    (more, ds) ← unpack_arguments tys vals rest
    pure (args ++ more, d ∷ ds)
  unpack_arguments _ _ _ = pure ([], [])

  -- `_pack_argument`
  unfoldable pub pack_argument : Option DeviceArray → AccessType → Exec World (Unit {0})
  pack_argument none access_type = pure tt
  pack_argument (some d) access_type =
      if copies_back self.base access_type
      then (do
        copy_to_numpy_from_usm_obj R (memory d.usm_mem) d.packed_ndarr
        (if d.packed then R.copyto d.orig_ndarr d.packed_ndarr else pure tt))
      else pure tt

  -- the second loop of `__call__`; the types and the values are as many or more
  unfoldable pub pack_arguments :
      List (Option DeviceArray) → List AccessType → Exec World (Unit {0})
  pack_arguments (d ∷ ds) (access_type ∷ rest) = do
    pack_argument d access_type
    pack_arguments ds rest
  pack_arguments _ _ = pure tt

  -- `__call__` behind the first loop. A kernel without a queue fails at the attribute `submit`.
  abbrev pub finish : List KernelArg × List (Option DeviceArray) → Exec World (Unit {0})
  finish p = do
    queue ← or_raise self.sycl_queue external_error
    R.submit queue p.0 self.global_size self.local_size
    pack_arguments p.1 self.ordered_arg_access_types

  -- `__call__`
  unfoldable pub call : List PyValue → Exec World (Unit {0})
  call args = do
    unpacked ← unpack_arguments self.argument_types args self.ordered_arg_access_types
    finish unpacked
