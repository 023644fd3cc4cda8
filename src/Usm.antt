-- ===== src/Usm.antt =====
-- numba_dppy/utils/array_utils.py: USM memory behind Python objects, and the copies to and from it.
pub mod Strides
pub mod Laws
mod Tests
use numba_dppy.Prelude.{
  Bool, Option, String, false, if◌then◌else◌, none, not, some, str_eq, true, ◌*◌, ◌==◌,
}
use numba_dppy.Exec.{Exec, lift, modify, or_raise, pure, raise_if, ◌>>=◌, ◌>>◌}
use numba_dppy.Result.{Result, err, ok, type_error, value_error}
use numba_dppy.Range.{Queue}
use numba_dppy.Memory.{
  DType, PyArray, Runtime, UsmKind, UsmMem, World, device, float32, float64, host, int32, int64,
  prod, shared, uint32,
}

-- `has_usm_memory`: the object's own memory, or else that of its base.
unfoldable pub has_usm_memory : PyArray → Option UsmMem
has_usm_memory obj = elim obj.usm [
  | some m ↦ some m
  | none ↦ elim obj.base [ none ↦ none | some b ↦ b ]
]

-- What the copies take for USM memory: an allocation, which is its own USM memory, or an object.
pub data Allocated : Type 0 where
  memory : UsmMem → Allocated
  object : PyArray → Allocated

unfoldable pub usm_of : Allocated → Option UsmMem
unfolding has_usm_memory
usm_of (memory m) = some m
usm_of (object obj) = has_usm_memory obj

-- `obj.dtype in [np.dtype(typ) for typ in supported_numpy_dtype]`; the list names `np.int64` twice.
unfoldable pub is_supported_dtype : DType → Bool
is_supported_dtype int32 = true
is_supported_dtype int64 = true
is_supported_dtype uint32 = true
is_supported_dtype float32 = true
is_supported_dtype float64 = true
is_supported_dtype _ = false

-- `usm_type`
unfoldable pub usm_kind : String → Option UsmKind
usm_kind usm_type =
    if str_eq usm_type "shared"
    then some shared
    else if str_eq usm_type "device"
    then some device
    else if str_eq usm_type "host"
    then some host
    else none

-- The argument `queue`: absent, a `dpctl.SyclQueue`, or something else.
pub data QueueArg : Type 0 where
  no_queue : QueueArg
  sycl_queue : Queue → QueueArg
  not_a_queue : QueueArg

unfoldable pub checked_queue : QueueArg → Result Queue
checked_queue no_queue = err value_error
checked_queue not_a_queue = err type_error
checked_queue (sycl_queue q) = ok q

module _ (R : Runtime) where
  unfoldable pub copy_from_numpy_to_usm_obj : Allocated → PyArray → Exec World (Unit {0})
  unfolding usm_of is_supported_dtype
  copy_from_numpy_to_usm_obj usm_allocated obj = do
    usm_mem ← or_raise (usm_of usm_allocated) type_error
    raise_if (not obj.is_ndarray) type_error
    raise_if (not (is_supported_dtype obj.dtype)) value_error
    raise_if (not obj.c_contiguous) value_error
    raise_if (not (usm_mem.size == obj.itemsize * prod obj.shape)) value_error
    modify (R.copy_from_host usm_mem obj)

  -- unlike the copy to USM this one does not test `c_contiguous`
  unfoldable pub copy_to_numpy_from_usm_obj : Allocated → PyArray → Exec World (Unit {0})
  unfolding usm_of is_supported_dtype
  copy_to_numpy_from_usm_obj usm_allocated obj = do
    usm_mem ← or_raise (usm_of usm_allocated) type_error
    raise_if (not obj.is_ndarray) type_error
    raise_if (not (is_supported_dtype obj.dtype)) value_error
    raise_if (not (usm_mem.size == obj.itemsize * prod obj.shape)) value_error
    modify (R.copy_to_host usm_mem obj)

  -- the part of `as_usm_obj` under `if usm_mem is None`
  unfoldable pub new_usm_obj : PyArray → Queue → String → Bool → Exec World UsmMem
  unfolding is_supported_dtype usm_kind
  new_usm_obj obj queue usm_type copy = do
    raise_if (not obj.is_ndarray) type_error
    raise_if (not (is_supported_dtype obj.dtype)) value_error
    kind ← or_raise (usm_kind usm_type) value_error
    usm_mem ← R.allocate kind (prod obj.shape * obj.itemsize) queue
    (if copy then copy_from_numpy_to_usm_obj (memory usm_mem) obj else pure tt)
    pure usm_mem

  unfoldable pub as_usm_obj : PyArray → QueueArg → String → Bool → Exec World UsmMem
  unfolding has_usm_memory checked_queue new_usm_obj
  as_usm_obj obj queue usm_type copy = do
    q ← lift (checked_queue queue)
    elim (has_usm_memory obj) [ some m ↦ pure m | none ↦ new_usm_obj obj q usm_type copy ]
