-- ===== src/Launch.antt =====
-- The host code that a parallel loop gets for its kernel: `KernelLaunchOps` of
-- numba_dppy/dpctl_iface/kernel_launch_ops.py, and `numba_type_to_dpctl_typenum` of
-- numba_dppy/dpctl_iface/_helpers.py. The LLVM builder is the list of the instructions that it
-- was told to append; casts, geps and the slots on the stack are part of an instruction.
pub mod Trace
pub mod Lower
pub mod Generate
pub mod Fills
pub mod Balance
pub mod Members
pub mod Copies
pub mod Transfers
pub mod Slots
pub mod Buffers
mod Tests
use numba_dppy.Prelude.{
  Bool, List, Option, String, [], false, if◌then◌else◌, length, ltb, none, not, some, suc, true,
  zero, ℕ, ◌++◌, ◌+◌, ◌-◌, ◌∷◌,
}
use numba_dppy.Result.{
  Result, err, external_error, not_implemented_error, ok, raise_if, ◌>>=◌, ◌>>◌,
}
use numba_dppy.Argument.{
  ArgType, ArrayClass, array_type, boolean, float32, float64, int32, int64, uint32, uint64,
  usm_shared_array,
}
use numba_dppy.Access.{contains}

-- The type of an argument of the kernel.
pub data ExprType : Type 0 where
  numba_type : ArgType → ExprType
  integer_literal voidptr : ExprType

-- What a slot of `kernel_arg_array` points to, of the named variable.
pub data ArgValue : Type 0 where
  -- a zero on the stack
  zero_storage : ArgValue
  size_member itemsize_member data_member scalar_value : String → ArgValue
  -- the pointer in the stack slot `buffer_ptr` with this suffix
  buffer_ptr : ℕ → ArgValue
  shape_entry stride_entry : String → ℕ → ArgValue

-- A bound of the loop: a constant, or a variable with whether it is a 64-bit integer.
pub data Bound : Type 0 where
  constant : ℕ → Bound
  variable : String → Bool → Bound

-- What is stored as an extent of the range.
pub data Extent : Type 0 where
  plain extended : Bound → Extent

-- A USM buffer: the suffix of its stack slot, and the variable whose data it holds.
pub record Buffer : Type 0 where
  pub suffix : ℕ
  pub var : String

pub data Instr : Type 0 where
  get_current_queue : Instr
  -- the number of the slot, the pointer, and the type number
  store_arg : ℕ → ArgValue → ℕ → Instr
  -- of the size of the variable's data
  malloc_shared : Buffer → Instr
  memcpy_to_device memcpy_to_host free : Buffer → Instr
  event_wait event_delete queue_wait queue_delete : Instr
  store_extent : ℕ → Extent → Instr
  -- the number of arguments and the number of dimensions
  submit_range : ℕ → ℕ → Instr

-- `KernelLaunchOps`, with the code appended so far
pub record KernelLaunchOps : Type 0 where
  pub total_kernel_args : ℕ
  pub cur_arg : ℕ
  pub num_inputs : ℕ
  pub write_buffs : List Buffer
  pub read_only_buffs : List Buffer
  pub code : List Instr

abbrev pub new_kernel_launch_ops : ℕ → KernelLaunchOps
new_kernel_launch_ops num_inputs = record {
  total_kernel_args = 0;
  cur_arg = 0;
  num_inputs = num_inputs;
  write_buffs = [];
  read_only_buffs = [];
  code = [];
}

unfoldable pub numba_type_to_dpctl_typenum : ExprType → Result ℕ
numba_type_to_dpctl_typenum integer_literal = ok 9
numba_type_to_dpctl_typenum voidptr = ok 15
numba_type_to_dpctl_typenum (numba_type int32) = ok 9
numba_type_to_dpctl_typenum (numba_type uint32) = ok 10
numba_type_to_dpctl_typenum (numba_type boolean) = ok 5
numba_type_to_dpctl_typenum (numba_type int64) = ok 9
numba_type_to_dpctl_typenum (numba_type uint64) = ok 11
numba_type_to_dpctl_typenum (numba_type float32) = ok 12
numba_type_to_dpctl_typenum (numba_type float64) = ok 13
numba_type_to_dpctl_typenum (numba_type _) = err not_implemented_error

-- what the array members are typed as: `types.int64` and `types.voidptr`
abbrev pub int64_num : ℕ
int64_num = 9

abbrev pub voidptr_num : ℕ
voidptr_num = 15

abbrev pub emit : List Instr → KernelLaunchOps → KernelLaunchOps
emit instrs self = record self { code = self.code ++ instrs }

-- `_form_kernel_arg_and_arg_ty`
unfoldable pub form_kernel_arg : ArgValue → ℕ → KernelLaunchOps → KernelLaunchOps
form_kernel_arg val ty self = record self {
  cur_arg = self.cur_arg + 1;
  code = self.code ++ store_arg self.cur_arg val ty ∷ [];
}

-- `allocate_kernel_arg_array`; its two arrays on the stack have this many slots.
unfoldable pub allocate_kernel_arg_array : ℕ → KernelLaunchOps → KernelLaunchOps
allocate_kernel_arg_array num_kernel_args self = record self { total_kernel_args = num_kernel_args }

-- the loops `for this_dim in range(arg_type.ndim)`, from `this_dim` on
unfoldable pub form_entries : (ℕ → ArgValue) → ℕ → ℕ → KernelLaunchOps → KernelLaunchOps
unfolding form_kernel_arg
form_entries entry zero this_dim self = self
form_entries entry (suc ndim) this_dim self =
    form_entries entry ndim (this_dim + 1) (form_kernel_arg (entry this_dim) int64_num self)

-- the two null pointers, the size and the itemsize
unfoldable pub form_head : String → KernelLaunchOps → KernelLaunchOps
unfolding form_kernel_arg
form_head var self = form_kernel_arg (itemsize_member var) int64_num (
    form_kernel_arg (size_member var) int64_num
      (form_kernel_arg zero_storage int64_num (form_kernel_arg zero_storage int64_num self)))

-- `if legal_names[var] in modified_arrays`
unfoldable pub keep_buffer : Bool → Buffer → KernelLaunchOps → KernelLaunchOps
keep_buffer true b self = record self { write_buffs = self.write_buffs ++ b ∷ [] }
keep_buffer false b self = record self { read_only_buffs = self.read_only_buffs ++ b ∷ [] }

-- `if index < self.num_inputs`
unfoldable pub copy_in_code : Bool → Buffer → List Instr
copy_in_code true b = memcpy_to_device b ∷ event_wait ∷ event_delete ∷ []
copy_in_code false b = []

-- the data of an array that is not known to be USM
unfoldable pub form_buffer : String → Bool → Bool → KernelLaunchOps → KernelLaunchOps
unfolding form_kernel_arg keep_buffer copy_in_code
form_buffer var modified is_input self =
    let b : Buffer = record { suffix = self.cur_arg; var = var } in
    form_kernel_arg (buffer_ptr self.cur_arg) voidptr_num
      (emit (copy_in_code is_input b) (keep_buffer modified b (emit (malloc_shared b ∷ []) self)))

unfoldable pub form_data : ArrayClass → String → Bool → Bool → KernelLaunchOps → KernelLaunchOps
unfolding form_kernel_arg form_buffer
form_data usm_shared_array var modified is_input self =
    form_kernel_arg (data_member var) voidptr_num self
form_data _ var modified is_input self = form_buffer var modified is_input self

-- the branch of `process_kernel_arg` for arrays
unfoldable pub form_array :
    ArrayClass → ℕ → String → Bool → Bool → KernelLaunchOps → KernelLaunchOps
unfolding form_head form_data form_entries
form_array class ndim var modified is_input self = form_entries (stride_entry var) ndim 0 (
    form_entries (shape_entry var) ndim 0
      (form_data class var modified is_input (form_head var self)))

-- `isinstance(arg_type, types.npytypes.Array)`, with what is read of the array type
abbrev pub as_array : ExprType → Option (ArrayClass × ℕ)
as_array (numba_type (array_type class dtype ndim)) = some (class, ndim)
as_array _ = none

-- One entry of the `zip`: the variable, whether the lowerer has an LLVM value for it, and its type.
-- The lists that are zipped are as long as each other.
pub record ExprArg : Type 0 where
  pub var : String
  pub has_llvm_arg : Bool
  pub arg_type : ExprType

module _ (legalize_name : String → String) (modified_arrays : List String) where
  -- `process_kernel_arg`, by what the test of the type says; a scalar without an LLVM value fails
  -- at the cast.
  unfoldable pub process_as :
      Option (ArrayClass × ℕ) → ExprArg → ℕ → KernelLaunchOps → Result KernelLaunchOps
  unfolding form_array form_kernel_arg numba_type_to_dpctl_typenum
  process_as (some (class, ndim)) a index self = do
    raise_if (not a.has_llvm_arg) not_implemented_error
    ok (
        form_array class ndim a.var (contains modified_arrays (legalize_name a.var))
          (ltb index self.num_inputs) self)
  process_as none a index self = do
    ty ← numba_type_to_dpctl_typenum a.arg_type
    raise_if (not a.has_llvm_arg) external_error
    ok (form_kernel_arg (scalar_value a.var) ty self)

  unfoldable pub process_kernel_arg : ExprArg → ℕ → KernelLaunchOps → Result KernelLaunchOps
  unfolding process_as
  process_kernel_arg a index self = process_as (as_array a.arg_type) a index self

  -- the loop over the arguments, from `index` on
  unfoldable pub process_kernel_args : List ExprArg → ℕ → KernelLaunchOps → Result KernelLaunchOps
  unfolding process_kernel_arg
  process_kernel_args [] index self = ok self
  process_kernel_args (a ∷ args) index self = do
    self' ← process_kernel_arg a index self
    process_kernel_args args (index + 1) self'

unfoldable pub extent_of : Bound → Extent
extent_of (constant n) = plain (constant n)
extent_of (variable v true) = plain (variable v true)
extent_of (variable v false) = extended (variable v false)

-- `num_dim`
unfoldable pub num_dim_of : ℕ → ℕ
num_dim_of n = if ltb n 4 then n else 3

-- `for i in range(num_dim)`, from `i` on and for `left` rounds; only the upper bounds are used.
unfoldable pub store_extents : ℕ → ℕ → ℕ → List Bound → List Instr
unfolding extent_of
store_extents num_dim zero i stops = []
store_extents num_dim (suc left) i [] = []
store_extents num_dim (suc left) i (stop ∷ stops) =
    store_extent (num_dim - 1 - i) (extent_of stop) ∷ store_extents num_dim left (i + 1) stops

unfoldable pub copy_back_code : List Buffer → List Instr
copy_back_code [] = []
copy_back_code (b ∷ bs) = memcpy_to_host b ∷ event_wait ∷ event_delete ∷ free b ∷ copy_back_code bs

unfoldable pub free_code : List Buffer → List Instr
free_code [] = []
free_code (b ∷ bs) = free b ∷ free_code bs

unfoldable pub enqueue_kernel_and_copy_back : List Bound → KernelLaunchOps → KernelLaunchOps
unfolding num_dim_of store_extents copy_back_code free_code
enqueue_kernel_and_copy_back stops self =
    let num_dim = num_dim_of (length stops) in
    emit
      (store_extents num_dim num_dim 0 stops
        ++ submit_range self.total_kernel_args num_dim
          ∷ queue_wait
          ∷ event_delete
          ∷ copy_back_code self.write_buffs
        ++ free_code self.read_only_buffs)
      self
