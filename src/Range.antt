-- ===== src/Range.antt =====
-- The subscript of a kernel, `kernel[global_size, local_size]`: `_ensure_valid_work_item_grid`,
-- `_ensure_valid_work_group_size` and `DPPYKernelBase` of numba_dppy/compiler.py.
pub mod Laws
mod Tests
use numba_dppy.Prelude.{
  ℕ, String, Bool, true, false, not, Option, none, some, List, [], ◌∷◌, reverse, length, ◌==◌,
  if◌then◌else◌,
}
use numba_dppy.Result.{Result, ok, err, type_error, value_error, index_error, ◌>>=◌, ◌>>◌, raise_if}

-- A `dpctl.SyclQueue`, by its identity and that of its SYCL context.
pub record Queue : Type 0 where
  pub id : ℕ
  pub sycl_context : ℕ

-- One entry of the subscript: an int, a list or a tuple of ints, or any other object.
pub data SizeArg : Type 0 where
  int : ℕ → SizeArg
  list tuple : List ℕ → SizeArg
  other : SizeArg

-- What stands between the brackets: several entries, or a single int, which has no `len`.
pub data Subscript : Type 0 where
  entries : List SizeArg → Subscript
  single_int : ℕ → Subscript

unfoldable pub ensure_valid_work_item_grid : SizeArg → Result (List ℕ)
ensure_valid_work_item_grid other = err value_error
ensure_valid_work_item_grid (int n) = ok (reverse (n ∷ []))
ensure_valid_work_item_grid (list val) = ok (reverse val)
ensure_valid_work_item_grid (tuple val) = ok (reverse val)

-- the part of `_ensure_valid_work_group_size` behind the tests on the class of `val`
unfoldable pub check_dimensions : List ℕ → List ℕ → Result (List ℕ)
check_dimensions val work_item_grid = do
  raise_if (not (length val == length work_item_grid)) value_error
  ok (reverse val)

unfoldable pub ensure_valid_work_group_size : SizeArg → List ℕ → Result (List ℕ)
unfolding check_dimensions
ensure_valid_work_group_size other work_item_grid = err value_error
ensure_valid_work_group_size (int n) work_item_grid = check_dimensions (n ∷ []) work_item_grid
ensure_valid_work_group_size (list val) work_item_grid = check_dimensions val work_item_grid
ensure_valid_work_group_size (tuple val) work_item_grid = check_dimensions val work_item_grid

pub record KernelBase : Type 0 where
  pub global_size : List ℕ
  pub local_size : Option (List ℕ)
  pub sycl_queue : Option Queue
  -- a dict whose keys are its values
  pub valid_access_types : List String

-- `DPPYKernelBase.__init__`
abbrev pub new_kernel_base : KernelBase
new_kernel_base = record {
  global_size = [];
  local_size = some [];
  sycl_queue = none;
  valid_access_types = "read_only" ∷ "write_only" ∷ "read_write" ∷ [];
}

-- the copy is shallow, and only the copy is written
unfoldable pub configure : KernelBase → Option Queue → List ℕ → Option (List ℕ) → KernelBase
configure self queue gs ls = record self { global_size = gs; local_size = ls; sycl_queue = queue }

-- `args[1] != []`: in Python an empty tuple differs from an empty list.
unfoldable pub is_empty_list : SizeArg → Bool
is_empty_list (list []) = true
is_empty_list _ = false

-- `if nargs == 2 and args[1] != []`, on what follows the first entry
unfoldable pub local_size_of : List SizeArg → List ℕ → Result (Option (List ℕ))
unfolding is_empty_list
local_size_of (l ∷ []) gs =
    if is_empty_list l then ok none else (do ls ← ensure_valid_work_group_size l gs; ok (some ls))
local_size_of _ gs = ok none

-- `DPPYKernelBase.__getitem__`. The test `nargs < 1 or nargs > 2` guards the bare name of a
-- function, which does nothing. `current_queue` is what `dpctl.get_current_queue()` does.
unfoldable pub getitem : Result Queue → KernelBase → Subscript → Result KernelBase
unfolding local_size_of configure
getitem current_queue self (single_int n) = err type_error
getitem current_queue self (entries []) = do queue ← current_queue; err index_error
getitem current_queue self (entries (g ∷ rest)) = do
  queue ← current_queue
  gs ← ensure_valid_work_item_grid g
  ls ← local_size_of rest gs
  ok (configure self (some queue) gs ls)
