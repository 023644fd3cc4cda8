-- ===== src/Launch/Lower.antt =====
-- The caller of `KernelLaunchOps`: `generate_kernel_launch_ops` of
-- numba_dppy/core/passes/dppy_lowerer.py.
use numba_dppy.Prelude.{List, Option, String, [], none, not, some, ℕ, ◌*◌, ◌+◌, ◌==◌, ◌∷◌}
use numba_dppy.Result.{Result, assertion_error, ok, raise_if, ◌>>=◌, ◌>>◌}
use numba_dppy.Argument.{ArrayClass}
use numba_dppy.Launch.{
  Bound, ExprArg, Instr, allocate_kernel_arg_array, as_array, emit, enqueue_kernel_and_copy_back,
  get_current_queue, new_kernel_launch_ops, process_kernel_args, queue_delete,
}

-- `num_expanded_args`
abbrev pub expanded : Option (ArrayClass × ℕ) → ℕ
expanded (some (class, ndim)) = 5 + 2 * ndim
expanded none = 1

abbrev pub num_expanded_args : List ExprArg → ℕ
num_expanded_args [] = 0
num_expanded_args (a ∷ args) = expanded (as_array a.arg_type) + num_expanded_args args

-- `assert step == 1`; a loop is its upper bound and its step.
unfoldable pub upper_bounds : List (Bound × ℕ) → Result (List Bound)
upper_bounds [] = ok []
upper_bounds ((stop, step) ∷ loop_ranges) = do
  raise_if (not (step == 1)) assertion_error
  stops ← upper_bounds loop_ranges
  ok (stop ∷ stops)

-- `generate_kernel_launch_ops`, as the code that it appends
unfoldable pub generate_kernel_launch_ops :
    (String → String) → List String → ℕ → List ExprArg → List (Bound × ℕ) → Result (List Instr)
unfolding allocate_kernel_arg_array process_kernel_args enqueue_kernel_and_copy_back upper_bounds
generate_kernel_launch_ops legalize_name modified_arrays num_inputs args loop_ranges = do
  self ← process_kernel_args legalize_name modified_arrays args 0 (
      allocate_kernel_arg_array (num_expanded_args args)
        (emit (get_current_queue ∷ []) (new_kernel_launch_ops num_inputs)))
  stops ← upper_bounds loop_ranges
  ok (emit (queue_delete ∷ []) (enqueue_kernel_and_copy_back stops self)).code
