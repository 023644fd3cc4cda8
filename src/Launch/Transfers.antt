-- ===== src/Launch/Transfers.antt =====
-- The copies of a whole launch.
use numba_dppy.Prelude.{List, Option, String, [], ltb, none, some, ℕ, ◌&&◌, ◌++◌, ◌+◌, ◌∷◌}
use numba_dppy.Argument.{ArrayClass}
use numba_dppy.Access.{contains}
use numba_dppy.Launch.{ExprArg, as_array}
use numba_dppy.Launch.Copies.{Copies, is_buffered, one_if}

abbrev pub input_of : ℕ → ℕ → Option (ArrayClass × ℕ) → String → List String
input_of num_inputs index (some (class, ndim)) var =
    one_if (is_buffered class && ltb index num_inputs) var
input_of num_inputs index none var = []

-- The arrays with a buffer among the first `num_inputs` arguments, the first of which is at `index`.
abbrev pub inputs_from : ℕ → ℕ → List ExprArg → List String
inputs_from num_inputs index [] = []
inputs_from num_inputs index (a ∷ args) =
    input_of num_inputs index (as_array a.arg_type) a.var ++ inputs_from num_inputs (index + 1) args

module _ (legalize_name : String → String) (modified_arrays : List String) where
  abbrev pub output_of : Option (ArrayClass × ℕ) → String → List String
  output_of (some (class, ndim)) var =
      one_if (is_buffered class && contains modified_arrays (legalize_name var)) var
  output_of none var = []

  -- the arrays with a buffer that the kernel writes
  abbrev pub outputs : List ExprArg → List String
  outputs [] = []
  outputs (a ∷ args) = output_of (as_array a.arg_type) a.var ++ outputs args
