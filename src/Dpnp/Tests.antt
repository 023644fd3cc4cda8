-- ===== src/Dpnp/Tests.antt =====
-- Functions of dpnp on small arrays, whose contents are numbers.
use numba_dppy.Prelude.{
  Bool, List, String, [], false, none, refl, some, true, ℕ, ◌++◌, ◌+◌, ◌∷◌, ◌≡◌, ◌⊎◌,
}
use numba_dppy.Prelude.Dict.{delete, get, set}
use numba_dppy.Prelude.Names.{String-discrete}
use numba_dppy.Result.{err, ok, value_error}
use numba_dppy.Dpnp.{
  ArgContents, HostArray, IsClean, Op, PyScalar, call_dpnp, contents, contents_of, run_ops, scalar,
  shape_of, size_of, step, usm,
}
use numba_dppy.Dpnp.Linalg.{dpnp_cholesky, new_array, unary_ops}
use numba_dppy.Dpnp.Arrays.{dpnp_sort}
use numba_dppy.Dpnp.Random.{
  array, draw_ops, fetch_ops, int_size, no_size, one_float, res_of, zero_float,
}
use numba_dppy.Dpnp.Distributions.{dpnp_uniform, dpnp_weibull}
use numba_dppy.Dpnp.Clean.{one_operand, start_machine}
use numba_dppy.Dpnp.Functions.{cholesky, unary_function}
use numba_dppy.Dpnp.Overloads.{random_function, uniform, weibull}
use numba_dppy.Dpnp.Fetched.{HasNumbers, one_result, random_function-IsClean}
use numba_dppy.Memory.{DType}
use native.Mathlib.Decide.{ℕ_discrete}

abbrev plus_one : String → List (ArgContents ℕ) → ℕ → ℕ
plus_one func (contents (some c) ∷ args) k = c + 1
plus_one func args k = 0

-- A matrix of 2 × 2.
abbrev square_matrix : HostArray
square_matrix = new_array "a" (2 ∷ 2 ∷ []) 8 DType.float64

abbrev factor : HostArray
factor = new_array "out" (2 ∷ 2 ∷ []) 8 DType.float64

abbrev cholesky_ops : List Op
cholesky_ops =
    unary_ops square_matrix factor 32
      (call_dpnp "dpnp_cholesky" ("out_usm" ∷ []) (usm "a_usm" ∷ usm "out_usm" ∷ shape_of "a" ∷ []))

not_square : unary_function cholesky (new_array "a" (2 ∷ 3 ∷ []) 8 DType.float64) ≡ err value_error
unfolding dpnp_cholesky
not_square = refl

-- The result is that of the contents of the operand, which are 41.
result_is_42 :
    contents_of 0 plus_one
      (run_ops 0 plus_one
        (start_machine 0 plus_one (one_operand 0 plus_one 41 square_matrix factor))
        cholesky_ops).host
      "out"
    ≡ some 42
unfolding run_ops step get set delete String-discrete ℕ_discrete
result_is_42 = refl

-- The uniform distribution over three items, if the device can.
abbrev three_numbers : HostArray
three_numbers = res_of DType.float64 (3 ∷ [])

abbrev is_never : PyScalar → PyScalar → Bool
is_never low high = false

abbrev same_number : PyScalar → PyScalar
same_number v = v

uniform_returns : random_function false is_never same_number (uniform none none) (int_size 3) ≡ (
  draw_ops "dpnp_uniform" (zero_float ∷ one_float ∷ []) three_numbers ++ fetch_ops three_numbers,
  ok (array three_numbers),
)
unfolding dpnp_uniform
uniform_returns = refl

-- If dpnp raises, the memory of the result is not freed.
raises_before_free :
    random_function true is_never same_number (weibull one_float) no_size
    ≡ (draw_ops "dpnp_weibull" (one_float ∷ []) (res_of DType.float64 (1 ∷ [])), err value_error)
unfolding dpnp_weibull
raises_before_free = refl

random_function-IsClean_example :
    IsClean 0 plus_one (start_machine 0 plus_one (one_result 0 plus_one three_numbers)) (
      draw_ops "dpnp_uniform" (zero_float ∷ one_float ∷ []) three_numbers
      ++ fetch_ops three_numbers)
    × (((draw_ops "dpnp_uniform" (zero_float ∷ one_float ∷ []) three_numbers
              ++ fetch_ops three_numbers
            ≡ [])
          × (size_of (3 ∷ []) ≡ 0))
        ⊎ HasNumbers 0 plus_one
            (draw_ops "dpnp_uniform" (zero_float ∷ one_float ∷ []) three_numbers
              ++ fetch_ops three_numbers)
            three_numbers)
random_function-IsClean_example =
    random_function-IsClean 0 plus_one false is_never same_number (uniform none none) (int_size 3)
      (draw_ops "dpnp_uniform" (zero_float ∷ one_float ∷ []) three_numbers
        ++ fetch_ops three_numbers)
      (array three_numbers) uniform_returns

-- The cumulative sum of three items.
abbrev three_items : HostArray
three_items = new_array "a" (3 ∷ []) 8 DType.float64

abbrev cumsum_ops : List Op
cumsum_ops =
    unary_ops three_items (new_array "out" (3 ∷ []) 8 DType.float64) 8
      (call_dpnp "dpnp_cumsum" ("out_usm" ∷ []) (usm "a_usm" ∷ usm "out_usm" ∷ scalar 3 ∷ []))

sort_of_nothing : dpnp_sort (new_array "a" (0 ∷ []) 8 DType.float64) ≡ err value_error
unfolding dpnp_sort
sort_of_nothing = refl
