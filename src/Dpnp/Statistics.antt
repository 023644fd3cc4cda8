-- ===== src/Dpnp/Statistics.antt =====
-- numba_dppy/dpnp_iface/dpnp_transcendentalsimpl.py and dpnp_statisticsimpl.py there: the order of the
-- calls in each function.
use numba_dppy.Prelude.{List, String, [], length, ℕ, ◌==◌, ◌∷◌}
use numba_dppy.Result.{Result, err, external_error, ok, raise_if, value_error, ◌>>=◌, ◌>>◌}
use numba_dppy.Memory.{DType}
use numba_dppy.Dpnp.{HostArray, Op, call_dpnp, nbytes, scalar, shape_of, size_of, usm}
use numba_dppy.Dpnp.Linalg.{new_array, real_result, unary_ops}

-- `if a.size == 0: raise ValueError("Passed Empty array")`
abbrev pub check_not_empty : HostArray → Result (Unit {0})
check_not_empty a = raise_if (size_of a.shape == 0) value_error

abbrev pub one_item : HostArray → HostArray
one_item a = new_array "out" (1 ∷ []) a.itemsize a.dtype

abbrev pub one_real : HostArray → HostArray
one_real a = let (d, itemsize) = real_result a.dtype in new_array "out" (1 ∷ []) itemsize d

-- for the function of dpnp with this name
unfoldable pub common_impl : String → HostArray → HostArray → Result (List Op)
common_impl func a out = do
  check_not_empty a
  ok (
      unary_ops a out a.itemsize (
        call_dpnp func ("out_usm" ∷ []) (
          usm "out_usm"
          ∷ usm "a_usm"
          ∷ shape_of a.name
          ∷ scalar (length a.shape)
          ∷ scalar 0
          ∷ scalar 0
          ∷ scalar 0
          ∷ scalar 0
          ∷ [])))

unfoldable pub dpnp_sum : HostArray → Result (List Op × HostArray)
unfolding common_impl
dpnp_sum a = do ops ← common_impl "dpnp_sum" a (one_item a); ok (ops, one_item a)

unfoldable pub dpnp_prod : HostArray → Result (List Op × HostArray)
unfolding common_impl
dpnp_prod a = do ops ← common_impl "dpnp_prod" a (one_item a); ok (ops, one_item a)

-- of `dpnp_amax_impl` and `dpnp_amin_impl`, which differ in the name
abbrev pub extremum : String → HostArray → Result (List Op × HostArray)
extremum func a = do
  check_not_empty a
  ok (
    unary_ops a (one_item a) a.itemsize (
        call_dpnp func ("out_usm" ∷ []) (
          usm "a_usm"
          ∷ usm "out_usm"
          ∷ scalar (nbytes a)
          ∷ shape_of a.name
          ∷ scalar (length a.shape)
          ∷ scalar 0
          ∷ scalar 0
          ∷ [])),
    one_item a,
  )

unfoldable pub dpnp_amax : HostArray → Result (List Op × HostArray)
dpnp_amax a = extremum "dpnp_max" a

unfoldable pub dpnp_amin : HostArray → Result (List Op × HostArray)
dpnp_amin a = extremum "dpnp_min" a

unfoldable pub dpnp_mean : HostArray → Result (List Op × HostArray)
dpnp_mean a = do
  check_not_empty a
  ok (
    unary_ops a (one_real a) (one_real a).itemsize (
        call_dpnp "dpnp_mean" ("out_usm" ∷ []) (
          usm "a_usm"
          ∷ usm "out_usm"
          ∷ shape_of a.name
          ∷ scalar (length a.shape)
          ∷ scalar 0
          ∷ scalar 0
          ∷ [])),
    one_real a,
  )

unfoldable pub dpnp_median : HostArray → Result (List Op × HostArray)
dpnp_median a = do
  check_not_empty a
  ok (
    unary_ops a (one_real a) (one_real a).itemsize (
        call_dpnp "dpnp_median" ("out_usm" ∷ []) (
          usm "a_usm"
          ∷ usm "out_usm"
          ∷ shape_of a.name
          ∷ scalar (length a.shape)
          ∷ shape_of a.name
          ∷ scalar (length a.shape)
          ∷ [])),
    one_real a,
  )

-- The operand, or its copy in double precision, under the name of the operand.
abbrev pub in_double : HostArray → HostArray
in_double a = new_array a.name a.shape 8 DType.float64

-- the shape of the result, the rows and the columns; of other numbers of dimensions it is not defined
abbrev pub cov_shape : List ℕ → Result (List ℕ × (ℕ × ℕ))
cov_shape (rows ∷ cols ∷ []) = ok (rows ∷ rows ∷ [], (rows, cols))
cov_shape (cols ∷ []) = ok (1 ∷ [], (1, cols))
cov_shape shape = err external_error

unfoldable pub dpnp_cov : HostArray → Result (List Op × HostArray)
dpnp_cov a = do
  check_not_empty a
  (shape, (rows, cols)) ← cov_shape a.shape
  let out = new_array "out" shape 8 DType.float64
  ok (
    unary_ops (in_double a) out (nbytes out) (
        call_dpnp "dpnp_cov" ("out_usm" ∷ [])
          (usm "a_usm" ∷ usm "out_usm" ∷ scalar rows ∷ scalar cols ∷ [])),
    out,
  )
