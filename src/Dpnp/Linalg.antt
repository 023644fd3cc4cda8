-- ===== src/Dpnp/Linalg.antt =====
-- numba_dppy/dpnp_iface/dpnp_linalgimpl.py: the order of the calls in each function.
use numba_dppy.Prelude.{Bool, List, String, [], if◌then◌else◌, length, ltb, not, ℕ, ◌++◌, ◌==◌, ◌∷◌}
use numba_dppy.Result.{
  Result, assertion_error, err, external_error, index_error, ok, raise_if, value_error, ◌>>=◌, ◌>>◌,
}
use numba_dppy.Memory.{DType}
use numba_dppy.Dpnp.{
  DpnpArg, HostArray, Op, call_dpnp, copy_from_usm, copy_to_usm, free_with_queue, host_pointer,
  malloc_shared, memcpy_to_device, nbytes, scalar, shape_of, size_of, usm,
}

-- `shape[-1]` and `shape[-2]`
abbrev pub last_two : List ℕ → Result (ℕ × ℕ)
last_two [] = err index_error
last_two (n ∷ []) = err index_error
last_two (m ∷ n ∷ []) = ok (m, n)
last_two (l ∷ m ∷ n ∷ shape) = last_two (m ∷ n ∷ shape)

-- `shape[:-2]`
abbrev pub leading : List ℕ → List ℕ
leading [] = []
leading (n ∷ []) = []
leading (m ∷ n ∷ []) = []
leading (l ∷ m ∷ n ∷ shape) = l ∷ leading (m ∷ n ∷ shape)

-- the order of the last two extents, which are to be the same
abbrev pub square : List ℕ → Result ℕ
square shape = do (m, n) ← last_two shape; raise_if (not (m == n)) value_error; ok n

abbrev pub new_array : String → List ℕ → ℕ → DType → HostArray
new_array name shape itemsize dtype = record {
  name = name;
  shape = shape;
  itemsize = itemsize;
  dtype = dtype;
}

-- `np.float32` for arrays of it, else `np.float64`, with the size of an item
abbrev pub real_result : DType → DType × ℕ
real_result DType.float32 = (DType.float32, 4)
real_result d = (DType.float64, 8)

-- `_check_finite_matrix` of numba_dppy/dpnp_iface/dpnpimpl.py
abbrev pub check_finite_matrix : Bool → Result (Unit {0})
check_finite_matrix all_finite = raise_if (not all_finite) external_error

-- The calls for a matrix of order `n` that is not empty.
abbrev pub eig_ops : HostArray → HostArray → HostArray → ℕ → List Op
eig_ops a wr vr n =
    malloc_shared "a_usm" (nbytes a) ∷ copy_to_usm "a_usm" a 0
    ++ malloc_shared "wr_usm" (nbytes wr)
      ∷ malloc_shared "vr_usm" (nbytes vr)
      ∷ call_dpnp "dpnp_eig" ("wr_usm" ∷ "vr_usm" ∷ [])
          (usm "a_usm" ∷ usm "wr_usm" ∷ usm "vr_usm" ∷ scalar n ∷ [])
      ∷ copy_from_usm wr "wr_usm" 1
    ++ copy_from_usm vr "vr_usm" 2
    ++ free_with_queue "a_usm" ∷ free_with_queue "wr_usm" ∷ free_with_queue "vr_usm" ∷ []

-- with the arrays that it returns
unfoldable pub dpnp_eig : Bool → HostArray → Result (List Op × (HostArray × HostArray))
dpnp_eig all_finite a = do
  n ← square a.shape
  check_finite_matrix all_finite
  let (res_dtype, itemsize) = real_result a.dtype
  let wr = new_array "wr" (n ∷ []) itemsize res_dtype
  let vr = new_array "vr" (n ∷ n ∷ []) itemsize res_dtype
  ok (if n == 0 then [] else eig_ops a wr vr n, (wr, vr))

-- The arguments of the two products: the result, and the two operands.
abbrev pub product_args : ℕ → ℕ → ℕ → ℕ → ℕ → ℕ → DpnpArg → DpnpArg → DpnpArg → List DpnpArg
product_args out_size out_ndim a_size a_ndim b_size b_ndim out_shape a_shape b_shape =
    usm "out_usm"
    ∷ scalar out_size
    ∷ scalar out_ndim
    ∷ out_shape
    ∷ host_pointer "strides"
    ∷ usm "a_usm"
    ∷ scalar a_size
    ∷ scalar a_ndim
    ∷ a_shape
    ∷ host_pointer "strides"
    ∷ usm "b_usm"
    ∷ scalar b_size
    ∷ scalar b_ndim
    ∷ b_shape
    ∷ host_pointer "strides"
    ∷ []

abbrev pub free_product : List Op
free_product = free_with_queue "a_usm" ∷ free_with_queue "b_usm" ∷ free_with_queue "out_usm" ∷ []

-- The event of the first copy is not kept.
unfoldable pub common_matmul_impl : HostArray → HostArray → HostArray → List Op
common_matmul_impl a b out =
    malloc_shared "a_usm" (nbytes a)
      ∷ memcpy_to_device "a_usm" a.name (nbytes a) 0
      ∷ malloc_shared "b_usm" (nbytes b)
      ∷ copy_to_usm "b_usm" b 1
    ++ malloc_shared "out_usm" (nbytes out)
      ∷ call_dpnp "dpnp_matmul" ("out_usm" ∷ []) (
          product_args (size_of out.shape) 2 (size_of a.shape) 2 (size_of b.shape) 2
            (host_pointer "out_m") (host_pointer "a_m") (host_pointer "b_m"))
      ∷ copy_from_usm out "out_usm" 2
    ++ free_product

unfoldable pub common_dot_impl : HostArray → HostArray → HostArray → List Op
common_dot_impl a b out =
    malloc_shared "a_usm" (nbytes a) ∷ copy_to_usm "a_usm" a 0
    ++ malloc_shared "b_usm" (nbytes b) ∷ copy_to_usm "b_usm" b 1
    ++ malloc_shared "out_usm" (nbytes out)
      ∷ call_dpnp "dpnp_dot" ("out_usm" ∷ []) (
          product_args (size_of out.shape) (length out.shape) (size_of a.shape) (length a.shape)
            (size_of b.shape) (length b.shape) (shape_of out.name) (shape_of a.name)
            (shape_of b.name))
      ∷ copy_from_usm out "out_usm" 2
    ++ free_product

-- The result of two of the four dtypes, and `np.float64` of others.
unfoldable pub get_res_dtype : DType → DType → DType
get_res_dtype DType.int32 DType.int32 = DType.int32
get_res_dtype DType.int32 DType.int64 = DType.int64
get_res_dtype DType.int64 DType.int32 = DType.int64
get_res_dtype DType.int64 DType.int64 = DType.int64
get_res_dtype DType.float32 DType.float32 = DType.float32
get_res_dtype DType.float64 DType.float32 = DType.float32
get_res_dtype a b = DType.float64

abbrev pub itemsize_of : DType → ℕ
itemsize_of DType.int32 = 4
itemsize_of DType.float32 = 4
itemsize_of d = 8

abbrev pub out_of : HostArray → HostArray → List ℕ → HostArray
out_of a b shape = let d = get_res_dtype a.dtype b.dtype in new_array "out" shape (itemsize_of d) d

-- by the numbers of dimensions; `assert 0` for others
unfoldable pub dpnp_dot : HostArray → HostArray → Result (List Op × HostArray)
unfolding get_res_dtype common_matmul_impl common_dot_impl
dpnp_dot a b = by_shapes a.shape b.shape
  where
    product : List ℕ → List Op × HostArray
    product shape = (common_matmul_impl a b (out_of a b shape), out_of a b shape)

    by_shapes : List ℕ → List ℕ → Result (List Op × HostArray)
    by_shapes (m ∷ k ∷ []) (k' ∷ n ∷ []) = do
      raise_if (not (k' == k)) value_error
      ok (product (m ∷ n ∷ []))
    by_shapes (m ∷ k ∷ []) (n ∷ []) = do raise_if (not (n == k)) value_error; ok (product (m ∷ []))
    by_shapes (m ∷ []) (k ∷ n ∷ []) = do raise_if (not (m == k)) value_error; ok (product (n ∷ []))
    by_shapes (m ∷ []) (n ∷ []) = do
      raise_if (not (m == n)) value_error
      ok (common_dot_impl a b (out_of a b (1 ∷ [])), out_of a b (1 ∷ []))
    by_shapes _ _ = err assertion_error

-- The calls of the functions of one operand and one result.
abbrev pub unary_ops : HostArray → HostArray → ℕ → Op → List Op
unary_ops a out out_bytes call =
    malloc_shared "a_usm" (nbytes a) ∷ copy_to_usm "a_usm" a 0
    ++ malloc_shared "out_usm" out_bytes ∷ call ∷ copy_from_usm out "out_usm" 1
    ++ free_with_queue "a_usm" ∷ free_with_queue "out_usm" ∷ []

unfoldable pub dpnp_cholesky : HostArray → Result (List Op × HostArray)
dpnp_cholesky a = do
  n ← square a.shape
  let out = new_array "out" a.shape a.itemsize a.dtype
  ok (
    if n == 0
        then []
        else unary_ops a out (nbytes out) (
            call_dpnp "dpnp_cholesky" ("out_usm" ∷ [])
              (usm "a_usm" ∷ usm "out_usm" ∷ shape_of a.name ∷ [])),
    out,
  )

unfoldable pub dpnp_det : Bool → HostArray → Result (List Op × HostArray)
dpnp_det all_finite a = do
  n ← square a.shape
  check_finite_matrix all_finite
  let out =
      new_array "out" (if length a.shape == 2 then 1 ∷ [] else leading a.shape) a.itemsize a.dtype
  ok (
    unary_ops a out (nbytes out) (
        call_dpnp "dpnp_det" ("out_usm" ∷ [])
          (usm "a_usm" ∷ usm "out_usm" ∷ shape_of a.name ∷ scalar (length a.shape) ∷ [])),
    out,
  )

-- `tol` is given or not.
unfoldable pub dpnp_matrix_rank : HostArray → Bool → Bool → Result (List Op × HostArray)
dpnp_matrix_rank a has_tol hermitian = do
  raise_if has_tol value_error
  raise_if hermitian value_error
  raise_if (ltb 2 (length a.shape)) value_error
  let out = new_array "out" (1 ∷ []) a.itemsize a.dtype
  ok (
    unary_ops a out (nbytes out) (
        call_dpnp "dpnp_matrix_rank" ("out_usm" ∷ [])
          (usm "a_usm" ∷ usm "out_usm" ∷ shape_of a.name ∷ scalar (length a.shape) ∷ [])),
    out,
  )
