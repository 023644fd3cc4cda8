-- ===== src/Dpnp/Functions.antt =====
-- The functions of one operand and one result of numba_dppy/dpnp_iface, all together.
use numba_dppy.Prelude.{
  Bool, List, String, [], arith, false, if◌then◌else◌, inl, inr, length, ltb, refl, true, ℕ, ◌*◌,
  ◌==◌, ◌∷◌, ◌≡◌, ◌≤◌, ◌⊎◌,
}
use numba_dppy.Result.{>>=-eq-ok, Result, ok, raise_if, value_error}
use numba_dppy.Dpnp.{DpnpArg, HostArray, Op, call_dpnp, nbytes, scalar, shape_of, size_of, usm}
use numba_dppy.Dpnp.Linalg.{
  check_finite_matrix, dpnp_cholesky, dpnp_det, dpnp_matrix_rank, leading, new_array, square,
  unary_ops,
}
use numba_dppy.Dpnp.Statistics.{
  dpnp_amax, dpnp_amin, dpnp_cov, dpnp_mean, dpnp_median, dpnp_prod, dpnp_sum, in_double,
}
use numba_dppy.Dpnp.Arrays.{dpnp_argmax, dpnp_argmin, dpnp_argsort, dpnp_copy, dpnp_sort}
use numba_dppy.Dpnp.Clean.{UsesOnlyBoth}
use numba_dppy.Memory.{DType}

pub data UnaryFunction : Type 0 where
  cholesky sum prod amax amin mean median cov copy sort argsort argmax argmin : UnaryFunction
  -- with whether the matrix is finite
  det : Bool → UnaryFunction
  -- with whether `tol` is given, and `hermitian`
  matrix_rank : Bool → Bool → UnaryFunction

abbrev pub unary_function : UnaryFunction → HostArray → Result (List Op × HostArray)
unary_function cholesky a = dpnp_cholesky a
unary_function sum a = dpnp_sum a
unary_function prod a = dpnp_prod a
unary_function amax a = dpnp_amax a
unary_function amin a = dpnp_amin a
unary_function mean a = dpnp_mean a
unary_function median a = dpnp_median a
unary_function cov a = dpnp_cov a
unary_function copy a = dpnp_copy a
unary_function sort a = dpnp_sort a
unary_function argsort a = dpnp_argsort a
unary_function argmax a = dpnp_argmax a
unary_function argmin a = dpnp_argmin a
unary_function (det all_finite) a = dpnp_det all_finite a
unary_function (matrix_rank has_tol hermitian) a = dpnp_matrix_rank a has_tol hermitian

-- what the function copies to the device
abbrev pub operand : UnaryFunction → HostArray → HostArray
operand cov a = in_double a
operand f a = a

-- The calls of a function of one operand.
pub record IsUnary (a : HostArray) (ops : List Op) (out : HostArray) : Type 0 where
  pub out_shape : List ℕ
  pub out_itemsize : ℕ
  pub out_dtype : DType
  pub out_bytes : ℕ
  pub func : String
  pub args : List DpnpArg
  pub out_is : out ≡ new_array "out" out_shape out_itemsize out_dtype
  pub ops_are :
      ops
      ≡ unary_ops a
          (new_array "out" out_shape out_itemsize out_dtype)
          out_bytes
          (call_dpnp func ("out_usm" ∷ []) args)
  pub uses : UsesOnlyBoth args
  pub room : size_of out_shape * out_itemsize ≤ out_bytes

pub cholesky-IsUnary :
    (a : HostArray) (ops : List Op) (out : HostArray)
    → dpnp_cholesky a ≡ ok (ops, out)
    → (ops ≡ []) ⊎ IsUnary a ops out
unfolding dpnp_cholesky
cholesky-IsUnary a ops out h =
    let (n, e, h₁) = >>=-eq-ok (square a.shape) _ h in by_size (n == 0) h₁
  where
    call : Op
    call =
        call_dpnp "dpnp_cholesky" ("out_usm" ∷ [])
          (usm "a_usm" ∷ usm "out_usm" ∷ shape_of a.name ∷ [])

    made : HostArray
    made = new_array "out" a.shape a.itemsize a.dtype

    by_size :
        (b : Bool)
        → ◌≡◌ {A = Result (List Op × HostArray)}
            (ok (if b then [] else unary_ops a made (nbytes made) call, made))
            (ok (ops, out))
        → (ops ≡ []) ⊎ IsUnary a ops out
    by_size true k = inl (cc k)
    by_size false k = inr (record {
      out_shape = a.shape;
      out_itemsize = a.itemsize;
      out_dtype = a.dtype;
      out_bytes = nbytes made;
      func = "dpnp_cholesky";
      args = usm "a_usm" ∷ usm "out_usm" ∷ shape_of a.name ∷ [];
      out_is = cc k;
      ops_are = cc k;
      uses = (inl refl, (inr refl, tt));
      room = omega arith;
    })

pub det-IsUnary :
    (all_finite : Bool) (a : HostArray) (ops : List Op) (out : HostArray)
    → dpnp_det all_finite a ≡ ok (ops, out)
    → IsUnary a ops out
unfolding dpnp_det
det-IsUnary all_finite a ops out h =
    let (n, e, h₁) = >>=-eq-ok (square a.shape) _ h in
    let (u, e', h₂) = >>=-eq-ok (check_finite_matrix all_finite) _ h₁ in
    record {
      out_shape = if length a.shape == 2 then 1 ∷ [] else leading a.shape;
      out_itemsize = a.itemsize;
      out_dtype = a.dtype;
      out_bytes = size_of (if length a.shape == 2 then 1 ∷ [] else leading a.shape) * a.itemsize;
      func = "dpnp_det";
      args = usm "a_usm" ∷ usm "out_usm" ∷ shape_of a.name ∷ scalar (length a.shape) ∷ [];
      out_is = cc h₂;
      ops_are = cc h₂;
      uses = (inl refl, (inr refl, tt));
      room = omega arith;
    }

pub matrix_rank-IsUnary :
    (has_tol hermitian : Bool) (a : HostArray) (ops : List Op) (out : HostArray)
    → dpnp_matrix_rank a has_tol hermitian ≡ ok (ops, out)
    → IsUnary a ops out
unfolding dpnp_matrix_rank
matrix_rank-IsUnary has_tol hermitian a ops out h =
    let (u₁, e₁, h₁) = >>=-eq-ok (raise_if has_tol value_error) _ h in
    let (u₂, e₂, h₂) = >>=-eq-ok (raise_if hermitian value_error) _ h₁ in
    let (u₃, e₃, h₃) = >>=-eq-ok (raise_if (ltb 2 (length a.shape)) value_error) _ h₂ in
    record {
      out_shape = 1 ∷ [];
      out_itemsize = a.itemsize;
      out_dtype = a.dtype;
      out_bytes = size_of (1 ∷ []) * a.itemsize;
      func = "dpnp_matrix_rank";
      args = usm "a_usm" ∷ usm "out_usm" ∷ shape_of a.name ∷ scalar (length a.shape) ∷ [];
      out_is = cc h₃;
      ops_are = cc h₃;
      uses = (inl refl, (inr refl, tt));
      room = omega arith;
    }
