-- ===== src/Dpnp/Unary.antt =====
-- Each function of one operand of numba_dppy/dpnp_iface makes the calls of such a function, or none.
use numba_dppy.Prelude.{List, String, [], arith, inl, inr, length, refl, ℕ, ◌*◌, ◌∷◌, ◌≡◌, ◌≤◌, ◌⊎◌}
use numba_dppy.Result.{>>=-eq-ok, Result, ok, ◌>>=◌, ◌>>◌}
use numba_dppy.Dpnp.{DpnpArg, HostArray, Op, call_dpnp, nbytes, scalar, shape_of, size_of, usm}
use numba_dppy.Dpnp.Linalg.{new_array, unary_ops}
use numba_dppy.Dpnp.Statistics.{
  check_not_empty, common_impl, cov_shape, dpnp_amax, dpnp_amin, dpnp_cov, dpnp_mean, dpnp_median,
  dpnp_prod, dpnp_sum, extremum, in_double, one_item, one_real,
}
use numba_dppy.Dpnp.Arrays.{
  array_call, array_call_lem, dpnp_argmax, dpnp_argmin, dpnp_argsort, dpnp_copy, dpnp_sort,
}
use numba_dppy.Dpnp.Functions.{
  IsUnary, UnaryFunction, amax, amin, argmax, argmin, argsort, cholesky, cholesky-IsUnary, copy,
  cov, det, det-IsUnary, matrix_rank, matrix_rank-IsUnary, mean, median, operand, prod, sort, sum,
  unary_function,
}
use numba_dppy.Dpnp.Clean.{UsesOnlyBoth}
use numba_dppy.Memory.{DType}

one_item_lem : (n : ℕ) → size_of (1 ∷ []) * n ≤ n
one_item_lem n = omega arith

common_impl-IsUnary :
    (func : String) (a : HostArray) (ops : List Op) (out : HostArray)
    → ◌≡◌ {A = Result (List Op × HostArray)}
        (do ops ← common_impl func a (one_item a); ok (ops, one_item a))
        (ok (ops, out))
    → IsUnary a ops out
unfolding common_impl
common_impl-IsUnary func a ops out h =
    let (ops', e, h₁) = >>=-eq-ok (common_impl func a (one_item a)) _ h in
    let (u, e', h₂) = >>=-eq-ok (check_not_empty a) _ e in
    record {
      out_shape = 1 ∷ [];
      out_itemsize = a.itemsize;
      out_dtype = a.dtype;
      out_bytes = a.itemsize;
      func = func;
      args =
          usm "out_usm"
          ∷ usm "a_usm"
          ∷ shape_of a.name
          ∷ scalar (length a.shape)
          ∷ scalar 0
          ∷ scalar 0
          ∷ scalar 0
          ∷ scalar 0
          ∷ [];
      out_is = cc h₁;
      ops_are = cc (h₁, h₂);
      uses = (inr refl, (inl refl, tt));
      room = one_item_lem a.itemsize;
    }

extremum-IsUnary :
    (func : String) (a : HostArray) (ops : List Op) (out : HostArray)
    → extremum func a ≡ ok (ops, out)
    → IsUnary a ops out
extremum-IsUnary func a ops out h =
    let (u, e, h₁) = >>=-eq-ok (check_not_empty a) _ h in
    record {
      out_shape = 1 ∷ [];
      out_itemsize = a.itemsize;
      out_dtype = a.dtype;
      out_bytes = a.itemsize;
      func = func;
      args =
          usm "a_usm"
          ∷ usm "out_usm"
          ∷ scalar (nbytes a)
          ∷ shape_of a.name
          ∷ scalar (length a.shape)
          ∷ scalar 0
          ∷ scalar 0
          ∷ [];
      out_is = cc h₁;
      ops_are = cc h₁;
      uses = (inl refl, (inr refl, tt));
      room = one_item_lem a.itemsize;
    }

-- of the mean and the median, whose last arguments differ
real-IsUnary :
    (func : String) (last : List DpnpArg) (a : HostArray) (ops : List Op) (out : HostArray)
    → UsesOnlyBoth last
    → ◌≡◌ {A = Result (List Op × HostArray)}
        (do
          check_not_empty a
          ok (
            unary_ops a (one_real a) (one_real a).itemsize (
                call_dpnp func
                  ("out_usm" ∷ [])
                  (usm "a_usm" ∷ usm "out_usm" ∷ shape_of a.name ∷ scalar (length a.shape) ∷ last)),
            one_real a,
          ))
        (ok (ops, out))
    → IsUnary a ops out
real-IsUnary func last a ops out u h =
    let (v, e, h₁) = >>=-eq-ok (check_not_empty a) _ h in
    record {
      out_shape = 1 ∷ [];
      out_itemsize = (one_real a).itemsize;
      out_dtype = (one_real a).dtype;
      out_bytes = (one_real a).itemsize;
      func = func;
      args = usm "a_usm" ∷ usm "out_usm" ∷ shape_of a.name ∷ scalar (length a.shape) ∷ last;
      out_is = cc h₁;
      ops_are = cc h₁;
      uses = (inl refl, (inr refl, u));
      room = one_item_lem (one_real a).itemsize;
    }

cov-IsUnary :
    (a : HostArray) (ops : List Op) (out : HostArray)
    → dpnp_cov a ≡ ok (ops, out)
    → IsUnary (in_double a) ops out
unfolding dpnp_cov
cov-IsUnary a ops out h =
    let (u, e, h₁) = >>=-eq-ok (check_not_empty a) _ h in
    let (p, e', h₂) = >>=-eq-ok (cov_shape a.shape) _ h₁ in
    record {
      out_shape = p.0;
      out_itemsize = 8;
      out_dtype = DType.float64;
      out_bytes = size_of p.0 * 8;
      func = "dpnp_cov";
      args = usm "a_usm" ∷ usm "out_usm" ∷ scalar p.1.0 ∷ scalar p.1.1 ∷ [];
      out_is = cc h₂;
      ops_are = cc h₂;
      uses = (inl refl, (inr refl, tt));
      room = omega arith;
    }

array_call-IsUnary :
    (func : String) (a : HostArray) (shape : List ℕ) (itemsize : ℕ) (d : DType) (bytes : ℕ)
    (ops : List Op) (out : HostArray)
    → size_of shape * itemsize ≤ bytes
    → array_call func a (new_array "out" shape itemsize d) bytes ≡ ok (ops, out)
    → IsUnary a ops out
array_call-IsUnary func a shape itemsize d bytes ops out room h =
    let (out_is, ops_are) = array_call_lem func a shape itemsize d bytes ops out h in
    record {
      out_shape = shape;
      out_itemsize = itemsize;
      out_dtype = d;
      out_bytes = bytes;
      func = func;
      args = usm "a_usm" ∷ usm "out_usm" ∷ scalar (size_of a.shape) ∷ [];
      out_is = out_is;
      ops_are = ops_are;
      uses = (inl refl, (inr refl, tt));
      room = room;
    }

pub unary_function-IsUnary :
    (f : UnaryFunction) (a : HostArray) (ops : List Op) (out : HostArray)
    → unary_function f a ≡ ok (ops, out)
    → (ops ≡ []) ⊎ IsUnary (operand f a) ops out
unfolding dpnp_sum dpnp_prod dpnp_amax dpnp_amin dpnp_mean dpnp_median dpnp_copy dpnp_sort
    dpnp_argsort dpnp_argmax dpnp_argmin
unary_function-IsUnary cholesky a ops out h = cholesky-IsUnary a ops out h
unary_function-IsUnary sum a ops out h = inr (common_impl-IsUnary "dpnp_sum" a ops out h)
unary_function-IsUnary prod a ops out h = inr (common_impl-IsUnary "dpnp_prod" a ops out h)
unary_function-IsUnary amax a ops out h = inr (extremum-IsUnary "dpnp_max" a ops out h)
unary_function-IsUnary amin a ops out h = inr (extremum-IsUnary "dpnp_min" a ops out h)
unary_function-IsUnary mean a ops out h =
    inr (real-IsUnary "dpnp_mean" (scalar 0 ∷ scalar 0 ∷ []) a ops out tt h)
unary_function-IsUnary median a ops out h =
    inr (real-IsUnary "dpnp_median" (shape_of a.name ∷ scalar (length a.shape) ∷ []) a ops out tt h)
unary_function-IsUnary cov a ops out h = inr (cov-IsUnary a ops out h)
unary_function-IsUnary copy a ops out h = inr (
    array_call-IsUnary "dpnp_copy" a (size_of a.shape ∷ []) a.itemsize a.dtype _ ops out
      (omega arith) h)
unary_function-IsUnary sort a ops out h = inr (
    array_call-IsUnary "dpnp_sort" a (size_of a.shape ∷ []) a.itemsize a.dtype _ ops out
      (omega arith) h)
unary_function-IsUnary argsort a ops out h = inr (
    array_call-IsUnary "dpnp_argsort" a (size_of a.shape ∷ []) 8 DType.int64 _ ops out (omega arith)
      h)
unary_function-IsUnary argmax a ops out h =
    inr (array_call-IsUnary "dpnp_argmax" a (1 ∷ []) 8 DType.int64 8 ops out (omega arith) h)
unary_function-IsUnary argmin a ops out h =
    inr (array_call-IsUnary "dpnp_argmin" a (1 ∷ []) 8 DType.int64 8 ops out (omega arith) h)
unary_function-IsUnary (det all_finite) a ops out h = inr (det-IsUnary all_finite a ops out h)
unary_function-IsUnary (matrix_rank has_tol hermitian) a ops out h =
    inr (matrix_rank-IsUnary has_tol hermitian a ops out h)

pub operand_lem :
    (f : UnaryFunction) (shape : List ℕ) (itemsize : ℕ) (d : DType)
    → (itemsize' : ℕ) × (d' : DType) × (operand f (new_array "a" shape itemsize d)
        ≡ new_array "a" shape itemsize' d')
operand_lem cholesky shape itemsize d = (itemsize, d, refl)
operand_lem sum shape itemsize d = (itemsize, d, refl)
operand_lem prod shape itemsize d = (itemsize, d, refl)
operand_lem amax shape itemsize d = (itemsize, d, refl)
operand_lem amin shape itemsize d = (itemsize, d, refl)
operand_lem mean shape itemsize d = (itemsize, d, refl)
operand_lem median shape itemsize d = (itemsize, d, refl)
operand_lem cov shape itemsize d = (8, DType.float64, refl)
operand_lem copy shape itemsize d = (itemsize, d, refl)
operand_lem sort shape itemsize d = (itemsize, d, refl)
operand_lem argsort shape itemsize d = (itemsize, d, refl)
operand_lem argmax shape itemsize d = (itemsize, d, refl)
operand_lem argmin shape itemsize d = (itemsize, d, refl)
operand_lem (det all_finite) shape itemsize d = (itemsize, d, refl)
operand_lem (matrix_rank has_tol hermitian) shape itemsize d = (itemsize, d, refl)
