-- ===== src/Dpnp/Drawn.antt =====
-- How the functions of numba_dppy/dpnp_iface that draw numbers come to return.
-- One call of dpnp, whose result is copied to the array.
use numba_dppy.Prelude.{
  Bool, List, String, [], arith, false, if◌then◌else◌, inl, inr, not, refl, subst, sym, true, ℕ,
  ◌++◌, ◌==◌, ◌∷◌, ◌≡◌, ◌⊎◌,
}
use numba_dppy.Result.{Error, Result, err, external_error, ok}
use numba_dppy.Dpnp.{HostArray, Op, PyScalar, size_of}
use numba_dppy.Dpnp.Random.{
  Returned, DrawSize, common_impl_range, draw, draw_ops, fetch_ops, filled_array, int_size, no_size,
  of_shape, other_size, require, res_of, returns, tuple_size, with_size,
}
use numba_dppy.Memory.{DType}

pub record IsDraw (ops : List Op) (r : Returned) : Type 0 where
  pub shape : List ℕ
  pub dtype : DType
  pub func : String
  pub args : List PyScalar
  pub res_is : filled_array r ≡ res_of dtype shape
  pub ops_are : ops ≡ draw_ops func args (res_of dtype shape) ++ fetch_ops (res_of dtype shape)

abbrev pub IsDrawn : List Op → Returned → Type 0
IsDrawn ops r = ((ops ≡ []) × (size_of (filled_array r).shape ≡ 0)) ⊎ IsDraw ops r

abbrev pub IsImpl : (HostArray → List Op × Result (Unit {0})) → Type 0
IsImpl impl =
    (res : HostArray) (ops : List Op) (u : Unit {0})
    → impl res ≡ (ops, ok u)
    → (func : String) × (args : List PyScalar) × (ops ≡ draw_ops func args res ++ fetch_ops res)

pub require-ok :
    {A : Type 0}
    → (b : Bool) (out : List Op × Result A) (ops : List Op) (r : A) → require b out ≡ (ops, ok r)
    → out ≡ (ops, ok r)
require-ok true out ops r h = h
require-ok false out ops r h = cc h

returns_lem :
    (p : List Op × Result (Unit {0})) (r r' : Returned) (ops : List Op)
    → returns p r ≡ (ops, ok r')
    → (r ≡ r') × ((u : Unit {0}) × (p ≡ (ops, ok u)))
returns_lem (ops', err e) r r' ops h = cc h
returns_lem (ops', ok u) r r' ops h = (cc h, (u, cc h))

call-IsDrawn :
    (all : HostArray → Returned) (all_lem : (res : HostArray) → filled_array (all res) ≡ res)
    (d : DType) (shape : List ℕ) (impl : HostArray → List Op × Result (Unit {0}))
    (of_impl : IsImpl impl) (ops : List Op) (r : Returned)
    → returns (impl (res_of d shape)) (all (res_of d shape)) ≡ (ops, ok r)
    → IsDrawn ops r
call-IsDrawn all all_lem d shape impl of_impl ops r h =
    let (same, (u, e)) = returns_lem (impl (res_of d shape)) (all (res_of d shape)) r ops h in
    let (func, args, ops_are) = of_impl (res_of d shape) ops u e in
    inr (record {
      shape = shape;
      dtype = d;
      func = func;
      args = args;
      res_is = subst (λ r. filled_array r ≡ res_of d shape) same (all_lem (res_of d shape));
      ops_are = ops_are;
    })

pub of_shape-IsDrawn :
    (all : HostArray → Returned) (all_lem : (res : HostArray) → filled_array (all res) ≡ res)
    (d : DType) (shape : List ℕ) (impl : HostArray → List Op × Result (Unit {0}))
    (of_impl : IsImpl impl) (ops : List Op) (r : Returned)
    → of_shape all d shape impl ≡ (ops, ok r)
    → IsDrawn ops r
of_shape-IsDrawn all all_lem d shape impl of_impl ops r = by_size (size_of shape == 0) refl
  where
    by_size :
        (b : Bool)
        → (size_of shape == 0) ≡ b
        → (if b
            then ([], ok (all (res_of d shape)))
            else returns (impl (res_of d shape)) (all (res_of d shape)))
          ≡ (ops, ok r)
        → IsDrawn ops r
    by_size true e h =
        let same : all (res_of d shape) ≡ r = cc h in
        let empty : size_of shape ≡ 0 = ground (arith, e) in
        inl (
          cc h,
          subst (λ a. size_of a.shape ≡ 0)
              (sym (subst (λ r. filled_array r ≡ res_of d shape) same (all_lem (res_of d shape))))
              empty,
        )
    by_size false e h = call-IsDrawn all all_lem d shape impl of_impl ops r h

pub with_size-IsDrawn :
    (one all : HostArray → Returned) (one_lem : (res : HostArray) → filled_array (one res) ≡ res)
    (all_lem : (res : HostArray) → filled_array (all res) ≡ res) (d : DType) (size : DrawSize)
    (impl : HostArray → List Op × Result (Unit {0})) (of_impl : IsImpl impl) (ops : List Op)
    (r : Returned)
    → with_size one all d size impl ≡ (ops, ok r)
    → IsDrawn ops r
with_size-IsDrawn one all one_lem all_lem d no_size impl of_impl ops r h =
    call-IsDrawn one one_lem d (1 ∷ []) impl of_impl ops r h
with_size-IsDrawn one all one_lem all_lem d other_size impl of_impl ops r h = cc h
with_size-IsDrawn one all one_lem all_lem d (int_size n) impl of_impl ops r h =
    of_shape-IsDrawn all all_lem d (n ∷ []) impl of_impl ops r h
with_size-IsDrawn one all one_lem all_lem d (tuple_size shape) impl of_impl ops r h =
    of_shape-IsDrawn all all_lem d shape impl of_impl ops r h

module _ (raised : Bool) (ge : PyScalar → PyScalar → Bool) (add_one : PyScalar → PyScalar) where
  pub draw-IsImpl :
      (e : Error) (func : String) (args : List PyScalar)
      → IsImpl (draw raised ge add_one e func args)
  draw-IsImpl e func args res ops u = by_raised raised
    where
      by_raised :
          (b : Bool)
          → ◌≡◌ {A = List Op × Result (Unit {0})}
              (if b
                then (draw_ops func args res, err e)
                else (draw_ops func args res ++ fetch_ops res, ok tt))
              (ops, ok u)
          → (func : String) × (args : List PyScalar) × (ops
              ≡ draw_ops func args res ++ fetch_ops res)
      by_raised true h = cc h
      by_raised false h = (func, args, cc h)

  pub range-IsImpl :
      (func : String) (low high : PyScalar)
      → IsImpl (common_impl_range raised ge add_one func low high)
  range-IsImpl func low high res ops u h =
      draw-IsImpl external_error func (low ∷ high ∷ []) res ops u
        (require-ok (not (ge low high)) _ ops u h)
