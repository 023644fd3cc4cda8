-- ===== src/Dpnp/Random.antt =====
-- numba_dppy/dpnp_iface/dpnp_randomimpl.py: the checks of the arguments, and the order of the calls.
-- The overloads have the names of what they overload.
use numba_dppy.Prelude.{
  Bool, List, Option, String, [], false, if◌then◌else◌, none, not, some, true, ℕ, ◌++◌, ◌==◌, ◌∷◌,
}
use numba_dppy.Result.{Error, Result, err, external_error, ok, value_error}
use numba_dppy.Dpnp.{
  DpnpArg, HostArray, Op, PyScalar, call_dpnp, copy_from_usm, float_scalar, free_with_queue,
  int_scalar, malloc_shared, nbytes, number, scalar, size_of, usm,
}
use numba_dppy.Dpnp.Linalg.{itemsize_of, new_array}
use numba_dppy.Memory.{DType}

-- The argument `size`, which may be left out.
pub data DrawSize : Type 0 where
  no_size other_size : DrawSize
  int_size : ℕ → DrawSize
  tuple_size : List ℕ → DrawSize

-- An array, its only item, or None though the array was filled.
pub data Returned : Type 0 where
  array item no_return : HostArray → Returned

abbrev pub filled_array : Returned → HostArray
filled_array (array res) = res
filled_array (item res) = res
filled_array (no_return res) = res

-- `isinstance(v, types.Float)`, and `types.Integer`
abbrev pub is_float : PyScalar → Bool
is_float (float_scalar bits) = true
is_float v = false

abbrev pub is_integer : PyScalar → Bool
is_integer (int_scalar n) = true
is_integer v = false

-- the defaults 0.0 and 1.0, by their bits
abbrev pub zero_float : PyScalar
zero_float = float_scalar 0

abbrev pub one_float : PyScalar
one_float = float_scalar 4607182418800017408

abbrev pub given : PyScalar → Option PyScalar → PyScalar
given default_value none = default_value
given default_value (some v) = v

abbrev pub res_of : DType → List ℕ → HostArray
res_of d shape = new_array "res" shape (itemsize_of d) d

-- A check when the overload is typed.
abbrev pub require : {A : Type 0} → Bool → List Op × Result A → List Op × Result A
require b out = if b then out else ([], err value_error)

-- The numbers among the arguments, and the size of the result.
abbrev pub numbers : List PyScalar → ℕ → List DpnpArg
numbers [] n = scalar n ∷ []
numbers (v ∷ args) n = number v ∷ numbers args n

abbrev pub draw_ops : String → List PyScalar → HostArray → List Op
draw_ops func args res =
    malloc_shared "res_usm" (nbytes res)
    ∷ call_dpnp func ("res_usm" ∷ []) (usm "res_usm" ∷ numbers args (size_of res.shape))
    ∷ []

abbrev pub fetch_ops : HostArray → List Op
fetch_ops res = copy_from_usm res "res_usm" 0 ++ free_with_queue "res_usm" ∷ []

-- Whether the array is filled is known from the result of the call, which is `ok` or what is raised.
abbrev pub returns : List Op × Result (Unit {0}) → Returned → List Op × Result Returned
returns (ops, err e) r = (ops, err e)
returns (ops, ok u) r = (ops, ok r)

-- An array of the size is not filled if it is empty.
abbrev pub of_shape :
    (HostArray → Returned)
    → DType
    → List ℕ
    → (HostArray → List Op × Result (Unit {0}))
    → List Op × Result Returned
of_shape all d shape impl =
    if size_of shape == 0
    then ([], ok (all (res_of d shape)))
    else returns (impl (res_of d shape)) (all (res_of d shape))

-- The two bodies of an overload: what it returns without a size, and with one.
abbrev pub with_size :
    (HostArray → Returned)
    → (HostArray → Returned)
    → DType
    → DrawSize
    → (HostArray → List Op × Result (Unit {0}))
    → List Op × Result Returned
with_size one all d no_size impl = returns (impl (res_of d (1 ∷ []))) (one (res_of d (1 ∷ [])))
with_size one all d other_size impl = ([], err external_error)
with_size one all d (int_size n) impl = of_shape all d (n ∷ []) impl
with_size one all d (tuple_size shape) impl = of_shape all d shape impl

-- Whether dpnp raises is up to the device. Numba compiles `low >= high` and `high + 1`.
module _ (raised : Bool) (ge : PyScalar → PyScalar → Bool) (add_one : PyScalar → PyScalar) where
  -- What dpnp raises goes through, or becomes another exception.
  abbrev pub draw : Error → String → List PyScalar → HostArray → List Op × Result (Unit {0})
  draw e func args res =
      if raised
      then (draw_ops func args res, err e)
      else (draw_ops func args res ++ fetch_ops res, ok tt)

  abbrev pub common_impl_range :
      String → PyScalar → PyScalar → HostArray → List Op × Result (Unit {0})
  common_impl_range func low high res =
      require (not (ge low high)) (draw external_error func (low ∷ high ∷ []) res)

  abbrev pub common_impl_0_arg : String → HostArray → List Op × Result (Unit {0})
  common_impl_0_arg func res = draw external_error func [] res

  abbrev pub common_impl_1_arg : String → PyScalar → HostArray → List Op × Result (Unit {0})
  common_impl_1_arg func arg1 res = draw value_error func (arg1 ∷ []) res

  abbrev pub common_impl_2_arg :
      String → PyScalar → PyScalar → HostArray → List Op × Result (Unit {0})
  common_impl_2_arg func arg1 arg2 res = draw external_error func (arg1 ∷ arg2 ∷ []) res

  abbrev pub common_impl_hypergeometric :
      String → PyScalar → PyScalar → PyScalar → HostArray → List Op × Result (Unit {0})
  common_impl_hypergeometric func ngood nbad nsample res =
      draw external_error func (ngood ∷ nbad ∷ nsample ∷ []) res
