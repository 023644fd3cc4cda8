-- ===== src/Dpnp/Fetched.antt =====
-- What the functions of numba_dppy/dpnp_iface that draw numbers leave on the machine.
use numba_dppy.Prelude.{
  Bool, List, String, [], arith, inl, inr, refl, some, subst, subst₂, sym, ℕ, ◌++◌, ◌∷◌, ◌≡◌, ◌⊎◌,
}
use numba_dppy.Prelude.Dict.{delete, get, set}
use numba_dppy.Prelude.Names.{String-discrete}
use numba_dppy.Result.{ok}
use numba_dppy.Dpnp.{
  AreReady, ArgContents, DpnpArg, HostArray, IsClean, Machine, Op, PyScalar, arg_contents,
  contents_of, nbytes, run_ops, size_of, step, usm,
}
use numba_dppy.Dpnp.Random.{Returned, DrawSize, draw_ops, fetch_ops, filled_array, numbers, res_of}
use numba_dppy.Dpnp.Overloads.{RandomFunction, random_function, random_function-IsDrawn}
use numba_dppy.Dpnp.Clean.{start_machine}
use numba_dppy.Memory.{DType}
use native.Mathlib.Decide.{ℕ_discrete}

module _ {C : Type 0} (uninitialised : C) (dpnp : String → List (ArgContents C) → ℕ → C) where
  abbrev pub one_result : HostArray → List (String × (C × ℕ))
  one_result res = ("res", (uninitialised, nbytes res)) ∷ []

  numbers-AreReady :
      (m : Machine uninitialised dpnp) (args : List PyScalar) (n : ℕ)
      → AreReady uninitialised dpnp m (numbers args n)
  numbers-AreReady m [] n = tt
  numbers-AreReady m (v ∷ args) n = numbers-AreReady m args n

  draw_ops-IsClean :
      (func : String) (args : List PyScalar) (d : DType) (shape : List ℕ)
      → IsClean uninitialised dpnp
          (start_machine uninitialised dpnp (one_result (res_of d shape)))
          (draw_ops func args (res_of d shape) ++ fetch_ops (res_of d shape))
  unfolding step get set delete String-discrete ℕ_discrete
  draw_ops-IsClean func args d shape = (
    refl,
    (
      (
        omega arith,
        (
          tt,
          numbers-AreReady
              (record {
                host = one_result (res_of d shape);
                device = ("res_usm", (uninitialised, nbytes (res_of d shape))) ∷ [];
                in_flight = [];
                undeleted = [];
              })
              args (size_of shape),
        ),
      ),
      (
        (omega arith, (omega arith, tt)),
        ((λ e. cc e), ((λ e. cc e), ((omega arith, tt), (refl, (refl, refl))))),
      ),
    ),
  )

  -- the array has what a function of dpnp makes
  abbrev pub HasNumbers : List Op → HostArray → Type 0
  HasNumbers ops res =
      (func : String) × (args : List DpnpArg) × (contents_of uninitialised dpnp
          (run_ops uninitialised dpnp (start_machine uninitialised dpnp (one_result res)) ops).host
          "res"
        ≡ some (
            dpnp func
              (arg_contents uninitialised dpnp (("res_usm", (uninitialised, nbytes res)) ∷ []) args)
              0))

  draw_ops-HasNumbers :
      (func : String) (args : List PyScalar) (d : DType) (shape : List ℕ)
      → HasNumbers
          (draw_ops func args (res_of d shape) ++ fetch_ops (res_of d shape))
          (res_of d shape)
  unfolding run_ops step get set delete String-discrete ℕ_discrete
  draw_ops-HasNumbers func args d shape = (func, usm "res_usm" ∷ numbers args (size_of shape), refl)

  -- If a function that draws numbers returns, each of its calls is allowed where it stands, no USM
  -- memory, copy or event is left, and either it made no call, and its array has no items, or the
  -- array has what a function of dpnp makes.
  pub random_function-IsClean :
      (raised : Bool) (ge : PyScalar → PyScalar → Bool) (add_one : PyScalar → PyScalar)
      (f : RandomFunction) (size : DrawSize) (ops : List Op) (r : Returned)
      → random_function raised ge add_one f size ≡ (ops, ok r)
      → IsClean uninitialised dpnp
          (start_machine uninitialised dpnp (one_result (filled_array r)))
          ops
        × (((ops ≡ []) × (size_of (filled_array r).shape ≡ 0)) ⊎ HasNumbers ops (filled_array r))
  random_function-IsClean raised ge add_one f size ops r h =
      elim (random_function-IsDrawn raised ge add_one f size ops r h) [
        | inl (nothing, empty) ↦ (
          subst
              (λ o.
                IsClean uninitialised dpnp
                  (start_machine uninitialised dpnp (one_result (filled_array r))) o)
              (sym nothing) (refl, (refl, refl)),
          inl (nothing, empty),
        )
        | inr drawn ↦
            subst₂
              (λ o a.
                IsClean uninitialised dpnp (start_machine uninitialised dpnp (one_result a)) o
                × (((ops ≡ []) × (size_of (filled_array r).shape ≡ 0)) ⊎ HasNumbers o a))
              (sym drawn.ops_are) (sym drawn.res_is)
              (
                draw_ops-IsClean drawn.func drawn.args drawn.dtype drawn.shape,
                inr (draw_ops-HasNumbers drawn.func drawn.args drawn.dtype drawn.shape),
              )
      ]
