-- ===== src/Dpnp/Clean.antt =====
-- The functions of numba_dppy/dpnp_iface on the machine: each call is allowed, nothing is left, and
-- the result is what dpnp makes of the operands.
use numba_dppy.Prelude.{
  List, String, [], arith, inl, inr, refl, some, subst, sym, ℕ, ◌*◌, ◌∷◌, ◌≡◌, ◌≤◌, ◌⊎◌,
}
use numba_dppy.Prelude.Dict.{delete, get, set}
use numba_dppy.Prelude.Names.{String-discrete}
use numba_dppy.Memory.{DType}
use numba_dppy.Dpnp.{
  AreReady, ArgContents, DpnpArg, HasRoom, HostArray, IsClean, Machine, arg_contents, call_dpnp,
  contents_of, host_pointer, nbytes, number, run_ops, scalar, shape_of, size_of, step, usm,
}
use numba_dppy.Dpnp.Linalg.{new_array, unary_ops}
use native.Mathlib.Decide.{ℕ_discrete}

-- No USM memory but that of the operand and of the result.
abbrev pub UsesOnlyBoth : List DpnpArg → Type 0
UsesOnlyBoth [] = Unit {0}
UsesOnlyBoth (usm name ∷ args) = ((name ≡ "a_usm") ⊎ (name ≡ "out_usm")) × UsesOnlyBoth args
UsesOnlyBoth (arg ∷ args) = UsesOnlyBoth args

module _ {C : Type 0} (uninitialised : C) (dpnp : String → List (ArgContents C) → ℕ → C) where
  -- Arrays with their contents, and no USM memory.
  abbrev pub start_machine : List (String × (C × ℕ)) → Machine uninitialised dpnp
  start_machine arrays = record { host = arrays; device = []; in_flight = []; undeleted = [] }

  abbrev pub one_operand : C → HostArray → HostArray → List (String × (C × ℕ))
  one_operand x a out = ("a", (x, nbytes a)) ∷ ("out", (uninitialised, nbytes out)) ∷ []

  ready_lem :
      (arrays : List (String × (C × ℕ))) (x y : C) (m n : ℕ) (args : List DpnpArg)
      → UsesOnlyBoth args
      → AreReady uninitialised dpnp
          (record {
            host = arrays;
            device = ("a_usm", (x, m)) ∷ ("out_usm", (y, n)) ∷ [];
            in_flight = [];
            undeleted = [];
          })
          args
  unfolding get String-discrete
  ready_lem arrays x y m n [] u = tt
  ready_lem arrays x y m n (usm name ∷ args) (inl e, u) = (
    subst (λ s. HasRoom uninitialised dpnp (("a_usm", (x, m)) ∷ ("out_usm", (y, n)) ∷ []) s 0)
        (sym e) (omega arith),
    (tt, ready_lem arrays x y m n args u),
  )
  ready_lem arrays x y m n (usm name ∷ args) (inr e, u) = (
    subst (λ s. HasRoom uninitialised dpnp (("a_usm", (x, m)) ∷ ("out_usm", (y, n)) ∷ []) s 0)
        (sym e) (omega arith),
    (tt, ready_lem arrays x y m n args u),
  )
  ready_lem arrays x y m n (shape_of name ∷ args) u = ready_lem arrays x y m n args u
  ready_lem arrays x y m n (host_pointer name ∷ args) u = ready_lem arrays x y m n args u
  ready_lem arrays x y m n (scalar k ∷ args) u = ready_lem arrays x y m n args u
  ready_lem arrays x y m n (number v ∷ args) u = ready_lem arrays x y m n args u

  pub unary_ops-IsClean :
      (x : C) (shape out_shape : List ℕ) (itemsize out_itemsize out_bytes : ℕ) (d out_d : DType)
      (func : String) (args : List DpnpArg)
      → UsesOnlyBoth args
      → size_of out_shape * out_itemsize ≤ out_bytes
      → IsClean uninitialised dpnp
          (start_machine (
            one_operand x
              (new_array "a" shape itemsize d)
              (new_array "out" out_shape out_itemsize out_d)))
          (unary_ops
            (new_array "a" shape itemsize d)
            (new_array "out" out_shape out_itemsize out_d)
            out_bytes
            (call_dpnp func ("out_usm" ∷ []) args))
  unfolding step get set delete String-discrete ℕ_discrete
  unary_ops-IsClean x shape out_shape itemsize out_itemsize out_bytes d out_d func args u room = (
    refl,
    (
      (omega arith, (omega arith, tt)),
      (
        (λ e. cc e),
        (
          (λ e. cc e),
          (
            refl,
            (
              ready_lem [] x uninitialised (size_of shape * itemsize) out_bytes args u,
              (
                (room, (omega arith, tt)),
                (
                  (λ e. cc e),
                  ((λ e. cc e), ((omega arith, tt), ((omega arith, tt), (refl, (refl, refl))))),
                ),
              ),
            ),
          ),
        ),
      ),
    ),
  )

  -- The contents that the host array of the result gets.
  pub unary_ops-contents :
      (x : C) (shape out_shape : List ℕ) (itemsize out_itemsize out_bytes : ℕ) (d out_d : DType)
      (func : String) (args : List DpnpArg)
      → contents_of uninitialised dpnp
          (run_ops uninitialised dpnp
            (start_machine (
              one_operand x
                (new_array "a" shape itemsize d)
                (new_array "out" out_shape out_itemsize out_d)))
            (unary_ops
              (new_array "a" shape itemsize d)
              (new_array "out" out_shape out_itemsize out_d)
              out_bytes
              (call_dpnp func ("out_usm" ∷ []) args))).host
          "out"
        ≡ some (
            dpnp func
              (arg_contents uninitialised dpnp
                (("a_usm", (x, size_of shape * itemsize))
                  ∷ ("out_usm", (uninitialised, out_bytes))
                  ∷ [])
                args)
              0)
  unfolding run_ops step get set delete String-discrete ℕ_discrete
  unary_ops-contents x shape out_shape itemsize out_itemsize out_bytes d out_d func args = refl
