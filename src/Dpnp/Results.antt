-- ===== src/Dpnp/Results.antt =====
-- Whatever a function of one operand of numba_dppy/dpnp_iface returns: its calls leave nothing behind,
-- and its result is what dpnp makes of the operand.
use numba_dppy.Prelude.{List, String, [], some, ℕ, ◌∷◌, ◌≡◌}
use numba_dppy.Dpnp.{
  ArgContents, DpnpArg, HostArray, Op, arg_contents, contents_of, nbytes, run_ops,
}
use numba_dppy.Dpnp.Clean.{one_operand, start_machine}

module _ {C : Type 0} (uninitialised : C) (dpnp : String → List (ArgContents C) → ℕ → C) where
  -- the array of the result has what dpnp makes of the operand, which has contents `x`
  abbrev pub HasResult : C → HostArray → List Op → HostArray → Type 0
  HasResult x a ops out =
      (func : String) × (args : List DpnpArg) × (out_bytes : ℕ) × (contents_of uninitialised dpnp
          (run_ops uninitialised dpnp
            (start_machine uninitialised dpnp (one_operand uninitialised dpnp x a out)) ops).host
          "out"
        ≡ some (
            dpnp func
              (arg_contents uninitialised dpnp
                (("a_usm", (x, nbytes a)) ∷ ("out_usm", (uninitialised, out_bytes)) ∷ []) args)
              0))
