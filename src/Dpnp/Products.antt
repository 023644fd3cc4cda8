-- ===== src/Dpnp/Products.antt =====
-- The two products of numba_dppy/dpnp_iface/dpnp_linalgimpl.py on the machine.
use numba_dppy.Prelude.{List, String, [], arith, refl, ℕ, ◌∷◌}
use numba_dppy.Prelude.Dict.{delete, get, set}
use numba_dppy.Prelude.Names.{String-discrete}
use numba_dppy.Dpnp.{ArgContents, HostArray, IsClean, nbytes, step}
use numba_dppy.Dpnp.Linalg.{common_dot_impl, new_array}
use numba_dppy.Dpnp.Clean.{start_machine}
use numba_dppy.Memory.{DType}
use native.Mathlib.Decide.{ℕ_discrete}

module _ {C : Type 0} (uninitialised : C) (dpnp : String → List (ArgContents C) → ℕ → C) where
  abbrev pub two_operands : C → C → HostArray → HostArray → HostArray → List (String × (C × ℕ))
  two_operands x y a b out =
      ("a", (x, nbytes a)) ∷ ("b", (y, nbytes b)) ∷ ("out", (uninitialised, nbytes out)) ∷ []

  -- The product of two vectors leaves nothing behind, and each of its calls is allowed.
  pub common_dot_impl-IsClean :
      (x y : C) (shape shape' out_shape : List ℕ) (i i' i'' : ℕ) (d d' d'' : DType)
      → IsClean uninitialised dpnp
          (start_machine uninitialised dpnp (
            two_operands x y
              (new_array "a" shape i d)
              (new_array "b" shape' i' d')
              (new_array "out" out_shape i'' d'')))
          (common_dot_impl
            (new_array "a" shape i d)
            (new_array "b" shape' i' d')
            (new_array "out" out_shape i'' d''))
  unfolding step get set delete String-discrete ℕ_discrete common_dot_impl
  common_dot_impl-IsClean x y shape shape' out_shape i i' i'' d d' d'' = (
    refl,
    (
      (omega arith, (omega arith, tt)),
      (
        (λ e. cc e),
        (
          (λ e. cc e),
          (
            refl,
            (
              (omega arith, (omega arith, tt)),
              (
                (λ e. cc e),
                (
                  (λ e. cc e),
                  (
                    refl,
                    (
                      (omega arith, (tt, (omega arith, (tt, (omega arith, (tt, tt)))))),
                      (
                        (omega arith, (omega arith, tt)),
                        (
                          (λ e. cc e),
                          (
                            (λ e. cc e),
                            (
                              (omega arith, tt),
                              ((omega arith, tt), ((omega arith, tt), (refl, (refl, refl)))),
                            ),
                          ),
                        ),
                      ),
                    ),
                  ),
                ),
              ),
            ),
          ),
        ),
      ),
    ),
  )
