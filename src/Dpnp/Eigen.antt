-- ===== src/Dpnp/Eigen.antt =====
-- dpnp_eig_impl of numba_dppy/dpnp_iface/dpnp_linalgimpl.py on the machine.
use numba_dppy.Prelude.{
  Bool, List, String, [], arith, false, if◌then◌else◌, refl, subst, subst₂, true, ℕ, ◌*◌, ◌==◌, ◌∷◌,
  ◌≡◌,
}
use numba_dppy.Prelude.Dict.{delete, get, set}
use numba_dppy.Prelude.Names.{String-discrete}
use numba_dppy.Result.{>>=-eq-ok, ok}
use numba_dppy.Dpnp.{ArgContents, HostArray, IsClean, Op, nbytes, size_of, step}
use numba_dppy.Dpnp.Linalg.{check_finite_matrix, dpnp_eig, eig_ops, new_array, real_result, square}
use numba_dppy.Dpnp.Clean.{start_machine}
use numba_dppy.Memory.{DType}
use native.Mathlib.Decide.{ℕ_discrete}

module _ {C : Type 0} (uninitialised : C) (dpnp : String → List (ArgContents C) → ℕ → C) where
  eig_ops-IsClean :
      (x : C) (shape wr_shape vr_shape : List ℕ) (n i j : ℕ) (d e : DType)
      → IsClean uninitialised dpnp
          (start_machine uninitialised dpnp (
            ("a", (x, size_of shape * i))
            ∷ ("wr", (uninitialised, size_of wr_shape * j))
            ∷ ("vr", (uninitialised, size_of vr_shape * j))
            ∷ []))
          (eig_ops
            (new_array "a" shape i d)
            (new_array "wr" wr_shape j e)
            (new_array "vr" vr_shape j e)
            n)
  unfolding step get set delete String-discrete ℕ_discrete
  eig_ops-IsClean x shape wr_shape vr_shape n i j d e = (
    refl,
    (
      (omega arith, (omega arith, tt)),
      (
        (λ e. cc e),
        (
          (λ e. cc e),
          (
            refl,
            (
              refl,
              (
                (omega arith, (tt, (omega arith, (tt, (omega arith, (tt, tt)))))),
                (
                  (omega arith, (omega arith, tt)),
                  (
                    (λ e. cc e),
                    (
                      (λ e. cc e),
                      (
                        (omega arith, (omega arith, tt)),
                        (
                          (λ e. cc e),
                          (
                            (λ e. cc e),
                            (
                              (omega arith, tt),
                              ((omega arith, tt), ((omega arith, tt), (refl, (refl, refl)))),
                            ),
                          ),
                        ),
                      ),
                    ),
                  ),
                ),
              ),
            ),
          ),
        ),
      ),
    ),
  )

  -- The eigenvalues and vectors of a matrix are made with allowed calls that leave nothing behind.
  pub dpnp_eig-IsClean :
      (all_finite : Bool) (x : C) (shape : List ℕ) (i : ℕ) (d : DType) (ops : List Op)
      (wr vr : HostArray)
      → dpnp_eig all_finite (new_array "a" shape i d) ≡ ok (ops, (wr, vr))
      → IsClean uninitialised dpnp
          (start_machine uninitialised dpnp (
            ("a", (x, size_of shape * i))
            ∷ ("wr", (uninitialised, nbytes wr))
            ∷ ("vr", (uninitialised, nbytes vr))
            ∷ []))
          ops
  unfolding dpnp_eig
  dpnp_eig-IsClean all_finite x shape i d ops wr vr h =
      let (n, e, h₁) = >>=-eq-ok (square shape) _ h in
      let (u, e', h₂) = >>=-eq-ok (check_finite_matrix all_finite) _ h₁ in
      let made_wr : new_array "wr" (n ∷ []) (real_result d).1 (real_result d).0 ≡ wr = cc h₂ in
      let made_vr : new_array "vr" (n ∷ n ∷ []) (real_result d).1 (real_result d).0 ≡ vr = cc h₂ in
      let made : (if n == 0
            then []
            else eig_ops (new_array "a" shape i d)
                (new_array "wr" (n ∷ []) (real_result d).1 (real_result d).0)
                (new_array "vr" (n ∷ n ∷ []) (real_result d).1 (real_result d).0) n)
          ≡ ops =
        cc h₂ in
      subst
        (λ o.
          IsClean uninitialised dpnp
            (start_machine uninitialised dpnp (
              ("a", (x, size_of shape * i))
              ∷ ("wr", (uninitialised, nbytes wr))
              ∷ ("vr", (uninitialised, nbytes vr))
              ∷ []))
            o)
        made
        (subst₂
          (λ w v.
            IsClean uninitialised dpnp
              (start_machine uninitialised dpnp (
                ("a", (x, size_of shape * i))
                ∷ ("wr", (uninitialised, nbytes w))
                ∷ ("vr", (uninitialised, nbytes v))
                ∷ []))
              (if n == 0
                then []
                else eig_ops (new_array "a" shape i d)
                    (new_array "wr" (n ∷ []) (real_result d).1 (real_result d).0)
                    (new_array "vr" (n ∷ n ∷ []) (real_result d).1 (real_result d).0) n))
          made_wr made_vr (by_order (n == 0) n))
    where
      by_order :
          (b : Bool) (n : ℕ)
          → IsClean uninitialised dpnp
              (start_machine uninitialised dpnp (
                ("a", (x, size_of shape * i))
                ∷ ("wr", (uninitialised, size_of (n ∷ []) * (real_result d).1))
                ∷ ("vr", (uninitialised, size_of (n ∷ n ∷ []) * (real_result d).1))
                ∷ []))
              (if b
                then []
                else eig_ops
                    (new_array "a" shape i d)
                    (new_array "wr" (n ∷ []) (real_result d).1 (real_result d).0)
                    (new_array "vr" (n ∷ n ∷ []) (real_result d).1 (real_result d).0)
                    n)
      by_order true n = (refl, (refl, refl))
      by_order false n =
          eig_ops-IsClean x shape (n ∷ []) (n ∷ n ∷ []) n i (real_result d).1 d (real_result d).0
