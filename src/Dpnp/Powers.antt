-- ===== src/Dpnp/Powers.antt =====
-- The functions of numba_dppy/dpnp_iface that call others of `numba_dppy.dpnp`, over any type of
-- arrays.
use numba_dppy.Prelude.{
  Bool, List, [], arith, if◌then◌else◌, refl, suc, zero, ℕ, ◌-◌, ◌==◌, ◌∷◌, ◌≡◌,
}
use numba_dppy.Result.{Result, err, index_error, ok, value_error, ◌>>=◌}
use numba_dppy.Prelude.Int.{negsuc, pos, ℤ}

module _ {A : Type 0} (dot : A → A → Result A) where
  -- The loop of `dpnp_multi_dot_impl` over `arrays[1:]`.
  abbrev pub dot_all : A → List A → Result A
  dot_all result [] = ok result
  dot_all result (a ∷ arrays) = do next ← dot result a; dot_all next arrays

  unfoldable pub multi_dot : List A → Result A
  multi_dot [] = err index_error
  multi_dot (a ∷ arrays) = dot_all a arrays

  -- `np.ravel` is the first parameter.
  unfoldable pub vdot : (A → A) → A → A → Result A
  vdot ravel a b = dot (ravel a) (ravel b)

  -- The loop of `dpnp_matrix_power_impl`, `n` times.
  abbrev pub times_loop : A → A → ℕ → Result A
  times_loop a result zero = ok result
  times_loop a result (suc n) = do next ← dot result a; times_loop a next n

  -- `identity` is `np.identity(a.shape[0], a.dtype)`.
  unfoldable pub matrix_power : (A → A) → A → ℤ → Result A
  matrix_power identity a (negsuc n) = err value_error
  matrix_power identity a (pos n) = if n == 0 then ok (identity a) else times_loop a a (n - 1)

  abbrev pub copies : A → ℕ → List A
  copies a zero = []
  copies a (suc n) = a ∷ copies a n

  times_loop-dot_all : (a result : A) (n : ℕ) → times_loop a result n ≡ dot_all result (copies a n)
  times_loop-dot_all a result zero = refl
  times_loop-dot_all a result (suc n) =
      by_product (dot result a) (λ next. times_loop-dot_all a next n)
    where
      by_product :
          (r : Result A)
          → ((next : A) → times_loop a next n ≡ dot_all next (copies a n))
          → (r >>= λ next. times_loop a next n) ≡ (r >>= λ next. dot_all next (copies a n))
      by_product (err e) rest = refl
      by_product (ok next) rest = rest next

  -- A positive power of a matrix is the product of so many copies of it.
  pub matrix_power-multi_dot :
      (identity : A → A) (a : A) (n : ℕ)
      → matrix_power identity a (pos (suc n)) ≡ multi_dot (copies a (suc n))
  unfolding matrix_power multi_dot
  matrix_power-multi_dot identity a n = ground (arith, times_loop-dot_all a a n)

-- `dpnp_eigvals_impl`
unfoldable pub eigvals : {A B : Type 0} → (A → Result (B × B)) → A → Result B
eigvals eig a = do (eigval, eigvec) ← eig a; ok eigval

module _ {A : Type 0} (is_nan : A → Bool) (zero_item : A) where
  -- The loop of `dpnp_nansum_impl` over the copy; `dpnp_nanprod_impl` has one in the place of zero.
  abbrev pub without_nans : List A → List A
  without_nans [] = []
  without_nans (x ∷ items) = (if is_nan x then zero_item else x) ∷ without_nans items

  -- of the items of the ravelled array, with `numba_dppy.dpnp.sum`, or `prod`, for `reduce`
  unfoldable pub nan_reduction : (List A → Result A) → List A → Result A
  nan_reduction reduce items = reduce (without_nans items)
