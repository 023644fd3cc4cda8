-- ===== src/Dpnp/Overloads.antt =====
-- The functions of numba_dppy/dpnp_iface that draw numbers, all together.
use numba_dppy.Prelude.{Bool, List, Option, [], none, refl, some, ℕ, ◌∷◌, ◌≡◌}
use numba_dppy.Result.{Result, external_error, ok, value_error}
use numba_dppy.Dpnp.{Op, PyScalar, int_scalar}
use numba_dppy.Dpnp.Random.{
  Returned, DrawSize, array, given, int_size, is_float, is_integer, item, no_return, no_size,
  one_float, other_size, tuple_size, zero_float,
}
use numba_dppy.Dpnp.Distributions.{
  dpnp_beta, dpnp_binomial, dpnp_chisquare, dpnp_exponential, dpnp_gamma, dpnp_geometric,
  dpnp_gumbel, dpnp_hypergeometric, dpnp_laplace, dpnp_lognormal, dpnp_negative_binomial,
  dpnp_normal, dpnp_poisson, dpnp_rand, dpnp_randint, dpnp_random, dpnp_random_integers,
  dpnp_rayleigh, dpnp_standard_cauchy, dpnp_standard_exponential, dpnp_standard_gamma,
  dpnp_standard_normal, dpnp_uniform, dpnp_weibull,
}
use numba_dppy.Dpnp.Drawn.{
  IsDrawn, draw-IsImpl, of_shape-IsDrawn, range-IsImpl, require-ok, with_size-IsDrawn,
}
use numba_dppy.Memory.{DType}
use numba_dppy.Prelude.Int.{pos}

pub data RandomFunction : Type 0 where
  random standard_cauchy standard_exponential standard_normal : RandomFunction
  rand : List ℕ → RandomFunction
  randint random_integers : PyScalar → Option PyScalar → RandomFunction
  beta binomial negative_binomial : PyScalar → PyScalar → RandomFunction
  chisquare geometric standard_gamma weibull : PyScalar → RandomFunction
  exponential poisson rayleigh : Option PyScalar → RandomFunction
  gamma : PyScalar → Option PyScalar → RandomFunction
  gumbel laplace lognormal normal uniform : Option PyScalar → Option PyScalar → RandomFunction
  hypergeometric : PyScalar → PyScalar → PyScalar → RandomFunction

module _ (raised : Bool) (ge : PyScalar → PyScalar → Bool) (add_one : PyScalar → PyScalar) where
  abbrev pub random_function : RandomFunction → DrawSize → List Op × Result Returned
  random_function random size = dpnp_random raised ge add_one size
  random_function standard_cauchy size = dpnp_standard_cauchy raised ge add_one size
  random_function standard_exponential size = dpnp_standard_exponential raised ge add_one size
  random_function standard_normal size = dpnp_standard_normal raised ge add_one size
  random_function (rand shape) size = dpnp_rand raised ge add_one shape
  random_function (randint low high) size = dpnp_randint raised ge add_one low high size
  random_function (random_integers low high) size =
      dpnp_random_integers raised ge add_one low high size
  random_function (beta a b) size = dpnp_beta raised ge add_one a b size
  random_function (binomial n p) size = dpnp_binomial raised ge add_one n p size
  random_function (negative_binomial n p) size = dpnp_negative_binomial raised ge add_one n p size
  random_function (chisquare df) size = dpnp_chisquare raised ge add_one df size
  random_function (geometric p) size = dpnp_geometric raised ge add_one p size
  random_function (standard_gamma shape) size = dpnp_standard_gamma raised ge add_one shape size
  random_function (weibull a) size = dpnp_weibull raised ge add_one a size
  random_function (exponential scale) size = dpnp_exponential raised ge add_one scale size
  random_function (poisson lam) size = dpnp_poisson raised ge add_one lam size
  random_function (rayleigh scale) size = dpnp_rayleigh raised ge add_one scale size
  random_function (gamma shape scale) size = dpnp_gamma raised ge add_one shape scale size
  random_function (gumbel loc scale) size = dpnp_gumbel raised ge add_one loc scale size
  random_function (laplace loc scale) size = dpnp_laplace raised ge add_one loc scale size
  random_function (lognormal mean sigma) size = dpnp_lognormal raised ge add_one mean sigma size
  random_function (normal loc scale) size = dpnp_normal raised ge add_one loc scale size
  random_function (uniform low high) size = dpnp_uniform raised ge add_one low high size
  random_function (hypergeometric ngood nbad nsample) size =
      dpnp_hypergeometric raised ge add_one ngood nbad nsample size

  pub random_function-IsDrawn :
      (f : RandomFunction) (size : DrawSize) (ops : List Op) (r : Returned)
      → random_function f size ≡ (ops, ok r)
      → IsDrawn ops r
  unfolding dpnp_random dpnp_rand dpnp_randint dpnp_random_integers dpnp_beta dpnp_binomial
      dpnp_negative_binomial dpnp_chisquare dpnp_geometric dpnp_standard_gamma dpnp_weibull
      dpnp_exponential dpnp_poisson dpnp_rayleigh dpnp_gamma dpnp_gumbel dpnp_laplace dpnp_lognormal
      dpnp_normal dpnp_uniform dpnp_hypergeometric dpnp_standard_cauchy dpnp_standard_exponential
      dpnp_standard_normal
  random_function-IsDrawn random no_size ops r h = cc h
  random_function-IsDrawn random other_size ops r h = cc h
  random_function-IsDrawn random (int_size n) ops r h =
      of_shape-IsDrawn array (λ a. refl) DType.float64 (n ∷ []) _
        (range-IsImpl raised ge add_one "dpnp_random_sample" (int_scalar (pos 0))
          (int_scalar (pos 1)))
        ops r h
  random_function-IsDrawn random (tuple_size shape) ops r h =
      of_shape-IsDrawn array (λ a. refl) DType.float64 shape _
        (range-IsImpl raised ge add_one "dpnp_random_sample" (int_scalar (pos 0))
          (int_scalar (pos 1)))
        ops r h
  random_function-IsDrawn (rand shape) size ops r h =
      of_shape-IsDrawn array (λ a. refl) DType.float64 shape _
        (range-IsImpl raised ge add_one "dpnp_random_sample" (int_scalar (pos 0))
          (int_scalar (pos 1)))
        ops r h
  random_function-IsDrawn (randint low (some high)) size ops r h =
      with_size-IsDrawn array array (λ a. refl) (λ a. refl) DType.int32 size _
        (range-IsImpl raised ge add_one "dpnp_random_sample" low high) ops r h
  random_function-IsDrawn (randint low none) size ops r h =
      with_size-IsDrawn array array (λ a. refl) (λ a. refl) DType.int32 size _
        (range-IsImpl raised ge add_one "dpnp_random_sample" (int_scalar (pos 0)) low) ops r h
  random_function-IsDrawn (random_integers low (some high)) size ops r h =
      with_size-IsDrawn array array (λ a. refl) (λ a. refl) DType.int32 size _
        (range-IsImpl raised ge add_one "dpnp_random_sample" low (add_one high)) ops r h
  random_function-IsDrawn (random_integers low none) size ops r h =
      with_size-IsDrawn array array (λ a. refl) (λ a. refl) DType.int32 size _
        (range-IsImpl raised ge add_one "dpnp_random_sample" (int_scalar (pos 1)) (add_one low)) ops
        r h
  random_function-IsDrawn (beta a b) size ops r h =
      with_size-IsDrawn item array (λ a. refl) (λ a. refl) DType.float64 size _
        (draw-IsImpl raised ge add_one external_error "dpnp_beta" (a ∷ b ∷ [])) ops r
        (require-ok (is_float b) _ ops r (require-ok (is_float a) _ ops r h))
  random_function-IsDrawn (binomial n p) size ops r h =
      with_size-IsDrawn item array (λ a. refl) (λ a. refl) DType.int32 size _
        (draw-IsImpl raised ge add_one external_error "dpnp_binomial" (n ∷ p ∷ [])) ops r
        (require-ok (is_float p) _ ops r (require-ok (is_integer n) _ ops r h))
  random_function-IsDrawn (negative_binomial n p) size ops r h =
      with_size-IsDrawn item array (λ a. refl) (λ a. refl) DType.int32 size _
        (draw-IsImpl raised ge add_one external_error "dpnp_negative_binomial" (n ∷ p ∷ [])) ops r
        (require-ok (is_float p) _ ops r (require-ok (is_integer n) _ ops r h))
  random_function-IsDrawn (chisquare df) size ops r h =
      with_size-IsDrawn item array (λ a. refl) (λ a. refl) DType.float64 size _
        (draw-IsImpl raised ge add_one value_error "dpnp_chisquare" (df ∷ [])) ops r
        (require-ok (is_integer df) _ ops r h)
  random_function-IsDrawn (geometric p) size ops r h =
      with_size-IsDrawn item array (λ a. refl) (λ a. refl) DType.int32 size _
        (draw-IsImpl raised ge add_one value_error "dpnp_geometric" (p ∷ [])) ops r
        (require-ok (is_float p) _ ops r h)
  random_function-IsDrawn (standard_gamma shape) size ops r h =
      with_size-IsDrawn item array (λ a. refl) (λ a. refl) DType.float64 size _
        (draw-IsImpl raised ge add_one value_error "dpnp_standard_gamma" (shape ∷ [])) ops r
        (require-ok (is_float shape) _ ops r h)
  random_function-IsDrawn (weibull a) size ops r h =
      with_size-IsDrawn item array (λ a. refl) (λ a. refl) DType.float64 size _
        (draw-IsImpl raised ge add_one value_error "dpnp_weibull" (a ∷ [])) ops r
        (require-ok (is_float a) _ ops r h)
  random_function-IsDrawn (exponential scale) size ops r h =
      with_size-IsDrawn item array (λ a. refl) (λ a. refl) DType.float64 size _
        (draw-IsImpl raised ge add_one value_error "dpnp_exponential" (given one_float scale ∷ []))
        ops r (require-ok (is_float (given one_float scale)) _ ops r h)
  random_function-IsDrawn (poisson lam) size ops r h =
      with_size-IsDrawn item array (λ a. refl) (λ a. refl) DType.int32 size _
        (draw-IsImpl raised ge add_one value_error "dpnp_poisson" (given one_float lam ∷ [])) ops r
        (require-ok (is_float (given one_float lam)) _ ops r h)
  random_function-IsDrawn (rayleigh scale) size ops r h =
      with_size-IsDrawn item array (λ a. refl) (λ a. refl) DType.float64 size _
        (draw-IsImpl raised ge add_one value_error "dpnp_rayleigh" (given one_float scale ∷ [])) ops
        r (require-ok (is_float (given one_float scale)) _ ops r h)
  random_function-IsDrawn (gamma shape scale) size ops r h =
      with_size-IsDrawn item no_return (λ a. refl) (λ a. refl) DType.float64 size _
        (draw-IsImpl raised ge add_one external_error "dpnp_gamma"
          (shape ∷ given one_float scale ∷ []))
        ops r
        (require-ok (is_float (given one_float scale)) _ ops r
          (require-ok (is_float shape) _ ops r h))
  random_function-IsDrawn (gumbel loc scale) size ops r h =
      with_size-IsDrawn item array (λ a. refl) (λ a. refl) DType.float64 size _
        (draw-IsImpl raised ge add_one external_error "dpnp_gumbel"
          (given zero_float loc ∷ given one_float scale ∷ []))
        ops r
        (require-ok (is_float (given one_float scale)) _ ops r
          (require-ok (is_float (given zero_float loc)) _ ops r h))
  random_function-IsDrawn (laplace loc scale) size ops r h =
      with_size-IsDrawn item array (λ a. refl) (λ a. refl) DType.float64 size _
        (draw-IsImpl raised ge add_one external_error "dpnp_laplace"
          (given zero_float loc ∷ given one_float scale ∷ []))
        ops r
        (require-ok (is_float (given one_float scale)) _ ops r
          (require-ok (is_float (given zero_float loc)) _ ops r h))
  random_function-IsDrawn (lognormal mean sigma) size ops r h =
      with_size-IsDrawn item array (λ a. refl) (λ a. refl) DType.float64 size _
        (draw-IsImpl raised ge add_one external_error "dpnp_lognormal"
          (given zero_float mean ∷ given one_float sigma ∷ []))
        ops r
        (require-ok (is_float (given one_float sigma)) _ ops r
          (require-ok (is_float (given zero_float mean)) _ ops r h))
  random_function-IsDrawn (normal loc scale) size ops r h =
      with_size-IsDrawn item array (λ a. refl) (λ a. refl) DType.float64 size _
        (draw-IsImpl raised ge add_one external_error "dpnp_normal"
          (given zero_float loc ∷ given one_float scale ∷ []))
        ops r
        (require-ok (is_float (given one_float scale)) _ ops r
          (require-ok (is_float (given zero_float loc)) _ ops r h))
  random_function-IsDrawn (uniform low high) size ops r h =
      with_size-IsDrawn array array (λ a. refl) (λ a. refl) DType.float64 size _
        (range-IsImpl raised ge add_one "dpnp_uniform" (given zero_float low)
          (given one_float high))
        ops r h
  random_function-IsDrawn (hypergeometric ngood nbad nsample) size ops r h =
      with_size-IsDrawn item array (λ a. refl) (λ a. refl) DType.int32 size _
        (draw-IsImpl raised ge add_one external_error "dpnp_hypergeometric"
          (ngood ∷ nbad ∷ nsample ∷ []))
        ops r
        (require-ok (is_integer nsample) _ ops r
          (require-ok (is_integer nbad) _ ops r (require-ok (is_integer ngood) _ ops r h)))
  random_function-IsDrawn standard_cauchy size ops r h =
      with_size-IsDrawn item array (λ a. refl) (λ a. refl) DType.float64 size _
        (draw-IsImpl raised ge add_one external_error "dpnp_standard_cauchy" ([])) ops r h
  random_function-IsDrawn standard_exponential size ops r h =
      with_size-IsDrawn item array (λ a. refl) (λ a. refl) DType.float64 size _
        (draw-IsImpl raised ge add_one external_error "dpnp_standard_exponential" ([])) ops r h
  random_function-IsDrawn standard_normal size ops r h =
      with_size-IsDrawn item array (λ a. refl) (λ a. refl) DType.float64 size _
        (range-IsImpl raised ge add_one "dpnp_normal" zero_float one_float) ops r h
