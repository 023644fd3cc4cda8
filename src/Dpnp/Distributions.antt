-- ===== src/Dpnp/Distributions.antt =====
-- numba_dppy/dpnp_iface/dpnp_randomimpl.py: the overloads that draw numbers, by the names of what they
-- overload.
use numba_dppy.Prelude.{Bool, List, Option, [], none, some, ℕ}
use numba_dppy.Result.{Result, err, external_error}
use numba_dppy.Dpnp.{Op, PyScalar, int_scalar}
use numba_dppy.Dpnp.Random.{
  Returned, DrawSize, array, common_impl_0_arg, common_impl_1_arg, common_impl_2_arg,
  common_impl_hypergeometric, common_impl_range, given, is_float, is_integer, item, no_return,
  no_size, of_shape, one_float, require, with_size, zero_float,
}
use numba_dppy.Memory.{DType}
use numba_dppy.Prelude.Int.{pos}

module _ (raised : Bool) (ge : PyScalar → PyScalar → Bool) (add_one : PyScalar → PyScalar) where
  -- `random`, `sample`, `ranf` and `random_sample`
  unfoldable pub dpnp_random : DrawSize → List Op × Result Returned
  dpnp_random no_size = ([], err external_error)
  dpnp_random size = with_size array array DType.float64 size (
      common_impl_range raised ge add_one "dpnp_random_sample" (int_scalar (pos 0))
        (int_scalar (pos 1)))

  -- `size` is the tuple of the arguments.
  unfoldable pub dpnp_rand : List ℕ → List Op × Result Returned
  dpnp_rand size = of_shape array DType.float64 size (
      common_impl_range raised ge add_one "dpnp_random_sample" (int_scalar (pos 0))
        (int_scalar (pos 1)))

  unfoldable pub dpnp_randint : PyScalar → Option PyScalar → DrawSize → List Op × Result Returned
  dpnp_randint low (some high) size =
      with_size array array DType.int32 size
        (common_impl_range raised ge add_one "dpnp_random_sample" low high)
  dpnp_randint low none size =
      with_size array array DType.int32 size
        (common_impl_range raised ge add_one "dpnp_random_sample" (int_scalar (pos 0)) low)

  unfoldable pub dpnp_random_integers :
      PyScalar → Option PyScalar → DrawSize → List Op × Result Returned
  dpnp_random_integers low (some high) size =
      with_size array array DType.int32 size
        (common_impl_range raised ge add_one "dpnp_random_sample" low (add_one high))
  dpnp_random_integers low none size =
      with_size array array DType.int32 size (
        common_impl_range raised ge add_one "dpnp_random_sample" (int_scalar (pos 1)) (add_one low))

  unfoldable pub dpnp_beta : PyScalar → PyScalar → DrawSize → List Op × Result Returned
  dpnp_beta a b size = require (is_float a) (
      require (is_float b) (
        with_size item array DType.float64 size
          (common_impl_2_arg raised ge add_one "dpnp_beta" a b)))

  unfoldable pub dpnp_binomial : PyScalar → PyScalar → DrawSize → List Op × Result Returned
  dpnp_binomial n p size = require (is_integer n) (
      require (is_float p) (
        with_size item array DType.int32 size
          (common_impl_2_arg raised ge add_one "dpnp_binomial" n p)))

  unfoldable pub dpnp_chisquare : PyScalar → DrawSize → List Op × Result Returned
  dpnp_chisquare df size = require (is_integer df) (
      with_size item array DType.float64 size
        (common_impl_1_arg raised ge add_one "dpnp_chisquare" df))

  unfoldable pub dpnp_exponential : Option PyScalar → DrawSize → List Op × Result Returned
  dpnp_exponential scale size = require (is_float (given one_float scale)) (
      with_size item array DType.float64 size
        (common_impl_1_arg raised ge add_one "dpnp_exponential" (given one_float scale)))

  -- With a size, the array is filled, but None is returned.
  unfoldable pub dpnp_gamma : PyScalar → Option PyScalar → DrawSize → List Op × Result Returned
  dpnp_gamma shape scale size = require (is_float shape) (
      require (is_float (given one_float scale)) (
        with_size item no_return DType.float64 size
          (common_impl_2_arg raised ge add_one "dpnp_gamma" shape (given one_float scale))))

  unfoldable pub dpnp_geometric : PyScalar → DrawSize → List Op × Result Returned
  dpnp_geometric p size = require (is_float p) (
      with_size item array DType.int32 size
        (common_impl_1_arg raised ge add_one "dpnp_geometric" p))

  unfoldable pub dpnp_gumbel :
      Option PyScalar → Option PyScalar → DrawSize → List Op × Result Returned
  dpnp_gumbel loc scale size = require (is_float (given zero_float loc)) (
      require (is_float (given one_float scale)) (
        with_size item array DType.float64 size (
          common_impl_2_arg raised ge add_one "dpnp_gumbel" (given zero_float loc)
            (given one_float scale))))

  unfoldable pub dpnp_hypergeometric :
      PyScalar → PyScalar → PyScalar → DrawSize → List Op × Result Returned
  dpnp_hypergeometric ngood nbad nsample size = require (is_integer ngood) (
      require (is_integer nbad) (
        require (is_integer nsample) (
          with_size item array DType.int32 size (
            common_impl_hypergeometric raised ge add_one "dpnp_hypergeometric" ngood nbad
              nsample))))

  unfoldable pub dpnp_laplace :
      Option PyScalar → Option PyScalar → DrawSize → List Op × Result Returned
  dpnp_laplace loc scale size = require (is_float (given zero_float loc)) (
      require (is_float (given one_float scale)) (
        with_size item array DType.float64 size (
          common_impl_2_arg raised ge add_one "dpnp_laplace" (given zero_float loc)
            (given one_float scale))))

  unfoldable pub dpnp_lognormal :
      Option PyScalar → Option PyScalar → DrawSize → List Op × Result Returned
  dpnp_lognormal mean sigma size = require (is_float (given zero_float mean)) (
      require (is_float (given one_float sigma)) (
        with_size item array DType.float64 size (
          common_impl_2_arg raised ge add_one "dpnp_lognormal" (given zero_float mean)
            (given one_float sigma))))

  unfoldable pub dpnp_negative_binomial : PyScalar → PyScalar → DrawSize → List Op × Result Returned
  dpnp_negative_binomial n p size = require (is_integer n) (
      require (is_float p) (
        with_size item array DType.int32 size
          (common_impl_2_arg raised ge add_one "dpnp_negative_binomial" n p)))

  unfoldable pub dpnp_normal :
      Option PyScalar → Option PyScalar → DrawSize → List Op × Result Returned
  dpnp_normal loc scale size = require (is_float (given zero_float loc)) (
      require (is_float (given one_float scale)) (
        with_size item array DType.float64 size (
          common_impl_2_arg raised ge add_one "dpnp_normal" (given zero_float loc)
            (given one_float scale))))

  unfoldable pub dpnp_poisson : Option PyScalar → DrawSize → List Op × Result Returned
  dpnp_poisson lam size = require (is_float (given one_float lam)) (
      with_size item array DType.int32 size
        (common_impl_1_arg raised ge add_one "dpnp_poisson" (given one_float lam)))

  unfoldable pub dpnp_rayleigh : Option PyScalar → DrawSize → List Op × Result Returned
  dpnp_rayleigh scale size = require (is_float (given one_float scale)) (
      with_size item array DType.float64 size
        (common_impl_1_arg raised ge add_one "dpnp_rayleigh" (given one_float scale)))

  unfoldable pub dpnp_standard_cauchy : DrawSize → List Op × Result Returned
  dpnp_standard_cauchy size =
      with_size item array DType.float64 size
        (common_impl_0_arg raised ge add_one "dpnp_standard_cauchy")

  unfoldable pub dpnp_standard_exponential : DrawSize → List Op × Result Returned
  dpnp_standard_exponential size =
      with_size item array DType.float64 size
        (common_impl_0_arg raised ge add_one "dpnp_standard_exponential")

  unfoldable pub dpnp_standard_gamma : PyScalar → DrawSize → List Op × Result Returned
  dpnp_standard_gamma shape size = require (is_float shape) (
      with_size item array DType.float64 size
        (common_impl_1_arg raised ge add_one "dpnp_standard_gamma" shape))

  unfoldable pub dpnp_standard_normal : DrawSize → List Op × Result Returned
  dpnp_standard_normal size =
      with_size item array DType.float64 size
        (common_impl_range raised ge add_one "dpnp_normal" zero_float one_float)

  unfoldable pub dpnp_uniform :
      Option PyScalar → Option PyScalar → DrawSize → List Op × Result Returned
  dpnp_uniform low high size = with_size array array DType.float64 size (
      common_impl_range raised ge add_one "dpnp_uniform" (given zero_float low)
        (given one_float high))

  unfoldable pub dpnp_weibull : PyScalar → DrawSize → List Op × Result Returned
  dpnp_weibull a size = require (is_float a) (
      with_size item array DType.float64 size
        (common_impl_1_arg raised ge add_one "dpnp_weibull" a))
