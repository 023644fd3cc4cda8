-- ===== src/Dpnp/Vectors.antt =====
-- numba_dppy/dpnp_iface/dpnp_randomimpl.py: the overloads with arguments that are arrays.
use numba_dppy.Prelude.{Bool, List, String, [], not, ℕ, ◌++◌, ◌∷◌}
use numba_dppy.Result.{Result, err, ok, raise_if, type_error, ◌>>=◌, ◌>>◌}
use numba_dppy.Dpnp.{
  HostArray, Op, PyScalar, call_dpnp, copy_from_usm, copy_to_usm, free_with_queue, malloc_shared,
  nbytes, number, scalar, size_of, usm,
}
use numba_dppy.Dpnp.Random.{DrawSize, int_size, is_integer, no_size, other_size, res_of, tuple_size}
use numba_dppy.Memory.{DType}

abbrev pub multinomial_ops : String → PyScalar → HostArray → HostArray → List Op
multinomial_ops func n pvals res =
    malloc_shared "res_usm" (nbytes res)
      ∷ malloc_shared "pvals_usm" (nbytes pvals)
      ∷ copy_to_usm "pvals_usm" pvals 0
    ++ call_dpnp func ("res_usm" ∷ []) (
        usm "res_usm"
        ∷ number n
        ∷ usm "pvals_usm"
        ∷ scalar (size_of pvals.shape)
        ∷ scalar (size_of res.shape)
        ∷ [])
      ∷ copy_from_usm res "res_usm" 1
    ++ free_with_queue "res_usm" ∷ free_with_queue "pvals_usm" ∷ []

abbrev pub multivariate_normal_ops : String → HostArray → HostArray → HostArray → List Op
multivariate_normal_ops func mean cov res =
    malloc_shared "res_usm" (nbytes res)
      ∷ malloc_shared "mean_usm" (nbytes mean)
      ∷ copy_to_usm "mean_usm" mean 0
    ++ malloc_shared "cov_usm" (nbytes cov) ∷ copy_to_usm "cov_usm" cov 1
    ++ call_dpnp func ("res_usm" ∷ []) (
        usm "res_usm"
        ∷ scalar (size_of mean.shape)
        ∷ usm "mean_usm"
        ∷ scalar (size_of mean.shape)
        ∷ usm "cov_usm"
        ∷ scalar (size_of cov.shape)
        ∷ scalar (size_of res.shape)
        ∷ [])
      ∷ copy_from_usm res "res_usm" 2
    ++ free_with_queue "res_usm" ∷ free_with_queue "mean_usm" ∷ free_with_queue "cov_usm" ∷ []

-- `len` of an array
abbrev pub len_of : HostArray → Result ℕ
len_of a = first a.shape
  where
    first : List ℕ → Result ℕ
    first [] = err type_error
    first (n ∷ shape) = ok n

-- The shape of the result of both: `last` are the extents that follow those of the size.
abbrev pub shape_with : List ℕ → DrawSize → Result (List ℕ)
shape_with last no_size = ok last
shape_with last other_size = err type_error
shape_with last (int_size n) = ok (n ∷ last)
shape_with last (tuple_size shape) = ok (shape ++ last)

-- A result without items is not left out here.
unfoldable pub dpnp_multinomial :
    PyScalar → Bool → HostArray → DrawSize → Result (List Op × HostArray)
dpnp_multinomial n is_sequence pvals size = do
  raise_if (not (is_integer n)) type_error
  raise_if (not is_sequence) type_error
  len ← len_of pvals
  shape ← shape_with (len ∷ []) size
  let out = res_of DType.int32 shape
  ok (multinomial_ops "dpnp_multinomial" n pvals out, out)

unfoldable pub dpnp_multivariate_normal :
    HostArray → HostArray → DrawSize → Result (List Op × HostArray)
dpnp_multivariate_normal mean cov size = do
  shape ← by_size size
  let out = res_of DType.float64 shape
  ok (multivariate_normal_ops "dpnp_multivariate_normal" mean cov out, out)
  where
    by_size : DrawSize → Result (List ℕ)
    by_size no_size = ok mean.shape
    by_size size = shape_with (size_of mean.shape ∷ []) size
