-- ===== src/Rewrite/Renamed.antt =====
-- The block that `RewriteNumPyOverloadedFunctions.run` of
-- numba_dppy/core/passes/rename_numpy_functions_pass.py makes computes what the old block computes,
-- with the functions of `numba_dppy.dpnp` in the place of NumPy's.
use numba_dppy.Prelude.{List}
use numba_dppy.Result.{Result}
