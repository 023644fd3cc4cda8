-- ===== src/Rewrite/Methods.antt =====
-- The block that `RewriteNdarrayFunctions.run` of
-- numba_dppy/core/passes/rename_numpy_functions_pass.py makes computes what the old block computes,
-- if a method of an array is the function of `numba_dppy.dpnp` on the array and the arguments.
