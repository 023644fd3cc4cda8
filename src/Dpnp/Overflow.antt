-- ===== src/Dpnp/Overflow.antt =====
-- The cumulative sum and product of numba_dppy/dpnp_iface/dpnp_array_ops_impl.py on the machine.
