-- ===== src/Launch/Buffers.antt =====
-- The USM buffers of a launch: what is allocated is freed.
use numba_dppy.Prelude.{List}
