-- ===== src/Usm/Tests.antt =====
-- Runs of the copies on a small machine, and the laws at inputs that meet their hypotheses.
use numba_dppy.Prelude.{[], false, none, refl, some, true, ◌+◌, ◌∷◌, ◌≡◌}
use numba_dppy.Result.{err, value_error}
use numba_dppy.Range.{Queue}
use numba_dppy.Memory.{PyArray, Runtime, UsmMem, World, int32, uint64}
use numba_dppy.Memory.Concrete.{concrete}
use numba_dppy.Usm.{as_usm_obj, no_queue, sycl_queue}
use numba_dppy.Usm.Strides.{default_strides, default_strides-row_major}

abbrev queue : Queue
queue = record { id = 1; sycl_context = 7 }

abbrev machine : Runtime
machine = concrete (λ u. u)

abbrev source : PyArray
source = record {
  is_ndarray = true;
  usm = none;
  base = some none;
  dtype = int32;
  itemsize = 4;
  shape = 2 ∷ 3 ∷ [];
  strides = 12 ∷ 4 ∷ [];
  suai_strides = none;
  c_contiguous = true;
  cells = 0 ∷ 1 ∷ 2 ∷ 3 ∷ 4 ∷ 5 ∷ [];
}

abbrev target : PyArray
target = record source { cells = 10 ∷ 12 ∷ 14 ∷ 16 ∷ 18 ∷ 20 ∷ []; c_contiguous = false }

abbrev start : World
start = record { host = λ n. n + 100; next_cell = 100; usm = λ i. []; next_usm = 5 }

abbrev made : UsmMem
made = record { id = 5; size = 24; sycl_queue = queue }

strides_run : default_strides (2 ∷ 3 ∷ 4 ∷ []) ≡ 12 ∷ 4 ∷ 1 ∷ []
unfolding default_strides
strides_run = refl

-- 64-bit unsigned arrays are refused
uint64_refused :
    (as_usm_obj machine (record source { dtype = uint64 }) (sycl_queue queue) "shared" true start).0
    ≡ err value_error
unfolding as_usm_obj
uint64_refused = refl

unknown_usm_type :
    (as_usm_obj machine source (sycl_queue queue) "remote" true start).0 ≡ err value_error
unfolding as_usm_obj
unknown_usm_type = refl

no_queue_run : (as_usm_obj machine source no_queue "shared" true start).0 ≡ err value_error
unfolding as_usm_obj
no_queue_run = refl

default_strides-row_major_example : default_strides (2 ∷ 3 ∷ []) ≡ 3 ∷ 1 ∷ []
default_strides-row_major_example = default_strides-row_major (2 ∷ 3 ∷ [])
