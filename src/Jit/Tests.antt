-- ===== src/Jit/Tests.antt =====
-- Calls of jitted kernels with a small compiler, and the laws at inputs that meet their hypotheses.
use numba_dppy.Prelude.{[], false, none, refl, some, true, ◌↔◌, ◌∷◌, ◌≡◌, ◌≢◌}
use numba_dppy.Prelude.Int.{pos}
use numba_dppy.Prelude.Dict.{get}
use numba_dppy.Result.{err, external_error, ok}
use numba_dppy.Argument.{array_type, dppy_array, int32, int64, number, types-discrete, usm_nd_array}
use numba_dppy.Memory.{DType, int}
use numba_dppy.Range.{Queue, new_kernel_base}
use numba_dppy.Kernel.{Kernel}
use numba_dppy.Compile.{Config, Numba, function_type, void}
use numba_dppy.Jit.{
  Dispatcher, JitDppyKernel, configured, configured_as, datatype_is_same, select_queue, specialize,
}
use numba_dppy.Jit.Uniform.{AreUniform, datatype_is_same_lem}
use numba_dppy.Jit.Cache.{AreFor, IsFor, specialize-IsFor, specialize-again, specialize-other}
use numba_dppy.Jit.Dispatch.{configured-first_queue}

-- A compiler that takes every function, which returns nothing.
abbrev numba : Numba
numba = record {
  compile_extra =
      λ f args flags. ok (record { return_type = void; args = args; llvm_func_name = 0 });
  compile_ir = λ f args flags. err external_error;
  prepare_ocl_kernel = λ q cres. ok tt;
}

abbrev config : Config
config = record { debug = false; debuginfo_default = false }

-- two queues of one context
abbrev first_queue : Queue
first_queue = record { id = 1; sycl_context = 7 }

abbrev second_queue : Queue
second_queue = record { id = 2; sycl_context = 7 }

abbrev dispatcher : Dispatcher
dispatcher = record {
  get_current_queue = ok second_queue;
  get_execution_queue = λ queues. none;
  resolve_argument_type = λ val. ok int32;
}

abbrev jit : JitDppyKernel
jit = record {
  base = record new_kernel_base { global_size = 4 ∷ []; local_size = none };
  py_func = function_type 0;
  definitions = [];
  debug = none;
  access_types = none ∷ [];
}

abbrev kernel : Kernel
kernel = record {
  base = record new_kernel_base { sycl_queue = some first_queue };
  argument_types = int32 ∷ [];
  ordered_arg_access_types = none ∷ [];
}

abbrev jit_after : JitDppyKernel
jit_after = record jit { definitions = (int32 ∷ [], (7, kernel)) ∷ [] }

abbrev cfg : Kernel
cfg = record kernel {
  base = record new_kernel_base {
    global_size = 4 ∷ [];
    local_size = none;
    sycl_queue = some first_queue;
  };
}

specialize_run : specialize numba config (int32 ∷ []) first_queue jit ≡ (ok kernel, jit_after)
unfolding specialize types-discrete
specialize_run = refl

configured_run :
    configured numba config dispatcher (number (int (pos 3)) ∷ []) jit_after ≡ (ok cfg, jit_after)
unfolding configured types-discrete configured_as
configured_run = refl

select_run :
    select_queue numba config dispatcher (number (int (pos 3)) ∷ []) ≡ ok (int32 ∷ [], second_queue)
unfolding select_queue
select_run = refl

mixed_run :
    datatype_is_same
      (array_type dppy_array DType.int32 1 ∷ int64 ∷ array_type usm_nd_array DType.int32 1 ∷ [])
    ≡ (none, false)
unfolding datatype_is_same
mixed_run = refl

other_types : (int64 ∷ []) ≢ (int32 ∷ [])
other_types e = cc

not_cached : get types-discrete jit.definitions (int32 ∷ []) ≡ none
unfolding get
not_cached = refl

one_array_is_uniform :
    ((datatype_is_same (array_type dppy_array DType.int32 1 ∷ int64 ∷ [])).1 ≡ true)
    ↔ AreUniform (array_type dppy_array DType.int32 1 ∷ int64 ∷ [])
one_array_is_uniform = datatype_is_same_lem (array_type dppy_array DType.int32 1 ∷ int64 ∷ [])

specialize-IsFor_example : IsFor 7 kernel × AreFor jit_after.definitions
specialize-IsFor_example =
    specialize-IsFor numba config (int32 ∷ []) first_queue jit jit_after kernel tt specialize_run

specialize-again_example :
    specialize numba config (int32 ∷ []) second_queue jit_after ≡ (ok kernel, jit_after)
specialize-again_example =
    specialize-again numba config (int32 ∷ []) first_queue second_queue jit jit_after kernel
      specialize_run refl

other_types_are_kept :
    get types-discrete
      (specialize numba config (int32 ∷ []) second_queue jit_after).1.definitions
      (int64 ∷ [])
    ≡ get types-discrete jit_after.definitions (int64 ∷ [])
other_types_are_kept =
    specialize-other numba config (int32 ∷ []) (int64 ∷ []) second_queue jit_after other_types

configured-first_queue_example : cfg.sycl_queue ≡ some first_queue
configured-first_queue_example =
    configured-first_queue numba config dispatcher (number (int (pos 3)) ∷ []) (int32 ∷ [])
      first_queue second_queue kernel cfg jit jit_after jit_after not_cached specialize_run
      select_run refl configured_run
