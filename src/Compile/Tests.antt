-- ===== src/Compile/Tests.antt =====
-- Compilations with a small pipeline.
use numba_dppy.Prelude.{[], false, none, refl, some, true, ◌∷◌, ◌≡◌}
use numba_dppy.Result.{err, ok, type_error, value_error}
use numba_dppy.Argument.{int32}
use numba_dppy.Range.{Queue}
use numba_dppy.Compile.{
  CompileResult, Config, Numba, compile_kernel, flags_of, function_ir, function_type, kernel_of,
  run_pipeline, value_type, void,
}
use numba_dppy.Compile.Laws.{AreDppyArrays, ReturnsNothing, compile_kernel-returns}

abbrev numba : Numba
numba = record {
  compile_extra =
      λ f args flags. ok (record { return_type = void; args = args; llvm_func_name = 0 });
  compile_ir = λ f args flags.
      ok (record { return_type = value_type int32; args = args; llvm_func_name = 0 });
  prepare_ocl_kernel = λ q cres. ok tt;
}

abbrev config : Config
config = record { debug = true; debuginfo_default = false }

abbrev queue : Queue
queue = record { id = 1; sycl_context = 7 }

abbrev result : CompileResult
result = record { return_type = void; args = int32 ∷ []; llvm_func_name = 0 }

no_queue_run :
    compile_kernel numba config none (function_type 0) (int32 ∷ []) [] none ≡ err value_error
unfolding compile_kernel
no_queue_run = refl

-- A kernel that returns a value is refused.
value_run :
    compile_kernel numba config (some queue) (function_ir 0) (int32 ∷ []) [] none ≡ err type_error
unfolding compile_kernel
value_run = refl

kernel_run :
    compile_kernel numba config (some queue) (function_type 0) (int32 ∷ []) (none ∷ []) none
    ≡ ok (kernel_of queue result (none ∷ []))
unfolding compile_kernel
kernel_run = refl

compile_kernel-returns_example :
    (q : Queue) × (cres : CompileResult) × (some queue ≡ some q)
    × AreDppyArrays (int32 ∷ [])
    × (run_pipeline numba (function_type 0) (int32 ∷ []) (flags_of config (some true)) ≡ ok cres)
    × ReturnsNothing cres.return_type
    × (numba.prepare_ocl_kernel q cres ≡ ok tt)
    × (kernel_of queue result (none ∷ []) ≡ kernel_of q cres (none ∷ []))
compile_kernel-returns_example =
    compile_kernel-returns numba config (some queue) (function_type 0) (int32 ∷ []) (none ∷ []) none
      (kernel_of queue result (none ∷ [])) kernel_run
