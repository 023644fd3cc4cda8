-- ===== src/Compile/Template/Tests.antt =====
-- Device functions with a small compiler.
use numba_dppy.Prelude.{List, [], false, none, refl, ◌∷◌, ◌≡◌}
use numba_dppy.Result.{err, external_error, ok}
use numba_dppy.Argument.{ArgType, int32, int64, types-discrete}
use numba_dppy.Compile.{CompileResult, Config, Numba, function_type, value_type}
use numba_dppy.Compile.Template.{
  IsRegistered, add_user_function, compile_all, compile_all-IsRegistered, insert_user_function,
  mark_ocl_device, new_template,
}

abbrev numba : Numba
numba = record {
  compile_extra = λ f args flags.
      ok (record { return_type = value_type int32; args = args; llvm_func_name = 0 });
  compile_ir = λ f args flags. err external_error;
  prepare_ocl_kernel = λ q cres. ok tt;
}

abbrev config : Config
config = record { debug = false; debuginfo_default = false }

abbrev result_for : List ArgType → CompileResult
result_for args = record { return_type = value_type int32; args = args; llvm_func_name = 0 }

abbrev calls : List (List ArgType)
calls = (int32 ∷ []) ∷ (int64 ∷ []) ∷ (int32 ∷ []) ∷ []

compile_all_run :
    (compile_all numba config calls (new_template (function_type 0) none)).target_calls
    ≡ mark_ocl_device (result_for (int32 ∷ []))
      ∷ insert_user_function (result_for (int32 ∷ []))
      ∷ mark_ocl_device (result_for (int64 ∷ []))
      ∷ add_user_function (result_for (int64 ∷ []))
      ∷ []
unfolding compile_all types-discrete
compile_all_run = refl

compile_all-IsRegistered_example :
    IsRegistered (compile_all numba config calls (new_template (function_type 0) none))
compile_all-IsRegistered_example =
    compile_all-IsRegistered numba config (function_type 0) none calls
