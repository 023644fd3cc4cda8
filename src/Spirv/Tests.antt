-- ===== src/Spirv/Tests.antt =====
-- Translations with tools that all succeed and with tools that all fail.
use numba_dppy.Prelude.{List, [], false, none, some, true, ◌∷◌}
use numba_dppy.Result.{ok, err, called_process_error}
use numba_dppy.Spirv.{
  CompileOption, Environment, Module, Options, atomic_spirv, generated_spirv, link_atomic,
  linked_spirv, llvm_friendly_spir, llvm_spirv, llvm_spirv_args, optimized_spirv, spirv_link,
  spirv_opt, spirv_val, temp,
}

abbrev working : Environment
working = record {
  check_call = λ cmd. ok tt;
  which_in = λ name path. none;
  which = λ name. some "/opt/dpcpp/bin/dpcpp";
  bin_llvm = λ path. "/opt/dpcpp/bin-llvm";
}

abbrev failing : Environment
failing = record working { check_call = λ cmd. err called_process_error }

abbrev config : Options
config = record { llvm_spirv_root = none; is_spirv_val = true; dump_assembly = false }

abbrev options : List CompileOption
options = link_atomic ∷ llvm_spirv_args ("--spirv-ext=+all" ∷ []) ∷ []

abbrev translated : Module
translated = record {
  tempfiles =
      temp 0 llvm_friendly_spir
      ∷ temp 1 generated_spirv
      ∷ temp 2 linked_spirv
      ∷ temp 3 optimized_spirv
      ∷ [];
  finalized = true;
  llvmfile = some (temp 0 llvm_friendly_spir);
  extra_compile_options = [];
  files =
      temp 0 llvm_friendly_spir
      ∷ temp 1 generated_spirv
      ∷ temp 2 linked_spirv
      ∷ temp 3 optimized_spirv
      ∷ [];
  commands =
      llvm_spirv "llvm-spirv" ("--spirv-ext=+all" ∷ []) (temp 0 llvm_friendly_spir)
        (temp 1 generated_spirv)
      ∷ spirv_link (temp 2 linked_spirv) (temp 1 generated_spirv ∷ atomic_spirv ∷ [])
      ∷ spirv_val (temp 2 linked_spirv)
      ∷ spirv_opt (temp 2 linked_spirv) (temp 3 optimized_spirv)
      ∷ [];
}
