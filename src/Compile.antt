-- ===== src/Compile.antt =====
-- Compiling: `compile_with_dppy` and `compile_kernel` of numba_dppy/compiler.py, and
-- `assert_no_return` of numba_dppy/utils/misc.py. Numba's pipeline is the parameter `Numba`.
pub mod Template
pub mod Laws
mod Tests
use numba_dppy.Prelude.{Bool, List, Option, [], false, if◌then◌else◌, none, some, true, ℕ, ◌∷◌}
use numba_dppy.Result.{Result, assertion_error, err, ok, type_error, value_error, ◌>>=◌, ◌>>◌}
use numba_dppy.Argument.{ArgType, array_type, npytypes_array}
use numba_dppy.Access.{AccessType}
use numba_dppy.Range.{Queue, KernelBase, new_kernel_base}
use numba_dppy.Kernel.{Kernel}

-- the options of the package that the compiler reads
pub record Config : Type 0 where
  pub debug : Bool
  pub debuginfo_default : Bool

pub record Flags : Type 0 where
  pub debuginfo : Bool
  pub no_compile : Bool
  pub no_cpython_wrapper : Bool
  pub nrt : Bool

-- what is compiled: a function, a `FunctionIR`, or an object of another class
pub data PyFunc : Type 0 where
  function_type function_ir other_object : ℕ → PyFunc

-- the inferred return type
pub data ReturnType : Type 0 where
  none_type void : ReturnType
  value_type : ArgType → ReturnType

-- What the package takes of Numba's result: `signature` and the name of the function in the library.
pub record CompileResult : Type 0 where
  pub return_type : ReturnType
  pub args : List ArgType
  pub llvm_func_name : ℕ

-- `compile_extra` and `compile_ir` of Numba, and behind them `prepare_ocl_kernel` with the build
-- of the device program, all of which may raise.
pub record Numba : Type 0 where
  pub compile_extra : PyFunc → List ArgType → Flags → Result CompileResult
  pub compile_ir : PyFunc → List ArgType → Flags → Result CompileResult
  pub prepare_ocl_kernel : Queue → CompileResult → Result (Unit {0})

unfoldable pub assert_no_return : ReturnType → Result (Unit {0})
assert_no_return none_type = ok tt
assert_no_return void = ok tt
assert_no_return (value_type t) = err type_error

abbrev pub debug_or : Option Bool → Bool → Bool
debug_or none d = d
debug_or (some b) d = b

abbrev pub flags_of : Config → Option Bool → Flags
flags_of config debug = record {
  debuginfo = debug_or debug config.debuginfo_default;
  no_compile = true;
  no_cpython_wrapper = true;
  nrt = false;
}

-- `if isinstance(pyfunc, FunctionType)`, and what follows it
unfoldable pub run_pipeline : Numba → PyFunc → List ArgType → Flags → Result CompileResult
run_pipeline N (function_type n) args flags = N.compile_extra (function_type n) args flags
run_pipeline N (function_ir n) args flags = N.compile_ir (function_ir n) args flags
run_pipeline N (other_object n) args flags = err assertion_error

unfoldable pub compile_with_dppy :
    Numba → Config → PyFunc → List ArgType → Bool → Option Bool → Result CompileResult
unfolding run_pipeline assert_no_return
compile_with_dppy N config pyfunc args is_kernel debug = do
  cres ← run_pipeline N pyfunc args (flags_of config debug)
  (if is_kernel then assert_no_return cres.return_type else ok tt)
  ok cres

-- the loop at the head of `compile_kernel`
unfoldable pub only_dppy_arrays : List ArgType → Result (Unit {0})
only_dppy_arrays [] = ok tt
only_dppy_arrays (array_type npytypes_array d n ∷ args) = err type_error
only_dppy_arrays (_ ∷ args) = only_dppy_arrays args

abbrev pub kernel_of : Queue → CompileResult → List AccessType → Kernel
kernel_of queue cres access_types = record {
  base = record new_kernel_base { sycl_queue = some queue };
  argument_types = cres.args;
  ordered_arg_access_types = access_types;
}

-- the second half of `compile_kernel`
unfoldable pub build_kernel :
    Numba → Config → Queue → PyFunc → List ArgType → List AccessType → Option Bool → Result Kernel
unfolding compile_with_dppy
build_kernel N config queue pyfunc args access_types debug = do
  cres ← compile_with_dppy N config pyfunc args true debug
  N.prepare_ocl_kernel queue cres
  ok (kernel_of queue cres access_types)

unfoldable pub compile_kernel :
    Numba
    → Config
    → Option Queue
    → PyFunc
    → List ArgType
    → List AccessType
    → Option Bool
    → Result Kernel
unfolding only_dppy_arrays build_kernel
compile_kernel N config none pyfunc args access_types debug = do
  only_dppy_arrays args
  err value_error
compile_kernel N config (some queue) pyfunc args access_types debug = do
  only_dppy_arrays args
  build_kernel N config queue pyfunc args access_types (if config.debug then some true else debug)
