-- ===== src/Lib.antt =====
-- numba_dppy: kernels in Python for SYCL devices. The part of the package that is modelled takes a
-- decorated function and its arguments to a running kernel, and the results back.
--
-- The parts and how they interact:
--   A kernel object is subscripted with its sizes (Range), typed and compiled for its arguments and
--   a queue, with a cache (Jit, over Compile). The compiler's LLVM code becomes SPIR-V (Spirv). The
--   compiled kernel is called (Kernel): its arguments become ctypes values (Argument), host arrays
--   are copied to USM memory and back (Usm) as their access types ask for (Access). A parallel loop
--   in a jitted function gets its kernel from the text and the blocks that Parfor makes, and is
--   launched by generated host code instead (Launch). Before that, calls of NumPy in the function are
--   turned into calls of numba_dppy.dpnp (Rewrite), which copy the operands to USM memory, call the
--   library dpnp, and copy the result back (Dpnp).
--
-- The files:
--   Prelude     names passed on from the libraries, Boolean tests, lists and integers over the
--               native numbers, and Python dicts (Prelude/Dict)
--   Result      exceptions as values, and the monad of calls that may raise
--   Exec        the same with a state that outlives a raise
--   Memory      host memory by address, USM allocations, array objects; the record Runtime, which
--               stands for NumPy, dpctl and the device, and the record IsLawful of its documented
--               behaviour. Memory/Concrete is a machine that has it.
--   Range       numba_dppy/compiler.py: _ensure_valid_work_item_grid, _ensure_valid_work_group_size,
--               DPPYKernelBase
--   Access      numba_dppy/compiler.py: get_ordered_arg_access_types, check_for_invalid_access_type
--   Argument    numba_dppy/compiler.py: the conversions of DPPYKernel that do not touch memory
--   Usm         numba_dppy/utils/array_utils.py; Usm/Strides is get_info_from_suai
--   Kernel      numba_dppy/compiler.py: DPPYKernel; Kernel/Layout also has DPPYArrayModel of
--               numba_dppy/dppy_array_type.py
--   Compile     numba_dppy/compiler.py: compile_with_dppy, compile_kernel; assert_no_return of
--               numba_dppy/utils/misc.py; Compile/Template is DPPYFunctionTemplate
--   Jit         numba_dppy/compiler.py: JitDPPYKernel
--   Launch      numba_dppy/dpctl_iface/kernel_launch_ops.py, numba_dppy/dpctl_iface/_helpers.py, and
--               generate_kernel_launch_ops of numba_dppy/core/passes/dppy_lowerer.py, which is
--               Launch/Lower
--   Rewrite     numba_dppy/core/passes/rename_numpy_functions_pass.py: Rewrite/Functions is
--               RewriteNumPyOverloadedFunctions, Rewrite/Ndarray is RewriteNdarrayFunctions
--   Parfor      numba_dppy/core/passes/dppy_lowerer.py: Schedule has _schedule_loop and the text of
--               the kernel; Body has replace_var_with_array and find_setitems_body; Splice has
--               wrap_loop_body, unwrap_loop_body and the joining of the blocks; Params the parameters,
--               with npytypes_array_to_dppy_array of numba_dppy/utils/type_conversion_fns.py and
--               compile_kernel_parfor of numba_dppy/compiler.py; Shapes _create_shape_signature;
--               Lowering _lower_parfor_gufunc; Fallback DPPYLower.lower
--   Dpnp        numba_dppy/dpnp_iface: the calls that its functions make, and a machine for the memory
--               and the queue; Linalg is dpnp_linalgimpl.py, Powers the functions there that call
--               others, Statistics is dpnp_statisticsimpl.py and dpnp_transcendentalsimpl.py, Random,
--               Distributions and Vectors are dpnp_randomimpl.py, Arrays is dpnp_array_ops_impl.py and
--               dpnp_sort_search_countimpl.py
--   Spirv       numba_dppy/spirv_generator.py; Spirv/Clean is Module.__del__
--
-- The state of each part is a record with the attributes of the Python object, and an operation is
-- a function of the same name, without the leading underscore. A method that may raise returns
-- the exception beside the state that it leaves. The loops run over lists and are recursive on
-- them, so that no fuel is needed. Integers are natural numbers of any size; where ctypes cuts a
-- number to its width, the model does so too.
--
-- Parameters, since their code is not part of the repository: Runtime (NumPy, dpctl, the device),
-- Numba (type inference and code generation), Dispatcher (dpctl's choice of a queue and Numba's
-- typing of arguments), Environment (the SPIR-V tools and the search path), Typing (the types and
-- signatures of Numba that Rewrite/Ndarray uses), mk_unique_var, add_offset_to_labels, ParforInfo and
-- ShapeInfo (what Numba says of a parfor), ParforSteps and Lowerings (the steps of a lowering), and
-- what a function of dpnp makes of the contents of memory and whether it raises.
--
-- Not modelled: the texts of messages and warnings, debug dumps, the contents of files, the LLVM
-- types of casts; the deep copy of the IR before lowering, and the renaming of its variables and
-- labels, which is Numba's; the registrations of built-in functions with Numba; the functions of
-- dpnp_iface for creation, indexing, logic and manipulation, take and partition, and the typing of
-- the others.
pub mod Prelude
pub mod Result
pub mod Exec
pub mod Memory
pub mod Range
pub mod Usm
pub mod Access
pub mod Argument
pub mod Kernel
pub mod Compile
pub mod Jit
pub mod Launch
pub mod Spirv
pub mod Rewrite
pub mod Parfor
pub mod Dpnp
