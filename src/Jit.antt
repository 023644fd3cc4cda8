-- ===== src/Jit.antt =====
-- The kernels that the decorator makes: `JitDPPYKernel` of numba_dppy/compiler.py, which compiles
-- for the types of the arguments and for the queue, caches, and calls.
pub mod Uniform
pub mod Cache
pub mod Dispatch
mod Tests
use numba_dppy.Prelude.{Bool, List, Option, [], false, none, not, some, true, ℕ, ◌*◌, ◌==◌, ◌∷◌}
use numba_dppy.Prelude.Dict.{get, set}
use numba_dppy.Result.{
  Result, err, external_error, indeterminate_execution_queue_error, ok, raise_if, type_error,
  value_error, ◌>>=◌, ◌>>◌,
}
use numba_dppy.Exec.{Exec}
use numba_dppy.Memory.{Runtime, World}
use numba_dppy.Argument.{
  ArgType, ArrayClass, PyValue, array_of, array_type, dppy_array, npytypes_array, types-discrete,
  usm_nd_array, usm_shared_array,
}
use numba_dppy.Access.{AccessType}
use numba_dppy.Range.{Queue, KernelBase, configure}
use numba_dppy.Kernel.{Kernel, call}
use numba_dppy.Compile.{Config, Numba, PyFunc, compile_kernel}

-- The context is kept beside the kernel; contexts are compared by their identity.
abbrev pub Definitions : Type 0
Definitions = List (List ArgType × (ℕ × Kernel))

pub record JitDppyKernel : Type 0 where
  pub base : KernelBase
  pub open base use *
  pub py_func : PyFunc
  pub definitions : Definitions
  pub debug : Option Bool
  pub access_types : List AccessType

-- dpctl's context manager and its choice of a queue, and Numba's typing of arguments
pub record Dispatcher : Type 0 where
  pub get_current_queue : Result Queue
  pub get_execution_queue : List Queue → Option Queue
  pub resolve_argument_type : PyValue → Result ArgType

unfoldable pub same_class : ArrayClass → ArrayClass → Bool
same_class npytypes_array npytypes_array = true
same_class dppy_array dppy_array = true
same_class usm_shared_array usm_shared_array = true
same_class usm_nd_array usm_nd_array = true
same_class _ _ = false

-- the loop of `_datatype_is_same`, on the class of `array_type`
unfoldable pub same_from : Option ArrayClass → List ArgType → Option ArrayClass × Bool
unfolding same_class
same_from seen [] = (seen, true)
same_from none (array_type c d n ∷ argtypes) = same_from (some c) argtypes
same_from (some c') (array_type c d n ∷ argtypes) = elim (same_class c c') [
  | true ↦ same_from (some c') argtypes
  | false ↦ (none, false)
]
same_from seen (_ ∷ argtypes) = same_from seen argtypes

unfoldable pub datatype_is_same : List ArgType → Option ArrayClass × Bool
unfolding same_from
datatype_is_same argtypes = same_from none argtypes

-- the loop that collects the queues of the USM arrays
unfoldable pub queues_of : List ArgType → List PyValue → Result (List Queue)
queues_of (array_type usm_nd_array d n ∷ argtypes) (val ∷ vals) = do
  a ← array_of val
  queues ← elim (a.usm) [
    | some m ↦ (do rest ← queues_of argtypes vals; ok (m.sycl_queue ∷ rest))
    | none ↦ err external_error
  ]
  ok queues
queues_of (_ ∷ argtypes) (_ ∷ vals) = queues_of argtypes vals
queues_of _ _ = ok []

module _ (N : Numba) (config : Config) where
  -- what `specialize` does where the cache has no kernel for the context
  unfoldable pub compile_and_store : List ArgType → Queue → Exec JitDppyKernel Kernel
  unfolding compile_kernel set
  compile_and_store argtypes queue self =
      elim (compile_kernel N config (some queue) self.py_func argtypes self.access_types
        self.debug) [
          | err e ↦ (err e, self)
          | ok kernel ↦ (
            ok kernel,
            record self {
              definitions =
                  set types-discrete self.definitions argtypes (queue.sycl_context, kernel);
            },
          )
        ]

  -- `specialize`, behind its assertion
  unfoldable pub specialize : List ArgType → Queue → Exec JitDppyKernel Kernel
  unfolding compile_and_store get
  specialize argtypes queue self = elim (get types-discrete self.definitions argtypes) [
    | none ↦ compile_and_store argtypes queue self
    | some (sycl_ctx, kernel) ↦ elim (sycl_ctx == queue.sycl_context) [
      | true ↦ (ok kernel, self)
      | false ↦ compile_and_store argtypes queue self
    ]
  ]

-- `kernel.configure(kernel.sycl_queue, self.global_size, self.local_size)`
unfoldable pub configured_as :
    JitDppyKernel → Result Kernel × JitDppyKernel → Result Kernel × JitDppyKernel
unfolding configure
configured_as self (err e, self') = (err e, self')
configured_as self (ok kernel, self') = (
  ok (record kernel {
    base = configure kernel.base kernel.sycl_queue self.global_size self.local_size;
  }),
  self',
)

-- `cfg(*args)`
unfoldable pub run :
    Runtime
    → List PyValue
    → World
    → Result Kernel × JitDppyKernel
    → Result (Unit {0}) × (JitDppyKernel × World)
unfolding call
run R args w (err e, self) = (err e, (self, w))
run R args w (ok cfg, self) = let (r, w') = call R cfg args w in (r, (self, w'))

module _ (N : Numba) (config : Config) (D : Dispatcher) where
  unfoldable pub get_argtypes : List PyValue → Result (List ArgType)
  get_argtypes [] = ok []
  get_argtypes (a ∷ args) = do t ← D.resolve_argument_type a; ts ← get_argtypes args; ok (t ∷ ts)

  -- `dpctl.get_current_queue()` under `except`
  unfoldable pub current_queue : Result Queue
  current_queue = elim (D.get_current_queue) [ ok q ↦ ok q | err _ ↦ err value_error ]

  -- `compute_queue`, by the class of the arrays
  unfoldable pub compute_queue : Option ArrayClass → List ArgType → List PyValue → Result Queue
  unfolding queues_of current_queue
  compute_queue (some usm_nd_array) argtypes args = do
    queues ← queues_of argtypes args
    elim (D.get_execution_queue queues) [
      | some q ↦ ok q
      | none ↦ err indeterminate_execution_queue_error
    ]
  compute_queue _ argtypes args = current_queue

  -- `__call__` up to the choice of the queue
  unfoldable pub select_queue : List PyValue → Result (List ArgType × Queue)
  unfolding datatype_is_same compute_queue get_argtypes
  select_queue args = do
    argtypes ← get_argtypes args
    let (array_class, uniform) = datatype_is_same argtypes
    raise_if (not uniform) type_error
    queue ← compute_queue array_class argtypes args
    ok (argtypes, queue)

  -- `__call__` up to the configured kernel; it keeps the queue for which it was compiled.
  unfoldable pub configured : List PyValue → Exec JitDppyKernel Kernel
  unfolding select_queue specialize configured_as
  configured args self = elim (select_queue args) [
    | err e ↦ (err e, self)
    | ok (argtypes, queue) ↦ configured_as self (specialize N config argtypes queue self)
  ]

  -- `__call__`, on the machine's memory too
  unfoldable pub jit_call : Runtime → List PyValue → Exec (JitDppyKernel × World) (Unit {0})
  unfolding configured run call
  jit_call R args (self, w) = run R args w (configured args self)
