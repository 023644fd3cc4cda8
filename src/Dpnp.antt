-- ===== src/Dpnp.antt =====
-- The functions of numba_dppy/dpnp_iface that call the library dpnp on USM memory: what they do with
-- the memory and the queue, in order, and a machine that carries it out.
pub mod Linalg
pub mod Statistics
pub mod Arrays
pub mod Overflow
pub mod Clean
pub mod Functions
pub mod Unary
pub mod Results
pub mod Products
pub mod Eigen
pub mod Powers
pub mod Random
pub mod Distributions
pub mod Vectors
pub mod Drawn
pub mod Overloads
pub mod Fetched
mod Tests
use numba_dppy.Prelude.{
  List, Option, String, [], false, none, some, str_eq, ℕ, ◌*◌, ◌+◌, ◌∷◌, ◌≡◌, ◌≢◌, ◌≤◌,
}
use numba_dppy.Prelude.Dict.{delete, get, set}
use numba_dppy.Prelude.Names.{String-discrete}
use numba_dppy.Memory.{DType}
use numba_dppy.Prelude.Int.{ℤ}
use native.Mathlib.Decide.{ℕ_discrete}

-- An array of the host, as one of these functions uses it.
pub record HostArray : Type 0 where
  pub name : String
  pub shape : List ℕ
  pub itemsize : ℕ
  pub dtype : DType

abbrev pub size_of : List ℕ → ℕ
size_of [] = 1
size_of (n ∷ shape) = n * size_of shape

abbrev pub nbytes : HostArray → ℕ
nbytes a = size_of a.shape * a.itemsize

-- A number of Python, or an argument that is none. Of a float, the bits.
pub data PyScalar : Type 0 where
  int_scalar : ℤ → PyScalar
  float_scalar : ℕ → PyScalar
  not_scalar : PyScalar

-- An argument of a function of dpnp: USM memory by the variable of its pointer, a size, a number that
-- the caller gave, the shape of an array, or memory of the host.
pub data DpnpArg : Type 0 where
  usm shape_of host_pointer : String → DpnpArg
  scalar : ℕ → DpnpArg
  number : PyScalar → DpnpArg

-- A call of `dpctl_functions` or of dpnp. Events are numbered.
pub data Op : Type 0 where
  malloc_shared : String → ℕ → Op
  -- `queue_memcpy`: to USM memory from an array, and back; the number of bytes, and the event
  memcpy_to_device memcpy_to_host : String → String → ℕ → ℕ → Op
  event_wait event_delete : ℕ → Op
  -- the function, the memory that it writes, and its arguments
  call_dpnp : String → List String → List DpnpArg → Op
  free_with_queue : String → Op

-- The three calls that copy an array and wait for it.
abbrev pub copy_to_usm : String → HostArray → ℕ → List Op
copy_to_usm usm_name a event =
    memcpy_to_device usm_name a.name (nbytes a) event ∷ event_wait event ∷ event_delete event ∷ []

abbrev pub copy_from_usm : HostArray → String → ℕ → List Op
copy_from_usm out usm_name event =
    memcpy_to_host out.name usm_name (nbytes out) event ∷ event_wait event ∷ event_delete event ∷ []

-- What dpnp gets for an argument: the contents of USM memory, or the argument itself.
pub data ArgContents (C : Type 0) : Type 0 where
  contents : Option C → ArgContents C
  as_it_is : DpnpArg → ArgContents C

-- Contents are of any type; a function of dpnp makes those of each memory that it writes.
module _ {C : Type 0} (uninitialised : C) (dpnp : String → List (ArgContents C) → ℕ → C) where
  pub record Machine : Type 0 where
    -- contents and bytes
    pub host : List (String × (C × ℕ))
    pub device : List (String × (C × ℕ))
    -- of each copy that is not waited for: the event, and the USM memory
    pub in_flight : List (ℕ × String)
    pub undeleted : List (ℕ × String)

  abbrev pub contents_of : List (String × (C × ℕ)) → String → Option C
  contents_of memory name = elim (get String-discrete memory name) [
    | none ↦ none
    | some entry ↦ some entry.0
  ]

  abbrev pub arg_contents : List (String × (C × ℕ)) → List DpnpArg → List (ArgContents C)
  arg_contents device [] = []
  arg_contents device (usm name ∷ args) =
      contents (contents_of device name) ∷ arg_contents device args
  arg_contents device (arg ∷ args) = as_it_is arg ∷ arg_contents device args

  -- The bytes of a memory stay what they were when other contents are written.
  abbrev pub write : List (String × (C × ℕ)) → String → C → List (String × (C × ℕ))
  write memory name c = elim (get String-discrete memory name) [
    | none ↦ memory
    | some entry ↦ set String-discrete memory name (c, entry.1)
  ]

  abbrev pub write_all :
      List (String × (C × ℕ)) → List String → (ℕ → C) → ℕ → List (String × (C × ℕ))
  write_all device [] made k = device
  write_all device (name ∷ names) made k = write_all (write device name (made k)) names made (k + 1)

  abbrev pub copied : Option C → C
  copied none = uninitialised
  copied (some c) = c

  unfoldable pub step : Machine → Op → Machine
  unfolding get set delete
  step m (malloc_shared name bytes) = record m {
    device = set String-discrete m.device name (uninitialised, bytes);
  }
  step m (memcpy_to_device usm_name name bytes event) = record m {
    device = write m.device usm_name (copied (contents_of m.host name));
    in_flight = set ℕ_discrete m.in_flight event usm_name;
    undeleted = set ℕ_discrete m.undeleted event usm_name;
  }
  step m (memcpy_to_host name usm_name bytes event) = record m {
    host = write m.host name (copied (contents_of m.device usm_name));
    in_flight = set ℕ_discrete m.in_flight event usm_name;
    undeleted = set ℕ_discrete m.undeleted event usm_name;
  }
  step m (event_wait event) = record m { in_flight = delete ℕ_discrete m.in_flight event }
  step m (event_delete event) = record m { undeleted = delete ℕ_discrete m.undeleted event }
  step m (call_dpnp func outs args) = record m {
    device = write_all m.device outs (dpnp func (arg_contents m.device args)) 0;
  }
  step m (free_with_queue name) = record m { device = delete String-discrete m.device name }

  unfoldable pub run_ops : Machine → List Op → Machine
  unfolding step
  run_ops m [] = m
  run_ops m (op ∷ ops) = run_ops (step m op) ops

  abbrev pub NotInFlight : List (ℕ × String) → String → Type 0
  NotInFlight [] name = Unit {0}
  NotInFlight ((event, busy) ∷ copies) name = (str_eq busy name ≡ false) × NotInFlight copies name

  abbrev pub HasRoom : List (String × (C × ℕ)) → String → ℕ → Type 0
  HasRoom memory name bytes = elim (get String-discrete memory name) [
    | none ↦ ⊥
    | some entry ↦ bytes ≤ entry.1
  ]

  abbrev pub AreReady : Machine → List DpnpArg → Type 0
  AreReady m [] = Unit {0}
  AreReady m (usm name ∷ args) =
      HasRoom m.device name 0 × (NotInFlight m.in_flight name × AreReady m args)
  AreReady m (arg ∷ args) = AreReady m args

  -- A name is not allocated twice; a copy stays within the memory at both ends; no memory is used or
  -- freed while a copy to or from it has not been waited for; an event is waited for and deleted once.
  abbrev pub IsAllowed : Machine → Op → Type 0
  IsAllowed m (malloc_shared name bytes) = get String-discrete m.device name ≡ none
  IsAllowed m (memcpy_to_device usm_name name bytes event) =
      HasRoom m.device usm_name bytes
      × (HasRoom m.host name bytes × NotInFlight m.in_flight usm_name)
  IsAllowed m (memcpy_to_host name usm_name bytes event) =
      HasRoom m.device usm_name bytes
      × (HasRoom m.host name bytes × NotInFlight m.in_flight usm_name)
  IsAllowed m (event_wait event) = get ℕ_discrete m.in_flight event ≢ none
  IsAllowed m (event_delete event) = get ℕ_discrete m.undeleted event ≢ none
  IsAllowed m (call_dpnp func outs args) = AreReady m args
  IsAllowed m (free_with_queue name) = HasRoom m.device name 0 × NotInFlight m.in_flight name

  -- Each call is allowed where it stands, and at the end nothing is left.
  abbrev pub IsClean : Machine → List Op → Type 0
  IsClean m [] = (m.device ≡ []) × ((m.in_flight ≡ []) × (m.undeleted ≡ []))
  IsClean m (op ∷ ops) = IsAllowed m op × IsClean (step m op) ops
