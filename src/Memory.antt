-- ===== src/Memory.antt =====
-- What the package sees of NumPy, dpctl and the device: array objects, USM allocations, and the
-- calls of the two libraries, which are the parameter `Runtime` with the laws `IsLawful`.
pub mod Write
pub mod Leaves
pub mod Preserves
pub mod Concrete
use numba_dppy.Prelude.{
  Bool, List, Option, [], if◌then◌else◌, length, map, suc, true, ℕ, ◌*◌, ◌<◌, ◌==◌, ◌∷◌, ◌≡◌, ◌≢◌,
  ◌≤◌,
}
use numba_dppy.Prelude.Int.{ℤ}
use numba_dppy.Exec.{Exec}
use numba_dppy.Result.{Error, err, ok}
use numba_dppy.Range.{Queue}

-- NumPy's element types, by their names.
pub data DType : Type 0 where
  int32 int64 uint32 uint64 float32 float64 other : DType

-- A USM allocation of dpctl: its identity, its size in bytes, and its queue.
pub record UsmMem : Type 0 where
  pub id : ℕ
  pub size : ℕ
  pub sycl_queue : Queue

-- An array object: a `numpy.ndarray` or an object with `__sycl_usm_array_interface__`.
pub record PyArray : Type 0 where
  -- `isinstance(obj, np.ndarray)`
  pub is_ndarray : Bool
  -- what `dpctl.memory.as_usm_memory(obj)` returns, or `none` where it raises
  pub usm : Option UsmMem
  -- the attribute `base`, if there is one, as `as_usm_memory` takes it
  pub base : Option (Option UsmMem)
  pub dtype : DType
  pub itemsize : ℕ
  pub shape : List ℕ
  -- in bytes, as NumPy counts them
  pub strides : List ℕ
  -- the entry "strides" of the USM array interface, in elements
  pub suai_strides : Option (List ℕ)
  pub c_contiguous : Bool
  -- the host addresses of the elements, in C order
  pub cells : List ℕ

-- Host memory by address, and the elements that each USM allocation holds. Addresses from
-- `next_cell` on and allocations from `next_usm` on are not in use.
pub record World : Type 0 where
  pub host : ℕ → ℕ
  pub next_cell : ℕ
  pub usm : ℕ → List ℕ
  pub next_usm : ℕ

abbrev pub read : PyArray → World → List ℕ
read a w = map w.host a.cells

abbrev pub contents : UsmMem → World → List ℕ
contents m w = w.usm m.id

abbrev pub update {ℓ} : {A : Type ℓ} → (ℕ → A) → ℕ → A → ℕ → A
update f k v n = if n == k then v else f n

abbrev pub write : List ℕ → List ℕ → (ℕ → ℕ) → ℕ → ℕ
write (c ∷ cs) (v ∷ vs) h = write cs vs (update h c v)
write _ _ h = h

-- `c` is not one of the cells.
abbrev pub IsApart : ℕ → List ℕ → Type 0
IsApart c [] = Unit
IsApart c (d ∷ ds) = (c ≢ d) × IsApart c ds

abbrev pub AreDistinct : List ℕ → Type 0
AreDistinct [] = Unit
AreDistinct (c ∷ cs) = IsApart c cs × AreDistinct cs

abbrev pub AreApart : List ℕ → List ℕ → Type 0
AreApart [] ds = Unit
AreApart (c ∷ cs) ds = IsApart c ds × AreApart cs ds

-- Cells that were taken from those not in use.
abbrev pub AreFresh : ℕ → ℕ → List ℕ → Type 0
AreFresh from to [] = Unit
AreFresh from to (c ∷ cs) = (from ≤ c) × (c < to) × AreFresh from to cs

-- `np.prod` of a shape
abbrev pub prod : List ℕ → ℕ
prod [] = 1
prod (n ∷ ns) = n * prod ns

pub data UsmKind : Type 0 where
  shared device host : UsmKind

-- A Python number: an int, a bool, or a float, which is opaque but for what `int()` makes of it.
pub data PyNumber : Type 0 where
  int : ℤ → PyNumber
  bool : Bool → PyNumber
  float : ℕ → ℤ → PyNumber

-- A value of ctypes among the arguments of a kernel. An integer is its bit pattern; a floating
-- value is the Python number that it was made from.
pub data KernelArg : Type 0 where
  c_size_t c_longlong c_ulonglong c_int c_uint c_uint8 : ℕ → KernelArg
  c_double c_float : PyNumber → KernelArg
  pointer : UsmMem → KernelArg

pub record Runtime : Type 0 where
  -- `ndarray.flatten(order="C")`
  pub flatten : PyArray → Exec World PyArray
  -- `np.copyto(dst, src)`
  pub copyto : PyArray → PyArray → Exec World (Unit {0})
  -- `dpctl.memory.MemoryUSM…(size, queue=queue)`
  pub allocate : UsmKind → ℕ → Queue → Exec World UsmMem
  pub copy_from_host : UsmMem → PyArray → World → World
  pub copy_to_host : UsmMem → PyArray → World → World
  -- `queue.submit(kernel, args, global_size, local_size)` and then `queue.wait()`
  pub submit : Queue → List KernelArg → List ℕ → Option (List ℕ) → Exec World (Unit {0})

-- A new allocation, of the stated size and queue, beside which nothing has changed.
abbrev pub IsAllocated : ℕ → Queue → World → UsmMem → World → Type 0
IsAllocated n q w m w' =
    (m.size ≡ n)
    × (m.sycl_queue ≡ q)
    × (m.id ≡ w.next_usm)
    × (w'.next_usm ≡ suc w.next_usm)
    × (w'.host ≡ w.host)
    × (w'.next_cell ≡ w.next_cell)
    × ((i : ℕ) → i < w.next_usm → w'.usm i ≡ w.usm i)

-- A new, one-dimensional, C-contiguous array of the same elements.
abbrev pub IsFlattened : PyArray → World → PyArray → World → Type 0
IsFlattened a w b w' =
    (b.shape ≡ prod a.shape ∷ [])
    × (b.is_ndarray ≡ true)
    × (b.c_contiguous ≡ true)
    × (b.dtype ≡ a.dtype)
    × (b.itemsize ≡ a.itemsize)
    × (length b.cells ≡ length a.cells)
    × (length b.strides ≡ 1)
    × AreDistinct b.cells
    × AreFresh w.next_cell w'.next_cell b.cells
    × (read b w' ≡ read a w)
    × ((c : ℕ) → c < w.next_cell → w'.host c ≡ w.host c)
    × (w.next_cell ≤ w'.next_cell)
    × (w'.usm ≡ w.usm)
    × (w'.next_usm ≡ w.next_usm)

-- The documented behaviour of these calls, in what the package relies on.
pub record IsLawful (R : Runtime) : Type 0 where
  pub copy_from_host_lem :
      (m : UsmMem) (a : PyArray) (w : World)
      → R.copy_from_host m a w ≡ record w { usm = update w.usm m.id (read a w) }
  pub copy_to_host_lem :
      (m : UsmMem) (a : PyArray) (w : World)
      → R.copy_to_host m a w ≡ record w { host = write a.cells (w.usm m.id) w.host }
  pub allocate_ok :
      (k : UsmKind) (n : ℕ) (q : Queue) (w : World) (m : UsmMem) (w' : World)
      → R.allocate k n q w ≡ (ok m, w')
      → IsAllocated n q w m w'
  pub allocate_err :
      (k : UsmKind) (n : ℕ) (q : Queue) (w : World) (e : Error) (w' : World)
      → R.allocate k n q w ≡ (err e, w')
      → w' ≡ w
  pub flatten_ok :
      (a : PyArray) (w : World) (b : PyArray) (w' : World)
      → R.flatten a w ≡ (ok b, w')
      → IsFlattened a w b w'
  pub flatten_err :
      (a : PyArray) (w : World) (e : Error) (w' : World) → R.flatten a w ≡ (err e, w') → w' ≡ w
  pub copyto_ok :
      (dst src : PyArray) (w : World)
      → dst.shape ≡ src.shape
      → R.copyto dst src w ≡ (ok tt, record w { host = write dst.cells (read src w) w.host })
  -- whatever the shapes, only elements of the destination are written
  pub copyto_apart :
      (dst src : PyArray) (w : World) (c : ℕ)
      → IsApart c dst.cells
      → (R.copyto dst src w).1.host c ≡ w.host c
  pub submit_host :
      (q : Queue) (args : List KernelArg) (gs : List ℕ) (ls : Option (List ℕ)) (w : World)
      → ((R.submit q args gs ls w).1.host ≡ w.host)
        × ((R.submit q args gs ls w).1.next_cell ≡ w.next_cell)
