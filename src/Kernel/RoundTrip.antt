-- ===== src/Kernel/RoundTrip.antt =====
-- A call with one host array, from the array through the device and back.
use numba_dppy.Prelude.{
  Bool-cases, List, [], ap, arith, false, if◌then◌else◌, inl, inr, length, map, none, refl, some,
  sym, true, ℕ, ◌*◌, ◌++◌, ◌∙◌, ◌∷◌, ◌≡◌,
}
use numba_dppy.Result.{Result, ok}
use mathlib.Core.List.{append-nil}
use numba_dppy.Range.{Queue, KernelBase}
use numba_dppy.Argument.{array, array_type, c_longlong_of, dppy_array}
use numba_dppy.Memory.{
  AreDistinct, DType, IsLawful, KernelArg, PyArray, Runtime, UsmMem, World, c_size_t, contents,
  pointer, prod, read, shared,
}
use numba_dppy.Memory.Write.{map-write, update_self}
use numba_dppy.Usm.{has_usm_memory, memory, usm_kind, usm_of}
use numba_dppy.Usm.Laws.{IsCopyable, as_usm_obj_allocates, copy_from_ok, copy_to_ok}
use numba_dppy.Access.{AccessType}
use numba_dppy.Kernel.{
  Kernel, call, copies_back, copies_in, copy_to_device, device_array, pack_argument, pack_arguments,
  unpack_argument, unpack_arguments, unpack_array,
}
use numba_dppy.Kernel.Layout.{unpack_device_array_argument_lem}

-- A kernel of one array parameter.
abbrev pub one_array : KernelBase → DType → ℕ → AccessType → Kernel
one_array base dtype ndim t = record {
  base = base;
  argument_types = array_type dppy_array dtype ndim ∷ [];
  ordered_arg_access_types = t ∷ [];
}

-- The arguments of a host array, with its allocation.
abbrev pub array_arguments : PyArray → UsmMem → List KernelArg
array_arguments a m =
    c_size_t 0
    ∷ c_size_t 0
    ∷ c_longlong_of (prod a.shape)
    ∷ c_longlong_of a.itemsize
    ∷ pointer m
    ∷ (map c_longlong_of a.shape ++ map c_longlong_of a.strides)

module _ (R : Runtime) (L : IsLawful R) (base : KernelBase) (q : Queue) (a : PyArray)
    (t : AccessType) (m : UsmMem) where
  -- memory when the kernel starts, after the allocation
  abbrev pub loaded : World → World
  loaded w = if copies_in base t then R.copy_from_host m a w else w

  abbrev pub returned : World → World
  returned w = if copies_back base t then R.copy_to_host m a w else w

  copy_to_device_run :
      (self : Kernel) (w w1 : World)
      → self.base ≡ base
      → base.sycl_queue ≡ some q
      → has_usm_memory a ≡ none
      → IsCopyable m a
      → a.c_contiguous ≡ true
      → R.allocate shared (prod a.shape * a.itemsize) q w ≡ (ok m, w1)
      → copy_to_device R self a t w ≡ (ok (device_array R self a m a), loaded w1)
  unfolding copy_to_device usm_kind usm_of
  copy_to_device_run self w w1 is_base on none_own c whole made =
      let got =
        as_usm_obj_allocates R L a q "shared" false shared m w w1 none_own c.0 c.1 refl (λ e. whole)
          made in
      ground (arith, got, copy_from_ok R (memory m) m a w1 refl c whole)

  unpack_array_run :
      (self : Kernel) (w w1 : World)
      → self.base ≡ base
      → base.sycl_queue ≡ some q
      → has_usm_memory a ≡ none
      → IsCopyable m a
      → a.c_contiguous ≡ true
      → length a.strides ≡ length a.shape
      → R.allocate shared (prod a.shape * a.itemsize) q w ≡ (ok m, w1)
      → unpack_array R self a t w
        ≡ (ok (array_arguments a m, some (device_array R self a m a)), loaded w1)
  unfolding unpack_array
  unpack_array_run self w w1 is_base on none_own c whole same made =
      let copied = copy_to_device_run self w w1 is_base on none_own c whole made in
      let listed =
        unpack_device_array_argument_lem (prod a.shape) a.itemsize m a.shape a.strides (loaded w1)
          same in
      ground (arith, copied, listed)

  pack_argument_run :
      (self : Kernel) (w : World)
      → self.base ≡ base
      → IsCopyable m a
      → a.c_contiguous ≡ true
      → pack_argument R self (some (device_array R self a m a)) t w ≡ (ok tt, returned w)
  unfolding pack_argument usm_of
  pack_argument_run self w is_base c whole = ground (arith, copy_to_ok R (memory m) m a w refl c)

  host-loaded : (w : World) → (loaded w).host ≡ w.host
  host-loaded w = elim (Bool-cases (copies_in base t)) [
    | inl e ↦ rw (e, L.copy_from_host_lem)
    | inr e ↦ rw e
  ]

  allocated_host :
      (w w1 : World)
      → R.allocate shared (prod a.shape * a.itemsize) q w ≡ (ok m, w1)
      → w1.host ≡ w.host
  allocated_host w w1 made =
      let (_, _, _, _, kept, _, _) =
        L.allocate_ok shared (prod a.shape * a.itemsize) q w m w1 made in
      kept

  contents-loaded :
      (w w1 : World)
      → R.allocate shared (prod a.shape * a.itemsize) q w ≡ (ok m, w1)
      → contents m (loaded w1) ≡ (if copies_in base t then read a w else contents m w1)
  contents-loaded w w1 made = elim (Bool-cases (copies_in base t)) [
    | inl e ↦ rw (e, L.copy_from_host_lem, update_self, allocated_host w w1 made)
    | inr e ↦ rw e
  ]

  read-returned :
      (w w1 w3 : World)
      → R.allocate shared (prod a.shape * a.itemsize) q w ≡ (ok m, w1)
      → w3.host ≡ (loaded w1).host
      → AreDistinct a.cells
      → length (contents m w3) ≡ length a.cells
      → read a (returned w3) ≡ (if copies_back base t then contents m w3 else read a w)
  read-returned w w1 w3 made kept distinct same = elim (Bool-cases (copies_back base t)) [
    | inl e ↦ rw (e, L.copy_to_host_lem) (map-write a.cells (w3.usm m.id) w3.host distinct same)
    | inr e ↦ rw (e, kept, host-loaded w1, allocated_host w w1 made)
  ]

  -- A kernel of one parameter, called with a C-contiguous host array of distinct cells that it can
  -- copy, whose allocation and submission succeed: the call returns; the kernel starts from the
  -- elements of the array exactly if the access type copies in; and the array ends with what its
  -- allocation holds after the kernel, exactly if the access type copies back.
  pub call-one_array :
      (dtype : DType) (ndim : ℕ) (w w1 w3 : World)
      → base.sycl_queue ≡ some q
      → has_usm_memory a ≡ none
      → IsCopyable m a
      → a.c_contiguous ≡ true
      → AreDistinct a.cells
      → length a.strides ≡ length a.shape
      → R.allocate shared (prod a.shape * a.itemsize) q w ≡ (ok m, w1)
      → R.submit q (array_arguments a m) base.global_size base.local_size (loaded w1) ≡ (ok tt, w3)
      → length (contents m w3) ≡ length a.cells
      → (call R (one_array base dtype ndim t) (array a ∷ []) w ≡ (ok tt, returned w3))
        × (contents m (loaded w1) ≡ (if copies_in base t then read a w else contents m w1))
        × (read a (returned w3) ≡ (if copies_back base t then contents m w3 else read a w))
  unfolding call unpack_arguments unpack_argument pack_arguments
  call-one_array dtype ndim w w1 w3 on none_own c whole distinct same made ran count =
      let self = one_array base dtype ndim t in
      let unpacked = unpack_array_run self w w1 refl on none_own c whole same made in
      let packed = pack_argument_run self w3 refl c whole in
      let nil = append-nil (array_arguments a m) in
      let kept : w3.host ≡ (loaded w1).host =
        ap (λ (r : Result (Unit {0}) × World). r.1.host) (sym ran)
        ∙ (L.submit_host q (array_arguments a m) base.global_size base.local_size (loaded w1)).0 in
      (
        ground (arith, unpacked, packed, nil, on, ran),
        contents-loaded w w1 made,
        read-returned w w1 w3 made kept distinct count,
      )
