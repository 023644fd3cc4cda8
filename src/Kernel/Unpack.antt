-- ===== src/Kernel/Unpack.antt =====
-- What a host array leaves in memory and on the list when it is unpacked.
use numba_dppy.Prelude.{
  Bool-cases, Option, [], ap, arith, false, inl, inr, length, none, not, refl, some, subst, sym,
  true, ◌*◌, ◌<◌, ◌∙◌, ◌∷◌, ◌≡◌, ◌≤◌, ◌⊎◌,
}
use numba_dppy.Exec.{>>=-returns, Exec, ok-subst, pure, ◌>>=◌, ◌>>◌}
use numba_dppy.Result.{ok}
use numba_dppy.Range.{Queue}
use numba_dppy.Memory.{
  AreDistinct, AreFresh, IsAllocated, IsFlattened, IsLawful, PyArray, Runtime, UsmMem, World,
  contents, prod, read, shared,
}
use numba_dppy.Memory.Write.{AreFresh-mono, update_self}
use numba_dppy.Memory.Preserves.{
  Preserves, Preserves-allocated, Preserves-copied, Preserves-flattened, Preserves-refl,
  Preserves-trans,
}
use numba_dppy.Usm.{
  as_usm_obj, copy_from_numpy_to_usm_obj, has_usm_memory, is_supported_dtype, usm_kind, usm_of,
}
use numba_dppy.Access.{AccessType}
use numba_dppy.Kernel.{
  DeviceArray, Kernel, copies_in, copy_in, copy_to_device, device_array, packed_of, queue_arg,
}

module _ (R : Runtime) where
  as_usm_obj_inv :
      (val : PyArray) (sq : Option Queue) (w : World) (m : UsmMem) (w' : World)
      → has_usm_memory val ≡ none
      → as_usm_obj R val (queue_arg sq) "shared" false w ≡ (ok m, w')
      → (q : Queue) × (sq ≡ some q)
        × (R.allocate shared (prod val.shape * val.itemsize) q w ≡ (ok m, w'))
        × (val.is_ndarray ≡ true)
        × (is_supported_dtype val.dtype ≡ true)
  unfolding as_usm_obj usm_kind
  as_usm_obj_inv val none w m w' h r = cc
  as_usm_obj_inv val (some q) w m w' h r = (q, refl, ground arith, ground arith, ground arith)

module _ (R : Runtime) (L : IsLawful R) (self : Kernel) where
  -- What `copy_to_device` leaves: a new allocation, which holds the elements of the array if they
  -- are copied in; the array itself, or a new packed copy of it, to copy back from.
  abbrev pub IsPrepared : PyArray → AccessType → World → DeviceArray → World → Type 0
  IsPrepared val access_type w d w' =
      Preserves w w'
      × (d.orig_ndarr ≡ val)
      × (d.packed ≡ not val.c_contiguous)
      × (w.next_usm ≤ d.usm_mem.id)
      × (d.usm_mem.id < w'.next_usm)
      × (d.usm_mem.size ≡ prod val.shape * val.itemsize)
      × (copies_in self.base access_type ≡ true → contents d.usm_mem w' ≡ read val w)
      × (val.c_contiguous ≡ true → d.packed_ndarr ≡ val)
      × (val.c_contiguous ≡ false
          → (d.packed_ndarr.shape ≡ prod val.shape ∷ [])
            × (length d.packed_ndarr.strides ≡ 1)
            × (length d.packed_ndarr.cells ≡ length val.cells)
            × AreDistinct d.packed_ndarr.cells
            × AreFresh w.next_cell w'.next_cell d.packed_ndarr.cells)

  packed_of-eq :
      (val : PyArray) (w : World) (p : PyArray) (w' : World)
      → val.c_contiguous ≡ true
      → packed_of R self val w ≡ (ok p, w')
      → (p ≡ val) × (w' ≡ w)
  packed_of-eq val w p w' c h = (ground arith, ground arith)

  packed_of-IsFlattened :
      (val : PyArray) (w : World) (p : PyArray) (w' : World)
      → val.c_contiguous ≡ false
      → packed_of R self val w ≡ (ok p, w')
      → IsFlattened val w p w'
  packed_of-IsFlattened val w p w' c h = L.flatten_ok val w p w' (simp c at h)

  -- the steps of a run of `copy_to_device` that returned
  pub record Steps (val : PyArray) (access_type : AccessType) (w : World) (d : DeviceArray)
      (w' : World) : Type 0 where
    pub queue : Queue
    pub allocated : World
    pub stored : World
    pub is_allocated : IsAllocated (prod val.shape * val.itemsize) queue w d.usm_mem allocated
    pub is_packed : packed_of R self val allocated ≡ (ok d.packed_ndarr, stored)
    pub is_copied : copy_in R self access_type d.usm_mem d.packed_ndarr stored ≡ (ok tt, w')
    pub orig : d.orig_ndarr ≡ val
    pub packed : d.packed ≡ not val.c_contiguous

  copy_to_device-Steps :
      (val : PyArray) (access_type : AccessType) (w : World) (d : DeviceArray) (w' : World)
      → has_usm_memory val ≡ none
      → copy_to_device R self val access_type w ≡ (ok d, w')
      → Steps val access_type w d w'
  unfolding copy_to_device
  copy_to_device-Steps val access_type w d w' h r =
      let rest : UsmMem → PyArray → Exec World DeviceArray =
        λ m p. copy_in R self access_type m p >> pure (device_array R self val m p) in
      let (m, w1, r1, k1) =
        >>=-returns (as_usm_obj R val (queue_arg self.sycl_queue) "shared" false)
          (λ m. packed_of R self val >>= rest m) w d w' r in
      let (p, w2, r2, k2) = >>=-returns (packed_of R self val) (rest m) w1 d w' k1 in
      let (u, w3, r3, k3) =
        >>=-returns (copy_in R self access_type m p) (λ _. pure (device_array R self val m p)) w2 d
          w' k2 in
      let (q, _, a, _, _) = as_usm_obj_inv R val self.sycl_queue w m w1 h r1 in
      let steps : Steps val access_type w (device_array R self val m p) w3 = record {
        queue = q;
        allocated = w1;
        stored = w2;
        is_allocated = L.allocate_ok shared (prod val.shape * val.itemsize) q w m w1 a;
        is_packed = r2;
        is_copied = r3;
        orig = refl;
        packed = refl;
      } in
      ok-subst (Steps val access_type w) (device_array R self val m p) d w3 w' k3 steps

  copy_in_cases :
      (access_type : AccessType) (m : UsmMem) (p : PyArray) (w w' : World)
      → copy_in R self access_type m p w ≡ (ok tt, w')
      → ((copies_in self.base access_type ≡ true) × (w' ≡ R.copy_from_host m p w))
        ⊎ ((copies_in self.base access_type ≡ false) × (w' ≡ w))
  unfolding copy_from_numpy_to_usm_obj usm_of
  copy_in_cases access_type m p w w' h = elim (Bool-cases (copies_in self.base access_type)) [
    | inl e ↦ inl (e, ground arith)
    | inr e ↦ inr (e, ground arith)
  ]

  copy_in-next_cell :
      (access_type : AccessType) (m : UsmMem) (p : PyArray) (w w' : World)
      → copy_in R self access_type m p w ≡ (ok tt, w')
      → w'.next_cell ≡ w.next_cell
  copy_in-next_cell access_type m p w w' h = elim (copy_in_cases access_type m p w w' h) [
    | inl (_, e) ↦ ap (λ (v : World). v.next_cell) (e ∙ L.copy_from_host_lem m p w)
    | inr (_, e) ↦ ap (λ (v : World). v.next_cell) e
  ]

  -- the packed copy holds what the array holds, and nothing else has changed
  stored-lem :
      (val : PyArray) (w : World) (p : PyArray) (w' : World)
      → packed_of R self val w ≡ (ok p, w')
      → Preserves w w' × (read p w' ≡ read val w) × (w'.next_usm ≡ w.next_usm)
  stored-lem val w p w' h = elim (Bool-cases val.c_contiguous) [
    | inl e ↦
        let (same, still) = packed_of-eq val w p w' e h in
        (subst (Preserves w) (sym still) (Preserves-refl w), rw (same, still), rw still)
    | inr e ↦
        let f = packed_of-IsFlattened val w p w' e h in
        let (_, _, _, _, _, _, _, _, _, held, _, _, _, next) = f in
        (Preserves-flattened val w p w' f, held, next)
  ]

  -- the allocation of a device array, as an unpacking leaves it
  abbrev pub IsStored : PyArray → AccessType → World → DeviceArray → World → Type 0
  IsStored val access_type w d w' =
      Preserves w w'
      × (d.usm_mem.id < w'.next_usm)
      × (copies_in self.base access_type ≡ true → contents d.usm_mem w' ≡ read val w)

  module _ (val : PyArray) (access_type : AccessType) (w : World) (d : DeviceArray) (w' : World)
      (s : Steps val access_type w d w') where
    Steps-IsStored : IsStored val access_type w d w'
    Steps-IsStored =
        let (size, on, id, next, kept, cells, old) = s.is_allocated in
        let (keeps, held, same) = stored-lem val s.allocated d.packed_ndarr s.stored s.is_packed in
        let before : Preserves w s.stored =
          Preserves-trans w s.allocated s.stored
            (Preserves-allocated (prod val.shape * val.itemsize) s.queue w d.usm_mem s.allocated
              s.is_allocated)
            keeps in
        let filled = L.copy_from_host_lem d.usm_mem d.packed_ndarr s.stored in
        elim (copy_in_cases access_type d.usm_mem d.packed_ndarr s.stored w' s.is_copied) [
          | inl (_, e) ↦ subst (IsStored val access_type w d) (sym e) (
            Preserves-copied R L d.usm_mem d.packed_ndarr w s.stored (omega arith) before,
            omega (arith, ap (λ (v : World). v.next_usm) filled),
            λ h. rw L.copy_from_host_lem (rw update_self (held ∙ rw kept)),
          )
          | inr (off, e) ↦ (
            subst (Preserves w) (sym e) before,
            omega (arith, ap (λ (v : World). v.next_usm) e),
            λ h. cc,
          )
        ]

    Steps-IsPrepared : IsPrepared val access_type w d w'
    Steps-IsPrepared =
        let (size, _, id, _, _, cells, _) = s.is_allocated in
        let (keeps, below, held) = Steps-IsStored in
        (
          keeps,
          s.orig,
          s.packed,
          omega arith,
          below,
          size,
          held,
          λ c. (packed_of-eq val s.allocated d.packed_ndarr s.stored c s.is_packed).0,
          λ c.
              let (shape, _, _, _, _, count, strides, distinct, fresh, _, _, _, _, _) =
                packed_of-IsFlattened val s.allocated d.packed_ndarr s.stored c s.is_packed in
              (
                shape,
                strides,
                count,
                distinct,
                AreFresh-mono s.allocated.next_cell s.stored.next_cell w.next_cell w'.next_cell
                    d.packed_ndarr.cells (omega arith)
                    (omega (
                      arith,
                      copy_in-next_cell access_type d.usm_mem d.packed_ndarr s.stored w'
                          s.is_copied,
                    ))
                    fresh,
              ),
        )

  pub copy_to_device-IsPrepared :
      (val : PyArray) (access_type : AccessType) (w : World) (d : DeviceArray) (w' : World)
      → has_usm_memory val ≡ none
      → copy_to_device R self val access_type w ≡ (ok d, w')
      → IsPrepared val access_type w d w'
  copy_to_device-IsPrepared val access_type w d w' h r =
      Steps-IsPrepared val access_type w d w' (copy_to_device-Steps val access_type w d w' h r)
