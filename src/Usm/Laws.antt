-- ===== src/Usm/Laws.antt =====
-- When the copies and `as_usm_obj` succeed, and what they leave in memory.
use numba_dppy.Prelude.{
  Bool, String, arith, false, if◌then◌else◌, mul_comm, none, refl, some, true, ◌*◌, ◌∙◌, ◌≡◌,
}
use numba_dppy.Exec.{Exec, ◌>>=◌}
use numba_dppy.Result.{Error, err, ok}
use numba_dppy.Range.{Queue}
use numba_dppy.Memory.{IsLawful, PyArray, Runtime, UsmKind, UsmMem, World, prod}
use numba_dppy.Usm.{
  Allocated, as_usm_obj, copy_from_numpy_to_usm_obj, copy_to_numpy_from_usm_obj, has_usm_memory,
  is_supported_dtype, memory, sycl_queue, usm_kind, usm_of,
}

-- What both copies ask of their arguments.
abbrev pub IsCopyable : UsmMem → PyArray → Type 0
IsCopyable m obj =
    (obj.is_ndarray ≡ true)
    × (is_supported_dtype obj.dtype ≡ true)
    × (m.size ≡ obj.itemsize * prod obj.shape)

module _ (R : Runtime) where
  pub copy_from_inv :
      (u : Allocated) (m : UsmMem) (obj : PyArray) (w w' : World)
      → usm_of u ≡ some m
      → copy_from_numpy_to_usm_obj R u obj w ≡ (ok tt, w')
      → IsCopyable m obj × (obj.c_contiguous ≡ true)
  unfolding copy_from_numpy_to_usm_obj
  copy_from_inv u m obj w w' h r = (ground arith, ground arith)

  -- A copy that raises has written nothing.
  pub copy_from_raises :
      (u : Allocated) (obj : PyArray) (e : Error) (w w' : World)
      → copy_from_numpy_to_usm_obj R u obj w ≡ (err e, w')
      → w' ≡ w
  unfolding copy_from_numpy_to_usm_obj
  copy_from_raises u obj e w w' r = ground arith

  pub copy_from_ok :
      (u : Allocated) (m : UsmMem) (obj : PyArray) (w : World)
      → usm_of u ≡ some m
      → IsCopyable m obj
      → obj.c_contiguous ≡ true
      → copy_from_numpy_to_usm_obj R u obj w ≡ (ok tt, R.copy_from_host m obj w)
  unfolding copy_from_numpy_to_usm_obj
  copy_from_ok u m obj w h c d = ground arith

  pub copy_to_ok :
      (u : Allocated) (m : UsmMem) (obj : PyArray) (w : World)
      → usm_of u ≡ some m
      → IsCopyable m obj
      → copy_to_numpy_from_usm_obj R u obj w ≡ (ok tt, R.copy_to_host m obj w)
  unfolding copy_to_numpy_from_usm_obj
  copy_to_ok u m obj w h c = ground arith

module _ (R : Runtime) (L : IsLawful R) where
  -- An object that has USM memory is not copied: the result is that memory.
  pub as_usm_obj_shares :
      (obj : PyArray) (q : Queue) (t : String) (copy : Bool) (m : UsmMem) (w : World)
      → has_usm_memory obj ≡ some m
      → as_usm_obj R obj (sycl_queue q) t copy w ≡ (ok m, w)
  unfolding as_usm_obj
  as_usm_obj_shares obj q t copy m w h = ground arith

  -- If the allocation succeeds, so does `as_usm_obj` on a convertible object, and the rest of
  -- memory is as the allocation left it but for the copied elements.
  pub as_usm_obj_allocates :
      (obj : PyArray) (q : Queue) (t : String) (copy : Bool) (k : UsmKind) (m : UsmMem)
      (w w' : World)
      → has_usm_memory obj ≡ none
      → (obj.is_ndarray ≡ true)
      → (is_supported_dtype obj.dtype ≡ true)
      → usm_kind t ≡ some k
      → (copy ≡ true → obj.c_contiguous ≡ true)
      → R.allocate k (prod obj.shape * obj.itemsize) q w ≡ (ok m, w')
      → as_usm_obj R obj (sycl_queue q) t copy w
        ≡ (ok m, if copy then R.copy_from_host m obj w' else w')
  unfolding as_usm_obj usm_of
  as_usm_obj_allocates obj q t true k m w w' h n d u c a =
      let (size, _, _, _, _, _, _) = L.allocate_ok k (prod obj.shape * obj.itemsize) q w m w' a in
      let size' : m.size ≡ obj.itemsize * prod obj.shape =
        size ∙ mul_comm (prod obj.shape) obj.itemsize in
      ground (arith, copy_from_ok R (memory m) m obj w' refl (n, d, size') (c refl))
  as_usm_obj_allocates obj q t false k m w w' h n d u c a = ground arith

  -- `copy_to_numpy_from_usm_obj(as_usm_obj(obj, queue, usm_type), dst)`
  abbrev pub round_trip : PyArray → Queue → String → PyArray → Exec World (Unit {0})
  round_trip obj q t dst = do
    m ← as_usm_obj R obj (sycl_queue q) t true
    copy_to_numpy_from_usm_obj R (memory m) dst
