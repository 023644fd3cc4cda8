-- ===== src/Kernel/Returns.antt =====
-- Runs of `_unpack_Array` and `_unpack_argument` that returned, taken apart.
use numba_dppy.Prelude.{List, Option, Option-cases, arith, inl, inr, none, refl, some, ℕ, ◌≡◌}
use numba_dppy.Exec.{>>=-returns, Exec, pure, ◌>>=◌}
use numba_dppy.Result.{Result, err, ok}
use numba_dppy.Argument.{
  int_of, ArgType, PyValue, array, array_type, boolean, float32, float64, int32, int64,
  integer_bits, number, other_value, real_number, uint32, uint64, usm_nd_array,
}
use numba_dppy.Memory.{
  KernelArg, PyArray, PyNumber, Runtime, UsmMem, World, c_double, c_float, c_int, c_longlong,
  c_uint, c_ulonglong,
}
use numba_dppy.Usm.{has_usm_memory}
use numba_dppy.Access.{AccessType}
use numba_dppy.Kernel.{
  DeviceArray, Kernel, Unpacked, array_args, copy_array, copy_to_device, real, scalar, share_array,
  unpack_argument, unpack_array, unpack_usm_nd_array,
}

module _ (R : Runtime) (self : Kernel) where
  pub share_array_inv :
      (a : PyArray) (m : UsmMem) (w : World) (args : List KernelArg) (o : Option DeviceArray)
      (w' : World)
      → share_array R self a m w ≡ (ok (args, o), w')
      → (o ≡ none) × (array_args R self a m w ≡ (ok args, w'))
  share_array_inv a m w args o w' h =
      let rest : List KernelArg → Exec World Unpacked = λ found. pure (found, none) in
      let (found, v, r, k) = >>=-returns (array_args R self a m) rest w (args, o) w' h in
      let same : found ≡ args = cc k in let last : v ≡ w' = cc k in (cc k, rw (r, same, last))

  pub copy_array_inv :
      (a : PyArray) (t : AccessType) (w : World) (args : List KernelArg) (o : Option DeviceArray)
      (w' : World)
      → copy_array R self a t w ≡ (ok (args, o), w')
      → (d : DeviceArray) × (v : World) × (o ≡ some d)
        × (copy_to_device R self a t w ≡ (ok d, v))
        × (array_args R self d.packed_ndarr d.usm_mem v ≡ (ok args, w'))
  copy_array_inv a t w args o w' h =
      let last : DeviceArray → List KernelArg → Exec World Unpacked =
        λ d found. pure (found, some d) in
      let rest : DeviceArray → Exec World Unpacked =
        λ d. array_args R self d.packed_ndarr d.usm_mem >>= last d in
      let (d, v, r, k) = >>=-returns (copy_to_device R self a t) rest w (args, o) w' h in
      let (found, u, r', k') =
        >>=-returns (array_args R self d.packed_ndarr d.usm_mem) (last d) v (args, o) w' k in
      let same : found ≡ args = cc k' in
      let end : u ≡ w' = cc k' in (d, v, cc k', r, rw (r', same, end))

  -- an argument that is kept for later is an array without USM memory
  pub unpack_array_kept :
      (a : PyArray) (t : AccessType) (w : World) (args : List KernelArg) (d : DeviceArray)
      (w' : World)
      → unpack_array R self a t w ≡ (ok (args, some d), w')
      → (v : World) × (has_usm_memory a ≡ none) × (copy_to_device R self a t w ≡ (ok d, v))
  unfolding unpack_array
  unpack_array_kept a t w args d w' h = elim (Option-cases (has_usm_memory a)) [
    | inl e ↦
        let (d', v, same, r, _) =
          copy_array_inv a t w args (some d) w' (rw (e, unpack_array) at h) in
        let is_d : d' ≡ d = cc same in (v, e, rw is_d at r)
    | inr (m, e) ↦
        let (same, _) = share_array_inv a m w args (some d) w' (rw (e, unpack_array) at h) in
        cc same
  ]

  scalar_kept :
      (c : ℕ → KernelArg) (r : Result ℕ) (w : World) (args : List KernelArg) (d : DeviceArray)
      (w' : World)
      → ¬ (scalar c r w ≡ (ok (args, some d), w'))
  scalar_kept c (ok b) w args d w' h = cc
  scalar_kept c (err e) w args d w' h = cc

  real_kept :
      (c : PyNumber → KernelArg) (val : PyValue) (w : World) (args : List KernelArg)
      (d : DeviceArray) (w' : World)
      → ¬ (real c val w ≡ (ok (args, some d), w'))
  unfolding real_number
  real_kept c (number n) w args d w' h = cc
  real_kept c (array a) w args d w' h = cc
  real_kept c other_value w args d w' h = cc

  usm_nd_array_kept :
      (a : PyArray) (w : World) (args : List KernelArg) (d : DeviceArray) (w' : World)
      → ¬ (unpack_usm_nd_array R self a w ≡ (ok (args, some d), w'))
  unfolding unpack_usm_nd_array
  usm_nd_array_kept a w args d w' h = ground arith

  -- the same of any argument
  pub unpack_argument_kept :
      (ty : ArgType) (val : PyValue) (t : AccessType) (w : World) (args : List KernelArg)
      (d : DeviceArray) (w' : World)
      → unpack_argument R self ty val t w ≡ (ok (args, some d), w')
      → (a : PyArray) × (v : World) × (val ≡ array a)
        × (has_usm_memory a ≡ none)
        × (copy_to_device R self a t w ≡ (ok d, v))
  unfolding unpack_argument int_of
  unpack_argument_kept (array_type usm_nd_array _ _) (array a) t w args d w' h =
      absurd (usm_nd_array_kept a w args d w' h)
  unpack_argument_kept (array_type _ _ _) (array a) t w args d w' h =
      let (v, none_own, r) = unpack_array_kept a t w args d w' h in (a, v, refl, none_own, r)
  unpack_argument_kept (array_type usm_nd_array _ _) (number _) t w args d w' h = cc
  unpack_argument_kept (array_type _ _ _) (number _) t w args d w' h = cc
  unpack_argument_kept (array_type usm_nd_array _ _) other_value t w args d w' h = cc
  unpack_argument_kept (array_type _ _ _) other_value t w args d w' h = cc
  unpack_argument_kept int64 val t w args d w' h =
      absurd (scalar_kept c_longlong (integer_bits 64 val) w args d w' h)
  unpack_argument_kept uint64 val t w args d w' h =
      absurd (scalar_kept c_ulonglong (integer_bits 64 val) w args d w' h)
  unpack_argument_kept int32 val t w args d w' h =
      absurd (scalar_kept c_int (integer_bits 32 val) w args d w' h)
  unpack_argument_kept uint32 val t w args d w' h =
      absurd (scalar_kept c_uint (integer_bits 32 val) w args d w' h)
  unpack_argument_kept float64 val t w args d w' h = absurd (real_kept c_double val w args d w' h)
  unpack_argument_kept float32 val t w args d w' h = absurd (real_kept c_float val w args d w' h)
  unpack_argument_kept boolean val t w args d w' h = absurd (ground arith)
  unpack_argument_kept _ val t w args d w' h = cc
