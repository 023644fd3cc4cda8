-- ===== src/Kernel/Layout.antt =====
-- The arguments of an array against the members of `DPPYArrayModel`, numba_dppy/dppy_array_type.py,
-- by which the compiled kernel reads them.
use numba_dppy.Prelude.{
  List, Option, Option-cases, String, [], ap, arith, false, inl, inr, length, length-append,
  length-map, map, none, refl, subst, sym, true, ℕ, ◌++◌, ◌+◌, ◌∙◌, ◌∷◌, ◌≡◌,
}
use numba_dppy.Result.{ok}
use numba_dppy.Argument.{c_longlong_of, per_axis, unpack_device_array_argument}
use numba_dppy.Memory.{
  IsLawful, KernelArg, PyArray, Runtime, UsmMem, World, c_size_t, pointer, prod,
}
use numba_dppy.Usm.{has_usm_memory}
use numba_dppy.Access.{AccessType}
use numba_dppy.Kernel.{DeviceArray, Kernel, array_args, unpack_array}
use numba_dppy.Kernel.Unpack.{copy_to_device-IsPrepared}
use numba_dppy.Kernel.Returns.{copy_array_inv, share_array_inv}

pub data Member : Type 0 where
  c_pointer intp : Member
  -- a tuple of so many `intp`
  uni_tuple : ℕ → Member

-- `DPPYArrayModel.__init__`
abbrev pub model_members : ℕ → List (String × Member)
model_members ndim =
    ("meminfo", c_pointer)
    ∷ ("parent", c_pointer)
    ∷ ("nitems", intp)
    ∷ ("itemsize", intp)
    ∷ ("data", c_pointer)
    ∷ ("shape", uni_tuple ndim)
    ∷ ("strides", uni_tuple ndim)
    ∷ []

-- The arguments that a kernel has for such members: a tuple is passed element by element.
abbrev pub flat_count : List (String × Member) → ℕ
flat_count [] = 0
flat_count ((_, uni_tuple n) ∷ rest) = n + flat_count rest
flat_count ((_, c_pointer) ∷ rest) = 1 + flat_count rest
flat_count ((_, intp) ∷ rest) = 1 + flat_count rest

per_axis_lem : (xs : List ℕ) → per_axis (length xs) xs ≡ ok (map c_longlong_of xs)
unfolding per_axis
per_axis_lem [] = refl
per_axis_lem (x ∷ xs) = rw (per_axis_lem xs)

per_axis_of : (n : ℕ) (xs : List ℕ) → length xs ≡ n → per_axis n xs ≡ ok (map c_longlong_of xs)
per_axis_of n xs h = subst (λ k. per_axis k xs ≡ ok (map c_longlong_of xs)) h (per_axis_lem xs)

-- An array whose shape and strides have the same length gives null pointers, size, item size, data,
-- then the shape and then the strides.
pub unpack_device_array_argument_lem :
    (size itemsize : ℕ) (buf : UsmMem) (shape strides : List ℕ) (w : World)
    → length strides ≡ length shape
    → unpack_device_array_argument size itemsize buf shape strides (length shape) w ≡ (
      ok (
          c_size_t 0
          ∷ c_size_t 0
          ∷ c_longlong_of size
          ∷ c_longlong_of itemsize
          ∷ pointer buf
          ∷ (map c_longlong_of shape ++ map c_longlong_of strides)),
      w,
    )
unfolding unpack_device_array_argument
unpack_device_array_argument_lem size itemsize buf shape strides w h =
    rw (per_axis_lem shape, per_axis_of (length shape) strides h)

module _ (R : Runtime) (self : Kernel) where
  array_args-count :
      (a : PyArray) (m : UsmMem) (w : World) (args : List KernelArg) (w' : World)
      → length a.strides ≡ length a.shape
      → array_args R self a m w ≡ (ok args, w')
      → length args ≡ flat_count (model_members (length a.shape))
  array_args-count a m w args w' same h =
      let shown =
        unpack_device_array_argument_lem (prod a.shape) a.itemsize m a.shape a.strides w same in
      let made = sym shown ∙ h in
      let dims = map c_longlong_of a.shape in
      let steps = map c_longlong_of a.strides in
      let listed : c_size_t 0
            ∷ c_size_t 0
            ∷ c_longlong_of (prod a.shape)
            ∷ c_longlong_of a.itemsize
            ∷ pointer m
            ∷ (dims ++ steps)
          ≡ args =
        cc made in
      omega (
        arith,
        ap length listed,
        length-append dims steps,
        length-map c_longlong_of a.shape,
        length-map c_longlong_of a.strides,
      )

  -- An array that comes with USM memory or is C-contiguous, and that has as many strides as
  -- dimensions, is passed, if unpacking returns, as so many arguments as the members of the model
  -- have for its number of dimensions.
  pub length-unpack_array :
      (a : PyArray) (t : AccessType) (w : World) (args : List KernelArg) (o : Option DeviceArray)
      (w' : World)
      → IsLawful R
      → length a.strides ≡ length a.shape
      → (has_usm_memory a ≡ none → a.c_contiguous ≡ true)
      → unpack_array R self a t w ≡ (ok (args, o), w')
      → length args ≡ flat_count (model_members (length a.shape))
  unfolding unpack_array
  length-unpack_array a t w args o w' L same whole h = elim (Option-cases (has_usm_memory a)) [
    | inl e ↦
        let (d, v, _, made, shown) =
          copy_array_inv R self a t w args o w' (rw (e, unpack_array) at h) in
        let (_, _, _, _, _, _, _, is_a, _) = copy_to_device-IsPrepared R L self a t w d v e made in
        array_args-count a d.usm_mem v args w' same (rw (is_a (whole e)) at shown)
    | inr (m, e) ↦
        let (_, shown) = share_array_inv R self a m w args o w' (rw (e, unpack_array) at h) in
        array_args-count a m w args w' same shown
  ]

  -- A host array that is not C-contiguous is passed, if unpacking returns, as a one-dimensional
  -- array, whatever the number of its dimensions: as so many arguments as the members of the model
  -- have for one dimension.
  pub length-unpack_array_packed :
      (a : PyArray) (t : AccessType) (w : World) (args : List KernelArg) (o : Option DeviceArray)
      (w' : World)
      → IsLawful R
      → has_usm_memory a ≡ none
      → a.c_contiguous ≡ false
      → unpack_array R self a t w ≡ (ok (args, o), w')
      → length args ≡ flat_count (model_members 1)
  unfolding unpack_array
  length-unpack_array_packed a t w args o w' L e strided h =
      let (d, v, _, made, shown) =
        copy_array_inv R self a t w args o w' (rw (e, unpack_array) at h) in
      let (_, _, _, _, _, _, _, _, packed) = copy_to_device-IsPrepared R L self a t w d v e made in
      let (shape, strides, _, _, _) = packed strided in
      let flat : length d.packed_ndarr.shape ≡ 1 = ap length shape in
      subst (λ n. length args ≡ flat_count (model_members n)) flat
        (array_args-count d.packed_ndarr d.usm_mem v args w' (strides ∙ sym flat) shown)
