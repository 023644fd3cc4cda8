-- ===== src/Launch/Fills.antt =====
-- The slots of the argument array while the arguments of a launch are processed.
use numba_dppy.Prelude.{
  Bool, List, String, [], ap, arith, false, refl, subst, suc, sym, true, zero, ℕ, ◌*◌, ◌++◌, ◌+◌,
  ◌∙◌, ◌∷◌, ◌≡◌,
}
use numba_dppy.Argument.{ArrayClass, dppy_array, npytypes_array, usm_nd_array, usm_shared_array}
use numba_dppy.Launch.{
  ArgValue, Buffer, Instr, KernelLaunchOps, buffer_ptr, copy_in_code, data_member, emit, form_array,
  form_buffer, form_data, form_entries, form_head, form_kernel_arg, int64_num, itemsize_member,
  keep_buffer, malloc_shared, shape_entry, size_member, store_arg, stride_entry, voidptr_num,
  zero_storage,
}
use numba_dppy.Launch.Trace.{collect-append, count_from, count_from-append, slot_of, slots}
use mathlib.Core.List.{append-nil}
use native.Mathlib.Nat.{zero-add}

-- The slots below the next one are stored to, each once and in order.
abbrev pub IsFilled : KernelLaunchOps → Type 0
IsFilled self = slots self.code ≡ count_from 0 self.cur_arg

-- One state comes from another by the next n slots.
abbrev pub Fills : ℕ → KernelLaunchOps → KernelLaunchOps → Type 0
Fills n self self' =
    (IsFilled self → IsFilled self')
    × (self'.cur_arg ≡ self.cur_arg + n)
    × (self'.total_kernel_args ≡ self.total_kernel_args)

pub Fills-trans :
    (m n : ℕ) (a b c : KernelLaunchOps) → Fills m a b → Fills n b c → Fills (m + n) a c
Fills-trans m n a b c f g = (λ h. g.0 (f.0 h), omega (arith, f.1, g.1), g.2 ∙ f.2)

pub form-Fills :
    (val : ArgValue) (ty : ℕ) (self : KernelLaunchOps) → Fills 1 self (form_kernel_arg val ty self)
unfolding form_kernel_arg
form-Fills val ty self = (
  λ h.
      rw (collect-append slot_of self.code (store_arg self.cur_arg val ty ∷ []), h)
        (sym (
          count_from-append 0 self.cur_arg
          ∙ ap (λ k. count_from 0 self.cur_arg ++ k ∷ []) (zero-add self.cur_arg))),
  refl,
  refl,
)

emit-Fills :
    (instrs : List Instr) (self : KernelLaunchOps)
    → slots instrs ≡ []
    → Fills 0 self (emit instrs self)
emit-Fills instrs self e = (
  λ h. rw (collect-append slot_of self.code instrs, e, h) (append-nil (count_from 0 self.cur_arg)),
  omega arith,
  refl,
)

form_entries-Fills :
    (entry : ℕ → ArgValue) (ndim d : ℕ) (self : KernelLaunchOps)
    → Fills ndim self (form_entries entry ndim d self)
unfolding form_entries
form_entries-Fills entry zero d self = (λ h. h, omega arith, refl)
form_entries-Fills entry (suc ndim) d self =
    let next = form_kernel_arg (entry d) int64_num self in
    let made = form_entries entry ndim (d + 1) next in
    subst (λ n. Fills n self made) (omega arith)
      (Fills-trans 1 ndim self next made (form-Fills (entry d) int64_num self)
        (form_entries-Fills entry ndim (d + 1) next))

form_head-Fills : (var : String) (self : KernelLaunchOps) → Fills 4 self (form_head var self)
unfolding form_head
form_head-Fills var self =
    let a = form_kernel_arg zero_storage int64_num self in
    let b = form_kernel_arg zero_storage int64_num a in
    let c = form_kernel_arg (size_member var) int64_num b in
    let d = form_kernel_arg (itemsize_member var) int64_num c in
    Fills-trans 1 3 self a d (form-Fills zero_storage int64_num self) (
      Fills-trans 1 2 a b d (form-Fills zero_storage int64_num a) (
        Fills-trans 1 1 b c d (form-Fills (size_member var) int64_num b)
          (form-Fills (itemsize_member var) int64_num c)))

keep-Fills :
    (modified : Bool) (b : Buffer) (self : KernelLaunchOps)
    → Fills 0 self (keep_buffer modified b self)
unfolding keep_buffer
keep-Fills true b self = (λ h. h, omega arith, refl)
keep-Fills false b self = (λ h. h, omega arith, refl)

slots-copy_in : (is_input : Bool) (b : Buffer) → slots (copy_in_code is_input b) ≡ []
unfolding copy_in_code
slots-copy_in true b = refl
slots-copy_in false b = refl

form_buffer-Fills :
    (var : String) (modified is_input : Bool) (self : KernelLaunchOps)
    → Fills 1 self (form_buffer var modified is_input self)
unfolding form_buffer
form_buffer-Fills var modified is_input self =
    let b : Buffer = record { suffix = self.cur_arg; var = var } in
    let made = emit (malloc_shared b ∷ []) self in
    let kept = keep_buffer modified b made in
    let copied = emit (copy_in_code is_input b) kept in
    let done = form_kernel_arg (buffer_ptr self.cur_arg) voidptr_num copied in
    Fills-trans 0 1 self made done (emit-Fills (malloc_shared b ∷ []) self refl) (
      Fills-trans 0 1 made kept done (keep-Fills modified b made) (
        Fills-trans 0 1 kept copied done
          (emit-Fills (copy_in_code is_input b) kept (slots-copy_in is_input b))
          (form-Fills (buffer_ptr self.cur_arg) voidptr_num copied)))

form_data-Fills :
    (class : ArrayClass) (var : String) (modified is_input : Bool) (self : KernelLaunchOps)
    → Fills 1 self (form_data class var modified is_input self)
unfolding form_data
form_data-Fills usm_shared_array var modified is_input self =
    form-Fills (data_member var) voidptr_num self
form_data-Fills npytypes_array var modified is_input self =
    form_buffer-Fills var modified is_input self
form_data-Fills dppy_array var modified is_input self = form_buffer-Fills var modified is_input self
form_data-Fills usm_nd_array var modified is_input self =
    form_buffer-Fills var modified is_input self

pub form_array-Fills :
    (class : ArrayClass) (ndim : ℕ) (var : String) (modified is_input : Bool)
    (self : KernelLaunchOps)
    → Fills (5 + 2 * ndim) self (form_array class ndim var modified is_input self)
unfolding form_array
form_array-Fills class ndim var modified is_input self =
    let a = form_head var self in
    let b = form_data class var modified is_input a in
    let c = form_entries (shape_entry var) ndim 0 b in
    let d = form_entries (stride_entry var) ndim 0 c in
    subst (λ n. Fills n self d) (omega arith)
      (Fills-trans 4 (1 + (ndim + ndim)) self a d (form_head-Fills var self) (
        Fills-trans 1 (ndim + ndim) a b d (form_data-Fills class var modified is_input a) (
          Fills-trans ndim ndim b c d (form_entries-Fills (shape_entry var) ndim 0 b)
            (form_entries-Fills (stride_entry var) ndim 0 c))))
