-- ===== src/Launch/Copies.antt =====
-- Which arrays a launch copies to the device and back.
use numba_dppy.Prelude.{
  Bool, List, Option, String, [], ap, false, none, refl, some, subst₂, suc, sym, true, zero, ℕ,
  ◌&&◌, ◌++◌, ◌+◌, ◌∙◌, ◌∷◌, ◌≡◌,
}
use numba_dppy.Argument.{ArrayClass, dppy_array, npytypes_array, usm_nd_array, usm_shared_array}
use numba_dppy.Launch.{
  ArgValue, Buffer, Instr, KernelLaunchOps, buffer_ptr, copy_in_code, data_member, emit,
  event_delete, event_wait, form_array, form_buffer, form_data, form_entries, form_head,
  form_kernel_arg, int64_num, itemsize_member, keep_buffer, malloc_shared, memcpy_to_device,
  memcpy_to_host, shape_entry, size_member, store_arg, stride_entry, voidptr_num, zero_storage,
}
use numba_dppy.Launch.Trace.{collect, collect-append}
use mathlib.Core.List.{append-nil, append_assoc}

abbrev pub to_device_of : Instr → Option String
to_device_of (memcpy_to_device b) = some b.var
to_device_of _ = none

abbrev pub to_host_of : Instr → Option String
to_host_of (memcpy_to_host b) = some b.var
to_host_of _ = none

-- the variables that are copied to the device and back to the host, in that order
abbrev pub copied_in : List Instr → List String
copied_in = collect to_device_of

abbrev pub copied_back : List Instr → List String
copied_back = collect to_host_of

abbrev pub vars : List Buffer → List String
vars [] = []
vars (b ∷ bs) = b.var ∷ vars bs

vars-append : (bs cs : List Buffer) → vars (bs ++ cs) ≡ vars bs ++ vars cs
vars-append [] cs = refl
vars-append (b ∷ bs) cs = ap (λ xs. b.var ∷ xs) (vars-append bs cs)

-- One state comes from another by code that copies in these variables, and keeps these to be copied
-- back.
abbrev pub Copies : List String → List String → KernelLaunchOps → KernelLaunchOps → Type 0
Copies ins backs self self' =
    (copied_in self'.code ≡ copied_in self.code ++ ins)
    × (vars self'.write_buffs ≡ vars self.write_buffs ++ backs)
    × (copied_back self'.code ≡ copied_back self.code)
    × (self'.num_inputs ≡ self.num_inputs)

pub Copies-trans :
    (is js os ps : List String) (a b c : KernelLaunchOps)
    → Copies is os a b
    → Copies js ps b c
    → Copies (is ++ js) (os ++ ps) a c
Copies-trans is js os ps a b c f g = (
  g.0 ∙ (ap (λ xs. xs ++ js) f.0 ∙ append_assoc (copied_in a.code) is js),
  g.1 ∙ (ap (λ xs. xs ++ ps) f.1 ∙ append_assoc (vars a.write_buffs) os ps),
  g.2 ∙ f.2,
  g.3 ∙ f.3,
)

-- code that copies nothing back, and the slots it takes
quiet_lem :
    (instrs : List Instr) (m : ℕ) (self : KernelLaunchOps)
    → copied_back instrs ≡ []
    → Copies (copied_in instrs) [] self (record self { cur_arg = m; code = self.code ++ instrs })
quiet_lem instrs m self e = (
  collect-append to_device_of self.code instrs,
  sym (append-nil (vars self.write_buffs)),
  rw (collect-append to_host_of self.code instrs, e) (append-nil (copied_back self.code)),
  refl,
)

pub form-Copies :
    (val : ArgValue) (ty : ℕ) (self : KernelLaunchOps)
    → Copies [] [] self (form_kernel_arg val ty self)
unfolding form_kernel_arg
form-Copies val ty self =
    quiet_lem (store_arg self.cur_arg val ty ∷ []) (self.cur_arg + 1) self refl

pub Copies-refl : (self : KernelLaunchOps) → Copies [] [] self self
Copies-refl self =
    (sym (append-nil (copied_in self.code)), sym (append-nil (vars self.write_buffs)), refl, refl)

form_entries-Copies :
    (entry : ℕ → ArgValue) (ndim d : ℕ) (self : KernelLaunchOps)
    → Copies [] [] self (form_entries entry ndim d self)
unfolding form_entries
form_entries-Copies entry zero d self = Copies-refl self
form_entries-Copies entry (suc ndim) d self =
    let next = form_kernel_arg (entry d) int64_num self in
    Copies-trans [] [] [] [] self next (form_entries entry ndim (d + 1) next)
      (form-Copies (entry d) int64_num self) (form_entries-Copies entry ndim (d + 1) next)

form_head-Copies : (var : String) (self : KernelLaunchOps) → Copies [] [] self (form_head var self)
unfolding form_head
form_head-Copies var self =
    let a = form_kernel_arg zero_storage int64_num self in
    let b = form_kernel_arg zero_storage int64_num a in
    let c = form_kernel_arg (size_member var) int64_num b in
    let d = form_kernel_arg (itemsize_member var) int64_num c in
    Copies-trans [] [] [] [] self a d (form-Copies zero_storage int64_num self) (
      Copies-trans [] [] [] [] a b d (form-Copies zero_storage int64_num a) (
        Copies-trans [] [] [] [] b c d (form-Copies (size_member var) int64_num b)
          (form-Copies (itemsize_member var) int64_num c)))

-- the variable, if the test holds
abbrev pub one_if : Bool → String → List String
one_if true v = v ∷ []
one_if false v = []

keep-Copies :
    (modified : Bool) (b : Buffer) (self : KernelLaunchOps)
    → Copies [] (one_if modified b.var) self (keep_buffer modified b self)
unfolding keep_buffer
keep-Copies true b self =
    (sym (append-nil (copied_in self.code)), vars-append self.write_buffs (b ∷ []), refl, refl)
keep-Copies false b self = Copies-refl self

copy_in-Copies :
    (is_input : Bool) (b : Buffer) (self : KernelLaunchOps)
    → Copies (one_if is_input b.var) [] self (emit (copy_in_code is_input b) self)
unfolding copy_in_code
copy_in-Copies true b self =
    quiet_lem (memcpy_to_device b ∷ event_wait ∷ event_delete ∷ []) self.cur_arg self refl
copy_in-Copies false b self = quiet_lem [] self.cur_arg self refl

form_buffer-Copies :
    (var : String) (modified is_input : Bool) (self : KernelLaunchOps)
    → Copies
        (one_if is_input var)
        (one_if modified var)
        self
        (form_buffer var modified is_input self)
unfolding form_buffer
form_buffer-Copies var modified is_input self =
    let b : Buffer = record { suffix = self.cur_arg; var = var } in
    let made = emit (malloc_shared b ∷ []) self in
    let kept = keep_buffer modified b made in
    let copied = emit (copy_in_code is_input b) kept in
    let done = form_kernel_arg (buffer_ptr self.cur_arg) voidptr_num copied in
    subst₂ (λ is os. Copies is os self done) (append-nil (one_if is_input var))
      (append-nil (one_if modified var))
      (Copies-trans [] (one_if is_input var ++ []) [] (one_if modified var ++ []) self made done
        (quiet_lem (malloc_shared b ∷ []) self.cur_arg self refl)
        (Copies-trans [] (one_if is_input var ++ []) (one_if modified var) [] made kept done
          (keep-Copies modified b made)
          (Copies-trans (one_if is_input var) [] [] [] kept copied done
            (copy_in-Copies is_input b kept)
            (form-Copies (buffer_ptr self.cur_arg) voidptr_num copied))))

-- whether an array of the class has a buffer of its own
abbrev pub is_buffered : ArrayClass → Bool
is_buffered usm_shared_array = false
is_buffered _ = true

form_data-Copies :
    (class : ArrayClass) (var : String) (modified is_input : Bool) (self : KernelLaunchOps)
    → Copies
        (one_if (is_buffered class && is_input) var)
        (one_if (is_buffered class && modified) var)
        self
        (form_data class var modified is_input self)
unfolding form_data
form_data-Copies usm_shared_array var modified is_input self =
    form-Copies (data_member var) voidptr_num self
form_data-Copies npytypes_array var modified is_input self =
    form_buffer-Copies var modified is_input self
form_data-Copies dppy_array var modified is_input self =
    form_buffer-Copies var modified is_input self
form_data-Copies usm_nd_array var modified is_input self =
    form_buffer-Copies var modified is_input self

pub form_array-Copies :
    (class : ArrayClass) (ndim : ℕ) (var : String) (modified is_input : Bool)
    (self : KernelLaunchOps)
    → Copies
        (one_if (is_buffered class && is_input) var)
        (one_if (is_buffered class && modified) var)
        self
        (form_array class ndim var modified is_input self)
unfolding form_array
form_array-Copies class ndim var modified is_input self =
    let a = form_head var self in
    let b = form_data class var modified is_input a in
    let c = form_entries (shape_entry var) ndim 0 b in
    let d = form_entries (stride_entry var) ndim 0 c in
    let is = one_if (is_buffered class && is_input) var in
    let os = one_if (is_buffered class && modified) var in
    subst₂ (λ xs ys. Copies xs ys self d) (append-nil is) (append-nil os)
      (Copies-trans [] (is ++ []) [] (os ++ []) self a d (form_head-Copies var self) (
        Copies-trans is [] os [] a b d (form_data-Copies class var modified is_input a) (
          Copies-trans [] [] [] [] b c d (form_entries-Copies (shape_entry var) ndim 0 b)
            (form_entries-Copies (stride_entry var) ndim 0 c))))
