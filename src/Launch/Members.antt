-- ===== src/Launch/Members.antt =====
-- The arguments of an array in a launch against the members of `DPPYArrayModel`,
-- numba_dppy/dppy_array_type.py.
use numba_dppy.Prelude.{
  Bool, List, Option, String, [], ap, arith, false, if◌then◌else◌, none, refl, some, str_eq, subst,
  suc, sym, true, zero, ℕ, ◌++◌, ◌+◌, ◌∙◌, ◌∷◌, ◌≡◌,
}
use numba_dppy.Argument.{ArrayClass, dppy_array, npytypes_array, usm_nd_array, usm_shared_array}
use numba_dppy.Launch.{
  ArgValue, Buffer, Instr, KernelLaunchOps, buffer_ptr, copy_in_code, data_member, event_delete,
  event_wait, form_array, form_buffer, form_data, form_entries, form_head, form_kernel_arg,
  int64_num, itemsize_member, keep_buffer, malloc_shared, memcpy_to_device, shape_entry,
  size_member, store_arg, stride_entry, voidptr_num, zero_storage,
}
use numba_dppy.Launch.Trace.{collect, collect-append}
use numba_dppy.Kernel.Layout.{Member, c_pointer, intp, model_members, uni_tuple}
use mathlib.Core.List.{append-nil, append_assoc}

abbrev pub value_of : Instr → Option ArgValue
value_of (store_arg n v ty) = some v
value_of _ = none

-- what the slots point to, in the order in which they are stored to
abbrev pub values : List Instr → List ArgValue
values = collect value_of

abbrev pub entries_from : (ℕ → ArgValue) → ℕ → ℕ → List ArgValue
entries_from entry zero d = []
entries_from entry (suc n) d = entry d ∷ entries_from entry n (d + 1)

-- What a member of the array is passed as: the pointers of the host are null, and a tuple is passed
-- element by element.
abbrev pub member_values : String → ArgValue → String → Member → List ArgValue
member_values var payload name c_pointer =
    if str_eq name "data" then payload ∷ [] else zero_storage ∷ []
member_values var payload name intp =
    if str_eq name "nitems" then size_member var ∷ [] else itemsize_member var ∷ []
member_values var payload name (uni_tuple n) =
    if str_eq name "shape"
    then entries_from (shape_entry var) n 0
    else entries_from (stride_entry var) n 0

abbrev pub all_values : String → ArgValue → List (String × Member) → List ArgValue
all_values var payload [] = []
all_values var payload ((name, m) ∷ members) =
    member_values var payload name m ++ all_values var payload members

-- the data itself if it is USM memory, and else the buffer for it
abbrev pub data_value : ArrayClass → String → ℕ → ArgValue
data_value usm_shared_array var cur_arg = data_member var
data_value _ var cur_arg = buffer_ptr (cur_arg + 4)

values-form :
    (val : ArgValue) (ty : ℕ) (self : KernelLaunchOps)
    → values (form_kernel_arg val ty self).code ≡ values self.code ++ val ∷ []
unfolding form_kernel_arg
values-form val ty self = collect-append value_of self.code (store_arg self.cur_arg val ty ∷ [])

values-form_entries :
    (entry : ℕ → ArgValue) (ndim d : ℕ) (self : KernelLaunchOps)
    → values (form_entries entry ndim d self).code ≡ values self.code ++ entries_from entry ndim d
unfolding form_entries
values-form_entries entry zero d self = sym (append-nil (values self.code))
values-form_entries entry (suc ndim) d self =
    values-form_entries entry ndim (d + 1) (form_kernel_arg (entry d) int64_num self)
    ∙ (ap (λ xs. xs ++ entries_from entry ndim (d + 1)) (values-form (entry d) int64_num self)
        ∙ append_assoc (values self.code) (entry d ∷ []) (entries_from entry ndim (d + 1)))

values-three :
    (code a b c : List Instr)
    → values (((code ++ a) ++ b) ++ c) ≡ values code ++ (values a ++ (values b ++ values c))
values-three code a b c =
    rw
      (
        append_assoc (code ++ a) b c,
        append_assoc code a (b ++ c),
        collect-append value_of code (a ++ (b ++ c)),
        collect-append value_of a (b ++ c),
        collect-append value_of b c,
      )
      refl

head_values : String → List ArgValue
head_values var = zero_storage ∷ zero_storage ∷ size_member var ∷ itemsize_member var ∷ []

values-form_head :
    (var : String) (self : KernelLaunchOps)
    → values (form_head var self).code ≡ values self.code ++ head_values var
unfolding form_head form_kernel_arg head_values
values-form_head var self =
    values-three (self.code ++ store_arg self.cur_arg zero_storage int64_num ∷ [])
      (store_arg (self.cur_arg + 1) zero_storage int64_num ∷ [])
      (store_arg (self.cur_arg + 1 + 1) (size_member var) int64_num ∷ [])
      (store_arg (self.cur_arg + 1 + 1 + 1) (itemsize_member var) int64_num ∷ [])
    ∙ (ap (λ xs. xs ++ zero_storage ∷ size_member var ∷ itemsize_member var ∷ [])
          (values-form zero_storage int64_num self)
        ∙ append_assoc (values self.code) (zero_storage ∷ [])
            (zero_storage ∷ size_member var ∷ itemsize_member var ∷ []))

values-form_buffer :
    (var : String) (modified is_input : Bool) (self : KernelLaunchOps)
    → values (form_buffer var modified is_input self).code
      ≡ values self.code ++ buffer_ptr self.cur_arg ∷ []
unfolding form_buffer form_kernel_arg keep_buffer copy_in_code
values-form_buffer var true true self =
    let b : Buffer = record { suffix = self.cur_arg; var = var } in
    values-three self.code (malloc_shared b ∷ [])
      (memcpy_to_device b ∷ event_wait ∷ event_delete ∷ [])
      (store_arg self.cur_arg (buffer_ptr self.cur_arg) voidptr_num ∷ [])
values-form_buffer var true false self =
    let b : Buffer = record { suffix = self.cur_arg; var = var } in
    values-three self.code (malloc_shared b ∷ []) []
      (store_arg self.cur_arg (buffer_ptr self.cur_arg) voidptr_num ∷ [])
values-form_buffer var false true self =
    let b : Buffer = record { suffix = self.cur_arg; var = var } in
    values-three self.code (malloc_shared b ∷ [])
      (memcpy_to_device b ∷ event_wait ∷ event_delete ∷ [])
      (store_arg self.cur_arg (buffer_ptr self.cur_arg) voidptr_num ∷ [])
values-form_buffer var false false self =
    let b : Buffer = record { suffix = self.cur_arg; var = var } in
    values-three self.code (malloc_shared b ∷ []) []
      (store_arg self.cur_arg (buffer_ptr self.cur_arg) voidptr_num ∷ [])

values-form_data :
    (class : ArrayClass) (var : String) (modified is_input : Bool) (self : KernelLaunchOps) (n : ℕ)
    → self.cur_arg ≡ n + 4
    → values (form_data class var modified is_input self).code
      ≡ values self.code ++ data_value class var n ∷ []
unfolding form_data
values-form_data usm_shared_array var modified is_input self n e =
    values-form (data_member var) voidptr_num self
values-form_data npytypes_array var modified is_input self n e =
    subst
      (λ k.
        values (form_buffer var modified is_input self).code
        ≡ values self.code ++ buffer_ptr k ∷ [])
      e (values-form_buffer var modified is_input self)
values-form_data dppy_array var modified is_input self n e =
    subst
      (λ k.
        values (form_buffer var modified is_input self).code
        ≡ values self.code ++ buffer_ptr k ∷ [])
      e (values-form_buffer var modified is_input self)
values-form_data usm_nd_array var modified is_input self n e =
    subst
      (λ k.
        values (form_buffer var modified is_input self).code
        ≡ values self.code ++ buffer_ptr k ∷ [])
      e (values-form_buffer var modified is_input self)

cur_arg-form_head :
    (var : String) (self : KernelLaunchOps) → (form_head var self).cur_arg ≡ self.cur_arg + 4
unfolding form_head form_kernel_arg
cur_arg-form_head var self = omega arith

regroup : (v h x s t : List ArgValue) → (((v ++ h) ++ x) ++ s) ++ t ≡ v ++ (h ++ (x ++ (s ++ t)))
regroup v h x s t = simp append_assoc

-- An array is passed as the members of its data model, in their order: null pointers for the two
-- host objects, the number and the size of its elements, the pointer to its data, which is that of
-- its buffer if it is no USM array, and its shape and its strides element by element.
pub values-form_array :
    (class : ArrayClass) (ndim : ℕ) (var : String) (modified is_input : Bool)
    (self : KernelLaunchOps)
    → values (form_array class ndim var modified is_input self).code
      ≡ values self.code ++ all_values var (data_value class var self.cur_arg) (model_members ndim)
unfolding form_array head_values
values-form_array class ndim var modified is_input self =
    let a = form_head var self in
    let b = form_data class var modified is_input a in
    let c = form_entries (shape_entry var) ndim 0 b in
    let payload = data_value class var self.cur_arg ∷ [] in
    let shape = entries_from (shape_entry var) ndim 0 in
    let strides = entries_from (stride_entry var) ndim 0 in
    values-form_entries (stride_entry var) ndim 0 c
    ∙ (ap (λ xs. xs ++ strides)
          (values-form_entries (shape_entry var) ndim 0 b
            ∙ ap (λ xs. xs ++ shape)
                (values-form_data class var modified is_input a self.cur_arg
                    (cur_arg-form_head var self)
                  ∙ ap (λ xs. xs ++ payload) (values-form_head var self)))
        ∙ (regroup (values self.code) (head_values var) payload shape strides
            ∙ ap (λ xs. values self.code ++ (head_values var ++ (payload ++ (shape ++ xs))))
                (sym (append-nil strides))))
