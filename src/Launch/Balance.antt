-- ===== src/Launch/Balance.antt =====
-- The USM buffers while the arguments of a launch are processed.
use numba_dppy.Prelude.{
  Bool, List, String, [], ap, arith, false, refl, suc, true, zero, ℕ, ◌++◌, ◌+◌, ◌∷◌, ◌≡◌, ◌≤◌,
}
use numba_dppy.Argument.{ArrayClass, dppy_array, npytypes_array, usm_nd_array, usm_shared_array}
use numba_dppy.Launch.{
  ArgValue, Buffer, Instr, KernelLaunchOps, buffer_ptr, copy_in_code, data_member, emit, form_array,
  form_buffer, form_data, form_entries, form_head, form_kernel_arg, int64_num, itemsize_member,
  keep_buffer, malloc_shared, shape_entry, size_member, store_arg, stride_entry, voidptr_num,
  zero_storage,
}
use numba_dppy.Launch.Trace.{
  collect-append, count, count-append, free_of, frees, malloc_of, mallocs,
}
use mathlib.Core.List.{append-nil}

abbrev pub suffixes : List Buffer → List ℕ
suffixes [] = []
suffixes (b ∷ bs) = b.suffix ∷ suffixes bs

suffixes-append : (bs cs : List Buffer) → suffixes (bs ++ cs) ≡ suffixes bs ++ suffixes cs
suffixes-append [] cs = refl
suffixes-append (b ∷ bs) cs = ap (λ xs. b.suffix ∷ xs) (suffixes-append bs cs)

-- how often the buffer is among those to be freed
abbrev pub kept : ℕ → KernelLaunchOps → ℕ
kept n self = count n (suffixes self.write_buffs) + count n (suffixes self.read_only_buffs)

-- Nothing is freed yet, and each buffer that was allocated is kept, once; its suffix is below the
-- next slot.
abbrev pub IsBalanced : KernelLaunchOps → Type 0
IsBalanced self =
    (frees self.code ≡ [])
    × ((n : ℕ) → count n (mallocs self.code) ≡ kept n self)
    × ((n : ℕ) → kept n self ≤ 1)
    × ((n : ℕ) → self.cur_arg ≤ n → kept n self ≡ 0)

-- Code that neither allocates nor frees.
silent_lem :
    (instrs : List Instr) (m : ℕ) (self : KernelLaunchOps)
    → self.cur_arg ≤ m
    → frees instrs ≡ []
    → mallocs instrs ≡ []
    → IsBalanced self
    → IsBalanced (record self { cur_arg = m; code = self.code ++ instrs })
silent_lem instrs m self l f e h = (
  rw (collect-append free_of self.code instrs, f, h.0) refl,
  λ n. rw (collect-append malloc_of self.code instrs, e, append-nil (mallocs self.code)) (h.1 n),
  h.2,
  λ n le. h.3 n (omega arith),
)

pub form-IsBalanced :
    (val : ArgValue) (ty : ℕ) (self : KernelLaunchOps)
    → IsBalanced self
    → IsBalanced (form_kernel_arg val ty self)
unfolding form_kernel_arg
form-IsBalanced val ty self h =
    silent_lem (store_arg self.cur_arg val ty ∷ []) (self.cur_arg + 1) self (omega arith) refl refl
      h

form_entries-IsBalanced :
    (entry : ℕ → ArgValue) (ndim d : ℕ) (self : KernelLaunchOps)
    → IsBalanced self
    → IsBalanced (form_entries entry ndim d self)
unfolding form_entries
form_entries-IsBalanced entry zero d self h = h
form_entries-IsBalanced entry (suc ndim) d self h =
    form_entries-IsBalanced entry ndim (d + 1) (form_kernel_arg (entry d) int64_num self)
      (form-IsBalanced (entry d) int64_num self h)

form_head-IsBalanced :
    (var : String) (self : KernelLaunchOps) → IsBalanced self → IsBalanced (form_head var self)
unfolding form_head
form_head-IsBalanced var self h =
    let a = form_kernel_arg zero_storage int64_num self in
    let b = form_kernel_arg zero_storage int64_num a in
    let c = form_kernel_arg (size_member var) int64_num b in
    form-IsBalanced (itemsize_member var) int64_num c (
      form-IsBalanced (size_member var) int64_num b
        (form-IsBalanced zero_storage int64_num a (form-IsBalanced zero_storage int64_num self h)))

-- the buffer that is allocated next
abbrev next_buffer : String → KernelLaunchOps → Buffer
next_buffer var self = record { suffix = self.cur_arg; var = var }

-- the state once it is allocated and kept, and its slot is taken
abbrev allocated : String → Bool → KernelLaunchOps → KernelLaunchOps
allocated var modified self =
    record (keep_buffer modified (next_buffer var self)
      (emit (malloc_shared (next_buffer var self) ∷ []) self)) { cur_arg = self.cur_arg + 1 }

kept-allocated :
    (var : String) (modified : Bool) (self : KernelLaunchOps) (n : ℕ)
    → kept n (allocated var modified self) ≡ kept n self + count n (self.cur_arg ∷ [])
unfolding keep_buffer
kept-allocated var true self n =
    rw
      (
        suffixes-append self.write_buffs (next_buffer var self ∷ []),
        count-append n (suffixes self.write_buffs) (self.cur_arg ∷ []),
      )
      (omega arith)
kept-allocated var false self n =
    rw
      (
        suffixes-append self.read_only_buffs (next_buffer var self ∷ []),
        count-append n (suffixes self.read_only_buffs) (self.cur_arg ∷ []),
      )
      (omega arith)

code-allocated :
    (var : String) (modified : Bool) (self : KernelLaunchOps)
    → (allocated var modified self).code ≡ self.code ++ malloc_shared (next_buffer var self) ∷ []
unfolding keep_buffer
code-allocated var true self = refl
code-allocated var false self = refl

allocated-IsBalanced :
    (var : String) (modified : Bool) (self : KernelLaunchOps)
    → IsBalanced self
    → IsBalanced (allocated var modified self)
allocated-IsBalanced var modified self h =
    let new = malloc_shared (next_buffer var self) ∷ [] in
    (
      rw (code-allocated var modified self, collect-append free_of self.code new, h.0) refl,
      λ n.
          rw
            (
              code-allocated var modified self,
              collect-append malloc_of self.code new,
              count-append n (mallocs self.code) (self.cur_arg ∷ []),
              h.1 n,
              kept-allocated var modified self n,
            )
            refl,
      λ n. rw (kept-allocated var modified self n) (ground (arith, h.2 n, h.3 n)),
      λ n le. rw (kept-allocated var modified self n) (ground (arith, h.3 n)),
    )

copy_in_silent :
    (is_input : Bool) (b : Buffer)
    → (frees (copy_in_code is_input b) ≡ []) × (mallocs (copy_in_code is_input b) ≡ [])
unfolding copy_in_code
copy_in_silent true b = (refl, refl)
copy_in_silent false b = (refl, refl)

form_buffer-IsBalanced :
    (var : String) (modified is_input : Bool) (self : KernelLaunchOps)
    → IsBalanced self
    → IsBalanced (form_buffer var modified is_input self)
unfolding form_buffer keep_buffer form_kernel_arg
form_buffer-IsBalanced var true is_input self h =
    let quiet = copy_in_silent is_input (next_buffer var self) in
    let instrs = copy_in_code is_input (next_buffer var self) in
    let a = allocated var true self in
    silent_lem (store_arg self.cur_arg (buffer_ptr self.cur_arg) voidptr_num ∷ [])
      (self.cur_arg + 1) (record a { code = a.code ++ instrs }) (omega arith) refl refl
      (silent_lem instrs (self.cur_arg + 1) a (omega arith) quiet.0 quiet.1
        (allocated-IsBalanced var true self h))
form_buffer-IsBalanced var false is_input self h =
    let quiet = copy_in_silent is_input (next_buffer var self) in
    let instrs = copy_in_code is_input (next_buffer var self) in
    let a = allocated var false self in
    silent_lem (store_arg self.cur_arg (buffer_ptr self.cur_arg) voidptr_num ∷ [])
      (self.cur_arg + 1) (record a { code = a.code ++ instrs }) (omega arith) refl refl
      (silent_lem instrs (self.cur_arg + 1) a (omega arith) quiet.0 quiet.1
        (allocated-IsBalanced var false self h))

form_data-IsBalanced :
    (class : ArrayClass) (var : String) (modified is_input : Bool) (self : KernelLaunchOps)
    → IsBalanced self
    → IsBalanced (form_data class var modified is_input self)
unfolding form_data
form_data-IsBalanced usm_shared_array var modified is_input self h =
    form-IsBalanced (data_member var) voidptr_num self h
form_data-IsBalanced npytypes_array var modified is_input self h =
    form_buffer-IsBalanced var modified is_input self h
form_data-IsBalanced dppy_array var modified is_input self h =
    form_buffer-IsBalanced var modified is_input self h
form_data-IsBalanced usm_nd_array var modified is_input self h =
    form_buffer-IsBalanced var modified is_input self h

pub form_array-IsBalanced :
    (class : ArrayClass) (ndim : ℕ) (var : String) (modified is_input : Bool)
    (self : KernelLaunchOps)
    → IsBalanced self
    → IsBalanced (form_array class ndim var modified is_input self)
unfolding form_array
form_array-IsBalanced class ndim var modified is_input self h =
    let a = form_head var self in
    let b = form_data class var modified is_input a in
    let c = form_entries (shape_entry var) ndim 0 b in
    form_entries-IsBalanced (stride_entry var) ndim 0 c (
      form_entries-IsBalanced (shape_entry var) ndim 0 b
        (form_data-IsBalanced class var modified is_input a (form_head-IsBalanced var self h)))
