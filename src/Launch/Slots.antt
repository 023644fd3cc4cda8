-- ===== src/Launch/Slots.antt =====
-- The slots of the argument array of a launch.
use numba_dppy.Prelude.{
  List, Option, String, [], arith, length, ltb, none, not, refl, some, subst, subst₂, suc, zero, ℕ,
  ◌*◌, ◌++◌, ◌+◌, ◌∙◌, ◌∷◌, ◌≡◌,
}
use numba_dppy.Result.{>>=-eq-ok, external_error, not_implemented_error, ok, raise_if}
use numba_dppy.Argument.{ArrayClass}
use numba_dppy.Access.{contains}
use numba_dppy.Launch.{
  Bound, Buffer, ExprArg, Instr, KernelLaunchOps, as_array, copy_back_code, event_delete,
  form_array, form_kernel_arg, free_code, num_dim_of, numba_type_to_dpctl_typenum, process_as,
  process_kernel_arg, process_kernel_args, queue_delete, queue_wait, scalar_value, store_extents,
  submit_range,
}
use numba_dppy.Launch.Lower.{expanded, generate_kernel_launch_ops, num_expanded_args}
use numba_dppy.Launch.Trace.{collect-append, count_from, slot_of, slots}
use numba_dppy.Launch.Generate.{epilogue, generate-returns, prologue, start}
use numba_dppy.Launch.Fills.{Fills, Fills-trans, form-Fills, form_array-Fills}
use mathlib.Core.List.{append-nil}
use native.Mathlib.Nat.{zero-add}

module _ (legalize_name : String → String) (modified_arrays : List String) where
  process-Fills :
      (o : Option (ArrayClass × ℕ)) (a : ExprArg) (index : ℕ) (self self' : KernelLaunchOps)
      → process_as legalize_name modified_arrays o a index self ≡ ok self'
      → Fills (expanded o) self self'
  unfolding process_as
  process-Fills (some (class, ndim)) a index self self' h =
      let (u, _, h') = >>=-eq-ok (raise_if (not a.has_llvm_arg) not_implemented_error) _ h in
      let modified = contains modified_arrays (legalize_name a.var) in
      let is_input = ltb index self.num_inputs in
      let made : form_array class ndim a.var modified is_input self ≡ self' = cc h' in
      subst (Fills (5 + 2 * ndim) self) made
        (form_array-Fills class ndim a.var modified is_input self)
  process-Fills none a index self self' h =
      let (ty, _, h₁) = >>=-eq-ok (numba_type_to_dpctl_typenum a.arg_type) _ h in
      let (u, _, h₂) = >>=-eq-ok (raise_if (not a.has_llvm_arg) external_error) _ h₁ in
      subst (Fills 1 self) {x = form_kernel_arg (scalar_value a.var) ty self} {y = self'} (cc h₂)
        (form-Fills (scalar_value a.var) ty self)

  pub process_kernel_args-Fills :
      (args : List ExprArg) (index : ℕ) (self self' : KernelLaunchOps)
      → process_kernel_args legalize_name modified_arrays args index self ≡ ok self'
      → Fills (num_expanded_args args) self self'
  unfolding process_kernel_args process_kernel_arg
  process_kernel_args-Fills [] index self self' h =
      subst (Fills 0 self) {x = self} {y = self'} (cc h) (λ k. k, omega arith, refl)
  process_kernel_args-Fills (a ∷ args) index self self' h =
      let (next, e, h') =
        >>=-eq-ok (process_kernel_arg legalize_name modified_arrays a index self) _ h in
      Fills-trans (expanded (as_array a.arg_type)) (num_expanded_args args) self next self'
        (process-Fills (as_array a.arg_type) a index self next e)
        (process_kernel_args-Fills args (index + 1) next self' h')

  -- What is appended behind the arguments fills no slot.
  slots-extents : (n left i : ℕ) (stops : List Bound) → slots (store_extents n left i stops) ≡ []
  unfolding store_extents
  slots-extents n zero i stops = refl
  slots-extents n (suc left) i [] = refl
  slots-extents n (suc left) i (stop ∷ stops) = slots-extents n left (i + 1) stops

  slots-copy_back : (bs : List Buffer) → slots (copy_back_code bs) ≡ []
  unfolding copy_back_code
  slots-copy_back [] = refl
  slots-copy_back (b ∷ bs) = slots-copy_back bs

  slots-free : (bs : List Buffer) → slots (free_code bs) ≡ []
  unfolding free_code
  slots-free [] = refl
  slots-free (b ∷ bs) = slots-free bs

  slots-epilogue : (self : KernelLaunchOps) → slots (epilogue self) ≡ []
  slots-epilogue self =
      rw
        (
          collect-append slot_of (copy_back_code self.write_buffs)
              (free_code self.read_only_buffs ++ queue_delete ∷ []),
          slots-copy_back self.write_buffs,
          collect-append slot_of (free_code self.read_only_buffs) (queue_delete ∷ []),
          slots-free self.read_only_buffs,
        )
        refl

  -- If generation returns, the kernel is submitted with as many arguments as the types of the
  -- arguments ask for, in at most three dimensions. The slots of the argument array are all stored
  -- to before that, in order and each once, and none after it.
  pub slots-generate :
      (num_inputs : ℕ) (args : List ExprArg) (loop_ranges : List (Bound × ℕ)) (c : List Instr)
      → generate_kernel_launch_ops legalize_name modified_arrays num_inputs args loop_ranges ≡ ok c
      → (before after : List Instr) × (c
          ≡ before
            ++ submit_range (num_expanded_args args) (num_dim_of (length loop_ranges))
              ∷ queue_wait
              ∷ event_delete
              ∷ after)
        × (slots before ≡ count_from 0 (num_expanded_args args))
        × (slots after ≡ [])
  slots-generate num_inputs args loop_ranges c h =
      let (self, stops, e, n, made) =
        generate-returns legalize_name modified_arrays num_inputs args loop_ranges c h in
      let fills = process_kernel_args-Fills args 0 (start num_inputs args) self e in
      let total : self.total_kernel_args ≡ num_expanded_args args = fills.2 in
      let next : self.cur_arg ≡ num_expanded_args args =
        fills.1 ∙ zero-add (num_expanded_args args) in
      let n_dim = num_dim_of (length stops) in
      (
        prologue self stops,
        epilogue self,
        subst₂
            (λ k d.
              c
              ≡ prologue self stops
                ++ submit_range k (num_dim_of d) ∷ queue_wait ∷ event_delete ∷ epilogue self)
            total n made,
        rw
            (
              collect-append slot_of self.code (store_extents n_dim n_dim 0 stops),
              slots-extents n_dim n_dim 0 stops,
              append-nil (slots self.code),
              fills.0 refl,
              next,
            )
            refl,
        slots-epilogue self,
      )
