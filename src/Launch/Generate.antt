-- ===== src/Launch/Generate.antt =====
-- The shape of the code of a launch: what is appended before the submission, and what after it.
use numba_dppy.Prelude.{
  List, String, [], ap, length, not, subst, suc, sym, ℕ, ◌++◌, ◌==◌, ◌∙◌, ◌∷◌, ◌≡◌,
}
use numba_dppy.Result.{>>=-eq-ok, assertion_error, ok, raise_if}
use numba_dppy.Launch.{
  Bound, ExprArg, Instr, KernelLaunchOps, allocate_kernel_arg_array, copy_back_code, emit,
  enqueue_kernel_and_copy_back, event_delete, free_code, get_current_queue, num_dim_of,
  process_kernel_args, queue_delete, queue_wait, store_extents, submit_range,
}
use numba_dppy.Launch.Lower.{generate_kernel_launch_ops, num_expanded_args, upper_bounds}
use mathlib.Core.List.{append_assoc}

abbrev pub start : ℕ → List ExprArg → KernelLaunchOps
start num_inputs args = record {
  total_kernel_args = num_expanded_args args;
  cur_arg = 0;
  num_inputs = num_inputs;
  write_buffs = [];
  read_only_buffs = [];
  code = get_current_queue ∷ [];
}

-- the code behind the submission and the wait for it
abbrev pub epilogue : KernelLaunchOps → List Instr
epilogue self =
    copy_back_code self.write_buffs ++ (free_code self.read_only_buffs ++ queue_delete ∷ [])

regroup :
    (a b c d e : List Instr) (submit : Instr)
    → (a ++ (b ++ submit ∷ queue_wait ∷ event_delete ∷ c ++ d)) ++ e
      ≡ (a ++ b) ++ submit ∷ queue_wait ∷ event_delete ∷ (c ++ (d ++ e))
regroup a b c d e submit = simp append_assoc

length-upper_bounds :
    (loop_ranges : List (Bound × ℕ)) (stops : List Bound)
    → upper_bounds loop_ranges ≡ ok stops
    → length stops ≡ length loop_ranges
unfolding upper_bounds
length-upper_bounds [] stops h = let e : ◌≡◌ {A = List Bound} [] stops = cc h in ap length (sym e)
length-upper_bounds ((stop, step) ∷ loop_ranges) stops h =
    let (u, _, h₁) = >>=-eq-ok (raise_if (not (step == 1)) assertion_error) _ h in
    let (rest, e, h₂) = >>=-eq-ok (upper_bounds loop_ranges) _ h₁ in
    let made : stop ∷ rest ≡ stops = cc h₂ in
    subst (λ xs. length xs ≡ suc (length loop_ranges)) made
      (ap suc (length-upper_bounds loop_ranges rest e))

-- what is appended up to the submission
abbrev pub prologue : KernelLaunchOps → List Bound → List Instr
prologue self stops =
    self.code ++ store_extents (num_dim_of (length stops)) (num_dim_of (length stops)) 0 stops

tail_lem :
    (self : KernelLaunchOps) (stops : List Bound)
    → (emit (queue_delete ∷ []) (enqueue_kernel_and_copy_back stops self)).code
      ≡ prologue self stops
        ++ submit_range self.total_kernel_args (num_dim_of (length stops))
          ∷ queue_wait
          ∷ event_delete
          ∷ epilogue self
unfolding enqueue_kernel_and_copy_back
tail_lem self stops =
    regroup self.code
      (store_extents (num_dim_of (length stops)) (num_dim_of (length stops)) 0 stops)
      (copy_back_code self.write_buffs) (free_code self.read_only_buffs) (queue_delete ∷ [])
      (submit_range self.total_kernel_args (num_dim_of (length stops)))

module _ (legalize_name : String → String) (modified_arrays : List String) where
  -- If generation returns, the code is that of the arguments and of the extents, the submission,
  -- and the epilogue.
  pub generate-returns :
      (num_inputs : ℕ) (args : List ExprArg) (loop_ranges : List (Bound × ℕ)) (c : List Instr)
      → generate_kernel_launch_ops legalize_name modified_arrays num_inputs args loop_ranges ≡ ok c
      → (self : KernelLaunchOps) × (stops : List Bound) × (process_kernel_args legalize_name
            modified_arrays args 0
            (start num_inputs args)
          ≡ ok self)
        × (length stops ≡ length loop_ranges)
        × (c
            ≡ prologue self stops
              ++ submit_range self.total_kernel_args (num_dim_of (length stops))
                ∷ queue_wait
                ∷ event_delete
                ∷ epilogue self)
  unfolding generate_kernel_launch_ops allocate_kernel_arg_array
  generate-returns num_inputs args loop_ranges c h =
      let (self, e₁, h₁) =
        >>=-eq-ok (process_kernel_args legalize_name modified_arrays args 0 (start num_inputs args))
          _ h in
      let (stops, e₂, h₂) = >>=-eq-ok (upper_bounds loop_ranges) _ h₁ in
      let made : (emit (queue_delete ∷ []) (enqueue_kernel_and_copy_back stops self)).code ≡ c =
        cc h₂ in
      (self, stops, e₁, length-upper_bounds loop_ranges stops e₂, sym made ∙ tail_lem self stops)
