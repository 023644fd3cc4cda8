-- ===== src/Parfor/Races.antt =====
-- What `replace_var_with_array` of numba_dppy/core/passes/dppy_lowerer.py does to the variables that
-- several work items may write, and what `find_setitems_body` then finds.
use numba_dppy.Prelude.{
  Bool, Bool-cases, List, String, ap, eq_iff, false, if◌then◌else◌, inl, inr, refl, str_eq, sym,
  true, ◌||◌, ◌∙◌, ◌∷◌, ◌≡◌,
}
use numba_dppy.Access.{contains}
use numba_dppy.Parfor.Body.{
  Block, Inst, LoopBody, assign_inst, end_block, find_setitems_block, find_setitems_body,
  find_setitems_inst, insert_name, inst_then, labelled, no_blocks, other_inst, parfor_inst,
  set_item, static_set_item,
}

-- whether the variable is assigned, in a nested parfor too
unfoldable mutual
  pub assigns_block : String → Block → Bool
  assigns_block v end_block = false
  assigns_block v (inst_then inst block) = assigns_inst v inst || assigns_block v block

  pub assigns_inst : String → Inst → Bool
  assigns_inst v (assign_inst target value) = str_eq v target
  assigns_inst v (parfor_inst init_block loop_body) =
      assigns_block v init_block || assigns_body v loop_body
  assigns_inst v (set_item target index value) = false
  assigns_inst v (static_set_item target index value) = false
  assigns_inst v (other_inst n) = false

  pub assigns_body : String → LoopBody → Bool
  assigns_body v no_blocks = false
  assigns_body v (labelled label block body) = assigns_block v block || assigns_body v body

-- whether an item of it is set
unfoldable mutual
  pub sets_block : String → Block → Bool
  sets_block v end_block = false
  sets_block v (inst_then inst block) = sets_inst v inst || sets_block v block

  pub sets_inst : String → Inst → Bool
  sets_inst v (set_item target index value) = str_eq v target
  sets_inst v (static_set_item target index value) = str_eq v target
  sets_inst v (parfor_inst init_block loop_body) = sets_block v init_block || sets_body v loop_body
  sets_inst v (assign_inst target value) = false
  sets_inst v (other_inst n) = false

  pub sets_body : String → LoopBody → Bool
  sets_body v no_blocks = false
  sets_body v (labelled label block body) = sets_block v block || sets_body v body

or_true : (a : Bool) → (a || true) ≡ true
or_true true = refl
or_true false = refl

or_false : (a : Bool) → (a || false) ≡ a
or_false true = refl
or_false false = refl

or_comm : (a b : Bool) → (a || b) ≡ (b || a)
or_comm true true = refl
or_comm true false = refl
or_comm false true = refl
or_comm false false = refl

or_assoc : (a b c : Bool) → ((a || b) || c) ≡ (a || (b || c))
or_assoc true b c = refl
or_assoc false b c = refl

insert_lem :
    (names : List String) (name v : String)
    → contains (insert_name names name) v ≡ contains names v || str_eq v name
insert_lem names name v = elim (Bool-cases (contains names name)) [
  | inl present ↦ elim (Bool-cases (str_eq v name)) [
    | inl same ↦
        ap (λ b. contains (if b then names else name ∷ names) v) present
        ∙ ap (contains names) ((eq_iff v name).0 same)
        ∙ present
        ∙ sym (ap (λ b. contains names v || b) same ∙ or_true (contains names v))
    | inr other ↦
        ap (λ b. contains (if b then names else name ∷ names) v) present
        ∙ sym (ap (λ b. contains names v || b) other ∙ or_false (contains names v))
  ]
  | inr absent ↦
      ap (λ b. contains (if b then names else name ∷ names) v) absent
      ∙ or_comm (str_eq v name) (contains names v)
]

mutual
  unfolding find_setitems_block sets_block

  found_in_block :
      (v : String) (setitems : List String) (block : Block)
      → contains (find_setitems_block setitems block) v
        ≡ (contains setitems v || sets_block v block)
  found_in_block v setitems end_block = sym (or_false (contains setitems v))
  found_in_block v setitems (inst_then inst block) =
      found_in_block v (find_setitems_inst setitems inst) block
      ∙ ap (λ b. b || sets_block v block) (found_in_inst v setitems inst)
      ∙ or_assoc (contains setitems v) (sets_inst v inst) (sets_block v block)

  found_in_inst :
      (v : String) (setitems : List String) (inst : Inst)
      → contains (find_setitems_inst setitems inst) v ≡ (contains setitems v || sets_inst v inst)
  found_in_inst v setitems (set_item target index value) = insert_lem setitems target v
  found_in_inst v setitems (static_set_item target index value) = insert_lem setitems target v
  found_in_inst v setitems (assign_inst target value) = sym (or_false (contains setitems v))
  found_in_inst v setitems (other_inst n) = sym (or_false (contains setitems v))
  found_in_inst v setitems (parfor_inst init_block loop_body) =
      found_in_body v (find_setitems_block setitems init_block) loop_body
      ∙ ap (λ b. b || sets_body v loop_body) (found_in_block v setitems init_block)
      ∙ or_assoc (contains setitems v) (sets_block v init_block) (sets_body v loop_body)

  pub found_in_body :
      (v : String) (setitems : List String) (body : LoopBody)
      → contains (find_setitems_body setitems body) v ≡ (contains setitems v || sets_body v body)
  found_in_body v setitems no_blocks = sym (or_false (contains setitems v))
  found_in_body v setitems (labelled label block body) =
      found_in_body v (find_setitems_block setitems block) body
      ∙ ap (λ b. b || sets_body v body) (found_in_block v setitems block)
      ∙ or_assoc (contains setitems v) (sets_block v block) (sets_body v body)
