-- ===== src/Parfor/Body.antt =====
-- The body of a parfor, in which parfors are nested, and `replace_var_with_array`,
-- `find_setitems_block` and `find_setitems_body` of numba_dppy/core/passes/dppy_lowerer.py with the
-- functions that they call.
use numba_dppy.Prelude.{List, String, [], false, if◌then◌else◌, true, ℕ, ◌+◌, ◌∷◌}
use numba_dppy.Prelude.Dict.{delete, get, set}
use numba_dppy.Prelude.Names.{String-discrete}
use numba_dppy.Result.{Result, key_error, ok, or_raise, ◌>>=◌}
use numba_dppy.Access.{contains}

pub data IrValue : Type 0 where
  const_value other_value : ℕ → IrValue

mutual
  pub data Inst : Type 0 where
    -- `ir.Assign`: the variable and the value
    assign_inst : String → IrValue → Inst
    -- `ir.SetItem`: the array, the variable that is the index, and the value
    set_item : String → String → IrValue → Inst
    -- `ir.StaticSetItem`
    static_set_item : String → ℕ → IrValue → Inst
    -- the init block and the loop body
    parfor_inst : Block → LoopBody → Inst
    other_inst : ℕ → Inst

  pub data Block : Type 0 where
    end_block : Block
    inst_then : Inst → Block → Block

  -- the blocks by their labels
  pub data LoopBody : Type 0 where
    no_blocks : LoopBody
    labelled : ℕ → Block → LoopBody → LoopBody

-- Types as far as these functions make them.
pub data VarType : Type 0 where
  uintp intp : VarType
  numba_type : ℕ → VarType
  -- `types.npytypes.Array(typ, 1, "C")`
  array_1d : VarType → VarType

pub record TypeState : Type 0 where
  pub next_id : ℕ
  pub typemap : List (String × VarType)
  -- For each new `ir.SetItem`, by the variable of its index: the types of the array, the index and
  -- the value in its signature.
  pub calltypes : List (String × (VarType × (VarType × VarType)))

abbrev pub insert_name : List String → String → List String
insert_name names name = if contains names name then names else name ∷ names

-- `setitems` is the set that they add to.
unfoldable mutual
  pub find_setitems_block : List String → Block → List String
  find_setitems_block setitems end_block = setitems
  find_setitems_block setitems (inst_then inst block) =
      find_setitems_block (find_setitems_inst setitems inst) block

  pub find_setitems_inst : List String → Inst → List String
  find_setitems_inst setitems (set_item target index value) = insert_name setitems target
  find_setitems_inst setitems (static_set_item target index value) = insert_name setitems target
  find_setitems_inst setitems (parfor_inst init_block loop_body) =
      find_setitems_body (find_setitems_block setitems init_block) loop_body
  find_setitems_inst setitems (assign_inst target value) = setitems
  find_setitems_inst setitems (other_inst n) = setitems

  pub find_setitems_body : List String → LoopBody → List String
  find_setitems_body setitems no_blocks = setitems
  find_setitems_body setitems (labelled label block body) =
      find_setitems_body (find_setitems_block setitems block) body

module _ (unique_var : String → ℕ → String) (vars : List String) where
  abbrev pub const_var : ℕ → String
  const_var n = unique_var "$const_ind_0" n

  -- the branch that writes the value into the array of one element
  unfoldable pub store_types : TypeState → String → Result TypeState
  unfolding get set
  store_types st target = do
    let typemap = set String-discrete st.typemap (const_var st.next_id) uintp
    typ ← or_raise (get String-discrete typemap target) key_error
    ok (record {
      next_id = st.next_id + 1;
      typemap = typemap;
      calltypes = (const_var st.next_id, (array_1d typ, (intp, typ))) ∷ st.calltypes;
    })

  unfoldable mutual
    unfolding store_types

    pub replace_in_block : Block → TypeState → Result (Block × TypeState)
    replace_in_block end_block st = ok (end_block, st)
    replace_in_block (inst_then (assign_inst target value) block) st = elim (contains vars target) [
      | true ↦ (do
        st' ← store_types st target
        (rest, after) ← replace_in_block block st'
        ok (
          inst_then (assign_inst (const_var st.next_id) (const_value 0))
              (inst_then (set_item target (const_var st.next_id) value) rest),
          after,
        ))
      | false ↦ (do
        (rest, after) ← replace_in_block block st
        ok (inst_then (assign_inst target value) rest, after))
    ]
    replace_in_block (inst_then (parfor_inst init_block loop_body) block) st = do
      (init, st') ← replace_in_block init_block st
      (body, st'') ← replace_internal loop_body st'
      (rest, after) ← replace_in_block block st''
      ok (inst_then (parfor_inst init body) rest, after)
    replace_in_block (inst_then inst block) st = do
      (rest, after) ← replace_in_block block st
      ok (inst_then inst rest, after)

    pub replace_internal : LoopBody → TypeState → Result (LoopBody × TypeState)
    replace_internal no_blocks st = ok (no_blocks, st)
    replace_internal (labelled label block body) st = do
      (block', st') ← replace_in_block block st
      (body', after) ← replace_internal body st'
      ok (labelled label block' body', after)

-- The loop of `replace_var_with_array` over the variables.
abbrev pub array_types : List String → List (String × VarType) → Result (List (String × VarType))
array_types [] typemap = ok typemap
array_types (v ∷ vars) typemap = do
  el_typ ← or_raise (get String-discrete typemap v) key_error
  array_types vars (set String-discrete (delete String-discrete typemap v) v (array_1d el_typ))

unfoldable pub replace_var_with_array :
    (String → ℕ → String) → List String → LoopBody → TypeState → Result (LoopBody × TypeState)
unfolding replace_in_block get set delete
replace_var_with_array unique_var vars loop_body st = do
  (body, after) ← replace_internal unique_var vars loop_body st
  typemap ← array_types vars after.typemap
  ok (body, record after { typemap = typemap })
