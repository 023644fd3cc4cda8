-- ===== src/Parfor/Tests.antt =====
-- Small parfors, and the laws at inputs that meet their hypotheses.
use numba_dppy.Prelude.{
  List, String, [], arith, false, none, refl, some, true, ℕ, ◌&&◌, ◌++◌, ◌||◌, ◌↔◌, ◌∷◌, ◌≡◌, ◌≢◌,
  ◌≤◌, ◌⊎◌,
}
use numba_dppy.Prelude.Dict.{delete, get, set}
use numba_dppy.Prelude.Names.{String-discrete}
use numba_dppy.Result.{Error, err, external_error, ok}
use numba_dppy.Access.{contains}
use numba_dppy.Parfor.Schedule.{
  LoopRange, Piece, bound_text, constant, number, schedule_loop, text, variable,
}
use numba_dppy.Parfor.Lines.{for_line, id_line, lines_of, print}
use numba_dppy.Parfor.Points.{IsIn, IsPoint, points, schedule_loop-points}
use numba_dppy.Parfor.Body.{
  LoopBody, TypeState, array_1d, assign_inst, const_value, end_block, find_setitems_body, inst_then,
  intp, labelled, no_blocks, numba_type, other_value, parfor_inst, replace_in_block,
  replace_var_with_array, set_item, static_set_item, store_types, uintp,
}
use numba_dppy.Parfor.Races.{assigns_body}
use numba_dppy.Parfor.Replaced.{
  find_setitems_body-replace_var_with_array, replace_var_with_array-assigns,
}
use numba_dppy.Parfor.Splice.{
  FlowBlocks, FlowInst, assign_to, branch, insert_loop_body, jump, other_flow, splice_at,
  unwrap_loop_body, update, wrap_loop_body,
}
use numba_dppy.Parfor.Labels.{wrap_loop_body-returns}
use numba_dppy.Parfor.Flow.{FallsThrough, Runs, here, jumps}
use numba_dppy.Parfor.Spliced.{IsDict}
use numba_dppy.Parfor.Joined.{insert_loop_body-Runs}
use numba_dppy.Parfor.Params.{
  npytypes_array_to_dppy_array, with_addrspaces, with_addrspaces-only_dppy_arrays,
}
use numba_dppy.Parfor.Fallback.{
  LowerState, Lowerings, cpu_lower, gpu_lower, lower, lower-keeps_rollback, lower-returns,
  other_extension, parallel, rollback, saved_extension, try_gpu, with_rollback,
}
use numba_dppy.Argument.{array_type, dppy_array, npytypes_array, ArgType}
use numba_dppy.Memory.{DType}
use numba_dppy.Compile.{only_dppy_arrays}
use native.Mathlib.Decide.{ℕ_discrete}

-- Four dimensions: three of the range, and a loop.
abbrev four_names : List String
four_names = "i" ∷ "j" ∷ "k" ∷ "l" ∷ []

abbrev four_ranges : List LoopRange
four_ranges =
    (constant 0, variable "n.1")
    ∷ (constant 0, variable "n.1")
    ∷ (constant 0, variable "n.1")
    ∷ (constant 0, variable "n.1")
    ∷ []

abbrev legal_names : List (String × String)
legal_names = ("n.1", "n_1") ∷ []

four_lines :
    lines_of four_names four_ranges legal_names
    ≡ id_line "i" 0 ∷ id_line "j" 1 ∷ id_line "k" 2 ∷ for_line 1 "l" (number 0) (text "n_1") ∷ []
unfolding bound_text get String-discrete
four_lines = refl

-- `n_1` is 2: the loop has a point at 2 too.
abbrev value_of : Piece → ℕ
value_of (number n) = n
value_of (text name) = 2

loop_points :
    points (λ dim. 0) value_of (id_line "i" 0 ∷ for_line 1 "l" (number 0) (text "n_1") ∷ [])
    ≡ (0 ∷ 0 ∷ []) ∷ (0 ∷ 1 ∷ []) ∷ (0 ∷ 2 ∷ []) ∷ []
loop_points = refl

schedule_loop-points_example :
    (schedule_loop 4 four_names four_ranges legal_names
      ≡ ok (print (lines_of four_names four_ranges legal_names) ++ text "    " ∷ []))
    × ((point : List ℕ)
        → IsIn point (points (λ dim. 0) value_of (lines_of four_names four_ranges legal_names))
          ↔ IsPoint (λ dim. 0) value_of (lines_of four_names four_ranges legal_names) point)
schedule_loop-points_example =
    schedule_loop-points (λ dim. 0) value_of four_names four_ranges legal_names refl

abbrev const_name : String → ℕ → String
const_name prefix n = "const"

-- A race on "r", which is assigned in a nested parfor.
abbrev race_body : LoopBody
race_body =
    labelled 0
      (inst_then (static_set_item "a" 1 (other_value 5)) (
        inst_then
          (parfor_inst end_block
            (labelled 1 (inst_then (assign_inst "r" (other_value 7)) end_block) no_blocks))
          end_block))
      no_blocks

abbrev race_replaced : LoopBody
race_replaced =
    labelled 0
      (inst_then (static_set_item "a" 1 (other_value 5)) (
        inst_then
          (parfor_inst end_block (
            labelled 1
              (inst_then (assign_inst "const" (const_value 0))
                (inst_then (set_item "r" "const" (other_value 7)) end_block))
              no_blocks))
          end_block))
      no_blocks

abbrev race_types : TypeState
race_types = record { next_id = 0; typemap = ("r", numba_type 3) ∷ []; calltypes = [] }

abbrev race_types_after : TypeState
race_types_after = record {
  next_id = 1;
  typemap = ("const", uintp) ∷ ("r", array_1d (numba_type 3)) ∷ [];
  calltypes = ("const", (array_1d (numba_type 3), (intp, numba_type 3))) ∷ [];
}

race_is_replaced :
    replace_var_with_array const_name ("r" ∷ []) race_body race_types
    ≡ ok (race_replaced, race_types_after)
unfolding replace_var_with_array replace_in_block store_types get set delete String-discrete
race_is_replaced = refl

const_name-fresh : (prefix : String) (n : ℕ) → contains ("r" ∷ []) (const_name prefix n) ≡ false
const_name-fresh prefix n = refl

race_not_assigned : assigns_body "r" race_replaced ≡ false
race_not_assigned =
    replace_var_with_array-assigns const_name ("r" ∷ []) "r" race_body race_replaced race_types
      race_types_after const_name-fresh race_is_replaced refl

find_setitems_body-replace_var_with_array_example :
    contains (find_setitems_body [] race_replaced) "r" ≡ (
      contains (find_setitems_body [] race_body) "r"
      || (contains ("r" ∷ []) "r" && assigns_body "r" race_body))
find_setitems_body-replace_var_with_array_example =
    find_setitems_body-replace_var_with_array const_name ("r" ∷ []) "r" race_body race_replaced
      race_types race_types_after const_name-fresh race_is_replaced

abbrev two_blocks : FlowBlocks
two_blocks = (5, other_flow 1 ∷ jump 8 ∷ []) ∷ (8, other_flow 2 ∷ []) ∷ []

wrap_loop_body-returns_example :
    (wrapped : FlowBlocks) × (wrap_loop_body two_blocks ≡ ok wrapped)
    × (unwrap_loop_body wrapped ≡ ok two_blocks)
wrap_loop_body-returns_example =
    wrap_loop_body-returns 5 (other_flow 1 ∷ jump 8 ∷ []) ((8, other_flow 2 ∷ []) ∷ [])

abbrev outline : FlowBlocks
outline =
    (0, other_flow 3 ∷ jump 2 ∷ [])
    ∷ (2, other_flow 4 ∷ assign_to "__sentinel__" 0 ∷ other_flow 6 ∷ [])
    ∷ []

-- with an offset of 3 to labels 2 and 5
abbrev offset_blocks : FlowBlocks → ℕ → FlowBlocks
offset_blocks [] n = []
offset_blocks ((label, body) ∷ blocks) n = two_blocks

abbrev joined_blocks : FlowBlocks
joined_blocks =
    (0, other_flow 3 ∷ jump 2 ∷ [])
    ∷ (2, other_flow 4 ∷ jump 5 ∷ [])
    ∷ (5, other_flow 1 ∷ jump 8 ∷ [])
    ∷ (8, other_flow 2 ∷ jump 9 ∷ [])
    ∷ (9, other_flow 6 ∷ [])
    ∷ []

abbrev plain_blocks : FlowBlocks
plain_blocks = (2, other_flow 1 ∷ jump 5 ∷ []) ∷ (5, other_flow 2 ∷ []) ∷ []

blocks_are_joined :
    insert_loop_body offset_blocks "__sentinel__" outline plain_blocks ≡ ok joined_blocks
unfolding insert_loop_body wrap_loop_body unwrap_loop_body splice_at update get set ℕ_discrete
blocks_are_joined = refl

labels_lem : (l : ℕ) (b : List FlowInst) → get ℕ_discrete two_blocks l ≡ some b → 3 ≤ l
unfolding get
labels_lem l b h = ground arith

falls_lem : FallsThrough (other_flow 2 ∷ [])
falls_lem = (no_jump, no_branch)
  where
    no_jump : (done : List FlowInst) (l : ℕ) → (other_flow 2 ∷ []) ≢ (done ++ jump l ∷ [])
    no_jump [] l e = cc e
    no_jump (x ∷ []) l e = cc e
    no_jump (x ∷ y ∷ done) l e = cc e

    no_branch : (done : List FlowInst) (a b : ℕ) → (other_flow 2 ∷ []) ≢ (done ++ branch a b ∷ [])
    no_branch [] a b e = cc e
    no_branch (x ∷ []) a b e = cc e
    no_branch (x ∷ y ∷ done) a b e = cc e

body_run : Runs two_blocks 5 (other_flow 1 ∷ []) 8
unfolding get ℕ_discrete
body_run = jumps 8 (other_flow 1 ∷ []) [] refl here

last_block : get ℕ_discrete two_blocks 8 ≡ some (other_flow 2 ∷ [])
unfolding get ℕ_discrete
last_block = refl

two_blocks-IsDict : IsDict two_blocks
unfolding get ℕ_discrete
two_blocks-IsDict = (refl, (refl, tt))

insert_loop_body-Runs_example :
    Runs joined_blocks 2 (other_flow 4 ∷ other_flow 1 ∷ other_flow 2 ∷ []) 9
    × (get ℕ_discrete joined_blocks 9 ≡ some (other_flow 6 ∷ []))
insert_loop_body-Runs_example =
    insert_loop_body-Runs offset_blocks "__sentinel__" outline plain_blocks joined_blocks 2 2 5 8
      (other_flow 4 ∷ []) (other_flow 6 ∷ []) (other_flow 2 ∷ []) (other_flow 1 ∷ []) refl
      two_blocks-IsDict labels_lem refl refl last_block falls_lem refl body_run blocks_are_joined

converted_types :
    with_addrspaces (array_type npytypes_array DType.int64 1 ∷ ArgType.int64 ∷ [])
    ≡ ok (array_type dppy_array DType.int64 1 ∷ ArgType.int64 ∷ [])
unfolding with_addrspaces npytypes_array_to_dppy_array
converted_types = refl

with_addrspaces-only_dppy_arrays_example :
    (only_dppy_arrays (array_type dppy_array DType.int64 1 ∷ ArgType.int64 ∷ []) ≡ ok tt)
    × ◌≡◌ {A = ℕ} 2 2
with_addrspaces-only_dppy_arrays_example =
    with_addrspaces-only_dppy_arrays (array_type npytypes_array DType.int64 1 ∷ ArgType.int64 ∷ [])
      (array_type dppy_array DType.int64 1 ∷ ArgType.int64 ∷ []) converted_types

-- No device can be had; Numba lowers for the CPU.
abbrev no_device : Lowerings
no_device = record {
  lower_on_gpu = λ extensions. err external_error;
  lower_on_cpu = λ extension. ok tt;
  device_name = err external_error;
  has_extra_info = true;
}

abbrev cpu_context : LowerState
cpu_context = record {
  gpu_extensions = some (some (other_extension 4));
  one_context = true;
  cpu_entry = none;
}

abbrev cpu_context_after : LowerState
cpu_context_after = record cpu_context { gpu_extensions = some (some parallel) }

falls_back : lower no_device true cpu_context ≡ (ok cpu_lower, cpu_context_after)
unfolding lower
falls_back = refl

lower-returns_example :
    ((cpu_lower ≡ gpu_lower) × (try_gpu no_device true (with_rollback cpu_context) ≡ ok tt))
    ⊎ ((cpu_lower ≡ cpu_lower)
        × ((true ≡ true)
            × ((no_device.lower_on_cpu (some parallel) ≡ ok tt)
                × ((e : Error) × (try_gpu no_device true (with_rollback cpu_context) ≡ err e)))))
lower-returns_example =
    lower-returns no_device true cpu_context cpu_context_after cpu_lower falls_back

lower-keeps_rollback_example :
    ((lower no_device false cpu_context).0 ≡ err external_error)
    × (saved_extension (lower no_device false cpu_context).1 ≡ some rollback)
lower-keeps_rollback_example =
    lower-keeps_rollback no_device false cpu_context (other_extension 4) external_error refl refl
      refl
