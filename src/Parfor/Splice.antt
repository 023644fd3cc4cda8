-- ===== src/Parfor/Splice.antt =====
-- The body of the parfor in the place of the sentinel: `wrap_loop_body`, `unwrap_loop_body`, and the
-- part of `_create_gufunc_for_parfor_body` of numba_dppy/core/passes/dppy_lowerer.py that joins the
-- blocks of the function and those of the loop body.
use numba_dppy.Prelude.{
  List, Option, String, [], false, if◌then◌else◌, ltb, none, some, str_eq, true, ℕ, ◌++◌, ◌+◌, ◌∷◌,
}
use numba_dppy.Prelude.Dict.{get, set}
use numba_dppy.Result.{Result, err, index_error, key_error, ok, or_raise, value_error, ◌>>=◌, ◌>>◌}
use native.Mathlib.Decide.{ℕ_discrete}

pub data FlowInst : Type 0 where
  -- `ir.Assign`, by the name of the variable, and a number for the value
  assign_to : String → ℕ → FlowInst
  jump : ℕ → FlowInst
  branch : ℕ → ℕ → FlowInst
  other_flow : ℕ → FlowInst

-- A dict of blocks by their labels, each with its body.
abbrev pub FlowBlocks : Type 0
FlowBlocks = List (ℕ × List FlowInst)

abbrev pub larger : ℕ → ℕ → ℕ
larger a b = if ltb a b then b else a

abbrev pub smaller : ℕ → ℕ → ℕ
smaller a b = if ltb b a then b else a

-- `max(blocks.keys())`
abbrev pub max_label : FlowBlocks → Result ℕ
max_label [] = err value_error
max_label ((label, body) ∷ []) = ok label
max_label ((label, body) ∷ block ∷ blocks) = do
  other ← max_label (block ∷ blocks)
  ok (larger label other)

-- `min(blocks.keys())`
abbrev pub min_label : FlowBlocks → Result ℕ
min_label [] = err value_error
min_label ((label, body) ∷ []) = ok label
min_label ((label, body) ∷ block ∷ blocks) = do
  other ← min_label (block ∷ blocks)
  ok (smaller label other)

-- The copy of the dict is shallow, so that the jump stands in the block of `loop_body` too.
unfoldable pub wrap_loop_body : FlowBlocks → Result FlowBlocks
unfolding get set
wrap_loop_body loop_body = do
  first_label ← min_label loop_body
  last_label ← max_label loop_body
  body ← or_raise (get ℕ_discrete loop_body last_label) key_error
  ok (set ℕ_discrete loop_body last_label (body ++ jump first_label ∷ []))

-- `body[:-1]`
abbrev pub but_last {ℓ} : {A : Type ℓ} → List A → List A
but_last [] = []
but_last (x ∷ []) = []
but_last (x ∷ y ∷ xs) = x ∷ but_last (y ∷ xs)

unfoldable pub unwrap_loop_body : FlowBlocks → Result FlowBlocks
unfolding get set
unwrap_loop_body loop_body = do
  last_label ← max_label loop_body
  body ← or_raise (get ℕ_discrete loop_body last_label) key_error
  ok (set ℕ_discrete loop_body last_label (but_last body))

-- The statements before the first assignment of the sentinel, and those after it.
abbrev pub split_at : String → List FlowInst → Option (List FlowInst × List FlowInst)
split_at sentinel_name [] = none
split_at sentinel_name (assign_to name value ∷ body) = elim (str_eq name sentinel_name) [
  | true ↦ some ([], body)
  | false ↦ elim (split_at sentinel_name body) [
    | none ↦ none
    | some (before, after) ↦ some (assign_to name value ∷ before, after)
  ]
]
split_at sentinel_name (inst ∷ body) = elim (split_at sentinel_name body) [
  | none ↦ none
  | some (before, after) ↦ some (inst ∷ before, after)
]

-- The loops that search for the sentinel, over the blocks in the order of the dict.
abbrev pub find_sentinel : String → FlowBlocks → Option (ℕ × (List FlowInst × List FlowInst))
find_sentinel sentinel_name [] = none
find_sentinel sentinel_name ((label, body) ∷ blocks) = elim (split_at sentinel_name body) [
  | some parts ↦ some (label, parts)
  | none ↦ find_sentinel sentinel_name blocks
]

-- `for (l, b) in loop_body.items(): blocks[l] = b`
unfoldable pub update : FlowBlocks → FlowBlocks → FlowBlocks
unfolding set
update blocks [] = blocks
update blocks ((label, body) ∷ loop_body) = update (set ℕ_discrete blocks label body) loop_body

-- What is done where the sentinel stands in block `label` between `before` and `after`.
unfoldable pub splice_at :
    FlowBlocks → FlowBlocks → ℕ → ℕ → List FlowInst → List FlowInst → Result FlowBlocks
unfolding get set update
splice_at blocks loop_body new_label label before after = do
  body_first_label ← min_label loop_body
  body_last_label ← max_label loop_body
  let joined =
      set ℕ_discrete (set ℕ_discrete (update blocks loop_body) new_label after) label
        (before ++ jump body_first_label ∷ [])
  last ← or_raise (get ℕ_discrete joined body_last_label) key_error
  ok (set ℕ_discrete joined body_last_label (last ++ jump new_label ∷ []))

-- `body[-1]`
abbrev pub has_last : List FlowInst → Result (Unit {0})
has_last [] = err index_error
has_last (inst ∷ body) = ok tt

-- The blocks of the function, whose outline is `outline`, with the loop body. `add_offset` is
-- `add_offset_to_labels` of Numba. The start block has its own statements again, since nothing is
-- hoisted: its last statement must be there.
unfoldable pub insert_loop_body :
    (FlowBlocks → ℕ → FlowBlocks) → String → FlowBlocks → FlowBlocks → Result FlowBlocks
unfolding get wrap_loop_body unwrap_loop_body splice_at
insert_loop_body add_offset sentinel_name outline loop_body = do
  stub_label ← max_label outline
  let body = add_offset loop_body (stub_label + 1)
  last_label ← max_label body
  wrapped ← wrap_loop_body body
  start_label ← min_label outline
  start ← or_raise (get ℕ_discrete outline start_label) key_error
  has_last start
  unwrapped ← unwrap_loop_body wrapped
  elim (find_sentinel sentinel_name outline) [
    | none ↦ ok outline
    | some (label, (before, after)) ↦
        splice_at outline unwrapped (last_label + 1) label before after
  ]
