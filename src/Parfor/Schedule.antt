-- ===== src/Parfor/Schedule.antt =====
-- The text of the kernel: `_schedule_loop` of numba_dppy/core/passes/dppy_lowerer.py, and the part
-- of `_create_gufunc_for_parfor_body` that writes the function around it.
use numba_dppy.Prelude.{
  List, String, [], get_elem?, if◌then◌else◌, ltb, none, some, suc, zero, ℕ, ◌++◌, ◌+◌, ◌-◌, ◌∷◌,
}
use numba_dppy.Prelude.Dict.{get}
use numba_dppy.Prelude.Names.{String-discrete}
use numba_dppy.Result.{Result, index_error, ok, or_raise, ◌>>=◌}

-- A piece of the text: as it stands, or the digits of a number.
pub data Piece : Type 0 where
  text : String → Piece
  number : ℕ → Piece

-- A bound of a loop nest: a constant, or a variable by its name.
pub data LoopBound : Type 0 where
  constant : ℕ → LoopBound
  variable : String → LoopBound

-- The start and the stop of a loop nest; its step is not looked at.
abbrev pub LoopRange : Type 0
LoopRange = LoopBound × LoopBound

-- `for indent in range(n): gufunc_txt += "    "`
abbrev pub indents : ℕ → List Piece
indents zero = []
indents (suc n) = text "    " ∷ indents n

-- `str(param_dict.get(str(bound), bound))`; the digits of a number are no variable's name.
unfoldable pub bound_text : List (String × String) → LoopBound → Piece
unfolding get
bound_text param_dict (constant n) = number n
bound_text param_dict (variable name) = elim (get String-discrete param_dict name) [
  | none ↦ text name
  | some legal ↦ text legal
]

-- The first loop of `_schedule_loop`, from dimension `eachdim`, `n` times.
abbrev pub id_loop : List String → ℕ → ℕ → Result (List Piece)
id_loop legal_loop_indices eachdim zero = ok []
id_loop legal_loop_indices eachdim (suc n) = do
  index ← or_raise (get_elem? legal_loop_indices eachdim) index_error
  rest ← id_loop legal_loop_indices (eachdim + 1) n
  ok (
      text "    "
      ∷ text index
      ∷ text " = "
      ∷ text "dppy.get_global_id("
      ∷ number eachdim
      ∷ text ")\n"
      ∷ rest)

-- The second loop, from `global_id_dim + k`, `n` times.
abbrev pub for_loop :
    List String → List LoopRange → List (String × String) → ℕ → ℕ → ℕ → Result (List Piece)
for_loop legal_loop_indices loop_ranges param_dict global_id_dim k zero = ok []
for_loop legal_loop_indices loop_ranges param_dict global_id_dim k (suc n) = do
  (start, stop) ← or_raise (get_elem? loop_ranges (global_id_dim + k)) index_error
  index ← or_raise (get_elem? legal_loop_indices (global_id_dim + k)) index_error
  rest ← for_loop legal_loop_indices loop_ranges param_dict global_id_dim (k + 1) n
  ok (
      indents (1 + k)
      ++ text "for "
        ∷ text index
        ∷ text " in range("
        ∷ bound_text param_dict start
        ∷ text ", "
        ∷ bound_text param_dict stop
        ∷ text " + 1):\n"
        ∷ rest)

-- The third loop.
abbrev pub indent_loop : ℕ → ℕ → List Piece
indent_loop k zero = []
indent_loop k (suc n) = indents (1 + k) ++ indent_loop (k + 1) n

unfoldable pub schedule_loop :
    ℕ → List String → List LoopRange → List (String × String) → Result (List Piece)
unfolding bound_text
schedule_loop parfor_dim legal_loop_indices loop_ranges param_dict =
    let global_id_dim = if ltb 3 parfor_dim then 3 else parfor_dim in
    (do
      ids ← id_loop legal_loop_indices 0 global_id_dim
      loops ←
          for_loop legal_loop_indices loop_ranges param_dict global_id_dim 0
            (parfor_dim - global_id_dim)
      ok (ids ++ loops ++ indent_loop 0 (parfor_dim - global_id_dim)))

-- `", ".join(parfor_params)`
abbrev pub joined : List String → List Piece
joined [] = []
joined (name ∷ []) = text name ∷ []
joined (name ∷ other ∷ names) = text name ∷ text ", " ∷ joined (other ∷ names)

-- `gufunc_txt` of the parfor with number `id`
unfoldable pub gufunc_text :
    ℕ
    → List String
    → String
    → ℕ
    → List String
    → List LoopRange
    → List (String × String)
    → Result (List Piece)
unfolding schedule_loop
gufunc_text id parfor_params sentinel_name parfor_dim legal_loop_indices loop_ranges param_dict = do
  schedule ← schedule_loop parfor_dim legal_loop_indices loop_ranges param_dict
  ok (
      text "def " ∷ text "__numba_parfor_gufunc_" ∷ number id ∷ text "(" ∷ joined parfor_params
      ++ text "):\n" ∷ schedule
      ++ text "    " ∷ text sentinel_name ∷ text " = 0\n" ∷ text "    return None\n" ∷ [])
