-- ===== src/Parfor/Lowering.antt =====
-- `_lower_parfor_gufunc` of numba_dppy/core/passes/dppy_lowerer.py: what it does to the type map of
-- the lowerer and to Numba's flag `sequential_parfor_lowering`.
use numba_dppy.Prelude.{
  Bool, List, String, [], ap, false, length, none, some, sym, true, ℕ, ◌-◌, ◌==◌, ◌∷◌, ◌≡◌,
}
use numba_dppy.Prelude.Dict.{get}
use numba_dppy.Prelude.Names.{String-discrete}
use numba_dppy.Exec.{>>=-returns, Exec, modify, ◌>>=◌, ◌>>◌}
use numba_dppy.Result.{Result, assertion_error, err, index_error, key_error, ok}

-- The lowerer's `fndesc.typemap`, and the flag.
pub record Lowering : Type 0 where
  pub typemap : List (String × ℕ)
  pub sequential_parfor_lowering : Bool

-- What the lowering of a parfor calls, each of which may write to the type map.
pub record ParforSteps : Type 0 where
  -- of the init block, and of the variables of races
  pub lower_init_block : Exec Lowering (Unit {0})
  pub alloca_races : Exec Lowering (Unit {0})
  pub index_variables : List String
  pub outputs : List String
  -- `_create_gufunc_for_parfor_body`: the names of the arguments
  pub create_gufunc : Exec Lowering (List String)
  -- the shape signature and the launch, for the arguments and the number of inputs
  pub generate_launch : List String → ℕ → Exec Lowering (Unit {0})

-- `for l in loop_nests[1:]: assert typemap[l.index_variable.name] == index_var_typ`
abbrev pub same_index_types : List (String × ℕ) → ℕ → List String → Result (Unit {0})
same_index_types typemap typ [] = ok tt
same_index_types typemap typ (name ∷ names) = elim (get String-discrete typemap name) [
  | none ↦ err key_error
  | some t ↦ elim (t == typ) [
    | true ↦ same_index_types typemap typ names
    | false ↦ err assertion_error
  ]
]

abbrev pub check_index_types : List (String × ℕ) → List String → Result (Unit {0})
check_index_types typemap [] = err index_error
check_index_types typemap (name ∷ names) = elim (get String-discrete typemap name) [
  | none ↦ err key_error
  | some typ ↦ same_index_types typemap typ names
]

-- `try: ... finally: sequential_parfor_lowering = False`
unfoldable pub create_sequentially : ParforSteps → Exec Lowering (List String)
create_sequentially P s =
    let (r, s') = P.create_gufunc (record s { sequential_parfor_lowering = true }) in
    (r, record s' { sequential_parfor_lowering = false })

unfoldable pub lower_parfor_gufunc : ParforSteps → Exec Lowering (Unit {0})
unfolding get create_sequentially
lower_parfor_gufunc P s =
    (do
      P.lower_init_block
      P.alloca_races
      (λ t. (check_index_types t.typemap P.index_variables, t))
      func_args ← create_sequentially P
      P.generate_launch func_args (length func_args - length P.outputs)
      modify (λ t. record t { typemap = s.typemap }))
      s

-- The rest of the lowering, from each step on.
abbrev from_launch : ParforSteps → List (String × ℕ) → List String → Exec Lowering (Unit {0})
from_launch P typemap func_args = do
  P.generate_launch func_args (length func_args - length P.outputs)
  modify (λ t. record t { typemap = typemap })

abbrev from_check : ParforSteps → List (String × ℕ) → Exec Lowering (Unit {0})
from_check P typemap = do
  (λ t. (check_index_types t.typemap P.index_variables, t))
  func_args ← create_sequentially P
  from_launch P typemap func_args

-- If the lowering of a parfor returns, the type map is the one from before it.
pub lower_parfor_gufunc-typemap :
    (P : ParforSteps) (s s' : Lowering)
    → lower_parfor_gufunc P s ≡ (ok tt, s')
    → s'.typemap ≡ s.typemap
unfolding lower_parfor_gufunc
lower_parfor_gufunc-typemap P s s' h =
    let (u₁, s₁, e₁, h₁) =
      >>=-returns P.lower_init_block (λ _. P.alloca_races >> from_check P s.typemap) s tt s' h in
    let (u₂, s₂, e₂, h₂) = >>=-returns P.alloca_races (λ _. from_check P s.typemap) s₁ tt s' h₁ in
    let (u₃, s₃, e₃, h₃) =
      >>=-returns (λ t. (check_index_types t.typemap P.index_variables, t))
        (λ _. create_sequentially P >>= from_launch P s.typemap) s₂ tt s' h₂ in
    let (func_args, s₄, e₄, h₄) =
      >>=-returns (create_sequentially P) (from_launch P s.typemap) s₃ tt s' h₃ in
    let (u₅, s₅, e₅, h₅) =
      >>=-returns (P.generate_launch func_args (length func_args - length P.outputs))
        (λ _. modify (λ t. record t { typemap = s.typemap })) s₄ tt s' h₄ in
    let made : record s₅ { typemap = s.typemap } ≡ s' = cc h₅ in sym (ap (λ t. t.typemap) made)
