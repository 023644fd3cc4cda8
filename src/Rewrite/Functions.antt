-- ===== src/Rewrite/Functions.antt =====
-- `RewriteNumPyOverloadedFunctions` of numba_dppy/core/passes/rename_numpy_functions_pass.py.
use numba_dppy.Prelude.{
  Bool, List, Option, String, [], false, if◌then◌else◌, none, some, true, ℕ, ◌++◌, ◌+◌, ◌∷◌,
}
use numba_dppy.Prelude.Dict.{get, set}
use numba_dppy.Prelude.Names.{String-discrete}
use numba_dppy.Result.{Result, err, key_error, ok, ◌>>=◌}
use numba_dppy.Rewrite.{
  NameMap, Stmt, Value, assign, find_variable_assignment, getattr_expr, global_value, is_module,
}
use native.Mathlib.Decide.{ℕ_discrete}

-- What the loop over a block has made so far.
pub record Progress : Type 0 where
  -- the statements that it has passed, which it writes in place
  pub done : List Stmt
  pub new_body : List Stmt
  -- the counter of `mk_unique_var`
  pub next_id : ℕ
  pub definitions : List (String × List Value)
  pub replaced : Bool

-- `new_body.append(stmt)`
abbrev pub keep : Progress → Stmt → Progress
keep p stmt = record p { done = p.done ++ stmt ∷ []; new_body = p.new_body ++ stmt ∷ [] }

module _ (function_name_map : NameMap) where
  -- The new name, if the statement of block `body` takes a function of the map from a module.
  unfoldable pub new_name : List Stmt → Stmt → Result (Option String)
  unfolding get find_variable_assignment is_module
  new_name body (assign target (getattr_expr value attr)) =
      elim (get String-discrete function_name_map attr) [
        | none ↦ ok none
        | some (names, name) ↦ (do
          node ← find_variable_assignment body value
          found ← is_module names node
          ok (if found then some name else none))
      ]
  new_name body _ = ok none

abbrev pub start : ℕ → List (String × List Value) → Progress
start n definitions = record {
  done = [];
  new_body = [];
  next_id = n;
  definitions = definitions;
  replaced = false;
}

-- `unique_var` is `mk_unique_var` of Numba on the value of its counter.
module _ (unique_var : String → ℕ → String) where
  abbrev pub global_var : ℕ → String
  global_var n = unique_var "$2load_global" n

  abbrev pub dpnp_var : ℕ → String
  dpnp_var n = unique_var "$4load_attr" (n + 1)

  abbrev pub g_dppy : Value
  g_dppy = global_value (some "numba_dppy")

  abbrev pub getattr_dpnp : ℕ → Value
  getattr_dpnp n = getattr_expr (global_var n) "dpnp"

  -- the branch that rewrites the assignment of attribute `attr` to `target`
  unfoldable pub replace : Progress → String → String → Progress
  unfolding set
  replace p target attr =
      let stmt = assign target (getattr_expr (dpnp_var p.next_id) attr) in
      record p {
        done = p.done ++ stmt ∷ [];
        new_body =
            p.new_body
            ++ assign (global_var p.next_id) g_dppy
              ∷ assign (dpnp_var p.next_id) (getattr_dpnp p.next_id)
              ∷ stmt
              ∷ [];
        next_id = p.next_id + 2;
        definitions =
            set String-discrete
              (set String-discrete p.definitions (dpnp_var p.next_id) (getattr_dpnp p.next_id ∷ []))
              (global_var p.next_id) (g_dppy ∷ []);
        replaced = true;
      }

  abbrev pub rewrite_as : Progress → Stmt → Option String → Progress
  rewrite_as p (assign target value) (some name) = replace p target name
  rewrite_as p stmt _ = keep p stmt

  module _ (function_name_map : NameMap) where
    -- the loop over the statements of a block
    unfoldable pub rewrite_body : Progress → List Stmt → Result Progress
    unfolding new_name replace
    rewrite_body p [] = ok p
    rewrite_body p (stmt ∷ body) = do
      name ← new_name function_name_map (p.done ++ stmt ∷ body) stmt
      rewrite_body (rewrite_as p stmt name) body

    -- The loop over the blocks. The `return` stands at the end of its body, so that it ends with the
    -- first block; without a block the method returns `None`.
    unfoldable pub run_functions :
        List ℕ
        → List (ℕ × List Stmt)
        → ℕ
        → List (String × List Value)
        → Result (List (ℕ × List Stmt) × Option Bool)
    unfolding rewrite_body get set
    run_functions [] blocks n definitions = ok (blocks, none)
    run_functions (label ∷ topo_order) blocks n definitions = elim (get ℕ_discrete blocks label) [
      | none ↦ err key_error
      | some body ↦ (do
        p ← rewrite_body (start n definitions) body
        ok (set ℕ_discrete blocks label p.new_body, some p.replaced))
    ]
