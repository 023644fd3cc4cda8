-- ===== src/Rewrite/Alike.antt =====
-- Statements that differ only in the variable that an attribute is taken from, which is all that
-- `RewriteNumPyOverloadedFunctions.run` of numba_dppy/core/passes/rename_numpy_functions_pass.py
-- writes to a statement while it still looks at its block.
use numba_dppy.Prelude.{
  List, Option, String, [], ap, arith, if◌then◌else◌, map, none, refl, some, sym, ◌∙◌, ◌∷◌, ◌≡◌,
}
use numba_dppy.Prelude.Dict.{get}
use numba_dppy.Prelude.Names.{String-discrete}
use numba_dppy.Result.{Result, err, ok, ◌>>=◌}
use numba_dppy.Rewrite.{
  NameMap, Stmt, Value, assign, call_expr, find_variable_assignment, getattr_expr, global_value,
  is_module, other_expr, other_stmt, other_value,
}
use numba_dppy.Rewrite.Functions.{new_name}

abbrev pub value_shape : Value → Value
value_shape (getattr_expr value attr) = getattr_expr "" attr
value_shape (global_value m) = global_value m
value_shape (call_expr id func args kws) = call_expr id func args kws
value_shape (other_expr n) = other_expr n
value_shape (other_value n) = other_value n

abbrev pub shape : Stmt → Stmt
shape (assign target value) = assign target (value_shape value)
shape (other_stmt n) = other_stmt n

abbrev result_shape : Result Value → Result Value
result_shape (ok v) = ok (value_shape v)
result_shape (err e) = err e

find-shape :
    (body : List Stmt) (name : String)
    → find_variable_assignment (map shape body) name
      ≡ result_shape (find_variable_assignment body name)
unfolding find_variable_assignment
find-shape [] name = refl
find-shape (other_stmt n ∷ body) name = find-shape body name
find-shape (assign target value ∷ body) name = ground (arith, find-shape body name)

is_module-shape :
    (names : List String) (v : Value) → is_module names (value_shape v) ≡ is_module names v
unfolding is_module
is_module-shape names (getattr_expr value attr) = refl
is_module-shape names (global_value none) = refl
is_module-shape names (global_value (some m)) = refl
is_module-shape names (call_expr id func args kws) = refl
is_module-shape names (other_expr n) = refl
is_module-shape names (other_value n) = refl

module _ (function_name_map : NameMap) where
  is_module_of_shape :
      (names : List String) (name : String) (r : Result Value)
      → ◌≡◌ {A = Result (Option String)}
          (do
            node ← result_shape r
            found ← is_module names node
            ok (if found then some name else none))
          (do node ← r; found ← is_module names node; ok (if found then some name else none))
  is_module_of_shape names name (err e) = refl
  is_module_of_shape names name (ok v) = rw (is_module-shape names v) refl

  new_name-shape :
      (body : List Stmt) (stmt : Stmt)
      → new_name function_name_map (map shape body) stmt ≡ new_name function_name_map body stmt
  unfolding new_name
  new_name-shape body (other_stmt n) = refl
  new_name-shape body (assign target (global_value m)) = refl
  new_name-shape body (assign target (call_expr id func args kws)) = refl
  new_name-shape body (assign target (other_expr n)) = refl
  new_name-shape body (assign target (other_value n)) = refl
  new_name-shape body (assign target (getattr_expr value attr)) =
      by_entry (get String-discrete function_name_map attr)
    where
      by_entry :
          (entry : Option (List String × String))
          → ◌≡◌ {A = Result (Option String)}
              (elim entry [
                | none ↦ ok none
                | some (names, name) ↦ (do
                  node ← find_variable_assignment (map shape body) value
                  found ← is_module names node
                  ok (if found then some name else none))
              ])
              (elim entry [
                | none ↦ ok none
                | some (names, name) ↦ (do
                  node ← find_variable_assignment body value
                  found ← is_module names node
                  ok (if found then some name else none))
              ])
      by_entry none = refl
      by_entry (some (names, name)) =
          rw (find-shape body value)
            (is_module_of_shape names name (find_variable_assignment body value))

  -- What a statement is rewritten to depends on its block only up to the shape of its statements.
  pub new_name-alike :
      (body body' : List Stmt) (stmt : Stmt)
      → map shape body ≡ map shape body'
      → new_name function_name_map body stmt ≡ new_name function_name_map body' stmt
  new_name-alike body body' stmt h =
      sym (new_name-shape body stmt)
      ∙ ap (λ b. new_name function_name_map b stmt) h
      ∙ new_name-shape body' stmt
