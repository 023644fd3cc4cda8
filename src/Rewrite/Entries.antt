-- ===== src/Rewrite/Entries.antt =====
-- The entries of rewrite_function_name_map of rename_numpy_functions_pass.py, and the names that they
-- give.
use numba_dppy.Prelude.{
  Bool, List, Option, String, [], ap, arith, eq_iff, if◌then◌else◌, none, refl, some, str_eq, true,
  ◌&&◌, ◌∷◌, ◌≡◌,
}
use numba_dppy.Prelude.Dict.{get}
use numba_dppy.Prelude.Names.{String-discrete}
use numba_dppy.Result.{Result, ok, ◌>>=◌}
use numba_dppy.Rewrite.{
  NameMap, Stmt, Value, assign, call_expr, find_variable_assignment, getattr_expr, global_value,
  is_module, other_expr, other_value, rewrite_function_name_map,
}
use numba_dppy.Rewrite.Functions.{new_name}
use numba_dppy.Rewrite.Alike.{value_shape}

abbrev keeps_names : NameMap → Bool
keeps_names [] = true
keeps_names ((attr, (names, name)) ∷ m) = str_eq name attr && keeps_names m

pub table-keeps_names : keeps_names rewrite_function_name_map ≡ true
unfolding rewrite_function_name_map
table-keeps_names = refl

kept_lem :
    (m : NameMap) (attr name : String) (names : List String)
    → keeps_names m ≡ true
    → get String-discrete m attr ≡ some (names, name)
    → name ≡ attr
unfolding get
kept_lem [] attr name names h e = ground arith
kept_lem ((attr', (names', name')) ∷ m) attr name names h e =
    ground (arith, kept_lem m attr name names, eq_iff name' attr')

entry_lem :
    (body : List Stmt) (value attr name : String) (entry : Option (List String × String))
    → ((names : List String) (name' : String) → entry ≡ some (names, name') → name' ≡ attr)
    → ◌≡◌ {A = Result (Option String)}
        (elim entry [
          | none ↦ ok none
          | some (names, name') ↦ (do
            node ← find_variable_assignment body value
            found ← is_module names node
            ok (if found then some name' else none))
        ])
        (ok (some name))
    → attr ≡ name
entry_lem body value attr name none kept h = cc
entry_lem body value attr name (some (names, name')) kept h = ground (arith, kept names name' refl)

pub new_name-some :
    (m : NameMap) (body : List Stmt) (target : String) (value : Value) (name : String)
    → keeps_names m ≡ true
    → new_name m body (assign target value) ≡ ok (some name)
    → value_shape value ≡ getattr_expr "" name
unfolding new_name
new_name-some m body target (global_value g) name h e = cc
new_name-some m body target (call_expr id func args kws) name h e = cc
new_name-some m body target (other_expr n) name h e = cc
new_name-some m body target (other_value n) name h e = cc
new_name-some m body target (getattr_expr value attr) name h e = ap (getattr_expr "") (
    entry_lem body value attr name (get String-discrete m attr)
      (λ names name' found. kept_lem m attr name' names h found) e)
