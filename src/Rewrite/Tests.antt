-- ===== src/Rewrite/Tests.antt =====
-- The rewriting of numba_dppy/core/passes/rename_numpy_functions_pass.py on small blocks.
use numba_dppy.Prelude.{
  Bool, List, String, [], arith, false, none, refl, some, str_eq, suc, true, zero, ℕ, ◌++◌, ◌||◌,
  ◌∷◌, ◌≡◌,
}
use numba_dppy.Prelude.Dict.{get, set}
use numba_dppy.Prelude.Names.{String-discrete}
use numba_dppy.Result.{ok}
use numba_dppy.Rewrite.{
  Stmt, assign, call_expr, find_variable_assignment, getattr_expr, global_value, is_module,
  rewrite_function_name_map,
}
use numba_dppy.Rewrite.Functions.{Progress, new_name, replace, rewrite_body, run_functions}
use numba_dppy.Rewrite.Meaning.{Semantics}
use numba_dppy.Rewrite.Run.{run_functions-not_replaced, run_functions-other_blocks}
use numba_dppy.Rewrite.Ndarray.{MethodProgress, Typing}
use numba_dppy.Rewrite.Bound.{Kind, made, method, plain}
use native.Mathlib.Decide.{ℕ_discrete}

abbrev fresh_name : String → Bool
fresh_name name = str_eq name "fresh.0" || str_eq name "fresh.1"

abbrev make_name : String → ℕ → String
make_name prefix n = elim (str_eq prefix "$2load_global") [ true ↦ "fresh.0" | false ↦ "fresh.1" ]

abbrev dotted_names : Semantics
dotted_names = record {
  Object = List String;
  module_of = λ m. elim m [ none ↦ [] | some name ↦ name ∷ [] ];
  attribute = λ object attr. object ++ attr ∷ [];
  apply = λ func args kws. func;
  other = λ n. [];
}

-- `np.sum(a)`
abbrev sum_body : List Stmt
sum_body =
    assign "$2load_global.0" (global_value (some "numpy"))
    ∷ assign "$4load_method.1" (getattr_expr "$2load_global.0" "sum")
    ∷ assign "$8call_method.3" (call_expr 0 "$4load_method.1" ("a" ∷ []) [])
    ∷ []

abbrev sum_rewritten : List Stmt
sum_rewritten =
    assign "$2load_global.0" (global_value (some "numpy"))
    ∷ assign "fresh.0" (global_value (some "numba_dppy"))
    ∷ assign "fresh.1" (getattr_expr "fresh.0" "dpnp")
    ∷ assign "$4load_method.1" (getattr_expr "fresh.1" "sum")
    ∷ assign "$8call_method.3" (call_expr 0 "$4load_method.1" ("a" ∷ []) [])
    ∷ []

abbrev sum_progress : Progress
sum_progress = record {
  done =
      assign "$2load_global.0" (global_value (some "numpy"))
      ∷ assign "$4load_method.1" (getattr_expr "fresh.1" "sum")
      ∷ assign "$8call_method.3" (call_expr 0 "$4load_method.1" ("a" ∷ []) [])
      ∷ [];
  new_body = sum_rewritten;
  next_id = 2;
  definitions =
      ("fresh.1", getattr_expr "fresh.0" "dpnp" ∷ [])
      ∷ ("fresh.0", global_value (some "numba_dppy") ∷ [])
      ∷ [];
  replaced = true;
}

two_blocks :
    run_functions make_name rewrite_function_name_map
      (0 ∷ 1 ∷ [])
      ((0, sum_body) ∷ (1, sum_body) ∷ [])
      0
      []
    ≡ ok ((0, sum_rewritten) ∷ (1, sum_body) ∷ [], some true)
unfolding run_functions rewrite_body new_name replace rewrite_function_name_map
    find_variable_assignment is_module get set String-discrete ℕ_discrete
two_blocks = refl

-- The second block takes `np.sum` too, and keeps it.
run_functions-other_blocks_example :
    get ℕ_discrete ((0, sum_rewritten) ∷ (1, sum_body) ∷ []) 1
    ≡ get ℕ_discrete ((0, sum_body) ∷ (1, sum_body) ∷ []) 1
run_functions-other_blocks_example =
    run_functions-other_blocks make_name rewrite_function_name_map 0 1 0 (1 ∷ [])
      ((0, sum_body) ∷ (1, sum_body) ∷ []) ((0, sum_rewritten) ∷ (1, sum_body) ∷ []) [] (some true)
      two_blocks (λ e. omega (arith, e))

-- `np.sin` is not in the table.
abbrev sin_body : List Stmt
sin_body = assign "$2" (global_value (some "numpy")) ∷ assign "$4" (getattr_expr "$2" "sin") ∷ []

sin_run :
    run_functions make_name rewrite_function_name_map (0 ∷ []) ((0, sin_body) ∷ []) 0 []
    ≡ ok ((0, sin_body) ∷ [], some false)
unfolding run_functions rewrite_body new_name replace rewrite_function_name_map
    find_variable_assignment is_module get set String-discrete ℕ_discrete
sin_run = refl

run_functions-not_replaced_example :
    get ℕ_discrete ((0, sin_body) ∷ []) 0 ≡ get ℕ_discrete ((0, sin_body) ∷ []) 0
run_functions-not_replaced_example =
    run_functions-not_replaced make_name rewrite_function_name_map 0 0 0 [] ((0, sin_body) ∷ [])
      ((0, sin_body) ∷ []) [] sin_run

abbrev applied_names : Semantics
applied_names = record {
  Object = List String;
  module_of = λ m. elim m [ none ↦ [] | some name ↦ name ∷ [] ];
  attribute = λ object attr. object ++ attr ∷ [];
  apply = λ func args kws. func ++ all_of args;
  other = λ n. [];
}
  where
    all_of : List (List String) → List String
    all_of [] = []
    all_of (xs ∷ rest) = xs ++ all_of rest

abbrev bound_to : List String → String → List String
bound_to object attr = "numba_dppy" ∷ "dpnp" ∷ attr ∷ object

-- The types are numbers: 0 of arrays, 1 and 2 of the modules, 3 of the function.
abbrev number_typing : Typing
number_typing = record {
  Ty = ℕ;
  Signature = List ℕ;
  is_array = λ typ. elim typ [ zero ↦ true | suc n ↦ false ];
  module_numba_dppy = 1;
  module_dpnp = 2;
  dpnp_attribute = λ attr. ok 7;
  globals = (8, 4) ∷ (7, 3) ∷ [];
  signature_args = λ sig. sig;
  get_call_type = λ func_typ args kws. ok args;
}

abbrev make_var : String → ℕ → String
make_var prefix n = elim (str_eq prefix "$load_global") [ true ↦ "fresh.0" | false ↦ "fresh.1" ]

abbrev kind_of : String → Kind
kind_of name = elim (str_eq name "$m") [
  | true ↦ method
  | false ↦ elim (fresh_name name) [ true ↦ made | false ↦ plain ]
]

-- `a.sum(n)`
abbrev method_stmts : List Stmt
method_stmts =
    assign "$m" (getattr_expr "a" "sum") ∷ assign "$r" (call_expr 5 "$m" ("n" ∷ []) []) ∷ []

abbrev method_types_before : List (String × ℕ)
method_types_before = ("a", 0) ∷ ("n", 9) ∷ ("$m", 6) ∷ ("$r", 9) ∷ []

abbrev before : MethodProgress number_typing
before = record {
  new_body = [];
  next_id = 0;
  typemap = method_types_before;
  calltypes = (5, 9 ∷ []) ∷ [];
  definitions = [];
  saved_arr_arg = [];
  replaced = false;
}

-- The definition that is recorded for the variable of the module `numba_dppy`, "fresh.0", is that of
-- the other variable.
abbrev after : MethodProgress number_typing
after = record {
  new_body =
      assign "fresh.0" (global_value (some "numba_dppy"))
      ∷ assign "fresh.1" (getattr_expr "fresh.0" "dpnp")
      ∷ assign "$m" (getattr_expr "fresh.1" "sum")
      ∷ assign "$r" (call_expr 5 "$m" ("a" ∷ "n" ∷ []) [])
      ∷ [];
  next_id = 2;
  typemap = ("a", 0) ∷ ("n", 9) ∷ ("$r", 9) ∷ ("fresh.0", 1) ∷ ("fresh.1", 2) ∷ ("$m", 3) ∷ [];
  calltypes = (5, 0 ∷ 9 ∷ []) ∷ [];
  definitions =
      ("fresh.0", getattr_expr "fresh.0" "dpnp" ∷ [])
      ∷ ("fresh.1", getattr_expr "fresh.0" "dpnp" ∷ [])
      ∷ [];
  saved_arr_arg = ("$m", "a") ∷ [];
  replaced = true;
}
