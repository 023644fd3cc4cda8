-- ===== src/Rewrite/Meaning.antt =====
-- What a block computes before and after `RewriteNumPyOverloadedFunctions.run` of
-- numba_dppy/core/passes/rename_numpy_functions_pass.py.
use numba_dppy.Prelude.{
  Bool, List, Option, String, [], ap, ap₂, eq_iff, false, map, refl, some, str_eq, true, ℕ, ◌++◌,
  ◌∙◌, ◌∷◌, ◌≡◌,
}
use numba_dppy.Result.{Result, ok}
use numba_dppy.Rewrite.{
  Stmt, Value, assign, call_expr, getattr_expr, global_value, other_expr, other_stmt, other_value,
  rewrite_function_name_map,
}
use numba_dppy.Rewrite.Functions.{new_name}

-- What the values stand for, whatever that is. The operands of an expression of another op are not
-- modelled, so that it stands for one thing.
pub record Semantics : Type 1 where
  pub Object : Type 0
  pub module_of : Option String → Object
  pub attribute : Object → String → Object
  pub apply : Object → List Object → List (String × Object) → Object
  pub other : ℕ → Object

module _ (S : Semantics) where
  abbrev pub Env : Type 0
  Env = String → S.Object

  abbrev pub eval_kws : Env → List (String × String) → List (String × S.Object)
  eval_kws env [] = []
  eval_kws env ((key, name) ∷ kws) = (key, env name) ∷ eval_kws env kws

  abbrev pub eval : Env → Value → S.Object
  eval env (global_value m) = S.module_of m
  eval env (getattr_expr value attr) = S.attribute (env value) attr
  eval env (call_expr id func args kws) = S.apply (env func) (map env args) (eval_kws env kws)
  eval env (other_expr n) = S.other n
  eval env (other_value n) = S.other n

  abbrev pub bind : Env → String → S.Object → Env
  bind env target object name = elim (str_eq target name) [ true ↦ object | false ↦ env name ]

  abbrev pub exec_stmt : Env → Stmt → Env
  exec_stmt env (assign target value) = bind env target (eval env value)
  exec_stmt env (other_stmt n) = env

  abbrev pub exec : Env → List Stmt → Env
  exec env [] = env
  exec env (stmt ∷ body) = exec (exec_stmt env stmt) body

  -- `numba_dppy.dpnp.NAME`
  abbrev pub dpnp_function : String → S.Object
  dpnp_function name = S.attribute (S.attribute (S.module_of (some "numba_dppy")) "dpnp") name

  abbrev pub exec_as : Env → Stmt → Result (Option String) → Env
  exec_as env (assign target value) (ok (some name)) = bind env target (dpnp_function name)
  exec_as env stmt _ = exec_stmt env stmt

  -- The rest of block `whole` run as it is written, but for the functions of the table that it takes
  -- from NumPy, in whose place it has those of `numba_dppy.dpnp`.
  abbrev pub exec_renamed : List Stmt → Env → List Stmt → Env
  exec_renamed whole env [] = env
  exec_renamed whole env (stmt ∷ body) =
      exec_renamed whole (exec_as env stmt (new_name rewrite_function_name_map whole stmt)) body

  pub exec-append : (env : Env) (xs ys : List Stmt) → exec env (xs ++ ys) ≡ exec (exec env xs) ys
  exec-append env [] ys = refl
  exec-append env (x ∷ xs) ys = exec-append (exec_stmt env x) xs ys

  pub bind_self :
      (env : Env) (name : String) (object : S.Object) → bind env name object name ≡ object
  bind_self env name object =
      ap (λ b. elim b [ true ↦ object | false ↦ env name ]) ((eq_iff name name).1 refl)

  pub bind_ne :
      (env : Env) (x y : String) (object : S.Object)
      → str_eq x y ≡ false
      → bind env x object y ≡ env y
  bind_ne env x y object ne = ap (λ b. elim b [ true ↦ object | false ↦ env y ]) ne

-- Names that `unique_var` never makes.
module _ (is_fresh : String → Bool) where
  abbrev pub AreOld : List String → Type 0
  AreOld [] = Unit {0}
  AreOld (name ∷ names) = (is_fresh name ≡ false) × AreOld names

  abbrev pub AreOldKws : List (String × String) → Type 0
  AreOldKws [] = Unit {0}
  AreOldKws ((key, name) ∷ kws) = (is_fresh name ≡ false) × AreOldKws kws

  abbrev pub ReadsOld : Value → Type 0
  ReadsOld (getattr_expr value attr) = is_fresh value ≡ false
  ReadsOld (call_expr id func args kws) = (is_fresh func ≡ false) × (AreOld args × AreOldKws kws)
  ReadsOld _ = Unit {0}

  -- The block reads no name that `unique_var` makes.
  abbrev pub ReadOld : List Stmt → Type 0
  ReadOld [] = Unit {0}
  ReadOld (assign target value ∷ body) = ReadsOld value × ReadOld body
  ReadOld (other_stmt n ∷ body) = ReadOld body

  module _ (S : Semantics) where
    -- The same but for the names that `unique_var` makes.
    abbrev pub Agree : Env S → Env S → Type 0
    Agree env env' = (name : String) → is_fresh name ≡ false → env name ≡ env' name

    map-Agree :
        (env env' : Env S) (names : List String)
        → Agree env env'
        → AreOld names
        → map env names ≡ map env' names
    map-Agree env env' [] agree old = refl
    map-Agree env env' (name ∷ names) agree old =
        ap₂ (◌∷◌) (agree name old.0) (map-Agree env env' names agree old.1)

    eval_kws-Agree :
        (env env' : Env S) (kws : List (String × String))
        → Agree env env'
        → AreOldKws kws
        → eval_kws S env kws ≡ eval_kws S env' kws
    eval_kws-Agree env env' [] agree old = refl
    eval_kws-Agree env env' ((key, name) ∷ kws) agree old =
        ap₂ (λ x rest. (key, x) ∷ rest) (agree name old.0) (eval_kws-Agree env env' kws agree old.1)

    pub eval-Agree :
        (env env' : Env S) (value : Value)
        → Agree env env'
        → ReadsOld value
        → eval S env value ≡ eval S env' value
    eval-Agree env env' (global_value m) agree old = refl
    eval-Agree env env' (getattr_expr value attr) agree old =
        ap (λ x. S.attribute x attr) (agree value old)
    eval-Agree env env' (call_expr id func args kws) agree old =
        ap (λ f. S.apply f (map env args) (eval_kws S env kws)) (agree func old.0)
        ∙ ap₂ (S.apply (env' func)) (map-Agree env env' args agree old.1.0)
            (eval_kws-Agree env env' kws agree old.1.1)
    eval-Agree env env' (other_expr n) agree old = refl
    eval-Agree env env' (other_value n) agree old = refl

    pub bind-Agree :
        (env env' : Env S) (target : String) (x x' : S.Object)
        → Agree env env'
        → x ≡ x'
        → Agree (bind S env target x) (bind S env' target x')
    bind-Agree env env' target x x' agree e name old = by_test (str_eq target name)
      where
        by_test :
            (b : Bool)
            → ◌≡◌ {A = S.Object}
                (elim b [ true ↦ x | false ↦ env name ])
                (elim b [ true ↦ x' | false ↦ env' name ])
        by_test true = e
        by_test false = agree name old
