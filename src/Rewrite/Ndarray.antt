-- ===== src/Rewrite/Ndarray.antt =====
-- `RewriteNdarrayFunctions` and `get_dpnp_func_typ` of
-- numba_dppy/core/passes/rename_numpy_functions_pass.py.
use numba_dppy.Prelude.{
  Bool, List, String, [], false, length, none, some, take, true, ℕ, ◌++◌, ◌+◌, ◌∷◌,
}
use numba_dppy.Prelude.Dict.{delete, get, set}
use numba_dppy.Prelude.Names.{String-discrete}
use numba_dppy.Result.{Result, err, key_error, ok, or_raise, runtime_error, ◌>>=◌}
use numba_dppy.Rewrite.{NameMap, Stmt, Value, assign, call_expr, getattr_expr, global_value}
use native.Mathlib.Decide.{ℕ_discrete}

-- What the pass uses of Numba's types and signatures, and of the module `numba_dppy.dpnp`, whose
-- functions are numbers here.
pub record Typing : Type 1 where
  pub Ty : Type 0
  pub Signature : Type 0
  -- `isinstance(typ, types.npytypes.Array)`
  pub is_array : Ty → Bool
  -- `types.misc.Module(numba_dppy)`
  pub module_numba_dppy : Ty
  -- `types.misc.Module(numba_dppy.dpnp)`
  pub module_dpnp : Ty
  -- `getattr(numba_dppy.dpnp, attr)`
  pub dpnp_attribute : String → Result ℕ
  -- `builtin_registry.globals`
  pub globals : List (ℕ × Ty)
  -- `sig.args`
  pub signature_args : Signature → List Ty
  -- `func_typ.get_call_type(typingctx, args, kws)`
  pub get_call_type : Ty → List Ty → List (String × Ty) → Result Signature

module _ (T : Typing) where
  abbrev pub TypeMap : Type 0
  TypeMap = List (String × T.Ty)

  abbrev pub func_type_in : List (ℕ × T.Ty) → ℕ → Result T.Ty
  func_type_in [] func = err runtime_error
  func_type_in ((k, v) ∷ rest) func = elim (ℕ_discrete k func) [
    | yes _ ↦ ok v
    | no _ ↦ func_type_in rest func
  ]

  abbrev pub get_dpnp_func_typ : ℕ → Result T.Ty
  get_dpnp_func_typ func = func_type_in T.globals func

  -- `{name: self.typemap[v.name] for name, v in rhs.kws}`
  abbrev pub keyword_types : TypeMap → List (String × String) → Result (List (String × T.Ty))
  keyword_types typemap [] = ok []
  keyword_types typemap ((key, name) ∷ kws) = do
    typ ← or_raise (get String-discrete typemap name) key_error
    rest ← keyword_types typemap kws
    ok ((key, typ) ∷ rest)

  pub record MethodProgress : Type 0 where
    pub new_body : List Stmt
    pub next_id : ℕ
    pub typemap : TypeMap
    pub calltypes : List (ℕ × T.Signature)
    pub definitions : List (String × List Value)
    pub saved_arr_arg : List (String × String)
    pub replaced : Bool

  -- `new_body.append(stmt)`
  abbrev pub append_stmt : MethodProgress → Stmt → MethodProgress
  append_stmt p stmt = record p { new_body = p.new_body ++ stmt ∷ [] }

  -- a call of a function variable that an array is saved for
  unfoldable pub rewrite_call :
      MethodProgress
      → String
      → ℕ
      → String
      → List String
      → List (String × String)
      → String
      → Result MethodProgress
  unfolding get set delete
  rewrite_call p target id func args kws arr = do
    old_sig ← or_raise (get ℕ_discrete p.calltypes id) key_error
    kwtyps ← keyword_types p.typemap kws
    func_typ ← or_raise (get String-discrete p.typemap func) key_error
    arr_typ ← or_raise (get String-discrete p.typemap arr) key_error
    sig ← T.get_call_type func_typ (arr_typ ∷ take (length args) (T.signature_args old_sig)) kwtyps
    ok (
        append_stmt
          (record p { calltypes = set ℕ_discrete (delete ℕ_discrete p.calltypes id) id sig })
          (assign target (call_expr id func (arr ∷ args) kws)))

  module _ (unique_var : String → ℕ → String) where
    abbrev pub load_global : ℕ → String
    load_global n = unique_var "$load_global" n

    abbrev pub load_attr : ℕ → String
    load_attr n = unique_var "$load_attr" (n + 1)

    -- the types with those of the two new variables
    abbrev pub module_types : TypeMap → ℕ → TypeMap
    module_types typemap n =
        set String-discrete (set String-discrete typemap (load_global n) T.module_numba_dppy)
          (load_attr n) T.module_dpnp

    -- the types after the branch, with the type that it writes for `target`
    abbrev pub method_types : TypeMap → ℕ → String → T.Ty → TypeMap
    method_types typemap n target func_typ =
        set String-discrete (delete String-discrete (module_types typemap n) target) target func_typ

    -- the branch that takes method `attr` of array `arr` for `target`
    unfoldable pub rewrite_method :
        MethodProgress → String → String → String → Result MethodProgress
    unfolding get set delete
    rewrite_method p target arr attr = do
      let getattr_dpnp = getattr_expr (load_global p.next_id) "dpnp"
      func ← T.dpnp_attribute attr
      func_typ ← get_dpnp_func_typ func
      old_typ ← or_raise (get String-discrete (module_types p.typemap p.next_id) target) key_error
      ok (record p {
        new_body =
            p.new_body
            ++ assign (load_global p.next_id) (global_value (some "numba_dppy"))
              ∷ assign (load_attr p.next_id) getattr_dpnp
              ∷ assign target (getattr_expr (load_attr p.next_id) attr)
              ∷ [];
        next_id = p.next_id + 2;
        typemap = method_types p.typemap p.next_id target func_typ;
        definitions =
            set String-discrete
              (set String-discrete p.definitions (load_global p.next_id) (getattr_dpnp ∷ []))
              (load_attr p.next_id) (getattr_dpnp ∷ []);
        saved_arr_arg = set String-discrete p.saved_arr_arg target arr;
        replaced = true;
      })

    module _ (function_name_map : NameMap) where
      -- The body of the loop over the statements of a block.
      unfoldable pub rewrite_stmt : MethodProgress → Stmt → Result MethodProgress
      unfolding get rewrite_method rewrite_call
      rewrite_stmt p (assign target (getattr_expr value attr)) =
          elim (get String-discrete function_name_map attr) [
            | none ↦ ok (append_stmt p (assign target (getattr_expr value attr)))
            | some entry ↦ (do
              typ ← or_raise (get String-discrete p.typemap value) key_error
              elim (T.is_array typ) [
                | true ↦ rewrite_method p target value attr
                | false ↦ ok (append_stmt p (assign target (getattr_expr value attr)))
              ])
          ]
      rewrite_stmt p (assign target (call_expr id func args kws)) =
          elim (get String-discrete p.saved_arr_arg func) [
            | none ↦ ok (append_stmt p (assign target (call_expr id func args kws)))
            | some arr ↦ rewrite_call p target id func args kws arr
          ]
      rewrite_stmt p stmt = ok (append_stmt p stmt)

      unfoldable pub rewrite_stmts : MethodProgress → List Stmt → Result MethodProgress
      unfolding rewrite_stmt
      rewrite_stmts p [] = ok p
      rewrite_stmts p (stmt ∷ body) = do p' ← rewrite_stmt p stmt; rewrite_stmts p' body

      -- The loop over the blocks; what is saved in one is still there in the next.
      unfoldable pub run_methods :
          MethodProgress
          → List ℕ
          → List (ℕ × List Stmt)
          → Result (List (ℕ × List Stmt) × MethodProgress)
      unfolding get set rewrite_stmts
      run_methods p [] blocks = ok (blocks, p)
      run_methods p (label ∷ topo_order) blocks = do
        body ← or_raise (get ℕ_discrete blocks label) key_error
        p' ← rewrite_stmts (record p { new_body = [] }) body
        run_methods p' topo_order (set ℕ_discrete blocks label p'.new_body)
