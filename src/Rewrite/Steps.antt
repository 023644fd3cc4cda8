-- ===== src/Rewrite/Steps.antt =====
-- The new block and the old one after each statement of `RewriteNdarrayFunctions.run` of
-- numba_dppy/core/passes/rename_numpy_functions_pass.py.
use numba_dppy.Prelude.{
  List, String, [], ap, ap₂, false, map, refl, some, subst₂, sym, true, ℕ, ◌++◌, ◌+◌, ◌∙◌, ◌∷◌, ◌≡◌,
  ◌≢◌, ◌⊎◌,
}
use numba_dppy.Prelude.Dict.{get, get-delete_ne, get-set_ne, set}
use numba_dppy.Prelude.Names.{String-discrete}
use numba_dppy.Rewrite.{
  NameMap, Stmt, Value, assign, call_expr, getattr_expr, global_value, other_stmt,
}
use numba_dppy.Rewrite.Meaning.{
  Env, Semantics, bind, bind_self, bind_ne, dpnp_function, eval, eval_kws, exec, exec-append,
  exec_stmt,
}
use numba_dppy.Rewrite.Ndarray.{
  MethodProgress, TypeMap, Typing, load_attr, load_global, method_types,
}
use numba_dppy.Rewrite.Bound.{
  AreRelated, Kind, NotAssigned, kinds_ne, made, method, method-AreRelated, plain, plain-AreRelated,
}
use numba_dppy.Rewrite.Cases.{takes_method}

module _ (T : Typing) (unique_var : String → ℕ → String) (function_name_map : NameMap)
    (types : TypeMap T) (S : Semantics) (bound : S.Object → String → S.Object)
    (kind : String → Kind) where
  abbrev pub ArePlain : List String → Type 0
  ArePlain [] = Unit {0}
  ArePlain (name ∷ names) = (kind name ≡ plain) × ArePlain names

  abbrev pub ArePlainKws : List (String × String) → Type 0
  ArePlainKws [] = Unit {0}
  ArePlainKws ((key, name) ∷ kws) = (kind name ≡ plain) × ArePlainKws kws

  abbrev pub IsReadable : Value → Type 0
  IsReadable (getattr_expr value attr) = kind value ≡ plain
  IsReadable (call_expr id func args kws) =
      ((kind func ≡ plain) ⊎ (kind func ≡ method)) × (ArePlain args × ArePlainKws kws)
  IsReadable _ = Unit {0}

  abbrev pub IsKind : String → Value → List Stmt → Type 0
  IsKind target (getattr_expr value attr) body =
      elim (takes_method T unique_var function_name_map types value attr) [
        | true ↦ (kind target ≡ method) × NotAssigned S bound kind value body
        | false ↦ kind target ≡ plain
      ]
  IsKind target value body = kind target ≡ plain

  -- A variable takes a method of an array exactly if it is of kind `method`; it is only called, and
  -- the array is not assigned again. No variable of the block is one that the pass makes.
  abbrev pub AreKinds : List Stmt → Type 0
  AreKinds [] = Unit {0}
  AreKinds (assign target value ∷ body) =
      IsReadable value × (IsKind target value body × AreKinds body)
  AreKinds (other_stmt n ∷ body) = AreKinds body

  abbrev pub exec_bound_stmt : Env S → Stmt → Env S
  exec_bound_stmt env (assign target (getattr_expr value attr)) =
      elim (takes_method T unique_var function_name_map types value attr) [
        | true ↦ bind S env target (bound (env value) attr)
        | false ↦ exec_stmt S env (assign target (getattr_expr value attr))
      ]
  exec_bound_stmt env stmt = exec_stmt S env stmt

  -- The block as it is written, where `bound` is the method of an array.
  abbrev pub exec_bound : Env S → List Stmt → Env S
  exec_bound env [] = env
  exec_bound env (stmt ∷ body) = exec_bound (exec_bound_stmt env stmt) body

  pub record IsAt (env₀ : Env S) (p : MethodProgress T) (env : Env S) (body : List Stmt)
      : Type 0 where
    pub related : AreRelated S bound kind p.saved_arr_arg (exec S env₀ p.new_body) env body
    pub same_types :
        (x : String)
        → kind x ≡ plain
        → get String-discrete p.typemap x ≡ get String-discrete types x

  args-same :
      (env env' : Env S) (names : List String)
      → ((x : String) → kind x ≡ plain → env x ≡ env' x)
      → ArePlain names
      → map env names ≡ map env' names
  args-same env env' [] same h = refl
  args-same env env' (name ∷ names) same h =
      ap₂ (◌∷◌) (same name h.0) (args-same env env' names same h.1)

  kws-same :
      (env env' : Env S) (kws : List (String × String))
      → ((x : String) → kind x ≡ plain → env x ≡ env' x)
      → ArePlainKws kws
      → eval_kws S env kws ≡ eval_kws S env' kws
  kws-same env env' [] same h = refl
  kws-same env env' ((key, name) ∷ kws) same h =
      ap₂ (λ x rest. (key, x) ∷ rest) (same name h.0) (kws-same env env' kws same h.1)

  pub call-same :
      (env env' : Env S) (f f' : S.Object) (args : List String) (kws : List (String × String))
      → ((x : String) → kind x ≡ plain → env x ≡ env' x)
      → ArePlain args
      → ArePlainKws kws
      → f ≡ f'
      → S.apply f (map env args) (eval_kws S env kws)
        ≡ S.apply f' (map env' args) (eval_kws S env' kws)
  call-same env env' f f' args kws same a k e =
      ap (λ g. S.apply g (map env args) (eval_kws S env kws)) e
      ∙ ap₂ (S.apply f') (args-same env env' args same a) (kws-same env env' kws same k)

  -- a statement that is kept, or whose value alone is another one now
  pub assign-IsAt :
      (env₀ : Env S) (p q : MethodProgress T) (env : Env S) (target : String) (value new : Value)
      (body : List Stmt)
      → kind target ≡ plain
      → eval S (exec S env₀ p.new_body) new ≡ eval S env value
      → q.typemap ≡ p.typemap
      → q.saved_arr_arg ≡ p.saved_arr_arg
      → q.new_body ≡ p.new_body ++ assign target new ∷ []
      → IsAt env₀ p env (assign target value ∷ body)
      → IsAt env₀ q (exec_stmt S env (assign target value)) body
  assign-IsAt env₀ p q env target value new body k same e₁ e₂ e₃ at = record {
    related =
        subst₂
          (λ saved e. AreRelated S bound kind saved e (exec_stmt S env (assign target value)) body)
          (sym e₂)
          (sym (ap (exec S env₀) e₃ ∙ exec-append S env₀ p.new_body (assign target new ∷ [])))
          (plain-AreRelated S bound kind p.saved_arr_arg (exec S env₀ p.new_body) env target value
            (eval S (exec S env₀ p.new_body) new) (eval S env value) body k same at.related);
    same_types = λ x plain_x. ap (λ t. get String-discrete t x) e₁ ∙ at.same_types x plain_x;
  }

  other_name : {j k : Kind} (x y : String) → kind x ≡ j → kind y ≡ k → j ≢ k → x ≢ y
  other_name x y jx ky ne same = ne (sym jx ∙ ap kind same ∙ ky)

  types_lem :
      (typemap : TypeMap T) (n : ℕ) (target x : String) (typ : T.Ty)
      → ((prefix : String) (m : ℕ) → kind (unique_var prefix m) ≡ made)
      → kind target ≡ method
      → kind x ≡ plain
      → get String-discrete (method_types T unique_var typemap n target typ) x
        ≡ get String-discrete typemap x
  types_lem typemap n target x typ fresh k plain_x =
      let ne : x ≢ target = other_name x target plain_x k (λ e. cc e) in
      let g = load_global T unique_var n in
      let d = load_attr T unique_var n in
      get-set_ne String-discrete _ target x typ ne
      ∙ get-delete_ne String-discrete _ target x ne
      ∙ get-set_ne String-discrete (set String-discrete typemap g T.module_numba_dppy) d x
          T.module_dpnp (other_name x d plain_x (fresh "$load_attr" (n + 1)) (λ e. cc e))
      ∙ get-set_ne String-discrete typemap g x T.module_numba_dppy
          (other_name x g plain_x (fresh "$load_global" n) (λ e. cc e))

  pub method-IsAt :
      (env₀ : Env S) (p q : MethodProgress T) (env : Env S) (target arr attr : String) (typ : T.Ty)
      (body : List Stmt)
      → ((prefix : String) (m : ℕ) → kind (unique_var prefix m) ≡ made)
      → kind target ≡ method
      → kind arr ≡ plain
      → NotAssigned S bound kind arr body
      → q.typemap ≡ method_types T unique_var p.typemap p.next_id target typ
      → q.saved_arr_arg ≡ set String-discrete p.saved_arr_arg target arr
      → q.new_body
        ≡ p.new_body
          ++ assign (load_global T unique_var p.next_id) (global_value (some "numba_dppy"))
            ∷ assign
                (load_attr T unique_var p.next_id)
                (getattr_expr (load_global T unique_var p.next_id) "dpnp")
            ∷ assign target (getattr_expr (load_attr T unique_var p.next_id) attr)
            ∷ []
      → IsAt env₀ p env (assign target (getattr_expr arr attr) ∷ body)
      → IsAt env₀ q (bind S env target (bound (env arr) attr)) body
  method-IsAt env₀ p q env target arr attr typ body fresh k ka free e₁ e₂ e₃ at =
      let g = load_global T unique_var p.next_id in
      let d = load_attr T unique_var p.next_id in
      let a₀ = exec S env₀ p.new_body in
      let a₁ = bind S a₀ g (S.module_of (some "numba_dppy")) in
      let a₂ = bind S a₁ d (S.attribute (a₁ g) "dpnp") in
      let found : S.attribute (a₂ d) attr ≡ dpnp_function S attr =
        ap (λ x. S.attribute x attr)
          (bind_self S a₁ d (S.attribute (a₁ g) "dpnp")
            ∙ ap (λ x. S.attribute x "dpnp")
                (bind_self S a₀ g (S.module_of (some "numba_dppy")))) in
      let new : (y : String) → kind y ≢ made → a₂ y ≡ a₀ y = λ y ny.
        bind_ne S a₁ d y (S.attribute (a₁ g) "dpnp")
          (kinds_ne S bound kind d y (fresh "$load_attr" (p.next_id + 1)) refl (λ e. ny (sym e)))
        ∙ bind_ne S a₀ g y (S.module_of (some "numba_dppy"))
            (kinds_ne S bound kind g y (fresh "$load_global" p.next_id) refl (λ e. ny (sym e))) in
      record {
        related =
            subst₂
              (λ saved e.
                AreRelated S bound kind saved e (bind S env target (bound (env arr) attr)) body)
              (sym e₂)
              (sym (
                ap (exec S env₀) e₃
                ∙ exec-append S env₀ p.new_body _
                ∙ ap (bind S a₂ target) found))
              (method-AreRelated S bound kind p.saved_arr_arg a₀ a₂ env target arr attr
                (getattr_expr arr attr) body k ka free new at.related);
        same_types = λ x plain_x.
            ap (λ t. get String-discrete t x) e₁
            ∙ types_lem p.typemap p.next_id target x typ fresh k plain_x
            ∙ at.same_types x plain_x;
      }
