-- ===== src/Rewrite/Calls.antt =====
-- The new block and the old one after a statement of `RewriteNdarrayFunctions.run` of
-- numba_dppy/core/passes/rename_numpy_functions_pass.py that takes an attribute or is a call.
use numba_dppy.Prelude.{
  List, String, ap, false, inl, inr, map, none, some, subst, sym, true, ℕ, ◌∙◌, ◌∷◌, ◌≡◌, ◌⊎◌,
}
use numba_dppy.Prelude.Dict.{get}
use numba_dppy.Prelude.Names.{String-discrete}
use numba_dppy.Result.{ok}
use numba_dppy.Rewrite.{NameMap, Stmt, assign, call_expr, getattr_expr}
use numba_dppy.Rewrite.Meaning.{Env, Semantics, bind, dpnp_function, eval_kws, exec, exec_stmt}
use numba_dppy.Rewrite.Ndarray.{MethodProgress, TypeMap, Typing, rewrite_stmt}
use numba_dppy.Rewrite.Bound.{Kind, NotAssigned, made, method, plain}
use numba_dppy.Rewrite.Cases.{
  rewrite_call-returns, rewrite_method-returns, rewrite_stmt-call, rewrite_stmt-getattr,
  takes_method,
}
use numba_dppy.Rewrite.Steps.{AreKinds, IsAt, assign-IsAt, call-same, exec_bound_stmt, method-IsAt}

module _ (T : Typing) (unique_var : String → ℕ → String) (function_name_map : NameMap)
    (types : TypeMap T) (S : Semantics) (bound : S.Object → String → S.Object)
    (kind : String → Kind) where
  abbrev pub At : Env S → MethodProgress T → Env S → List Stmt → Type 0
  At = IsAt T unique_var function_name_map types S bound kind

  abbrev pub run_stmt : Env S → Stmt → Env S
  run_stmt = exec_bound_stmt T unique_var function_name_map types S bound kind

  abbrev pub Kinds : List Stmt → Type 0
  Kinds = AreKinds T unique_var function_name_map types S bound kind

  takes-same :
      (typemap : TypeMap T) (value attr : String)
      → get String-discrete typemap value ≡ get String-discrete types value
      → takes_method T unique_var function_name_map typemap value attr
        ≡ takes_method T unique_var function_name_map types value attr
  takes-same typemap value attr e =
      ap
        (λ known. elim (get String-discrete function_name_map attr) [
          | none ↦ false
          | some entry ↦ elim known [ none ↦ false | some typ ↦ T.is_array typ ]
        ])
        e

  pub getattr-IsAt :
      (env₀ : Env S) (p q : MethodProgress T) (env : Env S) (target value attr : String)
      (body : List Stmt)
      → ((prefix : String) (m : ℕ) → kind (unique_var prefix m) ≡ made)
      → Kinds (assign target (getattr_expr value attr) ∷ body)
      → At env₀ p env (assign target (getattr_expr value attr) ∷ body)
      → rewrite_stmt T unique_var function_name_map p (assign target (getattr_expr value attr))
        ≡ ok q
      → At env₀ q (run_stmt env (assign target (getattr_expr value attr))) body
  getattr-IsAt env₀ p q env target value attr body fresh kinds at h =
      let same = takes-same p.typemap value attr (at.same_types value kinds.0) in
      elim (rewrite_stmt-getattr T unique_var function_name_map p q target value attr h) [
        | inl (no_method, made_q) ↦
            let takes : takes_method T unique_var function_name_map types value attr ≡ false =
              sym same ∙ no_method in
            subst
              (λ b.
                At env₀ q
                  (elim b [
                    | true ↦ bind S env target (bound (env value) attr)
                    | false ↦ exec_stmt S env (assign target (getattr_expr value attr))
                  ])
                  body)
              (sym takes)
              (assign-IsAt T unique_var function_name_map types S bound kind env₀ p q env target
                (getattr_expr value attr) (getattr_expr value attr) body
                (subst
                  (λ b. elim b [
                    | true ↦ (kind target ≡ method) × NotAssigned S bound kind value body
                    | false ↦ kind target ≡ plain
                  ])
                  takes kinds.1.0)
                (ap (λ x. S.attribute x attr) (at.related.plain_same value kinds.0)) (cc made_q)
                (cc made_q) (cc made_q) at)
        | inr (a_method, rewritten) ↦
            let takes : takes_method T unique_var function_name_map types value attr ≡ true =
              sym same ∙ a_method in
            let is_method : (kind target ≡ method) × NotAssigned S bound kind value body =
              subst
                (λ b. elim b [
                  | true ↦ (kind target ≡ method) × NotAssigned S bound kind value body
                  | false ↦ kind target ≡ plain
                ])
                takes kinds.1.0 in
            let (typ, e₁, e₂, e₃) =
              rewrite_method-returns T unique_var p q target value attr rewritten in
            subst
              (λ b.
                At env₀ q
                  (elim b [
                    | true ↦ bind S env target (bound (env value) attr)
                    | false ↦ exec_stmt S env (assign target (getattr_expr value attr))
                  ])
                  body)
              (sym takes)
              (method-IsAt T unique_var function_name_map types S bound kind env₀ p q env target
                value attr typ body fresh is_method.0 kinds.0 is_method.1 e₁ e₂ e₃ at)
      ]

  func-same :
      (env₀ : Env S) (p : MethodProgress T) (env : Env S) (func : String) (body : List Stmt)
      → (kind func ≡ plain) ⊎ (kind func ≡ method)
      → get String-discrete p.saved_arr_arg func ≡ none
      → At env₀ p env body
      → exec S env₀ p.new_body func ≡ env func
  func-same env₀ p env func body (inl k) unsaved at = at.related.plain_same func k
  func-same env₀ p env func body (inr k) unsaved at = at.related.unsaved_same func k unsaved

  pub call-IsAt :
      (env₀ : Env S) (p q : MethodProgress T) (env : Env S) (target : String) (id : ℕ)
      (func : String) (args : List String) (kws : List (String × String)) (body : List Stmt)
      → ((object : S.Object) (attr : String) (xs : List S.Object) (ks : List (String × S.Object))
          → S.apply (bound object attr) xs ks ≡ S.apply (dpnp_function S attr) (object ∷ xs) ks)
      → Kinds (assign target (call_expr id func args kws) ∷ body)
      → At env₀ p env (assign target (call_expr id func args kws) ∷ body)
      → rewrite_stmt T unique_var function_name_map p (assign target (call_expr id func args kws))
        ≡ ok q
      → At env₀ q (run_stmt env (assign target (call_expr id func args kws))) body
  call-IsAt env₀ p q env target id func args kws body law kinds at h =
      let new_env = exec S env₀ p.new_body in
      elim (rewrite_stmt-call T unique_var function_name_map p q target id func args kws h) [
        | inl (unsaved, made_q) ↦
            assign-IsAt T unique_var function_name_map types S bound kind env₀ p q env target
              (call_expr id func args kws) (call_expr id func args kws) body kinds.1.0
              (call-same T unique_var function_name_map types S bound kind new_env env
                (new_env func) (env func) args kws at.related.plain_same kinds.0.1.0 kinds.0.1.1
                (func-same env₀ p env func _ kinds.0.0 unsaved at))
              (cc made_q) (cc made_q) (cc made_q) at
        | inr (arr, saved, rewritten) ↦
            let (e₁, (e₂, e₃)) = rewrite_call-returns T p q target id func args kws arr rewritten in
            let (k, (k', (free, (attr, old, new)))) = at.related.saved_bound func arr saved in
            assign-IsAt T unique_var function_name_map types S bound kind env₀ p q env target
              (call_expr id func args kws) (call_expr id func (arr ∷ args) kws) body kinds.1.0
              (call-same T unique_var function_name_map types S bound kind new_env env
                  (new_env func) (dpnp_function S attr) (arr ∷ args) kws at.related.plain_same
                  (k', kinds.0.1.0) kinds.0.1.1 new
                ∙ sym (law (env arr) attr (map env args) (eval_kws S env kws))
                ∙ ap (λ f. S.apply f (map env args) (eval_kws S env kws)) (sym old))
              e₁ e₂ e₃ at
      ]
