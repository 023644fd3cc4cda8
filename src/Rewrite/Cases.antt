-- ===== src/Rewrite/Cases.antt =====
-- What the statements of `RewriteNdarrayFunctions.run` of
-- numba_dppy/core/passes/rename_numpy_functions_pass.py return when they return.
use numba_dppy.Prelude.{
  Bool, List, Option, String, [], false, inl, inr, length, none, refl, some, take, true, ℕ, ◌++◌,
  ◌∷◌, ◌≡◌, ◌⊎◌,
}
use numba_dppy.Prelude.Dict.{get, set}
use numba_dppy.Prelude.Names.{String-discrete}
use numba_dppy.Result.{>>=-eq-ok, Result, key_error, ok, or_raise, ◌>>=◌}
use numba_dppy.Rewrite.{NameMap, assign, call_expr, getattr_expr, global_value}
use numba_dppy.Rewrite.Ndarray.{
  MethodProgress, TypeMap, Typing, append_stmt, get_dpnp_func_typ, keyword_types, load_attr,
  load_global, method_types, module_types, rewrite_call, rewrite_method, rewrite_stmt,
}
use native.Mathlib.Decide.{ℕ_discrete}

module _ (T : Typing) (unique_var : String → ℕ → String) where
  pub rewrite_method-returns :
      (p q : MethodProgress T) (target arr attr : String)
      → rewrite_method T unique_var p target arr attr ≡ ok q
      → (typ : T.Ty) × (q.typemap ≡ method_types T unique_var p.typemap p.next_id target typ)
        × (q.saved_arr_arg ≡ set String-discrete p.saved_arr_arg target arr)
        × (q.new_body
            ≡ p.new_body
              ++ assign (load_global T unique_var p.next_id) (global_value (some "numba_dppy"))
                ∷ assign
                    (load_attr T unique_var p.next_id)
                    (getattr_expr (load_global T unique_var p.next_id) "dpnp")
                ∷ assign target (getattr_expr (load_attr T unique_var p.next_id) attr)
                ∷ [])
  unfolding rewrite_method
  rewrite_method-returns p q target arr attr h =
      let (func, e₁, h₁) = >>=-eq-ok (T.dpnp_attribute attr) _ h in
      let (typ, e₂, h₂) = >>=-eq-ok (get_dpnp_func_typ T func) _ h₁ in
      let (old, e₃, h₃) =
        >>=-eq-ok
          (or_raise (get String-discrete (module_types T unique_var p.typemap p.next_id) target)
            key_error)
          _ h₂ in
      (typ, cc h₃, cc h₃, cc h₃)

module _ (T : Typing) where
  pub rewrite_call-returns :
      (p q : MethodProgress T) (target : String) (id : ℕ) (func : String) (args : List String)
      (kws : List (String × String)) (arr : String)
      → rewrite_call T p target id func args kws arr ≡ ok q
      → (q.typemap ≡ p.typemap)
        × ((q.saved_arr_arg ≡ p.saved_arr_arg)
            × (q.new_body ≡ p.new_body ++ assign target (call_expr id func (arr ∷ args) kws) ∷ []))
  unfolding rewrite_call
  rewrite_call-returns p q target id func args kws arr h =
      let (old_sig, e₁, h₁) = >>=-eq-ok (or_raise (get ℕ_discrete p.calltypes id) key_error) _ h in
      let (kwtyps, e₂, h₂) = >>=-eq-ok (keyword_types T p.typemap kws) _ h₁ in
      let (func_typ, e₃, h₃) =
        >>=-eq-ok (or_raise (get String-discrete p.typemap func) key_error) _ h₂ in
      let (arr_typ, e₄, h₄) =
        >>=-eq-ok (or_raise (get String-discrete p.typemap arr) key_error) _ h₃ in
      let (sig, e₅, h₅) =
        >>=-eq-ok
          (T.get_call_type func_typ (arr_typ ∷ take (length args) (T.signature_args old_sig))
            kwtyps)
          _ h₄ in
      (cc h₅, (cc h₅, cc h₅))

module _ (T : Typing) (unique_var : String → ℕ → String) (function_name_map : NameMap) where
  -- whether the attribute is one of the table, and the variable an array
  abbrev pub takes_method : TypeMap T → String → String → Bool
  takes_method typemap value attr = elim (get String-discrete function_name_map attr) [
    | none ↦ false
    | some entry ↦ elim (get String-discrete typemap value) [
      | none ↦ false
      | some typ ↦ T.is_array typ
    ]
  ]

  pub rewrite_stmt-getattr :
      (p q : MethodProgress T) (target value attr : String)
      → rewrite_stmt T unique_var function_name_map p (assign target (getattr_expr value attr))
        ≡ ok q
      → ((takes_method p.typemap value attr ≡ false)
          × (q ≡ append_stmt T p (assign target (getattr_expr value attr))))
        ⊎ ((takes_method p.typemap value attr ≡ true)
            × (rewrite_method T unique_var p target value attr ≡ ok q))
  unfolding rewrite_stmt
  rewrite_stmt-getattr p q target value attr h =
      by_entry (get String-discrete function_name_map attr) (get String-discrete p.typemap value) h
    where
      by_array :
          (typ : T.Ty) (b : Bool)
          → ◌≡◌ {A = Result (MethodProgress T)}
              (elim b [
                | true ↦ rewrite_method T unique_var p target value attr
                | false ↦ ok (append_stmt T p (assign target (getattr_expr value attr)))
              ])
              (ok q)
          → ((b ≡ false) × (q ≡ append_stmt T p (assign target (getattr_expr value attr))))
            ⊎ ((b ≡ true) × (rewrite_method T unique_var p target value attr ≡ ok q))
      by_array typ true h = inr (refl, h)
      by_array typ false h = inl (refl, cc h)

      by_entry :
          (entry : Option (List String × String)) (known : Option T.Ty)
          → ◌≡◌ {A = Result (MethodProgress T)}
              (elim entry [
                | none ↦ ok (append_stmt T p (assign target (getattr_expr value attr)))
                | some entry ↦ (do
                  typ ← or_raise known key_error
                  elim (T.is_array typ) [
                    | true ↦ rewrite_method T unique_var p target value attr
                    | false ↦ ok (append_stmt T p (assign target (getattr_expr value attr)))
                  ])
              ])
              (ok q)
          → ((elim entry [
            | none ↦ false
            | some entry ↦ elim known [ none ↦ false | some typ ↦ T.is_array typ ]
          ]
                ≡ false)
              × (q ≡ append_stmt T p (assign target (getattr_expr value attr))))
            ⊎ ((elim entry [
              | none ↦ false
              | some entry ↦ elim known [ none ↦ false | some typ ↦ T.is_array typ ]
            ]
                  ≡ true)
                × (rewrite_method T unique_var p target value attr ≡ ok q))
      by_entry none known h = inl (refl, cc h)
      by_entry (some entry) none h = cc h
      by_entry (some entry) (some typ) h = by_array typ (T.is_array typ) h

  pub rewrite_stmt-call :
      (p q : MethodProgress T) (target : String) (id : ℕ) (func : String) (args : List String)
      (kws : List (String × String))
      → rewrite_stmt T unique_var function_name_map p (assign target (call_expr id func args kws))
        ≡ ok q
      → ((get String-discrete p.saved_arr_arg func ≡ none)
          × (q ≡ append_stmt T p (assign target (call_expr id func args kws))))
        ⊎ ((arr : String) × (get String-discrete p.saved_arr_arg func ≡ some arr)
            × (rewrite_call T p target id func args kws arr ≡ ok q))
  unfolding rewrite_stmt
  rewrite_stmt-call p q target id func args kws h =
      by_saved (get String-discrete p.saved_arr_arg func) h
    where
      by_saved :
          (saved : Option String)
          → ◌≡◌ {A = Result (MethodProgress T)}
              (elim saved [
                | none ↦ ok (append_stmt T p (assign target (call_expr id func args kws)))
                | some arr ↦ rewrite_call T p target id func args kws arr
              ])
              (ok q)
          → ((saved ≡ none) × (q ≡ append_stmt T p (assign target (call_expr id func args kws))))
            ⊎ ((arr : String) × (saved ≡ some arr)
                × (rewrite_call T p target id func args kws arr ≡ ok q))
      by_saved none h = inl (refl, cc h)
      by_saved (some arr) h = inr (arr, refl, h)
