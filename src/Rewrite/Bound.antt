-- ===== src/Rewrite/Bound.antt =====
-- What a block computes before and after `RewriteNdarrayFunctions.run` of
-- numba_dppy/core/passes/rename_numpy_functions_pass.py: the two environments, step by step.
use numba_dppy.Prelude.{
  Bool-cases, List, Option, String, [], ap, eq_iff, false, inl, inr, none, some, str_eq, subst₂,
  sym, true, ◌∙◌, ◌∷◌, ◌≡◌, ◌≢◌,
}
use numba_dppy.Prelude.Dict.{get, get-set, get-set_ne, set}
use numba_dppy.Prelude.Names.{String-discrete}
use numba_dppy.Rewrite.{Stmt, Value, assign, other_stmt}
use numba_dppy.Rewrite.Meaning.{Env, Semantics, bind, bind_self, bind_ne, dpnp_function}

-- What a variable of the block is: one that takes a method of an array, another one of the block,
-- or one that the pass makes.
pub data Kind : Type 0 where
  method plain made : Kind

-- `bound` is a method of an array.
module _ (S : Semantics) (bound : S.Object → String → S.Object) (kind : String → Kind) where
  pub kinds_ne : {j k : Kind} (x y : String) → kind x ≡ j → kind y ≡ k → j ≢ k → str_eq x y ≡ false
  kinds_ne x y j k ne = elim (Bool-cases (str_eq x y)) [
    | inl same ↦ absurd (ne (sym j ∙ ap kind ((eq_iff x y).0 same) ∙ k))
    | inr other ↦ other
  ]

  abbrev pub NotAssigned : String → List Stmt → Type 0
  NotAssigned name [] = Unit {0}
  NotAssigned name (assign target value ∷ body) =
      (str_eq target name ≡ false) × NotAssigned name body
  NotAssigned name (other_stmt n ∷ body) = NotAssigned name body

  abbrev pub IsSaved : Env S → Env S → List Stmt → String → String → Type 0
  IsSaved env env' body x arr =
      (kind x ≡ method)
      × ((kind arr ≡ plain)
          × (NotAssigned arr body
              × ((attr : String) × (env' x ≡ bound (env' arr) attr)
                  × (env x ≡ dpnp_function S attr))))

  some_none : {arr : String} → ◌≢◌ {A = Option String} none (some arr)
  some_none e = cc e

  some-injective : {x y : String} → ◌≡◌ {A = Option String} (some x) (some y) → x ≡ y
  some-injective e = cc e

  differ : (x y : String) → y ≢ x → str_eq x y ≡ false
  differ x y ne = elim (Bool-cases (str_eq x y)) [
    | inl same ↦ absurd (ne (sym ((eq_iff x y).0 same)))
    | inr other ↦ other
  ]

  -- The new environment and the old one after the statements before `body`: the same but for a
  -- variable that took a method of an array, which has the function of `numba_dppy.dpnp` now, while
  -- the array is saved for it and is not assigned again.
  pub record AreRelated (saved : List (String × String)) (env env' : Env S) (body : List Stmt)
      : Type 0 where
    pub plain_same : (x : String) → kind x ≡ plain → env x ≡ env' x
    pub unsaved_same :
        (x : String) → kind x ≡ method → get String-discrete saved x ≡ none → env x ≡ env' x
    pub saved_bound :
        (x arr : String) → get String-discrete saved x ≡ some arr → IsSaved env env' body x arr

  -- A statement that gives a variable that takes no method the same object in both.
  pub plain-AreRelated :
      (saved : List (String × String)) (env env' : Env S) (target : String) (value : Value)
      (x x' : S.Object) (body : List Stmt)
      → kind target ≡ plain
      → x ≡ x'
      → AreRelated saved env env' (assign target value ∷ body)
      → AreRelated saved (bind S env target x) (bind S env' target x') body
  plain-AreRelated saved env env' target value x x' body is_plain same r = record {
    plain_same = λ y k. both y (r.plain_same y k);
    unsaved_same = λ y k free. both y (r.unsaved_same y k free);
    saved_bound = λ y arr found.
        let (k, (k', (rest, (attr, old, new)))) = r.saved_bound y arr found in
        let ne : str_eq target y ≡ false = kinds_ne target y is_plain k (λ e. cc e) in
        (
          k,
          (
            k',
            (
              rest.1,
              (
                attr,
                bind_ne S env' target y x' ne
                    ∙ old
                    ∙ ap (λ o. bound o attr) (sym (bind_ne S env' target arr x' rest.0)),
                bind_ne S env target y x ne ∙ new,
              ),
            ),
          ),
        );
  }
    where
      both : (y : String) → env y ≡ env' y → bind S env target x y ≡ bind S env' target x' y
      both y e = elim (Bool-cases (str_eq target y)) [
        | inl equal ↦
            ap (λ b. elim b [ true ↦ x | false ↦ env y ]) equal
            ∙ same
            ∙ sym (ap (λ b. elim b [ true ↦ x' | false ↦ env' y ]) equal)
        | inr other ↦ bind_ne S env target y x other ∙ e ∙ sym (bind_ne S env' target y x' other)
      ]

  -- The statement that takes a method of array `arr`, after variables that the pass makes.
  pub method-AreRelated :
      (saved : List (String × String)) (env env₂ env' : Env S) (target arr attr : String)
      (value : Value) (body : List Stmt)
      → kind target ≡ method
      → kind arr ≡ plain
      → NotAssigned arr body
      → ((y : String) → kind y ≢ made → env₂ y ≡ env y)
      → AreRelated saved env env' (assign target value ∷ body)
      → AreRelated
          (set String-discrete saved target arr)
          (bind S env₂ target (dpnp_function S attr))
          (bind S env' target (bound (env' arr) attr))
          body
  method-AreRelated saved env env₂ env' target arr attr value body k ka free new r = record {
    plain_same = λ y ky.
        let ne : str_eq target y ≡ false = kinds_ne target y k ky (λ e. cc e) in
        bind_ne S env₂ target y _ ne
        ∙ new y (λ e. cc (e, ky))
        ∙ r.plain_same y ky
        ∙ sym (bind_ne S env' target y _ ne);
    unsaved_same = λ y ky unsaved. elim (String-discrete y target) [
      | yes same ↦ absurd (
          some_none (
            sym unsaved
            ∙ ap (get String-discrete _) same
            ∙ get-set String-discrete saved target arr))
      | no ne ↦
          bind_ne S env₂ target y _ (differ target y ne)
          ∙ new y (λ e. cc (e, ky))
          ∙ r.unsaved_same y ky (sym (get-set_ne String-discrete saved target y arr ne) ∙ unsaved)
          ∙ sym (bind_ne S env' target y _ (differ target y ne))
    ];
    saved_bound = λ y arr' found. elim (String-discrete y target) [
      | yes same ↦
          subst₂
            (IsSaved (bind S env₂ target (dpnp_function S attr))
              (bind S env' target (bound (env' arr) attr)) body)
            (sym same)
            (some-injective (
              sym (get-set String-discrete saved target arr)
              ∙ ap (get String-discrete _) (sym same)
              ∙ found))
            (
              k,
              (
                ka,
                (
                  free,
                  (
                    attr,
                    bind_self S env' target (bound (env' arr) attr)
                        ∙ ap (λ o. bound o attr)
                            (sym
                              (bind_ne S env' target arr _ (kinds_ne target arr k ka (λ e. cc e)))),
                    bind_self S env₂ target (dpnp_function S attr),
                  ),
                ),
              ),
            )
      | no ne ↦
          older y arr' ne
            (r.saved_bound y arr' (sym (get-set_ne String-discrete saved target y arr ne) ∙ found))
    ];
  }
    where
      older :
          (y arr' : String)
          → y ≢ target
          → IsSaved env env' (assign target value ∷ body) y arr'
          → IsSaved
              (bind S env₂ target (dpnp_function S attr))
              (bind S env' target (bound (env' arr) attr))
              body
              y
              arr'
      older y arr' ne (ky, (k', (rest, (attr', old, now)))) = (
        ky,
        (
          k',
          (
            rest.1,
            (
              attr',
              bind_ne S env' target y _ (differ target y ne)
                  ∙ old
                  ∙ ap (λ o. bound o attr') (sym (bind_ne S env' target arr' _ rest.0)),
              bind_ne S env₂ target y _ (differ target y ne) ∙ new y (λ e. cc (e, ky)) ∙ now,
            ),
          ),
        ),
      )
