-- ===== src/Rewrite/Run.antt =====
-- The blocks that `RewriteNumPyOverloadedFunctions.run` of
-- numba_dppy/core/passes/rename_numpy_functions_pass.py leaves as they are.
use numba_dppy.Prelude.{
  Bool, List, Option, String, [], ap, arith, false, none, refl, some, sym, true, ℕ, ◌++◌, ◌∙◌, ◌∷◌,
  ◌≡◌, ◌≢◌,
}
use numba_dppy.Prelude.Dict.{get, get-set, get-set_ne, set}
use numba_dppy.Result.{>>=-eq-ok, Result, err, key_error, ok, ◌>>=◌}
use numba_dppy.Rewrite.{NameMap, Stmt, Value, assign, other_stmt}
use numba_dppy.Rewrite.Functions.{
  Progress, new_name, replace, rewrite_as, rewrite_body, run_functions, start,
}
use native.Mathlib.Decide.{ℕ_discrete}
use mathlib.Core.Bool.{true≢false}
use mathlib.Core.List.{append-nil, append_assoc}

abbrev pub Blocks : Type 0
Blocks = List (ℕ × List Stmt)

module _ (unique_var : String → ℕ → String) (function_name_map : NameMap) where
  -- The blocks other than the first of the topological order are left as they are, whatever they
  -- take from NumPy.
  pub run_functions-other_blocks :
      (label other n : ℕ) (topo_order : List ℕ) (blocks blocks' : Blocks)
      (definitions : List (String × List Value)) (replaced : Option Bool)
      → run_functions unique_var function_name_map (label ∷ topo_order) blocks n definitions
        ≡ ok (blocks', replaced)
      → other ≢ label
      → get ℕ_discrete blocks' other ≡ get ℕ_discrete blocks other
  unfolding run_functions
  run_functions-other_blocks label other n topo_order blocks blocks' definitions replaced h ne =
      grind (arith, λ (b : List Stmt). get-set_ne ℕ_discrete blocks label other b ne)

  replaced_lem :
      (p : Progress) (target attr : String) → (replace unique_var p target attr).replaced ≡ true
  unfolding replace
  replaced_lem p target attr = refl

  same_lem :
      (p q : Progress) (body : List Stmt)
      → rewrite_body unique_var function_name_map p body ≡ ok q
      → q.replaced ≡ false
      → (p.replaced ≡ false) × (q.new_body ≡ p.new_body ++ body)
  unfolding rewrite_body replace
  same_lem p q [] h e =
      let same : p ≡ q = cc h in
      (rw same e, ap (λ r. r.new_body) (sym same) ∙ sym (append-nil p.new_body))
  same_lem p q (stmt ∷ body) h e =
      let (name, found, rest) =
        >>=-eq-ok (new_name function_name_map (p.done ++ stmt ∷ body) stmt) _ h in
      by_step stmt name (same_lem (rewrite_as unique_var p stmt name) q body rest e)
    where
      by_step :
          (stmt : Stmt) (name : Option String)
          → ((rewrite_as unique_var p stmt name).replaced ≡ false)
            × (q.new_body ≡ (rewrite_as unique_var p stmt name).new_body ++ body)
          → (p.replaced ≡ false) × (q.new_body ≡ p.new_body ++ stmt ∷ body)
      by_step (other_stmt n) name (r, s) = (r, s ∙ append_assoc p.new_body (other_stmt n ∷ []) body)
      by_step (assign target value) none (r, s) =
          (r, s ∙ append_assoc p.new_body (assign target value ∷ []) body)
      by_step (assign target value) (some name) (r, s) =
          absurd (true≢false (sym (replaced_lem p target name) ∙ r))

  first_lem :
      (label n : ℕ) (blocks blocks' : Blocks) (definitions : List (String × List Value))
      (entry : Option (List Stmt))
      → ◌≡◌ {A = Result (Blocks × Option Bool)}
          (elim entry [
            | none ↦ err key_error
            | some body ↦ (do
              p ← rewrite_body unique_var function_name_map (start n definitions) body
              ok (set ℕ_discrete blocks label p.new_body, some p.replaced))
          ])
          (ok (blocks', some false))
      → (body : List Stmt) × (entry ≡ some body) × (blocks' ≡ set ℕ_discrete blocks label body)
  first_lem label n blocks blocks' definitions none h = cc
  first_lem label n blocks blocks' definitions (some body) h =
      let (q, e, made) =
        >>=-eq-ok (rewrite_body unique_var function_name_map (start n definitions) body) _ h in
      let unchanged : q.new_body ≡ body = (same_lem (start n definitions) q body e (cc made)).1 in
      (body, refl, cc (made, unchanged))

  -- If the method answers that it replaced nothing, no block has changed.
  pub run_functions-not_replaced :
      (label other n : ℕ) (topo_order : List ℕ) (blocks blocks' : Blocks)
      (definitions : List (String × List Value))
      → run_functions unique_var function_name_map (label ∷ topo_order) blocks n definitions
        ≡ ok (blocks', some false)
      → get ℕ_discrete blocks' other ≡ get ℕ_discrete blocks other
  unfolding run_functions
  run_functions-not_replaced label other n topo_order blocks blocks' definitions h =
      let (body, found, made) =
        first_lem label n blocks blocks' definitions (get ℕ_discrete blocks label) h in
      elim (ℕ_discrete other label) [
        | yes same ↦ rw (made, same) (get-set ℕ_discrete blocks label body ∙ sym found)
        | no ne ↦
            run_functions-other_blocks label other n topo_order blocks blocks' definitions
              (some false) h ne
      ]
