-- ===== src/Parfor/Replaced.antt =====
-- The variables that several work items may write, after `replace_var_with_array` of
-- numba_dppy/core/passes/dppy_lowerer.py: their items are set where they were assigned.
use numba_dppy.Prelude.{
  List, String, [], ap, false, refl, str_eq, subst, sym, true, ℕ, ◌&&◌, ◌||◌, ◌∙◌, ◌≡◌,
}
use numba_dppy.Result.{>>=-eq-ok, ok}
use numba_dppy.Access.{contains}
use numba_dppy.Parfor.Body.{
  Block, LoopBody, TypeState, array_types, assign_inst, end_block, find_setitems_body, inst_then,
  labelled, no_blocks, other_inst, parfor_inst, replace_in_block, replace_internal,
  replace_var_with_array, set_item, static_set_item,
}
use numba_dppy.Parfor.Races.{assigns_block, assigns_body, found_in_body, sets_block, sets_body}
use numba_dppy.Parfor.Stores.{
  BlockIsReplaced, BodyIsReplaced, IsReplaced, assign_block, join_lem, kept_block, same_lem,
}

module _ (unique_var : String → ℕ → String) (vars : List String) where
  mutual
    unfolding replace_in_block assigns_block sets_block

    replaced_block :
        (v : String) (block : Block)
        → ((prefix : String) (n : ℕ) → contains vars (unique_var prefix n) ≡ false)
        → BlockIsReplaced unique_var vars v block
    replaced_block v end_block fresh block' st st' h =
        let made : end_block ≡ block' = cc h in
        subst (λ b. IsReplaced (contains vars v) false false (sets_block v b) (assigns_block v b))
          made (same_lem (contains vars v) false)
    replaced_block v (inst_then (assign_inst target value) block) fresh block' st st' h =
        assign_block unique_var vars v target value block block' st st' (contains vars target) fresh
          refl (replaced_block v block fresh) h
    replaced_block v (inst_then (set_item target index value) block) fresh block' st st' h =
        kept_block unique_var vars v (set_item target index value) (set_item target index value)
          block block' st st st' (replaced_block v block fresh)
          (same_lem (contains vars v) (str_eq v target)) h
    replaced_block v (inst_then (static_set_item target index value) block) fresh block' st st' h =
        kept_block unique_var vars v (static_set_item target index value)
          (static_set_item target index value) block block' st st st' (replaced_block v block fresh)
          (same_lem (contains vars v) (str_eq v target)) h
    replaced_block v (inst_then (other_inst n) block) fresh block' st st' h =
        kept_block unique_var vars v (other_inst n) (other_inst n) block block' st st st'
          (replaced_block v block fresh) (same_lem (contains vars v) false) h
    replaced_block v (inst_then (parfor_inst init_block loop_body) block) fresh block' st st' h =
        let (p, e₁, h₁) = >>=-eq-ok (replace_in_block unique_var vars init_block st) _ h in
        let (q, e₂, h₂) = >>=-eq-ok (replace_internal unique_var vars loop_body p.1) _ h₁ in
        kept_block unique_var vars v (parfor_inst init_block loop_body) (parfor_inst p.0 q.0) block
          block' q.1 q.1 st' (replaced_block v block fresh)
          (join_lem (contains vars v) (sets_block v init_block) (assigns_block v init_block)
            (sets_block v p.0) (assigns_block v p.0) (sets_body v loop_body)
            (assigns_body v loop_body) (sets_body v q.0) (assigns_body v q.0)
            (replaced_block v init_block fresh p.0 st p.1 e₁)
            (replaced_body v loop_body fresh q.0 p.1 q.1 e₂))
          h₂

    replaced_body :
        (v : String) (body : LoopBody)
        → ((prefix : String) (n : ℕ) → contains vars (unique_var prefix n) ≡ false)
        → BodyIsReplaced unique_var vars v body
    replaced_body v no_blocks fresh body' st st' h =
        let made : no_blocks ≡ body' = cc h in
        subst (λ b. IsReplaced (contains vars v) false false (sets_body v b) (assigns_body v b))
          made (same_lem (contains vars v) false)
    replaced_body v (labelled label block body) fresh body' st st' h =
        let (p, e₁, h₁) = >>=-eq-ok (replace_in_block unique_var vars block st) _ h in
        let (q, e₂, h₂) = >>=-eq-ok (replace_internal unique_var vars body p.1) _ h₁ in
        let made : labelled label p.0 q.0 ≡ body' = cc h₂ in
        subst
          (λ b.
            IsReplaced (contains vars v) (sets_body v (labelled label block body))
              (assigns_body v (labelled label block body)) (sets_body v b) (assigns_body v b))
          made
          (join_lem (contains vars v) (sets_block v block) (assigns_block v block)
            (sets_block v p.0) (assigns_block v p.0) (sets_body v body) (assigns_body v body)
            (sets_body v q.0) (assigns_body v q.0) (replaced_block v block fresh p.0 st p.1 e₁)
            (replaced_body v body fresh q.0 p.1 q.1 e₂))

  in_body :
      (body body' : LoopBody) (st st' : TypeState)
      → replace_var_with_array unique_var vars body st ≡ ok (body', st')
      → (s : TypeState) × (replace_internal unique_var vars body st ≡ ok (body', s))
  unfolding replace_var_with_array
  in_body body body' st st' h =
      let (p, e, h₁) = >>=-eq-ok (replace_internal unique_var vars body st) _ h in
      let (typemap, e₂, h₂) = >>=-eq-ok (array_types vars p.1.typemap) _ h₁ in
      let same : p.0 ≡ body' = cc h₂ in
      (p.1, subst (λ b. replace_internal unique_var vars body st ≡ ok (b, p.1)) same e)

  -- If `unique_var` makes none of the variables and the replacement succeeds, none of the variables is
  -- assigned in the new body any more, at any depth of nested parfors.
  pub replace_var_with_array-assigns :
      (v : String) (body body' : LoopBody) (st st' : TypeState)
      → ((prefix : String) (n : ℕ) → contains vars (unique_var prefix n) ≡ false)
      → replace_var_with_array unique_var vars body st ≡ ok (body', st')
      → contains vars v ≡ true
      → assigns_body v body' ≡ false
  replace_var_with_array-assigns v body body' st st' fresh h c =
      let (s, e) = in_body body body' st st' h in (replaced_body v body fresh body' st s e).1 c

  -- If `unique_var` makes none of the variables and the replacement succeeds, the arrays that are then
  -- found as written are those that were found before, and the variables that were assigned.
  pub find_setitems_body-replace_var_with_array :
      (v : String) (body body' : LoopBody) (st st' : TypeState)
      → ((prefix : String) (n : ℕ) → contains vars (unique_var prefix n) ≡ false)
      → replace_var_with_array unique_var vars body st ≡ ok (body', st')
      → contains (find_setitems_body [] body') v
        ≡ (contains (find_setitems_body [] body) v || (contains vars v && assigns_body v body))
  find_setitems_body-replace_var_with_array v body body' st st' fresh h =
      let (s, e) = in_body body body' st st' h in
      found_in_body v [] body'
      ∙ (replaced_body v body fresh body' st s e).0
      ∙ ap (λ b. b || (contains vars v && assigns_body v body)) (sym (found_in_body v [] body))
