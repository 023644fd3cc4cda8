-- ===== src/Parfor/Stores.antt =====
-- One instruction of a block before and after `replace_var_with_array` of
-- numba_dppy/core/passes/dppy_lowerer.py.
use numba_dppy.Prelude.{
  Bool, Bool-cases, List, String, ap, arith, eq_iff, false, inl, inr, not, refl, str_eq, subst, sym,
  true, ℕ, ◌&&◌, ◌||◌, ◌∙◌, ◌≡◌, ◌≢◌,
}
use numba_dppy.Result.{>>=-eq-ok, Result, ok, ◌>>=◌}
use numba_dppy.Access.{contains}
use numba_dppy.Parfor.Body.{
  Block, Inst, IrValue, LoopBody, TypeState, assign_inst, const_value, const_var, inst_then,
  replace_in_block, replace_internal, set_item, store_types,
}
use numba_dppy.Parfor.Races.{
  assigns_block, assigns_body, assigns_inst, sets_block, sets_body, sets_inst,
}

-- With `c` whether it is such a variable, `s` and `a` whether its items were set and whether it was
-- assigned, and the same of the new code.
abbrev pub IsReplaced : Bool → Bool → Bool → Bool → Bool → Type 0
IsReplaced c s a s' a' = (s' ≡ (s || (c && a))) × (c ≡ true → a' ≡ false)

pub join_lem :
    (c s₁ a₁ s₁' a₁' s₂ a₂ s₂' a₂' : Bool)
    → IsReplaced c s₁ a₁ s₁' a₁'
    → IsReplaced c s₂ a₂ s₂' a₂'
    → IsReplaced c (s₁ || s₂) (a₁ || a₂) (s₁' || s₂') (a₁' || a₂')
join_lem true s₁ a₁ s₁' a₁' s₂ a₂ s₂' a₂' (e, f) (e', f') =
    let g : a₁' ≡ false = f refl in
    let g' : a₂' ≡ false = f' refl in (ground (arith, e, e'), λ c. ground (arith, g, g'))
join_lem false s₁ a₁ s₁' a₁' s₂ a₂ s₂' a₂' (e, f) (e', f') = (ground (arith, e, e'), λ c. cc c)

pub same_lem : (c s : Bool) → IsReplaced c s false s false
same_lem true true = (refl, λ c. refl)
same_lem true false = (refl, λ c. refl)
same_lem false true = (refl, λ c. refl)
same_lem false false = (refl, λ c. refl)

module _ (unique_var : String → ℕ → String) (vars : List String) where
  other_lem :
      (v name : String) (b : Bool)
      → contains vars v ≡ b
      → contains vars name ≡ not b
      → str_eq v name ≡ false
  other_lem v name b h h' = elim (Bool-cases (str_eq v name)) [
    | inl same ↦ absurd (not_ne b (sym h ∙ ap (contains vars) ((eq_iff v name).0 same) ∙ h'))
    | inr other ↦ other
  ]
    where
      not_ne : (b : Bool) → b ≢ not b
      not_ne true e = cc e
      not_ne false e = cc e

  -- the two new instructions, for one that assigned one of the variables
  stored_lem :
      (v target const : String)
      → contains vars target ≡ true
      → contains vars const ≡ false
      → IsReplaced (contains vars v) false (str_eq v target) (str_eq v target) (str_eq v const)
  stored_lem v target const h h' = elim (Bool-cases (contains vars v)) [
    | inl yes_v ↦ (sym (ap (λ c. c && str_eq v target) yes_v), λ _. other_lem v const true yes_v h')
    | inr no_v ↦ (
      other_lem v target false no_v h ∙ sym (ap (λ c. c && str_eq v target) no_v),
      λ yes_v. other_lem v const true yes_v h',
    )
  ]

  -- an assignment of another variable
  assigned_lem :
      (v target : String)
      → contains vars target ≡ false
      → IsReplaced (contains vars v) false (str_eq v target) false (str_eq v target)
  assigned_lem v target h = elim (Bool-cases (contains vars v)) [
    | inl yes_v ↦ (
      sym (ap (λ c. c && str_eq v target) yes_v ∙ other_lem v target true yes_v h),
      λ _. other_lem v target true yes_v h,
    )
    | inr no_v ↦
        (sym (ap (λ c. c && str_eq v target) no_v), λ yes_v. other_lem v target true yes_v h)
  ]

  abbrev pub BlockIsReplaced : String → Block → Type 0
  BlockIsReplaced v block =
      (block' : Block) (st st' : TypeState)
      → replace_in_block unique_var vars block st ≡ ok (block', st')
      → IsReplaced (contains vars v) (sets_block v block) (assigns_block v block)
          (sets_block v block') (assigns_block v block')

  abbrev pub BodyIsReplaced : String → LoopBody → Type 0
  BodyIsReplaced v body =
      (body' : LoopBody) (st st' : TypeState)
      → replace_internal unique_var vars body st ≡ ok (body', st')
      → IsReplaced (contains vars v) (sets_body v body) (assigns_body v body) (sets_body v body')
          (assigns_body v body')

  stored_block :
      (v target : String) (value : IrValue) (block : Block)
      → ((prefix : String) (n : ℕ) → contains vars (unique_var prefix n) ≡ false)
      → contains vars target ≡ true
      → BlockIsReplaced v block
      → (block' : Block) (st st' : TypeState)
      → ◌≡◌ {A = Result (Block × TypeState)}
          (do
            s ← store_types unique_var vars st target
            (rest, after) ← replace_in_block unique_var vars block s
            ok (
              inst_then
                  (assign_inst (const_var unique_var vars st.next_id) (const_value 0))
                  (inst_then (set_item target (const_var unique_var vars st.next_id) value) rest),
              after,
            ))
          (ok (block', st'))
      → IsReplaced
          (contains vars v)
          (sets_block v block)
          (str_eq v target || assigns_block v block)
          (sets_block v block')
          (assigns_block v block')
  unfolding sets_block assigns_block
  stored_block v target value block fresh e ih block' st st' h =
      let (s, e₁, h₁) = >>=-eq-ok (store_types unique_var vars st target) _ h in
      let (p, e₂, h₂) = >>=-eq-ok (replace_in_block unique_var vars block s) _ h₁ in
      let const = const_var unique_var vars st.next_id in
      let made : inst_then (assign_inst const (const_value 0))
            (inst_then (set_item target const value) p.0)
          ≡ block' =
        cc h₂ in
      subst
        (λ b.
          IsReplaced (contains vars v) (sets_block v block)
            (str_eq v target || assigns_block v block) (sets_block v b) (assigns_block v b))
        made
        (join_lem (contains vars v) false (str_eq v target) (str_eq v target) (str_eq v const)
          (sets_block v block) (assigns_block v block) (sets_block v p.0) (assigns_block v p.0)
          (stored_lem v target const e (fresh "$const_ind_0" st.next_id)) (ih p.0 s p.1 e₂))

  -- an instruction that is kept, or a parfor that is rewritten
  pub kept_block :
      (v : String) (inst inst' : Inst) (block block' : Block) (s s' st' : TypeState)
      → BlockIsReplaced v block
      → IsReplaced
          (contains vars v)
          (sets_inst v inst)
          (assigns_inst v inst)
          (sets_inst v inst')
          (assigns_inst v inst')
      → ◌≡◌ {A = Result (Block × TypeState)}
          (do
            (rest, after) ← replace_in_block unique_var vars block s
            ok (inst_then inst' rest, after))
          (ok (block', st'))
      → IsReplaced
          (contains vars v)
          (sets_block v (inst_then inst block))
          (assigns_block v (inst_then inst block))
          (sets_block v block')
          (assigns_block v block')
  unfolding sets_block assigns_block
  kept_block v inst inst' block block' s s' st' ih r h =
      let (p, e, h₁) = >>=-eq-ok (replace_in_block unique_var vars block s) _ h in
      let made : inst_then inst' p.0 ≡ block' = cc h₁ in
      subst
        (λ b.
          IsReplaced (contains vars v) (sets_block v (inst_then inst block))
            (assigns_block v (inst_then inst block)) (sets_block v b) (assigns_block v b))
        made
        (join_lem (contains vars v) (sets_inst v inst) (assigns_inst v inst) (sets_inst v inst')
          (assigns_inst v inst') (sets_block v block) (assigns_block v block) (sets_block v p.0)
          (assigns_block v p.0) r (ih p.0 s p.1 e))

  pub assign_block :
      (v target : String) (value : IrValue) (block block' : Block) (st st' : TypeState) (b : Bool)
      → ((prefix : String) (n : ℕ) → contains vars (unique_var prefix n) ≡ false)
      → contains vars target ≡ b
      → BlockIsReplaced v block
      → ◌≡◌ {A = Result (Block × TypeState)}
          (elim b [
            | true ↦ (do
              s ← store_types unique_var vars st target
              (rest, after) ← replace_in_block unique_var vars block s
              ok (
                inst_then
                    (assign_inst (const_var unique_var vars st.next_id) (const_value 0))
                    (inst_then (set_item target (const_var unique_var vars st.next_id) value) rest),
                after,
              ))
            | false ↦ (do
              (rest, after) ← replace_in_block unique_var vars block st
              ok (inst_then (assign_inst target value) rest, after))
          ])
          (ok (block', st'))
      → IsReplaced
          (contains vars v)
          (sets_block v (inst_then (assign_inst target value) block))
          (assigns_block v (inst_then (assign_inst target value) block))
          (sets_block v block')
          (assigns_block v block')
  unfolding sets_block assigns_block
  assign_block v target value block block' st st' true fresh e ih h =
      stored_block v target value block fresh e ih block' st st' h
  assign_block v target value block block' st st' false fresh e ih h =
      kept_block v (assign_inst target value) (assign_inst target value) block block' st st st' ih
        (assigned_lem v target e) h
