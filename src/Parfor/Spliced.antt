-- ===== src/Parfor/Spliced.antt =====
-- A run through the blocks that splice_at joins, where the labels of the two parts are separate.
use numba_dppy.Prelude.{
  List, [], ap, arith, none, refl, some, subst, sym, ℕ, ◌++◌, ◌<◌, ◌∙◌, ◌∷◌, ◌≡◌, ◌≢◌,
}
use numba_dppy.Prelude.Dict.{get, get-set, get-set_ne, set}
use numba_dppy.Result.{>>=-eq-ok, key_error, ok, or_raise}
use numba_dppy.Parfor.Splice.{FlowBlocks, FlowInst, jump, max_label, min_label, splice_at, update}
use numba_dppy.Parfor.Labels.{found_lem}
use numba_dppy.Parfor.Flow.{FallsThrough, Runs, jumps, lift_lem}
use native.Mathlib.Decide.{ℕ_discrete}

-- No label twice.
abbrev pub IsDict : FlowBlocks → Type 0
IsDict [] = Unit {0}
IsDict ((label, body) ∷ blocks) = (get ℕ_discrete blocks label ≡ none) × IsDict blocks

pub get-update-none :
    (blocks loop_body : FlowBlocks) (l : ℕ)
    → get ℕ_discrete loop_body l ≡ none
    → get ℕ_discrete (update blocks loop_body) l ≡ get ℕ_discrete blocks l
unfolding update get
get-update-none blocks [] l h = refl
get-update-none blocks ((label, body) ∷ loop_body) l h =
    let ne : l ≢ label = λ e. ground (arith, h, e) in
    let rest : get ℕ_discrete loop_body l ≡ none = ground (arith, h) in
    get-update-none (set ℕ_discrete blocks label body) loop_body l rest
    ∙ get-set_ne ℕ_discrete blocks label l body ne

pub get-update-some :
    (blocks loop_body : FlowBlocks) (l : ℕ) (b : List FlowInst)
    → IsDict loop_body
    → get ℕ_discrete loop_body l ≡ some b
    → get ℕ_discrete (update blocks loop_body) l ≡ some b
unfolding update get
get-update-some blocks [] l b d h = cc h
get-update-some blocks ((label, body) ∷ loop_body) l b d h = elim (ℕ_discrete label l) [
  | yes same ↦
      let e : body ≡ b = ground (arith, h, same) in
      get-update-none (set ℕ_discrete blocks label body) loop_body l
        (ap (get ℕ_discrete loop_body) (sym same) ∙ d.0)
      ∙ ap (get ℕ_discrete (set ℕ_discrete blocks label body)) (sym same)
      ∙ get-set ℕ_discrete blocks label body
      ∙ ap some e
  | no ne ↦
      get-update-some (set ℕ_discrete blocks label body) loop_body l b d.1 (ground (arith, h, ne))
]

pub splice_at-returns :
    (blocks loop_body result : FlowBlocks) (new_label label first last : ℕ)
    (before after body : List FlowInst)
    → IsDict loop_body
    → min_label loop_body ≡ ok first
    → max_label loop_body ≡ ok last
    → get ℕ_discrete loop_body last ≡ some body
    → last ≢ label
    → last ≢ new_label
    → splice_at blocks loop_body new_label label before after ≡ ok result
    → result
      ≡ set ℕ_discrete
          (set ℕ_discrete
            (set ℕ_discrete (update blocks loop_body) new_label after)
            label
            (before ++ jump first ∷ []))
          last
          (body ++ jump new_label ∷ [])
unfolding splice_at
splice_at-returns blocks loop_body result new_label label first last before after body d e₁ e₂ e₃ n
      n' h =
    let (first', f₁, h₁) = >>=-eq-ok (min_label loop_body) _ h in
    let (last', f₂, h₂) = >>=-eq-ok (max_label loop_body) _ h₁ in
    let same₁ : first' ≡ first = cc (e₁, f₁) in
    let same₂ : last' ≡ last = cc (e₂, f₂) in
    let joined =
      set ℕ_discrete (set ℕ_discrete (update blocks loop_body) new_label after) label
        (before ++ jump first' ∷ []) in
    let (b, f₃, h₃) = >>=-eq-ok (or_raise (get ℕ_discrete joined last') key_error) _ h₂ in
    let found : get ℕ_discrete joined last ≡ some body =
      get-set_ne ℕ_discrete _ label last _ n
      ∙ get-set_ne ℕ_discrete (update blocks loop_body) new_label last after n'
      ∙ get-update-some blocks loop_body last body d e₃ in
    let b_is : b ≡ body = cc (found_lem _ _ f₃, found, same₂) in cc (h₃, b_is, same₁, same₂)

-- The kernel where the sentinel stood.
pub splice_at-Runs :
    (blocks loop_body result : FlowBlocks) (new_label label first last : ℕ)
    (before after body trace : List FlowInst)
    → IsDict loop_body
    → ((l : ℕ) (b : List FlowInst)
        → get ℕ_discrete loop_body l ≡ some b
        → (label < l) × (l < new_label))
    → min_label loop_body ≡ ok first
    → max_label loop_body ≡ ok last
    → get ℕ_discrete loop_body last ≡ some body
    → FallsThrough body
    → Runs loop_body first trace last
    → splice_at blocks loop_body new_label label before after ≡ ok result
    → Runs result label (before ++ (trace ++ body)) new_label
      × (get ℕ_discrete result new_label ≡ some after)
splice_at-Runs blocks loop_body result new_label label first last before after body trace d sep e₁
      e₂ e₃ falls run h =
    subst
      (λ r.
        Runs r label (before ++ (trace ++ body)) new_label
        × (get ℕ_discrete r new_label ≡ some after))
      (sym (
        splice_at-returns blocks loop_body result new_label label first last before after body d e₁
          e₂ e₃ ne ne' h))
      (
        jumps first before (trace ++ body)
            (get-set_ne ℕ_discrete joined last label (body ++ jump new_label ∷ []) (λ e. ne (sym e))
              ∙ get-set ℕ_discrete _ label (before ++ jump first ∷ []))
            (lift_lem loop_body final first last new_label trace body e₃ falls same
              (get-set ℕ_discrete joined last (body ++ jump new_label ∷ [])) run),
        get-set_ne ℕ_discrete joined last new_label (body ++ jump new_label ∷ []) (λ e. ne' (sym e))
            ∙ get-set_ne ℕ_discrete with_after label new_label (before ++ jump first ∷ [])
                (λ e. omega (arith, sep last body e₃, e))
            ∙ get-set ℕ_discrete (update blocks loop_body) new_label after,
      )
  where
    with_after : FlowBlocks
    with_after = set ℕ_discrete (update blocks loop_body) new_label after

    joined : FlowBlocks
    joined = set ℕ_discrete with_after label (before ++ jump first ∷ [])

    final : FlowBlocks
    final = set ℕ_discrete joined last (body ++ jump new_label ∷ [])

    ne : last ≢ label
    ne = λ e. omega (arith, sep last body e₃, e)

    ne' : last ≢ new_label
    ne' = λ e. omega (arith, sep last body e₃, e)

    same :
        (l : ℕ) (b : List FlowInst)
        → l ≢ last
        → get ℕ_discrete loop_body l ≡ some b
        → get ℕ_discrete final l ≡ some b
    same l b n found =
        get-set_ne ℕ_discrete joined last l (body ++ jump new_label ∷ []) n
        ∙ get-set_ne ℕ_discrete with_after label l (before ++ jump first ∷ [])
            (λ e. omega (arith, sep l b found, e))
        ∙ get-set_ne ℕ_discrete (update blocks loop_body) new_label l after
            (λ e. omega (arith, sep l b found, e))
        ∙ get-update-some blocks loop_body l b d found
