-- ===== src/Parfor/Flow.antt =====
-- The control flow of the kernel that `_create_gufunc_for_parfor_body` of
-- numba_dppy/core/passes/dppy_lowerer.py joins from the outline and the loop body.
use numba_dppy.Prelude.{List, Option, [], ap, some, subst, sym, ℕ, ◌++◌, ◌∙◌, ◌∷◌, ◌≡◌, ◌≢◌}
use numba_dppy.Prelude.Dict.{get}
use numba_dppy.Parfor.Splice.{FlowBlocks, FlowInst, branch, jump}
use native.Mathlib.Decide.{ℕ_discrete}
use mathlib.Core.List.{append-nil, append_assoc}

-- From the start of a block to the start of another, with the statements on the way, without the
-- jumps and branches.
pub data Runs (blocks : FlowBlocks) : ℕ → List FlowInst → ℕ → Type 0 where
  here : {l : ℕ} → Runs blocks l [] l
  jumps :
      {l l'' : ℕ} (l' : ℕ) (done trace : List FlowInst)
      → get ℕ_discrete blocks l ≡ some (done ++ jump l' ∷ [])
      → Runs blocks l' trace l''
      → Runs blocks l (done ++ trace) l''
  branches_left :
      {l l'' : ℕ} (a b : ℕ) (done trace : List FlowInst)
      → get ℕ_discrete blocks l ≡ some (done ++ branch a b ∷ [])
      → Runs blocks a trace l''
      → Runs blocks l (done ++ trace) l''
  branches_right :
      {l l'' : ℕ} (a b : ℕ) (done trace : List FlowInst)
      → get ℕ_discrete blocks l ≡ some (done ++ branch a b ∷ [])
      → Runs blocks b trace l''
      → Runs blocks l (done ++ trace) l''

-- The block is left by nothing that stands in it.
abbrev pub FallsThrough : List FlowInst → Type 0
FallsThrough body =
    ((done : List FlowInst) (l : ℕ) → body ≢ done ++ jump l ∷ [])
    × ((done : List FlowInst) (a b : ℕ) → body ≢ done ++ branch a b ∷ [])

some-eq : {a b : List FlowInst} → ◌≡◌ {A = Option (List FlowInst)} (some a) (some b) → a ≡ b
some-eq e = cc e

-- Blocks that agree on all but the last block of a run take it too, and go on from there.
pub lift_lem :
    (blocks blocks' : FlowBlocks) (first last next : ℕ) (trace body : List FlowInst)
    → get ℕ_discrete blocks last ≡ some body
    → FallsThrough body
    → ((l : ℕ) (b : List FlowInst)
        → l ≢ last
        → get ℕ_discrete blocks l ≡ some b
        → get ℕ_discrete blocks' l ≡ some b)
    → get ℕ_discrete blocks' last ≡ some (body ++ jump next ∷ [])
    → Runs blocks first trace last
    → Runs blocks' first (trace ++ body) next
lift_lem blocks blocks' first last next trace body e falls same e' here =
    subst (λ t. Runs blocks' first t next) (append-nil body) (jumps next body [] e' here)
lift_lem blocks blocks' first last next trace body e falls same e' (jumps l' done rest at run) =
    subst (λ t. Runs blocks' first t next) (sym (append_assoc done rest body))
      (jumps l' done _
        (same first _
          (λ p. falls.0 done l' (some-eq (sym e ∙ ap (get ℕ_discrete blocks) (sym p) ∙ at))) at)
        (lift_lem blocks blocks' l' last next rest body e falls same e' run))
lift_lem blocks blocks' first last next trace body e falls same e'
      (branches_left a b done rest at run) =
    subst (λ t. Runs blocks' first t next) (sym (append_assoc done rest body))
      (branches_left a b done _
        (same first _
          (λ p. falls.1 done a b (some-eq (sym e ∙ ap (get ℕ_discrete blocks) (sym p) ∙ at))) at)
        (lift_lem blocks blocks' a last next rest body e falls same e' run))
lift_lem blocks blocks' first last next trace body e falls same e'
      (branches_right a b done rest at run) =
    subst (λ t. Runs blocks' first t next) (sym (append_assoc done rest body))
      (branches_right a b done _
        (same first _
          (λ p. falls.1 done a b (some-eq (sym e ∙ ap (get ℕ_discrete blocks) (sym p) ∙ at))) at)
        (lift_lem blocks blocks' b last next rest body e falls same e' run))
