-- ===== src/Parfor/Joined.antt =====
-- The blocks that `_create_gufunc_for_parfor_body` of numba_dppy/core/passes/dppy_lowerer.py joins:
-- the kernel runs what stands before the sentinel, the loop body, and what stands after it.
use numba_dppy.Prelude.{
  List, String, [], arith, none, some, subst, subst₂, ℕ, ◌++◌, ◌+◌, ◌<◌, ◌∷◌, ◌≡◌, ◌≤◌,
}
use numba_dppy.Prelude.Dict.{get}
use numba_dppy.Result.{>>=-eq-ok, key_error, ok, or_raise}
use numba_dppy.Parfor.Splice.{
  FlowBlocks, FlowInst, find_sentinel, has_last, insert_loop_body, max_label, min_label, splice_at,
  unwrap_loop_body, wrap_loop_body,
}
use numba_dppy.Parfor.Labels.{max_label-le, unwrap_loop_body-wrap_loop_body}
use numba_dppy.Parfor.Flow.{FallsThrough, Runs}
use numba_dppy.Parfor.Spliced.{IsDict, splice_at-Runs}
use native.Mathlib.Decide.{ℕ_discrete}

sentinel_lem :
    (sentinel_name : String) (blocks : FlowBlocks) (label m : ℕ) (before after : List FlowInst)
    → find_sentinel sentinel_name blocks ≡ some (label, (before, after))
    → max_label blocks ≡ ok m
    → label ≤ m
sentinel_lem s [] label m before after h e = cc h
sentinel_lem s ((l, b) ∷ []) label m before after h e = ground arith
sentinel_lem s ((l, b) ∷ (l', b') ∷ blocks) label m before after h e =
    let (other, e', made) = >>=-eq-ok (max_label ((l', b') ∷ blocks)) _ e in
    ground (arith, sentinel_lem s ((l', b') ∷ blocks) label other before after)

-- The labels of the loop body, with the offset, are those above all of the outline.
separate_lem :
    (body : FlowBlocks) (stub label last : ℕ)
    → ((l : ℕ) (b : List FlowInst) → get ℕ_discrete body l ≡ some b → stub + 1 ≤ l)
    → label ≤ stub
    → max_label body ≡ ok last
    → (l : ℕ) (b : List FlowInst) → get ℕ_discrete body l ≡ some b
    → (label < l) × (l < last + 1)
separate_lem body stub label last above le e l b found =
    (omega (arith, above l b found), omega (arith, max_label-le body last l b e found))

inserted_lem :
    (add_offset : FlowBlocks → ℕ → FlowBlocks) (sentinel_name : String)
    (outline loop_body result : FlowBlocks) (stub label last : ℕ) (before after : List FlowInst)
    → max_label outline ≡ ok stub
    → max_label (add_offset loop_body (stub + 1)) ≡ ok last
    → find_sentinel sentinel_name outline ≡ some (label, (before, after))
    → insert_loop_body add_offset sentinel_name outline loop_body ≡ ok result
    → splice_at outline (add_offset loop_body (stub + 1)) (last + 1) label before after ≡ ok result
unfolding insert_loop_body
inserted_lem add_offset sentinel_name outline loop_body result stub label last before after e₁ e₂
      found h =
    let (stub', f₁, h₁) = >>=-eq-ok (max_label outline) _ h in
    let same₁ : stub' ≡ stub = cc (e₁, f₁) in
    let body' = add_offset loop_body (stub' + 1) in
    let (last', f₂, h₂) = >>=-eq-ok (max_label body') _ h₁ in
    let (wrapped, f₃, h₃) = >>=-eq-ok (wrap_loop_body body') _ h₂ in
    let (start, f₄, h₄) = >>=-eq-ok (min_label outline) _ h₃ in
    let (b, f₅, h₅) = >>=-eq-ok (or_raise (get ℕ_discrete outline start) key_error) _ h₄ in
    let (u, f₆, h₆) = >>=-eq-ok (has_last b) _ h₅ in
    let (unwrapped, f₇, h₇) = >>=-eq-ok (unwrap_loop_body wrapped) _ h₆ in
    let again : unwrap_loop_body wrapped ≡ ok body' =
      unwrap_loop_body-wrap_loop_body body' wrapped f₃ in
    let same₃ : unwrapped ≡ body' = cc (again, f₇) in
    let same₂ : last' ≡ last = cc (e₂, f₂, same₁) in
    let there : splice_at outline unwrapped (last' + 1) label before after ≡ ok result =
      subst
        (λ o.
          elim o [
            | none ↦ ok outline
            | some (label, (before, after)) ↦
                splice_at outline unwrapped (last' + 1) label before after
          ]
          ≡ ok result)
        found h₇ in
    subst₂
      (λ s x.
        splice_at outline (add_offset loop_body (s + 1)) (x + 1) label before after ≡ ok result)
      same₁ same₂
      (subst (λ x. splice_at outline x (last' + 1) label before after ≡ ok result) same₃ there)

-- If `add_offset` makes a dict whose labels are not below the offset, the sentinel stands in block
-- `label` between `before` and `after`, the last block of the loop body falls through, and the loop body
-- can be run from its first block to the start of its last with statements `trace`, then the blocks that
-- are joined can be run from block `label` with `before`, `trace` and the last block to the new block, in
-- which `after` stands.
pub insert_loop_body-Runs :
    (add_offset : FlowBlocks → ℕ → FlowBlocks) (sentinel_name : String)
    (outline loop_body result : FlowBlocks) (stub label first last : ℕ)
    (before after body trace : List FlowInst)
    → max_label outline ≡ ok stub
    → IsDict (add_offset loop_body (stub + 1))
    → ((l : ℕ) (b : List FlowInst)
        → get ℕ_discrete (add_offset loop_body (stub + 1)) l ≡ some b
        → stub + 1 ≤ l)
    → min_label (add_offset loop_body (stub + 1)) ≡ ok first
    → max_label (add_offset loop_body (stub + 1)) ≡ ok last
    → get ℕ_discrete (add_offset loop_body (stub + 1)) last ≡ some body
    → FallsThrough body
    → find_sentinel sentinel_name outline ≡ some (label, (before, after))
    → Runs (add_offset loop_body (stub + 1)) first trace last
    → insert_loop_body add_offset sentinel_name outline loop_body ≡ ok result
    → Runs result label (before ++ (trace ++ body)) (last + 1)
      × (get ℕ_discrete result (last + 1) ≡ some after)
insert_loop_body-Runs add_offset sentinel_name outline loop_body result stub label first last before
      after body trace e d above e₁ e₂ e₃ falls found run h =
    splice_at-Runs outline (add_offset loop_body (stub + 1)) result (last + 1) label first last
      before after body trace d
      (separate_lem (add_offset loop_body (stub + 1)) stub label last above
        (sentinel_lem sentinel_name outline label stub before after found e) e₂)
      e₁ e₂ e₃ falls run
      (inserted_lem add_offset sentinel_name outline loop_body result stub label last before after e
        e₂ found h)
