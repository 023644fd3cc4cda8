-- ===== src/Parfor/Labels.antt =====
-- The labels of blocks, and the jump that `wrap_loop_body` of
-- numba_dppy/core/passes/dppy_lowerer.py adds and `unwrap_loop_body` takes away.
use numba_dppy.Prelude.{
  List, Option, Option-cases, [], ap, arith, inl, inr, none, refl, some, subst, ℕ, ◌++◌, ◌∙◌, ◌∷◌,
  ◌≡◌, ◌≤◌,
}
use numba_dppy.Prelude.Dict.{get, get-set, set, set-get, set-set}
use numba_dppy.Result.{>>=-eq-ok, key_error, ok, or_raise, ◌>>=◌}
use numba_dppy.Parfor.Splice.{
  FlowBlocks, FlowInst, but_last, jump, larger, max_label, min_label, smaller, unwrap_loop_body,
  wrap_loop_body,
}
use native.Mathlib.Decide.{ℕ_discrete}

pub max-get :
    (label : ℕ) (body : List FlowInst) (blocks : FlowBlocks) (m : ℕ)
    → max_label ((label, body) ∷ blocks) ≡ ok m
    → ¬ (get ℕ_discrete ((label, body) ∷ blocks) m ≡ none)
unfolding get
max-get label body [] m h = ground arith
max-get label body ((l, b) ∷ blocks) m h =
    let (other, e, made) = >>=-eq-ok (max_label ((l, b) ∷ blocks)) _ h in
    ground (arith, max-get l b blocks other e)

pub max_label-le :
    (blocks : FlowBlocks) (m l : ℕ) (body : List FlowInst)
    → max_label blocks ≡ ok m
    → get ℕ_discrete blocks l ≡ some body
    → l ≤ m
unfolding get
max_label-le [] m l body h e = cc h
max_label-le ((label, b) ∷ []) m l body h e = ground arith
max_label-le ((label, b) ∷ (l', b') ∷ blocks) m l body h e =
    let (other, e', made) = >>=-eq-ok (max_label ((l', b') ∷ blocks)) _ h in
    ground (arith, max_label-le ((l', b') ∷ blocks) other l body e')

pub min_label-le :
    (blocks : FlowBlocks) (m l : ℕ) (body : List FlowInst)
    → min_label blocks ≡ ok m
    → get ℕ_discrete blocks l ≡ some body
    → m ≤ l
unfolding get
min_label-le [] m l body h e = cc h
min_label-le ((label, b) ∷ []) m l body h e = ground arith
min_label-le ((label, b) ∷ (l', b') ∷ blocks) m l body h e =
    let (other, e', made) = >>=-eq-ok (min_label ((l', b') ∷ blocks)) _ h in
    ground (arith, min_label-le ((l', b') ∷ blocks) other l body e')

pub max_label-set :
    (blocks : FlowBlocks) (l : ℕ) (body body' : List FlowInst)
    → get ℕ_discrete blocks l ≡ some body
    → max_label (set ℕ_discrete blocks l body') ≡ max_label blocks
unfolding get set
max_label-set [] l body body' e = ground arith
max_label-set ((label, b) ∷ []) l body body' e = ground arith
max_label-set ((label, b) ∷ (l', b') ∷ blocks) l body body' e =
    ground (arith, max_label-set ((l', b') ∷ blocks) l body body')

but_last-append {ℓ} : {A : Type ℓ} (xs : List A) (x : A) → but_last (xs ++ x ∷ []) ≡ xs
but_last-append [] x = refl
but_last-append (y ∷ []) x = refl
but_last-append (y ∷ z ∷ xs) x = ap (λ ys. y ∷ ys) (but_last-append (z ∷ xs) x)

pub found_lem :
    (o : Option (List FlowInst)) (body : List FlowInst)
    → or_raise o key_error ≡ ok body
    → o ≡ some body
found_lem none body h = cc h
found_lem (some b) body h = cc h

unwrap_lem :
    (w : FlowBlocks) (m : ℕ) (b : List FlowInst)
    → max_label w ≡ ok m
    → get ℕ_discrete w m ≡ some b
    → unwrap_loop_body w ≡ ok (set ℕ_discrete w m (but_last b))
unfolding unwrap_loop_body
unwrap_lem w m b h e = ground (arith, h, e)

pub unwrap_loop_body-wrap_loop_body :
    (loop_body wrapped : FlowBlocks)
    → wrap_loop_body loop_body ≡ ok wrapped
    → unwrap_loop_body wrapped ≡ ok loop_body
unfolding wrap_loop_body
unwrap_loop_body-wrap_loop_body loop_body wrapped h =
    let (first, e₁, h₁) = >>=-eq-ok (min_label loop_body) _ h in
    let (last, e₂, h₂) = >>=-eq-ok (max_label loop_body) _ h₁ in
    let (body, e₃, h₃) = >>=-eq-ok (or_raise (get ℕ_discrete loop_body last) key_error) _ h₂ in
    let found = found_lem (get ℕ_discrete loop_body last) body e₃ in
    let long = body ++ jump first ∷ [] in
    let made : set ℕ_discrete loop_body last long ≡ wrapped = cc h₃ in
    subst (λ w. unwrap_loop_body w ≡ ok loop_body) made
      (unwrap_lem (set ℕ_discrete loop_body last long) last long
          (max_label-set loop_body last body long found ∙ e₂)
          (get-set ℕ_discrete loop_body last long)
        ∙ ap ok (
            ap (set ℕ_discrete (set ℕ_discrete loop_body last long) last)
              (but_last-append body (jump first))
            ∙ set-set ℕ_discrete loop_body last long body
            ∙ set-get ℕ_discrete loop_body last body found))

max_label-returns :
    (label : ℕ) (body : List FlowInst) (blocks : FlowBlocks)
    → (m : ℕ) × (max_label ((label, body) ∷ blocks) ≡ ok m)
max_label-returns label body [] = (label, refl)
max_label-returns label body ((l, b) ∷ blocks) =
    let (m, e) = max_label-returns l b blocks in
    (larger label m, ap (λ r. r >>= λ other. ok (larger label other)) e)

min_label-returns :
    (label : ℕ) (body : List FlowInst) (blocks : FlowBlocks)
    → (m : ℕ) × (min_label ((label, body) ∷ blocks) ≡ ok m)
min_label-returns label body [] = (label, refl)
min_label-returns label body ((l, b) ∷ blocks) =
    let (m, e) = min_label-returns l b blocks in
    (smaller label m, ap (λ r. r >>= λ other. ok (smaller label other)) e)

wrap_lem :
    (blocks : FlowBlocks) (first m : ℕ) (b : List FlowInst)
    → min_label blocks ≡ ok first
    → max_label blocks ≡ ok m
    → get ℕ_discrete blocks m ≡ some b
    → wrap_loop_body blocks ≡ ok (set ℕ_discrete blocks m (b ++ jump first ∷ []))
unfolding wrap_loop_body
wrap_lem blocks first m b h h' e = ground (arith, h, h', e)

-- Of a loop body that has a block, `wrap_loop_body` makes one, and of that `unwrap_loop_body` makes
-- the loop body again.
pub wrap_loop_body-returns :
    (label : ℕ) (body : List FlowInst) (blocks : FlowBlocks)
    → (wrapped : FlowBlocks) × (wrap_loop_body ((label, body) ∷ blocks) ≡ ok wrapped)
      × (unwrap_loop_body wrapped ≡ ok ((label, body) ∷ blocks))
wrap_loop_body-returns label body blocks =
    let (first, e₁) = min_label-returns label body blocks in
    let (last, e₂) = max_label-returns label body blocks in
    elim (Option-cases (get ℕ_discrete ((label, body) ∷ blocks) last)) [
      | inl absent ↦ absurd (max-get label body blocks last e₂ absent)
      | inr (b, found) ↦
          let e = wrap_lem ((label, body) ∷ blocks) first last b e₁ e₂ found in
          (_, e, unwrap_loop_body-wrap_loop_body ((label, body) ∷ blocks) _ e)
    ]
