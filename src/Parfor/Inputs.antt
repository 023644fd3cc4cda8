-- ===== src/Parfor/Inputs.antt =====
-- The inputs and outputs among the parameters of the kernel of a parfor, as
-- `_create_gufunc_for_parfor_body` of numba_dppy/core/passes/dppy_lowerer.py orders them.
use numba_dppy.Prelude.{
  Bool, List, String, [], ap, arith, drop, eq_iff, length, ltb, not, refl, subst₂, sym, ℕ, ◌&&◌,
  ◌++◌, ◌||◌, ◌∙◌, ◌∷◌, ◌≡◌,
}
use numba_dppy.Result.{>>=-eq-ok, ok, raise_if, value_error}
use numba_dppy.Access.{contains}
use numba_dppy.Parfor.Schedule.{LoopRange}
use numba_dppy.Parfor.Params.{ParforInfo, add_ranges, difference, ordered_params}

contains-append :
    (xs ys : List String) (v : String) → contains (xs ++ ys) v ≡ (contains xs v || contains ys v)
contains-append [] ys v = refl
contains-append (x ∷ xs) ys v = ground (arith, contains-append xs ys v)

drop-append {ℓ} : {A : Type ℓ} (xs ys : List A) → drop (length xs) (xs ++ ys) ≡ ys
drop-append [] ys = refl
drop-append (x ∷ xs) ys = drop-append xs ys

contains-difference :
    (params outputs : List String) (v : String)
    → contains (difference params outputs) v ≡ (contains params v && not (contains outputs v))
contains-difference [] outputs v = refl
contains-difference (name ∷ params) outputs v =
    ground (arith, contains-difference params outputs v, eq_iff v name)

no_names_lem :
    (names : List String) → raise_if (ltb 0 (length names)) value_error ≡ ok tt → names ≡ []
no_names_lem [] h = refl
no_names_lem (name ∷ names) h = ground arith

join_or : (a b c : Bool) → a ≡ (c && not b) → (a || b) ≡ (c || b)
join_or a b c h = ground (arith, h)

-- If `sorted` keeps the names and the ordering succeeds, the parfor has no reductions, the
-- parameters after the inputs are its outputs, and the parameters are those of the parfor, the
-- variables in the bounds of its loops, and the outputs.
pub ordered_params-returns :
    (P : ParforInfo) (params args : List String) (loop_ranges : List LoopRange) (n : ℕ)
    → ((names : List String) (v : String) → contains (P.sorted names) v ≡ contains names v)
    → ordered_params P params loop_ranges ≡ ok (args, n)
    → (P.get_parfor_reductions (add_ranges params loop_ranges) ≡ ok [])
      × ((drop n args ≡ P.get_parfor_outputs (add_ranges params loop_ranges))
          × ((v : String)
              → contains args v ≡ (
                  contains (add_ranges params loop_ranges) v
                  || contains (P.get_parfor_outputs (add_ranges params loop_ranges)) v)))
unfolding ordered_params
ordered_params-returns P params args loop_ranges n keeps h =
    let all = add_ranges params loop_ranges in
    let outputs = P.get_parfor_outputs all in
    let inputs = P.sorted (difference all outputs) in
    let (redvars, e₁, h₁) = >>=-eq-ok (P.get_parfor_reductions all) _ h in
    let (u, e₂, h₂) = >>=-eq-ok (raise_if (ltb 0 (length redvars)) value_error) _ h₁ in
    let none_red : redvars ≡ [] = no_names_lem redvars e₂ in
    let made : inputs ++ outputs ≡ args = cc h₂ in
    let many : length inputs ≡ n = cc h₂ in
    (
      e₁ ∙ ap ok none_red,
      (
        subst₂ (λ m a. drop m a ≡ outputs) many made (drop-append inputs outputs),
        λ v.
            ap (λ a. contains a v) (sym made)
            ∙ contains-append inputs outputs v
            ∙ join_or (contains inputs v) (contains outputs v) (contains all v)
                (keeps (difference all outputs) v ∙ contains-difference all outputs v),
      ),
    )
