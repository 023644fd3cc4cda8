-- ===== src/Parfor/Params.antt =====
-- The parameters of the kernel of a parfor: the part of `_create_gufunc_for_parfor_body` of
-- numba_dppy/core/passes/dppy_lowerer.py that orders and types them, `to_scalar_from_0d` there,
-- `npytypes_array_to_dppy_array` of numba_dppy/utils/type_conversion_fns.py, and
-- `compile_kernel_parfor` of numba_dppy/compiler.py.
use numba_dppy.Prelude.{
  Bool, List, Option, String, [], ap, arith, false, if◌then◌else◌, length, ltb, refl, subst, suc,
  true, zero, ℕ, ◌++◌, ◌∷◌, ◌≡◌,
}
use numba_dppy.Prelude.Dict.{get}
use numba_dppy.Prelude.Names.{String-discrete}
use numba_dppy.Result.{
  >>=-eq-ok, Result, err, key_error, not_implemented_error, ok, or_raise, raise_if, value_error,
  ◌>>=◌, ◌>>◌,
}
use numba_dppy.Access.{contains}
use numba_dppy.Parfor.Schedule.{LoopBound, LoopRange, constant, variable}
use numba_dppy.Memory.{DType}
use numba_dppy.Argument.{
  ArgType, array_type, dppy_array, npytypes_array, usm_nd_array, usm_shared_array,
}
use numba_dppy.Range.{Queue}
use numba_dppy.Compile.{Config, Numba, PyFunc, compile_with_dppy, only_dppy_arrays}

-- `sorted`, and what Numba says of a parfor, by its parameters.
pub record ParforInfo : Type 0 where
  pub sorted : List String → List String
  pub get_parfor_outputs : List String → List String
  pub get_parfor_reductions : List String → Result (List String)

-- `parfor_params.add(name)`
abbrev pub add_param : List String → String → List String
add_param params name = if contains params name then params else name ∷ params

abbrev pub add_bound : List String → LoopBound → List String
add_bound params (constant n) = params
add_bound params (variable name) = add_param params name

-- `for start, stop, step in loop_ranges`
abbrev pub add_ranges : List String → List LoopRange → List String
add_ranges params [] = params
add_ranges params ((start, stop) ∷ ranges) =
    add_ranges (add_bound (add_bound params start) stop) ranges

-- `set(params) - set(outputs)`
abbrev pub difference : List String → List String → List String
difference [] outputs = []
difference (name ∷ params) outputs =
    if contains outputs name then difference params outputs else name ∷ difference params outputs

-- The parameters of the kernel, and how many of them are inputs.
unfoldable pub ordered_params : ParforInfo → List String → List LoopRange → Result (List String × ℕ)
ordered_params P params loop_ranges = do
  let all_params = add_ranges params loop_ranges
  let parfor_outputs = P.get_parfor_outputs all_params
  parfor_redvars ← P.get_parfor_reductions all_params
  raise_if (ltb 0 (length parfor_redvars)) value_error
  let parfor_inputs = P.sorted (difference all_params parfor_outputs)
  ok (parfor_inputs ++ parfor_outputs, length parfor_inputs)

-- `dtype` as a type, in Numba
module _ (scalar_of : DType → ArgType) where
  abbrev pub to_scalar_from_0d : ArgType → ArgType
  to_scalar_from_0d (array_type c d zero) = scalar_of d
  to_scalar_from_0d (array_type c d (suc n)) = array_type c d (suc n)
  to_scalar_from_0d t = t

  -- `[to_scalar_from_0d(typemap[v]) for v in parfor_params]`
  abbrev pub param_types : List (String × ArgType) → List String → Result (List ArgType)
  param_types typemap [] = ok []
  param_types typemap (v ∷ params) = do
    typ ← or_raise (get String-discrete typemap v) key_error
    rest ← param_types typemap params
    ok (to_scalar_from_0d typ ∷ rest)

-- `isinstance(typ, types.npytypes.Array)`, by which the address space of a parameter is chosen
abbrev pub has_addrspace : ArgType → Bool
has_addrspace (array_type c d n) = true
has_addrspace t = false

-- Only Numba's own class of arrays is converted.
unfoldable pub npytypes_array_to_dppy_array : ArgType → Result ArgType
npytypes_array_to_dppy_array (array_type npytypes_array d n) = ok (array_type dppy_array d n)
npytypes_array_to_dppy_array t = err not_implemented_error

-- `param_types_addrspaces` after the loop that converts the parameters with an address space
unfoldable pub with_addrspaces : List ArgType → Result (List ArgType)
unfolding npytypes_array_to_dppy_array
with_addrspaces [] = ok []
with_addrspaces (t ∷ types) = do
  t' ← elim (has_addrspace t) [ true ↦ npytypes_array_to_dppy_array t | false ↦ ok t ]
  rest ← with_addrspaces types
  ok (t' ∷ rest)

-- What a `DPPYKernel` gets here: without access types.
pub record ParforKernel : Type 0 where
  pub sycl_queue : Queue
  pub argument_types : List ArgType

unfoldable pub compile_kernel_parfor :
    Numba → Config → Queue → PyFunc → List ArgType → Option Bool → Result ParforKernel
unfolding only_dppy_arrays compile_with_dppy
compile_kernel_parfor N config queue func_ir args_with_addrspaces debug = do
  only_dppy_arrays args_with_addrspaces
  cres ← compile_with_dppy N config func_ir args_with_addrspaces true debug
  N.prepare_ocl_kernel queue cres
  ok (record { sycl_queue = queue; argument_types = args_with_addrspaces })

first_lem :
    (t t' : ArgType) (rest : List ArgType)
    → elim (has_addrspace t) [ true ↦ npytypes_array_to_dppy_array t | false ↦ ok t ] ≡ ok t'
    → only_dppy_arrays rest ≡ ok tt
    → only_dppy_arrays (t' ∷ rest) ≡ ok tt
unfolding only_dppy_arrays npytypes_array_to_dppy_array
first_lem (array_type npytypes_array d n) t' rest h fine = ground arith
first_lem (array_type dppy_array d n) t' rest h fine = cc h
first_lem (array_type usm_shared_array d n) t' rest h fine = cc h
first_lem (array_type usm_nd_array d n) t' rest h fine = cc h
first_lem t t' rest h fine = ground arith

-- The types that a kernel of a parfor is compiled for pass the check of `compile_kernel_parfor`,
-- which raises for an array that is not a `DPPYArray`, and are as many as the parameters.
pub with_addrspaces-only_dppy_arrays :
    (types converted : List ArgType)
    → with_addrspaces types ≡ ok converted
    → (only_dppy_arrays converted ≡ ok tt) × (length converted ≡ length types)
unfolding with_addrspaces only_dppy_arrays npytypes_array_to_dppy_array
with_addrspaces-only_dppy_arrays [] converted h =
    let made : [] ≡ converted = cc h in
    subst (λ c. (only_dppy_arrays c ≡ ok tt) × (length c ≡ 0)) made (refl, refl)
with_addrspaces-only_dppy_arrays (t ∷ types) converted h =
    let (t', e₁, h₁) =
      >>=-eq-ok (elim (has_addrspace t) [ true ↦ npytypes_array_to_dppy_array t | false ↦ ok t ]) _
        h in
    let (rest, e₂, h₂) = >>=-eq-ok (with_addrspaces types) _ h₁ in
    let made : t' ∷ rest ≡ converted = cc h₂ in
    let (fine, same) = with_addrspaces-only_dppy_arrays types rest e₂ in
    subst (λ c. (only_dppy_arrays c ≡ ok tt) × (length c ≡ suc (length types))) made
      (first_lem t t' rest e₁ fine, ap suc same)
