-- ===== src/Compile/Laws.antt =====
-- What a kernel that `compile_kernel` of numba_dppy/compiler.py returns was compiled from.
use numba_dppy.Prelude.{
  Bool, List, Option, [], arith, if◌then◌else◌, inl, inr, none, refl, some, subst, true, ◌∷◌, ◌≡◌,
  ◌≢◌, ◌⊎◌,
}
use numba_dppy.Result.{>>=-eq-ok, ok}
use numba_dppy.Argument.{ArgType, array_type, npytypes_array}
use numba_dppy.Access.{AccessType}
use numba_dppy.Range.{Queue}
use numba_dppy.Kernel.{Kernel}
use numba_dppy.Compile.{
  CompileResult, Config, Numba, PyFunc, ReturnType, assert_no_return, build_kernel, compile_kernel,
  compile_with_dppy, flags_of, kernel_of, none_type, only_dppy_arrays, run_pipeline, value_type,
  void,
}

-- No argument is an array of Numba's own class.
abbrev pub AreDppyArrays : List ArgType → Type 0
AreDppyArrays [] = Unit {0}
AreDppyArrays (array_type c d n ∷ args) = (c ≢ npytypes_array) × AreDppyArrays args
AreDppyArrays (_ ∷ args) = AreDppyArrays args

abbrev pub ReturnsNothing : ReturnType → Type 0
ReturnsNothing t = (t ≡ none_type) ⊎ (t ≡ void)

only_dppy_arrays-ok :
    (args : List ArgType) {u : Unit {0}} → only_dppy_arrays args ≡ ok u → AreDppyArrays args
unfolding only_dppy_arrays
only_dppy_arrays-ok [] h = tt
only_dppy_arrays-ok (t ∷ args) h = grind (arith, only_dppy_arrays-ok args)

assert_no_return-ok : (t : ReturnType) {u : Unit {0}} → assert_no_return t ≡ ok u → ReturnsNothing t
unfolding assert_no_return
assert_no_return-ok none_type h = inl refl
assert_no_return-ok void h = inr refl
assert_no_return-ok (value_type t) h = cc

-- the debug flag, which the package's own option overrides
abbrev pub debug_of : Config → Option Bool → Option Bool
debug_of config debug = if config.debug then some true else debug

module _ (N : Numba) (config : Config) where
  -- A kernel that `compile_kernel` returns was compiled for a queue that is given, from a function
  -- that returns nothing and that Numba's pipeline accepts with the debug information asked for, for
  -- arguments of which no array is of Numba's own class, and was built for that queue; it carries the
  -- queue, the signature's types and the access types.
  pub compile_kernel-returns :
      (o : Option Queue) (f : PyFunc) (args : List ArgType) (access_types : List AccessType)
      (debug : Option Bool) (k : Kernel)
      → compile_kernel N config o f args access_types debug ≡ ok k
      → (q : Queue) × (cres : CompileResult) × (o ≡ some q)
        × AreDppyArrays args
        × (run_pipeline N f args (flags_of config (debug_of config debug)) ≡ ok cres)
        × ReturnsNothing cres.return_type
        × (N.prepare_ocl_kernel q cres ≡ ok tt)
        × (k ≡ kernel_of q cres access_types)
  unfolding compile_kernel build_kernel compile_with_dppy
  compile_kernel-returns none f args access_types debug k h =
      let (u, _, h') = >>=-eq-ok (only_dppy_arrays args) _ h in cc h'
  compile_kernel-returns (some q) f args access_types debug k h =
      let flags = flags_of config (debug_of config debug) in
      let (u, e₁, h₁) = >>=-eq-ok (only_dppy_arrays args) _ h in
      let (cres, e₂, h₂) =
        >>=-eq-ok (compile_with_dppy N config f args true (debug_of config debug)) _ h₁ in
      let (raw, e₃, h₃) = >>=-eq-ok (run_pipeline N f args flags) _ e₂ in
      let (v, e₄, h₄) = >>=-eq-ok (assert_no_return raw.return_type) _ h₃ in
      let (w, e₅, h₅) = >>=-eq-ok (N.prepare_ocl_kernel q cres) _ h₂ in
      let same : raw ≡ cres = cc h₄ in
      (
        q,
        cres,
        refl,
        only_dppy_arrays-ok args e₁,
        subst (λ r. run_pipeline N f args flags ≡ ok r) same e₃,
        subst (λ r. ReturnsNothing r.return_type) same (assert_no_return-ok raw.return_type e₄),
        e₅,
        cc h₅,
      )
