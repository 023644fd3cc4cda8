-- ===== src/Compile/Template.antt =====
-- Device functions: `DPPYFunctionTemplate` of numba_dppy/compiler.py, which compiles a function once
-- for each list of argument types and registers it with Numba's target context.
mod Tests
use numba_dppy.Prelude.{Bool, List, Option, [], arith, false, none, refl, some, ◌++◌, ◌∷◌, ◌≡◌, ◌≢◌}
use numba_dppy.Prelude.Dict.{get, set, set-new}
use numba_dppy.Result.{err, ok}
use numba_dppy.Exec.{Exec}
use numba_dppy.Argument.{ArgType, types-discrete}
use numba_dppy.Compile.{CompileResult, Config, Numba, PyFunc, compile_with_dppy}

-- the calls of the target context
pub data TargetCall : Type 0 where
  mark_ocl_device insert_user_function add_user_function : CompileResult → TargetCall

pub record DppyFunctionTemplate : Type 0 where
  pub py_func : PyFunc
  pub debug : Option Bool
  pub compileinfos : List (List ArgType × CompileResult)
  -- what the target context was called with, in that order
  pub target_calls : List TargetCall

abbrev pub new_template : PyFunc → Option Bool → DppyFunctionTemplate
new_template f debug = record { py_func = f; debug = debug; compileinfos = []; target_calls = [] }

-- `if first_definition`, which is that the cache was empty
unfoldable pub definition_call : List (List ArgType × CompileResult) → CompileResult → TargetCall
definition_call [] cres = insert_user_function cres
definition_call (_ ∷ _) cres = add_user_function cres

-- the body of `if args not in self._compileinfos` behind the compilation
unfoldable pub register : DppyFunctionTemplate → List ArgType → CompileResult → DppyFunctionTemplate
unfolding definition_call set
register self args cres = record self {
  compileinfos = set types-discrete self.compileinfos args cres;
  target_calls =
      self.target_calls ++ mark_ocl_device cres ∷ definition_call self.compileinfos cres ∷ [];
}

-- `compile`, with the whole result where the code returns its signature
unfoldable pub compile : Numba → Config → List ArgType → Exec DppyFunctionTemplate CompileResult
unfolding register compile_with_dppy get
compile N config args self = elim (get types-discrete self.compileinfos args) [
  | some cres ↦ (ok cres, self)
  | none ↦ elim (compile_with_dppy N config self.py_func args false self.debug) [
    | err e ↦ (err e, self)
    | ok cres ↦ (ok cres, register self args cres)
  ]
]

-- The state after calls for these lists of types, whichever of them raise.
unfoldable pub compile_all :
    Numba → Config → List (List ArgType) → DppyFunctionTemplate → DppyFunctionTemplate
unfolding compile
compile_all N config [] self = self
compile_all N config (args ∷ calls) self = compile_all N config calls (compile N config args self).1

abbrev pub later_calls : List (List ArgType × CompileResult) → List TargetCall
later_calls [] = []
later_calls ((args, cres) ∷ infos) =
    mark_ocl_device cres ∷ add_user_function cres ∷ later_calls infos

-- For each compiled function, the mark and then the definition: the first one inserts, and all
-- others add.
abbrev pub calls_of : List (List ArgType × CompileResult) → List TargetCall
calls_of [] = []
calls_of ((args, cres) ∷ infos) =
    mark_ocl_device cres ∷ insert_user_function cres ∷ later_calls infos

-- Each key stands once.
abbrev pub HasDistinctKeys : List (List ArgType × CompileResult) → Type 0
HasDistinctKeys [] = Unit {0}
HasDistinctKeys ((args, cres) ∷ infos) =
    (get types-discrete infos args ≡ none) × HasDistinctKeys infos

abbrev pub IsRegistered : DppyFunctionTemplate → Type 0
IsRegistered self =
    HasDistinctKeys self.compileinfos × (self.target_calls ≡ calls_of self.compileinfos)

later_calls-append :
    (infos : List (List ArgType × CompileResult)) (args : List ArgType) (cres : CompileResult)
    → later_calls (infos ++ (args, cres) ∷ [])
      ≡ later_calls infos ++ mark_ocl_device cres ∷ add_user_function cres ∷ []
later_calls-append [] args cres = refl
later_calls-append ((a, c) ∷ infos) args cres = rw (later_calls-append infos args cres) refl

calls_of-append :
    (infos : List (List ArgType × CompileResult)) (args : List ArgType) (cres : CompileResult)
    → calls_of (infos ++ (args, cres) ∷ [])
      ≡ calls_of infos ++ mark_ocl_device cres ∷ definition_call infos cres ∷ []
unfolding definition_call
calls_of-append [] args cres = refl
calls_of-append ((a, c) ∷ infos) args cres = rw (later_calls-append infos args cres) refl

get-append :
    (infos : List (List ArgType × CompileResult)) (args a : List ArgType) (cres : CompileResult)
    → get types-discrete infos a ≡ none
    → args ≢ a
    → get types-discrete (infos ++ (args, cres) ∷ []) a ≡ none
unfolding get
get-append [] args a cres h n = ground arith
get-append ((x, c) ∷ infos) args a cres h n = ground (arith, get-append infos args a cres)

HasDistinctKeys-append :
    (infos : List (List ArgType × CompileResult)) (args : List ArgType) (cres : CompileResult)
    → HasDistinctKeys infos
    → get types-discrete infos args ≡ none
    → HasDistinctKeys (infos ++ (args, cres) ∷ [])
unfolding get
HasDistinctKeys-append [] args cres h g = (refl, tt)
HasDistinctKeys-append ((x, c) ∷ infos) args cres h g =
    ground (arith, HasDistinctKeys-append infos args cres h.1, get-append infos args x cres h.0)

register-IsRegistered :
    (self : DppyFunctionTemplate) (args : List ArgType) (cres : CompileResult)
    → IsRegistered self
    → get types-discrete self.compileinfos args ≡ none
    → IsRegistered (register self args cres)
unfolding register
register-IsRegistered self args cres h g =
    let e = set-new types-discrete self.compileinfos args cres g in
    rw e (
      HasDistinctKeys-append self.compileinfos args cres h.0 g,
      rw (calls_of-append self.compileinfos args cres, h.1) refl,
    )

compile-IsRegistered :
    (N : Numba) (config : Config) (args : List ArgType) (self : DppyFunctionTemplate)
    → IsRegistered self
    → IsRegistered (compile N config args self).1
unfolding compile
compile-IsRegistered N config args self h = grind (arith, register-IsRegistered self args)

-- After any calls of a template that starts with an empty cache, whichever of them raise, each
-- list of types is compiled at most once, and the target context was called for each compiled
-- function in turn, first with its mark and then with its definition, which is inserted for the
-- first function and added for all others.
pub compile_all-IsRegistered :
    (N : Numba) (config : Config) (f : PyFunc) (debug : Option Bool) (calls : List (List ArgType))
    → IsRegistered (compile_all N config calls (new_template f debug))
unfolding compile_all
compile_all-IsRegistered N config f debug calls = go calls (new_template f debug) (tt, refl)
  where
    go :
        (calls : List (List ArgType)) (self : DppyFunctionTemplate)
        → IsRegistered self
        → IsRegistered (compile_all N config calls self)
    go [] self h = h
    go (args ∷ calls) self h =
        go calls (compile N config args self).1 (compile-IsRegistered N config args self h)
