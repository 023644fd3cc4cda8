-- ===== src/Spirv/Tools.antt =====
-- What a run of the SPIR-V tools leaves: the laws of `llvm_to_spirv`, numba_dppy/spirv_generator.py.
use numba_dppy.Prelude.{Bool, List, Option, [], false, none, some, true, ◌≡◌}
use numba_dppy.Exec.{Exec, or_raise, pure, raise_if, ◌>>=◌, ◌>>◌}
use numba_dppy.Result.{ok, assertion_error, external_error}
use numba_dppy.Spirv.{
  CompileOption, Environment, FilePath, Module, Options, args_from, check_spirv, extra_binaries,
  generate, generated_spirv, link_all, set_finalized, tracked,
}

module _ (E : Environment) (config : Options) where
  pub assert_lem :
      (b : Bool) (m : Exec Module FilePath) (self self' : Module) (p : FilePath)
      → (raise_if b assertion_error >> m) self ≡ (ok p, self')
      → m self ≡ (ok p, self')
  assert_lem true m self self' p h = cc
  assert_lem false m self self' p h = h

  -- the state when llvm-spirv is run
  abbrev pub before : Module → Module
  before self = record (tracked generated_spirv self) { extra_compile_options = [] }

  abbrev pub last_rest : FilePath → Exec Module FilePath
  last_rest final = do set_finalized E config; pure final

  abbrev pub checked_rest : FilePath → Exec Module FilePath
  checked_rest final = do check_spirv E config final; last_rest final

  abbrev pub linked_rest : List CompileOption → FilePath → Exec Module FilePath
  linked_rest options spirv_path = do
    final ← link_all E config spirv_path (extra_binaries E config options)
    checked_rest final

  -- what follows the test that there is an input
  abbrev pub rest : List CompileOption → FilePath → FilePath → Exec Module FilePath
  rest options spirv_path ipath = do
    generate E config (args_from E config [] options) ipath spirv_path
    linked_rest options spirv_path

  pub input_lem :
      (o : Option FilePath) (k : FilePath → Exec Module FilePath) (self self' : Module)
      (p : FilePath)
      → (or_raise o external_error >>= k) self ≡ (ok p, self')
      → (ipath : FilePath) × (k ipath self ≡ (ok p, self'))
  input_lem none k self self' p h = cc
  input_lem (some ipath) k self self' p h = (ipath, h)
