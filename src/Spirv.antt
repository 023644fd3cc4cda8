-- ===== src/Spirv.antt =====
-- From LLVM bitcode to SPIR-V by way of the SPIR-V tools: numba_dppy/spirv_generator.py. Of a file
-- the model has that it exists; of a tool's run, the command line and whether it succeeded, which
-- is the parameter `Tools`.
pub mod Clean
pub mod Files
pub mod Tools
pub mod Commands
mod Tests
use numba_dppy.Prelude.{
  Bool, List, Option, String, [], false, if◌then◌else◌, length, none, some, true, ℕ, ◌++◌, ◌∷◌,
}
use numba_dppy.Exec.{Exec, or_raise, pure, raise_if, ◌>>=◌, ◌>>◌}
use numba_dppy.Result.{
  Result, ok, err, assertion_error, external_error, called_process_error, os_error,
}
use native.Mathlib.Decide.{ℕ_discrete}

-- the names that `_track_temp_file` is called with
pub data TempName : Type 0 where
  llvm_friendly_spir generated_spirv linked_spirv optimized_spirv disassembled_spirv : TempName

-- a file in the module's temporary directory, by its number and its name, or the package's own
-- SPIR-V module of atomic functions
pub data FilePath : Type 0 where
  temp : ℕ → TempName → FilePath
  atomic_spirv : FilePath

unfoldable pub FilePath-discrete : Discrete FilePath
FilePath-discrete = hlevel (ℕ_discrete)

-- the command lines, without the flag that spirv-link always has
pub data Command : Type 0 where
  -- the tool, its arguments, and the two paths
  llvm_spirv : String → List String → FilePath → FilePath → Command
  spirv_link : FilePath → List FilePath → Command
  spirv_val : FilePath → Command
  -- input and output
  spirv_opt spirv_dis : FilePath → FilePath → Command

-- an entry of `context.extra_compile_options`
pub data CompileOption : Type 0 where
  link_atomic : CompileOption
  llvm_spirv_args : List String → CompileOption
  other_option : String → CompileOption

pub record Options : Type 0 where
  -- `LLVM_SPIRV_ROOT`, where it is not empty
  pub llvm_spirv_root : Option String
  pub is_spirv_val : Bool
  pub dump_assembly : Bool

-- `check_call`, `shutil.which` with and without a path, and the directory of llvm-spirv beside a
-- dpcpp
pub record Environment : Type 0 where
  pub check_call : Command → Result (Unit {0})
  pub which_in : String → String → Option String
  pub which : String → Option String
  pub bin_llvm : String → String

pub record Module : Type 0 where
  pub tempfiles : List FilePath
  pub finalized : Bool
  pub llvmfile : Option FilePath
  pub extra_compile_options : List CompileOption
  -- the files of the temporary directory that exist
  pub files : List FilePath
  -- the commands that succeeded
  pub commands : List Command

abbrev pub new_module : List CompileOption → Module
new_module extra_compile_options = record {
  tempfiles = [];
  finalized = false;
  llvmfile = none;
  extra_compile_options = extra_compile_options;
  files = [];
  commands = [];
}

-- the path that `_track_temp_file` makes
abbrev pub next_path : TempName → Module → FilePath
next_path name self = temp (length self.tempfiles) name

abbrev pub tracked : TempName → Module → Module
tracked name self = record self { tempfiles = self.tempfiles ++ next_path name self ∷ [] }

-- `_track_temp_file`
unfoldable pub track_temp_file : TempName → Exec Module FilePath
track_temp_file name self = (
  ok (next_path name self),
  record self { tempfiles = self.tempfiles ++ next_path name self ∷ [] },
)

-- `load_llvm`, with `_create_temp_file`
unfoldable pub load_llvm : Exec Module (Unit {0})
load_llvm self = (
  ok tt,
  record self {
    tempfiles = self.tempfiles ++ next_path llvm_friendly_spir self ∷ [];
    files = self.files ++ next_path llvm_friendly_spir self ∷ [];
    llvmfile = some (next_path llvm_friendly_spir self);
  },
)

module _ (E : Environment) (config : Options) where
  -- `_llvm_spirv`
  unfoldable pub llvm_spirv_beside : Option String → Option String
  llvm_spirv_beside none = none
  llvm_spirv_beside (some dpcpp_path) = E.which_in "llvm-spirv" (E.bin_llvm dpcpp_path)

  unfoldable pub llvm_spirv_in : Option String → Option String
  llvm_spirv_in none = none
  llvm_spirv_in (some root) = E.which_in "llvm-spirv" root

  abbrev pub or_else : Option String → Option String → Option String
  or_else (some a) b = some a
  or_else none b = b

  abbrev pub or_name : Option String → String
  or_name (some a) = a
  or_name none = "llvm-spirv"

  unfoldable pub llvm_spirv_tool : String
  unfolding llvm_spirv_in llvm_spirv_beside
  llvm_spirv_tool =
      or_name (or_else (llvm_spirv_in config.llvm_spirv_root) (llvm_spirv_beside (E.which "dpcpp")))

  abbrev pub record_run : Command → List FilePath → Result (Unit {0}) → Exec Module (Unit {0})
  record_run cmd written (err e) self = (err e, self)
  record_run cmd written (ok _) self =
      (ok tt, record self { commands = self.commands ++ cmd ∷ []; files = self.files ++ written })

  -- A tool that succeeds has written its output.
  unfoldable pub run_tool : Command → List FilePath → Exec Module (Unit {0})
  run_tool cmd written self = record_run cmd written (E.check_call cmd) self

  -- The methods of `CmdLine`. `generate` passes on its arguments, but not its own debug flag.
  unfoldable pub generate : List String → FilePath → FilePath → Exec Module (Unit {0})
  unfolding run_tool llvm_spirv_tool
  generate args ipath opath = run_tool (llvm_spirv llvm_spirv_tool args ipath opath) (opath ∷ [])

  unfoldable pub link : FilePath → List FilePath → Exec Module (Unit {0})
  unfolding run_tool
  link opath binaries = run_tool (spirv_link opath binaries) (opath ∷ [])

  unfoldable pub validate : FilePath → Exec Module (Unit {0})
  unfolding run_tool
  validate ipath = run_tool (spirv_val ipath) []

  unfoldable pub optimize : FilePath → FilePath → Exec Module (Unit {0})
  unfolding run_tool
  optimize ipath opath = run_tool (spirv_opt ipath opath) (opath ∷ [])

  unfoldable pub disassemble : FilePath → FilePath → Exec Module (Unit {0})
  unfolding run_tool
  disassemble ipath opath = run_tool (spirv_dis ipath opath) (opath ∷ [])

  -- what the loop over the options adds to `binary_paths`
  unfoldable pub extra_binaries : List CompileOption → List FilePath
  extra_binaries [] = []
  extra_binaries (link_atomic ∷ options) = atomic_spirv ∷ extra_binaries options
  extra_binaries (llvm_spirv_args args ∷ options) = extra_binaries options
  extra_binaries (other_option key ∷ options) = extra_binaries options

  -- what the loop makes of `llvm_spirv_args`
  unfoldable pub args_from : List String → List CompileOption → List String
  args_from found [] = found
  args_from found (link_atomic ∷ options) = args_from found options
  args_from found (llvm_spirv_args args ∷ options) = args_from args options
  args_from found (other_option key ∷ options) = args_from found options

  -- `del self.context.extra_compile_options[key]`, of each key
  unfoldable pub clear_options : Exec Module (Unit {0})
  clear_options self = (ok tt, record self { extra_compile_options = [] })

  -- `if len(binary_paths) > 1`, as the path of the final module
  unfoldable pub link_all : FilePath → List FilePath → Exec Module FilePath
  unfolding track_temp_file link
  link_all spirv_path [] = pure spirv_path
  link_all spirv_path (b ∷ extra) = do
    linked ← track_temp_file linked_spirv
    link linked (spirv_path ∷ b ∷ extra)
    pure linked

  -- the `else` of the `try`
  unfoldable pub optimize_all : FilePath → Exec Module (Unit {0})
  unfolding track_temp_file optimize disassemble
  optimize_all spirv_path = do
    opt_path ← track_temp_file optimized_spirv
    optimize spirv_path opt_path
    (if config.dump_assembly
        then (do dis_path ← track_temp_file disassembled_spirv; disassemble opt_path dis_path)
        else pure tt)

  -- what follows the validation, by its outcome
  unfoldable pub after_validation :
      FilePath → Result (Unit {0}) × Module → Result (Unit {0}) × Module
  unfolding optimize_all
  after_validation spirv_path (ok _, self) = optimize_all spirv_path self
  after_validation spirv_path (err called_process_error, self) = (ok tt, self)
  after_validation spirv_path (err e, self) = (err e, self)

  unfoldable pub check_spirv : FilePath → Exec Module (Unit {0})
  unfolding validate after_validation
  check_spirv spirv_path self =
      if config.is_spirv_val
      then after_validation spirv_path (validate spirv_path self)
      else (ok tt, self)

  unfoldable pub set_finalized : Exec Module (Unit {0})
  set_finalized self = (ok tt, record self { finalized = true })

  -- `finalize` behind its assertion, with the options of the context
  unfoldable pub finalize_with : List CompileOption → Exec Module FilePath
  unfolding generate link_all check_spirv set_finalized clear_options extra_binaries args_from
      track_temp_file
  finalize_with options self =
      (do
        spirv_path ← track_temp_file generated_spirv
        clear_options
        ipath ← or_raise self.llvmfile external_error
        generate (args_from [] options) ipath spirv_path
        final ← link_all spirv_path (extra_binaries options)
        check_spirv final
        set_finalized
        pure final)
        self

  -- `finalize`, as the path of the file that it reads and returns
  unfoldable pub finalize : Exec Module FilePath
  unfolding finalize_with
  finalize self =
      (do raise_if self.finalized assertion_error; finalize_with self.extra_compile_options) self

  -- `llvm_to_spirv`
  unfoldable pub llvm_to_spirv : Exec Module FilePath
  unfolding load_llvm finalize
  llvm_to_spirv = do load_llvm; finalize
