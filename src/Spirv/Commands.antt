-- ===== src/Spirv/Commands.antt =====
-- Which commands a translation runs: `finalize` of numba_dppy/spirv_generator.py.
use numba_dppy.Prelude.{List, [], ◌∷◌, ◌≡◌, ◌≢◌}
use numba_dppy.Result.{Result}
use numba_dppy.Spirv.{
  Command, FilePath, generated_spirv, linked_spirv, llvm_spirv, spirv_dis, spirv_link, spirv_opt,
  spirv_val, temp,
}

-- A command that reads the final module, or a later product, and that writes neither.
abbrev pub IsCheckOf : FilePath → Command → Type 0
IsCheckOf p (spirv_val q) = q ≡ p
IsCheckOf p (spirv_opt q o) = q ≡ p
IsCheckOf p (spirv_dis o d) = o ≢ p
IsCheckOf p (llvm_spirv tool args i o) = ⊥
IsCheckOf p (spirv_link o bs) = ⊥

abbrev pub AreChecksOf : FilePath → List Command → Type 0
AreChecksOf p [] = Unit {0}
AreChecksOf p (c ∷ cs) = IsCheckOf p c × AreChecksOf p cs

-- The final module: the generated one, or the linked one if there is something to link.
abbrev pub final_path : List FilePath → FilePath
final_path [] = temp 1 generated_spirv
final_path (b ∷ extra) = temp 2 linked_spirv

abbrev pub linking : List FilePath → List Command
linking [] = []
linking (b ∷ extra) = spirv_link (temp 2 linked_spirv) (temp 1 generated_spirv ∷ b ∷ extra) ∷ []
