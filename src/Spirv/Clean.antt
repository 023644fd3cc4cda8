-- ===== src/Spirv/Clean.antt =====
-- What `Module.__del__` of numba_dppy/spirv_generator.py does with the temporary files.
use numba_dppy.Prelude.{List, [], ◌∷◌}
use numba_dppy.Result.{Result, ok, err, os_error}
use numba_dppy.Spirv.{FilePath, FilePath-discrete, Module}

-- `os.unlink` of a file of the directory
unfoldable pub unlink : FilePath → List FilePath → Result (List FilePath)
unlink p [] = err os_error
unlink p (q ∷ files) = elim (FilePath-discrete p q) [
  | yes _ ↦ ok files
  | no _ ↦ elim (unlink p files) [ ok rest ↦ ok (q ∷ rest) | err e ↦ err e ]
]

unfoldable pub unlink_all : List FilePath → List FilePath → Result (List FilePath)
unfolding unlink
unlink_all [] files = ok files
unlink_all (p ∷ paths) files = elim (unlink p files) [
  | ok rest ↦ unlink_all paths rest
  | err e ↦ err e
]

-- `os.rmdir`
unfoldable pub rmdir : List FilePath → Result (Unit {0})
rmdir [] = ok tt
rmdir (_ ∷ _) = err os_error

-- `__del__`
unfoldable pub del : Module → Result (Unit {0})
unfolding unlink_all rmdir
del self = elim (unlink_all self.tempfiles self.files) [ ok files ↦ rmdir files | err e ↦ err e ]
