-- ===== src/Spirv/Files.antt =====
-- The temporary files of `Module`, numba_dppy/spirv_generator.py.
use numba_dppy.Prelude.{
  Bool, List, [], ap, arith, false, if◌then◌else◌, refl, subst, sym, true, ◌++◌, ◌∙◌, ◌∷◌, ◌≡◌,
}
use numba_dppy.Exec.{>>=-returns, Exec, pure, ◌>>=◌}
use numba_dppy.Result.{Result, Error, ok, err}
use numba_dppy.Spirv.{
  Command, Environment, FilePath, Module, Options, TempName, after_validation, check_spirv,
  disassemble, disassembled_spirv, link, link_all, linked_spirv, next_path, optimize, optimize_all,
  optimized_spirv, record_run, run_tool, spirv_dis, spirv_link, spirv_opt, spirv_val,
  track_temp_file, tracked, validate,
}
use numba_dppy.Spirv.Clean.{del, rmdir, unlink, unlink_all}
use mathlib.Core.List.{append-nil, append_assoc}

-- Every tracked file exists, and there are no others.
abbrev pub IsComplete : Module → Type 0
IsComplete self = self.files ≡ self.tempfiles

pub unlink_head : (p : FilePath) (files : List FilePath) → unlink p (p ∷ files) ≡ ok files
unfolding unlink
unlink_head p files = ground arith

unlink_all_lem : (paths : List FilePath) → unlink_all paths paths ≡ ok []
unfolding unlink_all
unlink_all_lem [] = refl
unlink_all_lem (p ∷ paths) = ground (arith, unlink_head p paths, unlink_all_lem paths)

pub del-IsComplete : (self : Module) → IsComplete self → del self ≡ ok tt
unfolding del rmdir
del-IsComplete self h = ground (arith, h, unlink_all_lem self.tempfiles)

-- A step that tracked these files and wrote each of them, and left the rest as it was.
abbrev pub Writes : List FilePath → Module → Module → Type 0
Writes paths self self' =
    (self'.tempfiles ≡ self.tempfiles ++ paths)
    × (self'.files ≡ self.files ++ paths)
    × (self'.finalized ≡ self.finalized)
    × (self'.extra_compile_options ≡ self.extra_compile_options)

pub Writes-trans :
    (ps qs : List FilePath) (a b c : Module) → Writes ps a b → Writes qs b c → Writes (ps ++ qs) a c
Writes-trans ps qs a b c f g = (
  g.0 ∙ (ap (λ xs. xs ++ qs) f.0 ∙ append_assoc a.tempfiles ps qs),
  g.1 ∙ (ap (λ xs. xs ++ qs) f.1 ∙ append_assoc a.files ps qs),
  g.2 ∙ f.2,
  g.3 ∙ f.3,
)

Writes-none : (a : Module) → Writes [] a a
Writes-none a = (sym (append-nil a.tempfiles), sym (append-nil a.files), refl, refl)

module _ (E : Environment) (config : Options) where
  abbrev pub ran : Command → List FilePath → Module → Module
  ran cmd written self = record self {
    commands = self.commands ++ cmd ∷ [];
    files = self.files ++ written;
  }

  pub run_tool-ok :
      (cmd : Command) (written : List FilePath) (self self' : Module) {u : Unit {0}}
      → run_tool E config cmd written self ≡ (ok u, self')
      → ran cmd written self ≡ self'
  unfolding run_tool
  run_tool-ok cmd written self self' h = by_result (E.check_call cmd) h
    where
      by_result :
          (r : Result (Unit {0})) {u : Unit {0}}
          → record_run E config cmd written r self ≡ (ok u, self')
          → ran cmd written self ≡ self'
      by_result (ok v) h = cc h
      by_result (err e) h = cc

  pub run_tool-err :
      (cmd : Command) (written : List FilePath) (self self' : Module) (x : Error)
      → run_tool E config cmd written self ≡ (err x, self')
      → self ≡ self'
  unfolding run_tool
  run_tool-err cmd written self self' x h = by_result (E.check_call cmd) h
    where
      by_result :
          (r : Result (Unit {0}))
          → record_run E config cmd written r self ≡ (err x, self')
          → self ≡ self'
      by_result (ok v) h = cc
      by_result (err e) h = cc h

  -- A tool that writes the file tracked for it.
  pub tracked_run :
      (name : TempName) (cmd : Command) (self self' : Module) {u : Unit {0}}
      → run_tool E config cmd
          (next_path name self ∷ [])
          (record self { tempfiles = self.tempfiles ++ next_path name self ∷ [] })
        ≡ (ok u, self')
      → Writes (next_path name self ∷ []) self self'
  tracked_run name cmd self self' h =
      subst (Writes (next_path name self ∷ []) self)
        (run_tool-ok cmd (next_path name self ∷ [])
          (record self { tempfiles = self.tempfiles ++ next_path name self ∷ [] }) self' h)
        (refl, refl, refl, refl)

  pub link_all-Writes :
      (spirv_path p : FilePath) (extra : List FilePath) (self self' : Module)
      → link_all E config spirv_path extra self ≡ (ok p, self')
      → (ps : List FilePath) × Writes ps self self'
  unfolding link_all track_temp_file link
  link_all-Writes spirv_path p [] self self' h =
      let made : self ≡ self' = cc h in ([], subst (Writes [] self) made (Writes-none self))
  link_all-Writes spirv_path p (b ∷ extra) self self' h =
      let linked = next_path linked_spirv self in
      let (u, s, e, k) =
        >>=-returns (link E config linked (spirv_path ∷ b ∷ extra)) (λ _. pure linked)
          (tracked linked_spirv self) p self' h in
      let made : s ≡ self' = cc k in
      (
        linked ∷ [],
        subst (Writes (linked ∷ []) self) made
            (tracked_run linked_spirv (spirv_link linked (spirv_path ∷ b ∷ extra)) self s e),
      )

  abbrev pub dump : FilePath → Bool → Exec Module (Unit {0})
  dump opt_path b =
      if b
      then (do
        dis_path ← track_temp_file disassembled_spirv
        disassemble E config opt_path dis_path)
      else pure tt

  dump-Writes :
      (opt_path : FilePath) (b : Bool) (self self' : Module) {u : Unit {0}}
      → dump opt_path b self ≡ (ok u, self')
      → (ps : List FilePath) × Writes ps self self'
  unfolding track_temp_file disassemble
  dump-Writes opt_path true self self' h =
      let p = next_path disassembled_spirv self in
      (p ∷ [], tracked_run disassembled_spirv (spirv_dis opt_path p) self self' h)
  dump-Writes opt_path false self self' h =
      let made : self ≡ self' = cc h in ([], subst (Writes [] self) made (Writes-none self))

  optimize_all-Writes :
      (spirv_path : FilePath) (self self' : Module) {u : Unit {0}}
      → optimize_all E config spirv_path self ≡ (ok u, self')
      → (ps : List FilePath) × Writes ps self self'
  unfolding optimize_all track_temp_file optimize
  optimize_all-Writes spirv_path self self' {u} h =
      let p = next_path optimized_spirv self in
      let (v, s, e, k) =
        >>=-returns (optimize E config spirv_path p) (λ _. dump p config.dump_assembly)
          (tracked optimized_spirv self) u self' h in
      let (qs, w) = dump-Writes p config.dump_assembly s self' k in
      (
        (p ∷ []) ++ qs,
        Writes-trans (p ∷ []) qs self s self'
            (tracked_run optimized_spirv (spirv_opt spirv_path p) self s e) w,
      )

  after-Writes :
      (spirv_path : FilePath) (r : Result (Unit {0})) (self s self' : Module) {u : Unit {0}}
      → validate E config spirv_path self ≡ (r, s)
      → after_validation E config spirv_path (r, s) ≡ (ok u, self')
      → (ps : List FilePath) × Writes ps self self'
  unfolding after_validation validate
  after-Writes spirv_path (ok v) self s self' e h =
      let (ps, w) = optimize_all-Writes spirv_path s self' h in
      let made : ran (spirv_val spirv_path) [] self ≡ s =
        run_tool-ok (spirv_val spirv_path) [] self s e in
      (
        ps,
        Writes-trans [] ps self s self'
            (subst (Writes [] self) made (sym (append-nil self.tempfiles), refl, refl, refl)) w,
      )
  after-Writes spirv_path (err x) self s self' e h =
      let same : self ≡ s = run_tool-err (spirv_val spirv_path) [] self s x e in
      let made : s ≡ self' = caught x h in
      ([], subst (Writes [] self) (same ∙ made) (Writes-none self))
    where
      caught :
          (x : Error) {u : Unit {0}}
          → after_validation E config spirv_path (err x, s) ≡ (ok u, self')
          → s ≡ self'
      caught x h = ground arith

  pub check_spirv-Writes :
      (spirv_path : FilePath) (self self' : Module) {u : Unit {0}}
      → check_spirv E config spirv_path self ≡ (ok u, self')
      → (ps : List FilePath) × Writes ps self self'
  unfolding check_spirv
  check_spirv-Writes spirv_path self self' h = by_option config.is_spirv_val h
    where
      by_option :
          (b : Bool) {u : Unit {0}}
          → (if b
              then after_validation E config spirv_path (validate E config spirv_path self)
              else (ok tt, self))
            ≡ (ok u, self')
          → (ps : List FilePath) × Writes ps self self'
      by_option true h =
          after-Writes spirv_path (validate E config spirv_path self).0 self
            (validate E config spirv_path self).1 self' refl h
      by_option false h =
          let made : self ≡ self' = cc h in ([], subst (Writes [] self) made (Writes-none self))
