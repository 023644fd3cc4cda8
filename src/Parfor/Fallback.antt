-- ===== src/Parfor/Fallback.antt =====
-- `DPPYLower.lower` of numba_dppy/core/passes/dppy_lowerer.py: lowering for a device, and for the
-- CPU if that fails. What is only printed is not modelled.
use numba_dppy.Prelude.{
  Bool, Option, ap, arith, false, if◌then◌else◌, inl, inr, none, not, refl, some, sym, true, ℕ, ◌∙◌,
  ◌≡◌, ◌⊎◌,
}
use numba_dppy.Result.{Error, Result, err, ok, ◌>>◌}
use numba_dppy.Exec.{Exec}

-- What lowers a parfor.
pub data Extension : Type 0 where
  -- `lower_parfor_rollback`
  rollback : Extension
  -- `_lower_parfor_parallel` of Numba
  parallel : Extension
  other_extension : ℕ → Extension

pub data Lowerer : Type 0 where
  gpu_lower cpu_lower : Lowerer

-- `context.lower_extensions` of the two lowerers: of the first it may be missing, and it is the
-- second's if they have one context; then `cpu_entry` is not used. An entry may be missing.
pub record LowerState : Type 0 where
  pub gpu_extensions : Option (Option Extension)
  pub one_context : Bool
  pub cpu_entry : Option Extension

-- `self.gpu_lower.lower()` with the name of the device in the diagnostics, and
-- `self.cpu_lower.lower()`, by what lowers a parfor.
pub record Lowerings : Type 0 where
  pub lower_on_gpu : Option (Option Extension) → Result (Unit {0})
  pub lower_on_cpu : Option Extension → Result (Unit {0})
  pub device_name : Result (Unit {0})
  pub has_extra_info : Bool

abbrev pub saved_extension : LowerState → Option Extension
saved_extension s = elim s.gpu_extensions [ none ↦ none | some entry ↦ entry ]

-- `context.lower_extensions[parfor.Parfor] = extension`, if it can be
abbrev pub set_gpu : LowerState → Extension → LowerState
set_gpu s e = elim s.gpu_extensions [
  | none ↦ s
  | some entry ↦ record s { gpu_extensions = some (some e) }
]

abbrev pub set_cpu : LowerState → Extension → LowerState
set_cpu s e =
    if s.one_context
    then record s { gpu_extensions = some (some e) }
    else record s { cpu_entry = some e }

-- the extension that the CPU lowerer finds
abbrev pub cpu_extension : LowerState → Option Extension
cpu_extension s = if s.one_context then saved_extension s else s.cpu_entry

-- The first inner `try`: an extension that is there is saved, and then replaced.
abbrev pub with_rollback : LowerState → LowerState
with_rollback s = elim (saved_extension s) [ none ↦ s | some e ↦ set_gpu s rollback ]

-- The second inner `try`.
abbrev pub restore : LowerState → LowerState → LowerState
restore before s = elim (saved_extension before) [ none ↦ s | some e ↦ set_gpu s e ]

module _ (L : Lowerings) (fallback_on_cpu : Bool) where
  abbrev pub try_gpu : LowerState → Result (Unit {0})
  try_gpu s = do
    L.lower_on_gpu s.gpu_extensions
    (if not L.has_extra_info then L.device_name else ok tt)

  -- `except Exception as e`
  abbrev pub fall_back : Error → Exec LowerState Lowerer
  fall_back e s = elim fallback_on_cpu [
    | true ↦ elim (L.lower_on_cpu (cpu_extension (set_cpu s parallel))) [
      | ok u ↦ (ok cpu_lower, set_cpu s parallel)
      | err e' ↦ (err e', set_cpu s parallel)
    ]
    | false ↦ (err e, s)
  ]

  -- with `self.base_lower` as the result
  unfoldable pub lower : Exec LowerState Lowerer
  lower s = elim (try_gpu (with_rollback s)) [
    | ok u ↦ (ok gpu_lower, restore s (with_rollback s))
    | err e ↦ fall_back e (with_rollback s)
  ]

  cpu_parallel : (s : LowerState) → cpu_extension (set_cpu s parallel) ≡ some parallel
  cpu_parallel s = by_context s.one_context refl
    where
      by_context :
          (b : Bool) → s.one_context ≡ b → cpu_extension (set_cpu s parallel) ≡ some parallel
      by_context b e = ground (arith, e)

  -- If lowering returns, it has lowered for the device, or it could not, falling back is allowed, and
  -- Numba has lowered for the CPU, with its own lowering of parfors.
  pub lower-returns :
      (s s' : LowerState) (base : Lowerer)
      → lower s ≡ (ok base, s')
      → ((base ≡ gpu_lower) × (try_gpu (with_rollback s) ≡ ok tt))
        ⊎ ((base ≡ cpu_lower)
            × ((fallback_on_cpu ≡ true)
                × ((L.lower_on_cpu (some parallel) ≡ ok tt)
                    × ((e : Error) × (try_gpu (with_rollback s) ≡ err e)))))
  unfolding lower
  lower-returns s s' base h = by_outcome (try_gpu (with_rollback s)) refl h
    where
      by_cpu :
          (r : Result (Unit {0}))
          → L.lower_on_cpu (cpu_extension (set_cpu (with_rollback s) parallel)) ≡ r
          → ◌≡◌ {A = Result Lowerer × LowerState}
              (elim r [
                | ok u ↦ (ok cpu_lower, set_cpu (with_rollback s) parallel)
                | err e' ↦ (err e', set_cpu (with_rollback s) parallel)
              ])
              (ok base, s')
          → (base ≡ cpu_lower) × (L.lower_on_cpu (some parallel) ≡ ok tt)
      by_cpu (ok u) e k = (cc k, ap L.lower_on_cpu (sym (cpu_parallel (with_rollback s))) ∙ e)
      by_cpu (err x) e k = cc k

      by_fallback :
          (e : Error) (b : Bool)
          → fallback_on_cpu ≡ b
          → try_gpu (with_rollback s) ≡ err e
          → ◌≡◌ {A = Result Lowerer × LowerState}
              (elim b [
                | true ↦
                    elim (L.lower_on_cpu (cpu_extension (set_cpu (with_rollback s) parallel))) [
                      | ok u ↦ (ok cpu_lower, set_cpu (with_rollback s) parallel)
                      | err e' ↦ (err e', set_cpu (with_rollback s) parallel)
                    ]
                | false ↦ (err e, with_rollback s)
              ])
              (ok base, s')
          → (base ≡ cpu_lower)
            × ((fallback_on_cpu ≡ true)
                × ((L.lower_on_cpu (some parallel) ≡ ok tt)
                    × ((e : Error) × (try_gpu (with_rollback s) ≡ err e))))
      by_fallback e true b failed k =
          let (base_is, lowered) =
            by_cpu (L.lower_on_cpu (cpu_extension (set_cpu (with_rollback s) parallel))) refl k in
          (base_is, (b, (lowered, (e, failed))))
      by_fallback e false b failed k = cc k

      by_outcome :
          (r : Result (Unit {0}))
          → try_gpu (with_rollback s) ≡ r
          → ◌≡◌ {A = Result Lowerer × LowerState}
              (elim r [
                | ok u ↦ (ok gpu_lower, restore s (with_rollback s))
                | err e ↦ fall_back e (with_rollback s)
              ])
              (ok base, s')
          → ((base ≡ gpu_lower) × (try_gpu (with_rollback s) ≡ ok tt))
            ⊎ ((base ≡ cpu_lower)
                × ((fallback_on_cpu ≡ true)
                    × ((L.lower_on_cpu (some parallel) ≡ ok tt)
                        × ((e : Error) × (try_gpu (with_rollback s) ≡ err e)))))
      by_outcome (ok u) e k = inl (cc k, e)
      by_outcome (err x) e k = inr (by_fallback x fallback_on_cpu refl e k)

  restored_lem : (s : LowerState) → (restore s (with_rollback s)).gpu_extensions ≡ s.gpu_extensions
  restored_lem s = by_entry s.gpu_extensions refl
    where
      by_entry :
          (o : Option (Option Extension))
          → s.gpu_extensions ≡ o
          → (restore s (with_rollback s)).gpu_extensions ≡ s.gpu_extensions
      by_entry none e = ground (arith, e)
      by_entry (some none) e = ground (arith, e)
      by_entry (some (some x)) e = ground (arith, e)

  -- If lowering for the device succeeds, parfors are lowered afterwards as before.
  pub lower-restores :
      (s : LowerState)
      → try_gpu (with_rollback s) ≡ ok tt
      → (lower s).1.gpu_extensions ≡ s.gpu_extensions
  unfolding lower
  lower-restores s lowered =
      ap
        (λ r.
          (elim r as (λ _. Result Lowerer × LowerState) [
            | ok u ↦ (ok gpu_lower, restore s (with_rollback s))
            | err e ↦ fall_back e (with_rollback s)
          ]).1.gpu_extensions)
        lowered
      ∙ restored_lem s

  rollback_lem :
      (s : LowerState) (x : Extension)
      → saved_extension s ≡ some x
      → saved_extension (with_rollback s) ≡ some rollback
  rollback_lem s x entry = by_entry s.gpu_extensions refl
    where
      by_entry :
          (o : Option (Option Extension))
          → s.gpu_extensions ≡ o
          → saved_extension (with_rollback s) ≡ some rollback
      by_entry none e = ground (arith, e, entry)
      by_entry (some none) e = ground (arith, e, entry)
      by_entry (some (some y)) e = ground (arith, e)

  -- If lowering for the device fails and falling back is not allowed, the exception is raised, and
  -- what lowers parfors, if there was an entry for them, stays `lower_parfor_rollback`.
  pub lower-keeps_rollback :
      (s : LowerState) (x : Extension) (e : Error)
      → saved_extension s ≡ some x
      → try_gpu (with_rollback s) ≡ err e
      → fallback_on_cpu ≡ false
      → ((lower s).0 ≡ err e) × (saved_extension (lower s).1 ≡ some rollback)
  unfolding lower
  lower-keeps_rollback s x e entry failed off =
      let all : lower s ≡ (err e, with_rollback s) =
        ap
          (λ r. elim r as (λ _. Result Lowerer × LowerState) [
            | ok u ↦ (ok gpu_lower, restore s (with_rollback s))
            | err e ↦ fall_back e (with_rollback s)
          ])
          failed
        ∙ ap
            (λ b. elim b as (λ _. Result Lowerer × LowerState) [
              | true ↦ elim (L.lower_on_cpu (cpu_extension (set_cpu (with_rollback s) parallel))) [
                | ok u ↦ (ok cpu_lower, set_cpu (with_rollback s) parallel)
                | err e' ↦ (err e', set_cpu (with_rollback s) parallel)
              ]
              | false ↦ (err e, with_rollback s)
            ])
            off in
      (ap (λ r. r.0) all, ap (λ r. saved_extension r.1) all ∙ rollback_lem s x entry)
