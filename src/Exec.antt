-- ===== src/Exec.antt =====
-- Calls that read and write the machine's memory and may raise. What was written before a raise
-- stays written, so the state comes back beside the exception too.
use numba_dppy.Prelude.{Bool, Option, false, none, refl, some, subst₂, true, ◌≡◌}
use numba_dppy.Result.{Error, Result, err, ok}

abbrev pub Exec {ℓ} : Type ℓ → Type ℓ → Type ℓ
Exec S A = S → Result A × S

module _ {ℓ} {S A : Type ℓ} where
  abbrev pub pure : A → Exec S A
  pure a s = (ok a, s)

  abbrev pub raise : Error → Exec S A
  raise e s = (err e, s)

  abbrev pub lift : Result A → Exec S A
  lift r s = (r, s)

  -- a value that may be missing
  abbrev pub or_raise : Option A → Error → Exec S A
  or_raise none e = raise e
  or_raise (some a) e = pure a

infixl 5 ◌>>=◌ ◌>>◌
abbrev pub ◌>>=◌ {ℓ} : {S A B : Type ℓ} → Exec S A → (A → Exec S B) → Exec S B
◌>>=◌ m f s = let (r, s') = m s in elim r [ ok a ↦ f a s' | err e ↦ (err e, s') ]

abbrev pub ◌>>◌ {ℓ} : {S B : Type ℓ} → Exec S (Unit {ℓ}) → Exec S B → Exec S B
m >> k = m >>= λ _. k

-- `if test: raise e`
abbrev pub raise_if : {S : Type 0} → Bool → Error → Exec S (Unit {0})
raise_if true e s = (err e, s)
raise_if false e s = (ok tt, s)

abbrev pub modify : {S : Type 0} → (S → S) → Exec S (Unit {0})
modify f s = (ok tt, f s)

-- To carry a statement about the outcome of a call over to a name for it.
pub ok-subst {ℓ} :
    {S A : Type 0} (P : A → S → Type ℓ) (a b : A) (s t : S)
    → ◌≡◌ {A = Result A × S} (ok a, s) (ok b, t)
    → P a s
    → P b t
ok-subst P a b s t e p = subst₂ P (cc e) (cc e) p

-- Inversion of a block that returned.
pub >>=-returns :
    {S A B : Type 0} (m : Exec S A) (f : A → Exec S B) (s : S) (b : B) (t : S)
    → (m >>= f) s ≡ (ok b, t)
    → (a : A) × (s' : S) × (m s ≡ (ok a, s')) × (f a s' ≡ (ok b, t))
>>=-returns {S} {A} {B} m f s b t h = outcome (m s) refl h
  where
    outcome :
        (r : Result A × S)
        → m s ≡ r
        → elim r.0 [ ok a ↦ f a r.1 | err e ↦ (err e, r.1) ] ≡ (ok b, t)
        → (a : A) × (s' : S) × (m s ≡ (ok a, s')) × (f a s' ≡ (ok b, t))
    outcome (ok a, s') e h = (a, s', e, h)
    outcome (err x, s') e h = cc
