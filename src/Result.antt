-- ===== src/Result.antt =====
-- Python exceptions: one constructor for each class that the modelled code raises, or that a call
-- of it is seen to raise. The texts of the messages are not modelled.
use numba_dppy.Prelude.{Option, none, some, ◌≡◌, refl, Bool, true, false}

pub data Error : Type 0 where
  type_error value_error index_error key_error : Error
  assertion_error not_implemented_error : Error
  indeterminate_execution_queue_error : Error
  -- of `subprocess` and `os`
  called_process_error os_error runtime_error : Error
  -- raised by code that is not part of the package
  external_error : Error

pub data Result {ℓ} (A : Type ℓ) : Type ℓ where
  ok : A → Result A
  err : Error → Result A

-- `if test: raise e`
abbrev pub raise_if : Bool → Error → Result (Unit {0})
raise_if false x = ok tt
raise_if true x = err x

-- `d[k]` of what `d.get(k)` is
abbrev pub or_raise {ℓ} : {A : Type ℓ} → Option A → Error → Result A
or_raise none x = err x
or_raise (some value) x = ok value

infixl 5 ◌>>=◌ ◌>>◌
-- a call and what follows it, which an exception skips
abbrev pub ◌>>=◌ {ℓ κ} : {X : Type ℓ} {Y : Type κ} → Result X → (X → Result Y) → Result Y
err x >>= rest = err x
ok value >>= rest = rest value

-- a call whose value is of no use
abbrev pub ◌>>◌ {κ} : {Y : Type κ} → Result (Unit {0}) → Result Y → Result Y
call >> rest = call >>= λ _. rest

-- A block returns only if its first call does, and the rest on its value.
pub >>=-eq-ok {ℓ κ} :
    {X : Type ℓ} {Y : Type κ} (call : Result X) (rest : X → Result Y) {y : Y}
    → (call >>= rest) ≡ ok y
    → (x : X) × (call ≡ ok x) × (rest x ≡ ok y)
>>=-eq-ok (err x) rest returned = cc
>>=-eq-ok (ok value) rest returned = (value, refl, returned)
