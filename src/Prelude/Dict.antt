-- ===== src/Prelude/Dict.antt =====
-- Python dicts whose keys can be told apart, as lists of pairs in the order of insertion.
use native.Mathlib.Omega.{arith}
use mathlib.Core.Path.{◌≡◌, refl}
use mathlib.Core.Logic.{◌≢◌}
use mathlib.Core.Option.{Option, none, some}
use mathlib.Core.List.{List, [], ◌∷◌, ◌++◌}

module _ {ℓ} {K V : Type ℓ} (dec : Discrete K) where
  -- `d.get(k)`
  unfoldable pub get : List (K × V) → K → Option V
  get [] k = none
  get ((k', v) ∷ d) k = elim (dec k' k) [ yes _ ↦ some v | no _ ↦ get d k ]

  -- `d[k] = v`
  unfoldable pub set : List (K × V) → K → V → List (K × V)
  set [] k v = (k, v) ∷ []
  set ((k', v') ∷ d) k v = elim (dec k' k) [ yes _ ↦ (k', v) ∷ d | no _ ↦ (k', v') ∷ set d k v ]

  pub get-set : (d : List (K × V)) (k : K) (v : V) → get (set d k v) k ≡ some v
  unfolding get set
  get-set [] k v = ground arith
  get-set ((k', v') ∷ d) k v = ground (arith, get-set d k v)

  pub get-set_ne : (d : List (K × V)) (k j : K) (v : V) → j ≢ k → get (set d k v) j ≡ get d j
  unfolding get set
  get-set_ne [] k j v h = ground arith
  get-set_ne ((k', v') ∷ d) k j v h = ground (arith, get-set_ne d k j v h)

  -- A new key goes to the end.
  pub set-new : (d : List (K × V)) (k : K) (v : V) → get d k ≡ none → set d k v ≡ d ++ (k, v) ∷ []
  unfolding get set
  set-new [] k v h = refl
  set-new ((k', v') ∷ d) k v h = ground (arith, set-new d k v)

  -- `del d[k]`, of a key that is there
  unfoldable pub delete : List (K × V) → K → List (K × V)
  delete [] k = []
  delete ((k', v) ∷ d) k = elim (dec k' k) [ yes _ ↦ d | no _ ↦ (k', v) ∷ delete d k ]

  pub get-delete_ne : (d : List (K × V)) (k j : K) → j ≢ k → get (delete d k) j ≡ get d j
  unfolding get delete
  get-delete_ne [] k j h = refl
  get-delete_ne ((k', v') ∷ d) k j h = ground (arith, get-delete_ne d k j h)

  pub set-set : (d : List (K × V)) (k : K) (v w : V) → set (set d k v) k w ≡ set d k w
  unfolding set
  set-set [] k v w = ground arith
  set-set ((k', v') ∷ d) k v w = ground (arith, set-set d k v w)

  pub set-get : (d : List (K × V)) (k : K) (v : V) → get d k ≡ some v → set d k v ≡ d
  unfolding get set
  set-get [] k v h = ground arith
  set-get ((k', v') ∷ d) k v h = ground (arith, set-get d k v)
