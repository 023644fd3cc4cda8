-- ===== src/Memory/Write.antt =====
-- Reading what was written to host memory, at the cells written and at others.
use numba_dppy.Prelude.{List, [], ap₂, arith, length, map, refl, ℕ, ◌<◌, ◌∙◌, ◌∷◌, ◌≡◌, ◌≢◌, ◌≤◌}
use numba_dppy.Memory.{AreApart, AreDistinct, AreFresh, IsApart, update, write}

pub write_apart : (c : ℕ) (cs vs : List ℕ) (h : ℕ → ℕ) → IsApart c cs → write cs vs h c ≡ h c
write_apart c [] vs h apart = refl
write_apart c (d ∷ ds) [] h apart = refl
write_apart c (d ∷ ds) (v ∷ vs) h apart =
    write_apart c ds vs (update h d v) apart.1 ∙ ground (arith, apart.0)

pub map-write_apart :
    (bs cs vs : List ℕ) (h : ℕ → ℕ) → AreApart bs cs → map (write cs vs h) bs ≡ map h bs
map-write_apart [] cs vs h apart = refl
map-write_apart (b ∷ bs) cs vs h apart =
    ap₂ ◌∷◌ (write_apart b cs vs h apart.0) (map-write_apart bs cs vs h apart.1)

pub map-write :
    (cs vs : List ℕ) (h : ℕ → ℕ)
    → AreDistinct cs
    → length vs ≡ length cs
    → map (write cs vs h) cs ≡ vs
map-write [] [] h distinct same = refl
map-write [] (v ∷ vs) h distinct same = absurd (omega arith)
map-write (c ∷ cs) [] h distinct same = absurd (omega arith)
map-write (c ∷ cs) (v ∷ vs) h distinct same =
    ap₂ ◌∷◌ (write_apart c cs vs (update h c v) distinct.0 ∙ ground arith)
      (map-write cs vs (update h c v) distinct.1 (omega arith))

pub update_self {ℓ} : {A : Type ℓ} (f : ℕ → A) (k : ℕ) (v : A) → update f k v k ≡ v
update_self f k v = ground arith

pub update_ne {ℓ} : {A : Type ℓ} (f : ℕ → A) (k : ℕ) (v : A) (n : ℕ) → n ≢ k → update f k v n ≡ f n
update_ne f k v n h = ground arith

pub AreFresh-mono :
    (from to from' to' : ℕ) (cs : List ℕ)
    → from' ≤ from
    → to ≤ to'
    → AreFresh from to cs
    → AreFresh from' to' cs
AreFresh-mono from to from' to' [] h k f = tt
AreFresh-mono from to from' to' (c ∷ cs) h k f =
    (omega arith, omega arith, AreFresh-mono from to from' to' cs h k f.2)

-- What was in use stands apart from what is new.
pub IsApart-AreFresh : (b from to : ℕ) (cs : List ℕ) → b < from → AreFresh from to cs → IsApart b cs
IsApart-AreFresh b from to [] h f = tt
IsApart-AreFresh b from to (c ∷ cs) h f = (omega arith, IsApart-AreFresh b from to cs h f.2)
