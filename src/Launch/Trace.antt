-- ===== src/Launch/Trace.antt =====
-- What is read off the code of a launch, and how it grows with the code.
use numba_dppy.Prelude.{
  List, Option, [], ap, arith, if◌then◌else◌, none, refl, some, suc, sym, zero, ℕ, ◌++◌, ◌+◌, ◌==◌,
  ◌∷◌, ◌≡◌,
}
use numba_dppy.Launch.{Instr, free, malloc_shared, store_arg, submit_range}

module _ {ℓ} {A : Type ℓ} (p : Instr → Option A) where
  abbrev pub collect : List Instr → List A
  collect [] = []
  collect (i ∷ code) = elim (p i) [ some a ↦ a ∷ collect code | none ↦ collect code ]

  pub collect-append :
      (code more : List Instr) → collect (code ++ more) ≡ collect code ++ collect more
  collect-append [] more = refl
  collect-append (i ∷ code) more = ground (arith, collect-append code more)

-- the number of the slot that is stored to
abbrev pub slot_of : Instr → Option ℕ
slot_of (store_arg n v ty) = some n
slot_of _ = none

abbrev pub malloc_of : Instr → Option ℕ
malloc_of (malloc_shared b) = some b.suffix
malloc_of _ = none

abbrev pub free_of : Instr → Option ℕ
free_of (free b) = some b.suffix
free_of _ = none

-- the number of arguments of a submission
abbrev pub submit_of : Instr → Option ℕ
submit_of (submit_range n num_dim) = some n
submit_of _ = none

abbrev pub submitted : List Instr → List ℕ
submitted = collect submit_of

abbrev pub slots : List Instr → List ℕ
slots = collect slot_of

abbrev pub mallocs : List Instr → List ℕ
mallocs = collect malloc_of

abbrev pub frees : List Instr → List ℕ
frees = collect free_of

-- n, n + 1, up to n + k - 1
abbrev pub count_from : ℕ → ℕ → List ℕ
count_from n zero = []
count_from n (suc k) = n ∷ count_from (n + 1) k

pub count_from-append : (n k : ℕ) → count_from n (k + 1) ≡ count_from n k ++ (n + k) ∷ []
count_from-append n zero = ground arith
count_from-append n (suc k) =
    let e : n + 1 + k ≡ n + suc k = omega arith in
    let f : suc k + 1 ≡ suc (k + 1) = omega arith in
    rw f (ap (λ xs. n ∷ xs) (rw (sym e) (count_from-append (n + 1) k)))

abbrev pub count : ℕ → List ℕ → ℕ
count b [] = 0
count b (x ∷ xs) = if x == b then 1 + count b xs else count b xs

pub count-append : (b : ℕ) (xs ys : List ℕ) → count b (xs ++ ys) ≡ count b xs + count b ys
count-append b [] ys = omega arith
count-append b (x ∷ xs) ys = ground (arith, count-append b xs ys)
