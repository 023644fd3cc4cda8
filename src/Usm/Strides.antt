-- ===== src/Usm/Strides.antt =====
-- `get_info_from_suai`: what a USM array interface says of an array.
use numba_dppy.Prelude.{
  List, [], ap, arith, length, mul_comm, none, refl, some, suc, zero, ℕ, ◌*◌, ◌++◌, ◌-◌, ◌<◌, ◌∷◌,
  ◌≡◌,
}
use numba_dppy.Result.{Result, err, external_error, ok}
use numba_dppy.Memory.{DType, PyArray, UsmMem, prod}

abbrev pub nth : List ℕ → ℕ → ℕ
nth [] i = 0
nth (x ∷ xs) zero = x
nth (x ∷ xs) (suc i) = nth xs i

abbrev pub set : List ℕ → ℕ → ℕ → List ℕ
set [] i v = []
set (x ∷ xs) zero v = v ∷ xs
set (x ∷ xs) (suc i) v = x ∷ set xs i v

-- `[1] * ndim`
abbrev pub ones : ℕ → List ℕ
ones zero = []
ones (suc n) = 1 ∷ ones n

-- `for i in reversed(range(1, ndim)): strides[i - 1] = strides[i] * shape[i]`, on the last `i`
unfoldable pub fill_strides : List ℕ → ℕ → List ℕ → List ℕ
fill_strides shape zero strides = strides
fill_strides shape (suc i) strides =
    fill_strides shape i (set strides i (nth strides (suc i) * nth shape (suc i)))

unfoldable pub default_strides : List ℕ → List ℕ
unfolding fill_strides
default_strides shape = fill_strides shape (length shape - 1) (ones (length shape))

pub record Info : Type 0 where
  pub usm_mem : UsmMem
  pub total_size : ℕ
  pub shape : List ℕ
  pub ndim : ℕ
  pub itemsize : ℕ
  pub strides : List ℕ
  pub dtype : DType

-- `as_usm_memory` raises where the object has no USM array interface.
unfoldable pub get_info_from_suai : PyArray → Result Info
unfolding default_strides
get_info_from_suai obj = elim obj.usm [
  | none ↦ err external_error
  | some m ↦ ok (record {
    usm_mem = m;
    total_size = prod obj.shape;
    shape = obj.shape;
    ndim = length obj.shape;
    itemsize = obj.itemsize;
    strides = elim obj.suai_strides [ none ↦ default_strides obj.shape | some s ↦ s ];
    dtype = obj.dtype;
  })
]

-- The strides of a C-contiguous array, in elements: dimension i spans the later dimensions.
abbrev pub row_major : List ℕ → List ℕ
row_major [] = []
row_major (n ∷ ns) = prod ns ∷ row_major ns

abbrev drop : List ℕ → ℕ → List ℕ
drop xs zero = xs
drop [] (suc i) = []
drop (x ∷ xs) (suc i) = drop xs i

-- One round of the loop: the strides from i + 1 on are done, those before are still 1.
abbrev partly : List ℕ → ℕ → List ℕ
partly shape i = ones i ++ row_major (drop shape i)

fill_round :
    (shape : List ℕ) (i : ℕ)
    → suc i < length shape
    → set (partly shape (suc i)) i (nth (partly shape (suc i)) (suc i) * nth shape (suc i))
      ≡ partly shape i
fill_round [] i h = absurd (omega arith)
fill_round (x ∷ []) zero h = absurd (omega arith)
fill_round (x ∷ y ∷ r) zero h = ap (λ t. t ∷ prod r ∷ row_major r) (mul_comm (prod r) y)
fill_round (x ∷ r) (suc i) h = ap (λ t. 1 ∷ t) (fill_round r i (omega arith))

fill_strides-partly :
    (shape : List ℕ) (i : ℕ)
    → i < length shape
    → fill_strides shape i (partly shape i) ≡ row_major shape
unfolding fill_strides
fill_strides-partly shape zero h = refl
fill_strides-partly shape (suc i) h =
    rw (fill_round shape i h) (fill_strides-partly shape i (omega arith))

ones-partly : (x : ℕ) (xs : List ℕ) → ones (suc (length xs)) ≡ partly (x ∷ xs) (length xs)
ones-partly x [] = refl
ones-partly x (y ∷ xs) = ap (λ t. 1 ∷ t) (ones-partly y xs)

-- The loop over missing strides computes the row-major strides, in elements.
pub default_strides-row_major : (shape : List ℕ) → default_strides shape ≡ row_major shape
unfolding default_strides
default_strides-row_major [] = refl
default_strides-row_major (x ∷ xs) =
    let e : suc (length xs) - 1 ≡ length xs = omega arith in
    rw (e, ones-partly x xs) (fill_strides-partly (x ∷ xs) (length xs) (omega arith))
