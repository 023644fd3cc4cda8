-- ===== src/Jit/Uniform.antt =====
-- What `_datatype_is_same` of numba_dppy/compiler.py decides.
use numba_dppy.Prelude.{List, Option, [], ap, arith, none, refl, some, true, ◌↔◌, ◌∷◌, ◌≡◌}
use numba_dppy.Argument.{ArgType, ArrayClass, array_type, npytypes_array}
use numba_dppy.Jit.{datatype_is_same, same_class, same_from}

-- an array argument of this very class, or no array
abbrev pub IsOf : ArrayClass → ArgType → Type 0
IsOf c (array_type c' d n) = c' ≡ c
IsOf c _ = Unit {0}

abbrev pub AreOf : ArrayClass → List ArgType → Type 0
AreOf c [] = Unit {0}
AreOf c (t ∷ argtypes) = IsOf c t × AreOf c argtypes

-- All array arguments are of one class.
abbrev pub AreUniform : List ArgType → Type 0
AreUniform argtypes = (c : ArrayClass) × AreOf c argtypes

pub same_class-eq : (c c' : ArrayClass) → same_class c c' ≡ true → c ≡ c'
unfolding same_class
same_class-eq c c' h = ground arith

pub same_class_refl : (c : ArrayClass) → same_class c c ≡ true
unfolding same_class
same_class_refl c = ground arith

-- The loop with a class at hand.
same_from-AreOf :
    (c : ArrayClass) (argtypes : List ArgType)
    → (same_from (some c) argtypes).1 ≡ true
    → AreOf c argtypes
unfolding same_from
same_from-AreOf c [] h = tt
same_from-AreOf c (t ∷ argtypes) h = grind (arith, same_from-AreOf c argtypes, same_class-eq)

same_from-seen :
    (c : ArrayClass) (argtypes : List ArgType)
    → AreOf c argtypes
    → same_from (some c) argtypes ≡ (some c, true)
unfolding same_from
same_from-seen c [] h = refl
same_from-seen c (t ∷ argtypes) h = ground (arith, same_from-seen c argtypes, same_class_refl c)

uniform_of : (argtypes : List ArgType) → (same_from none argtypes).1 ≡ true → AreUniform argtypes
unfolding same_from
uniform_of [] h = (npytypes_array, tt)
uniform_of (array_type c d n ∷ argtypes) h = (c, (refl, same_from-AreOf c argtypes h))
uniform_of (t ∷ argtypes) h = ground (arith, uniform_of argtypes)

-- the class of the first array
abbrev pub first_class : List ArgType → Option ArrayClass
first_class [] = none
first_class (array_type c d n ∷ argtypes) = some c
first_class (_ ∷ argtypes) = first_class argtypes

same_from-none :
    (c : ArrayClass) (argtypes : List ArgType)
    → AreOf c argtypes
    → same_from none argtypes ≡ (first_class argtypes, true)
unfolding same_from
same_from-none c [] h = refl
same_from-none c (array_type c' d n ∷ argtypes) h = grind (arith, same_from-seen c argtypes)
same_from-none c (t ∷ argtypes) h = ground (arith, same_from-none c argtypes)

-- `_datatype_is_same` answers yes just if all array arguments are of one class.
pub datatype_is_same_lem :
    (argtypes : List ArgType) → ((datatype_is_same argtypes).1 ≡ true) ↔ AreUniform argtypes
unfolding datatype_is_same
datatype_is_same_lem argtypes =
    (uniform_of argtypes, λ p. ap (λ r. r.1) (same_from-none p.0 argtypes p.1))

-- With it comes the class of the first array.
pub datatype_is_same-first_class :
    (argtypes : List ArgType)
    → (datatype_is_same argtypes).1 ≡ true
    → datatype_is_same argtypes ≡ (first_class argtypes, true)
unfolding datatype_is_same
datatype_is_same-first_class argtypes h =
    let (c, p) = uniform_of argtypes h in same_from-none c argtypes p
