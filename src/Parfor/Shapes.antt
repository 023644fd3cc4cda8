-- ===== src/Parfor/Shapes.antt =====
-- `_create_shape_signature` of numba_dppy/core/passes/dppy_lowerer.py.
use numba_dppy.Prelude.{
  List, Option, String, [], ap, arith, if◌then◌else◌, inl, inr, length, ltb, none, not, refl, some,
  suc, sym, ℕ, ◌++◌, ◌+◌, ◌∙◌, ◌∷◌, ◌≡◌, ◌⊎◌,
}
use numba_dppy.Prelude.Dict.{get}
use numba_dppy.Result.{>>=-eq-ok, Result, key_error, ok, or_raise, ◌>>=◌}
use numba_dppy.Access.{contains}
use native.Mathlib.Decide.{ℕ_discrete}

-- A class of the extent of an axis: a number, or one that is unlike all others.
abbrev pub ShapeClass : Type 0
ShapeClass = Option ℕ

-- The classes of a variable; `iterate` is the order in which a set of them is gone through.
pub record ShapeInfo : Type 0 where
  pub get_shape_classes : String → Result (List ShapeClass)
  pub iterate : List ℕ → List ℕ

module _ (I : ShapeInfo) (races : List String) where
  -- `for var in args[1:]`
  abbrev pub classes_of : List String → Result (List (List ShapeClass))
  classes_of [] = ok []
  classes_of (var ∷ args) = do
    cls ← (if not (contains races var) then I.get_shape_classes var else ok (none ∷ []))
    rest ← classes_of args
    ok (cls ∷ rest)

  abbrev pub numbers_in : List ShapeClass → List ℕ
  numbers_in [] = []
  numbers_in (none ∷ cls) = numbers_in cls
  numbers_in (some n ∷ cls) = n ∷ numbers_in cls

  -- the numbers in `class_set`
  abbrev pub class_numbers : List (List ShapeClass) → List ℕ
  class_numbers [] = []
  class_numbers (cls ∷ classes) = numbers_in cls ++ class_numbers classes

  abbrev pub larger_of : ℕ → ℕ → ℕ
  larger_of a b = if ltb a b then b else a

  -- `max(class_set) + 1 if class_set else 0`
  abbrev pub max_class : List ℕ → ℕ
  max_class [] = 0
  max_class (n ∷ ns) = larger_of (n + 1) (max_class ns)

  -- `class_map`, and the next letter
  abbrev pub letters : List ℕ → ℕ → List (ℕ × ℕ) × ℕ
  letters [] alphabet = ([], alphabet)
  letters (n ∷ ns) alphabet =
      let rest = letters ns (alphabet + 1) in ((n, alphabet) ∷ rest.0, rest.1)

  -- `tuple(bump_alpha(c, class_map) for c in cls)`, with `latest_alpha`
  unfoldable pub bump_alphas : List (ℕ × ℕ) → List ShapeClass → ℕ → Result (List ℕ × ℕ)
  unfolding get
  bump_alphas class_map [] latest_alpha = ok ([], latest_alpha)
  bump_alphas class_map (some n ∷ cls) latest_alpha = do
    sym ← or_raise (get ℕ_discrete class_map n) key_error
    (syms, latest) ← bump_alphas class_map cls latest_alpha
    ok (sym ∷ syms, latest)
  bump_alphas class_map (none ∷ cls) latest_alpha = do
    (syms, latest) ← bump_alphas class_map cls (latest_alpha + 1)
    ok ((latest_alpha + 1) ∷ syms, latest)

  -- `for cls, arg in zip(classes, args)`
  unfoldable pub signature_loop :
      List (ℕ × ℕ) → List (List ShapeClass) → List String → ℕ → Result (List (List ℕ))
  unfolding bump_alphas
  signature_loop class_map [] args latest_alpha = ok []
  signature_loop class_map (cls ∷ classes) [] latest_alpha = ok []
  signature_loop class_map (cls ∷ classes) (arg ∷ args) latest_alpha = do
    (dim_syms, latest) ← bump_alphas class_map cls latest_alpha
    gu_sin ← signature_loop class_map classes args latest
    ok (dim_syms ∷ gu_sin)

  abbrev pub tail_of : List String → List String
  tail_of [] = []
  tail_of (arg ∷ args) = args

  -- The letters are numbers; 97 is `ord("a")`.
  unfoldable pub create_shape_signature : List String → Result (List (List ℕ) × List (List ℕ))
  unfolding signature_loop
  create_shape_signature args = do
    classes ← classes_of (tail_of args)
    let max = max_class (class_numbers classes)
    let letters_of = letters (I.iterate (max ∷ class_numbers classes)) 97
    gu_sin ← signature_loop letters_of.0 ((some max ∷ []) ∷ classes) args letters_of.1
    ok (gu_sin, [])

  classes_of-length :
      (args : List String) (classes : List (List ShapeClass))
      → classes_of args ≡ ok classes
      → length classes ≡ length args
  classes_of-length [] classes h = let made : [] ≡ classes = cc h in sym (ap length made)
  classes_of-length (var ∷ args) classes h =
      let (cls, e₁, h₁) =
        >>=-eq-ok (if not (contains races var) then I.get_shape_classes var else ok (none ∷ [])) _
          h in
      let (rest, e₂, h₂) = >>=-eq-ok (classes_of args) _ h₁ in
      let made : cls ∷ rest ≡ classes = cc h₂ in
      sym (ap length made) ∙ ap suc (classes_of-length args rest e₂)

  empty_lem : {xs : List (List ℕ)} → ◌≡◌ {A = Result (List (List ℕ))} (ok []) (ok xs) → xs ≡ []
  empty_lem h = cc h

  signature_loop-length :
      (class_map : List (ℕ × ℕ)) (classes : List (List ShapeClass)) (args : List String)
      (latest : ℕ) (gu_sin : List (List ℕ))
      → (length classes ≡ length args) ⊎ (args ≡ [])
      → signature_loop class_map classes args latest ≡ ok gu_sin
      → length gu_sin ≡ length args
  unfolding signature_loop
  signature_loop-length class_map [] [] latest gu_sin c h = ap length (empty_lem h)
  signature_loop-length class_map [] (arg ∷ args) latest gu_sin (inl c) h =
      absurd (omega (arith, c))
  signature_loop-length class_map [] (arg ∷ args) latest gu_sin (inr c) h = cc c
  signature_loop-length class_map (cls ∷ classes) [] latest gu_sin c h = ap length (empty_lem h)
  signature_loop-length class_map (cls ∷ classes) (arg ∷ args) latest gu_sin (inr c) h = cc c
  signature_loop-length class_map (cls ∷ classes) (arg ∷ args) latest gu_sin (inl c) h =
      let (p, e₁, h₁) = >>=-eq-ok (bump_alphas class_map cls latest) _ h in
      let (rest, e₂, h₂) = >>=-eq-ok (signature_loop class_map classes args p.1) _ h₁ in
      let made : p.0 ∷ rest ≡ gu_sin = cc h₂ in
      sym (ap length made)
      ∙ ap suc (signature_loop-length class_map classes args p.1 rest (inl (omega (arith, c))) e₂)

  -- If the signature is made, it has one entry for each argument, all of them among the inputs, so
  -- that the loop that pairs the arguments with the entries leaves out none.
  pub create_shape_signature-length :
      (args : List String) (gu_sin gu_sout : List (List ℕ))
      → create_shape_signature args ≡ ok (gu_sin, gu_sout)
      → (length gu_sin ≡ length args) × (gu_sout ≡ [])
  unfolding create_shape_signature
  create_shape_signature-length args gu_sin gu_sout h =
      let (classes, e₁, h₁) = >>=-eq-ok (classes_of (tail_of args)) _ h in
      let max = max_class (class_numbers classes) in
      let found = letters (I.iterate (max ∷ class_numbers classes)) 97 in
      let (made, e₂, h₂) =
        >>=-eq-ok (signature_loop found.0 ((some max ∷ []) ∷ classes) args found.1) _ h₁ in
      let same : made ≡ gu_sin = cc h₂ in
      (
        sym (ap length same)
            ∙ signature_loop-length found.0 ((some max ∷ []) ∷ classes) args found.1 made
                (as_many args classes (classes_of-length (tail_of args) classes e₁)) e₂,
        cc h₂,
      )
    where
      as_many :
          (args : List String) (classes : List (List ShapeClass))
          → length classes ≡ length (tail_of args)
          → (suc (length classes) ≡ length args) ⊎ (args ≡ [])
      as_many [] classes e = inr refl
      as_many (arg ∷ args) classes e = inl (ap suc e)
