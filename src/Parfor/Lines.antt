-- ===== src/Parfor/Lines.antt =====
-- The lines of the text of `_schedule_loop` of numba_dppy/core/passes/dppy_lowerer.py, and the points
-- at which one work item runs what stands below them.
use numba_dppy.Prelude.{
  Bool-cases, List, String, [], ap, arith, drop, get_elem?, get_elem?-drop, get_elem?-take,
  if◌then◌else◌, inl, inr, length, length-drop, length-take_ge, length-take_le, ltb, refl, some,
  subst, suc, sym, take, ℕ, ◌++◌, ◌+◌, ◌-◌, ◌<◌, ◌∙◌, ◌∷◌, ◌≡◌, ◌≤◌, ◌⊎◌,
}
use numba_dppy.Result.{Result, ok, ◌>>=◌}
use numba_dppy.Parfor.Schedule.{
  LoopRange, Piece, bound_text, for_loop, id_loop, indent_loop, indents, number, schedule_loop,
  text,
}
use mathlib.Core.List.{append_assoc}

pub data Line : Type 0 where
  -- a variable that gets the id in a dimension
  id_line : String → ℕ → Line
  -- a loop: its level of indentation, its variable, and the two bounds
  for_line : ℕ → String → Piece → Piece → Line

abbrev pub print : List Line → List Piece
print [] = []
print (id_line index dim ∷ lines) =
    text "    "
    ∷ text index
    ∷ text " = "
    ∷ text "dppy.get_global_id("
    ∷ number dim
    ∷ text ")\n"
    ∷ print lines
print (for_line level index start stop ∷ lines) =
    indents level
    ++ text "for "
      ∷ text index
      ∷ text " in range("
      ∷ start
      ∷ text ", "
      ∷ stop
      ∷ text " + 1):\n"
      ∷ print lines

abbrev pub id_lines : List String → ℕ → List Line
id_lines [] dim = []
id_lines (index ∷ indices) dim = id_line index dim ∷ id_lines indices (dim + 1)

abbrev pub for_lines : List String → List LoopRange → List (String × String) → ℕ → List Line
for_lines [] ranges param_dict k = []
for_lines (index ∷ indices) [] param_dict k = []
for_lines (index ∷ indices) ((start, stop) ∷ ranges) param_dict k =
    for_line (1 + k) index (bound_text param_dict start) (bound_text param_dict stop)
    ∷ for_lines indices ranges param_dict (k + 1)

-- The first three dimensions are those of the range of the kernel, the others are loops.
abbrev pub lines_of : List String → List LoopRange → List (String × String) → List Line
lines_of indices ranges param_dict =
    id_lines (take 3 indices) 0 ++ for_lines (drop 3 indices) (drop 3 ranges) param_dict 0

print-append : (xs ys : List Line) → print (xs ++ ys) ≡ print xs ++ print ys
print-append [] ys = refl
print-append (id_line index dim ∷ xs) ys =
    ap
      (λ t.
        text "    "
        ∷ text index
        ∷ text " = "
        ∷ text "dppy.get_global_id("
        ∷ number dim
        ∷ text ")\n"
        ∷ t)
      (print-append xs ys)
print-append (for_line level index start stop ∷ xs) ys =
    ap
      (λ t.
        indents level
        ++ text "for "
          ∷ text index
          ∷ text " in range("
          ∷ start
          ∷ text ", "
          ∷ stop
          ∷ text " + 1):\n"
          ∷ t)
      (print-append xs ys)
    ∙ sym (append_assoc (indents level) _ (print ys))

id_loop-lines :
    (all indices : List String) (i : ℕ)
    → ((j : ℕ) → j < length indices → get_elem? all (i + j) ≡ get_elem? indices j)
    → id_loop all i (length indices) ≡ ok (print (id_lines indices i))
id_loop-lines all [] i h = refl
id_loop-lines all (index ∷ indices) i h =
    let first : get_elem? all i ≡ some index =
      ap (get_elem? all) (omega arith) ∙ h 0 (omega arith) in
    let rest =
      id_loop-lines all indices (i + 1)
        (λ j below. ap (get_elem? all) (omega arith) ∙ h (suc j) (omega arith)) in
    ground (arith, first, rest)

for_loop-lines :
    (all indices : List String) (all_ranges ranges : List LoopRange)
    (param_dict : List (String × String)) (g k : ℕ)
    → length ranges ≡ length indices
    → ((j : ℕ) → j < length indices → get_elem? all (g + (k + j)) ≡ get_elem? indices j)
    → ((j : ℕ) → j < length indices → get_elem? all_ranges (g + (k + j)) ≡ get_elem? ranges j)
    → for_loop all all_ranges param_dict g k (length indices)
      ≡ ok (print (for_lines indices ranges param_dict k))
for_loop-lines all [] all_ranges ranges param_dict g k e h h' = refl
for_loop-lines all (index ∷ indices) all_ranges [] param_dict g k e h h' = absurd (omega arith)
for_loop-lines all (index ∷ indices) all_ranges ((start, stop) ∷ ranges) param_dict g k e h h' =
    let first : get_elem? all (g + k) ≡ some index =
      ap (get_elem? all) (omega arith) ∙ h 0 (omega arith) in
    let range : get_elem? all_ranges (g + k) ≡ some (start, stop) =
      ap (get_elem? all_ranges) (omega arith) ∙ h' 0 (omega arith) in
    let rest =
      for_loop-lines all indices all_ranges ranges param_dict g (k + 1) (omega arith)
        (λ j below. ap (get_elem? all) (omega arith) ∙ h (suc j) (omega arith))
        (λ j below. ap (get_elem? all_ranges) (omega arith) ∙ h' (suc j) (omega arith)) in
    ground (arith, first, range, rest)

-- The number of dimensions of the range, however it is written.
split_lem :
    (indices : List String) (ranges : List LoopRange) (param_dict : List (String × String)) (g : ℕ)
    → length ranges ≡ length indices
    → g ≤ 3
    → (length indices ≡ g) ⊎ ((g ≡ 3) × (3 ≤ length indices))
    → (id_loop indices 0 g ≡ ok (print (id_lines (take 3 indices) 0)))
      × (for_loop indices ranges param_dict g 0 (length indices - g)
          ≡ ok (print (for_lines (drop 3 indices) (drop 3 ranges) param_dict 0)))
split_lem indices ranges param_dict g e le c = (
  subst (λ m. id_loop indices 0 m ≡ ok (print (id_lines (take 3 indices) 0))) taken
      (id_loop-lines indices (take 3 indices) 0 (λ j below.
        ap (get_elem? indices) (omega arith)
        ∙ sym (get_elem?-take 3 indices j (omega (arith, taken))))),
  subst
      (λ m.
        for_loop indices ranges param_dict g 0 m
        ≡ ok (print (for_lines (drop 3 indices) (drop 3 ranges) param_dict 0)))
      left
      (for_loop-lines indices (drop 3 indices) ranges (drop 3 ranges) param_dict g 0
        (length-drop 3 ranges ∙ ap (λ n. n - 3) e ∙ sym (length-drop 3 indices))
        (λ j below. ap (get_elem? indices) (shift j below) ∙ sym (get_elem?-drop 3 indices j))
        (λ j below. ap (get_elem? ranges) (shift j below) ∙ sym (get_elem?-drop 3 ranges j))),
)
  where
    by_case : (length indices ≡ g) ⊎ ((g ≡ 3) × (3 ≤ length indices)) → length (take 3 indices) ≡ g
    by_case (inl all) = length-take_ge 3 indices (omega arith) ∙ all
    by_case (inr (three, more)) = length-take_le 3 indices more ∙ sym three

    taken : length (take 3 indices) ≡ g
    taken = by_case c

    left : length (drop 3 indices) ≡ length indices - g
    left = omega (arith, c, length-drop 3 indices)

    shift : (j : ℕ) → j < length (drop 3 indices) → g + (0 + j) ≡ 3 + j
    shift j below = omega (arith, c, length-drop 3 indices)

-- `schedule_loop` with `g` dimensions in the range
abbrev written : List String → List LoopRange → List (String × String) → ℕ → Result (List Piece)
written indices ranges param_dict g = do
  ids ← id_loop indices 0 g
  loops ← for_loop indices ranges param_dict g 0 (length indices - g)
  ok (ids ++ loops ++ indent_loop 0 (length indices - g))

written_lem :
    (indices : List String) (ranges : List LoopRange) (param_dict : List (String × String)) (g : ℕ)
    → length ranges ≡ length indices
    → g ≤ 3
    → (length indices ≡ g) ⊎ ((g ≡ 3) × (3 ≤ length indices))
    → written indices ranges param_dict g
      ≡ ok (print (lines_of indices ranges param_dict) ++ indent_loop 0 (length indices - 3))
written_lem indices ranges param_dict g e le c =
    let (first, second) = split_lem indices ranges param_dict g e le c in
    let depth : length indices - g ≡ length indices - 3 = omega (arith, c) in
    let all : written indices ranges param_dict g
        ≡ ok (
            print (id_lines (take 3 indices) 0)
            ++ print (for_lines (drop 3 indices) (drop 3 ranges) param_dict 0)
            ++ indent_loop 0 (length indices - g)) =
      ground (arith, first, second) in
    all
    ∙ ap (λ t. ok (t ++ indent_loop 0 (length indices - g)))
        (sym (
          print-append (id_lines (take 3 indices) 0)
            (for_lines (drop 3 indices) (drop 3 ranges) param_dict 0)))
    ∙ ap (λ m. ok (print (lines_of indices ranges param_dict) ++ indent_loop 0 m)) depth

-- If there are as many loop nests as index variables, the text is that of the lines, and the
-- indentation of the next line.
pub schedule_loop-lines :
    (indices : List String) (ranges : List LoopRange) (param_dict : List (String × String))
    → length ranges ≡ length indices
    → schedule_loop (length indices) indices ranges param_dict
      ≡ ok (print (lines_of indices ranges param_dict) ++ indent_loop 0 (length indices - 3))
unfolding schedule_loop
schedule_loop-lines indices ranges param_dict e = elim (Bool-cases (ltb 3 (length indices))) [
  | inl more ↦
      ap (λ b. written indices ranges param_dict (if b then 3 else length indices)) more
      ∙ written_lem indices ranges param_dict 3 e (omega arith) (inr (refl, ground (arith, more)))
  | inr few ↦
      ap (λ b. written indices ranges param_dict (if b then 3 else length indices)) few
      ∙ written_lem indices ranges param_dict (length indices) e (ground (arith, few)) (inl refl)
]
