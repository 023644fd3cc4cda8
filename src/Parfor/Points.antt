-- ===== src/Parfor/Points.antt =====
-- The points at which a work item runs the body below the lines of `_schedule_loop` of
-- numba_dppy/core/passes/dppy_lowerer.py, and how deep the body stands.
use numba_dppy.Prelude.{
  List, String, [], ap₂, arith, inl, inr, length, map, refl, suc, zero, ℕ, ◌++◌, ◌+◌, ◌-◌, ◌<◌, ◌↔◌,
  ◌∷◌, ◌≡◌, ◌≤◌, ◌⊎◌,
}
use numba_dppy.Result.{ok}
use numba_dppy.Parfor.Schedule.{LoopRange, Piece, indent_loop, schedule_loop}
use numba_dppy.Parfor.Lines.{Line, for_line, id_line, lines_of, print, schedule_loop-lines}
use native.Mathlib.Decide.{ℕ_discrete}

abbrev pub IsIn : {A : Type 0} → A → List A → Type 0
IsIn x [] = ⊥
IsIn x (y ∷ ys) = (x ≡ y) ⊎ IsIn x ys

-- `range(start, start + n)`
abbrev pub range_of : ℕ → ℕ → List ℕ
range_of start zero = []
range_of start (suc n) = start ∷ range_of (start + 1) n

abbrev pub with_first : List ℕ → List (List ℕ) → List (List ℕ)
with_first [] points = []
with_first (i ∷ is) points = map (λ point. i ∷ point) points ++ with_first is points

module _ (get_global_id : ℕ → ℕ) (value : Piece → ℕ) where
  -- What a work item does: the values of the index variables each time that it is at the body.
  abbrev pub points : List Line → List (List ℕ)
  points [] = [] ∷ []
  points (id_line index dim ∷ lines) = with_first (get_global_id dim ∷ []) (points lines)
  points (for_line level index start stop ∷ lines) =
      with_first (range_of (value start) (value stop + 1 - value start)) (points lines)

  -- In a dimension of the range the index is the id, in a loop it lies between the bounds, both
  -- included.
  abbrev pub IsPoint : List Line → List ℕ → Type 0
  IsPoint [] [] = Unit {0}
  IsPoint [] (i ∷ point) = ⊥
  IsPoint (line ∷ lines) [] = ⊥
  IsPoint (id_line index dim ∷ lines) (i ∷ point) = (i ≡ get_global_id dim) × IsPoint lines point
  IsPoint (for_line level index start stop ∷ lines) (i ∷ point) =
      (value start ≤ i) × ((i ≤ value stop) × IsPoint lines point)

IsIn-append : {A : Type 0} (x : A) (xs ys : List A) → IsIn x (xs ++ ys) ↔ (IsIn x xs ⊎ IsIn x ys)
IsIn-append x [] ys = (λ h. inr h, λ h. elim h [ inl e ↦ absurd e | inr e ↦ e ])
IsIn-append x (y ∷ xs) ys = (
  λ h. elim h [
    | inl e ↦ inl (inl e)
    | inr e ↦ elim ((IsIn-append x xs ys).0 e) [ inl a ↦ inl (inr a) | inr a ↦ inr a ]
  ],
  λ h. elim h [
    | inl e ↦ elim e [ inl a ↦ inl a | inr a ↦ inr ((IsIn-append x xs ys).1 (inl a)) ]
    | inr e ↦ inr ((IsIn-append x xs ys).1 (inr e))
  ],
)

IsIn-map :
    (i j : ℕ) (point : List ℕ) (ps : List (List ℕ))
    → IsIn (i ∷ point) (map (λ p. j ∷ p) ps) ↔ ((i ≡ j) × IsIn point ps)
IsIn-map i j point [] = (λ h. absurd h, λ h. absurd h.1)
IsIn-map i j point (p ∷ ps) = (
  λ h. elim h [
    | inl e ↦ (cc e, inl (cc e))
    | inr e ↦ let (a, b) = (IsIn-map i j point ps).0 e in (a, inr b)
  ],
  λ h. elim h.1 [
    | inl e ↦ inl (ap₂ (◌∷◌) h.0 e)
    | inr e ↦ inr ((IsIn-map i j point ps).1 (h.0, e))
  ],
)

not_in_map : (j : ℕ) (ps : List (List ℕ)) → IsIn [] (map (λ p. j ∷ p) ps) → ⊥
not_in_map j [] h = h
not_in_map j (p ∷ ps) (inl e) = cc e
not_in_map j (p ∷ ps) (inr h) = not_in_map j ps h

not_in_first : (is : List ℕ) (ps : List (List ℕ)) → IsIn [] (with_first is ps) → ⊥
not_in_first [] ps h = h
not_in_first (i ∷ is) ps h = elim ((IsIn-append [] (map (λ p. i ∷ p) ps) (with_first is ps)).0 h) [
  | inl e ↦ not_in_map i ps e
  | inr e ↦ not_in_first is ps e
]

IsIn-with_first :
    (i : ℕ) (point : List ℕ) (is : List ℕ) (ps : List (List ℕ))
    → IsIn (i ∷ point) (with_first is ps) ↔ (IsIn i is × IsIn point ps)
IsIn-with_first i point [] ps = (λ h. absurd h, λ h. h.0)
IsIn-with_first i point (j ∷ is) ps = (
  λ h. elim ((IsIn-append (i ∷ point) (map (λ p. j ∷ p) ps) (with_first is ps)).0 h) [
    | inl e ↦ let (a, b) = (IsIn-map i j point ps).0 e in (inl a, b)
    | inr e ↦ let (a, b) = (IsIn-with_first i point is ps).0 e in (inr a, b)
  ],
  λ h. (IsIn-append (i ∷ point) (map (λ p. j ∷ p) ps) (with_first is ps)).1 (elim h.0 [
    | inl e ↦ inl ((IsIn-map i j point ps).1 (e, h.1))
    | inr e ↦ inr ((IsIn-with_first i point is ps).1 (e, h.1))
  ]),
)

IsIn-range_of : (i start n : ℕ) → IsIn i (range_of start n) ↔ ((start ≤ i) × (i < start + n))
IsIn-range_of i start zero = (λ h. absurd h, λ h. absurd (omega (arith, h.0, h.1)))
IsIn-range_of i start (suc n) = (
  λ h. elim h [
    | inl e ↦ (omega (arith, e), omega (arith, e))
    | inr e ↦
        let (a, b) = (IsIn-range_of i (start + 1) n).0 e in (omega (arith, a), omega (arith, b))
  ],
  λ h. elim (ℕ_discrete i start) [
    | yes e ↦ inl e
    | no ne ↦
        inr
          ((IsIn-range_of i (start + 1) n).1 (omega (arith, h.0, h.1, ne), omega (arith, h.0, h.1)))
  ],
)

points-IsPoint :
    (get_global_id : ℕ → ℕ) (value : Piece → ℕ) (lines : List Line) (point : List ℕ)
    → IsIn point (points get_global_id value lines) ↔ IsPoint get_global_id value lines point
points-IsPoint gid value [] [] = (λ h. tt, λ h. inl refl)
points-IsPoint gid value [] (i ∷ point) = (λ h. elim h [ inl e ↦ cc e | inr e ↦ e ], λ h. absurd h)
points-IsPoint gid value (id_line index dim ∷ lines) [] =
    (λ h. not_in_first (gid dim ∷ []) (points gid value lines) h, λ h. absurd h)
points-IsPoint gid value (for_line level index start stop ∷ lines) [] = (
  λ h.
      not_in_first (range_of (value start) (value stop + 1 - value start)) (points gid value lines)
        h,
  λ h. absurd h,
)
points-IsPoint gid value (id_line index dim ∷ lines) (i ∷ point) = (
  λ h.
      let (a, b) = (IsIn-with_first i point (gid dim ∷ []) (points gid value lines)).0 h in
      (elim a [ inl e ↦ e | inr e ↦ absurd e ], (points-IsPoint gid value lines point).0 b),
  λ h.
      (IsIn-with_first i point (gid dim ∷ []) (points gid value lines)).1
        (inl h.0, (points-IsPoint gid value lines point).1 h.1),
)
points-IsPoint gid value (for_line level index start stop ∷ lines) (i ∷ point) =
    let is = range_of (value start) (value stop + 1 - value start) in
    (
      λ h.
          let (a, b) = (IsIn-with_first i point is (points gid value lines)).0 h in
          let (low, high) = (IsIn-range_of i (value start) (value stop + 1 - value start)).0 a in
          (low, (omega (arith, low, high), (points-IsPoint gid value lines point).0 b)),
      λ h. (IsIn-with_first i point is (points gid value lines)).1 (
        (IsIn-range_of i (value start) (value stop + 1 - value start)).1
            (h.0, omega (arith, h.0, h.1.0)),
        (points-IsPoint gid value lines point).1 h.1.1,
      ),
    )

-- If there are as many loop nests as index variables, the text is that of the lines, with the
-- indentation of what stands below them, and a work item that runs the lines is there exactly at the
-- points whose first three indices are its ids and whose other indices lie between the start and the
-- stop of their loop nest, the stop included.
pub schedule_loop-points :
    (get_global_id : ℕ → ℕ) (value : Piece → ℕ) (indices : List String) (ranges : List LoopRange)
    (param_dict : List (String × String))
    → length ranges ≡ length indices
    → (schedule_loop (length indices) indices ranges param_dict
        ≡ ok (print (lines_of indices ranges param_dict) ++ indent_loop 0 (length indices - 3)))
      × ((point : List ℕ)
          → IsIn point (points get_global_id value (lines_of indices ranges param_dict))
            ↔ IsPoint get_global_id value (lines_of indices ranges param_dict) point)
schedule_loop-points get_global_id value indices ranges param_dict e = (
  schedule_loop-lines indices ranges param_dict e,
  λ point. points-IsPoint get_global_id value (lines_of indices ranges param_dict) point,
)
