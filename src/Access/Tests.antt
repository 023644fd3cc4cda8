-- ===== src/Access/Tests.antt =====
-- The access types of concrete parameter lists, and the laws at inputs that meet their hypotheses.
use numba_dppy.Prelude.{List, String, [], arith, false, map, none, refl, some, true, ◌∷◌, ◌≡◌}
use numba_dppy.Range.{new_kernel_base}
use numba_dppy.Access.{AccessDict, check_for_invalid_access_type, get_ordered_arg_access_types}
use numba_dppy.Access.Laws.{access_of, get_ordered_arg_access_types-eq-map}

abbrev parameters : List String
parameters = "A" ∷ "B" ∷ "N" ∷ "C" ∷ []

abbrev dict : AccessDict
dict = ("read_only", "A" ∷ "B" ∷ []) ∷ ("write_only", "C" ∷ []) ∷ []

-- "A" is read and written, which the dict may not state by two entries
abbrev twice : AccessDict
twice = ("read_only", "A" ∷ "B" ∷ []) ∷ ("write_only", "A" ∷ "C" ∷ []) ∷ []

ordered_run :
    get_ordered_arg_access_types parameters dict
    ≡ some "read_only" ∷ some "read_only" ∷ none ∷ some "write_only" ∷ []
unfolding get_ordered_arg_access_types
ordered_run = refl

twice_run :
    get_ordered_arg_access_types parameters twice
    ≡ some "read_only" ∷ some "write_only" ∷ some "read_only" ∷ some "write_only" ∷ []
unfolding get_ordered_arg_access_types
twice_run = refl

check_run :
    (check_for_invalid_access_type new_kernel_base (some "read_only") ≡ false)
    × (check_for_invalid_access_type new_kernel_base (some "readonly") ≡ true)
unfolding check_for_invalid_access_type
check_run = (refl, refl)

get_ordered_arg_access_types-eq-map_example :
    get_ordered_arg_access_types parameters dict ≡ map (access_of dict) parameters
get_ordered_arg_access_types-eq-map_example =
    get_ordered_arg_access_types-eq-map parameters dict (omega arith)
