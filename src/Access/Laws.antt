-- ===== src/Access/Laws.antt =====
-- Where the access types of the arguments come to stand in the ordered list.
use numba_dppy.Prelude.{
  Bool-cases, List, String, [], arith, if◌then◌else◌, inl, inr, leb, length, length-append, map,
  none, some, sym, ◌++◌, ◌+◌, ◌∙◌, ◌∷◌, ◌≡◌, ◌≤◌,
}
use numba_dppy.Access.{
  AccessDict, AccessType, append_keys, contains, get_ordered_arg_access_types, order_from,
}
use mathlib.Core.List.{append-nil, append_assoc}

-- The access types under which a name is listed.
abbrev pub keys_of : String → AccessDict → List AccessType
keys_of a [] = []
keys_of a ((key, names) ∷ rest) =
    if contains names a then some key ∷ keys_of a rest else keys_of a rest

abbrev first : List AccessType → AccessType
first [] = none
first (t ∷ _) = t

-- The access type of a name: the first under which it is listed.
abbrev pub access_of : AccessDict → String → AccessType
access_of d a = first (keys_of a d)

-- No parameter is listed under two access types.
abbrev pub IsUnambiguous : AccessDict → List String → Type 0
IsUnambiguous d [] = Unit
IsUnambiguous d (a ∷ rest) = (length (keys_of a d) ≤ 1) × IsUnambiguous d rest

append_keys_lem :
    (a : String) (d : AccessDict) (o : List AccessType) → append_keys a d o ≡ o ++ keys_of a d
unfolding append_keys
append_keys_lem a [] o = sym (append-nil o)
append_keys_lem a ((key, names) ∷ rest) o = elim (Bool-cases (contains names a)) [
  | inl e ↦ rw (e, append_keys_lem a rest (o ++ some key ∷ []), append_assoc)
  | inr e ↦ rw (e, append_keys_lem a rest o)
]

-- one round of the loop, by the keys that it found
round_keys :
    (ks o : List AccessType)
    → length ks ≤ 1
    → (if leb (length (o ++ ks)) (length o) then (o ++ ks) ++ none ∷ [] else o ++ ks)
      ≡ o ++ first ks ∷ []
round_keys [] o h = rw append-nil (ground arith)
round_keys (k ∷ []) o h = ground (arith, length-append o (k ∷ []))
round_keys (k ∷ l ∷ ks) o h = absurd (omega arith)

order_from_lem :
    (d : AccessDict) (params : List String) (o : List AccessType)
    → IsUnambiguous d params
    → order_from d (length o) params o ≡ o ++ map (access_of d) params
unfolding order_from
order_from_lem d [] o h = sym (append-nil o)
order_from_lem d (a ∷ rest) o h =
    let grown : length o + 1 ≡ length (o ++ access_of d a ∷ []) =
      omega (arith, length-append o (access_of d a ∷ [])) in
    rw (append_keys_lem a d o, round_keys (keys_of a d) o h.0, grown)
      (order_from_lem d rest (o ++ access_of d a ∷ []) h.1
        ∙ append_assoc o (access_of d a ∷ []) (map (access_of d) rest))

-- If no parameter is listed under two access types, each gets the access type under which it is
-- listed, or `None`, at its own position.
pub get_ordered_arg_access_types-eq-map :
    (params : List String) (d : AccessDict)
    → IsUnambiguous d params
    → get_ordered_arg_access_types params d ≡ map (access_of d) params
unfolding get_ordered_arg_access_types
get_ordered_arg_access_types-eq-map params d h = order_from_lem d params [] h
