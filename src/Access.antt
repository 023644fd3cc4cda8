-- ===== src/Access.antt =====
-- The access types of a kernel's arguments: `get_ordered_arg_access_types` and
-- `check_for_invalid_access_type` of numba_dppy/compiler.py.
pub mod Laws
mod Tests
use numba_dppy.Prelude.{
  Bool, List, Option, String, [], false, if◌then◌else◌, leb, length, none, not, some, str_eq, true,
  ℕ, ◌++◌, ◌+◌, ◌||◌, ◌∷◌,
}
use numba_dppy.Range.{KernelBase}

-- An access type as the user's dict spells it, or `None`.
abbrev pub AccessType : Type 0
AccessType = Option String

-- The argument `access_types` in the order of the dict: each access type with the names of its
-- arguments. `None` and the empty dict are both passed over by `if access_types`.
abbrev pub AccessDict : Type 0
AccessDict = List (String × List String)

-- `arg_name in names`
abbrev pub contains : List String → String → Bool
contains [] a = false
contains (x ∷ xs) a = str_eq a x || contains xs a

-- `for key in access_types: if arg_name in access_types[key]: ordered.append(key)`
unfoldable pub append_keys : String → AccessDict → List AccessType → List AccessType
append_keys arg_name [] ordered = ordered
append_keys arg_name ((key, names) ∷ rest) ordered =
    append_keys arg_name rest
      (if contains names arg_name then ordered ++ some key ∷ [] else ordered)

-- `for idx, arg_name in enumerate(sig.parameters)`, from `idx` on
unfoldable pub order_from : AccessDict → ℕ → List String → List AccessType → List AccessType
unfolding append_keys
order_from access_types idx [] ordered = ordered
order_from access_types idx (arg_name ∷ rest) ordered =
    let found = append_keys arg_name access_types ordered in
    order_from access_types (idx + 1) rest
      (if leb (length found) idx then found ++ none ∷ [] else found)

-- on the names of the function's parameters
unfoldable pub get_ordered_arg_access_types : List String → AccessDict → List AccessType
unfolding order_from
get_ordered_arg_access_types parameters access_types = order_from access_types 0 parameters []

-- `access_type not in self.valid_access_types`; the message that it prints is not modelled.
-- `None` is no key of the dict.
unfoldable pub check_for_invalid_access_type : KernelBase → AccessType → Bool
check_for_invalid_access_type self none = true
check_for_invalid_access_type self (some t) = not (contains self.valid_access_types t)
