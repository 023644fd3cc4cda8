-- ===== src/Range/Laws.antt =====
-- What `kernel[global_size, local_size]` configures, and which subscripts it refuses.
use numba_dppy.Prelude.{
  Bool-cases, List, Option, [], arith, if◌then◌else◌, inl, inr, length, length-reverse, none, refl,
  reverse, some, ℕ, ◌==◌, ◌∷◌, ◌≡◌, ◌≢◌,
}
use numba_dppy.Result.{>>=-eq-ok, Result, err, ok, value_error}
use numba_dppy.Range.{
  KernelBase, Queue, SizeArg, configure, ensure_valid_work_group_size, ensure_valid_work_item_grid,
  entries, getitem, int, is_empty_list, list, local_size_of, other, tuple,
}
use mathlib.Core.Path.{subst}

-- The dimensions that an entry states, where it states any.
abbrev pub dimensions : SizeArg → Option (List ℕ)
dimensions (int n) = some (n ∷ [])
dimensions (list val) = some val
dimensions (tuple val) = some val
dimensions other = none

-- What the local size becomes: absent, or as many dimensions as the grid has.
abbrev pub IsLocalSize : List SizeArg → List ℕ → Option (List ℕ) → Type 0
IsLocalSize (l ∷ []) gs none = l ≡ list []
IsLocalSize (l ∷ []) gs (some ls) =
    (v : List ℕ) × (dimensions l ≡ some v) × (ls ≡ reverse v) × (length v ≡ length gs)
IsLocalSize _ gs ls = ls ≡ none

grid_lem :
    (g : SizeArg) {gs : List ℕ}
    → ensure_valid_work_item_grid g ≡ ok gs
    → (v : List ℕ) × (dimensions g ≡ some v) × (gs ≡ reverse v)
unfolding ensure_valid_work_item_grid
grid_lem other h = cc
grid_lem (int n) h = (n ∷ [], refl, cc)
grid_lem (list val) h = (val, refl, cc)
grid_lem (tuple val) h = (val, refl, cc)

group_lem :
    (l : SizeArg) (gs ls : List ℕ)
    → ensure_valid_work_group_size l gs ≡ ok ls
    → (v : List ℕ) × (dimensions l ≡ some v) × (ls ≡ reverse v) × (length v ≡ length gs)
unfolding ensure_valid_work_group_size
group_lem other gs ls h = cc
group_lem (int n) gs ls h = (n ∷ [], refl, ground arith, ground arith)
group_lem (list val) gs ls h = (val, refl, ground arith, ground arith)
group_lem (tuple val) gs ls h = (val, refl, ground arith, ground arith)

local_size_of_lem :
    (rest : List SizeArg) (gs : List ℕ) (ls : Option (List ℕ))
    → local_size_of rest gs ≡ ok ls
    → IsLocalSize rest gs ls
unfolding local_size_of is_empty_list
local_size_of_lem [] gs ls h = ground arith
local_size_of_lem (list [] ∷ []) gs none h = refl
local_size_of_lem (list [] ∷ []) gs (some ls) h = cc
local_size_of_lem (l ∷ []) gs none h = absurd (ground arith)
local_size_of_lem (l ∷ []) gs (some ls) h = group_lem l gs ls (ground arith)
local_size_of_lem (l ∷ m ∷ rest) gs ls h = ground arith

grid_ok :
    (g : SizeArg) (v : List ℕ)
    → dimensions g ≡ some v
    → ensure_valid_work_item_grid g ≡ ok (reverse v)
unfolding ensure_valid_work_item_grid
grid_ok (int n) v h = ground arith
grid_ok (list val) v h = ground arith
grid_ok (tuple val) v h = ground arith
grid_ok other v h = cc

local_size_ok :
    (l : SizeArg) (gs w : List ℕ)
    → dimensions l ≡ some w
    → l ≢ list []
    → local_size_of (l ∷ []) gs
      ≡ (if length w == length gs then ok (some (reverse w)) else err value_error)
unfolding local_size_of ensure_valid_work_group_size is_empty_list
local_size_ok (int n) gs w h ne = ground arith
local_size_ok (list []) gs w h ne = absurd (ne refl)
local_size_ok (list (x ∷ val)) gs w h ne = ground arith
local_size_ok (tuple val) gs w h ne = ground arith
local_size_ok other gs w h ne = cc

abbrev pub IsConfigured : Queue → KernelBase → SizeArg → List SizeArg → KernelBase → Type 0
IsConfigured q self g rest k =
    (v : List ℕ) × (dimensions g ≡ some v)
    × (k.global_size ≡ reverse v)
    × IsLocalSize rest k.global_size k.local_size
    × (k.sycl_queue ≡ some q)
    × (k.valid_access_types ≡ self.valid_access_types)

-- `kernel[g, l, ...]`, where it returns: the kernel stands on the current queue and keeps its
-- access types; its global size is the reversal of the dimensions of `g`, and its local size is
-- absent for a missing or empty-list `l` or where a third entry stands, and otherwise the reversal
-- of as many dimensions as `g` has.
pub getitem-IsConfigured :
    (q : Queue) (self : KernelBase) (g : SizeArg) (rest : List SizeArg) (k : KernelBase)
    → getitem (ok q) self (entries (g ∷ rest)) ≡ ok k
    → IsConfigured q self g rest k
unfolding getitem configure
getitem-IsConfigured q self g rest k h =
    let (gs, hg, h') = >>=-eq-ok (ensure_valid_work_item_grid g) _ h in
    let (ls, hl, e) = >>=-eq-ok (local_size_of rest gs) _ h' in
    let (v, hv, hr) = grid_lem g hg in
    let e' : configure self (some q) gs ls ≡ k = cc e in
    subst (IsConfigured q self g rest) e' (v, hv, hr, local_size_of_lem rest gs ls hl, refl, refl)

-- With two entries that state dimensions, the second no empty list, the subscript is accepted
-- exactly if they are as many, and refused with a ValueError otherwise.
pub getitem_two :
    (q : Queue) (self : KernelBase) (g l : SizeArg) (v w : List ℕ)
    → dimensions g ≡ some v
    → dimensions l ≡ some w
    → l ≢ list []
    → getitem (ok q) self (entries (g ∷ l ∷ [])) ≡ (
        if length w == length v
        then ok (configure self (some q) (reverse v) (some (reverse w)))
        else err value_error)
unfolding getitem
getitem_two q self g l v w hg hl ne =
    rw (grid_ok g v hg, local_size_ok l (reverse v) w hl ne, length-reverse v)
      (elim (Bool-cases (length w == length v)) [ inl e ↦ rw e | inr e ↦ rw e ])

-- A third entry is not refused: the kernel is configured as if the grid stood alone, and a local
-- size beside it is dropped.
pub getitem_three :
    (q : Result Queue) (self : KernelBase) (g l x : SizeArg) (rest : List SizeArg)
    → getitem q self (entries (g ∷ l ∷ x ∷ rest)) ≡ getitem q self (entries (g ∷ []))
unfolding getitem local_size_of
getitem_three q self g l x rest = refl
