-- ===== src/Memory/Preserves.antt =====
-- Steps that keep the memory in use.
-- Memory from before is as it was: the host's cells in use, and the USM allocations.
use numba_dppy.Prelude.{arith, refl, ℕ, ◌<◌, ◌∙◌, ◌≡◌, ◌≤◌}
use numba_dppy.Range.{Queue}
use numba_dppy.Memory.{IsAllocated, IsFlattened, IsLawful, PyArray, Runtime, UsmMem, World, read}
use numba_dppy.Memory.Write.{update_ne}

abbrev pub Preserves : World → World → Type 0
Preserves w w' =
    ((c : ℕ) → c < w.next_cell → w'.host c ≡ w.host c)
    × (w.next_cell ≤ w'.next_cell)
    × ((i : ℕ) → i < w.next_usm → w'.usm i ≡ w.usm i)
    × (w.next_usm ≤ w'.next_usm)

pub Preserves-refl : (w : World) → Preserves w w
Preserves-refl w = (λ c h. refl, omega arith, λ i h. refl, omega arith)

pub Preserves-trans : (u v w : World) → Preserves u v → Preserves v w → Preserves u w
Preserves-trans u v w p q = (
  λ x h. q.0 x (omega arith) ∙ p.0 x h,
  omega arith,
  λ x h. q.2 x (omega arith) ∙ p.2 x h,
  omega arith,
)

pub Preserves-allocated :
    (n : ℕ) (q : Queue) (w : World) (m : UsmMem) (w' : World)
    → IsAllocated n q w m w'
    → Preserves w w'
Preserves-allocated n q w m w' h =
    let (size, on, id, next, kept, cells, old) = h in
    (λ c lt. rw kept, omega arith, old, omega arith)

pub Preserves-flattened :
    (a : PyArray) (w : World) (b : PyArray) (w' : World) → IsFlattened a w b w' → Preserves w w'
Preserves-flattened a w b w' h =
    let (_, _, _, _, _, _, _, _, _, _, kept, cells, same, next) = h in
    (kept, cells, λ i lt. rw same, omega arith)

module _ (R : Runtime) (L : IsLawful R) where
  pub Preserves-copied :
      (m : UsmMem) (a : PyArray) (v w : World)
      → v.next_usm ≤ m.id
      → Preserves v w
      → Preserves v (R.copy_from_host m a w)
  Preserves-copied m a v w h k =
      rw L.copy_from_host_lem
        (k.0, k.1, λ i lt. update_ne w.usm m.id (read a w) i (omega arith) ∙ k.2 i lt, k.3)
