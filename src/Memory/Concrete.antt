-- ===== src/Memory/Concrete.antt =====
-- A machine that meets the laws of `Runtime`, for tests: allocations never fail, and `kernel`
-- maps the USM allocations to what they hold after a submission.
use numba_dppy.Prelude.{
  List, [], ap, arith, if◌then◌else◌, length, length-map, map, none, refl, subst, suc, sym, true,
  zero, ℕ, ◌+◌, ◌==◌, ◌∙◌, ◌∷◌, ◌≡◌, ◌≤◌,
}
use numba_dppy.Exec.{ok-subst}
use numba_dppy.Result.{err, ok, value_error}
use numba_dppy.Memory.{
  AreDistinct, AreFresh, IsAllocated, IsFlattened, IsLawful, PyArray, Runtime, World, prod, read,
  update, write,
}
use numba_dppy.Memory.Write.{IsApart-AreFresh, map-write, write_apart}

abbrev pub cells_from : ℕ → ℕ → List ℕ
cells_from c zero = []
cells_from c (suc n) = c ∷ cells_from (c + 1) n

abbrev packed_copy : PyArray → List ℕ → PyArray
packed_copy a cs = record a {
  is_ndarray = true;
  usm = none;
  base = none;
  shape = prod a.shape ∷ [];
  strides = a.itemsize ∷ [];
  suai_strides = none;
  c_contiguous = true;
  cells = cs;
}

abbrev pub concrete : ((ℕ → List ℕ) → ℕ → List ℕ) → Runtime
concrete kernel = record {
  flatten = λ a w.
      let cs = cells_from w.next_cell (length a.cells) in
      (
        ok (packed_copy a cs),
        record w { host = write cs (read a w) w.host; next_cell = w.next_cell + length a.cells },
      );
  copyto = λ dst src w.
      if length dst.shape == length src.shape
      then (ok tt, record w { host = write dst.cells (read src w) w.host })
      else (err value_error, w);
  allocate = λ k n q w. (
    ok (record { id = w.next_usm; size = n; sycl_queue = q }),
    record w { next_usm = suc w.next_usm },
  );
  copy_from_host = λ m a w. record w { usm = update w.usm m.id (read a w) };
  copy_to_host = λ m a w. record w { host = write a.cells (w.usm m.id) w.host };
  submit = λ q args gs ls w. (ok tt, record w { usm = kernel w.usm });
}

length-cells_from : (c n : ℕ) → length (cells_from c n) ≡ n
length-cells_from c zero = refl
length-cells_from c (suc n) = ap suc (length-cells_from (c + 1) n)

AreFresh-cells_from : (c k n : ℕ) → k ≤ c → AreFresh k (c + n) (cells_from c n)
AreFresh-cells_from c k zero h = tt
AreFresh-cells_from c k (suc n) h =
    let e : c + 1 + n ≡ c + suc n = omega arith in
    (
      h,
      omega arith,
      subst (λ t. AreFresh k t (cells_from (c + 1) n)) e
          (AreFresh-cells_from (c + 1) k n (omega arith)),
    )

AreDistinct-cells_from : (c n : ℕ) → AreDistinct (cells_from c n)
AreDistinct-cells_from c zero = tt
AreDistinct-cells_from c (suc n) = (
  IsApart-AreFresh c (c + 1) (c + 1 + n) (cells_from (c + 1) n) (omega arith)
      (AreFresh-cells_from (c + 1) (c + 1) n (omega arith)),
  AreDistinct-cells_from (c + 1) n,
)

map-write_cells :
    (a : PyArray) (w : World)
    → map
        (write (cells_from w.next_cell (length a.cells)) (read a w) w.host)
        (cells_from w.next_cell (length a.cells))
      ≡ read a w
map-write_cells a w =
    map-write (cells_from w.next_cell (length a.cells)) (read a w) w.host
      (AreDistinct-cells_from w.next_cell (length a.cells))
      (length-map w.host a.cells ∙ sym (length-cells_from w.next_cell (length a.cells)))

pub concrete-IsLawful : (kernel : (ℕ → List ℕ) → ℕ → List ℕ) → IsLawful (concrete kernel)
concrete-IsLawful kernel = record {
  copy_from_host_lem = λ m a w. refl;
  copy_to_host_lem = λ m a w. refl;
  allocate_ok = λ k n q w m w' h.
      ok-subst (IsAllocated n q w) _ m _ w' h (refl, refl, refl, refl, refl, refl, λ i lt. refl);
  allocate_err = λ k n q w e w' h. cc;
  flatten_ok = λ a w b w' h. ok-subst (IsFlattened a w) _ b _ w' h (
    refl,
    refl,
    refl,
    refl,
    refl,
    length-cells_from w.next_cell (length a.cells),
    refl,
    AreDistinct-cells_from w.next_cell (length a.cells),
    AreFresh-cells_from w.next_cell w.next_cell (length a.cells) (omega arith),
    map-write_cells a w,
    λ c lt. write_apart c (cells_from w.next_cell (length a.cells)) (read a w) w.host (
        IsApart-AreFresh c w.next_cell (w.next_cell + length a.cells) _ lt
          (AreFresh-cells_from w.next_cell w.next_cell (length a.cells) (omega arith))),
    omega arith,
    refl,
    refl,
  );
  flatten_err = λ a w e w' h. cc;
  copyto_ok = λ dst src w h. ground (arith, ap length h);
  copyto_apart = λ dst src w c h. ground (arith, write_apart c dst.cells (read src w) w.host h);
  submit_host = λ q args gs ls w. (refl, refl);
}
