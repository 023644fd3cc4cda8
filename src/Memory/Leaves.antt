-- ===== src/Memory/Leaves.antt =====
-- Calls that leave a cell of host memory alone.
-- Whatever its outcome, the call leaves the host cell `c` alone.
use numba_dppy.Prelude.{Bool, Option, false, if◌then◌else◌, none, refl, some, true, ℕ, ◌∙◌, ◌≡◌}
use numba_dppy.Exec.{Exec, or_raise, pure, raise_if, ◌>>=◌}
use numba_dppy.Result.{Error, Result, ok, err}
use numba_dppy.Memory.{World}

pub record LeavesCell {A : Type 0} (c : ℕ) (m : Exec World A) : Type 0 where
  pub run : (w : World) → (m w).1.host c ≡ w.host c

module _ (c : ℕ) where
  pub LeavesCell-bind :
      {A B : Type 0} (m : Exec World A) (f : A → Exec World B)
      → LeavesCell c m
      → ((a : A) → LeavesCell c (f a))
      → LeavesCell c (m >>= f)
  LeavesCell-bind {A} {B} m f hm hf = record { run = λ w. outcome w (m w) (hm.run w) }
    where
      outcome :
          (w : World) (r : Result A × World)
          → r.1.host c ≡ w.host c
          → let out : Result B × World = elim r.0 [ ok a ↦ f a r.1 | err e ↦ (err e, r.1) ] in
            out.1.host c ≡ w.host c
      outcome w (ok a, v) k = (hf a).run v ∙ k
      outcome w (err e, v) k = k

  pub LeavesCell-pure : {A : Type 0} (a : A) → LeavesCell c (pure {S = World} a)
  LeavesCell-pure a = record { run = λ w. refl }

  pub LeavesCell-raise_if : (b : Bool) (e : Error) → LeavesCell c (raise_if b e)
  LeavesCell-raise_if true e = record { run = λ w. refl }
  LeavesCell-raise_if false e = record { run = λ w. refl }

  pub LeavesCell-or_raise :
      {A : Type 0} (o : Option A) (e : Error) → LeavesCell c (or_raise {S = World} o e)
  LeavesCell-or_raise none e = record { run = λ w. refl }
  LeavesCell-or_raise (some a) e = record { run = λ w. refl }

  pub LeavesCell-if :
      {A : Type 0} (b : Bool) (m n : Exec World A)
      → (b ≡ true → LeavesCell c m)
      → LeavesCell c n
      → LeavesCell c (if b then m else n)
  LeavesCell-if true m n hm hn = hm refl
  LeavesCell-if false m n hm hn = hn

pub ruleset leaves_rules =
    (LeavesCell-bind, LeavesCell-pure, LeavesCell-raise_if, LeavesCell-or_raise, LeavesCell-if)
