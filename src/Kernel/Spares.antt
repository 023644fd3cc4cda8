-- ===== src/Kernel/Spares.antt =====
-- Unpacking arguments writes no host memory that was in use, whether it succeeds or raises.
use numba_dppy.Prelude.{
  Bool, List, Option, String, ap, arith, false, if◌then◌else◌, none, refl, some, subst, sym, true,
  ℕ, ◌<◌, ◌∙◌, ◌∷◌, ◌≡◌, ◌≤◌,
}
use numba_dppy.Exec.{Exec, lift, modify, or_raise, pure, raise, raise_if, ◌>>=◌}
use numba_dppy.Result.{Error, Result, err, ok}
use numba_dppy.Range.{Queue}
use numba_dppy.Argument.{ArgType, PyValue, array_type, unpack_device_array_argument, usm_nd_array}
use numba_dppy.Memory.{IsLawful, PyArray, Runtime, UsmKind, UsmMem, World}
use numba_dppy.Usm.{
  Allocated, QueueArg, as_usm_obj, checked_queue, copy_from_numpy_to_usm_obj, has_usm_memory,
  new_usm_obj,
}
use numba_dppy.Access.{AccessType}
use numba_dppy.Kernel.{
  Kernel, Unpacked, copy_array, copy_to_device, share_array, unpack_argument, unpack_arguments,
  unpack_array, unpack_usm_nd_array,
}

-- No host cell that was in use has changed, and those are still in use.
abbrev pub HostKept : World → World → Type 0
HostKept w w' = ((c : ℕ) → c < w.next_cell → w'.host c ≡ w.host c) × (w.next_cell ≤ w'.next_cell)

-- Whatever its outcome, the call writes no host cell that was in use.
pub record SparesHost {A : Type 0} (m : Exec World A) : Type 0 where
  pub run : (w : World) → HostKept w (m w).1

HostKept-same : (w w' : World) → w' ≡ w → HostKept w w'
HostKept-same w w' h = (λ c lt. rw h, omega (arith, ap (λ (v : World). v.next_cell) h))

module _ {A : Type 0} where
  SparesHost-pure : (a : A) → SparesHost (pure {S = World} a)
  SparesHost-pure a = record { run = λ w. HostKept-same w w refl }

  SparesHost-raise : (e : Error) → SparesHost (raise {S = World} {A = A} e)
  SparesHost-raise e = record { run = λ w. HostKept-same w w refl }

  SparesHost-lift : (r : Result A) → SparesHost (lift {S = World} r)
  SparesHost-lift r = record { run = λ w. HostKept-same w w refl }

  SparesHost-or_raise : (o : Option A) (e : Error) → SparesHost (or_raise {S = World} o e)
  SparesHost-or_raise none e = SparesHost-raise e
  SparesHost-or_raise (some a) e = SparesHost-pure a

  SparesHost-if :
      (b : Bool) (m n : Exec World A)
      → SparesHost m
      → SparesHost n
      → SparesHost (if b then m else n)
  SparesHost-if true m n hm hn = hm
  SparesHost-if false m n hm hn = hn

SparesHost-raise_if : (b : Bool) (e : Error) → SparesHost (raise_if b e)
SparesHost-raise_if true e = SparesHost-raise e
SparesHost-raise_if false e = SparesHost-pure tt

SparesHost-bind :
    {A B : Type 0} (m : Exec World A) (f : A → Exec World B)
    → SparesHost m
    → ((a : A) → SparesHost (f a))
    → SparesHost (m >>= f)
SparesHost-bind {A} {B} m f hm hf = record { run = λ w. outcome w (m w) (hm.run w) }
  where
    outcome :
        (w : World) (r : Result A × World)
        → HostKept w r.1
        → let out : Result B × World = elim r.0 [ ok a ↦ f a r.1 | err e ↦ (err e, r.1) ] in
          HostKept w out.1
    outcome w (ok a, v) k =
        (λ c lt. ((hf a).run v).0 c (omega arith) ∙ k.0 c lt, omega (arith, ((hf a).run v).1))
    outcome w (err e, v) k = k

ruleset spares_rules = (
  SparesHost-bind, SparesHost-if, SparesHost-raise_if, SparesHost-or_raise, SparesHost-pure,
  SparesHost-lift, SparesHost-raise,
)

module _ (R : Runtime) (L : IsLawful R) where
  SparesHost-allocate : (k : UsmKind) (n : ℕ) (q : Queue) → SparesHost (R.allocate k n q)
  SparesHost-allocate k n q = record { run = λ w. outcome w (R.allocate k n q w) refl }
    where
      outcome : (w : World) (r : Result UsmMem × World) → R.allocate k n q w ≡ r → HostKept w r.1
      outcome w (ok m, v) e =
          let (_, _, _, _, kept, cells, _) = L.allocate_ok k n q w m v e in
          (λ c lt. rw kept, omega arith)
      outcome w (err x, v) e = HostKept-same w v (L.allocate_err k n q w x v e)

  SparesHost-flatten : (a : PyArray) → SparesHost (R.flatten a)
  SparesHost-flatten a = record { run = λ w. outcome w (R.flatten a w) refl }
    where
      outcome : (w : World) (r : Result PyArray × World) → R.flatten a w ≡ r → HostKept w r.1
      outcome w (ok b, v) e =
          let (_, _, _, _, _, _, _, _, _, _, kept, cells, _, _) = L.flatten_ok a w b v e in
          (kept, cells)
      outcome w (err x, v) e = HostKept-same w v (L.flatten_err a w x v e)

  SparesHost-copy_from : (m : UsmMem) (a : PyArray) → SparesHost (modify (R.copy_from_host m a))
  SparesHost-copy_from m a = record {
    run = λ w. subst (HostKept w) (sym (L.copy_from_host_lem m a w)) (λ c lt. refl, omega arith);
  }

  SparesHost-copy_from_numpy :
      (u : Allocated) (a : PyArray) → SparesHost (copy_from_numpy_to_usm_obj R u a)
  unfolding copy_from_numpy_to_usm_obj
  SparesHost-copy_from_numpy u a = search (spares_rules, SparesHost-copy_from) depth 12

  SparesHost-new_usm_obj :
      (a : PyArray) (q : Queue) (t : String) (copy : Bool) → SparesHost (new_usm_obj R a q t copy)
  unfolding new_usm_obj
  SparesHost-new_usm_obj a q t copy =
      search (spares_rules, SparesHost-allocate, SparesHost-copy_from_numpy) depth 12

  SparesHost-as_usm_obj :
      (a : PyArray) (q : QueueArg) (t : String) (copy : Bool) → SparesHost (as_usm_obj R a q t copy)
  unfolding as_usm_obj
  SparesHost-as_usm_obj a q t copy =
      SparesHost-bind (lift (checked_queue q)) _ (SparesHost-lift (checked_queue q)) λ on.
        elim (has_usm_memory a)
          as (λ o. SparesHost (elim o [ some m ↦ pure m | none ↦ new_usm_obj R a on t copy ])) [
            | some m ↦ SparesHost-pure m
            | none ↦ SparesHost-new_usm_obj a on t copy
          ]

module _ (R : Runtime) (L : IsLawful R) (self : Kernel) where
  SparesHost-device_array_argument :
      (size itemsize : ℕ) (buf : UsmMem) (shape strides : List ℕ) (ndim : ℕ)
      → SparesHost (unpack_device_array_argument size itemsize buf shape strides ndim)
  unfolding unpack_device_array_argument
  SparesHost-device_array_argument size itemsize buf shape strides ndim =
      search spares_rules depth 12

  SparesHost-copy_to_device :
      (val : PyArray) (access_type : AccessType)
      → SparesHost (copy_to_device R self val access_type)
  unfolding copy_to_device
  SparesHost-copy_to_device val access_type =
      search
        (
          spares_rules,
          SparesHost-as_usm_obj R L,
          SparesHost-flatten R L,
          SparesHost-copy_from_numpy R L,
        )
        depth 12

  SparesHost-unpack_array :
      (val : PyArray) (access_type : AccessType) → SparesHost (unpack_array R self val access_type)
  unfolding unpack_array
  SparesHost-unpack_array val access_type =
      elim (has_usm_memory val)
        as (λ o. SparesHost {A = Unpacked} (elim o [
          | some usm_mem ↦ share_array R self val usm_mem
          | none ↦ copy_array R self val access_type
        ])) [
          | some m ↦ search (spares_rules, SparesHost-device_array_argument) depth 8
          | none ↦
              search (spares_rules, SparesHost-device_array_argument, SparesHost-copy_to_device)
                depth 8
        ]

  pub SparesHost-unpack_argument :
      (ty : ArgType) (val : PyValue) (access_type : AccessType)
      → SparesHost (unpack_argument R self ty val access_type)
  unfolding unpack_argument unpack_usm_nd_array
  SparesHost-unpack_argument (array_type usm_nd_array _ _) val access_type =
      search (spares_rules, SparesHost-device_array_argument) depth 12
  SparesHost-unpack_argument _ val access_type =
      search (spares_rules, SparesHost-unpack_array) depth 8

  pub SparesHost-unpack_arguments :
      (tys : List ArgType) (vals : List PyValue) (rest : List AccessType)
      → SparesHost (unpack_arguments R self tys vals rest)
  unfolding unpack_arguments
  SparesHost-unpack_arguments (ty ∷ tys) (val ∷ vals) (a ∷ rest) =
      SparesHost-bind (unpack_argument R self ty val a) _ (SparesHost-unpack_argument ty val a) λ p.
        SparesHost-bind (unpack_arguments R self tys vals rest) _
          (SparesHost-unpack_arguments tys vals rest) (λ q. SparesHost-pure _)
  SparesHost-unpack_arguments _ _ _ = search spares_rules
