-- ===== src/Kernel/Frame.antt =====
-- Which host memory a call may write: the elements of the arrays that are copied back, and no others.
use numba_dppy.Prelude.{
  Bool-cases, List, Option, [], ap, arith, inl, inr, none, refl, some, subst, true, ℕ, ◌++◌, ◌<◌,
  ◌∙◌, ◌∷◌, ◌≡◌,
}
use numba_dppy.Exec.{>>=-returns, Exec, modify, or_raise, pure, ◌>>=◌}
use numba_dppy.Result.{external_error, Result, err, ok}
use numba_dppy.Range.{Queue}
use numba_dppy.Argument.{ArgType, PyValue, array}
use numba_dppy.Memory.{IsApart, IsLawful, KernelArg, PyArray, Runtime, UsmMem, World}
use numba_dppy.Memory.Write.{IsApart-AreFresh, write_apart}
use numba_dppy.Memory.Leaves.{
  LeavesCell, LeavesCell-bind, LeavesCell-or_raise, LeavesCell-pure, leaves_rules,
}
use numba_dppy.Usm.{Allocated, copy_to_numpy_from_usm_obj, has_usm_memory}
use numba_dppy.Access.{AccessType}
use numba_dppy.Kernel.{
  DeviceArray, Kernel, Unpacked, call, copies_back, finish, pack_argument, pack_arguments,
  unpack_argument, unpack_arguments,
}
use numba_dppy.Kernel.Unpack.{IsPrepared, copy_to_device-IsPrepared}
use numba_dppy.Kernel.Returns.{unpack_argument_kept}
use numba_dppy.Kernel.Spares.{HostKept, SparesHost-unpack_argument, SparesHost-unpack_arguments}

-- `c` is no element of a host array that the call may copy back: one with no USM memory of its own,
-- by its access type.
abbrev pub IsSpared : Kernel → ℕ → List PyValue → List AccessType → Type 0
IsSpared self c (array a ∷ vals) (t ∷ rest) =
    (has_usm_memory a ≡ none → copies_back self.base t ≡ true → IsApart c a.cells)
    × IsSpared self c vals rest
IsSpared self c (_ ∷ vals) (t ∷ rest) = IsSpared self c vals rest
IsSpared self c _ _ = Unit {0}

-- the same of the device arrays, with the packed copies
abbrev IsSparedBack : Kernel → ℕ → List (Option DeviceArray) → List AccessType → Type 0
IsSparedBack self c (some d ∷ ds) (t ∷ rest) =
    (copies_back self.base t ≡ true → IsApart c d.orig_ndarr.cells × IsApart c d.packed_ndarr.cells)
    × IsSparedBack self c ds rest
IsSparedBack self c (none ∷ ds) (t ∷ rest) = IsSparedBack self c ds rest
IsSparedBack self c _ _ = Unit {0}

module _ (R : Runtime) (L : IsLawful R) (self : Kernel) where
  LeavesCell-copy_to :
      (c : ℕ) (m : UsmMem) (a : PyArray)
      → IsApart c a.cells
      → LeavesCell c (modify (R.copy_to_host m a))
  LeavesCell-copy_to c m a h = record {
    run = λ w. rw L.copy_to_host_lem (write_apart c a.cells (w.usm m.id) w.host h);
  }

  LeavesCell-copy_to_numpy :
      (c : ℕ) (u : Allocated) (a : PyArray)
      → IsApart c a.cells
      → LeavesCell c (copy_to_numpy_from_usm_obj R u a)
  unfolding copy_to_numpy_from_usm_obj
  LeavesCell-copy_to_numpy c u a h = search (leaves_rules, LeavesCell-copy_to) depth 12

  LeavesCell-copyto :
      (c : ℕ) (dst src : PyArray) → IsApart c dst.cells → LeavesCell c (R.copyto dst src)
  LeavesCell-copyto c dst src h = record { run = λ w. L.copyto_apart dst src w c h }

  LeavesCell-pack_argument :
      (c : ℕ) (d : DeviceArray) (t : AccessType)
      → (copies_back self.base t ≡ true → IsApart c d.orig_ndarr.cells)
      → (copies_back self.base t ≡ true → IsApart c d.packed_ndarr.cells)
      → LeavesCell c (pack_argument R self (some d) t)
  unfolding pack_argument
  LeavesCell-pack_argument c d t h k =
      search (leaves_rules, LeavesCell-copy_to_numpy, LeavesCell-copyto) depth 8

  LeavesCell-pack_arguments :
      (c : ℕ) (ds : List (Option DeviceArray)) (rest : List AccessType)
      → IsSparedBack self c ds rest
      → LeavesCell c (pack_arguments R self ds rest)
  unfolding pack_arguments pack_argument
  LeavesCell-pack_arguments c (some d ∷ ds) (t ∷ rest) h =
      LeavesCell-bind c (pack_argument R self (some d) t) _
        (LeavesCell-pack_argument c d t (λ e. (h.0 e).0) (λ e. (h.0 e).1))
        (λ _. LeavesCell-pack_arguments c ds rest h.1)
  LeavesCell-pack_arguments c (none ∷ ds) (t ∷ rest) h =
      LeavesCell-bind c (pure tt) _ (LeavesCell-pure c tt)
        (λ _. LeavesCell-pack_arguments c ds rest h)
  LeavesCell-pack_arguments c _ _ h = LeavesCell-pure c tt

  prepared-IsApart :
      (c : ℕ) (a : PyArray) (t : AccessType) (w : World) (d : DeviceArray) (w' : World)
      → c < w.next_cell
      → IsApart c a.cells
      → IsPrepared R L self a t w d w'
      → IsApart c d.orig_ndarr.cells × IsApart c d.packed_ndarr.cells
  prepared-IsApart c a t w d w' lt apart prepared =
      let (_, orig, _, _, _, _, _, whole, packed) = prepared in
      elim (Bool-cases a.c_contiguous) [
        | inl e ↦ (rw orig apart, rw (whole e) apart)
        | inr e ↦
            let (_, _, _, _, fresh) = packed e in
            (
              rw orig apart,
              IsApart-AreFresh c w.next_cell w'.next_cell d.packed_ndarr.cells lt fresh,
            )
      ]

  spared_head :
      (c : ℕ) (val : PyValue) (a : PyArray) (vals : List PyValue) (t : AccessType)
      (rest : List AccessType)
      → val ≡ array a
      → IsSpared self c (val ∷ vals) (t ∷ rest)
      → has_usm_memory a ≡ none
      → copies_back self.base t ≡ true
      → IsApart c a.cells
  spared_head c val a vals t rest e h = (subst (λ v. IsSpared self c (v ∷ vals) (t ∷ rest)) e h).0

  spared_tail :
      (c : ℕ) (val : PyValue) (vals : List PyValue) (t : AccessType) (rest : List AccessType)
      → IsSpared self c (val ∷ vals) (t ∷ rest)
      → IsSpared self c vals rest
  spared_tail c (array a) vals t rest h = h.1
  spared_tail c _ vals t rest h = h

  back_cons :
      (c : ℕ) (o : Option DeviceArray) (ds : List (Option DeviceArray)) (t : AccessType)
      (rest : List AccessType)
      → ((d : DeviceArray)
          → o ≡ some d
          → copies_back self.base t ≡ true
          → IsApart c d.orig_ndarr.cells × IsApart c d.packed_ndarr.cells)
      → IsSparedBack self c ds rest
      → IsSparedBack self c (o ∷ ds) (t ∷ rest)
  back_cons c none ds t rest head tail = tail
  back_cons c (some d) ds t rest head tail = (head d refl, tail)

  back_nil :
      (c : ℕ) (ds : List (Option DeviceArray)) (rest : List AccessType)
      → [] ≡ ds
      → IsSparedBack self c ds rest
  back_nil c ds rest e = subst (λ x. IsSparedBack self c x rest) e tt

  back_head :
      (c : ℕ) (ty : ArgType) (val : PyValue) (vals : List PyValue) (t : AccessType)
      (rest : List AccessType) (w : World) (args : List KernelArg) (o : Option DeviceArray)
      (v : World) (d : DeviceArray)
      → unpack_argument R self ty val t w ≡ (ok (args, o), v)
      → c < w.next_cell
      → IsSpared self c (val ∷ vals) (t ∷ rest)
      → o ≡ some d
      → copies_back self.base t ≡ true
      → IsApart c d.orig_ndarr.cells × IsApart c d.packed_ndarr.cells
  back_head c ty val vals t rest w args o v d r lt spared e back =
      let (a, x, is_a, none_own, made) =
        unpack_argument_kept R self ty val t w args d v (rw e at r) in
      prepared-IsApart c a t w d x lt (spared_head c val a vals t rest is_a spared none_own back)
        (copy_to_device-IsPrepared R L self a t w d x none_own made)

  spared_back :
      (c : ℕ) (tys : List ArgType) (vals : List PyValue) (rest : List AccessType) (w : World)
      (args : List KernelArg) (ds : List (Option DeviceArray)) (w' : World)
      → unpack_arguments R self tys vals rest w ≡ (ok (args, ds), w')
      → c < w.next_cell
      → IsSpared self c vals rest
      → IsSparedBack self c ds rest
  unfolding unpack_arguments
  spared_back c (ty ∷ tys) (val ∷ vals) (t ∷ rest) w args ds w' h lt spared =
      let last : Unpacked
          → List KernelArg × List (Option DeviceArray)
          → Exec World (List KernelArg × List (Option DeviceArray)) =
        λ p q. pure (p.0 ++ q.0, p.1 ∷ q.1) in
      let (p, v, r, k) =
        >>=-returns (unpack_argument R self ty val t)
          (λ p. unpack_arguments R self tys vals rest >>= last p) w (args, ds) w' h in
      let (q, u, r', k') =
        >>=-returns (unpack_arguments R self tys vals rest) (last p) v (args, ds) w' k in
      let made : p.1 ∷ q.1 ≡ ds = cc k' in
      let later = (SparesHost-unpack_argument R L self ty val t).run w in
      let tail =
        spared_back c tys vals rest v q.0 q.1 u r'
          (omega (arith, later.1, ap (λ (x : Result Unpacked × World). x.1.next_cell) r))
          (spared_tail c val vals t rest spared) in
      subst (λ x. IsSparedBack self c x (t ∷ rest)) made
        (back_cons c p.1 q.1 t rest (λ d. back_head c ty val vals t rest w p.0 p.1 v d r lt spared)
          tail)
  spared_back c (ty ∷ tys) (val ∷ vals) [] w args ds w' h lt spared = back_nil c ds [] (cc h)
  spared_back c (ty ∷ tys) [] rest w args ds w' h lt spared = back_nil c ds rest (cc h)
  spared_back c [] vals rest w args ds w' h lt spared = back_nil c ds rest (cc h)

  LeavesCell-submit :
      (c : ℕ) (q : Queue) (args : List KernelArg) (gs : List ℕ) (ls : Option (List ℕ))
      → LeavesCell c (R.submit q args gs ls)
  LeavesCell-submit c q args gs ls = record { run = λ w. rw (L.submit_host q args gs ls w).0 }

  after_unpacking :
      (c : ℕ) (args : List KernelArg) (ds : List (Option DeviceArray)) (w : World)
      → IsSparedBack self c ds self.ordered_arg_access_types
      → (finish R self (args, ds) w).1.host c ≡ w.host c
  after_unpacking c args ds w h =
      let leaves : LeavesCell c (finish R self (args, ds)) =
        LeavesCell-bind c (or_raise self.sycl_queue external_error) _
          (LeavesCell-or_raise c self.sycl_queue external_error)
          (λ q.
            LeavesCell-bind c (R.submit q args self.global_size self.local_size) _
              (LeavesCell-submit c q args self.global_size self.local_size)
              (λ _. LeavesCell-pack_arguments c ds self.ordered_arg_access_types h)) in
      leaves.run w

  -- A call, whether it returns or raises, leaves a cell of host memory in use as it is, if the
  -- cell is no element of an array without USM memory that the access type of its parameter makes
  -- the call copy back.
  pub call-host :
      (c : ℕ) (vals : List PyValue) (w : World)
      → c < w.next_cell
      → IsSpared self c vals self.ordered_arg_access_types
      → (call R self vals w).1.host c ≡ w.host c
  unfolding call
  call-host c vals w lt spared =
      outcome (unpack_arguments R self self.argument_types vals self.ordered_arg_access_types w)
        refl
        ((SparesHost-unpack_arguments R L self self.argument_types vals
            self.ordered_arg_access_types).run
          w)
    where
      outcome :
          (r : Result (List KernelArg × List (Option DeviceArray)) × World)
          → unpack_arguments R self self.argument_types vals self.ordered_arg_access_types w ≡ r
          → HostKept w r.1
          → let out : Result (Unit {0}) × World = elim r.0 [
            | ok p ↦ finish R self p r.1
            | err e ↦ (err e, r.1)
          ] in
            out.1.host c ≡ w.host c
      outcome (ok (args, ds), v) e kept =
          after_unpacking c args ds v (
            spared_back c self.argument_types vals self.ordered_arg_access_types w args ds v e lt
              spared)
          ∙ kept.0 c lt
      outcome (err x, v) e kept = kept.0 c lt
