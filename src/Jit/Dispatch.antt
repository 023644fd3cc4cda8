-- ===== src/Jit/Dispatch.antt =====
-- What a call of a kernel runs: the laws of `JitDPPYKernel.__call__` of numba_dppy/compiler.py up
-- to the configured kernel.
use numba_dppy.Prelude.{
  Bool, List, Option, ap, arith, false, inl, inr, none, not, refl, some, subst, subst₂, true, ◌≡◌,
}
use numba_dppy.Prelude.Dict.{get}
use numba_dppy.Result.{
  >>=-eq-ok, Result, err, indeterminate_execution_queue_error, ok, raise_if, type_error,
}
use numba_dppy.Argument.{
  ArgType, ArrayClass, PyValue, dppy_array, npytypes_array, types-discrete, usm_nd_array,
  usm_shared_array,
}
use numba_dppy.Range.{Queue, configure}
use numba_dppy.Kernel.{Kernel}
use numba_dppy.Compile.{Config, Numba}
use numba_dppy.Jit.{
  Dispatcher, JitDppyKernel, compute_queue, configured, configured_as, current_queue,
  datatype_is_same, get_argtypes, queues_of, select_queue, specialize,
}
use numba_dppy.Jit.Uniform.{
  AreUniform, datatype_is_same-first_class, datatype_is_same_lem, first_class,
}
use numba_dppy.Jit.Cache.{specialize-again, specialize-cases}

module _ (N : Numba) (config : Config) (D : Dispatcher) where
  abbrev pub IsQueueFor : Option ArrayClass → List ArgType → List PyValue → Queue → Type 0
  IsQueueFor (some usm_nd_array) argtypes args q =
      (queues : List Queue) × (queues_of argtypes args ≡ ok queues)
      × (D.get_execution_queue queues ≡ some q)
  IsQueueFor _ argtypes args q = D.get_current_queue ≡ ok q

  -- The queue, by what the arguments are: for USM arrays the one that dpctl chooses from theirs,
  -- and else the current one.
  abbrev pub IsQueueOf : List ArgType → List PyValue → Queue → Type 0
  IsQueueOf argtypes args q = IsQueueFor (first_class argtypes) argtypes args q

  current_lem : (q : Queue) → current_queue N config D ≡ ok q → D.get_current_queue ≡ ok q
  unfolding current_queue
  current_lem q h = ground arith

  chosen_lem :
      (o : Option Queue) (q : Queue)
      → ◌≡◌ {A = Result Queue}
          (elim o [ some q ↦ ok q | none ↦ err indeterminate_execution_queue_error ])
          (ok q)
      → o ≡ some q
  chosen_lem o q h = ground arith

  compute_queue-IsQueueFor :
      (c : Option ArrayClass) (argtypes : List ArgType) (args : List PyValue) (q : Queue)
      → compute_queue N config D c argtypes args ≡ ok q
      → IsQueueFor c argtypes args q
  unfolding compute_queue
  compute_queue-IsQueueFor (some usm_nd_array) argtypes args q h =
      let (queues, e, chosen) = >>=-eq-ok (queues_of argtypes args) _ h in
      (queues, e, chosen_lem (D.get_execution_queue queues) q chosen)
  compute_queue-IsQueueFor none argtypes args q h = current_lem q h
  compute_queue-IsQueueFor (some npytypes_array) argtypes args q h = current_lem q h
  compute_queue-IsQueueFor (some dppy_array) argtypes args q h = current_lem q h
  compute_queue-IsQueueFor (some usm_shared_array) argtypes args q h = current_lem q h

  uniform_true : (b : Bool) {u : Unit {0}} → raise_if (not b) type_error ≡ ok u → b ≡ true
  uniform_true true h = refl
  uniform_true false h = cc

  pub select_queue-returns :
      (args : List PyValue) (argtypes : List ArgType) (q : Queue)
      → select_queue N config D args ≡ ok (argtypes, q)
      → AreUniform argtypes × IsQueueOf argtypes args q
  unfolding select_queue
  select_queue-returns args argtypes q h =
      let (tys, e₁, h₁) = >>=-eq-ok (get_argtypes N config D args) _ h in
      let (u, e₂, h₂) = >>=-eq-ok (raise_if (not (datatype_is_same tys).1) type_error) _ h₁ in
      let (p, e₃, h₃) =
        >>=-eq-ok (compute_queue N config D (datatype_is_same tys).0 tys args) _ h₂ in
      let yes : (datatype_is_same tys).1 ≡ true = uniform_true (datatype_is_same tys).1 e₂ in
      let first : (datatype_is_same tys).0 ≡ first_class tys =
        ap (λ r. r.0) (datatype_is_same-first_class tys yes) in
      subst₂ (λ ts x. AreUniform ts × IsQueueOf ts args x) (cc h₃) (cc h₃)
        (
          (datatype_is_same_lem tys).0 yes,
          compute_queue-IsQueueFor (first_class tys) tys args p
              (subst (λ c. compute_queue N config D c tys args ≡ ok p) first e₃),
        )

  abbrev configured_kernel : JitDppyKernel → Kernel → Kernel
  configured_kernel self k = record k {
    base = configure k.base k.sycl_queue self.global_size self.local_size;
  }

  configured_as-ok :
      (self self' : JitDppyKernel) (r : Result Kernel × JitDppyKernel) (cfg : Kernel)
      → configured_as self r ≡ (ok cfg, self')
      → (k : Kernel) × (r ≡ (ok k, self')) × (cfg ≡ configured_kernel self k)
  unfolding configured_as
  configured_as-ok self self' (ok k, s) cfg h = (k, cc, cc)
  configured_as-ok self self' (err e, s) cfg h = cc

  configured-cases :
      (args : List PyValue) (self self' : JitDppyKernel) (cfg : Kernel)
      → configured N config D args self ≡ (ok cfg, self')
      → (argtypes : List ArgType) × (q : Queue) × (k : Kernel) × (select_queue N config D args
          ≡ ok (argtypes, q))
        × (specialize N config argtypes q self ≡ (ok k, self'))
        × (cfg ≡ configured_kernel self k)
  unfolding configured
  configured-cases args self self' cfg h = selected (select_queue N config D args) refl h
    where
      selected :
          (r : Result (List ArgType × Queue))
          → select_queue N config D args ≡ r
          → elim r [
            | err e ↦ (err e, self)
            | ok (argtypes, queue) ↦ configured_as self (specialize N config argtypes queue self)
          ]
            ≡ (ok cfg, self')
          → (argtypes : List ArgType) × (q : Queue) × (k : Kernel) × (select_queue N config D args
              ≡ ok (argtypes, q))
            × (specialize N config argtypes q self ≡ (ok k, self'))
            × (cfg ≡ configured_kernel self k)
      selected (ok (argtypes, q)) e h =
          let (k, e', f) =
            configured_as-ok self self' (specialize N config argtypes q self) cfg h in
          (argtypes, q, k, e, e', f)
      selected (err x) e h = cc

  -- Where no kernel is cached for the types of the arguments and one is compiled for a queue, a
  -- later call runs on that queue and not on the queue selected for it, if the two queues have the
  -- same context.
  pub configured-first_queue :
      (args : List PyValue) (argtypes : List ArgType) (q q' : Queue) (k cfg : Kernel)
      (self self' self'' : JitDppyKernel)
      → get types-discrete self.definitions argtypes ≡ none
      → specialize N config argtypes q self ≡ (ok k, self')
      → select_queue N config D args ≡ ok (argtypes, q')
      → q'.sycl_context ≡ q.sycl_context
      → configured N config D args self' ≡ (ok cfg, self'')
      → cfg.sycl_queue ≡ some q
  unfolding configure
  configured-first_queue args argtypes q q' k cfg self self' self'' free e s c h =
      let (ts, p, k', s', e', made) = configured-cases args self' self'' cfg h in
      let again : specialize N config argtypes q' self' ≡ (ok k, self') =
        specialize-again N config argtypes q q' self self' k e c in
      let ts_eq : ts ≡ argtypes = cc (s, s') in
      let p_eq : p ≡ q' = cc (s, s') in
      let kept : k' ≡ k = cc (ts_eq, p_eq, again, e') in
      let own : k.sycl_queue ≡ some q = elim (specialize-cases N config argtypes q self self' k e) [
        | inl (_, found) ↦ cc (free, found)
        | inr (own, _) ↦ own
      ] in
      cc (made, kept, own)
