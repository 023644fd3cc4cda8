-- ===== src/Jit/Cache.antt =====
-- The cache of compiled kernels: the laws of `specialize` of numba_dppy/compiler.py.
use numba_dppy.Prelude.{
  Bool, List, Option, [], arith, inl, inr, refl, some, subst, sym, ℕ, ◌∷◌, ◌≡◌, ◌≢◌, ◌⊎◌,
}
use numba_dppy.Prelude.Dict.{get, get-set, get-set_ne, set}
use numba_dppy.Result.{ok}
use numba_dppy.Argument.{ArgType, types-discrete}
use numba_dppy.Access.{AccessType}
use numba_dppy.Range.{Queue}
use numba_dppy.Kernel.{Kernel}
use numba_dppy.Compile.{Config, Numba, PyFunc, build_kernel, compile_kernel}
use numba_dppy.Jit.{Definitions, JitDppyKernel, compile_and_store, specialize}

-- The kernel was compiled for a queue of the context.
abbrev pub IsFor : ℕ → Kernel → Type 0
IsFor context kernel = (q : Queue) × (kernel.sycl_queue ≡ some q) × (q.sycl_context ≡ context)

-- Each cached kernel is kept under the context of its queue.
abbrev pub AreFor : Definitions → Type 0
AreFor [] = Unit {0}
AreFor ((argtypes, (context, kernel)) ∷ d) = IsFor context kernel × AreFor d

get-IsFor :
    (d : Definitions) (argtypes : List ArgType) (context : ℕ) (kernel : Kernel)
    → AreFor d
    → get types-discrete d argtypes ≡ some (context, kernel)
    → IsFor context kernel
unfolding get
get-IsFor [] argtypes context kernel h e = ground arith
get-IsFor ((ts, (c, k)) ∷ d) argtypes context kernel h e =
    ground (arith, get-IsFor d argtypes context kernel)

set-AreFor :
    (d : Definitions) (argtypes : List ArgType) (context : ℕ) (kernel : Kernel)
    → AreFor d
    → IsFor context kernel
    → AreFor (set types-discrete d argtypes (context, kernel))
unfolding set
set-AreFor [] argtypes context kernel h e = (e, tt)
set-AreFor ((ts, (c, k)) ∷ d) argtypes context kernel h e =
    ground (arith, set-AreFor d argtypes context kernel)

module _ (N : Numba) (config : Config) where
  -- A compiled kernel has the queue it was compiled for.
  compile_kernel-sycl_queue :
      (q : Queue) (f : PyFunc) (argtypes : List ArgType) (a : List AccessType) (b : Option Bool)
      (k : Kernel)
      → compile_kernel N config (some q) f argtypes a b ≡ ok k
      → k.sycl_queue ≡ some q
  unfolding compile_kernel build_kernel
  compile_kernel-sycl_queue q f argtypes a b k h = ground arith

  -- The two outcomes of a call that returns: the cache is left as it is, or gains the kernel.
  pub specialize-cases :
      (argtypes : List ArgType) (q : Queue) (self self' : JitDppyKernel) (k : Kernel)
      → specialize N config argtypes q self ≡ (ok k, self')
      → ((self' ≡ self) × (get types-discrete self.definitions argtypes ≡ some (q.sycl_context, k)))
        ⊎ ((k.sycl_queue ≡ some q)
            × (self' ≡ record self {
              definitions = set types-discrete self.definitions argtypes (q.sycl_context, k);
            }))
  unfolding specialize compile_and_store
  specialize-cases argtypes q self self' k h =
      ground
        (arith, compile_kernel-sycl_queue q self.py_func argtypes self.access_types self.debug k)

  found_lem :
      (argtypes : List ArgType) (q : Queue) (self : JitDppyKernel) (k : Kernel)
      → get types-discrete self.definitions argtypes ≡ some (q.sycl_context, k)
      → specialize N config argtypes q self ≡ (ok k, self)
  unfolding specialize
  found_lem argtypes q self k h = ground arith

  -- If each cached kernel is kept under the context of its queue, a kernel that `specialize`
  -- returns was compiled for a queue of the context of the queue that it is asked for, and the
  -- cache is such a cache afterwards.
  pub specialize-IsFor :
      (argtypes : List ArgType) (q : Queue) (self self' : JitDppyKernel) (k : Kernel)
      → AreFor self.definitions
      → specialize N config argtypes q self ≡ (ok k, self')
      → IsFor q.sycl_context k × AreFor self'.definitions
  specialize-IsFor argtypes q self self' k h e = elim (specialize-cases argtypes q self self' k e) [
    | inl (same, found) ↦ (
      get-IsFor self.definitions argtypes q.sycl_context k h found,
      subst (λ s. AreFor s.definitions) (sym same) h,
    )
    | inr (own, stored) ↦ (
      (q, own, refl),
      subst (λ s. AreFor s.definitions) (sym stored)
          (set-AreFor self.definitions argtypes q.sycl_context k h (q, own, refl)),
    )
  ]

  -- After a call that returned, a call for the same types and a queue of the same context returns
  -- the same kernel and changes nothing: nothing is compiled twice, and the kernel keeps the queue
  -- of the first call.
  pub specialize-again :
      (argtypes : List ArgType) (q q' : Queue) (self self' : JitDppyKernel) (k : Kernel)
      → specialize N config argtypes q self ≡ (ok k, self')
      → q'.sycl_context ≡ q.sycl_context
      → specialize N config argtypes q' self' ≡ (ok k, self')
  specialize-again argtypes q q' self self' k e c =
      found_lem argtypes q' self' k (elim (specialize-cases argtypes q self self' k e) [
        | inl (same, found) ↦ rw (same, c) found
        | inr (own, stored) ↦
            rw (stored, c) (get-set types-discrete self.definitions argtypes (q.sycl_context, k))
      ])

  -- A call, whether it returns or raises, leaves what is cached for other types as it is.
  pub specialize-other :
      (argtypes other : List ArgType) (q : Queue) (self : JitDppyKernel)
      → other ≢ argtypes
      → get types-discrete (specialize N config argtypes q self).1.definitions other
        ≡ get types-discrete self.definitions other
  unfolding specialize compile_and_store
  specialize-other argtypes other q self h =
      grind
        (arith, λ (v : ℕ × Kernel). get-set_ne types-discrete self.definitions argtypes other v h)
