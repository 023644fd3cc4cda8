-- ===== src/Dpnp/Arrays.antt =====
-- numba_dppy/dpnp_iface/dpnp_array_ops_impl.py and dpnp_sort_search_countimpl.py there: the order of
-- the calls in the functions of one operand, whose memory is that of a flat array.
-- The body of all of them, for the bytes that they allocate for the result.
use numba_dppy.Prelude.{List, String, [], ℕ, ◌∷◌, ◌≡◌}
use numba_dppy.Result.{>>=-eq-ok, Result, ok, ◌>>◌}
use numba_dppy.Dpnp.{HostArray, Op, call_dpnp, nbytes, scalar, size_of, usm}
use numba_dppy.Dpnp.Linalg.{new_array, unary_ops}
use numba_dppy.Dpnp.Statistics.{check_not_empty}
use numba_dppy.Memory.{DType}

abbrev pub array_call : String → HostArray → HostArray → ℕ → Result (List Op × HostArray)
array_call func a out out_bytes = do
  check_not_empty a
  ok (
    unary_ops a out out_bytes (
        call_dpnp func ("out_usm" ∷ [])
          (usm "a_usm" ∷ usm "out_usm" ∷ scalar (size_of a.shape) ∷ [])),
    out,
  )

-- `np.arange(0, a.size, 1, dtype)`
abbrev pub flat : HostArray → ℕ → DType → HostArray
flat a itemsize d = new_array "out" (size_of a.shape ∷ []) itemsize d

-- The items are as many as those of the operand, but there is room for one.
unfoldable pub dpnp_cumsum : HostArray → Result (List Op × HostArray)
dpnp_cumsum a = array_call "dpnp_cumsum" a (flat a a.itemsize a.dtype) a.itemsize

-- `a.dtype == types.Integer` compares an instance with a class, and never holds.
unfoldable pub dpnp_cumprod : HostArray → Result (List Op × HostArray)
dpnp_cumprod a = array_call "dpnp_cumprod" a (flat a a.itemsize a.dtype) a.itemsize

unfoldable pub dpnp_copy : HostArray → Result (List Op × HostArray)
dpnp_copy a =
    array_call "dpnp_copy" a (flat a a.itemsize a.dtype) (nbytes (flat a a.itemsize a.dtype))

unfoldable pub dpnp_sort : HostArray → Result (List Op × HostArray)
dpnp_sort a =
    array_call "dpnp_sort" a (flat a a.itemsize a.dtype) (nbytes (flat a a.itemsize a.dtype))

unfoldable pub dpnp_argsort : HostArray → Result (List Op × HostArray)
dpnp_argsort a = array_call "dpnp_argsort" a (flat a 8 DType.int64) (nbytes (flat a 8 DType.int64))

-- the index, as an item
unfoldable pub dpnp_argmax : HostArray → Result (List Op × HostArray)
dpnp_argmax a = array_call "dpnp_argmax" a (new_array "out" (1 ∷ []) 8 DType.int64) 8

unfoldable pub dpnp_argmin : HostArray → Result (List Op × HostArray)
dpnp_argmin a = array_call "dpnp_argmin" a (new_array "out" (1 ∷ []) 8 DType.int64) 8

pub array_call_lem :
    (func : String) (a : HostArray) (shape : List ℕ) (itemsize : ℕ) (d : DType) (bytes : ℕ)
    (ops : List Op) (out : HostArray)
    → array_call func a (new_array "out" shape itemsize d) bytes ≡ ok (ops, out)
    → (out ≡ new_array "out" shape itemsize d)
      × (ops
          ≡ unary_ops a (new_array "out" shape itemsize d) bytes (
              call_dpnp func
                ("out_usm" ∷ [])
                (usm "a_usm" ∷ usm "out_usm" ∷ scalar (size_of a.shape) ∷ [])))
array_call_lem func a shape itemsize d bytes ops out h =
    let (u, e, h₁) = >>=-eq-ok (check_not_empty a) _ h in (cc h₁, cc h₁)
