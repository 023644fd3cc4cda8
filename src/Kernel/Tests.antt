-- ===== src/Kernel/Tests.antt =====
-- Calls of kernels on a small machine, and the laws at inputs that meet their hypotheses.
use numba_dppy.Prelude.{
  List, [], arith, false, if◌then◌else◌, map, none, refl, some, suc, true, ℕ, ◌+◌, ◌∷◌, ◌≡◌,
}
use numba_dppy.Prelude.Int.{pos}
use numba_dppy.Result.{err, not_implemented_error, ok, value_error}
use numba_dppy.Range.{Queue, KernelBase, configure, new_kernel_base}
use numba_dppy.Argument.{array, complex64, int32, number, per_axis, unpack_device_array_argument}
use numba_dppy.Memory.{
  DType, IsLawful, PyArray, Runtime, UsmMem, World, c_longlong, c_size_t, contents, int, pointer,
  read, update, write,
}
use numba_dppy.Usm.{
  as_usm_obj, copy_from_numpy_to_usm_obj, copy_to_numpy_from_usm_obj, has_usm_memory,
  is_supported_dtype,
}
use numba_dppy.Access.{AccessType}
use numba_dppy.Kernel.{
  Kernel, call, copies_back, copies_in, copy_to_device, pack_argument, pack_arguments,
  unpack_argument, unpack_arguments, unpack_array,
}
use numba_dppy.Kernel.Layout.{
  flat_count, length-unpack_array, length-unpack_array_packed, model_members,
}
use numba_dppy.Memory.Concrete.{concrete, concrete-IsLawful}
use numba_dppy.Kernel.Frame.{call-host}
use numba_dppy.Kernel.RoundTrip.{array_arguments, call-one_array, loaded, one_array, returned}

abbrev queue : Queue
queue = record { id = 1; sycl_context = 7 }

abbrev base : KernelBase
base = configure new_kernel_base (some queue) (3 ∷ []) none

-- a kernel that adds 1 to every element of allocation 5
abbrev add_one : (ℕ → List ℕ) → ℕ → List ℕ
add_one u = update u 5 (map suc (u 5))

abbrev machine : Runtime
machine = concrete add_one

abbrev lawful : IsLawful machine
lawful = concrete-IsLawful add_one

abbrev start : World
start = record { host = λ n. n + 100; next_cell = 50; usm = λ i. []; next_usm = 5 }

abbrev whole : PyArray
whole = record {
  is_ndarray = true;
  usm = none;
  base = some none;
  dtype = DType.int32;
  itemsize = 4;
  shape = 3 ∷ [];
  strides = 4 ∷ [];
  suai_strides = none;
  c_contiguous = true;
  cells = 0 ∷ 1 ∷ 2 ∷ [];
}

-- every second element
abbrev strided : PyArray
strided = record whole { strides = 8 ∷ []; c_contiguous = false; cells = 10 ∷ 12 ∷ 14 ∷ [] }

-- a transposed matrix
abbrev matrix : PyArray
matrix = record whole {
  shape = 2 ∷ 2 ∷ [];
  strides = 4 ∷ 8 ∷ [];
  c_contiguous = false;
  cells = 20 ∷ 22 ∷ 21 ∷ 23 ∷ [];
}

abbrev made : UsmMem
made = record { id = 5; size = 12; sycl_queue = queue }

abbrev allocated : World
allocated = record start { next_usm = 6 }

abbrev finished : World
finished = record allocated { usm = add_one (update (λ i. []) 5 (100 ∷ 101 ∷ 102 ∷ [])) }

abbrev kernel_of : AccessType → Kernel
kernel_of t = one_array base DType.int32 1 t

both_ways_run :
    read whole (call machine (kernel_of (some "read_write")) (array whole ∷ []) start).1
    ≡ 101 ∷ 102 ∷ 103 ∷ []
unfolding call unpack_arguments unpack_argument unpack_array copy_to_device copies_in copies_back
    as_usm_obj copy_from_numpy_to_usm_obj copy_to_numpy_from_usm_obj pack_arguments pack_argument
    unpack_device_array_argument per_axis configure
both_ways_run = refl

read_only_run :
    read whole (call machine (kernel_of (some "read_only")) (array whole ∷ []) start).1
    ≡ 100 ∷ 101 ∷ 102 ∷ []
unfolding call unpack_arguments unpack_argument unpack_array copy_to_device copies_in copies_back
    as_usm_obj copy_from_numpy_to_usm_obj copy_to_numpy_from_usm_obj pack_arguments pack_argument
    unpack_device_array_argument per_axis configure
read_only_run = refl

strided_run :
    read strided (call machine (kernel_of none) (array strided ∷ []) start).1 ≡ 111 ∷ 113 ∷ 115 ∷ []
unfolding call unpack_arguments unpack_argument unpack_array copy_to_device copies_in copies_back
    as_usm_obj copy_from_numpy_to_usm_obj copy_to_numpy_from_usm_obj pack_arguments pack_argument
    unpack_device_array_argument per_axis configure
strided_run = refl

-- the packed copy of a matrix does not fit the matrix: the copy back fails
matrix_run : (call machine (kernel_of none) (array matrix ∷ []) start).0 ≡ err value_error
unfolding call unpack_arguments unpack_argument unpack_array copy_to_device copies_in copies_back
    as_usm_obj copy_from_numpy_to_usm_obj copy_to_numpy_from_usm_obj pack_arguments pack_argument
    unpack_device_array_argument per_axis configure
matrix_run = refl

complex_run :
    (call machine
      (record {
        base = base;
        argument_types = complex64 ∷ [];
        ordered_arg_access_types = none ∷ [];
      })
      (number (int (pos 1)) ∷ [])
      start).0
    ≡ err not_implemented_error
unfolding call unpack_arguments unpack_argument
complex_run = refl

matrix_unpacked :
    unpack_array machine (kernel_of (some "write_only")) matrix (some "write_only") start ≡ (
      ok (
        c_size_t 0
            ∷ c_size_t 0
            ∷ c_longlong 4
            ∷ c_longlong 4
            ∷ pointer (record made { size = 16 })
            ∷ c_longlong 4
            ∷ c_longlong 4
            ∷ [],
        some (record {
          usm_mem = record made { size = 16 };
          orig_ndarr = matrix;
          packed_ndarr = record matrix {
            base = none;
            shape = 4 ∷ [];
            strides = 4 ∷ [];
            c_contiguous = true;
            cells = 50 ∷ 51 ∷ 52 ∷ 53 ∷ [];
          };
          packed = true;
        }),
      ),
      record start {
        host = write (50 ∷ 51 ∷ 52 ∷ 53 ∷ []) (120 ∷ 122 ∷ 121 ∷ 123 ∷ []) start.host;
        next_cell = 54;
        next_usm = 6;
      },
    )
unfolding unpack_array copy_to_device copies_in as_usm_obj copy_from_numpy_to_usm_obj
    unpack_device_array_argument per_axis configure
matrix_unpacked = refl

call-host_example :
    (call machine (kernel_of (some "read_only")) (array whole ∷ []) start).1.host 1 ≡ 101
unfolding copies_back configure
call-host_example =
    call-host machine lawful (kernel_of (some "read_only")) 1 (array whole ∷ []) start (omega arith)
      ((λ e f. cc f), tt)

length-unpack_array_packed_example : 7 ≡ flat_count (model_members 1)
unfolding has_usm_memory
length-unpack_array_packed_example =
    length-unpack_array_packed machine (kernel_of (some "write_only")) matrix (some "write_only")
      start _ _ _ lawful refl refl matrix_unpacked

length-unpack_array_example : 7 ≡ flat_count (model_members 1)
unfolding unpack_array has_usm_memory unpack_device_array_argument per_axis
length-unpack_array_example =
    length-unpack_array machine (kernel_of none) (record whole { usm = some made }) none start
      (array_arguments whole made) none start lawful refl (λ e. cc) refl

call-one_array_example :
    (call machine (kernel_of (some "read_write")) (array whole ∷ []) start
      ≡ (ok tt, returned machine lawful base queue whole (some "read_write") made finished))
    × (contents made (loaded machine lawful base queue whole (some "read_write") made allocated) ≡ (
        if copies_in base (some "read_write") then read whole start else contents made allocated))
    × (read whole (returned machine lawful base queue whole (some "read_write") made finished) ≡ (
        if copies_back base (some "read_write") then contents made finished else read whole start))
unfolding configure copies_in has_usm_memory is_supported_dtype
call-one_array_example =
    call-one_array machine lawful base queue whole (some "read_write") made DType.int32 1 start
      allocated finished refl refl (refl, refl, refl) refl (omega arith) refl refl refl refl
