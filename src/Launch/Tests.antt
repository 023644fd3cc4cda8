-- ===== src/Launch/Tests.antt =====
-- A launch with an array that the kernel writes, an array that it only reads, and a number.
use numba_dppy.Prelude.{List, String, [], false, refl, true, ℕ, ◌++◌, ◌∷◌, ◌≡◌}
use numba_dppy.Result.{err, not_implemented_error, ok}
use numba_dppy.Argument.{array_type, complex64, dppy_array, int64}
use numba_dppy.Memory.{DType}
use numba_dppy.Launch.{
  Bound, Buffer, ExprArg, Instr, buffer_ptr, event_delete, event_wait, extended, form_array, free,
  get_current_queue, itemsize_member, malloc_shared, memcpy_to_device, memcpy_to_host,
  new_kernel_launch_ops, num_dim_of, numba_type, plain, queue_delete, queue_wait, scalar_value,
  shape_entry, size_member, store_arg, store_extent, stride_entry, submit_range, variable,
  zero_storage,
}
use numba_dppy.Launch.Lower.{generate_kernel_launch_ops}
use numba_dppy.Launch.Trace.{count_from, slots}
use numba_dppy.Launch.Slots.{slots-generate}
use numba_dppy.Kernel.Layout.{model_members}
use numba_dppy.Launch.Members.{all_values, values, values-form_array}

abbrev args : List ExprArg
args =
    record {
      var = "A";
      has_llvm_arg = true;
      arg_type = numba_type (array_type dppy_array DType.float32 1);
    }
    ∷ record {
      var = "B";
      has_llvm_arg = true;
      arg_type = numba_type (array_type dppy_array DType.float32 0);
    }
    ∷ record { var = "n"; has_llvm_arg = true; arg_type = numba_type int64 }
    ∷ []

abbrev loop_ranges : List (Bound × ℕ)
loop_ranges = (variable "rows" true, 1) ∷ (variable "columns" false, 1) ∷ []

abbrev a_buffer : Buffer
a_buffer = record { suffix = 4; var = "A" }

abbrev b_buffer : Buffer
b_buffer = record { suffix = 11; var = "B" }

abbrev code : List Instr
code =
    get_current_queue
    ∷ store_arg 0 zero_storage 9
    ∷ store_arg 1 zero_storage 9
    ∷ store_arg 2 (size_member "A") 9
    ∷ store_arg 3 (itemsize_member "A") 9
    ∷ malloc_shared a_buffer
    ∷ memcpy_to_device a_buffer
    ∷ event_wait
    ∷ event_delete
    ∷ store_arg 4 (buffer_ptr 4) 15
    ∷ store_arg 5 (shape_entry "A" 0) 9
    ∷ store_arg 6 (stride_entry "A" 0) 9
    ∷ store_arg 7 zero_storage 9
    ∷ store_arg 8 zero_storage 9
    ∷ store_arg 9 (size_member "B") 9
    ∷ store_arg 10 (itemsize_member "B") 9
    ∷ malloc_shared b_buffer
    ∷ store_arg 11 (buffer_ptr 11) 15
    ∷ store_arg 12 (scalar_value "n") 9
    ∷ store_extent 1 (plain (variable "rows" true))
    ∷ store_extent 0 (extended (variable "columns" false))
    ∷ submit_range 13 2
    ∷ queue_wait
    ∷ event_delete
    ∷ memcpy_to_host a_buffer
    ∷ event_wait
    ∷ event_delete
    ∷ free a_buffer
    ∷ free b_buffer
    ∷ queue_delete
    ∷ []

abbrev same_name : String → String
same_name v = v

generate_run : generate_kernel_launch_ops same_name ("A" ∷ []) 1 args loop_ranges ≡ ok code
unfolding generate_kernel_launch_ops
generate_run = refl

complex_run :
    generate_kernel_launch_ops same_name [] 1
      (record { var = "z"; has_llvm_arg = true; arg_type = numba_type complex64 } ∷ [])
      loop_ranges
    ≡ err not_implemented_error
unfolding generate_kernel_launch_ops
complex_run = refl

slots-generate_example :
    (before after : List Instr) × (code
      ≡ before ++ submit_range 13 2 ∷ queue_wait ∷ event_delete ∷ after)
    × (slots before ≡ count_from 0 13)
    × (slots after ≡ [])
unfolding num_dim_of
slots-generate_example = slots-generate same_name ("A" ∷ []) 1 args loop_ranges code generate_run

values-form_array_example :
    values (form_array dppy_array 1 "A" true true (new_kernel_launch_ops 1)).code
    ≡ [] ++ all_values "A" (buffer_ptr 4) (model_members 1)
values-form_array_example = values-form_array dppy_array 1 "A" true true (new_kernel_launch_ops 1)
