-- ===== src/Range/Tests.antt =====
-- Runs of `kernel[...]` on concrete subscripts, and the laws at inputs that meet their hypotheses.
use numba_dppy.Prelude.{[], none, refl, some, ◌∷◌, ◌≡◌}
use numba_dppy.Result.{err, ok, value_error}
use numba_dppy.Range.{
  KernelBase, Queue, SizeArg, ensure_valid_work_group_size, ensure_valid_work_item_grid, entries,
  getitem, int, list, new_kernel_base, tuple,
}
use numba_dppy.Range.Laws.{IsConfigured, getitem-IsConfigured, getitem_three, getitem_two}

abbrev queue : Queue
queue = record { id = 1; sycl_context = 7 }

abbrev grid : SizeArg
grid = tuple (8 ∷ 4 ∷ 2 ∷ [])

abbrev group : SizeArg
group = list (2 ∷ 2 ∷ 1 ∷ [])

abbrev configured : KernelBase
configured = record new_kernel_base {
  global_size = 2 ∷ 4 ∷ 8 ∷ [];
  local_size = some (1 ∷ 2 ∷ 2 ∷ []);
  sycl_queue = some queue;
}

getitem_run : getitem (ok queue) new_kernel_base (entries (grid ∷ group ∷ [])) ≡ ok configured
unfolding getitem ensure_valid_work_item_grid ensure_valid_work_group_size
getitem_run = refl

-- `kernel[10, ()]`: an empty tuple is not taken for an absent local size
getitem_empty_tuple :
    getitem (ok queue) new_kernel_base (entries (int 10 ∷ tuple [] ∷ [])) ≡ err value_error
unfolding getitem ensure_valid_work_item_grid ensure_valid_work_group_size
getitem_empty_tuple = refl

getitem_default_local_size :
    getitem (ok queue) new_kernel_base (entries (int 10 ∷ list [] ∷ []))
    ≡ ok (record new_kernel_base {
      global_size = 10 ∷ [];
      local_size = none;
      sycl_queue = some queue;
    })
unfolding getitem ensure_valid_work_item_grid
getitem_default_local_size = refl

getitem-IsConfigured_example : IsConfigured queue new_kernel_base grid (group ∷ []) configured
getitem-IsConfigured_example =
    getitem-IsConfigured queue new_kernel_base grid (group ∷ []) configured getitem_run

getitem_two_example :
    getitem (ok queue) new_kernel_base (entries (grid ∷ int 4 ∷ [])) ≡ err value_error
getitem_two_example =
    getitem_two queue new_kernel_base grid (int 4) (8 ∷ 4 ∷ 2 ∷ []) (4 ∷ []) refl refl (λ e. cc)

getitem_three_example :
    getitem (ok queue) new_kernel_base (entries (grid ∷ group ∷ group ∷ []))
    ≡ getitem (ok queue) new_kernel_base (entries (grid ∷ []))
getitem_three_example = getitem_three (ok queue) new_kernel_base grid group group []
