-- ===== src/Parfor.antt =====
-- The kernel of a parallel loop (a parfor), up to its launch: the functions of
-- numba_dppy/core/passes/dppy_lowerer.py from `_schedule_loop` to `_create_shape_signature`.
pub mod Schedule
pub mod Lines
pub mod Points
pub mod Body
pub mod Races
pub mod Stores
pub mod Replaced
pub mod Splice
pub mod Labels
pub mod Flow
pub mod Spliced
pub mod Joined
pub mod Shapes
pub mod Params
pub mod Inputs
pub mod Lowering
pub mod Fallback
mod Tests
