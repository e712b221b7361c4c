-- ===== src/Inverse/Chunk.antt =====
-- The routes of an inverse chunk: the loop of build_chunk of inverse_plan.hpp.
pub mod Local
pub mod Values
pub mod Steps
pub mod Loop
pub mod Build
pub mod Complete
pub mod Targets
pub mod Whole
use tt_wavelet.Common.{
  ℕ, zero, suc, ◌+◌, ◌-◌, max, Bool, true, false, List, [], ◌∷◌, ◌++◌, length, leb, if◌then◌else◌,
  Result, ok, fatal, require, ◌>>=◌, ◌>>◌,
}
use tt_wavelet.Plan.{
  StepType, StorageSlot, StreamRef, RouteOutputRef, LiftingStepRoute, is_scale_step,
  workspace_output,
}
use tt_wavelet.Execution.{
  IndexInterval, interval_length, RequiredStreams, translated, coefficient_count,
}
use tt_wavelet.Execution.Chunk.{StoredStream, LwtStepRoute}
use tt_wavelet.Execution.Chunk.Build.{local_offset, ChunkState, stored, after_predict, after_update}
use tt_wavelet.Inverse.{subtract_offset}

-- A route into the free slot, with its two local offsets.
abbrev pub inverse_entry :
    LiftingStepRoute
    → IndexInterval
    → StoredStream
    → StoredStream
    → StorageSlot
    → ℕ
    → ℕ
    → ℕ
    → LwtStepRoute
inverse_entry r output source base free_slot left_pad source_offset base_offset = record {
  type = r.type;
  source = record { slot = source.slot };
  base = record { slot = base.slot };
  output = workspace_output free_slot;
  source_storage_length = interval_length source.storage;
  base_storage_length = interval_length base.storage;
  source_offset_elements = source_offset;
  base_offset_elements = base_offset;
  source_left_pad_elements = left_pad;
  output_length = interval_length output;
  output_offset_elements = 0;
}

-- The stencil branch, with the streams that it reads.
unfoldable pub inverse_stencil :
    LiftingStepRoute
    → IndexInterval
    → StoredStream
    → StoredStream
    → StorageSlot
    → Result LwtStepRoute
inverse_stencil r output source base free_slot = do
  target ← subtract_offset output r.base_offset
  k ← coefficient_count r
  source_required ← translated target r.source_offset (k - 1)
  source_offset ← local_offset source.storage source_required
  base_offset ← local_offset base.storage target
  ok (inverse_entry r output source base free_slot r.source_left_pad source_offset base_offset)

-- A scale that is not one of the two terminal ones.
unfoldable pub inverse_scale :
    LiftingStepRoute → IndexInterval → StoredStream → StorageSlot → Result LwtStepRoute
inverse_scale r output source free_slot = do
  offset ← local_offset source.storage output
  ok (inverse_entry r output source source free_slot 0 offset offset)

-- What follows the check for the terminal routes, which push nothing.
abbrev pub unless_terminal :
    Bool
    → LiftingStepRoute
    → ChunkState
    → Result (List LwtStepRoute × ChunkState)
    → Result (List LwtStepRoute × ChunkState)
unless_terminal true r s next = do require (is_scale_step r.type); ok ([], s)
unless_terminal false r s next = next

-- One round of the loop, from the state after the forward route to the one before it. The state
-- changes of a scale are those of the stencil that writes the same stream.
abbrev pub inverse_step :
    StepType
    → Bool
    → LiftingStepRoute
    → RequiredStreams
    → ChunkState
    → Result (List LwtStepRoute × ChunkState)
inverse_step StepType.swap terminal r before s =
    ok ([], record s { active_even = s.active_odd; active_odd = s.active_even })
inverse_step StepType.predict terminal r before s = unless_terminal terminal r s (do
  pushed ← inverse_stencil r before.odd s.active_even s.active_odd s.free_slot
  ok (pushed ∷ [], after_predict before s))
inverse_step StepType.update terminal r before s = unless_terminal terminal r s (do
  pushed ← inverse_stencil r before.even s.active_odd s.active_even s.free_slot
  ok (pushed ∷ [], after_update before s))
inverse_step StepType.scale_even terminal r before s = unless_terminal terminal r s (do
  pushed ← inverse_scale r before.even s.active_even s.free_slot
  ok (pushed ∷ [], after_update before s))
inverse_step StepType.scale_odd terminal r before s = unless_terminal terminal r s (do
  pushed ← inverse_scale r before.odd s.active_odd s.free_slot
  ok (pushed ∷ [], after_predict before s))

-- The loop, from the last route to the first; `before` and `later` are the vector `required`.
unfoldable pub inverse_routes :
    List LiftingStepRoute
    → RequiredStreams
    → List RequiredStreams
    → ChunkState
    → Result (List LwtStepRoute × ChunkState)
inverse_routes [] before later s = ok ([], s)
inverse_routes (r ∷ routes) before [] s = fatal
inverse_routes (r ∷ routes) before (after ∷ later) s = do
  (pushed, s') ← inverse_routes routes after later s
  (here, end) ← inverse_step r.type (leb (length routes) 1) r before s'
  ok (pushed ++ here, end)
