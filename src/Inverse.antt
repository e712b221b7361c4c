-- ===== src/Inverse.antt =====
-- The inverse lifting plan: tt-wavelet/tt_wavelet/include/lifting/inverse_plan.hpp.
-- This file has subtract_offset, propagate_requirements and make_inverse_lifting_plan; Chunk has
-- build_chunk and the functions that it calls, Schedule build_chunks and make_ilwt_execution_plan.
pub mod Lengths
pub mod Restore
pub mod Propagate
pub mod Chunk
pub mod Schedule
mod Examples
use tt_wavelet.Common.{
  ℕ, ◌+◌, ◌-◌, ◌%◌, ◌^◌, Bool, ◌&&◌, ◌||◌, List, [], ◌∷◌, ltb, leb, ◌==◌, if◌then◌else◌, Result, ok,
  require, ◌>>=◌, ◌>>◌,
}
use tt_wavelet.Common.Int.{ℤ, pos, ◌+ℤ◌, ◌-ℤ◌, leb_ℤ}
use tt_wavelet.Common.Words.{u64, sub64, to_i64, to_u64}
use tt_wavelet.Boundary.{BoundaryMode}
use tt_wavelet.Signal.{SignalBuffer, stick_width_default, float_bytes}
use tt_wavelet.Plan.{
  StepType, LiftingStepRoute, LiftingForwardPlan, Scheme, make_forward_lifting_plan,
}
use tt_wavelet.Execution.{
  IndexInterval, interval, is_empty, RequiredStreams, BackState, contains, hull, translated,
  coefficient_count, validate_state,
}

pub record LiftingInversePlan : Type 0 where
  pub forward_trace : LiftingForwardPlan
  pub original_length : ℕ
  pub coefficient_length : ℕ

abbrev pub original_buffer : ℕ → SignalBuffer
original_buffer original_length = record {
  dram_address = 0;
  length = original_length;
  stick_width = stick_width_default;
  element_size_bytes = float_bytes;
}

abbrev pub length_valid : ℕ → ℕ → Bool
length_valid output_length coefficient_length =
    coefficient_length == output_length
    || leb output_length coefficient_length
      && coefficient_length % stick_width_default == 0
      && ltb (sub64 coefficient_length output_length) stick_width_default

unfoldable pub make_inverse_lifting_plan : Scheme → ℕ → ℕ → BoundaryMode → Result LiftingInversePlan
make_inverse_lifting_plan scheme original_length coefficient_length mode = do
  require (ltb 0 original_length)
  trace ← make_forward_lifting_plan scheme (original_buffer original_length) 0 0 mode
  require (length_valid trace.output_length coefficient_length)
  ok (record {
    forward_trace = trace;
    original_length = original_length;
    coefficient_length = coefficient_length;
  })

unfoldable pub subtract_offset : IndexInterval → ℕ → Result IndexInterval
subtract_offset i offset =
    if is_empty i
    then ok i
    else (do require (leb offset i.begin); ok (interval (i.begin - offset) (sub64 i.end offset)))

-- The samples that a stencil route keeps of its base.
abbrev pub reconstructable : LiftingStepRoute → IndexInterval
reconstructable r = interval r.base_offset (u64 (r.base_offset + r.output_length))

-- The cases of the switch on `route.type`, from the state before the route to the one after it.
abbrev pub required_after : StepType → LiftingStepRoute → BackState → Result BackState
required_after StepType.predict r s = do
  require (s.even_length == r.source_length && s.odd_length == r.base_length)
  require (contains (reconstructable r) s.required.odd)
  target ← subtract_offset s.required.odd r.base_offset
  k ← coefficient_count r
  source ← translated target r.source_offset (k - 1)
  ok (record {
    even_length = r.source_length;
    odd_length = r.output_length;
    required = record { even = hull s.required.even source; odd = target };
  })
required_after StepType.update r s = do
  require (s.odd_length == r.source_length && s.even_length == r.base_length)
  require (contains (reconstructable r) s.required.even)
  target ← subtract_offset s.required.even r.base_offset
  k ← coefficient_count r
  source ← translated target r.source_offset (k - 1)
  ok (record {
    even_length = r.output_length;
    odd_length = r.source_length;
    required = record { even = target; odd = hull s.required.odd source };
  })
required_after StepType.scale_even r s = do
  require (s.even_length == r.source_length)
  ok (record s { even_length = r.output_length })
required_after StepType.scale_odd r s = do
  require (s.odd_length == r.source_length)
  ok (record s { odd_length = r.output_length })
required_after StepType.swap r s = do
  require (s.even_length == r.source_length && s.odd_length == r.base_length)
  ok (record {
    even_length = s.odd_length;
    odd_length = s.even_length;
    required = record { even = s.required.odd; odd = s.required.even };
  })

-- One round of the loop.
unfoldable pub step_on : LiftingStepRoute → BackState → Result BackState
step_on r before = do
  validate_state before
  after ← required_after r.type r before
  validate_state after
  ok after

-- The loop: the requirements after each route, and the state after the last.
unfoldable pub propagate_through :
    List LiftingStepRoute → BackState → Result (List RequiredStreams × BackState)
propagate_through [] s = ok ([], s)
propagate_through (r ∷ routes) s = do
  after ← step_on r s
  (later, last) ← propagate_through routes after
  ok (after.required ∷ later, last)

-- The entries of the vector `required` after its first, which is the target.
unfoldable pub propagate_requirements :
    LiftingForwardPlan → IndexInterval → IndexInterval → Result (List RequiredStreams)
propagate_requirements plan target_even target_odd = do
  let start : BackState = record {
    even_length = plan.preprocess_layout.output.even.length;
    odd_length = plan.preprocess_layout.output.odd.length;
    required = record { even = target_even; odd = target_odd };
  }
  validate_state start
  (later, last) ← propagate_through plan.routes start
  require (last.even_length == plan.final_even_length && last.odd_length == plan.final_odd_length)
  ok later
