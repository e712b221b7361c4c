-- ===== src/Inverse/Chunk/Build.antt =====
-- The inverse chunk: build_chunk of inverse_plan.hpp, with the functions that it calls.

use tt_wavelet.Common.{
  ℕ, ◌+◌, ◌-◌, ◌/◌, Bool, false, ◌&&◌, ◌||◌, List, [], ◌∷◌, length, leb, ◌==◌, if◌then◌else◌,
  Result, ok, require, ◌>>=◌, ◌>>◌,
}
use tt_wavelet.Common.Int.{ℤ, pos, ◌+ℤ◌, ◌-ℤ◌, leb_ℤ, quot_ℤ}
use tt_wavelet.Common.Words.{u64, to_i32, to_i64, to_u64}
use tt_wavelet.Plan.{StepType, StreamRef, LiftingStepRoute, LiftingForwardPlan, is_scale_step}
use tt_wavelet.Execution.{
  IndexInterval, interval, is_empty, interval_length, RequiredStreams, contains,
}
use tt_wavelet.Execution.Backward.{last_of}
use tt_wavelet.Execution.Chunk.{LwtStepRoute, Overhead, type_code, routes_from}
use tt_wavelet.Execution.Chunk.Build.{local_offset, ChunkState, chunk_start, overhead_of}
use tt_wavelet.Inverse.{LiftingInversePlan, propagate_requirements}
use tt_wavelet.Inverse.Chunk.{inverse_routes}

pub record IlwtChunkPlan : Type 0 where
  pub output_signal : IndexInterval
  pub reconstructed_even : IndexInterval
  pub reconstructed_odd : IndexInterval
  pub canonical_approximation : IndexInterval
  pub canonical_detail : IndexInterval
  pub routes : List LwtStepRoute
  pub final_even : StreamRef
  pub final_odd : StreamRef
  pub final_even_storage_length : ℕ
  pub final_odd_storage_length : ℕ
  pub final_even_offset_elements : ℕ
  pub final_odd_offset_elements : ℕ
  pub max_workspace_elements : ℕ
  pub dependency_overhead : Overhead

-- The loop of validate_inverse_scale_inline over the last two routes: found_even and found_odd.
unfoldable pub scales_found : List LiftingStepRoute → Bool → Bool → Result (Bool × Bool)
scales_found [] even odd = ok (even, odd)
scales_found (r ∷ routes) even odd = do
  require (is_scale_step r.type)
  scales_found routes (even || type_code r.type == type_code StepType.scale_even)
      (odd || type_code r.type == type_code StepType.scale_odd)

unfoldable pub validate_inverse_scale_inline : LiftingForwardPlan → Result (Unit {0})
validate_inverse_scale_inline plan = do
  require (leb 3 (length plan.routes))
  (even, odd) ← scales_found (routes_from (length plan.routes - 2) plan.routes) false false
  require (even && odd)

unfoldable pub canonical_interval : IndexInterval → ℤ → ℤ → ℕ → Result IndexInterval
canonical_interval internal stream_shift canonical_start coefficient_length =
    if is_empty internal then ok internal else (do
      let begin : ℤ = to_i64 internal.begin +ℤ stream_shift -ℤ canonical_start
      let end : ℤ = to_i64 internal.end +ℤ stream_shift -ℤ canonical_start
      require (leb_ℤ (pos 0) begin && leb_ℤ begin end && leb (to_u64 end) coefficient_length)
      ok (interval (to_u64 begin) (to_u64 end)))

-- The padded samples of an output interval that stand in the even and in the odd stream.
abbrev pub target_of : ℕ → IndexInterval → RequiredStreams
target_of pad output =
    let padded_begin = u64 (output.begin + pad) in
    let padded_end = u64 (output.end + pad) in
    record {
      even = interval (u64 (padded_begin + 1) / 2) (u64 (padded_end + 1) / 2);
      odd = interval (padded_begin / 2) (padded_end / 2);
    }

-- The chunk that is returned.
abbrev pub ilwt_chunk_of :
    IndexInterval
    → RequiredStreams
    → IndexInterval
    → IndexInterval
    → List LwtStepRoute
    → ChunkState
    → ℕ
    → ℕ
    → IlwtChunkPlan
ilwt_chunk_of output target approximation detail routes end even_offset odd_offset = record {
  output_signal = output;
  reconstructed_even = target.even;
  reconstructed_odd = target.odd;
  canonical_approximation = approximation;
  canonical_detail = detail;
  routes = routes;
  final_even = record { slot = end.active_even.slot };
  final_odd = record { slot = end.active_odd.slot };
  final_even_storage_length = interval_length end.active_even.storage;
  final_odd_storage_length = interval_length end.active_odd.storage;
  final_even_offset_elements = even_offset;
  final_odd_offset_elements = odd_offset;
  max_workspace_elements = end.max_workspace_elements;
  dependency_overhead =
      overhead_of (interval_length output)
        (u64 (interval_length approximation + interval_length detail));
}

-- The last part: the check of the targets and the two offsets.
unfoldable pub finish_ilwt_chunk :
    IndexInterval
    → RequiredStreams
    → IndexInterval
    → IndexInterval
    → List LwtStepRoute
    → ChunkState
    → Result IlwtChunkPlan
finish_ilwt_chunk output target approximation detail routes end = do
  require
      (contains end.active_even.storage target.even && contains end.active_odd.storage target.odd)
  even_offset ← local_offset end.active_even.storage target.even
  odd_offset ← local_offset end.active_odd.storage target.odd
  ok (ilwt_chunk_of output target approximation detail routes end even_offset odd_offset)

abbrev pub canonical_start_of : LiftingForwardPlan → ℤ
canonical_start_of plan = quot_ℤ (to_i32 (plan.preprocess_layout.pad_config.left + 1)) (pos 2)

unfoldable pub build_ilwt_chunk : LiftingInversePlan → IndexInterval → Result IlwtChunkPlan
build_ilwt_chunk inverse output = do
  let plan : LiftingForwardPlan = inverse.forward_trace
  require (leb output.begin output.end && leb output.end inverse.original_length)
  let target : RequiredStreams = target_of plan.preprocess_layout.pad_config.left output
  later ← propagate_requirements plan target.even target.odd
  let last : RequiredStreams = last_of target later
  approximation ←
      canonical_interval last.even plan.final_even_shift (canonical_start_of plan)
        inverse.coefficient_length
  detail ←
      canonical_interval last.odd plan.final_odd_shift (canonical_start_of plan)
        inverse.coefficient_length
  require (
      interval_length approximation == interval_length last.even
      && interval_length detail == interval_length last.odd)
  validate_inverse_scale_inline plan
  (routes, end) ← inverse_routes plan.routes target later (chunk_start last)
  finish_ilwt_chunk output target approximation detail routes end
