-- ===== src/Inverse/Schedule.antt =====
-- The chunks of an inverse transform and its execution plan: build_chunks and
-- make_ilwt_execution_plan of tt-wavelet/tt_wavelet/include/lifting/inverse_plan.hpp.
-- `max_dependency_overhead`, the largest of the chunks' reported doubles, is left out.
pub mod Tiles
pub mod Checks
pub mod Search
use tt_wavelet.Common.{
  ℕ, zero, suc, ◌+◌, ◌-◌, ◌*◌, ◌/◌, ◌%◌, ◌^◌, min, max, Bool, true, false, ◌&&◌, List, [], ◌∷◌,
  Option, none, some, length, ltb, leb, ◌==◌, if◌then◌else◌, Result, ok, fatal, require, ◌>>=◌,
  ◌>>◌,
}
use tt_wavelet.Common.Words.{u32, u64}
use tt_wavelet.Signal.{ceil_div, round_up, float_bytes}
use tt_wavelet.Plan.{StepType, StreamRef, slot_code, is_predict_update_step}
use tt_wavelet.Execution.{IndexInterval, interval, interval_length}
use tt_wavelet.Execution.Chunk.{LwtStepRoute, type_code}
use tt_wavelet.Execution.Doubling.{double_until}
use tt_wavelet.Execution.Schedule.{
  WorkspaceLayout, workspace_alignment, lwt_group_output_elements, stick_size_bytes, search_fuel,
}
use tt_wavelet.Inverse.{LiftingInversePlan}
use tt_wavelet.Inverse.Chunk.Build.{IlwtChunkPlan, build_ilwt_chunk}

pub record IlwtExecutionPlan : Type 0 where
  pub full_plan : LiftingInversePlan
  pub chunks : List IlwtChunkPlan
  pub output_groups_per_chunk : ℕ
  pub workspace_elements : ℕ
  pub max_workspace_elements : ℕ
  pub active_core_count : ℕ
  pub final_interleave_direct : Bool
  pub workspace_layout : WorkspaceLayout

-- A group of the signal has the samples of one group of each stream.
abbrev pub output_group_elements : ℕ
output_group_elements = 2 * lwt_group_output_elements

abbrev pub output_group_count : ℕ → ℕ
output_group_count original_length = max (ceil_div original_length output_group_elements) 1

-- The samples of the groups from `group_begin` on.
abbrev pub output_of : ℕ → ℕ → ℕ → IndexInterval
output_of original_length group_begin group_count =
    interval (u64 (group_begin * output_group_elements))
      (min (u64 (u64 (group_begin + group_count) * output_group_elements)) original_length)

abbrev pub share_of : ℕ → ℕ → ℕ → ℕ
share_of base_groups extra_groups chunk_index =
    base_groups + (if ltb chunk_index extra_groups then 1 else 0)

-- The loop of build_chunks: the chunks of the rounds that are left, and `group_begin` after them.
unfoldable pub ilwt_chunk_loop :
    LiftingInversePlan → ℕ → ℕ → ℕ → ℕ → ℕ → Result (List IlwtChunkPlan × ℕ)
ilwt_chunk_loop plan base_groups extra_groups zero chunk_index group_begin = ok ([], group_begin)
ilwt_chunk_loop plan base_groups extra_groups (suc rounds) chunk_index group_begin = do
  let group_count = share_of base_groups extra_groups chunk_index
  chunk ← build_ilwt_chunk plan (output_of plan.original_length group_begin group_count)
  (chunks, end) ←
      ilwt_chunk_loop plan base_groups extra_groups rounds (chunk_index + 1)
        (u64 (group_begin + group_count))
  ok (chunk ∷ chunks, end)

unfoldable pub build_ilwt_chunks : LiftingInversePlan → ℕ → Result (List IlwtChunkPlan)
build_ilwt_chunks plan requested_chunk_count = do
  require (ltb 0 requested_chunk_count)
  let group_count = output_group_count plan.original_length
  let chunk_count = min requested_chunk_count group_count
  (chunks, end) ←
      ilwt_chunk_loop plan (group_count / chunk_count) (group_count % chunk_count) chunk_count 0 0
  require (end == group_count)
  ok chunks

-- The tuple that build_candidate returns.
pub record IlwtCandidate : Type 0 where
  pub chunks : List IlwtChunkPlan
  pub workspace_elements : ℕ
  pub max_workspace_elements : ℕ

unfoldable pub largest_ilwt_workspace : List IlwtChunkPlan → ℕ
largest_ilwt_workspace [] = 0
largest_ilwt_workspace (c ∷ chunks) = max c.max_workspace_elements (largest_ilwt_workspace chunks)

abbrev pub ilwt_candidate_of : List IlwtChunkPlan → ℕ → IlwtCandidate
ilwt_candidate_of chunks aligned = record {
  chunks = chunks;
  workspace_elements = u32 aligned;
  max_workspace_elements = u32 (largest_ilwt_workspace chunks);
}

unfoldable pub build_ilwt_candidate :
    LiftingInversePlan → WorkspaceLayout → ℕ → Result IlwtCandidate
build_ilwt_candidate plan layout chunk_count = do
  chunks ← build_ilwt_chunks plan chunk_count
  let aligned = round_up (largest_ilwt_workspace chunks) (workspace_alignment layout)
  require (ltb 0 aligned && leb aligned (2 ^ 32 - 1))
  ok (ilwt_candidate_of chunks aligned)

abbrev pub ilwt_fits_budget : ℕ → IlwtCandidate → Bool
ilwt_fits_budget budget c = leb (3 * c.workspace_elements * float_bytes) budget

-- `chunk.routes.back()` of a first route and the others.
abbrev pub back_of : LwtStepRoute → List LwtStepRoute → LwtStepRoute
back_of q [] = q
back_of q (s ∷ routes) = back_of s routes

-- The stream that the final route writes, its offset, and the length that the chunk reconstructs.
pub record FinalStream : Type 0 where
  pub stream : StreamRef
  pub offset : ℕ
  pub reconstructed_length : ℕ

abbrev pub final_stream_of : IlwtChunkPlan → StepType → FinalStream
final_stream_of c type =
    if type_code type == type_code StepType.update
    then record {
      stream = c.final_even;
      offset = c.final_even_offset_elements;
      reconstructed_length = interval_length c.reconstructed_even;
    }
    else record {
      stream = c.final_odd;
      offset = c.final_odd_offset_elements;
      reconstructed_length = interval_length c.reconstructed_odd;
    }

-- The checks under `final_interleave_direct`.
unfoldable pub check_direct : IlwtChunkPlan → LwtStepRoute → Result (Unit {0})
check_direct c final_route = do
  require (is_predict_update_step final_route.type)
  let final = final_stream_of c final_route.type
  require (
      slot_code final.stream.slot == slot_code final_route.output.slot
      && final.offset == 0
      && final.reconstructed_length == final_route.output_length)

unfoldable pub check_routes : Bool → IlwtChunkPlan → List LwtStepRoute → Result (Unit {0})
check_routes direct c [] = fatal
check_routes direct c (q ∷ routes) = if direct then check_direct c (back_of q routes) else ok tt

-- The loop over the chunks of the plan.
unfoldable pub check_chunks : Bool → List IlwtChunkPlan → Result (Unit {0})
check_chunks direct [] = ok tt
check_chunks direct (c ∷ chunks) = do check_routes direct c c.routes; check_chunks direct chunks

abbrev pub assemble_ilwt_plan :
    LiftingInversePlan → WorkspaceLayout → Bool → ℕ → ℕ → IlwtCandidate → IlwtExecutionPlan
assemble_ilwt_plan plan layout direct core_limit groups c = record {
  full_plan = plan;
  chunks = c.chunks;
  output_groups_per_chunk = u32 (ceil_div groups (length c.chunks));
  workspace_elements = c.workspace_elements;
  max_workspace_elements = c.max_workspace_elements;
  active_core_count = u32 (min (length c.chunks) core_limit);
  final_interleave_direct = direct;
  workspace_layout = layout;
}

-- What follows the search: the checks of the chunks, and the plan.
unfoldable pub finish_ilwt_search :
    LiftingInversePlan
    → WorkspaceLayout
    → Bool
    → ℕ
    → ℕ
    → Option (Result IlwtCandidate)
    → Option (Result IlwtExecutionPlan)
finish_ilwt_search plan layout direct core_limit groups none = none
finish_ilwt_search plan layout direct core_limit groups (some r) = some (do
  c ← r
  check_chunks direct c.chunks
  ok (assemble_ilwt_plan plan layout direct core_limit groups c))

unfoldable pub make_ilwt_execution_plan :
    LiftingInversePlan → ℕ → ℕ → WorkspaceLayout → Bool → Option (Result IlwtExecutionPlan)
make_ilwt_execution_plan plan core_limit l1_signal_budget_bytes layout direct =
    let groups = u32 (output_group_count plan.original_length) in
    if ltb 0 core_limit && leb (3 * stick_size_bytes) l1_signal_budget_bytes
    then finish_ilwt_search plan layout direct core_limit groups (
        double_until (build_ilwt_candidate plan layout) (ilwt_fits_budget l1_signal_budget_bytes)
          groups search_fuel (min groups core_limit))
    else some fatal
