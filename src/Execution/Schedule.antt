-- ===== src/Execution/Schedule.antt =====
-- The chunks of a transform and its execution plan: build_chunks and make_lwt_execution_plan of
-- tt-wavelet/tt_wavelet/include/lifting/execution_plan.hpp, with lwt_config.hpp.
-- `max_dependency_overhead`, the largest of the chunks' reported doubles, is left out.
pub mod Tiles
pub mod Cover
pub mod Search
use tt_wavelet.Common.{
  ℕ, zero, suc, ◌+◌, ◌-◌, ◌*◌, ◌/◌, ◌%◌, ◌^◌, min, max, Bool, true, false, ◌&&◌, List, [], ◌∷◌,
  Option, none, some, length, ltb, leb, ◌==◌, if◌then◌else◌, Result, ok, fatal, require, ◌>>=◌,
  ◌>>◌,
}
use tt_wavelet.Common.Int.{ℤ, pos, leb_ℤ, ◌-ℤ◌}
use tt_wavelet.Common.Words.{u32, u64, to_u64}
use tt_wavelet.Signal.{ceil_div, round_up, stick_width_default, float_bytes}
use tt_wavelet.Plan.{LiftingForwardPlan}
use tt_wavelet.Execution.{IndexInterval, interval}
use tt_wavelet.Execution.Doubling.{double_until}
use tt_wavelet.Execution.Chunk.{LwtChunkPlan}
use tt_wavelet.Execution.Chunk.Build.{build_chunk}

-- `kStickBytes` and `kLwtGroupOutputElements`.
abbrev pub stick_size_bytes : ℕ
stick_size_bytes = 128

abbrev pub lwt_group_output_elements : ℕ
lwt_group_output_elements = 1536

pub data WorkspaceLayout : Type 0 where
  row_major tile_native : WorkspaceLayout

pub record LwtExecutionPlan : Type 0 where
  pub full_plan : LiftingForwardPlan
  pub chunks : List LwtChunkPlan
  pub groups_per_chunk : ℕ
  pub workspace_elements : ℕ
  pub max_workspace_elements : ℕ
  pub active_core_count : ℕ
  pub workspace_layout : WorkspaceLayout

-- The final groups of an output; an empty output has one.
abbrev pub group_count_of : ℕ → ℕ
group_count_of output_length = max (ceil_div output_length lwt_group_output_elements) 1

-- What the loop of build_chunks reads.
pub record ChunkGrid : Type 0 where
  pub even_origin : ℕ
  pub odd_origin : ℕ
  pub base_groups : ℕ
  pub extra_groups : ℕ

-- The intervals of the groups from `group_begin` on, shifted by an origin.
abbrev pub group_interval : ℕ → ℕ → ℕ → ℕ → IndexInterval
group_interval output_length origin group_begin group_count =
    interval (u64 (u64 (group_begin * lwt_group_output_elements) + origin)) (
      u64 (
        min (u64 (u64 (group_begin + group_count) * lwt_group_output_elements)) output_length
        + origin))

abbrev pub groups_of : ChunkGrid → ℕ → ℕ
groups_of g chunk_index = g.base_groups + (if ltb chunk_index g.extra_groups then 1 else 0)

-- The loop of build_chunks: the chunks of the rounds that are left, and `group_begin` after them.
unfoldable pub chunk_loop :
    LiftingForwardPlan → ChunkGrid → ℕ → ℕ → ℕ → Result (List LwtChunkPlan × ℕ)
chunk_loop plan g zero chunk_index group_begin = ok ([], group_begin)
chunk_loop plan g (suc rounds) chunk_index group_begin = do
  chunk ←
      build_chunk plan
        (group_interval plan.output_length g.even_origin group_begin (groups_of g chunk_index))
        (group_interval plan.output_length g.odd_origin group_begin (groups_of g chunk_index))
        g.even_origin g.odd_origin
  (chunks, end) ←
      chunk_loop plan g rounds (chunk_index + 1) (u64 (group_begin + groups_of g chunk_index))
  ok (chunk ∷ chunks, end)

-- `canonical_start` less a final shift.
abbrev pub signed_origin : LiftingForwardPlan → ℤ → ℤ
signed_origin plan shift = pos (u32 (plan.preprocess_layout.pad_config.left + 1) / 2) -ℤ shift

abbrev pub grid_of : LiftingForwardPlan → ℕ → ChunkGrid
grid_of plan chunk_count = record {
  even_origin = to_u64 (signed_origin plan plan.final_even_shift);
  odd_origin = to_u64 (signed_origin plan plan.final_odd_shift);
  base_groups = group_count_of plan.output_length / chunk_count;
  extra_groups = group_count_of plan.output_length % chunk_count;
}

unfoldable pub build_chunks : LiftingForwardPlan → ℕ → Result (List LwtChunkPlan)
build_chunks plan requested_chunk_count = do
  require (ltb 0 requested_chunk_count)
  require (
      leb_ℤ (pos 0) (signed_origin plan plan.final_even_shift)
      && leb_ℤ (pos 0) (signed_origin plan plan.final_odd_shift))
  let chunk_count = min requested_chunk_count (group_count_of plan.output_length)
  let grid : ChunkGrid = grid_of plan chunk_count
  require (
      leb (u64 (grid.even_origin + plan.output_length)) plan.final_even_length
      && leb (u64 (grid.odd_origin + plan.output_length)) plan.final_odd_length)
  (chunks, end) ← chunk_loop plan grid chunk_count 0 0
  require (end == group_count_of plan.output_length)
  ok chunks

-- The chunks of a candidate, its aligned workspace and its largest workspace.
pub record Candidate : Type 0 where
  pub chunks : List LwtChunkPlan
  pub workspace_elements : ℕ
  pub max_workspace_elements : ℕ

pub largest_workspace : List LwtChunkPlan → ℕ
largest_workspace [] = 0
largest_workspace (c ∷ chunks) = max c.max_workspace_elements (largest_workspace chunks)

abbrev pub workspace_alignment : WorkspaceLayout → ℕ
workspace_alignment WorkspaceLayout.tile_native = lwt_group_output_elements
workspace_alignment WorkspaceLayout.row_major = stick_width_default

abbrev pub candidate_of : List LwtChunkPlan → ℕ → Candidate
candidate_of chunks aligned = record {
  chunks = chunks;
  workspace_elements = u32 aligned;
  max_workspace_elements = u32 (largest_workspace chunks);
}

unfoldable pub build_candidate : LiftingForwardPlan → WorkspaceLayout → ℕ → Result Candidate
build_candidate plan layout chunk_count = do
  chunks ← build_chunks plan chunk_count
  let aligned = round_up (largest_workspace chunks) (workspace_alignment layout)
  require (leb aligned (2 ^ 32 - 1))
  ok (candidate_of chunks aligned)

abbrev pub fits_budget : ℕ → Candidate → Bool
fits_budget budget c = leb (3 * c.workspace_elements * float_bytes) budget

-- The loop that doubles the chunk count.
unfoldable pub search_chunk_count :
    LiftingForwardPlan → WorkspaceLayout → ℕ → ℕ → ℕ → ℕ → Option (Result Candidate)
search_chunk_count plan layout groups budget =
    double_until (build_candidate plan layout) (fits_budget budget) groups

abbrev pub assemble_execution_plan :
    LiftingForwardPlan → WorkspaceLayout → ℕ → ℕ → Candidate → LwtExecutionPlan
assemble_execution_plan plan layout core_limit groups c = record {
  full_plan = plan;
  chunks = c.chunks;
  groups_per_chunk = u32 (ceil_div groups (length c.chunks));
  workspace_elements = c.workspace_elements;
  max_workspace_elements = c.max_workspace_elements;
  active_core_count = u32 (min (length c.chunks) core_limit);
  workspace_layout = layout;
}

-- The count doubles below 2 ^ 32, so that 33 rounds are enough.
abbrev pub search_fuel : ℕ
search_fuel = 33

abbrev pub finish_search :
    LiftingForwardPlan
    → WorkspaceLayout
    → ℕ
    → ℕ
    → Option (Result Candidate)
    → Option (Result LwtExecutionPlan)
finish_search plan layout core_limit groups none = none
finish_search plan layout core_limit groups (some fatal) = some fatal
finish_search plan layout core_limit groups (some (ok c)) =
    some (ok (assemble_execution_plan plan layout core_limit groups c))

unfoldable pub make_lwt_execution_plan :
    LiftingForwardPlan → ℕ → ℕ → WorkspaceLayout → Option (Result LwtExecutionPlan)
make_lwt_execution_plan plan core_limit l1_signal_budget_bytes layout =
    let groups = u32 (group_count_of plan.output_length) in
    if ltb 0 core_limit && leb (3 * stick_size_bytes) l1_signal_budget_bytes
    then finish_search plan layout core_limit groups (
        search_chunk_count plan layout groups l1_signal_budget_bytes search_fuel
          (min groups core_limit))
    else some fatal
