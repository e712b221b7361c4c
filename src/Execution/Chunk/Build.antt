-- ===== src/Execution/Chunk/Build.antt =====
-- The plan of one chunk: build_chunk of execution_plan.hpp.
pub mod Storage
pub mod Contents
pub mod Core
pub mod Deliver
pub mod Stencils
pub mod Ends
pub mod Leads
pub mod Inline
pub mod Whole
pub mod Steps
pub mod Local
use tt_wavelet.Common.{
  ℕ, zero, suc, ◌+◌, ◌-◌, ◌^◌, min, max, Bool, true, false, not, ◌&&◌, ◌||◌, List, [], ◌∷◌, Option,
  none, some, length, get_elem?, ltb, leb, ◌==◌, if◌then◌else◌, Result, ok, fatal, require, ◌>>=◌,
  ◌>>◌,
}
use tt_wavelet.Common.Int.{ℤ, pos, negsuc, leb_ℤ, ◌-ℤ◌}
use tt_wavelet.Common.Words.{u64, to_i64}
use tt_wavelet.Plan.{
  StepType, StorageSlot, StreamRef, RouteOutputStorage, RouteOutputRef, LiftingStepRoute,
  LiftingForwardPlan, is_predict_update_step, workspace_output,
}
use tt_wavelet.Execution.{
  IndexInterval, is_empty, interval_length, RequiredStreams, contains, translated,
  coefficient_count, backpropagate_requirements,
}
use tt_wavelet.Execution.Chunk.{
  StoredStream, TerminalScaleInline, DependencyExtent, LwtStepRoute, Overhead, LwtChunkPlan,
  type_code, terminal_scale_inline,
}

unfoldable pub local_offset : IndexInterval → IndexInterval → Result ℕ
local_offset storage required = do
  require (contains storage required)
  ok (if is_empty required then 0 else required.begin - storage.begin)

-- A value that fits `int32_t`.
unfoldable pub checked_descriptor_extent : ℤ → Result ℤ
checked_descriptor_extent value = do
  require (leb_ℤ (negsuc (2 ^ 31 - 1)) value && leb_ℤ value (pos (2 ^ 31 - 1)))
  ok value

-- The variables of the loop over the routes.
pub record ChunkState : Type 0 where
  pub active_even : StoredStream
  pub active_odd : StoredStream
  pub free_slot : StorageSlot
  pub max_workspace_elements : ℕ

-- The route that the stencil branch pushes, with its two local offsets; the inline route goes to
-- its final buffer.
abbrev pub stencil_entry :
    TerminalScaleInline
    → ℕ
    → LiftingStepRoute
    → IndexInterval
    → StoredStream
    → StoredStream
    → StorageSlot
    → ℕ
    → ℕ
    → LwtStepRoute
stencil_entry inline index r output source base free_slot source_offset base_offset =
    let inline_route = index == inline.predict_update_route_index in
    record {
      type = r.type;
      source = record { slot = source.slot };
      base = record { slot = base.slot };
      output = record {
        storage = if inline_route then inline.final_storage else RouteOutputStorage.workspace_slot;
        slot = free_slot;
      };
      source_storage_length = interval_length source.storage;
      base_storage_length = interval_length base.storage;
      source_offset_elements = source_offset;
      base_offset_elements = base_offset;
      source_left_pad_elements = r.source_left_pad;
      output_length = interval_length output;
      output_offset_elements = if inline_route && not (is_empty output) then output.begin else 0;
    }

-- The stencil branch, with the streams that it reads.
unfoldable pub chunk_stencil :
    TerminalScaleInline
    → ℕ
    → LiftingStepRoute
    → IndexInterval
    → StoredStream
    → StoredStream
    → StorageSlot
    → Result LwtStepRoute
chunk_stencil inline index r output source base free_slot = do
  k ← coefficient_count r
  source_required ← translated output r.source_offset (k - 1)
  base_required ← translated output r.base_offset 0
  source_offset ← local_offset source.storage source_required
  base_offset ← local_offset base.storage base_required
  ok (stencil_entry inline index r output source base free_slot source_offset base_offset)

-- The route that the scale branch pushes; the output offset is that of the final buffer.
abbrev pub scale_entry :
    LiftingStepRoute → IndexInterval → StoredStream → RouteOutputStorage → ℕ → LwtStepRoute
scale_entry r output source final_storage offset = record {
  type = r.type;
  source = record { slot = source.slot };
  base = record { slot = source.slot };
  output = record { storage = final_storage; slot = source.slot };
  source_storage_length = interval_length source.storage;
  base_storage_length = interval_length source.storage;
  source_offset_elements = offset;
  base_offset_elements = offset;
  source_left_pad_elements = 0;
  output_length = interval_length output;
  output_offset_elements = if is_empty output then 0 else output.begin;
}

unfoldable pub chunk_scale :
    LiftingStepRoute → IndexInterval → StoredStream → RouteOutputStorage → Result LwtStepRoute
chunk_scale r output source final_storage = do
  offset ← local_offset source.storage output
  ok (scale_entry r output source final_storage offset)

abbrev pub stored : StorageSlot → IndexInterval → StoredStream
stored slot storage = record { slot = slot; storage = storage }

-- The state after a stencil route: its output replaces the base, whose slot is free.
abbrev pub after_predict : RequiredStreams → ChunkState → ChunkState
after_predict after s = record {
  active_even = s.active_even;
  active_odd = stored s.free_slot after.odd;
  free_slot = s.active_odd.slot;
  max_workspace_elements = max s.max_workspace_elements (interval_length after.odd);
}

abbrev pub after_update : RequiredStreams → ChunkState → ChunkState
after_update after s = record {
  active_even = stored s.free_slot after.even;
  active_odd = s.active_odd;
  free_slot = s.active_even.slot;
  max_workspace_elements = max s.max_workspace_elements (interval_length after.even);
}

-- One round of the loop: the routes that it pushes, and the state after it.
abbrev pub chunk_step :
    StepType
    → TerminalScaleInline
    → ℕ
    → LiftingStepRoute
    → RequiredStreams
    → ChunkState
    → Result (List LwtStepRoute × ChunkState)
chunk_step StepType.swap inline index r after s =
    ok ([], record s { active_even = s.active_odd; active_odd = s.active_even })
chunk_step StepType.predict inline index r after s = do
  pushed ← chunk_stencil inline index r after.odd s.active_even s.active_odd s.free_slot
  ok (pushed ∷ [], after_predict after s)
chunk_step StepType.update inline index r after s = do
  pushed ← chunk_stencil inline index r after.even s.active_odd s.active_even s.free_slot
  ok (pushed ∷ [], after_update after s)
chunk_step StepType.scale_even inline index r after s =
    if type_code r.type == type_code inline.scale_type then ok ([], s) else (do
      pushed ← chunk_scale r after.even s.active_even RouteOutputStorage.final_even_dram
      ok (pushed ∷ [], s))
chunk_step StepType.scale_odd inline index r after s =
    if type_code r.type == type_code inline.scale_type then ok ([], s) else (do
      pushed ← chunk_scale r after.odd s.active_odd RouteOutputStorage.final_odd_dram
      ok (pushed ∷ [], s))

unfoldable pub push_front : List LwtStepRoute → List LwtStepRoute → List LwtStepRoute
push_front [] routes = routes
push_front (r ∷ pushed) routes = r ∷ push_front pushed routes

-- The loop over the routes, with what is required after each.
unfoldable pub chunk_routes :
    TerminalScaleInline
    → ℕ
    → List LiftingStepRoute
    → List RequiredStreams
    → ChunkState
    → Result (List LwtStepRoute × ChunkState)
chunk_routes inline index [] later s = ok ([], s)
chunk_routes inline index (r ∷ routes) [] s = fatal
chunk_routes inline index (r ∷ routes) (after ∷ later) s = do
  (pushed, s') ← chunk_step r.type inline index r after s
  (rest, end) ← chunk_routes inline (index + 1) routes later s'
  ok (push_front pushed rest, end)

abbrev rebased : RouteOutputStorage → ℕ → ℕ → LwtStepRoute → Result LwtStepRoute
rebased RouteOutputStorage.workspace_slot even_origin odd_origin r = ok r
rebased RouteOutputStorage.final_even_dram even_origin odd_origin r = do
  require (leb even_origin r.output_offset_elements)
  ok (record r { output_offset_elements = r.output_offset_elements - even_origin })
rebased RouteOutputStorage.final_odd_dram even_origin odd_origin r = do
  require (leb odd_origin r.output_offset_elements)
  ok (record r { output_offset_elements = r.output_offset_elements - odd_origin })

-- The loop that makes the final offsets relative to the canonical output.
unfoldable pub rebase_routes : ℕ → ℕ → List LwtStepRoute → Result (List LwtStepRoute)
rebase_routes even_origin odd_origin [] = ok []
rebase_routes even_origin odd_origin (r ∷ routes) = do
  here ← rebased r.output.storage even_origin odd_origin r
  rest ← rebase_routes even_origin odd_origin routes
  ok (here ∷ rest)

unfoldable pub chunk_start : RequiredStreams → ChunkState
chunk_start first = record {
  active_even = stored StorageSlot.slot_a first.even;
  active_odd = stored StorageSlot.slot_b first.odd;
  free_slot = StorageSlot.scratch;
  max_workspace_elements = max (interval_length first.even) (interval_length first.odd);
}

unfoldable pub overhead_of : ℕ → ℕ → Overhead
overhead_of final_elements dependency_elements =
    if final_elements == 0 then record { excess = 0; elements = 1 } else record {
      excess = dependency_elements - min dependency_elements final_elements;
      elements = final_elements;
    }

unfoldable pub extents :
    IndexInterval → IndexInterval → IndexInterval → IndexInterval → Result DependencyExtent
extents final_even final_odd initial_even initial_odd = do
  let final_begin = to_i64 (min final_even.begin final_odd.begin)
  let final_end = to_i64 (max final_even.end final_odd.end)
  even_left ← checked_descriptor_extent (final_begin -ℤ to_i64 initial_even.begin)
  even_right ← checked_descriptor_extent (to_i64 initial_even.end -ℤ final_end)
  odd_left ← checked_descriptor_extent (final_begin -ℤ to_i64 initial_odd.begin)
  odd_right ← checked_descriptor_extent (to_i64 initial_odd.end -ℤ final_end)
  ok (record {
    even_left = even_left;
    even_right = even_right;
    odd_left = odd_left;
    odd_right = odd_right;
  })

-- The last part of build_chunk: the offsets of the final outputs, and the chunk that is returned.
unfoldable pub finish_chunk :
    IndexInterval
    → IndexInterval
    → ℕ
    → ℕ
    → RequiredStreams
    → List LwtStepRoute
    → ChunkState
    → Result LwtChunkPlan
finish_chunk final_even final_odd even_origin odd_origin first pushed end = do
  routes ← rebase_routes even_origin odd_origin pushed
  descriptor ← extents final_even final_odd first.even first.odd
  ok (record {
    final_even = final_even;
    final_odd = final_odd;
    initial_even = first.even;
    initial_odd = first.odd;
    descriptor = descriptor;
    routes = routes;
    max_workspace_elements = end.max_workspace_elements;
    dependency_overhead =
        overhead_of (u64 (interval_length final_even + interval_length final_odd))
          (u64 (interval_length first.even + interval_length first.odd));
  })

unfoldable pub build_chunk :
    LiftingForwardPlan → IndexInterval → IndexInterval → ℕ → ℕ → Result LwtChunkPlan
build_chunk plan final_even final_odd even_origin odd_origin = do
  (first, later) ← backpropagate_requirements plan final_even final_odd 0
  inline ← terminal_scale_inline plan
  (pushed, end) ← chunk_routes inline 0 plan.routes later (chunk_start first)
  finish_chunk final_even final_odd even_origin odd_origin first pushed end
