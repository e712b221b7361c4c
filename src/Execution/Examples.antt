-- ===== src/Execution/Examples.antt =====
-- The theorems on execution_plan.hpp at the plan of a concrete scheme and input.
use tt_wavelet.Common.{
  ℕ, if◌then◌else◌, ltb, ltb→lt, Bool-cases, inl, inr, ◌+◌, ◌*◌, ◌≤◌, ◌<◌, ◌≡◌, refl, arith, min,
  List, [], ◌∷◌, All, some, false, Result, ok,
}
use tt_wavelet.Common.Int.{pos, negsuc, ◌-ℤ◌}
use tt_wavelet.Common.Words.{to_u64}
use tt_wavelet.Signal.{ceil_div}
use tt_wavelet.Plan.{StepType, StorageSlot, RouteOutputStorage, is_predict_update_step}
use tt_wavelet.Plan.Schemes.{short_plan, short_plan-Planned}
use tt_wavelet.Execution.{
  IndexInterval, interval, RequiredStreams, backpropagate_requirements, back_through, step_back,
  validate_interval, translated, hull, close_interval, coefficient_count, contains,
}
use tt_wavelet.Execution.Intervals.{Inside, Within}
use tt_wavelet.Execution.Backward.{InsideStreams, Covered, last_of, backpropagate-Covered}
use tt_wavelet.Execution.Axis.{AxisConePlan, build_axis_cone}
use tt_wavelet.Execution.Axis.Cone.{Linked, Room, streams, build_axis_cone-Linked}
use tt_wavelet.Execution.Chunk.{
  LwtStepRoute, LwtChunkPlan, inline_of, terminal_scale_inline, find_stencil, follow_swaps,
  any_of_type, routes_from, found_stencil,
}
use tt_wavelet.Execution.Chunk.Build.{
  ChunkState, build_chunk, chunk_routes, chunk_start, finish_chunk, chunk_stencil, chunk_scale,
  local_offset, rebase_routes, extents, overhead_of, push_front, checked_descriptor_extent,
}
use tt_wavelet.Execution.Chunk.Build.Storage.{Sound}
use tt_wavelet.Execution.Chunk.Build.Local.{chunk_routes_complete}
use tt_wavelet.Execution.Chunk.Run.{Arithmetic}
use tt_wavelet.Execution.Chunk.Build.Contents.{Samples, Loaded}
use tt_wavelet.Execution.Chunk.Build.Core.{Core, run_core}
use tt_wavelet.Execution.Chunk.Build.Deliver.{transformed_all}
use tt_wavelet.Execution.Chunk.Build.Whole.{loads, build_chunk-Delivers}
use tt_wavelet.Execution.Schedule.{
  WorkspaceLayout, LwtExecutionPlan, build_chunks, chunk_loop, group_count_of, signed_origin,
  make_lwt_execution_plan,
}
use tt_wavelet.Execution.Schedule.Tiles.{Tiles}
use tt_wavelet.Execution.Schedule.Cover.{build_chunks-Tiles}
use tt_wavelet.Execution.Schedule.Search.{Promises, make_lwt_execution_plan-Promises}

abbrev final_evens : IndexInterval
final_evens = interval 9 57

abbrev final_odds : IndexInterval
final_odds = interval 1 49

-- The one chunk of the plan: the predict route writes the final odd stream, so that no scale of it
-- is left.
abbrev chunk : LwtChunkPlan
chunk = record {
  final_even = final_evens;
  final_odd = final_odds;
  initial_even = interval 1 65;
  initial_odd = interval 8 56;
  descriptor = record {
    even_left = pos 0;
    even_right = pos 8;
    odd_left = negsuc 6;
    odd_right = negsuc 0;
  };
  routes =
      record {
        type = StepType.predict;
        source = record { slot = StorageSlot.slot_a };
        base = record { slot = StorageSlot.slot_b };
        output = record { storage = RouteOutputStorage.final_odd_dram; slot = StorageSlot.scratch };
        source_storage_length = 64;
        base_storage_length = 48;
        source_offset_elements = 0;
        base_offset_elements = 0;
        source_left_pad_elements = 0;
        output_length = 48;
        output_offset_elements = 0;
      }
      ∷ record {
        type = StepType.scale_even;
        source = record { slot = StorageSlot.slot_a };
        base = record { slot = StorageSlot.slot_a };
        output = record { storage = RouteOutputStorage.final_even_dram; slot = StorageSlot.slot_a };
        source_storage_length = 64;
        base_storage_length = 64;
        source_offset_elements = 8;
        base_offset_elements = 8;
        source_left_pad_elements = 0;
        output_length = 48;
        output_offset_elements = 0;
      }
      ∷ [];
  max_workspace_elements = 64;
  dependency_overhead = record { excess = 16; elements = 96 };
}

chunk-built : build_chunk short_plan final_evens final_odds 9 1 ≡ ok chunk
unfolding build_chunk backpropagate_requirements validate_interval back_through step_back
    close_interval translated coefficient_count hull contains is_predict_update_step
    terminal_scale_inline find_stencil follow_swaps any_of_type routes_from found_stencil
    local_offset chunk_routes rebase_routes extents overhead_of push_front checked_descriptor_extent
    chunk_start finish_chunk chunk_stencil chunk_scale ◌-ℤ◌
chunk-built = refl

chunks-built : build_chunks short_plan 1 ≡ ok (chunk ∷ [])
unfolding build_chunks chunk_loop ceil_div build_chunk backpropagate_requirements validate_interval
    back_through step_back close_interval translated coefficient_count hull contains
    is_predict_update_step terminal_scale_inline find_stencil follow_swaps any_of_type routes_from
    found_stencil local_offset chunk_routes rebase_routes extents overhead_of push_front
    checked_descriptor_extent chunk_start finish_chunk chunk_stencil chunk_scale ◌-ℤ◌
chunks-built = refl

backpropagate-Covered_example :
    (first : RequiredStreams) × (later : List RequiredStreams) × (backpropagate_requirements
        short_plan final_evens final_odds 32
      ≡ ok (first, later))
    × InsideStreams first 65 65
    × Covered short_plan.routes first later
    × Within final_evens (last_of first later).even
    × Within final_odds (last_of first later).odd
backpropagate-Covered_example =
    backpropagate-Covered short_plan final_evens final_odds 32 short_plan-Planned.chain
      (omega arith) (omega arith) (omega arith, omega arith) (omega arith, omega arith)
      (omega arith)

build_axis_cone-Linked_example :
    (cone : AxisConePlan) × (build_axis_cone short_plan final_evens final_odds 0 ≡ ok cone)
    × Linked
        (streams cone.initial_even cone.initial_odd)
        cone.routes
        (streams cone.final_even cone.final_odd)
    × Inside cone.initial_even 65
    × Inside cone.initial_odd 65
    × Within final_evens cone.final_even
    × Within final_odds cone.final_odd
    × All (λ q. Room cone.max_workspace_elements q.before) cone.routes
    × Room cone.max_workspace_elements (streams cone.final_even cone.final_odd)
build_axis_cone-Linked_example =
    build_axis_cone-Linked short_plan final_evens final_odds 0 short_plan-Planned.chain
      (omega arith) (omega arith) (omega arith, omega arith) (omega arith, omega arith)
      (omega arith)

chunk_routes_complete_example :
    (first : RequiredStreams) × (later : List RequiredStreams) × (qs : List LwtStepRoute)
    × (end : ChunkState) × (backpropagate_requirements short_plan final_evens final_odds 0
        ≡ ok (first, later))
    × (chunk_routes (inline_of 0 false) 0 short_plan.routes later (chunk_start first)
        ≡ ok (qs, end))
    × InsideStreams first 65 65
    × All (Sound end.max_workspace_elements) qs
chunk_routes_complete_example =
    chunk_routes_complete short_plan final_evens final_odds short_plan-Planned.chain (omega arith)
      (omega arith) (omega arith, omega arith) (omega arith, omega arith) (inline_of 0 false)

-- A stencil adds the first two samples of its window to the base, a scale doubles.
abbrev counting : Arithmetic ℕ
counting = record {
  stencil = λ t pad window b. if ltb pad 16 then window 0 + window 1 + b else b;
  scale = λ t x. 2 * x;
  stencil_window = λ t pad f g b same. elim (Bool-cases (ltb pad 16)) [
    | inl e ↦
        let short = ltb→lt pad 16 e in
        rw (e, same 0 (omega (arith, short)), same 1 (omega (arith, short))) refl
    | inr e ↦ rw e refl
  ];
}

build_chunk-Delivers_example :
    Inside chunk.initial_even 65
    × Inside chunk.initial_odd 65
    × All (Sound chunk.max_workspace_elements) chunk.routes
    × ((m : Core ℕ) (v : Samples ℕ)
        → Loaded m.slots (loads chunk) v
        → ((i : ℕ)
            → 9 ≤ i + 9
            → i + 9 < 57
            → (run_core counting chunk.routes m).final_even i
              ≡ (transformed_all counting short_plan.routes v).even (i + 9))
          × ((i : ℕ)
              → 1 ≤ i + 1
              → i + 1 < 49
              → (run_core counting chunk.routes m).final_odd i
                ≡ (transformed_all counting short_plan.routes v).odd (i + 1)))
build_chunk-Delivers_example =
    build_chunk-Delivers short_plan final_evens final_odds short_plan-Planned.chain (omega arith)
      (omega arith) (omega arith, omega arith) (omega arith, omega arith) short_plan-Planned.scales
      9 1 chunk chunk-built counting

build_chunks-Tiles_example :
    Tiles
      (to_u64 (signed_origin short_plan (pos 8)))
      (to_u64 (signed_origin short_plan (pos 16)))
      0
      (chunk ∷ [])
      48
    × (1 ≡ min 1 (group_count_of 48))
build_chunks-Tiles_example =
    build_chunks-Tiles short_plan 1 (chunk ∷ []) (omega arith) (omega arith) (omega arith)
      (omega arith) chunks-built

make_lwt_execution_plan-Promises_example :
    (e : Result LwtExecutionPlan) × (make_lwt_execution_plan short_plan 64 1048576
        WorkspaceLayout.tile_native
      ≡ some e)
    × Promises short_plan 64 1048576 e
make_lwt_execution_plan-Promises_example =
    make_lwt_execution_plan-Promises short_plan 64 1048576 WorkspaceLayout.tile_native (omega arith)
      (omega arith) (omega arith) (omega arith)
