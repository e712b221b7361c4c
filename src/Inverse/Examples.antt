-- ===== src/Inverse/Examples.antt =====
-- The theorems on inverse_plan.hpp at the plan of a concrete scheme and input.
use tt_wavelet.Common.{
  ℕ, ltb, ltb→lt, Bool-cases, inl, inr, if◌then◌else◌, ◌+◌, ◌*◌, true, Option, some, none, Result,
  ◌<◌, ◌≤◌, ◌≡◌, ◌↔◌, ◌⊎◌, refl, List, [], ◌∷◌, All, arith, ok, fatal,
}
use tt_wavelet.Common.Int.{pos, ◌+ℤ◌, ◌-ℤ◌}
use tt_wavelet.Boundary.{BoundaryMode}
use tt_wavelet.Signal.{round_up}
use tt_wavelet.Plan.{LiftingForwardPlan, make_forward_lifting_plan, is_scale_step}
use tt_wavelet.Plan.Schemes.{synthetic_k17, short_plan, short_plan-Planned}
use tt_wavelet.Execution.{
  interval, RequiredStreams, validate_interval, hull, translated, contains, coefficient_count,
}
use tt_wavelet.Execution.Backward.{last_of}
use tt_wavelet.Execution.Chunk.{LwtStepRoute, routes_from}
use tt_wavelet.Execution.Chunk.Build.{ChunkState, chunk_start}
use tt_wavelet.Execution.Chunk.Build.Storage.{Sound, Holds}
use tt_wavelet.Inverse.{
  LiftingInversePlan, original_buffer, make_inverse_lifting_plan, propagate_requirements,
  propagate_through, step_on, subtract_offset,
}
use tt_wavelet.Inverse.Lengths.{make_inverse_lifting_plan_iff}
use tt_wavelet.Inverse.Propagate.{Undone, Blocked, propagate_requirements-Undone}
use tt_wavelet.Execution.Chunk.Run.{Arithmetic, Slots, run_routes}
use tt_wavelet.Execution.Chunk.Build.Contents.{Samples, Stores, Loaded}
use tt_wavelet.Inverse.Chunk.Values.{restored_all}
use tt_wavelet.Inverse.Chunk.{inverse_routes}
use tt_wavelet.Inverse.Chunk.Build.{
  validate_inverse_scale_inline, scales_found, target_of, IlwtChunkPlan, canonical_interval,
  canonical_start_of, build_ilwt_chunk,
}
use tt_wavelet.Inverse.Chunk.Whole.{Restored, build_ilwt_chunk-Restored}
use tt_wavelet.Inverse.Chunk.Complete.{inverse_routes_complete}
use tt_wavelet.Execution.Schedule.{WorkspaceLayout}
use tt_wavelet.Execution.Doubling.{double_until}
use tt_wavelet.Execution.Chunk.Build.{local_offset, overhead_of}
use tt_wavelet.Inverse.Chunk.{inverse_stencil, inverse_scale}
use tt_wavelet.Inverse.Chunk.Build.{finish_ilwt_chunk}
use tt_wavelet.Signal.{ceil_div}
use tt_wavelet.Plan.{is_predict_update_step}
use tt_wavelet.Inverse.Schedule.{
  IlwtExecutionPlan, make_ilwt_execution_plan, build_ilwt_chunks, ilwt_chunk_loop,
  build_ilwt_candidate, finish_ilwt_search, check_chunks, check_routes, check_direct,
  largest_ilwt_workspace,
}
use tt_wavelet.Inverse.Schedule.Search.{IlwtPromises, make_ilwt_execution_plan-IlwtPromises}
use tt_wavelet.Inverse.Chunk.Targets.{target_of_samples}

-- The forward plan of the length: no buffer has an address.
abbrev trace : LiftingForwardPlan
trace = record short_plan {
  preprocess_layout = record {
    input = original_buffer 64;
    pad_config = short_plan.preprocess_layout.pad_config;
    output = record {
      even = record (original_buffer 64) { length = 65 };
      odd = record (original_buffer 64) { length = 65 };
    };
  };
}

-- 64 samples need 48 coefficients, or 64 in whole sticks.
abbrev padded : LiftingInversePlan
padded = record { forward_trace = trace; original_length = 64; coefficient_length = 64 }

make_inverse_lifting_plan_iff_example :
    (make_inverse_lifting_plan synthetic_k17 64 64 BoundaryMode.symmetric ≡ ok padded) ↔ (
      (0 < 64)
      × (make_forward_lifting_plan synthetic_k17 (original_buffer 64) 0 0 BoundaryMode.symmetric
          ≡ ok trace)
      × ((padded.coefficient_length ≡ 48) ⊎ (padded.coefficient_length ≡ round_up 48 32))
      × (padded.original_length ≡ 64)
      × (padded.coefficient_length ≡ 64))
make_inverse_lifting_plan_iff_example =
    make_inverse_lifting_plan_iff synthetic_k17 64 64 BoundaryMode.symmetric padded (omega arith)
      (omega arith)

abbrev target : RequiredStreams
target = record { even = interval 17 49; odd = interval 16 48 }

propagate_requirements-Undone_example :
    ((later : List RequiredStreams) × (propagate_requirements short_plan
          (interval 17 49)
          (interval 16 48)
        ≡ ok later)
      × Undone short_plan.routes target later)
    ⊎ ((propagate_requirements short_plan (interval 17 49) (interval 16 48) ≡ fatal)
        × Blocked short_plan.routes target)
propagate_requirements-Undone_example =
    propagate_requirements-Undone short_plan (interval 17 49) (interval 16 48)
      short_plan-Planned.chain (omega arith) (omega arith) (omega arith, omega arith)
      (omega arith, omega arith)

-- What the propagation requires after each route: the predict route reads 17 samples for each.
abbrev requirements : List RequiredStreams
requirements =
    record { even = interval 9 57; odd = interval 9 41 }
    ∷ record { even = interval 9 57; odd = interval 9 41 }
    ∷ record { even = interval 9 57; odd = interval 9 41 }
    ∷ []

target-propagated :
    propagate_requirements short_plan (interval 17 49) (interval 16 48) ≡ ok requirements
unfolding propagate_requirements propagate_through step_on subtract_offset validate_interval hull
    translated contains coefficient_count
target-propagated = refl

scales-valid : validate_inverse_scale_inline short_plan ≡ ok tt
unfolding validate_inverse_scale_inline scales_found routes_from is_scale_step
scales-valid = refl

-- A stencil adds the first two samples of its window to the base, a scale doubles.
abbrev counting : Arithmetic ℕ
counting = record {
  stencil = λ t pad window b. if ltb pad 16 then window 0 + window 1 + b else b;
  scale = λ t x. 2 * x;
  stencil_window = λ t pad f g b same. elim (Bool-cases (ltb pad 16)) [
    | inl e ↦
        let short = ltb→lt pad 16 e in
        rw (e, same 0 (omega (arith, short)), same 1 (omega (arith, short))) refl
    | inr e ↦ rw e refl
  ];
}

inverse_routes_complete_example :
    (qs : List LwtStepRoute) × (end : ChunkState) × (inverse_routes short_plan.routes target
        requirements
        (chunk_start (last_of target requirements))
      ≡ ok (qs, end))
    × Holds end target
    × All (Sound end.max_workspace_elements) qs
    × ((m : Slots ℕ) (v : Samples ℕ)
        → Loaded m (last_of target requirements) v
        → Stores (run_routes counting qs m) end (restored_all counting short_plan.routes v))
inverse_routes_complete_example =
    inverse_routes_complete short_plan target requirements short_plan-Planned.chain (omega arith)
      (omega arith) (omega arith, omega arith) (omega arith, omega arith) target-propagated
      scales-valid counting

target_of_samples_example :
    ((k : ℕ)
      → (((target_of 33 (interval 0 64)).even.begin ≤ k)
          × (k < (target_of 33 (interval 0 64)).even.end))
        ↔ ((33 ≤ 2 * k) × (2 * k < 97)))
    × ((k : ℕ)
        → (((target_of 33 (interval 0 64)).odd.begin ≤ k)
            × (k < (target_of 33 (interval 0 64)).odd.end))
          ↔ ((33 ≤ 2 * k + 1) × (2 * k + 1 < 97)))
target_of_samples_example = target_of_samples 33 (interval 0 64) (omega arith) (omega arith)

trace-propagated : propagate_requirements trace (interval 17 49) (interval 16 48) ≡ ok requirements
unfolding propagate_requirements propagate_through step_on subtract_offset validate_interval hull
    translated contains coefficient_count
trace-propagated = refl

trace-scales : validate_inverse_scale_inline trace ≡ ok tt
unfolding validate_inverse_scale_inline scales_found routes_from is_scale_step
trace-scales = refl

evens-canonical :
    canonical_interval (interval 9 57) (pos 8) (canonical_start_of trace) 64 ≡ ok (interval 0 48)
unfolding canonical_interval ◌+ℤ◌ ◌-ℤ◌
evens-canonical = refl

odds-canonical :
    canonical_interval (interval 9 41) (pos 16) (canonical_start_of trace) 64 ≡ ok (interval 8 40)
unfolding canonical_interval ◌+ℤ◌ ◌-ℤ◌
odds-canonical = refl

-- The whole signal of 64 samples in one chunk.
build_ilwt_chunk-Restored_example :
    (c : IlwtChunkPlan) × (build_ilwt_chunk padded (interval 0 64) ≡ ok c)
    × Restored counting trace.routes target (last_of target requirements) c
build_ilwt_chunk-Restored_example =
    build_ilwt_chunk-Restored counting padded (interval 0 64) requirements (interval 0 48)
      (interval 8 40) short_plan-Planned.chain (omega arith) (omega arith) (omega arith)
      (omega arith) (omega arith, omega arith) (omega arith, omega arith) trace-propagated
      evens-canonical odds-canonical refl refl trace-scales

make_ilwt_execution_plan-IlwtPromises_example :
    (e : Result IlwtExecutionPlan) × (make_ilwt_execution_plan padded 64 1048576
        WorkspaceLayout.tile_native true
      ≡ some e)
    × IlwtPromises padded 64 1048576 true e
make_ilwt_execution_plan-IlwtPromises_example =
    make_ilwt_execution_plan-IlwtPromises padded 64 1048576 WorkspaceLayout.tile_native true
      (omega arith) (omega arith)

-- The workspace of a plan that is made, and whether one is.
abbrev workspace_of : Option (Result IlwtExecutionPlan) → Option ℕ
workspace_of none = none
workspace_of (some fatal) = none
workspace_of (some (ok e)) = some e.workspace_elements

-- The whole signal is one chunk, whose last route makes all odd samples.
one_chunk_planned :
    workspace_of (make_ilwt_execution_plan padded 64 1048576 WorkspaceLayout.row_major true)
    ≡ some 64
unfolding make_ilwt_execution_plan double_until build_ilwt_candidate build_ilwt_chunks
    ilwt_chunk_loop build_ilwt_chunk propagate_requirements propagate_through step_on
    subtract_offset validate_interval hull translated contains coefficient_count canonical_interval
    ◌+ℤ◌ ◌-ℤ◌ validate_inverse_scale_inline scales_found routes_from is_scale_step inverse_routes
    inverse_stencil inverse_scale local_offset chunk_start finish_ilwt_chunk overhead_of
    finish_ilwt_search check_chunks check_routes check_direct ceil_div round_up
    largest_ilwt_workspace is_predict_update_step
one_chunk_planned = refl
