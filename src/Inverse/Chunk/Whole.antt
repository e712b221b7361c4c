-- ===== src/Inverse/Chunk/Whole.antt =====
-- The inverse chunk as a whole.
use tt_wavelet.Common.{
  ℕ, ◌+◌, ◌-◌, ◌^◌, ◌≤◌, ◌<◌, ◌≡◌, ◌≢◌, refl, List, All, le→leb, arith, ==_iff, ok,
}
use tt_wavelet.Plan.Chain.{Chain}
use tt_wavelet.Execution.{IndexInterval, interval_length, RequiredStreams}
use tt_wavelet.Execution.Intervals.{Inside, contains_iff}
use tt_wavelet.Execution.Backward.{last_of}
use tt_wavelet.Execution.Chunk.{LwtStepRoute}
use tt_wavelet.Plan.{LiftingStepRoute}
use tt_wavelet.Execution.Chunk.Build.{ChunkState}
use tt_wavelet.Execution.Chunk.Build.Storage.{Sound, Holds, local_offset-Within}
use tt_wavelet.Inverse.{LiftingInversePlan, propagate_requirements}
use tt_wavelet.Inverse.Chunk.Build.{
  IlwtChunkPlan, validate_inverse_scale_inline, canonical_interval, canonical_start_of, target_of,
  ilwt_chunk_of, finish_ilwt_chunk, build_ilwt_chunk,
}
use tt_wavelet.Execution.Chunk.Run.{Arithmetic, Slots, run_routes}
use tt_wavelet.Execution.Chunk.Build.Contents.{Samples, Stores, Loaded}
use tt_wavelet.Inverse.Chunk.Values.{restored_all}
use tt_wavelet.Inverse.Chunk.Complete.{inverse_routes_complete}

-- The routes of the chunk are sound for its workspace, and the two restored streams stand in two slots:
-- run on slots that are loaded with what is required of two streams, the chunk's routes leave at the
-- chunk's offsets the samples that undoing the plan's routes restores on the targets.
pub record Restored {V : Type 0} (a : Arithmetic V) (routes : List LiftingStepRoute)
    (target last : RequiredStreams) (c : IlwtChunkPlan) : Type 0 where
  pub sound : All (Sound c.max_workspace_elements) c.routes
  pub even_target : c.reconstructed_even ≡ target.even
  pub odd_target : c.reconstructed_odd ≡ target.odd
  pub two_slots : c.final_even.slot ≢ c.final_odd.slot
  pub even_held :
      c.final_even_offset_elements + interval_length target.even ≤ c.final_even_storage_length
  pub odd_held :
      c.final_odd_offset_elements + interval_length target.odd ≤ c.final_odd_storage_length
  pub even_restored :
      (m : Slots V) (v : Samples V)
      → Loaded m last v
      → (i : ℕ) → i < interval_length target.even
      → run_routes a c.routes m c.final_even.slot (c.final_even_offset_elements + i)
        ≡ (restored_all a routes v).even (target.even.begin + i)
  pub odd_restored :
      (m : Slots V) (v : Samples V)
      → Loaded m last v
      → (i : ℕ) → i < interval_length target.odd
      → run_routes a c.routes m c.final_odd.slot (c.final_odd_offset_elements + i)
        ≡ (restored_all a routes v).odd (target.odd.begin + i)

finish_ilwt_chunk-Restored :
    {V : Type 0} (a : Arithmetic V) (routes : List LiftingStepRoute) (last : RequiredStreams)
    (output : IndexInterval) (target : RequiredStreams) (approximation detail : IndexInterval)
    (qs : List LwtStepRoute) (end : ChunkState)
    → target.even.begin < target.even.end
    → target.odd.begin < target.odd.end
    → Holds end target
    → All (Sound end.max_workspace_elements) qs
    → ((m : Slots V) (v : Samples V)
        → Loaded m last v
        → Stores (run_routes a qs m) end (restored_all a routes v))
    → (c : IlwtChunkPlan) × (finish_ilwt_chunk output target approximation detail qs end ≡ ok c)
      × Restored a routes target last c
unfolding finish_ilwt_chunk
finish_ilwt_chunk-Restored a routes last output target approximation detail qs end even_full
      odd_full h s values =
    (
      ilwt_chunk_of output target approximation detail qs end
          (target.even.begin - end.active_even.storage.begin)
          (target.odd.begin - end.active_odd.storage.begin),
      rw
          (
            (contains_iff end.active_even.storage target.even even_full).1 h.even,
            (contains_iff end.active_odd.storage target.odd odd_full).1 h.odd,
            local_offset-Within end.active_even.storage target.even even_full h.even,
            local_offset-Within end.active_odd.storage target.odd odd_full h.odd,
          )
          refl,
      record {
        sound = s;
        even_target = refl;
        odd_target = refl;
        two_slots = h.even_odd;
        even_held = omega (arith, h.even, h.even_low, even_full);
        odd_held = omega (arith, h.odd, h.odd_low, odd_full);
        even_restored = λ m v loaded i b.
            let place : target.even.begin - end.active_even.storage.begin + i
                ≡ target.even.begin + i - end.active_even.storage.begin =
              omega (arith, h.even) in
            rw place (
              (values m v loaded).even (target.even.begin + i) (omega (arith, h.even))
                (omega (arith, h.even, h.even_low, even_full, b)));
        odd_restored = λ m v loaded i b.
            let place : target.odd.begin - end.active_odd.storage.begin + i
                ≡ target.odd.begin + i - end.active_odd.storage.begin =
              omega (arith, h.odd) in
            rw place (
              (values m v loaded).odd (target.odd.begin + i) (omega (arith, h.odd))
                (omega (arith, h.odd, h.odd_low, odd_full, b)));
      },
    )

module _ {V : Type 0} (a : Arithmetic V) (inverse : LiftingInversePlan) (output : IndexInterval)
    (later : List RequiredStreams) (approximation detail : IndexInterval) where
  abbrev targets : RequiredStreams
  targets = target_of inverse.forward_trace.preprocess_layout.pad_config.left output

  -- For an output interval of the signal, on a plan whose routes form a chain of lengths and end in the
  -- two scales: where the two targets have an element and lie in the split streams, the requirements
  -- propagate, and the last ones map to coefficients without a change of length, the inverse chunk is
  -- built, its routes are sound for its workspace, and the two restored streams stand in two slots
  -- that hold them from their offsets on: for any arithmetic of the steps, run on slots that are loaded
  -- with what is required of two streams, the chunk's routes leave there, sample by sample, what undoing
  -- the plan's routes one by one restores on the targets.
  pub build_ilwt_chunk-Restored :
      let plan = inverse.forward_trace in
      let split = plan.preprocess_layout.output in
      let last = last_of targets later in
      Chain split.even.length split.odd.length plan.routes plan.final_even_length
        plan.final_odd_length
      → split.even.length < 2 ^ 63
      → split.odd.length < 2 ^ 63
      → output.begin ≤ output.end
      → output.end ≤ inverse.original_length
      → Inside targets.even split.even.length
      → Inside targets.odd split.odd.length
      → propagate_requirements plan targets.even targets.odd ≡ ok later
      → canonical_interval last.even plan.final_even_shift
          (canonical_start_of plan)
          inverse.coefficient_length
        ≡ ok approximation
      → canonical_interval last.odd plan.final_odd_shift
          (canonical_start_of plan)
          inverse.coefficient_length
        ≡ ok detail
      → interval_length approximation ≡ interval_length last.even
      → interval_length detail ≡ interval_length last.odd
      → validate_inverse_scale_inline plan ≡ ok tt
      → (c : IlwtChunkPlan) × (build_ilwt_chunk inverse output ≡ ok c)
        × Restored a plan.routes targets last c
  unfolding build_ilwt_chunk
  build_ilwt_chunk-Restored chain even_low odd_low ordered inside even_in odd_in propagated
        approximated detailed even_same odd_same scales =
      let plan = inverse.forward_trace in
      let (qs, end, run, holds, sound, values) =
        inverse_routes_complete plan targets later chain even_low odd_low even_in odd_in propagated
          scales a in
      let (c, finished, restored) =
        finish_ilwt_chunk-Restored a plan.routes (last_of targets later) output targets
          approximation detail qs end even_in.0 odd_in.0 holds sound values in
      (
        c,
        rw
            (
              le→leb output.begin output.end ordered,
              le→leb output.end inverse.original_length inside,
              propagated,
              approximated,
              detailed,
              (==_iff (interval_length approximation) _).1 even_same,
              (==_iff (interval_length detail) _).1 odd_same,
              scales,
              run,
            )
            finished,
        restored,
      )
