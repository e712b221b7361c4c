-- ===== src/Inverse/Schedule/Checks.antt =====
-- The checks of make_ilwt_execution_plan on its chunks, before the final streams are interleaved.
use tt_wavelet.Common.{
  ℕ, ◌≡◌, ◌⊎◌, inl, inr, refl, ap, ◌∙◌, Bool, true, false, ◌&&◌, List, [], ◌∷◌, ◌++◌, All, ok,
  require, >>-both-ok, ◌==◌, arith,
}
use tt_wavelet.Plan.{StepType, StorageSlot, slot_code, is_predict_update_step}
use tt_wavelet.Execution.Chunk.Run.{slot_code-injective}
use tt_wavelet.Execution.{interval_length}
use tt_wavelet.Execution.Chunk.{LwtStepRoute}
use tt_wavelet.Inverse.Chunk.Build.{IlwtChunkPlan}
use tt_wavelet.Inverse.Schedule.{back_of, final_stream_of, check_direct, check_routes, check_chunks}

-- A route writes the whole of a restored stream of the chunk: an update the even one, a predict the
-- odd one.
abbrev pub Produces : IlwtChunkPlan → LwtStepRoute → Type 0
Produces c q =
    ((q.type ≡ StepType.update)
      × (c.final_even.slot ≡ q.output.slot)
      × (c.final_even_offset_elements ≡ 0)
      × (interval_length c.reconstructed_even ≡ q.output_length))
    ⊎ ((q.type ≡ StepType.predict)
        × (c.final_odd.slot ≡ q.output.slot)
        × (c.final_odd_offset_elements ≡ 0)
        × (interval_length c.reconstructed_odd ≡ q.output_length))

-- A chunk has a route, and for a direct interleave its last one writes the whole of a stream.
abbrev pub Checked : Bool → IlwtChunkPlan → Type 0
Checked false c = (q : LwtStepRoute) × (front : List LwtStepRoute) × (c.routes ≡ front ++ (q ∷ []))
Checked true c =
    (q : LwtStepRoute) × (front : List LwtStepRoute) × (c.routes ≡ front ++ (q ∷ [])) × Produces c q

back_of-append :
    (q : LwtStepRoute) (qs : List LwtStepRoute)
    → (front : List LwtStepRoute) × (q ∷ qs ≡ front ++ (back_of q qs ∷ []))
back_of-append q [] = ([], refl)
back_of-append q (s ∷ qs) = let (front, e) = back_of-append s qs in (q ∷ front, ap (λ l. q ∷ l) e)

same_stream :
    (s t : StorageSlot) (offset length expected : ℕ)
    → (slot_code s == slot_code t && offset == 0 && length == expected) ≡ true
    → (s ≡ t) × (offset ≡ 0) × (length ≡ expected)
same_stream s t offset length expected h =
    (slot_code-injective s t (ground arith), ground arith, ground arith)

check_type-Produces :
    (c : IlwtChunkPlan) (q : LwtStepRoute) (type : StepType)
    → q.type ≡ type
    → is_predict_update_step type ≡ true
    → (slot_code (final_stream_of c type).stream.slot == slot_code q.output.slot
        && (final_stream_of c type).offset == 0
        && (final_stream_of c type).reconstructed_length == q.output_length)
      ≡ true
    → Produces c q
unfolding is_predict_update_step
check_type-Produces c q StepType.predict e t h =
    let (same, start, whole) =
      same_stream c.final_odd.slot q.output.slot c.final_odd_offset_elements
        (interval_length c.reconstructed_odd) q.output_length h in
    inr (e, same, start, whole)
check_type-Produces c q StepType.update e t h =
    let (same, start, whole) =
      same_stream c.final_even.slot q.output.slot c.final_even_offset_elements
        (interval_length c.reconstructed_even) q.output_length h in
    inl (e, same, start, whole)
check_type-Produces c q StepType.scale_even e t h = cc
check_type-Produces c q StepType.scale_odd e t h = cc
check_type-Produces c q StepType.swap e t h = cc

check_direct-Produces :
    (c : IlwtChunkPlan) (q : LwtStepRoute) → check_direct c q ≡ ok tt → Produces c q
unfolding check_direct
check_direct-Produces c q h =
    let (stencil, h₁) = >>-both-ok _ _ h in
    check_type-Produces c q q.type refl (required _ stencil) (required _ h₁)
  where
    required : (b : Bool) → require b ≡ ok tt → b ≡ true
    required false h = cc
    required true h = refl

check_routes-Checked :
    (direct : Bool) (c : IlwtChunkPlan) (qs : List LwtStepRoute)
    → c.routes ≡ qs
    → check_routes direct c qs ≡ ok tt
    → Checked direct c
unfolding check_routes
check_routes-Checked direct c [] e h = cc
check_routes-Checked false c (q ∷ qs) e h =
    let (front, all) = back_of-append q qs in (back_of q qs, front, e ∙ all)
check_routes-Checked true c (q ∷ qs) e h =
    let (front, all) = back_of-append q qs in
    (back_of q qs, front, e ∙ all, check_direct-Produces c (back_of q qs) h)

pub check_chunks-Checked :
    (direct : Bool) (cs : List IlwtChunkPlan)
    → check_chunks direct cs ≡ ok tt
    → All (Checked direct) cs
unfolding check_chunks
check_chunks-Checked direct [] h = tt
check_chunks-Checked direct (c ∷ cs) h =
    let (here, h₁) = >>-both-ok (check_routes direct c c.routes) (check_chunks direct cs) h in
    (check_routes-Checked direct c c.routes refl here, check_chunks-Checked direct cs h₁)
