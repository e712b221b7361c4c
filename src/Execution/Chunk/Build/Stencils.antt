-- ===== src/Execution/Chunk/Build/Stencils.antt =====
-- The stencil routes of a chunk: where their output goes, and its samples.
use tt_wavelet.Common.{
  ℕ, ◌+◌, ◌-◌, ◌^◌, ◌≤◌, ◌<◌, ◌≡◌, ◌≢◌, refl, ap, ◌∙◌, arith, Bool, true, false, not, [], ◌∷◌, ◌==◌,
  ok,
}
use tt_wavelet.Plan.{StepType, LiftingStepRoute}
use tt_wavelet.Plan.Chain.{Transition, taps}
use tt_wavelet.Execution.{IndexInterval, RequiredStreams}
use tt_wavelet.Execution.Intervals.{Within, shifted}
use tt_wavelet.Execution.Backward.{Needs, Proper}
use tt_wavelet.Execution.Chunk.{TerminalScaleInline, LwtStepRoute}
use tt_wavelet.Execution.Chunk.Run.{Arithmetic, Slots, element, run_route, run_route-written}
use tt_wavelet.Execution.Chunk.Build.{
  ChunkState, stencil_entry, stored, after_predict, after_update, chunk_step,
}
use tt_wavelet.Execution.Chunk.Build.Storage.{Holds, chunk_stencil-reads}
use tt_wavelet.Execution.Chunk.Build.Contents.{Samples, Stored}
use tt_wavelet.Execution.Chunk.Build.Core.{written, final_element}
use tt_wavelet.Execution.Chunk.Build.Deliver.{
  required_of, active_of, samples_of, transformed_base, written_at,
}

-- The stencil that makes the even stream, or the odd one.
abbrev pub stencil_of : Bool → StepType
stencil_of true = StepType.update
stencil_of false = StepType.predict

abbrev pub after_stencil : Bool → RequiredStreams → ChunkState → ChunkState
after_stencil true after s = after_update after s
after_stencil false after s = after_predict after s

module _ (inline : TerminalScaleInline) (index : ℕ) (r : LiftingStepRoute) (after : RequiredStreams)
    (s : ChunkState) (made : Bool) where
  abbrev pub pushed_stencil : LwtStepRoute
  pushed_stencil =
      stencil_entry inline index r (required_of made after) (active_of (not made) s)
        (active_of made s) s.free_slot
        ((required_of made after).begin + r.source_offset - (active_of (not made) s).storage.begin)
        ((required_of made after).begin + r.base_offset - (active_of made s).storage.begin)

  -- What the stencil reads is stored.
  pub record Reads : Type 0 where
    pub full : (required_of made after).begin < (required_of made after).end
    pub low : (required_of made after).end < 2 ^ 63
    pub source_in :
        Within
          (shifted (required_of made after) r.source_offset (taps r - 1))
          (active_of (not made) s).storage
    pub base_in :
        Within (shifted (required_of made after) r.base_offset 0) (active_of made s).storage
    pub source_apart : (active_of (not made) s).slot ≢ s.free_slot

module _ (inline : TerminalScaleInline) (index : ℕ) (r : LiftingStepRoute) (e o e' o' : ℕ)
    (before after : RequiredStreams) (s : ChunkState) (proper : Proper after)
    (holds : Holds s before) where
  -- The round of a stencil.
  pub stencil_pushed :
      (made : Bool)
      → Transition (stencil_of made) r e o e' o'
      → Needs (stencil_of made) r after before
      → (chunk_step (stencil_of made) inline index r after s
          ≡ ok (pushed_stencil inline index r after s made ∷ [], after_stencil made after s))
        × Reads inline index r after s made
  stencil_pushed true t n =
      let source_in : Within (shifted after.even r.source_offset (taps r - 1))
          s.active_odd.storage =
        omega (arith, n.1, holds.odd) in
      let base_in : Within (shifted after.even r.base_offset 0) s.active_even.storage =
        omega (arith, n.2, holds.even) in
      let (eq, _, _) =
        chunk_stencil-reads inline index r after.even s.active_odd s.active_even s.free_slot
          t.4.padded proper.0 source_in base_in holds.odd_low holds.even_low holds.odd_free
          holds.even_free in
      (
        rw eq refl,
        record {
          full = proper.0;
          low = omega (arith, base_in, holds.even_low);
          source_in = source_in;
          base_in = base_in;
          source_apart = holds.odd_free;
        },
      )
  stencil_pushed false t n =
      let source_in : Within (shifted after.odd r.source_offset (taps r - 1))
          s.active_even.storage =
        omega (arith, n.1, holds.even) in
      let base_in : Within (shifted after.odd r.base_offset 0) s.active_odd.storage =
        omega (arith, n.2, holds.odd) in
      let (eq, _, _) =
        chunk_stencil-reads inline index r after.odd s.active_even s.active_odd s.free_slot
          t.4.padded proper.1 source_in base_in holds.even_low holds.odd_low holds.even_free
          holds.odd_free in
      (
        rw eq refl,
        record {
          full = proper.1;
          low = omega (arith, base_in, holds.odd_low);
          source_in = source_in;
          base_in = base_in;
          source_apart = holds.even_free;
        },
      )

stencil_element :
    {V : Type 0} (a : Arithmetic V) (made : Bool) (q : LwtStepRoute) (m : Slots V) (p : ℕ)
    → element a (stencil_of made) q m p
      ≡ a.stencil
          (stencil_of made)
          q.source_left_pad_elements
          (λ i. m q.source.slot (q.source_offset_elements + p + i))
          (m q.base.slot (q.base_offset_elements + p))
stencil_element a true q m p = refl
stencil_element a false q m p = refl

stencil_final_element :
    {V : Type 0} (a : Arithmetic V) (made : Bool) (scale : StepType) (q : LwtStepRoute)
    (m : Slots V) (p : ℕ)
    → final_element a scale (stencil_of made) q m p
      ≡ a.scale scale (element a (stencil_of made) q m p)
stencil_final_element a true scale q m p = refl
stencil_final_element a false scale q m p = refl

module _ {V : Type 0} (a : Arithmetic V) (inline : TerminalScaleInline) (index : ℕ)
    (r : LiftingStepRoute) (after : RequiredStreams) (s : ChunkState) (made : Bool)
    (reads : Reads inline index r after s made) (m : Slots V) (v : Samples V)
    (from : Stored m (active_of (not made) s) (samples_of (not made) v))
    (on : Stored m (active_of made s) (samples_of made v)) where
  abbrev output : IndexInterval
  output = required_of made after

  abbrev value : ℕ → V
  value = transformed_base a (stencil_of made) r (samples_of (not made) v) (samples_of made v)

  stencil_value :
      (k : ℕ)
      → output.begin ≤ k
      → k < output.end
      → a.stencil
          (stencil_of made)
          r.source_left_pad
          (λ i. m (active_of (not made) s).slot (
            output.begin
            + r.source_offset
            - (active_of (not made) s).storage.begin
            + (k - output.begin)
            + i))
          (m
            (active_of made s).slot
            (output.begin + r.base_offset - (active_of made s).storage.begin + (k - output.begin)))
        ≡ value k
  stencil_value k b l =
      a.stencil_window (stencil_of made) r.source_left_pad _ _ _ (λ i h.
        let place : output.begin
              + r.source_offset
              - (active_of (not made) s).storage.begin
              + (k - output.begin)
              + i
            ≡ k + r.source_offset + i - (active_of (not made) s).storage.begin =
          omega (arith, reads.source_in) in
        rw place (
          from (k + r.source_offset + i) (omega (arith, reads.source_in))
            (omega (arith, reads.source_in))))
      ∙ ap
          (λ (x : V).
            a.stencil (stencil_of made) r.source_left_pad
              (λ i. samples_of (not made) v (k + r.source_offset + i)) x)
          (let place : output.begin
                  + r.base_offset
                  - (active_of made s).storage.begin
                  + (k - output.begin)
                ≡ k + r.base_offset - (active_of made s).storage.begin =
              omega (arith, reads.base_in) in
            rw place (
              on (k + r.base_offset) (omega (arith, reads.base_in)) (omega (arith, reads.base_in))))

  abbrev pushed : LwtStepRoute
  pushed = pushed_stencil inline index r after s made

  stencil_sample :
      (k : ℕ)
      → r.type ≡ stencil_of made
      → output.begin ≤ k
      → k < output.end
      → element a pushed.type pushed m (k - output.begin) ≡ value k
  stencil_sample k h b l =
      ap (λ (t : StepType). element a t pushed m (k - output.begin)) h
      ∙ stencil_element a made pushed m (k - output.begin)
      ∙ stencil_value k b l

  -- In the workspace the output stands in the free slot.
  pub stencil_stored :
      r.type ≡ stencil_of made → Stored (run_route a pushed m) (stored s.free_slot output) value
  stencil_stored h k b l =
      run_route-written a pushed m (k - output.begin) (omega (arith, reads.low, b, l))
      ∙ stencil_sample k h b l

  -- In a final buffer it stands at its position in the stream, scaled.
  pub stencil_written :
      (scale : StepType) (before : ℕ → V)
      → r.type ≡ stencil_of made
      → (index == inline.predict_update_route_index) ≡ true
      → (k : ℕ) → output.begin ≤ k
      → k < output.end
      → written pushed.output_offset_elements pushed.output_length
          (final_element a scale pushed.type pushed m)
          before
          k
        ≡ a.scale scale (value k)
  stencil_written scale before h here k b l =
      let offset : pushed.output_offset_elements ≡ output.begin = at_begin here reads.full in
      written_at a output pushed.output_offset_elements pushed.output_length k
        (final_element a scale pushed.type pushed m) before offset
        (omega (arith, reads.low, reads.full)) b l
      ∙ ap (λ (t : StepType). final_element a scale t pushed m (k - output.begin)) h
      ∙ stencil_final_element a made scale pushed m (k - output.begin)
      ∙ ap (a.scale scale)
          (stencil_element a made pushed m (k - output.begin) ∙ stencil_value k b l)
    where
      at_begin :
          (index == inline.predict_update_route_index) ≡ true
          → output.begin < output.end
          → pushed.output_offset_elements ≡ output.begin
      at_begin here full = rw here (ground (arith, full))
