-- ===== src/Inverse/Chunk/Values.antt =====
-- The samples that the inverse transform restores, and where a chunk's state says that they stand.
use tt_wavelet.Common.{
  ℕ, ◌+◌, ◌-◌, ◌^◌, ◌≤◌, ◌<◌, ◌≡◌, ap, ◌∙◌, arith, Bool, true, false, List, [], ◌∷◌, length, leb,
}
use tt_wavelet.Plan.{StepType, StorageSlot, LiftingStepRoute, step_coeff_capacity}
use tt_wavelet.Plan.Chain.{taps}
use tt_wavelet.Execution.{IndexInterval}
use tt_wavelet.Execution.Intervals.{Within, shifted}
use tt_wavelet.Execution.Chunk.{StoredStream, LwtStepRoute}
use tt_wavelet.Execution.Chunk.Build.{stored}
use tt_wavelet.Execution.Chunk.Build.Contents.{Samples, Stored}
use tt_wavelet.Execution.Chunk.Run.{Arithmetic, Slots, element, run_route, run_route-written}
use tt_wavelet.Inverse.Chunk.{inverse_entry}

module _ {V : Type 0} (a : Arithmetic V) where
  -- A sample of the base from that of the output of the route, which stands `base_offset` before it.
  abbrev pub restored_base : StepType → LiftingStepRoute → (ℕ → V) → (ℕ → V) → ℕ → V
  restored_base t r source output n =
      a.stencil t r.source_left_pad (λ i. source (n - r.base_offset + r.source_offset + i))
        (output (n - r.base_offset))

  -- The streams before a route from those after it; a terminal scale has been undone already, where
  -- the coefficients are read.
  abbrev pub restored_before : StepType → Bool → LiftingStepRoute → Samples V → Samples V
  restored_before StepType.swap terminal r v = record { even = v.odd; odd = v.even }
  restored_before _ true r v = v
  restored_before StepType.predict false r v = record {
    even = v.even;
    odd = restored_base StepType.predict r v.even v.odd;
  }
  restored_before StepType.update false r v = record {
    even = restored_base StepType.update r v.odd v.even;
    odd = v.odd;
  }
  restored_before StepType.scale_even false r v = record {
    even = λ n. a.scale StepType.scale_even (v.even n);
    odd = v.odd;
  }
  restored_before StepType.scale_odd false r v = record {
    even = v.even;
    odd = λ n. a.scale StepType.scale_odd (v.odd n);
  }

  -- The split streams from the streams after all routes.
  abbrev pub restored_all : List LiftingStepRoute → Samples V → Samples V
  restored_all [] v = v
  restored_all (r ∷ routes) v =
      restored_before r.type (leb (length routes) 1) r (restored_all routes v)

module _ {V : Type 0} (a : Arithmetic V) (m : Slots V) where
  module _ (r : LiftingStepRoute) (output : IndexInterval) (source base : StoredStream)
      (free : StorageSlot) (after_base : IndexInterval) (full : output.begin < output.end)
      (low : output.end < 2 ^ 63) (kept : Within output (shifted after_base r.base_offset 0))
      (source_in : Within (shifted after_base r.source_offset (taps r - 1)) source.storage)
      (base_in : Within after_base base.storage) (f g : ℕ → V) (from : Stored m source f)
      (on : Stored m base g) where
    abbrev inverse_entry_at : LwtStepRoute
    inverse_entry_at =
        inverse_entry r output source base free r.source_left_pad
          (output.begin - r.base_offset + r.source_offset - source.storage.begin)
          (output.begin - r.base_offset - base.storage.begin)

    window_at :
        (k i : ℕ)
        → output.begin ≤ k
        → k < output.end
        → i < step_coeff_capacity - r.source_left_pad
        → m source.slot (
            output.begin
            - r.base_offset
            + r.source_offset
            - source.storage.begin
            + (k - output.begin)
            + i)
          ≡ f (k - r.base_offset + r.source_offset + i)
    window_at k i b e h =
        let at = k - r.base_offset + r.source_offset + i in
        let place : output.begin
              - r.base_offset
              + r.source_offset
              - source.storage.begin
              + (k - output.begin)
              + i
            ≡ at - source.storage.begin =
          omega arith in
        rw place (from at (omega arith) (omega arith))

    base_at :
        (k : ℕ)
        → output.begin ≤ k
        → k < output.end
        → m base.slot (output.begin - r.base_offset - base.storage.begin + (k - output.begin))
          ≡ g (k - r.base_offset)
    base_at k b e =
        let place : output.begin - r.base_offset - base.storage.begin + (k - output.begin)
            ≡ k - r.base_offset - base.storage.begin =
          omega arith in
        rw place (on (k - r.base_offset) (omega arith) (omega arith))

    pub stencil_output :
        (s : StepType)
        → (k : ℕ) → output.begin ≤ k
        → k < output.end
        → a.stencil s r.source_left_pad
            (λ i. m source.slot (
              output.begin
              - r.base_offset
              + r.source_offset
              - source.storage.begin
              + (k - output.begin)
              + i))
            (m base.slot (output.begin - r.base_offset - base.storage.begin + (k - output.begin)))
          ≡ restored_base a s r f g k
    stencil_output s k b e =
        a.stencil_window s r.source_left_pad _ _ _ (λ i h. window_at k i b e h)
        ∙ ap
            (λ (x : V).
              a.stencil s r.source_left_pad (λ i. f (k - r.base_offset + r.source_offset + i)) x)
            (base_at k b e)

    pub predict_output :
        r.type ≡ StepType.predict
        → Stored
            (run_route a inverse_entry_at m)
            (stored free output)
            (restored_base a StepType.predict r f g)
    predict_output h k b e =
        run_route-written a inverse_entry_at m (k - output.begin) (omega arith)
        ∙ ap (λ (t : StepType). element a t inverse_entry_at m (k - output.begin)) h
        ∙ stencil_output StepType.predict k b e

    pub update_output :
        r.type ≡ StepType.update
        → Stored
            (run_route a inverse_entry_at m)
            (stored free output)
            (restored_base a StepType.update r f g)
    update_output h k b e =
        run_route-written a inverse_entry_at m (k - output.begin) (omega arith)
        ∙ ap (λ (t : StepType). element a t inverse_entry_at m (k - output.begin)) h
        ∙ stencil_output StepType.update k b e

  module _ (r : LiftingStepRoute) (output : IndexInterval) (source : StoredStream)
      (free : StorageSlot) (full : output.begin < output.end) (low : output.end < 2 ^ 63)
      (inside : Within output source.storage) (f : ℕ → V) (from : Stored m source f) where
    abbrev scale_entry_at : LwtStepRoute
    scale_entry_at =
        inverse_entry r output source source free 0 (output.begin - source.storage.begin)
          (output.begin - source.storage.begin)

    sample_at :
        (k : ℕ)
        → output.begin ≤ k
        → k < output.end
        → m source.slot (output.begin - source.storage.begin + (k - output.begin)) ≡ f k
    sample_at k b e =
        let place : output.begin - source.storage.begin + (k - output.begin)
            ≡ k - source.storage.begin =
          omega arith in
        rw place (from k (omega arith) (omega arith))

    pub scale_even_output :
        r.type ≡ StepType.scale_even
        → Stored
            (run_route a scale_entry_at m)
            (stored free output)
            (λ n. a.scale StepType.scale_even (f n))
    scale_even_output h k b e =
        run_route-written a scale_entry_at m (k - output.begin) (omega arith)
        ∙ ap (λ (t : StepType). element a t scale_entry_at m (k - output.begin)) h
        ∙ ap (a.scale StepType.scale_even) (sample_at k b e)

    pub scale_odd_output :
        r.type ≡ StepType.scale_odd
        → Stored
            (run_route a scale_entry_at m)
            (stored free output)
            (λ n. a.scale StepType.scale_odd (f n))
    scale_odd_output h k b e =
        run_route-written a scale_entry_at m (k - output.begin) (omega arith)
        ∙ ap (λ (t : StepType). element a t scale_entry_at m (k - output.begin)) h
        ∙ ap (a.scale StepType.scale_odd) (sample_at k b e)
