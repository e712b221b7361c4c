-- ===== src/Execution/Chunk/Build/Deliver.antt =====
-- The end of the loop of build_chunk: after the inline stencil only swaps and the two scales follow.
use tt_wavelet.Common.{
  ℕ, ◌+◌, ◌-◌, ◌^◌, ◌≤◌, ◌<◌, ◌≡◌, refl, sym, ap, ◌∙◌, arith, Bool, true, false, not, List, [], ◌∷◌,
  ltb, leb, ◌==◌, ok, le→leb, lt→ltb, ==_iff,
}
use tt_wavelet.Plan.{StepType, RouteOutputStorage, LiftingStepRoute}
use tt_wavelet.Plan.Terminal.{TwoScales}
use tt_wavelet.Execution.{IndexInterval, RequiredStreams}
use tt_wavelet.Execution.Intervals.{Within}
use tt_wavelet.Execution.Chunk.{StoredStream, TerminalScaleInline, LwtStepRoute, type_code}
use tt_wavelet.Execution.Chunk.Run.{Arithmetic}
use tt_wavelet.Execution.Chunk.Build.{ChunkState, scale_entry, chunk_step}
use tt_wavelet.Execution.Chunk.Build.Storage.{chunk_scale-eq}
use tt_wavelet.Execution.Chunk.Build.Contents.{Samples, Stored}
use tt_wavelet.Execution.Chunk.Build.Core.{Core, written, run_core, final_element}

-- A stream, by whether it is the even one.
abbrev pub scale_of : Bool → StepType
scale_of true = StepType.scale_even
scale_of false = StepType.scale_odd

abbrev pub buffer_of : Bool → RouteOutputStorage
buffer_of true = RouteOutputStorage.final_even_dram
buffer_of false = RouteOutputStorage.final_odd_dram

abbrev pub required_of : Bool → RequiredStreams → IndexInterval
required_of true s = s.even
required_of false s = s.odd

abbrev pub active_of : Bool → ChunkState → StoredStream
active_of true s = s.active_even
active_of false s = s.active_odd

abbrev pub samples_of : {V : Type 0} → Bool → Samples V → ℕ → V
samples_of true v = v.even
samples_of false v = v.odd

abbrev pub final_of : {V : Type 0} → Bool → Core V → ℕ → V
final_of true m = m.final_even
final_of false m = m.final_odd

module _ {V : Type 0} (a : Arithmetic V) where
  -- A sample of the output of a stencil, from the window and the base at the same place.
  abbrev pub transformed_base : StepType → LiftingStepRoute → (ℕ → V) → (ℕ → V) → ℕ → V
  transformed_base t r source base n =
      a.stencil t r.source_left_pad (λ i. source (n + r.source_offset + i))
        (base (n + r.base_offset))

  -- The streams after a route from those before it.
  abbrev pub transformed_after : StepType → LiftingStepRoute → Samples V → Samples V
  transformed_after StepType.predict r v = record v {
    odd = transformed_base StepType.predict r v.even v.odd;
  }
  transformed_after StepType.update r v = record v {
    even = transformed_base StepType.update r v.odd v.even;
  }
  transformed_after StepType.scale_even r v = record v {
    even = λ n. a.scale StepType.scale_even (v.even n);
  }
  transformed_after StepType.scale_odd r v = record v {
    odd = λ n. a.scale StepType.scale_odd (v.odd n);
  }
  transformed_after StepType.swap r v = record { even = v.odd; odd = v.even }

  -- The coefficients from the split streams.
  abbrev pub transformed_all : List LiftingStepRoute → Samples V → Samples V
  transformed_all [] v = v
  transformed_all (r ∷ routes) v = transformed_all routes (transformed_after r.type r v)

-- The routes after the inline stencil: swaps, then the two scales. The stream that the stencil made is
-- the even one now for `now`, and at the end for `final`.
abbrev pub EndsWith : Bool → Bool → List LiftingStepRoute → Type 0
EndsWith final now [] = ⊥
EndsWith final now (x ∷ []) = ⊥
EndsWith final now (x ∷ y ∷ []) = (now ≡ final) × TwoScales x y
EndsWith final now (x ∷ y ∷ z ∷ routes) =
    (x.type ≡ StepType.swap) × EndsWith final (not now) (y ∷ z ∷ routes)

module _ (inline : TerminalScaleInline) (index : ℕ) (r : LiftingStepRoute) (after : RequiredStreams)
    (s : ChunkState) where
  -- The scale of the stream that the inline stencil made pushes nothing.
  pub scale_skipped :
      (stream : Bool)
      → inline.scale_type ≡ scale_of stream
      → r.type ≡ scale_of stream
      → chunk_step (scale_of stream) inline index r after s ≡ ok ([], s)
  scale_skipped true g h =
      rw ((==_iff (type_code r.type) (type_code inline.scale_type)).1 (ap type_code (h ∙ sym g)))
        refl
  scale_skipped false g h =
      rw ((==_iff (type_code r.type) (type_code inline.scale_type)).1 (ap type_code (h ∙ sym g)))
        refl

  abbrev pub scale_pushed_entry : Bool → LwtStepRoute
  scale_pushed_entry stream =
      scale_entry r (required_of stream after) (active_of stream s) (buffer_of stream)
        ((required_of stream after).begin - (active_of stream s).storage.begin)

  differ :
      (t u : StepType)
      → inline.scale_type ≡ u
      → r.type ≡ t
      → (type_code t == type_code u) ≡ false
      → (type_code r.type == type_code inline.scale_type) ≡ false
  differ t u g h e =
      ap (λ (x : StepType). type_code x == type_code inline.scale_type) h
      ∙ ap (λ (x : StepType). type_code t == type_code x) g
      ∙ e

  -- The other scale is pushed.
  pub scale_pushed :
      (stream : Bool)
      → inline.scale_type ≡ scale_of (not stream)
      → r.type ≡ scale_of stream
      → (required_of stream after).begin < (required_of stream after).end
      → Within (required_of stream after) (active_of stream s).storage
      → (active_of stream s).storage.end < 2 ^ 63
      → chunk_step (scale_of stream) inline index r after s ≡ ok (scale_pushed_entry stream ∷ [], s)
  scale_pushed true g h full inside low =
      rw
        (
          differ StepType.scale_even StepType.scale_odd g h refl,
          chunk_scale-eq r after.even s.active_even RouteOutputStorage.final_even_dram full inside
              low,
        )
        refl
  scale_pushed false g h full inside low =
      rw
        (
          differ StepType.scale_odd StepType.scale_even g h refl,
          chunk_scale-eq r after.odd s.active_odd RouteOutputStorage.final_odd_dram full inside low,
        )
        refl

module _ {V : Type 0} (a : Arithmetic V) where
  -- A run of samples that is written to a buffer stands there.
  pub written_at :
      (output : IndexInterval) (offset length k : ℕ) (f before : ℕ → V)
      → offset ≡ output.begin
      → length ≡ output.end - output.begin
      → output.begin ≤ k
      → k < output.end
      → written offset length f before k ≡ f (k - output.begin)
  written_at output offset length k f before eo el b e =
      let low : leb offset k ≡ true = le→leb offset k (omega (arith, eo)) in
      let high : ltb k (offset + length) ≡ true =
        lt→ltb k (offset + length) (omega (arith, eo, el)) in
      rw (low, high) (ap (λ (o : ℕ). f (k - o)) eo)

  -- The pushed scale delivers its stream.
  pub scale_delivered :
      (stream : Bool) (r : LiftingStepRoute) (after : RequiredStreams) (s : ChunkState) (m : Core V)
      (f : ℕ → V) (inline : TerminalScaleInline) (index : ℕ)
      → r.type ≡ scale_of stream
      → (required_of stream after).end < 2 ^ 63
      → Within (required_of stream after) (active_of stream s).storage
      → Stored m.slots (active_of stream s) f
      → (k : ℕ) → (required_of stream after).begin ≤ k
      → k < (required_of stream after).end
      → final_of stream (run_core a (scale_pushed_entry inline index r after s stream ∷ []) m) k
        ≡ a.scale (scale_of stream) (f k)
  scale_delivered true r after s m f inline index h low inside from k b e =
      let q = scale_pushed_entry inline index r after s true in
      let place : after.even.begin - s.active_even.storage.begin + (k - after.even.begin)
          ≡ k - s.active_even.storage.begin =
        omega (arith, inside) in
      written_at after.even q.output_offset_elements q.output_length k
        (final_element a StepType.scale_even q.type q m.slots) m.final_even (ground arith)
        (omega arith) b e
      ∙ ap
          (λ (t : StepType). final_element a StepType.scale_even t q m.slots (k - after.even.begin))
          h
      ∙ ap (λ (p : ℕ). a.scale StepType.scale_even (m.slots s.active_even.slot p)) place
      ∙ ap (a.scale StepType.scale_even) (from k (omega (arith, inside)) (omega (arith, inside)))
  scale_delivered false r after s m f inline index h low inside from k b e =
      let q = scale_pushed_entry inline index r after s false in
      let place : after.odd.begin - s.active_odd.storage.begin + (k - after.odd.begin)
          ≡ k - s.active_odd.storage.begin =
        omega (arith, inside) in
      written_at after.odd q.output_offset_elements q.output_length k
        (final_element a StepType.scale_odd q.type q m.slots) m.final_odd (ground arith)
        (omega arith) b e
      ∙ ap (λ (t : StepType). final_element a StepType.scale_odd t q m.slots (k - after.odd.begin))
          h
      ∙ ap (λ (p : ℕ). a.scale StepType.scale_odd (m.slots s.active_odd.slot p)) place
      ∙ ap (a.scale StepType.scale_odd) (from k (omega (arith, inside)) (omega (arith, inside)))
