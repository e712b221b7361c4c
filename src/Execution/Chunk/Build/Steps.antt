-- ===== src/Execution/Chunk/Build/Steps.antt =====
-- The loop of build_chunk over the routes, round by round.
use tt_wavelet.Common.{
  ℕ, ◌+◌, ◌-◌, ◌^◌, ◌≤◌, ◌<◌, ◌≡◌, refl, sym, ◌⊎◌, inl, inr, List, [], ◌∷◌, All, arith, Bool-cases,
  ◌==◌, Result, ok,
}
use tt_wavelet.Plan.{StepType, RouteOutputStorage, LiftingStepRoute}
use tt_wavelet.Plan.Chain.{Transition, Chain, done, route}
use tt_wavelet.Execution.{IndexInterval, interval_length, RequiredStreams}
use tt_wavelet.Execution.Intervals.{Within}
use tt_wavelet.Execution.Backward.{Needs, Proper, Covered, nothing, covers}
use tt_wavelet.Execution.Chunk.{StoredStream, TerminalScaleInline, LwtStepRoute, type_code}
use tt_wavelet.Execution.Chunk.Build.{
  ChunkState, stencil_entry, scale_entry, after_predict, after_update, chunk_step, push_front,
  chunk_routes,
}
use tt_wavelet.Execution.Chunk.Build.Storage.{
  Sound, Holds, Sound-mono, chunk_stencil-reads, chunk_scale-eq, chunk_scale-reads,
}

-- The result of one round from the streams before a route to those after it.
abbrev Steps : Result (List LwtStepRoute × ChunkState) → ChunkState → RequiredStreams → Type 0
Steps result s after =
    (pushed : List LwtStepRoute) × (s' : ChunkState) × (result ≡ ok (pushed, s'))
    × Holds s' after
    × All (Sound s'.max_workspace_elements) pushed
    × (s.max_workspace_elements ≤ s'.max_workspace_elements)

module _ (inline : TerminalScaleInline) (index : ℕ) (r : LiftingStepRoute) (e o e' o' : ℕ)
    (before after : RequiredStreams) (s : ChunkState) (proper : Proper after)
    (holds : Holds s before) where
  chunk_step-predict :
      r.type ≡ StepType.predict
      → Transition StepType.predict r e o e' o'
      → Needs StepType.predict r after before
      → Steps (chunk_step StepType.predict inline index r after s) s after
  chunk_step-predict h t n =
      let (eq, reads, size) =
        chunk_stencil-reads inline index r after.odd s.active_even s.active_odd s.free_slot
          t.4.padded proper.1 (omega (arith, n.1, holds.even)) (omega (arith, n.2, holds.odd))
          holds.even_low holds.odd_low holds.even_free holds.odd_free in
      (
        stencil_entry inline index r after.odd s.active_even s.active_odd s.free_slot
              (after.odd.begin + r.source_offset - s.active_even.storage.begin)
              (after.odd.begin + r.base_offset - s.active_odd.storage.begin)
            ∷ [],
        after_predict after s,
        rw eq refl,
        record {
          even = omega (arith, n.0, holds.even);
          odd = omega arith;
          even_low = holds.even_low;
          odd_low = omega (arith, n.2, holds.odd, holds.odd_low);
          even_size = omega (arith, holds.even_size);
          odd_size = omega arith;
          even_odd = holds.even_free;
          even_free = holds.even_odd;
          odd_free = λ p. holds.odd_free (sym p);
        },
        (
          record {
            reads = rw h reads;
            source_fits = omega (arith, holds.even_size);
            base_fits = omega (arith, holds.odd_size);
            output_fits = omega arith;
          },
          tt,
        ),
        omega arith,
      )

  chunk_step-update :
      r.type ≡ StepType.update
      → Transition StepType.update r e o e' o'
      → Needs StepType.update r after before
      → Steps (chunk_step StepType.update inline index r after s) s after
  chunk_step-update h t n =
      let (eq, reads, size) =
        chunk_stencil-reads inline index r after.even s.active_odd s.active_even s.free_slot
          t.4.padded proper.0 (omega (arith, n.1, holds.odd)) (omega (arith, n.2, holds.even))
          holds.odd_low holds.even_low holds.odd_free holds.even_free in
      (
        stencil_entry inline index r after.even s.active_odd s.active_even s.free_slot
              (after.even.begin + r.source_offset - s.active_odd.storage.begin)
              (after.even.begin + r.base_offset - s.active_even.storage.begin)
            ∷ [],
        after_update after s,
        rw eq refl,
        record {
          even = omega arith;
          odd = omega (arith, n.0, holds.odd);
          even_low = omega (arith, n.2, holds.even, holds.even_low);
          odd_low = holds.odd_low;
          even_size = omega arith;
          odd_size = omega (arith, holds.odd_size);
          even_odd = λ p. holds.odd_free (sym p);
          even_free = λ p. holds.even_free (sym p);
          odd_free = λ p. holds.even_odd (sym p);
        },
        (
          record {
            reads = rw h reads;
            source_fits = omega (arith, holds.odd_size);
            base_fits = omega (arith, holds.even_size);
            output_fits = omega arith;
          },
          tt,
        ),
        omega arith,
      )

  scale_entry-Sound :
      (output : IndexInterval) (source : StoredStream) (final_storage : RouteOutputStorage)
      → output.begin < output.end
      → Within output source.storage
      → source.storage.end < 2 ^ 63
      → interval_length source.storage ≤ s.max_workspace_elements
      → (r.type ≡ StepType.scale_even) ⊎ (r.type ≡ StepType.scale_odd)
      → Sound s.max_workspace_elements
          (scale_entry r output source final_storage (output.begin - source.storage.begin))
  scale_entry-Sound output source final_storage full inside low size (inl h) =
      let reads = chunk_scale-reads r output source final_storage full inside low in
      record {
        reads = rw h reads.0;
        source_fits = size;
        base_fits = size;
        output_fits = omega (arith, reads);
      }
  scale_entry-Sound output source final_storage full inside low size (inr h) =
      let reads = chunk_scale-reads r output source final_storage full inside low in
      record {
        reads = rw h reads.0;
        source_fits = size;
        base_fits = size;
        output_fits = omega (arith, reads);
      }

  unchanged-Holds :
      Within after.even s.active_even.storage
      → Within after.odd s.active_odd.storage
      → Holds s after
  unchanged-Holds p q = record {
    even = p;
    odd = q;
    even_low = holds.even_low;
    odd_low = holds.odd_low;
    even_size = holds.even_size;
    odd_size = holds.odd_size;
    even_odd = holds.even_odd;
    even_free = holds.even_free;
    odd_free = holds.odd_free;
  }

  chunk_step-scale_even :
      r.type ≡ StepType.scale_even
      → Transition StepType.scale_even r e o e' o'
      → Needs StepType.scale_even r after before
      → Steps (chunk_step StepType.scale_even inline index r after s) s after
  chunk_step-scale_even h t n =
      let inside : Within after.even s.active_even.storage = omega (arith, n, t.4, holds.even) in
      let kept = unchanged-Holds inside (omega (arith, n, holds.odd)) in
      elim (Bool-cases (type_code r.type == type_code inline.scale_type)) [
        | inl skip ↦ ([], s, rw skip refl, kept, tt, omega arith)
        | inr push ↦ (
          scale_entry r after.even s.active_even RouteOutputStorage.final_even_dram
                (after.even.begin - s.active_even.storage.begin)
              ∷ [],
          s,
          rw
              (
                push,
                chunk_scale-eq r after.even s.active_even RouteOutputStorage.final_even_dram
                    proper.0 inside holds.even_low,
              )
              refl,
          kept,
          (
            scale_entry-Sound after.even s.active_even RouteOutputStorage.final_even_dram proper.0
                inside holds.even_low holds.even_size (inl h),
            tt,
          ),
          omega arith,
        )
      ]

  chunk_step-scale_odd :
      r.type ≡ StepType.scale_odd
      → Transition StepType.scale_odd r e o e' o'
      → Needs StepType.scale_odd r after before
      → Steps (chunk_step StepType.scale_odd inline index r after s) s after
  chunk_step-scale_odd h t n =
      let inside : Within after.odd s.active_odd.storage = omega (arith, n, t.4, holds.odd) in
      let kept = unchanged-Holds (omega (arith, n, holds.even)) inside in
      elim (Bool-cases (type_code r.type == type_code inline.scale_type)) [
        | inl skip ↦ ([], s, rw skip refl, kept, tt, omega arith)
        | inr push ↦ (
          scale_entry r after.odd s.active_odd RouteOutputStorage.final_odd_dram
                (after.odd.begin - s.active_odd.storage.begin)
              ∷ [],
          s,
          rw
              (
                push,
                chunk_scale-eq r after.odd s.active_odd RouteOutputStorage.final_odd_dram proper.1
                    inside holds.odd_low,
              )
              refl,
          kept,
          (
            scale_entry-Sound after.odd s.active_odd RouteOutputStorage.final_odd_dram proper.1
                inside holds.odd_low holds.odd_size (inr h),
            tt,
          ),
          omega arith,
        )
      ]

  chunk_step-swap :
      Needs StepType.swap r after before
      → Steps (chunk_step StepType.swap inline index r after s) s after
  chunk_step-swap n = (
    [],
    record s { active_even = s.active_odd; active_odd = s.active_even },
    refl,
    record {
      even = omega (arith, n, holds.odd);
      odd = omega (arith, n, holds.even);
      even_low = holds.odd_low;
      odd_low = holds.even_low;
      even_size = holds.odd_size;
      odd_size = holds.even_size;
      even_odd = λ p. holds.even_odd (sym p);
      even_free = holds.odd_free;
      odd_free = holds.even_free;
    },
    tt,
    omega arith,
  )

  pub chunk_step-Steps :
      (t : StepType)
      → r.type ≡ t
      → Transition t r e o e' o'
      → Needs t r after before
      → Steps (chunk_step t inline index r after s) s after
  chunk_step-Steps StepType.predict h t n = chunk_step-predict h t n
  chunk_step-Steps StepType.update h t n = chunk_step-update h t n
  chunk_step-Steps StepType.scale_even h t n = chunk_step-scale_even h t n
  chunk_step-Steps StepType.scale_odd h t n = chunk_step-scale_odd h t n
  chunk_step-Steps StepType.swap h t n = chunk_step-swap n

push_front-All :
    (m : ℕ) (pushed rest : List LwtStepRoute)
    → All (Sound m) pushed
    → All (Sound m) rest
    → All (Sound m) (push_front pushed rest)
unfolding push_front
push_front-All m [] rest p q = q
push_front-All m (r ∷ pushed) rest p q = (p.0, push_front-All m pushed rest p.1 q)

pub All-Sound-mono :
    (m n : ℕ) (qs : List LwtStepRoute) → m ≤ n → All (Sound m) qs → All (Sound n) qs
All-Sound-mono m n [] h p = tt
All-Sound-mono m n (q ∷ qs) h p = (Sound-mono m n q h p.0, All-Sound-mono m n qs h p.1)

-- The loop over the routes meets no fatal check, from a state that holds what the routes require.
-- Every route that it pushes is sound for the workspace size at the end.
pub chunk_routes-Sound :
    (inline : TerminalScaleInline) (index : ℕ) (rs : List LiftingStepRoute) (e o e' o' : ℕ)
    (first : RequiredStreams) (later : List RequiredStreams) (s : ChunkState)
    → Chain e o rs e' o'
    → Covered rs first later
    → Holds s first
    → (qs : List LwtStepRoute) × (end : ChunkState) × (chunk_routes inline index rs later s
        ≡ ok (qs, end))
      × All (Sound end.max_workspace_elements) qs
      × (s.max_workspace_elements ≤ end.max_workspace_elements)
unfolding chunk_routes
chunk_routes-Sound inline index [] e o e' o' first [] s done nothing h =
    ([], s, refl, tt, omega arith)
chunk_routes-Sound inline index [] e o e' o' first (after ∷ later) s _ c h = elim c [ ]
chunk_routes-Sound inline index (r ∷ rs) e o e' o' first [] s _ c h = elim c [ ]
chunk_routes-Sound inline index (r ∷ rs) e o e' o' first (after ∷ later) s
      (route {e' = e₁} {o' = o₁} t chain) (covers n pr cov) h =
    let (pushed, s', here, holds, sound, grows) =
      chunk_step-Steps inline index r e o e₁ o₁ first after s pr h r.type refl t n in
    let (rest, end, more, sound', grows') =
      chunk_routes-Sound inline (index + 1) rs e₁ o₁ e' o' after later s' chain cov holds in
    (
      push_front pushed rest,
      end,
      rw (here, more),
      push_front-All _ pushed rest (All-Sound-mono _ _ pushed grows' sound) sound',
      omega (arith, grows, grows'),
    )
