-- ===== src/Execution/Chunk/Build/Local.antt =====
-- The chunks that build_chunk makes of a planned transform.
use tt_wavelet.Common.{
  ℕ, ◌-◌, ◌^◌, ◌<◌, ◌≡◌, refl, List, [], ◌∷◌, All, arith, ok, ◌>>=◌, leb, >>=-eq-ok, >>-eq-ok,
  ok-injective, subst, sym, ap, ◌∙◌,
}
use tt_wavelet.Plan.{StepType, RouteOutputStorage, LiftingForwardPlan}
use tt_wavelet.Plan.Chain.{Chain}
use tt_wavelet.Execution.{IndexInterval, RequiredStreams, backpropagate_requirements}
use tt_wavelet.Execution.Intervals.{Inside}
use tt_wavelet.Execution.Backward.{InsideStreams, backpropagate-Covered}
use tt_wavelet.Execution.Chunk.{
  TerminalScaleInline, LwtStepRoute, LwtChunkPlan, terminal_scale_inline,
}
use tt_wavelet.Execution.Chunk.Build.{
  ChunkState, chunk_routes, chunk_start, rebased, rebase_routes, extents, finish_chunk, build_chunk,
}
use tt_wavelet.Execution.Chunk.Build.Storage.{ReadsOf, Sound, Holds}
use tt_wavelet.Execution.Chunk.Build.Steps.{chunk_routes-Sound}

pub chunk_start-Holds :
    (first : RequiredStreams) (e o : ℕ)
    → InsideStreams first e o
    → e < 2 ^ 63
    → o < 2 ^ 63
    → Holds (chunk_start first) first
unfolding chunk_start
chunk_start-Holds first e o i he ho = record {
  even = omega arith;
  odd = omega arith;
  even_low = omega (arith, i);
  odd_low = omega (arith, i);
  even_size = omega arith;
  odd_size = omega arith;
  even_odd = λ p. cc;
  even_free = λ p. cc;
  odd_free = λ p. cc;
}

ReadsOf-rebased :
    (t : StepType) (q : LwtStepRoute) (x : ℕ)
    → ReadsOf t q
    → ReadsOf t (record q { output_offset_elements = x })
ReadsOf-rebased StepType.predict q x h = h
ReadsOf-rebased StepType.update q x h = h
ReadsOf-rebased StepType.scale_even q x h = h
ReadsOf-rebased StepType.scale_odd q x h = h
ReadsOf-rebased StepType.swap q x h = h

moved-Sound :
    (m : ℕ) (q : LwtStepRoute) (x : ℕ)
    → Sound m q
    → Sound m (record q { output_offset_elements = x })
moved-Sound m q x s = record {
  reads = ReadsOf-rebased q.type q x s.reads;
  source_fits = s.source_fits;
  base_fits = s.base_fits;
  output_fits = s.output_fits;
}

rebased-Sound :
    (m : ℕ) (storage : RouteOutputStorage) (eo oo : ℕ) (q q' : LwtStepRoute)
    → rebased storage eo oo q ≡ ok q'
    → Sound m q
    → Sound m q'
rebased-Sound m RouteOutputStorage.workspace_slot eo oo q q' h s =
    subst (Sound m) (ok-injective h) s
rebased-Sound m RouteOutputStorage.final_even_dram eo oo q q' h s =
    let (_, same) = >>-eq-ok (leb eo q.output_offset_elements) _ h in
    subst (Sound m) (ok-injective same) (moved-Sound m q (q.output_offset_elements - eo) s)
rebased-Sound m RouteOutputStorage.final_odd_dram eo oo q q' h s =
    let (_, same) = >>-eq-ok (leb oo q.output_offset_elements) _ h in
    subst (Sound m) (ok-injective same) (moved-Sound m q (q.output_offset_elements - oo) s)

rebase_routes-Sound :
    (m eo oo : ℕ) (qs qs' : List LwtStepRoute)
    → rebase_routes eo oo qs ≡ ok qs'
    → All (Sound m) qs
    → All (Sound m) qs'
unfolding rebase_routes
rebase_routes-Sound m eo oo [] qs' h s = subst (All (Sound m)) (ok-injective h) tt
rebase_routes-Sound m eo oo (q ∷ qs) qs' h s =
    let (here, e, h₁) = >>=-eq-ok (rebased q.output.storage eo oo q) _ h in
    let (rest, e', h₂) = >>=-eq-ok (rebase_routes eo oo qs) _ h₁ in
    subst (All (Sound m)) (ok-injective h₂) (
      rebased-Sound m q.output.storage eo oo q here e s.0,
      rebase_routes-Sound m eo oo qs rest e' s.1,
    )

finish_chunk-Sound :
    (final_even final_odd : IndexInterval) (eo oo : ℕ) (first : RequiredStreams)
    (qs : List LwtStepRoute) (end : ChunkState) (c : LwtChunkPlan)
    → finish_chunk final_even final_odd eo oo first qs end ≡ ok c
    → All (Sound end.max_workspace_elements) qs
    → (c.final_even ≡ final_even)
      × (c.final_odd ≡ final_odd)
      × (c.initial_even ≡ first.even)
      × (c.initial_odd ≡ first.odd)
      × All (Sound c.max_workspace_elements) c.routes
unfolding finish_chunk
finish_chunk-Sound final_even final_odd eo oo first qs end c h s =
    let (routes, e, h₁) = >>=-eq-ok (rebase_routes eo oo qs) _ h in
    let (d, _, h₂) = >>=-eq-ok (extents final_even final_odd first.even first.odd) _ h₁ in
    subst
      (λ (c : LwtChunkPlan).
        (c.final_even ≡ final_even)
        × (c.final_odd ≡ final_odd)
        × (c.initial_even ≡ first.even)
        × (c.initial_odd ≡ first.odd)
        × All (Sound c.max_workspace_elements) c.routes)
      (ok-injective h₂) (refl, refl, refl, refl, rebase_routes-Sound _ eo oo qs routes e s)

module _ (plan : LiftingForwardPlan) (final_even final_odd : IndexInterval)
    (chain : let split = plan.preprocess_layout.output in
      Chain split.even.length split.odd.length plan.routes plan.final_even_length
        plan.final_odd_length)
    (even_low : plan.preprocess_layout.output.even.length < 2 ^ 63)
    (odd_low : plan.preprocess_layout.output.odd.length < 2 ^ 63)
    (even_in : Inside final_even plan.final_even_length)
    (odd_in : Inside final_odd plan.final_odd_length) where
  -- On a plan whose routes form a chain of lengths, for intervals that have an element and lie in
  -- the final streams, and for any inline route: the backward propagation and the loop of
  -- build_chunk over the routes meet no fatal check. Every route that the loop pushes reads only
  -- what its streams store, no stencil overwrites a stream that it reads, and all streams and
  -- outputs fit in the largest workspace that the loop has counted.
  pub chunk_routes_complete :
      (inline : TerminalScaleInline)
      → (first : RequiredStreams) × (later : List RequiredStreams) × (qs : List LwtStepRoute)
        × (end : ChunkState) × (backpropagate_requirements plan final_even final_odd 0
            ≡ ok (first, later))
        × (chunk_routes inline 0 plan.routes later (chunk_start first) ≡ ok (qs, end))
        × InsideStreams first plan.preprocess_layout.output.even.length
            plan.preprocess_layout.output.odd.length
        × All (Sound end.max_workspace_elements) qs
  chunk_routes_complete inline =
      let split = plan.preprocess_layout.output in
      let (first, later, same, inside, cov, _, _) =
        backpropagate-Covered plan final_even final_odd 0 chain even_low odd_low even_in odd_in
          (omega arith) in
      let (qs, end, run, sound, _) =
        chunk_routes-Sound inline 0 plan.routes split.even.length split.odd.length
          plan.final_even_length plan.final_odd_length first later (chunk_start first) chain cov
          (chunk_start-Holds first split.even.length split.odd.length inside even_low odd_low) in
      (first, later, qs, end, same, run, inside, sound)

  -- On a plan whose routes form a chain of lengths, for intervals that have an element and lie in the
  -- final streams: a chunk that build_chunk returns keeps the intervals asked for and loads intervals
  -- of the split streams. All its routes read only what their streams store, no stencil overwrites a
  -- stream that it reads, and all fits in the chunk's workspace.
  pub build_chunk-Sound :
      (even_origin odd_origin : ℕ) (c : LwtChunkPlan)
      → build_chunk plan final_even final_odd even_origin odd_origin ≡ ok c
      → (c.final_even ≡ final_even)
        × (c.final_odd ≡ final_odd)
        × Inside c.initial_even plan.preprocess_layout.output.even.length
        × Inside c.initial_odd plan.preprocess_layout.output.odd.length
        × All (Sound c.max_workspace_elements) c.routes
  unfolding build_chunk
  build_chunk-Sound even_origin odd_origin c h =
      let finish = λ (f : RequiredStreams) (q : List LwtStepRoute × ChunkState).
        finish_chunk final_even final_odd even_origin odd_origin f q.0 q.1 in
      let (f, e₀, h₀) =
        >>=-eq-ok (backpropagate_requirements plan final_even final_odd 0)
          (λ p.
            terminal_scale_inline plan
            >>= (λ inline. chunk_routes inline 0 plan.routes p.1 (chunk_start p.0) >>= finish p.0))
          h in
      let (inline, _, h₁) =
        >>=-eq-ok (terminal_scale_inline plan)
          (λ inline. chunk_routes inline 0 plan.routes f.1 (chunk_start f.0) >>= finish f.0) h₀ in
      let (first, later, qs, end, same, run, inside, sound) = chunk_routes_complete inline in
      let found : f ≡ (first, later) = ok-injective (sym e₀ ∙ same) in
      let (q, e₂, h₂) =
        >>=-eq-ok (chunk_routes inline 0 plan.routes f.1 (chunk_start f.0)) (finish f.0) h₁ in
      let ran =
        ap
          (λ (p : RequiredStreams × List RequiredStreams).
            chunk_routes inline 0 plan.routes p.1 (chunk_start p.0))
          found in
      let pushed : q ≡ (qs, end) = ok-injective (sym e₂ ∙ ran ∙ run) in
      let finished : finish first (qs, end) ≡ ok c =
        subst (λ (q : List LwtStepRoute × ChunkState). finish first q ≡ ok c) pushed
          (subst (λ (p : RequiredStreams × List RequiredStreams). finish p.0 q ≡ ok c) found h₂) in
      let (a, b, i, j, s) =
        finish_chunk-Sound final_even final_odd even_origin odd_origin first qs end c finished
          sound in
      (a, b, rw i inside.0, rw j inside.1, s)
