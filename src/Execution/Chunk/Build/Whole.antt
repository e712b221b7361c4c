-- ===== src/Execution/Chunk/Build/Whole.antt =====
-- The forward chunk as a whole: what its routes leave in the final buffers.
use tt_wavelet.Common.{
  ℕ, ◌+◌, ◌-◌, ◌^◌, ◌≤◌, ◌<◌, ◌≡◌, refl, sym, ap, ◌∙◌, subst, arith, List, All, ok, ◌>>=◌,
  >>=-eq-ok, ok-injective,
}
use tt_wavelet.Plan.{LiftingForwardPlan}
use tt_wavelet.Plan.Chain.{Chain}
use tt_wavelet.Execution.{IndexInterval, RequiredStreams, backpropagate_requirements}
use tt_wavelet.Execution.Intervals.{Inside}
use tt_wavelet.Execution.Backward.{backpropagate-Covered}
use tt_wavelet.Execution.Chunk.{LwtStepRoute, LwtChunkPlan, terminal_scale_inline}
use tt_wavelet.Execution.Chunk.Run.{Arithmetic}
use tt_wavelet.Execution.Chunk.Build.{
  ChunkState, chunk_routes, chunk_start, rebase_routes, extents, finish_chunk, build_chunk,
}
use tt_wavelet.Execution.Chunk.Build.Storage.{Sound}
use tt_wavelet.Execution.Chunk.Build.Local.{chunk_start-Holds, build_chunk-Sound}
use tt_wavelet.Execution.Chunk.Build.Contents.{Samples, Loaded, Loaded-Stores}
use tt_wavelet.Execution.Chunk.Build.Core.{Core, run_core, Rebased, rebase_routes-Rebased}
use tt_wavelet.Execution.Chunk.Build.Deliver.{transformed_all}
use tt_wavelet.Execution.Chunk.Build.Leads.{routes_deliver}
use tt_wavelet.Execution.Chunk.Build.Inline.{terminal_scale_inline-Leads}
use tt_wavelet.Plan.Terminal.{OnlyEndsInScales}

-- The intervals of the split streams that a chunk loads.
abbrev pub loads : LwtChunkPlan → RequiredStreams
loads c = record { even = c.initial_even; odd = c.initial_odd }

finish_chunk-parts :
    (final_even final_odd : IndexInterval) (eo oo : ℕ) (first : RequiredStreams)
    (qs : List LwtStepRoute) (end : ChunkState) (c : LwtChunkPlan)
    → finish_chunk final_even final_odd eo oo first qs end ≡ ok c
    → (rebase_routes eo oo qs ≡ ok c.routes) × (loads c ≡ first)
unfolding finish_chunk
finish_chunk-parts final_even final_odd eo oo first qs end c h =
    let (routes, rebased, h₁) = >>=-eq-ok (rebase_routes eo oo qs) _ h in
    let (d, _, h₂) = >>=-eq-ok (extents final_even final_odd first.even first.odd) _ h₁ in
    subst (λ (c : LwtChunkPlan). (rebase_routes eo oo qs ≡ ok c.routes) × (loads c ≡ first))
      (ok-injective h₂) (rebased, refl)

-- The core whose buffers seen from the origins are those of another.
abbrev unbased : {V : Type 0} → ℕ → ℕ → Core V → Core V
unbased eo oo m = record {
  slots = m.slots;
  final_even = λ k. m.final_even (k - eo);
  final_odd = λ k. m.final_odd (k - oo);
}

unbased-Rebased :
    {V : Type 0} (a : Arithmetic V) (eo oo : ℕ) (m : Core V) → Rebased a eo oo (unbased eo oo m) m
unbased-Rebased a eo oo m = record {
  slots = refl;
  even = λ k. ap m.final_even (back k eo);
  odd = λ k. ap m.final_odd (back k oo);
}
  where
    back : (k n : ℕ) → k ≡ k + n - n
    back k n = omega arith

module _ (plan : LiftingForwardPlan) (final_even final_odd : IndexInterval)
    (chain : let split = plan.preprocess_layout.output in
      Chain split.even.length split.odd.length plan.routes plan.final_even_length
        plan.final_odd_length)
    (even_low : plan.preprocess_layout.output.even.length < 2 ^ 63)
    (odd_low : plan.preprocess_layout.output.odd.length < 2 ^ 63)
    (even_in : Inside final_even plan.final_even_length)
    (odd_in : Inside final_odd plan.final_odd_length) (scales : OnlyEndsInScales plan.routes) where
  -- On a plan whose routes form a chain of lengths and end in a scale of each kind and hold no other,
  -- for intervals that have an element and lie in the final streams: a chunk that build_chunk returns
  -- loads intervals of the split streams, and its routes are sound for its workspace. For any arithmetic
  -- of the steps, run on a core whose slots are loaded with these intervals of two streams, the routes
  -- leave in each final buffer, from its canonical origin on, the samples that the plan's routes, one by
  -- one, make of the streams on the interval asked for.
  pub build_chunk-Delivers :
      (even_origin odd_origin : ℕ) (c : LwtChunkPlan)
      → build_chunk plan final_even final_odd even_origin odd_origin ≡ ok c
      → {V : Type 0} (a : Arithmetic V)
      → Inside c.initial_even plan.preprocess_layout.output.even.length
        × Inside c.initial_odd plan.preprocess_layout.output.odd.length
        × All (Sound c.max_workspace_elements) c.routes
        × ((m : Core V) (v : Samples V)
            → Loaded m.slots (loads c) v
            → ((i : ℕ)
                → final_even.begin ≤ i + even_origin
                → i + even_origin < final_even.end
                → (run_core a c.routes m).final_even i
                  ≡ (transformed_all a plan.routes v).even (i + even_origin))
              × ((i : ℕ)
                  → final_odd.begin ≤ i + odd_origin
                  → i + odd_origin < final_odd.end
                  → (run_core a c.routes m).final_odd i
                    ≡ (transformed_all a plan.routes v).odd (i + odd_origin)))
  unfolding build_chunk
  build_chunk-Delivers eo oo c h a =
      let split = plan.preprocess_layout.output in
      let (_, _, even_inside, odd_inside, sound) =
        build_chunk-Sound plan final_even final_odd chain even_low odd_low even_in odd_in eo oo c
          h in
      let finish = λ (f : RequiredStreams) (q : List LwtStepRoute × ChunkState).
        finish_chunk final_even final_odd eo oo f q.0 q.1 in
      let (f, found, h₀) =
        >>=-eq-ok (backpropagate_requirements plan final_even final_odd 0)
          (λ p.
            terminal_scale_inline plan
            >>= (λ inline. chunk_routes inline 0 plan.routes p.1 (chunk_start p.0) >>= finish p.0))
          h in
      let (inline, inlined, h₁) =
        >>=-eq-ok (terminal_scale_inline plan)
          (λ inline. chunk_routes inline 0 plan.routes f.1 (chunk_start f.0) >>= finish f.0) h₀ in
      let (q, ran, h₂) =
        >>=-eq-ok (chunk_routes inline 0 plan.routes f.1 (chunk_start f.0)) (finish f.0) h₁ in
      let (rebased, loaded_first) =
        finish_chunk-parts final_even final_odd eo oo f.0 q.0 q.1 c h₂ in
      let (final, leads, scale, storage) = terminal_scale_inline-Leads plan inline scales inlined in
      let (first, later, same, inside, cov, even_last, odd_last) =
        backpropagate-Covered plan final_even final_odd 0 chain even_low odd_low even_in odd_in
          (omega arith) in
      let both : f ≡ (first, later) = ok-injective (sym found ∙ same) in
      let run_first : chunk_routes inline 0 plan.routes later (chunk_start first) ≡ ok q =
        subst
          (λ (p : RequiredStreams × List RequiredStreams).
            chunk_routes inline 0 plan.routes p.1 (chunk_start p.0) ≡ ok q)
          both ran in
      (
        even_inside,
        odd_inside,
        sound,
        λ m v loaded.
            let at_first : loads c ≡ first =
              loaded_first ∙ ap (λ (p : RequiredStreams × List RequiredStreams). p.0) both in
            let (qs, end, run, d) =
              routes_deliver a inline final scale storage inline.predict_update_route_index 0
                plan.routes split.even.length split.odd.length plan.final_even_length
                plan.final_odd_length first later (chunk_start first) (unbased eo oo m) v leads
                (omega arith) chain cov
                (chunk_start-Holds first split.even.length split.odd.length inside even_low odd_low)
                (Loaded-Stores m.slots first v
                  (subst (λ (s : RequiredStreams). Loaded m.slots s v) at_first loaded)) in
            let pushed : q.0 ≡ qs =
              ap (λ (p : List LwtStepRoute × ChunkState). p.0)
                (ok-injective (sym run_first ∙ run)) in
            let moved =
              rebase_routes-Rebased a eo oo qs c.routes (unbased eo oo m) m
                (subst (λ (l : List LwtStepRoute). rebase_routes eo oo l ≡ ok c.routes) pushed
                  rebased)
                (unbased-Rebased a eo oo m) in
            (
              λ i b l.
                  moved.even i
                  ∙ d.even (i + eo) (omega (arith, b, even_last)) (omega (arith, l, even_last)),
              λ i b l.
                  moved.odd i
                  ∙ d.odd (i + oo) (omega (arith, b, odd_last)) (omega (arith, l, odd_last)),
            ),
      )
