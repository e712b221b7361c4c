-- ===== src/Inverse/Chunk/Complete.antt =====
-- The loop of an inverse chunk meets no fatal check.
use tt_wavelet.Common.{
  ℕ, suc, ◌-◌, ◌^◌, ◌<◌, ◌≡◌, inl, inr, subst, sym, ◌∙◌, List, [], ◌∷◌, All, length, leb, leb→le,
  arith, Bool, false, ◌&&◌, ok, require, >>=-eq-ok, >>-eq-ok, ok-injective,
}
use tt_wavelet.Plan.{LiftingStepRoute, LiftingForwardPlan, is_scale_step}
use tt_wavelet.Plan.Chain.{Chain}
use tt_wavelet.Execution.{RequiredStreams}
use tt_wavelet.Execution.Intervals.{Inside}
use tt_wavelet.Execution.Backward.{last_of}
use tt_wavelet.Execution.Chunk.{LwtStepRoute, routes_from}
use tt_wavelet.Execution.Chunk.Build.{ChunkState, chunk_start}
use tt_wavelet.Execution.Chunk.Build.Storage.{Sound, Holds}
use tt_wavelet.Execution.Chunk.Build.Local.{chunk_start-Holds}
use tt_wavelet.Inverse.{propagate_requirements}
use tt_wavelet.Inverse.Propagate.{Settled, Undone, propagate_requirements-Undone}
use tt_wavelet.Inverse.Chunk.{inverse_routes}
use tt_wavelet.Inverse.Chunk.Local.{TerminalScales}
use tt_wavelet.Execution.Chunk.Run.{Arithmetic, Slots, run_routes}
use tt_wavelet.Execution.Chunk.Build.Contents.{Samples, Stores, Loaded, Loaded-Stores}
use tt_wavelet.Inverse.Chunk.Values.{restored_all}
use tt_wavelet.Inverse.Chunk.Loop.{Undone-Settled, inverse_routes-Sound}
use tt_wavelet.Inverse.Chunk.Build.{scales_found, validate_inverse_scale_inline}

scales_found-TerminalScales :
    (rs : List LiftingStepRoute) (p : Bool × Bool)
    → scales_found (routes_from (length rs - 2) rs) false false ≡ ok p
    → TerminalScales rs
unfolding scales_found routes_from
scales_found-TerminalScales [] p h = tt
scales_found-TerminalScales (a ∷ []) p h = ((λ _. (>>-eq-ok (is_scale_step a.type) _ h).0), tt)
scales_found-TerminalScales (a ∷ b ∷ []) p h =
    let (first, h₁) = >>-eq-ok (is_scale_step a.type) _ h in
    ((λ _. first), ((λ _. (>>-eq-ok (is_scale_step b.type) _ h₁).0), tt))
scales_found-TerminalScales (a ∷ b ∷ c ∷ rs) p h =
    let one_less : length (a ∷ b ∷ c ∷ rs) - 2 ≡ suc (length (b ∷ c ∷ rs) - 2) = omega arith in
    (
      λ e. absurd (omega (arith, leb→le (length (b ∷ c ∷ rs)) 1 e)),
      scales_found-TerminalScales (b ∷ c ∷ rs) p (
          subst (λ (n : ℕ). scales_found (routes_from n (a ∷ b ∷ c ∷ rs)) false false ≡ ok p)
            one_less h),
    )

validate_inverse-TerminalScales :
    (plan : LiftingForwardPlan)
    → validate_inverse_scale_inline plan ≡ ok tt
    → TerminalScales plan.routes
unfolding validate_inverse_scale_inline
validate_inverse-TerminalScales plan h =
    let (_, h₁) = >>-eq-ok (leb 3 (length plan.routes)) _ h in
    let (p, found, _) =
      >>=-eq-ok (scales_found (routes_from (length plan.routes - 2) plan.routes) false false)
        (λ p. require (p.0 && p.1)) h₁ in
    scales_found-TerminalScales plan.routes p found

module _ (plan : LiftingForwardPlan) (target : RequiredStreams) (later : List RequiredStreams)
    (chain : let split = plan.preprocess_layout.output in
      Chain split.even.length split.odd.length plan.routes plan.final_even_length
        plan.final_odd_length)
    (even_low : plan.preprocess_layout.output.even.length < 2 ^ 63)
    (odd_low : plan.preprocess_layout.output.odd.length < 2 ^ 63)
    (even_in : Inside target.even plan.preprocess_layout.output.even.length)
    (odd_in : Inside target.odd plan.preprocess_layout.output.odd.length)
    (propagated : propagate_requirements plan target.even target.odd ≡ ok later)
    (scales : validate_inverse_scale_inline plan ≡ ok tt) where
  undone : Undone plan.routes target later
  undone =
      elim (propagate_requirements-Undone plan target.even target.odd chain even_low odd_low even_in
        odd_in) [
          | inl (l, same, u) ↦
              subst (Undone plan.routes target) (ok-injective (sym same ∙ propagated)) u
          | inr (stops, _) ↦ cc (stops, propagated)
        ]

  -- On a plan whose routes form a chain of lengths and end in the two scales, for target intervals
  -- that have an element and lie in the split streams, the requirements that are propagated from them,
  -- and any arithmetic of the steps: the loop of the inverse build_chunk meets no fatal check. Every
  -- route that it pushes reads only what its streams store and overwrites no stream that a stencil
  -- reads, all fits in the largest workspace that is counted, and at the end the two active slots, which
  -- differ, hold the targets. Run on slots that are loaded with what is required of two streams, the
  -- routes leave in the active slots, from the position of each, the samples of the streams that undoing
  -- the plan's routes one by one restores.
  pub inverse_routes_complete :
      {V : Type 0} (a : Arithmetic V)
      → (qs : List LwtStepRoute) × (end : ChunkState) × (inverse_routes plan.routes target later
            (chunk_start (last_of target later))
          ≡ ok (qs, end))
        × Holds end target
        × All (Sound end.max_workspace_elements) qs
        × ((m : Slots V) (v : Samples V)
            → Loaded m (last_of target later) v
            → Stores (run_routes a qs m) end (restored_all a plan.routes v))
  inverse_routes_complete a =
      let split = plan.preprocess_layout.output in
      let settled : Settled target =
        ((even_in.0, odd_in.0), omega (arith, even_in), omega (arith, odd_in)) in
      let last = Undone-Settled plan.routes target later undone settled in
      let s = last_of target later in
      let held =
        chunk_start-Holds s s.even.end s.odd.end ((last.0.0, omega arith), (last.0.1, omega arith))
          last.1 last.2 in
      let (qs, end, run, holds, sound, _, values) =
        inverse_routes-Sound a plan.routes split.even.length split.odd.length plan.final_even_length
          plan.final_odd_length target later (chunk_start s) chain
          (validate_inverse-TerminalScales plan scales) undone settled held in
      (qs, end, run, holds, sound, λ m v h. values m v (Loaded-Stores m s v h))
