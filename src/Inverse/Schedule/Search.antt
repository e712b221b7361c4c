-- ===== src/Inverse/Schedule/Search.antt =====
-- The search of make_ilwt_execution_plan for a chunk count, and the plan that it returns.
use native.Mathlib.Nat.{mod-eq_of_lt}
use tt_wavelet.Common.{
  ℕ, ◌-◌, ◌*◌, ◌^◌, ◌≤◌, ◌<◌, ◌≡◌, refl, sym, subst, min, Bool, List, All, some, arith, true,
  Bool-cases, leb→le, Result, ok, fatal, require, ◌>>◌, >>=-eq-ok, >>-eq-ok, ok-injective, ltb, leb,
  ◌&&◌, inl, inr,
}
use tt_wavelet.Common.Words.{u32}
use tt_wavelet.Signal.{round_up, float_bytes}
use tt_wavelet.Signal.Rounding.{ceil_div_least}
use tt_wavelet.Execution.Doubling.{Outcome, search-Decides, double_until}
use tt_wavelet.Execution.Schedule.{
  WorkspaceLayout, workspace_alignment, search_fuel, stick_size_bytes,
}
use tt_wavelet.Inverse.{LiftingInversePlan}
use tt_wavelet.Inverse.Chunk.Build.{IlwtChunkPlan}
use tt_wavelet.Inverse.Schedule.{
  IlwtExecutionPlan, IlwtCandidate, output_group_elements, output_group_count, build_ilwt_chunks,
  build_ilwt_candidate, largest_ilwt_workspace, ilwt_candidate_of, ilwt_fits_budget, check_chunks,
  assemble_ilwt_plan, finish_ilwt_search, make_ilwt_execution_plan,
}
use tt_wavelet.Inverse.Schedule.Tiles.{SignalTiles, build_ilwt_chunks-Tiles}
use tt_wavelet.Inverse.Schedule.Checks.{Checked, check_chunks-Checked}

-- What a returned execution plan promises: its chunks cover the signal and pass the checks, its
-- workspace is the largest of its chunks' rounded up to the layout's alignment and is not empty, three
-- of it fit the budget, and no more cores are active than allowed.
abbrev pub IlwtPromises : LiftingInversePlan → ℕ → ℕ → Bool → Result IlwtExecutionPlan → Type 0
IlwtPromises plan core_limit budget direct fatal = Unit {0}
IlwtPromises plan core_limit budget direct (ok e) =
    (e.full_plan ≡ plan)
    × SignalTiles 0 e.chunks plan.original_length
    × All (Checked direct) e.chunks
    × (e.workspace_elements
        ≡ round_up (largest_ilwt_workspace e.chunks) (workspace_alignment e.workspace_layout))
    × (0 < e.workspace_elements)
    × (3 * e.workspace_elements * float_bytes ≤ budget)
    × (e.active_core_count ≤ core_limit)

candidate-chunks :
    (plan : LiftingInversePlan) (layout : WorkspaceLayout) (n : ℕ) (c : IlwtCandidate)
    → build_ilwt_candidate plan layout n ≡ ok c
    → (build_ilwt_chunks plan n ≡ ok c.chunks)
      × (c.workspace_elements
          ≡ round_up (largest_ilwt_workspace c.chunks) (workspace_alignment layout))
      × (0 < c.workspace_elements)
unfolding build_ilwt_candidate
candidate-chunks plan layout n c h =
    let aligned = λ (cs : List IlwtChunkPlan).
      round_up (largest_ilwt_workspace cs) (workspace_alignment layout) in
    let small = λ (cs : List IlwtChunkPlan). ltb 0 (aligned cs) && leb (aligned cs) (2 ^ 32 - 1) in
    let made = λ (cs : List IlwtChunkPlan). ilwt_candidate_of cs (aligned cs) in
    let (cs, built, h₁) =
      >>=-eq-ok (build_ilwt_chunks plan n) (λ cs. require (small cs) >> ok (made cs)) h in
    let (fits, h₂) = >>-eq-ok (small cs) (ok (made cs)) h₁ in
    let (some_element, word) = both (aligned cs) fits in
    let kept : u32 (aligned cs) ≡ aligned cs = mod-eq_of_lt (omega (arith, word)) in
    subst
      (λ (c : IlwtCandidate).
        (build_ilwt_chunks plan n ≡ ok c.chunks)
        × (c.workspace_elements
            ≡ round_up (largest_ilwt_workspace c.chunks) (workspace_alignment layout))
        × (0 < c.workspace_elements))
      (ok-injective h₂) (built, kept, subst (λ (w : ℕ). 0 < w) (sym kept) some_element)
  where
    both : (w : ℕ) → (ltb 0 w && leb w (2 ^ 32 - 1)) ≡ true → (0 < w) × (w ≤ 2 ^ 32 - 1)
    both w h = (ground arith, ground arith)

module _ (plan : LiftingInversePlan) (core_limit budget : ℕ) (layout : WorkspaceLayout)
    (direct : Bool) (some_sample : 0 < plan.original_length)
    (short : plan.original_length < 2 ^ 32) where
  assembled :
      (groups : ℕ) (c : IlwtCandidate) (r : Result (Unit {0}))
      → check_chunks direct c.chunks ≡ r
      → Outcome (build_ilwt_candidate plan layout) (ilwt_fits_budget budget) groups (ok c)
      → IlwtPromises plan core_limit budget direct
          (r >> ok (assemble_ilwt_plan plan layout direct core_limit groups c))
  assembled groups c fatal checked o = tt
  assembled groups c (ok tt) checked (n, built, fits) =
      let (chunks, workspace, some_element) = candidate-chunks plan layout n c built in
      let tiles = build_ilwt_chunks-Tiles plan n c.chunks some_sample (omega arith) chunks in
      (
        refl,
        tiles.0,
        check_chunks-Checked direct c.chunks checked,
        workspace,
        some_element,
        leb→le _ _ fits,
        omega arith,
      )

  finish_ilwt_search-IlwtPromises :
      (groups : ℕ) (r : Result IlwtCandidate)
      → Outcome (build_ilwt_candidate plan layout) (ilwt_fits_budget budget) groups r
      → (e : Result IlwtExecutionPlan) × (finish_ilwt_search plan layout direct core_limit groups
            (some r)
          ≡ some e)
        × IlwtPromises plan core_limit budget direct e
  unfolding finish_ilwt_search
  finish_ilwt_search-IlwtPromises groups fatal o = (fatal, refl, tt)
  finish_ilwt_search-IlwtPromises groups (ok c) o = (
    check_chunks direct c.chunks >> ok (assemble_ilwt_plan plan layout direct core_limit groups c),
    refl,
    assembled groups c (check_chunks direct c.chunks) refl o,
  )

  searched :
      (groups : ℕ)
      → groups < 2 ^ 32
      → 0 < groups
      → 0 < core_limit
      → (e : Result IlwtExecutionPlan) × (finish_ilwt_search plan layout direct core_limit groups (
            double_until
              (build_ilwt_candidate plan layout)
              (ilwt_fits_budget budget)
              groups
              search_fuel
              (min groups core_limit))
          ≡ some e)
        × IlwtPromises plan core_limit budget direct e
  searched groups few some_group some_core =
      let (r, found, o) =
        search-Decides (build_ilwt_candidate plan layout) (ilwt_fits_budget budget) groups 32
          (min groups core_limit) few (omega arith) (omega arith) in
      let (e, made, promised) = finish_ilwt_search-IlwtPromises groups r o in
      (e, rw found made, promised)

  -- For an inverse plan whose signal has from 1 to 2 ^ 32 - 1 samples, 33 rounds of the search always
  -- decide: the plan that is returned, if no check stops the program, has chunks that cover the signal
  -- in order and without gap or overlap, each of which has a route; for a direct interleave the last
  -- route of each is a predict or an update that writes the whole of the restored stream that it
  -- belongs to. Its workspace is the largest of the chunks', rounded up to the alignment of the layout,
  -- and is not empty; three workspaces fit the L1 budget, and no more cores are active than the limit.
  pub make_ilwt_execution_plan-IlwtPromises :
      (e : Result IlwtExecutionPlan) × (make_ilwt_execution_plan plan core_limit budget layout
          direct
        ≡ some e)
      × IlwtPromises plan core_limit budget direct e
  unfolding make_ilwt_execution_plan
  make_ilwt_execution_plan-IlwtPromises =
      elim (Bool-cases (ltb 0 core_limit && leb (3 * stick_size_bytes) budget)) [
        | inr stop ↦ (fatal, rw stop refl, tt)
        | inl go ↦
            let least =
              ceil_div_least plan.original_length output_group_elements (omega arith)
                (omega arith) in
            let few : output_group_count plan.original_length < 2 ^ 32 = omega (arith, least) in
            let (e, made, promised) =
              searched (u32 (output_group_count plan.original_length)) (omega arith)
                (omega (arith, few)) (ground arith) in
            (e, rw go made, promised)
      ]
