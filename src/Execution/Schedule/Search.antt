-- ===== src/Execution/Schedule/Search.antt =====
-- The search of make_lwt_execution_plan for a chunk count.
use native.Mathlib.Nat.{mod-eq_of_lt}
use tt_wavelet.Common.{
  ℕ, ◌-◌, ◌*◌, ◌^◌, ◌≤◌, ◌<◌, ◌≡◌, refl, subst, min, List, some, arith, Bool-cases, leb→le, Result,
  ok, fatal, require, ◌>>◌, >>=-eq-ok, >>-eq-ok, ok-injective, ltb, leb, ◌&&◌, inl, inr,
}
use tt_wavelet.Common.Words.{u32, to_u64, IsI32}
use tt_wavelet.Signal.{round_up, float_bytes}
use tt_wavelet.Signal.Rounding.{ceil_div_least}
use tt_wavelet.Plan.{LiftingForwardPlan}
use tt_wavelet.Execution.Doubling.{Outcome, search-Decides}
use tt_wavelet.Execution.Chunk.{LwtChunkPlan}
use tt_wavelet.Execution.Schedule.{
  WorkspaceLayout, LwtExecutionPlan, Candidate, group_count_of, build_chunks, build_candidate,
  largest_workspace, workspace_alignment, fits_budget, search_chunk_count, finish_search,
  assemble_execution_plan, signed_origin, candidate_of, search_fuel, stick_size_bytes,
  lwt_group_output_elements, make_lwt_execution_plan,
}
use tt_wavelet.Execution.Schedule.Tiles.{Tiles}
use tt_wavelet.Execution.Schedule.Cover.{build_chunks-Tiles}

build_candidate-zero :
    (plan : LiftingForwardPlan) (layout : WorkspaceLayout) → build_candidate plan layout 0 ≡ fatal
unfolding build_candidate build_chunks
build_candidate-zero plan layout = refl

-- What a returned execution plan promises: its chunks cover the output from its first sample to its
-- last, its workspace is the largest of its chunks' rounded up to the layout's alignment, three of it
-- fit the budget, and no more cores are active than allowed.
abbrev pub Promises : LiftingForwardPlan → ℕ → ℕ → Result LwtExecutionPlan → Type 0
Promises plan core_limit budget fatal = Unit {0}
Promises plan core_limit budget (ok e) =
    (e.full_plan ≡ plan)
    × Tiles (to_u64 (signed_origin plan plan.final_even_shift))
        (to_u64 (signed_origin plan plan.final_odd_shift)) 0 e.chunks plan.output_length
    × (e.workspace_elements
        ≡ round_up (largest_workspace e.chunks) (workspace_alignment e.workspace_layout))
    × (3 * e.workspace_elements * float_bytes ≤ budget)
    × (e.active_core_count ≤ core_limit)

candidate-chunks :
    (plan : LiftingForwardPlan) (layout : WorkspaceLayout) (n : ℕ) (c : Candidate)
    → build_candidate plan layout n ≡ ok c
    → (build_chunks plan n ≡ ok c.chunks)
      × (c.workspace_elements ≡ round_up (largest_workspace c.chunks) (workspace_alignment layout))
unfolding build_candidate
candidate-chunks plan layout n c h =
    let aligned =
      λ (cs : List LwtChunkPlan). round_up (largest_workspace cs) (workspace_alignment layout) in
    let made = λ (cs : List LwtChunkPlan). candidate_of cs (aligned cs) in
    let (cs, built, h₁) =
      >>=-eq-ok (build_chunks plan n)
        (λ cs. require (leb (aligned cs) (2 ^ 32 - 1)) >> ok (made cs)) h in
    let (small, h₂) = >>-eq-ok (leb (aligned cs) (2 ^ 32 - 1)) (ok (made cs)) h₁ in
    let kept : u32 (aligned cs) ≡ aligned cs =
      mod-eq_of_lt (omega (arith, leb→le (aligned cs) (2 ^ 32 - 1) small)) in
    subst
      (λ (c : Candidate).
        (build_chunks plan n ≡ ok c.chunks)
        × (c.workspace_elements
            ≡ round_up (largest_workspace c.chunks) (workspace_alignment layout)))
      (ok-injective h₂) (built, kept)

group_count_short : (len : ℕ) → len < 2 ^ 32 → group_count_of len < 2 ^ 32
group_count_short len h =
    omega (arith, ceil_div_least len lwt_group_output_elements (omega arith) (omega arith))

module _ (plan : LiftingForwardPlan) (core_limit budget : ℕ) (layout : WorkspaceLayout)
    (pos_len : 0 < plan.output_length) (short : plan.output_length < 2 ^ 32)
    (even_word : IsI32 plan.final_even_shift) (odd_word : IsI32 plan.final_odd_shift) where
  finish_search-Promises :
      (groups : ℕ) (r : Result Candidate)
      → Outcome (build_candidate plan layout) (fits_budget budget) groups r
      → (e : Result LwtExecutionPlan) × (finish_search plan layout core_limit groups (some r)
          ≡ some e)
        × Promises plan core_limit budget e
  finish_search-Promises groups fatal o = (fatal, refl, tt)
  finish_search-Promises groups (ok c) (n, built, fits) =
      let chunks = candidate-chunks plan layout n c built in
      let tiles =
        build_chunks-Tiles plan n c.chunks pos_len (omega arith) even_word odd_word chunks.0 in
      (
        ok (assemble_execution_plan plan layout core_limit groups c),
        refl,
        (refl, tiles.0, chunks.1, leb→le _ _ fits, omega arith),
      )

  searched :
      (groups : ℕ)
      → groups < 2 ^ 32
      → 0 < groups
      → 0 < core_limit
      → (e : Result LwtExecutionPlan) × (finish_search plan layout core_limit groups
            (search_chunk_count plan layout groups budget search_fuel (min groups core_limit))
          ≡ some e)
        × Promises plan core_limit budget e
  unfolding search_chunk_count
  searched groups few some_group some_core =
      let (r, found, o) =
        search-Decides (build_candidate plan layout) (fits_budget budget) groups 32
          (min groups core_limit) few (omega arith) (omega arith) in
      let (e, made, promised) = finish_search-Promises groups r o in (e, rw found made, promised)

  -- For a plan whose output has from 1 to 2 ^ 32 - 1 samples, 33 rounds of the search always decide:
  -- the plan that is returned, if no check stops the program, has chunks that cover the output in
  -- order and without gap or overlap, its workspace is the largest of theirs, rounded up to the
  -- alignment of the layout, three workspaces fit the L1 budget, and no more cores are active than the
  -- limit.
  pub make_lwt_execution_plan-Promises :
      (e : Result LwtExecutionPlan) × (make_lwt_execution_plan plan core_limit budget layout
        ≡ some e)
      × Promises plan core_limit budget e
  unfolding make_lwt_execution_plan
  make_lwt_execution_plan-Promises =
      elim (Bool-cases (ltb 0 core_limit && leb (3 * stick_size_bytes) budget)) [
        | inr stop ↦ (fatal, rw stop refl, tt)
        | inl go ↦
            let few = group_count_short plan.output_length short in
            let (e, made, promised) =
              searched (u32 (group_count_of plan.output_length)) (omega arith) (omega (arith, few))
                (ground arith) in
            (e, rw go made, promised)
      ]
