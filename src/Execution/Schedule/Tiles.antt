-- ===== src/Execution/Schedule/Tiles.antt =====
-- The chunks of build_chunks share out the output.
use tt_wavelet.Common.{
  ℕ, zero, suc, ◌+◌, ◌-◌, ◌*◌, ◌^◌, ◌≤◌, ◌<◌, ◌≡◌, refl, sym, ap, ◌∙◌, subst, min, List, [], ◌∷◌,
  arith, length, ok, ◌>>=◌, >>=-eq-ok, ok-injective,
}
use tt_wavelet.Common.Words.{u64}
use tt_wavelet.Plan.{LiftingForwardPlan}
use tt_wavelet.Execution.{IndexInterval, interval, RequiredStreams, backpropagate_requirements}
use tt_wavelet.Execution.Chunk.{LwtChunkPlan, LwtStepRoute, terminal_scale_inline}
use tt_wavelet.Execution.Chunk.Build.{
  ChunkState, build_chunk, finish_chunk, rebase_routes, extents, chunk_routes, chunk_start,
}
use tt_wavelet.Execution.Schedule.{
  ChunkGrid, groups_of, group_interval, lwt_group_output_elements, chunk_loop,
}

-- The chunks cover the outputs from `b` to `e` in order, without gap or overlap, each with the same
-- outputs of both final streams, and at least one.
pub data Tiles (even_origin odd_origin : ℕ) : ℕ → List LwtChunkPlan → ℕ → Type 0 where
  whole : {b : ℕ} → Tiles even_origin odd_origin b [] b
  tile :
      {b m e : ℕ} {c : LwtChunkPlan} {cs : List LwtChunkPlan}
      → c.final_even ≡ interval (b + even_origin) (m + even_origin)
      → c.final_odd ≡ interval (b + odd_origin) (m + odd_origin)
      → b < m
      → Tiles even_origin odd_origin m cs e
      → Tiles even_origin odd_origin b (c ∷ cs) e

-- The groups that the rounds from an index on take.
abbrev pub groups_left : ChunkGrid → ℕ → ℕ → ℕ
groups_left g rounds index = rounds * g.base_groups + min rounds (g.extra_groups - index)

finish_chunk-finals :
    (i j : IndexInterval) (eo oo : ℕ) (first : RequiredStreams) (qs : List LwtStepRoute)
    (end : ChunkState) (c : LwtChunkPlan)
    → finish_chunk i j eo oo first qs end ≡ ok c
    → (c.final_even ≡ i) × (c.final_odd ≡ j)
unfolding finish_chunk
finish_chunk-finals i j eo oo first qs end c h =
    let (routes, _, h₁) = >>=-eq-ok (rebase_routes eo oo qs) _ h in
    let (d, _, h₂) = >>=-eq-ok (extents i j first.even first.odd) _ h₁ in
    subst (λ (c : LwtChunkPlan). (c.final_even ≡ i) × (c.final_odd ≡ j)) (ok-injective h₂)
      (refl, refl)

build_chunk-finals :
    (plan : LiftingForwardPlan) (i j : IndexInterval) (eo oo : ℕ) (c : LwtChunkPlan)
    → build_chunk plan i j eo oo ≡ ok c
    → (c.final_even ≡ i) × (c.final_odd ≡ j)
unfolding build_chunk
build_chunk-finals plan i j eo oo c h =
    let finish = λ (f : RequiredStreams) (q : List LwtStepRoute × ChunkState).
      finish_chunk i j eo oo f q.0 q.1 in
    let (f, _, h₀) =
      >>=-eq-ok (backpropagate_requirements plan i j 0)
        (λ p.
          terminal_scale_inline plan
          >>= (λ inline. chunk_routes inline 0 plan.routes p.1 (chunk_start p.0) >>= finish p.0))
        h in
    let (inline, _, h₁) =
      >>=-eq-ok (terminal_scale_inline plan)
        (λ inline. chunk_routes inline 0 plan.routes f.1 (chunk_start f.0) >>= finish f.0) h₀ in
    let (q, _, h₂) =
      >>=-eq-ok (chunk_routes inline 0 plan.routes f.1 (chunk_start f.0)) (finish f.0) h₁ in
    finish_chunk-finals i j eo oo f.0 q.0 q.1 c h₂

groups_left-suc :
    (g : ChunkGrid) (rounds index : ℕ)
    → groups_left g (suc rounds) index ≡ groups_of g index + groups_left g rounds (index + 1)
groups_left-suc g rounds index = ground arith

group_interval-eq :
    (len origin b n : ℕ)
    → len < 2 ^ 33
    → origin < 2 ^ 63
    → b + n ≤ 2 ^ 33
    → b * lwt_group_output_elements ≤ len
    → group_interval len origin b n
      ≡ interval
          (min (b * lwt_group_output_elements) len + origin)
          (min ((b + n) * lwt_group_output_elements) len + origin)
group_interval-eq len origin b n hl ho hb hp = ground arith

module _ (plan : LiftingForwardPlan) (g : ChunkGrid) (total : ℕ)
    (covers : plan.output_length ≤ total * lwt_group_output_elements)
    (short : plan.output_length < 2 ^ 33) (few : total ≤ 2 ^ 33) (even_low : g.even_origin < 2 ^ 63)
    (odd_low : g.odd_origin < 2 ^ 63)
    (tight : (n : ℕ) → n < total → n * lwt_group_output_elements < plan.output_length)
    (some_base : 0 < g.base_groups) where
  abbrev position : ℕ → ℕ
  position n = min (n * lwt_group_output_elements) plan.output_length

  pub chunk_loop-Tiles :
      (rounds index group_begin end : ℕ) (cs : List LwtChunkPlan)
      → group_begin + groups_left g rounds index ≤ total
      → chunk_loop plan g rounds index group_begin ≡ ok (cs, end)
      → Tiles g.even_origin g.odd_origin (position group_begin) cs (position end)
        × (end ≡ group_begin + groups_left g rounds index)
        × (length cs ≡ rounds)
  unfolding chunk_loop
  chunk_loop-Tiles zero index group_begin end cs b h =
      let e = ok-injective h in
      (
        subst
            (λ (p : List LwtChunkPlan × ℕ).
              Tiles g.even_origin g.odd_origin (position group_begin) p.0 (position p.1))
            e whole,
        omega (arith, sym (ap (λ (p : List LwtChunkPlan × ℕ). p.1) e)),
        sym (ap (λ (p : List LwtChunkPlan × ℕ). length p.0) e),
      )
  chunk_loop-Tiles (suc rounds) index group_begin end cs b h =
      let n = groups_of g index in
      let next : groups_left g (suc rounds) index ≡ n + groups_left g rounds (index + 1) =
        groups_left-suc g rounds index in
      let positive : 0 < n = ground arith in
      let sum : u64 (group_begin + n) ≡ group_begin + n = omega arith in
      let (c, built, h₁) =
        >>=-eq-ok
          (build_chunk plan (group_interval plan.output_length g.even_origin group_begin n)
            (group_interval plan.output_length g.odd_origin group_begin n) g.even_origin
            g.odd_origin)
          (λ c.
            chunk_loop plan g rounds (index + 1) (u64 (group_begin + n))
            >>= (λ p. ok (c ∷ p.0, p.1)))
          h in
      let (p, looped, h₂) =
        >>=-eq-ok (chunk_loop plan g rounds (index + 1) (u64 (group_begin + n)))
          (λ p. ok (c ∷ p.0, p.1)) h₁ in
      let (finals_even, finals_odd) =
        build_chunk-finals plan _ _ g.even_origin g.odd_origin c built in
      let (tiles, last, count) =
        chunk_loop-Tiles rounds (index + 1) (group_begin + n) p.1 p.0 (omega (arith, next, b))
          (rw sum at looped) in
      let room : group_begin + n ≤ 2 ^ 33 = omega (arith, next, b, few) in
      let before = tight group_begin (omega (arith, next, b, positive)) in
      let grid = λ (origin : ℕ) (low : origin < 2 ^ 63).
        group_interval-eq plan.output_length origin group_begin n short low room
          (omega (arith, before)) in
      let tiled =
        tile (finals_even ∙ grid g.even_origin even_low) (finals_odd ∙ grid g.odd_origin odd_low)
          (omega (arith, before, positive)) tiles in
      let e = ok-injective h₂ in
      (
        subst
            (λ (p : List LwtChunkPlan × ℕ).
              Tiles g.even_origin g.odd_origin (position group_begin) p.0 (position p.1))
            e tiled,
        omega (arith, next, last, ap (λ (p : List LwtChunkPlan × ℕ). p.1) e),
        sym (ap (λ (p : List LwtChunkPlan × ℕ). length p.0) e) ∙ ap suc count,
      )
