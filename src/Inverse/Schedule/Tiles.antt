-- ===== src/Inverse/Schedule/Tiles.antt =====
-- The chunks of the inverse build_chunks share out the signal.
use native.Mathlib.Nat.{div-add-mod, mod-lt}
use tt_wavelet.Common.{
  ℕ, zero, suc, ◌+◌, ◌-◌, ◌*◌, ◌/◌, ◌%◌, ◌^◌, ◌≤◌, ◌<◌, ◌≡◌, refl, sym, ap, ◌∙◌, subst, min, List,
  [], ◌∷◌, arith, length, ok, require, ◌>>=◌, ◌>>◌, >>=-eq-ok, >>-eq-ok, >>-both-ok, ok-injective,
  ltb, ◌==◌,
}
use tt_wavelet.Common.Words.{u64}
use tt_wavelet.Signal.Rounding.{ceil_div_least}
use tt_wavelet.Plan.{LiftingForwardPlan}
use tt_wavelet.Execution.{IndexInterval, interval, RequiredStreams}
use tt_wavelet.Execution.Backward.{last_of}
use tt_wavelet.Execution.Schedule.Cover.{share_pos}
use tt_wavelet.Execution.Chunk.{LwtStepRoute}
use tt_wavelet.Execution.Chunk.Build.{ChunkState, local_offset, chunk_start}
use tt_wavelet.Inverse.{LiftingInversePlan, propagate_requirements}
use tt_wavelet.Inverse.Chunk.{inverse_routes}
use tt_wavelet.Inverse.Chunk.Build.{
  IlwtChunkPlan, target_of, canonical_interval, canonical_start_of, validate_inverse_scale_inline,
  finish_ilwt_chunk, build_ilwt_chunk,
}
use tt_wavelet.Inverse.Schedule.{
  output_group_elements, output_group_count, output_of, share_of, ilwt_chunk_loop,
  build_ilwt_chunks,
}

-- The chunks cover the samples from `b` to `e` in order, without gap or overlap, each with at least
-- one.
pub data SignalTiles : ℕ → List IlwtChunkPlan → ℕ → Type 0 where
  whole : {b : ℕ} → SignalTiles b [] b
  tile :
      {b m e : ℕ} {c : IlwtChunkPlan} {cs : List IlwtChunkPlan}
      → c.output_signal ≡ interval b m
      → b < m
      → SignalTiles m cs e
      → SignalTiles b (c ∷ cs) e

finish_ilwt_chunk-output :
    (output : IndexInterval) (target : RequiredStreams) (approximation detail : IndexInterval)
    (qs : List LwtStepRoute) (end : ChunkState) (c : IlwtChunkPlan)
    → finish_ilwt_chunk output target approximation detail qs end ≡ ok c
    → c.output_signal ≡ output
unfolding finish_ilwt_chunk
finish_ilwt_chunk-output output target approximation detail qs end c h =
    let (_, h₁) = >>-both-ok _ _ h in
    let (even_offset, _, h₂) = >>=-eq-ok (local_offset end.active_even.storage target.even) _ h₁ in
    let (odd_offset, _, h₃) = >>=-eq-ok (local_offset end.active_odd.storage target.odd) _ h₂ in
    sym (ap (λ (c : IlwtChunkPlan). c.output_signal) (ok-injective h₃))

build_ilwt_chunk-output :
    (inverse : LiftingInversePlan) (output : IndexInterval) (c : IlwtChunkPlan)
    → build_ilwt_chunk inverse output ≡ ok c
    → c.output_signal ≡ output
unfolding build_ilwt_chunk
build_ilwt_chunk-output inverse output c h =
    let plan : LiftingForwardPlan = inverse.forward_trace in
    let target = target_of plan.preprocess_layout.pad_config.left output in
    let (_, h₁) = >>-both-ok _ _ h in
    let (later, _, h₂) = >>=-eq-ok (propagate_requirements plan target.even target.odd) _ h₁ in
    let last = last_of target later in
    let (approximation, _, h₃) =
      >>=-eq-ok
        (canonical_interval last.even plan.final_even_shift (canonical_start_of plan)
          inverse.coefficient_length)
        _ h₂ in
    let (detail, _, h₄) =
      >>=-eq-ok
        (canonical_interval last.odd plan.final_odd_shift (canonical_start_of plan)
          inverse.coefficient_length)
        _ h₃ in
    let (_, h₅) = >>-both-ok _ _ h₄ in
    let (_, h₆) = >>-both-ok (validate_inverse_scale_inline plan) _ h₅ in
    let (q, _, h₇) = >>=-eq-ok (inverse_routes plan.routes target later (chunk_start last)) _ h₆ in
    finish_ilwt_chunk-output output target approximation detail q.0 q.1 c h₇

-- The groups that the rounds from an index on take.
abbrev groups_left : ℕ → ℕ → ℕ → ℕ → ℕ
groups_left base extra rounds index = rounds * base + min rounds (extra - index)

groups_left-suc :
    (base extra rounds index : ℕ)
    → groups_left base extra (suc rounds) index
      ≡ share_of base extra index + groups_left base extra rounds (index + 1)
groups_left-suc base extra rounds index = ground arith

output_of-eq :
    (len b n : ℕ)
    → len < 2 ^ 33
    → b + n ≤ 2 ^ 33
    → b * output_group_elements ≤ len
    → output_of len b n
      ≡ interval (min (b * output_group_elements) len) (min ((b + n) * output_group_elements) len)
output_of-eq len b n hl hp hb = ground arith

module _ (plan : LiftingInversePlan) (base extra total : ℕ) (short : plan.original_length < 2 ^ 33)
    (few : total ≤ 2 ^ 33)
    (tight : (n : ℕ) → n < total → n * output_group_elements < plan.original_length)
    (some_base : 0 < base) where
  abbrev position : ℕ → ℕ
  position n = min (n * output_group_elements) plan.original_length

  ilwt_chunk_loop-Tiles :
      (rounds index group_begin end : ℕ) (cs : List IlwtChunkPlan)
      → group_begin + groups_left base extra rounds index ≤ total
      → ilwt_chunk_loop plan base extra rounds index group_begin ≡ ok (cs, end)
      → SignalTiles (position group_begin) cs (position end)
        × (end ≡ group_begin + groups_left base extra rounds index)
        × (length cs ≡ rounds)
  unfolding ilwt_chunk_loop
  ilwt_chunk_loop-Tiles zero index group_begin end cs b h =
      subst
        (λ (p : List IlwtChunkPlan × ℕ).
          SignalTiles (position group_begin) p.0 (position p.1)
          × (p.1 ≡ group_begin + groups_left base extra 0 index)
          × (length p.0 ≡ 0))
        (ok-injective h) (whole, omega arith, refl)
  ilwt_chunk_loop-Tiles (suc rounds) index group_begin end cs b h =
      let n = share_of base extra index in
      let next : groups_left base extra (suc rounds) index
          ≡ n + groups_left base extra rounds (index + 1) =
        groups_left-suc base extra rounds index in
      let positive : 0 < n = ground arith in
      let sum : u64 (group_begin + n) ≡ group_begin + n = omega (arith, next, b, few) in
      let (c, built, h₁) =
        >>=-eq-ok (build_ilwt_chunk plan (output_of plan.original_length group_begin n))
          (λ c.
            ilwt_chunk_loop plan base extra rounds (index + 1) (u64 (group_begin + n))
            >>= (λ p. ok (c ∷ p.0, p.1)))
          h in
      let (p, looped, h₂) =
        >>=-eq-ok (ilwt_chunk_loop plan base extra rounds (index + 1) (u64 (group_begin + n)))
          (λ p. ok (c ∷ p.0, p.1)) h₁ in
      let (tiles, last, count) =
        ilwt_chunk_loop-Tiles rounds (index + 1) (group_begin + n) p.1 p.0 (omega (arith, next, b))
          (rw sum at looped) in
      let before = tight group_begin (omega (arith, next, b, positive)) in
      let signal =
        build_ilwt_chunk-output plan (output_of plan.original_length group_begin n) c built
        ∙ output_of-eq plan.original_length group_begin n short (omega (arith, next, b, few))
            (omega (arith, before)) in
      subst
        (λ (r : List IlwtChunkPlan × ℕ).
          SignalTiles (position group_begin) r.0 (position r.1)
          × (r.1 ≡ group_begin + groups_left base extra (suc rounds) index)
          × (length r.0 ≡ suc rounds))
        (ok-injective h₂)
        (
          tile {m = position (group_begin + n)} signal (omega (arith, before, positive)) tiles,
          omega (arith, next, last),
          ap suc count,
        )

-- The groups of a signal that has a sample.
output_group_count-covers :
    (len : ℕ)
    → 0 < len
    → len < 2 ^ 33
    → (len ≤ output_group_count len * output_group_elements)
      × (output_group_count len ≤ 2 ^ 33)
      × ((n : ℕ) → n < output_group_count len → n * output_group_elements < len)
output_group_count-covers len h b =
    let least = ceil_div_least len output_group_elements (omega arith) (omega arith) in
    (omega (arith, least), omega (arith, least), λ n l. omega (arith, least))

-- A signal of from 1 to 2 ^ 33 - 1 samples: the chunks that the inverse build_chunks returns cover it
-- from its first sample to its last, in order and without gap or overlap; there are as many as asked
-- for, but no more than groups.
pub build_ilwt_chunks-Tiles :
    (plan : LiftingInversePlan) (requested : ℕ) (cs : List IlwtChunkPlan)
    → 0 < plan.original_length
    → plan.original_length < 2 ^ 33
    → build_ilwt_chunks plan requested ≡ ok cs
    → SignalTiles 0 cs plan.original_length
      × (length cs ≡ min requested (output_group_count plan.original_length))
unfolding build_ilwt_chunks
build_ilwt_chunks-Tiles plan requested cs some_sample short h =
    let total = output_group_count plan.original_length in
    let count = min requested total in
    let base = total / count in
    let extra = total % count in
    let (asked, h₁) = >>-eq-ok (ltb 0 requested) _ h in
    let (p, looped, h₂) =
      >>=-eq-ok (ilwt_chunk_loop plan base extra count 0 0) (λ p. require (p.1 == total) >> ok p.0)
        h₁ in
    let (ends, h₃) = >>-eq-ok (p.1 == total) (ok p.0) h₂ in
    let (covers, few, tight) = output_group_count-covers plan.original_length some_sample short in
    let count_pos : 0 < count = ground arith in
    let all : groups_left base extra count 0 ≡ total =
      omega (arith, div-add-mod total count, mod-lt total count_pos) in
    let (tiles, last, number) =
      ilwt_chunk_loop-Tiles plan base extra total short few tight
        (share_pos total count count_pos (omega arith)) count 0 0 p.1 p.0 (omega (arith, all))
        looped in
    let start : min (0 * output_group_elements) plan.original_length ≡ 0 = omega arith in
    let reached : min (p.1 * output_group_elements) plan.original_length ≡ plan.original_length =
      omega (arith, last, all, covers) in
    subst
      (λ (chunks : List IlwtChunkPlan).
        SignalTiles 0 chunks plan.original_length × (length chunks ≡ count))
      (ok-injective h₃)
      (
        subst (λ (end : ℕ). SignalTiles 0 p.0 end) reached
            (subst
              (λ (start : ℕ).
                SignalTiles start p.0 (min (p.1 * output_group_elements) plan.original_length))
              start tiles),
        number,
      )
