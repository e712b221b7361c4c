-- ===== src/Execution/Schedule/Cover.antt =====
-- The chunks of build_chunks cover the output.
use native.Mathlib.Nat.{div-add-mod, mod-lt}
use native.Mathlib.Decide.{dec_lt}
use tt_wavelet.Common.{
  ℕ, ◌+◌, ◌*◌, ◌/◌, ◌%◌, ◌^◌, ◌≤◌, ◌<◌, ◌≡◌, refl, subst, min, List, arith, length, ok, require,
  ◌>>◌, >>=-eq-ok, >>-eq-ok, ok-injective, ltb, leb, ◌==◌, ◌&&◌, true,
}
use tt_wavelet.Common.Int.{ℤ, pos, negsuc, leb_ℤ, ◌-ℤ◌}
use tt_wavelet.Common.Words.{u64, u32, to_u64, IsI32}
use tt_wavelet.Signal.Rounding.{ceil_div_least}
use tt_wavelet.Plan.{LiftingForwardPlan}
use tt_wavelet.Execution.Chunk.{LwtChunkPlan}
use tt_wavelet.Execution.Schedule.{
  ChunkGrid, group_count_of, lwt_group_output_elements, chunk_loop, grid_of, build_chunks,
  signed_origin,
}
use tt_wavelet.Execution.Schedule.Tiles.{Tiles, groups_left, chunk_loop-Tiles}

-- The groups of an output that has an element.
pub group_count-covers :
    (len : ℕ)
    → 0 < len
    → len < 2 ^ 33
    → (len ≤ group_count_of len * lwt_group_output_elements)
      × (group_count_of len ≤ 2 ^ 33)
      × ((n : ℕ) → n < group_count_of len → n * lwt_group_output_elements < len)
group_count-covers len h b =
    let least = ceil_div_least len lwt_group_output_elements (omega arith) (omega arith) in
    (omega (arith, least), omega (arith, least), λ n l. omega (arith, least))

pub share_pos : (total count : ℕ) → 0 < count → count ≤ total → 0 < total / count
share_pos total count h b = elim (dec_lt 0 (total / count)) [
  | yes l ↦ l
  | no l ↦ absurd (omega (arith, div-add-mod total count, mod-lt total h, zero_quotient l))
]
  where
    zero_quotient : ¬ (0 < total / count) → count * (total / count) ≡ 0
    zero_quotient l = rw (le_zero (total / count) l) (omega arith)
      where
        le_zero : (n : ℕ) → ¬ (0 < n) → n ≡ 0
        le_zero n l = omega arith

origin_low :
    (pad : ℕ) (shift : ℤ)
    → IsI32 shift
    → leb_ℤ (pos 0) (pos (u32 (pad + 1) / 2) -ℤ shift) ≡ true
    → to_u64 (pos (u32 (pad + 1) / 2) -ℤ shift) < 2 ^ 63
unfolding ◌-ℤ◌
origin_low pad (pos n) w h = ground arith
origin_low pad (negsuc n) w h = ground arith

groups_left_all :
    (g : ChunkGrid) (total count : ℕ)
    → 0 < count
    → g.base_groups ≡ total / count
    → g.extra_groups ≡ total % count
    → groups_left g count 0 ≡ total
groups_left_all g total count h e f =
    rw (e, f) (omega (arith, div-add-mod total count, mod-lt total h))

-- A plan whose output has from 1 to 2 ^ 33 - 1 samples: the chunks that build_chunks returns cover
-- the output from its first sample to its last, in order and without gap or overlap, from the origins
-- of the two final streams; there are as many as asked for, but no more than groups.
pub build_chunks-Tiles :
    (plan : LiftingForwardPlan) (requested : ℕ) (cs : List LwtChunkPlan)
    → 0 < plan.output_length
    → plan.output_length < 2 ^ 33
    → IsI32 plan.final_even_shift
    → IsI32 plan.final_odd_shift
    → build_chunks plan requested ≡ ok cs
    → Tiles
        (to_u64 (signed_origin plan plan.final_even_shift))
        (to_u64 (signed_origin plan plan.final_odd_shift))
        0
        cs
        plan.output_length
      × (length cs ≡ min requested (group_count_of plan.output_length))
unfolding build_chunks
build_chunks-Tiles plan requested cs pos_len short even_word odd_word h =
    let total = group_count_of plan.output_length in
    let count = min requested total in
    let grid : ChunkGrid = grid_of plan count in
    let (asked, h₁) = >>-eq-ok (ltb 0 requested) _ h in
    let (origins, h₂) =
      >>-eq-ok
        (leb_ℤ (pos 0) (signed_origin plan plan.final_even_shift)
          && leb_ℤ (pos 0) (signed_origin plan plan.final_odd_shift))
        _ h₁ in
    let (_, h₃) =
      >>-eq-ok
        (leb (u64 (grid.even_origin + plan.output_length)) plan.final_even_length
          && leb (u64 (grid.odd_origin + plan.output_length)) plan.final_odd_length)
        _ h₂ in
    let (p, looped, h₄) =
      >>=-eq-ok (chunk_loop plan grid count 0 0) (λ p. require (p.1 == total) >> ok p.0) h₃ in
    let (ends, h₅) = >>-eq-ok (p.1 == total) (ok p.0) h₄ in
    let (covers, few, tight) = group_count-covers plan.output_length pos_len short in
    let count_pos : 0 < count = ground arith in
    let all = groups_left_all grid total count count_pos refl refl in
    let (tiles, last, number) =
      chunk_loop-Tiles plan grid total covers short few
        (origin_low plan.preprocess_layout.pad_config.left plan.final_even_shift even_word
          (ground arith))
        (origin_low plan.preprocess_layout.pad_config.left plan.final_odd_shift odd_word
          (ground arith))
        tight (share_pos total count count_pos (omega arith)) count 0 0 p.1 p.0 (omega (arith, all))
        looped in
    let start : min (0 * lwt_group_output_elements) plan.output_length ≡ 0 = omega arith in
    let reached : min (p.1 * lwt_group_output_elements) plan.output_length ≡ plan.output_length =
      omega (arith, last, all, covers) in
    subst
      (λ (chunks : List LwtChunkPlan).
        Tiles grid.even_origin grid.odd_origin 0 chunks plan.output_length
        × (length chunks ≡ count))
      (ok-injective h₅)
      (
        subst (λ (end : ℕ). Tiles grid.even_origin grid.odd_origin 0 p.0 end) reached
            (subst
              (λ (start : ℕ).
                Tiles grid.even_origin grid.odd_origin start p.0
                  (min (p.1 * lwt_group_output_elements) plan.output_length))
              start tiles),
        number,
      )
