-- ===== src/Kernel/Packing/Block.antt =====
-- What a block of sixteen lanes receives: the samples at its logical positions, and zero outside.
use native.Mathlib.Decide.{dec_lt}
use tt_wavelet.Common.{
  ℕ, ◌+◌, ◌-◌, ◌%◌, ◌^◌, ◌<◌, ◌≤◌, ◌≡◌, refl, ap, sym, subst, ◌∙◌, arith, Bool, true, ltb, lt→ltb,
  if◌then◌else◌,
}
use tt_wavelet.Common.Int.{ℤ, pos, negsuc, ◌+ℤ◌}
use tt_wavelet.Common.Words.{u32, sub32}
use tt_wavelet.Extension.Evaluate.{Floats}
use tt_wavelet.Kernel.Workspace.{cursor_at, workspace_physical_index}
use tt_wavelet.Kernel.Workspace.Lanes.{
  physical-lane, advance_block-start, cursor_at-lane, cursor_at-lane_eq,
}
use tt_wavelet.Kernel.Packing.{Pointer, Pages, Words, at, copy_lanes, read_workspace_block}
use tt_wavelet.Kernel.Packing.Agree.{IsRight, Improves, lanes-Improves}

-- The sample of a workspace at a logical index, and zero where there is none: `tile_native` tells
-- how its words are laid out.
abbrev pub value_at : (fl : Floats) → Bool → Words fl → ℕ → ℤ → fl.Float
value_at fl tile_native src source_end (pos a) =
    if ltb a source_end then src (workspace_physical_index tile_native a) else fl.zero_f
value_at fl tile_native src source_end (negsuc a) = fl.zero_f

-- Positions for which no index of a workspace overflows.
abbrev pub max_end : ℕ
max_end = 2 ^ 32 - 8192

pub pos-+ℤ-pos : (a b : ℕ) → pos a +ℤ pos b ≡ pos (a + b)
unfolding ◌+ℤ◌
pos-+ℤ-pos a b = ground arith

pub value_inside :
    (fl : Floats) (tile_native : Bool) (src : Words fl) (source_end a : ℕ)
    → a < source_end
    → value_at fl tile_native src source_end (pos a) ≡ src (workspace_physical_index tile_native a)
value_inside fl tile_native src source_end a h = rw (lt→ltb a source_end h) refl

module _ (fl : Floats) (target : Pages fl) (src : Words fl) (source_end : ℕ)
    (short : source_end < max_end) where
  -- The target has at a pointer the block that starts at a logical index.
  abbrev pub Aims : Bool → Pointer → ℤ → Type 0
  Aims tile_native dst start =
      (lane : ℕ)
      → lane < 16
      → target dst.buffer (dst.word + lane)
        ≡ value_at fl tile_native src source_end (start +ℤ pos lane)

  -- A step that writes the block at a pointer, and makes no word wrong.
  abbrev pub Writes : Pointer → Pages fl → Pages fl → Type 0
  Writes dst pages after =
      Improves fl target pages after
      × ((lane : ℕ) → lane < 16 → IsRight fl target after (at dst lane))

  -- Blocks of a dense read lie in the source.
  aimed :
      (tile_native : Bool) (dst : Pointer) (n lane : ℕ)
      → n + 16 ≤ source_end
      → Aims tile_native dst (pos n)
      → lane < 16
      → src (workspace_physical_index tile_native (n + lane)) ≡ target dst.buffer (dst.word + lane)
  aimed tile_native dst n lane hn aims hl = sym (
      aims lane hl
      ∙ ap (value_at fl tile_native src source_end) (pos-+ℤ-pos n lane)
      ∙ value_inside fl tile_native src source_end (n + lane) (omega arith))

  -- The block that a cursor reads in two runs of lanes.
  module _ (dst : Pointer) (n : ℕ) (pages : Pages fl) (hn : n + 16 ≤ source_end)
      (aims : Aims true dst (pos n)) where
    abbrev initial : ℕ
    initial = n % 16

    -- The start of the following block.
    abbrev following : ℕ
    following = n - initial + 16

    abbrev first : Pages fl
    first = copy_lanes fl src (16 - initial) (cursor_at n).physical dst pages

    abbrev second : Pages fl
    second = copy_lanes fl src initial (cursor_at following).physical (at dst (16 - initial)) first

    first-Improves :
        Improves fl target pages first
        × ((i : ℕ) → i < 16 - initial → IsRight fl target first (at dst i))
    first-Improves =
        lanes-Improves fl target (λ i. src (u32 ((cursor_at n).physical + i))) (16 - initial) dst
          pages
          (λ i hi.
            ap src (physical-lane n i (omega arith) (omega arith))
            ∙ aimed true dst n i hn aims (omega arith))

    second-Improves :
        Improves fl target first second
        × ((i : ℕ) → i < initial → IsRight fl target second (at (at dst (16 - initial)) i))
    second-Improves =
        lanes-Improves fl target (λ i. src (u32 ((cursor_at following).physical + i))) initial
          (at dst (16 - initial)) first
          (λ i hi.
            let run : following + i ≡ n + (16 - initial + i) = omega arith in
            let word : dst.word + (16 - initial + i) ≡ dst.word + (16 - initial) + i =
              omega arith in
            ap src (
              physical-lane following i (omega arith) (omega arith)
              ∙ ap (workspace_physical_index true) run)
            ∙ aimed true dst n (16 - initial + i) hn aims (omega arith)
            ∙ ap (target dst.buffer) word)

    both-Writes : Writes dst pages second
    both-Writes = (
      λ p h. second-Improves.0 p (first-Improves.0 p h),
      λ lane hl. elim (dec_lt lane (16 - initial)) [
        | yes l ↦ second-Improves.0 (at dst lane) (first-Improves.1 lane l)
        | no m ↦
            let i : ℕ = lane - (16 - initial) in
            let word : dst.word + (16 - initial) + i ≡ dst.word + lane = omega arith in
            subst (λ (w : ℕ). second dst.buffer w ≡ target dst.buffer w) word
              (second-Improves.1 i (omega arith))
      ],
    )

    pub read_workspace_block-Writes :
        let after = read_workspace_block fl src dst (pages, cursor_at n) in
        (after.1 ≡ cursor_at (n + 16)) × Writes dst pages after.0
    unfolding read_workspace_block
    read_workspace_block-Writes =
        let lanes : sub32 16 initial ≡ 16 - initial = omega arith in
        let run : following + initial ≡ n + 16 = omega arith in
        rw (advance_block-start n (omega arith), cursor_at-lane_eq n, lanes)
          (
            cursor_at-lane following initial (omega arith) (omega arith) (omega arith)
                ∙ ap cursor_at run,
            both-Writes,
          )
