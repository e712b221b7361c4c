-- ===== src/Kernel/Packing/Checked.antt =====
-- The block reads of `read_workspace_block<BoundsChecked>`, lane by lane.
use tt_wavelet.Common.{
  ℕ, ◌+◌, ◌-◌, ◌^◌, ◌<◌, ◌≡◌, refl, ap, sym, subst, ◌∙◌, arith, Bool, true, false, ◌&&◌, ltb, leb,
  Bool-cases, inl, inr, min, if◌then◌else◌,
}
use tt_wavelet.Common.Int.{ℤ, pos, negsuc, ◌+ℤ◌}
use tt_wavelet.Common.Words.{u32, sub32}
use tt_wavelet.Extension.Evaluate.{Floats}
use tt_wavelet.Kernel.Workspace.{
  WorkspaceIndexCursor, cursor_at, advance, workspace_physical_index, advance-cursor_at,
}
use tt_wavelet.Kernel.Workspace.Lanes.{cursor_at-physical}
use tt_wavelet.Kernel.Packing.{
  Pointer, Pages, Words, at, write, zero_prefix, valid_start, read_workspace_block_at,
}
use tt_wavelet.Kernel.Packing.Agree.{IsRight, Improves, write-Improves, for_up-Improves}
use tt_wavelet.Kernel.Packing.Block.{value_at, max_end, Aims, Writes}

-- A logical index whose lanes are positions of 32 bits.
abbrev pub Starts : ℤ → Type 0
Starts (pos a) = a < max_end
Starts (negsuc a) = Unit {0}

module _ (fl : Floats) (src : Words fl) (source_end : ℕ) (short : source_end < max_end) where
  -- The lanes that are read before a lane.
  abbrev lanes_read : ℤ → ℕ → ℕ
  lanes_read start lane =
      valid_start start + min (lane - zero_prefix start) (source_end - valid_start start)

  abbrev is_valid : ℤ → ℕ → Bool
  is_valid start lane =
      leb (zero_prefix start) lane
      && ltb (sub32 (u32 (valid_start start + lane)) (zero_prefix start)) source_end

  lane_value :
      (start : ℤ) (lane : ℕ)
      → Starts start
      → lane < 16
      → value_at fl true src source_end (start +ℤ pos lane) ≡ (
          if is_valid start lane
          then src (workspace_physical_index true (lanes_read start lane))
          else fl.zero_f)
  unfolding ◌+ℤ◌
  lane_value (pos a) lane hs hl = ground (arith, ap src)
  lane_value (negsuc a) lane hs hl = ground (arith)

  valid_next :
      (start : ℤ) (lane : ℕ)
      → Starts start
      → lane < 16
      → is_valid start lane ≡ true
      → (lanes_read start (lane + 1) ≡ lanes_read start lane + 1)
        × (lanes_read start lane + 1 < 2 ^ 32)
  valid_next (pos a) lane hs hl v = (ground arith, ground arith)
  valid_next (negsuc a) lane hs hl v = (ground arith, ground arith)

  invalid_next :
      (start : ℤ) (lane : ℕ)
      → Starts start
      → lane < 16
      → is_valid start lane ≡ false
      → lanes_read start (lane + 1) ≡ lanes_read start lane
  invalid_next (pos a) lane hs hl v = ground arith
  invalid_next (negsuc a) lane hs hl v = ground arith

  module _ (target : Pages fl) (start : ℤ) (hs : Starts start) (dst : Pointer)
      (aims : Aims fl target src source_end short true dst start) where
    -- The round of a lane.
    abbrev round : ℕ → Pages fl × WorkspaceIndexCursor → Pages fl × WorkspaceIndexCursor
    round lane state = (
      write fl state.0 (at dst lane)
          (if is_valid start lane then src state.1.physical else fl.zero_f),
      if is_valid start lane then advance state.1 else state.1,
    )

    abbrev Stands : ℕ → Pages fl × WorkspaceIndexCursor → Type 0
    Stands lane state = state.1 ≡ cursor_at (lanes_read start lane)

    round-Improves :
        (lane : ℕ) (state : Pages fl × WorkspaceIndexCursor)
        → lane < 16
        → Stands lane state
        → Stands (lane + 1) (round lane state)
          × Improves fl target state.0 (round lane state).0
          × ((p : Pointer) → p ≡ at dst lane → IsRight fl target (round lane state).0 p)
    round-Improves lane state hl st =
        let value : (if is_valid start lane then src state.1.physical else fl.zero_f)
            ≡ target dst.buffer (dst.word + lane) =
          rw (st, cursor_at-physical (lanes_read start lane))
            (sym (aims lane hl ∙ lane_value start lane hs hl)) in
        let w = write-Improves fl target state.0 (at dst lane) _ value in
        (moves, w.0, λ p e. subst (IsRight fl target (round lane state).0) (sym e) w.1)
      where
        moves : Stands (lane + 1) (round lane state)
        moves = elim (Bool-cases (is_valid start lane)) [
          | inl v ↦
              let n = valid_next start lane hs hl v in
              rw (v, n.0, st) ((advance-cursor_at (lanes_read start lane)).0 n.1)
          | inr v ↦ rw (v, invalid_next start lane hs hl v, st) refl
        ]

    pub read_workspace_block_at-Writes :
        (pages : Pages fl)
        → Writes fl target src source_end short dst pages
            (read_workspace_block_at fl src true start source_end dst pages)
    unfolding read_workspace_block_at
    read_workspace_block_at-Writes pages =
        let first : cursor_at (valid_start start) ≡ cursor_at (lanes_read start 0) =
          ap cursor_at (omega arith) in
        let loop =
          for_up-Improves fl target (λ (s : Pages fl × WorkspaceIndexCursor). s.0) Stands
            (λ i p. p ≡ at dst i) round 16 16 0 (pages, cursor_at (valid_start start)) (omega arith)
            round-Improves first in
        (loop.1, λ lane hl. loop.2 lane (at dst lane) (omega arith) hl refl)
