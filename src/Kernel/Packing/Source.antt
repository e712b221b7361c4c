-- ===== src/Kernel/Packing/Source.antt =====
-- The loops that fill the source tiles of a group: every one leaves source_tiles.
use tt_wavelet.Common.{
  ℕ, ◌+◌, ◌-◌, ◌*◌, ◌/◌, ◌%◌, ◌<◌, ◌≤◌, ◌≡◌, refl, ap, sym, subst, ◌∙◌, arith, Bool, true, false,
  not, ◌||◌, if◌then◌else◌,
}
use tt_wavelet.Common.Int.{ℤ, pos, negsuc, ◌+ℤ◌, ◌-ℤ◌}
use tt_wavelet.Common.Words.{u32, sub32, to_u32}
use tt_wavelet.Extension.Evaluate.{Floats}
use tt_wavelet.Kernel.Workspace.{
  WorkspaceIndexCursor, cursor_at, advance_block, advance-cursor_at, workspace_physical_index,
}
use tt_wavelet.Kernel.Packing.{
  Pages, Words, at, write, for_up, source_start, is_inside, read_workspace_block,
  read_workspace_block_at, fill_source_row_major, fill_source_narrow_tiles,
}
use tt_wavelet.Kernel.Packing.Agree.{IsRight, lanes-Improves}
use tt_wavelet.Kernel.Packing.Block.{value_at, max_end, Aims, Writes, read_workspace_block-Writes}
use tt_wavelet.Kernel.Packing.Checked.{Starts, read_workspace_block_at-Writes}
use tt_wavelet.Kernel.Packing.Rows.{
  source_tiles, source_row, source_row-word, source_tiles-Aims, rows-Settles, tiles-Settles,
  Settles,
}

module _ (fl : Floats) (src : Words fl) (source_end : ℕ) (short : source_end < max_end)
    (offset pad group_base : ℕ) (reach : offset + group_base + 2048 < max_end) where
  abbrev pub target : Bool → Pages fl
  target tile_native = source_tiles fl tile_native src source_end offset pad group_base

  -- Pages that hold the source tiles.
  abbrev pub HoldsSource : Bool → Pages fl → Type 0
  HoldsSource tile_native pages = (q p : ℕ) → q < 2 → p < 1024 → pages q p ≡ target tile_native q p

  abbrev pub start_of : ℕ → ℕ → ℤ
  start_of block row = source_start offset pad group_base row block

  pub aims :
      (tile_native : Bool) (block row : ℕ)
      → block < 4
      → row < 32
      → Aims fl
          (target tile_native)
          src
          source_end
          short
          tile_native
          (source_row block row)
          (start_of block row)
  aims tile_native block row hb hr =
      source_tiles-Aims fl tile_native src source_end short offset pad group_base block row hb hr

  module _ (tile_native : Bool) where
    -- Four blocks whose rows are settled are the source tiles.
    blocks-HoldsSource :
        (body : ℕ → Pages fl → Pages fl) (pages : Pages fl)
        → ((block : ℕ) (m : Pages fl)
            → block < 4
            → Settles fl (target tile_native) (source_row block) 32 m (body block m))
        → HoldsSource tile_native (for_up 4 0 body pages)
    blocks-HoldsSource body pages step q p hq hp =
        let loop =
          tiles-Settles fl (target tile_native) (λ (m : Pages fl). m) (λ i m. Unit {0}) source_row 4
            32 body pages (λ block m hb s. (tt, step block m hb)) tt in
        let right =
          loop.2 (2 * q + p / 512) (p % 512 / 16) (p % 16) (omega arith) (omega arith)
            (omega arith) in
        subst (IsRight fl (target tile_native) (for_up 4 0 body pages)) (source_row-word q p hq hp)
          right

    -- So are four blocks whose rows are written each on its own.
    pub rows-HoldsSource :
        (body : ℕ → ℕ → Pages fl → Pages fl) (pages : Pages fl)
        → ((block row : ℕ) (m : Pages fl)
            → block < 4
            → row < 32
            → Writes fl
                (target tile_native)
                src
                source_end
                short
                (source_row block row)
                m
                (body block row m))
        → HoldsSource tile_native (for_up 4 0 (λ block. for_up 32 0 (body block)) pages)
    rows-HoldsSource body pages step =
        blocks-HoldsSource (λ block. for_up 32 0 (body block)) pages
          (λ block m hb.
            (rows-Settles fl (target tile_native) (λ (n : Pages fl). n) (λ i n. Unit {0})
              (source_row block) 32 (body block) m
              (λ row n hr s. let w = step block row n hb hr in (tt, w.0, w.1)) tt).1)

  -- The logical start of a block of a row that is in reach.
  start-Starts : (block row : ℕ) → block < 4 → row < 32 → Starts (start_of block row)
  unfolding ◌-ℤ◌
  start-Starts block row hb hr = ground arith

  pub fill_source_narrow_tiles-checked :
      (pages : Pages fl)
      → HoldsSource true
          (fill_source_narrow_tiles fl src true source_end offset pad group_base pages)
  unfolding fill_source_narrow_tiles
  fill_source_narrow_tiles-checked pages =
      rows-HoldsSource true
        (λ block row out.
          read_workspace_block_at fl src true (start_of block row) source_end (source_row block row)
            out)
        pages
        (λ block row m hb hr.
          read_workspace_block_at-Writes fl src source_end short (target true) (start_of block row)
            (start-Starts block row hb hr) (source_row block row) (aims true block row hb hr) m)

  lane_value :
      (checked : Bool) (z : ℤ)
      → (checked ≡ false → is_inside z source_end ≡ true)
      → (if not checked || is_inside z source_end then src (to_u32 z) else fl.zero_f)
        ≡ value_at fl false src source_end z
  unfolding workspace_physical_index
  lane_value true (pos a) h = ground (arith, ap src)
  lane_value true (negsuc a) h = refl
  lane_value false (pos a) h = ground (arith, ap src, h refl)
  lane_value false (negsuc a) h = cc (h refl)

  -- A dense group: all its samples lie in the source.
  abbrev pub IsDense : Type 0
  IsDense = (pad ≤ offset + group_base) × (offset + group_base + 1552 ≤ source_end + pad)

  pub start_inside :
      (block row lane : ℕ)
      → IsDense
      → block < 4
      → row < 32
      → lane < 16
      → is_inside (start_of block row +ℤ pos lane) source_end ≡ true
  unfolding ◌-ℤ◌ ◌+ℤ◌
  start_inside block row lane d hb hr hl = ground arith

  pub fill_source_row_major-holds :
      (checked : Bool) (pages : Pages fl)
      → (checked ≡ false → IsDense)
      → HoldsSource false
          (fill_source_row_major fl src checked source_end offset pad group_base pages)
  unfolding fill_source_row_major
  fill_source_row_major-holds checked pages d =
      rows-HoldsSource false
        (λ block row.
          for_up 16 0
            (λ lane out. write fl out (at (source_row block row) lane) (value block row lane)))
        pages
        (λ block row m hb hr.
          lanes-Improves fl (target false) (value block row) 16 (source_row block row) m (λ lane hl.
            lane_value checked (start_of block row +ℤ pos lane)
              (λ c. start_inside block row lane (d c) hb hr hl)
            ∙ sym (aims false block row hb hr lane hl)))
    where
      value : ℕ → ℕ → ℕ → fl.Float
      value block row lane =
          let z : ℤ = start_of block row +ℤ pos lane in
          if not checked || is_inside z source_end then src (to_u32 z) else fl.zero_f

  module _ (d : IsDense) where
    -- The position at which the rows of a block start.
    abbrev dense_start : ℕ → ℕ
    dense_start block = offset + group_base + block * 16 - pad

    start_of-eq :
        (block row : ℕ)
        → block < 4
        → row < 32
        → start_of block row ≡ pos (dense_start block + row * 48)
    unfolding ◌-ℤ◌
    start_of-eq block row hb hr = ground arith

    row-Writes :
        (block row : ℕ) (m : Pages fl) (c : WorkspaceIndexCursor)
        → block < 4
        → row < 32
        → c ≡ cursor_at (dense_start block + row * 48)
        → let read = read_workspace_block fl src (source_row block row) (m, c) in
          (advance_block (advance_block read.1) ≡ cursor_at (dense_start block + (row + 1) * 48))
          × Writes fl (target true) src source_end short (source_row block row) m read.0
    row-Writes block row m c hb hr e =
        let n : ℕ = dense_start block + row * 48 in
        let aim =
          subst (Aims fl (target true) src source_end short true (source_row block row))
            (start_of-eq block row hb hr) (aims true block row hb hr) in
        let read =
          read_workspace_block-Writes fl (target true) src source_end short (source_row block row) n
            m (omega arith) aim in
        let second = (advance-cursor_at (n + 16)).1 (omega arith) in
        let third = (advance-cursor_at (n + 16 + 16)).1 (omega arith) in
        rw e (
          ap (λ k. advance_block (advance_block k)) read.0
              ∙ ap advance_block second
              ∙ third
              ∙ ap cursor_at (omega arith),
          read.1,
        )

    pub fill_source_narrow_tiles-dense :
        (pages : Pages fl)
        → HoldsSource true
            (fill_source_narrow_tiles fl src false source_end offset pad group_base pages)
    unfolding fill_source_narrow_tiles
    fill_source_narrow_tiles-dense pages =
        blocks-HoldsSource true
          (λ block out.
            (for_up 32 0 (round block)
              (out, cursor_at (sub32 (u32 (offset + group_base + block * 16)) pad))).0)
          pages
          (λ block m hb.
            (rows-Settles fl (target true) (λ (s : Pages fl × WorkspaceIndexCursor). s.0)
              (λ row s. s.1 ≡ cursor_at (dense_start block + row * 48)) (source_row block) 32
              (round block) (m, cursor_at (sub32 (u32 (offset + group_base + block * 16)) pad))
              (λ row s hr e. let w = row-Writes block row s.0 s.1 hb hr e in (w.0, w.1.0, w.1.1))
              (ap cursor_at (omega arith))).1)
      where
        round : ℕ → ℕ → Pages fl × WorkspaceIndexCursor → Pages fl × WorkspaceIndexCursor
        round block row state =
            let read : Pages fl × WorkspaceIndexCursor =
              read_workspace_block fl src (source_row block row) state in
            (read.0, advance_block (advance_block read.1))
