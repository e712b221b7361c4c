-- ===== src/Kernel/Packing/Output.antt =====
-- The loops that fill the output tiles of a group, for a base or a scaled stream: every one leaves
-- output_tiles.
use tt_wavelet.Common.{
  ℕ, ◌+◌, ◌*◌, ◌/◌, ◌%◌, ◌<◌, ◌≤◌, ◌≡◌, refl, ap, sym, subst, ◌∙◌, arith, Bool, true, false, not,
  ◌&&◌, ◌||◌, ltb, lt→ltb, min, if◌then◌else◌,
}
use tt_wavelet.Common.Int.{pos}
use tt_wavelet.Common.Words.{u32}
use tt_wavelet.Extension.Evaluate.{Floats}
use tt_wavelet.Kernel.Workspace.{WorkspaceIndexCursor, cursor_at, workspace_physical_index}
use tt_wavelet.Kernel.Packing.{
  Pages, Words, at, write, for_up, output_block, read_workspace_block, read_workspace_block_at,
  fill_output_row_major, fill_output_narrow_tiles,
}
use tt_wavelet.Kernel.Packing.Agree.{IsRight, lanes-Improves}
use tt_wavelet.Kernel.Packing.Block.{
  value_at, max_end, pos-+ℤ-pos, Aims, Writes, read_workspace_block-Writes,
}
use tt_wavelet.Kernel.Packing.Checked.{read_workspace_block_at-Writes}
use tt_wavelet.Kernel.Packing.Rows.{
  output_tiles, output_block-word, output_tiles-Aims, rows-Settles, tiles-Settles,
}

module _ (fl : Floats) (src : Words fl) (source_end : ℕ) (short : source_end < max_end)
    (offset output_length group_base : ℕ) (reach : offset + group_base + 2048 < max_end)
    (length_reach : offset + output_length < max_end) where
  abbrev pub target : Bool → Pages fl
  target tile_native = output_tiles fl tile_native src source_end offset output_length group_base

  -- Pages that hold the output tiles.
  abbrev pub HoldsOutput : Bool → Pages fl → Type 0
  HoldsOutput tile_native pages = (p : ℕ) → p < 1536 → pages 0 p ≡ target tile_native 0 p

  -- Where the samples that are used end.
  abbrev pub used_end : ℕ
  used_end = min (offset + output_length) source_end

  pub used : used_end < max_end
  used = omega arith

  -- The position of a block of a row.
  abbrev pub position : ℕ → ℕ → ℕ
  position row block = offset + (group_base + (row * 3 + block) * 16)

  pub aims :
      (tile_native : Bool) (row block : ℕ)
      → row < 32
      → block < 3
      → Aims fl
          (target tile_native)
          src
          used_end
          used
          tile_native
          (output_block block row)
          (pos (position row block))
  aims tile_native row block hr hb =
      output_tiles-Aims fl tile_native src source_end short offset output_length group_base block
        row used hb hr

  -- Rows of three blocks that are written one by one are the output tiles; `Stands` holds of the
  -- state before each block.
  pub blocks-HoldsOutput :
      (tile_native : Bool) {A : Type 0} (show : A → Pages fl) (Stands : ℕ → A → Type 0)
      (body : ℕ → ℕ → A → A) (a : A)
      → ((row block : ℕ) (b : A)
          → row < 32
          → block < 3
          → Stands (row * 3 + block) b
          → Stands (row * 3 + block + 1) (body row block b)
            × Writes fl
                (target tile_native)
                src
                used_end
                used
                (output_block block row)
                (show b)
                (show (body row block b)))
      → Stands 0 a
      → HoldsOutput tile_native (show (for_up 32 0 (λ row. for_up 3 0 (body row)) a))
  blocks-HoldsOutput tile_native show Stands body a step s p hp =
      let loop =
        tiles-Settles fl (target tile_native) show (λ row b. Stands (row * 3) b)
          (λ row block. output_block block row) 32 3 (λ row. for_up 3 0 (body row)) a
          (λ row b hr sb.
            let inner =
              rows-Settles fl (target tile_native) show (λ block c. Stands (row * 3 + block) c)
                (λ block. output_block block row) 3 (body row) b
                (λ block c hb sc.
                  let w = step row block c hr hb sc in
                  (subst (λ (n : ℕ). Stands n (body row block c)) (omega arith) w.0, w.1.0, w.1.1))
                (subst (λ (n : ℕ). Stands n b) (omega arith) sb) in
            (subst (λ (n : ℕ). Stands n (for_up 3 0 (body row) b)) (omega arith) inner.0, inner.1))
          s in
      let right =
        loop.2 (p % 512 / 16) (p / 512) (p % 16) (omega arith) (omega arith) (omega arith) in
      subst (IsRight fl (target tile_native) (show (for_up 32 0 (λ row. for_up 3 0 (body row)) a)))
        (output_block-word p hp) right

  pub fill_output_narrow_tiles-checked :
      (pages : Pages fl)
      → HoldsOutput true
          (fill_output_narrow_tiles fl src true source_end offset output_length group_base pages)
  unfolding fill_output_narrow_tiles
  fill_output_narrow_tiles-checked pages =
      blocks-HoldsOutput true (λ (m : Pages fl). m) (λ n m. Unit {0}) body pages
        (λ row block m hr hb u. (tt, step row block m hr hb)) tt
    where
      body : ℕ → ℕ → Pages fl → Pages fl
      body row block out =
          let covered : ℕ = u32 (offset + output_length) in
          read_workspace_block_at fl src true
            (pos (offset + u32 (group_base + (row * 3 + block) * 16)))
            (if ltb covered source_end then covered else source_end) (output_block block row) out

      step :
          (row block : ℕ) (m : Pages fl)
          → row < 32
          → block < 3
          → Writes fl (target true) src used_end used (output_block block row) m (body row block m)
      step row block m hr hb =
          let index : u32 (group_base + (row * 3 + block) * 16)
              ≡ group_base + (row * 3 + block) * 16 =
            omega arith in
          let covered : u32 (offset + output_length) ≡ offset + output_length = omega arith in
          let stop : (if ltb (offset + output_length) source_end
                then offset + output_length
                else source_end)
              ≡ used_end =
            ground arith in
          rw (index, covered, stop)
            (read_workspace_block_at-Writes fl src used_end used (target true)
              (pos (position row block)) (omega arith) (output_block block row)
              (aims true row block hr hb) m)

  lane_value :
      (checked : Bool) (row block lane : ℕ)
      → row < 32
      → block < 3
      → lane < 16
      → (checked ≡ false → position row block + lane < used_end)
      → (if not checked
            || (ltb (u32 (group_base + (row * 3 + block) * 16 + lane)) output_length
                && ltb (u32 (offset + u32 (group_base + (row * 3 + block) * 16 + lane))) source_end)
          then src (u32 (offset + u32 (group_base + (row * 3 + block) * 16 + lane)))
          else fl.zero_f)
        ≡ value_at fl false src used_end (pos (position row block + lane))
  unfolding workspace_physical_index
  lane_value true row block lane hr hb hl h =
      let local : u32 (group_base + (row * 3 + block) * 16 + lane)
          ≡ group_base + (row * 3 + block) * 16 + lane =
        omega arith in
      let logical : u32 (offset + (group_base + (row * 3 + block) * 16 + lane))
          ≡ position row block + lane =
        omega arith in
      rw (local, logical) (ground arith)
  lane_value false row block lane hr hb hl h =
      let local : u32 (group_base + (row * 3 + block) * 16 + lane)
          ≡ group_base + (row * 3 + block) * 16 + lane =
        omega arith in
      let logical : u32 (offset + (group_base + (row * 3 + block) * 16 + lane))
          ≡ position row block + lane =
        omega arith in
      rw (local, logical, lt→ltb (position row block + lane) used_end (h refl)) refl

  -- A dense group: all its samples lie in the source and are used.
  abbrev pub IsDense : Type 0
  IsDense = (group_base + 1536 ≤ output_length) × (offset + group_base + 1536 ≤ source_end)

  pub fill_output_row_major-holds :
      (checked : Bool) (pages : Pages fl)
      → (checked ≡ false → IsDense)
      → HoldsOutput false
          (fill_output_row_major fl src checked source_end offset output_length group_base pages)
  unfolding fill_output_row_major
  fill_output_row_major-holds checked pages d =
      blocks-HoldsOutput false (λ (m : Pages fl). m) (λ n m. Unit {0})
        (λ row block.
          for_up 16 0
            (λ lane out. write fl out (at (output_block block row) lane) (value row block lane)))
        pages
        (λ row block m hr hb u. (
          tt,
          lanes-Improves fl (target false) (value row block) 16 (output_block block row) m
              (λ lane hl.
                lane_value checked row block lane hr hb hl (λ c. let dense = d c in omega arith)
                ∙ ap (value_at fl false src used_end) (sym (pos-+ℤ-pos (position row block) lane))
                ∙ sym (aims false row block hr hb lane hl)),
        ))
        tt
    where
      value : ℕ → ℕ → ℕ → fl.Float
      value row block lane =
          let local_index : ℕ = u32 (group_base + (row * 3 + block) * 16 + lane) in
          let logical_index : ℕ = u32 (offset + local_index) in
          if not checked || (ltb local_index output_length && ltb logical_index source_end)
          then src logical_index
          else fl.zero_f

  pub fill_output_narrow_tiles-dense :
      (pages : Pages fl)
      → IsDense
      → HoldsOutput true
          (fill_output_narrow_tiles fl src false source_end offset output_length group_base pages)
  unfolding fill_output_narrow_tiles
  fill_output_narrow_tiles-dense pages d =
      blocks-HoldsOutput true (λ (s : Pages fl × WorkspaceIndexCursor). s.0)
        (λ n s. s.1 ≡ cursor_at (offset + (group_base + n * 16)))
        (λ row block s. read_workspace_block fl src (output_block block row) s)
        (pages, cursor_at (u32 (offset + group_base)))
        (λ row block s hr hb e.
          let read =
            read_workspace_block-Writes fl (target true) src used_end used (output_block block row)
              (position row block) s.0 (omega arith) (aims true row block hr hb) in
          rw e (read.0 ∙ ap cursor_at (omega arith), read.1))
        (ap cursor_at (omega arith))
