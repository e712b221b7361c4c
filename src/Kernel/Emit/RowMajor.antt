-- ===== src/Kernel/Emit/RowMajor.antt =====
-- The reads of the source tiles of a group from a row-major workspace, one transfer to a row.
use tt_wavelet.Common.{ℕ, ◌+◌, ◌-◌, ◌*◌, ◌<◌, ◌≡◌, ap, sym, ◌∙◌, arith, false}
use tt_wavelet.Common.Int.{pos, ◌+ℤ◌, ◌-ℤ◌}
use tt_wavelet.Common.Words.{u32}
use tt_wavelet.Extension.Evaluate.{Floats}
use tt_wavelet.Kernel.Workspace.{workspace_physical_index}
use tt_wavelet.Kernel.Packing.{Pages, Words}
use tt_wavelet.Kernel.Packing.Block.{value_at, value_inside, max_end}
use tt_wavelet.Kernel.Packing.Rows.{source_row}
use tt_wavelet.Kernel.Packing.Source.{
  HoldsSource, target, start_of, aims, IsDense, rows-HoldsSource,
}
use tt_wavelet.Kernel.Emit.{LocalReads, read_row_major_source_group}
use tt_wavelet.Kernel.Emit.Aligned.{read_words-Improves}

module _ (fl : Floats) (noc : LocalReads fl) (src : Words fl) (source_end : ℕ)
    (short : source_end < max_end) (offset pad group_base : ℕ)
    (reach : offset + group_base + 2048 < max_end)
    (d : IsDense fl src source_end short offset pad group_base reach) where
  abbrev start : ℕ
  start = offset + group_base - pad

  logical :
      (block row lane : ℕ)
      → block < 4
      → row < 32
      → lane < 16
      → start_of fl src source_end short offset pad group_base reach block row +ℤ pos lane
        ≡ pos (start + (row * 3 + block) * 16 + lane)
  unfolding ◌-ℤ◌ ◌+ℤ◌
  logical block row lane hb hr hl = ground arith

  pub read_row_major_source_group-holds :
      (pages : Pages fl)
      → HoldsSource fl src source_end short offset pad group_base reach false
          (read_row_major_source_group fl noc src start pages)
  unfolding read_row_major_source_group workspace_physical_index
  read_row_major_source_group-holds pages =
      rows-HoldsSource fl src source_end short offset pad group_base reach false
        (λ block row m.
          noc.read_words src (u32 (start + (row * 3 + block) * 16)) 16 (source_row block row) m)
        pages
        (λ block row m hb hr.
          let at : u32 (start + (row * 3 + block) * 16) ≡ start + (row * 3 + block) * 16 =
            omega arith in
          rw at (
            read_words-Improves fl noc
              (target fl src source_end short offset pad group_base reach false) src
              (start + (row * 3 + block) * 16) 16 (source_row block row) m
              (λ k hk. sym (
                aims fl src source_end short offset pad group_base reach false block row hb hr k hk
                ∙ ap (value_at fl false src source_end) (logical block row k hb hr hk)
                ∙ value_inside fl false src source_end (start + (row * 3 + block) * 16 + k)
                    (omega arith)))))
