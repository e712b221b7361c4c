-- ===== src/Kernel/Emit/OutputGroup.antt =====
-- The output tiles of a group, of a base or of a stream to scale, whichever of the reads made them.
use tt_wavelet.Common.{
  ℕ, ◌+◌, ◌*◌, ◌/◌, ◌%◌, ◌<◌, ◌≡◌, sym, subst, ◌∙◌, arith, Bool, true, false, ◌&&◌, leb, ◌==◌, min,
}
use tt_wavelet.Common.Int.{pos}
use tt_wavelet.Common.Words.{u32, u64}
use tt_wavelet.Extension.Evaluate.{Floats}
use tt_wavelet.Kernel.Packing.{Pages, Words}
use tt_wavelet.Kernel.Packing.Block.{max_end}
use tt_wavelet.Kernel.Packing.Output.{
  HoldsOutput, IsDense, fill_output_narrow_tiles-checked, fill_output_narrow_tiles-dense,
  fill_output_row_major-holds,
}
use tt_wavelet.Kernel.Emit.{
  LocalReads, Layout, SourceStream, native_output, row_major_output, read_aligned_output_group,
  read_row_major_output_group, pack_output,
}
use tt_wavelet.Kernel.Emit.WholeOutput.{
  read_aligned_output_group-holds, read_row_major_output_group-holds,
}
use tt_wavelet.Kernel.Emit.SourceGroup.{if-holds, IsMirror, value_mirror}

module _ (fl : Floats) (noc : LocalReads fl) (layout : Layout) (s : SourceStream fl)
    (short : s.end < max_end) (mirror : IsMirror fl s) (group_base : ℕ)
    (reach : s.offset + group_base + 2048 < max_end) where
  open layout use {tile_native, row_major_noc_staging, hybrid_tile_mirror, alignment_elements}

  module _ (output_length : ℕ) (length_reach : s.offset + output_length < max_end) where
    abbrev HeldOutput : Bool → Pages fl → Type 0
    HeldOutput =
        HoldsOutput fl s.words s.end short s.offset output_length group_base reach length_reach

    abbrev OutputDense : Type 0
    OutputDense =
        IsDense fl s.words s.end short s.offset output_length group_base reach length_reach

    abbrev start : ℕ
    start = s.offset + group_base

    abbrev dense : Bool
    dense =
        leb (u64 (group_base + 1536)) output_length
        && leb (u64 (s.offset + group_base + 1536)) s.end

    abbrev begin : ℕ
    begin = u32 (s.offset + group_base)

    dense-IsDense : dense ≡ true → OutputDense × (begin ≡ start)
    dense-IsDense e = (ground arith, ground arith)

    -- The words of a dense group that starts at `begin`.
    module _ (d : dense ≡ true) where
      aligned-holds :
          (words : Words fl) (pages : Pages fl)
          → begin % 1536 ≡ 0
          → HoldsOutput fl words s.end short s.offset output_length group_base reach length_reach
              true
              (read_aligned_output_group fl noc words begin pages)
      aligned-holds words pages whole =
          let at = (dense-IsDense d).1 in
          subst
            (λ (b : ℕ).
              HoldsOutput fl words s.end short s.offset output_length group_base reach length_reach
                true (read_aligned_output_group fl noc words b pages))
            (sym at)
            (read_aligned_output_group-holds fl noc words s.end short s.offset output_length
              group_base reach length_reach (dense-IsDense d).0 pages
              (subst (λ (b : ℕ). b % 1536 ≡ 0) at whole))

      mirrored-holds :
          (pages : Pages fl)
          → s.tile_mirror ≡ true
          → begin % 1536 ≡ 0
          → HeldOutput false (read_aligned_output_group fl noc s.mirror begin pages)
      mirrored-holds pages copied whole p hp =
          aligned-holds s.mirror pages whole p hp
          ∙ value_mirror fl s mirror copied (min (s.offset + output_length) s.end)
              (pos (s.offset + (group_base + (p % 512 / 16 * 3 + p / 512) * 16) + p % 16))
              (omega arith)

      staged-holds :
          (pages : Pages fl)
          → HeldOutput false (read_row_major_output_group fl noc s.words begin pages)
      staged-holds pages =
          subst (λ (b : ℕ). HeldOutput false (read_row_major_output_group fl noc s.words b pages))
            (sym (dense-IsDense d).1)
            (read_row_major_output_group-holds fl noc s.words s.end short s.offset output_length
              group_base reach length_reach (dense-IsDense d).0 pages)

    native_output-holds :
        (pages : Pages fl)
        → HeldOutput true (native_output fl noc layout s output_length group_base dense begin pages)
    native_output-holds pages =
        if-holds (HeldOutput true) (dense && (begin % 1536 == 0))
          (λ e. aligned-holds (ground arith) s.words pages (ground arith))
          (λ e.
            if-holds (HeldOutput true) dense
              (λ d.
                fill_output_narrow_tiles-dense fl s.words s.end short s.offset output_length
                  group_base reach length_reach pages (dense-IsDense d).0)
              (λ n.
                fill_output_narrow_tiles-checked fl s.words s.end short s.offset output_length
                  group_base reach length_reach pages))

    row_major_output-holds :
        (pages : Pages fl)
        → HeldOutput false
            (row_major_output fl noc layout s output_length group_base dense begin pages)
    row_major_output-holds pages =
        if-holds (HeldOutput false) dense
          (λ d.
            if-holds (HeldOutput false) (hybrid_tile_mirror && s.tile_mirror && (begin % 1536 == 0))
              (λ e. mirrored-holds d pages (ground arith) (ground arith))
              (λ e.
                if-holds (HeldOutput false)
                  (row_major_noc_staging && (begin % alignment_elements == 0))
                  (λ k. staged-holds d pages)
                  (λ k.
                    fill_output_row_major-holds fl s.words s.end short s.offset output_length
                      group_base reach length_reach false pages (λ c. (dense-IsDense d).0))))
          (λ n.
            fill_output_row_major-holds fl s.words s.end short s.offset output_length group_base
              reach length_reach true pages (λ c. cc))

    pub pack_output-holds :
        (pages : Pages fl)
        → HeldOutput tile_native (pack_output fl noc layout s output_length group_base pages)
    unfolding pack_output
    pack_output-holds pages =
        if-holds (HeldOutput tile_native) tile_native
          (λ t.
            subst
              (λ (b : Bool).
                HeldOutput b
                  (native_output fl noc layout s output_length group_base dense begin pages))
              (sym t) (native_output-holds pages))
          (λ f.
            subst
              (λ (b : Bool).
                HeldOutput b
                  (row_major_output fl noc layout s output_length group_base dense begin pages))
              (sym f) (row_major_output-holds pages))
