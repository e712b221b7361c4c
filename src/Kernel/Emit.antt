-- ===== src/Kernel/Emit.antt =====
-- The groups of tiles that a reader kernel hands to the compute kernel for a route:
-- kernels/dataflow/lwt_reader.cpp, emit_predict_update_tiles and emit_scale_tiles with the reads of
-- whole groups. What a circular buffer receives is the list of its pushed pages.
pub mod Aligned
pub mod RowMajor
pub mod WholeOutput
pub mod SourceGroup
pub mod OutputGroup
pub mod Groups
use tt_wavelet.Common.{
  ℕ, zero, suc, ◌+◌, ◌-◌, ◌*◌, ◌%◌, ◌<◌, ◌≤◌, ◌≡◌, ◌≢◌, ◌⊎◌, Bool, true, false, ◌&&◌, ltb, leb,
  ◌==◌, if◌then◌else◌, List, [], ◌∷◌,
}
use tt_wavelet.Common.Words.{u32, u64, sub64}
use tt_wavelet.Extension.Evaluate.{Floats}
use tt_wavelet.Kernel.Packing.{
  Pointer, Pages, Words, at, for_up, narrow_tile, output_block, fill_source_row_major,
  fill_source_narrow_tiles, fill_output_row_major, fill_output_narrow_tiles,
}

-- The local transfers of tt-metal: `read_words src first count dst` puts words of the workspace,
-- from the first one on, behind a pointer; their effect is there after the barrier.
pub record LocalReads (fl : Floats) : Type 0 where
  pub read_words : Words fl → ℕ → ℕ → Pointer → Pages fl → Pages fl
  pub read_inside :
      (src : Words fl) (first count : ℕ) (dst : Pointer) (pages : Pages fl) (k : ℕ)
      → k < count
      → read_words src first count dst pages dst.buffer (dst.word + k) ≡ src (first + k)
  pub read_outside :
      (src : Words fl) (first count : ℕ) (dst : Pointer) (pages : Pages fl) (q p : ℕ)
      → (q ≢ dst.buffer) ⊎ (p < dst.word) ⊎ (dst.word + count ≤ p)
      → read_words src first count dst pages q p ≡ pages q p

-- The template arguments of the kernel, and NOC_L1_READ_ALIGNMENT_BYTES / 4.
pub record Layout : Type 0 where
  pub tile_native : Bool
  pub row_major_noc_staging : Bool
  pub hybrid_tile_mirror : Bool
  pub alignment_elements : ℕ

-- A stream as a route reads it: its words, those `tile_mirror_offset` further on, whether these
-- are a tile-native copy, its length and the offset.
pub record SourceStream (fl : Floats) : Type 0 where
  pub words : Words fl
  pub mirror : Words fl
  pub tile_mirror : Bool
  pub end : ℕ
  pub offset : ℕ

module _ (fl : Floats) (noc : LocalReads fl) where
  open noc use {read_words}

  pub read_aligned_source_group : Words fl → ℕ → Pages fl → Pages fl
  read_aligned_source_group src logical_start pages =
      let a : Pages fl = read_words src logical_start 512 (record { buffer = 0; word = 0 }) pages in
      let b : Pages fl =
        read_words src (logical_start + 512) 512 (record { buffer = 0; word = 512 }) a in
      let c : Pages fl =
        read_words src (logical_start + 1024) 512 (record { buffer = 1; word = 0 }) b in
      let d : Pages fl =
        read_words src (logical_start + 16) 496 (record { buffer = 1; word = 512 }) c in
      read_words src (logical_start + 1536) 16 (record { buffer = 1; word = 1008 }) d

  pub read_aligned_output_group : Words fl → ℕ → Pages fl → Pages fl
  read_aligned_output_group src logical_start pages =
      for_up 3 0
        (λ block.
          read_words src (logical_start + block * 512) 512
            (record { buffer = 0; word = block * 512 }))
        pages

  pub read_row_major_source_group : Words fl → ℕ → Pages fl → Pages fl
  read_row_major_source_group src logical_start pages =
      for_up 4 0
        (λ block. for_up 32 0 (λ row.
          read_words src (u32 (logical_start + (row * 3 + block) * 16)) 16
            (at (narrow_tile block) (row * 16))))
        pages

  pub read_row_major_output_group : Words fl → ℕ → Pages fl → Pages fl
  read_row_major_output_group src logical_start pages =
      for_up 3 0
        (λ block. for_up 32 0 (λ row.
          read_words src (u32 (logical_start + (row * 3 + block) * 16)) 16
            (output_block block row)))
        pages

  module _ (layout : Layout) where
    open layout use {tile_native, row_major_noc_staging, hybrid_tile_mirror, alignment_elements}

    -- The source tiles of a dense group or another, in a tile-native workspace and in a row-major
    -- one.
    abbrev pub native_source : SourceStream fl → ℕ → ℕ → Bool → ℕ → Pages fl → Pages fl
    native_source s source_left_pad group_base dense begin pages =
        if dense && (begin % 1536 == 0)
        then read_aligned_source_group s.words begin pages
        else if dense
        then fill_source_narrow_tiles fl s.words false s.end s.offset source_left_pad group_base
            pages
        else fill_source_narrow_tiles fl s.words true s.end s.offset source_left_pad group_base
            pages

    abbrev pub row_major_source : SourceStream fl → ℕ → ℕ → Bool → ℕ → Pages fl → Pages fl
    row_major_source s source_left_pad group_base dense begin pages =
        if dense
        then (if hybrid_tile_mirror && s.tile_mirror && (begin % 1536 == 0)
            then read_aligned_source_group s.mirror begin pages
            else if row_major_noc_staging && (begin % alignment_elements == 0)
            then read_row_major_source_group s.words begin pages
            else fill_source_row_major fl s.words false s.end s.offset source_left_pad group_base
                pages)
        else fill_source_row_major fl s.words true s.end s.offset source_left_pad group_base pages

    -- The source tiles of a group: the lines from `source_is_dense` on.
    pub pack_source : SourceStream fl → ℕ → ℕ → Pages fl → Pages fl
    pack_source s source_left_pad group_base pages =
        let candidate : ℕ = sub64 (u64 (s.offset + group_base)) source_left_pad in
        let dense : Bool = leb source_left_pad group_base && leb (u64 (candidate + 1552)) s.end in
        let begin : ℕ = if leb source_left_pad group_base then u32 candidate else 0 in
        if tile_native
        then native_source s source_left_pad group_base dense begin pages
        else row_major_source s source_left_pad group_base dense begin pages

    abbrev pub native_output : SourceStream fl → ℕ → ℕ → Bool → ℕ → Pages fl → Pages fl
    native_output s output_length group_base dense begin pages =
        if dense && (begin % 1536 == 0)
        then read_aligned_output_group s.words begin pages
        else if dense
        then fill_output_narrow_tiles fl s.words false s.end s.offset output_length group_base pages
        else fill_output_narrow_tiles fl s.words true s.end s.offset output_length group_base pages

    abbrev pub row_major_output : SourceStream fl → ℕ → ℕ → Bool → ℕ → Pages fl → Pages fl
    row_major_output s output_length group_base dense begin pages =
        if dense
        then (if hybrid_tile_mirror && s.tile_mirror && (begin % 1536 == 0)
            then read_aligned_output_group s.mirror begin pages
            else if row_major_noc_staging && (begin % alignment_elements == 0)
            then read_row_major_output_group s.words begin pages
            else fill_output_row_major fl s.words false s.end s.offset output_length group_base
                pages)
        else fill_output_row_major fl s.words true s.end s.offset output_length group_base pages

    -- The base tiles of a group, and in emit_scale_tiles the tiles to scale.
    pub pack_output : SourceStream fl → ℕ → ℕ → Pages fl → Pages fl
    pack_output s output_length group_base pages =
        let dense : Bool =
          leb (u64 (group_base + 1536)) output_length
          && leb (u64 (s.offset + group_base + 1536)) s.end in
        let begin : ℕ = u32 (s.offset + group_base) in
        if tile_native
        then native_output s output_length group_base dense begin pages
        else row_major_output s output_length group_base dense begin pages

    -- The groups from one on, for the number of groups left; `reserved` is what the pages of a group
    -- hold when they are reserved.
    pub predict_update_groups :
        SourceStream fl
        → SourceStream fl
        → ℕ
        → ℕ
        → (ℕ → Pages fl × Pages fl)
        → ℕ
        → ℕ
        → List (Pages fl × Pages fl)
    predict_update_groups source base source_left_pad output_length reserved zero group = []
    predict_update_groups source base source_left_pad output_length reserved (suc left) group =
        let group_base : ℕ = u32 (group * 1536) in
        (
          pack_source source source_left_pad group_base (reserved group).0,
          pack_output base output_length group_base (reserved group).1,
        )
        ∷ predict_update_groups source base source_left_pad output_length reserved left (group + 1)

    pub emit_predict_update_tiles :
        SourceStream fl
        → SourceStream fl
        → ℕ
        → ℕ
        → ℕ
        → (ℕ → Pages fl × Pages fl)
        → List (Pages fl × Pages fl)
    emit_predict_update_tiles source base source_left_pad output_length group_count reserved =
        predict_update_groups source base source_left_pad output_length reserved group_count 0

    pub scale_groups : SourceStream fl → ℕ → (ℕ → Pages fl) → ℕ → ℕ → List (Pages fl)
    scale_groups source output_length reserved zero group = []
    scale_groups source output_length reserved (suc left) group =
        pack_output source output_length (u32 (group * 1536)) (reserved group)
        ∷ scale_groups source output_length reserved left (group + 1)

    pub emit_scale_tiles : SourceStream fl → ℕ → ℕ → (ℕ → Pages fl) → List (Pages fl)
    emit_scale_tiles source output_length group_count reserved =
        scale_groups source output_length reserved group_count 0
