-- ===== src/Kernel/Packing.antt =====
-- How a reader kernel packs the samples of a route into the tiles of a group:
-- kernels/dataflow/lwt_reader.cpp from read_workspace_block to emit_scale_tiles. The workspace of a
-- stream is an array of words, and the pages of the circular buffers are arrays by buffer and word.
pub mod Agree
pub mod Block
pub mod Checked
pub mod Rows
pub mod Source
pub mod Output
use tt_wavelet.Common.{
  ℕ, zero, suc, ◌+◌, ◌-◌, ◌*◌, ◌/◌, ◌%◌, Bool, true, false, not, ◌&&◌, ◌||◌, ltb, leb, ◌==◌,
  if◌then◌else◌,
}
use tt_wavelet.Common.Int.{ℤ, pos, negsuc, ◌+ℤ◌, ◌-ℤ◌, ltb_ℤ}
use tt_wavelet.Common.Words.{u32, u64, sub32, to_u32}
use tt_wavelet.Extension.Evaluate.{Floats}
use tt_wavelet.Kernel.Workspace.{WorkspaceIndexCursor, cursor_at, advance, advance_block}

-- `for (i = …; i < …; ++i) body`, for the number of rounds left.
pub for_up {ℓ} : {A : Type ℓ} → ℕ → ℕ → (ℕ → A → A) → A → A
for_up zero i body a = a
for_up (suc left) i body a = for_up left (i + 1) body (body i a)

-- A pointer into the pages of a circular buffer.
pub record Pointer : Type 0 where
  pub buffer : ℕ
  pub word : ℕ

-- `p + k` and `&p[k]`.
abbrev pub at : Pointer → ℕ → Pointer
at p k = record p { word = p.word + k }

-- `block < 2 ? src_tiles01 + block * kNarrowTileElements : src_tiles23 + (block - 2) * …`; the
-- first buffer has number 0, and the second number 1.
abbrev pub narrow_tile : ℕ → Pointer
narrow_tile block =
    if ltb block 2
    then record { buffer = 0; word = block * 512 }
    else record { buffer = 1; word = (block - 2) * 512 }

-- `narrow_tiles + block * kNarrowTileElements + row * kBlockElements`.
abbrev pub output_block : ℕ → ℕ → Pointer
output_block block row = record { buffer = 0; word = block * 512 + row * 16 }

-- `zero_prefix` and `valid_start`.
abbrev pub zero_prefix : ℤ → ℕ
zero_prefix (pos a) = 0
zero_prefix (negsuc a) = if ltb (suc a) 16 then suc a else 16

abbrev pub valid_start : ℤ → ℕ
valid_start (pos a) = to_u32 (pos a)
valid_start (negsuc a) = 0

-- The logical index of the first lane of a block of a row, as an int64_t.
abbrev pub source_start : ℕ → ℕ → ℕ → ℕ → ℕ → ℤ
source_start source_offset source_left_pad group_base row block =
    pos (source_offset + group_base + (row * 3 + block) * 16) -ℤ pos source_left_pad

-- `logical_index >= 0 && static_cast<uint64_t>(logical_index) < source_end`.
abbrev pub is_inside : ℤ → ℕ → Bool
is_inside (pos a) source_end = ltb a source_end
is_inside (negsuc a) source_end = false

module _ (fl : Floats) where
  open fl use {Float, zero_f}

  abbrev pub Words : Type 0
  Words = ℕ → Float

  abbrev pub Pages : Type 0
  Pages = ℕ → ℕ → Float

  -- `*p = value`.
  abbrev pub write : Pages → Pointer → Float → Pages
  write pages p value b k = if (p.buffer == b) && (p.word == k) then value else pages b k

  module _ (src : Words) where
    -- `for (index = 0; index < count; ++index) dst[index] = src[physical + index]`.
    abbrev pub copy_lanes : ℕ → ℕ → Pointer → Pages → Pages
    copy_lanes count physical dst pages =
        for_up count 0 (λ index out. write out (at dst index) (src (u32 (physical + index)))) pages

    -- `read_workspace_block` at a cursor.
    pub read_workspace_block : Pointer → Pages × WorkspaceIndexCursor → Pages × WorkspaceIndexCursor
    read_workspace_block dst (pages, cursor) =
        let initial_lane : ℕ = cursor.lane in
        let first_count : ℕ = sub32 16 initial_lane in
        let first : Pages = copy_lanes first_count cursor.physical dst pages in
        let next : WorkspaceIndexCursor = advance_block (record cursor { lane = 0 }) in
        let second : Pages = copy_lanes initial_lane next.physical (at dst first_count) first in
        (second, record next { lane = initial_lane; physical = u32 (next.physical + initial_lane) })

    -- `read_workspace_block<BoundsChecked>` at a logical index.
    pub read_workspace_block_at : Bool → ℤ → ℕ → Pointer → Pages → Pages
    read_workspace_block_at true logical_start logical_end dst pages =
        let prefix : ℕ = zero_prefix logical_start in
        let start : ℕ = valid_start logical_start in
        (for_up 16 0
          (λ (lane : ℕ) (state : Pages × WorkspaceIndexCursor).
            let valid : Bool =
              leb prefix lane && ltb (sub32 (u32 (start + lane)) prefix) logical_end in
            (
              write state.0 (at dst lane) (if valid then src state.1.physical else zero_f),
              if valid then advance state.1 else state.1,
            ))
          (pages, cursor_at start)).0
    read_workspace_block_at false logical_start logical_end dst pages =
        (for_up 16 0
          (λ (lane : ℕ) (state : Pages × WorkspaceIndexCursor).
            (write state.0 (at dst lane) (src state.1.physical), advance state.1))
          (pages, cursor_at (to_u32 logical_start))).0

    pub fill_source_row_major : Bool → ℕ → ℕ → ℕ → ℕ → Pages → Pages
    fill_source_row_major checked source_end source_offset source_left_pad group_base pages =
        for_up 4 0
          (λ block. for_up 32 0 (λ row. for_up 16 0 (λ lane out.
            let logical_index : ℤ =
              source_start source_offset source_left_pad group_base row block +ℤ pos lane in
            write out (at (at (narrow_tile block) (row * 16)) lane) (
              if not checked || is_inside logical_index source_end
              then src (to_u32 logical_index)
              else zero_f))))
          pages

    pub fill_output_row_major : Bool → ℕ → ℕ → ℕ → ℕ → Pages → Pages
    fill_output_row_major checked source_end source_offset output_length group_base pages =
        for_up 32 0
          (λ row. for_up 3 0 (λ block. for_up 16 0 (λ lane out.
            let local_index : ℕ = u32 (group_base + (row * 3 + block) * 16 + lane) in
            let logical_index : ℕ = u32 (source_offset + local_index) in
            write out (at (output_block block row) lane) (
              if not checked || (ltb local_index output_length && ltb logical_index source_end)
              then src logical_index
              else zero_f))))
          pages

    pub fill_source_narrow_tiles : Bool → ℕ → ℕ → ℕ → ℕ → Pages → Pages
    fill_source_narrow_tiles false source_end source_offset source_left_pad group_base pages =
        for_up 4 0
          (λ block out.
            let logical_start : ℕ =
              sub32 (u32 (source_offset + group_base + block * 16)) source_left_pad in
            (for_up 32 0
              (λ (row : ℕ) (state : Pages × WorkspaceIndexCursor).
                let read : Pages × WorkspaceIndexCursor =
                  read_workspace_block (at (narrow_tile block) (row * 16)) state in
                (read.0, advance_block (advance_block read.1)))
              (out, cursor_at logical_start)).0)
          pages
    fill_source_narrow_tiles true source_end source_offset source_left_pad group_base pages =
        for_up 4 0
          (λ block. for_up 32 0 (λ row out.
            read_workspace_block_at true
              (source_start source_offset source_left_pad group_base row block) source_end
              (at (narrow_tile block) (row * 16)) out))
          pages

    pub fill_output_narrow_tiles : Bool → ℕ → ℕ → ℕ → ℕ → Pages → Pages
    fill_output_narrow_tiles false source_end source_offset output_length group_base pages =
        (for_up 32 0
          (λ row. for_up 3 0 (λ (block : ℕ) (state : Pages × WorkspaceIndexCursor).
            read_workspace_block (output_block block row) state))
          (pages, cursor_at (u32 (source_offset + group_base)))).0
    fill_output_narrow_tiles true source_end source_offset output_length group_base pages =
        for_up 32 0
          (λ row. for_up 3 0 (λ block out.
            let output_index : ℕ = u32 (group_base + (row * 3 + block) * 16) in
            let covered : ℕ = u32 (source_offset + output_length) in
            read_workspace_block_at true (pos (source_offset + output_index))
              (if ltb covered source_end then covered else source_end) (output_block block row)
              out))
          pages
