-- ===== src/Kernel/Streams.antt =====
-- How a reader kernel fills the initial streams of a chunk in its workspace:
-- kernels/dataflow/lwt_reader.cpp, initialize_lwt_streams and initialize_inverse_stream.
pub mod Split
pub mod Coefficients
use tt_wavelet.Common.{
  ℕ, zero, suc, ◌+◌, ◌-◌, ◌*◌, Bool, true, false, ◌&&◌, ltb, leb, if◌then◌else◌,
}
use tt_wavelet.Common.Words.{u32}
use tt_wavelet.Boundary.{BoundaryMode}
use tt_wavelet.Extension.Evaluate.{Floats}
use tt_wavelet.Kernel.Workspace.{WorkspaceIndexCursor, cursor_at, advance}
use tt_wavelet.Kernel.StickCache.{
  Platform, StickReadCache, Reader, Memory, store, invalid_stick, read_source_value, release_cache,
}
use tt_wavelet.Kernel.StickCache.Padded.{Arch, read_padded_value}

-- The `input_cache` that both functions start with: sticks of 32 samples and 128 bytes, four of
-- them held.
abbrev pub input_cache : ℕ → ℕ → ℕ → StickReadCache
input_cache cb_input_cache input_page input_page_size = record {
  cb_id = cb_input_cache;
  stick_nbytes = 128;
  stick_width = 32;
  stick_capacity = 4;
  cached_stick_id = invalid_stick;
  cached_stick_count = 0;
  reserved_stick_count = 0;
  source_page = input_page;
  valid = false;
  page_size = input_page_size;
}

-- How far a stream is written: `even_cursor` and `even_written`, or the odd ones.
pub record Progress : Type 0 where
  pub cursor : WorkspaceIndexCursor
  pub written : ℕ

-- The word of the workspace that is written next.
abbrev pub next_word : Bool → Progress → ℕ
next_word tile_native o = if tile_native then o.cursor.physical else o.written

abbrev pub written_one : Bool → Progress → Progress
written_one tile_native o =
    if tile_native
    then record o { cursor = advance o.cursor }
    else record o { written = u32 (o.written + 1) }

abbrev pub not_written : Progress
not_written = record { cursor = cursor_at 0; written = 0 }

-- A stream to fill: its address, its first sample and its length.
pub record Stream : Type 0 where
  pub address : ℕ
  pub begin : ℕ
  pub length : ℕ

module _ (fl : Floats) (platform : Platform fl) where
  -- `destination[word] = value`.
  abbrev pub put : Reader fl platform → ℕ → fl.Float → Reader fl platform
  put r p value = record r { memory = store fl r.memory p value }

  -- A reader that starts.
  abbrev pub fresh : ℕ → ℕ → ℕ → platform.Buffer → Memory fl → Reader fl platform
  fresh cb_input_cache input_page input_page_size buffer memory = record {
    cache = input_cache cb_input_cache input_page input_page_size;
    buffer = buffer;
    memory = memory;
  }

  module _ (arch : Arch) (mode : BoundaryMode) (tile_native : Bool)
      (input_length left_pad : ℕ) where
    -- The block of the loop that fills one of the streams, with the padded index that it reads.
    pub split_block : Stream → ℕ → ℕ → Reader fl platform × Progress → Reader fl platform × Progress
    split_block stream padded_index split_index (r, o) =
        if leb stream.begin split_index && ltb split_index (u32 (stream.begin + stream.length))
        then (let (value, after) =
              read_padded_value fl platform arch mode r input_length left_pad padded_index in
            (
              put after (stream.address + 4 * next_word tile_native o) value,
              written_one tile_native o,
            ))
        else (r, o)

    -- The loop from a split index, for the number of split indices left.
    pub split_loop :
        Stream
        → Stream
        → ℕ
        → ℕ
        → Reader fl platform × Progress × Progress
        → Reader fl platform × Progress × Progress
    split_loop even odd zero split_index state = state
    split_loop even odd (suc left) split_index (r, even_done, odd_done) =
        let (r1, even_next) = split_block even (u32 (2 * split_index)) split_index (r, even_done) in
        let (r2, odd_next) =
          split_block odd (u32 (u32 (2 * split_index) + 1)) split_index (r1, odd_done) in
        split_loop even odd left (split_index + 1) (r2, even_next, odd_next)

    pub initialize_lwt_streams :
        Stream → Stream → ℕ → ℕ → ℕ → platform.Buffer → Memory fl → Reader fl platform
    initialize_lwt_streams even odd cb_input_cache input_page input_page_size buffer memory =
        let r : Reader fl platform =
          fresh cb_input_cache input_page input_page_size buffer memory in
        let even_end : ℕ = u32 (even.begin + even.length) in
        let odd_end : ℕ = u32 (odd.begin + odd.length) in
        let split_begin : ℕ = if ltb even.begin odd.begin then even.begin else odd.begin in
        let split_end : ℕ = if ltb odd_end even_end then even_end else odd_end in
        release_cache fl platform
          (split_loop even odd (split_end - split_begin) split_begin
            (r, not_written, not_written)).0

  module _ (tile_native : Bool) (input_length input_begin output_addr : ℕ) where
    -- The loop of initialize_inverse_stream from an index, for the number of indices left.
    pub inverse_loop : ℕ → ℕ → Reader fl platform → WorkspaceIndexCursor → Reader fl platform
    inverse_loop zero index r cursor = r
    inverse_loop (suc left) index r cursor =
        let (value, after) =
          read_source_value fl platform r (u32 (input_begin + index)) input_length in
        let word : ℕ = if tile_native then cursor.physical else index in
        inverse_loop left (index + 1) (put after (output_addr + 4 * word) value)
          (if tile_native then advance cursor else cursor)

    pub initialize_inverse_stream : ℕ → ℕ → ℕ → ℕ → platform.Buffer → Memory fl → Reader fl platform
    initialize_inverse_stream output_length cb_input_cache input_page input_page_size buffer
          memory =
        let r : Reader fl platform =
          fresh cb_input_cache input_page input_page_size buffer memory in
        release_cache fl platform (inverse_loop output_length 0 r (cursor_at 0))
