-- ===== src/Memory.antt =====
-- The L1 memory of a core: tt-wavelet/tt_wavelet/include/lifting/l1_accounting.hpp, with the constants
-- of lwt_config.hpp that it uses.
pub mod Balance
mod Examples
use tt_wavelet.Common.{ℕ, ◌+◌, ◌*◌, leb, ltb, Result, ok, require, ◌>>=◌, ◌>>◌}
use tt_wavelet.Common.Words.{u64, sub32, sub64}
use tt_wavelet.Signal.{float_bytes}

pub record L1Accounting : Type 0 where
  pub slots_bytes : ℕ
  pub workspace_mirror_bytes : ℕ
  pub circular_buffers_bytes : ℕ
  pub cache_bytes : ℕ
  pub output_bytes : ℕ
  pub synchronization_bytes : ℕ
  pub metadata_bytes : ℕ
  pub alignment_bytes : ℕ
  pub padding_bytes : ℕ
  pub architecture_scratch_bytes : ℕ
  pub total_bytes : ℕ
  pub capacity_bytes : ℕ
  pub headroom_bytes : ℕ

-- kSourceTileCircularBuffersBytes, kBaseTileCircularBufferBytes, kOutputTileCircularBufferBytes,
-- kCacheBytes, kSynchronizationBytes and kMetadataBytes: a narrow tile has 2048 bytes, a stick 128 and
-- a page of a route's configuration 64.
abbrev pub source_tile_circular_buffers_bytes : ℕ
source_tile_circular_buffers_bytes = 8 * 2048

abbrev pub base_tile_circular_buffer_bytes : ℕ
base_tile_circular_buffer_bytes = 6 * 2048

abbrev pub output_tile_circular_buffer_bytes : ℕ
output_tile_circular_buffer_bytes = 6 * 2048

abbrev pub lwt_cache_bytes : ℕ
lwt_cache_bytes = 4 * 128

abbrev pub lwt_synchronization_bytes : ℕ
lwt_synchronization_bytes = 32

abbrev pub lwt_metadata_bytes : ℕ
lwt_metadata_bytes = 2 * 64

-- The fields before the check of the total, which is the wrapped sum.
abbrev pub parts_of : ℕ → ℕ → ℕ → ℕ → ℕ → ℕ → L1Accounting
parts_of workspace max_workspace mirror batch_sticks scratch capacity =
    let slots = u64 (u64 (3 * max_workspace) * float_bytes) in
    let mirror_bytes = u64 (u64 (3 * mirror) * float_bytes) in
    let padding = u64 (u64 (3 * sub32 workspace max_workspace) * float_bytes) in
    let buffers = source_tile_circular_buffers_bytes + base_tile_circular_buffer_bytes in
    let output = u64 (output_tile_circular_buffer_bytes + u64 (batch_sticks * 128)) in
    let total = u64 (
      slots + mirror_bytes + buffers + lwt_cache_bytes + output + lwt_synchronization_bytes
      + lwt_metadata_bytes + 0 + padding + scratch) in
    record {
      slots_bytes = slots;
      workspace_mirror_bytes = mirror_bytes;
      circular_buffers_bytes = buffers;
      cache_bytes = lwt_cache_bytes;
      output_bytes = output;
      synchronization_bytes = lwt_synchronization_bytes;
      metadata_bytes = lwt_metadata_bytes;
      alignment_bytes = 0;
      padding_bytes = padding;
      architecture_scratch_bytes = scratch;
      total_bytes = total;
      capacity_bytes = capacity;
      headroom_bytes = sub64 capacity total;
    }

unfoldable pub make_l1_accounting : ℕ → ℕ → ℕ → ℕ → ℕ → ℕ → Result L1Accounting
make_l1_accounting workspace max_workspace mirror batch_sticks scratch capacity = do
  require (leb max_workspace workspace)
  require (ltb 0 batch_sticks)
  let a = parts_of workspace max_workspace mirror batch_sticks scratch capacity
  require (leb a.total_bytes capacity)
  ok a
