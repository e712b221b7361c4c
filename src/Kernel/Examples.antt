-- ===== src/Kernel/Examples.antt =====
-- The theorems on the reader kernel at concrete signals, with a platform and transfers of their own.
use tt_wavelet.Common.{
  ℕ, ◌+◌, ◌-◌, ◌*◌, ◌/◌, ◌%◌, ◌≤◌, ◌<◌, ◌≡◌, ◌≢◌, refl, ap, arith, ◌⊎◌, inr, true, false, ltb, leb,
  ◌==◌, ◌&&◌, if◌then◌else◌, length,
}
use tt_wavelet.Common.Int.{ℤ, pos, neg_ℤ, ◌+ℤ◌, ◌-ℤ◌, ◌*ℤ◌}
use tt_wavelet.Boundary.{BoundaryMode}
use tt_wavelet.Extension.Evaluate.{Floats}
use tt_wavelet.Kernel.Workspace.{
  cursor_at, advance, advance_block, workspace_physical_index, group_elements, logical_of,
  cursor_at_advances, workspace_physical_index-logical,
}
use tt_wavelet.Kernel.TileLayout.{
  tiled_element_offset, row_of, column_of, tiled_element_offset-row_of,
}
use tt_wavelet.Kernel.StickCache.{Platform, Reader}
use tt_wavelet.Kernel.StickCache.Reads.{Caches, Keeps, Idle}
use tt_wavelet.Kernel.StickCache.Padded.{Arch, read_padded_value}
use tt_wavelet.Kernel.StickCache.Padded.Extends.{padded_sample, read_padded_value-Extends}
use tt_wavelet.Kernel.Streams.{Stream, fresh, initialize_lwt_streams, initialize_inverse_stream}
use tt_wavelet.Kernel.Streams.Split.{word_of, initialize_lwt_streams-Split}
use tt_wavelet.Kernel.Streams.Coefficients.{initialize_inverse_stream-Holds}
use tt_wavelet.Kernel.Packing.{Pages, Words, Pointer}
use tt_wavelet.Kernel.Emit.{LocalReads, Layout, SourceStream, emit_predict_update_tiles}
use tt_wavelet.Kernel.Emit.Groups.{PairsRight, emit_predict_update_tiles-right}

-- Exact arithmetic in place of `float`.
abbrev exact : Floats
exact = record {
  Float = ℤ;
  zero_f = pos 0;
  two_f = pos 2;
  negate = neg_ℤ;
  add_f = ◌+ℤ◌;
  sub_f = ◌-ℤ◌;
  mul_f = ◌*ℤ◌;
  from_unsigned = pos;
  from_signed = λ z. z;
}

abbrev squares : ℕ → ℤ
squares i = pos (i * i)

-- A transfer of bytes of a page of squares.
abbrev bring : ℕ × ℕ → ℕ → ℕ → (ℕ → ℤ) → ℕ → ℤ
bring a dst n m p =
    if leb dst p && ltb p (dst + n) then squares (a.0 * 32 + (a.1 + (p - dst)) / 4) else m p

bring-inside :
    (a : ℕ × ℕ) (dst n : ℕ) (m : ℕ → ℤ) (k : ℕ)
    → 4 * k < n
    → bring a dst n m (dst + 4 * k) ≡ squares (a.0 * 32 + (a.1 + 4 * k) / 4)
bring-inside a dst n m k h = ground arith

bring-outside :
    (a : ℕ × ℕ) (dst n : ℕ) (m : ℕ → ℤ) (p : ℕ)
    → (p + 4 ≤ dst) ⊎ (dst + n ≤ p)
    → bring a dst n m p ≡ m p
bring-outside a dst n m p h = ground arith

back_to_zero : (n b : ℕ) → b ≡ 0 → b + n - n ≡ 0
back_to_zero n b h = omega arith

-- A circular buffer that counts its pages in use, and pages of 32 squares each.
abbrev counting : Platform exact
counting = record {
  Buffer = ℕ;
  cb_reserve_back = λ b n. b;
  cb_push_back = λ b n. b + n;
  cb_wait_front = λ b n. b;
  cb_pop_front = λ b n. b - n;
  get_write_ptr = λ b. 0;
  get_read_ptr = λ b. 0;
  IsIdle = λ n b. b ≡ 0;
  Address = ℕ × ℕ;
  get_noc_addr = λ page offset. (page, offset);
  word_at = λ a k. squares (a.0 * 32 + (a.1 + k) / 4);
  noc_async_read = bring;
  cycle-ptr = λ n b h. refl;
  cycle-IsIdle = back_to_zero;
  noc-inside = bring-inside;
  noc-outside = bring-outside;
}

abbrev blank : ℕ → ℤ
blank p = pos 0

abbrev start : Reader exact counting
start = fresh exact counting 4 0 128 0 blank

start-Caches : Caches exact counting squares 100 start
start-Caches = record {
  configured = record {
    words = refl;
    wide = omega arith;
    capable = omega arith;
    counted = omega arith;
    paged = omega arith;
    bytes = omega arith;
  };
  stored = λ stick lane hl hs. (λ e. ap squares (omega arith), λ e. cc);
  roomy = λ b h. omega arith;
  idle = λ e. refl;
  full = λ e. cc;
}

read_padded_value-Extends_example :
    let (value, after) =
      read_padded_value exact counting Arch.wormhole BoundaryMode.antireflect start 100 3 1 in
    (value ≡ padded_sample exact BoundaryMode.antireflect squares 100 3 1)
    × Caches exact counting squares 100 after
    × Keeps exact counting squares 100 start after
read_padded_value-Extends_example =
    read_padded_value-Extends exact counting squares 100 (omega arith) Arch.wormhole
      BoundaryMode.antireflect start 3 1 (omega arith) (omega arith) start-Caches

abbrev even : Stream
even = record { address = 4096; begin = 0; length = 3 }

abbrev odd : Stream
odd = record { address = 8192; begin = 0; length = 2 }

initialize_lwt_streams-Split_example :
    let after =
      initialize_lwt_streams exact counting Arch.blackhole BoundaryMode.symmetric false 100 2 even
        odd 4 0 128 0 blank in
    ((k : ℕ)
      → k < 3
      → after.memory (word_of false even k)
        ≡ padded_sample exact BoundaryMode.symmetric squares 100 2 (2 * (0 + k) + 0))
    × ((k : ℕ)
        → k < 2
        → after.memory (word_of false odd k)
          ≡ padded_sample exact BoundaryMode.symmetric squares 100 2 (2 * (0 + k) + 1))
    × Idle exact counting squares 100 after
unfolding workspace_physical_index
initialize_lwt_streams-Split_example =
    initialize_lwt_streams-Split exact counting squares 100 (omega arith) (omega arith)
      Arch.blackhole BoundaryMode.symmetric false 2 even odd (omega arith) (omega arith)
      (λ j k hj hk e. omega arith) 4 0 128 0 blank (omega arith) (omega arith) start-Caches
      (λ k hk b h. inr (omega arith)) (λ k hk b h. inr (omega arith))

initialize_inverse_stream-Holds_example :
    let after = initialize_inverse_stream exact counting true 100 40 4096 3 4 0 128 0 blank in
    ((k : ℕ) → k < 3 → after.memory (4096 + 4 * workspace_physical_index true k) ≡ squares (40 + k))
    × Idle exact counting squares 100 after
initialize_inverse_stream-Holds_example =
    initialize_inverse_stream-Holds exact counting squares 100 true 40 4096 3 (omega arith)
      (omega arith) (omega arith) 4 0 128 0 blank start-Caches (λ k hk b h. inr (omega arith))

cursor_at_advances_example :
    (advance (cursor_at 1535) ≡ cursor_at 1536) × (advance_block (cursor_at 1535) ≡ cursor_at 1551)
cursor_at_advances_example = cursor_at_advances 1535 (omega arith)

workspace_physical_index-logical_example :
    (workspace_physical_index true 1600 / group_elements ≡ 1600 / group_elements)
    × (logical_of (workspace_physical_index true 1600) ≡ 1600)
    × (workspace_physical_index true (logical_of 1600) ≡ 1600)
workspace_physical_index-logical_example = workspace_physical_index-logical 1600 (omega arith)

tiled_element_offset-row_of_example :
    let offset = tiled_element_offset 40 70 3 in
    (offset / 1024 / 3 * 32 + row_of (offset % 1024) ≡ 40)
    × (offset / 1024 % 3 * 32 + column_of (offset % 1024) ≡ 70)
tiled_element_offset-row_of_example =
    tiled_element_offset-row_of 40 70 3 (omega arith) (omega arith)

-- Transfers between arrays of words.
abbrev copy : Words exact → ℕ → ℕ → Pointer → Pages exact → Pages exact
copy src first count dst pages q p =
    if (q == dst.buffer) && leb dst.word p && ltb p (dst.word + count)
    then src (first + (p - dst.word))
    else pages q p

copy_inside :
    (src : Words exact) (first count : ℕ) (dst : Pointer) (pages : Pages exact) (k : ℕ)
    → k < count
    → copy src first count dst pages dst.buffer (dst.word + k) ≡ src (first + k)
copy_inside src first count dst pages k h = ground (arith, ap src)

copy_outside :
    (src : Words exact) (first count : ℕ) (dst : Pointer) (pages : Pages exact) (q p : ℕ)
    → (q ≢ dst.buffer) ⊎ (p < dst.word) ⊎ (dst.word + count ≤ p)
    → copy src first count dst pages q p ≡ pages q p
copy_outside src first count dst pages q p h = ground arith

abbrev copying : LocalReads exact
copying = record { read_words = copy; read_inside = copy_inside; read_outside = copy_outside }

abbrev layout : Layout
layout = record {
  tile_native = true;
  row_major_noc_staging = false;
  hybrid_tile_mirror = false;
  alignment_elements = 4;
}

abbrev stream_of : ℕ → SourceStream exact
stream_of offset = record {
  words = squares;
  mirror = squares;
  tile_mirror = false;
  end = 5000;
  offset = offset;
}

abbrev empty_pages : Pages exact
empty_pages q p = pos 0

emit_predict_update_tiles-right_example :
    let pages =
      emit_predict_update_tiles exact copying layout
        (stream_of 3)
        (stream_of 0)
        3
        2000
        2
        (λ group. (empty_pages, empty_pages)) in
    (length pages ≡ 2) × PairsRight exact layout (stream_of 3) (stream_of 0) 3 2000 0 pages
emit_predict_update_tiles-right_example =
    emit_predict_update_tiles-right exact copying layout (stream_of 3) (stream_of 0) 3 2000 2
      (λ group. (empty_pages, empty_pages)) (omega arith, omega arith, λ t. cc)
      (omega arith, omega arith, λ t. cc) (omega arith) (omega arith)
