-- ===== src/Kernel/Packing/Rows.antt =====
-- What the tiles of a group hold: source_tiles and output_tiles, and the fill loops that make them.
use tt_wavelet.Common.{ℕ, ◌+◌, ◌*◌, ◌/◌, ◌%◌, ◌<◌, ◌≡◌, refl, ap, sym, subst, arith, Bool, min}
use tt_wavelet.Common.Int.{pos, ◌+ℤ◌}
use tt_wavelet.Extension.Evaluate.{Floats}
use tt_wavelet.Kernel.Packing.{
  Pointer, Pages, Words, at, for_up, narrow_tile, output_block, source_start,
}
use tt_wavelet.Kernel.Packing.Agree.{IsRight, Improves, for_up-Improves}
use tt_wavelet.Kernel.Packing.Block.{value_at, max_end, pos-+ℤ-pos, Aims}

-- The source tiles of a group: word p of buffer q stands in block 2 q + p / 512, in row p % 512 / 16
-- and lane p % 16, and blocks 0 to 3 of a row overlap blocks of 48 samples by one.
abbrev pub source_tiles : (fl : Floats) → Bool → Words fl → ℕ → ℕ → ℕ → ℕ → Pages fl
source_tiles fl tile_native src source_end source_offset source_left_pad group_base q p =
    value_at fl tile_native src source_end (
      source_start source_offset source_left_pad group_base (p % 512 / 16) (2 * q + p / 512)
      +ℤ pos (p % 16))

-- The output tiles of a group: three blocks to a row, up to the output length and the source end.
abbrev pub output_tiles : (fl : Floats) → Bool → Words fl → ℕ → ℕ → ℕ → ℕ → Pages fl
output_tiles fl tile_native src source_end source_offset output_length group_base q p =
    value_at fl tile_native src (min (source_offset + output_length) source_end)
      (pos (source_offset + (group_base + (p % 512 / 16 * 3 + p / 512) * 16) + p % 16))

module _ (fl : Floats) (target : Pages fl) where
  -- A step that makes a row of a tile right, and none wrong.
  abbrev pub Settles : (ℕ → Pointer) → ℕ → Pages fl → Pages fl → Type 0
  Settles row_at rows pages after =
      Improves fl target pages after
      × ((row lane : ℕ) → row < rows → lane < 16 → IsRight fl target after (at (row_at row) lane))

  -- Blocks of sixteen lanes, one for each row.
  pub rows-Settles :
      {A : Type 0} (show : A → Pages fl) (Stands : ℕ → A → Type 0) (row_at : ℕ → Pointer) (rows : ℕ)
      (body : ℕ → A → A) (a : A)
      → ((row : ℕ) (b : A)
          → row < rows
          → Stands row b
          → Stands (row + 1) (body row b)
            × Improves fl target (show b) (show (body row b))
            × ((lane : ℕ)
                → lane < 16
                → IsRight fl target (show (body row b)) (at (row_at row) lane)))
      → Stands 0 a
      → Stands rows (for_up rows 0 body a)
        × Settles row_at rows (show a) (show (for_up rows 0 body a))
  rows-Settles show Stands row_at rows body a step s =
      let loop =
        for_up-Improves fl target show Stands
          (λ row p. (lane : ℕ) × (lane < 16) × (p ≡ at (row_at row) lane)) body rows rows 0 a
          (omega arith)
          (λ row b hr sb.
            let w = step row b hr sb in
            (
              w.0,
              w.1,
              λ p c. subst (IsRight fl target (show (body row b))) (sym c.2) (w.2 c.0 c.1),
            ))
          s in
      (
        loop.0,
        (
          loop.1,
          λ row lane hr hl. loop.2 row (at (row_at row) lane) (omega arith) hr (lane, hl, refl),
        ),
      )

  -- A loop whose rounds settle tiles settles them all.
  pub tiles-Settles :
      {A : Type 0} (show : A → Pages fl) (Stands : ℕ → A → Type 0) (tile_row : ℕ → ℕ → Pointer)
      (count rows : ℕ) (body : ℕ → A → A) (a : A)
      → ((i : ℕ) (b : A)
          → i < count
          → Stands i b
          → Stands (i + 1) (body i b) × Settles (tile_row i) rows (show b) (show (body i b)))
      → Stands 0 a
      → Stands count (for_up count 0 body a)
        × Improves fl target (show a) (show (for_up count 0 body a))
        × ((i row lane : ℕ)
            → i < count
            → row < rows
            → lane < 16
            → IsRight fl target (show (for_up count 0 body a)) (at (tile_row i row) lane))
  tiles-Settles show Stands tile_row count rows body a step s =
      let loop =
        for_up-Improves fl target show Stands
          (λ i p.
            (row : ℕ) × (lane : ℕ) × (row < rows) × (lane < 16) × (p ≡ at (tile_row i row) lane))
          body count count 0 a (omega arith)
          (λ i b hi sb.
            let w = step i b hi sb in
            (
              w.0,
              w.1.0,
              λ p c. subst (IsRight fl target (show (body i b))) (sym c.4) (w.1.1 c.0 c.1 c.2 c.3),
            ))
          s in
      (
        loop.0,
        loop.1,
        λ i row lane hi hr hl.
            loop.2 i (at (tile_row i row) lane) (omega arith) hi (row, lane, hr, hl, refl),
      )

-- A word of the source tiles, as a lane of a row of a block.
abbrev pub source_row : ℕ → ℕ → Pointer
source_row block row = at (narrow_tile block) (row * 16)

pub source_row-word :
    (q p : ℕ)
    → q < 2
    → p < 1024
    → at (source_row (2 * q + p / 512) (p % 512 / 16)) (p % 16) ≡ record { buffer = q; word = p }
source_row-word q p hq hp = ground arith

pub output_block-word :
    (p : ℕ)
    → p < 1536
    → at (output_block (p / 512) (p % 512 / 16)) (p % 16) ≡ record { buffer = 0; word = p }
output_block-word p hp = ground arith

module _ (fl : Floats) (tile_native : Bool) (src : Words fl) (source_end : ℕ)
    (short : source_end < max_end) (offset : ℕ) where
  pub source_tiles-Aims :
      (pad group_base block row : ℕ)
      → block < 4
      → row < 32
      → Aims fl
          (source_tiles fl tile_native src source_end offset pad group_base)
          src
          source_end
          short
          tile_native
          (source_row block row)
          (source_start offset pad group_base row block)
  source_tiles-Aims pad group_base block row hb hr lane hl =
      let word : ℕ = (narrow_tile block).word + row * 16 + lane in
      let r : word % 512 / 16 ≡ row = ground arith in
      let b : 2 * (narrow_tile block).buffer + word / 512 ≡ block = ground arith in
      let l : word % 16 ≡ lane = ground arith in rw (r, b, l) refl

  pub output_tiles-Aims :
      (output_length group_base block row : ℕ)
      (h : min (offset + output_length) source_end < max_end)
      → block < 3
      → row < 32
      → Aims fl
          (output_tiles fl tile_native src source_end offset output_length group_base)
          src
          (min (offset + output_length) source_end)
          h
          tile_native
          (output_block block row)
          (pos (offset + (group_base + (row * 3 + block) * 16)))
  output_tiles-Aims output_length group_base block row h hb hr lane hl =
      let word : ℕ = block * 512 + row * 16 + lane in
      let r : word % 512 / 16 ≡ row = omega arith in
      let b : word / 512 ≡ block = omega arith in
      let l : word % 16 ≡ lane = omega arith in
      let start : ℕ = offset + (group_base + (row * 3 + block) * 16) in
      rw (r, b, l)
        (sym (
          ap (value_at fl tile_native src (min (offset + output_length) source_end))
            (pos-+ℤ-pos start lane)))
