-- ===== src/Tiling/Padding.antt =====
-- The elements of tiled tensors: zero_pad_row_major_to_tiles_2d and has_zero_tile_padding_2d of
-- tt-wavelet/tt_wavelet/include/common/tiling_2d.hpp. A span or a vector is its size and its elements
-- by position; `float` is a parameter with its zero and the test `!= 0.0F`.
pub mod Rows
pub mod Clean
pub mod Stored
use tt_wavelet.Common.{
  ℕ, zero, suc, ◌+◌, ◌-◌, ◌*◌, Bool, true, false, not, ◌&&◌, ◌||◌, ltb, leb, ◌==◌, if◌then◌else◌,
  Result, ok, require, ◌>>=◌, ◌>>◌,
}
use tt_wavelet.Common.Words.{u64}
use tt_wavelet.Tiling.{
  Shape2D, TiledShape2D, checked_shape_area_2d, make_tiled_shape_2d, validate_tiled_shape_2d,
}

pub record Elements (F : Type 0) : Type 0 where
  pub size : ℕ
  pub at : ℕ → F

module _ {F : Type 0} where
  -- `std::copy_n` from a position of a span to one of a vector.
  unfoldable pub copy_n : (ℕ → F) → ℕ → ℕ → ℕ → (ℕ → F) → ℕ → F
  copy_n input from n to padded p =
      if leb to p && ltb p (to + n) then input (from + (p - to)) else padded p

  -- The loop of zero_pad_row_major_to_tiles_2d: the rows that are left, from `row` on.
  unfoldable pub copy_rows : (ℕ → F) → ℕ → ℕ → ℕ → ℕ → (ℕ → F) → ℕ → F
  copy_rows input logical_width storage_width zero row padded = padded
  copy_rows input logical_width storage_width (suc rounds) row padded =
      copy_rows input logical_width storage_width rounds (row + 1)
        (copy_n input (u64 (row * logical_width)) logical_width (u64 (row * storage_width)) padded)

  unfoldable pub zero_pad_row_major_to_tiles_2d : F → Elements F → Shape2D → Result (Elements F)
  zero_pad_row_major_to_tiles_2d zero_f input logical = do
    tiled ← make_tiled_shape_2d logical
    logical_elements ← checked_shape_area_2d logical
    require (input.size == logical_elements)
    storage_elements ← checked_shape_area_2d tiled.storage
    ok (record {
      size = storage_elements;
      at =
          copy_rows input.at logical.width tiled.storage.width logical.height 0
            (λ position. zero_f);
    })

  -- The test of the inner loop, which makes has_zero_tile_padding_2d return false.
  abbrev pub stains : (F → Bool) → TiledShape2D → (ℕ → F) → ℕ → ℕ → Bool
  stains nonzero s padded row column =
      (leb s.logical.height row || leb s.logical.width column)
      && nonzero (padded (u64 (u64 (row * s.storage.width) + column)))

  -- The inner loop: the columns that are left of a row.
  unfoldable pub clean_columns : (F → Bool) → TiledShape2D → (ℕ → F) → ℕ → ℕ → ℕ → Bool
  clean_columns nonzero s padded row zero column = true
  clean_columns nonzero s padded row (suc rounds) column =
      if stains nonzero s padded row column
      then false
      else clean_columns nonzero s padded row rounds (column + 1)

  -- The outer loop.
  unfoldable pub clean_rows : (F → Bool) → TiledShape2D → (ℕ → F) → ℕ → ℕ → Bool
  clean_rows nonzero s padded zero row = true
  clean_rows nonzero s padded (suc rounds) row =
      if clean_columns nonzero s padded row s.storage.width 0
      then clean_rows nonzero s padded rounds (row + 1)
      else false

  unfoldable pub has_zero_tile_padding_2d : (F → Bool) → Elements F → TiledShape2D → Result Bool
  has_zero_tile_padding_2d nonzero padded s = do
    validate_tiled_shape_2d s
    storage_elements ← checked_shape_area_2d s.storage
    ok (
        if not (padded.size == storage_elements)
        then false
        else clean_rows nonzero s padded.at s.storage.height 0)
