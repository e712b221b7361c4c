-- ===== src/Tiling.antt =====
-- Shapes of tiled two-dimensional tensors: tt-wavelet/tt_wavelet/include/common/tiling_2d.hpp. Padding
-- has the two functions on the elements of a tensor.
pub mod Cover
pub mod Padding
mod Examples
use tt_wavelet.Common.{
  ℕ, ◌+◌, ◌-◌, ◌*◌, ◌/◌, ◌%◌, ◌^◌, Bool, not, ◌&&◌, ◌||◌, ltb, leb, ◌==◌, Result, ok, require,
  ◌>>=◌, ◌>>◌,
}
use tt_wavelet.Common.Words.{u64, sub64}

abbrev pub tile_height_2d : ℕ
tile_height_2d = 32

abbrev pub tile_width_2d : ℕ
tile_width_2d = 32

pub record Shape2D : Type 0 where
  pub height : ℕ
  pub width : ℕ

-- `empty()`, and the two defaulted comparisons.
abbrev pub is_empty_shape : Shape2D → Bool
is_empty_shape s = s.height == 0 || s.width == 0

abbrev pub same_shape : Shape2D → Shape2D → Bool
same_shape a b = (a.height == b.height) && (a.width == b.width)

pub record TiledShape2D : Type 0 where
  pub logical : Shape2D
  pub storage : Shape2D

abbrev pub same_tiled_shape : TiledShape2D → TiledShape2D → Bool
same_tiled_shape a b = same_shape a.logical b.logical && same_shape a.storage b.storage

pub record Lwt2DTilingContract : Type 0 where
  pub input : TiledShape2D
  pub band : TiledShape2D
  pub padding_precedes_split : Bool

unfoldable pub is_tile_aligned_2d : Shape2D → Bool
is_tile_aligned_2d s =
    not (is_empty_shape s) && s.height % tile_height_2d == 0 && s.width % tile_width_2d == 0

unfoldable pub checked_shape_area_2d : Shape2D → Result ℕ
checked_shape_area_2d s = do
  require (not (is_empty_shape s))
  require (leb s.height ((2 ^ 64 - 1) / s.width))
  ok (u64 (s.height * s.width))

unfoldable pub round_up_to_tile_2d : ℕ → ℕ → Result ℕ
round_up_to_tile_2d value tile_extent = do
  require (ltb 0 value)
  require (leb value (sub64 (2 ^ 64 - 1) (sub64 tile_extent 1)))
  ok (u64 (sub64 (u64 (value + tile_extent)) 1 / tile_extent * tile_extent))

unfoldable pub make_tiled_shape_2d : Shape2D → Result TiledShape2D
make_tiled_shape_2d logical = do
  _ ← checked_shape_area_2d logical
  height ← round_up_to_tile_2d logical.height tile_height_2d
  width ← round_up_to_tile_2d logical.width tile_width_2d
  _ ← checked_shape_area_2d (record { height = height; width = width })
  ok (record { logical = logical; storage = record { height = height; width = width } })

unfoldable pub validate_tiled_shape_2d : TiledShape2D → Result (Unit {0})
validate_tiled_shape_2d s = do
  _ ← checked_shape_area_2d s.logical
  _ ← checked_shape_area_2d s.storage
  require (is_tile_aligned_2d s.storage)
  require (leb s.logical.height s.storage.height && leb s.logical.width s.storage.width)
  minimal ← make_tiled_shape_2d s.logical
  require (same_tiled_shape s minimal)

unfoldable pub validate_lwt_2d_tiling_contract : Lwt2DTilingContract → Result (Unit {0})
validate_lwt_2d_tiling_contract c = do
  require c.padding_precedes_split
  validate_tiled_shape_2d c.input
  validate_tiled_shape_2d c.band
