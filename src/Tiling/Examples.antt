-- ===== src/Tiling/Examples.antt =====
-- The theorems on tiling_2d.hpp at a concrete shape.
use tt_wavelet.Common.{ℕ, ◌+◌, ◌*◌, ◌<◌, ◌≡◌, ◌↔◌, refl, arith, Bool, true, not, ◌==◌, ok}
use tt_wavelet.Tiling.Padding.{Elements, zero_pad_row_major_to_tiles_2d, has_zero_tile_padding_2d}
use tt_wavelet.Tiling.Padding.Clean.{IsPadding}
use tt_wavelet.Tiling.Padding.Stored.{zero_pad_row_major_to_tiles_2d-has_zero_tile_padding_2d}
use tt_wavelet.Tiling.{Shape2D, TiledShape2D, make_tiled_shape_2d}
use tt_wavelet.Tiling.Cover.{IsTiling, make_tiled_shape_2d_iff}

abbrev image : Shape2D
image = record { height = 70; width = 50 }

abbrev tiles : TiledShape2D
tiles = record { logical = image; storage = record { height = 96; width = 64 } }

make_tiled_shape_2d_iff_example :
    (make_tiled_shape_2d image ≡ ok tiles) ↔ ((tiles.logical ≡ image) × IsTiling tiles)
make_tiled_shape_2d_iff_example = make_tiled_shape_2d_iff image tiles (omega arith) (omega arith)

tiles-IsTiling : IsTiling tiles
tiles-IsTiling = record {
  logical_area = (omega arith, omega arith, omega arith);
  storage_area = (omega arith, omega arith, omega arith);
  height_covers = (omega arith, omega arith, omega arith, omega arith);
  width_covers = (omega arith, omega arith, omega arith, omega arith);
}

-- Each element is one more than its position.
abbrev counted : Elements ℕ
counted = record { size = 3500; at = λ position. position + 1 }

abbrev differs : ℕ → Bool
differs n = not (n == 0)

zero_pad_row_major_to_tiles_2d-has_zero_tile_padding_2d_example :
    (padded : Elements ℕ) × (zero_pad_row_major_to_tiles_2d 0 counted image ≡ ok padded)
    × (padded.size ≡ 96 * 64)
    × ((r c : ℕ) → r < 70 → c < 50 → padded.at (r * 64 + c) ≡ r * 50 + c + 1)
    × ((r c : ℕ) → IsPadding tiles r c → padded.at (r * 64 + c) ≡ 0)
    × (has_zero_tile_padding_2d differs padded tiles ≡ ok true)
zero_pad_row_major_to_tiles_2d-has_zero_tile_padding_2d_example =
    zero_pad_row_major_to_tiles_2d-has_zero_tile_padding_2d 0 differs refl tiles tiles-IsTiling
      counted refl
