-- ===== src/Kernel/TileLayout.antt =====
-- The place of an element in a tile of four faces, and in a plane of such tiles:
-- kernels/primitives/tile_2d_layout.hpp.
use native.Mathlib.Nat.{mul-add-div_right, div-eq_of_lt, mul-add-mod_self_right, mod-eq_of_lt}
use tt_wavelet.Common.{ℕ, ◌+◌, ◌*◌, ◌/◌, ◌%◌, ◌^◌, ◌<◌, ◌≡◌, ◌∙◌, arith}
use tt_wavelet.Common.Words.{u32}

abbrev pub tile_side : ℕ
tile_side = 32

abbrev pub face_side : ℕ
face_side = 16

abbrev pub face_elements : ℕ
face_elements = face_side * face_side

abbrev pub tile_elements : ℕ
tile_elements = tile_side * tile_side

pub tile_face_row_offset : ℕ → ℕ
tile_face_row_offset row =
    u32 ((row / face_side) * 2 * face_elements + (row % face_side) * face_side)

pub tile_face_column_offset : ℕ → ℕ
tile_face_column_offset column = u32 ((column / face_side) * face_elements + column % face_side)

pub tile_element_offset : ℕ → ℕ → ℕ
tile_element_offset row column = u32 (tile_face_row_offset row + tile_face_column_offset column)

pub tiled_element_offset : ℕ → ℕ → ℕ → ℕ
tiled_element_offset row column tile_columns =
    let tile_index : ℕ = u32 ((row / tile_side) * tile_columns + column / tile_side) in
    u32 (tile_index * tile_elements + tile_element_offset (row % tile_side) (column % tile_side))

-- The row and the column of the element at an offset.
abbrev pub row_of : ℕ → ℕ
row_of offset = offset / 512 * 16 + offset % 256 / 16

abbrev pub column_of : ℕ → ℕ
column_of offset = offset % 512 / 256 * 16 + offset % 16

-- A tile stores each of its elements at an offset of its own, below 1024.
pub tile_element_offset-row_of :
    (row column : ℕ)
    → row < 32
    → column < 32
    → let offset = tile_element_offset row column in
      (offset < 1024) × (row_of offset ≡ row) × (column_of offset ≡ column)
unfolding tile_element_offset tile_face_row_offset tile_face_column_offset
tile_element_offset-row_of row column hr hc = (omega arith, omega arith, omega arith)

-- The offset of an element in a plane of tiles, for planes of less than 2 ^ 32 elements.
tiled_element_offset-eq :
    (row column columns : ℕ)
    → ((row / 32) * columns + column / 32) * 1024 + 1024 < 2 ^ 32
    → tiled_element_offset row column columns
      ≡ ((row / 32) * columns + column / 32) * 1024 + tile_element_offset (row % 32) (column % 32)
unfolding tiled_element_offset
tiled_element_offset-eq row column columns h =
    omega (arith, tile_element_offset-row_of (row % 32) (column % 32) (omega arith) (omega arith))

-- A plane of rows of `columns` tiles stores each element of a column inside it at an offset of its
-- own, from which row and column are found again: the tile, then the place in it. The plane has
-- less than 2 ^ 32 elements up to the end of the tile.
pub tiled_element_offset-row_of :
    (row column columns : ℕ)
    → column / 32 < columns
    → ((row / 32) * columns + column / 32) * 1024 + 1024 < 2 ^ 32
    → let offset = tiled_element_offset row column columns in
      (offset / 1024 / columns * 32 + row_of (offset % 1024) ≡ row)
      × (offset / 1024 % columns * 32 + column_of (offset % 1024) ≡ column)
tiled_element_offset-row_of row column columns hc h =
    let tile : ℕ = (row / 32) * columns + column / 32 in
    let e = tile_element_offset-row_of (row % 32) (column % 32) (omega arith) (omega arith) in
    let offset = tiled_element_offset row column columns in
    let at : offset ≡ tile * 1024 + tile_element_offset (row % 32) (column % 32) =
      tiled_element_offset-eq row column columns h in
    let eq : offset / 1024 ≡ tile = omega arith in
    let er : offset % 1024 ≡ tile_element_offset (row % 32) (column % 32) = omega arith in
    let dv : tile / columns ≡ row / 32 =
      mul-add-div_right (omega arith) (row / 32) (column / 32)
      ∙ rw (div-eq_of_lt hc) (omega arith) in
    let md : tile % columns ≡ column / 32 =
      mul-add-mod_self_right (row / 32) columns (column / 32) ∙ mod-eq_of_lt hc in
    rw (eq, er, dv, md, e.1, e.2) (omega arith, omega arith)
