-- ===== src/Kernel/Workspace/Lanes.antt =====
-- How a cursor of a tile-native workspace moves by lanes and blocks.
use tt_wavelet.Common.{ℕ, ◌+◌, ◌-◌, ◌/◌, ◌%◌, ◌^◌, ◌<◌, ◌≡◌, refl, ap, arith, true}
use tt_wavelet.Common.Words.{u32}
use tt_wavelet.Kernel.Workspace.{
  cursor_at, advance_block, workspace_physical_index, row_at, block_at, cursor_at-eq, next_block-eq,
  physical-eq, physical_of,
}

-- The lanes up to the end of a block lie next to each other.
pub physical-lane :
    (n lane : ℕ)
    → n < 2 ^ 32 - 4096
    → n % 16 + lane < 16
    → u32 ((cursor_at n).physical + lane) ≡ workspace_physical_index true (n + lane)
physical-lane n lane hn hl = rw (cursor_at-eq n, physical-eq (n + lane)) (omega arith)

-- The block after that of a position.
pub advance_block-start :
    (n : ℕ)
    → n < 2 ^ 32 - 4096
    → advance_block (record (cursor_at n) { lane = 0 }) ≡ cursor_at (n - n % 16 + 16)
unfolding advance_block
advance_block-start n hn =
    rw (cursor_at-eq n)
      (next_block-eq n 0 (n - n % 16 + 16) (omega arith) (omega arith) (omega arith))

-- A lane further on in a block.
pub cursor_at-lane :
    (m lane : ℕ)
    → m % 16 ≡ 0
    → lane < 16
    → m + lane < 2 ^ 32 - 4096
    → record (cursor_at m) { lane = lane; physical = u32 ((cursor_at m).physical + lane) }
      ≡ cursor_at (m + lane)
cursor_at-lane m lane h0 hl hm =
    let g : (m + lane) / 1536 ≡ m / 1536 = omega arith in
    let r : row_at (m + lane) ≡ row_at m = omega arith in
    let b : block_at (m + lane) ≡ block_at m = omega arith in
    let l : (m + lane) % 16 ≡ lane = omega arith in
    let p : u32 (physical_of (m / 1536) (row_at m) (block_at m) (m % 16) + lane)
        ≡ physical_of (m / 1536) (row_at m) (block_at m) lane =
      omega arith in
    rw (cursor_at-eq m, cursor_at-eq (m + lane), g, r, b, l, p) refl

pub cursor_at-lane_eq : (n : ℕ) → (cursor_at n).lane ≡ n % 16
cursor_at-lane_eq n = ap (λ c. c.lane) (cursor_at-eq n)

pub cursor_at-physical : (n : ℕ) → (cursor_at n).physical ≡ workspace_physical_index true n
unfolding workspace_physical_index
cursor_at-physical n = refl
