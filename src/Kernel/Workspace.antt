-- ===== src/Kernel/Workspace.antt =====
-- The order of the samples in a tile-native workspace: kernels/primitives/workspace_layout.hpp and
-- the sizes of device_protocol/lwt_config.hpp. A group of 1536 samples is 32 rows of three blocks
-- of 16 lanes, and it is stored as three narrow tiles, one for each block position.
pub mod Lanes
use native.Mathlib.Decide.{dec_lt}
use tt_wavelet.Common.{
  ℕ, zero, suc, ◌+◌, ◌-◌, ◌*◌, ◌/◌, ◌%◌, ◌^◌, ◌<◌, ◌≤◌, ◌≡◌, refl, sym, ◌∙◌, ap, arith, Bool, true,
  false, ◌==◌, if◌then◌else◌,
}
use tt_wavelet.Common.Words.{u32}

abbrev pub rows_per_group : ℕ
rows_per_group = 32

abbrev pub output_blocks_per_row : ℕ
output_blocks_per_row = 3

abbrev pub half_stick_elements : ℕ
half_stick_elements = 16

abbrev pub narrow_tile_elements : ℕ
narrow_tile_elements = rows_per_group * half_stick_elements

abbrev pub group_elements : ℕ
group_elements = rows_per_group * output_blocks_per_row * half_stick_elements

pub record WorkspaceIndexCursor : Type 0 where
  pub group : ℕ
  pub row : ℕ
  pub block : ℕ
  pub lane : ℕ
  pub physical : ℕ

-- `group * group_elements + block * narrow_tile_elements + row * block_elements + lane`.
abbrev pub physical_of : ℕ → ℕ → ℕ → ℕ → ℕ
physical_of group row block lane =
    u32 (group * group_elements + block * narrow_tile_elements + row * half_stick_elements + lane)

-- The constructor.
pub cursor_at : ℕ → WorkspaceIndexCursor
cursor_at logical_index =
    let group : ℕ = logical_index / group_elements in
    let group_index : ℕ = logical_index - group * group_elements in
    let row : ℕ = group_index / (output_blocks_per_row * half_stick_elements) in
    let row_index : ℕ = group_index - row * output_blocks_per_row * half_stick_elements in
    let block : ℕ = row_index / half_stick_elements in
    let lane : ℕ = row_index - block * half_stick_elements in
    record {
      group = group;
      row = row;
      block = block;
      lane = lane;
      physical = physical_of group row block lane;
    }

-- `++block` with its carries into `row` and `group`, which both ways of advancing have.
abbrev pub next_block : ℕ → ℕ → ℕ → ℕ → WorkspaceIndexCursor
next_block group row block lane =
    let block_end : Bool = u32 (block + 1) == output_blocks_per_row in
    let row_end : Bool = u32 (row + 1) == rows_per_group in
    let new_block : ℕ = if block_end then 0 else u32 (block + 1) in
    let new_row : ℕ = if block_end then (if row_end then 0 else u32 (row + 1)) else row in
    let new_group : ℕ = if block_end then (if row_end then u32 (group + 1) else group) else group in
    record {
      group = new_group;
      row = new_row;
      block = new_block;
      lane = lane;
      physical = physical_of new_group new_row new_block lane;
    }

pub advance : WorkspaceIndexCursor → WorkspaceIndexCursor
advance c =
    if u32 (c.lane + 1) == half_stick_elements
    then next_block c.group c.row c.block 0
    else record c { lane = u32 (c.lane + 1); physical = u32 (c.physical + 1) }

pub advance_block : WorkspaceIndexCursor → WorkspaceIndexCursor
advance_block c = next_block c.group c.row c.block c.lane

-- `workspace_physical_index<TileNative>`.
unfoldable pub workspace_physical_index : Bool → ℕ → ℕ
workspace_physical_index false logical_index = logical_index
workspace_physical_index true logical_index = (cursor_at logical_index).physical

-- The cursor at given coordinates, and the position they stand for.
abbrev pub place : ℕ → ℕ → ℕ → ℕ → WorkspaceIndexCursor
place group row block lane = record {
  group = group;
  row = row;
  block = block;
  lane = lane;
  physical = physical_of group row block lane;
}

abbrev position : ℕ → ℕ → ℕ → ℕ → ℕ
position group row block lane = group * 1536 + row * 48 + block * 16 + lane

cursor_at-place :
    (g r b l : ℕ)
    → r < 32
    → b < 3
    → l < 16
    → (n : ℕ) → n ≡ position g r b l
    → cursor_at n ≡ place g r b l
unfolding cursor_at
cursor_at-place g r b l hr hb hl n e =
    let eg : n / 1536 ≡ g = omega arith in
    let er : (n - g * 1536) / 48 ≡ r = omega arith in
    let eb : (n - g * 1536 - r * 3 * 16) / 16 ≡ b = omega arith in
    let el : n - g * 1536 - r * 3 * 16 - b * 16 ≡ l = omega arith in rw (eg, er, eb, el) refl

next_block-place :
    (g r b l : ℕ)
    → r < 32
    → b < 3
    → l < 16
    → (n : ℕ) → n ≡ position g r b l + 16
    → n < 2 ^ 32
    → next_block g r b l ≡ cursor_at n
next_block-place g r b l hr hb hl n e h = elim (dec_lt (b + 1) 3) [
  | yes lb ↦ rw (cursor_at-place g r (b + 1) l hr lb hl n (omega arith)) (ground arith)
  | no nb ↦ elim (dec_lt (r + 1) 32) [
    | yes lr ↦ rw (cursor_at-place g (r + 1) 0 l lr (omega arith) hl n (omega arith)) (ground arith)
    | no nr ↦
        rw (cursor_at-place (g + 1) 0 0 l (omega arith) (omega arith) hl n (omega arith))
          (ground arith)
  ]
]

module _ (n : ℕ) where
  abbrev pub row_at : ℕ
  row_at = (n % 1536) / 48

  abbrev pub block_at : ℕ
  block_at = (n % 48) / 16

  pub cursor_at-eq : cursor_at n ≡ place (n / 1536) row_at block_at (n % 16)
  cursor_at-eq =
      cursor_at-place (n / 1536) row_at block_at (n % 16) (omega arith) (omega arith) (omega arith)
        n (omega arith)

  pub next_block-eq :
      (l m : ℕ)
      → l < 16
      → m ≡ n - n % 16 + l + 16
      → m < 2 ^ 32
      → next_block (n / 1536) row_at block_at l ≡ cursor_at m
  next_block-eq l m hl e h =
      next_block-place (n / 1536) row_at block_at l (omega arith) (omega arith) hl m (omega arith) h

  -- The cursors of the next position and of the next block.
  pub advance-cursor_at :
      (n + 1 < 2 ^ 32 → advance (cursor_at n) ≡ cursor_at (n + 1))
      × (n + 16 < 2 ^ 32 → advance_block (cursor_at n) ≡ cursor_at (n + 16))
  unfolding advance advance_block
  advance-cursor_at =
      rw cursor_at-eq (step, λ h. next_block-eq (n % 16) (n + 16) (omega arith) (omega arith) h)
    where
      step :
          n + 1 < 2 ^ 32 → advance (place (n / 1536) row_at block_at (n % 16)) ≡ cursor_at (n + 1)
      step h = elim (dec_lt (n % 16 + 1) 16) [
        | yes l ↦
            rw
              (cursor_at-place (n / 1536) row_at block_at (n % 16 + 1) (omega arith) (omega arith) l
                (n + 1) (omega arith))
              (ground arith)
        | no m ↦ ground (arith, next_block-eq 0 (n + 1) (omega arith) (omega arith) h)
      ]

pub physical-eq :
    (n : ℕ)
    → workspace_physical_index true n ≡ physical_of (n / 1536) (row_at n) (block_at n) (n % 16)
unfolding workspace_physical_index
physical-eq n = ap (λ c. c.physical) (cursor_at-eq n)

-- The logical position at a physical one.
abbrev pub logical_of : ℕ → ℕ
logical_of p = p / 1536 * 1536 + (p % 512) / 16 * 48 + (p % 1536) / 512 * 16 + p % 16

-- The order of a tile-native workspace moves samples within their group only: each position below
-- 2 ^ 32 - 1536 has a physical index in its own group, from which it is found again, so no two
-- positions share one; and each physical index is that of a position.
pub workspace_physical_index-logical :
    (n : ℕ)
    → n < 2 ^ 32 - 1536
    → (workspace_physical_index true n / group_elements ≡ n / group_elements)
      × (logical_of (workspace_physical_index true n) ≡ n)
      × (workspace_physical_index true (logical_of n) ≡ n)
workspace_physical_index-logical n h =
    rw (physical-eq n, physical-eq (logical_of n)) (omega arith, omega arith, omega arith)

-- So no two positions of a workspace share a word.
pub workspace_physical_index-injective :
    (tile_native : Bool) (n m : ℕ)
    → n < 2 ^ 32 - 1536
    → m < 2 ^ 32 - 1536
    → workspace_physical_index tile_native n ≡ workspace_physical_index tile_native m
    → n ≡ m
unfolding workspace_physical_index
workspace_physical_index-injective false n m hn hm e = e
workspace_physical_index-injective true n m hn hm e =
    sym (workspace_physical_index-logical n hn).1
    ∙ ap logical_of e
    ∙ (workspace_physical_index-logical m hm).1

-- Advancing the cursor of a position gives the cursor of the next one, and advancing it by a block
-- the cursor of the position 16 further on, up to the largest 32-bit position: a loop that advances
-- a cursor visits what the constructor computes for each position.
pub cursor_at_advances :
    (n : ℕ)
    → n + 16 < 2 ^ 32
    → (advance (cursor_at n) ≡ cursor_at (n + 1))
      × (advance_block (cursor_at n) ≡ cursor_at (n + 16))
cursor_at_advances n h = ((advance-cursor_at n).0 (omega arith), (advance-cursor_at n).1 h)
