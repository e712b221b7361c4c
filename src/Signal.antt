-- ===== src/Signal.antt =====
-- Signal descriptors and the split into even and odd samples:
-- tt-wavelet/tt_wavelet/include/common/signal.hpp, padding.hpp, constants.hpp and
-- pad_split/layout.hpp. A `size_t` or `uint64_t` is a number that wraps at 2 ^ 64, a `uint32_t`
-- one that wraps at 2 ^ 32.
pub mod Rounding
pub mod Split
mod Examples
use tt_wavelet.Common.{ℕ, ◌+◌, ◌*◌, ◌/◌, ◌==◌, if◌then◌else◌}
use tt_wavelet.Common.Words.{u32, u64, sub64}
use tt_wavelet.Boundary.{BoundaryMode}

abbrev pub stick_width_default : ℕ
stick_width_default = 32

abbrev pub noc_alignment_bytes : ℕ
noc_alignment_bytes = 32

-- `sizeof(float)`.
abbrev pub float_bytes : ℕ
float_bytes = 4

unfoldable pub ceil_div : ℕ → ℕ → ℕ
ceil_div numerator denominator =
    if denominator == 0 then 0 else sub64 (u64 (numerator + denominator)) 1 / denominator

unfoldable pub round_up : ℕ → ℕ → ℕ
round_up value alignment =
    if alignment == 0 then value else u64 (ceil_div value alignment * alignment)

pub record SignalBuffer : Type 0 where
  pub dram_address : ℕ
  pub length : ℕ
  pub stick_width : ℕ
  pub element_size_bytes : ℕ

pub stick_count : SignalBuffer → ℕ
stick_count b = ceil_div b.length b.stick_width

pub stick_bytes : SignalBuffer → ℕ
stick_bytes b = u32 (b.stick_width * b.element_size_bytes)

pub aligned_stick_bytes : SignalBuffer → ℕ → ℕ
aligned_stick_bytes b alignment = u32 (round_up (stick_bytes b) alignment)

pub physical_nbytes : SignalBuffer → ℕ → ℕ
physical_nbytes b alignment = u64 (stick_count b * aligned_stick_bytes b alignment)

pub record Signal : Type 0 where
  pub even : SignalBuffer
  pub odd : SignalBuffer

unfoldable pub make_split_signal : SignalBuffer → ℕ → ℕ → ℕ → Signal
make_split_signal input source_length even_addr odd_addr = record {
  even = record input { dram_address = even_addr; length = ceil_div source_length 2 };
  odd = record input { dram_address = odd_addr; length = source_length / 2 };
}

pub record Pad1DConfig : Type 0 where
  pub mode : BoundaryMode
  pub left : ℕ
  pub right : ℕ

pub record PadSplit1DLayout : Type 0 where
  pub input : SignalBuffer
  pub pad_config : Pad1DConfig
  pub output : Signal

pub padded_length : PadSplit1DLayout → ℕ
padded_length l = u64 (u64 (l.input.length + l.pad_config.left) + l.pad_config.right)

unfoldable pub make_pad_split_1d_layout : SignalBuffer → ℕ → ℕ → Pad1DConfig → PadSplit1DLayout
make_pad_split_1d_layout input even_addr odd_addr config = record {
  input = input;
  pad_config = config;
  output =
      make_split_signal input (u64 (u64 (input.length + config.left) + config.right)) even_addr
        odd_addr;
}
