-- ===== src/Signal/Examples.antt =====
-- The theorems on signal.hpp and pad_split/layout.hpp at a concrete buffer.
use tt_wavelet.Common.{◌*◌, ◌%◌, ◌^◌, ◌<◌, ◌≤◌, ◌≡◌, refl, arith}
use tt_wavelet.Boundary.{BoundaryMode}
use tt_wavelet.Signal.{
  SignalBuffer, Pad1DConfig, round_up, ceil_div, stick_count, stick_bytes, aligned_stick_bytes,
  physical_nbytes, make_pad_split_1d_layout, padded_length,
}
use tt_wavelet.Signal.Rounding.{physical_nbytes_covers}
use tt_wavelet.Signal.Split.{Shares, make_pad_split_1d_layout-Shares}

abbrev buffer : SignalBuffer
buffer = record { dram_address = 4096; length = 70; stick_width = 32; element_size_bytes = 4 }

abbrev config : Pad1DConfig
config = record { mode = BoundaryMode.symmetric; left = 3; right = 3 }

round_up_test : round_up 70 32 ≡ 96
unfolding round_up ceil_div
round_up_test = refl

sticks-fit : stick_count buffer * aligned_stick_bytes buffer 32 < 2 ^ 64
unfolding stick_count aligned_stick_bytes stick_bytes ceil_div round_up
sticks-fit = omega arith

physical_nbytes_covers_example :
    (280 ≤ physical_nbytes buffer 32) × (aligned_stick_bytes buffer 32 % 32 ≡ 0)
physical_nbytes_covers_example =
    physical_nbytes_covers buffer 32 (omega arith) (omega arith) (omega arith) (omega arith)
      sticks-fit

make_pad_split_1d_layout-Shares_example :
    let l = make_pad_split_1d_layout buffer 8192 16384 config in
    (padded_length l ≡ 76) × Shares 76 l.output
make_pad_split_1d_layout-Shares_example =
    make_pad_split_1d_layout-Shares buffer 8192 16384 config (omega arith)
