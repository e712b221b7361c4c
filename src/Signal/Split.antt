-- ===== src/Signal/Split.antt =====
-- The even and odd streams of a split signal: make_split_signal and make_pad_split_1d_layout.
use tt_wavelet.Common.{ℕ, ◌+◌, ◌*◌, ◌^◌, ◌≤◌, ◌<◌, ◌≡◌, ◌↔◌, refl, arith}
use tt_wavelet.Common.Words.{u64}
use tt_wavelet.Signal.{
  SignalBuffer, Signal, Pad1DConfig, make_split_signal, padded_length, make_pad_split_1d_layout,
}
use tt_wavelet.Signal.Rounding.{ceil_div-eq}

-- The streams share out the samples: even[k] stands for sample 2 k and odd[k] for 2 k + 1, so each
-- has an element k exactly where the source has that sample.
abbrev pub Shares : ℕ → Signal → Type 0
Shares n s =
    (s.even.length + s.odd.length ≡ n)
    × ((k : ℕ) → (k < s.even.length) ↔ (2 * k < n))
    × ((k : ℕ) → (k < s.odd.length) ↔ (2 * k + 1 < n))

pub make_split_signal-Shares :
    (input : SignalBuffer) (n even_addr odd_addr : ℕ)
    → n + 2 ≤ 2 ^ 64
    → Shares n (make_split_signal input n even_addr odd_addr)
unfolding make_split_signal
make_split_signal-Shares input n even_addr odd_addr h = rw (ceil_div-eq n 2 (omega arith) h) (
  omega arith,
  λ k. (λ p. omega arith, λ p. omega arith),
  λ k. (λ p. omega arith, λ p. omega arith),
)

-- The layout splits the padded signal: input.length + left + right samples.
pub make_pad_split_1d_layout-Shares :
    (input : SignalBuffer) (even_addr odd_addr : ℕ) (c : Pad1DConfig)
    → input.length + c.left + c.right + 2 ≤ 2 ^ 64
    → let l = make_pad_split_1d_layout input even_addr odd_addr c in
      (padded_length l ≡ input.length + c.left + c.right)
      × Shares (input.length + c.left + c.right) l.output
unfolding make_pad_split_1d_layout padded_length
make_pad_split_1d_layout-Shares input even_addr odd_addr c h =
    rw whole (refl, make_split_signal-Shares input _ even_addr odd_addr h)
  where
    whole : u64 (u64 (input.length + c.left) + c.right) ≡ input.length + c.left + c.right
    whole = omega arith
