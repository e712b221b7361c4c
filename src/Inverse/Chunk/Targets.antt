-- ===== src/Inverse/Chunk/Targets.antt =====
-- The stream samples that an inverse chunk restores are those of its output.
use tt_wavelet.Common.{ℕ, ◌+◌, ◌*◌, ◌^◌, ◌≤◌, ◌<◌, ◌↔◌, arith}
use tt_wavelet.Execution.{IndexInterval}
use tt_wavelet.Inverse.Chunk.Build.{target_of}

-- The targets of an output interval are the samples of the two streams that stand for it: sample k of
-- the even stream is the padded sample 2 k, that of the odd stream 2 k + 1, and both are a target
-- exactly where this padded sample belongs to the output.
pub target_of_samples :
    (pad : ℕ) (output : IndexInterval)
    → output.begin ≤ output.end
    → output.end + pad + 1 < 2 ^ 64
    → ((k : ℕ)
        → (((target_of pad output).even.begin ≤ k) × (k < (target_of pad output).even.end))
          ↔ ((output.begin + pad ≤ 2 * k) × (2 * k < output.end + pad)))
      × ((k : ℕ)
          → (((target_of pad output).odd.begin ≤ k) × (k < (target_of pad output).odd.end))
            ↔ ((output.begin + pad ≤ 2 * k + 1) × (2 * k + 1 < output.end + pad)))
target_of_samples pad output h b = (
  λ k. (λ p. (omega arith, omega arith), λ p. (omega arith, omega arith)),
  λ k. (λ p. (omega arith, omega arith), λ p. (omega arith, omega arith)),
)
