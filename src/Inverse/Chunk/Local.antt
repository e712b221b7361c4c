-- ===== src/Inverse/Chunk/Local.antt =====
-- The local workspace of an inverse chunk: every route finds its data in the slots that it reads.
use tt_wavelet.Common.{
  ◌+◌, ◌-◌, ◌^◌, ◌<◌, ◌≡◌, ◌≢◌, sym, List, [], ◌∷◌, length, leb, arith, true, ok,
}
use tt_wavelet.Plan.{StorageSlot, LiftingStepRoute, is_scale_step, step_coeff_capacity}
use tt_wavelet.Plan.Chain.{taps}
use tt_wavelet.Execution.{IndexInterval}
use tt_wavelet.Execution.Intervals.{Within, shifted, translated-shifted}
use tt_wavelet.Execution.Backward.{coefficient_count-taps}
use tt_wavelet.Execution.Chunk.{StoredStream, LwtStepRoute}
use tt_wavelet.Execution.Chunk.Build.Storage.{StencilReads, local_offset-Within}
use tt_wavelet.Inverse.Restore.{lowered, subtract_offset-lowered}
use tt_wavelet.Inverse.Chunk.{inverse_entry, inverse_stencil}

-- The last two routes are scales.
abbrev pub TerminalScales : List LiftingStepRoute → Type 0
TerminalScales [] = Unit {0}
TerminalScales (r ∷ rs) =
    (leb (length rs) 1 ≡ true → is_scale_step r.type ≡ true) × TerminalScales rs

module _ (r : LiftingStepRoute) (output : IndexInterval) (source base : StoredStream)
    (free : StorageSlot) (after_base : IndexInterval)
    (padded : r.source_left_pad < step_coeff_capacity) (full : output.begin < output.end)
    (low : output.end < 2 ^ 63) (kept : Within output (shifted after_base r.base_offset 0))
    (source_in : Within (shifted after_base r.source_offset (taps r - 1)) source.storage)
    (base_in : Within after_base base.storage) (source_low : source.storage.end < 2 ^ 63)
    (base_low : base.storage.end < 2 ^ 63) where
  abbrev target : IndexInterval
  target = lowered output r.base_offset

  abbrev pushed_inverse : LwtStepRoute
  pushed_inverse =
      inverse_entry r output source base free r.source_left_pad
        (target.begin + r.source_offset - source.storage.begin) (target.begin - base.storage.begin)

  inverse_stencil-eq : inverse_stencil r output source base free ≡ ok pushed_inverse
  unfolding inverse_stencil
  inverse_stencil-eq = rw (
    subtract_offset-lowered output r.base_offset full (omega arith) (omega arith),
    coefficient_count-taps r padded,
    translated-shifted target r.source_offset (taps r - 1) (omega arith) (omega arith),
    local_offset-Within source.storage (shifted target r.source_offset (taps r - 1)) (omega arith)
        (omega arith, omega arith),
    local_offset-Within base.storage target (omega arith) (omega arith, omega arith),
  )

  pub inverse_stencil-reads :
      source.slot ≢ free
      → base.slot ≢ free
      → (inverse_stencil r output source base free ≡ ok pushed_inverse)
        × StencilReads pushed_inverse
  inverse_stencil-reads s b =
      (inverse_stencil-eq, (omega arith, omega arith, λ e. s (sym e), λ e. b (sym e)))
