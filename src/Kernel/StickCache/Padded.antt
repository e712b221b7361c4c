-- ===== src/Kernel/StickCache/Padded.antt =====
-- Reads of the padded signal through the cache: read_extended_value and read_padded_value, with the
-- evaluators of common/signal_extension.hpp at a reader that changes a state.
pub mod Extends
use tt_wavelet.Common.{ℕ, ◌-◌, ◌*◌, ◌≤◌, Bool, true, false, ◌&&◌, ltb, leb, if◌then◌else◌}
use tt_wavelet.Common.Int.{ℤ, pos, ◌-ℤ◌}
use tt_wavelet.Common.Words.{sub32, to_i32}
use tt_wavelet.Boundary.{BoundaryMode}
use tt_wavelet.Extension.{
  ExtendedIndex, AntireflectIndexI32, make_extended_index, make_antireflect_index_i32,
}
use tt_wavelet.Extension.Evaluate.{Floats, is_zero_value, is_sample, is_negated_sample}
use tt_wavelet.Kernel.StickCache.{Platform, Reader, read_source_value}

module _ (fl : Floats) (State : Type 0) (read : State → ℕ → fl.Float × State) where
  open fl use {Float, zero_f, two_f, negate, add_f, sub_f, mul_f, from_unsigned, from_signed}

  -- `edge + static_cast<float>(distance) * (edge - neighbor)`, reading both.
  abbrev pub smooth_from : ℕ → ℕ → ℕ → State → Float × State
  smooth_from source auxiliary distance s =
      let (edge, s1) = read s source in
      let (neighbor, s2) = read s1 auxiliary in
      (add_f edge (mul_f (from_unsigned distance) (sub_f edge neighbor)), s2)

  -- The affine value of antireflection, which reads the source and both edges.
  abbrev pub antireflect_from : ℕ → ℕ → ℤ → Bool → State → Float × State
  antireflect_from length source quotient reflected s =
      let (value, s1) = read s source in
      let (first, s2) = read s1 0 in
      let (last, s3) = read s2 (sub32 length 1) in
      let base : Float = if reflected then sub_f (mul_f two_f last) value else value in
      (add_f base (mul_f (mul_f (from_signed quotient) two_f) (sub_f last first)), s3)

  -- `evaluate_extended_index<Mode>`.
  pub evaluate_from : BoundaryMode → ExtendedIndex → ℕ → State → Float × State
  evaluate_from BoundaryMode.zero_pad e length s =
      if is_zero_value e.operation then (zero_f, s) else read s e.source_index
  evaluate_from BoundaryMode.antisymmetric e length s =
      let (source, s1) = read s e.source_index in
      (if is_negated_sample e.operation then negate source else source, s1)
  evaluate_from BoundaryMode.smooth e length s =
      if is_sample e.operation
      then read s e.source_index
      else smooth_from e.source_index e.auxiliary_index e.distance s
  evaluate_from BoundaryMode.antireflect e length s =
      if is_sample e.operation
      then read s e.source_index
      else antireflect_from length e.source_index e.period_quotient e.reflected s
  evaluate_from _ e length s = read s e.source_index

  pub evaluate_antireflect_from : AntireflectIndexI32 → ℕ → State → Float × State
  evaluate_antireflect_from e length s =
      if e.affine
      then antireflect_from length e.source_index e.period_quotient e.reflected s
      else read s e.source_index

-- `ARCH_WORMHOLE` and `ARCH_BLACKHOLE`.
pub data Arch : Type 0 where
  wormhole blackhole : Arch

module _ (fl : Floats) (platform : Platform fl) where
  -- `CachedSourceReader`, whose call reads through the cache.
  abbrev pub cached_source_reader : ℕ → Reader fl platform → ℕ → fl.Float × Reader fl platform
  cached_source_reader source_length r source_index =
      read_source_value fl platform r source_index source_length

  -- The int64_t path.
  abbrev pub read_canonical :
      BoundaryMode → Reader fl platform → ℕ → ℕ → ℕ → fl.Float × Reader fl platform
  read_canonical mode r input_length left_pad out_idx =
      let logical : ℤ = pos out_idx -ℤ pos left_pad in
      evaluate_from fl (Reader fl platform) (cached_source_reader input_length) mode
        (make_extended_index mode logical input_length) input_length r

  -- `static_cast<int32_t>(out_idx) - static_cast<int32_t>(left_pad)` is taken as an integer, since
  -- an overflow is undefined.
  pub read_extended_value :
      Arch → BoundaryMode → Reader fl platform → ℕ → ℕ → ℕ → fl.Float × Reader fl platform
  read_extended_value Arch.wormhole BoundaryMode.antireflect r input_length left_pad out_idx =
      let logical : ℤ = to_i32 out_idx -ℤ to_i32 left_pad in
      evaluate_antireflect_from fl (Reader fl platform) (cached_source_reader input_length)
        (make_antireflect_index_i32 logical input_length) input_length r
  read_extended_value arch mode r input_length left_pad out_idx =
      read_canonical mode r input_length left_pad out_idx

  pub read_padded_value :
      Arch → BoundaryMode → Reader fl platform → ℕ → ℕ → ℕ → fl.Float × Reader fl platform
  read_padded_value arch mode r input_length left_pad out_idx =
      if leb left_pad out_idx && ltb (out_idx - left_pad) input_length
      then read_source_value fl platform r (out_idx - left_pad) input_length
      else read_extended_value arch mode r input_length left_pad out_idx
