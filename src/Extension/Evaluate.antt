-- ===== src/Extension/Evaluate.antt =====
-- The evaluators and the visitors of extended accesses: signal_extension.hpp. `float` and its
-- operations are a parameter: the theorems hold for any, so no law of rounding is assumed.
pub mod Bounds
pub mod Device
use tt_wavelet.Common.{ℕ, Bool, true, false, List, [], ◌∷◌, if◌then◌else◌}
use tt_wavelet.Common.Int.{ℤ}
use tt_wavelet.Common.Words.{sub32}
use tt_wavelet.Boundary.{BoundaryMode}
use tt_wavelet.Extension.{ExtensionOperation, ExtendedIndex, AntireflectIndexI32, SmoothIndexI32}

-- `float`, the constants of the source and the conversions from `uint64_t` and `int64_t`.
pub record Floats : Type 1 where
  pub Float : Type 0
  pub zero_f : Float
  pub two_f : Float
  pub negate : Float → Float
  pub add_f : Float → Float → Float
  pub sub_f : Float → Float → Float
  pub mul_f : Float → Float → Float
  pub from_unsigned : ℕ → Float
  pub from_signed : ℤ → Float

-- `operation == kZero`, `== kSample` and `== kNegatedSample`.
abbrev pub is_zero_value : ExtensionOperation → Bool
is_zero_value ExtensionOperation.zero_value = true
is_zero_value _ = false

abbrev pub is_sample : ExtensionOperation → Bool
is_sample ExtensionOperation.sample = true
is_sample _ = false

abbrev pub is_negated_sample : ExtensionOperation → Bool
is_negated_sample ExtensionOperation.negated_sample = true
is_negated_sample _ = false

module _ (fl : Floats) where
  open fl use {Float, zero_f, two_f, negate, add_f, sub_f, mul_f, from_unsigned, from_signed}

  -- `edge + static_cast<float>(distance) * (edge - neighbor)`.
  abbrev pub smooth_value : (ℕ → Float) → ℕ → ℕ → ℕ → Float
  smooth_value read source auxiliary distance =
      add_f (read source) (mul_f (from_unsigned distance) (sub_f (read source) (read auxiliary)))

  -- `base + (static_cast<float>(period_quotient) * 2.0F) * (last - first)`.
  abbrev pub antireflect_value : (ℕ → Float) → ℕ → ℕ → ℤ → Bool → Float
  antireflect_value read length source quotient reflected =
      add_f
        (if reflected
          then sub_f (mul_f two_f (read (sub32 length 1))) (read source)
          else read source)
        (mul_f (mul_f (from_signed quotient) two_f) (sub_f (read (sub32 length 1)) (read 0)))

  -- The switch on `extended.operation`.
  abbrev pub evaluate_operation : ExtensionOperation → ExtendedIndex → ℕ → (ℕ → Float) → Float
  evaluate_operation ExtensionOperation.zero_value e length read = zero_f
  evaluate_operation ExtensionOperation.sample e length read = read e.source_index
  evaluate_operation ExtensionOperation.negated_sample e length read = negate (read e.source_index)
  evaluate_operation ExtensionOperation.smooth_line e length read =
      smooth_value read e.source_index e.auxiliary_index e.distance
  evaluate_operation ExtensionOperation.antireflection e length read =
      antireflect_value read length e.source_index e.period_quotient e.reflected

  unfoldable pub evaluate_extended_index : ExtendedIndex → ℕ → (ℕ → Float) → Float
  evaluate_extended_index e length read = evaluate_operation e.operation e length read

  -- `evaluate_extended_index<Mode>`, for the device kernels.
  unfoldable pub evaluate_extended_index_in : BoundaryMode → ExtendedIndex → ℕ → (ℕ → Float) → Float
  evaluate_extended_index_in BoundaryMode.zero_pad e length read =
      if is_zero_value e.operation then zero_f else read e.source_index
  evaluate_extended_index_in BoundaryMode.antisymmetric e length read =
      if is_negated_sample e.operation then negate (read e.source_index) else read e.source_index
  evaluate_extended_index_in BoundaryMode.smooth e length read =
      if is_sample e.operation
      then read e.source_index
      else smooth_value read e.source_index e.auxiliary_index e.distance
  evaluate_extended_index_in BoundaryMode.antireflect e length read =
      if is_sample e.operation
      then read e.source_index
      else antireflect_value read length e.source_index e.period_quotient e.reflected
  evaluate_extended_index_in _ e length read = read e.source_index

  unfoldable pub evaluate_antireflect_index_i32 : AntireflectIndexI32 → ℕ → (ℕ → Float) → Float
  evaluate_antireflect_index_i32 e length read =
      if e.affine
      then antireflect_value read length e.source_index e.period_quotient e.reflected
      else read e.source_index

  pub evaluate_smooth_index_i32 : SmoothIndexI32 → (ℕ → Float) → Float
  evaluate_smooth_index_i32 e read =
      if e.affine
      then smooth_value read e.source_index e.auxiliary_index e.distance
      else read e.source_index

-- The calls of `consume`, in order.
abbrev pub visit_operation : ExtensionOperation → ExtendedIndex → ℕ → List ℕ
visit_operation ExtensionOperation.zero_value e length = []
visit_operation ExtensionOperation.sample e length = e.source_index ∷ []
visit_operation ExtensionOperation.negated_sample e length = e.source_index ∷ []
visit_operation ExtensionOperation.smooth_line e length = e.source_index ∷ e.auxiliary_index ∷ []
visit_operation ExtensionOperation.antireflection e length =
    e.source_index ∷ 0 ∷ sub32 length 1 ∷ []

unfoldable pub visit_extended_source_indices : ExtendedIndex → ℕ → List ℕ
visit_extended_source_indices e length = visit_operation e.operation e length

-- `visit_extended_source_indices<Mode>`.
unfoldable pub visit_extended_source_indices_in : BoundaryMode → ExtendedIndex → ℕ → List ℕ
visit_extended_source_indices_in BoundaryMode.zero_pad e length =
    if is_zero_value e.operation then [] else e.source_index ∷ []
visit_extended_source_indices_in BoundaryMode.smooth e length =
    e.source_index ∷ (if is_sample e.operation then [] else e.auxiliary_index ∷ [])
visit_extended_source_indices_in BoundaryMode.antireflect e length =
    e.source_index ∷ (if is_sample e.operation then [] else 0 ∷ sub32 length 1 ∷ [])
visit_extended_source_indices_in _ e length = e.source_index ∷ []

unfoldable pub visit_antireflect_source_indices_i32 : AntireflectIndexI32 → ℕ → List ℕ
visit_antireflect_source_indices_i32 e length =
    e.source_index ∷ (if e.affine then 0 ∷ sub32 length 1 ∷ [] else [])

pub visit_smooth_source_indices_i32 : SmoothIndexI32 → List ℕ
visit_smooth_source_indices_i32 e =
    e.source_index ∷ (if e.affine then e.auxiliary_index ∷ [] else [])
