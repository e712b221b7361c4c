-- ===== src/Extension.antt =====
-- Extended one-dimensional access: tt-wavelet/tt_wavelet/include/common/signal_extension.hpp.
-- An `int64_t` or `int32_t` index is an integer; a `uint32_t` or `uint64_t` is a number, and the
-- narrowing casts keep its low bits. A `uint64_t` expression of the source over values of
-- `uint32_t` (2 * length, 4 * length) stays below 2 ^ 35, so it is written without a reduction.
pub mod Period
pub mod Evaluate
pub mod Phases
pub mod Uniform
pub mod Symmetry
mod Examples
use tt_wavelet.Common.{
  ℕ, zero, suc, ◌+◌, ◌-◌, ◌*◌, ◌/◌, ◌%◌, ◌^◌, Bool, true, false, ltb, leb, ◌==◌, ◌&&◌,
  if◌then◌else◌,
}
use tt_wavelet.Common.Int.{
  ℤ, pos, negsuc, pos_part, quot_ℤ, rem_ℤ, ltb_ℤ, leb_ℤ, neg_ℕ, neg_ℤ, mirror, ◌+ℤ◌, ◌-ℤ◌, ◌*ℤ◌,
}
use tt_wavelet.Common.Words.{u32, sub32, sub64, to_u32, to_u64, to_i32, to_i64}
use tt_wavelet.Boundary.{BoundaryMode}

pub data ExtensionOperation : Type 0 where
  zero_value sample negated_sample smooth_line antireflection : ExtensionOperation

pub record ExtendedIndex : Type 0 where
  pub source_index : ℕ
  pub auxiliary_index : ℕ
  pub period_quotient : ℤ
  pub distance : ℕ
  pub operation : ExtensionOperation
  pub reflected : Bool

pub record SignedExtensionPeriod : Type 0 where
  pub quotient : ℤ
  pub remainder : ℕ

pub record AntireflectIndexI32 : Type 0 where
  pub source_index : ℕ
  pub period_quotient : ℤ
  pub reflected : Bool
  pub affine : Bool

pub record SmoothIndexI32 : Type 0 where
  pub source_index : ℕ
  pub auxiliary_index : ℕ
  pub distance : ℕ
  pub affine : Bool

-- The value-initialised descriptors, `{}`.
abbrev pub no_access : ExtendedIndex
no_access = record {
  source_index = 0;
  auxiliary_index = 0;
  period_quotient = pos 0;
  distance = 0;
  operation = ExtensionOperation.zero_value;
  reflected = false;
}

abbrev pub no_antireflect : AntireflectIndexI32
no_antireflect = record {
  source_index = 0;
  period_quotient = pos 0;
  reflected = false;
  affine = false;
}

abbrev pub no_smooth : SmoothIndexI32
no_smooth = record { source_index = 0; auxiliary_index = 0; distance = 0; affine = false }

-- A descriptor with `.source_index` and `.operation` given.
abbrev pub plain_access : ℕ → ExtensionOperation → ExtendedIndex
plain_access i op = record no_access { source_index = i; operation = op }

-- `index >= 0 && static_cast<uint64_t>(index) < length`.
abbrev pub in_signal : ℤ → ℕ → Bool
in_signal (pos i) length = ltb i length
in_signal (negsuc i) length = false

pub extension_positive_mod_i32 : ℤ → ℕ → ℕ
extension_positive_mod_i32 index period =
    if leb_ℤ (pos 0) index
    then to_u32 index % period
    else (let tail = sub32 0 (to_u32 index) % period in if tail == 0 then 0 else sub32 period tail)

-- `phase` after the correction of its sign.
abbrev pub symmetric_phase_i32 : ℤ → ℤ → ℤ
symmetric_phase_i32 index period =
    let phase = rem_ℤ index period in if ltb_ℤ phase (pos 0) then phase +ℤ period else phase

pub make_symmetric_index_i32 : ℤ → ℕ → ℕ
make_symmetric_index_i32 index length =
    if in_signal index length
    then to_u32 index
    else (let signed_length = to_i32 length in
        let period = pos 2 *ℤ signed_length in
        let phase = symmetric_phase_i32 index period in
        to_u32 (if ltb_ℤ phase signed_length then phase else period -ℤ pos 1 -ℤ phase))

pub decompose_extension_period : ℤ → ℕ → SignedExtensionPeriod
decompose_extension_period index period =
    if period == 0
    then record { quotient = pos 0; remainder = 0 }
    else (let signed_period = to_i64 period in
        let quotient = quot_ℤ index signed_period in
        let remainder = rem_ℤ index signed_period in
        if ltb_ℤ remainder (pos 0)
        then record {
          quotient = quotient -ℤ pos 1;
          remainder = to_u64 (remainder +ℤ signed_period);
        }
        else record { quotient = quotient; remainder = to_u64 remainder })

pub extension_positive_mod : ℤ → ℕ → ℕ
extension_positive_mod index length = u32 (decompose_extension_period index length).remainder

-- The branches of `make_extended_index<Mode>` past the two early returns, one for each mode.
pub extend_constant : ℤ → ℕ → ExtendedIndex
extend_constant index length =
    plain_access (if ltb_ℤ index (pos 0) then 0 else sub32 length 1) ExtensionOperation.sample

pub extend_periodic : ℤ → ℕ → ExtendedIndex
extend_periodic index length =
    plain_access (extension_positive_mod index length) ExtensionOperation.sample

pub extend_symmetric : ℤ → ℕ → ExtendedIndex
extend_symmetric index length =
    let period = 2 * length in
    let phase = (decompose_extension_period index period).remainder in
    plain_access (if ltb phase length then u32 phase else u32 (period - 1 - phase))
      ExtensionOperation.sample

pub extend_antisymmetric : ℤ → ℕ → ExtendedIndex
extend_antisymmetric index segment =
    let phase = (decompose_extension_period index (4 * segment)).remainder in
    if ltb phase segment
    then plain_access (u32 phase) ExtensionOperation.sample
    else if ltb phase (2 * segment)
    then plain_access (u32 (2 * segment - 1 - phase)) ExtensionOperation.negated_sample
    else if ltb phase (3 * segment)
    then plain_access (u32 (phase - 2 * segment)) ExtensionOperation.sample
    else plain_access (u32 (4 * segment - 1 - phase)) ExtensionOperation.negated_sample

-- `static_cast<uint64_t>(-(index + 1)) + 1U` at a negative index.
abbrev pub left_distance : ℤ → ℕ
left_distance index = to_u64 (neg_ℤ (index +ℤ pos 1)) + 1

pub extend_smooth : ℤ → ℕ → ExtendedIndex
extend_smooth index length =
    if length == 1
    then plain_access 0 ExtensionOperation.sample
    else (let left = ltb_ℤ index (pos 0) in
        record no_access {
          source_index = if left then 0 else sub32 length 1;
          auxiliary_index = if left then 1 else sub32 length 2;
          distance = if left then left_distance index else sub64 (to_u64 index) (sub32 length 1);
          operation = ExtensionOperation.smooth_line;
        })

pub extend_reflect : ℤ → ℕ → ExtendedIndex
extend_reflect index length =
    if length == 1
    then plain_access 0 ExtensionOperation.sample
    else (let last = sub32 length 1 in
        let period = 2 * last in
        let phase = (decompose_extension_period index period).remainder in
        plain_access (if leb phase last then u32 phase else u32 (period - phase))
          ExtensionOperation.sample)

pub extend_antireflect : ℤ → ℕ → ExtendedIndex
extend_antireflect index length =
    if length == 1
    then plain_access 0 ExtensionOperation.sample
    else (let last = sub32 length 1 in
        let period = 2 * last in
        let mapped = decompose_extension_period index period in
        let reflected = ltb last mapped.remainder in
        record no_access {
          source_index =
              if reflected then u32 (period - mapped.remainder) else u32 mapped.remainder;
          period_quotient = mapped.quotient;
          operation = ExtensionOperation.antireflection;
          reflected = reflected;
        })

-- `if constexpr (Mode == …)`.
pub extend_outside : BoundaryMode → ℤ → ℕ → ExtendedIndex
extend_outside BoundaryMode.zero_pad index length = no_access
extend_outside BoundaryMode.constant index length = extend_constant index length
extend_outside BoundaryMode.symmetric index length = extend_symmetric index length
extend_outside BoundaryMode.periodic index length = extend_periodic index length
extend_outside BoundaryMode.antisymmetric index length = extend_antisymmetric index length
extend_outside BoundaryMode.smooth index length = extend_smooth index length
extend_outside BoundaryMode.antireflect index length = extend_antireflect index length
extend_outside BoundaryMode.reflect index length = extend_reflect index length

-- `make_extended_index<Mode>`, and the overload that dispatches on a mode given at run time.
pub make_extended_index : BoundaryMode → ℤ → ℕ → ExtendedIndex
make_extended_index mode index length =
    if length == 0
    then no_access
    else if in_signal index length
    then plain_access (to_u32 index) ExtensionOperation.sample
    else extend_outside mode index length

-- The quotient and the remainder of `make_antireflect_index_i32`.
pub antireflect_period_i32 : ℤ → ℕ → SignedExtensionPeriod
antireflect_period_i32 index period =
    if leb_ℤ (pos 0) index
    then record { quotient = to_i32 (to_u32 index / period); remainder = to_u32 index % period }
    else (let magnitude = sub32 0 (to_u32 index) in
        let tail = magnitude % period in
        let whole = neg_ℤ (to_i32 (magnitude / period)) in
        if tail == 0
        then record { quotient = whole; remainder = 0 }
        else record { quotient = whole -ℤ pos 1; remainder = sub32 period tail })

pub make_antireflect_index_i32 : ℤ → ℕ → AntireflectIndexI32
make_antireflect_index_i32 index length =
    if length == 0
    then no_antireflect
    else if in_signal index length
    then record no_antireflect { source_index = to_u32 index }
    else if length == 1
    then no_antireflect
    else (let last = sub32 length 1 in
        let period = u32 (2 * last) in
        let mapped = antireflect_period_i32 index period in
        let reflected = ltb last mapped.remainder in
        record {
          source_index = if reflected then sub32 period mapped.remainder else mapped.remainder;
          period_quotient = mapped.quotient;
          reflected = reflected;
          affine = true;
        })

pub make_smooth_index_i32 : ℤ → ℕ → SmoothIndexI32
make_smooth_index_i32 index length =
    if length == 0
    then no_smooth
    else if in_signal index length
    then record no_smooth { source_index = to_u32 index }
    else if length == 1
    then no_smooth
    else (let left = ltb_ℤ index (pos 0) in
        record {
          source_index = if left then 0 else sub32 length 1;
          auxiliary_index = if left then 1 else sub32 length 2;
          distance = if left then sub32 0 (to_u32 index) else sub32 (to_u32 index) (sub32 length 1);
          affine = true;
        })
