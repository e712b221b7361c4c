-- ===== src/Plan/Types.antt =====
-- The steps of a scheme, the routes and the plan: step.hpp, static_scheme.hpp, and the types of
-- plan.hpp.
use tt_wavelet.Common.{ℕ, ◌+◌, Bool, true, false, ◌||◌, List, [], ◌∷◌, length, if◌then◌else◌}
use tt_wavelet.Common.Int.{ℤ}
use tt_wavelet.Common.Words.{u32}
use tt_wavelet.Signal.{PadSplit1DLayout}

-- `StepType` of step.hpp; the constructors drop the prefix `k`.
pub data StepType : Type 0 where
  predict update scale_even scale_odd swap : StepType

-- `StaticStep<Type, Shift, CoeffBits...>`.
pub record StaticStep : Type 0 where
  pub type : StepType
  pub shift : ℤ
  pub coeff_bits : List ℕ

-- `k = sizeof...(CoeffBits)`.
abbrev pub k : StaticStep → ℕ
k s = length s.coeff_bits

-- The constants of a scheme class, and its `step<I>::type` in order; `num_steps` is their number.
pub record Scheme : Type 0 where
  pub tap_size : ℕ
  pub delay_even : ℤ
  pub delay_odd : ℤ
  pub steps : List StaticStep

unfoldable pub is_predict_update_step : StepType → Bool
is_predict_update_step StepType.predict = true
is_predict_update_step StepType.update = true
is_predict_update_step _ = false

unfoldable pub is_scale_step : StepType → Bool
is_scale_step StepType.scale_even = true
is_scale_step StepType.scale_odd = true
is_scale_step _ = false

pub is_executable_step : StaticStep → Bool
is_executable_step s = is_predict_update_step s.type || is_scale_step s.type

pub executable_step_count : List StaticStep → ℕ
executable_step_count [] = 0
executable_step_count (s ∷ steps) =
    u32 ((if is_executable_step s then 1 else 0) + executable_step_count steps)

-- lwt_config.hpp.
abbrev pub step_coeff_capacity : ℕ
step_coeff_capacity = 17

pub data StorageSlot : Type 0 where
  slot_a slot_b scratch : StorageSlot

-- The values of `enum class StorageSlot`, by which slots are compared.
abbrev pub slot_code : StorageSlot → ℕ
slot_code StorageSlot.slot_a = 0
slot_code StorageSlot.slot_b = 1
slot_code StorageSlot.scratch = 2

pub record StreamRef : Type 0 where
  pub slot : StorageSlot

pub data RouteOutputStorage : Type 0 where
  workspace_slot final_even_dram final_odd_dram : RouteOutputStorage

pub record RouteOutputRef : Type 0 where
  pub storage : RouteOutputStorage
  pub slot : StorageSlot

pub record LiftingStepRoute : Type 0 where
  pub type : StepType
  pub source : StreamRef
  pub base : StreamRef
  pub output : RouteOutputRef
  pub source_length : ℕ
  pub base_length : ℕ
  pub source_offset : ℕ
  pub base_offset : ℕ
  pub source_left_pad : ℕ
  pub output_length : ℕ

pub record LiftingActiveStreams : Type 0 where
  pub even : StreamRef
  pub odd : StreamRef
  pub free : StorageSlot

pub record LiftingForwardPlan : Type 0 where
  pub preprocess_layout : PadSplit1DLayout
  pub routes : List LiftingStepRoute
  pub final_even_length : ℕ
  pub final_odd_length : ℕ
  pub final_even_shift : ℤ
  pub final_odd_shift : ℤ
  pub output_length : ℕ

pub record StreamState : Type 0 where
  pub shift : ℤ
  pub length : ℕ

abbrev pub workspace_output : StorageSlot → RouteOutputRef
workspace_output slot = record { storage = RouteOutputStorage.workspace_slot; slot = slot }

-- The tuple that `compute_step_geometry` returns.
pub record StepGeometry : Type 0 where
  pub out_shift : ℤ
  pub out_length : ℕ
  pub source_offset : ℕ
  pub base_offset : ℕ
