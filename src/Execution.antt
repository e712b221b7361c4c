-- ===== src/Execution.antt =====
-- Dependency intervals of a forward plan:
-- tt-wavelet/tt_wavelet/include/lifting/execution_plan.hpp, up to backpropagate_requirements. The
-- children model the rest of that file: the axis cone, the chunks and the execution plan.
pub mod Intervals
pub mod Backward
pub mod Axis
pub mod Chunk
pub mod Doubling
pub mod Schedule
mod Examples
use tt_wavelet.Common.{
  ℕ, ◌+◌, ◌-◌, ◌*◌, ◌/◌, ◌^◌, min, max, Bool, ◌&&◌, ◌||◌, List, [], ◌∷◌, ltb, leb, ◌==◌,
  if◌then◌else◌, Result, ok, require, ◌>>=◌, ◌>>◌,
}
use tt_wavelet.Common.Words.{u64, sub64}
use tt_wavelet.Signal.{round_up}
use tt_wavelet.Plan.{StepType, LiftingStepRoute, LiftingForwardPlan, step_coeff_capacity}

-- `std::numeric_limits<size_t>::max()`.
abbrev pub size_max : ℕ
size_max = 2 ^ 64 - 1

pub record IndexInterval : Type 0 where
  pub begin : ℕ
  pub end : ℕ

abbrev pub interval : ℕ → ℕ → IndexInterval
interval b e = record { begin = b; end = e }

-- `empty()` and `length()`.
abbrev pub is_empty : IndexInterval → Bool
is_empty i = i.begin == i.end

abbrev pub interval_length : IndexInterval → ℕ
interval_length i = sub64 i.end i.begin

-- `AxisRequiredStreams`, which execution_detail calls `RequiredStreams`.
pub record RequiredStreams : Type 0 where
  pub even : IndexInterval
  pub odd : IndexInterval

unfoldable pub contains : IndexInterval → IndexInterval → Bool
contains outer inner = is_empty inner || (leb outer.begin inner.begin && leb inner.end outer.end)

unfoldable pub hull : IndexInterval → IndexInterval → IndexInterval
hull lhs rhs =
    if is_empty lhs
    then rhs
    else if is_empty rhs
    then lhs
    else interval (min lhs.begin rhs.begin) (max lhs.end rhs.end)

unfoldable pub translated : IndexInterval → ℕ → ℕ → Result IndexInterval
translated i left_offset right_expansion = if is_empty i then ok i else (do
  require (
      leb i.begin (sub64 size_max left_offset)
      && leb i.end (sub64 (sub64 size_max left_offset) right_expansion))
  ok (interval (u64 (i.begin + left_offset)) (u64 (u64 (i.end + left_offset) + right_expansion))))

unfoldable pub validate_interval : IndexInterval → ℕ → Result (Unit {0})
validate_interval i stream_length = do
  require (leb i.begin i.end)
  require (leb i.end stream_length)

unfoldable pub coefficient_count : LiftingStepRoute → Result ℕ
coefficient_count r = do
  require (leb r.source_left_pad step_coeff_capacity)
  require (ltb 0 (step_coeff_capacity - r.source_left_pad))
  ok (step_coeff_capacity - r.source_left_pad)

-- The local function of `backpropagate_requirements`.
unfoldable pub close_interval : ℕ → IndexInterval → ℕ → IndexInterval
close_interval closure_extent i stream_length =
    if closure_extent == 0 || is_empty i
    then i
    else (let rounded_end =
          if ltb (sub64 size_max (closure_extent - 1)) i.end
          then stream_length
          else round_up i.end closure_extent in
        interval (i.begin / closure_extent * closure_extent) (min rounded_end stream_length))

-- The variables of the backward loop: the stream lengths, and what is required of the streams.
pub record BackState : Type 0 where
  pub even_length : ℕ
  pub odd_length : ℕ
  pub required : RequiredStreams

-- The cases of the switch on `route.type`, from the state after the route to the one before it.
abbrev pub required_before : StepType → LiftingStepRoute → BackState → Result BackState
required_before StepType.predict r s = do
  require (s.even_length == r.source_length && s.odd_length == r.output_length)
  k ← coefficient_count r
  source ← translated s.required.odd r.source_offset (k - 1)
  base ← translated s.required.odd r.base_offset 0
  ok (record {
    even_length = r.source_length;
    odd_length = r.base_length;
    required = record { even = hull s.required.even source; odd = base };
  })
required_before StepType.update r s = do
  require (s.odd_length == r.source_length && s.even_length == r.output_length)
  k ← coefficient_count r
  base ← translated s.required.even r.base_offset 0
  source ← translated s.required.even r.source_offset (k - 1)
  ok (record {
    even_length = r.base_length;
    odd_length = r.source_length;
    required = record { even = base; odd = hull s.required.odd source };
  })
required_before StepType.scale_even r s = do
  require (s.even_length == r.output_length)
  source ← translated s.required.even r.source_offset 0
  ok (record s {
    even_length = r.source_length;
    required = record { even = source; odd = s.required.odd };
  })
required_before StepType.scale_odd r s = do
  require (s.odd_length == r.output_length)
  source ← translated s.required.odd r.source_offset 0
  ok (record s {
    odd_length = r.source_length;
    required = record { even = s.required.even; odd = source };
  })
required_before StepType.swap r s = do
  require (s.even_length == r.base_length && s.odd_length == r.source_length)
  ok (record {
    even_length = r.source_length;
    odd_length = r.base_length;
    required = record { even = s.required.odd; odd = s.required.even };
  })

abbrev pub validate_state : BackState → Result (Unit {0})
validate_state s = do
  validate_interval s.required.even s.even_length
  validate_interval s.required.odd s.odd_length

abbrev pub close_state : ℕ → BackState → BackState
close_state closure_extent s = record s {
  required = record {
    even = close_interval closure_extent s.required.even s.even_length;
    odd = close_interval closure_extent s.required.odd s.odd_length;
  };
}

-- One round of the loop.
unfoldable pub step_back : ℕ → LiftingStepRoute → BackState → Result BackState
step_back closure_extent r after = do
  validate_state after
  before ← required_before r.type r after
  let closed = close_state closure_extent before
  validate_state closed
  ok closed

-- The loop from the last route to the first: the state before the routes, and the requirements
-- after each route, in order.
unfoldable pub back_through :
    ℕ → List LiftingStepRoute → BackState → Result (BackState × List RequiredStreams)
back_through closure_extent [] final = ok (final, [])
back_through closure_extent (r ∷ routes) final = do
  (after, later) ← back_through closure_extent routes final
  before ← step_back closure_extent r after
  ok (before, after.required ∷ later)

abbrev pub final_state : LiftingForwardPlan → IndexInterval → IndexInterval → BackState
final_state plan final_even final_odd = record {
  even_length = plan.final_even_length;
  odd_length = plan.final_odd_length;
  required = record { even = final_even; odd = final_odd };
}

-- `required.front()` and the other entries of the vector `required`.
unfoldable pub backpropagate_requirements :
    LiftingForwardPlan
    → IndexInterval
    → IndexInterval
    → ℕ
    → Result (RequiredStreams × List RequiredStreams)
backpropagate_requirements plan final_even final_odd closure_extent = do
  validate_state (final_state plan final_even final_odd)
  (first, later) ←
      back_through closure_extent plan.routes
        (close_state closure_extent (final_state plan final_even final_odd))
  require (
      first.even_length == plan.preprocess_layout.output.even.length
      && first.odd_length == plan.preprocess_layout.output.odd.length)
  ok (first.required, later)
