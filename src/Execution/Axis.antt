-- ===== src/Execution/Axis.antt =====
-- The dependency cone of one axis: build_axis_cone of execution_plan.hpp.
pub mod Cone
use tt_wavelet.Common.{
  ℕ, ◌+◌, ◌-◌, ◌%◌, max, Bool, true, false, not, ◌&&◌, ◌||◌, List, [], ◌∷◌, ◌==◌, Result, ok, fatal,
  ◌>>=◌,
}
use tt_wavelet.Plan.{StepType, LiftingStepRoute, LiftingForwardPlan, is_predict_update_step}
use tt_wavelet.Execution.{
  IndexInterval, interval, interval_length, RequiredStreams, translated, coefficient_count,
  backpropagate_requirements,
}

pub record AxisRouteRequirement : Type 0 where
  pub type : StepType
  pub before : RequiredStreams
  pub after : RequiredStreams
  pub source : IndexInterval
  pub base : IndexInterval
  pub output : IndexInterval

pub record AxisConePlan : Type 0 where
  pub final_even : IndexInterval
  pub final_odd : IndexInterval
  pub initial_even : IndexInterval
  pub initial_odd : IndexInterval
  pub routes : List AxisRouteRequirement
  pub max_workspace_elements : ℕ
  pub base_transitions_aligned_32 : Bool

-- A requirement with its three transfers; `IndexInterval{}` is [0, 0).
abbrev pub requirement :
    LiftingStepRoute
    → RequiredStreams
    → RequiredStreams
    → IndexInterval
    → IndexInterval
    → IndexInterval
    → AxisRouteRequirement
requirement r before after source base output = record {
  type = r.type;
  before = before;
  after = after;
  source = source;
  base = base;
  output = output;
}

-- The body of the loop: a stencil, a scale of one stream, or a swap.
abbrev pub stencil_requirement :
    LiftingStepRoute
    → RequiredStreams
    → RequiredStreams
    → IndexInterval
    → Result AxisRouteRequirement
stencil_requirement r before after output = do
  k ← coefficient_count r
  source ← translated output r.source_offset (k - 1)
  base ← translated output r.base_offset 0
  ok (requirement r before after source base output)

abbrev pub scale_requirement :
    LiftingStepRoute
    → RequiredStreams
    → RequiredStreams
    → IndexInterval
    → Result AxisRouteRequirement
scale_requirement r before after output = do
  source ← translated output r.source_offset 0
  ok (requirement r before after source source output)

abbrev pub requirement_of :
    StepType → LiftingStepRoute → RequiredStreams → RequiredStreams → Result AxisRouteRequirement
requirement_of StepType.predict r before after = stencil_requirement r before after after.odd
requirement_of StepType.update r before after = stencil_requirement r before after after.even
requirement_of StepType.scale_even r before after = scale_requirement r before after after.even
requirement_of StepType.scale_odd r before after = scale_requirement r before after after.odd
requirement_of StepType.swap r before after =
    ok (requirement r before after (interval 0 0) (interval 0 0) (interval 0 0))

-- The loop; `before` and `later` are what is left of the vector `required`, which has one entry
-- more than there are routes.
pub axis_routes :
    List LiftingStepRoute
    → RequiredStreams
    → List RequiredStreams
    → Result (List AxisRouteRequirement)
axis_routes [] before later = ok []
axis_routes (r ∷ routes) before [] = fatal
axis_routes (r ∷ routes) before (after ∷ later) = do
  here ← requirement_of r.type r before after
  rest ← axis_routes routes after later
  ok (here ∷ rest)

-- `max_workspace_elements`, over the entries of `required`.
pub widest : ℕ → RequiredStreams → List RequiredStreams → ℕ
widest acc s [] = max acc (max (interval_length s.even) (interval_length s.odd))
widest acc s (t ∷ later) =
    widest (max acc (max (interval_length s.even) (interval_length s.odd))) t later

pub all_aligned_32 : List LiftingStepRoute → Bool
all_aligned_32 [] = true
all_aligned_32 (r ∷ routes) =
    (not (is_predict_update_step r.type) || r.base_offset % 32 == 0) && all_aligned_32 routes

-- `required.back()`.
abbrev pub back : RequiredStreams → List RequiredStreams → RequiredStreams
back s [] = s
back s (t ∷ later) = back t later

unfoldable pub build_axis_cone :
    LiftingForwardPlan → IndexInterval → IndexInterval → ℕ → Result AxisConePlan
build_axis_cone plan final_even final_odd closure_extent = do
  (first, later) ← backpropagate_requirements plan final_even final_odd closure_extent
  routes ← axis_routes plan.routes first later
  ok (record {
    final_even = (back first later).even;
    final_odd = (back first later).odd;
    initial_even = first.even;
    initial_odd = first.odd;
    routes = routes;
    max_workspace_elements = widest 0 first later;
    base_transitions_aligned_32 = all_aligned_32 plan.routes;
  })
