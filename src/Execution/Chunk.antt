-- ===== src/Execution/Chunk.antt =====
-- The plan of one chunk: terminal_scale_inline and the records of execution_plan.hpp.
-- `dependency_overhead`, a double that is only reported, is kept as the fraction that the code
-- divides.
pub mod Build
pub mod Run
use tt_wavelet.Common.{
  ℕ, zero, suc, ◌+◌, ◌-◌, ◌^◌, min, max, Bool, true, false, not, ◌&&◌, ◌||◌, List, [], ◌∷◌, Option,
  none, some, length, get_elem?, ltb, leb, ◌==◌, if◌then◌else◌, Result, ok, fatal, require, ◌>>=◌,
  ◌>>◌,
}
use tt_wavelet.Common.Int.{ℤ, pos, negsuc, leb_ℤ, ◌-ℤ◌}
use tt_wavelet.Common.Words.{u64, to_i64}
use tt_wavelet.Plan.{
  StepType, StorageSlot, StreamRef, RouteOutputStorage, RouteOutputRef, LiftingStepRoute,
  LiftingForwardPlan, is_predict_update_step, workspace_output,
}
use tt_wavelet.Execution.{
  IndexInterval, is_empty, interval_length, RequiredStreams, contains, translated,
  coefficient_count, backpropagate_requirements,
}

pub record StoredStream : Type 0 where
  pub slot : StorageSlot
  pub storage : IndexInterval

pub record TerminalScaleInline : Type 0 where
  pub predict_update_route_index : ℕ
  pub scale_type : StepType
  pub final_storage : RouteOutputStorage

pub record DependencyExtent : Type 0 where
  pub even_left : ℤ
  pub even_right : ℤ
  pub odd_left : ℤ
  pub odd_right : ℤ

pub record LwtStepRoute : Type 0 where
  pub type : StepType
  pub source : StreamRef
  pub base : StreamRef
  pub output : RouteOutputRef
  pub source_storage_length : ℕ
  pub base_storage_length : ℕ
  pub source_offset_elements : ℕ
  pub base_offset_elements : ℕ
  pub source_left_pad_elements : ℕ
  pub output_length : ℕ
  pub output_offset_elements : ℕ

-- A fraction; 0 / 1 for the 0.0 of an empty chunk.
pub record Overhead : Type 0 where
  pub excess : ℕ
  pub elements : ℕ

pub record LwtChunkPlan : Type 0 where
  pub final_even : IndexInterval
  pub final_odd : IndexInterval
  pub initial_even : IndexInterval
  pub initial_odd : IndexInterval
  pub descriptor : DependencyExtent
  pub routes : List LwtStepRoute
  pub max_workspace_elements : ℕ
  pub dependency_overhead : Overhead

-- The values of `enum class StepType`, by which types are compared.
abbrev pub type_code : StepType → ℕ
type_code StepType.predict = 0
type_code StepType.update = 1
type_code StepType.scale_even = 2
type_code StepType.scale_odd = 3
type_code StepType.swap = 4

-- The search of terminal_scale_inline: the route indices below the count, from the highest down.
unfoldable pub find_stencil : List LiftingStepRoute → ℕ → Option (ℕ × StepType)
find_stencil routes zero = none
find_stencil routes (suc index) = elim (get_elem? routes index) [
  | none ↦ none
  | some r ↦ elim (is_predict_update_step r.type) [
    | true ↦ some (index, r.type)
    | false ↦ find_stencil routes index
  ]
]

-- The routes from an index on.
unfoldable pub routes_from : ℕ → List LiftingStepRoute → List LiftingStepRoute
routes_from zero routes = routes
routes_from (suc n) [] = []
routes_from (suc n) (r ∷ routes) = routes_from n routes

-- The loop over the routes between the last stencil and the two terminal scales.
unfoldable pub follow_swaps : List LiftingStepRoute → Bool → Result Bool
follow_swaps [] final_even = ok final_even
follow_swaps (a ∷ []) final_even = ok final_even
follow_swaps (a ∷ b ∷ []) final_even = ok final_even
follow_swaps (a ∷ b ∷ c ∷ routes) final_even = do
  require (type_code a.type == type_code StepType.swap)
  follow_swaps (b ∷ c ∷ routes) (not final_even)

unfoldable pub any_of_type : StepType → List LiftingStepRoute → Bool
any_of_type t [] = false
any_of_type t (r ∷ routes) = type_code r.type == type_code t || any_of_type t routes

abbrev pub inline_of : ℕ → Bool → TerminalScaleInline
inline_of index final_even = record {
  predict_update_route_index = index;
  scale_type = if final_even then StepType.scale_even else StepType.scale_odd;
  final_storage =
      if final_even then RouteOutputStorage.final_even_dram else RouteOutputStorage.final_odd_dram;
}

unfoldable pub found_stencil : Option (ℕ × StepType) → Result (ℕ × StepType)
found_stencil none = fatal
found_stencil (some p) = ok p

unfoldable pub terminal_scale_inline : LiftingForwardPlan → Result TerminalScaleInline
terminal_scale_inline plan = do
  require (leb 3 (length plan.routes))
  (index, type) ← found_stencil (find_stencil plan.routes (length plan.routes - 2))
  final_even ←
      follow_swaps (routes_from (index + 1) plan.routes)
        (type_code type == type_code StepType.update)
  let inline = inline_of index final_even
  require (any_of_type inline.scale_type (routes_from (length plan.routes - 2) plan.routes))
  ok inline
