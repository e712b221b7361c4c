-- ===== src/Plan.antt =====
-- The forward lifting plan: tt-wavelet/tt_wavelet/include/lifting/plan.hpp, with step.hpp and
-- static_scheme.hpp. A `size_t` is a number, an `int` an integer: a sum of two `int`s is the exact
-- one (an overflow is undefined in C++), and a cast to `int` or to `size_t` keeps the low bits.
mod Types
pub mod Geometry
pub mod Slots
pub mod Chain
pub mod Forward
pub mod Terminal
pub mod Schemes
mod Examples
unfoldable pub use Types.*
use tt_wavelet.Common.{
  ℕ, zero, suc, ◌+◌, ◌-◌, ◌*◌, ◌/◌, ◌^◌, min, Bool, true, false, not, ◌&&◌, ◌||◌, List, [], ◌∷◌,
  length, ltb, leb, ◌==◌, if◌then◌else◌, Result, ok, fatal, require, ◌>>=◌, ◌>>◌,
}
use tt_wavelet.Common.Int.{ℤ, pos, ◌+ℤ◌, ◌-ℤ◌, ltb_ℤ, min_ℤ, max_ℤ}
use tt_wavelet.Common.Words.{u32, u64, sub32, sub64, to_i32, to_u64}
use tt_wavelet.Boundary.{BoundaryMode}
use tt_wavelet.Signal.{
  SignalBuffer, Pad1DConfig, PadSplit1DLayout, make_pad_split_1d_layout, float_bytes,
}

unfoldable pub compute_step_geometry : StreamState → ℤ → ℕ → StreamState → StepGeometry
compute_step_geometry source kernel_shift k base =
    let conv_shift = source.shift +ℤ kernel_shift +ℤ to_i32 (min source.length k) -ℤ pos 1 in
    let conv_length = if leb k source.length then u64 (source.length - k + 1) else 0 in
    let out_shift = max_ℤ base.shift conv_shift in
    let out_end = min_ℤ (base.shift +ℤ to_i32 base.length) (conv_shift +ℤ to_i32 conv_length) in
    record {
      out_shift = out_shift;
      out_length = if ltb_ℤ out_shift out_end then to_u64 (out_end -ℤ out_shift) else 0;
      source_offset = to_u64 (out_shift -ℤ conv_shift);
      base_offset = to_u64 (out_shift -ℤ base.shift);
    }

-- What `append_forward_route` reads and updates besides the list of routes.
pub record RouteState : Type 0 where
  pub active : LiftingActiveStreams
  pub even_state : StreamState
  pub odd_state : StreamState

abbrev pub stencil_route :
    StaticStep
    → StreamRef
    → StreamRef
    → StorageSlot
    → StreamState
    → StreamState
    → StepGeometry
    → LiftingStepRoute
stencil_route step source base output source_state base_state g = record {
  type = step.type;
  source = source;
  base = base;
  output = workspace_output output;
  source_length = source_state.length;
  base_length = base_state.length;
  source_offset = g.source_offset;
  base_offset = g.base_offset;
  source_left_pad = sub32 step_coeff_capacity (k step);
  output_length = g.out_length;
}

abbrev pub scale_route : StaticStep → StreamRef → StorageSlot → StreamState → LiftingStepRoute
scale_route step stream output state = record {
  type = step.type;
  source = stream;
  base = stream;
  output = workspace_output output;
  source_length = state.length;
  base_length = state.length;
  source_offset = 0;
  base_offset = 0;
  source_left_pad = 0;
  output_length = state.length;
}

abbrev pub after_geometry : StepGeometry → StreamState
after_geometry g = record { shift = g.out_shift; length = g.out_length }

-- The branches of `append_forward_route`: the route that is pushed, and the state after it.
abbrev pub route_of_type : StepType → StaticStep → RouteState → LiftingStepRoute × RouteState
route_of_type StepType.predict step s =
    let g = compute_step_geometry s.even_state step.shift (k step) s.odd_state in
    (
      stencil_route step s.active.even s.active.odd s.active.free s.even_state s.odd_state g,
      record {
        active = record {
          even = s.active.even;
          odd = record { slot = s.active.free };
          free = s.active.odd.slot;
        };
        even_state = s.even_state;
        odd_state = after_geometry g;
      },
    )
route_of_type StepType.update step s =
    let g = compute_step_geometry s.odd_state step.shift (k step) s.even_state in
    (
      stencil_route step s.active.odd s.active.even s.active.free s.odd_state s.even_state g,
      record {
        active = record {
          even = record { slot = s.active.free };
          odd = s.active.odd;
          free = s.active.even.slot;
        };
        even_state = after_geometry g;
        odd_state = s.odd_state;
      },
    )
route_of_type StepType.scale_odd step s = (
  scale_route step s.active.odd s.active.free s.odd_state,
  record s {
    active = record {
      even = s.active.even;
      odd = record { slot = s.active.free };
      free = s.active.odd.slot;
    };
  },
)
route_of_type StepType.scale_even step s = (
  scale_route step s.active.even s.active.free s.even_state,
  record s {
    active = record {
      even = record { slot = s.active.free };
      odd = s.active.odd;
      free = s.active.even.slot;
    };
  },
)
route_of_type StepType.swap step s = (
  record {
    type = step.type;
    source = s.active.even;
    base = s.active.odd;
    output = workspace_output s.active.even.slot;
    source_length = s.even_state.length;
    base_length = s.odd_state.length;
    source_offset = 0;
    base_offset = 0;
    source_left_pad = 0;
    output_length = 0;
  },
  record {
    active = record s.active { even = s.active.odd; odd = s.active.even };
    even_state = s.odd_state;
    odd_state = s.even_state;
  },
)

-- `if constexpr (Step::type == …)`.
unfoldable pub append_forward_route : StaticStep → RouteState → LiftingStepRoute × RouteState
append_forward_route step s = route_of_type step.type step s

-- The recursion over the steps; the routes are in the order of their `push_back`.
unfoldable pub append_forward_routes :
    List StaticStep → RouteState → List LiftingStepRoute × RouteState
append_forward_routes [] s = ([], s)
append_forward_routes (step ∷ steps) s =
    let (route, s') = append_forward_route step s in
    let (routes, end) = append_forward_routes steps s' in (route ∷ routes, end)

-- `first.type != second.type`, for two scales.
abbrev pub scales_differ : StepType → StepType → Bool
scales_differ StepType.scale_even StepType.scale_odd = true
scales_differ StepType.scale_odd StepType.scale_even = true
scales_differ _ _ = false

abbrev pub final_storage : StepType → RouteOutputStorage
final_storage StepType.scale_even = RouteOutputStorage.final_even_dram
final_storage _ = RouteOutputStorage.final_odd_dram

abbrev pub to_final_dram : LiftingStepRoute → LiftingStepRoute
to_final_dram r = record r {
  output = record { storage = final_storage r.type; slot = r.output.slot };
}

-- The checks of `route_terminal_scales_to_final_dram` all stop the same way, so they are made on
-- the way along the list.
unfoldable pub route_terminal_scales_to_final_dram :
    List LiftingStepRoute → Result (List LiftingStepRoute)
route_terminal_scales_to_final_dram [] = fatal
route_terminal_scales_to_final_dram (r ∷ []) = fatal
route_terminal_scales_to_final_dram (first ∷ second ∷ []) = do
  require (
      is_scale_step first.type && is_scale_step second.type && scales_differ first.type second.type)
  ok (to_final_dram first ∷ to_final_dram second ∷ [])
route_terminal_scales_to_final_dram (r ∷ s ∷ t ∷ routes) = do
  require (not (is_scale_step r.type))
  rest ← route_terminal_scales_to_final_dram (s ∷ t ∷ routes)
  ok (r ∷ rest)

-- `LiftingActiveStreams active{}`, with the two states of the split streams.
abbrev pub initial_state : Scheme → PadSplit1DLayout → RouteState
initial_state scheme layout = record {
  active = record {
    even = record { slot = StorageSlot.slot_a };
    odd = record { slot = StorageSlot.slot_b };
    free = StorageSlot.scratch;
  };
  even_state = record { shift = scheme.delay_even; length = layout.output.even.length };
  odd_state = record { shift = scheme.delay_odd; length = layout.output.odd.length };
}

abbrev pub preprocess : Scheme → SignalBuffer → ℕ → ℕ → BoundaryMode → PadSplit1DLayout
preprocess scheme input even_addr odd_addr mode =
    let wavelet_pad = sub32 scheme.tap_size 1 in
    make_pad_split_1d_layout input even_addr odd_addr
      (record { mode = mode; left = wavelet_pad; right = wavelet_pad })

-- The plan that is returned: `end` is the state after the last route.
abbrev pub assemble_plan :
    Scheme
    → SignalBuffer
    → PadSplit1DLayout
    → RouteState
    → List LiftingStepRoute
    → LiftingForwardPlan
assemble_plan scheme input layout end routes = record {
  preprocess_layout = layout;
  routes = routes;
  final_even_length = end.even_state.length;
  final_odd_length = end.odd_state.length;
  final_even_shift = end.even_state.shift;
  final_odd_shift = end.odd_state.shift;
  output_length = sub64 (u64 (input.length + scheme.tap_size)) 1 / 2;
}

unfoldable pub make_forward_lifting_plan :
    Scheme → SignalBuffer → ℕ → ℕ → BoundaryMode → Result LiftingForwardPlan
make_forward_lifting_plan scheme input even_addr odd_addr mode = do
  require (input.element_size_bytes == float_bytes)
  require (leb input.length (2 ^ 32 - 1))
  let layout = preprocess scheme input even_addr odd_addr mode
  let (pushed, end) = append_forward_routes scheme.steps (initial_state scheme layout)
  routes ← route_terminal_scales_to_final_dram pushed
  ok (assemble_plan scheme input layout end routes)
