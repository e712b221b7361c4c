-- ===== src/Plan/Examples.antt =====
-- The theorems on plan.hpp at a concrete scheme and input.
use tt_wavelet.Common.{◌≤◌, ◌+◌, ◌≡◌, ◌↔◌, arith, All, ok}
use tt_wavelet.Common.Int.{pos, negsuc, ◌+ℤ◌, ◌-ℤ◌, ◌≤ℤ◌, ◌<ℤ◌}
use tt_wavelet.Boundary.{BoundaryMode}
use tt_wavelet.Signal.{make_pad_split_1d_layout, make_split_signal, ceil_div}
use tt_wavelet.Plan.{
  StreamState, RouteState, preprocess, initial_state, compute_step_geometry, append_forward_routes,
  route_terminal_scales_to_final_dram,
}
use tt_wavelet.Plan.Schemes.{
  synthetic_k17, synthetic_k17-IsScheme, short_input, short_plan, short_plan-made,
}
use tt_wavelet.Plan.Geometry.{compute_step_geometry_positions, compute_step_geometry_reads}
use tt_wavelet.Plan.Slots.{WritesFree, Distinct, append_forward_routes-WritesFree}
use tt_wavelet.Plan.Terminal.{EndsInScales, route_terminal_scales_iff}
use tt_wavelet.Plan.Chain.{Chain, append_forward_routes-Chain}
use tt_wavelet.Plan.Forward.{Planned, make_forward_lifting_plan-Planned}

abbrev evens : StreamState
evens = record { shift = pos 8; length = 65 }

abbrev odds : StreamState
odds = record { shift = pos 9; length = 65 }

compute_step_geometry_positions_example :
    let g = compute_step_geometry evens (negsuc 7) 17 odds in
    ((g.out_shift ≤ℤ pos 20) × (pos 20 <ℤ g.out_shift +ℤ pos g.out_length)) ↔ (
      (pos 9 ≤ℤ pos 20)
      × (pos 20 <ℤ pos 9 +ℤ pos 65)
      × (pos 8 ≤ℤ pos 20 -ℤ negsuc 7 -ℤ pos 16)
      × (pos 20 -ℤ negsuc 7 <ℤ pos 8 +ℤ pos 65))
compute_step_geometry_positions_example =
    compute_step_geometry_positions evens (negsuc 7) 17 odds (omega arith) (omega arith)
      (omega arith) (pos 20)

compute_step_geometry_reads_example :
    let g = compute_step_geometry evens (negsuc 7) 17 odds in
    (g.source_offset + g.out_length + 16 ≤ 65)
    × (g.base_offset + g.out_length ≤ 65)
    × (pos 8 +ℤ negsuc 7 +ℤ pos (g.source_offset + 16) ≡ g.out_shift)
    × (pos 9 +ℤ pos g.base_offset ≡ g.out_shift)
unfolding compute_step_geometry ◌+ℤ◌ ◌-ℤ◌
compute_step_geometry_reads_example =
    compute_step_geometry_reads evens (negsuc 7) 17 odds (omega arith) (omega arith) (omega arith)
      (omega arith)

abbrev start : RouteState
start =
    initial_state synthetic_k17
      (preprocess synthetic_k17 short_input 8192 16384 BoundaryMode.symmetric)

start-Distinct : Distinct start.active
start-Distinct = record { even_odd = λ p. cc; even_free = λ p. cc; odd_free = λ p. cc }

append_forward_routes-WritesFree_example :
    All WritesFree (append_forward_routes synthetic_k17.steps start).0
    × Distinct (append_forward_routes synthetic_k17.steps start).1.active
append_forward_routes-WritesFree_example =
    append_forward_routes-WritesFree synthetic_k17.steps start start-Distinct

route_terminal_scales_iff_example :
    let pushed = (append_forward_routes synthetic_k17.steps start).0 in
    (route_terminal_scales_to_final_dram pushed ≡ ok short_plan.routes)
    ↔ EndsInScales pushed short_plan.routes
route_terminal_scales_iff_example =
    route_terminal_scales_iff (append_forward_routes synthetic_k17.steps start).0 short_plan.routes

append_forward_routes-Chain_example :
    let (routes, end) = append_forward_routes synthetic_k17.steps start in
    Chain 65 65 routes end.even_state.length end.odd_state.length
unfolding make_pad_split_1d_layout make_split_signal ceil_div
append_forward_routes-Chain_example =
    append_forward_routes-Chain synthetic_k17.steps start (omega arith, omega arith)
      synthetic_k17-IsScheme.steps_static

make_forward_lifting_plan-Planned_example : Planned synthetic_k17 short_input short_plan
make_forward_lifting_plan-Planned_example =
    make_forward_lifting_plan-Planned synthetic_k17 short_input 8192 16384 BoundaryMode.symmetric
      synthetic_k17-IsScheme (omega arith) short_plan short_plan-made
