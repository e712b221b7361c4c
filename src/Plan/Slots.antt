-- ===== src/Plan/Slots.antt =====
-- The use of the three workspace slots by the routes of the forward plan.
use tt_wavelet.Common.{◌≡◌, refl, ◌≢◌, ◌⊎◌, List, [], ◌∷◌, All, arith}
use tt_wavelet.Plan.{
  StepType, StaticStep, LiftingStepRoute, LiftingActiveStreams, RouteState, route_of_type,
  append_forward_route, append_forward_routes,
}

-- The two active streams and the free slot are three slots.
pub record Distinct (a : LiftingActiveStreams) : Type 0 where
  pub even_odd : a.even.slot ≢ a.odd.slot
  pub even_free : a.even.slot ≢ a.free
  pub odd_free : a.odd.slot ≢ a.free

-- The route overwrites neither of the streams that it reads; a swap moves no data.
abbrev pub WritesFree : LiftingStepRoute → Type 0
WritesFree r =
    (r.type ≡ StepType.swap) ⊎ ((r.output.slot ≢ r.source.slot) × (r.output.slot ≢ r.base.slot))

route_of_type-WritesFree :
    (t : StepType) (step : StaticStep) (s : RouteState)
    → step.type ≡ t
    → Distinct s.active
    → WritesFree (route_of_type t step s).0 × Distinct (route_of_type t step s).1.active
route_of_type-WritesFree StepType.swap step s e d = ground arith
route_of_type-WritesFree _ step s e d = ground arith

-- From three distinct slots on, every route of a scheme writes a slot that it does not read, and
-- the slots stay distinct.
pub append_forward_routes-WritesFree :
    (steps : List StaticStep) (s : RouteState)
    → Distinct s.active
    → All WritesFree (append_forward_routes steps s).0
      × Distinct (append_forward_routes steps s).1.active
unfolding append_forward_routes append_forward_route
append_forward_routes-WritesFree [] s d = (tt, d)
append_forward_routes-WritesFree (step ∷ steps) s d =
    let here = route_of_type-WritesFree step.type step s refl d in
    let later = append_forward_routes-WritesFree steps (route_of_type step.type step s).1 here.1 in
    ((here.0, later.0), later.1)
