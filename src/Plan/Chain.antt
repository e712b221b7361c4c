-- ===== src/Plan/Chain.antt =====
-- The stream lengths along the routes of a forward plan, and the reads of each route.
use tt_wavelet.Common.{ℕ, zero, suc, ◌+◌, ◌-◌, ◌≤◌, ◌<◌, ◌^◌, ◌≡◌, refl, List, [], ◌∷◌, All, arith}
use tt_wavelet.Common.Words.{sub32}
use tt_wavelet.Plan.{
  StepType, StaticStep, LiftingStepRoute, RouteState, StreamState, k, StreamRef, StorageSlot,
  stencil_route, step_coeff_capacity, compute_step_geometry, route_of_type, append_forward_route,
  append_forward_routes,
}
use tt_wavelet.Plan.Geometry.{compute_step_geometry_reads}

-- The number of coefficients of a route: the capacity less the padding.
abbrev pub taps : LiftingStepRoute → ℕ
taps r = step_coeff_capacity - r.source_left_pad

-- A predict or update route has a coefficient, and where it has an output it reads in its streams.
pub record Stencil (r : LiftingStepRoute) : Type 0 where
  pub padded : r.source_left_pad < step_coeff_capacity
  pub source_fits :
      0 < r.output_length → r.source_offset + r.output_length + (taps r - 1) ≤ r.source_length
  pub base_fits : 0 < r.output_length → r.base_offset + r.output_length ≤ r.base_length
  pub output_fits : r.output_length ≤ r.base_length

-- What a route of a type takes the even and odd lengths e, o to.
abbrev pub Transition : StepType → LiftingStepRoute → ℕ → ℕ → ℕ → ℕ → Type 0
Transition StepType.predict r e o e' o' =
    (e ≡ r.source_length) × (o ≡ r.base_length) × (e' ≡ e) × (o' ≡ r.output_length) × Stencil r
Transition StepType.update r e o e' o' =
    (o ≡ r.source_length) × (e ≡ r.base_length) × (o' ≡ o) × (e' ≡ r.output_length) × Stencil r
Transition StepType.scale_even r e o e' o' =
    (e ≡ r.source_length) × (e' ≡ r.output_length) × (e' ≡ e) × (o' ≡ o) × (r.source_offset ≡ 0)
Transition StepType.scale_odd r e o e' o' =
    (o ≡ r.source_length) × (o' ≡ r.output_length) × (o' ≡ o) × (e' ≡ e) × (r.source_offset ≡ 0)
Transition StepType.swap r e o e' o' =
    (e ≡ r.source_length) × (o ≡ r.base_length) × (e' ≡ o) × (o' ≡ e)

-- The routes lead from the lengths e, o to the lengths e', o'.
pub data Chain : ℕ → ℕ → List LiftingStepRoute → ℕ → ℕ → Type 0 where
  done : {e o : ℕ} → Chain e o [] e o
  route :
      {e o e' o' e'' o'' : ℕ} {r : LiftingStepRoute} {rs : List LiftingStepRoute}
      → Transition r.type r e o e' o'
      → Chain e' o' rs e'' o''
      → Chain e o (r ∷ rs) e'' o''

-- The static assertions on a step.
abbrev pub StepBounds : StepType → ℕ → Type 0
StepBounds StepType.predict n = (0 < n) × (n ≤ step_coeff_capacity)
StepBounds StepType.update n = (0 < n) × (n ≤ step_coeff_capacity)
StepBounds StepType.scale_even n = n ≡ 1
StepBounds StepType.scale_odd n = n ≡ 1
StepBounds StepType.swap n = n ≡ 0

abbrev pub IsStatic : StaticStep → Type 0
IsStatic s = StepBounds s.type (k s)

-- Stream lengths that a cast to `int` keeps.
abbrev pub IsShort : RouteState → Type 0
IsShort s = (s.even_state.length < 2 ^ 31) × (s.odd_state.length < 2 ^ 31)

pad-taps : (n : ℕ) → 0 < n → n ≤ 17 → (sub32 17 n ≡ 17 - n) × (17 - (17 - n) ≡ n)
pad-taps n h b = (omega arith, omega arith)

predict-Stencil :
    (step : StaticStep) (a b : StreamRef) (free : StorageSlot) (source base : StreamState)
    → 0 < k step
    → k step ≤ step_coeff_capacity
    → source.length < 2 ^ 31
    → base.length < 2 ^ 31
    → Stencil (
        stencil_route step a b free source base
          (compute_step_geometry source step.shift (k step) base))
predict-Stencil step a b free source base hk hc hs hb =
    let p = pad-taps (k step) hk hc in
    let g = compute_step_geometry source step.shift (k step) base in
    let reads = λ (h : 0 < g.out_length).
      compute_step_geometry_reads source step.shift (k step) base hk hs hb h in
    record {
      padded = omega (arith, p);
      source_fits = λ h. omega (arith, p, reads h);
      base_fits = λ h. (reads h).1;
      output_fits = positive_or (g.out_length) base.length (λ h. omega (arith, reads h));
    }
  where
    positive_or : (n m : ℕ) → (0 < n → n ≤ m) → n ≤ m
    positive_or zero m h = omega arith
    positive_or (suc n) m h = h (omega arith)

module _ (step : StaticStep) (s : RouteState) (short : IsShort s) where
  route_of_type-Transition :
      (t : StepType)
      → step.type ≡ t
      → StepBounds t (k step)
      → let (r, s') = route_of_type t step s in
        Transition r.type r s.even_state.length s.odd_state.length s'.even_state.length
          s'.odd_state.length
        × IsShort s'
  route_of_type-Transition StepType.predict e b =
      let st = rw e at (
        predict-Stencil step s.active.even s.active.odd s.active.free s.even_state s.odd_state b.0
          b.1 short.0 short.1) in
      rw e ((refl, refl, refl, refl, st), (short.0, omega (arith, st.output_fits)))
  route_of_type-Transition StepType.update e b =
      let st = rw e at (
        predict-Stencil step s.active.odd s.active.even s.active.free s.odd_state s.even_state b.0
          b.1 short.1 short.0) in
      rw e ((refl, refl, refl, refl, st), (omega (arith, st.output_fits), short.1))
  route_of_type-Transition StepType.scale_even e b = rw e ((refl, refl, refl, refl, refl), short)
  route_of_type-Transition StepType.scale_odd e b = rw e ((refl, refl, refl, refl, refl), short)
  route_of_type-Transition StepType.swap e b = rw e ((refl, refl, refl, refl), (short.1, short.0))

-- The routes of a scheme form a chain of lengths: each route finds the streams that it expects, and
-- its reads stay in them.
pub append_forward_routes-Chain :
    (steps : List StaticStep) (s : RouteState)
    → IsShort s
    → All IsStatic steps
    → let (routes, end) = append_forward_routes steps s in
      Chain s.even_state.length s.odd_state.length routes end.even_state.length end.odd_state.length
unfolding append_forward_routes append_forward_route
append_forward_routes-Chain [] s short st = done
append_forward_routes-Chain (step ∷ steps) s short st =
    let here = route_of_type-Transition step s short step.type refl st.0 in
    route here.0 (append_forward_routes-Chain steps (route_of_type step.type step s).1 here.1 st.1)
