-- ===== src/Execution/Backward.antt =====
-- `backpropagate_requirements` succeeds on the plans that the planner makes, and what it requires
-- covers every read.
use tt_wavelet.Common.{ℕ, ◌-◌, ◌^◌, ◌<◌, ◌≡◌, refl, List, [], ◌∷◌, arith, ok, ==_iff}
use tt_wavelet.Plan.{StepType, LiftingStepRoute, LiftingForwardPlan, step_coeff_capacity}
use tt_wavelet.Plan.Chain.{Transition, Chain, done, route, taps}
use tt_wavelet.Execution.{
  IndexInterval, RequiredStreams, BackState, coefficient_count, required_before, validate_state,
  close_interval, step_back, back_through, backpropagate_requirements, hull,
}
use tt_wavelet.Execution.Intervals.{
  Inside, Within, shifted, translated-shifted, validate-Inside, hull-Inside, hull_left, hull_right,
  close-Inside,
}

-- What a route reads for the intervals `after` lies in the intervals `before`: the window of
-- source values, the base values, and what the route passes on.
abbrev pub Needs : StepType → LiftingStepRoute → RequiredStreams → RequiredStreams → Type 0
Needs StepType.predict r after before =
    Within after.even before.even
    × Within (shifted after.odd r.source_offset (taps r - 1)) before.even
    × Within (shifted after.odd r.base_offset 0) before.odd
Needs StepType.update r after before =
    Within after.odd before.odd
    × Within (shifted after.even r.source_offset (taps r - 1)) before.odd
    × Within (shifted after.even r.base_offset 0) before.even
Needs StepType.scale_even r after before =
    Within (shifted after.even r.source_offset 0) before.even × Within after.odd before.odd
Needs StepType.scale_odd r after before =
    Within after.even before.even × Within (shifted after.odd r.source_offset 0) before.odd
Needs StepType.swap r after before = Within after.odd before.even × Within after.even before.odd

abbrev pub InsideStreams : RequiredStreams → ℕ → ℕ → Type 0
InsideStreams s e o = Inside s.even e × Inside s.odd o

-- Both intervals have an element.
abbrev pub Proper : RequiredStreams → Type 0
Proper s = (s.even.begin < s.even.end) × (s.odd.begin < s.odd.end)

-- The requirements along the routes: `first` before them, `later` after each.
pub data Covered : List LiftingStepRoute → RequiredStreams → List RequiredStreams → Type 0 where
  nothing : {s : RequiredStreams} → Covered [] s []
  covers :
      {r : LiftingStepRoute} {rs : List LiftingStepRoute} {before after : RequiredStreams}
      {later : List RequiredStreams}
      → Needs r.type r after before
      → Proper after
      → Covered rs after later
      → Covered (r ∷ rs) before (after ∷ later)

-- `required.back()`.
abbrev pub last_of : RequiredStreams → List RequiredStreams → RequiredStreams
last_of first [] = first
last_of first (s ∷ later) = last_of s later

pub coefficient_count-taps :
    (r : LiftingStepRoute)
    → r.source_left_pad < step_coeff_capacity
    → coefficient_count r ≡ ok (taps r)
unfolding coefficient_count
coefficient_count-taps r h = ground arith

abbrev state : ℕ → ℕ → RequiredStreams → BackState
state e o s = record { even_length = e; odd_length = o; required = s }

-- One route, without the closure.
before-Needs :
    (t : StepType) (r : LiftingStepRoute) (e o e' o' : ℕ) (after : RequiredStreams)
    → Transition t r e o e' o'
    → e < 2 ^ 63
    → o < 2 ^ 63
    → InsideStreams after e' o'
    → (before : RequiredStreams) × (required_before t r (state e' o' after) ≡ ok (state e o before))
      × InsideStreams before e o
      × Needs t r after before
before-Needs StepType.predict r e o e' o' after (p, q, u, v, st) he ho (ie, io) =
    let source = shifted after.odd r.source_offset (taps r - 1) in
    let base = shifted after.odd r.base_offset 0 in
    let fits = st.source_fits (omega (arith, v)) in
    let base_fits = st.base_fits (omega (arith, v)) in
    let is : Inside source e = omega (arith, fits) in
    (
      record { even = hull after.even source; odd = base },
      rw
          (
            coefficient_count-taps r st.padded,
            translated-shifted after.odd r.source_offset (taps r - 1) io.0 (omega (arith, fits)),
            translated-shifted after.odd r.base_offset 0 io.0 (omega (arith, base_fits)),
          )
          (ground arith),
      (hull-Inside after.even source e (omega (arith, ie)) is, omega (arith, base_fits)),
      (hull_left after.even source ie.0, hull_right after.even source is.0, omega arith),
    )
before-Needs StepType.update r e o e' o' after (p, q, u, v, st) he ho (ie, io) =
    let source = shifted after.even r.source_offset (taps r - 1) in
    let base = shifted after.even r.base_offset 0 in
    let fits = st.source_fits (omega (arith, v)) in
    let base_fits = st.base_fits (omega (arith, v)) in
    let is : Inside source o = omega (arith, fits) in
    (
      record { even = base; odd = hull after.odd source },
      rw
          (
            coefficient_count-taps r st.padded,
            translated-shifted after.even r.base_offset 0 ie.0 (omega (arith, base_fits)),
            translated-shifted after.even r.source_offset (taps r - 1) ie.0 (omega (arith, fits)),
          )
          (ground arith),
      (omega (arith, base_fits), hull-Inside after.odd source o (omega (arith, io)) is),
      (hull_left after.odd source io.0, hull_right after.odd source is.0, omega arith),
    )
before-Needs StepType.scale_even r e o e' o' after (p, q, u, v, z) he ho (ie, io) = (
  record { even = shifted after.even r.source_offset 0; odd = after.odd },
  rw (translated-shifted after.even r.source_offset 0 ie.0 (omega arith)) (ground arith),
  (omega arith, omega arith),
  (omega arith, omega arith),
)
before-Needs StepType.scale_odd r e o e' o' after (p, q, u, v, z) he ho (ie, io) = (
  record { even = after.even; odd = shifted after.odd r.source_offset 0 },
  rw (translated-shifted after.odd r.source_offset 0 io.0 (omega arith)) (ground arith),
  (omega arith, omega arith),
  (omega arith, omega arith),
)
before-Needs StepType.swap r e o e' o' after (p, q, u, v) he ho (ie, io) = (
  record { even = after.odd; odd = after.even },
  ground arith,
  (omega arith, omega arith),
  (omega arith, omega arith),
)

-- Wider requirements serve as well.
Needs-mono :
    (t : StepType) (r : LiftingStepRoute) (after before wider : RequiredStreams)
    → Within before.even wider.even
    → Within before.odd wider.odd
    → Needs t r after before
    → Needs t r after wider
Needs-mono StepType.predict r after before wider a b n = omega arith
Needs-mono StepType.update r after before wider a b n = omega arith
Needs-mono StepType.scale_even r after before wider a b n = omega arith
Needs-mono StepType.scale_odd r after before wider a b n = omega arith
Needs-mono StepType.swap r after before wider a b n = omega arith

pub validate_state-InsideStreams :
    (e o : ℕ) (s : RequiredStreams) → InsideStreams s e o → validate_state (state e o s) ≡ ok tt
validate_state-InsideStreams e o s (a, b) =
    rw (validate-Inside s.even e a, validate-Inside s.odd o b)

module _ (c : ℕ) (hc : c < 2 ^ 64) where
  abbrev closed : ℕ → ℕ → RequiredStreams → RequiredStreams
  closed e o s = record { even = close_interval c s.even e; odd = close_interval c s.odd o }

  closed-InsideStreams :
      (e o : ℕ) (s : RequiredStreams)
      → InsideStreams s e o
      → InsideStreams (closed e o s) e o
        × Within s.even (closed e o s).even
        × Within s.odd (closed e o s).odd
  closed-InsideStreams e o s (a, b) =
      let p = close-Inside c s.even e hc a in
      let q = close-Inside c s.odd o hc b in ((p.0, q.0), p.1, q.1)

  step_back-Needs :
      (r : LiftingStepRoute) (e o e' o' : ℕ) (after : RequiredStreams)
      → Transition r.type r e o e' o'
      → e < 2 ^ 63
      → o < 2 ^ 63
      → InsideStreams after e' o'
      → (before : RequiredStreams) × (step_back c r (state e' o' after) ≡ ok (state e o before))
        × InsideStreams before e o
        × Needs r.type r after before
  unfolding step_back
  step_back-Needs r e o e' o' after t he ho i =
      let (before, same, inside, needs) = before-Needs r.type r e o e' o' after t he ho i in
      let (shut, wide_even, wide_odd) = closed-InsideStreams e o before inside in
      (
        closed e o before,
        rw (
          validate_state-InsideStreams e' o' after i,
          same,
          validate_state-InsideStreams e o (closed e o before) shut,
        ),
        shut,
        Needs-mono r.type r after before (closed e o before) wide_even wide_odd needs,
      )

  pub Transition-le :
      (t : StepType) (r : LiftingStepRoute) (e o e' o' : ℕ)
      → Transition t r e o e' o'
      → e < 2 ^ 63
      → o < 2 ^ 63
      → (e' < 2 ^ 63) × (o' < 2 ^ 63)
  Transition-le StepType.predict r e o e' o' (p, q, u, v, st) he ho = omega arith
  Transition-le StepType.update r e o e' o' (p, q, u, v, st) he ho = omega arith
  Transition-le StepType.scale_even r e o e' o' t he ho = omega arith
  Transition-le StepType.scale_odd r e o e' o' t he ho = omega arith
  Transition-le StepType.swap r e o e' o' t he ho = omega arith

  back_through-Covered :
      (rs : List LiftingStepRoute) (e o e' o' : ℕ) (final : RequiredStreams)
      → Chain e o rs e' o'
      → e < 2 ^ 63
      → o < 2 ^ 63
      → InsideStreams final e' o'
      → (first : RequiredStreams) × (later : List RequiredStreams) × (back_through c rs
            (state e' o' final)
          ≡ ok (state e o first, later))
        × InsideStreams first e o
        × Covered rs first later
        × (last_of first later ≡ final)
  unfolding back_through
  back_through-Covered [] e o e' o' final done he ho i = (final, [], refl, i, nothing, refl)
  back_through-Covered (r ∷ rs) e o e' o' final (route {e' = e₁} {o' = o₁} t chain) he ho i =
      let short = Transition-le r.type r e o e₁ o₁ t he ho in
      let (after, later, same, inside, cov, last) =
        back_through-Covered rs e₁ o₁ e' o' final chain short.0 short.1 i in
      let (before, here, inside', needs) = step_back-Needs r e o e₁ o₁ after t he ho inside in
      (
        before,
        after ∷ later,
        rw (same, here),
        inside',
        covers needs (inside.0.0, inside.1.0) cov,
        last,
      )

-- On a plan whose routes form a chain of lengths (as every plan that is made does), for intervals
-- that have an element and lie in the final streams, the backward propagation meets no fatal check.
-- The requirements lie in the initial streams, those before each route cover all that the route
-- reads for the ones after it, and the last ones cover the intervals asked for.
pub backpropagate-Covered :
    (plan : LiftingForwardPlan) (final_even final_odd : IndexInterval) (c : ℕ)
    → let split = plan.preprocess_layout.output in
      Chain split.even.length split.odd.length plan.routes plan.final_even_length
        plan.final_odd_length
      → split.even.length < 2 ^ 63
      → split.odd.length < 2 ^ 63
      → Inside final_even plan.final_even_length
      → Inside final_odd plan.final_odd_length
      → c < 2 ^ 64
      → (first : RequiredStreams) × (later : List RequiredStreams) × (backpropagate_requirements
            plan final_even final_odd c
          ≡ ok (first, later))
        × InsideStreams first split.even.length split.odd.length
        × Covered plan.routes first later
        × Within final_even (last_of first later).even
        × Within final_odd (last_of first later).odd
unfolding backpropagate_requirements
backpropagate-Covered plan final_even final_odd c chain he ho ie io hc =
    let split = plan.preprocess_layout.output in
    let e = plan.final_even_length in
    let o = plan.final_odd_length in
    let final : RequiredStreams = record { even = final_even; odd = final_odd } in
    let (shut, wide_even, wide_odd) = closed-InsideStreams c hc e o final (ie, io) in
    let (first, later, same, inside, cov, last) =
      back_through-Covered c hc plan.routes split.even.length split.odd.length e o
        (closed c hc e o final) chain he ho shut in
    (
      first,
      later,
      rw (
        validate_state-InsideStreams e o final (ie, io),
        same,
        (==_iff split.even.length _).1 refl,
        (==_iff split.odd.length _).1 refl,
      ),
      inside,
      cov,
      rw last wide_even,
      rw last wide_odd,
    )
