-- ===== src/Execution/Axis/Cone.antt =====
-- `build_axis_cone` succeeds on the plans that are made, and its records are consistent.
use tt_wavelet.Common.{
  ℕ, ◌-◌, ◌^◌, ◌≤◌, ◌<◌, max, ◌≡◌, refl, sym, subst, List, [], ◌∷◌, All, arith, ok,
}
use tt_wavelet.Plan.{StepType, LiftingStepRoute, LiftingForwardPlan}
use tt_wavelet.Plan.Chain.{Transition, Chain, done, route, taps}
use tt_wavelet.Execution.{IndexInterval, interval, interval_length, RequiredStreams}
use tt_wavelet.Execution.Intervals.{Inside, Within, shifted, translated-shifted}
use tt_wavelet.Execution.Backward.{
  Needs, Proper, Covered, nothing, covers, last_of, coefficient_count-taps, backpropagate-Covered,
}
use tt_wavelet.Execution.Axis.{
  AxisRouteRequirement, AxisConePlan, requirement, requirement_of, axis_routes, widest, back,
  all_aligned_32, build_axis_cone,
}

-- The transfers of a record lie in the streams required before its route; the output is the
-- stream required after it. A swap transfers nothing.
abbrev pub Consistent : StepType → AxisRouteRequirement → Type 0
Consistent StepType.predict q =
    Within q.source q.before.even × Within q.base q.before.odd × (q.output ≡ q.after.odd)
Consistent StepType.update q =
    Within q.source q.before.odd × Within q.base q.before.even × (q.output ≡ q.after.even)
Consistent StepType.scale_even q =
    Within q.source q.before.even × (q.base ≡ q.source) × (q.output ≡ q.after.even)
Consistent StepType.scale_odd q =
    Within q.source q.before.odd × (q.base ≡ q.source) × (q.output ≡ q.after.odd)
Consistent StepType.swap q =
    (q.source.begin ≡ q.source.end) × (q.base.begin ≡ q.base.end) × (q.output.begin ≡ q.output.end)

-- The records follow one another from the streams `s` to the streams `t`.
pub data Linked : RequiredStreams → List AxisRouteRequirement → RequiredStreams → Type 0 where
  ended : {s : RequiredStreams} → Linked s [] s
  linked :
      {t : RequiredStreams} {q : AxisRouteRequirement} {qs : List AxisRouteRequirement}
      → Consistent q.type q
      → Linked q.after qs t
      → Linked q.before (q ∷ qs) t

abbrev pub streams : IndexInterval → IndexInterval → RequiredStreams
streams e o = record { even = e; odd = o }

-- Ends far below the largest `size_t`.
abbrev IsLow : RequiredStreams → Type 0
IsLow s = (s.even.end < 2 ^ 63) × (s.odd.end < 2 ^ 63)

Needs-IsLow :
    (t : StepType) (r : LiftingStepRoute) (before after : RequiredStreams)
    → Needs t r after before
    → IsLow before
    → IsLow after
Needs-IsLow StepType.predict r before after n l = omega arith
Needs-IsLow StepType.update r before after n l = omega arith
Needs-IsLow StepType.scale_even r before after n l = omega arith
Needs-IsLow StepType.scale_odd r before after n l = omega arith
Needs-IsLow StepType.swap r before after n l = omega arith

requirement-Consistent :
    (t : StepType) (r : LiftingStepRoute) (e o e' o' : ℕ) (before after : RequiredStreams)
    → r.type ≡ t
    → Transition t r e o e' o'
    → IsLow before
    → Proper after
    → Needs t r after before
    → (q : AxisRouteRequirement) × (requirement_of t r before after ≡ ok q)
      × (q.before ≡ before)
      × (q.after ≡ after)
      × Consistent q.type q
requirement-Consistent StepType.predict r e o e' o' before after h t l pr n = (
  requirement r before after (shifted after.odd r.source_offset (taps r - 1))
      (shifted after.odd r.base_offset 0) after.odd,
  rw (
    coefficient_count-taps r t.4.padded,
    translated-shifted after.odd r.source_offset (taps r - 1) pr.1 (omega arith),
    translated-shifted after.odd r.base_offset 0 pr.1 (omega arith),
  ),
  refl,
  refl,
  rw h (n.1, n.2, refl),
)
requirement-Consistent StepType.update r e o e' o' before after h t l pr n = (
  requirement r before after (shifted after.even r.source_offset (taps r - 1))
      (shifted after.even r.base_offset 0) after.even,
  rw (
    coefficient_count-taps r t.4.padded,
    translated-shifted after.even r.source_offset (taps r - 1) pr.0 (omega arith),
    translated-shifted after.even r.base_offset 0 pr.0 (omega arith),
  ),
  refl,
  refl,
  rw h (n.1, n.2, refl),
)
requirement-Consistent StepType.scale_even r e o e' o' before after h t l pr n = (
  requirement r before after (shifted after.even r.source_offset 0)
      (shifted after.even r.source_offset 0) after.even,
  rw (translated-shifted after.even r.source_offset 0 pr.0 (omega arith)),
  refl,
  refl,
  rw h (n.0, refl, refl),
)
requirement-Consistent StepType.scale_odd r e o e' o' before after h t l pr n = (
  requirement r before after (shifted after.odd r.source_offset 0)
      (shifted after.odd r.source_offset 0) after.odd,
  rw (translated-shifted after.odd r.source_offset 0 pr.1 (omega arith)),
  refl,
  refl,
  rw h (n.1, refl, refl),
)
requirement-Consistent StepType.swap r e o e' o' before after h t l pr n = (
  requirement r before after (interval 0 0) (interval 0 0) (interval 0 0),
  refl,
  refl,
  refl,
  rw h (refl, refl, refl),
)

-- Both streams fit a workspace of m elements.
abbrev pub Room : ℕ → RequiredStreams → Type 0
Room m s = (interval_length s.even ≤ m) × (interval_length s.odd ≤ m)

widest-Room :
    (acc : ℕ) (s : RequiredStreams) (later : List RequiredStreams)
    → (acc ≤ widest acc s later) × Room (widest acc s later) s
unfolding widest
widest-Room acc s [] = omega arith
widest-Room acc s (t ∷ later) =
    omega
      (arith, widest-Room (max acc (max (interval_length s.even) (interval_length s.odd))) t later)

axis_routes-Linked :
    (rs : List LiftingStepRoute) (e o e' o' acc : ℕ) (first : RequiredStreams)
    (later : List RequiredStreams)
    → Chain e o rs e' o'
    → Covered rs first later
    → IsLow first
    → (qs : List AxisRouteRequirement) × (axis_routes rs first later ≡ ok qs)
      × Linked first qs (back first later)
      × All (λ q. Room (widest acc first later) q.before) qs
      × Room (widest acc first later) (back first later)
unfolding axis_routes widest
axis_routes-Linked [] e o e' o' acc first [] done nothing l = ([], refl, ended, tt, omega arith)
axis_routes-Linked [] e o e' o' acc first (after ∷ later) _ c l = elim c [ ]
axis_routes-Linked (r ∷ rs) e o e' o' acc first [] _ c l = elim c [ ]
axis_routes-Linked (r ∷ rs) e o e' o' acc first (after ∷ later) (route {e' = e₁} {o' = o₁} t chain)
      (covers n pr cov) l =
    let (q, same, b, a, con) =
      requirement-Consistent r.type r e o e₁ o₁ first after refl t l pr n in
    let wide = max acc (max (interval_length first.even) (interval_length first.odd)) in
    let (qs, rest, link, room, last) =
      axis_routes-Linked rs e₁ o₁ e' o' wide after later chain cov
        (Needs-IsLow r.type r first after n l) in
    (
      q ∷ qs,
      rw (same, rest),
      subst (λ (s : RequiredStreams). Linked s (q ∷ qs) (back after later)) b
          (linked con
            (subst (λ (s : RequiredStreams). Linked s qs (back after later)) (sym a) link)),
      (rw b (omega (arith, widest-Room wide after later)), room),
      last,
    )

back-last_of : (s : RequiredStreams) (later : List RequiredStreams) → back s later ≡ last_of s later
back-last_of s [] = refl
back-last_of s (t ∷ later) = back-last_of t later

-- On a plan whose routes form a chain of lengths, for intervals that have an element and lie in the
-- final streams, the cone is built. Its records lead from its initial to its final intervals with
-- all transfers in the required streams, the initial intervals lie in the split streams, the final
-- ones hold the intervals asked for, and the workspace has room for every stream on the way.
pub build_axis_cone-Linked :
    (plan : LiftingForwardPlan) (final_even final_odd : IndexInterval) (c : ℕ)
    → let split = plan.preprocess_layout.output in
      Chain split.even.length split.odd.length plan.routes plan.final_even_length
        plan.final_odd_length
      → split.even.length < 2 ^ 63
      → split.odd.length < 2 ^ 63
      → Inside final_even plan.final_even_length
      → Inside final_odd plan.final_odd_length
      → c < 2 ^ 64
      → (cone : AxisConePlan) × (build_axis_cone plan final_even final_odd c ≡ ok cone)
        × Linked
            (streams cone.initial_even cone.initial_odd)
            cone.routes
            (streams cone.final_even cone.final_odd)
        × Inside cone.initial_even split.even.length
        × Inside cone.initial_odd split.odd.length
        × Within final_even cone.final_even
        × Within final_odd cone.final_odd
        × All (λ q. Room cone.max_workspace_elements q.before) cone.routes
        × Room cone.max_workspace_elements (streams cone.final_even cone.final_odd)
unfolding build_axis_cone
build_axis_cone-Linked plan final_even final_odd c chain he ho ie io hc =
    let split = plan.preprocess_layout.output in
    let (first, later, same, inside, cov, we, wo) =
      backpropagate-Covered plan final_even final_odd c chain he ho ie io hc in
    let (qs, routes, link, room, last) =
      axis_routes-Linked plan.routes split.even.length split.odd.length plan.final_even_length
        plan.final_odd_length 0 first later chain cov (omega (arith, inside)) in
    (
      record {
        final_even = (back first later).even;
        final_odd = (back first later).odd;
        initial_even = first.even;
        initial_odd = first.odd;
        routes = qs;
        max_workspace_elements = widest 0 first later;
        base_transitions_aligned_32 = all_aligned_32 plan.routes;
      },
      rw (same, routes),
      link,
      inside.0,
      inside.1,
      rw (back-last_of first later) we,
      rw (back-last_of first later) wo,
      room,
      last,
    )
