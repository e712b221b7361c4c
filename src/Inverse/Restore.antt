-- ===== src/Inverse/Restore.antt =====
-- What the inverse transform requires of the streams after each route.
use tt_wavelet.Common.{ℕ, ◌+◌, ◌-◌, ◌^◌, ◌≤◌, ◌<◌, ◌≡◌, refl, arith, true, ok}
use tt_wavelet.Plan.{StepType, LiftingStepRoute}
use tt_wavelet.Plan.Chain.{Transition, taps}
use tt_wavelet.Execution.{IndexInterval, interval, RequiredStreams, BackState, contains, hull}
use tt_wavelet.Execution.Intervals.{
  Inside, Within, shifted, translated-shifted, contains_iff, hull-Inside, hull_left, hull_right,
}
use tt_wavelet.Execution.Backward.{InsideStreams, coefficient_count-taps}
use tt_wavelet.Inverse.{reconstructable, required_after, subtract_offset}

-- A stencil route can be undone on the samples of its base that it keeps, and only on these.
abbrev pub Restorable : StepType → LiftingStepRoute → RequiredStreams → Type 0
Restorable StepType.predict r before =
    Within before.odd (interval r.base_offset (r.base_offset + r.output_length))
Restorable StepType.update r before =
    Within before.even (interval r.base_offset (r.base_offset + r.output_length))
Restorable _ r before = Unit {0}

-- To restore the samples `before` of a route from those `after` it, the inverse stencil reads the
-- samples of its output that stand at the same places, and the window of each in the source.
abbrev pub Restores : StepType → LiftingStepRoute → RequiredStreams → RequiredStreams → Type 0
Restores StepType.predict r before after =
    Within before.even after.even
    × Within before.odd (shifted after.odd r.base_offset 0)
    × Within (shifted after.odd r.source_offset (taps r - 1)) after.even
Restores StepType.update r before after =
    Within before.odd after.odd
    × Within before.even (shifted after.even r.base_offset 0)
    × Within (shifted after.even r.source_offset (taps r - 1)) after.odd
Restores StepType.scale_even r before after = before ≡ after
Restores StepType.scale_odd r before after = before ≡ after
Restores StepType.swap r before after = (before.even ≡ after.odd) × (before.odd ≡ after.even)

abbrev pub lowered : IndexInterval → ℕ → IndexInterval
lowered i offset = interval (i.begin - offset) (i.end - offset)

pub subtract_offset-lowered :
    (i : IndexInterval) (offset : ℕ)
    → i.begin < i.end
    → i.end < 2 ^ 64
    → offset ≤ i.begin
    → subtract_offset i offset ≡ ok (lowered i offset)
unfolding subtract_offset
subtract_offset-lowered i offset h b l = ground arith

abbrev pub state : ℕ → ℕ → RequiredStreams → BackState
state e o s = record { even_length = e; odd_length = o; required = s }

pub required_after-Restores :
    (t : StepType) (r : LiftingStepRoute) (e o e' o' : ℕ) (before : RequiredStreams)
    → Transition t r e o e' o'
    → e < 2 ^ 63
    → o < 2 ^ 63
    → InsideStreams before e o
    → Restorable t r before
    → (after : RequiredStreams) × (required_after t r (state e o before) ≡ ok (state e' o' after))
      × InsideStreams after e' o'
      × Restores t r before after
required_after-Restores StepType.predict r e o e' o' before (p, q, u, v, st) he ho (ie, io) w =
    let target = lowered before.odd r.base_offset in
    let source = shifted target r.source_offset (taps r - 1) in
    let some_output : 0 < r.output_length = omega (arith, io, w) in
    let fits = st.source_fits some_output in
    let base_fits = st.base_fits some_output in
    let is : Inside source e = omega (arith, fits, io, w) in
    let kept : contains (reconstructable r) before.odd ≡ true =
      (contains_iff (reconstructable r) before.odd io.0).1 (omega (arith, w, base_fits)) in
    (
      record { even = hull before.even source; odd = target },
      rw
          (
            kept,
            subtract_offset-lowered before.odd r.base_offset io.0 (omega (arith, io)) w.0,
            coefficient_count-taps r st.padded,
            translated-shifted target r.source_offset (taps r - 1) (omega (arith, io, w))
                (omega (arith, is)),
          )
          (ground arith),
      (
        hull-Inside before.even source e' (omega (arith, ie)) (omega (arith, is)),
        omega (arith, io, w),
      ),
      (hull_left before.even source ie.0, omega (arith, io, w), hull_right before.even source is.0),
    )
required_after-Restores StepType.update r e o e' o' before (p, q, u, v, st) he ho (ie, io) w =
    let target = lowered before.even r.base_offset in
    let source = shifted target r.source_offset (taps r - 1) in
    let some_output : 0 < r.output_length = omega (arith, ie, w) in
    let fits = st.source_fits some_output in
    let base_fits = st.base_fits some_output in
    let is : Inside source o = omega (arith, fits, ie, w) in
    let kept : contains (reconstructable r) before.even ≡ true =
      (contains_iff (reconstructable r) before.even ie.0).1 (omega (arith, w, base_fits)) in
    (
      record { even = target; odd = hull before.odd source },
      rw
          (
            kept,
            subtract_offset-lowered before.even r.base_offset ie.0 (omega (arith, ie)) w.0,
            coefficient_count-taps r st.padded,
            translated-shifted target r.source_offset (taps r - 1) (omega (arith, ie, w))
                (omega (arith, is)),
          )
          (ground arith),
      (
        omega (arith, ie, w),
        hull-Inside before.odd source o' (omega (arith, io)) (omega (arith, is)),
      ),
      (hull_left before.odd source io.0, omega (arith, ie, w), hull_right before.odd source is.0),
    )
required_after-Restores StepType.scale_even r e o e' o' before (p, q, u, v, z) he ho i w =
    (before, ground arith, (omega (arith, i), omega (arith, i)), refl)
required_after-Restores StepType.scale_odd r e o e' o' before (p, q, u, v, z) he ho i w =
    (before, ground arith, (omega (arith, i), omega (arith, i)), refl)
required_after-Restores StepType.swap r e o e' o' before (p, q, u, v) he ho i w = (
  record { even = before.odd; odd = before.even },
  ground arith,
  (omega (arith, i), omega (arith, i)),
  (refl, refl),
)
