-- ===== src/Inverse/Propagate.antt =====
-- The forward propagation of the inverse requirements either succeeds or meets a route that cannot be
-- undone on what is asked of it.
use native.Mathlib.Decide.{dec_le}
use tt_wavelet.Common.{
  ℕ, ◌+◌, ◌^◌, ◌<◌, ◌≡◌, ◌⊎◌, inl, inr, refl, List, [], ◌∷◌, arith, Bool-cases, false, ==_iff, ok,
  fatal,
}
use tt_wavelet.Plan.{StepType, LiftingStepRoute, LiftingForwardPlan}
use tt_wavelet.Plan.Chain.{Transition, Chain, done, route}
use tt_wavelet.Execution.{IndexInterval, interval, RequiredStreams, contains}
use tt_wavelet.Execution.Intervals.{Inside, Within, contains_iff}
use tt_wavelet.Execution.Backward.{
  InsideStreams, Proper, validate_state-InsideStreams, Transition-le,
}
use tt_wavelet.Inverse.{
  reconstructable, required_after, step_on, propagate_through, propagate_requirements,
}
use tt_wavelet.Inverse.Restore.{Restorable, Restores, state, required_after-Restores}

-- Both intervals have an element, and their ends are far from the largest number.
abbrev pub Settled : RequiredStreams → Type 0
Settled s = Proper s × (s.even.end < 2 ^ 63) × (s.odd.end < 2 ^ 63)

-- The requirements along the routes, from `first` before them: every route can be undone, and what is
-- required after it is enough.
pub data Undone : List LiftingStepRoute → RequiredStreams → List RequiredStreams → Type 0 where
  finished : {s : RequiredStreams} → Undone [] s []
  undo :
      {r : LiftingStepRoute} {rs : List LiftingStepRoute} {before after : RequiredStreams}
      {later : List RequiredStreams}
      → Restores r.type r before after
      → Settled after
      → Undone rs after later
      → Undone (r ∷ rs) before (after ∷ later)

-- Some route cannot be undone on what the routes before it require.
pub data Blocked : List LiftingStepRoute → RequiredStreams → Type 0 where
  here :
      {r : LiftingStepRoute} {rs : List LiftingStepRoute} {before : RequiredStreams}
      → ¬ Restorable r.type r before
      → Blocked (r ∷ rs) before
  further :
      {r : LiftingStepRoute} {rs : List LiftingStepRoute} {before after : RequiredStreams}
      → Restores r.type r before after
      → Blocked rs after
      → Blocked (r ∷ rs) before

Within-cases : (inner outer : IndexInterval) → Within inner outer ⊎ (¬ Within inner outer)
Within-cases inner outer = elim (dec_le outer.begin inner.begin) [
  | no n ↦ inr (λ w. n w.0)
  | yes b ↦ elim (dec_le inner.end outer.end) [ no n ↦ inr (λ w. n w.1) | yes e ↦ inl (b, e) ]
]

Restorable-cases :
    (t : StepType) (r : LiftingStepRoute) (s : RequiredStreams)
    → Restorable t r s ⊎ (¬ Restorable t r s)
Restorable-cases StepType.predict r s = Within-cases s.odd _
Restorable-cases StepType.update r s = Within-cases s.even _
Restorable-cases StepType.scale_even r s = inl tt
Restorable-cases StepType.scale_odd r s = inl tt
Restorable-cases StepType.swap r s = inl tt

not_kept :
    (r : LiftingStepRoute) (i : IndexInterval)
    → i.begin < i.end
    → ¬ Within i (interval r.base_offset (r.base_offset + r.output_length))
    → contains (reconstructable r) i ≡ false
not_kept r i h n = elim (Bool-cases (contains (reconstructable r) i)) [
  | inr discarded ↦ discarded
  | inl kept ↦ absurd (n (omega (arith, (contains_iff (reconstructable r) i h).0 kept)))
]

required_after-refused :
    (t : StepType) (r : LiftingStepRoute) (e o e' o' : ℕ) (before : RequiredStreams)
    → Transition t r e o e' o'
    → Proper before
    → ¬ Restorable t r before
    → required_after t r (state e o before) ≡ fatal
required_after-refused StepType.predict r e o e' o' before (p, q, _, _, _) (pe, po) n =
    rw (not_kept r before.odd po n) (ground arith)
required_after-refused StepType.update r e o e' o' before (p, q, _, _, _) (pe, po) n =
    rw (not_kept r before.even pe n) (ground arith)
required_after-refused StepType.scale_even r e o e' o' before t pr n = absurd (n tt)
required_after-refused StepType.scale_odd r e o e' o' before t pr n = absurd (n tt)
required_after-refused StepType.swap r e o e' o' before t pr n = absurd (n tt)

module _ (r : LiftingStepRoute) (e o e' o' : ℕ) (before : RequiredStreams)
    (t : Transition r.type r e o e' o') (he : e < 2 ^ 63) (ho : o < 2 ^ 63)
    (i : InsideStreams before e o) where
  step_on-Restores :
      Restorable r.type r before
      → (after : RequiredStreams) × (step_on r (state e o before) ≡ ok (state e' o' after))
        × InsideStreams after e' o'
        × Restores r.type r before after
  unfolding step_on
  step_on-Restores w =
      let (after, same, inside, restores) =
        required_after-Restores r.type r e o e' o' before t he ho i w in
      (
        after,
        rw (
          validate_state-InsideStreams e o before i,
          same,
          validate_state-InsideStreams e' o' after inside,
        ),
        inside,
        restores,
      )

  step_on-refused : ¬ Restorable r.type r before → step_on r (state e o before) ≡ fatal
  unfolding step_on
  step_on-refused n = rw (
    validate_state-InsideStreams e o before i,
    required_after-refused r.type r e o e' o' before t (i.0.0, i.1.0) n,
  )

-- The two ways in which the loop may end.
abbrev Ends : List LiftingStepRoute → ℕ → ℕ → ℕ → ℕ → RequiredStreams → Type 0
Ends rs e o e' o' first =
    ((later : List RequiredStreams) × (last : RequiredStreams) × (propagate_through rs
          (state e o first)
        ≡ ok (later, state e' o' last))
      × Undone rs first later)
    ⊎ ((propagate_through rs (state e o first) ≡ fatal) × Blocked rs first)

propagate_through-Ends :
    (rs : List LiftingStepRoute) (e o e' o' : ℕ) (first : RequiredStreams)
    → Chain e o rs e' o'
    → e < 2 ^ 63
    → o < 2 ^ 63
    → InsideStreams first e o
    → Ends rs e o e' o' first
unfolding propagate_through
propagate_through-Ends [] e o e' o' first done he ho i = inl ([], first, refl, finished)
propagate_through-Ends (r ∷ rs) e o e' o' first (route {e' = e₁} {o' = o₁} t chain) he ho i =
    elim (Restorable-cases r.type r first) [
      | inr n ↦ inr (rw (step_on-refused r e o e₁ o₁ first t he ho i n) refl, here n)
      | inl w ↦
          let (after, same, inside, restores) = step_on-Restores r e o e₁ o₁ first t he ho i w in
          let short = Transition-le 0 (omega arith) r.type r e o e₁ o₁ t he ho in
          elim (propagate_through-Ends rs e₁ o₁ e' o' after chain short.0 short.1 inside) [
            | inl (later, last, rest, undone) ↦ inl (
              after ∷ later,
              last,
              rw (same, rest) refl,
              undo restores
                  (
                    (inside.0.0, inside.1.0),
                    omega (arith, inside, short),
                    omega (arith, inside, short),
                  )
                  undone,
            )
            | inr (stops, blocked) ↦ inr (rw (same, stops) refl, further restores blocked)
          ]
    ]

-- On a plan whose routes form a chain of lengths, for target intervals that have an element and lie in
-- the split streams, the propagation either returns requirements from which every route can be undone
-- up to the targets, or stops because a route discards a sample of its base that is asked for.
pub propagate_requirements-Undone :
    (plan : LiftingForwardPlan) (target_even target_odd : IndexInterval)
    → let split = plan.preprocess_layout.output in
      let target : RequiredStreams = record { even = target_even; odd = target_odd } in
      Chain split.even.length split.odd.length plan.routes plan.final_even_length
        plan.final_odd_length
      → split.even.length < 2 ^ 63
      → split.odd.length < 2 ^ 63
      → Inside target_even split.even.length
      → Inside target_odd split.odd.length
      → ((later : List RequiredStreams) × (propagate_requirements plan target_even target_odd
            ≡ ok later)
          × Undone plan.routes target later)
        ⊎ ((propagate_requirements plan target_even target_odd ≡ fatal)
            × Blocked plan.routes target)
unfolding propagate_requirements
propagate_requirements-Undone plan te to chain he ho ie io =
    let split = plan.preprocess_layout.output in
    let target : RequiredStreams = record { even = te; odd = to } in
    let valid = validate_state-InsideStreams split.even.length split.odd.length target (ie, io) in
    elim (propagate_through-Ends plan.routes split.even.length split.odd.length
      plan.final_even_length plan.final_odd_length target chain he ho (ie, io)) [
        | inl (later, last, same, undone) ↦ inl (
          later,
          rw
              (
                valid,
                same,
                (==_iff plan.final_even_length _).1 refl,
                (==_iff plan.final_odd_length _).1 refl,
              )
              refl,
          undone,
        )
        | inr (stops, blocked) ↦ inr (rw (valid, stops) refl, blocked)
      ]
