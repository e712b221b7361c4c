-- ===== src/Inverse/Chunk/Steps.antt =====
-- The loop of the inverse build_chunk, round by round.
use tt_wavelet.Common.{
  ℕ, ◌+◌, ◌-◌, ◌≤◌, ◌≡◌, refl, sym, subst, List, [], ◌∷◌, All, arith, Bool, true, false, Result, ok,
  fatal,
}
use tt_wavelet.Plan.{StepType, LiftingStepRoute, is_scale_step}
use tt_wavelet.Plan.Chain.{Stencil, Transition}
use tt_wavelet.Execution.{RequiredStreams}
use tt_wavelet.Execution.Chunk.{LwtStepRoute}
use tt_wavelet.Execution.Chunk.Build.{ChunkState, after_predict, after_update}
use tt_wavelet.Execution.Chunk.Build.Storage.{Sound, Holds, local_offset-Within}
use tt_wavelet.Inverse.Restore.{Restores}
use tt_wavelet.Inverse.Propagate.{Settled}
use tt_wavelet.Inverse.Chunk.{inverse_entry, inverse_scale, unless_terminal, inverse_step}
use tt_wavelet.Execution.Chunk.Run.{Arithmetic, Slots, run_routes}
use tt_wavelet.Execution.Chunk.Build.Contents.{Samples, Stores, Stored-kept}
use tt_wavelet.Inverse.Chunk.Values.{
  restored_before, predict_output, update_output, scale_even_output, scale_odd_output,
}
use tt_wavelet.Inverse.Chunk.Local.{inverse_stencil-reads}

-- The result of one round: the routes that it pushes, and a state that holds `before`. Run on slots
-- that have the streams after the route, the pushed routes leave the streams before it.
abbrev pub Goes :
    {V : Type 0}
    → Arithmetic V
    → (Samples V → Samples V)
    → Result (List LwtStepRoute × ChunkState)
    → ChunkState
    → RequiredStreams
    → Type 0
Goes {V = V} a restored result s before =
    (pushed : List LwtStepRoute) × (end : ChunkState) × (result ≡ ok (pushed, end))
    × Holds end before
    × All (Sound end.max_workspace_elements) pushed
    × (s.max_workspace_elements ≤ end.max_workspace_elements)
    × ((m : Slots V) (v : Samples V)
        → Stores m s v
        → Stores (run_routes a pushed m) end (restored v))

module _ {V : Type 0} (a : Arithmetic V) (r : LiftingStepRoute) (before after : RequiredStreams)
    (s : ChunkState) (settled : Settled before) (holds : Holds s after) where
  inverse_step-predict :
      r.type ≡ StepType.predict
      → Stencil r
      → Restores StepType.predict r before after
      → Goes a
          (restored_before a StepType.predict false r)
          (inverse_step StepType.predict false r before s)
          s
          before
  inverse_step-predict h st n =
      let (eq, reads) =
        inverse_stencil-reads r before.odd s.active_even s.active_odd s.free_slot after.odd
          st.padded settled.0.1 settled.2 n.1 (omega (arith, n.2, holds.even)) holds.odd
          holds.even_low holds.odd_low holds.even_free holds.odd_free in
      (
        inverse_entry r before.odd s.active_even s.active_odd s.free_slot r.source_left_pad
              (before.odd.begin - r.base_offset + r.source_offset - s.active_even.storage.begin)
              (before.odd.begin - r.base_offset - s.active_odd.storage.begin)
            ∷ [],
        after_predict before s,
        rw eq refl,
        record {
          even = omega (arith, n.0, holds.even);
          odd = omega arith;
          even_low = holds.even_low;
          odd_low = settled.2;
          even_size = omega (arith, holds.even_size);
          odd_size = omega arith;
          even_odd = holds.even_free;
          even_free = holds.even_odd;
          odd_free = λ p. holds.odd_free (sym p);
        },
        (
          record {
            reads = rw h reads;
            source_fits = omega (arith, holds.even_size);
            base_fits = omega (arith, holds.odd_size);
            output_fits = omega arith;
          },
          tt,
        ),
        omega arith,
        λ m v stores. record {
          even =
              Stored-kept a m
                (inverse_entry r before.odd s.active_even s.active_odd s.free_slot r.source_left_pad
                  (before.odd.begin - r.base_offset + r.source_offset - s.active_even.storage.begin)
                  (before.odd.begin - r.base_offset - s.active_odd.storage.begin))
                s.active_even v.even holds.even_free stores.even;
          odd =
              predict_output a m r before.odd s.active_even s.active_odd s.free_slot after.odd
                settled.0.1 settled.2 n.1 (omega (arith, n.2, holds.even)) holds.odd v.even v.odd
                stores.even stores.odd h;
        },
      )

  inverse_step-update :
      r.type ≡ StepType.update
      → Stencil r
      → Restores StepType.update r before after
      → Goes a
          (restored_before a StepType.update false r)
          (inverse_step StepType.update false r before s)
          s
          before
  inverse_step-update h st n =
      let (eq, reads) =
        inverse_stencil-reads r before.even s.active_odd s.active_even s.free_slot after.even
          st.padded settled.0.0 settled.1 n.1 (omega (arith, n.2, holds.odd)) holds.even
          holds.odd_low holds.even_low holds.odd_free holds.even_free in
      (
        inverse_entry r before.even s.active_odd s.active_even s.free_slot r.source_left_pad
              (before.even.begin - r.base_offset + r.source_offset - s.active_odd.storage.begin)
              (before.even.begin - r.base_offset - s.active_even.storage.begin)
            ∷ [],
        after_update before s,
        rw eq refl,
        record {
          even = omega arith;
          odd = omega (arith, n.0, holds.odd);
          even_low = settled.1;
          odd_low = holds.odd_low;
          even_size = omega arith;
          odd_size = omega (arith, holds.odd_size);
          even_odd = λ p. holds.odd_free (sym p);
          even_free = λ p. holds.even_free (sym p);
          odd_free = λ p. holds.even_odd (sym p);
        },
        (
          record {
            reads = rw h reads;
            source_fits = omega (arith, holds.odd_size);
            base_fits = omega (arith, holds.even_size);
            output_fits = omega arith;
          },
          tt,
        ),
        omega arith,
        λ m v stores. record {
          even =
              update_output a m r before.even s.active_odd s.active_even s.free_slot after.even
                settled.0.0 settled.1 n.1 (omega (arith, n.2, holds.odd)) holds.even v.odd v.even
                stores.odd stores.even h;
          odd =
              Stored-kept a m
                (inverse_entry r before.even s.active_odd s.active_even s.free_slot
                  r.source_left_pad
                  (before.even.begin - r.base_offset + r.source_offset - s.active_odd.storage.begin)
                  (before.even.begin - r.base_offset - s.active_even.storage.begin))
                s.active_odd v.odd holds.odd_free stores.odd;
        },
      )

  kept-Holds : before ≡ after → Holds s before
  kept-Holds e = subst (Holds s) (sym e) holds

  -- A terminal scale pushes nothing.
  terminal-Goes :
      (next : Result (List LwtStepRoute × ChunkState))
      → is_scale_step r.type ≡ true
      → before ≡ after
      → Goes a (λ v. v) (unless_terminal true r s next) s before
  terminal-Goes next scale e = ([], s, rw scale refl, kept-Holds e, tt, omega arith, λ m v h. h)

  inverse_step-scale_even :
      r.type ≡ StepType.scale_even
      → before ≡ after
      → Goes a
          (restored_before a StepType.scale_even false r)
          (inverse_step StepType.scale_even false r before s)
          s
          before
  inverse_step-scale_even h e =
      let here = kept-Holds e in
      let offset = local_offset-Within s.active_even.storage before.even settled.0.0 here.even in
      (
        inverse_entry r before.even s.active_even s.active_even s.free_slot 0
              (before.even.begin - s.active_even.storage.begin)
              (before.even.begin - s.active_even.storage.begin)
            ∷ [],
        after_update before s,
        unfold inverse_scale in rw offset refl,
        record {
          even = omega arith;
          odd = here.odd;
          even_low = settled.1;
          odd_low = here.odd_low;
          even_size = omega arith;
          odd_size = omega (arith, here.odd_size);
          even_odd = λ p. here.odd_free (sym p);
          even_free = λ p. here.even_free (sym p);
          odd_free = λ p. here.even_odd (sym p);
        },
        (
          record {
            reads = rw h (omega (arith, here.even, here.even_low, settled));
            source_fits = omega (arith, here.even_size);
            base_fits = omega (arith, here.even_size);
            output_fits = omega arith;
          },
          tt,
        ),
        omega arith,
        λ m v stores. record {
          even =
              scale_even_output a m r before.even s.active_even s.free_slot settled.0.0 settled.1
                here.even v.even stores.even h;
          odd =
              Stored-kept a m
                (inverse_entry r before.even s.active_even s.active_even s.free_slot 0
                  (before.even.begin - s.active_even.storage.begin)
                  (before.even.begin - s.active_even.storage.begin))
                s.active_odd v.odd holds.odd_free stores.odd;
        },
      )

  inverse_step-scale_odd :
      r.type ≡ StepType.scale_odd
      → before ≡ after
      → Goes a
          (restored_before a StepType.scale_odd false r)
          (inverse_step StepType.scale_odd false r before s)
          s
          before
  inverse_step-scale_odd h e =
      let here = kept-Holds e in
      let offset = local_offset-Within s.active_odd.storage before.odd settled.0.1 here.odd in
      (
        inverse_entry r before.odd s.active_odd s.active_odd s.free_slot 0
              (before.odd.begin - s.active_odd.storage.begin)
              (before.odd.begin - s.active_odd.storage.begin)
            ∷ [],
        after_predict before s,
        unfold inverse_scale in rw offset refl,
        record {
          even = here.even;
          odd = omega arith;
          even_low = here.even_low;
          odd_low = settled.2;
          even_size = omega (arith, here.even_size);
          odd_size = omega arith;
          even_odd = here.even_free;
          even_free = here.even_odd;
          odd_free = λ p. here.odd_free (sym p);
        },
        (
          record {
            reads = rw h (omega (arith, here.odd, here.odd_low, settled));
            source_fits = omega (arith, here.odd_size);
            base_fits = omega (arith, here.odd_size);
            output_fits = omega arith;
          },
          tt,
        ),
        omega arith,
        λ m v stores. record {
          even =
              Stored-kept a m
                (inverse_entry r before.odd s.active_odd s.active_odd s.free_slot 0
                  (before.odd.begin - s.active_odd.storage.begin)
                  (before.odd.begin - s.active_odd.storage.begin))
                s.active_even v.even holds.even_free stores.even;
          odd =
              scale_odd_output a m r before.odd s.active_odd s.free_slot settled.0.1 settled.2
                here.odd v.odd stores.odd h;
        },
      )

  inverse_step-swap :
      (terminal : Bool)
      → Restores StepType.swap r before after
      → Goes a
          (restored_before a StepType.swap terminal r)
          (inverse_step StepType.swap terminal r before s)
          s
          before
  inverse_step-swap terminal n = (
    [],
    record s { active_even = s.active_odd; active_odd = s.active_even },
    refl,
    record {
      even = rw n.0 holds.odd;
      odd = rw n.1 holds.even;
      even_low = holds.odd_low;
      odd_low = holds.even_low;
      even_size = holds.odd_size;
      odd_size = holds.even_size;
      even_odd = λ p. holds.even_odd (sym p);
      even_free = holds.odd_free;
      odd_free = holds.even_free;
    },
    tt,
    omega arith,
    λ m v stores. record { even = stores.odd; odd = stores.even },
  )

  pub inverse_step-Goes :
      (t : StepType) (terminal : Bool) (e o e' o' : ℕ)
      → r.type ≡ t
      → (terminal ≡ true → is_scale_step t ≡ true)
      → Transition t r e o e' o'
      → Restores t r before after
      → Goes a (restored_before a t terminal r) (inverse_step t terminal r before s) s before
  unfolding is_scale_step
  inverse_step-Goes StepType.predict true e o e' o' h f (_, _, _, _, st) n = cc (f refl)
  inverse_step-Goes StepType.predict false e o e' o' h f (_, _, _, _, st) n =
      inverse_step-predict h st n
  inverse_step-Goes StepType.update true e o e' o' h f (_, _, _, _, st) n = cc (f refl)
  inverse_step-Goes StepType.update false e o e' o' h f (_, _, _, _, st) n =
      inverse_step-update h st n
  inverse_step-Goes StepType.scale_even true e o e' o' h f t n = terminal-Goes fatal (rw h refl) n
  inverse_step-Goes StepType.scale_even false e o e' o' h f t n = inverse_step-scale_even h n
  inverse_step-Goes StepType.scale_odd true e o e' o' h f t n = terminal-Goes fatal (rw h refl) n
  inverse_step-Goes StepType.scale_odd false e o e' o' h f t n = inverse_step-scale_odd h n
  inverse_step-Goes StepType.swap terminal e o e' o' h f t n = inverse_step-swap terminal n
