-- ===== src/Execution/Chunk/Build/Ends.antt =====
-- The routes of a chunk after the inline stencil.
use tt_wavelet.Common.{
  ℕ, ◌+◌, ◌^◌, ◌≤◌, ◌<◌, ◌≡◌, refl, sym, ap, ◌∙◌, subst, arith, Bool, true, false, not, List, [],
  ◌∷◌, ok, ok-injective, ◌⊎◌, inl, inr,
}
use tt_wavelet.Plan.{StepType, LiftingStepRoute}
use tt_wavelet.Plan.Chain.{Transition, Chain, done, route}
use tt_wavelet.Plan.Terminal.{TwoScales}
use tt_wavelet.Execution.{RequiredStreams}
use tt_wavelet.Execution.Intervals.{Within}
use tt_wavelet.Execution.Backward.{Needs, Proper, Covered, nothing, covers, last_of}
use tt_wavelet.Execution.Chunk.{TerminalScaleInline, LwtStepRoute}
use tt_wavelet.Execution.Chunk.Run.{Arithmetic}
use tt_wavelet.Execution.Chunk.Build.{ChunkState, chunk_step, push_front, chunk_routes}
use tt_wavelet.Execution.Chunk.Build.Storage.{Holds}
use tt_wavelet.Execution.Chunk.Build.Steps.{chunk_step-Steps}
use tt_wavelet.Execution.Chunk.Build.Contents.{Samples, Stored}
use tt_wavelet.Execution.Chunk.Build.Core.{Core, run_core}
use tt_wavelet.Execution.Chunk.Build.Deliver.{
  scale_of, required_of, active_of, samples_of, final_of, transformed_after, transformed_all,
  EndsWith, scale_skipped, scale_pushed_entry, scale_pushed, scale_delivered,
}

-- What the routes after the inline stencil deliver: the final buffer of its stream is left as it is,
-- the other one receives its whole stream; the first stream is only scaled, and what is required of it
-- at the end was required before.
pub record Delivers {V : Type 0} (a : Arithmetic V) (final now : Bool)
    (routes : List LiftingStepRoute) (first last : RequiredStreams) (m : Core V) (v : Samples V)
    (qs : List LwtStepRoute) : Type 0 where
  pub kept : final_of final (run_core a qs m) ≡ final_of final m
  pub other :
      (k : ℕ)
      → (required_of (not final) last).begin ≤ k
      → k < (required_of (not final) last).end
      → final_of (not final) (run_core a qs m) k
        ≡ samples_of (not final) (transformed_all a routes v) k
  pub scaled :
      (k : ℕ)
      → samples_of final (transformed_all a routes v) k
        ≡ a.scale (scale_of final) (samples_of now v k)
  pub inside : Within (required_of final last) (required_of now first)

module _ (inline : TerminalScaleInline) (index : ℕ) (r : LiftingStepRoute) (e o e' o' : ℕ)
    (before after : RequiredStreams) (s : ChunkState) (proper : Proper after)
    (holds : Holds s before) where
  -- The state after a round still holds what is required.
  pub next_Holds :
      (t : StepType) (pushed : List LwtStepRoute) (s' : ChunkState)
      → r.type ≡ t
      → Transition r.type r e o e' o'
      → Needs r.type r after before
      → chunk_step t inline index r after s ≡ ok (pushed, s')
      → Holds s' after
  next_Holds t pushed s' h trans n made =
      let (_, s₁, here, kept, _, _) =
        chunk_step-Steps inline index r e o e' o' before after s proper holds t h
          (subst (λ (t : StepType). Transition t r e o e' o') h trans)
          (subst (λ (t : StepType). Needs t r after before) h n) in
      subst (λ (s : ChunkState). Holds s after)
        (ap (λ (p : List LwtStepRoute × ChunkState). p.1) (ok-injective (sym here ∙ made))) kept

scale_Within :
    (stream side : Bool) (r : LiftingStepRoute) (e o e' o' : ℕ) (before after : RequiredStreams)
    → r.type ≡ scale_of stream
    → Transition r.type r e o e' o'
    → Needs r.type r after before
    → Within (required_of side after) (required_of side before)
scale_Within stream side r e o e' o' before after h trans n =
    at stream side (subst (λ (t : StepType). Transition t r e o e' o') h trans)
      (subst (λ (t : StepType). Needs t r after before) h n)
  where
    at :
        (stream side : Bool)
        → Transition (scale_of stream) r e o e' o'
        → Needs (scale_of stream) r after before
        → Within (required_of side after) (required_of side before)
    at true true t n = (omega (arith, n, t.4), omega (arith, n, t.4))
    at true false t n = n.1
    at false true t n = n.0
    at false false t n = (omega (arith, n, t.4), omega (arith, n, t.4))

active_Within :
    (side : Bool) (s : ChunkState) (req : RequiredStreams)
    → Holds s req
    → Within (required_of side req) (active_of side s).storage
      × ((active_of side s).storage.end < 2 ^ 63)
active_Within true s req h = (h.even, h.even_low)
active_Within false s req h = (h.odd, h.odd_low)

side_full :
    (side : Bool) (s : RequiredStreams)
    → Proper s
    → (required_of side s).begin < (required_of side s).end
side_full true s p = p.0
side_full false s p = p.1

-- Two scales, one after the other.
two_scaled :
    {V : Type 0} (a : Arithmetic V) (stream side : Bool) (x y : LiftingStepRoute) (v : Samples V)
    → x.type ≡ scale_of stream
    → y.type ≡ scale_of (not stream)
    → (k : ℕ)
    → samples_of side (transformed_all a (x ∷ y ∷ []) v) k
      ≡ a.scale (scale_of side) (samples_of side v k)
two_scaled a stream side x y v h g k =
    ap
      (λ (t : StepType).
        samples_of side (transformed_after a y.type y (transformed_after a t x v)) k)
      h
    ∙ ap
        (λ (t : StepType).
          samples_of side (transformed_after a t y (transformed_after a (scale_of stream) x v)) k)
        g
    ∙ at stream side
  where
    at :
        (stream side : Bool)
        → samples_of side
            (transformed_after a
              (scale_of (not stream))
              y
              (transformed_after a (scale_of stream) x v))
            k
          ≡ a.scale (scale_of side) (samples_of side v k)
    at true true = refl
    at true false = refl
    at false true = refl
    at false false = refl

final_kept :
    {V : Type 0} (a : Arithmetic V) (final : Bool) (inline : TerminalScaleInline) (index : ℕ)
    (r : LiftingStepRoute) (after : RequiredStreams) (s : ChunkState) (m : Core V)
    → final_of final (run_core a (scale_pushed_entry inline index r after s (not final) ∷ []) m)
      ≡ final_of final m
final_kept a true inline index r after s m = refl
final_kept a false inline index r after s m = refl

not_twice : (b : Bool) → b ≡ not (not b)
not_twice true = refl
not_twice false = refl

two_order :
    (b : Bool) (x y : LiftingStepRoute)
    → TwoScales x y
    → ((x.type ≡ scale_of b) × (y.type ≡ scale_of (not b)))
      ⊎ ((x.type ≡ scale_of (not b)) × (y.type ≡ scale_of b))
two_order true x y (inl k) = inl k
two_order true x y (inr k) = inr k
two_order false x y (inl k) = inr k
two_order false x y (inr k) = inl k

swapped_stored :
    {V : Type 0} (b : Bool) (s : ChunkState) (m : Core V) (v : Samples V)
    → Stored m.slots (active_of (not b) s) (samples_of (not b) v)
    → Stored m.slots
        (active_of
          (not (not b))
          (record s { active_even = s.active_odd; active_odd = s.active_even }))
        (samples_of (not (not b)) (record { even = v.odd; odd = v.even }))
swapped_stored true s m v h = h
swapped_stored false s m v h = h

swapped_samples :
    {V : Type 0} (b : Bool) (v : Samples V) (k : ℕ)
    → samples_of (not b) (record { even = v.odd; odd = v.even }) k ≡ samples_of b v k
swapped_samples true v k = refl
swapped_samples false v k = refl

swapped_Within :
    (b : Bool) (first middle : RequiredStreams)
    → Within middle.odd first.even × Within middle.even first.odd
    → Within (required_of (not b) middle) (required_of b first)
swapped_Within true first middle n = n.0
swapped_Within false first middle n = n.1

module _ {V : Type 0} (a : Arithmetic V) (inline : TerminalScaleInline) (final : Bool)
    (scale_same : inline.scale_type ≡ scale_of final) where
  -- What the loop gives for the routes from here on.
  abbrev pub Ends :
      Bool
      → ℕ
      → List LiftingStepRoute
      → RequiredStreams
      → List RequiredStreams
      → ChunkState
      → Core V
      → Samples V
      → Type 0
  Ends now index rs first later s m v =
      (qs : List LwtStepRoute) × (end : ChunkState) × (chunk_routes inline index rs later s
        ≡ ok (qs, end))
      × Delivers a final now rs first (last_of first later) m v qs

  module _ (index : ℕ) (x y : LiftingStepRoute) (e o e₁ o₁ e₂ o₂ : ℕ)
      (first middle last : RequiredStreams) (s : ChunkState) (m : Core V) (v : Samples V)
      (tx : Transition x.type x e o e₁ o₁) (ty : Transition y.type y e₁ o₁ e₂ o₂)
      (nx : Needs x.type x middle first) (ny : Needs y.type y last middle) (px : Proper middle)
      (py : Proper last) (holds : Holds s first)
      (from : Stored m.slots (active_of (not final) s) (samples_of (not final) v)) where
    -- The scale of the stencil's stream comes first.
    skip_push :
        x.type ≡ scale_of final
        → y.type ≡ scale_of (not final)
        → Ends final index (x ∷ y ∷ []) first (middle ∷ last ∷ []) s m v
    unfolding chunk_routes push_front
    skip_push hx hy =
        let skipped =
          ap (λ (t : StepType). chunk_step t inline index x middle s) hx
          ∙ scale_skipped inline index x middle s final scale_same hx in
        let held =
          next_Holds inline index x e o e₁ o₁ first middle s px holds (scale_of final) [] s hx tx nx
            (scale_skipped inline index x middle s final scale_same hx) in
        let within =
          λ (side : Bool). scale_Within (not final) side y e₁ o₁ e₂ o₂ middle last hy ty ny in
        let (stored_in, low) = active_Within (not final) s middle held in
        let inside : Within (required_of (not final) last) (active_of (not final) s).storage =
          omega (arith, within (not final), stored_in) in
        let pushed =
          ap (λ (t : StepType). chunk_step t inline (index + 1) y last s) hy
          ∙ scale_pushed inline (index + 1) y last s (not final)
              (scale_same ∙ ap scale_of (not_twice final)) hy (side_full (not final) last py) inside
              low in
        (
          scale_pushed_entry inline (index + 1) y last s (not final) ∷ [],
          s,
          rw (skipped, pushed) refl,
          record {
            kept = final_kept a final inline (index + 1) y last s m;
            other = λ k b l.
                scale_delivered a (not final) y last s m (samples_of (not final) v) inline
                  (index + 1) hy (omega (arith, inside, low)) inside from k b l
                ∙ sym (two_scaled a final (not final) x y v hx hy k);
            scaled = two_scaled a final final x y v hx hy;
            inside =
                omega
                  (arith, within final, scale_Within final final x e o e₁ o₁ first middle hx tx nx);
          },
        )

    -- The scale of the stencil's stream comes last.
    push_skip :
        x.type ≡ scale_of (not final)
        → y.type ≡ scale_of final
        → Ends final index (x ∷ y ∷ []) first (middle ∷ last ∷ []) s m v
    unfolding chunk_routes push_front
    push_skip hx hy =
        let other = not_twice final in
        let hy' = hy ∙ ap scale_of other in
        let (stored_in, low) = active_Within (not final) s first holds in
        let inside : Within (required_of (not final) middle) (active_of (not final) s).storage =
          omega (
            arith,
            stored_in,
            scale_Within (not final) (not final) x e o e₁ o₁ first middle hx tx nx,
          ) in
        let pushed =
          ap (λ (t : StepType). chunk_step t inline index x middle s) hx
          ∙ scale_pushed inline index x middle s (not final) (scale_same ∙ ap scale_of other) hx
              (side_full (not final) middle px) inside low in
        let skipped =
          ap (λ (t : StepType). chunk_step t inline (index + 1) y last s) hy
          ∙ scale_skipped inline (index + 1) y last s final scale_same hy in
        let within = λ (side : Bool). scale_Within final side y e₁ o₁ e₂ o₂ middle last hy ty ny in
        (
          scale_pushed_entry inline index x middle s (not final) ∷ [],
          s,
          rw (pushed, skipped) refl,
          record {
            kept = final_kept a final inline index x middle s m;
            other = λ k b l.
                scale_delivered a (not final) x middle s m (samples_of (not final) v) inline index
                  hx (omega (arith, inside, low)) inside from k
                  (omega (arith, b, within (not final))) (omega (arith, l, within (not final)))
                ∙ sym (two_scaled a (not final) (not final) x y v hx hy' k);
            scaled = two_scaled a (not final) final x y v hx hy';
            inside = omega (
              arith,
              within final,
              scale_Within (not final) final x e o e₁ o₁ first middle hx tx nx,
            );
          },
        )

  -- The routes after the inline stencil deliver the stream that it did not make.
  pub tail_deliver :
      (now : Bool) (index : ℕ) (rs : List LiftingStepRoute) (e o e' o' : ℕ)
      (first : RequiredStreams) (later : List RequiredStreams) (s : ChunkState) (m : Core V)
      (v : Samples V)
      → EndsWith final now rs
      → Chain e o rs e' o'
      → Covered rs first later
      → Holds s first
      → Stored m.slots (active_of (not now) s) (samples_of (not now) v)
      → Ends now index rs first later s m v
  unfolding chunk_routes push_front
  tail_deliver now index [] e o e' o' first later s m v w c cov h from = absurd w
  tail_deliver now index (x ∷ []) e o e' o' first later s m v w c cov h from = absurd w
  tail_deliver now index (x ∷ y ∷ []) e o e' o' first [] s m v w c cov h from = elim cov [ ]
  tail_deliver now index (x ∷ y ∷ []) e o e' o' first (middle ∷ []) s m v w c (covers n p cov) h
        from =
      elim cov [ ]
  tail_deliver now index (x ∷ y ∷ []) e o e' o' first (middle ∷ last ∷ []) s m v w
        (route {e' = e₁} {o' = o₁} tx (route ty done)) (covers nx px (covers ny py nothing)) h
        from =
      let from' =
        subst (λ (b : Bool). Stored m.slots (active_of (not b) s) (samples_of (not b) v)) w.0
          from in
      subst (λ (b : Bool). Ends b index (x ∷ y ∷ []) first (middle ∷ last ∷ []) s m v) (sym w.0)
        (elim (two_order final x y w.1) [
          | inl k ↦
              skip_push index x y e o e₁ o₁ e' o' first middle last s m v tx ty nx ny px py h from'
                k.0 k.1
          | inr k ↦
              push_skip index x y e o e₁ o₁ e' o' first middle last s m v tx ty nx ny px py h from'
                k.0 k.1
        ])
  tail_deliver now index (x ∷ y ∷ []) e o e' o' first (middle ∷ last ∷ more ∷ later) s m v w c
        (covers n p (covers n' p' cov)) h from =
      elim cov [ ]
  tail_deliver now index (x ∷ y ∷ z ∷ rs) e o e' o' first [] s m v w c cov h from = elim cov [ ]
  tail_deliver now index (x ∷ y ∷ z ∷ rs) e o e' o' first (middle ∷ later) s m v w
        (route {e' = e₁} {o' = o₁} tx chain) (covers nx px cov) h from =
      let s' : ChunkState = record s { active_even = s.active_odd; active_odd = s.active_even } in
      let v' : Samples V = record { even = v.odd; odd = v.even } in
      let here : chunk_step x.type inline index x middle s ≡ ok ([], s') =
        ap (λ (t : StepType). chunk_step t inline index x middle s) w.0 in
      let held =
        next_Holds inline index x e o e₁ o₁ first middle s px h StepType.swap [] s' w.0 tx nx
          refl in
      let (qs, end, ran, d) =
        tail_deliver (not now) (index + 1) (y ∷ z ∷ rs) e₁ o₁ e' o' middle later s' m v' w.1 chain
          cov held (swapped_stored now s m v from) in
      let same : transformed_all a (x ∷ y ∷ z ∷ rs) v ≡ transformed_all a (y ∷ z ∷ rs) v' =
        ap (λ (t : StepType). transformed_all a (y ∷ z ∷ rs) (transformed_after a t x v)) w.0 in
      (
        qs,
        end,
        rw (here, ran) refl,
        record {
          kept = d.kept;
          other = λ k b l.
              d.other k b l ∙ sym (ap (λ (u : Samples V). samples_of (not final) u k) same);
          scaled = λ k.
              ap (λ (u : Samples V). samples_of final u k) same
              ∙ d.scaled k
              ∙ ap (a.scale (scale_of final)) (swapped_samples now v k);
          inside = omega (
            arith,
            d.inside,
            swapped_Within now first middle
                (subst (λ (t : StepType). Needs t x middle first) w.0 nx),
          );
        },
      )
