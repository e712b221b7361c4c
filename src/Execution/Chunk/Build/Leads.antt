-- ===== src/Execution/Chunk/Build/Leads.antt =====
-- The routes of a chunk from the first: stencils and swaps up to the inline stencil.
use tt_wavelet.Common.{
  ℕ, zero, suc, ◌+◌, ◌≤◌, ◌<◌, ◌≡◌, refl, sym, ap, ◌∙◌, subst, arith, Bool, true, false, not, List,
  [], ◌∷◌, ◌==◌, if◌then◌else◌, ok, ◌⊎◌, inl, inr, ==_iff,
}
use tt_wavelet.Plan.{StepType, RouteOutputStorage, LiftingStepRoute}
use tt_wavelet.Plan.Chain.{Transition, Chain, route}
use tt_wavelet.Execution.{RequiredStreams}
use tt_wavelet.Execution.Backward.{Needs, Proper, Covered, covers, last_of}
use tt_wavelet.Execution.Chunk.{TerminalScaleInline, LwtStepRoute}
use tt_wavelet.Execution.Chunk.Run.{Arithmetic, Slots}
use tt_wavelet.Execution.Chunk.Build.{ChunkState, chunk_step, push_front, chunk_routes}
use tt_wavelet.Execution.Chunk.Build.Storage.{Holds}
use tt_wavelet.Execution.Chunk.Build.Contents.{Samples, Stored, Stores, Stored-kept}
use tt_wavelet.Execution.Chunk.Build.Core.{Core, written, run_core, run_to, final_element}
use tt_wavelet.Execution.Chunk.Build.Deliver.{
  scale_of, buffer_of, required_of, active_of, samples_of, final_of, transformed_after,
  transformed_all, EndsWith,
}
use tt_wavelet.Execution.Chunk.Run.{run_route}
use tt_wavelet.Execution.Chunk.Build.Core.{final_element}
use tt_wavelet.Execution.Chunk.Build.Deliver.{transformed_base}
use tt_wavelet.Execution.Chunk.Build.Stencils.{
  stencil_of, after_stencil, pushed_stencil, Reads, stencil_pushed, stencil_stored, stencil_written,
}
use tt_wavelet.Execution.Chunk.Build.Ends.{next_Holds, tail_deliver}

-- The routes up to the inline stencil, which stands at a position, are stencils and swaps, and those
-- after it are swaps and the two scales.
abbrev pub Leads : Bool → ℕ → List LiftingStepRoute → Type 0
Leads final n [] = ⊥
Leads final zero (r ∷ routes) =
    (made : Bool) × (r.type ≡ stencil_of made) × EndsWith final made routes
Leads final (suc n) (r ∷ routes) =
    (((made : Bool) × (r.type ≡ stencil_of made)) ⊎ (r.type ≡ StepType.swap)) × Leads final n routes

-- Both final buffers receive what is required last of the streams after all routes.
pub record Delivered {V : Type 0} (a : Arithmetic V) (routes : List LiftingStepRoute)
    (last : RequiredStreams) (m : Core V) (v : Samples V) (qs : List LwtStepRoute) : Type 0 where
  pub even :
      (k : ℕ)
      → last.even.begin ≤ k
      → k < last.even.end
      → (run_core a qs m).final_even k ≡ (transformed_all a routes v).even k
  pub odd :
      (k : ℕ)
      → last.odd.begin ≤ k
      → k < last.odd.end
      → (run_core a qs m).final_odd k ≡ (transformed_all a routes v).odd k

both_Delivered :
    {V : Type 0} (a : Arithmetic V) (routes : List LiftingStepRoute) (last : RequiredStreams)
    (m : Core V) (v : Samples V) (qs : List LwtStepRoute) (b : Bool)
    → ((side : Bool)
        → (side ≡ b) ⊎ (side ≡ not b)
        → (k : ℕ) → (required_of side last).begin ≤ k
        → k < (required_of side last).end
        → final_of side (run_core a qs m) k ≡ samples_of side (transformed_all a routes v) k)
    → Delivered a routes last m v qs
both_Delivered a routes last m v qs true h = record {
  even = h true (inl refl);
  odd = h false (inr refl);
}
both_Delivered a routes last m v qs false h = record {
  even = h true (inr refl);
  odd = h false (inl refl);
}

module _ {V : Type 0} (a : Arithmetic V) where
  buffer_written :
      (final : Bool) (q : LwtStepRoute) (m : Core V)
      → final_of final (run_to a (buffer_of final) q m)
        ≡ written q.output_offset_elements q.output_length
            (final_element a (scale_of final) q.type q m.slots)
            (final_of final m)
  buffer_written true q m = refl
  buffer_written false q m = refl

  buffer_slots :
      (final : Bool) (q : LwtStepRoute) (m : Core V)
      → (run_to a (buffer_of final) q m).slots ≡ m.slots
  buffer_slots true q m = refl
  buffer_slots false q m = refl

  stencil_Stores :
      (inline : TerminalScaleInline) (index : ℕ) (r : LiftingStepRoute) (after : RequiredStreams)
      (s : ChunkState) (made : Bool) (m : Slots V) (v : Samples V)
      → Reads inline index r after s made
      → r.type ≡ stencil_of made
      → Stores m s v
      → Stores
          (run_route a (pushed_stencil inline index r after s made) m)
          (after_stencil made after s)
          (transformed_after a (stencil_of made) r v)
  stencil_Stores inline index r after s true m v reads h st = record {
    even = stencil_stored a inline index r after s true reads m v st.odd st.even h;
    odd =
        Stored-kept a m (pushed_stencil inline index r after s true) s.active_odd v.odd
          reads.source_apart st.odd;
  }
  stencil_Stores inline index r after s false m v reads h st = record {
    even =
        Stored-kept a m (pushed_stencil inline index r after s false) s.active_even v.even
          reads.source_apart st.even;
    odd = stencil_stored a inline index r after s false reads m v st.even st.odd h;
  }

  other_stored :
      (made : Bool) (after : RequiredStreams) (s : ChunkState) (r : LiftingStepRoute) (m : Slots V)
      (v : Samples V)
      → Stores m s v
      → Stored m
          (active_of (not made) (after_stencil made after s))
          (samples_of (not made) (transformed_after a (stencil_of made) r v))
  other_stored true after s r m v st = st.odd
  other_stored false after s r m v st = st.even

  of_side :
      (side : Bool) (m : Slots V) (s : ChunkState) (v : Samples V)
      → Stores m s v
      → Stored m (active_of side s) (samples_of side v)
  of_side true m s v st = st.even
  of_side false m s v st = st.odd

  made_samples :
      (made : Bool) (r : LiftingStepRoute) (v : Samples V) (k : ℕ)
      → samples_of made (transformed_after a (stencil_of made) r v) k
        ≡ transformed_base a (stencil_of made) r (samples_of (not made) v) (samples_of made v) k
  made_samples true r v k = refl
  made_samples false r v k = refl

  module _ (inline : TerminalScaleInline) (final : Bool)
      (scale_same : inline.scale_type ≡ scale_of final)
      (storage_same : inline.final_storage ≡ buffer_of final) where
    abbrev pub Leading :
        ℕ
        → List LiftingStepRoute
        → RequiredStreams
        → List RequiredStreams
        → ChunkState
        → Core V
        → Samples V
        → Type 0
    Leading index rs first later s m v =
        (qs : List LwtStepRoute) × (end : ChunkState) × (chunk_routes inline index rs later s
          ≡ ok (qs, end))
        × Delivered a rs (last_of first later) m v qs

    module _ (index : ℕ) (r : LiftingStepRoute) (rs : List LiftingStepRoute) (e o e₁ o₁ e' o' : ℕ)
        (first after : RequiredStreams) (later : List RequiredStreams) (s : ChunkState) (m : Core V)
        (v : Samples V) (trans : Transition r.type r e o e₁ o₁) (chain : Chain e₁ o₁ rs e' o')
        (needs : Needs r.type r after first) (proper : Proper after) (cov : Covered rs after later)
        (holds : Holds s first) (stores : Stores m.slots s v) where
      -- The inline stencil, and the routes after it.
      inline_Leading :
          (made : Bool)
          → r.type ≡ stencil_of made
          → (index == inline.predict_update_route_index) ≡ true
          → EndsWith final made rs
          → Leading index (r ∷ rs) first (after ∷ later) s m v
      unfolding chunk_routes push_front
      inline_Leading made h at ends =
          let q = pushed_stencil inline index r after s made in
          let v' = transformed_after a (stencil_of made) r v in
          let s' = after_stencil made after s in
          let m' = run_to a (buffer_of final) q m in
          let (stepped, reads) =
            stencil_pushed inline index r e o e₁ o₁ first after s proper holds made
              (subst (λ (t : StepType). Transition t r e o e₁ o₁) h trans)
              (subst (λ (t : StepType). Needs t r after first) h needs) in
          let here = ap (λ (t : StepType). chunk_step t inline index r after s) h ∙ stepped in
          let held =
            next_Holds inline index r e o e₁ o₁ first after s proper holds (stencil_of made)
              (q ∷ []) s' h trans needs stepped in
          let kept_slots : m'.slots ≡ m.slots = buffer_slots final q m in
          let (qs, end, ran, d) =
            tail_deliver a inline final scale_same made (index + 1) rs e₁ o₁ e' o' after later s' m'
              v' ends chain cov held
              (subst
                (λ (slots : Slots V).
                  Stored slots (active_of (not made) s') (samples_of (not made) v'))
                (sym kept_slots) (other_stored made after s r m.slots v stores)) in
          let same : transformed_all a (r ∷ rs) v ≡ transformed_all a rs v' =
            ap (λ (t : StepType). transformed_all a rs (transformed_after a t r v)) h in
          let to_buffer : run_to a q.output.storage q m ≡ m' =
            ap
              (λ (b : Bool).
                run_to a (if b then inline.final_storage else RouteOutputStorage.workspace_slot) q
                  m)
              at
            ∙ ap (λ (b : RouteOutputStorage). run_to a b q m) storage_same in
          let whole : run_core a (q ∷ qs) m ≡ run_core a qs m' = ap (run_core a qs) to_buffer in
          (
            q ∷ qs,
            end,
            rw (here, ran) refl,
            both_Delivered a (r ∷ rs) (last_of after later) m v (q ∷ qs) final (λ side which k b l.
                ap (λ (c : Core V). final_of side c k) whole
                ∙ elim which [
                  | inl is ↦
                      subst
                        (λ (side : Bool).
                          (required_of side (last_of after later)).begin ≤ k
                          → k < (required_of side (last_of after later)).end
                          → final_of side (run_core a qs m') k
                            ≡ samples_of side (transformed_all a rs v') k)
                        (sym is)
                        (λ b l.
                          ap (λ (f : ℕ → V). f k) d.kept
                          ∙ ap (λ (f : ℕ → V). f k) (buffer_written final q m)
                          ∙ stencil_written a inline index r after s made reads m.slots v
                              (of_side (not made) m.slots s v stores)
                              (of_side made m.slots s v stores) (scale_of final) (final_of final m)
                              h at k (omega (arith, b, d.inside)) (omega (arith, l, d.inside))
                          ∙ ap (a.scale (scale_of final)) (sym (made_samples made r v k))
                          ∙ sym (d.scaled k))
                        b l
                  | inr is ↦
                      subst
                        (λ (side : Bool).
                          (required_of side (last_of after later)).begin ≤ k
                          → k < (required_of side (last_of after later)).end
                          → final_of side (run_core a qs m') k
                            ≡ samples_of side (transformed_all a rs v') k)
                        (sym is) (d.other k) b l
                ]
                ∙ sym (ap (λ (u : Samples V). samples_of side u k) same)),
          )

      -- A stencil before the inline one.
      stencil_Leading :
          (made : Bool)
          → r.type ≡ stencil_of made
          → (index == inline.predict_update_route_index) ≡ false
          → ((s' : ChunkState) (m' : Core V) (v' : Samples V)
              → Holds s' after
              → Stores m'.slots s' v'
              → Leading (index + 1) rs after later s' m' v')
          → Leading index (r ∷ rs) first (after ∷ later) s m v
      unfolding chunk_routes push_front
      stencil_Leading made h apart next =
          let q = pushed_stencil inline index r after s made in
          let v' = transformed_after a (stencil_of made) r v in
          let s' = after_stencil made after s in
          let m' : Core V = record m { slots = run_route a q m.slots } in
          let (stepped, reads) =
            stencil_pushed inline index r e o e₁ o₁ first after s proper holds made
              (subst (λ (t : StepType). Transition t r e o e₁ o₁) h trans)
              (subst (λ (t : StepType). Needs t r after first) h needs) in
          let here = ap (λ (t : StepType). chunk_step t inline index r after s) h ∙ stepped in
          let held =
            next_Holds inline index r e o e₁ o₁ first after s proper holds (stencil_of made)
              (q ∷ []) s' h trans needs stepped in
          let (qs, end, ran, d) =
            next s' m' v' held
              (stencil_Stores inline index r after s made m.slots v reads h stores) in
          let same : transformed_all a (r ∷ rs) v ≡ transformed_all a rs v' =
            ap (λ (t : StepType). transformed_all a rs (transformed_after a t r v)) h in
          let whole : run_core a (q ∷ qs) m ≡ run_core a qs m' =
            ap
              (λ (b : Bool). run_core a qs (
                run_to a (if b then inline.final_storage else RouteOutputStorage.workspace_slot) q
                  m))
              apart in
          (
            q ∷ qs,
            end,
            rw (here, ran) refl,
            record {
              even = λ k b l.
                  ap (λ (c : Core V). c.final_even k) whole
                  ∙ d.even k b l
                  ∙ sym (ap (λ (u : Samples V). u.even k) same);
              odd = λ k b l.
                  ap (λ (c : Core V). c.final_odd k) whole
                  ∙ d.odd k b l
                  ∙ sym (ap (λ (u : Samples V). u.odd k) same);
            },
          )

      swap_Leading :
          r.type ≡ StepType.swap
          → ((s' : ChunkState) (m' : Core V) (v' : Samples V)
              → Holds s' after
              → Stores m'.slots s' v'
              → Leading (index + 1) rs after later s' m' v')
          → Leading index (r ∷ rs) first (after ∷ later) s m v
      unfolding chunk_routes push_front
      swap_Leading h next =
          let s' : ChunkState = record s {
            active_even = s.active_odd;
            active_odd = s.active_even;
          } in
          let v' : Samples V = record { even = v.odd; odd = v.even } in
          let here : chunk_step r.type inline index r after s ≡ ok ([], s') =
            ap (λ (t : StepType). chunk_step t inline index r after s) h in
          let held =
            next_Holds inline index r e o e₁ o₁ first after s proper holds StepType.swap [] s' h
              trans needs refl in
          let (qs, end, ran, d) =
            next s' m v' held (record { even = stores.odd; odd = stores.even }) in
          let same : transformed_all a (r ∷ rs) v ≡ transformed_all a rs v' =
            ap (λ (t : StepType). transformed_all a rs (transformed_after a t r v)) h in
          (
            qs,
            end,
            rw (here, ran) refl,
            record {
              even = λ k b l. d.even k b l ∙ sym (ap (λ (u : Samples V). u.even k) same);
              odd = λ k b l. d.odd k b l ∙ sym (ap (λ (u : Samples V). u.odd k) same);
            },
          )

    -- The loop from the inline stencil's position on, counted from the front.
    pub routes_deliver :
        (n index : ℕ) (rs : List LiftingStepRoute) (e o e' o' : ℕ) (first : RequiredStreams)
        (later : List RequiredStreams) (s : ChunkState) (m : Core V) (v : Samples V)
        → Leads final n rs
        → index + n ≡ inline.predict_update_route_index
        → Chain e o rs e' o'
        → Covered rs first later
        → Holds s first
        → Stores m.slots s v
        → Leading index rs first later s m v
    routes_deliver n index [] e o e' o' first later s m v w at c cov h st = absurd w
    routes_deliver n index (r ∷ rs) e o e' o' first [] s m v w at c cov h st = elim cov [ ]
    routes_deliver zero index (r ∷ rs) e o e' o' first (after ∷ later) s m v (made, kind, ends) at
          (route {e' = e₁} {o' = o₁} t chain) (covers needs proper cov) h st =
        inline_Leading index r rs e o e₁ o₁ e' o' first after later s m v t chain needs proper cov h
          st made kind ((==_iff index inline.predict_update_route_index).1 (omega (arith, at))) ends
    routes_deliver (suc n) index (r ∷ rs) e o e' o' first (after ∷ later) s m v (kind, leads) at
          (route {e' = e₁} {o' = o₁} t chain) (covers needs proper cov) h st =
        let next =
          λ (s' : ChunkState) (m' : Core V) (v' : Samples V) (h' : Holds s' after)
              (st' : Stores m'.slots s' v').
            routes_deliver n (index + 1) rs e₁ o₁ e' o' after later s' m' v' leads
              (omega (arith, at)) chain cov h' st' in
        elim kind [
          | inl (made, stencil) ↦
              stencil_Leading index r rs e o e₁ o₁ e' o' first after later s m v t chain needs
                proper cov h st made stencil
                (apart index inline.predict_update_route_index (omega (arith, at))) next
          | inr swap ↦
              swap_Leading index r rs e o e₁ o₁ e' o' first after later s m v t chain needs proper
                cov h st swap next
        ]
      where
        apart : (i j : ℕ) → i < j → (i == j) ≡ false
        apart i j l = ground arith
