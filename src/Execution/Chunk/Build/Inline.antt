-- ===== src/Execution/Chunk/Build/Inline.antt =====
-- The inline stencil that terminal_scale_inline finds is the last stencil of the routes.
use tt_wavelet.Common.{
  ℕ, zero, suc, ◌+◌, ◌-◌, ◌<◌, ◌≡◌, refl, sym, ap, ◌∙◌, subst, arith, Bool, true, false, not, List,
  [], ◌∷◌, Option, none, some, length, get_elem?, leb, ◌==◌, ok, require, ◌>>◌, ◌>>=◌, ◌⊎◌, inl,
  inr, >>-eq-ok, >>=-eq-ok, ok-injective,
}
use tt_wavelet.Plan.{
  StepType, LiftingStepRoute, LiftingForwardPlan, is_scale_step, is_predict_update_step,
}
use tt_wavelet.Plan.Terminal.{OnlyEndsInScales}
use tt_wavelet.Execution.Chunk.{
  TerminalScaleInline, type_code, find_stencil, found_stencil, routes_from, follow_swaps,
  any_of_type, inline_of, terminal_scale_inline,
}
use tt_wavelet.Execution.Chunk.Build.Deliver.{scale_of, buffer_of, EndsWith}
use tt_wavelet.Execution.Chunk.Build.Stencils.{stencil_of}
use tt_wavelet.Execution.Chunk.Build.Leads.{Leads}

swap_of : (t : StepType) → (type_code t == type_code StepType.swap) ≡ true → t ≡ StepType.swap
swap_of StepType.predict h = cc
swap_of StepType.update h = cc
swap_of StepType.scale_even h = cc
swap_of StepType.scale_odd h = cc
swap_of StepType.swap h = refl

-- A stencil, and which stream it makes.
stencil_kind :
    (t : StepType)
    → is_predict_update_step t ≡ true
    → (made : Bool) × (t ≡ stencil_of made) × ((type_code t == type_code StepType.update) ≡ made)
unfolding is_predict_update_step
stencil_kind StepType.predict h = (false, refl, refl)
stencil_kind StepType.update h = (true, refl, refl)
stencil_kind StepType.scale_even h = cc
stencil_kind StepType.scale_odd h = cc
stencil_kind StepType.swap h = cc

leading_kind :
    (t : StepType)
    → is_scale_step t ≡ false
    → ((made : Bool) × (t ≡ stencil_of made)) ⊎ (t ≡ StepType.swap)
unfolding is_scale_step
leading_kind StepType.predict h = inl (false, refl)
leading_kind StepType.update h = inl (true, refl)
leading_kind StepType.scale_even h = cc
leading_kind StepType.scale_odd h = cc
leading_kind StepType.swap h = inr refl

ends_of :
    (rs : List LiftingStepRoute) (now final : Bool)
    → OnlyEndsInScales rs
    → follow_swaps rs now ≡ ok final
    → EndsWith final now rs
unfolding follow_swaps
ends_of [] now final w h = w
ends_of (x ∷ []) now final w h = w
ends_of (x ∷ y ∷ []) now final w h = (ok-injective h, w)
ends_of (x ∷ y ∷ z ∷ rs) now final w h =
    let (swap, more) = >>-eq-ok (type_code x.type == type_code StepType.swap) _ h in
    (swap_of x.type swap, ends_of (y ∷ z ∷ rs) (not now) final w.1 more)

last_stencil :
    (n : ℕ) (rs : List LiftingStepRoute) (r : LiftingStepRoute) (final : Bool)
    → OnlyEndsInScales rs
    → n + 2 < length rs
    → get_elem? rs n ≡ some r
    → is_predict_update_step r.type ≡ true
    → follow_swaps (routes_from (suc n) rs) (type_code r.type == type_code StepType.update)
      ≡ ok final
    → Leads final n rs
unfolding routes_from
last_stencil n [] r final w l g k h = absurd w
last_stencil n (x ∷ []) r final w l g k h = absurd w
last_stencil n (x ∷ y ∷ []) r final w l g k h = absurd (omega (arith, l))
last_stencil zero (x ∷ y ∷ z ∷ rs) r final w l g k h =
    let same : r ≡ x = cc in
    let (made, kind, makes) = stencil_kind r.type k in
    (
      made,
      ap (λ (r : LiftingStepRoute). r.type) (sym same) ∙ kind,
      ends_of (y ∷ z ∷ rs) made final w.1
          (ap (λ (b : Bool). follow_swaps (y ∷ z ∷ rs) b) (sym makes) ∙ h),
    )
last_stencil (suc n) (x ∷ y ∷ z ∷ rs) r final w l g k h =
    (leading_kind x.type w.0, last_stencil n (y ∷ z ∷ rs) r final w.1 (omega (arith, l)) g k h)

-- A stencil stands at a position below a count.
abbrev StencilAt : List LiftingStepRoute → ℕ → ℕ → StepType → Type 0
StencilAt routes count i t =
    (i < count)
    × ((r : LiftingStepRoute) × (get_elem? routes i ≡ some r)
        × (r.type ≡ t)
        × (is_predict_update_step r.type ≡ true))

found_at :
    (routes : List LiftingStepRoute) (count i : ℕ) (t : StepType)
    → find_stencil routes count ≡ some (i, t)
    → StencilAt routes count i t
unfolding find_stencil
found_at routes zero i t h = cc
found_at routes (suc count) i t h =
    looked (get_elem? routes count) refl (found_at routes count i t) h
  where
    looked :
        (o : Option LiftingStepRoute)
        → get_elem? routes count ≡ o
        → (find_stencil routes count ≡ some (i, t) → StencilAt routes count i t)
        → elim o [
          | none ↦ none
          | some r ↦ elim (is_predict_update_step r.type) [
            | true ↦ some (count, r.type)
            | false ↦ find_stencil routes count
          ]
        ]
          ≡ some (i, t)
        → StencilAt routes (suc count) i t
    looked none e next h = cc
    looked (some r) e next h = tested (is_predict_update_step r.type) refl h
      where
        tested :
            (b : Bool)
            → is_predict_update_step r.type ≡ b
            → elim b [ true ↦ some (count, r.type) | false ↦ find_stencil routes count ]
              ≡ some (i, t)
            → StencilAt routes (suc count) i t
        tested true k h =
            let index : count ≡ i = cc in
            let type : r.type ≡ t = cc in
            (
              omega (arith, index),
              (r, subst (λ (i : ℕ). get_elem? routes i ≡ some r) index e, type, k),
            )
        tested false k h = let (low, found) = next h in (omega (arith, low), found)

found_some :
    (o : Option (ℕ × StepType)) (p : ℕ × StepType) → found_stencil o ≡ ok p → o ≡ some (p.0, p.1)
unfolding found_stencil
found_some none p h = cc
found_some (some q) p h = ap some (ok-injective h)

scale_of_final : (index : ℕ) (final : Bool) → (inline_of index final).scale_type ≡ scale_of final
scale_of_final index true = refl
scale_of_final index false = refl

buffer_of_final :
    (index : ℕ) (final : Bool) → (inline_of index final).final_storage ≡ buffer_of final
buffer_of_final index true = refl
buffer_of_final index false = refl

-- The inline stencil of a plan is its last, and its scale and its buffer are those of the stream that
-- its output is at the end.
pub terminal_scale_inline-Leads :
    (plan : LiftingForwardPlan) (inline : TerminalScaleInline)
    → OnlyEndsInScales plan.routes
    → terminal_scale_inline plan ≡ ok inline
    → (final : Bool) × Leads final inline.predict_update_route_index plan.routes
      × (inline.scale_type ≡ scale_of final)
      × (inline.final_storage ≡ buffer_of final)
unfolding terminal_scale_inline
terminal_scale_inline-Leads plan inline w h =
    let rs = plan.routes in
    let last = routes_from (length rs - 2) rs in
    let rest = λ (p : ℕ × StepType).
      follow_swaps (routes_from (p.0 + 1) rs) (type_code p.1 == type_code StepType.update)
      >>= (λ final.
          require (any_of_type (inline_of p.0 final).scale_type last)
          >> ok (inline_of p.0 final)) in
    let (_, h₁) = >>-eq-ok (leb 3 (length rs)) _ h in
    let (p, found, h₂) = >>=-eq-ok (found_stencil (find_stencil rs (length rs - 2))) rest h₁ in
    let (final, followed, h₃) =
      >>=-eq-ok
        (follow_swaps (routes_from (p.0 + 1) rs) (type_code p.1 == type_code StepType.update)) _
        h₂ in
    let (_, made) = >>-eq-ok (any_of_type (inline_of p.0 final).scale_type last) _ h₃ in
    let (low, (r, got, type, kind)) =
      found_at rs (length rs - 2) p.0 p.1 (found_some (find_stencil rs (length rs - 2)) p found) in
    let one_more : p.0 + 1 ≡ suc p.0 = omega arith in
    let followed' =
      ap
        (λ (t : StepType).
          follow_swaps (routes_from (suc p.0) rs) (type_code t == type_code StepType.update))
        type
      ∙ sym (
          ap
            (λ (n : ℕ).
              follow_swaps (routes_from n rs) (type_code p.1 == type_code StepType.update))
            one_more)
      ∙ followed in
    subst
      (λ (inline : TerminalScaleInline).
        (final : Bool) × Leads final inline.predict_update_route_index rs
        × (inline.scale_type ≡ scale_of final)
        × (inline.final_storage ≡ buffer_of final))
      (ok-injective made)
      (
        final,
        last_stencil p.0 rs r final w (omega (arith, low)) got kind followed',
        scale_of_final p.0 final,
        buffer_of_final p.0 final,
      )
