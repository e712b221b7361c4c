-- ===== src/Plan/Forward.antt =====
-- The whole forward plan: `make_forward_lifting_plan`.
use native.Mathlib.Decide.{dec_lt}
use tt_wavelet.Common.{
  ℕ, ◌+◌, ◌-◌, ◌*◌, ◌/◌, ◌≤◌, ◌<◌, ◌^◌, ◌≡◌, subst, List, [], ◌∷◌, ◌++◌, All, arith, ok, >>=-eq-ok,
  >>-eq-ok, ok-injective, leb, ◌==◌,
}
use tt_wavelet.Common.Words.{sub32}
use tt_wavelet.Boundary.{BoundaryMode}
use tt_wavelet.Signal.{SignalBuffer, Signal, float_bytes}
use tt_wavelet.Signal.Split.{Shares, make_pad_split_1d_layout-Shares}
use tt_wavelet.Plan.{
  StepType, Scheme, LiftingStepRoute, LiftingForwardPlan, to_final_dram, append_forward_routes,
  route_terminal_scales_to_final_dram, preprocess, initial_state, make_forward_lifting_plan,
  assemble_plan,
}
use tt_wavelet.Plan.Terminal.{
  EndsInScales, OnlyEndsInScales, EndsInScales-only, kinds_of, route_terminal_scales_iff,
}
use tt_wavelet.Plan.Chain.{Transition, Chain, done, route, IsStatic, append_forward_routes-Chain}

to_final_dram-Transition :
    (t : StepType) (r : LiftingStepRoute) (e o e' o' : ℕ)
    → Transition t r e o e' o'
    → Transition t (to_final_dram r) e o e' o'
to_final_dram-Transition StepType.predict r e o e' o' (p, q, u, v, st) = (
  p,
  q,
  u,
  v,
  record {
    padded = st.padded;
    source_fits = st.source_fits;
    base_fits = st.base_fits;
    output_fits = st.output_fits;
  },
)
to_final_dram-Transition StepType.update r e o e' o' (p, q, u, v, st) = (
  p,
  q,
  u,
  v,
  record {
    padded = st.padded;
    source_fits = st.source_fits;
    base_fits = st.base_fits;
    output_fits = st.output_fits;
  },
)
to_final_dram-Transition StepType.scale_even r e o e' o' h = h
to_final_dram-Transition StepType.scale_odd r e o e' o' h = h
to_final_dram-Transition StepType.swap r e o e' o' h = h

Chain-to_final_dram :
    (leading : List LiftingStepRoute) (a b : LiftingStepRoute) {e o e' o' : ℕ}
    → Chain e o (leading ++ (a ∷ b ∷ [])) e' o'
    → Chain e o (leading ++ (to_final_dram a ∷ to_final_dram b ∷ [])) e' o'
Chain-to_final_dram [] a b (route s (route t done)) =
    route (to_final_dram-Transition a.type a _ _ _ _ s)
      (route (to_final_dram-Transition b.type b _ _ _ _ t) done)
Chain-to_final_dram (r ∷ leading) a b (route s c) = route s (Chain-to_final_dram leading a b c)

EndsInScales-Chain :
    (rs out : List LiftingStepRoute) {e o e' o' : ℕ}
    → EndsInScales rs out
    → Chain e o rs e' o'
    → Chain e o out e' o'
EndsInScales-Chain rs out {e} {o} {e'} {o'} s c = rw ((kinds_of s).1) (
    Chain-to_final_dram s.leading s.first s.second
      (subst (λ (l : List LiftingStepRoute). Chain e o l e' o') s.routes c))

-- A scheme class: its static assertions hold.
pub record IsScheme (s : Scheme) : Type 0 where
  pub tap_pos : 0 < s.tap_size
  pub steps_static : All IsStatic s.steps

-- The padded signal is short enough for its halves to fit `int`.
abbrev pub Fits : Scheme → SignalBuffer → Type 0
Fits s input = input.length + 2 * s.tap_size < 2 ^ 32

below_of_share : (x n : ℕ) → (2 ^ 31 - 1 < x → 2 ^ 32 - 2 ≤ n) → n < 2 ^ 32 - 2 → x < 2 ^ 31
below_of_share x n h b = elim (dec_lt x (2 ^ 31)) [
  | yes l ↦ l
  | no l ↦ absurd (omega (arith, h (omega arith)))
]

split_short : (o : Signal) (n : ℕ) → Shares n o → n < 2 ^ 32 - 2 → o.even.length < 2 ^ 31
split_short o n h b = below_of_share _ n (λ l. omega (arith, (h.1 (2 ^ 31 - 1)).0 l)) b

split_short_odd : (o : Signal) (n : ℕ) → Shares n o → n < 2 ^ 32 - 2 → o.odd.length < 2 ^ 31
split_short_odd o n h b = below_of_share _ n (λ l. omega (arith, (h.2 (2 ^ 31 - 1)).0 l)) b

-- What a plan promises of a scheme and an input: its split streams share out the padded signal,
-- its routes lead from their lengths to the final lengths with all reads in the streams, end in a scale
-- of each kind and hold no other, and its output has half the samples of the input and the filter
-- taps, rounded down.
pub record Planned (s : Scheme) (input : SignalBuffer) (p : LiftingForwardPlan) : Type 0 where
  pub split : Shares (input.length + 2 * (s.tap_size - 1)) p.preprocess_layout.output
  pub chain :
      Chain p.preprocess_layout.output.even.length p.preprocess_layout.output.odd.length p.routes
        p.final_even_length p.final_odd_length
  pub scales : OnlyEndsInScales p.routes
  pub halved : p.output_length ≡ (input.length + s.tap_size - 1) / 2

module _ (s : Scheme) (input : SignalBuffer) (even_addr odd_addr : ℕ) (mode : BoundaryMode)
    (is : IsScheme s) (fits : Fits s input) where
  padded_split :
      Shares
        (input.length + 2 * (s.tap_size - 1))
        (preprocess s input even_addr odd_addr mode).output
  padded_split =
      let pad = sub32 s.tap_size 1 in
      let e : pad ≡ s.tap_size - 1 = omega (arith, is.tap_pos) in
      let whole : input.length + pad + pad ≡ input.length + 2 * (s.tap_size - 1) =
        omega (arith, is.tap_pos) in
      rw whole at (
        (make_pad_split_1d_layout-Shares input even_addr odd_addr
          (record { mode = mode; left = pad; right = pad }) (omega (arith, is.tap_pos))).1)

  assembled-Planned :
      (routes : List LiftingStepRoute)
      → let layout = preprocess s input even_addr odd_addr mode in
        let (pushed, end) = append_forward_routes s.steps (initial_state s layout) in
        EndsInScales pushed routes → Planned s input (assemble_plan s input layout end routes)
  assembled-Planned routes scales =
      let layout = preprocess s input even_addr odd_addr mode in
      let split = padded_split in
      let padded : input.length + 2 * (s.tap_size - 1) < 2 ^ 32 - 2 = omega (arith, is.tap_pos) in
      record {
        split = split;
        chain = EndsInScales-Chain _ routes scales (
            append_forward_routes-Chain s.steps (initial_state s layout)
              (
                split_short layout.output _ split padded,
                split_short_odd layout.output _ split padded,
              )
              is.steps_static);
        scales = EndsInScales-only _ routes scales;
        halved = omega (arith, is.tap_pos);
      }

  -- For a scheme class and an input of fewer than 2 ^ 32 samples with twice the taps, every plan that
  -- is made keeps four promises: its split streams share out the padded signal, its routes lead from
  -- their lengths to the final lengths with all reads in the streams, they end in a scale of each kind
  -- and hold no other, and its output length is half of the input samples and the taps less one, rounded
  -- down.
  pub make_forward_lifting_plan-Planned :
      (p : LiftingForwardPlan)
      → make_forward_lifting_plan s input even_addr odd_addr mode ≡ ok p
      → Planned s input p
  unfolding make_forward_lifting_plan
  make_forward_lifting_plan-Planned p h =
      let layout = preprocess s input even_addr odd_addr mode in
      let run = append_forward_routes s.steps (initial_state s layout) in
      let (_, h₁) = >>-eq-ok (input.element_size_bytes == float_bytes) _ h in
      let (_, h₂) = >>-eq-ok (leb input.length (2 ^ 32 - 1)) _ h₁ in
      let (routes, e, same) =
        >>=-eq-ok (route_terminal_scales_to_final_dram run.0)
          (λ routes. ok (assemble_plan s input layout run.1 routes)) h₂ in
      subst (Planned s input) (ok-injective same)
        (assembled-Planned routes ((route_terminal_scales_iff run.0 routes).0 e))
