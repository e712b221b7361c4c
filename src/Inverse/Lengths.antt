-- ===== src/Inverse/Lengths.antt =====
-- The coefficient lengths that make_inverse_lifting_plan accepts.
use tt_wavelet.Common.{
  ℕ, ◌^◌, ◌<◌, ◌≡◌, ◌↔◌, ◌⊎◌, refl, sym, ap, arith, true, ok, require, ◌>>◌, >>=-eq-ok, >>-eq-ok,
  ok-injective, ltb, ltb→lt, lt→ltb,
}
use tt_wavelet.Boundary.{BoundaryMode}
use tt_wavelet.Signal.{round_up}
use tt_wavelet.Signal.Rounding.{round_up_least}
use tt_wavelet.Plan.{Scheme, LiftingForwardPlan, make_forward_lifting_plan}
use tt_wavelet.Inverse.{
  LiftingInversePlan, original_buffer, length_valid, make_inverse_lifting_plan,
}

length_valid_iff :
    (n c : ℕ)
    → n < 2 ^ 63
    → c < 2 ^ 64
    → (length_valid n c ≡ true) ↔ ((c ≡ n) ⊎ (c ≡ round_up n 32))
length_valid_iff n c hn hc =
    let least = round_up_least n 32 (omega arith) (omega arith) in
    (λ h. ground (arith, least), λ h. ground (arith, least))

-- An inverse plan is made of a scheme and lengths exactly where the original signal has a sample, the
-- forward plan of its length is made, and the coefficients are as many as that plan's outputs, or as
-- many as these rounded up to whole sticks; the plan then keeps the trace and both lengths. The
-- lengths are below 2 ^ 63 and 2 ^ 64.
pub make_inverse_lifting_plan_iff :
    (s : Scheme) (original coefficients : ℕ) (mode : BoundaryMode) (p : LiftingInversePlan)
    → p.forward_trace.output_length < 2 ^ 63
    → coefficients < 2 ^ 64
    → (make_inverse_lifting_plan s original coefficients mode ≡ ok p) ↔ (
        (0 < original)
        × (make_forward_lifting_plan s (original_buffer original) 0 0 mode ≡ ok p.forward_trace)
        × ((coefficients ≡ p.forward_trace.output_length)
            ⊎ (coefficients ≡ round_up p.forward_trace.output_length 32))
        × (p.original_length ≡ original)
        × (p.coefficient_length ≡ coefficients))
unfolding make_inverse_lifting_plan
make_inverse_lifting_plan_iff s original c mode p bound word = (
  λ h.
      let (some_sample, h₁) = >>-eq-ok (ltb 0 original) _ h in
      let (trace, made, h₂) =
        >>=-eq-ok (make_forward_lifting_plan s (original_buffer original) 0 0 mode)
          (λ trace. require (length_valid trace.output_length c) >> ok (inverse_of trace)) h₁ in
      let (valid, h₃) = >>-eq-ok (length_valid trace.output_length c) (ok (inverse_of trace)) h₂ in
      let same : inverse_of trace ≡ p = ok-injective h₃ in
      let traces : trace ≡ p.forward_trace =
        ap (λ (q : LiftingInversePlan). q.forward_trace) same in
      (
        ltb→lt 0 original some_sample,
        rw made (ap ok traces),
        (length_valid_iff p.forward_trace.output_length c bound word).0 (rw traces at valid),
        sym (ap (λ (q : LiftingInversePlan). q.original_length) same),
        sym (ap (λ (q : LiftingInversePlan). q.coefficient_length) same),
      ),
  λ q.
      rw
        (
          lt→ltb 0 original q.0,
          q.1,
          (length_valid_iff p.forward_trace.output_length c bound word).1 q.2,
        )
        (rw (← q.3, ← q.4) refl),
)
  where
    inverse_of : LiftingForwardPlan → LiftingInversePlan
    inverse_of trace = record {
      forward_trace = trace;
      original_length = original;
      coefficient_length = c;
    }
