-- ===== src/Plan/Terminal.antt =====
-- The terminal scales of the forward plan: `route_terminal_scales_to_final_dram`.
use tt_wavelet.Common.{
  ◌≡◌, refl, sym, ap, ◌∙◌, ◌⊎◌, inl, inr, ◌↔◌, true, false, not, ◌&&◌, List, [], ◌∷◌, ◌++◌, All,
  arith, ok, ◌>>=◌, >>=-eq-ok, >>-eq-ok, length, length-append, ◌≤◌,
}
use tt_wavelet.Plan.{
  StepType, RouteOutputStorage, LiftingStepRoute, is_scale_step, scales_differ, final_storage,
  to_final_dram, route_terminal_scales_to_final_dram,
}

-- The route whose output goes to a storage, with all else kept.
abbrev pub sent : RouteOutputStorage → LiftingStepRoute → LiftingStepRoute
sent storage r = record r { output = record { storage = storage; slot = r.output.slot } }

-- `rs` is a list of routes that are no scales, then a scale of each kind; `out` is the same list
-- with the output of the scale of the even stream sent to the even final buffer, and that of the odd
-- one to the odd final buffer.
pub record EndsInScales (rs out : List LiftingStepRoute) : Type 0 where
  pub leading : List LiftingStepRoute
  pub first : LiftingStepRoute
  pub second : LiftingStepRoute
  pub routes : rs ≡ leading ++ (first ∷ second ∷ [])
  pub no_scale : All (λ r. is_scale_step r.type ≡ false) leading
  pub delivered :
      ((first.type ≡ StepType.scale_even)
        × (second.type ≡ StepType.scale_odd)
        × (out
            ≡ leading
              ++ (sent RouteOutputStorage.final_even_dram first
                  ∷ sent RouteOutputStorage.final_odd_dram second
                  ∷ [])))
      ⊎ ((first.type ≡ StepType.scale_odd)
          × (second.type ≡ StepType.scale_even)
          × (out
              ≡ leading
                ++ (sent RouteOutputStorage.final_odd_dram first
                    ∷ sent RouteOutputStorage.final_even_dram second
                    ∷ [])))

sent_even :
    (r : LiftingStepRoute)
    → r.type ≡ StepType.scale_even
    → to_final_dram r ≡ sent RouteOutputStorage.final_even_dram r
sent_even r h = ap (λ (t : StepType). sent (final_storage t) r) h

sent_odd :
    (r : LiftingStepRoute)
    → r.type ≡ StepType.scale_odd
    → to_final_dram r ≡ sent RouteOutputStorage.final_odd_dram r
sent_odd r h = ap (λ (t : StepType). sent (final_storage t) r) h

two_ends :
    (leading : List LiftingStepRoute) {a b c d : LiftingStepRoute}
    → a ≡ c
    → b ≡ d
    → leading ++ (a ∷ b ∷ []) ≡ leading ++ (c ∷ d ∷ [])
two_ends leading p q = cc

-- Which scales the two last routes are.
abbrev pub TwoScales : LiftingStepRoute → LiftingStepRoute → Type 0
TwoScales first second =
    ((first.type ≡ StepType.scale_even) × (second.type ≡ StepType.scale_odd))
    ⊎ ((first.type ≡ StepType.scale_odd) × (second.type ≡ StepType.scale_even))

-- The routes end in a scale of each kind and hold no other scale.
abbrev pub OnlyEndsInScales : List LiftingStepRoute → Type 0
OnlyEndsInScales [] = ⊥
OnlyEndsInScales (x ∷ []) = ⊥
OnlyEndsInScales (x ∷ y ∷ []) = TwoScales x y
OnlyEndsInScales (x ∷ y ∷ z ∷ routes) =
    (is_scale_step x.type ≡ false) × OnlyEndsInScales (y ∷ z ∷ routes)

delivered_of :
    (leading out : List LiftingStepRoute) (first second : LiftingStepRoute)
    → TwoScales first second
    → out ≡ leading ++ (to_final_dram first ∷ to_final_dram second ∷ [])
    → ((first.type ≡ StepType.scale_even)
        × (second.type ≡ StepType.scale_odd)
        × (out
            ≡ leading
              ++ (sent RouteOutputStorage.final_even_dram first
                  ∷ sent RouteOutputStorage.final_odd_dram second
                  ∷ [])))
      ⊎ ((first.type ≡ StepType.scale_odd)
          × (second.type ≡ StepType.scale_even)
          × (out
              ≡ leading
                ++ (sent RouteOutputStorage.final_odd_dram first
                    ∷ sent RouteOutputStorage.final_even_dram second
                    ∷ [])))
delivered_of leading out first second (inl k) e =
    inl (k.0, k.1, e ∙ two_ends leading (sent_even first k.0) (sent_odd second k.1))
delivered_of leading out first second (inr k) e =
    inr (k.0, k.1, e ∙ two_ends leading (sent_odd first k.0) (sent_even second k.1))

pub kinds_of :
    {rs out : List LiftingStepRoute} (e : EndsInScales rs out)
    → TwoScales e.first e.second
      × (out ≡ e.leading ++ (to_final_dram e.first ∷ to_final_dram e.second ∷ []))
kinds_of e = elim e.delivered [
  | inl k ↦ (
    inl (k.0, k.1),
    k.2 ∙ sym (two_ends e.leading (sent_even e.first k.0) (sent_odd e.second k.1)),
  )
  | inr k ↦ (
    inr (k.0, k.1),
    k.2 ∙ sym (two_ends e.leading (sent_odd e.first k.0) (sent_even e.second k.1)),
  )
]

terminal-EndsInScales :
    (rs out : List LiftingStepRoute)
    → route_terminal_scales_to_final_dram rs ≡ ok out
    → EndsInScales rs out
unfolding route_terminal_scales_to_final_dram
terminal-EndsInScales [] out h = cc
terminal-EndsInScales (r ∷ []) out h = cc
terminal-EndsInScales (a ∷ b ∷ []) out h =
    let (test, done) = >>-eq-ok _ _ h in
    record {
      leading = [];
      first = a;
      second = b;
      routes = refl;
      no_scale = tt;
      delivered = delivered_of [] out a b (kinds_of_test a.type b.type test) cc;
    }
  where
    kinds_of_test :
        (s t : StepType)
        → (is_scale_step s && is_scale_step t && scales_differ s t) ≡ true
        → ((s ≡ StepType.scale_even) × (t ≡ StepType.scale_odd))
          ⊎ ((s ≡ StepType.scale_odd) × (t ≡ StepType.scale_even))
    kinds_of_test s t h = unfold is_scale_step in ground arith
terminal-EndsInScales (r ∷ s ∷ t ∷ rs) out h =
    let (test, more) = >>-eq-ok (not (is_scale_step r.type)) _ h in
    let (rest, e, done) =
      >>=-eq-ok (route_terminal_scales_to_final_dram (s ∷ t ∷ rs)) (λ rest. ok (r ∷ rest)) more in
    let ih = terminal-EndsInScales (s ∷ t ∷ rs) rest e in
    record {
      leading = r ∷ ih.leading;
      first = ih.first;
      second = ih.second;
      routes = ap (◌∷◌ r) ih.routes;
      no_scale = (ground arith, ih.no_scale);
      delivered =
          delivered_of (r ∷ ih.leading) out ih.first ih.second (kinds_of ih).0
            (cc ((kinds_of ih).1));
    }

terminal-cons :
    (r : LiftingStepRoute) (xs : List LiftingStepRoute)
    → 2 ≤ length xs
    → is_scale_step r.type ≡ false
    → route_terminal_scales_to_final_dram (r ∷ xs)
      ≡ (route_terminal_scales_to_final_dram xs >>= λ rest. ok (r ∷ rest))
unfolding route_terminal_scales_to_final_dram
terminal-cons r [] h e = absurd (omega arith)
terminal-cons r (s ∷ []) h e = absurd (omega arith)
terminal-cons r (s ∷ t ∷ xs) h e = rw e

terminal-append :
    (leading : List LiftingStepRoute) (a b : LiftingStepRoute)
    → All (λ r. is_scale_step r.type ≡ false) leading
    → TwoScales a b
    → route_terminal_scales_to_final_dram (leading ++ (a ∷ b ∷ []))
      ≡ ok (leading ++ (to_final_dram a ∷ to_final_dram b ∷ []))
terminal-append [] a b n k =
    unfold route_terminal_scales_to_final_dram is_scale_step in ground arith
terminal-append (r ∷ leading) a b n k = rw (
  terminal-cons r (leading ++ (a ∷ b ∷ [])) (omega (arith, length-append leading (a ∷ b ∷ []))) n.0,
  terminal-append leading a b n.1 k,
)

-- The terminal scales are accepted exactly where the routes end in a scale of each kind and hold
-- no other scale; then these two alone are sent to the final buffers, the scale of the even stream to
-- the even buffer and that of the odd stream to the odd one.
pub route_terminal_scales_iff :
    (rs out : List LiftingStepRoute)
    → (route_terminal_scales_to_final_dram rs ≡ ok out) ↔ EndsInScales rs out
route_terminal_scales_iff rs out = (
  terminal-EndsInScales rs out,
  λ e.
      let (kinds, result) = kinds_of e in
      rw (e.routes, result) (terminal-append e.leading e.first e.second e.no_scale kinds),
)

scales_only :
    (leading : List LiftingStepRoute) (x y : LiftingStepRoute)
    → All (λ r. is_scale_step r.type ≡ false) leading
    → TwoScales x y
    → OnlyEndsInScales (leading ++ (x ∷ y ∷ []))
scales_only [] x y n k = k
scales_only (r ∷ []) x y n k = (n.0, k)
scales_only (r ∷ s ∷ []) x y n k = (n.0, scales_only (s ∷ []) x y n.1 k)
scales_only (r ∷ s ∷ t ∷ leading) x y n k = (n.0, scales_only (s ∷ t ∷ leading) x y n.1 k)

pub EndsInScales-only :
    (rs out : List LiftingStepRoute) → EndsInScales rs out → OnlyEndsInScales out
EndsInScales-only rs out e =
    let (kinds, result) = kinds_of e in
    rw result
      (scales_only e.leading (to_final_dram e.first) (to_final_dram e.second) e.no_scale kinds)
