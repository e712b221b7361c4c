-- ===== src/Extension/Evaluate/Device.antt =====
-- The 32-bit helpers of the device kernels agree with the canonical descriptors on the ranges
-- that their comments name.
use native.Mathlib.Decide.{dec_lt}
use native.Mathlib.Nat.{mod-lt, mod-eq_of_lt, div-le_self, div-lt_self}
use tt_wavelet.Common.{
  ℕ, zero, suc, ◌+◌, ◌*◌, ◌/◌, ◌%◌, ◌^◌, ◌<◌, ◌≡◌, refl, sym, arith, inl, inr, le→ltb, ltb, false,
  true, if◌then◌else◌,
}
use tt_wavelet.Common.Int.{ℤ, pos, negsuc, ltb_ℤ, ◌-ℤ◌, ◌*ℤ◌}
use tt_wavelet.Common.Words.{IsI32, IsI64, to_i32_small, sub32, to_u32, u32}
use tt_wavelet.Boundary.{BoundaryMode}
use tt_wavelet.Extension.{
  make_extended_index, left_distance, no_antireflect, in_signal, extend_outside, extend_antireflect,
  extend_smooth, symmetric_phase_i32, extension_positive_mod_i32, extension_positive_mod,
  make_symmetric_index_i32, antireflect_period_i32, make_antireflect_index_i32,
  make_smooth_index_i32,
}
use tt_wavelet.Extension.Evaluate.{
  Floats, evaluate_extended_index, evaluate_antireflect_index_i32, evaluate_smooth_index_i32,
  visit_extended_source_indices, visit_antireflect_source_indices_i32,
  visit_smooth_source_indices_i32,
}
use tt_wavelet.Extension.Period.{
  floor_remainder, floor_quotient, floor_remainder-lt, floor_period, suc-div-mod,
  decompose-floor_period, neg_ℕ-sub_one, negsuc-+ℤ,
}
use tt_wavelet.Extension.Phases.{fold_symmetric, fold_reflect, extend_antireflect-floor}
use tt_wavelet.Extension.Uniform.{make_symmetric, make-in_signal, make-outside}

IsI32-IsI64 : (index : ℤ) → IsI32 index → IsI64 index
IsI32-IsI64 (pos a) h = omega arith
IsI32-IsI64 (negsuc a) h = omega arith

magnitude_i32 : (a : ℕ) → a < 2 ^ 31 → sub32 0 (to_u32 (negsuc a)) ≡ suc a
magnitude_i32 a h = omega arith

positive_mod_i32-floor :
    (index : ℤ) (p : ℕ)
    → IsI32 index
    → 0 < p
    → p < 2 ^ 32
    → extension_positive_mod_i32 index p ≡ floor_remainder index p
unfolding extension_positive_mod_i32
positive_mod_i32-floor (pos a) p hi hp hb = ground (arith, mod-eq_of_lt {n = a} {m = 2 ^ 32})
positive_mod_i32-floor (negsuc a) p hi hp hb =
    rw (magnitude_i32 a hi) (ground (arith, suc-div-mod a p hp, mod-lt (suc a) hp))

-- The 32-bit remainder is the 64-bit one, at every `int32_t` index and `uint32_t` period but 0.
pub extension_positive_mod_i32-eq :
    (index : ℤ) (p : ℕ)
    → IsI32 index
    → 0 < p
    → p < 2 ^ 32
    → extension_positive_mod_i32 index p ≡ extension_positive_mod index p
unfolding extension_positive_mod
extension_positive_mod_i32-eq index p hi hp hb =
    rw
      (
        decompose-floor_period index p (IsI32-IsI64 index hi) hp (omega arith),
        positive_mod_i32-floor index p hi hp hb,
      )
      (sym (
        mod-eq_of_lt {n = floor_remainder index p} {m = 2 ^ 32}
          (omega (arith, floor_remainder-lt index p hp))))

symmetric_phase-floor :
    (index : ℤ) (p : ℕ) → 0 < p → symmetric_phase_i32 index (pos p) ≡ pos (floor_remainder index p)
symmetric_phase-floor (pos a) p hp = ground arith
symmetric_phase-floor (negsuc a) p hp = elim (suc-div-mod a p hp) [
  | inl (r, q, l) ↦ rw (r, l) (ground arith)
  | inr (r, q, l) ↦ rw (l, negsuc-+ℤ (a % p) p) (ground (arith, mod-lt a hp))
]

twice : (n : ℕ) → pos 2 *ℤ pos n ≡ pos (2 * n)
unfolding ◌*ℤ◌
twice n = ground arith

unfold_phase :
    (r n : ℕ)
    → r < 2 * n
    → 2 * n < 2 ^ 31
    → to_u32 (if ltb_ℤ (pos r) (pos n) then pos r else pos (2 * n) -ℤ pos 1 -ℤ pos r)
      ≡ fold_symmetric r n
unfolding ◌-ℤ◌
unfold_phase r n h hb = ground arith

symmetric_i32-outside :
    (index : ℤ) (n : ℕ)
    → in_signal index n ≡ false
    → 0 < n
    → 2 * n < 2 ^ 31
    → make_symmetric_index_i32 index n ≡ fold_symmetric (floor_remainder index (2 * n)) n
unfolding make_symmetric_index_i32
symmetric_i32-outside index n out hn hb =
    rw (out, to_i32_small n (omega arith), twice, symmetric_phase-floor index (2 * n) (omega arith))
      (unfold_phase _ n (floor_remainder-lt index (2 * n) (omega arith)) hb)

symmetric_i32-fold :
    (index : ℤ) (n : ℕ)
    → IsI32 index
    → 0 < n
    → 2 * n < 2 ^ 31
    → make_symmetric_index_i32 index n ≡ fold_symmetric (floor_remainder index (2 * n)) n
symmetric_i32-fold (pos a) n hi hn hb = elim (dec_lt a n) [
  | yes l ↦ unfold make_symmetric_index_i32 in ground (arith, mod-eq_of_lt {n = a} {m = 2 * n})
  | no l ↦ symmetric_i32-outside (pos a) n (le→ltb a n (omega arith)) hn hb
]
symmetric_i32-fold (negsuc a) n hi hn hb = symmetric_i32-outside (negsuc a) n refl hn hb

-- On a signal of at most INT32_MAX / 2 samples the 32-bit symmetric helper reads the sample of
-- the canonical descriptor.
pub make_symmetric_index_i32-eq :
    (index : ℤ) (n : ℕ)
    → IsI32 index
    → 0 < n
    → 2 * n < 2 ^ 31
    → make_symmetric_index_i32 index n
      ≡ (make_extended_index BoundaryMode.symmetric index n).source_index
make_symmetric_index_i32-eq index n hi hn hb =
    rw (make_symmetric n hn (omega arith) index (IsI32-IsI64 index hi))
      (symmetric_i32-fold index n hi hn hb)

antireflect_period_i32-floor :
    (index : ℤ) (p : ℕ)
    → IsI32 index
    → 1 < p
    → p < 2 ^ 32
    → antireflect_period_i32 index p ≡ floor_period index p
unfolding antireflect_period_i32
antireflect_period_i32-floor (pos a) p hi hp hb =
    ground (arith, mod-eq_of_lt {n = a} {m = 2 ^ 32}, div-le_self a p)
antireflect_period_i32-floor (negsuc a) p hi hp hb =
    rw (magnitude_i32 a hi) (elim (suc-div-mod a p (omega arith)) [
      | inl (r, q, l) ↦ rw (r, to_i32_small (suc a / p) (small a p hi hp), q) (ground arith)
      | inr (r, q, l) ↦
          rw (to_i32_small (suc a / p) (small a p hi hp), l, q, neg_ℕ-sub_one)
            (ground (arith, mod-lt a {m = p}))
    ])
  where
    small : (a p : ℕ) → a < 2 ^ 31 → 1 < p → suc a / p < 2 ^ 31
    small a p h k = omega (arith, div-lt_self {n = suc a} {k = p} (omega arith) k)

antireflect_i32-in_signal :
    (a n : ℕ)
    → a < n
    → n < 2 ^ 31
    → make_antireflect_index_i32 (pos a) n ≡ record no_antireflect { source_index = a }
unfolding make_antireflect_index_i32
antireflect_i32-in_signal a n h hb = ground arith

antireflect_i32-outside :
    (index : ℤ) (m : ℕ)
    → IsI32 index
    → in_signal index (m + 1) ≡ false
    → 0 < m
    → m + 1 < 2 ^ 31
    → make_antireflect_index_i32 index (m + 1) ≡ record {
      source_index = fold_reflect (floor_remainder index (2 * m)) m;
      period_quotient = floor_quotient index (2 * m);
      reflected = ltb m (floor_remainder index (2 * m));
      affine = true;
    }
unfolding make_antireflect_index_i32
antireflect_i32-outside index m hi out hm hb =
    rw
      (out, last, period, antireflect_period_i32-floor index (2 * m) hi (omega arith) (omega arith))
      (ground (arith, floor_remainder-lt index (2 * m)))
  where
    last : sub32 (m + 1) 1 ≡ m
    last = omega arith

    period : u32 (2 * m) ≡ 2 * m
    period = omega arith

left_distance-negsuc : (a : ℕ) → a < 2 ^ 31 → left_distance (negsuc a) ≡ suc a
left_distance-negsuc zero h = rw (negsuc-+ℤ 0 1) refl
left_distance-negsuc (suc a) h = rw (negsuc-+ℤ (suc a) 1) (ground arith)

module _ (fl : Floats) (read : ℕ → fl.Float) where
  antireflect_i32-beyond :
      (index : ℤ) (n : ℕ)
      → IsI32 index
      → in_signal index n ≡ false
      → 0 < n
      → n < 2 ^ 31
      → let device = make_antireflect_index_i32 index n in
        let canonical = make_extended_index BoundaryMode.antireflect index n in
        (evaluate_antireflect_index_i32 fl device n read
          ≡ evaluate_extended_index fl canonical n read)
        × (visit_antireflect_source_indices_i32 device n
            ≡ visit_extended_source_indices canonical n)
  unfolding evaluate_antireflect_index_i32 evaluate_extended_index
      visit_antireflect_source_indices_i32 visit_extended_source_indices
  antireflect_i32-beyond index zero hi out hn hb = absurd (omega arith)
  antireflect_i32-beyond index (suc zero) hi out hn hb =
      rw (make-outside BoundaryMode.antireflect index 1 hn out)
        (unfold extend_outside extend_antireflect make_antireflect_index_i32 in rw out (refl, refl))
  antireflect_i32-beyond index (suc (suc k)) hi out hn hb =
      let e : suc (suc k) ≡ suc k + 1 = omega arith in
      rw (make-outside BoundaryMode.antireflect index (suc (suc k)) hn out) (
        unfold extend_outside in
        rw e (
          rw
            (
              antireflect_i32-outside index (suc k) hi (rw e at out) (omega arith) (omega arith),
              extend_antireflect-floor index (suc k) (IsI32-IsI64 index hi) (omega arith)
                  (omega arith),
            )
            (refl, refl)))

  -- On a signal of at most INT32_MAX samples, and not empty, the 32-bit antireflect helper has
  -- the value of the canonical descriptor, and reads the same positions.
  pub antireflect_i32-eq :
      (index : ℤ) (n : ℕ)
      → IsI32 index
      → 0 < n
      → n < 2 ^ 31
      → let device = make_antireflect_index_i32 index n in
        let canonical = make_extended_index BoundaryMode.antireflect index n in
        (evaluate_antireflect_index_i32 fl device n read
          ≡ evaluate_extended_index fl canonical n read)
        × (visit_antireflect_source_indices_i32 device n
            ≡ visit_extended_source_indices canonical n)
  unfolding evaluate_antireflect_index_i32 evaluate_extended_index
      visit_antireflect_source_indices_i32 visit_extended_source_indices
  antireflect_i32-eq (pos a) n hi hn hb = elim (dec_lt a n) [
    | yes l ↦
        rw
          (
            antireflect_i32-in_signal a n l hb,
            make-in_signal BoundaryMode.antireflect a n l (omega arith),
          )
          (refl, refl)
    | no l ↦ antireflect_i32-beyond (pos a) n hi (le→ltb a n (omega arith)) hn hb
  ]
  antireflect_i32-eq (negsuc a) n hi hn hb = antireflect_i32-beyond (negsuc a) n hi refl hn hb

  -- So does the 32-bit smooth helper.
  pub smooth_i32-eq :
      (index : ℤ) (n : ℕ)
      → IsI32 index
      → 0 < n
      → n < 2 ^ 31
      → let device = make_smooth_index_i32 index n in
        let canonical = make_extended_index BoundaryMode.smooth index n in
        (evaluate_smooth_index_i32 fl device read ≡ evaluate_extended_index fl canonical n read)
        × (visit_smooth_source_indices_i32 device ≡ visit_extended_source_indices canonical n)
  unfolding evaluate_smooth_index_i32 evaluate_extended_index make_smooth_index_i32
      visit_smooth_source_indices_i32 visit_extended_source_indices
  smooth_i32-eq (pos a) n hi hn hb =
      unfold make_extended_index extend_outside extend_smooth in ground arith
  smooth_i32-eq (negsuc a) n hi hn hb =
      unfold make_extended_index extend_outside extend_smooth in
      ground (arith, left_distance-negsuc a hi)
