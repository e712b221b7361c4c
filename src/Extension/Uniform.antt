-- ===== src/Extension/Uniform.antt =====
-- One formula for each mode, inside the signal as well as outside.
use native.Mathlib.Nat.{mod-eq_of_lt}
use native.Mathlib.Decide.{dec_lt}
use tt_wavelet.Common.{ℕ, ◌+◌, ◌*◌, ◌^◌, ◌<◌, ◌≡◌, refl, arith, false, le→ltb}
use tt_wavelet.Common.Words.{IsI64}
use tt_wavelet.Common.Int.{ℤ, pos, negsuc}
use tt_wavelet.Boundary.{BoundaryMode}
use tt_wavelet.Extension.{
  ExtensionOperation, plain_access, in_signal, extend_outside, make_extended_index,
}
use tt_wavelet.Extension.Period.{floor_remainder}
use tt_wavelet.Extension.Phases.{
  fold_symmetric, fold_reflect, fold_antisymmetric, extend_periodic-floor, extend_symmetric-floor,
  extend_antisymmetric-floor, extend_reflect-floor,
}

-- Inside the signal the access is the sample itself.
pub make-in_signal :
    (mode : BoundaryMode) (a n : ℕ)
    → a < n
    → n < 2 ^ 32
    → make_extended_index mode (pos a) n ≡ plain_access a ExtensionOperation.sample
unfolding make_extended_index
make-in_signal mode a n h hb = ground arith

pub make-outside :
    (mode : BoundaryMode) (index : ℤ) (n : ℕ)
    → 0 < n
    → in_signal index n ≡ false
    → make_extended_index mode index n ≡ extend_outside mode index n
unfolding make_extended_index
make-outside mode index n hn h = ground arith

module _ (n : ℕ) (hn : 0 < n) (hb : n < 2 ^ 32) where
  pub make_periodic :
      (index : ℤ)
      → IsI64 index
      → make_extended_index BoundaryMode.periodic index n
        ≡ plain_access (floor_remainder index n) ExtensionOperation.sample
  unfolding extend_outside
  make_periodic (pos a) hi = elim (dec_lt a n) [
    | yes l ↦ rw (make-in_signal BoundaryMode.periodic a n l hb, mod-eq_of_lt l)
    | no l ↦
        rw (make-outside BoundaryMode.periodic (pos a) n hn (le→ltb a n (omega arith)))
          (extend_periodic-floor (pos a) n hi hn hb)
  ]
  make_periodic (negsuc a) hi =
      rw (make-outside BoundaryMode.periodic (negsuc a) n hn refl)
        (extend_periodic-floor (negsuc a) n hi hn hb)

  pub make_symmetric :
      (index : ℤ)
      → IsI64 index
      → make_extended_index BoundaryMode.symmetric index n
        ≡ plain_access (fold_symmetric (floor_remainder index (2 * n)) n) ExtensionOperation.sample
  unfolding extend_outside
  make_symmetric (pos a) hi = elim (dec_lt a n) [
    | yes l ↦
        rw (make-in_signal BoundaryMode.symmetric a n l hb)
          (ground (arith, mod-eq_of_lt {n = a} {m = 2 * n}))
    | no l ↦
        rw (make-outside BoundaryMode.symmetric (pos a) n hn (le→ltb a n (omega arith)))
          (extend_symmetric-floor (pos a) n hi hn hb)
  ]
  make_symmetric (negsuc a) hi =
      rw (make-outside BoundaryMode.symmetric (negsuc a) n hn refl)
        (extend_symmetric-floor (negsuc a) n hi hn hb)

  pub make_antisymmetric :
      (index : ℤ)
      → IsI64 index
      → make_extended_index BoundaryMode.antisymmetric index n
        ≡ fold_antisymmetric (floor_remainder index (4 * n)) n
  unfolding extend_outside
  make_antisymmetric (pos a) hi = elim (dec_lt a n) [
    | yes l ↦
        rw (make-in_signal BoundaryMode.antisymmetric a n l hb)
          (ground (arith, mod-eq_of_lt {n = a} {m = 4 * n}))
    | no l ↦
        rw (make-outside BoundaryMode.antisymmetric (pos a) n hn (le→ltb a n (omega arith)))
          (extend_antisymmetric-floor (pos a) n hi hn hb)
  ]
  make_antisymmetric (negsuc a) hi =
      rw (make-outside BoundaryMode.antisymmetric (negsuc a) n hn refl)
        (extend_antisymmetric-floor (negsuc a) n hi hn hb)

module _ (m : ℕ) (hm : 0 < m) (hb : m + 1 < 2 ^ 32) where
  pub make_reflect :
      (index : ℤ)
      → IsI64 index
      → make_extended_index BoundaryMode.reflect index (m + 1)
        ≡ plain_access (fold_reflect (floor_remainder index (2 * m)) m) ExtensionOperation.sample
  unfolding extend_outside
  make_reflect (pos a) hi = elim (dec_lt a (m + 1)) [
    | yes l ↦
        rw (make-in_signal BoundaryMode.reflect a (m + 1) l hb)
          (ground (arith, mod-eq_of_lt {n = a} {m = 2 * m}))
    | no l ↦
        rw
          (make-outside BoundaryMode.reflect (pos a) (m + 1) (omega arith)
            (le→ltb a (m + 1) (omega arith)))
          (extend_reflect-floor (pos a) m hi hm hb)
  ]
  make_reflect (negsuc a) hi =
      rw (make-outside BoundaryMode.reflect (negsuc a) (m + 1) (omega arith) refl)
        (extend_reflect-floor (negsuc a) m hi hm hb)
