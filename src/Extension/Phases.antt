-- ===== src/Extension/Phases.antt =====
-- The branches of `make_extended_index` by the phase of the index in its period.
use native.Mathlib.Nat.{mod-eq_of_lt}
use tt_wavelet.Common.{ℕ, ◌+◌, ◌-◌, ◌*◌, ◌^◌, ◌<◌, ◌≡◌, arith, ltb, leb, if◌then◌else◌}
use tt_wavelet.Common.Int.{ℤ}
use tt_wavelet.Common.Words.{IsI64, sub32}
use tt_wavelet.Extension.{
  ExtensionOperation, ExtendedIndex, plain_access, no_access, extension_positive_mod,
  extend_periodic, extend_symmetric, extend_antisymmetric, extend_reflect, extend_antireflect,
}
use tt_wavelet.Extension.Period.{
  floor_quotient, floor_remainder, floor_remainder-lt, decompose-floor_period,
}

-- The source position of a phase: the signal, then the signal backwards, then again.
abbrev pub fold_symmetric : ℕ → ℕ → ℕ
fold_symmetric phase n = if ltb phase n then phase else 2 * n - 1 - phase

-- The same where the edge samples are not repeated; `m` is the last position.
abbrev pub fold_reflect : ℕ → ℕ → ℕ
fold_reflect phase m = if leb phase m then phase else 2 * m - phase

module _ (index : ℤ) (n : ℕ) (hi : IsI64 index) (hn : 0 < n) (hb : n < 2 ^ 32) where
  pub extend_periodic-floor :
      extend_periodic index n ≡ plain_access (floor_remainder index n) ExtensionOperation.sample
  unfolding extend_periodic extension_positive_mod
  extend_periodic-floor = rw (decompose-floor_period index n hi hn (omega arith)) (
      rw (
        mod-eq_of_lt {n = floor_remainder index n} {m = 2 ^ 32}
          (omega (arith, floor_remainder-lt index n hn))))

  pub extend_symmetric-floor :
      extend_symmetric index n
      ≡ plain_access (fold_symmetric (floor_remainder index (2 * n)) n) ExtensionOperation.sample
  unfolding extend_symmetric
  extend_symmetric-floor =
      rw (decompose-floor_period index (2 * n) hi (omega arith) (omega arith))
        (ground (arith, floor_remainder-lt index (2 * n)))

-- The phase of an antisymmetric access: the sign changes with each reflection.
abbrev pub fold_antisymmetric : ℕ → ℕ → ExtendedIndex
fold_antisymmetric phase n =
    if ltb phase n
    then plain_access phase ExtensionOperation.sample
    else if ltb phase (2 * n)
    then plain_access (2 * n - 1 - phase) ExtensionOperation.negated_sample
    else if ltb phase (3 * n)
    then plain_access (phase - 2 * n) ExtensionOperation.sample
    else plain_access (4 * n - 1 - phase) ExtensionOperation.negated_sample

module _ (index : ℤ) (n : ℕ) (hi : IsI64 index) (hn : 0 < n) (hb : n < 2 ^ 32) where
  pub extend_antisymmetric-floor :
      extend_antisymmetric index n ≡ fold_antisymmetric (floor_remainder index (4 * n)) n
  unfolding extend_antisymmetric
  extend_antisymmetric-floor =
      rw (decompose-floor_period index (4 * n) hi (omega arith) (omega arith))
        (ground (arith, floor_remainder-lt index (4 * n)))

-- The last position is `suc m`: these modes have a case of their own for a single sample.
module _ (index : ℤ) (m : ℕ) (hi : IsI64 index) (hm : 0 < m) (hb : m + 1 < 2 ^ 32) where
  pub extend_reflect-floor :
      extend_reflect index (m + 1)
      ≡ plain_access (fold_reflect (floor_remainder index (2 * m)) m) ExtensionOperation.sample
  unfolding extend_reflect
  extend_reflect-floor = rw last (
      rw (decompose-floor_period index (2 * m) hi (omega arith) (omega arith))
        (ground (arith, floor_remainder-lt index (2 * m))))
    where
      last : sub32 (m + 1) 1 ≡ m
      last = omega arith

  pub extend_antireflect-floor : extend_antireflect index (m + 1) ≡ record no_access {
    source_index = fold_reflect (floor_remainder index (2 * m)) m;
    period_quotient = floor_quotient index (2 * m);
    operation = ExtensionOperation.antireflection;
    reflected = ltb m (floor_remainder index (2 * m));
  }
  unfolding extend_antireflect
  extend_antireflect-floor = rw last (
      rw (decompose-floor_period index (2 * m) hi (omega arith) (omega arith))
        (ground (arith, floor_remainder-lt index (2 * m))))
    where
      last : sub32 (m + 1) 1 ≡ m
      last = omega arith
