-- ===== src/Extension/Symmetry.antt =====
-- What each mode promises of the extended signal: its period and its reflections.
use tt_wavelet.Common.{ℕ, ◌+◌, ◌*◌, ◌^◌, ◌<◌, ◌≡◌, arith}
use tt_wavelet.Common.Words.{IsI64}
use tt_wavelet.Common.Int.{ℤ, pos, neg_ℤ, mirror, ◌+ℤ◌}
use tt_wavelet.Boundary.{BoundaryMode}
use tt_wavelet.Extension.{ExtensionOperation, ExtendedIndex, make_extended_index}
use tt_wavelet.Extension.Period.{
  floor_remainder-lt, floor_remainder-add, floor_remainder-half, floor_remainder-mirror,
  floor_remainder-neg,
}
use tt_wavelet.Extension.Uniform.{make_periodic, make_symmetric, make_antisymmetric, make_reflect}

-- The access that negates what it reads exactly where `e` does not.
abbrev pub flip_sign : ExtendedIndex → ExtendedIndex
flip_sign e = record e { operation = flip e.operation }
  where
    flip : ExtensionOperation → ExtensionOperation
    flip ExtensionOperation.sample = ExtensionOperation.negated_sample
    flip ExtensionOperation.negated_sample = ExtensionOperation.sample
    flip op = op

module _ (index : ℤ) (n : ℕ) (hi : IsI64 index) (hn : 0 < n) (hb : n < 2 ^ 32) where
  -- The periodic extension repeats after the length of the signal.
  pub make_extended_index-periodic_shift :
      IsI64 (index +ℤ pos n)
      → make_extended_index BoundaryMode.periodic (index +ℤ pos n) n
        ≡ make_extended_index BoundaryMode.periodic index n
  make_extended_index-periodic_shift hs = rw (
    make_periodic n hn hb index hi,
    make_periodic n hn hb (index +ℤ pos n) hs,
    floor_remainder-add index n hn,
  )

  -- The symmetric extension is the same at i and at -1 - i, and repeats after twice the length.
  pub make_extended_index-symmetric :
      IsI64 (mirror index)
      → IsI64 (index +ℤ pos (2 * n))
      → (make_extended_index BoundaryMode.symmetric (mirror index) n
          ≡ make_extended_index BoundaryMode.symmetric index n)
        × (make_extended_index BoundaryMode.symmetric (index +ℤ pos (2 * n)) n
            ≡ make_extended_index BoundaryMode.symmetric index n)
  make_extended_index-symmetric hm hs =
      rw
        (
          make_symmetric n hn hb index hi,
          make_symmetric n hn hb (mirror index) hm,
          make_symmetric n hn hb (index +ℤ pos (2 * n)) hs,
          floor_remainder-add index (2 * n) (omega arith),
          floor_remainder-mirror index (2 * n) (omega arith),
        )
        (ground (arith, floor_remainder-lt index (2 * n)), ground arith)

  -- The antisymmetric extension changes its sign, and reads the same sample, between i and -1 - i, the
  -- reflection about the left edge, and between i and 2 n - 1 - i, that about the right edge; it repeats
  -- after twice the length.
  pub make_extended_index-antisymmetric :
      IsI64 (mirror index)
      → IsI64 (mirror index +ℤ pos (2 * n))
      → IsI64 (index +ℤ pos (2 * n))
      → (make_extended_index BoundaryMode.antisymmetric (mirror index) n
          ≡ flip_sign (make_extended_index BoundaryMode.antisymmetric index n))
        × (make_extended_index BoundaryMode.antisymmetric (mirror index +ℤ pos (2 * n)) n
            ≡ flip_sign (make_extended_index BoundaryMode.antisymmetric index n))
        × (make_extended_index BoundaryMode.antisymmetric (index +ℤ pos (2 * n)) n
            ≡ make_extended_index BoundaryMode.antisymmetric index n)
  make_extended_index-antisymmetric hm hr hs =
      rw
        (
          make_antisymmetric n hn hb index hi,
          make_antisymmetric n hn hb (mirror index) hm,
          make_antisymmetric n hn hb (mirror index +ℤ pos (2 * n)) hr,
          make_antisymmetric n hn hb (index +ℤ pos (2 * n)) hs,
          floor_remainder-half (mirror index) n hn,
          floor_remainder-half index n hn,
          floor_remainder-mirror index (4 * n) (omega arith),
        )
        (
          ground (arith, floor_remainder-lt index (4 * n)),
          ground (arith, floor_remainder-lt index (4 * n)),
          ground (arith, floor_remainder-lt index (4 * n)),
        )

module _ (index : ℤ) (m : ℕ) (hi : IsI64 index) (hm : 0 < m) (hb : m + 1 < 2 ^ 32) where
  -- The reflect extension of m + 1 samples is the same at i and at -i, and repeats after 2 m.
  pub make_extended_index-reflect :
      IsI64 (neg_ℤ index)
      → IsI64 (index +ℤ pos (2 * m))
      → (make_extended_index BoundaryMode.reflect (neg_ℤ index) (m + 1)
          ≡ make_extended_index BoundaryMode.reflect index (m + 1))
        × (make_extended_index BoundaryMode.reflect (index +ℤ pos (2 * m)) (m + 1)
            ≡ make_extended_index BoundaryMode.reflect index (m + 1))
  make_extended_index-reflect hg hs =
      rw
        (
          make_reflect m hm hb index hi,
          make_reflect m hm hb (neg_ℤ index) hg,
          make_reflect m hm hb (index +ℤ pos (2 * m)) hs,
          floor_remainder-add index (2 * m) (omega arith),
          floor_remainder-neg index (2 * m) (omega arith),
        )
        (ground (arith, floor_remainder-lt index (2 * m)), ground arith)
