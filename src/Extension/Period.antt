-- ===== src/Extension/Period.antt =====
-- The decomposition of an index by a period: `decompose_extension_period` is floor division.
use native.Mathlib.Nat.{
  div-add-mod, mod-lt, zero-mod, add-mod_right, mod-eq-sub-mod, add-div_right, div-eq-sub-div,
  div-eq_of_lt, mod-eq_of_lt,
}
use native.Mathlib.Decide.{dec_lt}
use tt_wavelet.Common.{
  ℕ, zero, suc, ◌+◌, ◌-◌, ◌*◌, ◌/◌, ◌%◌, ◌^◌, ◌<◌, ◌≡◌, refl, sym, ap, subst, lt→ltb, le→ltb, ◌⊎◌,
  inl, inr, arith, if◌then◌else◌, ltb,
}
use tt_wavelet.Common.Int.{ℤ, pos, negsuc, neg_ℕ, neg_ℤ, mirror, ◌+ℤ◌, ◌-ℤ◌}
use tt_wavelet.Common.Words.{IsI64, to_i64}
use tt_wavelet.Extension.{SignedExtensionPeriod, decompose_extension_period}

-- Floor division, and the remainder that goes with it.
abbrev pub floor_quotient : ℤ → ℕ → ℤ
floor_quotient (pos a) p = pos (a / p)
floor_quotient (negsuc a) p = negsuc (a / p)

abbrev pub floor_remainder : ℤ → ℕ → ℕ
floor_remainder (pos a) p = a % p
floor_remainder (negsuc a) p = p - 1 - a % p

pub div-mod_unique : (a p q r : ℕ) → r < p → a ≡ q * p + r → (a / p ≡ q) × (a % p ≡ r)
div-mod_unique a p q r h e =
    (grind (arith, div-add-mod, mod-lt), grind (arith, div-add-mod, mod-lt))

-- Rounding towards zero, from the floor.
pub suc-div-mod :
    (a p : ℕ)
    → 0 < p
    → ((suc a % p ≡ 0) × (suc a / p ≡ suc (a / p)) × (a % p ≡ p - 1))
      ⊎ ((0 < suc a % p) × (suc a / p ≡ a / p) × (suc a % p ≡ suc (a % p)))
suc-div-mod a p h = grind arith

abbrev pub floor_period : ℤ → ℕ → SignedExtensionPeriod
floor_period index p = record {
  quotient = floor_quotient index p;
  remainder = floor_remainder index p;
}

to_i64_small : (p : ℕ) → p < 2 ^ 63 → to_i64 p ≡ pos p
to_i64_small p h = ground arith

pub neg_ℕ-sub_one : (n : ℕ) → neg_ℕ n -ℤ pos 1 ≡ negsuc n
unfolding ◌-ℤ◌
neg_ℕ-sub_one zero = refl
neg_ℕ-sub_one (suc n) = ground arith

pub pos-+ℤ : (a p : ℕ) → pos a +ℤ pos p ≡ pos (a + p)
unfolding ◌+ℤ◌
pos-+ℤ a p = ground arith

pub negsuc-+ℤ :
    (a p : ℕ) → negsuc a +ℤ pos p ≡ (if ltb a p then pos (p - 1 - a) else negsuc (a - p))
unfolding ◌+ℤ◌
negsuc-+ℤ a p = ground arith

-- At a period of `int64_t` the code divides with rounding down.
pub decompose-floor_period :
    (index : ℤ) (p : ℕ)
    → IsI64 index
    → 0 < p
    → p < 2 ^ 63
    → decompose_extension_period index p ≡ floor_period index p
unfolding decompose_extension_period
decompose-floor_period (pos a) p hi hp hb = rw (to_i64_small p hb) (ground (arith, mod-lt a hp))
decompose-floor_period (negsuc a) p hi hp hb = elim (suc-div-mod a p hp) [
  | inl (r, q, l) ↦ rw (to_i64_small p hb, r, q) (ground arith)
  | inr (r, q, l) ↦
      rw (to_i64_small p hb, l, q, neg_ℕ-sub_one) (ground (arith, negsuc-+ℤ (a % p) p, mod-lt a hp))
]

-- The floor is the quotient and the remainder of the index.
pub floor_remainder-lt : (index : ℤ) (p : ℕ) → 0 < p → floor_remainder index p < p
floor_remainder-lt (pos a) p h = omega arith
floor_remainder-lt (negsuc a) p h = omega arith

pub floor_remainder-mirror :
    (index : ℤ) (p : ℕ) → 0 < p → floor_remainder (mirror index) p ≡ p - 1 - floor_remainder index p
floor_remainder-mirror (pos a) p h = omega arith
floor_remainder-mirror (negsuc a) p h = omega arith

pub floor_remainder-add :
    (index : ℤ) (p : ℕ) → 0 < p → floor_remainder (index +ℤ pos p) p ≡ floor_remainder index p
floor_remainder-add (pos a) p h = rw (pos-+ℤ a p) (add-mod_right a p)
floor_remainder-add (negsuc a) p h = elim (dec_lt a p) [
  | yes l ↦ rw (negsuc-+ℤ a p, lt→ltb a p l, mod-eq_of_lt l) (mod-eq_of_lt (omega arith))
  | no l ↦
      rw (negsuc-+ℤ a p, le→ltb a p (omega arith))
        (ap (λ (r : ℕ). p - 1 - r) (sym (mod-eq-sub-mod {n = a} {m = p} (omega arith))))
]

pub floor_quotient-add :
    (index : ℤ) (p : ℕ)
    → 0 < p
    → floor_quotient (index +ℤ pos p) p ≡ floor_quotient index p +ℤ pos 1
floor_quotient-add (pos a) p h = rw (pos-+ℤ a p, add-div_right a h, pos-+ℤ)
floor_quotient-add (negsuc a) p h = elim (dec_lt a p) [
  | yes l ↦
      rw (negsuc-+ℤ a p, lt→ltb a p l, div-eq_of_lt l, negsuc-+ℤ 0 1)
        (ap pos (div-eq_of_lt (omega arith)))
  | no l ↦
      rw
        (
          negsuc-+ℤ a p,
          le→ltb a p (omega arith),
          negsuc-+ℤ (a / p) 1,
          div-eq-sub-div {m = p} {n = a} h (omega arith),
        )
        (ground arith)
]

pub floor_remainder-neg :
    (index : ℤ) (p : ℕ)
    → 0 < p
    → floor_remainder (neg_ℤ index) p
      ≡ (if ltb 0 (floor_remainder index p) then p - floor_remainder index p else 0)
floor_remainder-neg (pos zero) p h = ground (arith, zero-mod p)
floor_remainder-neg (pos (suc a)) p h = ground (arith, suc-div-mod a p h)
floor_remainder-neg (negsuc a) p h = ground (arith, suc-div-mod a p h)

half-mod :
    (a n : ℕ)
    → 0 < n
    → (a + 2 * n) % (4 * n)
      ≡ (if ltb (a % (4 * n)) (2 * n) then a % (4 * n) + 2 * n else a % (4 * n) - 2 * n)
half-mod a n h = elim (dec_lt (a % (4 * n)) (2 * n)) [
  | yes l ↦
      rw (lt→ltb (a % (4 * n)) (2 * n) l)
        (div-mod_unique (a + 2 * n) (4 * n) (a / (4 * n)) (a % (4 * n) + 2 * n) (omega arith)
          (omega (arith, div-add-mod a (4 * n)))).1
  | no l ↦
      rw (le→ltb (a % (4 * n)) (2 * n) (omega arith))
        (div-mod_unique (a + 2 * n) (4 * n) (suc (a / (4 * n))) (a % (4 * n) - 2 * n)
          (omega (arith, mod-lt a {m = 4 * n} (omega arith)))
          (omega (arith, div-add-mod a (4 * n), suc_times (a / (4 * n)) (4 * n)))).1
]
  where
    suc_times : (q p : ℕ) → suc q * p ≡ q * p + p
    suc_times q p = omega arith

-- Half a period further.
pub floor_remainder-half :
    (index : ℤ) (n : ℕ)
    → 0 < n
    → floor_remainder (index +ℤ pos (2 * n)) (4 * n) ≡ (
        if ltb (floor_remainder index (4 * n)) (2 * n)
        then floor_remainder index (4 * n) + 2 * n
        else floor_remainder index (4 * n) - 2 * n)
floor_remainder-half (pos a) n h = rw (pos-+ℤ a (2 * n)) (half-mod a n h)
floor_remainder-half (negsuc a) n h = elim (dec_lt a (2 * n)) [
  | yes l ↦
      rw (negsuc-+ℤ a (2 * n), lt→ltb a (2 * n) l, mod-eq_of_lt {n = a} {m = 4 * n} (omega arith))
        (rw (mod-eq_of_lt {n = 2 * n - 1 - a} {m = 4 * n} (omega arith)) (ground arith))
  | no l ↦
      let below : a - 2 * n + 2 * n ≡ a = omega arith in
      let r = (a - 2 * n) % (4 * n) in
      let half =
        subst (λ (x : ℕ). x % (4 * n) ≡ (if ltb r (2 * n) then r + 2 * n else r - 2 * n)) below
          (half-mod (a - 2 * n) n h) in
      rw (negsuc-+ℤ a (2 * n), le→ltb a (2 * n) (omega arith))
        (ground (arith, half, mod-lt (a - 2 * n) {m = 4 * n} (omega arith)))
]
