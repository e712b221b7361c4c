-- ===== src/Signal/Rounding.antt =====
-- `ceil_div` and `round_up` where nothing wraps, and the size of a buffer.
use native.Mathlib.Nat.{
  div-add-mod, mod-lt, mul-mod_left, mod-eq_of_lt, le_trans, mul_assoc, mul-le-mul_left,
  mul-le-mul_right,
}
use tt_wavelet.Common.{ℕ, ◌+◌, ◌-◌, ◌*◌, ◌/◌, ◌%◌, ◌^◌, ◌≤◌, ◌<◌, ◌≡◌, ap, arith}
use tt_wavelet.Common.Words.{u64, sub64}
use tt_wavelet.Signal.{
  SignalBuffer, ceil_div, round_up, stick_count, stick_bytes, aligned_stick_bytes, physical_nbytes,
}

pub ceil_div-eq : (n d : ℕ) → 0 < d → n + d ≤ 2 ^ 64 → ceil_div n d ≡ (n + d - 1) / d
unfolding ceil_div
ceil_div-eq n d h b = ground (arith, ap (λ (t : ℕ). t / d) same)
  where
    same : sub64 (u64 (n + d)) 1 ≡ n + d - 1
    same = omega arith

-- Where the sum does not wrap, `ceil_div` is the least quotient that reaches the numerator.
pub ceil_div_least :
    (n d : ℕ) → 0 < d → n + d ≤ 2 ^ 64 → (n ≤ ceil_div n d * d) × (ceil_div n d * d < n + d)
ceil_div_least n d h b =
    rw (ceil_div-eq n d h b) (omega (arith, div-add-mod (n + d - 1) d, mod-lt (n + d - 1) h))

pub round_up-eq : (n a : ℕ) → 0 < a → n + a ≤ 2 ^ 64 → round_up n a ≡ ceil_div n a * a
unfolding round_up
round_up-eq n a h b =
    ground (arith, ceil_div_least n a h b, mod-eq_of_lt {n = ceil_div n a * a} {m = 2 ^ 64})

-- `round_up` gives the least multiple of the alignment that is not below the value.
pub round_up_least :
    (n a : ℕ)
    → 0 < a
    → n + a ≤ 2 ^ 64
    → (n ≤ round_up n a) × (round_up n a < n + a) × (round_up n a % a ≡ 0)
round_up_least n a h b =
    rw (round_up-eq n a h b)
      ((ceil_div_least n a h b).0, (ceil_div_least n a h b).1, mul-mod_left (ceil_div n a) a)

aligned_stick_bytes-eq :
    (s : SignalBuffer) (a : ℕ)
    → 0 < a
    → s.stick_width * s.element_size_bytes + a ≤ 2 ^ 32
    → aligned_stick_bytes s a ≡ round_up (s.stick_width * s.element_size_bytes) a
unfolding aligned_stick_bytes stick_bytes
aligned_stick_bytes-eq s a ha hb =
    let bytes = s.stick_width * s.element_size_bytes in
    rw (mod-eq_of_lt {n = bytes} {m = 2 ^ 32} (omega arith))
      (mod-eq_of_lt (omega (arith, round_up_least bytes a ha (omega arith))))

mul_cover : (n q w e r : ℕ) → n ≤ q * w → w * e ≤ r → n * e ≤ q * r
mul_cover n q w e r h k =
    le_trans (mul-le-mul_right e h) (rw (mul_assoc q w e) (mul-le-mul_left q k))

-- A buffer is large enough for its samples, and each stick is aligned, where no product wraps.
pub physical_nbytes_covers :
    (s : SignalBuffer) (a : ℕ)
    → 0 < a
    → 0 < s.stick_width
    → s.length + s.stick_width ≤ 2 ^ 64
    → s.stick_width * s.element_size_bytes + a ≤ 2 ^ 32
    → stick_count s * aligned_stick_bytes s a < 2 ^ 64
    → (s.length * s.element_size_bytes ≤ physical_nbytes s a) × (aligned_stick_bytes s a % a ≡ 0)
unfolding physical_nbytes stick_count
physical_nbytes_covers s a ha hw hl hb hp =
    let bytes = s.stick_width * s.element_size_bytes in
    let aligned = round_up_least bytes a ha (omega arith) in
    rw (mod-eq_of_lt hp, aligned_stick_bytes-eq s a ha hb)
      (
        mul_cover s.length _ s.stick_width s.element_size_bytes _
            (ceil_div_least s.length s.stick_width hw hl).0 aligned.0,
        aligned.2,
      )
