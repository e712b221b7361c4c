-- ===== src/Plan/Geometry.antt =====
-- The geometry of a lifting step: `compute_step_geometry`.
use tt_wavelet.Common.{
  ℕ, ◌+◌, ◌-◌, ◌^◌, ◌≤◌, ◌<◌, ◌≡◌, ◌↔◌, ◌⊎◌, inl, inr, ◌∙◌, arith, min, leb, if◌then◌else◌,
}
use tt_wavelet.Common.Int.{
  ℤ, pos, ◌+ℤ◌, ◌-ℤ◌, ◌≤ℤ◌, ◌<ℤ◌, pos_part, neg_part, min_ℤ, max_ℤ, ltb_ℤ, int_laws, max_ℤ_bounds,
  min_ℤ_bounds, ltb_ℤ-cases, eq_of_parts,
}
use tt_wavelet.Common.Words.{to_i32_small, to_u64-sub, u64, to_u64}
use tt_wavelet.Plan.{StreamState, StepGeometry, compute_step_geometry}

-- The same without casts, on streams shorter than 2 ^ 31.
abbrev conv_shift : StreamState → ℤ → ℕ → ℤ
conv_shift source kernel_shift k =
    source.shift +ℤ kernel_shift +ℤ pos (min source.length k) -ℤ pos 1

abbrev conv_length : StreamState → ℕ → ℕ
conv_length source k = if leb k source.length then source.length - k + 1 else 0

abbrev overlap : ℤ → ℕ → ℤ → ℕ → StepGeometry
overlap c n b m =
    let out_shift = max_ℤ b c in
    let out_end = min_ℤ (b +ℤ pos m) (c +ℤ pos n) in
    record {
      out_shift = out_shift;
      out_length = if ltb_ℤ out_shift out_end then to_u64 (out_end -ℤ out_shift) else 0;
      source_offset = to_u64 (out_shift -ℤ c);
      base_offset = to_u64 (out_shift -ℤ b);
    }

abbrev common : StreamState → ℤ → ℕ → StreamState → StepGeometry
common source kernel_shift k base =
    overlap (conv_shift source kernel_shift k) (conv_length source k) base.shift base.length

geometry-overlap :
    (source : StreamState) (kernel_shift : ℤ) (k : ℕ) (base : StreamState)
    → 0 < k
    → source.length < 2 ^ 31
    → base.length < 2 ^ 31
    → compute_step_geometry source kernel_shift k base ≡ common source kernel_shift k base
unfolding compute_step_geometry
geometry-overlap source kernel_shift k base hk hs hb =
    rw (to_i32_small (min source.length k) (omega arith), to_i32_small base.length hb, conv)
      (rw (to_i32_small (conv_length source k) (ground arith)))
  where
    conv : (if leb k source.length then u64 (source.length - k + 1) else 0) ≡ conv_length source k
    conv = ground arith

-- The arithmetic of an interval that is the common part of two, from l to r of the length `len`.
module _ (b c l r : ℤ) (m n len : ℕ) (left : (b ≤ℤ l) × (c ≤ℤ l) × ((l ≤ℤ b) ⊎ (l ≤ℤ c)))
    (right : (r ≤ℤ b +ℤ pos m) × (r ≤ℤ c +ℤ pos n) × ((b +ℤ pos m ≤ℤ r) ⊎ (c +ℤ pos n ≤ℤ r)))
    (size : ((r ≤ℤ l) × (len ≡ 0))
      ⊎ (pos_part r + neg_part l ≡ pos_part l + neg_part r + len)) where
  common_positions :
      (p : ℤ)
      → ((l ≤ℤ p) × (p <ℤ l +ℤ pos len))
        ↔ ((b ≤ℤ p) × (p <ℤ b +ℤ pos m) × (c ≤ℤ p) × (p <ℤ c +ℤ pos n))
  common_positions p = (λ h. omega int_laws, λ h. omega int_laws)

  common_offset :
      0 < len
      → (pos_part l + neg_part c < pos_part c + neg_part l + n)
        × (pos_part l + neg_part b < pos_part b + neg_part l + m)
        × (pos_part l + neg_part c + len ≤ pos_part c + neg_part l + n)
        × (pos_part l + neg_part b + len ≤ pos_part b + neg_part l + m)
  common_offset h = omega int_laws

module _ (c : ℤ) (n : ℕ) (b : ℤ) (m : ℕ) (hn : n < 2 ^ 31) (hm : m < 2 ^ 31) where
  out_length_cases :
      let g = overlap c n b m in
      let out_end = min_ℤ (b +ℤ pos m) (c +ℤ pos n) in
      ((out_end ≤ℤ g.out_shift) × (g.out_length ≡ 0))
      ⊎ (pos_part out_end + neg_part g.out_shift
          ≡ pos_part g.out_shift + neg_part out_end + g.out_length)
  out_length_cases =
      let l = max_ℤ b c in
      let r = min_ℤ (b +ℤ pos m) (c +ℤ pos n) in
      elim (ltb_ℤ-cases l r) [
        | inl (e, h) ↦ inr (
            rw e (
              to_u64-sub r l (omega arith)
                (omega (int_laws, max_ℤ_bounds b c, min_ℤ_bounds (b +ℤ pos m) (c +ℤ pos n)))))
        | inr (e, h) ↦ inl (h, rw e)
      ]

  overlap_positions :
      (p : ℤ)
      → (((overlap c n b m).out_shift ≤ℤ p)
          × (p <ℤ (overlap c n b m).out_shift +ℤ pos (overlap c n b m).out_length))
        ↔ ((b ≤ℤ p) × (p <ℤ b +ℤ pos m) × (c ≤ℤ p) × (p <ℤ c +ℤ pos n))
  overlap_positions p =
      common_positions b c _ _ m n _ (max_ℤ_bounds b c) (min_ℤ_bounds (b +ℤ pos m) (c +ℤ pos n))
        out_length_cases p

  overlap_offsets :
      0 < (overlap c n b m).out_length
      → (c +ℤ pos (overlap c n b m).source_offset ≡ (overlap c n b m).out_shift)
        × (b +ℤ pos (overlap c n b m).base_offset ≡ (overlap c n b m).out_shift)
        × ((overlap c n b m).source_offset + (overlap c n b m).out_length ≤ n)
        × ((overlap c n b m).base_offset + (overlap c n b m).out_length ≤ m)
  overlap_offsets h =
      let l = max_ℤ b c in
      let near =
        common_offset b c l _ m n _ (max_ℤ_bounds b c) (min_ℤ_bounds (b +ℤ pos m) (c +ℤ pos n))
          out_length_cases h in
      let from_c = to_u64-sub l c (max_ℤ_bounds b c).1 (omega (arith, near)) in
      let from_b = to_u64-sub l b (max_ℤ_bounds b c).0 (omega (arith, near)) in
      (
        eq_of_parts _ _ (omega int_laws),
        eq_of_parts _ _ (omega int_laws),
        omega (arith, near),
        omega (arith, near),
      )

module _ (source : StreamState) (kernel_shift : ℤ) (k : ℕ) (base : StreamState) (hk : 0 < k)
    (hs : source.length < 2 ^ 31) (hb : base.length < 2 ^ 31) where
  conv_length_cases :
      ((k ≤ source.length) × (conv_length source k + k ≡ source.length + 1))
      ⊎ ((source.length < k) × (conv_length source k ≡ 0))
  conv_length_cases = ground arith

  conv_length-lt : conv_length source k < 2 ^ 31
  conv_length-lt = ground arith

  -- The positions of the convolution are those where the source has the whole window.
  window :
      (p : ℤ)
      → ((conv_shift source kernel_shift k ≤ℤ p)
          × (p <ℤ conv_shift source kernel_shift k +ℤ pos (conv_length source k)))
        ↔ ((source.shift ≤ℤ p -ℤ kernel_shift -ℤ pos (k - 1))
            × (p -ℤ kernel_shift <ℤ source.shift +ℤ pos source.length))
  window p = (λ h. omega (int_laws, conv_length_cases), λ h. omega (int_laws, conv_length_cases))

  -- A step has an output at exactly the positions p where the base has a sample and the source has
  -- the k samples from p - kernel_shift - (k - 1) to p - kernel_shift. The streams are shorter
  -- than 2 ^ 31, and k is positive.
  pub compute_step_geometry_positions :
      (p : ℤ)
      → let g = compute_step_geometry source kernel_shift k base in
        ((g.out_shift ≤ℤ p) × (p <ℤ g.out_shift +ℤ pos g.out_length)) ↔ (
          (base.shift ≤ℤ p)
          × (p <ℤ base.shift +ℤ pos base.length)
          × (source.shift ≤ℤ p -ℤ kernel_shift -ℤ pos (k - 1))
          × (p -ℤ kernel_shift <ℤ source.shift +ℤ pos source.length))
  compute_step_geometry_positions p = rw (geometry-overlap source kernel_shift k base hk hs hb) (
    λ h. let q = positions.0 h in let w = (window p).0 (q.2, q.3) in (q.0, q.1, w.0, w.1),
    λ h. let w = (window p).1 (h.2, h.3) in positions.1 (h.0, h.1, w.0, w.1),
  )
    where
      positions :
          (((common source kernel_shift k base).out_shift ≤ℤ p)
            × (p
                <ℤ (common source kernel_shift k base).out_shift
                  +ℤ pos (common source kernel_shift k base).out_length))
          ↔ ((base.shift ≤ℤ p)
              × (p <ℤ base.shift +ℤ pos base.length)
              × (conv_shift source kernel_shift k ≤ℤ p)
              × (p <ℤ conv_shift source kernel_shift k +ℤ pos (conv_length source k)))
      positions =
          overlap_positions (conv_shift source kernel_shift k) (conv_length source k) base.shift
            base.length conv_length-lt hb p

  reads_of_offsets :
      (g : StepGeometry)
      → (conv_shift source kernel_shift k +ℤ pos g.source_offset ≡ g.out_shift)
        × (base.shift +ℤ pos g.base_offset ≡ g.out_shift)
        × (g.source_offset + g.out_length ≤ conv_length source k)
        × (g.base_offset + g.out_length ≤ base.length)
      → 0 < g.out_length
      → (g.source_offset + g.out_length + (k - 1) ≤ source.length)
        × (g.base_offset + g.out_length ≤ base.length)
        × (source.shift +ℤ kernel_shift +ℤ pos (g.source_offset + (k - 1)) ≡ g.out_shift)
        × (base.shift +ℤ pos g.base_offset ≡ g.out_shift)
  reads_of_offsets g o h = (
    omega (arith, conv_length_cases),
    o.3,
    eq_of_parts _ _ (omega (int_laws, conv_length_cases)) ∙ o.0,
    o.1,
  )

  -- Where a step has an output, its reads stay in the streams: each output takes k source values
  -- from its offset on and one base value. Both offsets stand for the position of the first output.
  -- The streams are shorter than 2 ^ 31, and k is positive.
  pub compute_step_geometry_reads :
      let g = compute_step_geometry source kernel_shift k base in
      0 < g.out_length
      → (g.source_offset + g.out_length + (k - 1) ≤ source.length)
        × (g.base_offset + g.out_length ≤ base.length)
        × (source.shift +ℤ kernel_shift +ℤ pos (g.source_offset + (k - 1)) ≡ g.out_shift)
        × (base.shift +ℤ pos g.base_offset ≡ g.out_shift)
  compute_step_geometry_reads = rw (geometry-overlap source kernel_shift k base hk hs hb) (λ h.
      reads_of_offsets (common source kernel_shift k base)
        (overlap_offsets (conv_shift source kernel_shift k) (conv_length source k) base.shift
          base.length conv_length-lt hb h)
        h)
