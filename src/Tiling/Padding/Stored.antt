-- ===== src/Tiling/Padding/Stored.antt =====
-- The storage that zero_pad_row_major_to_tiles_2d makes.
use native.Mathlib.Nat.{mul-le-mul_right}
use tt_wavelet.Common.{
  ℕ, ◌+◌, ◌*◌, ◌^◌, ◌≤◌, ◌<◌, ◌≡◌, ◌⊎◌, inl, inr, refl, ap, ◌∙◌, arith, Bool, true, false, ok,
  ==_iff,
}
use tt_wavelet.Common.Words.{u64}
use tt_wavelet.Tiling.{TiledShape2D}
use tt_wavelet.Tiling.Cover.{IsTiling, IsTiling-make, HasArea-area}
use tt_wavelet.Tiling.Padding.{
  Elements, copy_rows, zero_pad_row_major_to_tiles_2d, has_zero_tile_padding_2d,
}
use tt_wavelet.Tiling.Padding.Rows.{copy_rows-kept, copy_rows-written}
use tt_wavelet.Tiling.Padding.Clean.{area_word, IsPadding, has_zero_tile_padding_2d_iff}

module _ {F : Type 0} (zero_f : F) (nonzero : F → Bool) (clean : nonzero zero_f ≡ false)
    (s : TiledShape2D) (t : IsTiling s) (input : Elements F)
    (fits : input.size ≡ s.logical.height * s.logical.width) where
  abbrev stored : Elements F
  stored = record {
    size = s.storage.height * s.storage.width;
    at = copy_rows input.at s.logical.width s.storage.width s.logical.height 0 (λ position. zero_f);
  }

  zero_pad-stored : zero_pad_row_major_to_tiles_2d zero_f input s.logical ≡ ok stored
  unfolding zero_pad_row_major_to_tiles_2d
  zero_pad-stored =
      let small = area_word s.logical t.logical_area in
      let low = area_word s.storage t.storage_area in
      let logical : u64 (s.logical.height * s.logical.width) ≡ s.logical.height * s.logical.width =
        omega (arith, small) in
      let storage : u64 (s.storage.height * s.storage.width) ≡ s.storage.height * s.storage.width =
        omega (arith, low) in
      rw
        (
          IsTiling-make s t,
          HasArea-area s.logical t.logical_area,
          logical,
          (==_iff input.size (s.logical.height * s.logical.width)).1 fits,
          HasArea-area s.storage t.storage_area,
          storage,
        )
        refl

  rows_low : (0 + s.logical.height) * s.storage.width < 2 ^ 64
  rows_low = omega (
    arith,
    area_word s.storage t.storage_area,
    mul-le-mul_right {m = 0 + s.logical.height} {n = s.storage.height} s.storage.width
        (omega (arith, t.height_covers)),
  )

  padding_kept : (r c : ℕ) → IsPadding s r c → stored.at (r * s.storage.width + c) ≡ zero_f
  padding_kept r c p =
      copy_rows-kept input.at s.logical.width s.storage.width (omega (arith, t.width_covers))
        s.logical.height 0 r c (λ position. zero_f) rows_low p.1 (beyond p.2)
    where
      beyond :
          (s.logical.height ≤ r) ⊎ (s.logical.width ≤ c)
          → (r < 0) ⊎ (0 + s.logical.height ≤ r) ⊎ (s.logical.width ≤ c)
      beyond (inl l) = inr (inl (omega (arith, l)))
      beyond (inr l) = inr (inr l)

  -- A tensor of as many elements as a valid tiled shape's logical shape has is padded to the storage
  -- of that shape: each element stands in its row and column, every other position of the storage
  -- holds zero, and the test for zero padding accepts the result, for a zero that the test takes for
  -- one.
  pub zero_pad_row_major_to_tiles_2d-has_zero_tile_padding_2d :
      (padded : Elements F) × (zero_pad_row_major_to_tiles_2d zero_f input s.logical ≡ ok padded)
      × (padded.size ≡ s.storage.height * s.storage.width)
      × ((r c : ℕ)
          → r < s.logical.height
          → c < s.logical.width
          → padded.at (r * s.storage.width + c) ≡ input.at (r * s.logical.width + c))
      × ((r c : ℕ) → IsPadding s r c → padded.at (r * s.storage.width + c) ≡ zero_f)
      × (has_zero_tile_padding_2d nonzero padded s ≡ ok true)
  zero_pad_row_major_to_tiles_2d-has_zero_tile_padding_2d = (
    stored,
    zero_pad-stored,
    refl,
    λ r c h b.
        copy_rows-written input.at s.logical.width s.storage.width (omega (arith, t.width_covers))
          s.logical.height 0 r c (λ position. zero_f) rows_low (omega arith) (omega (arith, h)) b,
    padding_kept,
    (has_zero_tile_padding_2d_iff nonzero s t stored).1
        (refl, λ r c p. ap nonzero (padding_kept r c p) ∙ clean),
  )
