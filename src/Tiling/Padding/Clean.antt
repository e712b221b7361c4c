-- ===== src/Tiling/Padding/Clean.antt =====
-- What has_zero_tile_padding_2d tells of a storage.
use native.Mathlib.Nat.{div-add-mod, mul-le-mul_right}
use native.Mathlib.Decide.{dec_lt}
use tt_wavelet.Common.{
  ℕ, zero, suc, ◌+◌, ◌-◌, ◌*◌, ◌/◌, ◌^◌, ◌≤◌, ◌<◌, ◌≡◌, ◌⊎◌, ◌↔◌, inl, inr, refl, sym, ap, ◌∙◌,
  subst, arith, Bool, true, false, not, leb, ◌==◌, ◌||◌, ok, Bool-cases, if◌then◌else◌,
  ok-injective,
}
use tt_wavelet.Common.Words.{u64}
use tt_wavelet.Tiling.{Shape2D, TiledShape2D}
use tt_wavelet.Tiling.Cover.{HasArea, IsTiling, HasArea-area, IsTiling-valid}
use tt_wavelet.Tiling.Padding.{
  Elements, stains, clean_columns, clean_rows, has_zero_tile_padding_2d,
}
use tt_wavelet.Tiling.Padding.Rows.{row_end}

pub area_word : (s : Shape2D) → HasArea s → s.height * s.width < 2 ^ 64
area_word s h = omega (
  arith,
  div-add-mod (2 ^ 64 - 1) s.width,
  mul-le-mul_right {m = s.height} {n = (2 ^ 64 - 1) / s.width} s.width h.2,
)

module _ {F : Type 0} (nonzero : F → Bool) (s : TiledShape2D) (padded : ℕ → F) where
  abbrev stained : ℕ → ℕ → Bool
  stained row column = stains nonzero s padded row column

  columns-clean :
      (row rounds column : ℕ)
      → ((c : ℕ) → c < column + rounds → stained row c ≡ false)
      → clean_columns nonzero s padded row rounds column ≡ true
  unfolding clean_columns
  columns-clean row zero column h = refl
  columns-clean row (suc rounds) column h =
      rw
        (
          h column (omega arith),
          columns-clean row rounds (column + 1) (λ c b. h c (omega (arith, b))),
        )
        refl

  clean-columns :
      (row rounds column c : ℕ)
      → clean_columns nonzero s padded row rounds column ≡ true
      → column ≤ c
      → c < column + rounds
      → stained row c ≡ false
  unfolding clean_columns
  clean-columns row zero column c h a b = absurd (omega (arith, a, b))
  clean-columns row (suc rounds) column c h a b = elim (Bool-cases (stained row column)) [
    | inl stain ↦ (let bad : false ≡ true = rw stain at h in cc)
    | inr clean ↦ elim (dec_lt column c) [
      | yes l ↦
          clean-columns row rounds (column + 1) c (rw clean at h) (omega (arith, l))
            (omega (arith, b))
      | no l ↦
          let e : column ≡ c = omega (arith, a, l) in
          subst (λ (c : ℕ). stained row c ≡ false) e clean
    ]
  ]

  rows-clean :
      (rounds row : ℕ)
      → ((r c : ℕ) → r < row + rounds → c < s.storage.width → stained r c ≡ false)
      → clean_rows nonzero s padded rounds row ≡ true
  unfolding clean_rows
  rows-clean zero row h = refl
  rows-clean (suc rounds) row h =
      rw
        (
          columns-clean row s.storage.width 0 (λ c b. h row c (omega arith) (omega (arith, b))),
          rows-clean rounds (row + 1) (λ r c a b. h r c (omega (arith, a)) b),
        )
        refl

  clean-rows :
      (rounds row r c : ℕ)
      → clean_rows nonzero s padded rounds row ≡ true
      → row ≤ r
      → r < row + rounds
      → c < s.storage.width
      → stained r c ≡ false
  unfolding clean_rows
  clean-rows zero row r c h a b d = absurd (omega (arith, a, b))
  clean-rows (suc rounds) row r c h a b d =
      elim (Bool-cases (clean_columns nonzero s padded row s.storage.width 0)) [
        | inr stain ↦ (let bad : false ≡ true = rw stain at h in cc)
        | inl clean ↦ elim (dec_lt row r) [
          | yes l ↦
              clean-rows rounds (row + 1) r c (rw clean at h) (omega (arith, l)) (omega (arith, b))
                d
          | no l ↦
              let e : row ≡ r = omega (arith, a, l) in
              subst (λ (r : ℕ). stained r c ≡ false) e
                (clean-columns row s.storage.width 0 c clean (omega arith) (omega (arith, d)))
        ]
      ]

-- A position of the storage that is outside the logical shape.
abbrev pub IsPadding : TiledShape2D → ℕ → ℕ → Type 0
IsPadding s row column =
    (row < s.storage.height)
    × (column < s.storage.width)
    × ((s.logical.height ≤ row) ⊎ (s.logical.width ≤ column))

gate_iff :
    (m n : ℕ) (b : Bool) → ((if not (m == n) then false else b) ≡ true) ↔ ((m ≡ n) × (b ≡ true))
gate_iff m n b = ground arith

module _ {F : Type 0} (nonzero : F → Bool) (s : TiledShape2D) (t : IsTiling s) where
  stains-padding :
      (padded : ℕ → F) (r c : ℕ)
      → IsPadding s r c
      → stains nonzero s padded r c ≡ nonzero (padded (r * s.storage.width + c))
  stains-padding padded r c p =
      let inside = row_end r s.storage.height c s.storage.width p.0 p.1 in
      let low = area_word s.storage t.storage_area in
      let row : u64 (r * s.storage.width) ≡ r * s.storage.width = omega (arith, inside, low) in
      let same : u64 (r * s.storage.width + c) ≡ r * s.storage.width + c =
        omega (arith, inside, low) in
      rw (row, same, outside p.2) refl
    where
      outside :
          (s.logical.height ≤ r) ⊎ (s.logical.width ≤ c)
          → (leb s.logical.height r || leb s.logical.width c) ≡ true
      outside h = ground arith

  stains-logical :
      (padded : ℕ → F) (r c : ℕ)
      → r < s.logical.height
      → c < s.logical.width
      → stains nonzero s padded r c ≡ false
  stains-logical padded r c h b =
      let inside : (leb s.logical.height r || leb s.logical.width c) ≡ false = ground arith in
      rw inside refl

  no_stain :
      (padded : ℕ → F)
      → ((r c : ℕ) → IsPadding s r c → nonzero (padded (r * s.storage.width + c)) ≡ false)
      → (r c : ℕ) → r < s.storage.height
      → c < s.storage.width
      → stains nonzero s padded r c ≡ false
  no_stain padded zeros r c h b = elim (dec_lt r s.logical.height) [
    | no l ↦ padding (inl (omega (arith, l)))
    | yes l ↦ elim (dec_lt c s.logical.width) [
      | no m ↦ padding (inr (omega (arith, m)))
      | yes m ↦ stains-logical padded r c l m
    ]
  ]
    where
      padding : (s.logical.height ≤ r) ⊎ (s.logical.width ≤ c) → stains nonzero s padded r c ≡ false
      padding o = stains-padding padded r c (h, b, o) ∙ zeros r c (h, b, o)

  padding_zero :
      (padded : ℕ → F)
      → clean_rows nonzero s padded s.storage.height 0 ≡ true
      → (r c : ℕ) → IsPadding s r c
      → nonzero (padded (r * s.storage.width + c)) ≡ false
  padding_zero padded clean r c p =
      sym (stains-padding padded r c p)
      ∙ clean-rows nonzero s padded s.storage.height 0 r c clean (omega arith) (omega (arith, p.0))
          p.1

  -- Of a valid tiled shape: the test for zero padding answers true exactly where the storage has the
  -- size of the shape and no element outside the logical shape is different from zero.
  pub has_zero_tile_padding_2d_iff :
      (padded : Elements F)
      → (has_zero_tile_padding_2d nonzero padded s ≡ ok true) ↔ (
          (padded.size ≡ s.storage.height * s.storage.width)
          × ((r c : ℕ) → IsPadding s r c → nonzero (padded.at (r * s.storage.width + c)) ≡ false))
  unfolding has_zero_tile_padding_2d
  has_zero_tile_padding_2d_iff padded =
      let area = s.storage.height * s.storage.width in
      let low = area_word s.storage t.storage_area in
      let same : u64 area ≡ area = omega (arith, low) in
      let rows = clean_rows nonzero s padded.at s.storage.height 0 in
      rw (IsTiling-valid s t, HasArea-area s.storage t.storage_area, same)
        (
          λ h.
              let (size, clean) = (gate_iff padded.size area rows).0 (ok-injective h) in
              (size, padding_zero padded.at clean),
          λ p.
              ap (λ (b : Bool). ok b)
                ((gate_iff padded.size area rows).1 (
                  p.0,
                  rows-clean nonzero s padded.at s.storage.height 0
                      (λ r c h b. no_stain padded.at p.1 r c (omega (arith, h)) b),
                )),
        )
