-- ===== src/Tiling/Cover.antt =====
-- The tiled shape of a tensor is the least one that holds it.
use native.Mathlib.Nat.{div-add-mod, div-le_self, le-mul_of_pos_right}
use tt_wavelet.Common.{
  ℕ, ◌+◌, ◌-◌, ◌*◌, ◌/◌, ◌%◌, ◌^◌, ◌≤◌, ◌<◌, ◌≡◌, ◌↔◌, refl, subst, arith, Bool, true, ok, require,
  >>=-eq-ok, >>-eq-ok, ok-injective, leb, ◌&&◌,
}
use tt_wavelet.Common.Words.{u64}
use tt_wavelet.Tiling.{
  Shape2D, TiledShape2D, same_tiled_shape, is_tile_aligned_2d, checked_shape_area_2d,
  round_up_to_tile_2d, make_tiled_shape_2d, validate_tiled_shape_2d,
}

-- `m` is the least positive multiple of the tile extent that is not below `n`.
abbrev pub Covers : ℕ → ℕ → Type 0
Covers n m = (0 < n) × (n ≤ m) × (m < n + 32) × (m % 32 ≡ 0)

-- Neither extent is 0, and the number of elements fits `size_t`.
abbrev pub HasArea : Shape2D → Type 0
HasArea s = (0 < s.height) × (0 < s.width) × (s.height ≤ (2 ^ 64 - 1) / s.width)

round_up_to_tile-Covers : (n m : ℕ) → n < 2 ^ 64 → round_up_to_tile_2d n 32 ≡ ok m → Covers n m
unfolding round_up_to_tile_2d
round_up_to_tile-Covers n m b h = ground arith

round_up_to_tile_same : (n m : ℕ) → n < 2 ^ 64 - 31 → Covers n m → round_up_to_tile_2d n 32 ≡ ok m
unfolding round_up_to_tile_2d
round_up_to_tile_same n m b h = ground arith

area-HasArea : (s : Shape2D) (a : ℕ) → checked_shape_area_2d s ≡ ok a → HasArea s
unfolding checked_shape_area_2d
area-HasArea s a h = ground arith

pub HasArea-area :
    (s : Shape2D) → HasArea s → checked_shape_area_2d s ≡ ok (u64 (s.height * s.width))
unfolding checked_shape_area_2d
HasArea-area s h = ground arith

-- What is asked of a tiled shape: it is the least aligned one that holds the logical shape, and the
-- numbers of elements of both fit `size_t`.
pub record IsTiling (s : TiledShape2D) : Type 0 where
  pub logical_area : HasArea s.logical
  pub storage_area : HasArea s.storage
  pub height_covers : Covers s.logical.height s.storage.height
  pub width_covers : Covers s.logical.width s.storage.width

area_bounds : (s : Shape2D) → HasArea s → (s.height < 2 ^ 64) × (s.width < 2 ^ 64)
area_bounds s h = (
  omega (arith, h, div-le_self (2 ^ 64 - 1) s.width),
  omega (
    arith,
    h,
    div-add-mod (2 ^ 64 - 1) s.width,
    le-mul_of_pos_right {m = (2 ^ 64 - 1) / s.width} s.width (omega (arith, h)),
  ),
)

make_tiled_shape-IsTiling :
    (logical : Shape2D) (s : TiledShape2D)
    → logical.height < 2 ^ 64
    → logical.width < 2 ^ 64
    → make_tiled_shape_2d logical ≡ ok s
    → (s.logical ≡ logical) × IsTiling s
unfolding make_tiled_shape_2d
make_tiled_shape-IsTiling l s bh bw h =
    let (a, ea, h₁) = >>=-eq-ok (checked_shape_area_2d l) _ h in
    let (m, em, h₂) = >>=-eq-ok (round_up_to_tile_2d l.height 32) _ h₁ in
    let (n, en, h₃) = >>=-eq-ok (round_up_to_tile_2d l.width 32) _ h₂ in
    let (b, eb, h₄) = >>=-eq-ok (checked_shape_area_2d (record { height = m; width = n })) _ h₃ in
    subst (λ (s : TiledShape2D). (s.logical ≡ l) × IsTiling s) (ok-injective h₄)
      (
        refl,
        record {
          logical_area = area-HasArea l a ea;
          storage_area = area-HasArea (record { height = m; width = n }) b eb;
          height_covers = round_up_to_tile-Covers l.height m bh em;
          width_covers = round_up_to_tile-Covers l.width n bw en;
        },
      )

pub IsTiling-make : (s : TiledShape2D) → IsTiling s → make_tiled_shape_2d s.logical ≡ ok s
unfolding make_tiled_shape_2d
IsTiling-make s t =
    let bounds = area_bounds s.storage t.storage_area in
    rw
      (
        HasArea-area s.logical t.logical_area,
        round_up_to_tile_same s.logical.height s.storage.height
            (omega (arith, t.height_covers, bounds)) t.height_covers,
        round_up_to_tile_same s.logical.width s.storage.width
            (omega (arith, t.width_covers, bounds)) t.width_covers,
        HasArea-area s.storage t.storage_area,
      )
      refl

-- A tiled shape is made of a logical shape of `size_t` extents exactly where it has that logical
-- shape, its storage is the least whole number of 32 x 32 tiles that holds it, and the numbers of
-- elements of both fit `size_t`.
pub make_tiled_shape_2d_iff :
    (logical : Shape2D) (s : TiledShape2D)
    → logical.height < 2 ^ 64
    → logical.width < 2 ^ 64
    → (make_tiled_shape_2d logical ≡ ok s) ↔ ((s.logical ≡ logical) × IsTiling s)
make_tiled_shape_2d_iff l s bh bw = (
  make_tiled_shape-IsTiling l s bh bw,
  λ p. subst (λ (l : Shape2D). make_tiled_shape_2d l ≡ ok s) p.0 (IsTiling-make s p.1),
)

same_tiled_shape-eq : (a b : TiledShape2D) → same_tiled_shape a b ≡ true → b ≡ a
same_tiled_shape-eq a b h = ground arith

IsTiling-aligned : (s : TiledShape2D) → IsTiling s → is_tile_aligned_2d s.storage ≡ true
unfolding is_tile_aligned_2d
IsTiling-aligned s t = ground (arith, t.height_covers, t.width_covers)

pub IsTiling-valid : (s : TiledShape2D) → IsTiling s → validate_tiled_shape_2d s ≡ ok tt
unfolding validate_tiled_shape_2d
IsTiling-valid s t =
    rw
      (
        HasArea-area s.logical t.logical_area,
        HasArea-area s.storage t.storage_area,
        IsTiling-aligned s t,
        IsTiling-make s t,
      )
      (ground (arith, t.height_covers, t.width_covers))

-- A shape of `size_t` extents is valid exactly where it is the one that is made of its logical shape.
pub validate_tiled_shape_2d_iff :
    (s : TiledShape2D)
    → s.logical.height < 2 ^ 64
    → s.logical.width < 2 ^ 64
    → (validate_tiled_shape_2d s ≡ ok tt) ↔ (make_tiled_shape_2d s.logical ≡ ok s)
unfolding validate_tiled_shape_2d
validate_tiled_shape_2d_iff s bh bw = (
  λ h.
      let (_, _, h₁) = >>=-eq-ok (checked_shape_area_2d s.logical) _ h in
      let (_, _, h₂) = >>=-eq-ok (checked_shape_area_2d s.storage) _ h₁ in
      let (_, h₃) = >>-eq-ok (is_tile_aligned_2d s.storage) _ h₂ in
      let (_, h₄) =
        >>-eq-ok (leb s.logical.height s.storage.height && leb s.logical.width s.storage.width) _
          h₃ in
      let (minimal, made, h₅) = >>=-eq-ok (make_tiled_shape_2d s.logical) _ h₄ in
      subst (λ (m : TiledShape2D). make_tiled_shape_2d s.logical ≡ ok m)
        (same_tiled_shape-eq s minimal (require-true _ h₅)) made,
  λ h. IsTiling-valid s (make_tiled_shape-IsTiling s.logical s bh bw h).1,
)
  where
    require-true : (c : Bool) → require c ≡ ok tt → c ≡ true
    require-true c h = ground arith
