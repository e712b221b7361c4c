-- ===== src/Tiling/Padding/Rows.antt =====
-- Where the elements of a tensor stand in its tiled storage, and what the rest of the storage holds.
use native.Mathlib.Nat.{mul-le-mul_left, mul-le-mul_right}
use native.Mathlib.Decide.{dec_lt}
use tt_wavelet.Common.{
  ℕ, zero, suc, ◌+◌, ◌-◌, ◌*◌, ◌^◌, ◌≤◌, ◌<◌, ◌≡◌, ◌⊎◌, inl, inr, refl, sym, ◌∙◌, subst, arith,
  true, false, ltb, leb, ◌&&◌,
}
use tt_wavelet.Common.Words.{u64}
use tt_wavelet.Tiling.Padding.{copy_n, copy_rows}

-- A position of a row stands before the rows after it.
pub row_end :
    (row height column width : ℕ)
    → row < height
    → column < width
    → row * width + column < height * width
row_end row height column width h b =
    omega (arith, mul-le-mul_right {m = row + 1} {n = height} width (omega (arith, h)), b)

module _ {F : Type 0} (input : ℕ → F) (logical_width storage_width : ℕ)
    (narrow : logical_width ≤ storage_width) where
  copy_n-inside :
      (from n to p : ℕ) (m : ℕ → F) (i : ℕ)
      → p ≡ to + i
      → i < n
      → copy_n input from n to m p ≡ input (from + i)
  unfolding copy_n
  copy_n-inside from n to p m i e h =
      subst (λ (p : ℕ). copy_n input from n to m p ≡ input (from + i)) (sym e) at_sum
    where
      rest : to + i - to ≡ i
      rest = omega arith

      tests : (leb to (to + i) && ltb (to + i) (to + n)) ≡ true
      tests = ground arith

      at_sum : copy_n input from n to m (to + i) ≡ input (from + i)
      at_sum = rw (tests, rest) refl

  copy_n-outside :
      (from n to p : ℕ) (m : ℕ → F) → (p < to) ⊎ (to + n ≤ p) → copy_n input from n to m p ≡ m p
  unfolding copy_n
  copy_n-outside from n to p m h = rw (tests h) refl
    where
      tests : (p < to) ⊎ (to + n ≤ p) → (leb to p && ltb p (to + n)) ≡ false
      tests h = ground arith

  abbrev row_copied : ℕ → (ℕ → F) → ℕ → F
  row_copied row m =
      copy_n input (u64 (row * logical_width)) logical_width (u64 (row * storage_width)) m

  -- A row that is copied changes no other row, and no column beyond its own.
  row_copied-kept :
      (row r c : ℕ) (m : ℕ → F)
      → row * storage_width < 2 ^ 64
      → c < storage_width
      → (r < row) ⊎ (row < r) ⊎ (logical_width ≤ c)
      → row_copied row m (r * storage_width + c) ≡ m (r * storage_width + c)
  row_copied-kept row r c m low h apart =
      let same : u64 (row * storage_width) ≡ row * storage_width = omega (arith, low) in
      rw same (
        copy_n-outside (u64 (row * logical_width)) logical_width (row * storage_width)
          (r * storage_width + c) m (beside apart))
    where
      before : r < row → r * storage_width + c < row * storage_width
      before l = row_end r row c storage_width l h

      after : row < r → row * storage_width + logical_width ≤ r * storage_width
      after l =
          omega
            (arith, mul-le-mul_right {m = row + 1} {n = r} storage_width (omega (arith, l)), narrow)

      beside :
          (r < row) ⊎ (row < r) ⊎ (logical_width ≤ c)
          → (r * storage_width + c < row * storage_width)
            ⊎ (row * storage_width + logical_width ≤ r * storage_width + c)
      beside (inl l) = inl (before l)
      beside (inr (inl l)) = inr (omega (arith, after l))
      beside (inr (inr l)) = elim (dec_lt r row) [
        | yes b ↦ inl (before b)
        | no b ↦
            inr (
              omega (arith, mul-le-mul_right {m = row} {n = r} storage_width (omega (arith, b)), l))
      ]

  pub copy_rows-kept :
      (rounds row r c : ℕ) (m : ℕ → F)
      → (row + rounds) * storage_width < 2 ^ 64
      → c < storage_width
      → (r < row) ⊎ (row + rounds ≤ r) ⊎ (logical_width ≤ c)
      → copy_rows input logical_width storage_width rounds row m (r * storage_width + c)
        ≡ m (r * storage_width + c)
  unfolding copy_rows
  copy_rows-kept zero row r c m low h apart = refl
  copy_rows-kept (suc rounds) row r c m low h apart =
      let here : row * storage_width < 2 ^ 64 = omega (
        arith,
        low,
        mul-le-mul_right {m = row} {n = row + suc rounds} storage_width (omega arith),
      ) in
      copy_rows-kept rounds (row + 1) r c (row_copied row m) (later low) h (apart_later apart)
      ∙ row_copied-kept row r c m here h (apart_here apart)
    where
      later :
          (row + suc rounds) * storage_width < 2 ^ 64 → (row + 1 + rounds) * storage_width < 2 ^ 64
      later low = subst (λ (n : ℕ). n * storage_width < 2 ^ 64) (next row rounds) low
        where
          next : (row rounds : ℕ) → row + suc rounds ≡ row + 1 + rounds
          next row rounds = omega arith

      apart_later :
          (r < row) ⊎ (row + suc rounds ≤ r) ⊎ (logical_width ≤ c)
          → (r < row + 1) ⊎ (row + 1 + rounds ≤ r) ⊎ (logical_width ≤ c)
      apart_later (inl l) = inl (omega (arith, l))
      apart_later (inr (inl l)) = inr (inl (omega (arith, l)))
      apart_later (inr (inr l)) = inr (inr l)

      apart_here :
          (r < row) ⊎ (row + suc rounds ≤ r) ⊎ (logical_width ≤ c)
          → (r < row) ⊎ (row < r) ⊎ (logical_width ≤ c)
      apart_here (inl l) = inl l
      apart_here (inr (inl l)) = inr (inl (omega (arith, l)))
      apart_here (inr (inr l)) = inr (inr l)

  row_copied-written :
      (row c : ℕ) (m : ℕ → F)
      → row * storage_width < 2 ^ 64
      → c < logical_width
      → row_copied row m (row * storage_width + c) ≡ input (row * logical_width + c)
  row_copied-written row c m low h =
      let narrow_row : row * logical_width ≤ row * storage_width = rows_narrow row in
      let same : u64 (row * storage_width) ≡ row * storage_width = omega (arith, low) in
      let from : u64 (row * logical_width) ≡ row * logical_width = omega (arith, low, narrow_row) in
      rw (same, from)
        (copy_n-inside (row * logical_width) logical_width (row * storage_width)
          (row * storage_width + c) m c refl h)
    where
      rows_narrow : (row : ℕ) → row * logical_width ≤ row * storage_width
      rows_narrow row = mul-le-mul_left row narrow

  pub copy_rows-written :
      (rounds row r c : ℕ) (m : ℕ → F)
      → (row + rounds) * storage_width < 2 ^ 64
      → row ≤ r
      → r < row + rounds
      → c < logical_width
      → copy_rows input logical_width storage_width rounds row m (r * storage_width + c)
        ≡ input (r * logical_width + c)
  unfolding copy_rows
  copy_rows-written zero row r c m low a b h = absurd (omega (arith, a, b))
  copy_rows-written (suc rounds) row r c m low a b h =
      let sum : row + suc rounds ≡ row + 1 + rounds = omega arith in
      let low' = rw sum at low in
      elim (dec_lt row r) [
        | yes l ↦
            copy_rows-written rounds (row + 1) r c (row_copied row m) low' (omega (arith, l))
              (omega (arith, b)) h
        | no l ↦
            let here : row * storage_width < 2 ^ 64 = omega (
              arith,
              low,
              mul-le-mul_right {m = row} {n = row + suc rounds} storage_width (omega arith),
            ) in
            let same : r ≡ row = omega (arith, a, l) in
            copy_rows-kept rounds (row + 1) r c (row_copied row m) low' (omega (arith, h, narrow))
              (inl (omega (arith, same)))
            ∙ subst
                (λ (r : ℕ).
                  row_copied row m (r * storage_width + c) ≡ input (r * logical_width + c))
                (sym same) (row_copied-written row c m here h)
      ]
