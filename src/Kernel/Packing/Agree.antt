-- ===== src/Kernel/Packing/Agree.antt =====
-- Loops that write words of a given target: each step keeps the words that are right, and makes its
-- own words right, so that the whole loop makes them all right.
use native.Mathlib.Decide.{dec_lt}
use tt_wavelet.Common.{ℕ, zero, suc, ◌+◌, ◌<◌, ◌≤◌, ◌≡◌, refl, arith, subst, sym}
use tt_wavelet.Extension.Evaluate.{Floats}
use tt_wavelet.Kernel.Packing.{Pointer, Pages, at, write, for_up}

module _ (fl : Floats) (target : Pages fl) where
  -- A word that is as in the target.
  abbrev pub IsRight : Pages fl → Pointer → Type 0
  IsRight pages p = pages p.buffer p.word ≡ target p.buffer p.word

  -- A step that makes no word wrong.
  abbrev pub Improves : Pages fl → Pages fl → Type 0
  Improves pages after = (p : Pointer) → IsRight pages p → IsRight after p

  pub write-Improves :
      (pages : Pages fl) (p : Pointer) (value : fl.Float)
      → value ≡ target p.buffer p.word
      → Improves pages (write fl pages p value) × IsRight (write fl pages p value) p
  write-Improves pages p value e = ((λ q h. ground arith), ground arith)

  -- A loop over a state that shows pages: `Stands i` holds of the state before round i, and round
  -- i makes the words of `cells i` right.
  pub for_up-Improves {ℓ} :
      {A : Type ℓ} (show : A → Pages fl) (Stands : ℕ → A → Type 0) (cells : ℕ → Pointer → Type 0)
      (body : ℕ → A → A) (end left start : ℕ) (a : A)
      → start + left ≡ end
      → ((i : ℕ) (b : A)
          → i < end
          → Stands i b
          → Stands (i + 1) (body i b)
            × Improves (show b) (show (body i b))
            × ((p : Pointer) → cells i p → IsRight (show (body i b)) p))
      → Stands start a
      → let after = for_up left start body a in
        Stands end after
        × Improves (show a) (show after)
        × ((i : ℕ) (p : Pointer) → start ≤ i → i < end → cells i p → IsRight (show after) p)
  unfolding for_up
  for_up-Improves show Stands cells body end zero start a e step s =
      let same : start ≡ end = omega arith in
      (subst (λ (i : ℕ). Stands i a) same s, λ p h. h, λ i p low high c. absurd (omega arith))
  for_up-Improves show Stands cells body end (suc left) start a e step s =
      let first = step start a (omega arith) s in
      let rest =
        for_up-Improves show Stands cells body end left (start + 1) (body start a) (omega arith)
          step first.0 in
      (
        rest.0,
        λ p h. rest.1 p (first.1 p h),
        λ i p low high c. elim (dec_lt start i) [
          | yes l ↦ rest.2 i p (omega arith) high c
          | no m ↦
              let same : i ≡ start = omega arith in
              rest.1 p (first.2 p (subst (λ (j : ℕ). cells j p) same c))
        ],
      )

  -- A loop that writes the words from a pointer on.
  pub lanes-Improves :
      (value : ℕ → fl.Float) (count : ℕ) (dst : Pointer) (pages : Pages fl)
      → ((i : ℕ) → i < count → value i ≡ target dst.buffer (dst.word + i))
      → let after = for_up count 0 (λ i out. write fl out (at dst i) (value i)) pages in
        Improves pages after × ((i : ℕ) → i < count → IsRight after (at dst i))
  lanes-Improves value count dst pages h =
      let step : (i : ℕ) (m : Pages fl)
          → i < count
          → Unit {0}
          → Unit {0}
            × Improves m (write fl m (at dst i) (value i))
            × ((p : Pointer) → p ≡ at dst i → IsRight (write fl m (at dst i) (value i)) p) =
        λ i m hi s.
          let w = write-Improves m (at dst i) (value i) (h i hi) in
          (tt, w.0, λ p e. subst (IsRight (write fl m (at dst i) (value i))) (sym e) w.1) in
      let loop =
        for_up-Improves (λ (m : Pages fl). m) (λ i m. Unit {0}) (λ i p. p ≡ at dst i)
          (λ i out. write fl out (at dst i) (value i)) count count 0 pages (omega arith) step tt in
      (loop.1, λ i hi. loop.2 i (at dst i) (omega arith) hi refl)
