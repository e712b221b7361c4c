-- ===== src/Kernel/StickCache/Fill.antt =====
-- What a refill of the stick cache leaves in memory: the loop of cache_source_sticks.
use native.Mathlib.Decide.{dec_lt}
use native.Mathlib.Nat.{mul-le-mul_right, lt-div-mul-add, div-mul-le_self}
use tt_wavelet.Common.{
  ℕ, zero, suc, ◌+◌, ◌-◌, ◌*◌, ◌/◌, ◌^◌, ◌<◌, ◌≤◌, ◌≡◌, refl, ◌∙◌, sym, arith, ◌⊎◌, inl, inr, Bool,
  true, false, Bool-cases, lt→ltb, le→ltb, if◌then◌else◌,
}
use tt_wavelet.Common.Words.{u32, sub32}
use tt_wavelet.Extension.Evaluate.{Floats}
use tt_wavelet.Kernel.StickCache.{
  Platform, StickReadCache, page_per_stick, is_partial_tail, read_size, store, zero_words,
  stick_address, fill_stick, fill_sticks,
}

zero_words-outside :
    (fl : Floats) (left word dst : ℕ) (m : ℕ → fl.Float) (p : ℕ)
    → (p + 4 ≤ dst + 4 * word) ⊎ (dst + 4 * (word + left) ≤ p)
    → zero_words fl left word dst m p ≡ m p
unfolding zero_words
zero_words-outside fl zero word dst m p h = refl
zero_words-outside fl (suc left) word dst m p h =
    zero_words-outside fl left (word + 1) dst (store fl m (dst + 4 * word) fl.zero_f) p
      (ground arith)
    ∙ ground arith

-- A signal of `length` samples in sticks of `stick_width`, of four bytes each.
abbrev pub stick_count_of : StickReadCache → ℕ → ℕ
stick_count_of c length = (length + c.stick_width - 1) / c.stick_width

-- A cache whose sizes are consistent, for a signal that 32-bit arithmetic reaches.
pub record Configured (c : StickReadCache) (length : ℕ) : Type 0 where
  pub words : c.stick_nbytes ≡ 4 * c.stick_width
  pub wide : 0 < c.stick_width
  pub capable : 0 < c.stick_capacity
  pub counted : length + c.stick_width ≤ 2 ^ 32
  pub paged : c.source_page + stick_count_of c length ≤ 2 ^ 32
  pub bytes : stick_count_of c length * c.stick_nbytes ≤ 2 ^ 32

module _ (fl : Floats) (platform : Platform fl) where
  open platform use {get_noc_addr, word_at, noc_async_read, noc-inside, noc-outside}

  -- The samples stand in the sticks, one stick to a page or all in one page.
  abbrev pub Stored : (ℕ → fl.Float) → ℕ → StickReadCache → Type 0
  Stored sample length c =
      (stick lane : ℕ)
      → lane < c.stick_width
      → stick * c.stick_width + lane < length
      → (page_per_stick c ≡ true
          → word_at (get_noc_addr (c.source_page + stick) 0) (4 * lane)
            ≡ sample (stick * c.stick_width + lane))
        × (page_per_stick c ≡ false
            → word_at (get_noc_addr c.source_page (stick * c.stick_nbytes)) (4 * lane)
              ≡ sample (stick * c.stick_width + lane))

module _ (fl : Floats) (platform : Platform fl) (sample : ℕ → fl.Float) (length : ℕ)
    (c : StickReadCache) (f : Configured c length) (st : Stored fl platform sample length c) where
  open platform use {get_noc_addr, word_at, noc_async_read, noc-inside, noc-outside}
  open f use {words, wide, capable, counted, paged, bytes}

  abbrev w : ℕ
  w = c.stick_width

  abbrev count : ℕ
  count = stick_count_of c length

  pub count-covers : length ≤ count * w
  count-covers = omega (arith, lt-div-mul-add {a = length + w - 1} wide)

  count-below : count * w < length + w
  count-below = omega (arith, div-mul-le_self (length + w - 1) w, wide)

  module _ (stick : ℕ) (h : stick < count) where
    stick-bytes : stick * w + w ≤ count * w
    stick-bytes = let l : stick + 1 ≤ count = omega arith in omega (arith, mul-le-mul_right w l)

    stick_address-word :
        (lane : ℕ)
        → lane < w
        → stick * w + lane < length
        → word_at (stick_address fl platform c stick) (4 * lane) ≡ sample (stick * w + lane)
    stick_address-word lane hl hs = elim (Bool-cases (page_per_stick c)) [
      | inl e ↦
          let a : u32 (c.source_page + stick) ≡ c.source_page + stick = omega arith in
          rw (e, a) ((st stick lane hl hs).0 e)
      | inr e ↦
          let b : stick * c.stick_nbytes ≡ 4 * (stick * w) = rw words (omega arith) in
          let t : count * c.stick_nbytes ≡ 4 * (count * w) = rw words (omega arith) in
          let a : u32 (stick * c.stick_nbytes) ≡ stick * c.stick_nbytes =
            omega (arith, stick-bytes) in
          rw (e, a) ((st stick lane hl hs).1 e)
    ]

    -- A transfer stays in its slot, and brings all samples of its stick.
    read_size-fits :
        (partial : Bool)
        → (partial ≡ true → is_partial_tail c stick count length ≡ true)
        → 4 * w < 2 ^ 32
        → (read_size c partial stick length ≤ 4 * w)
          × ((lane : ℕ)
              → lane < w
              → stick * w + lane < length
              → 4 * lane < read_size c partial stick length)
    read_size-fits false e hw = (omega arith, λ lane hl hs. omega arith)
    read_size-fits true e hw =
        let end : stick + 1 ≡ count = ground (arith, e refl) in
        let last : stick * w + w ≡ count * w = rw (sym end) (omega arith) in
        let start : stick * w < length = omega (arith, count-below) in
        let short : u32 (stick * w) ≡ stick * w = omega arith in
        rw short (
          let size : u32 (sub32 length (stick * w) * 4) ≡ (length - stick * w) * 4 =
            omega (arith, count-covers) in
          (omega (arith, count-covers), λ lane hl hs. omega arith))

  module _ (s cached base : ℕ) (hs : s + cached ≤ count) (hc : cached ≤ c.stick_capacity)
      (hb : base + c.stick_capacity * (4 * w) < 2 ^ 32) where
    module _ (i : ℕ) (hi : i < c.stick_capacity) where
      slot-bytes : i * w + w ≤ c.stick_capacity * w
      slot-bytes =
          let l : i + 1 ≤ c.stick_capacity = omega arith in omega (arith, mul-le-mul_right w l)

      destination-eq : u32 (base + u32 (i * c.stick_nbytes)) ≡ base + 4 * (i * w)
      destination-eq = rw words (omega (arith, slot-bytes))

      -- What the loop clears where it clears, its destination.
      abbrev clear : Bool → (ℕ → fl.Float) → ℕ → fl.Float
      clear b m = if b then zero_words fl (c.stick_nbytes / 4) 0 (base + 4 * (i * w)) m else m

      clear-outside :
          (b : Bool) (m : ℕ → fl.Float) (p : ℕ)
          → (p + 4 ≤ base + 4 * (i * w)) ⊎ (base + 4 * (i * w) + 4 * w ≤ p)
          → clear b m p ≡ m p
      clear-outside false m p hp = refl
      clear-outside true m p hp =
          let e : c.stick_nbytes / 4 ≡ w = rw words (omega arith) in
          rw e (zero_words-outside fl w 0 (base + 4 * (i * w)) m p (ground arith))

      abbrev tail : Bool
      tail = is_partial_tail c (s + i) count length

      fill_stick-cached :
          (m : ℕ → fl.Float)
          → i < cached
          → fill_stick fl platform c s count length cached base i m
            ≡ noc_async_read
                (stick_address fl platform c (s + i))
                (base + 4 * (i * w))
                (read_size c tail (s + i) length)
                (clear tail m)
      unfolding fill_stick
      fill_stick-cached m l =
          let t : u32 (s + i) ≡ s + i = omega arith in
          rw (destination-eq, t, lt→ltb i cached l) refl

      fill_stick-uncached :
          (m : ℕ → fl.Float)
          → cached ≤ i
          → fill_stick fl platform c s count length cached base i m ≡ clear true m
      unfolding fill_stick
      fill_stick-uncached m l = rw (destination-eq, le→ltb i cached l) refl

      sizes :
          i < cached
          → (read_size c tail (s + i) length ≤ 4 * w)
            × ((lane : ℕ)
                → lane < w
                → (s + i) * w + lane < length
                → 4 * lane < read_size c tail (s + i) length)
      sizes l = read_size-fits (s + i) (omega arith) tail (λ e. e) (omega (arith, slot-bytes))

      fill_stick-outside :
          (m : ℕ → fl.Float) (p : ℕ)
          → (p + 4 ≤ base + 4 * (i * w)) ⊎ (base + 4 * (i * w) + 4 * w ≤ p)
          → fill_stick fl platform c s count length cached base i m p ≡ m p
      fill_stick-outside m p hp = elim (dec_lt i cached) [
        | yes l ↦
            let z = sizes l in
            rw (fill_stick-cached m l)
              (noc-outside _ _ _ _ p (ground arith) ∙ clear-outside tail m p hp)
        | no n ↦ rw (fill_stick-uncached m (omega arith)) (clear-outside true m p hp)
      ]

      fill_stick-inside :
          (m : ℕ → fl.Float) (lane : ℕ)
          → i < cached
          → lane < w
          → (s + i) * w + lane < length
          → fill_stick fl platform c s count length cached base i m (base + 4 * (i * w) + 4 * lane)
            ≡ sample ((s + i) * w + lane)
      fill_stick-inside m lane l hl hx = rw (fill_stick-cached m l) (
          noc-inside _ _ _ _ lane ((sizes l).1 lane hl hx)
          ∙ stick_address-word (s + i) (omega arith) lane hl hx)

    -- The loop changes its slots only, and fills the slots of the cached sticks.
    pub fill_sticks-outside :
        (left i : ℕ) (m : ℕ → fl.Float) (p : ℕ)
        → i + left ≤ c.stick_capacity
        → (p + 4 ≤ base + 4 * (i * w)) ⊎ (base + 4 * (c.stick_capacity * w) ≤ p)
        → fill_sticks fl platform c s count length cached base left i m p ≡ m p
    unfolding fill_sticks
    fill_sticks-outside zero i m p hi hp = refl
    fill_sticks-outside (suc left) i m p hi hp =
        let slots = slot-bytes i (omega arith) in
        fill_sticks-outside left (i + 1) _ p (omega arith) (ground arith)
        ∙ fill_stick-outside i (omega arith) m p (ground arith)

    pub fill_sticks-inside :
        (left i : ℕ) (m : ℕ → fl.Float) (j lane : ℕ)
        → i + left ≤ c.stick_capacity
        → i ≤ j
        → j < i + left
        → j < cached
        → lane < w
        → (s + j) * w + lane < length
        → fill_sticks fl platform c s count length cached base left i m
            (base + 4 * (j * w) + 4 * lane)
          ≡ sample ((s + j) * w + lane)
    unfolding fill_sticks
    fill_sticks-inside zero i m j lane hi hij hj hjc hl hx = absurd (omega arith)
    fill_sticks-inside (suc left) i m j lane hi hij hj hjc hl hx = elim (dec_lt i j) [
      | yes l ↦
          fill_sticks-inside left (i + 1) _ j lane (omega arith) (omega arith) (omega arith) hjc hl
            hx
      | no n ↦
          let e : i ≡ j = omega arith in
          fill_sticks-outside left (i + 1) _ _ (omega arith) (inl (rw e (omega arith)))
          ∙ rw e (fill_stick-inside j (omega arith) m lane hjc hl hx)
    ]
