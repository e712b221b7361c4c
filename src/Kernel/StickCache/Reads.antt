-- ===== src/Kernel/StickCache/Reads.antt =====
-- Reads through the stick cache: read_source_value and release_cache keep the cache consistent with
-- the signal, and a read gives the sample.
use native.Mathlib.Nat.{div-add-mod', mod-lt, div-le_self, div-lt_iff_lt-mul, mul-le-mul_right}
use tt_wavelet.Common.{
  ℕ, ◌+◌, ◌-◌, ◌*◌, ◌/◌, ◌%◌, ◌^◌, ◌<◌, ◌≤◌, ◌≡◌, refl, ◌∙◌, ap, sym, subst, arith, Bool, true,
  false, ◌⊎◌, Bool-cases, if◌then◌else◌, inl, inr,
}
use tt_wavelet.Common.Words.{u32, sub32}
use tt_wavelet.Extension.Evaluate.{Floats}
use tt_wavelet.Kernel.StickCache.{
  Platform, Reader, cache_contains_stick, cache_source_sticks, read_source_value, release_cache,
  emptied, store,
}
use tt_wavelet.Kernel.StickCache.Fill.{
  Configured, Stored, stick_count_of, fill_sticks-inside, fill_sticks-outside, count-covers,
}

module _ (fl : Floats) (platform : Platform fl) (sample : ℕ → fl.Float) (length : ℕ) where
  open platform use {
    Buffer, cb_reserve_back, cb_push_back, cb_wait_front, cb_pop_front, get_write_ptr, get_read_ptr,
    IsIdle, cycle-ptr, cycle-IsIdle,
  }

  -- A buffer of `n` pages after a whole cycle has been written.
  abbrev pub cycled : Buffer → ℕ → Buffer
  cycled b n = cb_wait_front (cb_push_back (cb_reserve_back b n) n) n

  -- A cache that is in use holds consecutive sticks of the signal, in its own part of memory.
  pub record Full (r : Reader fl platform) : Type 0 where
    pub before : Buffer
    pub before_idle : IsIdle r.cache.stick_capacity before
    pub occupied : r.buffer ≡ cycled before r.cache.stick_capacity
    pub reserved : r.cache.reserved_stick_count ≡ r.cache.stick_capacity
    pub cached_fits : r.cache.cached_stick_count ≤ r.cache.stick_capacity
    pub cached_stands :
        r.cache.cached_stick_id + r.cache.cached_stick_count ≤ stick_count_of r.cache length
    pub cached_samples :
        (j lane : ℕ)
        → j < r.cache.cached_stick_count
        → lane < r.cache.stick_width
        → (r.cache.cached_stick_id + j) * r.cache.stick_width + lane < length
        → r.memory (get_read_ptr r.buffer + 4 * (j * r.cache.stick_width) + 4 * lane)
          ≡ sample ((r.cache.cached_stick_id + j) * r.cache.stick_width + lane)

  -- A reader is consistent with the signal: its sizes and the layout of the source are right, the
  -- buffer lies in the 32-bit memory, and it is idle or full.
  pub record Caches (r : Reader fl platform) : Type 0 where
    pub configured : Configured r.cache length
    pub stored : Stored fl platform sample length r.cache
    pub roomy :
        (b : Buffer)
        → IsIdle r.cache.stick_capacity b
        → get_write_ptr (cb_reserve_back b r.cache.stick_capacity)
            + r.cache.stick_capacity * (4 * r.cache.stick_width)
          < 2 ^ 32
    pub idle : r.cache.valid ≡ false → IsIdle r.cache.stick_capacity r.buffer
    pub full : r.cache.valid ≡ true → Full r

  -- A word of memory that no refill of the cache changes.
  abbrev pub Safe : Reader fl platform → ℕ → Type 0
  Safe r p =
      (b : Buffer)
      → IsIdle r.cache.stick_capacity b
      → let base = get_write_ptr (cb_reserve_back b r.cache.stick_capacity) in
        (p + 4 ≤ base) ⊎ (base + r.cache.stick_capacity * (4 * r.cache.stick_width) ≤ p)

  -- A step that leaves the safe words alone, and safe.
  abbrev pub Keeps : Reader fl platform → Reader fl platform → Type 0
  Keeps r after = (p : ℕ) → Safe r p → Safe after p × (after.memory p ≡ r.memory p)

  module _ (r : Reader fl platform) (k : Caches r) where
    open k use {configured, stored, roomy, idle, full}

    -- The buffer after the pages of an earlier refill have been given back.
    abbrev freed : Buffer
    freed = if r.cache.valid then cb_pop_front r.buffer r.cache.reserved_stick_count else r.buffer

    popped-IsIdle :
        r.cache.valid ≡ true
        → IsIdle r.cache.stick_capacity (cb_pop_front r.buffer r.cache.reserved_stick_count)
    popped-IsIdle e =
        let u = full e in rw (u.occupied, u.reserved) (cycle-IsIdle _ u.before u.before_idle)

    freed-IsIdle : IsIdle r.cache.stick_capacity freed
    freed-IsIdle = choose r.cache.valid popped-IsIdle idle
      where
        choose :
            {a b : Buffer} (v : Bool)
            → (v ≡ true → IsIdle r.cache.stick_capacity a)
            → (v ≡ false → IsIdle r.cache.stick_capacity b)
            → IsIdle r.cache.stick_capacity (if v then a else b)
        choose true t e = t refl
        choose false t e = e refl

    count-word : stick_count_of r.cache length < 2 ^ 32
    count-word =
        let wide = configured.wide in
        let counted = configured.counted in
        omega (arith, div-le_self (length + r.cache.stick_width - 1) r.cache.stick_width)

    module _ (s : ℕ) (h : s < stick_count_of r.cache length) where
      abbrev refilled : Reader fl platform
      refilled = cache_source_sticks fl platform r s (stick_count_of r.cache length) length

      taken :
          (refilled.cache.cached_stick_count ≤ r.cache.stick_capacity)
          × (s + refilled.cache.cached_stick_count ≤ stick_count_of r.cache length)
          × (0 < refilled.cache.cached_stick_count)
      unfolding cache_source_sticks
      taken =
          let word = count-word in
          let capable = configured.capable in (ground arith, ground arith, ground arith)

      refilled-Full : Full refilled
      unfolding cache_source_sticks
      refilled-Full = record {
        before = freed;
        before_idle = freed-IsIdle;
        occupied = refl;
        reserved = refl;
        cached_fits = taken.0;
        cached_stands = taken.1;
        cached_samples = λ j lane hj hl hx. rw (cycle-ptr _ freed freed-IsIdle) (
            fill_sticks-inside fl platform sample length r.cache configured stored s _ _ taken.1
              taken.0 (roomy freed freed-IsIdle) r.cache.stick_capacity 0 r.memory j lane
              (omega arith) (omega arith) (omega (arith, taken.0)) hj hl hx);
      }

      refilled-Caches : Caches refilled
      unfolding cache_source_sticks
      refilled-Caches = record {
        configured = record {
          words = configured.words;
          wide = configured.wide;
          capable = configured.capable;
          counted = configured.counted;
          paged = configured.paged;
          bytes = configured.bytes;
        };
        stored = stored;
        roomy = roomy;
        idle = λ e. cc;
        full = λ e. refilled-Full;
      }

      refilled-Keeps : Keeps r refilled
      unfolding cache_source_sticks
      refilled-Keeps p safe =
          let apart = safe freed freed-IsIdle in
          (
            safe,
            fill_sticks-outside fl platform sample length r.cache configured stored s _ _ taken.1
                taken.0 (roomy freed freed-IsIdle) r.cache.stick_capacity 0 r.memory p (omega arith)
                (ground arith),
          )

    module _ (index : ℕ) (h : index < length) where
      abbrev width : ℕ
      width = r.cache.stick_width

      abbrev stick : ℕ
      stick = index / width

      stick-below : stick < stick_count_of r.cache length
      stick-below =
          let wide = configured.wide in
          let covers = count-covers fl platform sample length r.cache configured stored in
          (div-lt_iff_lt-mul wide).1 (omega (arith, covers))

      -- The value that is returned after the cache holds the stick.
      held-sample :
          Full r
          → r.cache.cached_stick_id ≤ stick
          → stick < r.cache.cached_stick_id + r.cache.cached_stick_count
          → r.memory (
              get_read_ptr r.buffer
              + 4 * u32 (u32 (sub32 stick r.cache.cached_stick_id * width) + index % width))
            ≡ sample index
      held-sample u low high =
          let j : ℕ = stick - r.cache.cached_stick_id in
          let word = count-word in
          let counted = configured.counted in
          let at : stick * width + index % width ≡ index = div-add-mod' index width in
          let back : r.cache.cached_stick_id + j ≡ stick = omega arith in
          let off : sub32 stick r.cache.cached_stick_id ≡ j = omega (arith, stick-below) in
          let up : j * width ≤ stick * width = mul-le-mul_right width (omega arith) in
          let place : u32 (u32 (j * width) + index % width) ≡ j * width + index % width =
            omega arith in
          let found =
            u.cached_samples j (index % width) (omega arith) (mod-lt index configured.wide)
              (rw (back, at) h) in
          rw (off, place) (ap r.memory (omega arith) ∙ found ∙ ap sample (rw back at))

      hit :
          cache_contains_stick r.cache stick ≡ true
          → (r.cache.valid ≡ true)
            × (r.cache.cached_stick_id ≤ stick)
            × (stick < r.cache.cached_stick_id + r.cache.cached_stick_count)
      unfolding cache_contains_stick
      hit e = (ground arith, ground arith, ground arith)

  -- A read of a sample gives the sample, leaves the cache consistent, and changes the memory of the
  -- cache only, whether or not the cache held its stick.
  pub read_source_value-sample :
      (r : Reader fl platform) (index : ℕ)
      → index < length
      → Caches r
      → let (value, after) = read_source_value fl platform r index length in
        (value ≡ sample index) × Caches after × Keeps r after
  unfolding read_source_value
  read_source_value-sample r index h k =
      let counted = k.configured.counted in
      let wide = k.configured.wide in
      let below = stick-below r k index h in
      let count : sub32 (u32 (length + r.cache.stick_width)) 1 / r.cache.stick_width
          ≡ stick_count_of r.cache length =
        ap (λ (n : ℕ). n / r.cache.stick_width) (omega arith) in
      rw count (elim (Bool-cases (cache_contains_stick r.cache (index / r.cache.stick_width))) [
        | inl e ↦
            let held = hit r k index h e in
            rw e (held-sample r k index h (k.full held.0) held.1 held.2, k, λ p safe. (safe, refl))
        | inr e ↦
            let after = refilled-Caches r k (index / r.cache.stick_width) below in
            let full = refilled-Full r k (index / r.cache.stick_width) below in
            let some_held = (taken r k (index / r.cache.stick_width) below).2 in
            rw e (
              unfold cache_source_sticks in
                  held-sample _ after index h full (omega arith) (omega (arith, some_held)),
              after,
              refilled-Keeps r k (index / r.cache.stick_width) below,
            )
      ])

  -- A reader that has given its pages back.
  abbrev pub Idle : Reader fl platform → Type 0
  Idle r = (r.cache.valid ≡ false) × IsIdle r.cache.stick_capacity r.buffer × Caches r

  emptied-Idle :
      (r : Reader fl platform) → Caches r → r.cache.valid ≡ true → Idle (emptied fl platform r)
  emptied-Idle r k e =
      let c = k.configured in
      let i = popped-IsIdle r k e in
      (
        refl,
        i,
        record {
          configured = record {
            words = c.words;
            wide = c.wide;
            capable = c.capable;
            counted = c.counted;
            paged = c.paged;
            bytes = c.bytes;
          };
          stored = k.stored;
          roomy = k.roomy;
          idle = λ e. i;
          full = λ e. cc;
        },
      )

  -- Giving the cache back leaves an idle buffer, and an empty cache that is consistent.
  pub release_cache-Idle : (r : Reader fl platform) → Caches r → Idle (release_cache fl platform r)
  unfolding release_cache
  release_cache-Idle r k = elim (Bool-cases r.cache.valid) [
    | inl e ↦
        let same : release_cache fl platform r ≡ emptied fl platform r = rw e refl in
        subst Idle (sym same) (emptied-Idle r k e)
    | inr e ↦
        let same : release_cache fl platform r ≡ r = rw e refl in
        subst Idle (sym same) (e, k.idle e, k)
  ]

  pub release_cache-memory :
      (r : Reader fl platform) → (release_cache fl platform r).memory ≡ r.memory
  unfolding release_cache
  release_cache-memory r = elim (Bool-cases r.cache.valid) [ inl e ↦ rw e refl | inr e ↦ rw e refl ]

  -- A reader whose memory changes at a safe word.
  abbrev pub stored_at : Reader fl platform → ℕ → fl.Float → Reader fl platform
  stored_at r p value = record r { memory = store fl r.memory p value }

  stored_at-Full :
      (r : Reader fl platform) (p : ℕ) (value : fl.Float)
      → Safe r p
      → Full r
      → Full (stored_at r p value)
  stored_at-Full r p value safe u = record {
    before = u.before;
    before_idle = u.before_idle;
    occupied = u.occupied;
    reserved = u.reserved;
    cached_fits = u.cached_fits;
    cached_stands = u.cached_stands;
    cached_samples = λ j lane hj hl hx.
        let apart = safe u.before u.before_idle in
        let at : get_read_ptr r.buffer
            ≡ get_write_ptr (cb_reserve_back u.before r.cache.stick_capacity) =
          rw u.occupied (cycle-ptr _ u.before u.before_idle) in
        let slot : (j + 1) * r.cache.stick_width ≤ r.cache.stick_capacity * r.cache.stick_width =
          mul-le-mul_right r.cache.stick_width (omega (arith, u.cached_fits)) in
        ground (arith, u.cached_samples j lane hj hl hx);
  }

  pub stored_at-Caches :
      (r : Reader fl platform) (p : ℕ) (value : fl.Float)
      → Safe r p
      → Caches r
      → Caches (stored_at r p value)
  stored_at-Caches r p value safe k = record {
    configured = k.configured;
    stored = k.stored;
    roomy = k.roomy;
    idle = k.idle;
    full = λ e. stored_at-Full r p value safe (k.full e);
  }
