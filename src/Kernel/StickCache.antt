-- ===== src/Kernel/StickCache.antt =====
-- The cache through which a reader kernel sees the samples of a signal in DRAM:
-- kernels/primitives/stick_cache.hpp. The circular buffers, the source accessor and the transfers
-- of tt-metal are the parameter `Platform`; memory is a function from the byte address of a word.
pub mod Fill
pub mod Reads
pub mod Padded
use tt_wavelet.Common.{
  ℕ, zero, suc, ◌+◌, ◌-◌, ◌*◌, ◌/◌, ◌%◌, ◌<◌, ◌≤◌, ◌≡◌, ◌≢◌, arith, ◌⊎◌, Bool, true, false, not,
  ◌&&◌, ◌||◌, ltb, leb, ◌==◌, if◌then◌else◌,
}
use tt_wavelet.Common.Int.{ℤ, ◌-ℤ◌, pos}
use tt_wavelet.Common.Words.{u32, sub32, to_i32}
use tt_wavelet.Boundary.{BoundaryMode}
use tt_wavelet.Extension.{
  ExtendedIndex, AntireflectIndexI32, make_extended_index, make_antireflect_index_i32,
}
use tt_wavelet.Extension.Evaluate.{Floats, is_zero_value, is_sample, is_negated_sample}

-- What the kernels call of tt-metal. `cb_reserve_back` and the like change the state of a circular
-- buffer; `noc_async_read` puts bytes of the source into memory, which the code sees after the
-- barrier. A buffer `IsIdle` for n pages when it has n pages and none of them is in use.
pub record Platform (fl : Floats) : Type 1 where
  pub Buffer : Type 0
  pub cb_reserve_back : Buffer → ℕ → Buffer
  pub cb_push_back : Buffer → ℕ → Buffer
  pub cb_wait_front : Buffer → ℕ → Buffer
  pub cb_pop_front : Buffer → ℕ → Buffer
  pub get_write_ptr : Buffer → ℕ
  pub get_read_ptr : Buffer → ℕ
  pub IsIdle : ℕ → Buffer → Type 0
  pub Address : Type 0
  pub get_noc_addr : ℕ → ℕ → Address
  pub word_at : Address → ℕ → fl.Float
  pub noc_async_read : Address → ℕ → ℕ → (ℕ → fl.Float) → ℕ → fl.Float
  -- A whole cycle of pages is read where it was written, and leaves the buffer idle.
  pub cycle-ptr :
      (n : ℕ) (b : Buffer)
      → IsIdle n b
      → get_read_ptr (cb_wait_front (cb_push_back (cb_reserve_back b n) n) n)
        ≡ get_write_ptr (cb_reserve_back b n)
  pub cycle-IsIdle :
      (n : ℕ) (b : Buffer)
      → IsIdle n b
      → IsIdle n (cb_pop_front (cb_wait_front (cb_push_back (cb_reserve_back b n) n) n) n)
  -- A transfer of n bytes fills n bytes of memory, in order, and no other.
  pub noc-inside :
      (a : Address) (dst n : ℕ) (m : ℕ → fl.Float) (k : ℕ)
      → 4 * k < n
      → noc_async_read a dst n m (dst + 4 * k) ≡ word_at a (4 * k)
  pub noc-outside :
      (a : Address) (dst n : ℕ) (m : ℕ → fl.Float) (p : ℕ)
      → (p + 4 ≤ dst) ⊎ (dst + n ≤ p)
      → noc_async_read a dst n m p ≡ m p

abbrev pub invalid_stick : ℕ
invalid_stick = 4294967295

pub record StickReadCache : Type 0 where
  pub cb_id : ℕ
  pub stick_nbytes : ℕ
  pub stick_width : ℕ
  pub stick_capacity : ℕ
  pub cached_stick_id : ℕ
  pub cached_stick_count : ℕ
  pub reserved_stick_count : ℕ
  pub source_page : ℕ
  pub valid : Bool
  pub page_size : ℕ

abbrev pub min_u32 : ℕ → ℕ → ℕ
min_u32 lhs rhs = if ltb lhs rhs then lhs else rhs

pub cache_contains_stick : StickReadCache → ℕ → Bool
cache_contains_stick c source_stick =
    c.valid
    && leb c.cached_stick_id source_stick
    && ltb source_stick (u32 (c.cached_stick_id + c.cached_stick_count))

abbrev pub page_per_stick : StickReadCache → Bool
page_per_stick c = c.page_size == c.stick_nbytes

-- What makes a cached stick a partial tail.
abbrev pub is_partial_tail : StickReadCache → ℕ → ℕ → ℕ → Bool
is_partial_tail c stick_index source_stick_count source_length =
    not (page_per_stick c)
    && (u32 (stick_index + 1) == source_stick_count)
    && not (source_length % c.stick_width == 0)

abbrev pub read_size : StickReadCache → Bool → ℕ → ℕ → ℕ
read_size c partial stick_index source_length =
    if partial
    then u32 (sub32 source_length (u32 (stick_index * c.stick_width)) * 4)
    else c.stick_nbytes

module _ (fl : Floats) where
  open fl use {Float, zero_f}

  abbrev pub Memory : Type 0
  Memory = ℕ → Float

  abbrev pub store : Memory → ℕ → Float → Memory
  store m p v q = if p == q then v else m q

  -- `for (word = …; word < …; ++word) destination[word] = 0U`, for the number of words left.
  pub zero_words : ℕ → ℕ → ℕ → Memory → Memory
  zero_words zero word destination m = m
  zero_words (suc left) word destination m =
      zero_words left (word + 1) destination (store m (destination + 4 * word) zero_f)

  pub store_same : (m : Memory) (p : ℕ) (v : Float) → store m p v p ≡ v
  store_same m p v = ground arith

  pub store_other : (m : Memory) (p q : ℕ) (v : Float) → p ≢ q → store m p v q ≡ m q
  store_other m p q v h = ground arith

module _ (fl : Floats) (platform : Platform fl) where
  open fl use {Float, zero_f, two_f, negate, add_f, sub_f, mul_f, from_unsigned, from_signed}
  open platform use {
    Buffer, cb_reserve_back, cb_push_back, cb_wait_front, cb_pop_front, get_write_ptr, get_read_ptr,
    Address, get_noc_addr, noc_async_read,
  }

  -- What a reader kernel changes: the cache, its circular buffer and the memory.
  pub record Reader : Type 0 where
    pub cache : StickReadCache
    pub buffer : Buffer
    pub memory : Memory fl

  -- `src.get_noc_addr(…)` of a stick.
  abbrev pub stick_address : StickReadCache → ℕ → Address
  stick_address c stick_index =
      if page_per_stick c
      then get_noc_addr (u32 (c.source_page + stick_index)) 0
      else get_noc_addr c.source_page (u32 (stick_index * c.stick_nbytes))

  -- The body of the refill loop.
  pub fill_stick : StickReadCache → ℕ → ℕ → ℕ → ℕ → ℕ → ℕ → Memory fl → Memory fl
  fill_stick c source_stick source_stick_count source_length cached_sticks cache_l1_addr i m =
      let stick_index : ℕ = u32 (source_stick + i) in
      let is_cached_stick : Bool = ltb i cached_sticks in
      let partial : Bool =
        is_cached_stick && is_partial_tail c stick_index source_stick_count source_length in
      let read_nbytes : ℕ = read_size c partial stick_index source_length in
      let destination : ℕ = u32 (cache_l1_addr + u32 (i * c.stick_nbytes)) in
      let cleared : Memory fl =
        if not is_cached_stick || partial
        then zero_words fl (c.stick_nbytes / 4) 0 destination m
        else m in
      if is_cached_stick
      then noc_async_read (stick_address c stick_index) destination read_nbytes cleared
      else cleared

  -- The refill loop from stick `i`, for the number of sticks left.
  pub fill_sticks : StickReadCache → ℕ → ℕ → ℕ → ℕ → ℕ → ℕ → ℕ → Memory fl → Memory fl
  fill_sticks c stick count length cached addr zero i m = m
  fill_sticks c stick count length cached addr (suc left) i m =
      fill_sticks c stick count length cached addr left (i + 1)
        (fill_stick c stick count length cached addr i m)

  pub cache_source_sticks : Reader → ℕ → ℕ → ℕ → Reader
  cache_source_sticks r source_stick source_stick_count source_length =
      let c = r.cache in
      let free : Buffer =
        if c.valid then cb_pop_front r.buffer c.reserved_stick_count else r.buffer in
      let available_sticks : ℕ = sub32 source_stick_count source_stick in
      let cached_sticks : ℕ = min_u32 c.stick_capacity available_sticks in
      let reserve_sticks : ℕ = c.stick_capacity in
      let reserved : Buffer = cb_reserve_back free reserve_sticks in
      let filled : Memory fl =
        fill_sticks c source_stick source_stick_count source_length cached_sticks
          (get_write_ptr reserved) reserve_sticks 0 r.memory in
      record {
        cache = record c {
          cached_stick_id = source_stick;
          cached_stick_count = cached_sticks;
          reserved_stick_count = reserve_sticks;
          valid = true;
        };
        buffer = cb_wait_front (cb_push_back reserved reserve_sticks) reserve_sticks;
        memory = filled;
      }

  pub read_source_value : Reader → ℕ → ℕ → Float × Reader
  read_source_value r source_index source_length =
      let width : ℕ = r.cache.stick_width in
      let source_stick : ℕ = source_index / width in
      let source_lane : ℕ = source_index % width in
      let source_stick_count : ℕ = sub32 (u32 (source_length + width)) 1 / width in
      let after : Reader =
        if cache_contains_stick r.cache source_stick
        then r
        else cache_source_sticks r source_stick source_stick_count source_length in
      let cached_offset : ℕ = sub32 source_stick after.cache.cached_stick_id in
      (
        after.memory (
            get_read_ptr after.buffer
            + 4 * u32 (u32 (cached_offset * after.cache.stick_width) + source_lane)),
        after,
      )

  -- A reader whose pages are given back.
  abbrev pub emptied : Reader → Reader
  emptied r = record {
    cache = record r.cache {
      cached_stick_id = invalid_stick;
      cached_stick_count = 0;
      reserved_stick_count = 0;
      valid = false;
    };
    buffer = cb_pop_front r.buffer r.cache.reserved_stick_count;
    memory = r.memory;
  }

  pub release_cache : Reader → Reader
  release_cache r = if not r.cache.valid then r else emptied r
