-- ===== src/Kernel/Streams/Coefficients.antt =====
-- The stream that initialize_inverse_stream leaves: the coefficients asked for.
use native.Mathlib.Decide.{dec_lt}
use tt_wavelet.Common.{
  ℕ, zero, suc, ◌+◌, ◌-◌, ◌*◌, ◌^◌, ◌<◌, ◌≤◌, ◌≡◌, refl, ◌∙◌, ap, sym, subst, arith, Bool, true,
  false, if◌then◌else◌,
}
use tt_wavelet.Common.Words.{u32}
use tt_wavelet.Extension.Evaluate.{Floats}
use tt_wavelet.Kernel.Workspace.{
  WorkspaceIndexCursor, cursor_at, advance, workspace_physical_index, advance-cursor_at,
  workspace_physical_index-injective,
}
use tt_wavelet.Kernel.StickCache.{
  Platform, Reader, Memory, store, store_same, store_other, read_source_value,
}
use tt_wavelet.Kernel.StickCache.Reads.{
  Caches, Keeps, Safe, Idle, read_source_value-sample, stored_at-Caches, release_cache-memory,
  release_cache-Idle,
}
use tt_wavelet.Kernel.Streams.{fresh, put, inverse_loop, initialize_inverse_stream}

-- A cursor that has come to an index, where the layout is tile-native.
abbrev StandsAt : Bool → WorkspaceIndexCursor → ℕ → Type 0
StandsAt true c index = c ≡ cursor_at index
StandsAt false c index = Unit {0}

word-StandsAt :
    (tile_native : Bool) (c : WorkspaceIndexCursor) (index : ℕ)
    → StandsAt tile_native c index
    → (if tile_native then c.physical else index) ≡ workspace_physical_index tile_native index
unfolding workspace_physical_index
word-StandsAt true c index h = ap (λ d. d.physical) h
word-StandsAt false c index h = refl

advance-StandsAt :
    (tile_native : Bool) (c : WorkspaceIndexCursor) (index : ℕ)
    → index + 1 < 2 ^ 32
    → StandsAt tile_native c index
    → StandsAt tile_native (if tile_native then advance c else c) (index + 1)
advance-StandsAt true c index hd h = ap advance h ∙ (advance-cursor_at index).0 hd
advance-StandsAt false c index hd h = tt

start-StandsAt : (tile_native : Bool) → StandsAt tile_native (cursor_at 0) 0
start-StandsAt true = refl
start-StandsAt false = tt

module _ (fl : Floats) (platform : Platform fl) (sample : ℕ → fl.Float) (n : ℕ) (tile_native : Bool)
    (begin address length : ℕ) (inside : begin + length ≤ n) (short : length < 2 ^ 32 - 1536)
    (hb : n < 2 ^ 32) where
  abbrev word : ℕ → ℕ
  word k = address + 4 * workspace_physical_index tile_native k

  abbrev Clear : Reader fl platform → Type 0
  Clear r = (k : ℕ) → k < length → Safe fl platform sample n r (word k)

  abbrev Holds : ℕ → Memory fl → Type 0
  Holds done m = (k : ℕ) → k < done → m (word k) ≡ sample (begin + k)

  -- The coefficients below an index are written.
  record Filled (index : ℕ) (r : Reader fl platform) : Type 0 where
    cached : Caches fl platform sample n r
    clear : Clear r
    holds : Holds index r.memory

  module _ (index : ℕ) (r : Reader fl platform) (f : Filled index r) (h : index < length) where
    abbrev value : fl.Float
    value = (read_source_value fl platform r (begin + index) n).0

    abbrev after : Reader fl platform
    after = (read_source_value fl platform r (begin + index) n).1

    run :
        (value ≡ sample (begin + index))
        × Caches fl platform sample n after
        × Keeps fl platform sample n r after
    run = read_source_value-sample fl platform sample n r (begin + index) (omega arith) f.cached

    written : Holds (index + 1) (store fl after.memory (word index) value)
    written k hk = elim (dec_lt k index) [
      | yes l ↦
          store_other fl after.memory (word index) (word k) value (λ e.
            let same : index ≡ k =
              workspace_physical_index-injective tile_native index k (omega arith) (omega arith)
                (omega (arith, e)) in
            absurd (omega arith))
          ∙ (run.2 _ (f.clear k (omega arith))).1
          ∙ f.holds k l
      | no m ↦
          let e : k ≡ index = omega arith in
          rw e (store_same fl after.memory (word index) value ∙ run.0)
    ]

    step-Filled : Filled (index + 1) (put fl platform after (word index) value)
    step-Filled = record {
      cached =
          stored_at-Caches fl platform sample n after (word index) value
            (run.2 _ (f.clear index h)).0 run.1;
      clear = λ k hk. (run.2 _ (f.clear k hk)).0;
      holds = written;
    }

  inverse_loop-Filled :
      (left index : ℕ) (r : Reader fl platform) (c : WorkspaceIndexCursor)
      → index + left ≡ length
      → StandsAt tile_native c index
      → Filled index r
      → Filled length (inverse_loop fl platform tile_native n begin address left index r c)
  unfolding inverse_loop
  inverse_loop-Filled zero index r c e at f =
      let same : index ≡ length = omega arith in subst (λ (j : ℕ). Filled j r) same f
  inverse_loop-Filled (suc left) index r c e at f =
      let source : u32 (begin + index) ≡ begin + index = omega arith in
      let place = word-StandsAt tile_native c index at in
      let step = step-Filled index r f (omega arith) in
      let rest =
        inverse_loop-Filled left (index + 1) _ _ (omega arith)
          (advance-StandsAt tile_native c index (omega arith) at) step in
      subst (λ (i : ℕ). Filled length (next i (if tile_native then c.physical else index)))
        (sym source) (subst (λ (w : ℕ). Filled length (next (begin + index) w)) (sym place) rest)
    where
      next : ℕ → ℕ → Reader fl platform
      next i w =
          let (value, after) = read_source_value fl platform r i n in
          inverse_loop fl platform tile_native n begin address left (index + 1)
            (put fl platform after (address + 4 * w) value) (if tile_native then advance c else c)

  -- The stream of an inverse chunk holds the coefficients asked for, each in the word that the
  -- layout gives it, and the cache is given back: the interval lies in the coefficients, the
  -- layout of the source and the sizes of the cache are in range, and the cache does not touch the
  -- words of the stream.
  pub initialize_inverse_stream-Holds :
      (cb_input_cache input_page input_page_size : ℕ) (buffer : platform.Buffer)
      (memory : Memory fl)
      → let start = fresh fl platform cb_input_cache input_page input_page_size buffer memory in
        let after =
          initialize_inverse_stream fl platform tile_native n begin address length cb_input_cache
            input_page input_page_size buffer memory in
        Caches fl platform sample n start
        → Clear start
        → Holds length after.memory × Idle fl platform sample n after
  unfolding initialize_inverse_stream
  initialize_inverse_stream-Holds cb page size buffer memory k clear =
      let start = fresh fl platform cb page size buffer memory in
      let fill =
        inverse_loop-Filled length 0 start (cursor_at 0) (omega arith) (start-StandsAt tile_native)
          (record { cached = k; clear = clear; holds = λ j hj. absurd (omega arith) }) in
      (
        λ j hj.
            ap (λ m. m (word j)) (release_cache-memory fl platform sample n _) ∙ fill.holds j hj,
        release_cache-Idle fl platform sample n _ fill.cached,
      )
