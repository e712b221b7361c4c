-- ===== src/Kernel/Streams/Split.antt =====
-- The streams that initialize_lwt_streams leaves: the padded signal, split by parity.
use native.Mathlib.Decide.{dec_lt}
use tt_wavelet.Common.{
  ℕ, zero, suc, ◌+◌, ◌-◌, ◌*◌, ◌^◌, ◌<◌, ◌≤◌, ◌≡◌, ◌≢◌, refl, ◌∙◌, ap, sym, arith, Bool, true,
  false, ◌&&◌, ltb, leb, ◌⊎◌, Bool-cases, inl, inr, min, if◌then◌else◌, subst,
}
use tt_wavelet.Common.Words.{u32}
use tt_wavelet.Boundary.{BoundaryMode}
use tt_wavelet.Extension.Evaluate.{Floats}
use tt_wavelet.Kernel.Workspace.{
  cursor_at, advance, workspace_physical_index, advance-cursor_at,
  workspace_physical_index-injective,
}
use tt_wavelet.Kernel.StickCache.{Platform, Reader, Memory, store, store_same, store_other}
use tt_wavelet.Kernel.StickCache.Reads.{
  Caches, Keeps, release_cache-memory, Safe, Idle, stored_at-Caches, release_cache-Idle,
}
use tt_wavelet.Kernel.StickCache.Padded.{Arch, read_padded_value}
use tt_wavelet.Kernel.StickCache.Padded.Extends.{
  padded_sample, Supported, Supported-word, Supported-le, read_padded_value-Extends,
}
use tt_wavelet.Kernel.Streams.{
  Progress, Stream, next_word, written_one, not_written, put, split_block, split_loop, fresh,
  initialize_lwt_streams,
}

-- A stream that 32-bit arithmetic reaches.
abbrev pub Reachable : Bool → Stream → Type 0
Reachable tile_native s = (s.begin + s.length < 2 ^ 32) × (s.length < 2 ^ 32 - 1536)

-- The word of memory that holds a sample of a stream.
abbrev pub word_of : Bool → Stream → ℕ → ℕ
word_of tile_native s k = s.address + 4 * workspace_physical_index tile_native k

-- The samples of a stream that are written before a split index.
abbrev done_at : Stream → ℕ → ℕ
done_at s i = min (i - s.begin) s.length

-- The progress of a stream of which so many samples are written.
abbrev IsAt : Bool → Progress → ℕ → Type 0
IsAt true o done = o.cursor ≡ cursor_at done
IsAt false o done = o.written ≡ done

next_word-IsAt :
    (tile_native : Bool) (o : Progress) (done : ℕ)
    → IsAt tile_native o done
    → next_word tile_native o ≡ workspace_physical_index tile_native done
unfolding workspace_physical_index
next_word-IsAt true o done h = ap (λ c. c.physical) h
next_word-IsAt false o done h = h

written_one-IsAt :
    (tile_native : Bool) (o : Progress) (done : ℕ)
    → done + 1 < 2 ^ 32
    → IsAt tile_native o done
    → IsAt tile_native (written_one tile_native o) (done + 1)
written_one-IsAt true o done hd h = ap advance h ∙ (advance-cursor_at done).0 hd
written_one-IsAt false o done hd h = omega arith

not_written-IsAt : (tile_native : Bool) → IsAt tile_native not_written 0
not_written-IsAt true = refl
not_written-IsAt false = refl

module _ (fl : Floats) (platform : Platform fl) (sample : ℕ → fl.Float) (n : ℕ) (hn : 0 < n)
    (hb : n < 2 ^ 32) (arch : Arch) (mode : BoundaryMode) (tile_native : Bool) (left_pad : ℕ) where
  -- `parity` is 0 for the even stream and 1 for the odd one.
  abbrev Holds : Stream → ℕ → ℕ → Memory fl → Type 0
  Holds s parity done m =
      (k : ℕ)
      → k < done
      → m (word_of tile_native s k)
        ≡ padded_sample fl mode sample n left_pad (2 * (s.begin + k) + parity)

  -- A stream whose words the cache does not touch.
  abbrev Clear : Reader fl platform → Stream → Type 0
  Clear r s = (k : ℕ) → k < s.length → Safe fl platform sample n r (word_of tile_native s k)

  -- A step keeps the words that are safe and are not in the stream.
  abbrev Spares : Stream → Reader fl platform → Reader fl platform → Type 0
  Spares s r after =
      (p : ℕ)
      → Safe fl platform sample n r p
      → Safe fl platform sample n after p
        × (((k : ℕ) → k < s.length → word_of tile_native s k ≢ p) → after.memory p ≡ r.memory p)

  module _ (s : Stream) (parity : ℕ) (reach : Reachable tile_native s) (i : ℕ)
      (r : Reader fl platform) (o : Progress) (k : Caches fl platform sample n r)
      (clear : Clear r s) (at : IsAt tile_native o (done_at s i))
      (holds : Holds s parity (done_at s i) r.memory) where
    abbrev step : Reader fl platform × Progress
    step = split_block fl platform arch mode tile_native n left_pad s (2 * i + parity) i (r, o)

    split_block-outside :
        (i < s.begin) ⊎ (s.begin + s.length ≤ i)
        → Caches fl platform sample n r
          × Spares s r r
          × IsAt tile_native o (done_at s (i + 1))
          × Holds s parity (done_at s (i + 1)) r.memory
    split_block-outside out =
        let same : done_at s (i + 1) ≡ done_at s i = ground arith in
        rw same (k, λ p safe. (safe, λ apart. refl), at, holds)

    module _ (low : s.begin ≤ i) (high : i < s.begin + s.length)
        (sup : Supported arch n left_pad (2 * i + parity)) where
      abbrev value : fl.Float
      value = (read_padded_value fl platform arch mode r n left_pad (2 * i + parity)).0

      abbrev after : Reader fl platform
      after = (read_padded_value fl platform arch mode r n left_pad (2 * i + parity)).1

      abbrev done : ℕ
      done = i - s.begin

      now : done_at s i ≡ done
      now = ground arith

      run :
          (value ≡ padded_sample fl mode sample n left_pad (2 * i + parity))
          × Caches fl platform sample n after
          × Keeps fl platform sample n r after
      run =
          read_padded_value-Extends fl platform sample n hn arch mode r left_pad (2 * i + parity) hb
            sup k

      -- The word that is written.
      abbrev here : ℕ
      here = s.address + 4 * next_word tile_native o

      here-eq : here ≡ word_of tile_native s done
      here-eq =
          ap (λ (x : ℕ). s.address + 4 * x)
            (next_word-IsAt tile_native o done (subst (IsAt tile_native o) now at))

      kept :
          (p : ℕ)
          → Safe fl platform sample n r p
          → here ≢ p
          → store fl after.memory here value p ≡ r.memory p
      kept p safe apart = store_other fl after.memory here p value apart ∙ (run.2 p safe).1

      split_block-inside :
          Caches fl platform sample n (put fl platform after here value)
          × Spares s r (put fl platform after here value)
          × IsAt tile_native (written_one tile_native o) (done_at s (i + 1))
          × Holds s parity (done_at s (i + 1)) (store fl after.memory here value)
      split_block-inside =
          let next : done_at s (i + 1) ≡ done + 1 = ground arith in
          let safe_here : Safe fl platform sample n r here =
            rw here-eq (clear done (omega arith)) in
          rw next (
            stored_at-Caches fl platform sample n after here value (run.2 here safe_here).0 run.1,
            λ p safe. (
              (run.2 p safe).0,
              λ apart. kept p safe (λ e. apart done (omega arith) (sym here-eq ∙ e)),
            ),
            written_one-IsAt tile_native o done (omega arith) (subst (IsAt tile_native o) now at),
            written,
          )
        where
          written : Holds s parity (done + 1) (store fl after.memory here value)
          written j hj = elim (dec_lt j done) [
            | yes l ↦
                kept (word_of tile_native s j) (clear j (omega arith)) (λ e.
                  let same : done ≡ j =
                    workspace_physical_index-injective tile_native done j (omega arith)
                      (omega arith) (omega (arith, sym here-eq ∙ e)) in
                  absurd (omega arith))
                ∙ holds j (rw now l)
            | no m ↦
                let e : j ≡ done = omega arith in
                rw e (
                  rw (sym here-eq) (store_same fl after.memory here value)
                  ∙ run.0
                  ∙ ap (padded_sample fl mode sample n left_pad) (omega arith))
          ]

    split_block-Holds :
        Supported arch n left_pad (2 * i + parity)
        → Caches fl platform sample n step.0
          × Spares s r step.0
          × IsAt tile_native step.1 (done_at s (i + 1))
          × Holds s parity (done_at s (i + 1)) step.0.memory
    unfolding split_block
    split_block-Holds sup = elim (Bool-cases (leb s.begin i && ltb i (u32 (s.begin + s.length)))) [
      | inl e ↦ rw e (split_block-inside (ground arith) (ground arith) sup)
      | inr e ↦ rw e (split_block-outside (ground arith))
    ]

  -- Both streams, filled up to a split index.
  record Filled (even odd : Stream) (i : ℕ) (r : Reader fl platform) (eo oo : Progress)
      : Type 0 where
    cached : Caches fl platform sample n r
    even_clear : Clear r even
    odd_clear : Clear r odd
    even_at : IsAt tile_native eo (done_at even i)
    odd_at : IsAt tile_native oo (done_at odd i)
    even_holds : Holds even 0 (done_at even i) r.memory
    odd_holds : Holds odd 1 (done_at odd i) r.memory

  module _ (even odd : Stream) (even_reach : Reachable tile_native even)
      (odd_reach : Reachable tile_native odd)
      (apart : (j k : ℕ)
        → j < even.length
        → k < odd.length
        → word_of tile_native even j ≢ word_of tile_native odd k) where
    abbrev loop :
        ℕ → ℕ → Reader fl platform × Progress × Progress → Reader fl platform × Progress × Progress
    loop = split_loop fl platform arch mode tile_native n left_pad even odd

    abbrev FilledAt : ℕ → Reader fl platform × Progress × Progress → Type 0
    FilledAt i (r, eo, oo) = Filled even odd i r eo oo

    split_step-Filled :
        (i : ℕ) (r : Reader fl platform) (eo oo : Progress)
        → Supported arch n left_pad (2 * i + 0)
        → Supported arch n left_pad (2 * i + 1)
        → Filled even odd i r eo oo
        → let first =
            split_block fl platform arch mode tile_native n left_pad even (2 * i + 0) i (r, eo) in
          let second =
            split_block fl platform arch mode tile_native n left_pad odd
              (2 * i + 1)
              i
              (first.0, oo) in
          Filled even odd (i + 1) second.0 first.1 second.1
    split_step-Filled i r eo oo se so f =
        let a =
          split_block-Holds even 0 even_reach i r eo f.cached f.even_clear f.even_at f.even_holds
            se in
        let clear1 = λ (k : ℕ) (hk : k < odd.length). (a.1 _ (f.odd_clear k hk)).0 in
        let holds1 = λ (k : ℕ) (hk : k < done_at odd i).
          (a.1 _ (f.odd_clear k (omega arith))).1 (λ j hj. apart j k hj (omega arith))
          ∙ f.odd_holds k hk in
        let b = split_block-Holds odd 1 odd_reach i _ oo a.0 clear1 f.odd_at holds1 so in
        record {
          cached = b.0;
          even_clear = λ k hk. (b.1 _ (a.1 _ (f.even_clear k hk)).0).0;
          odd_clear = λ k hk. (b.1 _ (clear1 k hk)).0;
          even_at = a.2;
          odd_at = b.2;
          even_holds = λ k hk.
              (b.1 _ (a.1 _ (f.even_clear k (omega arith))).0).1
                (λ j hj e. apart k j (omega arith) hj (sym e))
              ∙ a.3 k hk;
          odd_holds = b.3;
        }

    -- The rest of the loop after the two blocks at given padded indices.
    abbrev next :
        ℕ
        → ℕ
        → Reader fl platform
        → Progress
        → Progress
        → ℕ
        → ℕ
        → Reader fl platform × Progress × Progress
    next left i r eo oo a b =
        let first = split_block fl platform arch mode tile_native n left_pad even a i (r, eo) in
        let second =
          split_block fl platform arch mode tile_native n left_pad odd b i (first.0, oo) in
        loop left (i + 1) (second.0, first.1, second.1)

    split_loop-Filled :
        (left i end : ℕ) (r : Reader fl platform) (eo oo : Progress)
        → i + left ≡ end
        → Supported arch n left_pad (2 * end)
        → Filled even odd i r eo oo
        → FilledAt end (loop left i (r, eo, oo))
    unfolding split_loop
    split_loop-Filled zero i end r eo oo e sup f =
        let same : i ≡ end = omega arith in subst (λ (j : ℕ). Filled even odd j r eo oo) same f
    split_loop-Filled (suc left) i end r eo oo e sup f =
        let word = Supported-word arch n left_pad (2 * end) sup in
        let even_index : u32 (2 * i) ≡ 2 * i + 0 = omega (arith, word.1) in
        let odd_index : u32 (2 * i + 0 + 1) ≡ 2 * i + 1 = omega (arith, word.1) in
        let step =
          split_step-Filled i r eo oo
            (Supported-le arch n left_pad (2 * i + 0) (2 * end) (omega arith) sup)
            (Supported-le arch n left_pad (2 * i + 1) (2 * end) (omega arith) sup) f in
        let rest = split_loop-Filled left (i + 1) end _ _ _ (omega arith) sup step in
        subst (λ (a : ℕ). FilledAt end (next left i r eo oo a (u32 (a + 1)))) (sym even_index)
          (subst (λ (b : ℕ). FilledAt end (next left i r eo oo (2 * i + 0) b)) (sym odd_index) rest)

    -- The first and the last split index of the loop.
    abbrev first_index : ℕ
    first_index = if ltb even.begin odd.begin then even.begin else odd.begin

    abbrev last_index : ℕ
    last_index =
        if ltb (odd.begin + odd.length) (even.begin + even.length)
        then even.begin + even.length
        else odd.begin + odd.length

    last_index-Supported :
        Supported arch n left_pad (2 * (even.begin + even.length))
        → Supported arch n left_pad (2 * (odd.begin + odd.length))
        → Supported arch n left_pad (2 * last_index)
    last_index-Supported se so =
        elim (Bool-cases (ltb (odd.begin + odd.length) (even.begin + even.length))) [
          | inl e ↦ rw e se
          | inr e ↦ rw e so
        ]

    first-Filled :
        (r : Reader fl platform)
        → Caches fl platform sample n r
        → Clear r even
        → Clear r odd
        → Filled even odd first_index r not_written not_written
    first-Filled r k ce co =
        let ze : done_at even first_index ≡ 0 = ground arith in
        let zo : done_at odd first_index ≡ 0 = ground arith in
        record {
          cached = k;
          even_clear = ce;
          odd_clear = co;
          even_at = rw ze (not_written-IsAt tile_native);
          odd_at = rw zo (not_written-IsAt tile_native);
          even_holds = λ j hj. absurd (omega arith);
          odd_holds = λ j hj. absurd (omega arith);
        }

    -- The chunk's streams after the initialisation of the workspace hold the padded signal, split
    -- by parity: sample k of the even stream is the extension of the signal at position
    -- 2 (begin + k), and of the odd stream that at 2 (begin + k) + 1, each in the word that the
    -- layout gives it. The cache is given back. The signal is not empty, its layout, the sizes of
    -- the cache and the positions are within range, and the words of the two streams are apart
    -- from each other and from the cache.
    pub initialize_lwt_streams-Split :
        (cb_input_cache input_page input_page_size : ℕ) (buffer : platform.Buffer)
        (memory : Memory fl)
        → let start = fresh fl platform cb_input_cache input_page input_page_size buffer memory in
          let after =
            initialize_lwt_streams fl platform arch mode tile_native n left_pad even odd
              cb_input_cache input_page input_page_size buffer memory in
          Supported arch n left_pad (2 * (even.begin + even.length))
          → Supported arch n left_pad (2 * (odd.begin + odd.length))
          → Caches fl platform sample n start
          → Clear start even
          → Clear start odd
          → Holds even 0 even.length after.memory
            × Holds odd 1 odd.length after.memory
            × Idle fl platform sample n after
    unfolding initialize_lwt_streams
    initialize_lwt_streams-Split cb page size buffer memory se so k ce co =
        let start = fresh fl platform cb page size buffer memory in
        let even_end : u32 (even.begin + even.length) ≡ even.begin + even.length = omega arith in
        let odd_end : u32 (odd.begin + odd.length) ≡ odd.begin + odd.length = omega arith in
        let fill =
          split_loop-Filled (last_index - first_index) first_index last_index start not_written
            not_written (ground arith) (last_index-Supported se so) (first-Filled start k ce co) in
        let we : done_at even last_index ≡ even.length = ground arith in
        let wo : done_at odd last_index ≡ odd.length = ground arith in
        rw (even_end, odd_end)
          (
            λ j hj.
                ap (λ m. m (word_of tile_native even j))
                  (release_cache-memory fl platform sample n _)
                ∙ fill.even_holds j (rw we hj),
            λ j hj.
                ap (λ m. m (word_of tile_native odd j))
                  (release_cache-memory fl platform sample n _)
                ∙ fill.odd_holds j (rw wo hj),
            release_cache-Idle fl platform sample n _ fill.cached,
          )
