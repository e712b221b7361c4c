-- ===== src/Kernel/StickCache/Padded/Extends.antt =====
-- What a read of the padded signal through the cache gives: the extension of the signal.
use tt_wavelet.Common.{
  ℕ, ◌-◌, ◌^◌, ◌<◌, ◌≤◌, ◌≡◌, refl, ◌∙◌, ap, sym, arith, Bool, true, false, ◌&&◌, ltb, leb,
  Bool-cases, inl, inr, All, if◌then◌else◌,
}
use tt_wavelet.Common.Int.{ℤ, pos, ◌-ℤ◌}
use tt_wavelet.Common.Words.{sub32, to_i32_small, IsI32, IsI64}
use tt_wavelet.Boundary.{BoundaryMode}
use tt_wavelet.Extension.{
  ExtendedIndex, AntireflectIndexI32, make_extended_index, make_antireflect_index_i32,
}
use tt_wavelet.Extension.Evaluate.{
  Floats, is_zero_value, is_sample, is_negated_sample, smooth_value, antireflect_value,
  evaluate_extended_index, evaluate_extended_index_in, evaluate_antireflect_index_i32,
  visit_extended_source_indices_in, visit_antireflect_source_indices_i32,
}
use tt_wavelet.Extension.Evaluate.Bounds.{specialised_access, visit-make_extended_index-lt}
use tt_wavelet.Extension.Evaluate.Device.{antireflect_i32-eq}
use tt_wavelet.Extension.Uniform.{make-in_signal}
use tt_wavelet.Kernel.StickCache.{Platform, Reader}
use tt_wavelet.Kernel.StickCache.Reads.{Caches, Keeps, read_source_value-sample}
use tt_wavelet.Kernel.StickCache.Padded.{
  Arch, evaluate_from, evaluate_antireflect_from, smooth_from, antireflect_from,
  cached_source_reader, read_canonical, read_extended_value, read_padded_value,
}

-- A reader that gives the samples below `n` and keeps `P`.
module _ (fl : Floats) (State : Type 0) (read : State → ℕ → fl.Float × State)
    (sample : ℕ → fl.Float) (n : ℕ) (P : State → Type 0)
    (gives : (s : State) (i : ℕ) → i < n → P s → ((read s i).0 ≡ sample i) × P (read s i).1) where
  -- A run that has the given value and keeps `P`.
  abbrev Yields : fl.Float × State → fl.Float → Type 0
  Yields (value, after) expected = (value ≡ expected) × P after

  by_test :
      (b : Bool) {x y : fl.Float × State} {u v : fl.Float}
      → (b ≡ true → Yields x u)
      → (b ≡ false → Yields y v)
      → Yields (if b then x else y) (if b then u else v)
  by_test true t e = t refl
  by_test false t e = e refl

  smooth_from-eq :
      (source auxiliary distance : ℕ) (s : State)
      → source < n
      → auxiliary < n
      → P s
      → Yields
          (smooth_from fl State read source auxiliary distance s)
          (smooth_value fl sample source auxiliary distance)
  smooth_from-eq source auxiliary distance s hs ha p =
      let edge = gives s source hs p in
      let neighbor = gives _ auxiliary ha edge.1 in (rw (edge.0, neighbor.0) refl, neighbor.1)

  antireflect_from-eq :
      (source : ℕ) (quotient : ℤ) (reflected : Bool) (s : State)
      → source < n
      → 0 < n
      → sub32 n 1 < n
      → P s
      → Yields
          (antireflect_from fl State read n source quotient reflected s)
          (antireflect_value fl sample n source quotient reflected)
  antireflect_from-eq source quotient reflected s hs h0 hl p =
      let value = gives s source hs p in
      let first = gives _ 0 h0 value.1 in
      let last = gives _ (sub32 n 1) hl first.1 in (rw (value.0, first.0, last.0) refl, last.1)

  evaluate_from-eq :
      (mode : BoundaryMode) (e : ExtendedIndex) (s : State)
      → All (λ i. i < n) (visit_extended_source_indices_in mode e n)
      → P s
      → Yields
          (evaluate_from fl State read mode e n s)
          (evaluate_extended_index_in fl mode e n sample)
  unfolding evaluate_from evaluate_extended_index_in visit_extended_source_indices_in
  evaluate_from-eq BoundaryMode.zero_pad e s v p =
      by_test (is_zero_value e.operation) (λ t. (refl, p))
        (λ t. gives s e.source_index (rw t at v).0 p)
  evaluate_from-eq BoundaryMode.smooth e s v p =
      by_test (is_sample e.operation) (λ t. gives s e.source_index v.0 p)
        (λ t. smooth_from-eq e.source_index e.auxiliary_index e.distance s v.0 (rw t at v.1).0 p)
  evaluate_from-eq BoundaryMode.antireflect e s v p =
      by_test (is_sample e.operation) (λ t. gives s e.source_index v.0 p)
        (λ t.
          antireflect_from-eq e.source_index e.period_quotient e.reflected s v.0 (rw t at v.1).0
            (rw t at v.1).1.0 p)
  evaluate_from-eq BoundaryMode.antisymmetric e s v p =
      let source = gives s e.source_index v.0 p in
      (ap (λ x. if is_negated_sample e.operation then fl.negate x else x) source.0, source.1)
  evaluate_from-eq BoundaryMode.constant e s v p = gives s e.source_index v.0 p
  evaluate_from-eq BoundaryMode.symmetric e s v p = gives s e.source_index v.0 p
  evaluate_from-eq BoundaryMode.periodic e s v p = gives s e.source_index v.0 p
  evaluate_from-eq BoundaryMode.reflect e s v p = gives s e.source_index v.0 p

  evaluate_antireflect_from-eq :
      (e : AntireflectIndexI32) (s : State)
      → All (λ i. i < n) (visit_antireflect_source_indices_i32 e n)
      → P s
      → Yields
          (evaluate_antireflect_from fl State read e n s)
          (evaluate_antireflect_index_i32 fl e n sample)
  unfolding evaluate_antireflect_from evaluate_antireflect_index_i32
      visit_antireflect_source_indices_i32
  evaluate_antireflect_from-eq e s v p =
      by_test e.affine
        (λ t.
          antireflect_from-eq e.source_index e.period_quotient e.reflected s v.0 (rw t at v.1).0
            (rw t at v.1).1.0 p)
        (λ t. gives s e.source_index v.0 p)

-- The sample of the padded signal at a position: the canonical access of the mode, evaluated.
abbrev pub padded_sample : (fl : Floats) → BoundaryMode → (ℕ → fl.Float) → ℕ → ℕ → ℕ → fl.Float
padded_sample fl mode sample n left_pad out_idx =
    evaluate_extended_index fl (make_extended_index mode (pos out_idx -ℤ pos left_pad) n) n sample

-- The positions that a kernel reads: of 32 bits, or where the Wormhole kernels use int32_t, of 31.
abbrev pub Supported : Arch → ℕ → ℕ → ℕ → Type 0
Supported Arch.wormhole n left_pad out_idx = (n < 2 ^ 31) × (left_pad < 2 ^ 31) × (out_idx < 2 ^ 31)
Supported Arch.blackhole n left_pad out_idx = (left_pad < 2 ^ 32) × (out_idx < 2 ^ 32)

pub Supported-word :
    (arch : Arch) (n left_pad out_idx : ℕ)
    → Supported arch n left_pad out_idx
    → (left_pad < 2 ^ 32) × (out_idx < 2 ^ 32)
Supported-word Arch.wormhole n left_pad out_idx s = (omega arith, omega arith)
Supported-word Arch.blackhole n left_pad out_idx s = s

pub Supported-le :
    (arch : Arch) (n left_pad a b : ℕ)
    → a ≤ b
    → Supported arch n left_pad b
    → Supported arch n left_pad a
Supported-le Arch.wormhole n left_pad a b h s = (s.0, s.1, omega arith)
Supported-le Arch.blackhole n left_pad a b h s = (s.0, omega arith)

logical-IsI64 : (a b : ℕ) → a < 2 ^ 32 → b < 2 ^ 32 → IsI64 (pos a -ℤ pos b)
unfolding ◌-ℤ◌
logical-IsI64 a b ha hb = ground arith

logical-IsI32 : (a b : ℕ) → a < 2 ^ 31 → b < 2 ^ 31 → IsI32 (pos a -ℤ pos b)
unfolding ◌-ℤ◌
logical-IsI32 a b ha hb = ground arith

logical_inside : (a b : ℕ) → b ≤ a → pos a -ℤ pos b ≡ pos (a - b)
unfolding ◌-ℤ◌
logical_inside a b h = ground arith

module _ (fl : Floats) (platform : Platform fl) (sample : ℕ → fl.Float) (n : ℕ) (hn : 0 < n) where
  -- Consistent with the signal, and what was safe at the start is as it was.
  abbrev pub Consistent : Reader fl platform → Reader fl platform → Type 0
  Consistent start r = Caches fl platform sample n r × Keeps fl platform sample n start r

  module _ (start : Reader fl platform) where
    cached_read :
        (r : Reader fl platform) (i : ℕ)
        → i < n
        → Consistent start r
        → let (value, after) = cached_source_reader fl platform n r i in
          (value ≡ sample i) × Consistent start after
    cached_read r i hi c =
        let step = read_source_value-sample fl platform sample n r i hi c.0 in
        (step.0, (step.1, λ p safe. let s = c.1 p safe in let t = step.2 p s.0 in (t.0, t.1 ∙ s.1)))

    -- A run that gives the padded sample, and stays consistent.
    abbrev Extends : BoundaryMode → ℕ → ℕ → fl.Float × Reader fl platform → Type 0
    Extends mode left_pad out_idx (value, after) =
        (value ≡ padded_sample fl mode sample n left_pad out_idx) × Consistent start after

    module _ (mode : BoundaryMode) (r : Reader fl platform) (left_pad out_idx : ℕ)
        (c : Consistent start r) where
      read_canonical-Extends :
          n < 2 ^ 32
          → left_pad < 2 ^ 32
          → out_idx < 2 ^ 32
          → Extends mode left_pad out_idx (read_canonical fl platform mode r n left_pad out_idx)
      read_canonical-Extends hb hl ho =
          let index : ℤ = pos out_idx -ℤ pos left_pad in
          let e = make_extended_index mode index n in
          let word : IsI64 index = logical-IsI64 out_idx left_pad ho hl in
          let same = specialised_access fl sample mode index n word hn hb in
          let inside = rw (sym same.0) at (visit-make_extended_index-lt mode index n word hb) in
          let run =
            evaluate_from-eq fl (Reader fl platform) (cached_source_reader fl platform n) sample n
              (Consistent start) cached_read mode e r inside c in
          (run.0 ∙ same.1, run.1)

      read_antireflect-Extends :
          n < 2 ^ 31
          → left_pad < 2 ^ 31
          → out_idx < 2 ^ 31
          → mode ≡ BoundaryMode.antireflect
          → Extends mode left_pad out_idx (
              read_extended_value fl platform Arch.wormhole BoundaryMode.antireflect r n left_pad
                out_idx)
      unfolding read_extended_value
      read_antireflect-Extends hb hl ho em =
          let index : ℤ = pos out_idx -ℤ pos left_pad in
          let same =
            antireflect_i32-eq fl sample index n (logical-IsI32 out_idx left_pad ho hl) hn hb in
          let word : IsI64 index = logical-IsI64 out_idx left_pad (omega arith) (omega arith) in
          let inside =
            rw (sym same.1) at
              (visit-make_extended_index-lt BoundaryMode.antireflect index n word (omega arith)) in
          let run =
            evaluate_antireflect_from-eq fl (Reader fl platform)
              (cached_source_reader fl platform n) sample n (Consistent start) cached_read
              (make_antireflect_index_i32 index n) r inside c in
          rw (to_i32_small out_idx ho, to_i32_small left_pad hl, em) (run.0 ∙ same.0, run.1)

    read_extended_value-Extends :
        (arch : Arch) (mode : BoundaryMode) (r : Reader fl platform) (left_pad out_idx : ℕ)
        → n < 2 ^ 32
        → Supported arch n left_pad out_idx
        → Consistent start r
        → Extends mode left_pad out_idx
            (read_extended_value fl platform arch mode r n left_pad out_idx)
    unfolding read_extended_value
    read_extended_value-Extends Arch.blackhole mode r left_pad out_idx hb sup c =
        read_canonical-Extends mode r left_pad out_idx c hb sup.0 sup.1
    read_extended_value-Extends Arch.wormhole BoundaryMode.antireflect r left_pad out_idx hb sup c =
        read_antireflect-Extends BoundaryMode.antireflect r left_pad out_idx c sup.0 sup.1 sup.2
          refl
    read_extended_value-Extends Arch.wormhole mode r left_pad out_idx hb sup c =
        read_canonical-Extends mode r left_pad out_idx c hb (omega arith) (omega arith)

    padded_sample-inside :
        (mode : BoundaryMode) (left_pad out_idx : ℕ)
        → n < 2 ^ 32
        → left_pad ≤ out_idx
        → out_idx - left_pad < n
        → padded_sample fl mode sample n left_pad out_idx ≡ sample (out_idx - left_pad)
    unfolding evaluate_extended_index
    padded_sample-inside mode left_pad out_idx hb hl hi =
        rw (logical_inside out_idx left_pad hl, make-in_signal mode (out_idx - left_pad) n hi hb)
          refl

  -- A read of a padded position through the cache gives the sample that the canonical extension of
  -- the signal has there, for every mode and on both architectures, whatever the cache held; it
  -- leaves the cache consistent and changes no safe word. The signal is not empty, and the lengths
  -- and the position have 31 bits on Wormhole and 32 bits on Blackhole.
  pub read_padded_value-Extends :
      (arch : Arch) (mode : BoundaryMode) (r : Reader fl platform) (left_pad out_idx : ℕ)
      → n < 2 ^ 32
      → Supported arch n left_pad out_idx
      → Caches fl platform sample n r
      → let (value, after) = read_padded_value fl platform arch mode r n left_pad out_idx in
        (value ≡ padded_sample fl mode sample n left_pad out_idx)
        × Caches fl platform sample n after
        × Keeps fl platform sample n r after
  unfolding read_padded_value
  read_padded_value-Extends arch mode r left_pad out_idx hb sup k =
      elim (Bool-cases (leb left_pad out_idx && ltb (out_idx - left_pad) n)) [
        | inl e ↦
            let low : left_pad ≤ out_idx = ground arith in
            let high : out_idx - left_pad < n = ground arith in
            let step = cached_read r r (out_idx - left_pad) high (k, λ p safe. (safe, refl)) in
            rw e (
              step.0 ∙ sym (padded_sample-inside r mode left_pad out_idx hb low high),
              step.1.0,
              step.1.1,
            )
        | inr e ↦
            let run =
              read_extended_value-Extends r arch mode r left_pad out_idx hb sup
                (k, λ p safe. (safe, refl)) in
            rw e (run.0, run.1.0, run.1.1)
      ]
