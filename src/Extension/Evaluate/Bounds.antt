-- ===== src/Extension/Evaluate/Bounds.antt =====
-- Which samples an extended access reads, and that the specialised forms agree.
use native.Mathlib.Decide.{dec_lt}
use tt_wavelet.Common.{ℕ, zero, suc, ◌+◌, ◌*◌, ◌^◌, ◌<◌, ◌≡◌, refl, arith, le→ltb, ap, All}
use tt_wavelet.Common.Words.{IsI64}
use tt_wavelet.Common.Int.{ℤ, pos, negsuc}
use tt_wavelet.Boundary.{BoundaryMode}
use tt_wavelet.Extension.{
  ExtensionOperation, ExtendedIndex, extend_constant, extend_smooth, extend_reflect,
  extend_antireflect, extend_outside, make_extended_index,
}
use tt_wavelet.Extension.Evaluate.{
  Floats, evaluate_operation, visit_operation, evaluate_extended_index, evaluate_extended_index_in,
  visit_extended_source_indices, visit_extended_source_indices_in,
}
use tt_wavelet.Extension.Period.{floor_remainder-lt}
use tt_wavelet.Extension.Phases.{
  extend_periodic-floor, extend_symmetric-floor, extend_antisymmetric-floor, extend_reflect-floor,
  extend_antireflect-floor,
}
use tt_wavelet.Extension.Uniform.{make-in_signal, make-outside}

-- The operations that the branch of a mode produces.
abbrev pub Fits : BoundaryMode → ExtensionOperation → Type 0
Fits BoundaryMode.zero_pad ExtensionOperation.zero_value = Unit
Fits BoundaryMode.antisymmetric ExtensionOperation.negated_sample = Unit
Fits BoundaryMode.smooth ExtensionOperation.smooth_line = Unit
Fits BoundaryMode.antireflect ExtensionOperation.antireflection = Unit
Fits mode ExtensionOperation.sample = Unit
Fits mode op = ⊥

-- What the branches guarantee: an operation of the mode, and positions in the signal.
abbrev pub Readable : BoundaryMode → ℕ → ExtendedIndex → Type 0
Readable mode n e =
    Fits mode e.operation
    × (e.source_index < n)
    × (e.operation ≡ ExtensionOperation.smooth_line → e.auxiliary_index < n)

-- A single sample has a case of its own in the modes that reflect about a sample.
reflect-Readable :
    (index : ℤ) (n : ℕ)
    → IsI64 index
    → 0 < n
    → n < 2 ^ 32
    → Readable BoundaryMode.reflect n (extend_reflect index n)
reflect-Readable index zero hi hn hb = absurd (omega arith)
reflect-Readable index (suc zero) hi hn hb = unfold extend_reflect in (tt, omega arith, λ e. cc)
reflect-Readable index (suc (suc k)) hi hn hb =
    let e : suc (suc k) ≡ suc k + 1 = omega arith in
    rw e (
      rw (extend_reflect-floor index (suc k) hi (omega arith) (omega arith))
        (tt, ground (arith, floor_remainder-lt index (2 * suc k)), λ e. cc))

antireflect-Readable :
    (index : ℤ) (n : ℕ)
    → IsI64 index
    → 0 < n
    → n < 2 ^ 32
    → Readable BoundaryMode.antireflect n (extend_antireflect index n)
antireflect-Readable index zero hi hn hb = absurd (omega arith)
antireflect-Readable index (suc zero) hi hn hb =
    unfold extend_antireflect in (tt, omega arith, λ e. cc)
antireflect-Readable index (suc (suc k)) hi hn hb =
    let e : suc (suc k) ≡ suc k + 1 = omega arith in
    rw e (
      rw (extend_antireflect-floor index (suc k) hi (omega arith) (omega arith))
        (tt, ground (arith, floor_remainder-lt index (2 * suc k)), λ e. cc))

module _ (index : ℤ) (n : ℕ) (hi : IsI64 index) (hn : 0 < n) (hb : n < 2 ^ 32) where
  outside-Readable : (mode : BoundaryMode) → Readable mode n (extend_outside mode index n)
  unfolding extend_outside
  outside-Readable BoundaryMode.zero_pad = (tt, hn, λ e. cc)
  outside-Readable BoundaryMode.constant = unfold extend_constant in (tt, ground arith, λ e. cc)
  outside-Readable BoundaryMode.symmetric =
      rw (extend_symmetric-floor index n hi hn hb)
        (tt, ground (arith, floor_remainder-lt index (2 * n)), λ e. cc)
  outside-Readable BoundaryMode.periodic =
      rw (extend_periodic-floor index n hi hn hb) (tt, floor_remainder-lt index n hn, λ e. cc)
  outside-Readable BoundaryMode.antisymmetric = rw (extend_antisymmetric-floor index n hi hn hb) (
    ground (arith, floor_remainder-lt index (4 * n)),
    ground (arith, floor_remainder-lt index (4 * n)),
    ground (arith, floor_remainder-lt index (4 * n)),
  )
  outside-Readable BoundaryMode.smooth =
      unfold extend_smooth in (ground arith, ground arith, ground arith)
  outside-Readable BoundaryMode.antireflect = antireflect-Readable index n hi hn hb
  outside-Readable BoundaryMode.reflect = reflect-Readable index n hi hn hb

sample-Fits : (mode : BoundaryMode) → Fits mode ExtensionOperation.sample
sample-Fits BoundaryMode.zero_pad = tt
sample-Fits _ = tt

visits-lt :
    (mode : BoundaryMode) (e : ExtendedIndex) (n : ℕ)
    → 0 < n
    → n < 2 ^ 32
    → Readable mode n e
    → All (λ i. i < n) (visit_extended_source_indices e n)
unfolding visit_extended_source_indices
visits-lt mode e n hn hb r = ground arith

visit_in-Fits :
    (mode : BoundaryMode) (e : ExtendedIndex) (n : ℕ)
    → Fits mode e.operation
    → visit_extended_source_indices_in mode e n ≡ visit_extended_source_indices e n
unfolding visit_extended_source_indices_in visit_extended_source_indices
visit_in-Fits BoundaryMode.zero_pad e n f = ground arith
visit_in-Fits _ e n f = ground arith

evaluate_in-Fits :
    (fl : Floats) (read : ℕ → fl.Float) (mode : BoundaryMode) (e : ExtendedIndex) (n : ℕ)
    → Fits mode e.operation
    → evaluate_extended_index_in fl mode e n read ≡ evaluate_extended_index fl e n read
unfolding evaluate_extended_index_in evaluate_extended_index
evaluate_in-Fits fl read BoundaryMode.zero_pad e n f = ground arith
evaluate_in-Fits fl read _ e n f = ground arith

evaluate_operation-visit :
    (fl : Floats) (read other : ℕ → fl.Float) (op : ExtensionOperation) (e : ExtendedIndex) (n : ℕ)
    → All (λ i. read i ≡ other i) (visit_operation op e n)
    → evaluate_operation fl op e n read ≡ evaluate_operation fl op e n other
evaluate_operation-visit fl read other ExtensionOperation.zero_value e n h = refl
evaluate_operation-visit fl read other ExtensionOperation.sample e n h = h.0
evaluate_operation-visit fl read other ExtensionOperation.negated_sample e n h = ap fl.negate h.0
evaluate_operation-visit fl read other ExtensionOperation.smooth_line e n h = cc
evaluate_operation-visit fl read other ExtensionOperation.antireflection e n h = ground arith

pub make-Readable :
    (mode : BoundaryMode) (index : ℤ) (n : ℕ)
    → IsI64 index
    → 0 < n
    → n < 2 ^ 32
    → Readable mode n (make_extended_index mode index n)
make-Readable mode (pos a) n hi hn hb = elim (dec_lt a n) [
  | yes l ↦ rw (make-in_signal mode a n l hb) (sample-Fits mode, l, λ e. cc)
  | no l ↦
      rw (make-outside mode (pos a) n hn (le→ltb a n (omega arith)))
        (outside-Readable (pos a) n hi hn hb mode)
]
make-Readable mode (negsuc a) n hi hn hb =
    rw (make-outside mode (negsuc a) n hn refl) (outside-Readable (negsuc a) n hi hn hb mode)

-- Every position that the visitor hands on lies in the signal: an access of any mode at any
-- `int64_t` index reads inside a signal of a `uint32_t` length, and an empty one it does not read.
pub visit-make_extended_index-lt :
    (mode : BoundaryMode) (index : ℤ) (n : ℕ)
    → IsI64 index
    → n < 2 ^ 32
    → All (λ i. i < n) (visit_extended_source_indices (make_extended_index mode index n) n)
visit-make_extended_index-lt mode index zero hi hb =
    unfold make_extended_index visit_extended_source_indices in tt
visit-make_extended_index-lt mode index (suc n) hi hb =
    visits-lt mode _ (suc n) (omega arith) hb (make-Readable mode index (suc n) hi (omega arith) hb)

-- The visitor and the evaluator that are specialised to a mode do what the general ones do, on
-- the accesses of that mode to a signal that is not empty.
pub specialised_access :
    (fl : Floats) (read : ℕ → fl.Float) (mode : BoundaryMode) (index : ℤ) (n : ℕ)
    → IsI64 index
    → 0 < n
    → n < 2 ^ 32
    → let e = make_extended_index mode index n in
      (visit_extended_source_indices_in mode e n ≡ visit_extended_source_indices e n)
      × (evaluate_extended_index_in fl mode e n read ≡ evaluate_extended_index fl e n read)
specialised_access fl read mode index n hi hn hb =
    let r = make-Readable mode index n hi hn hb in
    (visit_in-Fits mode _ n r.0, evaluate_in-Fits fl read mode _ n r.0)

-- The evaluator reads the visited positions only: readers that agree there give one value.
pub evaluate-visit :
    (fl : Floats) (read other : ℕ → fl.Float) (e : ExtendedIndex) (n : ℕ)
    → All (λ i. read i ≡ other i) (visit_extended_source_indices e n)
    → evaluate_extended_index fl e n read ≡ evaluate_extended_index fl e n other
unfolding evaluate_extended_index visit_extended_source_indices
evaluate-visit fl read other e n h = evaluate_operation-visit fl read other e.operation e n h
