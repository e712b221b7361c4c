-- ===== src/Execution/Chunk/Build/Storage.antt =====
-- The local workspace of a chunk: what a route must find in the slots that it reads, and the loop state.
use tt_wavelet.Common.{ℕ, ◌+◌, ◌-◌, ◌^◌, ◌≤◌, ◌<◌, ◌≡◌, ◌≢◌, sym, arith, ok}
use tt_wavelet.Plan.{
  StepType, StorageSlot, RouteOutputStorage, LiftingStepRoute, step_coeff_capacity,
}
use tt_wavelet.Plan.Chain.{taps}
use tt_wavelet.Execution.{IndexInterval, interval_length, RequiredStreams}
use tt_wavelet.Execution.Intervals.{Within, shifted, translated-shifted, contains_iff}
use tt_wavelet.Execution.Backward.{coefficient_count-taps}
use tt_wavelet.Execution.Chunk.{StoredStream, TerminalScaleInline, LwtStepRoute}
use tt_wavelet.Execution.Chunk.Build.{
  local_offset, ChunkState, stencil_entry, chunk_stencil, scale_entry, chunk_scale,
}

-- The window of a stencil and its base lie in what is stored, and its output slot is neither's.
abbrev pub StencilReads : LwtStepRoute → Type 0
StencilReads q =
    (q.source_offset_elements
        + q.output_length
        + (step_coeff_capacity - q.source_left_pad_elements - 1)
      ≤ q.source_storage_length)
    × (q.base_offset_elements + q.output_length ≤ q.base_storage_length)
    × (q.output.slot ≢ q.source.slot)
    × (q.output.slot ≢ q.base.slot)

-- The reads of a route of a type stay in the stored intervals of its streams.
abbrev pub ReadsOf : StepType → LwtStepRoute → Type 0
ReadsOf StepType.predict q = StencilReads q
ReadsOf StepType.update q = StencilReads q
ReadsOf StepType.scale_even q = q.source_offset_elements + q.output_length ≤ q.source_storage_length
ReadsOf StepType.scale_odd q = q.source_offset_elements + q.output_length ≤ q.source_storage_length
ReadsOf StepType.swap q = Unit {0}

-- What a chunk's route promises of a workspace of m elements in each slot: it reads what is stored
-- there, a stencil overwrites neither of the streams that it reads, and all fits in the slots.
pub record Sound (m : ℕ) (q : LwtStepRoute) : Type 0 where
  pub reads : ReadsOf q.type q
  pub source_fits : q.source_storage_length ≤ m
  pub base_fits : q.base_storage_length ≤ m
  pub output_fits : q.output_length ≤ m

-- What the loop keeps: the slots hold what is required, and are three.
pub record Holds (s : ChunkState) (req : RequiredStreams) : Type 0 where
  pub even : Within req.even s.active_even.storage
  pub odd : Within req.odd s.active_odd.storage
  pub even_low : s.active_even.storage.end < 2 ^ 63
  pub odd_low : s.active_odd.storage.end < 2 ^ 63
  pub even_size : interval_length s.active_even.storage ≤ s.max_workspace_elements
  pub odd_size : interval_length s.active_odd.storage ≤ s.max_workspace_elements
  pub even_odd : s.active_even.slot ≢ s.active_odd.slot
  pub even_free : s.active_even.slot ≢ s.free_slot
  pub odd_free : s.active_odd.slot ≢ s.free_slot

pub local_offset-Within :
    (storage required : IndexInterval)
    → required.begin < required.end
    → Within required storage
    → local_offset storage required ≡ ok (required.begin - storage.begin)
unfolding local_offset
local_offset-Within storage required h w = rw ((contains_iff storage required h).1 w) (ground arith)

pub Sound-mono : (m n : ℕ) (q : LwtStepRoute) → m ≤ n → Sound m q → Sound n q
Sound-mono m n q h s = record {
  reads = s.reads;
  source_fits = omega (arith, s.source_fits);
  base_fits = omega (arith, s.base_fits);
  output_fits = omega (arith, s.output_fits);
}

module _ (inline : TerminalScaleInline) (index : ℕ) (r : LiftingStepRoute) (output : IndexInterval)
    (source base : StoredStream) (free : StorageSlot)
    (padded : r.source_left_pad < step_coeff_capacity) (full : output.begin < output.end)
    (source_in : Within (shifted output r.source_offset (taps r - 1)) source.storage)
    (base_in : Within (shifted output r.base_offset 0) base.storage)
    (source_low : source.storage.end < 2 ^ 63) (base_low : base.storage.end < 2 ^ 63) where
  abbrev pushed_stencil : LwtStepRoute
  pushed_stencil =
      stencil_entry inline index r output source base free
        (output.begin + r.source_offset - source.storage.begin)
        (output.begin + r.base_offset - base.storage.begin)

  chunk_stencil-eq : chunk_stencil inline index r output source base free ≡ ok pushed_stencil
  unfolding chunk_stencil
  chunk_stencil-eq = rw (
    coefficient_count-taps r padded,
    translated-shifted output r.source_offset (taps r - 1) full (omega arith),
    translated-shifted output r.base_offset 0 full (omega arith),
    local_offset-Within source.storage (shifted output r.source_offset (taps r - 1)) (omega arith)
        source_in,
    local_offset-Within base.storage (shifted output r.base_offset 0) (omega arith) base_in,
  )

  pub chunk_stencil-reads :
      source.slot ≢ free
      → base.slot ≢ free
      → (chunk_stencil inline index r output source base free ≡ ok pushed_stencil)
        × StencilReads pushed_stencil
        × (interval_length output ≤ interval_length base.storage)
  chunk_stencil-reads s b =
      (chunk_stencil-eq, (omega arith, omega arith, λ e. s (sym e), λ e. b (sym e)), omega arith)

module _ (r : LiftingStepRoute) (output : IndexInterval) (source : StoredStream)
    (final_storage : RouteOutputStorage) (full : output.begin < output.end)
    (inside : Within output source.storage) (low : source.storage.end < 2 ^ 63) where
  pub chunk_scale-eq :
      chunk_scale r output source final_storage
      ≡ ok (scale_entry r output source final_storage (output.begin - source.storage.begin))
  unfolding chunk_scale
  chunk_scale-eq = rw (local_offset-Within source.storage output full inside)

  pub chunk_scale-reads :
      let q = scale_entry r output source final_storage (output.begin - source.storage.begin) in
      (q.source_offset_elements + q.output_length ≤ q.source_storage_length)
      × (q.output_length ≤ q.source_storage_length)
  chunk_scale-reads = (omega arith, omega arith)
