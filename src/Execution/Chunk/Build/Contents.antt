-- ===== src/Execution/Chunk/Build/Contents.antt =====
-- The samples that stand in the workspace of a chunk, as the loops of build_chunk keep track of them.
use tt_wavelet.Common.{ℕ, ◌-◌, ◌≤◌, ◌<◌, ◌≡◌, ◌≢◌, ◌∙◌}
use tt_wavelet.Plan.{StorageSlot}
use tt_wavelet.Execution.{RequiredStreams}
use tt_wavelet.Execution.Chunk.{StoredStream, LwtStepRoute}
use tt_wavelet.Execution.Chunk.Build.{ChunkState, stored, chunk_start}
use tt_wavelet.Execution.Chunk.Run.{Arithmetic, Slots, run_route, run_route-kept}

-- The samples of the two streams.
pub record Samples (V : Type 0) : Type 0 where
  pub even : ℕ → V
  pub odd : ℕ → V

-- The slot has the samples of a stream on the interval that is stored there.
abbrev pub Stored : {V : Type 0} → Slots V → StoredStream → (ℕ → V) → Type 0
Stored m s f =
    (k : ℕ) → s.storage.begin ≤ k → k < s.storage.end → m s.slot (k - s.storage.begin) ≡ f k

pub record Stores {V : Type 0} (m : Slots V) (s : ChunkState) (v : Samples V) : Type 0 where
  pub even : Stored m s.active_even v.even
  pub odd : Stored m s.active_odd v.odd

module _ {V : Type 0} (a : Arithmetic V) (m : Slots V) where
  -- A route does not change a stream in another slot.
  pub Stored-kept :
      (q : LwtStepRoute) (s : StoredStream) (f : ℕ → V)
      → s.slot ≢ q.output.slot
      → Stored m s f
      → Stored (run_route a q m) s f
  Stored-kept q s f apart h k b e =
      run_route-kept a q m s.slot (k - s.storage.begin) apart ∙ h k b e

-- The slots in which a chunk starts have what is required of the streams after all routes.
pub record Loaded {V : Type 0} (m : Slots V) (last : RequiredStreams) (v : Samples V) : Type 0 where
  pub even : Stored m (stored StorageSlot.slot_a last.even) v.even
  pub odd : Stored m (stored StorageSlot.slot_b last.odd) v.odd

pub Loaded-Stores :
    {V : Type 0} (m : Slots V) (last : RequiredStreams) (v : Samples V)
    → Loaded m last v
    → Stores m (chunk_start last) v
unfolding chunk_start
Loaded-Stores m last v h = record { even = h.even; odd = h.odd }
