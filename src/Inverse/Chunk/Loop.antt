-- ===== src/Inverse/Chunk/Loop.antt =====
-- The loop of the inverse build_chunk.
use tt_wavelet.Common.{
  ℕ, ◌≤◌, ◌≡◌, refl, sym, subst, List, [], ◌∷◌, ◌++◌, All, All-append, length, leb, arith, ok,
}
use tt_wavelet.Plan.{LiftingStepRoute}
use tt_wavelet.Plan.Chain.{Chain, route}
use tt_wavelet.Execution.{RequiredStreams}
use tt_wavelet.Execution.Backward.{last_of}
use tt_wavelet.Execution.Chunk.{LwtStepRoute}
use tt_wavelet.Execution.Chunk.Build.{ChunkState}
use tt_wavelet.Execution.Chunk.Build.Storage.{Sound, Holds}
use tt_wavelet.Execution.Chunk.Build.Steps.{All-Sound-mono}
use tt_wavelet.Inverse.Propagate.{Settled, Undone, finished, undo}
use tt_wavelet.Inverse.Chunk.{inverse_routes}
use tt_wavelet.Inverse.Chunk.Local.{TerminalScales}
use tt_wavelet.Execution.Chunk.Run.{Arithmetic, Slots, run_routes, run_routes-append}
use tt_wavelet.Execution.Chunk.Build.Contents.{Samples, Stores}
use tt_wavelet.Inverse.Chunk.Values.{restored_all}
use tt_wavelet.Inverse.Chunk.Steps.{inverse_step-Goes}

pub Undone-Settled :
    (rs : List LiftingStepRoute) (first : RequiredStreams) (later : List RequiredStreams)
    → Undone rs first later
    → Settled first
    → Settled (last_of first later)
Undone-Settled [] first [] finished h = h
Undone-Settled (r ∷ rs) first (after ∷ later) (undo n settled undone) h =
    Undone-Settled rs after later undone settled
Undone-Settled [] first (after ∷ later) u h = elim u [ ]
Undone-Settled (r ∷ rs) first [] u h = elim u [ ]

-- The loop from a state that holds what is required last.
pub inverse_routes-Sound :
    {V : Type 0} (a : Arithmetic V) (rs : List LiftingStepRoute) (e o e' o' : ℕ)
    (first : RequiredStreams) (later : List RequiredStreams) (s : ChunkState)
    → Chain e o rs e' o'
    → TerminalScales rs
    → Undone rs first later
    → Settled first
    → Holds s (last_of first later)
    → (qs : List LwtStepRoute) × (end : ChunkState) × (inverse_routes rs first later s
        ≡ ok (qs, end))
      × Holds end first
      × All (Sound end.max_workspace_elements) qs
      × (s.max_workspace_elements ≤ end.max_workspace_elements)
      × ((m : Slots V) (v : Samples V)
          → Stores m s v
          → Stores (run_routes a qs m) end (restored_all a rs v))
unfolding inverse_routes
inverse_routes-Sound a [] e o e' o' first [] s chain scales u settled h =
    ([], s, refl, h, tt, omega arith, λ m v stores. stores)
inverse_routes-Sound a [] e o e' o' first (after ∷ later) s chain scales u settled h = elim u [ ]
inverse_routes-Sound a (r ∷ rs) e o e' o' first [] s chain scales u settled h = elim u [ ]
inverse_routes-Sound {V = V} a (r ∷ rs) e o e' o' first (after ∷ later) s
      (route {e' = e₁} {o' = o₁} t chain) scales (undo n settled' undone) settled h =
    let (qs, s', same, holds, sound, grows, values) =
      inverse_routes-Sound a rs e₁ o₁ e' o' after later s chain scales.1 undone settled' h in
    let (pushed, end, here, holds', sound', grows', values') =
      inverse_step-Goes a r first after s' settled holds r.type (leb (length rs) 1) e o e₁ o₁ refl
        scales.0 t n in
    (
      qs ++ pushed,
      end,
      rw (same, here) refl,
      holds',
      All-append (Sound end.max_workspace_elements) qs pushed (All-Sound-mono _ _ qs grows' sound)
          sound',
      omega (arith, grows, grows'),
      λ m v stores.
          subst (λ (m : Slots V). Stores m end (restored_all a (r ∷ rs) v))
            (sym (run_routes-append a qs pushed m))
            (values' (run_routes a qs m) (restored_all a rs v) (values m v stores)),
    )
