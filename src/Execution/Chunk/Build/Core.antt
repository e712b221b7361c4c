-- ===== src/Execution/Chunk/Build/Core.antt =====
-- What the routes of a forward chunk do to the workspace of a core and to the two final buffers, and
-- how the positions in those change with the canonical origins.
use tt_wavelet.Common.{
  ℕ, ◌+◌, ◌-◌, ◌≤◌, ◌≡◌, refl, sym, ap, ◌∙◌, subst, arith, Bool, true, false, ◌&&◌, List, [], ◌∷◌,
  ltb, leb, if◌then◌else◌, ok, >>=-eq-ok, >>-eq-ok, ok-injective, leb→le,
}
use tt_wavelet.Plan.{StepType, RouteOutputStorage}
use tt_wavelet.Execution.Chunk.{LwtStepRoute}
use tt_wavelet.Execution.Chunk.Build.{rebased, rebase_routes}
use tt_wavelet.Execution.Chunk.Run.{Arithmetic, Slots, element, run_route}

-- The slots of a core, and the two final buffers by position.
pub record Core (V : Type 0) : Type 0 where
  pub slots : Slots V
  pub final_even : ℕ → V
  pub final_odd : ℕ → V

-- A buffer after a run of samples is written to it.
abbrev pub written : {V : Type 0} → ℕ → ℕ → (ℕ → V) → (ℕ → V) → ℕ → V
written offset length f before k =
    if leb offset k && ltb k (offset + length) then f (k - offset) else before k

module _ {V : Type 0} (a : Arithmetic V) where
  -- The sample that goes to a final buffer: a stencil that writes there is scaled on the way.
  abbrev pub final_element : StepType → StepType → LwtStepRoute → Slots V → ℕ → V
  final_element scale StepType.predict q m p = a.scale scale (element a StepType.predict q m p)
  final_element scale StepType.update q m p = a.scale scale (element a StepType.update q m p)
  final_element scale StepType.scale_even q m p = element a StepType.scale_even q m p
  final_element scale StepType.scale_odd q m p = element a StepType.scale_odd q m p
  final_element scale StepType.swap q m p = element a StepType.swap q m p

  abbrev pub run_to : RouteOutputStorage → LwtStepRoute → Core V → Core V
  run_to RouteOutputStorage.workspace_slot q m = record m { slots = run_route a q m.slots }
  run_to RouteOutputStorage.final_even_dram q m = record m {
    final_even =
        written q.output_offset_elements q.output_length
          (final_element StepType.scale_even q.type q m.slots) m.final_even;
  }
  run_to RouteOutputStorage.final_odd_dram q m = record m {
    final_odd =
        written q.output_offset_elements q.output_length
          (final_element StepType.scale_odd q.type q m.slots) m.final_odd;
  }

  abbrev pub run_core : List LwtStepRoute → Core V → Core V
  run_core [] m = m
  run_core (q ∷ qs) m = run_core qs (run_to q.output.storage q m)

  -- The same core, with the final buffers seen from their origins.
  pub record Rebased (even_origin odd_origin : ℕ) (m m' : Core V) : Type 0 where
    pub slots : m'.slots ≡ m.slots
    pub even : (k : ℕ) → m'.final_even k ≡ m.final_even (k + even_origin)
    pub odd : (k : ℕ) → m'.final_odd k ≡ m.final_odd (k + odd_origin)

  element_moved :
      (scale t : StepType) (q : LwtStepRoute) (x : ℕ) (m : Slots V) (p : ℕ)
      → final_element scale t (record q { output_offset_elements = x }) m p
        ≡ final_element scale t q m p
  element_moved scale StepType.predict q x m p = refl
  element_moved scale StepType.update q x m p = refl
  element_moved scale StepType.scale_even q x m p = refl
  element_moved scale StepType.scale_odd q x m p = refl
  element_moved scale StepType.swap q x m p = refl

  written_moved :
      (offset origin length k : ℕ) (f g before before' : ℕ → V)
      → origin ≤ offset
      → ((p : ℕ) → f p ≡ g p)
      → before' k ≡ before (k + origin)
      → written (offset - origin) length f before' k ≡ written offset length g before (k + origin)
  written_moved offset origin length k f g before before' h same rest =
      let place : k - (offset - origin) ≡ k + origin - offset = omega (arith, h) in
      let low : leb (offset - origin) k ≡ leb offset (k + origin) = ground (arith, h) in
      let high : ltb k (offset - origin + length) ≡ ltb (k + origin) (offset + length) =
        ground (arith, h) in
      rw (low, high, place) (chosen (leb offset (k + origin) && ltb (k + origin) (offset + length)))
    where
      chosen :
          (b : Bool)
          → (if b then f (k + origin - offset) else before' k)
            ≡ (if b then g (k + origin - offset) else before (k + origin))
      chosen true = same (k + origin - offset)
      chosen false = rest

  run_to-Rebased :
      (eo oo : ℕ) (storage : RouteOutputStorage) (q q' : LwtStepRoute) (m m' : Core V)
      → q.output.storage ≡ storage
      → rebased storage eo oo q ≡ ok q'
      → Rebased eo oo m m'
      → Rebased eo oo (run_to storage q m) (run_to q'.output.storage q' m')
  run_to-Rebased eo oo RouteOutputStorage.workspace_slot q q' m m' kind h r =
      subst
        (λ (q' : LwtStepRoute).
          Rebased eo oo (run_to RouteOutputStorage.workspace_slot q m)
            (run_to q'.output.storage q' m'))
        (ok-injective h)
        (subst
          (λ (at : RouteOutputStorage).
            Rebased eo oo (run_to RouteOutputStorage.workspace_slot q m) (run_to at q m'))
          (sym kind) record { slots = ap (run_route a q) r.slots; even = r.even; odd = r.odd })
  run_to-Rebased eo oo RouteOutputStorage.final_even_dram q q' m m' kind h r =
      let (above, made) = >>-eq-ok (leb eo q.output_offset_elements) _ h in
      subst
        (λ (q' : LwtStepRoute).
          Rebased eo oo (run_to RouteOutputStorage.final_even_dram q m)
            (run_to q'.output.storage q' m'))
        (ok-injective made)
        (subst
          (λ (at : RouteOutputStorage).
            Rebased eo oo (run_to RouteOutputStorage.final_even_dram q m)
              (run_to at (record q { output_offset_elements = q.output_offset_elements - eo }) m'))
          (sym kind)
          record {
            slots = r.slots;
            even = λ k.
                written_moved q.output_offset_elements eo q.output_length k _ _ m.final_even
                  m'.final_even (leb→le eo q.output_offset_elements above)
                  (λ p.
                    element_moved StepType.scale_even q.type q (q.output_offset_elements - eo)
                      m'.slots p
                    ∙ ap (λ (s : Slots V). final_element StepType.scale_even q.type q s p) r.slots)
                  (r.even k);
            odd = r.odd;
          })
  run_to-Rebased eo oo RouteOutputStorage.final_odd_dram q q' m m' kind h r =
      let (above, made) = >>-eq-ok (leb oo q.output_offset_elements) _ h in
      subst
        (λ (q' : LwtStepRoute).
          Rebased eo oo (run_to RouteOutputStorage.final_odd_dram q m)
            (run_to q'.output.storage q' m'))
        (ok-injective made)
        (subst
          (λ (at : RouteOutputStorage).
            Rebased eo oo (run_to RouteOutputStorage.final_odd_dram q m)
              (run_to at (record q { output_offset_elements = q.output_offset_elements - oo }) m'))
          (sym kind)
          record {
            slots = r.slots;
            even = r.even;
            odd = λ k.
                written_moved q.output_offset_elements oo q.output_length k _ _ m.final_odd
                  m'.final_odd (leb→le oo q.output_offset_elements above)
                  (λ p.
                    element_moved StepType.scale_odd q.type q (q.output_offset_elements - oo)
                      m'.slots p
                    ∙ ap (λ (s : Slots V). final_element StepType.scale_odd q.type q s p) r.slots)
                  (r.odd k);
          })

  -- Rebased routes do from the origins on what the routes do.
  pub rebase_routes-Rebased :
      (eo oo : ℕ) (qs qs' : List LwtStepRoute) (m m' : Core V)
      → rebase_routes eo oo qs ≡ ok qs'
      → Rebased eo oo m m'
      → Rebased eo oo (run_core qs m) (run_core qs' m')
  unfolding rebase_routes
  rebase_routes-Rebased eo oo [] qs' m m' h r =
      subst (λ (qs' : List LwtStepRoute). Rebased eo oo m (run_core qs' m')) (ok-injective h) r
  rebase_routes-Rebased eo oo (q ∷ qs) qs' m m' h r =
      let (here, e, h₁) = >>=-eq-ok (rebased q.output.storage eo oo q) _ h in
      let (rest, e', h₂) = >>=-eq-ok (rebase_routes eo oo qs) _ h₁ in
      subst (λ (qs' : List LwtStepRoute). Rebased eo oo (run_core (q ∷ qs) m) (run_core qs' m'))
        (ok-injective h₂)
        (rebase_routes-Rebased eo oo qs rest (run_to q.output.storage q m)
          (run_to here.output.storage here m') e'
          (run_to-Rebased eo oo q.output.storage q here m m' refl e r))
