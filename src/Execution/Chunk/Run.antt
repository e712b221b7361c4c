-- ===== src/Execution/Chunk/Run.antt =====
-- What the routes of a chunk do to the samples in the slots of its workspace, for any arithmetic: a
-- description of the routes' meaning that the planners' theorems are stated with.
use tt_wavelet.Common.{
  ℕ, ◌+◌, ◌-◌, ◌<◌, ◌≡◌, ◌≢◌, refl, sym, arith, ◌&&◌, List, [], ◌∷◌, ◌++◌, ltb, ◌==◌, if◌then◌else◌,
  lt→ltb, ==_iff, Bool-cases, inl, inr,
}
use tt_wavelet.Plan.{StepType, StorageSlot, slot_code, step_coeff_capacity}
use tt_wavelet.Execution.Chunk.{LwtStepRoute}

-- The arithmetic of a step: a stencil combines a window of its source with a sample of its base, a
-- scale changes a sample. A stencil reads as many samples as it has coefficients.
pub record Arithmetic (V : Type 0) : Type 0 where
  pub stencil : StepType → ℕ → (ℕ → V) → V → V
  pub scale : StepType → V → V
  pub stencil_window :
      (t : StepType) (pad : ℕ) (f g : ℕ → V) (b : V)
      → ((i : ℕ) → i < step_coeff_capacity - pad → f i ≡ g i)
      → stencil t pad f b ≡ stencil t pad g b

-- The samples in each slot, by their position.
abbrev pub Slots : Type 0 → Type 0
Slots V = StorageSlot → ℕ → V

pub slot_code-injective : (s t : StorageSlot) → slot_code s ≡ slot_code t → s ≡ t
slot_code-injective StorageSlot.slot_a StorageSlot.slot_a h = refl
slot_code-injective StorageSlot.slot_a StorageSlot.slot_b h = absurd (omega (arith, h))
slot_code-injective StorageSlot.slot_a StorageSlot.scratch h = absurd (omega (arith, h))
slot_code-injective StorageSlot.slot_b StorageSlot.slot_a h = absurd (omega (arith, h))
slot_code-injective StorageSlot.slot_b StorageSlot.slot_b h = refl
slot_code-injective StorageSlot.slot_b StorageSlot.scratch h = absurd (omega (arith, h))
slot_code-injective StorageSlot.scratch StorageSlot.slot_a h = absurd (omega (arith, h))
slot_code-injective StorageSlot.scratch StorageSlot.slot_b h = absurd (omega (arith, h))
slot_code-injective StorageSlot.scratch StorageSlot.scratch h = refl

module _ {V : Type 0} (a : Arithmetic V) where
  -- The sample that a route of a type puts at a position of its output.
  abbrev pub element : StepType → LwtStepRoute → Slots V → ℕ → V
  element StepType.predict q m p =
      a.stencil StepType.predict q.source_left_pad_elements
        (λ i. m q.source.slot (q.source_offset_elements + p + i))
        (m q.base.slot (q.base_offset_elements + p))
  element StepType.update q m p =
      a.stencil StepType.update q.source_left_pad_elements
        (λ i. m q.source.slot (q.source_offset_elements + p + i))
        (m q.base.slot (q.base_offset_elements + p))
  element StepType.scale_even q m p =
      a.scale StepType.scale_even (m q.source.slot (q.source_offset_elements + p))
  element StepType.scale_odd q m p =
      a.scale StepType.scale_odd (m q.source.slot (q.source_offset_elements + p))
  element StepType.swap q m p = m q.source.slot p

  -- A route writes its output at the start of its slot, reading what was there before.
  unfoldable pub run_route : LwtStepRoute → Slots V → Slots V
  run_route q m slot p =
      if slot_code q.output.slot == slot_code slot && ltb p q.output_length
      then element q.type q m p
      else m slot p

  abbrev pub run_routes : List LwtStepRoute → Slots V → Slots V
  run_routes [] m = m
  run_routes (q ∷ qs) m = run_routes qs (run_route q m)

  pub run_route-written :
      (q : LwtStepRoute) (m : Slots V) (p : ℕ)
      → p < q.output_length
      → run_route q m q.output.slot p ≡ element q.type q m p
  unfolding run_route
  run_route-written q m p h =
      rw ((==_iff (slot_code q.output.slot) _).1 refl, lt→ltb p q.output_length h) refl

  pub run_route-kept :
      (q : LwtStepRoute) (m : Slots V) (slot : StorageSlot) (p : ℕ)
      → slot ≢ q.output.slot
      → run_route q m slot p ≡ m slot p
  unfolding run_route
  run_route-kept q m slot p apart = elim (Bool-cases (slot_code q.output.slot == slot_code slot)) [
    | inl e ↦ absurd (apart (sym (slot_code-injective q.output.slot slot ((==_iff _ _).0 e))))
    | inr e ↦ rw e refl
  ]

  pub run_routes-append :
      (xs ys : List LwtStepRoute) (m : Slots V)
      → run_routes (xs ++ ys) m ≡ run_routes ys (run_routes xs m)
  run_routes-append [] ys m = refl
  run_routes-append (q ∷ xs) ys m = run_routes-append xs ys (run_route q m)
