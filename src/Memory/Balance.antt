-- ===== src/Memory/Balance.antt =====
-- The accounting adds up, and is given exactly where the memory suffices.
use tt_wavelet.Common.{
  ℕ, ◌+◌, ◌*◌, ◌^◌, ◌≤◌, ◌<◌, ◌≡◌, ◌↔◌, refl, subst, arith, ok, >>-eq-ok, ok-injective, leb, ltb,
  leb→le, le→leb, ltb→lt, lt→ltb,
}
use tt_wavelet.Memory.{L1Accounting, parts_of, make_l1_accounting}

-- The bytes that a core needs: three slots of the workspace and three of its mirror, the circular
-- buffers, the caches, the sticks of the interleaving, and the scratch memory.
abbrev pub needed_bytes : ℕ → ℕ → ℕ → ℕ → ℕ
needed_bytes workspace mirror batch_sticks scratch =
    12 * workspace + 12 * mirror + 128 * batch_sticks + scratch + 41632

-- The parts add up to the total, and the total and the headroom to the capacity; the logical slots
-- and their padding make up the allocated workspace.
pub record IsBalanced (workspace capacity : ℕ) (a : L1Accounting) : Type 0 where
  pub parts :
      a.slots_bytes + a.workspace_mirror_bytes + a.circular_buffers_bytes + a.cache_bytes
        + a.output_bytes + a.synchronization_bytes + a.metadata_bytes + a.alignment_bytes
        + a.padding_bytes + a.architecture_scratch_bytes
      ≡ a.total_bytes
  pub whole : a.total_bytes + a.headroom_bytes ≡ capacity
  pub workspace_padded : a.slots_bytes + a.padding_bytes ≡ 12 * workspace

module _ (workspace max_workspace mirror batch_sticks scratch capacity : ℕ)
    (workspace_word : workspace < 2 ^ 32) (mirror_word : mirror < 2 ^ 32)
    (batch_word : batch_sticks < 2 ^ 32) (scratch_word : scratch < 2 ^ 32)
    (capacity_word : capacity < 2 ^ 32) where
  abbrev parts : L1Accounting
  parts = parts_of workspace max_workspace mirror batch_sticks scratch capacity

  total-eq :
      max_workspace ≤ workspace
      → parts.total_bytes ≡ needed_bytes workspace mirror batch_sticks scratch
  total-eq h = omega (arith, h)

  -- For `uint32_t` arguments the accounting is given exactly where the logical workspace is no larger
  -- than the allocated one, a batch has a stick, and the bytes needed are no more than the capacity.
  pub make_l1_accounting_iff :
      ((a : L1Accounting) × (make_l1_accounting workspace max_workspace mirror batch_sticks scratch
            capacity
          ≡ ok a))
      ↔ ((max_workspace ≤ workspace)
          × (0 < batch_sticks)
          × (needed_bytes workspace mirror batch_sticks scratch ≤ capacity))
  unfolding make_l1_accounting
  make_l1_accounting_iff = (
    λ p.
        let (small, h₁) = >>-eq-ok (leb max_workspace workspace) _ p.1 in
        let (batch, h₂) = >>-eq-ok (ltb 0 batch_sticks) _ h₁ in
        let (fits, _) = >>-eq-ok (leb parts.total_bytes capacity) (ok parts) h₂ in
        let smaller = leb→le max_workspace workspace small in
        (
          smaller,
          ltb→lt 0 batch_sticks batch,
          omega (arith, total-eq smaller, leb→le parts.total_bytes capacity fits),
        ),
    λ q. (
      parts,
      rw
          (
            le→leb max_workspace workspace q.0,
            lt→ltb 0 batch_sticks q.1,
            le→leb parts.total_bytes capacity (omega (arith, total-eq q.0, q.2)),
          )
          refl,
    ),
  )

  -- For `uint32_t` arguments an accounting that is given adds up.
  pub make_l1_accounting-IsBalanced :
      (a : L1Accounting)
      → make_l1_accounting workspace max_workspace mirror batch_sticks scratch capacity ≡ ok a
      → IsBalanced workspace capacity a
  unfolding make_l1_accounting
  make_l1_accounting-IsBalanced a h =
      let (small, h₁) = >>-eq-ok (leb max_workspace workspace) _ h in
      let (_, h₂) = >>-eq-ok (ltb 0 batch_sticks) _ h₁ in
      let (fits, h₃) = >>-eq-ok (leb parts.total_bytes capacity) (ok parts) h₂ in
      let smaller = leb→le max_workspace workspace small in
      let enough = leb→le parts.total_bytes capacity fits in
      subst (IsBalanced workspace capacity) (ok-injective h₃) (record {
        parts = omega (arith, smaller);
        whole = omega (arith, enough);
        workspace_padded = omega (arith, smaller);
      })
