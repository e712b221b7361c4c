-- ===== src/Execution/Doubling.antt =====
-- The search that both execution plans make for a chunk count: a candidate is built, and the count is
-- doubled, up to the number of groups, until the candidate fits.
use native.Mathlib.Nat.{min-eq_left, min-eq_right, one-le-pow, pow-suc, mul-le-mul_left}
use native.Mathlib.Decide.{dec_le}
use tt_wavelet.Common.{
  ℕ, zero, suc, ◌*◌, ◌^◌, ◌≤◌, ◌<◌, ◌≡◌, refl, min, Bool, true, false, Option, none, some, arith,
  Bool-cases, Result-cases, ltb, ltb→lt, Result, ok, fatal, inl, inr,
}
use tt_wavelet.Common.Words.{u32}

module _ {Candidate : Type 0} (build : ℕ → Result Candidate) (fits : Candidate → Bool)
    (groups : ℕ) where
  -- `none` where the fuel runs out.
  unfoldable pub double_until : ℕ → ℕ → Option (Result Candidate)
  double_until zero chunk_count = none
  double_until (suc fuel) chunk_count = elim (build chunk_count) [
    | fatal ↦ some fatal
    | ok candidate ↦ elim (fits candidate) [
      | true ↦ some (ok candidate)
      | false ↦ elim (ltb chunk_count groups) [
        | false ↦ some fatal
        | true ↦ double_until fuel (u32 (min groups (2 * chunk_count)))
      ]
    ]
  ]

  -- What the search may give: a fatal check, or the candidate of a count that fits.
  abbrev pub Outcome : Result Candidate → Type 0
  Outcome fatal = Unit {0}
  Outcome (ok c) = (count : ℕ) × (build count ≡ ok c) × (fits c ≡ true)

  abbrev pub Decides : ℕ → ℕ → Type 0
  Decides fuel count = (r : Result Candidate) × (double_until fuel count ≡ some r) × Outcome r

  search-round :
      (fuel count : ℕ)
      → (count < groups → Decides fuel (u32 (min groups (2 * count))))
      → Decides (suc fuel) count
  unfolding double_until
  search-round fuel count next = elim (Result-cases (build count)) [
    | inl stop ↦ (fatal, rw (double_until, stop) refl, tt)
    | inr (c, built) ↦ elim (Bool-cases (fits c)) [
      | inl fit ↦ (ok c, rw (double_until, built, fit) refl, (count, built, fit))
      | inr wide ↦ elim (Bool-cases (ltb count groups)) [
        | inl below ↦
            let (r, e, o) = next (ltb→lt count groups below) in
            (r, rw (double_until, built, wide, below) e, o)
        | inr last ↦ (fatal, rw (double_until, built, wide, last) refl, tt)
      ]
    ]
  ]

doubled_enough : (n c k : ℕ) → n ≤ c * 2 ^ suc k → n ≤ min n (2 * c) * 2 ^ k
doubled_enough n c k h = elim (dec_le n (2 * c)) [
  | yes l ↦ rw (min-eq_left l) (omega (arith, mul-le-mul_left n (one-le-pow k 2 (omega arith))))
  | no l ↦
      rw (min-eq_right {n = 2 * c} {m = n} (omega arith)) (omega (arith, rw (pow-suc 2 k) at h))
]

module _ {Candidate : Type 0} (build : ℕ → Result Candidate) (fits : Candidate → Bool)
    (groups : ℕ) where
  -- From a count that k doublings bring to the number of groups, k + 1 rounds decide.
  pub search-Decides :
      (k count : ℕ)
      → groups < 2 ^ 32
      → 0 < count
      → groups ≤ count * 2 ^ k
      → Decides build fits groups (suc k) count
  search-Decides zero count word h b =
      search-round build fits groups 0 count (λ l. absurd (omega (arith, b, l)))
  search-Decides (suc k) count word h b = search-round build fits groups (suc k) count (λ l.
      let next = min groups (2 * count) in
      let same : u32 next ≡ next = omega arith in
      rw same (search-Decides k next word (omega arith) (doubled_enough groups count k b)))
