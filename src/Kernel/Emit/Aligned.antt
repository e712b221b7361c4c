-- ===== src/Kernel/Emit/Aligned.antt =====
-- The reads of whole groups: what they leave is what the loops leave that go lane by lane.
use native.Mathlib.Decide.{dec_lt, ℕ_discrete}
use tt_wavelet.Common.{
  ℕ, zero, suc, ◌+◌, ◌-◌, ◌*◌, ◌/◌, ◌%◌, ◌<◌, ◌≤◌, ◌≡◌, ap, sym, subst, ◌∙◌, arith, Bool, true, inl,
  inr,
}
use tt_wavelet.Common.Int.{pos, ◌+ℤ◌, ◌-ℤ◌}
use tt_wavelet.Extension.Evaluate.{Floats}
use tt_wavelet.Kernel.Workspace.{workspace_physical_index, physical-eq}
use tt_wavelet.Kernel.Packing.{Pointer, Pages, Words, at}
use tt_wavelet.Kernel.Packing.Agree.{IsRight, Improves}
use tt_wavelet.Kernel.Packing.Block.{value_at, value_inside, max_end}
use tt_wavelet.Kernel.Packing.Source.{HoldsSource, target, start_of, IsDense}
use tt_wavelet.Kernel.Emit.{LocalReads, read_aligned_source_group}

module _ (fl : Floats) (noc : LocalReads fl) (target_pages : Pages fl) where
  open noc use {read_words, read_inside, read_outside}

  -- A transfer of words of the target makes them right, and none wrong.
  pub read_words-Improves :
      (src : Words fl) (first count : ℕ) (dst : Pointer) (pages : Pages fl)
      → ((k : ℕ) → k < count → src (first + k) ≡ target_pages dst.buffer (dst.word + k))
      → Improves fl target_pages pages (read_words src first count dst pages)
        × ((k : ℕ)
            → k < count
            → IsRight fl target_pages (read_words src first count dst pages) (at dst k))
  read_words-Improves src first count dst pages h =
      let inside : (k : ℕ)
          → k < count
          → IsRight fl target_pages (read_words src first count dst pages) (at dst k) =
        λ k hk. read_inside src first count dst pages k hk ∙ h k hk in
      let improves : Improves fl target_pages pages (read_words src first count dst pages) =
        λ p right. elim (ℕ_discrete p.buffer dst.buffer) [
          | no other ↦ read_outside src first count dst pages p.buffer p.word (inl other) ∙ right
          | yes same ↦ elim (dec_lt p.word dst.word) [
            | yes low ↦
                read_outside src first count dst pages p.buffer p.word (inr (inl low)) ∙ right
            | no high ↦ elim (dec_lt p.word (dst.word + count)) [
              | no beyond ↦
                  read_outside src first count dst pages p.buffer p.word (inr (inr (omega arith)))
                  ∙ right
              | yes within ↦
                  let there : at dst (p.word - dst.word) ≡ p = ground arith in
                  subst (IsRight fl target_pages (read_words src first count dst pages)) there
                    (inside (p.word - dst.word) (omega arith))
            ]
          ]
        ] in
      (improves, inside)

module _ (fl : Floats) (noc : LocalReads fl) (src : Words fl) (source_end : ℕ)
    (short : source_end < max_end) (offset pad group_base : ℕ)
    (reach : offset + group_base + 2048 < max_end)
    (d : IsDense fl src source_end short offset pad group_base reach) where
  abbrev start : ℕ
  start = offset + group_base - pad

  abbrev goal : Bool → Pages fl
  goal tile_native = target fl src source_end short offset pad group_base reach tile_native

  logical :
      (q p : ℕ)
      → q < 2
      → p < 1024
      → start_of fl src source_end short offset pad group_base reach
            (2 * q + p / 512)
            (p % 512 / 16)
          +ℤ pos (p % 16)
        ≡ pos (start + (p % 512 / 16 * 3 + (2 * q + p / 512)) * 16 + p % 16)
  unfolding ◌-ℤ◌ ◌+ℤ◌
  logical q p hq hp = ground arith

  -- The samples that the target has in a dense group.
  goal-word :
      (tile_native : Bool) (q p : ℕ)
      → q < 2
      → p < 1024
      → goal tile_native q p
        ≡ src (
            workspace_physical_index tile_native
              (start + (p % 512 / 16 * 3 + (2 * q + p / 512)) * 16 + p % 16))
  goal-word tile_native q p hq hp =
      let n : ℕ = start + (p % 512 / 16 * 3 + (2 * q + p / 512)) * 16 + p % 16 in
      ap (value_at fl tile_native src source_end) (logical q p hq hp)
      ∙ value_inside fl tile_native src source_end n (omega arith)

  -- A run of words of a buffer that a transfer brings.
  abbrev Brings : Pages fl → Pages fl → ℕ → ℕ → ℕ → Type 0
  Brings pages after q low high =
      Improves fl (goal true) pages after
      × ((p : ℕ) → low ≤ p → p < high → after q p ≡ goal true q p)

  brings :
      (first count q word : ℕ) (pages : Pages fl)
      → q < 2
      → word + count ≤ 1024
      → ((k : ℕ)
          → k < count
          → first + k
            ≡ workspace_physical_index true (
                start
                + ((word + k) % 512 / 16 * 3 + (2 * q + (word + k) / 512)) * 16
                + (word + k) % 16))
      → Brings pages
          (noc.read_words src first count (record { buffer = q; word = word }) pages)
          q
          word
          (word + count)
  brings first count q word pages hq hw h =
      let read =
        read_words-Improves fl noc (goal true) src first count (record { buffer = q; word = word })
          pages (λ k hk. ap src (h k hk) ∙ sym (goal-word true q (word + k) hq (omega arith))) in
      (
        read.0,
        λ p low high.
            let k : ℕ = p - word in
            let same : word + k ≡ p = omega arith in
            subst
              (λ (n : ℕ).
                noc.read_words src first count (record { buffer = q; word = word }) pages q n
                ≡ goal true q n)
              same (read.1 k (omega arith)),
      )

  module _ (pages : Pages fl) (whole : start % 1536 ≡ 0) where
    abbrev tile0 : Pages fl
    tile0 = noc.read_words src start 512 (record { buffer = 0; word = 0 }) pages

    abbrev tile1 : Pages fl
    tile1 = noc.read_words src (start + 512) 512 (record { buffer = 0; word = 512 }) tile0

    abbrev tile2 : Pages fl
    tile2 = noc.read_words src (start + 1024) 512 (record { buffer = 1; word = 0 }) tile1

    abbrev tile3 : Pages fl
    tile3 = noc.read_words src (start + 16) 496 (record { buffer = 1; word = 512 }) tile2

    abbrev last_row : Pages fl
    last_row = noc.read_words src (start + 1536) 16 (record { buffer = 1; word = 1008 }) tile3

    tile0-Brings : Brings pages tile0 0 0 512
    tile0-Brings =
        brings start 512 0 0 pages (omega arith) (omega arith)
          (λ k hk. rw (physical-eq _) (omega arith))

    tile1-Brings : Brings tile0 tile1 0 512 1024
    tile1-Brings =
        brings (start + 512) 512 0 512 tile0 (omega arith) (omega arith)
          (λ k hk. rw (physical-eq _) (omega arith))

    tile2-Brings : Brings tile1 tile2 1 0 512
    tile2-Brings =
        brings (start + 1024) 512 1 0 tile1 (omega arith) (omega arith)
          (λ k hk. rw (physical-eq _) (omega arith))

    tile3-Brings : Brings tile2 tile3 1 512 1008
    tile3-Brings =
        brings (start + 16) 496 1 512 tile2 (omega arith) (omega arith)
          (λ k hk. rw (physical-eq _) (omega arith))

    last_row-Brings : Brings tile3 last_row 1 1008 1024
    last_row-Brings =
        brings (start + 1536) 16 1 1008 tile3 (omega arith) (omega arith)
          (λ k hk. rw (physical-eq _) (omega arith))

    -- A word that is right stays so to the end.
    from_tile1 : Improves fl (goal true) tile1 last_row
    from_tile1 p h = last_row-Brings.0 p (tile3-Brings.0 p (tile2-Brings.0 p h))

    pub read_aligned_source_group-holds :
        HoldsSource fl src source_end short offset pad group_base reach true
          (read_aligned_source_group fl noc src start pages)
    unfolding read_aligned_source_group
    read_aligned_source_group-holds zero p hq hp = elim (dec_lt p 512) [
      | yes l ↦
          from_tile1 (record { buffer = 0; word = p })
            (tile1-Brings.0 (record { buffer = 0; word = p }) (tile0-Brings.1 p (omega arith) l))
      | no m ↦ from_tile1 (record { buffer = 0; word = p }) (tile1-Brings.1 p (omega arith) hp)
    ]
    read_aligned_source_group-holds (suc zero) p hq hp = elim (dec_lt p 512) [
      | yes l ↦
          last_row-Brings.0 (record { buffer = 1; word = p })
            (tile3-Brings.0 (record { buffer = 1; word = p }) (tile2-Brings.1 p (omega arith) l))
      | no m ↦ elim (dec_lt p 1008) [
        | yes l ↦
            last_row-Brings.0 (record { buffer = 1; word = p }) (tile3-Brings.1 p (omega arith) l)
        | no b ↦ last_row-Brings.1 p (omega arith) hp
      ]
    ]
    read_aligned_source_group-holds (suc (suc q)) p hq hp = absurd (omega arith)
