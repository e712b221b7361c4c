-- ===== src/Kernel/Emit/WholeOutput.antt =====
-- The reads of the output tiles of a whole group.
use tt_wavelet.Common.{
  ℕ, ◌+◌, ◌*◌, ◌/◌, ◌%◌, ◌<◌, ◌≡◌, refl, ap, sym, subst, ◌∙◌, arith, Bool, true, false, min,
}
use tt_wavelet.Common.Words.{u32}
use tt_wavelet.Extension.Evaluate.{Floats}
use tt_wavelet.Kernel.Workspace.{workspace_physical_index, physical-eq}
use tt_wavelet.Kernel.Packing.{Pointer, Pages, Words, at, for_up, output_block}
use tt_wavelet.Kernel.Packing.Agree.{IsRight, Improves, for_up-Improves}
use tt_wavelet.Kernel.Packing.Block.{value_inside, max_end}
use tt_wavelet.Kernel.Packing.Rows.{output_block-word, rows-Settles, tiles-Settles}
use tt_wavelet.Kernel.Packing.Output.{HoldsOutput, target, IsDense}
use tt_wavelet.Kernel.Emit.{LocalReads, read_aligned_output_group, read_row_major_output_group}
use tt_wavelet.Kernel.Emit.Aligned.{read_words-Improves}

module _ (fl : Floats) (noc : LocalReads fl) (src : Words fl) (source_end : ℕ)
    (short : source_end < max_end) (offset output_length group_base : ℕ)
    (reach : offset + group_base + 2048 < max_end) (length_reach : offset + output_length < max_end)
    (d : IsDense fl src source_end short offset output_length group_base reach length_reach) where
  abbrev goal : Bool → Pages fl
  goal = target fl src source_end short offset output_length group_base reach length_reach

  -- The samples that the target has in a dense group.
  goal-word :
      (tile_native : Bool) (p : ℕ)
      → p < 1536
      → goal tile_native 0 p
        ≡ src (
            workspace_physical_index tile_native
              (offset + (group_base + (p % 512 / 16 * 3 + p / 512) * 16) + p % 16))
  goal-word tile_native p hp =
      value_inside fl tile_native src (min (offset + output_length) source_end) _ (omega arith)

  pub read_aligned_output_group-holds :
      (pages : Pages fl)
      → (offset + group_base) % 1536 ≡ 0
      → HoldsOutput fl src source_end short offset output_length group_base reach length_reach true
          (read_aligned_output_group fl noc src (offset + group_base) pages)
  unfolding read_aligned_output_group
  read_aligned_output_group-holds pages whole p hp =
      let loop =
        for_up-Improves fl (goal true) (λ (m : Pages fl). m) (λ i m. Unit {0})
          (λ block q. (k : ℕ) × (k < 512) × (q ≡ record { buffer = 0; word = block * 512 + k }))
          (λ block.
            noc.read_words src (offset + group_base + block * 512) 512
              (record { buffer = 0; word = block * 512 }))
          3 3 0 pages (omega arith) step tt in
      let there =
        loop.2 (p / 512) (record { buffer = 0; word = p / 512 * 512 + p % 512 }) (omega arith)
          (omega arith) (p % 512, omega arith, refl) in
      let same : p / 512 * 512 + p % 512 ≡ p = omega arith in
      subst (λ (w : ℕ). after 0 w ≡ goal true 0 w) same there
    where
      after : Pages fl
      after =
          for_up 3 0
            (λ block.
              noc.read_words src (offset + group_base + block * 512) 512
                (record { buffer = 0; word = block * 512 }))
            pages

      step :
          (block : ℕ) (m : Pages fl)
          → block < 3
          → Unit {0}
          → Unit {0}
            × Improves fl (goal true) m (
                noc.read_words src
                  (offset + group_base + block * 512)
                  512
                  (record { buffer = 0; word = block * 512 })
                  m)
            × ((q : Pointer)
                → (k : ℕ) × (k < 512) × (q ≡ record { buffer = 0; word = block * 512 + k })
                → IsRight fl
                    (goal true)
                    (noc.read_words src
                      (offset + group_base + block * 512)
                      512
                      (record { buffer = 0; word = block * 512 })
                      m)
                    q)
      step block m hb u =
          let read =
            read_words-Improves fl noc (goal true) src (offset + group_base + block * 512) 512
              (record { buffer = 0; word = block * 512 }) m
              (λ k hk.
                let run : offset + group_base + block * 512 + k
                    ≡ workspace_physical_index true (
                        offset
                        + (group_base
                            + ((block * 512 + k) % 512 / 16 * 3 + (block * 512 + k) / 512) * 16)
                        + (block * 512 + k) % 16) =
                  rw (physical-eq _) (omega arith) in
                ap src run ∙ sym (goal-word true (block * 512 + k) (omega arith))) in
          (
            tt,
            read.0,
            λ q c.
                subst
                  (IsRight fl (goal true) (
                    noc.read_words src (offset + group_base + block * 512) 512
                      (record { buffer = 0; word = block * 512 }) m))
                  (sym c.2) (read.1 c.0 c.1),
          )

  -- The transfer of a row of a block.
  abbrev body : ℕ → ℕ → Pages fl → Pages fl
  body block row =
      noc.read_words src (u32 (offset + group_base + (row * 3 + block) * 16)) 16
        (output_block block row)

  abbrev RowRight : ℕ → ℕ → Pages fl → Pages fl → Type 0
  RowRight block row m after =
      Improves fl (goal false) m after
      × ((k : ℕ) → k < 16 → IsRight fl (goal false) after (at (output_block block row) k))

  row-Settles :
      (block row : ℕ) (m : Pages fl)
      → block < 3
      → row < 32
      → RowRight block row m (body block row m)
  unfolding workspace_physical_index
  row-Settles block row m hb hr =
      let at_word : u32 (offset + group_base + (row * 3 + block) * 16)
          ≡ offset + group_base + (row * 3 + block) * 16 =
        omega arith in
      let word : ℕ = offset + group_base + (row * 3 + block) * 16 in
      subst (λ (n : ℕ). RowRight block row m (noc.read_words src n 16 (output_block block row) m))
        (sym at_word)
        (read_words-Improves fl noc (goal false) src word 16 (output_block block row) m (λ k hk.
          sym (goal-word false (block * 512 + row * 16 + k) (omega arith) ∙ ap src (omega arith))))

  pub read_row_major_output_group-holds :
      (pages : Pages fl)
      → HoldsOutput fl src source_end short offset output_length group_base reach length_reach false
          (read_row_major_output_group fl noc src (offset + group_base) pages)
  unfolding read_row_major_output_group workspace_physical_index
  read_row_major_output_group-holds pages p hp =
      let loop =
        tiles-Settles fl (goal false) (λ (m : Pages fl). m) (λ i m. Unit {0}) output_block 3 32
          (λ block. for_up 32 0 (body block)) pages
          (λ block m hb u.
            rows-Settles fl (goal false) (λ (m : Pages fl). m) (λ i m. Unit {0})
              (output_block block) 32 (body block) m
              (λ row n hr v. let w = row-Settles block row n hb hr in (tt, w.0, w.1)) tt)
          tt in
      subst (IsRight fl (goal false) (for_up 3 0 (λ block. for_up 32 0 (body block)) pages))
        (output_block-word p hp)
        (loop.2 (p / 512) (p % 512 / 16) (p % 16) (omega arith) (omega arith) (omega arith))
