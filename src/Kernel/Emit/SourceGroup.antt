-- ===== src/Kernel/Emit/SourceGroup.antt =====
-- The source tiles of a group, whichever of the reads made them.
use native.Mathlib.Decide.{dec_lt}
use tt_wavelet.Common.{
  ℕ, ◌+◌, ◌-◌, ◌%◌, ◌^◌, ◌<◌, ◌≤◌, ◌≡◌, refl, sym, subst, ◌∙◌, arith, Bool, true, false, ◌&&◌, leb,
  ◌==◌, lt→ltb, le→ltb, if◌then◌else◌,
}
use tt_wavelet.Common.Int.{ℤ, pos, negsuc}
use tt_wavelet.Common.Words.{u32, u64, sub64}
use tt_wavelet.Extension.Evaluate.{Floats}
use tt_wavelet.Kernel.Workspace.{workspace_physical_index}
use tt_wavelet.Kernel.Packing.{Pages, Words}
use tt_wavelet.Kernel.Packing.Block.{value_at, max_end}
use tt_wavelet.Kernel.Packing.Source.{
  HoldsSource, IsDense as SourceIsDense, fill_source_narrow_tiles-checked,
  fill_source_narrow_tiles-dense, fill_source_row_major-holds,
}
use tt_wavelet.Kernel.Emit.{
  LocalReads, Layout, SourceStream, native_source, row_major_source, read_aligned_source_group,
  read_row_major_source_group, pack_source,
}
use tt_wavelet.Kernel.Emit.Aligned.{read_aligned_source_group-holds}
use tt_wavelet.Kernel.Emit.RowMajor.{read_row_major_source_group-holds}

-- Both branches of a test.
pub if-holds {ℓ κ} :
    {A : Type ℓ} (P : A → Type κ) (b : Bool) {x y : A}
    → (b ≡ true → P x)
    → (b ≡ false → P y)
    → P (if b then x else y)
if-holds P true t e = t refl
if-holds P false t e = e refl

-- A tile-native copy of a row-major stream.
abbrev pub IsMirror : (fl : Floats) → SourceStream fl → Type 0
IsMirror fl s =
    s.tile_mirror ≡ true
    → (n : ℕ) → n < s.end
    → s.mirror (workspace_physical_index true n) ≡ s.words n

pub value_mirror :
    (fl : Floats) (s : SourceStream fl)
    → IsMirror fl s
    → s.tile_mirror ≡ true
    → (stop : ℕ) (z : ℤ) → stop ≤ s.end
    → value_at fl true s.mirror stop z ≡ value_at fl false s.words stop z
unfolding workspace_physical_index
value_mirror fl s m t stop (pos a) h = elim (dec_lt a stop) [
  | yes l ↦ rw (lt→ltb a stop l) (m t a (omega arith))
  | no n ↦ rw (le→ltb a stop (omega arith)) refl
]
value_mirror fl s m t stop (negsuc a) h = refl

module _ (fl : Floats) (noc : LocalReads fl) (layout : Layout) (s : SourceStream fl)
    (short : s.end < max_end) (mirror : IsMirror fl s) (group_base : ℕ)
    (reach : s.offset + group_base + 2048 < max_end) where
  open layout use {tile_native, row_major_noc_staging, hybrid_tile_mirror, alignment_elements}

  module _ (pad : ℕ) (pad_word : pad < 2 ^ 32) where
    abbrev HeldSource : Bool → Pages fl → Type 0
    HeldSource = HoldsSource fl s.words s.end short s.offset pad group_base reach

    abbrev SourceDense : Type 0
    SourceDense = SourceIsDense fl s.words s.end short s.offset pad group_base reach

    abbrev start : ℕ
    start = s.offset + group_base - pad

    abbrev candidate : ℕ
    candidate = sub64 (u64 (s.offset + group_base)) pad

    abbrev dense : Bool
    dense = leb pad group_base && leb (u64 (candidate + 1552)) s.end

    abbrev begin : ℕ
    begin = if leb pad group_base then u32 candidate else 0

    dense-IsDense : dense ≡ true → SourceDense × (begin ≡ start)
    dense-IsDense e = (ground arith, ground arith)

    -- The words of a dense group that starts at `begin`.
    module _ (d : dense ≡ true) where
      aligned-holds :
          (words : Words fl) (pages : Pages fl)
          → begin % 1536 ≡ 0
          → HoldsSource fl words s.end short s.offset pad group_base reach true
              (read_aligned_source_group fl noc words begin pages)
      aligned-holds words pages whole =
          let at = (dense-IsDense d).1 in
          subst
            (λ (b : ℕ).
              HoldsSource fl words s.end short s.offset pad group_base reach true
                (read_aligned_source_group fl noc words b pages))
            (sym at)
            (read_aligned_source_group-holds fl noc words s.end short s.offset pad group_base reach
              (dense-IsDense d).0 pages (subst (λ (b : ℕ). b % 1536 ≡ 0) at whole))

      mirrored-holds :
          (pages : Pages fl)
          → s.tile_mirror ≡ true
          → begin % 1536 ≡ 0
          → HeldSource false (read_aligned_source_group fl noc s.mirror begin pages)
      mirrored-holds pages copied whole q p hq hp =
          aligned-holds s.mirror pages whole q p hq hp
          ∙ value_mirror fl s mirror copied s.end _ (omega arith)

      staged-holds :
          (pages : Pages fl)
          → HeldSource false (read_row_major_source_group fl noc s.words begin pages)
      staged-holds pages =
          subst (λ (b : ℕ). HeldSource false (read_row_major_source_group fl noc s.words b pages))
            (sym (dense-IsDense d).1)
            (read_row_major_source_group-holds fl noc s.words s.end short s.offset pad group_base
              reach (dense-IsDense d).0 pages)

    native_source-holds :
        (pages : Pages fl)
        → HeldSource true (native_source fl noc layout s pad group_base dense begin pages)
    native_source-holds pages =
        if-holds (HeldSource true) (dense && (begin % 1536 == 0))
          (λ e. aligned-holds (ground arith) s.words pages (ground arith))
          (λ e.
            if-holds (HeldSource true) dense
              (λ d.
                fill_source_narrow_tiles-dense fl s.words s.end short s.offset pad group_base reach
                  (dense-IsDense d).0 pages)
              (λ n.
                fill_source_narrow_tiles-checked fl s.words s.end short s.offset pad group_base
                  reach pages))

    row_major_source-holds :
        (pages : Pages fl)
        → HeldSource false (row_major_source fl noc layout s pad group_base dense begin pages)
    row_major_source-holds pages =
        if-holds (HeldSource false) dense
          (λ d.
            if-holds (HeldSource false) (hybrid_tile_mirror && s.tile_mirror && (begin % 1536 == 0))
              (λ e. mirrored-holds d pages (ground arith) (ground arith))
              (λ e.
                if-holds (HeldSource false)
                  (row_major_noc_staging && (begin % alignment_elements == 0))
                  (λ k. staged-holds d pages)
                  (λ k.
                    fill_source_row_major-holds fl s.words s.end short s.offset pad group_base reach
                      false pages (λ c. (dense-IsDense d).0))))
          (λ n.
            fill_source_row_major-holds fl s.words s.end short s.offset pad group_base reach true
              pages (λ c. cc))

    pub pack_source-holds :
        (pages : Pages fl)
        → HeldSource tile_native (pack_source fl noc layout s pad group_base pages)
    unfolding pack_source
    pack_source-holds pages =
        if-holds (HeldSource tile_native) tile_native
          (λ t.
            subst
              (λ (b : Bool).
                HeldSource b (native_source fl noc layout s pad group_base dense begin pages))
              (sym t) (native_source-holds pages))
          (λ f.
            subst
              (λ (b : Bool).
                HeldSource b (row_major_source fl noc layout s pad group_base dense begin pages))
              (sym f) (row_major_source-holds pages))
