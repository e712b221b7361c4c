-- ===== src/Kernel/Emit/Groups.antt =====
-- What the compute kernel receives for a route: the tiles of each of its groups, in order.
use tt_wavelet.Common.{
  ℕ, zero, suc, ◌+◌, ◌*◌, ◌^◌, ◌<◌, ◌≡◌, refl, ap, arith, List, [], ◌∷◌, length,
}
use tt_wavelet.Common.Words.{u32}
use tt_wavelet.Extension.Evaluate.{Floats}
use tt_wavelet.Kernel.Packing.{Pages}
use tt_wavelet.Kernel.Packing.Block.{max_end}
use tt_wavelet.Kernel.Packing.Rows.{source_tiles, output_tiles}
use tt_wavelet.Kernel.Emit.{
  LocalReads, Layout, SourceStream, predict_update_groups, emit_predict_update_tiles, scale_groups,
  emit_scale_tiles,
}
use tt_wavelet.Kernel.Emit.SourceGroup.{IsMirror, pack_source-holds}
use tt_wavelet.Kernel.Emit.OutputGroup.{pack_output-holds}

module _ (fl : Floats) (layout : Layout) where
  open layout use {tile_native}

  -- The tiles that a group of a route is to have: the source with its overlap, and the output.
  abbrev pub SourceOf : SourceStream fl → ℕ → ℕ → Pages fl → Type 0
  SourceOf s pad group_base pages =
      (q p : ℕ)
      → q < 2
      → p < 1024
      → pages q p ≡ source_tiles fl tile_native s.words s.end s.offset pad group_base q p

  abbrev pub OutputOf : SourceStream fl → ℕ → ℕ → Pages fl → Type 0
  OutputOf s output_length group_base pages =
      (p : ℕ)
      → p < 1536
      → pages 0 p ≡ output_tiles fl tile_native s.words s.end s.offset output_length group_base 0 p

  -- The pages of the groups from one on are right.
  abbrev pub PairsRight :
      SourceStream fl → SourceStream fl → ℕ → ℕ → ℕ → List (Pages fl × Pages fl) → Type 0
  PairsRight source base pad output_length group [] = Unit
  PairsRight source base pad output_length group ((s, b) ∷ rest) =
      SourceOf source pad (group * 1536) s
      × OutputOf base output_length (group * 1536) b
      × PairsRight source base pad output_length (group + 1) rest

  abbrev pub OutputsRight : SourceStream fl → ℕ → ℕ → List (Pages fl) → Type 0
  OutputsRight source output_length group [] = Unit
  OutputsRight source output_length group (s ∷ rest) =
      OutputOf source output_length (group * 1536) s
      × OutputsRight source output_length (group + 1) rest

-- A stream within the reach of 32-bit indices for a number of groups, with a right mirror.
abbrev pub Reaches : (fl : Floats) → SourceStream fl → ℕ → Type 0
Reaches fl s groups =
    (s.end < max_end) × (s.offset + groups * 1536 + 2048 < max_end) × IsMirror fl s

module _ (fl : Floats) (noc : LocalReads fl) (layout : Layout) where
  predict_update_groups-right :
      (source base : SourceStream fl) (pad output_length : ℕ) (reserved : ℕ → Pages fl × Pages fl)
      (left group end : ℕ)
      → group + left ≡ end
      → Reaches fl source end
      → Reaches fl base end
      → pad < 2 ^ 32
      → base.offset + output_length < max_end
      → let pages =
          predict_update_groups fl noc layout source base pad output_length reserved left group in
        (length pages ≡ left) × PairsRight fl layout source base pad output_length group pages
  unfolding predict_update_groups
  predict_update_groups-right source base pad output_length reserved zero group end e rs rb hp ho =
      (refl, tt)
  predict_update_groups-right source base pad output_length reserved (suc left) group end e rs rb hp
        ho =
      let at : u32 (group * 1536) ≡ group * 1536 = omega arith in
      let rest =
        predict_update_groups-right source base pad output_length reserved left (group + 1) end
          (omega arith) rs rb hp ho in
      rw at (
        ap suc rest.0,
        (
          pack_source-holds fl noc layout source rs.0 rs.2 (group * 1536) (omega arith) pad hp
              (reserved group).0,
          pack_output-holds fl noc layout base rb.0 rb.2 (group * 1536) (omega arith) output_length
              ho (reserved group).1,
          rest.1,
        ),
      )

  scale_groups-right :
      (source : SourceStream fl) (output_length : ℕ) (reserved : ℕ → Pages fl) (left group end : ℕ)
      → group + left ≡ end
      → Reaches fl source end
      → source.offset + output_length < max_end
      → let pages = scale_groups fl noc layout source output_length reserved left group in
        (length pages ≡ left) × OutputsRight fl layout source output_length group pages
  unfolding scale_groups
  scale_groups-right source output_length reserved zero group end e rs ho = (refl, tt)
  scale_groups-right source output_length reserved (suc left) group end e rs ho =
      let at : u32 (group * 1536) ≡ group * 1536 = omega arith in
      let rest =
        scale_groups-right source output_length reserved left (group + 1) end (omega arith) rs ho in
      rw at (
        ap suc rest.0,
        (
          pack_output-holds fl noc layout source rs.0 rs.2 (group * 1536) (omega arith)
              output_length ho (reserved group),
          rest.1,
        ),
      )

  -- A predict or update route hands over as many pages as it has groups, and those of each group
  -- hold the same samples in every layout: the source with its left padding, each row of four
  -- blocks overlapping the next by one, and the base up to the output length, zero outside the
  -- streams. It does not matter whether a group is read whole, row by row, from a tile-native copy
  -- or lane by lane, nor what the pages held. The streams and the groups are within the reach of
  -- 32-bit indices, and a stream with the flag for a copy has a right one.
  pub emit_predict_update_tiles-right :
      (source base : SourceStream fl) (pad output_length group_count : ℕ)
      (reserved : ℕ → Pages fl × Pages fl)
      → Reaches fl source group_count
      → Reaches fl base group_count
      → pad < 2 ^ 32
      → base.offset + output_length < max_end
      → let pages =
          emit_predict_update_tiles fl noc layout source base pad output_length group_count
            reserved in
        (length pages ≡ group_count) × PairsRight fl layout source base pad output_length 0 pages
  unfolding emit_predict_update_tiles
  emit_predict_update_tiles-right source base pad output_length group_count reserved rs rb hp ho =
      predict_update_groups-right source base pad output_length reserved group_count 0 group_count
        (omega arith) rs rb hp ho

  -- A scale route hands over as many pages as it has groups, and those of each group hold the
  -- samples of the stream up to the output length, zero outside, in every layout and by every way
  -- of reading, under the same conditions.
  pub emit_scale_tiles-right :
      (source : SourceStream fl) (output_length group_count : ℕ) (reserved : ℕ → Pages fl)
      → Reaches fl source group_count
      → source.offset + output_length < max_end
      → let pages = emit_scale_tiles fl noc layout source output_length group_count reserved in
        (length pages ≡ group_count) × OutputsRight fl layout source output_length 0 pages
  unfolding emit_scale_tiles
  emit_scale_tiles-right source output_length group_count reserved rs ho =
      scale_groups-right source output_length reserved group_count 0 group_count (omega arith) rs ho
