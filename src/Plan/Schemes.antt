-- ===== src/Plan/Schemes.antt =====
-- A scheme of the repository, tt-wavelet/tt_wavelet/include/schemes/testing/synthetic_k17.hpp, and its
-- plan for an input of 64 samples: the concrete input of the examples.
use tt_wavelet.Common.{ℕ, ◌≡◌, refl, List, [], ◌∷◌, arith, ok}
use tt_wavelet.Common.Int.{pos, negsuc, ◌+ℤ◌, ◌-ℤ◌}
use tt_wavelet.Boundary.{BoundaryMode}
use tt_wavelet.Signal.{
  SignalBuffer, PadSplit1DLayout, make_pad_split_1d_layout, make_split_signal, ceil_div,
}
use tt_wavelet.Plan.{
  StepType, Scheme, StorageSlot, RouteOutputStorage, RouteOutputRef, LiftingStepRoute,
  LiftingForwardPlan, workspace_output, route_terminal_scales_to_final_dram, append_forward_routes,
  is_scale_step, append_forward_route, compute_step_geometry, make_forward_lifting_plan,
}
use tt_wavelet.Plan.Forward.{IsScheme, Planned, make_forward_lifting_plan-Planned}

-- 0x3c800000, seventeen times.
abbrev coefficients : List ℕ
coefficients =
    1015021568 ∷ 1015021568 ∷ 1015021568 ∷ 1015021568 ∷ 1015021568 ∷ 1015021568 ∷ 1015021568
    ∷ 1015021568 ∷ 1015021568 ∷ 1015021568 ∷ 1015021568 ∷ 1015021568 ∷ 1015021568 ∷ 1015021568
    ∷ 1015021568 ∷ 1015021568 ∷ 1015021568 ∷ []

abbrev pub synthetic_k17 : Scheme
synthetic_k17 = record {
  tap_size = 34;
  delay_even = pos 8;
  delay_odd = pos 9;
  steps =
      record { type = StepType.predict; shift = negsuc 7; coeff_bits = coefficients }
      ∷ record { type = StepType.scale_even; shift = pos 0; coeff_bits = 1065353216 ∷ [] }
      ∷ record { type = StepType.scale_odd; shift = pos 0; coeff_bits = 1065353216 ∷ [] }
      ∷ [];
}

pub synthetic_k17-IsScheme : IsScheme synthetic_k17
synthetic_k17-IsScheme = record {
  tap_pos = omega arith;
  steps_static = ((omega arith, omega arith), (refl, (refl, tt)));
}

abbrev pub short_input : SignalBuffer
short_input = record { dram_address = 4096; length = 64; stick_width = 32; element_size_bytes = 4 }

-- The plan that is made of it, written out: 130 padded samples, of which 65 even.
abbrev pub short_split : PadSplit1DLayout
short_split = record {
  input = short_input;
  pad_config = record { mode = BoundaryMode.symmetric; left = 33; right = 33 };
  output = record {
    even = record short_input { dram_address = 8192; length = 65 };
    odd = record short_input { dram_address = 16384; length = 65 };
  };
}

abbrev pub short_predict : LiftingStepRoute
short_predict = record {
  type = StepType.predict;
  source = record { slot = StorageSlot.slot_a };
  base = record { slot = StorageSlot.slot_b };
  output = workspace_output StorageSlot.scratch;
  source_length = 65;
  base_length = 65;
  source_offset = 0;
  base_offset = 7;
  source_left_pad = 0;
  output_length = 49;
}

abbrev pub short_scale : StepType → StorageSlot → RouteOutputRef → ℕ → LiftingStepRoute
short_scale type slot output length = record {
  type = type;
  source = record { slot = slot };
  base = record { slot = slot };
  output = output;
  source_length = length;
  base_length = length;
  source_offset = 0;
  base_offset = 0;
  source_left_pad = 0;
  output_length = length;
}

abbrev pub short_plan : LiftingForwardPlan
short_plan = record {
  preprocess_layout = short_split;
  routes =
      short_predict
      ∷ short_scale StepType.scale_even StorageSlot.slot_a
          (record { storage = RouteOutputStorage.final_even_dram; slot = StorageSlot.slot_b }) 65
      ∷ short_scale StepType.scale_odd StorageSlot.scratch
          (record { storage = RouteOutputStorage.final_odd_dram; slot = StorageSlot.slot_a }) 49
      ∷ [];
  final_even_length = 65;
  final_odd_length = 49;
  final_even_shift = pos 8;
  final_odd_shift = pos 16;
  output_length = 48;
}

pub short_plan-made :
    make_forward_lifting_plan synthetic_k17 short_input 8192 16384 BoundaryMode.symmetric
    ≡ ok short_plan
unfolding make_forward_lifting_plan route_terminal_scales_to_final_dram append_forward_routes
    is_scale_step append_forward_route make_pad_split_1d_layout make_split_signal ceil_div
    compute_step_geometry ◌+ℤ◌ ◌-ℤ◌
short_plan-made = refl

pub short_plan-Planned : Planned synthetic_k17 short_input short_plan
short_plan-Planned =
    make_forward_lifting_plan-Planned synthetic_k17 short_input 8192 16384 BoundaryMode.symmetric
      synthetic_k17-IsScheme (omega arith) short_plan short_plan-made
