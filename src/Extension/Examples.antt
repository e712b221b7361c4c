-- ===== src/Extension/Examples.antt =====
-- The theorems on signal_extension.hpp at concrete accesses, and tests of the helpers.
use tt_wavelet.Common.{ℕ, ◌+◌, ◌*◌, ◌<◌, ◌≡◌, refl, arith, All}
use tt_wavelet.Common.Int.{ℤ, pos, negsuc, neg_ℤ, mirror, ◌+ℤ◌, ◌-ℤ◌, ◌*ℤ◌}
use tt_wavelet.Boundary.{BoundaryMode}
use tt_wavelet.Extension.{
  decompose_extension_period, make_symmetric_index_i32, make_extended_index, extend_outside,
  extend_symmetric, make_antireflect_index_i32, make_smooth_index_i32,
}
use tt_wavelet.Extension.Symmetry.{
  flip_sign, make_extended_index-periodic_shift, make_extended_index-symmetric,
  make_extended_index-antisymmetric, make_extended_index-reflect,
}
use tt_wavelet.Extension.Evaluate.{
  Floats, evaluate_extended_index, evaluate_extended_index_in, evaluate_antireflect_index_i32,
  evaluate_smooth_index_i32, visit_extended_source_indices, visit_extended_source_indices_in,
  visit_antireflect_source_indices_i32, visit_smooth_source_indices_i32,
}
use tt_wavelet.Extension.Evaluate.Bounds.{visit-make_extended_index-lt, specialised_access}
use tt_wavelet.Extension.Evaluate.Device.{
  make_symmetric_index_i32-eq, antireflect_i32-eq, smooth_i32-eq,
}

-- Exact arithmetic in place of `float`.
abbrev exact : Floats
exact = record {
  Float = ℤ;
  zero_f = pos 0;
  two_f = pos 2;
  negate = neg_ℤ;
  add_f = ◌+ℤ◌;
  sub_f = ◌-ℤ◌;
  mul_f = ◌*ℤ◌;
  from_unsigned = pos;
  from_signed = λ z. z;
}

abbrev squares : ℕ → ℤ
squares i = pos (i * i)

symmetric_test : (make_extended_index BoundaryMode.symmetric (negsuc 2) 2).source_index ≡ 1
unfolding make_extended_index extend_outside extend_symmetric decompose_extension_period ◌+ℤ◌ ◌-ℤ◌
symmetric_test = refl

make_extended_index-periodic_shift_example :
    make_extended_index BoundaryMode.periodic (negsuc 2 +ℤ pos 5) 5
    ≡ make_extended_index BoundaryMode.periodic (negsuc 2) 5
unfolding ◌+ℤ◌
make_extended_index-periodic_shift_example =
    make_extended_index-periodic_shift (negsuc 2) 5 (omega arith) (omega arith) (omega arith)
      (omega arith)

make_extended_index-symmetric_example :
    (make_extended_index BoundaryMode.symmetric (mirror (negsuc 2)) 5
      ≡ make_extended_index BoundaryMode.symmetric (negsuc 2) 5)
    × (make_extended_index BoundaryMode.symmetric (negsuc 2 +ℤ pos (2 * 5)) 5
        ≡ make_extended_index BoundaryMode.symmetric (negsuc 2) 5)
unfolding ◌+ℤ◌
make_extended_index-symmetric_example =
    make_extended_index-symmetric (negsuc 2) 5 (omega arith) (omega arith) (omega arith)
      (omega arith) (omega arith)

make_extended_index-antisymmetric_example :
    (make_extended_index BoundaryMode.antisymmetric (mirror (negsuc 2)) 5
      ≡ flip_sign (make_extended_index BoundaryMode.antisymmetric (negsuc 2) 5))
    × (make_extended_index BoundaryMode.antisymmetric (mirror (negsuc 2) +ℤ pos (2 * 5)) 5
        ≡ flip_sign (make_extended_index BoundaryMode.antisymmetric (negsuc 2) 5))
    × (make_extended_index BoundaryMode.antisymmetric (negsuc 2 +ℤ pos (2 * 5)) 5
        ≡ make_extended_index BoundaryMode.antisymmetric (negsuc 2) 5)
unfolding ◌+ℤ◌
make_extended_index-antisymmetric_example =
    make_extended_index-antisymmetric (negsuc 2) 5 (omega arith) (omega arith) (omega arith)
      (omega arith) (omega arith) (omega arith)

make_extended_index-reflect_example :
    (make_extended_index BoundaryMode.reflect (neg_ℤ (negsuc 2)) (4 + 1)
      ≡ make_extended_index BoundaryMode.reflect (negsuc 2) (4 + 1))
    × (make_extended_index BoundaryMode.reflect (negsuc 2 +ℤ pos (2 * 4)) (4 + 1)
        ≡ make_extended_index BoundaryMode.reflect (negsuc 2) (4 + 1))
unfolding ◌+ℤ◌
make_extended_index-reflect_example =
    make_extended_index-reflect (negsuc 2) 4 (omega arith) (omega arith) (omega arith) (omega arith)
      (omega arith)

visit-make_extended_index-lt_example :
    All
      (λ i. i < 4)
      (visit_extended_source_indices (make_extended_index BoundaryMode.antireflect (pos 9) 4) 4)
visit-make_extended_index-lt_example =
    visit-make_extended_index-lt BoundaryMode.antireflect (pos 9) 4 (omega arith) (omega arith)

specialised_access_example :
    let e = make_extended_index BoundaryMode.smooth (negsuc 3) 4 in
    (visit_extended_source_indices_in BoundaryMode.smooth e 4 ≡ visit_extended_source_indices e 4)
    × (evaluate_extended_index_in exact BoundaryMode.smooth e 4 squares
        ≡ evaluate_extended_index exact e 4 squares)
specialised_access_example =
    specialised_access exact squares BoundaryMode.smooth (negsuc 3) 4 (omega arith) (omega arith)
      (omega arith)

make_symmetric_index_i32-eq_example :
    make_symmetric_index_i32 (negsuc 11) 5
    ≡ (make_extended_index BoundaryMode.symmetric (negsuc 11) 5).source_index
make_symmetric_index_i32-eq_example =
    make_symmetric_index_i32-eq (negsuc 11) 5 (omega arith) (omega arith) (omega arith)

antireflect_i32-eq_example :
    let device = make_antireflect_index_i32 (negsuc 8) 4 in
    let canonical = make_extended_index BoundaryMode.antireflect (negsuc 8) 4 in
    (evaluate_antireflect_index_i32 exact device 4 squares
      ≡ evaluate_extended_index exact canonical 4 squares)
    × (visit_antireflect_source_indices_i32 device 4 ≡ visit_extended_source_indices canonical 4)
antireflect_i32-eq_example =
    antireflect_i32-eq exact squares (negsuc 8) 4 (omega arith) (omega arith) (omega arith)

smooth_i32-eq_example :
    let device = make_smooth_index_i32 (pos 8) 4 in
    let canonical = make_extended_index BoundaryMode.smooth (pos 8) 4 in
    (evaluate_smooth_index_i32 exact device squares
      ≡ evaluate_extended_index exact canonical 4 squares)
    × (visit_smooth_source_indices_i32 device ≡ visit_extended_source_indices canonical 4)
smooth_i32-eq_example =
    smooth_i32-eq exact squares (pos 8) 4 (omega arith) (omega arith) (omega arith)
