-- ===== src/Boundary/Names.antt =====
-- Parsing and printing the mode names: boundary_parse.hpp.
use Prim.Native.String.{String}
use text.Mathlib.TextEquality.{eq_iff}
use tt_wavelet.Common.{◌≡◌, refl, ◌↔◌, some, arith}
use tt_wavelet.Boundary.{BoundaryMode, boundary_mode_name, parse_boundary_mode}

parse-name : (m : BoundaryMode) → parse_boundary_mode (boundary_mode_name m) ≡ some m
unfolding parse_boundary_mode boundary_mode_name
parse-name BoundaryMode.zero_pad = refl
parse-name _ = refl

name-parse :
    (s : String) (m : BoundaryMode) → parse_boundary_mode s ≡ some m → s ≡ boundary_mode_name m
unfolding parse_boundary_mode boundary_mode_name
name-parse s m h = ground (
  arith,
  eq_iff s "zero",
  eq_iff s "constant",
  eq_iff s "symmetric",
  eq_iff s "periodic",
  eq_iff s "antisymmetric",
  eq_iff s "smooth",
  eq_iff s "antireflect",
  eq_iff s "reflect",
)

-- A text parses to a mode exactly when it is that mode's name.
pub parse_boundary_mode-name_iff :
    (s : String) (m : BoundaryMode) → (parse_boundary_mode s ≡ some m) ↔ (s ≡ boundary_mode_name m)
parse_boundary_mode-name_iff s m = (name-parse s m, λ e. rw e (parse-name m))
