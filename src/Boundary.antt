-- ===== src/Boundary.antt =====
-- The signal extension modes and their names:
-- tt-wavelet/tt_wavelet/include/common/boundary.hpp and boundary_parse.hpp.
pub mod Names
mod Examples
use text.Mathlib.Text.{◌==◌ as str_eq}
use Prim.Native.String.{String}
use tt_wavelet.Common.{Bool, true, false, ◌||◌, Option, none, some, if◌then◌else◌}

pub data BoundaryMode : Type 0 where
  zero_pad constant symmetric periodic antisymmetric smooth antireflect reflect : BoundaryMode

pub is_supported_lwt_boundary_mode : BoundaryMode → Bool
is_supported_lwt_boundary_mode zero_pad = true
is_supported_lwt_boundary_mode constant = true
is_supported_lwt_boundary_mode symmetric = true
is_supported_lwt_boundary_mode periodic = true
is_supported_lwt_boundary_mode antisymmetric = true
is_supported_lwt_boundary_mode smooth = true
is_supported_lwt_boundary_mode antireflect = true
is_supported_lwt_boundary_mode reflect = true

-- `mode == kReflect || mode == kAntireflect`.
pub boundary_mode_requires_multiple_samples : BoundaryMode → Bool
boundary_mode_requires_multiple_samples reflect = true
boundary_mode_requires_multiple_samples antireflect = true
boundary_mode_requires_multiple_samples _ = false

unfoldable pub boundary_mode_name : BoundaryMode → String
boundary_mode_name zero_pad = "zero"
boundary_mode_name constant = "constant"
boundary_mode_name symmetric = "symmetric"
boundary_mode_name periodic = "periodic"
boundary_mode_name antisymmetric = "antisymmetric"
boundary_mode_name smooth = "smooth"
boundary_mode_name antireflect = "antireflect"
boundary_mode_name reflect = "reflect"

-- `some` for a return of true with `mode` assigned, `none` for a return of false.
unfoldable pub parse_boundary_mode : String → Option BoundaryMode
parse_boundary_mode name =
    if str_eq name "zero"
    then some zero_pad
    else if str_eq name "constant"
    then some constant
    else if str_eq name "symmetric"
    then some symmetric
    else if str_eq name "periodic"
    then some periodic
    else if str_eq name "antisymmetric"
    then some antisymmetric
    else if str_eq name "smooth"
    then some smooth
    else if str_eq name "antireflect"
    then some antireflect
    else if str_eq name "reflect"
    then some reflect
    else none
