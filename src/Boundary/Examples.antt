-- ===== src/Boundary/Examples.antt =====
-- The theorems on boundary_parse.hpp at a concrete name.
use tt_wavelet.Common.{◌≡◌, ◌↔◌, some}
use tt_wavelet.Boundary.{BoundaryMode, boundary_mode_name, parse_boundary_mode}
use tt_wavelet.Boundary.Names.{parse_boundary_mode-name_iff}

parse_boundary_mode-name_iff_example :
    (parse_boundary_mode "smooth" ≡ some BoundaryMode.smooth)
    ↔ ("smooth" ≡ boundary_mode_name BoundaryMode.smooth)
parse_boundary_mode-name_iff_example = parse_boundary_mode-name_iff "smooth" BoundaryMode.smooth
