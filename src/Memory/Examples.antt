-- ===== src/Memory/Examples.antt =====
-- The theorems on l1_accounting.hpp at concrete sizes.
use tt_wavelet.Common.{◌≤◌, ◌<◌, ◌≡◌, ◌↔◌, refl, arith, ok}
use tt_wavelet.Memory.{L1Accounting, parts_of, make_l1_accounting}
use tt_wavelet.Memory.Balance.{needed_bytes, make_l1_accounting_iff}

make_l1_accounting_iff_example :
    ((a : L1Accounting) × (make_l1_accounting 1536 1500 0 8 0 1000000 ≡ ok a))
    ↔ ((1500 ≤ 1536) × (0 < 8) × (needed_bytes 1536 0 8 0 ≤ 1000000))
make_l1_accounting_iff_example =
    make_l1_accounting_iff 1536 1500 0 8 0 1000000 (omega arith) (omega arith) (omega arith)
      (omega arith) (omega arith)

accounting-given :
    make_l1_accounting 1536 1500 0 8 0 1000000 ≡ ok (parts_of 1536 1500 0 8 0 1000000)
unfolding make_l1_accounting
accounting-given = refl
