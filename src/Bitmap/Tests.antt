-- ===== src/Bitmap/Tests.antt =====
-- Tests of the bitmap, on one of two words whose first word is full.
use multikernel.Common.{sum_below, ◌-◌, arith, ◌≡◌, ◌==◌, if◌then◌else◌}
use multikernel.Bitmap.Count.{bitmap_nset-counts}
use multikernel.Bitmap.{bitmap_nset, bitmap_nclear, Bitmap}
use multikernel.Bitmap.Laws.{bit, IsWords}

abbrev half_full : Bitmap
half_full i = if i == 0 then 0xffffffff else 1

half_full-IsWords : IsWords half_full
half_full-IsWords i = ground arith

bitmap_nset-counts_example :
    (bitmap_nset half_full 8 ≡ sum_below (bit half_full) 64)
    × (bitmap_nclear half_full 8 ≡ sum_below (λ i. 1 - bit half_full i) 64)
bitmap_nset-counts_example = bitmap_nset-counts half_full 2 half_full-IsWords (omega arith)
