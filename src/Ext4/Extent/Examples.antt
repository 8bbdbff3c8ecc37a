-- ===== src/Ext4/Extent/Examples.antt =====
-- The search for a block among two extents with a hole between them.
use fzkernel.Base.{◌≡◌, refl, arith, List, [], ◌∷◌, some}
use fzkernel.Base.Outcome.{done}
use fzkernel.Ext4.Extent.{
  Extent, get_exact_blk_mapping, binary_search_by, search_loop, check, physical, compare_extent,
  contains, start_blk,
}
use fzkernel.Ext4.Extent.Mapping.{IsSorted, scan, get_exact_blk_mapping-scan}

abbrev two : List Extent
two =
    record { block = 0; len = 10; start_hi = 0; start_lo = 100 }
    ∷ record { block = 20; len = 5; start_hi = 1; start_lo = 7 }
    ∷ []

inside : get_exact_blk_mapping two 22 ≡ done (some 4294967305)
unfolding get_exact_blk_mapping binary_search_by search_loop check physical compare_extent contains
    start_blk
inside = refl

-- The first extent holds the blocks 0 to 9, but the block 10, in the hole, is found in it.
hole : get_exact_blk_mapping two 10 ≡ done (some 110)
unfolding get_exact_blk_mapping binary_search_by search_loop check physical compare_extent contains
    start_blk
hole = refl

two-IsSorted : IsSorted two
unfolding IsSorted
two-IsSorted = ((omega arith, tt), (tt, tt))

get_exact_blk_mapping-scan_example : get_exact_blk_mapping two 22 ≡ done (scan 22 two)
get_exact_blk_mapping-scan_example = get_exact_blk_mapping-scan two 22 two-IsSorted (omega arith)
