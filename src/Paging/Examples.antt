-- ===== src/Paging/Examples.antt =====
-- Addresses, entries and a page that is mapped in empty tables.
use mathlib.Core.Bool.{false≢true}
use fzkernel.Base.{ℕ, refl, ◌⊎◌, arith, [], ◌∷◌, ◌==◌, if◌then◌else◌}
use fzkernel.Mem.Address.{virt_new}
use fzkernel.Mem.Address.Canonical.{Extends, virt_new-Extends}
use fzkernel.Paging.Entry.{used, huge_page, IsFlags, IsFrame, Stores, map_to_addr-Stores}
use fzkernel.Paging.Translate.{
  PageTableAddress, translate_address, Locates, translate_address-Locates,
}
use fzkernel.Paging.Mapper.{Tables, get_or_create_entry}
use fzkernel.Paging.Mapper.Levels.{IsLeveled, Distinct}
use fzkernel.Paging.Mapper.Enter.{IsParentFlags, Enters, IsStarved, get_or_create_entry-cases}

-- The base of the kernel's code: 0xFFFF_8C00_0000_0000 of its 48 low bits.
virt_new-Extends_example : Extends 153931627888640 (virt_new 153931627888640)
virt_new-Extends_example = virt_new-Extends 153931627888640 (omega arith)

translate_address-Locates_example :
    Locates 18446637053314138112 (translate_address 18446637053314138112)
translate_address-Locates_example = translate_address-Locates 18446637053314138112

abbrev write_flags : IsFlags 3
write_flags = record {
  low = 3;
  high = 0;
  low_small = omega arith;
  high_small = omega arith;
  parts = refl;
}

abbrev no_execute : IsFlags 9223372036854775809
no_execute = record {
  low = 1;
  high = 2048;
  low_small = omega arith;
  high_small = omega arith;
  parts = refl;
}

abbrev page_frame : IsFrame 8388608
page_frame = record { page = 2048; page_small = omega arith; parts = refl }

map_to_addr-Stores_example : Stores 77 8388608 3 9223372036854775809
map_to_addr-Stores_example =
    map_to_addr-Stores 77 8388608 3 9223372036854775809 page_frame write_flags no_execute

abbrev root : ℕ
root = 4096

abbrev level_of : ℕ → ℕ
level_of table = if table == 4096 then 4 else 0

abbrev blank : Tables
blank = record { entries = λ t i. 0; supply = 20480 ∷ 24576 ∷ 28672 ∷ [] }

abbrev place : PageTableAddress
place = record { pml4_offset = 1; pdpte_offset = 2; pde_offset = 3; pte_offset = 4 }

blank-IsLeveled : IsLeveled level_of blank
unfolding used Distinct
blank-IsLeveled = record {
  linked = λ t i n l u. absurd (false≢true u);
  fresh = (
    (refl, record { page = 5; page_small = omega arith; parts = refl }),
    (
      (refl, record { page = 6; page_small = omega arith; parts = refl }),
      ((refl, record { page = 7; page_small = omega arith; parts = refl }), tt),
    ),
  );
  distinct = (
    (λ e. absurd (omega (arith, e)), (λ e. absurd (omega (arith, e)), tt)),
    ((λ e. absurd (omega (arith, e)), tt), (tt, tt)),
  );
}

parent : IsParentFlags 3
unfolding huge_page
parent = record { words = write_flags; some_set = omega arith; not_huge = refl }

get_or_create_entry-cases_example :
    Enters level_of 2 root 1 3 blank (get_or_create_entry blank root 1 3)
    ⊎ IsStarved root 1 blank (get_or_create_entry blank root 1 3)
get_or_create_entry-cases_example = get_or_create_entry-cases blank-IsLeveled 2 root 1 3 refl parent
