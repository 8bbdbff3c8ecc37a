-- ===== src/Paging/Mapper.antt =====
-- The mapper of src/x86/paging/page_table/mapper.rs: the page table of four levels.
--
-- Physical memory is read through a fixed offset (`PhysicalMemoryMapping`), so a table is named
-- by its physical address. The frames that `alloc_page` gives are a supply: the list of those
-- that it still has, where an empty list is `NoAvailableFrame`.
pub mod Levels
pub mod Enter
pub mod Uses
pub mod Reaches
pub mod Walk
use fzkernel.Base.{ℕ, Bool, true, false, List, [], ◌∷◌, bit_or, ◌==◌, if◌then◌else◌}
use fzkernel.Paging.Entry.{used, frame, flags, huge_page, map_to_addr, set_flags}
use fzkernel.Paging.Translate.{PageTableAddress, translate_address}
use fzkernel.Base.Outcome.{Outcome, done, panic, ◌>>=◌}

pub record Tables : Type 0 where
  pub entries : ℕ → ℕ → ℕ
  pub supply : List ℕ

pub data MapperError : Type 0 where
  allocation_error huge_page_error already_mapped table_creation_error : MapperError

pub data Result {ℓ} (A : Type ℓ) : Type ℓ where
  ok : A → Result A
  err : MapperError → Result A

abbrev pub put : Tables → ℕ → ℕ → ℕ → Tables
put s table id entry = record s {
  entries = λ t i. if table == t then (if id == i then entry else s.entries t i) else s.entries t i;
}

-- `PageTable::default()` at an address
abbrev pub clear : Tables → ℕ → Tables
clear s table = record s { entries = λ t i. if table == t then 0 else s.entries t i }

-- `entry.flags().huge_page()`, and then the table that the entry points to
pub next_or_huge : Tables → ℕ → ℕ → Result ℕ × Tables
next_or_huge s table id =
    if huge_page (flags (s.entries table id))
    then (err huge_page_error, s)
    else (ok (frame (s.entries table id)), s)

-- The branch of an entry that is not used. Whether the address was aligned is not asked.
pub create_table : List ℕ → Tables → ℕ → ℕ → ℕ → Result ℕ × Tables
create_table [] s table id fl = (err allocation_error, s)
create_table (addr ∷ rest) s table id fl =
    let zeroed = clear (record s { supply = rest }) addr in
    next_or_huge (put zeroed table id (map_to_addr (zeroed.entries table id) addr fl).1) table id

pub get_or_create_entry : Tables → ℕ → ℕ → ℕ → Result ℕ × Tables
get_or_create_entry s table id fl =
    if used (s.entries table id)
    then next_or_huge (put s table id (set_flags (s.entries table id) fl)) table id
    else create_table s.supply s table id fl

-- `map_err(|_| TableCreationError)?`
abbrev pub on_table :
    Result ℕ × Tables → (ℕ → Tables → Result (Unit {0}) × Tables) → Result (Unit {0}) × Tables
on_table (ok table, s) k = k table s
on_table (err e, s) k = (err table_creation_error, s)

-- The last entry: it must be free. What `map_to_frame` returns is not read.
pub map_entry : Tables → ℕ → ℕ → ℕ → ℕ → Result (Unit {0}) × Tables
map_entry s table id addr fl =
    if used (s.entries table id)
    then (err already_mapped, s)
    else (ok tt, put s table id (map_to_addr (s.entries table id) addr fl).1)

-- `flags | PageTableFlags::new().with_huge_page(true)`
abbrev pub huge : ℕ → ℕ
huge fl = bit_or fl 128

pub map_1gb_at : Tables → ℕ → PageTableAddress → ℕ → ℕ → ℕ → Result (Unit {0}) × Tables
map_1gb_at s pml4 a addr fl parent_flags =
    on_table (get_or_create_entry s pml4 a.pml4_offset parent_flags)
      (λ pdpte s3. map_entry s3 pdpte a.pdpte_offset addr (huge fl))

pub map_2mb_at : Tables → ℕ → PageTableAddress → ℕ → ℕ → ℕ → Result (Unit {0}) × Tables
map_2mb_at s pml4 a addr fl parent_flags =
    on_table (get_or_create_entry s pml4 a.pml4_offset parent_flags) (λ pdpte s3.
      on_table (get_or_create_entry s3 pdpte a.pdpte_offset parent_flags)
        (λ pde s2. map_entry s2 pde a.pde_offset addr (huge fl)))

pub map_4kb_at : Tables → ℕ → PageTableAddress → ℕ → ℕ → ℕ → Result (Unit {0}) × Tables
map_4kb_at s pml4 a addr fl parent_flags =
    on_table (get_or_create_entry s pml4 a.pml4_offset parent_flags) (λ pdpte s3.
      on_table (get_or_create_entry s3 pdpte a.pdpte_offset parent_flags) (λ pde s2.
        on_table (get_or_create_entry s2 pde a.pde_offset parent_flags)
          (λ pte s1. map_entry s1 pte a.pte_offset addr fl)))

pub map_1gb_page : Tables → ℕ → ℕ → ℕ → ℕ → ℕ → Outcome (Result (Unit {0}) × Tables)
map_1gb_page s pml4 page addr fl parent_flags = do
  a ← translate_address page
  done (map_1gb_at s pml4 a addr fl parent_flags)

pub map_2mb_page : Tables → ℕ → ℕ → ℕ → ℕ → ℕ → Outcome (Result (Unit {0}) × Tables)
map_2mb_page s pml4 page addr fl parent_flags = do
  a ← translate_address page
  done (map_2mb_at s pml4 a addr fl parent_flags)

pub map_4kb_page : Tables → ℕ → ℕ → ℕ → ℕ → ℕ → Outcome (Result (Unit {0}) × Tables)
map_4kb_page s pml4 page addr fl parent_flags = do
  a ← translate_address page
  done (map_4kb_at s pml4 a addr fl parent_flags)
