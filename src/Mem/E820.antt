-- ===== src/Mem/E820.antt =====
-- The memory map of the BIOS, src/mem/e820.rs.
use fzkernel.Base.{
  ℕ, ◌+◌, Option, none, some, List, bit_or, leb, ◌==◌, not, if◌then◌else◌, ◌<<<◌, get_elem?,
}
use fzkernel.Base.Outcome.{Outcome, done, panic, ◌>>◌, assert}

pub data E820MemType : Type 0 where
  ram reserved acpi nvs unusable disabled persistent oem : E820MemType

pub record AddressRangeDescriptor : Type 0 where
  pub base_addr_low : ℕ
  pub base_addr_high : ℕ
  pub length_low : ℕ
  pub length_high : ℕ
  pub addr_type : E820MemType
  pub extended_attributes : ℕ

unfoldable pub length : AddressRangeDescriptor → ℕ
length d = bit_or (d.length_high <<< 32) d.length_low

unfoldable pub base_addr : AddressRangeDescriptor → ℕ
base_addr d = bit_or (d.base_addr_high <<< 32) d.base_addr_low

abbrev pub default : AddressRangeDescriptor
default = record {
  base_addr_low = 0;
  base_addr_high = 0;
  length_low = 0;
  length_high = 0;
  addr_type = ram;
  extended_attributes = 0;
}

-- The map in memory: the number that stands before it, its entries, and the cursor. An entry
-- behind those that are there would be read from memory that is not the map's, as a panic.
pub record E820MemoryMap : Type 0 where
  pub map_len : ℕ
  pub entries : List AddressRangeDescriptor
  pub cursor : ℕ

unfoldable pub next : E820MemoryMap → Outcome (Option AddressRangeDescriptor × E820MemoryMap)
next m = do
  assert (not (m.map_len == 0))
  if leb m.map_len m.cursor
      then done (none, record m { cursor = 0 })
      else elim (get_elem? m.entries m.cursor) [
        | none ↦ panic
        | some ard ↦ done (some ard, record m { cursor = m.cursor + 1 })
      ]
