-- ===== src/Paging/Entry.antt =====
-- An entry of a page table, and its flags: src/x86/paging/page_table/mod.rs.
--
-- An entry is a 64-bit word: an address in the bits 12 to 51, and flags in the others. A bit of
-- `PageTableFlags` stands where the declared fields put it, from the lowest bit on.
use fzkernel.Base.{
  ℕ, ◌+◌, ◌-◌, ◌*◌, ◌/◌, ◌%◌, ◌^◌, ◌<◌, ◌≡◌, sym, ap, ap₂, ◌∙◌, arith, Bool, true, false, not,
  bit_and, bit_or, ◌==◌, if◌then◌else◌, eq→==, u64_mod,
}
use fzkernel.Base.Bits.{
  bit_and_high, bit_and_low, bit_or_above, bit_or_split, bit_and_split, zero-bit_or,
}
use fzkernel.Mem.Address.{phy_new, phy_is_aligned_with, align_4kb}

pub data PageMappingError : Type 0 where
  bad_alignment : PageMappingError

-- `ADDR_BITS`
abbrev pub addr_bits : ℕ
addr_bits = 4503599627366400

-- `!ADDR_BITS`
abbrev pub flag_bits : ℕ
flag_bits = u64_mod - 1 - 4503599627366400

unfoldable pub used : ℕ → Bool
used entry = not (entry == 0)

unfoldable pub frame : ℕ → ℕ
unfolding phy_new
frame entry = phy_new (bit_and entry addr_bits)

unfoldable pub flags : ℕ → ℕ
flags entry = bit_and entry flag_bits

-- The entry, or the error with the entry as it was.
unfoldable pub map_to_addr : ℕ → ℕ → ℕ → Bool × ℕ
unfolding phy_is_aligned_with
map_to_addr entry addr fl =
    if phy_is_aligned_with addr align_4kb then (true, bit_or addr fl) else (false, entry)

unfoldable pub set_flags : ℕ → ℕ → ℕ
set_flags entry fl = bit_or (bit_and entry addr_bits) fl

-- Bit 7
unfoldable pub huge_page : ℕ → Bool
huge_page fl = not (fl / 2 ^ 7 % 2 == 0)

-- A word of flags has no bit where the address is.
pub record IsFlags (fl : ℕ) : Type 0 where
  pub low : ℕ
  pub high : ℕ
  pub low_small : low < 2 ^ 12
  pub high_small : high < 2 ^ 12
  pub parts : fl ≡ high * 2 ^ 52 + low

pub record IsFrame (addr : ℕ) : Type 0 where
  pub page : ℕ
  pub page_small : page < 2 ^ 40
  pub parts : addr ≡ page * 2 ^ 12

-- An entry of an address and flags is their sum.
pub bit_or-parts : (addr fl : ℕ) → IsFrame addr → IsFlags fl → bit_or addr fl ≡ addr + fl
bit_or-parts addr fl a f =
    let left : addr ≡ a.page * 2 ^ 12 + 0 = omega (arith, a.parts) in
    let right : fl ≡ f.high * 2 ^ 40 * 2 ^ 12 + f.low = omega (arith, f.parts) in
    let upper : bit_or a.page (f.high * 2 ^ 40) ≡ f.high * 2 ^ 40 + a.page =
      bit_or_above 40 a.page f.high a.page_small in
    let split = bit_or_split 12 a.page (f.high * 2 ^ 40) 0 f.low (omega arith) f.low_small in
    let sum : bit_or addr fl ≡ bit_or a.page (f.high * 2 ^ 40) * 2 ^ 12 + bit_or 0 f.low =
      ap₂ bit_or left right ∙ split in
    omega (arith, sum, upper, zero-bit_or f.low, f.parts, a.parts)

pub frame-bits : (entry : ℕ) → frame entry ≡ entry / 2 ^ 12 % 2 ^ 40 * 2 ^ 12
unfolding frame phy_new
frame-bits entry =
    let high : bit_and entry addr_bits ≡ bit_and (entry / 2 ^ 12) (2 ^ 40 - 1) * 2 ^ 12 =
      bit_and_high 12 entry (2 ^ 40 - 1) in
    omega (arith, high, bit_and_low 40 (entry / 2 ^ 12))

pub flags-bits : (entry : ℕ) → flags entry ≡ entry / 2 ^ 52 % 2 ^ 12 * 2 ^ 52 + entry % 2 ^ 12
unfolding flags
flags-bits entry =
    let split : bit_and (entry / 2 ^ 52 * 2 ^ 52 + entry % 2 ^ 52) (4095 * 2 ^ 52 + 4095)
        ≡ bit_and (entry / 2 ^ 52) 4095 * 2 ^ 52 + bit_and (entry % 2 ^ 52) 4095 =
      bit_and_split 52 (entry / 2 ^ 52) 4095 (entry % 2 ^ 52) 4095 (omega arith) (omega arith) in
    let whole : entry / 2 ^ 52 * 2 ^ 52 + entry % 2 ^ 52 ≡ entry = omega arith in
    let joined = sym (ap (λ (t : ℕ). bit_and t flag_bits) whole) ∙ split in
    omega (arith, joined, bit_and_low 12 (entry / 2 ^ 52), bit_and_low 12 (entry % 2 ^ 52))

pub frame-IsFrame : (entry : ℕ) → IsFrame (frame entry)
frame-IsFrame entry = record {
  page = entry / 2 ^ 12 % 2 ^ 40;
  page_small = omega arith;
  parts = frame-bits entry;
}

masked-frame : (entry : ℕ) → bit_and entry addr_bits ≡ frame entry
masked-frame entry =
    omega
      (arith, frame-bits entry, bit_and_high 12 entry (2 ^ 40 - 1), bit_and_low 40 (entry / 2 ^ 12))

pub set_flags-sum : (entry fl : ℕ) → IsFlags fl → set_flags entry fl ≡ frame entry + fl
unfolding set_flags
set_flags-sum entry fl f =
    rw (masked-frame entry) (bit_or-parts (frame entry) fl (frame-IsFrame entry) f)

-- What an entry that is the sum of an address and flags holds.
pub sum-frame : (addr fl : ℕ) → IsFrame addr → IsFlags fl → frame (addr + fl) ≡ addr
sum-frame addr fl a f =
    omega (arith, frame-bits (addr + fl), a.parts, a.page_small, f.parts, f.low_small)

pub sum-flags : (addr fl : ℕ) → IsFrame addr → IsFlags fl → flags (addr + fl) ≡ fl
sum-flags addr fl a f =
    omega (arith, flags-bits (addr + fl), a.parts, a.page_small, f.parts, f.low_small, f.high_small)

pub map_to_addr-sum :
    (entry addr fl : ℕ) → IsFrame addr → IsFlags fl → map_to_addr entry addr fl ≡ (true, addr + fl)
unfolding map_to_addr phy_is_aligned_with
map_to_addr-sum entry addr fl a f =
    let aligned : (addr % align_4kb == 0) ≡ true =
      eq→== (addr % align_4kb) 0 (omega (arith, a.parts)) in
    rw (aligned, bit_or-parts addr fl a f)

-- An entry that is mapped, and one whose flags are changed after that.
pub record Stores (entry addr fl fl2 : ℕ) : Type 0 where
  pub mapped : (map_to_addr entry addr fl).0 ≡ true
  pub mapped_frame : frame (map_to_addr entry addr fl).1 ≡ addr
  pub mapped_flags : flags (map_to_addr entry addr fl).1 ≡ fl
  pub kept_frame : frame (set_flags (map_to_addr entry addr fl).1 fl2) ≡ addr
  pub changed_flags : flags (set_flags (map_to_addr entry addr fl).1 fl2) ≡ fl2

-- Where the address is a multiple of 4096 below 2^52 and no flag is in the bits 12 to 51, an
-- entry that is mapped to the address with the flags gives both back, whatever it held before. A
-- later `set_flags` keeps the address and gives the new flags.
pub map_to_addr-Stores :
    (entry addr fl fl2 : ℕ) → IsFrame addr → IsFlags fl → IsFlags fl2 → Stores entry addr fl fl2
map_to_addr-Stores entry addr fl fl2 a f f2 =
    let e = map_to_addr-sum entry addr fl a f in
    let again : set_flags (addr + fl) fl2 ≡ addr + fl2 =
      set_flags-sum (addr + fl) fl2 f2 ∙ ap (λ (t : ℕ). t + fl2) (sum-frame addr fl a f) in
    record {
      mapped = ap (λ r. r.0) e;
      mapped_frame = ap (λ r. frame r.1) e ∙ sum-frame addr fl a f;
      mapped_flags = ap (λ r. flags r.1) e ∙ sum-flags addr fl a f;
      kept_frame = ap (λ r. frame (set_flags r.1 fl2)) e ∙ ap frame again ∙ sum-frame addr fl2 a f2;
      changed_flags =
          ap (λ r. flags (set_flags r.1 fl2)) e ∙ ap flags again ∙ sum-flags addr fl2 a f2;
    }
