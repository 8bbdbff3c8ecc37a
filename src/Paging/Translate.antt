-- ===== src/Paging/Translate.antt =====
-- The four table indices of a virtual address: src/x86/paging/page_table/translate.rs.
use fzkernel.Base.{ℕ, ◌+◌, ◌*◌, ◌/◌, ◌%◌, ◌^◌, ◌<◌, ◌≡◌, arith, bit_and, ◌>>>◌}
use fzkernel.Base.Outcome.{Outcome, done, ◌>>=◌, try_into, try_into-done}
use fzkernel.Base.Bits.{bit_and_low}
use fzkernel.Mem.Address.{virt_new}
use fzkernel.Mem.Address.Canonical.{virt_new-low}

pub record PageTableAddress : Type 0 where
  pub pml4_offset : ℕ
  pub pdpte_offset : ℕ
  pub pde_offset : ℕ
  pub pte_offset : ℕ

-- `u64::from` extends the sign once more.
pub translate_address : ℕ → Outcome PageTableAddress
translate_address virt_addr = do
  pml4_off ← try_into 65536 (bit_and (virt_new virt_addr >>> 39) 511)
  dir_ptr_off ← try_into 65536 (bit_and (virt_new virt_addr >>> 30) 511)
  dir_off ← try_into 65536 (bit_and (virt_new virt_addr >>> 21) 511)
  table_off ← try_into 65536 (bit_and (virt_new virt_addr >>> 12) 511)
  done (record {
    pml4_offset = pml4_off;
    pdpte_offset = dir_ptr_off;
    pde_offset = dir_off;
    pte_offset = table_off;
  })

abbrev pub indices : ℕ → PageTableAddress
indices a = record {
  pml4_offset = a / 2 ^ 39 % 512;
  pdpte_offset = a / 2 ^ 30 % 512;
  pde_offset = a / 2 ^ 21 % 512;
  pte_offset = a / 2 ^ 12 % 512;
}

pub translate_address-indices : (a : ℕ) → translate_address a ≡ done (indices (virt_new a))
unfolding translate_address
translate_address-indices a =
    let v : ℕ = virt_new a in
    let masked : (n : ℕ) → try_into 65536 (bit_and n 511) ≡ done (n % 512) = λ n. nine n in
    rw (masked (v / 2 ^ 39), masked (v / 2 ^ 30), masked (v / 2 ^ 21), masked (v / 2 ^ 12))
  where
    nine : (n : ℕ) → try_into 65536 (bit_and n 511) ≡ done (n % 512)
    nine n =
        let low : bit_and n 511 ≡ n % 512 = bit_and_low 9 n in
        rw low (try_into-done 65536 (n % 512) (omega arith))

-- The indices are below 512, and with the offset in the page they make up the 48 low bits.
pub record Locates (a : ℕ) (o : Outcome PageTableAddress) : Type 0 where
  pub place : PageTableAddress
  pub returns : o ≡ done place
  pub pml4_small : place.pml4_offset < 512
  pub pdpte_small : place.pdpte_offset < 512
  pub pde_small : place.pde_offset < 512
  pub pte_small : place.pte_offset < 512
  pub whole :
      place.pml4_offset * 2 ^ 39
        + place.pdpte_offset * 2 ^ 30
        + place.pde_offset * 2 ^ 21
        + place.pte_offset * 2 ^ 12
        + a % 2 ^ 12
      ≡ a % 2 ^ 48

-- Every virtual address is translated without a panic to four indices below 512, which together
-- with the offset in the page make up the 48 low bits of the address.
pub translate_address-Locates : (a : ℕ) → Locates a (translate_address a)
translate_address-Locates a = record {
  place = indices (virt_new a);
  returns = translate_address-indices a;
  pml4_small = omega arith;
  pdpte_small = omega arith;
  pde_small = omega arith;
  pte_small = omega arith;
  whole = omega (arith, virt_new-low a);
}
