-- ===== src/Paging/Mapper/Walk.antt =====
-- The walk of the processor down the tables, and what `map_4kb_page` makes of it.
use fzkernel.Base.{ℕ, ◌≡◌, ◌≢◌, ◌⊎◌, []}
use fzkernel.Paging.Entry.{frame, flags}
use fzkernel.Paging.Translate.{PageTableAddress}
use fzkernel.Paging.Mapper.{
  Tables, Result, ok, err, already_mapped, table_creation_error, get_or_create_entry,
}
use fzkernel.Paging.Mapper.Levels.{IsLeveled}
use fzkernel.Paging.Mapper.Enter.{IsParentFlags, Enters}
use fzkernel.Paging.Mapper.Reaches.{Reaches}
use fzkernel.Paging.Mapper.Uses.{walk_4kb, IsInUse}

-- The page was free and is mapped: the walk ends at an entry of a table, which holds the frame and
-- the flags, and no other entry of a last table has changed.
pub record Maps (lv : ℕ → ℕ) (s : Tables) (pml4 : ℕ) (a : PageTableAddress) (addr fl : ℕ)
    (r : Result (Unit {0}) × Tables) : Type 0 where
  pub after : Tables
  pub levels : ℕ → ℕ
  pub table : ℕ
  pub was_free : ¬ IsInUse s pml4 a
  pub ends : walk_4kb after pml4 a ≡ after.entries table a.pte_offset
  pub others :
      (x j : ℕ) → lv x ≡ 1 → (table ≢ x) ⊎ (a.pte_offset ≢ j) → after.entries x j ≡ s.entries x j
  pub returns : r ≡ (ok tt, after)
  pub leads : frame (walk_4kb after pml4 a) ≡ addr
  pub with_flags : flags (walk_4kb after pml4 a) ≡ fl
  pub leveled : IsLeveled levels after
  pub root_level : levels pml4 ≡ 4

-- No frame is left for a table.
pub record IsOut (r : Result (Unit {0}) × Tables) : Type 0 where
  pub after : Tables
  pub returns : r ≡ (err table_creation_error, after)
  pub none_left : after.supply ≡ []

-- The page was mapped before: the walk ended at an entry in use, and it ends at the same entry. No
-- entry of a last table has changed, nor has the supply.
pub record IsMapped (lv : ℕ → ℕ) (s : Tables) (pml4 : ℕ) (a : PageTableAddress)
    (r : Result (Unit {0}) × Tables) : Type 0 where
  pub after : Tables
  pub returns : r ≡ (err already_mapped, after)
  pub was_in_use : IsInUse s pml4 a
  pub same_end : walk_4kb after pml4 a ≡ walk_4kb s pml4 a
  pub same_supply : after.supply ≡ s.supply
  pub pages : (x j : ℕ) → lv x ≡ 1 → after.entries x j ≡ s.entries x j

module _ {lv : ℕ → ℕ} {s : Tables} (v : IsLeveled lv s) (pml4 : ℕ) (root : lv pml4 ≡ 4)
    (a : PageTableAddress) (parent_flags : ℕ) (p : IsParentFlags parent_flags) where
  abbrev Entered3 : Type 0
  Entered3 =
      Enters lv 2 pml4 a.pml4_offset parent_flags s
        (get_or_create_entry s pml4 a.pml4_offset parent_flags)

  abbrev Entered2 : Entered3 → Type 0
  Entered2 g3 =
      Enters g3.levels 1 g3.next a.pdpte_offset parent_flags g3.after
        (get_or_create_entry g3.after g3.next a.pdpte_offset parent_flags)

  abbrev Entered1 : (g3 : Entered3) → Entered2 g3 → Type 0
  Entered1 g3 g2 =
      Enters g2.levels 0 g2.next a.pde_offset parent_flags g2.after
        (get_or_create_entry g2.after g2.next a.pde_offset parent_flags)
