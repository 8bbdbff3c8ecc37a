-- ===== src/Paging/Mapper/Uses.antt =====
-- Pages that are mapped already: the walk of the processor, and the way of `map_4kb_page` past
-- entries in use.
use mathlib.Core.Bool.{false≢true}
use fzkernel.Base.{ℕ, suc, ◌≡◌, ◌≢◌, sym, ap, ◌∙◌, inl, inr, arith, true, List, [], ◌∷◌}
use fzkernel.Paging.Entry.{used, frame}
use fzkernel.Paging.Translate.{PageTableAddress}
use fzkernel.Paging.Mapper.{Tables, Result}
use fzkernel.Paging.Mapper.Levels.{IsLeveled}
use fzkernel.Paging.Mapper.Enter.{Enters, zero-used}

-- The entry that the processor reads last: from a table, by the indices.
abbrev pub walk : Tables → ℕ → ℕ → List ℕ → ℕ
walk s table id [] = s.entries table id
walk s table id (next ∷ ids) = walk s (frame (s.entries table id)) next ids

abbrev pub walk_4kb : Tables → ℕ → PageTableAddress → ℕ
walk_4kb s pml4 a = walk s pml4 a.pml4_offset (a.pdpte_offset ∷ a.pde_offset ∷ a.pte_offset ∷ [])

-- The page is mapped: all four entries of the walk are in use.
pub record IsInUse (s : Tables) (pml4 : ℕ) (a : PageTableAddress) : Type 0 where
  pub fourth : used (walk s pml4 a.pml4_offset []) ≡ true
  pub third : used (walk s pml4 a.pml4_offset (a.pdpte_offset ∷ [])) ≡ true
  pub second : used (walk s pml4 a.pml4_offset (a.pdpte_offset ∷ a.pde_offset ∷ [])) ≡ true
  pub first : used (walk_4kb s pml4 a) ≡ true

-- Tables of two levels are not the same.
pub apart : (lv : ℕ → ℕ) (x y n m : ℕ) → lv x ≡ n → lv y ≡ m → n ≢ m → x ≢ y
apart lv x y n m hx hy ne e = ne (sym hx ∙ ap lv e ∙ hy)

pub has_level : (lv : ℕ → ℕ) (x n : ℕ) → lv x ≡ suc n → lv x ≢ 0
has_level lv x n h z = absurd (omega (arith, h, z))

module _ {lv : ℕ → ℕ} {n t i fl : ℕ} {s : Tables} {r : Result ℕ × Tables}
    (g : Enters lv n t i fl s r) where
  -- Behind an entry in use no table is made, and the entries there are as they were.
  pub reused :
      IsLeveled lv s
      → lv t ≡ suc (suc n)
      → used (s.entries t i) ≡ true
      → (g.next ≡ frame (s.entries t i))
        × (g.after.supply ≡ s.supply)
        × ((j : ℕ) → g.after.entries g.next j ≡ s.entries g.next j)
  reused v level busy = elim g.source [
    | inl old ↦
        let down : lv g.next ≡ suc n = ap lv old.1 ∙ v.linked t i n level busy in
        (
          old.1,
          old.2,
          λ j.
              g.same g.next j (λ z. absurd (omega (arith, z, down)))
                (inl (λ e. absurd (omega (arith, level, down, ap lv e)))),
        )
    | inr new ↦ absurd (false≢true (sym new.0 ∙ busy))
  ]

  -- An entry in use in the table that was entered: the table is not new.
  pub was_used : (j : ℕ) → used (g.after.entries g.next j) ≡ true → used (s.entries t i) ≡ true
  was_used j busy = elim g.source [
    | inl old ↦ old.0
    | inr new ↦ absurd (false≢true (sym zero-used ∙ sym (ap used (new.2 j)) ∙ busy))
  ]

-- The state before the last step, in which the last table is at `table`, against that before the
-- call.
pub record Prepares (lv : ℕ → ℕ) (s before : Tables) (pml4 table : ℕ) (a : PageTableAddress)
    : Type 0 where
  pub was_in_use : used (before.entries table a.pte_offset) ≡ true → IsInUse s pml4 a
  pub ends : IsInUse s pml4 a → before.entries table a.pte_offset ≡ walk_4kb s pml4 a
  pub same_supply : IsInUse s pml4 a → before.supply ≡ s.supply
  pub pages : (x j : ℕ) → lv x ≡ 1 → before.entries x j ≡ s.entries x j

module _ {lv : ℕ → ℕ} {s : Tables} (v : IsLeveled lv s) {pml4 : ℕ} (root : lv pml4 ≡ 4)
    (a : PageTableAddress) {fl : ℕ} {r3 r2 r1 : Result ℕ × Tables}
    (g3 : Enters lv 2 pml4 a.pml4_offset fl s r3)
    (g2 : Enters g3.levels 1 g3.next a.pdpte_offset fl g3.after r2)
    (g1 : Enters g2.levels 0 g2.next a.pde_offset fl g2.after r1) where
  abbrev t3 : ℕ
  t3 = frame (s.entries pml4 a.pml4_offset)

  abbrev t2 : ℕ
  t2 = frame (s.entries t3 a.pdpte_offset)

  abbrev t1 : ℕ
  t1 = frame (s.entries t2 a.pde_offset)

  -- An entry in a table that none of the three steps writes.
  untouched2 :
      (x j n : ℕ) → lv x ≡ suc n → pml4 ≢ x → g3.next ≢ x → g2.after.entries x j ≡ s.entries x j
  untouched2 x j n level ne4 ne3 =
      g2.same x j (has_level g3.levels x n (g3.higher x (has_level lv x n level) ∙ level)) (inl ne3)
      ∙ g3.same x j (has_level lv x n level) (inl ne4)

  untouched : (x j : ℕ) → lv x ≡ 1 → g1.after.entries x j ≡ s.entries x j
  untouched x j level =
      let level3 : g3.levels x ≡ 1 = g3.higher x (has_level lv x 0 level) ∙ level in
      let level2 : g2.levels x ≡ 1 = g2.higher x (has_level g3.levels x 0 level3) ∙ level3 in
      g1.same x j (has_level g2.levels x 0 level2)
        (inl (apart g2.levels g2.next x 2 1 g2.next_level level2 (λ z. absurd (omega (arith, z)))))
      ∙ untouched2 x j 0 level (apart lv pml4 x 4 1 root level (λ z. absurd (omega (arith, z))))
          (apart g3.levels g3.next x 3 1 g3.next_level level3 (λ z. absurd (omega (arith, z))))

  -- The steps past entries in use, one after the other.
  module _ (b4 : used (s.entries pml4 a.pml4_offset) ≡ true) where
    third : (j : ℕ) → g3.after.entries g3.next j ≡ s.entries t3 j
    third j = let q = reused g3 v root b4 in q.2 j ∙ ap (λ t. s.entries t j) q.0

    module _ (b3 : used (s.entries t3 a.pdpte_offset) ≡ true) where
      step2 :
          (g2.next ≡ frame (g3.after.entries g3.next a.pdpte_offset))
          × (g2.after.supply ≡ g3.after.supply)
          × ((j : ℕ) → g2.after.entries g2.next j ≡ g3.after.entries g2.next j)
      step2 = reused g2 g3.leveled g3.next_level (ap used (third a.pdpte_offset) ∙ b3)

      level_t2 : lv t2 ≡ 2
      level_t2 = v.linked t3 a.pdpte_offset 1 (v.linked pml4 a.pml4_offset 2 root b4) b3

      next2 : g2.next ≡ t2
      next2 = step2.0 ∙ ap frame (third a.pdpte_offset)

      second : (j : ℕ) → g2.after.entries g2.next j ≡ s.entries t2 j
      second j =
          step2.2 j
          ∙ ap (λ t. g3.after.entries t j) next2
          ∙ g3.same t2 j (has_level lv t2 1 level_t2)
              (inl (apart lv pml4 t2 4 2 root level_t2 (λ z. absurd (omega (arith, z)))))

      module _ (b2 : used (s.entries t2 a.pde_offset) ≡ true) where
        step1 :
            (g1.next ≡ frame (g2.after.entries g2.next a.pde_offset))
            × (g1.after.supply ≡ g2.after.supply)
            × ((j : ℕ) → g1.after.entries g1.next j ≡ g2.after.entries g1.next j)
        step1 = reused g1 g2.leveled g2.next_level (ap used (second a.pde_offset) ∙ b2)

        level_t1 : lv t1 ≡ 1
        level_t1 = v.linked t2 a.pde_offset 0 level_t2 b2

        first : (j : ℕ) → g1.after.entries g1.next j ≡ s.entries t1 j
        first j =
            step1.2 j
            ∙ ap (λ t. g2.after.entries t j) (step1.0 ∙ ap frame (second a.pde_offset))
            ∙ untouched2 t1 j 0 level_t1
                (apart lv pml4 t1 4 1 root level_t1 (λ z. absurd (omega (arith, z))))
                (apart g3.levels g3.next t1 3 1 g3.next_level
                  (g3.higher t1 (has_level lv t1 0 level_t1) ∙ level_t1)
                  (λ z. absurd (omega (arith, z))))

        kept_supply : g1.after.supply ≡ s.supply
        kept_supply = step1.1 ∙ step2.1 ∙ (reused g3 v root b4).1

  pub entered-Prepares : Prepares lv s g1.after pml4 g1.next a
  entered-Prepares = record {
    was_in_use = λ busy.
        let u2 = was_used g1 a.pte_offset busy in
        let u3 = was_used g2 a.pde_offset u2 in
        let b4 = was_used g3 a.pdpte_offset u3 in
        let b3 = sym (ap used (third b4 a.pdpte_offset)) ∙ u3 in
        let b2 = sym (ap used (second b4 b3 a.pde_offset)) ∙ u2 in
        record {
          fourth = b4;
          third = b3;
          second = b2;
          first = sym (ap used (first b4 b3 b2 a.pte_offset)) ∙ busy;
        };
    ends = λ u. first u.fourth u.third u.second a.pte_offset;
    same_supply = λ u. kept_supply u.fourth u.third u.second;
    pages = untouched;
  }
