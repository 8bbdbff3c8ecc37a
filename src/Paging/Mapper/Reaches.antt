-- ===== src/Paging/Mapper/Reaches.antt =====
-- The tables that the walk passes on its way to the last one, also after a write of an entry there.
use fzkernel.Base.{ℕ, suc, ◌+◌, ◌≡◌, sym, ap, ◌∙◌, arith, [], ◌∷◌}
use fzkernel.Paging.Entry.{used, frame, IsFrame, sum-frame}
use fzkernel.Paging.Translate.{PageTableAddress}
use fzkernel.Paging.Mapper.{Tables, put}
use fzkernel.Paging.Mapper.Levels.{IsLeveled, put-other_table}
use fzkernel.Paging.Mapper.Enter.{IsParentFlags}
use fzkernel.Paging.Mapper.Uses.{walk, walk_4kb, apart}

-- The three tables that the walk passes on its way to the last.
pub record Reaches (lv : ℕ → ℕ) (s : Tables) (pml4 n3 n2 n1 parent_flags : ℕ) (a : PageTableAddress)
    : Type 0 where
  pub leveled : IsLeveled lv s
  pub level4 : lv pml4 ≡ 4
  pub level3 : lv n3 ≡ 3
  pub level2 : lv n2 ≡ 2
  pub level1 : lv n1 ≡ 1
  pub frame3 : IsFrame n3
  pub frame2 : IsFrame n2
  pub frame1 : IsFrame n1
  pub entry3 : s.entries pml4 a.pml4_offset ≡ n3 + parent_flags
  pub entry2 : s.entries n3 a.pdpte_offset ≡ n2 + parent_flags
  pub entry1 : s.entries n2 a.pde_offset ≡ n1 + parent_flags

module _ {lv : ℕ → ℕ} {s : Tables} {pml4 n3 n2 n1 parent_flags : ℕ} {a : PageTableAddress}
    (p : IsParentFlags parent_flags) (q : Reaches lv s pml4 n3 n2 n1 parent_flags a) where
  pub walk-Reaches : walk_4kb s pml4 a ≡ s.entries n1 a.pte_offset
  walk-Reaches =
      let f3 : frame (s.entries pml4 a.pml4_offset) ≡ n3 =
        ap frame q.entry3 ∙ sum-frame n3 parent_flags q.frame3 p.words in
      let f2 : frame (s.entries n3 a.pdpte_offset) ≡ n2 =
        ap frame q.entry2 ∙ sum-frame n2 parent_flags q.frame2 p.words in
      let f1 : frame (s.entries n2 a.pde_offset) ≡ n1 =
        ap frame q.entry1 ∙ sum-frame n1 parent_flags q.frame1 p.words in
      ap (λ t. walk s t a.pdpte_offset (a.pde_offset ∷ a.pte_offset ∷ [])) f3
      ∙ ap (λ t. walk s t a.pde_offset (a.pte_offset ∷ [])) f2
      ∙ ap (λ t. walk s t a.pte_offset []) f1

-- The last table is written, and the way to it is as it was.
module _ {lv : ℕ → ℕ} {s : Tables} {pml4 n3 n2 n1 parent_flags : ℕ} {a : PageTableAddress}
    (p : IsParentFlags parent_flags) (q : Reaches lv s pml4 n3 n2 n1 parent_flags a) where
  pub put-IsLeveled : (e : ℕ) → IsLeveled lv (put s n1 a.pte_offset e)
  put-IsLeveled e = record {
    linked = λ x j m lx h.
        let kept =
          put-other_table s n1 a.pte_offset e x j
            (apart lv n1 x 1 (suc (suc m)) q.level1 lx (λ z. absurd (omega (arith, z)))) in
        ap (λ u. lv (frame u)) kept ∙ q.leveled.linked x j m lx (sym (ap used kept) ∙ h);
    fresh = q.leveled.fresh;
    distinct = q.leveled.distinct;
  }

  pub put-Reaches : (e : ℕ) → Reaches lv (put s n1 a.pte_offset e) pml4 n3 n2 n1 parent_flags a
  put-Reaches e = record {
    leveled = put-IsLeveled e;
    level4 = q.level4;
    level3 = q.level3;
    level2 = q.level2;
    level1 = q.level1;
    frame3 = q.frame3;
    frame2 = q.frame2;
    frame1 = q.frame1;
    entry3 =
        put-other_table s n1 a.pte_offset e pml4 a.pml4_offset
          (apart lv n1 pml4 1 4 q.level1 q.level4 (λ z. absurd (omega (arith, z))))
        ∙ q.entry3;
    entry2 =
        put-other_table s n1 a.pte_offset e n3 a.pdpte_offset
          (apart lv n1 n3 1 3 q.level1 q.level3 (λ z. absurd (omega (arith, z))))
        ∙ q.entry2;
    entry1 =
        put-other_table s n1 a.pte_offset e n2 a.pde_offset
          (apart lv n1 n2 1 2 q.level1 q.level2 (λ z. absurd (omega (arith, z))))
        ∙ q.entry1;
  }
