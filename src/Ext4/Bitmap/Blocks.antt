-- ===== src/Ext4/Bitmap/Blocks.antt =====
-- A block that is taken and freed again.
use fzkernel.Base.{
  ℕ, ◌<◌, ◌≡◌, ◌≢◌, sym, ap, ◌∙◌, inl, inr, Bool, true, false, some, ◌==◌, arith, Bool-cases, ==→eq,
  ==→ne,
}
use fzkernel.Base.Outcome.{done}
use fzkernel.Ext4.Bitmap.{
  Vob, IsVob, unwrap_or_false, from_some, blk_in_use, set_blk_in_use, free_blk,
}

module _ {V : Type 0} (vob : Vob V) (laws : IsVob vob) where
  -- The block is in use after the first call, and every block is as it was after the second.
  pub record Cycles (bitmap : V) (blk : ℕ) : Type 0 where
    pub answer : Bool
    pub second_answer : Bool
    pub after : V
    pub back : V
    pub taken : set_blk_in_use vob bitmap blk ≡ done (answer, after)
    pub in_use : blk_in_use vob after blk ≡ true
    pub others :
        (other : ℕ) → blk ≢ other → blk_in_use vob after other ≡ blk_in_use vob bitmap other
    pub freed : free_blk vob after blk ≡ done (second_answer, back)
    pub restored : (other : ℕ) → blk_in_use vob back other ≡ blk_in_use vob bitmap other

  set_in_use-other :
      (v after : V) (i j : ℕ) (b answer : Bool)
      → vob.set v i b ≡ some (answer, after)
      → i ≢ j
      → blk_in_use vob after j ≡ blk_in_use vob v j
  unfolding blk_in_use
  set_in_use-other v after i j b answer e ne =
      ap unwrap_or_false (laws.get-set_other v after i j b answer e ne)

  set_in_use-same :
      (v after : V) (i : ℕ) (b answer : Bool)
      → vob.set v i b ≡ some (answer, after)
      → blk_in_use vob after i ≡ b
  unfolding blk_in_use
  set_in_use-same v after i b answer e = ap unwrap_or_false (laws.get-set v after i b answer e)

  -- For a bit vector as its documentation describes it: a block within the bitmap that is free is
  -- marked by `set_blk_in_use` without a panic, then it is in use and every other block is as
  -- before; `free_blk` after that does not panic either, and leaves every block as it was at first.
  pub set_blk_in_use-free_blk :
      (bitmap : V) (blk : ℕ)
      → blk < vob.len bitmap
      → blk_in_use vob bitmap blk ≡ false
      → Cycles bitmap blk
  set_blk_in_use-free_blk bitmap blk in_range free =
      let marked = laws.set_in_bounds bitmap blk true in_range in
      let after : V = marked.1 in
      let same_len : vob.len after ≡ vob.len bitmap =
        laws.len-set bitmap after blk true marked.0 marked.2 in
      let cleared = laws.set_in_bounds after blk false (omega (arith, same_len, in_range)) in
      let back : V = cleared.1 in
      record {
        answer = marked.0;
        second_answer = cleared.0;
        after = after;
        back = back;
        taken = unfold set_blk_in_use in ap from_some marked.2;
        in_use = set_in_use-same bitmap after blk true marked.0 marked.2;
        others = λ other ne. set_in_use-other bitmap after blk other true marked.0 marked.2 ne;
        freed = unfold free_blk in ap from_some cleared.2;
        restored = λ other. elim (Bool-cases (blk == other)) [
          | inl here ↦
              let e : blk ≡ other = ==→eq blk other here in
              ap (blk_in_use vob back) (sym e)
              ∙ set_in_use-same after back blk false cleared.0 cleared.2
              ∙ sym free
              ∙ ap (blk_in_use vob bitmap) e
          | inr away ↦
              let ne : blk ≢ other = ==→ne blk other away in
              set_in_use-other after back blk other false cleared.0 cleared.2 ne
              ∙ set_in_use-other bitmap after blk other true marked.0 marked.2 ne
        ];
      }
