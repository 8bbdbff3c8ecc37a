-- ===== src/Mem/Buddy/Start.antt =====
-- `new`: a heap whose one free block is the whole of it.
use fzkernel.Base.{
  ℕ, suc, ◌+◌, ◌-◌, ◌*◌, ◌/◌, ◌^◌, ◌≤◌, ◌<◌, ◌≡◌, refl, sym, List, [], ◌∷◌, All, bit_and, arith,
  le→leb, eq→==,
}
use native.Mathlib.Nat.{mul-div_cancel}
use fzkernel.Base.Pow.{pow2_pos, pow2_add, pow2_suc, pow2_mono, pow2_split}
use fzkernel.Base.Bits.{bit_and_low}
use fzkernel.Base.Outcome.{done}
use fzkernel.Mem.Log2.{log2_lem}
use fzkernel.Mem.Buddy.{BuddyAllocator, from_base_unchecked, new, update}
use fzkernel.Mem.Buddy.Cover.{
  inside, replace, cover-replace, count_cons, count-nil, each_list, none_free, cover-none_free,
}
use fzkernel.Mem.Buddy.Block.{IsGeometric, IsBlock}
use fzkernel.Mem.Buddy.Valid.{IsValid, is_free, TopChain}
use fzkernel.Mem.Buddy.Chain.{Chain}

abbrev pub heap_free : ℕ → ℕ → ℕ → List ℕ
heap_free top base = replace none_free top (base ∷ [])

module _ (memory : ℕ → ℕ) (base m top heap_index : ℕ) (word : m + top < 64) (big : 13 ≤ m + top)
    (not_null : 0 < base) (aligned : base ≡ heap_index * 2 ^ (m + top)) where
  abbrev fresh : BuddyAllocator
  fresh = from_base_unchecked (suc top) memory base (2 ^ (m + top))

  smallest : 2 ^ (m + top) / 2 ^ top ≡ 2 ^ m
  smallest = rw (pow2_add m top, mul-div_cancel (2 ^ m) (pow2_pos top)) refl

  last_level : suc top - 1 ≡ top
  last_level = omega arith

  fresh-IsGeometric : IsGeometric base m top fresh
  unfolding from_base_unchecked
  fresh-IsGeometric =
      let size : 2 ^ (m + top) / 2 ^ (suc top - 1) ≡ 2 ^ m = rw last_level smallest in
      record {
        min_size = size;
        max_size = refl;
        log2_min = rw size (
            log2_lem m (2 ^ m) (omega arith) (omega arith) (omega (arith, pow2_suc m, pow2_pos m)));
        level_count = refl;
        word = word;
        heap_aligned = big;
        based = refl;
        not_null = not_null;
        heap_index = heap_index;
        aligned = aligned;
      }

  pub is_free-fresh : (a : ℕ) → is_free m top (heap_free top base) a ≡ inside (2 ^ (m + top)) base a
  is_free-fresh a = omega (
    arith,
    cover-replace m (suc top) top none_free (base ∷ []) a (omega arith),
    cover-none_free m (suc top) a,
    count_cons (2 ^ (m + top)) base [] a,
    count-nil (2 ^ (m + top)) a,
  )

  base-IsBlock : IsBlock base m top top base
  base-IsBlock = record { index = 0; in_range = pow2_pos (top - top); address = omega arith }

  pub fresh-IsValid : IsValid base m top fresh (heap_free top base)
  unfolding from_base_unchecked
  fresh-IsValid = record {
    geometry = fresh-IsGeometric;
    chains =
        each_list (λ l bs. l < top → Chain memory (update (λ _. 0) (suc top - 1) base l) bs)
          none_free top (base ∷ []) (λ p. absurd (omega (arith, p)))
          (λ l ne p. rw last_level (ground (arith, ne)));
    top_chain =
        each_list (λ l bs. l ≡ top → TopChain (update (λ _. 0) (suc top - 1) base l) bs) none_free
          top (base ∷ []) (λ e. (ground (arith, last_level), omega arith))
          (λ l ne e. absurd (ne (sym e))) top refl;
    blocks =
        each_list (λ l bs. l ≤ top → All (IsBlock base m top l) bs) none_free top (base ∷ [])
          (λ p. (base-IsBlock, tt)) (λ l ne p. tt);
    once = λ a. ground (arith, is_free-fresh a);
  }

  -- The assertions of `new` hold of such a heap.
  pub new-fresh : 3 ≤ m → new (suc top) memory base (2 ^ (m + top)) ≡ done fresh
  unfolding new
  new-fresh header =
      let size : 2 ^ (m + top) / 2 ^ (suc top - 1) ≡ 2 ^ m = rw last_level smallest in
      rw (size, le→leb 8 (2 ^ m) (pow2_mono 3 m header), eq→== _ _ page_aligned) refl
    where
      page_aligned : bit_and (2 ^ (m + top)) (8192 - 1) ≡ 0
      page_aligned = omega (arith, bit_and_low 13 (2 ^ (m + top)), pow2_split 13 (m + top) big)
