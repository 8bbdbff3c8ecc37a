-- ===== src/Mem/Buddy/Deallocate.antt =====
-- `deallocate`: a block that is given back is merged with its buddy, level by level, for as long
-- as that one is free too.
use fzkernel.Base.{
  ℕ, zero, suc, ◌+◌, ◌-◌, ◌^◌, ◌≤◌, ◌<◌, ◌≡◌, refl, sym, ◌∙◌, ◌⊎◌, inl, inr, List, [], ◌∷◌, none,
  some, true, false, arith, dec_lt, le→leb, eq→==, u8, min, length, bit_xor, Bool-cases,
}
use native.Mathlib.Nat.{add-suc}
use native.Mathlib.Numerals.{add-one}
use fzkernel.Base.Outcome.{Outcome, done}
use fzkernel.Mem.Buddy.{
  BuddyAllocator, buddy, level_size, deallocate, deallocate_loop, take_buddy, free_blk,
  allocation_level,
}
use fzkernel.Mem.Buddy.Cover.{inside, inside_halves, replace, mem, erase, each_list}
use fzkernel.Mem.Buddy.Block.{
  IsBlock-end, IsBlock-le, IsPair, xor-IsPair, buddy-some, level_size_lem,
}
use fzkernel.Mem.Buddy.Valid.{IsValid, IsSpare, is_free}
use fzkernel.Mem.Buddy.Lists.{freed, freed-IsValid, free_blk_lem, is_free-freed}
use fzkernel.Mem.Buddy.Remove.{
  unlinked, without_block, remove_blk_lem, unlinked-absent, unlinked-IsValid, is_free-unlinked,
}
use fzkernel.Mem.Buddy.Level.{Fits}

-- The state is valid, and the bytes of the block have been added to the free memory.
pub record Frees (base m top : ℕ) (free : ℕ → List ℕ) (level block : ℕ) (o : Outcome BuddyAllocator)
    : Type 0 where
  pub state : BuddyAllocator
  pub lists : ℕ → List ℕ
  pub returns : o ≡ done state
  pub valid : IsValid base m top state lists
  pub balance :
      (a : ℕ) → is_free m top lists a ≡ is_free m top free a + inside (2 ^ (m + level)) block a

-- The fuel is beyond the length of every list.
abbrev pub IsEnough : ℕ → ℕ → (ℕ → List ℕ) → Type 0
IsEnough fuel top free = (l : ℕ) → l ≤ top → length (free l) < fuel

-- Fuel for the lists as they are: beyond all their lengths together.
pub total_length : ℕ → (ℕ → List ℕ) → ℕ
total_length zero free = 0
total_length (suc k) free = length (free k) + total_length k free

length-le-total_length :
    (k l : ℕ) (free : ℕ → List ℕ) → l < k → length (free l) ≤ total_length k free
unfolding total_length
length-le-total_length zero l free h = absurd (omega arith)
length-le-total_length (suc k) l free h = elim (dec_lt l k) [
  | yes p ↦ omega (arith, length-le-total_length k l free p)
  | no n ↦ let same : l ≡ k = omega arith in rw same (omega arith)
]

pub total_length-IsEnough :
    (fuel top : ℕ) (free : ℕ → List ℕ) → total_length (suc top) free < fuel → IsEnough fuel top free
total_length-IsEnough fuel top free h l p =
    omega (arith, h, length-le-total_length (suc top) l free (omega arith))

length-erase : (b : ℕ) (bs : List ℕ) → length (erase b bs) ≤ length bs
length-erase b [] = omega arith
length-erase b (x ∷ bs) = ground (arith, length-erase b bs)

erase-IsEnough :
    (fuel top : ℕ) (free : ℕ → List ℕ) (level b : ℕ)
    → IsEnough fuel top free
    → IsEnough fuel top (replace free level (erase b (free level)))
erase-IsEnough fuel top free level b enough =
    each_list (λ l bs. l ≤ top → length bs < fuel) free level (erase b (free level))
      (λ p. omega (arith, length-erase b (free level), enough level p)) (λ l ne. enough l)

-- The two halves of a pair make the block one level up.
inside_pair :
    {base m top level x y : ℕ}
    → IsPair base m top level x y
    → (a : ℕ)
    → inside (2 ^ (m + suc level)) (min y x) a
      ≡ inside (2 ^ (m + level)) y a + inside (2 ^ (m + level)) x a
inside_pair {base} {m} {top} {level} {x} {y} p a = at_halves p.halves
  where
    sum :
        (z : ℕ)
        → inside (2 ^ (m + suc level)) z a
          ≡ inside (2 ^ (m + level)) z a + inside (2 ^ (m + level)) (z + 2 ^ (m + level)) a
    sum z = rw add-suc (inside_halves (m + level) z a)

    at_halves :
        (x ≡ y + 2 ^ (m + level)) ⊎ (y ≡ x + 2 ^ (m + level))
        → inside (2 ^ (m + suc level)) (min y x) a
          ≡ inside (2 ^ (m + level)) y a + inside (2 ^ (m + level)) x a
    at_halves (inl e) = let low : min y x ≡ y = omega (arith, e) in rw (low, e) (sum y)
    at_halves (inr e) =
        let low : min y x ≡ x = omega (arith, e) in rw (low, e) (omega (arith, sum x))

module _ {base m top : ℕ} {s : BuddyAllocator} {free : ℕ → List ℕ} (v : IsValid base m top s free)
    {level x : ℕ} where
  x_in_heap : level ≤ top → IsSpare base m top free level x → x ≤ s.base_addr + s.max_blk_size
  x_in_heap h spare =
      omega (arith, v.geometry.based, v.geometry.max_size, IsBlock-end h spare.is_block)

  freed-Frees :
      level ≤ top
      → IsSpare base m top free level x
      → Frees base m top free level x (free_blk s x level)
  freed-Frees h spare = record {
    state = freed s x level;
    lists = replace free level (x ∷ free level);
    returns = free_blk_lem v h spare;
    valid = freed-IsValid v h spare;
    balance = is_free-freed v h spare;
  }

  -- The whole heap has no buddy.
  buddy-none : level ≡ top → IsSpare base m top free level x → buddy s x level ≡ done none
  buddy-none e spare =
      unfold buddy in
      rw
        (
          le→leb s.base_addr x (omega (arith, v.geometry.based, IsBlock-le spare.is_block)),
          le→leb x (s.base_addr + s.max_blk_size) (x_in_heap (omega arith) spare),
          eq→== (level_size s level) s.max_blk_size
              (level_size_lem v.geometry level (omega arith) ∙ (rw e (sym v.geometry.max_size))),
        )
        refl

  module _ (h : level < top) (spare : IsSpare base m top free level x) where
    abbrev other : ℕ
    other = bit_xor x (2 ^ (m + level))

    pair : IsPair base m top level x other
    pair = xor-IsPair v.geometry h spare.is_block

    buddy-other : buddy s x level ≡ done (some other)
    buddy-other = buddy-some v.geometry h spare.is_block (x_in_heap (omega arith) spare)

    merged-IsSpare :
        mem other (free level) ≡ true
        → IsSpare base m top (without_block v h other) (suc level) (min other x)
    merged-IsSpare found = record {
      is_block = pair.joined;
      apart =
          λ a. omega (arith, inside_pair pair a, is_free-unlinked v h other found a, spare.apart a);
    }

    merged_balance :
        mem other (free level) ≡ true
        → (a : ℕ)
        → is_free m top (without_block v h other) a + inside (2 ^ (m + suc level)) (min other x) a
          ≡ is_free m top free a + inside (2 ^ (m + level)) x a
    merged_balance found a = omega (arith, inside_pair pair a, is_free-unlinked v h other found a)

    level_u8 : u8 level ≡ level
    level_u8 = omega (arith, v.geometry.word)

    -- A free buddy is taken off its list, and the pair goes on one level up.
    loop_merges :
        (fuel left : ℕ)
        → IsEnough fuel top free
        → mem other (free level) ≡ true
        → deallocate_loop fuel (suc left) s x level
          ≡ deallocate_loop fuel left (unlinked v h other) (min other x) (suc level)
    loop_merges fuel left enough found =
        unfold deallocate_loop take_buddy in
        rw
          (
            level_u8,
            buddy-other,
            take_buddy,
            remove_blk_lem v h other fuel (enough level (omega arith)),
            found,
            add-one,
          )
          refl

    -- Where the buddy is in use, the block goes on the list of its level.
    loop_stops :
        (fuel left : ℕ)
        → IsEnough fuel top free
        → mem other (free level) ≡ false
        → deallocate_loop fuel (suc left) s x level ≡ free_blk s x level
    loop_stops fuel left enough alone =
        unfold deallocate_loop take_buddy in
        rw
          (
            level_u8,
            buddy-other,
            take_buddy,
            remove_blk_lem v h other fuel (enough level (omega arith)),
            alone,
            unlinked-absent v h other alone,
          )
          refl

  loop_whole :
      (fuel left : ℕ)
      → level ≡ top
      → IsSpare base m top free level x
      → deallocate_loop fuel (suc left) s x level ≡ free_blk s x level
  loop_whole fuel left e spare =
      let level_u8 : u8 level ≡ level = omega (arith, v.geometry.word) in
      unfold deallocate_loop take_buddy in rw (level_u8, buddy-none e spare) refl

deallocate_loop-Frees :
    (left level x fuel : ℕ) {base m top : ℕ} {s : BuddyAllocator} {free : ℕ → List ℕ}
    → IsValid base m top s free
    → level + left ≡ suc top
    → level ≤ top
    → IsEnough fuel top free
    → IsSpare base m top free level x
    → Frees base m top free level x (deallocate_loop fuel left s x level)
deallocate_loop-Frees zero level x fuel v e h enough spare = absurd (omega arith)
deallocate_loop-Frees (suc left) level x fuel {top = top} {free = free} v e h enough spare =
    elim (dec_lt level top) [
      | no n ↦ rw (loop_whole v fuel left (omega arith) spare) (freed-Frees v h spare)
      | yes p ↦ elim (Bool-cases (mem (other v p spare) (free level))) [
        | inr alone ↦ rw (loop_stops v p spare fuel left enough alone) (freed-Frees v h spare)
        | inl found ↦
            let rest =
              deallocate_loop-Frees left (suc level) (min (other v p spare) x) fuel
                (unlinked-IsValid v p (other v p spare) found) (omega arith) p
                (erase-IsEnough fuel top free level (other v p spare) enough)
                (merged-IsSpare v p spare found) in
            rw (loop_merges v p spare fuel left enough found) (record {
              state = rest.state;
              lists = rest.lists;
              returns = rest.returns;
              valid = rest.valid;
              balance = λ a. rest.balance a ∙ merged_balance v p spare found a;
            })
      ]
    ]

-- The block of a request goes back to the free memory, with no other byte changed.
pub deallocate-Frees :
    {base m top : ℕ} {s : BuddyAllocator} {free : ℕ → List ℕ}
    → IsValid base m top s free
    → (fuel block size align : ℕ) → IsEnough fuel top free
    → (fits : Fits m top size align (allocation_level s size align))
    → IsSpare base m top free fits.level block
    → Frees base m top free fits.level block (deallocate fuel s block size align)
deallocate-Frees {top = top} {s = s} v fuel block size align enough fits spare =
    unfold deallocate in
    rw fits.returns (
      deallocate_loop-Frees (s.levels - fits.level) fits.level block fuel v
        (omega (arith, v.geometry.level_count, fits.in_range)) fits.in_range enough spare)
