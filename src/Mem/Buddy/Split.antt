-- ===== src/Mem/Buddy/Split.antt =====
-- `split_blk`: a block is halved until it has the size that was asked for, and each second half
-- is freed.
use fzkernel.Base.{
  ℕ, zero, suc, ◌+◌, ◌^◌, ◌≤◌, ◌<◌, ◌≡◌, refl, ap, ◌∙◌, List, some, ◌∷◌, arith, dec_lt, bit_xor,
  le→ltb,
}
use native.Mathlib.Nat.{add-suc}
use fzkernel.Base.Outcome.{Outcome, done}
use fzkernel.Mem.Buddy.{BuddyAllocator, split_loop, free_buddy, buddy}
use fzkernel.Mem.Buddy.Cover.{inside, inside_halves, replace}
use fzkernel.Mem.Buddy.Block.{IsBlock-half, IsBlock-end, xor_even, xor-IsPair, buddy-some}
use fzkernel.Mem.Buddy.Valid.{IsValid, IsSpare, is_free}
use fzkernel.Mem.Buddy.Lists.{freed, freed-IsValid, free_blk_lem, is_free-freed}

-- The outcome is a valid state, in which the block is cut down to `new_level`, and what was cut
-- off is free.
pub record Splits (base m top : ℕ) (free : ℕ → List ℕ) (level new_level x : ℕ)
    (o : Outcome BuddyAllocator) : Type 0 where
  pub state : BuddyAllocator
  pub lists : ℕ → List ℕ
  pub returns : o ≡ done state
  pub valid : IsValid base m top state lists
  pub spare : IsSpare base m top lists new_level x
  pub balance :
      (a : ℕ)
      → is_free m top lists a + inside (2 ^ (m + new_level)) x a
        ≡ is_free m top free a + inside (2 ^ (m + level)) x a

module _ {base m top : ℕ} {s : BuddyAllocator} {free : ℕ → List ℕ} (v : IsValid base m top s free)
    {level x : ℕ} (h : level < top) (spare : IsSpare base m top free (suc level) x) where
  halves_of :
      (a : ℕ)
      → inside (2 ^ (m + suc level)) x a
        ≡ inside (2 ^ (m + level)) x a + inside (2 ^ (m + level)) (x + 2 ^ (m + level)) a
  halves_of a = rw add-suc (inside_halves (m + level) x a)

  abbrev other : ℕ
  other = bit_xor x (2 ^ (m + level))

  other_half : other ≡ x + 2 ^ (m + level)
  other_half = let half = IsBlock-half h spare.is_block in xor_even v.geometry h half.0 half.1

  buddy_half : buddy s x level ≡ done (some other)
  buddy_half = buddy-some v.geometry h (IsBlock-half h spare.is_block).0 (
      omega
        (arith, v.geometry.based, v.geometry.max_size, IsBlock-end (omega arith) spare.is_block))

  other-IsSpare : IsSpare base m top free level other
  other-IsSpare = record {
    is_block = (xor-IsPair v.geometry h (IsBlock-half h spare.is_block).0).is_block;
    apart = λ a. rw other_half (omega (arith, spare.apart a, halves_of a));
  }

  halved-IsSpare : IsSpare base m top (replace free level (other ∷ free level)) level x
  halved-IsSpare = record {
    is_block = (IsBlock-half h spare.is_block).0;
    apart = λ a. omega (
      arith,
      is_free-freed v (omega arith) other-IsSpare a,
      spare.apart a,
      halves_of a,
      ap (λ (y : ℕ). inside (2 ^ (m + level)) y a) other_half,
    );
  }

  -- One round: the second half is freed, and the first is left in hand.
  split_round :
      (new_level : ℕ)
      → new_level ≤ level
      → split_loop s x (suc level) new_level ≡ split_loop (freed s other level) x level new_level
  split_round new_level le =
      let freed_by = free_blk_lem v (omega arith) other-IsSpare in
      unfold split_loop free_buddy in ground (arith, buddy_half, freed_by)

  freed_half-IsValid :
      IsValid base m top (freed s other level) (replace free level (other ∷ free level))
  freed_half-IsValid = freed-IsValid v (omega arith) other-IsSpare

  pub half_balance :
      (a : ℕ)
      → is_free m top (replace free level (other ∷ free level)) a + inside (2 ^ (m + level)) x a
        ≡ is_free m top free a + inside (2 ^ (m + suc level)) x a
  half_balance a = omega (
    arith,
    is_free-freed v (omega arith) other-IsSpare a,
    halves_of a,
    ap (λ (y : ℕ). inside (2 ^ (m + level)) y a) other_half,
  )

pub split_loop-Splits :
    (level new_level x : ℕ) {base m top : ℕ} {s : BuddyAllocator} {free : ℕ → List ℕ}
    → IsValid base m top s free
    → level ≤ top
    → new_level ≤ level
    → IsSpare base m top free level x
    → Splits base m top free level new_level x (split_loop s x level new_level)
split_loop-Splits zero zero x {s = s} {free} v h le spare = record {
  state = s;
  lists = free;
  returns = unfold split_loop in refl;
  valid = v;
  spare = spare;
  balance = λ a. refl;
}
split_loop-Splits zero (suc n) x v h le spare = absurd (omega arith)
split_loop-Splits (suc level) new_level x {base} {m} {top} {s} {free} v h le spare =
    elim (dec_lt new_level (suc level)) [
      | yes p ↦
          let rest =
            split_loop-Splits level new_level x (freed_half-IsValid v h spare) (omega arith)
              (omega arith) (halved-IsSpare v h spare) in
          record {
            state = rest.state;
            lists = rest.lists;
            returns = split_round v h spare new_level (omega arith) ∙ rest.returns;
            valid = rest.valid;
            spare = rest.spare;
            balance = λ a. rest.balance a ∙ half_balance v h spare a;
          }
      | no n ↦
          let e : new_level ≡ suc level = omega arith in
          record {
            state = s;
            lists = free;
            returns = unfold split_loop in rw (le→ltb new_level (suc level) (omega arith)) refl;
            valid = v;
            spare = rw e spare;
            balance = λ a. rw e refl;
          }
    ]
