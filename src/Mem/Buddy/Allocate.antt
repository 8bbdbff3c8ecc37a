-- ===== src/Mem/Buddy/Allocate.antt =====
-- `allocate`: the first block from the requested level up, split down to that level.
use fzkernel.Base.{
  ℕ, zero, suc, ◌+◌, ◌^◌, ◌≤◌, ◌<◌, ◌≡◌, refl, ◌∙◌, ◌⊎◌, inl, inr, List, [], ◌∷◌, arith, dec_lt,
  lt→ltb, le→ltb, le→leb, u8,
}
use fzkernel.Base.Outcome.{Outcome, done}
use fzkernel.Mem.Log2.{next_power_of_two}
use fzkernel.Mem.Buddy.{BuddyAllocator, allocate, allocate_loop, give, split_blk, allocation_level}
use fzkernel.Mem.Buddy.Cover.{inside, replace}
use fzkernel.Mem.Buddy.Valid.{IsValid, IsSpare, is_free}
use fzkernel.Mem.Buddy.Lists.{
  popped, pop-empty, pop-cons, popped-IsValid, popped-IsSpare, is_free-popped,
}
use fzkernel.Mem.Buddy.Split.{split_loop-Splits}
use fzkernel.Mem.Buddy.Level.{Fits, allocation_level-Fits}

-- A block of the level was free and is handed out, the state is valid, and no other byte of the
-- free memory has changed.
pub record Gives (base m top : ℕ) (free : ℕ → List ℕ) (level : ℕ) (o : Outcome (ℕ × BuddyAllocator))
    : Type 0 where
  pub block : ℕ
  pub state : BuddyAllocator
  pub lists : ℕ → List ℕ
  pub returns : o ≡ done (block, state)
  pub valid : IsValid base m top state lists
  pub spare : IsSpare base m top lists level block
  pub balance :
      (a : ℕ) → is_free m top lists a + inside (2 ^ (m + level)) block a ≡ is_free m top free a

-- Every list from the level on is empty, and the null pointer comes back with the state as it was.
pub record IsExhausted (top : ℕ) (s : BuddyAllocator) (free : ℕ → List ℕ) (level : ℕ)
    (o : Outcome (ℕ × BuddyAllocator)) : Type 0 where
  pub returns : o ≡ done (0, s)
  pub empty : (l : ℕ) → level ≤ l → l ≤ top → free l ≡ []

List-cases : (bs : List ℕ) → (bs ≡ []) ⊎ ((b : ℕ) × (r : List ℕ) × (bs ≡ b ∷ r))
List-cases [] = inl refl
List-cases (b ∷ r) = inr (b, r, refl)

module _ {base m top : ℕ} {s : BuddyAllocator} {free : ℕ → List ℕ} (v : IsValid base m top s free)
    (level_req : ℕ) where
  -- A block found at a level is split, if that level is above the one that was asked for.
  give-Gives :
      (level b : ℕ) (bs : List ℕ)
      → level_req ≤ level
      → level ≤ top
      → free level ≡ b ∷ bs
      → Gives base m top free level_req (give (popped s level b) b level level_req)
  give-Gives level b bs le h e = elim (dec_lt level_req level) [
    | yes p ↦
        let r =
          split_loop-Splits level level_req b (popped-IsValid v h e) h le (popped-IsSpare v h e) in
        record {
          block = b;
          state = r.state;
          lists = r.lists;
          returns =
              unfold give split_blk in
              rw (lt→ltb level_req level p, le→leb level_req level le, r.returns) refl;
          valid = r.valid;
          spare = r.spare;
          balance = λ a. r.balance a ∙ is_free-popped v h e a;
        }
    | no n ↦
        let q : level_req ≡ level = omega arith in
        record {
          block = b;
          state = popped s level b;
          lists = replace free level bs;
          returns = unfold give in rw (le→ltb level_req level (omega arith)) refl;
          valid = popped-IsValid v h e;
          spare = rw q (popped-IsSpare v h e);
          balance = λ a. rw q (is_free-popped v h e a);
        }
  ]

  loop_empty :
      (fuel level : ℕ)
      → level ≤ top
      → free level ≡ []
      → allocate_loop (suc fuel) s level_req level ≡ allocate_loop fuel s level_req (suc level)
  loop_empty fuel level h e =
      let next : u8 (level + 1) ≡ suc level = omega (arith, v.geometry.word) in
      unfold allocate_loop in
      rw (lt→ltb level s.levels (omega (arith, v.geometry.level_count)), pop-empty v h e, next) refl

  loop_found :
      (fuel level b : ℕ) (bs : List ℕ)
      → level ≤ top
      → free level ≡ b ∷ bs
      → allocate_loop (suc fuel) s level_req level ≡ give (popped s level b) b level level_req
  loop_found fuel level b bs h e =
      unfold allocate_loop in
      rw (lt→ltb level s.levels (omega (arith, v.geometry.level_count)), pop-cons v h e) refl

  abbrev Answer : ℕ → Outcome (ℕ × BuddyAllocator) → Type 0
  Answer level o = Gives base m top free level_req o ⊎ IsExhausted top s free level o

  Answer-skip :
      (level : ℕ) (o : Outcome (ℕ × BuddyAllocator))
      → free level ≡ []
      → Answer (suc level) o
      → Answer level o
  Answer-skip level o e (inl g) = inl g
  Answer-skip level o e (inr x) = inr (record {
    returns = x.returns;
    empty = λ l p q. elim (dec_lt level l) [
      | yes r ↦ x.empty l r q
      | no n ↦ let same : l ≡ level = omega arith in rw same e
    ];
  })

  -- The loop ends, with a block or with every list from the level on empty.
  allocate_loop-Answer :
      (fuel level : ℕ)
      → level_req ≤ level
      → level ≤ suc top
      → suc top < level + fuel
      → Answer level (allocate_loop fuel s level_req level)
  allocate_loop-Answer zero level le h enough = absurd (omega arith)
  allocate_loop-Answer (suc fuel) level le h enough = elim (dec_lt top level) [
    | yes p ↦ inr (record {
      returns =
          unfold allocate_loop in
          rw (le→ltb level s.levels (omega (arith, v.geometry.level_count))) refl;
      empty = λ l q r. absurd (omega arith);
    })
    | no n ↦ elim (List-cases (free level)) [
      | inl e ↦ rw (loop_empty fuel level (omega arith) e) (
          Answer-skip level _ e
            (allocate_loop-Answer fuel (suc level) (omega arith) (omega arith) (omega arith)))
      | inr (b, bs, e) ↦
          rw (loop_found fuel level b bs (omega arith) e)
            (inl (give-Gives level b bs le (omega arith) e))
    ]
  ]

-- What a request gets: the level that fits it, and there a block, or the null pointer.
pub record Serves (base m top : ℕ) (s : BuddyAllocator) (free : ℕ → List ℕ) (size align : ℕ)
    (o : Outcome (ℕ × BuddyAllocator)) : Type 0 where
  pub fits : Fits m top size align (allocation_level s size align)
  pub answer : Gives base m top free fits.level o ⊎ IsExhausted top s free fits.level o

-- In a valid state, a request whose size is below the size of the heap, and whose alignment is a
-- power of two below 8192, returns without a panic and in bounded fuel. Its level is the least one
-- that fits the request. Either a free block of that level is handed out, with the lists valid
-- and all other free memory unchanged; or every list from that level on is empty, and the null
-- pointer comes back with the state unchanged.
pub allocate-Serves :
    {base m top : ℕ} {s : BuddyAllocator} {free : ℕ → List ℕ}
    → IsValid base m top s free
    → (size align : ℕ) → size < s.max_blk_size
    → next_power_of_two align ≡ align
    → align < 8192
    → Serves base m top s free size align (allocate s size align)
allocate-Serves {s = s} v size align small power aligned =
    let fits = allocation_level-Fits v.geometry size align small power aligned in
    record {
      fits = fits;
      answer =
          unfold allocate in
          rw fits.returns (
            allocate_loop-Answer v fits.level (suc s.levels) fits.level (omega arith)
              (omega (arith, fits.in_range)) (omega (arith, v.geometry.level_count)));
    }
