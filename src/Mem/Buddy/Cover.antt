-- ===== src/Mem/Buddy/Cover.antt =====
-- How often an address lies in a free block. This counts, over all lists of a family, the blocks
-- that an address is in, so that an operation's effect on the free memory is one equation.
use fzkernel.Base.{
  ℕ, zero, suc, ◌+◌, ◌^◌, ◌≤◌, ◌<◌, ◌≡◌, ◌≢◌, refl, Bool, true, false, ◌&&◌, List, [], ◌∷◌, All,
  ltb, leb, ◌==◌, if◌then◌else◌, arith, dec_lt, Bool-cases, inl, inr, ==→eq,
}
use mathlib.Core.Path.{subst}
use fzkernel.Mem.Buddy.{update}
use fzkernel.Base.Pow.{pow2_suc, pow2_pos}

-- Whether `a` is one of the `n` addresses from `b` on, as a number.
abbrev pub inside : ℕ → ℕ → ℕ → ℕ
inside n b a = if leb b a && ltb a (b + n) then 1 else 0

-- The blocks of size `n` of one list that hold `a`.
pub count : ℕ → List ℕ → ℕ → ℕ
count n [] a = 0
count n (b ∷ bs) a = inside n b a + count n bs a

pub count_cons : (n b : ℕ) (bs : List ℕ) (a : ℕ) → count n (b ∷ bs) a ≡ inside n b a + count n bs a
unfolding count
count_cons n b bs a = refl

-- A family of lists, one for each level, changed at one level.
abbrev pub replace : (ℕ → List ℕ) → ℕ → List ℕ → ℕ → List ℕ
replace free level bs l = if level == l then bs else free l

-- To prove of every level what has to hold after one level's head and list have changed.
pub each_level {ℓ} :
    (P : ℕ → ℕ → List ℕ → Type ℓ) (heads : ℕ → ℕ) (free : ℕ → List ℕ) (level head : ℕ) (bs : List ℕ)
    → P level head bs
    → ((l : ℕ) → level ≢ l → P l (heads l) (free l))
    → (l : ℕ) → P l (update heads level head l) (replace free level bs l)
each_level P heads free level head bs here there l = elim (Bool-cases (level == l)) [
  | inl same ↦ rw same (subst (λ k. P k head bs) (==→eq level l same) here)
  | inr other ↦ rw other (there l (ground arith))
]

pub each_list {ℓ} :
    (P : ℕ → List ℕ → Type ℓ) (free : ℕ → List ℕ) (level : ℕ) (bs : List ℕ)
    → P level bs
    → ((l : ℕ) → level ≢ l → P l (free l))
    → (l : ℕ) → P l (replace free level bs l)
each_list P free level bs here there l = elim (Bool-cases (level == l)) [
  | inl same ↦ rw same (subst (λ k. P k bs) (==→eq level l same) here)
  | inr other ↦ rw other (there l (ground arith))
]

-- The free blocks of the lowest `k` levels that hold `a`; a block of level `l` has `2 ^ (m + l)`
-- bytes.
pub cover : ℕ → ℕ → (ℕ → List ℕ) → ℕ → ℕ
unfolding count
cover m zero free a = 0
cover m (suc k) free a = count (2 ^ (m + k)) (free k) a + cover m k free a

abbrev pub none_free : ℕ → List ℕ
none_free l = []

pub count-nil : (n a : ℕ) → count n [] a ≡ 0
unfolding count
count-nil n a = refl

pub cover-none_free : (m k a : ℕ) → cover m k none_free a ≡ 0
unfolding cover count
cover-none_free m zero a = refl
cover-none_free m (suc k) a = omega (arith, cover-none_free m k a)

pub cover-replace_above :
    (m k level : ℕ) (free : ℕ → List ℕ) (bs : List ℕ) (a : ℕ)
    → k ≤ level
    → cover m k (replace free level bs) a ≡ cover m k free a
unfolding cover
cover-replace_above m zero level free bs a h = refl
cover-replace_above m (suc k) level free bs a h =
    ground (arith, cover-replace_above m k level free bs a)

pub cover-replace :
    (m k level : ℕ) (free : ℕ → List ℕ) (bs : List ℕ) (a : ℕ)
    → level < k
    → cover m k (replace free level bs) a + count (2 ^ (m + level)) (free level) a
      ≡ cover m k free a + count (2 ^ (m + level)) bs a
unfolding cover
cover-replace m zero level free bs a h = absurd (omega arith)
cover-replace m (suc k) level free bs a h =
    ground (arith, cover-replace_above m k level free bs a, cover-replace m k level free bs a)

-- A list's own count is part of the cover.
pub count-le-cover :
    (m k level : ℕ) (free : ℕ → List ℕ) (a : ℕ)
    → level < k
    → count (2 ^ (m + level)) (free level) a ≤ cover m k free a
unfolding cover
count-le-cover m zero level free a h = absurd (omega arith)
count-le-cover m (suc k) level free a h = elim (dec_lt level k) [
  | yes p ↦ omega (arith, count-le-cover m k level free a p)
  | no p ↦ let e : level ≡ k = omega arith in rw e (omega arith)
]

-- Two lists' counts together are part of it.
pub count-add-le-cover :
    (m k i j : ℕ) (free : ℕ → List ℕ) (a : ℕ)
    → i < j
    → j < k
    → count (2 ^ (m + i)) (free i) a + count (2 ^ (m + j)) (free j) a ≤ cover m k free a
unfolding cover
count-add-le-cover m zero i j free a p q = absurd (omega arith)
count-add-le-cover m (suc k) i j free a p q = elim (dec_lt j k) [
  | yes r ↦ omega (arith, count-add-le-cover m k i j free a p r)
  | no r ↦
      let e : j ≡ k = omega arith in rw e (omega (arith, count-le-cover m k i free a (omega arith)))
]

abbrev pub Without : ℕ → List ℕ → Type 0
Without b bs = All (λ x. x ≢ b) bs

-- What holds its own first address is not in a list that does not hold it.
pub count_zero-Without : (n b : ℕ) (bs : List ℕ) → 0 < n → count n bs b ≡ 0 → Without b bs
unfolding count
count_zero-Without n b [] h e = tt
count_zero-Without n b (x ∷ bs) h e = (ground arith, count_zero-Without n b bs h (omega arith))

-- A list that holds no address twice has no block twice.
abbrev pub IsDistinct : List ℕ → Type 0
IsDistinct [] = Unit
IsDistinct (b ∷ bs) = Without b bs × IsDistinct bs

pub count_once-IsDistinct :
    (n : ℕ) (bs : List ℕ) → 0 < n → ((a : ℕ) → count n bs a ≤ 1) → IsDistinct bs
unfolding count
count_once-IsDistinct n [] h once = tt
count_once-IsDistinct n (b ∷ bs) h once = (
  count_zero-Without n b bs h (ground (arith, once b)),
  count_once-IsDistinct n bs h (λ a. omega (arith, once a)),
)

-- The two halves of a block.
pub inside_halves :
    (k b a : ℕ) → inside (2 ^ suc k) b a ≡ inside (2 ^ k) b a + inside (2 ^ k) (b + 2 ^ k) a
inside_halves k b a = ground (arith, pow2_suc k, pow2_pos k)

abbrev pub mem : ℕ → List ℕ → Bool
mem b [] = false
mem b (x ∷ bs) = if x == b then true else mem b bs

abbrev pub erase : ℕ → List ℕ → List ℕ
erase b [] = []
erase b (x ∷ bs) = if x == b then bs else x ∷ erase b bs

pub count-erase :
    (n b : ℕ) (bs : List ℕ) (a : ℕ)
    → mem b bs ≡ true
    → count n (erase b bs) a + inside n b a ≡ count n bs a
unfolding count
count-erase n b [] a h = cc
count-erase n b (x ∷ bs) a h = ground (arith, count-erase n b bs a)

pub All-erase {ℓ} : (P : ℕ → Type ℓ) (b : ℕ) (bs : List ℕ) → All P bs → All P (erase b bs)
All-erase P b [] h = tt
All-erase P b (x ∷ bs) h = ground (arith, All-erase P b bs h.1)
