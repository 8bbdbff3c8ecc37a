-- ===== src/Ext4/Extent/Mapping.antt =====
-- `get_exact_blk_mapping` against a scan of the extents.
use fzkernel.Base.{
  ℕ, zero, suc, ◌+◌, ◌-◌, ◌≤◌, ◌<◌, ◌≡◌, refl, sym, ap, ◌∙◌, inl, inr, arith, Bool, true, false,
  not, Option, none, some, List, [], ◌∷◌, length, get_elem?, get_elem?-some, All, ltb, leb, leb→le,
  leb→lt, lt→leb, lt→ltb, le→ltb, Bool-cases, if◌then◌else◌, u32, u64, u64_mod,
}
use fzkernel.Base.Outcome.{done}
use fzkernel.Ext4.Extent.{
  Extent, contains, start_blk, compare_extent, is_greater, is_equal, nth_greater, search_loop,
  binary_search_by, check, physical, get_exact_blk_mapping,
}
use fzkernel.Ext4.Extent.Search.{search_loop-done}

-- The extents are in the order of their first blocks.
unfoldable pub IsSorted : List Extent → Type 0
IsSorted [] = Unit
IsSorted (e ∷ es) = All (λ x. e.block ≤ x.block) es × IsSorted es

abbrev pub or_else : Option Extent → Option Extent → Option Extent
or_else (some x) o = some x
or_else none o = o

-- The last extent that starts at the block or before it, by a scan.
abbrev pub last_before : ℕ → List Extent → Option Extent
last_before blk_id [] = none
last_before blk_id (e ∷ es) =
    or_else (last_before blk_id es) (if leb e.block blk_id then some e else none)

-- That extent gives the block, if its end (with the block behind it) is not passed.
abbrev pub scan_from : ℕ → Option Extent → Option ℕ
scan_from blk_id none = none
scan_from blk_id (some e) =
    if leb blk_id (u32 (e.block + e.len))
    then some (u64 (start_blk e + (blk_id - e.block)))
    else none

abbrev pub scan : ℕ → List Extent → Option ℕ
scan blk_id es = scan_from blk_id (last_before blk_id es)

-- How many extents at the front start at the block or before it.
abbrev count : ℕ → List Extent → ℕ
count blk_id [] = 0
count blk_id (e ∷ es) = let rest = count blk_id es in if leb e.block blk_id then suc rest else 0

count-length : (blk_id : ℕ) (es : List Extent) → count blk_id es ≤ length es
count-length blk_id [] = omega arith
count-length blk_id (e ∷ es) = ground (arith, count-length blk_id es)

abbrev greater_of : ℕ → Option Extent → Bool
greater_of blk_id none = true
greater_of blk_id (some x) = is_greater (compare_extent blk_id x)

-- What the closure compares: only the first block decides between above and not above.
compare-greater :
    (blk_id : ℕ) (e : Extent) → is_greater (compare_extent blk_id e) ≡ not (leb e.block blk_id)
unfolding compare_extent contains
compare-greater blk_id e = ground arith

compare-equal :
    (blk_id : ℕ) (e : Extent)
    → e.block ≤ blk_id
    → is_equal (compare_extent blk_id e) ≡ leb blk_id (u32 (e.block + e.len))
unfolding compare_extent contains
compare-equal blk_id e h = ground arith

later-above :
    (blk_id lowest : ℕ) (es : List Extent) (i : ℕ)
    → blk_id < lowest
    → All (λ x. lowest ≤ x.block) es
    → nth_greater es blk_id i ≡ true
later-above blk_id lowest [] i h all = refl
later-above blk_id lowest (e ∷ es) zero h (first, all) =
    compare-greater blk_id e ∙ ap not (lt→leb e.block blk_id (omega arith))
later-above blk_id lowest (e ∷ es) (suc i) h (first, all) = later-above blk_id lowest es i h all

ltb-suc : (a b : ℕ) → ltb (suc a) (suc b) ≡ ltb a b
ltb-suc a b = ground arith

-- In order, just the extents from the count on are above.
nth_greater-count :
    (blk_id : ℕ) (es : List Extent) (i : ℕ)
    → IsSorted es
    → i < length es
    → nth_greater es blk_id i ≡ not (ltb i (count blk_id es))
unfolding IsSorted
nth_greater-count blk_id [] i s h = absurd (omega arith)
nth_greater-count blk_id (e ∷ es) zero (lower, s) h = elim (Bool-cases (leb e.block blk_id)) [
  | inl before ↦ rw before (
      compare-greater blk_id e
      ∙ ap not (before ∙ sym (lt→ltb 0 (suc (count blk_id es)) (omega arith))))
  | inr after ↦ rw after (compare-greater blk_id e ∙ ap not after)
]
nth_greater-count blk_id (e ∷ es) (suc i) (lower, s) h = elim (Bool-cases (leb e.block blk_id)) [
  | inl before ↦
      rw before
        (nth_greater-count blk_id es i s (omega arith) ∙ ap not (sym (ltb-suc i (count blk_id es))))
  | inr after ↦ rw after (
      later-above blk_id e.block es i (leb→lt e.block blk_id after) lower
      ∙ ap not (sym (le→ltb (suc i) 0 (omega arith))))
]

none-before :
    (blk_id lowest : ℕ) (es : List Extent)
    → blk_id < lowest
    → All (λ x. lowest ≤ x.block) es
    → last_before blk_id es ≡ none
none-before blk_id lowest [] h all = refl
none-before blk_id lowest (e ∷ es) h (first, all) =
    rw (none-before blk_id lowest es h all, lt→leb e.block blk_id (omega arith))

abbrev nth_before : List Extent → ℕ → Option Extent
nth_before es zero = none
nth_before es (suc k) = get_elem? es k

first-or_else :
    (e : Extent) (es : List Extent) (n : ℕ)
    → n ≤ length es
    → or_else (nth_before es n) (some e) ≡ get_elem? (e ∷ es) n
first-or_else e es zero h = refl
first-or_else e es (suc k) h = let x = get_elem?-some es k (omega arith) in rw x.1

last_before-count :
    (blk_id : ℕ) (es : List Extent)
    → IsSorted es
    → last_before blk_id es ≡ nth_before es (count blk_id es)
unfolding IsSorted
last_before-count blk_id [] s = refl
last_before-count blk_id (e ∷ es) (lower, s) = elim (Bool-cases (leb e.block blk_id)) [
  | inl before ↦ rw before (
      ap (λ o. or_else o (some e)) (last_before-count blk_id es s)
      ∙ first-or_else e es (count blk_id es) (count-length blk_id es))
  | inr after ↦ rw (none-before blk_id e.block es (leb→lt e.block blk_id after) lower, after)
]

compare-above :
    (blk_id : ℕ) (e : Extent)
    → leb e.block blk_id ≡ false
    → is_equal (compare_extent blk_id e) ≡ false
unfolding compare_extent contains
compare-above blk_id e h = ground (arith, h)

not-true : (b : Bool) → not b ≡ true → b ≡ false
not-true true e = sym e
not-true false e = refl

not-false : (b : Bool) → not b ≡ false → b ≡ true
not-false true e = refl
not-false false e = sym e

offset :
    (blk_id block : ℕ)
    → block ≤ blk_id
    → blk_id < u64_mod
    → u64 (blk_id + (u64_mod - block)) ≡ blk_id - block
offset blk_id block h small = omega arith

module _ (blk_id : ℕ) (e : Extent) (es : List Extent) (s : IsSorted (e ∷ es))
    (small : blk_id < u64_mod) where
  abbrev all : List Extent
  all = e ∷ es

  search-done :
      search_loop (length all) (nth_greater all blk_id) 0 (length all) ≡ done (count blk_id all - 1)
  search-done =
      search_loop-done (length all) (nth_greater all blk_id) 0 (length all) (count blk_id all)
        (λ i h. nth_greater-count blk_id all i s (omega arith)) (omega arith) (omega arith)
        (inr refl) (omega (arith, count-length blk_id all))

  scanned :
      (o : Option Extent)
      → last_before blk_id all ≡ o
      → done (scan_from blk_id o) ≡ done (scan blk_id all)
  scanned o last = ap (λ o. done (scan_from blk_id o)) (sym last)

  -- The search ends at one element, which is compared once more.
  binary-check :
      (k : ℕ) (x : Extent)
      → count blk_id all - 1 ≡ k
      → get_elem? all k ≡ some x
      → binary_search_by all blk_id ≡ check blk_id k (some x)
  unfolding binary_search_by
  binary-check k x base found = rw (search-done, base) (ap (check blk_id k) found)

  none_starts : count blk_id all ≡ 0 → get_exact_blk_mapping all blk_id ≡ done (scan blk_id all)
  unfolding get_exact_blk_mapping
  none_starts z =
      let above : leb e.block blk_id ≡ false = not-true (leb e.block blk_id) (
        sym (compare-greater blk_id e)
        ∙ nth_greater-count blk_id all 0 s (omega arith)
        ∙ ap not (ap (λ n. ltb 0 n) z)) in
      let last : last_before blk_id all ≡ none =
        last_before-count blk_id all s ∙ ap (nth_before all) z in
      let missed : check blk_id 0 (some e) ≡ done none =
        unfold check in rw (compare-above blk_id e above) in
      rw (binary-check 0 e (omega (arith, z)) refl, missed) (scanned none last)

  some_starts :
      (k : ℕ) → count blk_id all ≡ suc k → get_exact_blk_mapping all blk_id ≡ done (scan blk_id all)
  unfolding get_exact_blk_mapping
  some_starts k z =
      let base : count blk_id all - 1 ≡ k = omega (arith, z) in
      let short : k < length all = omega (arith, z, count-length blk_id all) in
      let found = get_elem?-some all k short in
      let x : Extent = found.0 in
      let last : last_before blk_id all ≡ some x =
        last_before-count blk_id all s ∙ ap (nth_before all) z ∙ found.1 in
      let le : leb x.block blk_id ≡ true = not-false (leb x.block blk_id) (
        sym (compare-greater blk_id x)
        ∙ sym (ap (greater_of blk_id) found.1)
        ∙ nth_greater-count blk_id all k s short
        ∙ ap not (ap (ltb k) z ∙ lt→ltb k (suc k) (omega arith))) in
      let before : x.block ≤ blk_id = leb→le x.block blk_id le in
      elim (Bool-cases (leb blk_id (u32 (x.block + x.len)))) [
        | inl inside ↦
            let value : physical blk_id (some x) ≡ scan_from blk_id (some x) =
              unfold physical in rw (inside, offset blk_id x.block before small) in
            let hit : check blk_id k (some x) ≡ done (some k) =
              unfold check in rw (compare-equal blk_id x before ∙ inside) in
            rw (binary-check k x base found.1, hit)
              (ap (λ o. done (physical blk_id o)) found.1
                ∙ ap (λ o. done o) value
                ∙ scanned (some x) last)
        | inr outside ↦
            let value : scan_from blk_id (some x) ≡ none = rw outside in
            let miss : check blk_id k (some x) ≡ done none =
              unfold check in rw (compare-equal blk_id x before ∙ outside) in
            rw (binary-check k x base found.1, miss)
              (ap (λ o. done o) (sym value) ∙ scanned (some x) last)
      ]

-- Where the extents are in the order of their first blocks, `get_exact_blk_mapping` returns for
-- every 64-bit block just what a scan gives: the last extent that starts at the block or before it,
-- if the block is not behind the block after its end, and then the distance from its start added
-- to where it is on the disk; or nothing.
pub get_exact_blk_mapping-scan :
    (es : List Extent) (blk_id : ℕ)
    → IsSorted es
    → blk_id < u64_mod
    → get_exact_blk_mapping es blk_id ≡ done (scan blk_id es)
get_exact_blk_mapping-scan [] blk_id s small = unfold get_exact_blk_mapping binary_search_by in refl
get_exact_blk_mapping-scan (e ∷ es) blk_id s small = by_count (count blk_id (e ∷ es)) refl
  where
    by_count :
        (n : ℕ)
        → count blk_id (e ∷ es) ≡ n
        → get_exact_blk_mapping (e ∷ es) blk_id ≡ done (scan blk_id (e ∷ es))
    by_count zero z = none_starts blk_id e es s small z
    by_count (suc k) z = some_starts blk_id e es s small k z
