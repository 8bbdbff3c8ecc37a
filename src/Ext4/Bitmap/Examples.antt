-- ===== src/Ext4/Bitmap/Examples.antt =====
-- A bit vector that is a length and a function, and a bitmap of ten blocks.
use fzkernel.Base.{
  ℕ, zero, suc, ◌-◌, ◌≡◌, refl, sym, ap, ◌∙◌, arith, Bool, true, false, not, Option, none, some,
  List, [], ◌∷◌, ltb, lt→ltb, ◌==◌, eq→==, ne→==, if◌then◌else◌, Bool-cases, inl, inr,
  some-injective,
}
use mathlib.Core.Option.{none-ne-some}
use fzkernel.Ext4.Bitmap.{Vob, IsVob, blk_in_use}
use fzkernel.Ext4.Bitmap.Blocks.{Cycles, set_blk_in_use-free_blk}

record Bits : Type 0 where
  size : ℕ
  bit : ℕ → Bool

abbrev bit_at : Bits → ℕ → Option Bool
bit_at v i = if ltb i v.size then some (v.bit i) else none

abbrev change : (ℕ → Bool) → ℕ → Bool → ℕ → Bool
change f i b j = if i == j then b else f j

abbrev with_bit : Bits → ℕ → Bool → Option (Bool × Bits)
with_bit v i b =
    if ltb i v.size
    then some (not (if v.bit i then b else not b), record v { bit = change v.bit i b })
    else none

-- The clear bits of `n` indices from the first on.
abbrev clear_bits : Bits → ℕ → ℕ → List ℕ
clear_bits v zero first = []
clear_bits v (suc n) first =
    let rest = clear_bits v n (suc first) in
    if ltb first v.size then (if v.bit first then rest else first ∷ rest) else rest

abbrev fill : Bool → Bits → ℕ → ℕ → Bits
fill b v first last = record v {
  bit = λ i. if ltb i last then (if ltb i first then v.bit i else b) else v.bit i;
}

abbrev bits : Vob Bits
bits = record {
  len = λ v. v.size;
  get = bit_at;
  set = with_bit;
  iter_unset_bits = λ v first last. clear_bits v (last - first) first;
  set_bit_range = fill true;
  clear_bit_range = fill false;
  storage_bytes = λ v. [];
  from_bytes = λ bytes. record { size = 0; bit = λ i. false };
}

with_bit-written :
    (v after : Bits) (i : ℕ) (b answer : Bool)
    → with_bit v i b ≡ some (answer, after)
    → (ltb i v.size ≡ true) × (record v { bit = change v.bit i b } ≡ after)
with_bit-written v after i b answer e = elim (Bool-cases (ltb i v.size)) [
  | inl inside ↦
      let made : with_bit v i b
          ≡ some (not (if v.bit i then b else not b), record v { bit = change v.bit i b }) =
        rw inside in
      (inside, ap (λ r. r.1) (some-injective (sym made ∙ e)))
  | inr outside ↦
      let nothing : with_bit v i b ≡ none = rw outside in
      absurd (none-ne-some (answer, after) (sym nothing ∙ e))
]

bits-IsVob : IsVob bits
bits-IsVob = record {
  get_in_bounds = λ v i h. (v.bit i, rw (lt→ltb i v.size h));
  set_in_bounds = λ v i b h. (
    not (if v.bit i then b else not b),
    record v { bit = change v.bit i b },
    rw (lt→ltb i v.size h),
  );
  get-set = λ v after i b answer e.
      let w = with_bit-written v after i b answer e in
      let here : bit_at (record v { bit = change v.bit i b }) i ≡ some b =
        rw (w.0, eq→== i i refl) in
      sym (ap (λ u. bit_at u i) w.1) ∙ here;
  get-set_other = λ v after i j b answer e ne.
      let w = with_bit-written v after i b answer e in
      let there : bit_at (record v { bit = change v.bit i b }) j ≡ bit_at v j = rw (ne→== i j ne) in
      sym (ap (λ u. bit_at u j) w.1) ∙ there;
  len-set =
      λ v after i b answer e. sym (ap (λ u. u.size) (with_bit-written v after i b answer e).1);
}

abbrev ten : Bits
ten = record { size = 10; bit = λ i. ltb i 4 }

set_blk_in_use-free_blk_example : Cycles bits bits-IsVob ten 6
set_blk_in_use-free_blk_example =
    set_blk_in_use-free_blk bits bits-IsVob ten 6 (omega arith) (unfold blk_in_use in refl)
