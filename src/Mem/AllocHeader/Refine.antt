-- ===== src/Mem/AllocHeader/Refine.antt =====
-- The word of a header against a record of its fields.
use fzkernel.Base.{
  ℕ, ◌+◌, ◌-◌, ◌*◌, ◌/◌, ◌%◌, ◌^◌, ◌<◌, ◌≡◌, sym, ap, ap₂, ◌∙◌, arith, Bool, true, false, not,
  bit_and, bit_or, ◌==◌, if◌then◌else◌, u64_mod,
}
use fzkernel.Base.Bits.{bit_and_high, bit_and_low, bit_or_fields}
use fzkernel.Mem.AllocHeader.Masks.{
  or_one, or_two, or_four, or_eight, clear_one, clear_two, clear_four, clear_eight,
}
use fzkernel.Mem.AllocHeader.{
  NodeColor, red, black, clear, allocate, free, is_mapped, set_mapped, is_allocated, get_size,
  set_size, left_allocated, set_left_allocated, get_color, set_color,
}

pub record Header : Type 0 where
  pub size : ℕ
  pub allocated : Bool
  pub left : Bool
  pub color : NodeColor
  pub mapped : Bool

-- The word shows the fields.
pub record Shows (inner : ℕ) (h : Header) : Type 0 where
  pub word : inner < u64_mod
  pub size : get_size inner ≡ h.size
  pub allocated : is_allocated inner ≡ h.allocated
  pub left : left_allocated inner ≡ h.left
  pub color : get_color inner ≡ h.color
  pub mapped : is_mapped inner ≡ h.mapped

pub data Change : Type 0 where
  take : Change
  release : Change
  mark_mapped : Bool → Change
  mark_left : Bool → Change
  paint : NodeColor → Change
  resize : ℕ → Change

-- The operation of the code, and what it means.
abbrev pub run : Change → ℕ → ℕ
run take inner = allocate inner
run release inner = free inner
run (mark_mapped b) inner = set_mapped inner b
run (mark_left b) inner = set_left_allocated inner b
run (paint c) inner = set_color inner c
run (resize n) inner = set_size inner n

abbrev pub meaning : Change → Header → Header
meaning take h = record h { allocated = true }
meaning release h = record h { allocated = false }
meaning (mark_mapped b) h = record h { mapped = b }
meaning (mark_left b) h = record h { left = b }
meaning (paint c) h = record h { color = c }
meaning (resize n) h = record h { size = n }

-- A size is a multiple of 16 that fits a word.
abbrev pub IsAllowed : Change → Type 0
IsAllowed (resize n) = (n % 16 ≡ 0) × (n < u64_mod)
IsAllowed _ = Unit

-- What is read of a word, in numbers.
abbrev flag : ℕ → Bool
flag bit = not (bit == 0)

pub get_size-value : (n : ℕ) → n < u64_mod → get_size n ≡ n / 16 * 16
unfolding get_size
get_size-value n h = omega (arith, bit_and_high 4 n (2 ^ 60 - 1), bit_and_low 60 (n / 16))

is_allocated-flag : (n : ℕ) → is_allocated n ≡ flag (n % 2)
unfolding is_allocated
is_allocated-flag n = ap flag (bit_and_low 1 n)

left_allocated-flag : (n : ℕ) → left_allocated n ≡ flag (n / 2 % 2 * 2)
unfolding left_allocated
left_allocated-flag n = ap flag (omega (arith, bit_and_high 1 n 1, bit_and_low 1 (n / 2)))

abbrev hue : ℕ → NodeColor
hue bit = if bit == 0 then black else red

get_color-hue : (n : ℕ) → get_color n ≡ hue (n / 4 % 2)
unfolding get_color
get_color-hue n = ap hue (bit_and_low 1 (n / 4))

is_mapped-flag : (n : ℕ) → is_mapped n ≡ flag (n / 8 % 2 * 8)
unfolding is_mapped
is_mapped-flag n = ap flag (omega (arith, bit_and_high 3 n 1, bit_and_low 1 (n / 8)))

-- The same, of a word that shows a header.
module _ {n : ℕ} {h : Header} (s : Shows n h) where
  shown_size : n / 16 * 16 ≡ h.size
  shown_size = sym (get_size-value n s.word) ∙ s.size

  shown_allocated : flag (n % 2) ≡ h.allocated
  shown_allocated = sym (is_allocated-flag n) ∙ s.allocated

  shown_left : flag (n / 2 % 2 * 2) ≡ h.left
  shown_left = sym (left_allocated-flag n) ∙ s.left

  shown_color : hue (n / 4 % 2) ≡ h.color
  shown_color = sym (get_color-hue n) ∙ s.color

  shown_mapped : flag (n / 8 % 2 * 8) ≡ h.mapped
  shown_mapped = sym (is_mapped-flag n) ∙ s.mapped

shows :
    (n : ℕ) (h : Header)
    → n < u64_mod
    → n / 16 * 16 ≡ h.size
    → flag (n % 2) ≡ h.allocated
    → flag (n / 2 % 2 * 2) ≡ h.left
    → hue (n / 4 % 2) ≡ h.color
    → flag (n / 8 % 2 * 8) ≡ h.mapped
    → Shows n h
shows n h word size allocated left color mapped = record {
  word = word;
  size = get_size-value n word ∙ size;
  allocated = is_allocated-flag n ∙ allocated;
  left = left_allocated-flag n ∙ left;
  color = get_color-hue n ∙ color;
  mapped = is_mapped-flag n ∙ mapped;
}

flag-true : (b : ℕ) → 0 < b → flag b ≡ true
flag-true b h = ground arith

flag-false : (b : ℕ) → b ≡ 0 → flag b ≡ false
flag-false b h = rw h

hue_red : (b : ℕ) → 0 < b → hue b ≡ red
hue_red b h = ground arith

hue_black : (b : ℕ) → b ≡ 0 → hue b ≡ black
hue_black b h = rw h

module _ {n : ℕ} {h : Header} (s : Shows n h) where
  -- A part of the word that another word has too.
  keeps_allocated : (m : ℕ) → m % 2 ≡ n % 2 → flag (m % 2) ≡ h.allocated
  keeps_allocated m e = ap flag e ∙ shown_allocated s

  keeps_left : (m : ℕ) → m / 2 % 2 ≡ n / 2 % 2 → flag (m / 2 % 2 * 2) ≡ h.left
  keeps_left m e = ap (λ b. flag (b * 2)) e ∙ shown_left s

  keeps_color : (m : ℕ) → m / 4 % 2 ≡ n / 4 % 2 → hue (m / 4 % 2) ≡ h.color
  keeps_color m e = ap hue e ∙ shown_color s

  keeps_mapped : (m : ℕ) → m / 8 % 2 ≡ n / 8 % 2 → flag (m / 8 % 2 * 8) ≡ h.mapped
  keeps_mapped m e = ap (λ b. flag (b * 8)) e ∙ shown_mapped s

  change_allocated :
      (m : ℕ) (b : Bool) → m / 2 ≡ n / 2 → flag (m % 2) ≡ b → Shows m (record h { allocated = b })
  change_allocated m b e bit =
      shows m (record h { allocated = b }) (omega (arith, e, s.word))
        (omega (arith, e, shown_size s)) bit (keeps_left m (omega (arith, e)))
        (keeps_color m (omega (arith, e))) (keeps_mapped m (omega (arith, e)))

  change_left :
      (m : ℕ) (b : Bool)
      → m / 4 ≡ n / 4
      → m % 2 ≡ n % 2
      → flag (m / 2 % 2 * 2) ≡ b
      → Shows m (record h { left = b })
  change_left m b e low bit =
      shows m (record h { left = b }) (omega (arith, e, s.word)) (omega (arith, e, shown_size s))
        (keeps_allocated m low) bit (keeps_color m (omega (arith, e)))
        (keeps_mapped m (omega (arith, e)))

  change_color :
      (m : ℕ) (c : NodeColor)
      → m / 8 ≡ n / 8
      → m % 4 ≡ n % 4
      → hue (m / 4 % 2) ≡ c
      → Shows m (record h { color = c })
  change_color m c e low bit =
      shows m (record h { color = c }) (omega (arith, e, s.word)) (omega (arith, e, shown_size s))
        (keeps_allocated m (omega (arith, low))) (keeps_left m (omega (arith, low))) bit
        (keeps_mapped m (omega (arith, e)))

  change_mapped :
      (m : ℕ) (b : Bool)
      → m / 16 ≡ n / 16
      → m % 8 ≡ n % 8
      → flag (m / 8 % 2 * 8) ≡ b
      → Shows m (record h { mapped = b })
  change_mapped m b e low bit =
      shows m (record h { mapped = b }) (omega (arith, e, s.word)) (omega (arith, e, shown_size s))
        (keeps_allocated m (omega (arith, low))) (keeps_left m (omega (arith, low)))
        (keeps_color m (omega (arith, low))) bit

  change_size :
      (m size : ℕ)
      → m < u64_mod
      → m / 16 * 16 ≡ size
      → m % 16 ≡ n % 16
      → Shows m (record h { size = size })
  change_size m size small e low =
      shows m (record h { size = size }) small e (keeps_allocated m (omega (arith, low)))
        (keeps_left m (omega (arith, low))) (keeps_color m (omega (arith, low)))
        (keeps_mapped m (omega (arith, low)))

  resized : (size : ℕ) → size % 16 ≡ 0 → set_size n size ≡ size + n % 16
  unfolding set_size
  resized size e =
      let whole : size ≡ size / 16 * 2 ^ 4 = omega (arith, e) in
      let low : bit_and n 15 ≡ n % 16 = bit_and_low 4 n in
      let joined = bit_or_fields 4 (size / 16) (n % 16) (omega arith) in
      ap₂ bit_or whole low ∙ joined ∙ omega (arith, e)

-- On a 64-bit word that shows a header (its size and its four flags), every operation does to the
-- word what it means for the header: it changes the one field, and no other. A new size must be a
-- multiple of 16 that fits the word.
pub run-Shows :
    (c : Change) {n : ℕ} {h : Header} → Shows n h → IsAllowed c → Shows (run c n) (meaning c h)
unfolding allocate free set_mapped set_left_allocated set_color
run-Shows take {n} s a =
    let e = or_one n in
    change_allocated s (bit_or n 1) true (omega (arith, e))
      (flag-true (bit_or n 1 % 2) (omega (arith, e)))
run-Shows release {n} s a =
    let e = clear_one n s.word in
    change_allocated s (clear n 1) false (omega (arith, e))
      (flag-false (clear n 1 % 2) (omega (arith, e)))
run-Shows (mark_mapped true) {n} s a =
    let e = or_eight n in
    change_mapped s (bit_or n 8) true (omega (arith, e)) (omega (arith, e))
      (flag-true (bit_or n 8 / 8 % 2 * 8) (omega (arith, e)))
run-Shows (mark_mapped false) {n} s a =
    let e = clear_eight n s.word in
    change_mapped s (clear n 8) false (omega (arith, e)) (omega (arith, e))
      (flag-false (clear n 8 / 8 % 2 * 8) (omega (arith, e)))
run-Shows (mark_left true) {n} s a =
    let e = or_two n in
    change_left s (bit_or n 2) true (omega (arith, e)) (omega (arith, e))
      (flag-true (bit_or n 2 / 2 % 2 * 2) (omega (arith, e)))
run-Shows (mark_left false) {n} s a =
    let e = clear_two n s.word in
    change_left s (clear n 2) false (omega (arith, e)) (omega (arith, e))
      (flag-false (clear n 2 / 2 % 2 * 2) (omega (arith, e)))
run-Shows (paint black) {n} s a =
    let e = clear_four n s.word in
    change_color s (clear n 4) black (omega (arith, e)) (omega (arith, e))
      (hue_black (clear n 4 / 4 % 2) (omega (arith, e)))
run-Shows (paint red) {n} s a =
    let e = or_four n in
    change_color s (bit_or n 4) red (omega (arith, e)) (omega (arith, e))
      (hue_red (bit_or n 4 / 4 % 2) (omega (arith, e)))
run-Shows (resize size) {n} s a =
    let e = resized s size a.0 in
    change_size s (set_size n size) size (omega (arith, e, a.0, a.1)) (omega (arith, e, a.0))
      (omega (arith, e, a.0))
