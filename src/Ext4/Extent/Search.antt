-- ===== src/Ext4/Extent/Search.antt =====
-- The search by halving, against a count.
use fzkernel.Base.{
  ℕ, zero, suc, ◌+◌, ◌-◌, ◌/◌, ◌≤◌, ◌<◌, ◌≡◌, ap, ◌∙◌, ◌⊎◌, inl, inr, arith, Bool, true, false, ltb,
  Bool-cases, not, ltb→le, ltb→lt,
}
use fzkernel.Base.Outcome.{done}
use fzkernel.Ext4.Extent.{search_loop}

-- Where just the elements from `count` on are above, the search ends at the last one that is not,
-- or at the first of all.
pub search_loop-done :
    (fuel : ℕ) (above : ℕ → Bool) (base size count : ℕ)
    → ((i : ℕ) → i < base + size → above i ≡ not (ltb i count))
    → 0 < size
    → size ≤ fuel
    → (base < count) ⊎ (base ≡ 0)
    → count ≤ base + size
    → search_loop fuel above base size ≡ done (count - 1)
unfolding search_loop
search_loop-done zero above base size count split some_left enough low high = absurd (omega arith)
search_loop-done (suc fuel) above base size count split some_left enough low high =
    let mid : ℕ = base + size / 2 in
    elim (Bool-cases (ltb 1 size)) [
      | inr one ↦ rw one (ap (λ (n : ℕ). done n) (ends low (ltb→le 1 size one)))
      | inl more ↦
          let two : 1 < size = ltb→lt 1 size more in
          let at : above mid ≡ not (ltb mid count) = split mid (omega arith) in
          elim (Bool-cases (ltb mid count)) [
            | inl below ↦
                let low_half : above mid ≡ false = at ∙ ap not below in
                rw (more, low_half)
                  (search_loop-done fuel above mid (size - size / 2) count
                    (λ i h. split i (omega arith)) (omega arith) (omega arith)
                    (inl (ltb→lt mid count below)) (omega arith))
            | inr beyond ↦
                let high_half : above mid ≡ true = at ∙ ap not beyond in
                rw (more, high_half)
                  (search_loop-done fuel above base (size - size / 2) count
                    (λ i h. split i (omega arith)) (omega arith) (omega arith) low
                    (omega (arith, ltb→le mid count beyond)))
          ]
    ]
  where
    ends : (base < count) ⊎ (base ≡ 0) → size ≤ 1 → base ≡ count - 1
    ends (inl l) h = omega arith
    ends (inr l) h = omega arith
