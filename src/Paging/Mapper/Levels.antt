-- ===== src/Paging/Mapper/Levels.antt =====
-- The levels of the tables: a table of level n + 2 leads to tables of level n + 1. A frame of the
-- supply has level 0.
use fzkernel.Base.{
  ℕ, suc, ◌≡◌, ◌≢◌, refl, ◌⊎◌, inl, inr, true, List, [], ◌∷◌, All, ◌==◌, eq→==, ne→==, Bool-cases,
  ==→eq, ==→ne, sym, ap, ◌∙◌, if◌then◌else◌,
}
use fzkernel.Paging.Entry.{used, frame, IsFrame}
use fzkernel.Paging.Mapper.{Tables, put, clear}

unfoldable pub Distinct : List ℕ → Type 0
Distinct [] = Unit
Distinct (p ∷ ps) = All (λ q. q ≢ p) ps × Distinct ps

pub record IsLeveled (lv : ℕ → ℕ) (s : Tables) : Type 0 where
  pub linked :
      (t i n : ℕ)
      → lv t ≡ suc (suc n)
      → used (s.entries t i) ≡ true
      → lv (frame (s.entries t i)) ≡ suc n
  pub fresh : All (λ p. (lv p ≡ 0) × IsFrame p) s.supply
  pub distinct : Distinct s.supply

module _ (s : Tables) (t i e : ℕ) where
  pub put-here : (put s t i e).entries t i ≡ e
  put-here = rw (eq→== t t refl, eq→== i i refl)

  pub put-other_table : (x j : ℕ) → t ≢ x → (put s t i e).entries x j ≡ s.entries x j
  put-other_table x j ne = rw (ne→== t x ne)

  pub put-other : (x j : ℕ) → (t ≢ x) ⊎ (i ≢ j) → (put s t i e).entries x j ≡ s.entries x j
  put-other x j (inl ne) = put-other_table x j ne
  put-other x j (inr ne) = elim (Bool-cases (t == x)) [
    | inl same ↦ rw (same, ne→== i j ne)
    | inr apart ↦ rw apart
  ]

-- The entry at a place is the new one, or the old one.
pub put-cases :
    (s : Tables) (t i e x j : ℕ) → ((t ≡ x) × (i ≡ j)) ⊎ ((put s t i e).entries x j ≡ s.entries x j)
put-cases s t i e x j = elim (Bool-cases (t == x)) [
  | inl same ↦ elim (Bool-cases (i == j)) [
    | inl here ↦ inl (==→eq t x same, ==→eq i j here)
    | inr apart ↦ inr (put-other s t i e x j (inr (==→ne i j apart)))
  ]
  | inr apart ↦ inr (put-other_table s t i e x j (==→ne t x apart))
]

pub clear-there : (s : Tables) (p x j : ℕ) → p ≢ x → (clear s p).entries x j ≡ s.entries x j
clear-there s p x j ne = rw (ne→== p x ne)

pub clear-here : (s : Tables) (p j : ℕ) → (clear s p).entries p j ≡ 0
clear-here s p j = rw (eq→== p p refl)

-- A table of a new level.
abbrev pub raise : (ℕ → ℕ) → ℕ → ℕ → ℕ → ℕ
raise lv a l x = if a == x then l else lv x

pub raise-here : (lv : ℕ → ℕ) (a l : ℕ) → raise lv a l a ≡ l
raise-here lv a l = rw (eq→== a a refl)

pub raise-other : (lv : ℕ → ℕ) (a l x : ℕ) → a ≢ x → raise lv a l x ≡ lv x
raise-other lv a l x ne = rw (ne→== a x ne)

pub raise-higher : (lv : ℕ → ℕ) (a l x : ℕ) → lv a ≡ 0 → lv x ≢ 0 → raise lv a l x ≡ lv x
raise-higher lv a l x none some_level =
    raise-other lv a l x (λ e. some_level (sym (ap lv e) ∙ none))

abbrev pub IsSpare : (ℕ → ℕ) → ℕ → Type 0
IsSpare lv q = (lv q ≡ 0) × IsFrame q

pub raise-fresh :
    (lv : ℕ → ℕ) (a l : ℕ) (rest : List ℕ)
    → All (IsSpare lv) rest
    → All (λ q. q ≢ a) rest
    → All (IsSpare (raise lv a l)) rest
raise-fresh lv a l [] u w = tt
raise-fresh lv a l (q ∷ rest) (u, us) (w, ws) =
    ((raise-other lv a l q (λ e. w (sym e)) ∙ u.0, u.1), raise-fresh lv a l rest us ws)
