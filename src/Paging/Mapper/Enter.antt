-- ===== src/Paging/Mapper/Enter.antt =====
-- One step down: `get_or_create_entry`.
use fzkernel.Base.{
  ℕ, suc, ◌+◌, ◌<◌, ◌≡◌, ◌≢◌, refl, sym, ap, ap₂, ◌∙◌, ◌⊎◌, inl, inr, arith, true, false, List, [],
  ◌∷◌, All, ◌==◌, ne→==, Bool-cases, ==→eq, ==→ne, not,
}
use mathlib.Core.Bool.{false≢true}
use fzkernel.Paging.Entry.{
  used, frame, flags, huge_page, map_to_addr, set_flags, IsFlags, IsFrame, frame-IsFrame,
  set_flags-sum, sum-frame, sum-flags, map_to_addr-sum,
}
use fzkernel.Paging.Mapper.{
  Tables, put, clear, Result, ok, err, allocation_error, next_or_huge, create_table,
  get_or_create_entry,
}
use fzkernel.Paging.Mapper.Levels.{
  Distinct, IsLeveled, put-here, put-other, put-cases, clear-there, clear-here, raise, raise-here,
  raise-other, raise-higher, raise-fresh, IsSpare,
}

-- Flags that make an entry used, without the bit of a huge page.
pub record IsParentFlags (fl : ℕ) : Type 0 where
  pub words : IsFlags fl
  pub some_set : 0 < fl
  pub not_huge : huge_page fl ≡ false

-- The table of an entry in use, with the supply as it was.
abbrev pub IsReused : ℕ → ℕ → Tables → ℕ → Tables → Type 0
IsReused t i s next after =
    (used (s.entries t i) ≡ true) × (next ≡ frame (s.entries t i)) × (after.supply ≡ s.supply)

-- A table of zeros in the first frame of the supply.
abbrev pub IsNew : ℕ → ℕ → Tables → ℕ → Tables → Type 0
IsNew t i s next after =
    (used (s.entries t i) ≡ false)
    × (s.supply ≡ next ∷ after.supply)
    × ((j : ℕ) → after.entries next j ≡ 0)

-- The table that is entered: that of the entry in use, or a new one. The entry leads to it with
-- the new flags, and no other entry of a table in use has changed.
pub record Enters (lv : ℕ → ℕ) (n t i fl : ℕ) (s : Tables) (r : Result ℕ × Tables) : Type 0 where
  pub next : ℕ
  pub after : Tables
  pub levels : ℕ → ℕ
  pub returns : r ≡ (ok next, after)
  pub leveled : IsLeveled levels after
  pub higher : (x : ℕ) → lv x ≢ 0 → levels x ≡ lv x
  pub next_level : levels next ≡ suc n
  pub is_frame : IsFrame next
  pub entry : after.entries t i ≡ next + fl
  pub same : (x j : ℕ) → lv x ≢ 0 → (t ≢ x) ⊎ (i ≢ j) → after.entries x j ≡ s.entries x j
  pub source : IsReused t i s next after ⊎ IsNew t i s next after

-- The other answer: an entry that is free, and no frame for a table.
pub record IsStarved (t i : ℕ) (s : Tables) (r : Result ℕ × Tables) : Type 0 where
  pub returns : r ≡ (err allocation_error, s)
  pub free : used (s.entries t i) ≡ false
  pub none_left : s.supply ≡ []

pub used-pos : (e : ℕ) → 0 < e → used e ≡ true
unfolding used
used-pos e h = ap not (ne→== e 0 (λ z. absurd (omega arith)))

pub zero-used : used 0 ≡ false
unfolding used
zero-used = refl

module _ (s : Tables) (t i a fl : ℕ) (f : IsFrame a) (p : IsParentFlags fl) where
  next_or_huge-put : (e : ℕ) → e ≡ a + fl → next_or_huge (put s t i e) t i ≡ (ok a, put s t i e)
  unfolding next_or_huge
  next_or_huge-put e is =
      let here : (put s t i e).entries t i ≡ a + fl = put-here s t i e ∙ is in
      let calm : huge_page (flags ((put s t i e).entries t i)) ≡ false =
        ap (λ w. huge_page (flags w)) here ∙ ap huge_page (sum-flags a fl f p.words) ∙ p.not_huge in
      let leads : frame ((put s t i e).entries t i) ≡ a =
        ap frame here ∙ sum-frame a fl f p.words in
      rw (calm, leads)

module _ {lv : ℕ → ℕ} {s : Tables} (v : IsLeveled lv s) (n t i fl : ℕ) (level : lv t ≡ suc (suc n))
    (p : IsParentFlags fl) where
  -- An entry that is used keeps its frame.
  reuse-IsLeveled :
      used (s.entries t i) ≡ true
      → (e : ℕ) → e ≡ frame (s.entries t i) + fl
      → IsLeveled lv (put s t i e)
  reuse-IsLeveled busy e is = record {
    linked = λ x j m lx used_after. elim (put-cases s t i e x j) [
      | inl here ↦
          let at : (put s t i e).entries x j ≡ e =
            sym (ap₂ (λ a b. (put s t i e).entries a b) here.0 here.1) ∙ put-here s t i e in
          ap (λ w. lv (frame w)) (at ∙ is)
          ∙ ap lv (sum-frame (frame (s.entries t i)) fl (frame-IsFrame (s.entries t i)) p.words)
          ∙ v.linked t i n level busy
          ∙ omega (arith, level, lx, ap lv here.0)
      | inr old ↦ ap (λ w. lv (frame w)) old ∙ v.linked x j m lx (sym (ap used old) ∙ used_after)
    ];
    fresh = v.fresh;
    distinct = v.distinct;
  }

  reuse-Enters :
      used (s.entries t i) ≡ true
      → Enters lv n t i fl s (next_or_huge (put s t i (set_flags (s.entries t i) fl)) t i)
  reuse-Enters busy =
      let e : ℕ = set_flags (s.entries t i) fl in
      let is : e ≡ frame (s.entries t i) + fl = set_flags-sum (s.entries t i) fl p.words in
      let leads = frame-IsFrame (s.entries t i) in
      record {
        next = frame (s.entries t i);
        after = put s t i e;
        levels = lv;
        returns = next_or_huge-put s t i (frame (s.entries t i)) fl leads p e is;
        leveled = reuse-IsLeveled busy e is;
        higher = λ x h. refl;
        next_level = v.linked t i n level busy;
        is_frame = leads;
        entry = put-here s t i e ∙ is;
        same = λ x j h other. put-other s t i e x j other;
        source = inl (busy, refl, refl);
      }

  -- An entry that is free leads to a table of zeros.
  module _ (a : ℕ) (rest : List ℕ) (spare : IsSpare lv a) (spares : All (IsSpare lv) rest)
      (apart : All (λ q. q ≢ a) rest) (rest_apart : Distinct rest) where
    abbrev zeroed : Tables
    zeroed = clear (record s { supply = rest }) a

    not_table : a ≢ t
    not_table e = absurd (omega (arith, spare.0, level, ap lv e))

    create-linked :
        (e x j m : ℕ)
        → e ≡ a + fl
        → raise lv a (suc n) x ≡ suc (suc m)
        → used ((put zeroed t i e).entries x j) ≡ true
        → raise lv a (suc n) (frame ((put zeroed t i e).entries x j)) ≡ suc m
    create-linked e x j m is lx used_after = elim (put-cases zeroed t i e x j) [
      | inl here ↦
          let at : (put zeroed t i e).entries x j ≡ e =
            sym (ap₂ (λ a b. (put zeroed t i e).entries a b) here.0 here.1)
            ∙ put-here zeroed t i e in
          ap (λ w. raise lv a (suc n) (frame w)) (at ∙ is)
          ∙ ap (raise lv a (suc n)) (sum-frame a fl spare.1 p.words)
          ∙ raise-here lv a (suc n)
          ∙ omega (
            arith,
            level,
            lx,
            ap (raise lv a (suc n)) here.0,
            raise-other lv a (suc n) t not_table,
          )
      | inr old ↦ elim (Bool-cases (a == x)) [
        | inl new ↦
            let blank : zeroed.entries x j ≡ 0 =
              sym (ap (λ y. zeroed.entries y j) (==→eq a x new))
              ∙ clear-here (record s { supply = rest }) a j in
            let contra : true ≡ false = sym used_after ∙ ap used (old ∙ blank) ∙ zero-used in
            absurd (false≢true (sym contra))
        | inr there ↦
            let ne : a ≢ x = ==→ne a x there in
            let kept : (put zeroed t i e).entries x j ≡ s.entries x j =
              old ∙ clear-there (record s { supply = rest }) a x j ne in
            let down : lv (frame (s.entries x j)) ≡ suc m =
              v.linked x j m (sym (raise-other lv a (suc n) x ne) ∙ lx)
                (sym (ap used kept) ∙ used_after) in
            ap (λ w. raise lv a (suc n) (frame w)) kept
            ∙ raise-higher lv a (suc n) (frame (s.entries x j)) spare.0
                (λ z. absurd (omega (arith, z, down)))
            ∙ down
      ]
    ]

    create-Enters :
        used (s.entries t i) ≡ false
        → s.supply ≡ a ∷ rest
        → (e : ℕ) → e ≡ a + fl
        → Enters lv n t i fl s (next_or_huge (put zeroed t i e) t i)
    create-Enters free given e is = record {
      next = a;
      after = put zeroed t i e;
      levels = raise lv a (suc n);
      returns = next_or_huge-put zeroed t i a fl spare.1 p e is;
      leveled = record {
        linked = λ x j m lx h. create-linked e x j m is lx h;
        fresh = raise-fresh lv a (suc n) rest spares apart;
        distinct = rest_apart;
      };
      higher = λ x h. raise-higher lv a (suc n) x spare.0 h;
      next_level = raise-here lv a (suc n);
      is_frame = spare.1;
      entry = put-here zeroed t i e ∙ is;
      same = λ x j h other.
          put-other zeroed t i e x j other
          ∙ clear-there (record s { supply = rest }) a x j (λ z. h (sym (ap lv z) ∙ spare.0));
      source = inr (
        free,
        given,
        λ j.
            put-other zeroed t i e a j (inl (λ z. not_table (sym z)))
            ∙ clear-here (record s { supply = rest }) a j,
      );
    }

  create_table-cases :
      used (s.entries t i) ≡ false
      → (l : List ℕ) → s.supply ≡ l
      → All (IsSpare lv) l
      → Distinct l
      → Enters lv n t i fl s (create_table l s t i fl)
        ⊎ ((create_table l s t i fl ≡ (err allocation_error, s)) × (l ≡ []))
  unfolding create_table Distinct
  create_table-cases free [] given u w = inr (refl, refl)
  create_table-cases free (a ∷ rest) given (spare, spares) (apart, rest_apart) =
      let first : ℕ = (clear (record s { supply = rest }) a).entries t i in
      inl (
        create-Enters a rest spare spares apart rest_apart free given (map_to_addr first a fl).1
          (ap (λ r. r.1) (map_to_addr-sum first a fl spare.1 p.words)))

  -- In tables whose levels are in order, with flags that are not 0 and have no bit of a huge page,
  -- a step from a table of level n + 2 does not fail by a huge page, also where the entry maps one:
  -- it enters the table at the frame of an entry in use, with the supply as it was, or, where the
  -- entry was free, a new table of zeros in the first frame of the supply. The level of that table is
  -- n + 1. The entry leads there with the new flags, no other entry of a table in use changes, and
  -- the levels are in order again. Or the entry is free and no frame is left, and nothing changes.
  pub get_or_create_entry-cases :
      Enters lv n t i fl s (get_or_create_entry s t i fl)
      ⊎ IsStarved t i s (get_or_create_entry s t i fl)
  unfolding get_or_create_entry
  get_or_create_entry-cases = elim (Bool-cases (used (s.entries t i))) [
    | inl busy ↦ rw busy (inl (reuse-Enters busy))
    | inr free ↦ rw free (elim (create_table-cases free s.supply refl v.fresh v.distinct) [
      | inl enters ↦ inl enters
      | inr none ↦ inr (record { returns = none.0; free = free; none_left = none.1 })
    ])
  ]
