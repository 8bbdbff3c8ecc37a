-- ===== src/Mem/RbTree/Insert/Loop.antt =====
-- The loop of the repair behind an insertion.
use fzkernel.Base.{
  ℕ, zero, suc, ◌≤◌, ◌≡◌, ◌≢◌, refl, sym, ◌∙◌, ap, ◌⊎◌, inl, inr, true, false, ◌==◌, arith,
  Bool-cases, ==→eq, eq→==, ne→==, ==→ne,
}
use mathlib.Core.Bool.{false≢true}
use fzkernel.Base.Outcome.{done}
use fzkernel.Mem.RbTree.{
  NodePayload, RbTree, Side, on_left, on_right, other, parent, child, rotate, is_red,
}
use fzkernel.Mem.RbTree.Insert.{turn_out, recolor, fix_insert_step, parent_side, fix_insert_loop}
use fzkernel.Mem.RbTree.Insert.Repair.{Keeps}
use fzkernel.Mem.RbTree.Insert.Rounds.{
  Keeps_after, recolor-Keeps, recolor-parent, recolor-nil, recolor-root, outer-Keeps, outer_black,
  inner-Keeps, inner_black,
}
use fzkernel.Mem.RbTree.Shape.{Shape, inorder, mem, has, has-inorder, not_nil, root-parent}
use fzkernel.Mem.RbTree.Headers.{IsLawful}
use fzkernel.Mem.RbTree.Kin.{side-cases, Within}
use fzkernel.Mem.RbTree.Holds.{Holds, sizes_refl, parent_mem}

one_side :
    {P : Type 0} (t : RbTree P) (x mother : ℕ) (d : Side)
    → (x ≡ child t on_left mother) ⊎ (x ≡ child t on_right mother)
    → (child t d mother ≡ x) ⊎ (child t (other d) mother ≡ x)
one_side t x mother on_left (inl e) = inl (sym e)
one_side t x mother on_left (inr e) = inr (sym e)
one_side t x mother on_right (inl e) = inr (sym e)
one_side t x mother on_right (inr e) = inl (sym e)

module _ {P : Type 0} (I : NodePayload P) (law : IsLawful I) where
  -- The repair of `t`, with the nodes of `s`, comes to a tree that keeps them.
  pub record Repaired (fuel : ℕ) (t : RbTree P) (s : Shape) (x : ℕ) : Type 0 where
    pub result : RbTree P
    pub runs : fix_insert_loop I fuel t x ≡ done result
    pub keeps : Keeps I t s result

  stops :
      (fuel : ℕ) (t : RbTree P) (x : ℕ)
      → is_red I t (parent t x) ≡ false
      → fix_insert_loop I (suc fuel) t x ≡ done t
  unfolding fix_insert_loop
  stops fuel t x e = rw e refl

  goes_on :
      (fuel : ℕ) (t : RbTree P) (x : ℕ) (u : RbTree P) (y : ℕ)
      → is_red I t (parent t x) ≡ true
      → fix_insert_step I t (parent_side t x) x ≡ (u, y)
      → fix_insert_loop I (suc fuel) t x ≡ fix_insert_loop I fuel u y
  unfolding fix_insert_loop
  goes_on fuel t x u y e f = rw (e, f) refl

  -- A round that ends below a black parent is the last one.
  last_round :
      (fuel : ℕ) (t : RbTree P) (s : Shape) (x : ℕ) (u : RbTree P) (y : ℕ)
      → is_red I t (parent t x) ≡ true
      → fix_insert_step I t (parent_side t x) x ≡ (u, y)
      → Keeps I t s u
      → is_red I u (parent u y) ≡ false
      → Repaired (suc (suc fuel)) t s x
  last_round fuel t s x u y hot e k cold = record {
    result = u;
    runs = goes_on (suc fuel) t x u y hot e ∙ stops fuel u y cold;
    keeps = k;
  }

  module _ (t : RbTree P) (s : Shape) (h : Holds t s) (nil_black : is_red I t t.black_nil ≡ false)
      (x : ℕ) (mx : mem x s ≡ true) (root_black : (x ≡ t.root) ⊎ (is_red I t t.root ≡ false))
      (hot : is_red I t (parent t x) ≡ true) where
    abbrev mother : ℕ
    mother = parent t x

    abbrev grand : ℕ
    grand = parent t mother

    abbrev d : Side
    d = parent_side t x

    not_root : x ≢ t.root
    not_root e =
        let k =
          root-parent t t.black_nil t.root s h.tree
            (λ z. not_nil t t.black_nil t.root s h.tree x mx (e ∙ z)) in
        false≢true (sym nil_black ∙ ap (is_red I t) (sym k ∙ ap (parent t) (sym e)) ∙ hot)

    root_cold : is_red I t t.root ≡ false
    root_cold = elim root_black [ inl e ↦ absurd (not_root e) | inr e ↦ e ]

    mother-mem : mem mother s ≡ true
    mother-mem = parent_mem t s h x mx not_root

    mother_not_root : mother ≢ t.root
    mother_not_root e = false≢true (sym root_cold ∙ ap (is_red I t) (sym e) ∙ hot)

    grand-mem : mem grand s ≡ true
    grand-mem = parent_mem t s h mother mother-mem mother_not_root

    side : child t d grand ≡ mother
    unfolding parent_side
    side = elim (Bool-cases (mother == child t on_left grand)) [
      | inl e ↦ rw e (sym (==→eq mother (child t on_left grand) e))
      | inr e ↦ elim (side-cases t t.black_nil t.root s h.tree mother mother-mem) [
        | inl f ↦ absurd (mother_not_root f)
        | inr (inl f) ↦ absurd (==→ne mother (child t on_left grand) e f)
        | inr (inr f) ↦ rw e (sym f)
      ]
    ]

    below : (child t d mother ≡ x) ⊎ (child t (other d) mother ≡ x)
    below = elim (side-cases t t.black_nil t.root s h.tree x mx) [
      | inl e ↦ absurd (not_root e)
      | inr e ↦ one_side t x mother d e
    ]

    abbrev uncle : ℕ
    uncle = child t (other d) grand

    step_recolors : is_red I t uncle ≡ true → fix_insert_step I t d x ≡ (recolor I t x uncle, grand)
    unfolding fix_insert_step
    step_recolors e = rw e refl

    step_inner :
        is_red I t uncle ≡ false
        → child t (other d) mother ≡ x
        → fix_insert_step I t d x ≡ (turn_out I (rotate t d mother) d mother, mother)
    unfolding fix_insert_step
    step_inner e f = rw (e, eq→== x (child t (other d) mother) (sym f)) refl

    step_outer :
        is_red I t uncle ≡ false
        → x ≢ child t (other d) mother
        → fix_insert_step I t d x ≡ (turn_out I t d x, x)
    unfolding fix_insert_step
    step_outer e f = rw (e, ne→== x (child t (other d) mother) f) refl

    recolored : is_red I t uncle ≡ true → Keeps I t s (recolor I t x uncle)
    recolored e =
        recolor-Keeps I law t s h nil_black d x mx mother-mem grand-mem side uncle e root_cold

    -- One round, with what the next ones do where it goes on above.
    round :
        (fuel : ℕ)
        → ((e : is_red I t uncle ≡ true)
            → Repaired (suc fuel) (recolor I t x uncle) (recolored e).shape grand)
        → Repaired (suc (suc fuel)) t s x
    round fuel next = elim (Bool-cases (is_red I t uncle)) [
      | inl e ↦
          let k = recolored e in
          let r = next e in
          record {
            result = r.result;
            runs =
                goes_on (suc fuel) t x (recolor I t x uncle) grand hot (step_recolors e) ∙ r.runs;
            keeps = Keeps_after I k.order k.sizes r.keeps;
          }
      | inr e ↦ elim (Bool-cases (x == child t (other d) mother)) [
        | inl f ↦
            let g = sym (==→eq x (child t (other d) mother) f) in
            last_round fuel t s x (turn_out I (rotate t d mother) d mother) mother hot
              (step_inner e g)
              (inner-Keeps I law t s h nil_black d x mx mother-mem grand-mem side g)
              (inner_black I law t s h nil_black d x mx mother-mem grand-mem side g)
        | inr f ↦
            let g = ==→ne x (child t (other d) mother) f in
            let near : child t d mother ≡ x = elim below [
              | inl i ↦ i
              | inr i ↦ absurd (g (sym i))
            ] in
            last_round fuel t s x (turn_out I t d x) x hot (step_outer e g)
              (outer-Keeps I law t s h nil_black d x mx mother-mem grand-mem side)
              (outer_black I law t s h nil_black d x mx mother-mem grand-mem side near)
      ]
    ]

  same_mem : (s r : Shape) → inorder r ≡ inorder s → (n : ℕ) → mem n s ≡ true → mem n r ≡ true
  same_mem s r e n m = sym (has-inorder n r) ∙ ap (has n) e ∙ has-inorder n s ∙ m

  Within-same :
      (t u : RbTree P)
      → ((n : ℕ) → parent u n ≡ parent t n)
      → u.black_nil ≡ t.black_nil
      → (k n : ℕ) → Within t k n
      → Within u k n
  Within-same t u e f zero n w = w ∙ sym f
  Within-same t u e f (suc k) n (inl w) = inl (w ∙ sym f)
  Within-same t u e f (suc k) n (inr w) = inr (rw (e n) (Within-same t u e f k (parent t n) w))

  at_rest :
      (fuel : ℕ) (t : RbTree P) (s : Shape) (x : ℕ)
      → Holds t s
      → is_red I t t.black_nil ≡ false
      → is_red I t (parent t x) ≡ false
      → Repaired (suc fuel) t s x
  at_rest fuel t s x h b e = record {
    result = t;
    runs = stops fuel t x e;
    keeps = record { shape = s; holds = h; order = refl; sizes = sizes_refl I t; nil_black = b };
  }

  pub repair :
      (fuel k : ℕ) (t : RbTree P) (s : Shape) (x : ℕ)
      → Holds t s
      → is_red I t t.black_nil ≡ false
      → mem x s ≡ true
      → (x ≡ t.root) ⊎ (is_red I t t.root ≡ false)
      → Within t k x
      → k ≤ fuel
      → Repaired fuel t s x
  repair fuel zero t s x h b m r w le = absurd (not_nil t t.black_nil t.root s h.tree x m w)
  repair zero (suc k) t s x h b m r w le = absurd (omega arith)
  repair (suc fuel) (suc zero) t s x h b m r w le = elim (Bool-cases (is_red I t (parent t x))) [
    | inr e ↦ at_rest fuel t s x h b e
    | inl e ↦
        let mp = mother-mem t s h b x m r e in
        absurd (elim w [
          | inl i ↦ not_nil t t.black_nil t.root s h.tree x m i
          | inr i ↦ not_nil t t.black_nil t.root s h.tree (parent t x) mp i
        ])
  ]
  repair (suc zero) (suc (suc k)) t s x h b m r w le = absurd (omega arith)
  repair (suc (suc fuel)) (suc (suc k)) t s x h b m r w le =
      elim (Bool-cases (is_red I t (parent t x))) [
        | inr e ↦ at_rest (suc fuel) t s x h b e
        | inl e ↦
            let mp = mother-mem t s h b x m r e in
            let mg = grand-mem t s h b x m r e in
            let up : Within t k (parent t (parent t x)) = elim w [
              | inl i ↦ absurd (not_nil t t.black_nil t.root s h.tree x m i)
              | inr (inl i) ↦ absurd (not_nil t t.black_nil t.root s h.tree (parent t x) mp i)
              | inr (inr i) ↦ i
            ] in
            round t s h b x m r e fuel λ hot.
              let uncle = child t (other (parent_side t x)) (parent t (parent t x)) in
              let red_uncle = recolored t s h b x m r e hot in
              let sd = side t s h b x m r e in
              let cold = root_cold t s h b x m r e in
              repair (suc fuel) k (recolor I t x uncle) red_uncle.shape (parent t (parent t x))
                red_uncle.holds red_uncle.nil_black
                (same_mem s red_uncle.shape red_uncle.order (parent t (parent t x)) mg)
                (recolor-root I law t s h b (parent_side t x) x m mp mg sd uncle hot cold)
                (Within-same t (recolor I t x uncle)
                  (recolor-parent I law t s h b (parent_side t x) x m mp mg sd uncle hot cold)
                  (recolor-nil I law t s h b (parent_side t x) x m mp mg sd uncle hot cold) k
                  (parent t (parent t x)) up)
                (omega arith)
      ]
