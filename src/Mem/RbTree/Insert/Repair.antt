-- ===== src/Mem/RbTree/Insert/Repair.antt =====
-- The steps that a round of the repair ends with, and what the repair keeps.
use fzkernel.Base.{ℕ, ◌≡◌, ◌≢◌, refl, sym, ◌∙◌, ap, true, false, ◌==◌, if◌then◌else◌, arith, ne→==}
use fzkernel.Mem.AllocHeader.{red, black}
use fzkernel.Mem.RbTree.{
  NodePayload, RbTree, Side, on_left, on_right, other, parent, child, rotate, is_red, paint,
}
use fzkernel.Mem.RbTree.Insert.{turn_out}
use fzkernel.Mem.RbTree.Rotate.{heir, mid, above, rotate-nil, rotate-parent}
use fzkernel.Mem.RbTree.Shape.{Shape, inorder, mem, not_nil}
use fzkernel.Mem.RbTree.Turn.{rotate_at, inorder-rotate_at}
use fzkernel.Mem.RbTree.Headers.{IsLawful, parent-paint, child-paint, is_red-paint, nil-paint}
use fzkernel.Mem.RbTree.Holds.{
  Holds, SameSizes, sizes_trans, is_proper, rotate-Holds, rotate-SameSizes, rotate-is_red,
  paint-Holds, paint-SameSizes,
}

pub other-other : (d : Side) → other (other d) ≡ d
other-other on_left = refl
other-other on_right = refl

-- `u` holds the nodes of `s` in their order, with the sizes of `t`, and its leaf is black.
pub record Keeps {P : Type 0} (I : NodePayload P) (t : RbTree P) (s : Shape) (u : RbTree P)
    : Type 0 where
  pub shape : Shape
  pub holds : Holds u shape
  pub order : inorder shape ≡ inorder s
  pub sizes : SameSizes I t u
  pub nil_black : is_red I u u.black_nil ≡ false

module _ {P : Type 0} (I : NodePayload P) (law : IsLawful I) (t : RbTree P) (s : Shape)
    (h : Holds t s) (nil_black : is_red I t t.black_nil ≡ false) (d : Side) (x : ℕ) where
  abbrev pub mother : ℕ
  mother = parent t x

  abbrev pub grand : ℕ
  grand = parent t mother

  abbrev blackened : RbTree P
  blackened = paint I t mother black

  abbrev painted : RbTree P
  painted = paint I blackened grand red

  module _ (mp : mem mother s ≡ true) (mg : mem grand s ≡ true)
      (side : child t d grand ≡ mother) where
    turn_out-rotate : turn_out I t d x ≡ rotate painted (other d) grand
    unfolding turn_out
    turn_out-rotate =
        let e : parent blackened (parent blackened x) ≡ grand =
          parent-paint I law t mother black (parent blackened x)
          ∙ ap (parent t) (parent-paint I law t mother black x) in
        let f : parent painted (parent painted x) ≡ grand =
          parent-paint I law blackened grand red (parent painted x)
          ∙ ap (parent blackened) (parent-paint I law blackened grand red x)
          ∙ e in
        rw (e, f) refl

    up_painted : (n : ℕ) → parent painted n ≡ parent t n
    up_painted n = parent-paint I law blackened grand red n ∙ parent-paint I law t mother black n

    down_painted : (e : Side) (n : ℕ) → child painted e n ≡ child t e n
    down_painted e n =
        child-paint I law blackened grand red e n ∙ child-paint I law t mother black e n

    Holds-painted : Holds painted s
    Holds-painted = paint-Holds blackened s (paint-Holds t s h I law mother black) I law grand red

    heir-painted : heir painted (other d) grand ≡ mother
    heir-painted = rw (other-other d) (down_painted d grand ∙ side)

    nil_painted : painted.black_nil ≡ t.black_nil
    nil_painted = nil-paint I law blackened grand red ∙ nil-paint I law t mother black

    full : child painted (other (other d)) grand ≢ painted.black_nil
    full e = not_nil t t.black_nil t.root s h.tree mother mp (sym heir-painted ∙ e ∙ nil_painted)

    red_painted :
        (n : ℕ)
        → is_red I painted n
          ≡ (if n == grand then true else if n == mother then false else is_red I t n)
    red_painted n =
        ground
          (arith, is_red-paint I law blackened grand red n, is_red-paint I law t mother black n)

    abbrev turned_out : RbTree P
    turned_out = rotate painted (other d) grand

    proper_out :
        (grand ≢ heir painted (other d) grand)
        × (grand ≢ mid painted (other d) grand)
        × (above painted (other d) grand ≢ grand)
    proper_out = is_proper painted s Holds-painted (other d) grand mg full

    nil_out_black : is_red I turned_out turned_out.black_nil ≡ false
    nil_out_black =
        let e = rotate-nil painted (other d) grand proper_out.0 proper_out.1 ∙ nil_painted in
        let a =
          ne→== t.black_nil grand (λ q. not_nil t t.black_nil t.root s h.tree grand mg (sym q)) in
        let b =
          ne→== t.black_nil mother (λ q. not_nil t t.black_nil t.root s h.tree mother mp (sym q)) in
        ap (is_red I turned_out) e
        ∙ rotate-is_red painted s Holds-painted (other d) grand mg full I t.black_nil
        ∙ ground (arith, red_painted t.black_nil, a, b, nil_black)

    pub turn_out-Keeps : Keeps I t s (turn_out I t d x)
    turn_out-Keeps = rw turn_out-rotate record {
      shape = rotate_at (other d) grand s;
      holds = rotate-Holds painted s Holds-painted (other d) grand mg full;
      order = inorder-rotate_at (other d) grand s;
      sizes =
          sizes_trans I
            (sizes_trans I (paint-SameSizes t s h I law mother black)
              (paint-SameSizes blackened s (paint-Holds t s h I law mother black) I law grand red))
            (rotate-SameSizes painted s Holds-painted (other d) grand mg full I);
      nil_black = nil_out_black;
    }

    -- The parent is then black.
    pub turn_out_black :
        x ≢ mother
        → x ≢ grand
        → x ≢ child t (other d) mother
        → is_red I (turn_out I t d x) (parent (turn_out I t d x) x) ≡ false
    turn_out_black xp xg xm =
        let m : mid painted (other d) grand ≡ child t (other d) mother =
          ap (child painted (other d)) heir-painted ∙ down_painted (other d) mother in
        let e : parent turned_out x ≡ mother = ground (
          arith,
          rotate-parent painted (other d) grand proper_out.0 proper_out.1 x,
          ne→== x grand xg,
          ne→== x mother xp,
          ne→== x (child t (other d) mother) xm,
          heir-painted,
          m,
          up_painted x,
        ) in
        let k : (mother == grand) ≡ false =
          ne→== mother grand (λ q. proper_out.0 (sym q ∙ sym heir-painted)) in
        let r : is_red I turned_out mother ≡ false =
          rotate-is_red painted s Holds-painted (other d) grand mg full I mother
          ∙ ground (arith, red_painted mother, k) in
        rw turn_out-rotate (ap (is_red I turned_out) e ∙ r)
