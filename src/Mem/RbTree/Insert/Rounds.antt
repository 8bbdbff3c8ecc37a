-- ===== src/Mem/RbTree/Insert/Rounds.antt =====
-- The rounds of the repair behind an insertion: a red uncle, an outer and an inner new node.
use fzkernel.Base.{
  ℕ, ◌≡◌, ◌≢◌, refl, sym, ◌∙◌, ap, ◌⊎◌, inl, inr, true, false, ◌==◌, if◌then◌else◌, arith,
  Bool-cases, ==→eq, eq→==, ne→==,
}
use fzkernel.Mem.AllocHeader.{red, black}
use fzkernel.Mem.RbTree.{
  NodePayload, RbTree, Side, on_left, on_right, other, parent, child, rotate, is_red, paint,
}
use fzkernel.Mem.RbTree.Insert.{turn_out, recolor}
use fzkernel.Mem.RbTree.Insert.Repair.{Keeps, turn_out-Keeps, turn_out_black}
use fzkernel.Mem.RbTree.Rotate.{heir, mid, above, rotate-nil, rotate-parent, rotate-child}
use fzkernel.Mem.RbTree.Shape.{Shape, inorder, mem, not_nil}
use fzkernel.Mem.RbTree.Turn.{rotate_at, inorder-rotate_at}
use fzkernel.Mem.RbTree.Headers.{IsLawful, parent-paint, is_red-paint, nil-paint, root-paint}
use fzkernel.Mem.RbTree.Kin.{kid-ne, grandkid-ne, kids-apart}
use fzkernel.Mem.RbTree.Holds.{
  Holds, SameSizes, sizes_trans, is_proper, rotate-Holds, rotate-SameSizes, rotate-is_red,
  paint-Holds, paint-SameSizes, mem-rotate_at,
}

module _ {P : Type 0} (I : NodePayload P) where
  pub Keeps_after :
      {t u v : RbTree P} {s r : Shape}
      → inorder r ≡ inorder s
      → SameSizes I t u
      → Keeps I u r v
      → Keeps I t s v
  Keeps_after e a j = record {
    shape = j.shape;
    holds = j.holds;
    order = j.order ∙ e;
    sizes = sizes_trans I a j.sizes;
    nil_black = j.nil_black;
  }

apart_by_side :
    {P : Type 0} (t : RbTree P) (s : Shape)
    → Holds t s
    → (d : Side) (n : ℕ) → mem n s ≡ true
    → child t d n ≢ t.black_nil
    → child t d n ≢ child t (other d) n
apart_by_side t s h on_left n m k = kids-apart t t.black_nil t.root s h.distinct h.tree n m k
apart_by_side t s h on_right n m k =
    λ e. kids-apart t t.black_nil t.root s h.distinct h.tree n m (λ z. k (e ∙ z)) (sym e)

module _ {P : Type 0} (I : NodePayload P) (law : IsLawful I) (t : RbTree P) (s : Shape)
    (h : Holds t s) (nil_black : is_red I t t.black_nil ≡ false) (d : Side) (x : ℕ)
    (mx : mem x s ≡ true) (mp : mem (parent t x) s ≡ true)
    (mg : mem (parent t (parent t x)) s ≡ true)
    (side : child t d (parent t (parent t x)) ≡ parent t x) where
  abbrev mother : ℕ
  mother = parent t x

  abbrev grand : ℕ
  grand = parent t mother

  -- A red uncle.
  module _ (uncle : ℕ) (hot : is_red I t uncle ≡ true)
      (root_black : is_red I t t.root ≡ false) where
    abbrev first : RbTree P
    first = paint I t mother black

    abbrev second : RbTree P
    second = paint I first uncle black

    abbrev third : RbTree P
    third = paint I second grand red

    recolor-third : recolor I t x uncle ≡ third
    unfolding recolor
    recolor-third =
        let up =
          λ (n : ℕ). parent-paint I law first uncle black n ∙ parent-paint I law t mother black n in
        let e : parent second (parent second x) ≡ grand =
          up (parent second x) ∙ ap (parent t) (up x) in
        rw e refl

    up_third : (n : ℕ) → parent third n ≡ parent t n
    up_third n =
        parent-paint I law second grand red n
        ∙ parent-paint I law first uncle black n
        ∙ parent-paint I law t mother black n

    red_third :
        (n : ℕ)
        → is_red I third n ≡ (
            if n == grand
            then true
            else if n == uncle
            then false
            else if n == mother
            then false
            else is_red I t n)
    red_third n = ground (
      arith,
      is_red-paint I law second grand red n,
      is_red-paint I law first uncle black n,
      is_red-paint I law t mother black n,
    )

    pub recolor-Keeps : Keeps I t s (recolor I t x uncle)
    recolor-Keeps =
        let h1 = paint-Holds t s h I law mother black in
        let h2 = paint-Holds first s h1 I law uncle black in
        let a =
          ne→== t.black_nil grand (λ q. not_nil t t.black_nil t.root s h.tree grand mg (sym q)) in
        let e : third.black_nil ≡ t.black_nil =
          nil-paint I law second grand red
          ∙ nil-paint I law first uncle black
          ∙ nil-paint I law t mother black in
        rw recolor-third record {
          shape = s;
          holds = paint-Holds second s h2 I law grand red;
          order = refl;
          sizes = sizes_trans I (paint-SameSizes t s h I law mother black) (
              sizes_trans I (paint-SameSizes first s h1 I law uncle black)
                (paint-SameSizes second s h2 I law grand red));
          nil_black = ap (is_red I third) e ∙ ground (arith, red_third t.black_nil, a, nil_black);
        }

    pub recolor-parent : (n : ℕ) → parent (recolor I t x uncle) n ≡ parent t n
    recolor-parent n = rw recolor-third (up_third n)

    pub recolor-nil : (recolor I t x uncle).black_nil ≡ t.black_nil
    recolor-nil = rw recolor-third (
        nil-paint I law second grand red
        ∙ nil-paint I law first uncle black
        ∙ nil-paint I law t mother black)

    pub recolor-root :
        (grand ≡ (recolor I t x uncle).root)
        ⊎ (is_red I (recolor I t x uncle) (recolor I t x uncle).root ≡ false)
    recolor-root =
        let e : third.root ≡ t.root =
          root-paint I law second grand red
          ∙ root-paint I law first uncle black
          ∙ root-paint I law t mother black in
        rw recolor-third (elim (Bool-cases (t.root == grand)) [
          | inl f ↦ inl (sym (==→eq t.root grand f) ∙ sym e)
          | inr f ↦ inr (ap (is_red I third) e ∙ ground (arith, red_third t.root, f, root_black))
        ])

  alive : (n : ℕ) → mem n s ≡ true → n ≢ t.black_nil
  alive n m = not_nil t t.black_nil t.root s h.tree n m

  mother_ne_grand : mother ≢ grand
  mother_ne_grand e =
      kid-ne t t.black_nil t.root s d h.distinct h.tree grand mg
        (λ q. alive mother mp (sym side ∙ q)) (side ∙ e)

  -- Where the new node is the child of its parent on the side `e`.
  module _ (e : Side) (below : child t e mother ≡ x) where
    x_ne_mother : x ≢ mother
    x_ne_mother q =
        kid-ne t t.black_nil t.root s e h.distinct h.tree mother mp
          (λ z. alive x mx (sym below ∙ z)) (below ∙ q)

    x_ne_grand : x ≢ grand
    x_ne_grand q =
        let k : child t e (child t d grand) ≡ x = ap (child t e) side ∙ below in
        grandkid-ne t t.black_nil t.root s d e h.distinct h.tree grand mg
          (λ z. alive mother mp (sym side ∙ z)) (λ z. alive x mx (sym k ∙ z)) (k ∙ q)

  pub outer-Keeps : Keeps I t s (turn_out I t d x)
  outer-Keeps = turn_out-Keeps I law t s h nil_black d x mp mg side

  pub outer_black :
      child t d mother ≡ x → is_red I (turn_out I t d x) (parent (turn_out I t d x) x) ≡ false
  outer_black below =
      turn_out_black I law t s h nil_black d x mp mg side (x_ne_mother d below) (x_ne_grand d below)
        (λ q. apart_by_side t s h d mother mp (λ z. alive x mx (sym below ∙ z)) (below ∙ q))

  -- Where it is the other child, it is first turned above its parent.
  module _ (below : child t (other d) mother ≡ x) where
    abbrev turned : RbTree P
    turned = rotate t d mother

    abbrev turned_shape : Shape
    turned_shape = rotate_at d mother s

    full : child t (other d) mother ≢ t.black_nil
    full z = alive x mx (sym below ∙ z)

    apart : (mother ≢ heir t d mother) × (mother ≢ mid t d mother) × (above t d mother ≢ mother)
    apart = is_proper t s h d mother mp full

    up_mother : parent turned mother ≡ x
    up_mother = ground (arith, rotate-parent t d mother apart.0 apart.1 mother, below)

    up_x : parent turned x ≡ grand
    up_x = ground (
      arith,
      rotate-parent t d mother apart.0 apart.1 x,
      below,
      ne→== x mother (x_ne_mother (other d) below),
    )

    up_up : parent turned (parent turned mother) ≡ grand
    up_up = ap (parent turned) up_mother ∙ up_x

    down_grand : child turned d grand ≡ x
    down_grand =
        let k = eq→== mother (child t d grand) (sym side) in
        ground (
          arith,
          rotate-child t d mother apart.0 apart.1 grand,
          below,
          ne→== grand x (λ q. x_ne_grand (other d) below (sym q)),
          ne→== grand t.black_nil (alive grand mg),
          k,
        )

    down_x : child turned d x ≡ mother
    down_x = ground (arith, rotate-child t d mother apart.0 apart.1 x, below)

    Holds-turned : Holds turned turned_shape
    Holds-turned = rotate-Holds t s h d mother mp full

    nil_turned : turned.black_nil ≡ t.black_nil
    nil_turned = rotate-nil t d mother apart.0 apart.1

    cold : is_red I turned turned.black_nil ≡ false
    cold =
        ap (is_red I turned) nil_turned
        ∙ rotate-is_red t s h d mother mp full I t.black_nil
        ∙ nil_black

    in_turned : (n m : ℕ) → m ≡ n → mem n s ≡ true → mem m turned_shape ≡ true
    in_turned n m e k = ap (λ y. mem y turned_shape) e ∙ mem-rotate_at d mother n s ∙ k

    pub inner-Keeps : Keeps I t s (turn_out I turned d mother)
    inner-Keeps =
        Keeps_after I (inorder-rotate_at d mother s) (rotate-SameSizes t s h d mother mp full I) (
          turn_out-Keeps I law turned turned_shape Holds-turned cold d mother
            (in_turned x (parent turned mother) up_mother mx)
            (in_turned grand (parent turned (parent turned mother)) up_up mg)
            (ap (child turned d) up_up ∙ down_grand ∙ sym up_mother))

    pub inner_black :
        is_red I (turn_out I turned d mother) (parent (turn_out I turned d mother) mother) ≡ false
    inner_black =
        turn_out_black I law turned turned_shape Holds-turned cold d mother
          (in_turned x (parent turned mother) up_mother mx)
          (in_turned grand (parent turned (parent turned mother)) up_up mg)
          (ap (child turned d) up_up ∙ down_grand ∙ sym up_mother)
          (λ q. x_ne_mother (other d) below (sym (q ∙ up_mother)))
          (λ q. mother_ne_grand (q ∙ up_up))
          (λ q.
            apart_by_side turned turned_shape Holds-turned d x (in_turned x x refl mx)
              (λ z. alive mother mp (sym down_x ∙ z ∙ nil_turned))
              (down_x ∙ q ∙ ap (child turned (other d)) up_mother))
