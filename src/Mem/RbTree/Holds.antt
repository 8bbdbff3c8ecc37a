-- ===== src/Mem/RbTree/Holds.antt =====
-- A red-black tree in memory, and what a rotation and new colors do to it.
use fzkernel.Base.{
  ℕ, ◌≡◌, ◌≢◌, refl, sym, ◌∙◌, ap, inl, inr, true, false, ◌==◌, if◌then◌else◌, arith, Bool-cases,
  ==→eq, ne→==, ==→ne,
}
use fzkernel.Mem.AllocHeader.{NodeColor}
use fzkernel.Mem.RbTree.{
  NodePayload, RbTree, Side, on_left, on_right, other, parent, child, rotate, size, is_red,
  is_red_color, paint,
}
use fzkernel.Mem.RbTree.Rotate.{heir, mid, above, rotate-nil}
use fzkernel.Mem.RbTree.Shape.{
  Shape, mem, has, has-inorder, Distinct, IsTree, not_nil, root-parent, parent-cases, frame,
}
use fzkernel.Mem.RbTree.Turn.{rotate_at, inorder-rotate_at}
use fzkernel.Mem.RbTree.TurnAt.{proper, rotate-IsTree}
use fzkernel.Mem.RbTree.Headers.{
  SameHeaders, rotate-SameHeaders, rotate-root, IsLawful, parent-paint, child-paint, size-paint,
  root-paint, nil-paint, count-paint,
}

-- The links from the root of `t` make up the tree `s`, where no node stands twice.
pub record Holds {P : Type 0} (t : RbTree P) (s : Shape) : Type 0 where
  pub tree : IsTree t t.black_nil t.root s
  pub distinct : Distinct s

-- `u` has the sizes of `t`, its leaf and its number of nodes.
pub record SameSizes {P : Type 0} (I : NodePayload P) (t u : RbTree P) : Type 0 where
  pub size : (n : ℕ) → size I u n ≡ size I t n
  pub nil : u.black_nil ≡ t.black_nil
  pub count : u.count ≡ t.count

module _ {P : Type 0} (I : NodePayload P) where
  pub sizes_trans : {t u v : RbTree P} → SameSizes I t u → SameSizes I u v → SameSizes I t v
  sizes_trans a b = record {
    size = λ n. b.size n ∙ a.size n;
    nil = b.nil ∙ a.nil;
    count = b.count ∙ a.count;
  }

  pub sizes_refl : (t : RbTree P) → SameSizes I t t
  sizes_refl t = record { size = λ n. refl; nil = refl; count = refl }

  pub headers-SameSizes : (t u : RbTree P) → SameHeaders t u → SameSizes I t u
  unfolding size
  headers-SameSizes t u h = record {
    size = λ n. ap I.value (h.header n);
    nil = h.nil;
    count = h.count;
  }

  pub headers-is_red : (t u : RbTree P) → SameHeaders t u → (n : ℕ) → is_red I u n ≡ is_red I t n
  unfolding is_red
  headers-is_red t u h n = ap (λ x. is_red_color (I.get_color x)) (h.header n)

pub tree_at :
    {P : Type 0} (t : RbTree P) (s : Shape) {p q a b : ℕ}
    → p ≡ q
    → a ≡ b
    → IsTree t p a s
    → IsTree t q b s
tree_at t s e f h = rw (sym e, sym f) h

pub mem-rotate_at : (d : Side) (c n : ℕ) (s : Shape) → mem n (rotate_at d c s) ≡ mem n s
mem-rotate_at d c n s =
    sym (has-inorder n (rotate_at d c s)) ∙ ap (has n) (inorder-rotate_at d c s) ∙ has-inorder n s

module _ {P : Type 0} (t : RbTree P) (s : Shape) (h : Holds t s) where
  pub nil_out : mem t.black_nil s ≡ false
  nil_out = elim (Bool-cases (mem t.black_nil s)) [
    | inl e ↦ absurd (not_nil t t.black_nil t.root s h.tree t.black_nil e refl)
    | inr e ↦ e
  ]

  -- A node that is not the root has its parent in the tree.
  pub parent_mem : (n : ℕ) → mem n s ≡ true → n ≢ t.root → mem (parent t n) s ≡ true
  parent_mem n m out = elim (parent-cases t t.black_nil t.root s h.tree n m) [
    | inl e ↦ absurd (out e.0)
    | inr e ↦ e
  ]

  module _ (d : Side) (c : ℕ) (m : mem c s ≡ true) (full : child t (other d) c ≢ t.black_nil) where
    pub is_proper : (c ≢ heir t d c) × (c ≢ mid t d c) × (above t d c ≢ c)
    is_proper = proper t d c full t.black_nil t.root s h.distinct nil_out m h.tree

    root_moves : (rotate t d c).root ≡ (if t.root == c then heir t d c else t.root)
    root_moves = elim (Bool-cases (t.root == c)) [
      | inl e ↦
          let i = ==→eq t.root c e in
          let k : parent t t.root ≡ t.black_nil =
            root-parent t t.black_nil t.root s h.tree
              (λ z. not_nil t t.black_nil t.root s h.tree c m (sym i ∙ z)) in
          let q : above t d c ≡ t.black_nil = ap (parent t) (sym i) ∙ k in
          ground (arith, rotate-root t d c is_proper.0 is_proper.1, q)
      | inr e ↦
          let k = parent_mem c m (λ z. ==→ne t.root c e (sym z)) in
          let q =
            ne→== (above t d c) t.black_nil
              (not_nil t t.black_nil t.root s h.tree (above t d c) k) in
          ground (arith, rotate-root t d c is_proper.0 is_proper.1, q)
    ]

    pub rotate-Holds : Holds (rotate t d c) (rotate_at d c s)
    rotate-Holds = record {
      tree =
          tree_at (rotate t d c) (rotate_at d c s) (sym (rotate-nil t d c is_proper.0 is_proper.1))
            (sym root_moves)
            (rotate-IsTree t d c full t.black_nil t.root s h.distinct nil_out m h.tree);
      distinct = rw (inorder-rotate_at d c s) h.distinct;
    }

    pub rotate-SameSizes : (I : NodePayload P) → SameSizes I t (rotate t d c)
    rotate-SameSizes I =
        headers-SameSizes I t (rotate t d c) (rotate-SameHeaders t d c is_proper.0 is_proper.1)

    pub rotate-is_red : (I : NodePayload P) (n : ℕ) → is_red I (rotate t d c) n ≡ is_red I t n
    rotate-is_red I =
        headers-is_red I t (rotate t d c) (rotate-SameHeaders t d c is_proper.0 is_proper.1)

  module _ (I : NodePayload P) (law : IsLawful I) (a : ℕ) (c : NodeColor) where
    pub paint-Holds : Holds (paint I t a c) s
    paint-Holds = record {
      tree =
          tree_at (paint I t a c) s (sym (nil-paint I law t a c)) (sym (root-paint I law t a c)) (
            frame t (paint I t a c) t.black_nil t.root s (nil-paint I law t a c)
              (λ n k. record {
                parent = parent-paint I law t a c n;
                left = child-paint I law t a c on_left n;
                right = child-paint I law t a c on_right n;
              })
              h.tree);
      distinct = h.distinct;
    }

    pub paint-SameSizes : SameSizes I t (paint I t a c)
    paint-SameSizes = record {
      size = size-paint I law t a c;
      nil = nil-paint I law t a c;
      count = count-paint I law t a c;
    }
