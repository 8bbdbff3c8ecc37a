-- ===== src/Mem/RbTree/TurnRoot.antt =====
-- A rotation at the root of a tree.
use fzkernel.Base.{
  ℕ, ◌≡◌, ◌≢◌, refl, sym, inl, inr, true, false, not, ◌&&◌, ◌==◌, if◌then◌else◌, arith, Bool-cases,
  ne→==, ==→ne,
}
use fzkernel.Mem.RbTree.{RbTree, Side, on_left, on_right, other, parent, child, rotate}
use fzkernel.Mem.RbTree.Rotate.{
  heir, mid, above, rotate-nil, rotate-parent, rotate-child, rotate-other,
}
use fzkernel.Mem.RbTree.Shape.{
  Shape, mem, Distinct, Parts, IsTree, not_nil, root-cases, SameLinks, frame, ne_of_mem,
}
use fzkernel.Mem.RbTree.Turn.{
  rehang, kids_by_side, by_side, join-Parts, mem-join, join, Fork, join-Fork, Fork-join,
}

module _ {P : Type 0} (t : RbTree P) (d : Side) (c : ℕ) (self : c ≢ heir t d c)
    (apart : c ≢ mid t d c) (top : above t d c ≢ c) where
  -- The links of a node that no step writes to.
  pub spared :
      (n : ℕ)
      → n ≢ c
      → n ≢ heir t d c
      → (not (mid t d c == t.black_nil) && (n == mid t d c)) ≡ false
      → (not (above t d c == t.black_nil) && (n == above t d c)) ≡ false
      → SameLinks t (rotate t d c) n
  spared n nc nh nm na =
      let e : parent (rotate t d c) n ≡ parent t n =
        ground (arith, rotate-parent t d c self apart n) in
      let f : child (rotate t d c) d n ≡ child t d n =
        ground (arith, rotate-child t d c self apart n) in
      let g : child (rotate t d c) (other d) n ≡ child t (other d) n =
        ground (arith, rotate-other t d c self apart n top) in
      by_side t (rotate t d c) n d e f g

  module _ (p : ℕ) (x y z : Shape) (w : Distinct (join d x c (join d y (heir t d c) z)))
      (out : mem p (join d x c (join d y (heir t d c) z)) ≡ false)
      (h : IsTree t p c (join d x c (join d y (heir t d c) z))) where
    upper : Fork t d p c x c (join d y (heir t d c) z)
    upper = join-Fork t d p c x c (join d y (heir t d c) z) h

    lower : Fork t d c (heir t d c) y (heir t d c) z
    lower = join-Fork t d c (heir t d c) y (heir t d c) z upper.far

    upper-Parts : Parts x c (join d y (heir t d c) z)
    upper-Parts = join-Parts d x c (join d y (heir t d c) z) w

    lower-Parts : Parts y (heir t d c) z
    lower-Parts = join-Parts d y (heir t d c) z upper-Parts.right

    out_mem :
        ((p == c) ≡ false)
        × (mem p x ≡ false)
        × ((p == heir t d c) ≡ false)
        × (mem p y ≡ false)
        × (mem p z ≡ false)
    out_mem =
        let e = mem-join d p x c (join d y (heir t d c) z) in
        let f = mem-join d p y (heir t d c) z in
        (
          ground (arith, e, f, out),
          ground (arith, e, f, out),
          ground (arith, e, f, out),
          ground (arith, e, f, out),
          ground (arith, e, f, out),
        )

    not-mid :
        (n : ℕ) → mem n y ≡ false → (not (mid t d c == t.black_nil) && (n == mid t d c)) ≡ false
    not-mid n ny = elim (root-cases t (heir t d c) (mid t d c) y lower.near) [
      | inl e ↦ ground (arith, e)
      | inr m ↦ ground (arith, ne→== n (mid t d c) (λ e. ne_of_mem (mid t d c) n y m ny (sym e)))
    ]

    outside :
        (n : ℕ) → n ≢ c → n ≢ heir t d c → mem n y ≡ false → n ≢ p → SameLinks t (rotate t d c) n
    outside n nc nh ny np =
        spared n nc nh (not-mid n ny) (ground (arith, upper.parent, ne→== n p np))

    near_mem : (n : ℕ) → mem n x ≡ true → SameLinks t (rotate t d c) n
    near_mem n m =
        let f = mem-join d n y (heir t d c) z in
        let g = upper-Parts.apart n m in
        outside n (ne_of_mem n c x m upper-Parts.not_left)
          (==→ne n (heir t d c) (ground (arith, f, g))) (ground (arith, f, g))
          (ne_of_mem n p x m out_mem.1)

    far_mem : (n : ℕ) → mem n z ≡ true → SameLinks t (rotate t d c) n
    far_mem n m =
        let e = mem-join d c y (heir t d c) z in
        let g : mem c z ≡ false = ground (arith, e, upper-Parts.not_right) in
        let k : mem n y ≡ false = elim (Bool-cases (mem n y)) [
          | inl f ↦ absurd (ground (arith, lower-Parts.apart n f, m))
          | inr f ↦ f
        ] in
        outside n (ne_of_mem n c z m g) (ne_of_mem n (heir t d c) z m lower-Parts.not_right) k
          (ne_of_mem n p z m out_mem.4)

    mid_facts :
        (n : ℕ)
        → mem n y ≡ true
        → ((n == c) ≡ false)
          × ((n == heir t d c) ≡ false)
          × ((n == p) ≡ false)
          × ((n == t.black_nil) ≡ false)
    mid_facts n m =
        let e = mem-join d c y (heir t d c) z in
        let g : mem c y ≡ false = ground (arith, e, upper-Parts.not_right) in
        (
          ne→== n c (ne_of_mem n c y m g),
          ne→== n (heir t d c) (ne_of_mem n (heir t d c) y m lower-Parts.not_left),
          ne→== n p (ne_of_mem n p y m out_mem.3),
          ne→== n t.black_nil (not_nil t (heir t d c) (mid t d c) y lower.near n m),
        )

    mid_kids :
        (n : ℕ)
        → mem n y ≡ true
        → (child (rotate t d c) on_left n ≡ child t on_left n)
          × (child (rotate t d c) on_right n ≡ child t on_right n)
    mid_kids n m =
        let f = mid_facts n m in
        kids_by_side t (rotate t d c) n d
          (ground (arith, rotate-child t d c self apart n, f, upper.parent))
          (ground (arith, rotate-other t d c self apart n top, f, upper.parent))

    mid_up :
        (n : ℕ)
        → mem n y ≡ true
        → parent (rotate t d c) n ≡ (if n == mid t d c then c else parent t n)
    mid_up n m = ground (arith, rotate-parent t d c self apart n, mid_facts n m)

    hung_mid : IsTree (rotate t d c) c (mid t d c) y
    hung_mid =
        rehang t (rotate t d c) (heir t d c) c (mid t d c) y lower-Parts.left
          (rotate-nil t d c self apart) mid_kids mid_up lower.near

    hung : Fork (rotate t d c) d (heir t d c) c x c y
    hung =
        let nil = rotate-nil t d c self apart in
        let e : child (rotate t d c) d c ≡ child t d c =
          ground (arith, rotate-child t d c self apart c, self, top) in
        let f : child (rotate t d c) (other d) c ≡ mid t d c =
          ground (arith, rotate-other t d c self apart c top) in
        record {
          root = refl;
          ne_nil = rw nil upper.ne_nil;
          parent = ground (arith, rotate-parent t d c self apart c);
          near = rw e (frame t (rotate t d c) c (child t d c) x nil near_mem upper.near);
          far = rw f hung_mid;
        }

    pub turned : IsTree (rotate t d c) p (heir t d c) (join d (join d x c y) (heir t d c) z)
    turned =
        let nil = rotate-nil t d c self apart in
        let e : child (rotate t d c) d (heir t d c) ≡ c =
          ground (arith, rotate-child t d c self apart (heir t d c)) in
        let f : child (rotate t d c) (other d) (heir t d c) ≡ child t (other d) (heir t d c) =
          ground
            (arith, rotate-other t d c self apart (heir t d c) top, self, out_mem, upper.parent) in
        Fork-join (rotate t d c) d p (heir t d c) (join d x c y) (heir t d c) z record {
          root = refl;
          ne_nil = rw nil lower.ne_nil;
          parent = ground (arith, rotate-parent t d c self apart (heir t d c), self, upper.parent);
          near = rw e (Fork-join (rotate t d c) d (heir t d c) c x c y hung);
          far = rw f (
              frame t (rotate t d c) (heir t d c) (child t (other d) (heir t d c)) z nil far_mem
                lower.far);
        }
