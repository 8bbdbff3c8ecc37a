-- ===== src/Mem/RbTree/TurnAt.antt =====
-- A rotation at any node of a tree.
use fzkernel.Base.{
  ℕ, ◌≡◌, ◌≢◌, refl, sym, ◌∙◌, ap, inl, inr, true, false, ◌==◌, if◌then◌else◌, arith, Bool-cases,
  ==→eq, ==→ne,
}
use fzkernel.Mem.RbTree.{RbTree, Side, on_left, on_right, other, parent, child, rotate}
use fzkernel.Mem.RbTree.Rotate.{heir, mid, above}
use fzkernel.Mem.RbTree.Shape.{
  Shape, leaf, fork, mem, Distinct, Parts, Distinct-Parts, IsTree, root-cases, child-cases,
  mem-cases, ne_of_mem,
}
use fzkernel.Mem.RbTree.Turn.{join, turn, rotate_at, Fork, join-Fork, Fork-join}
use fzkernel.Mem.RbTree.TurnBelow.{flip, rotate_at-absent, moved, climb, turned_join}

root_turned :
    {P : Type 0} (t : RbTree P) (d : Side) (c : ℕ)
    → heir t d c ≢ t.black_nil
    → c ≢ heir t d c
    → c ≢ mid t d c
    → above t d c ≢ c
    → (p a : ℕ) (l : Shape) (b : ℕ) (r : Shape) → b ≡ c
    → Distinct (fork l b r)
    → mem p (fork l b r) ≡ false
    → IsTree t p a (fork l b r)
    → IsTree (rotate t d c) p (heir t d c) (turn d (fork l b r))
root_turned t on_left c full self apart top p a l b leaf eb w out h =
    absurd (full (ap (child t on_right) (sym eb) ∙ h.4))
root_turned t on_left c full self apart top p a l b (fork y k z) eb w out h =
    turned_join t on_left c full self apart top p b k l y z eb
      (sym h.4.0 ∙ ap (child t on_right) eb) w out (refl, h.1, h.2, h.3, h.4)
root_turned t on_right c full self apart top p a leaf b r eb w out h =
    absurd (full (ap (child t on_left) (sym eb) ∙ h.3))
root_turned t on_right c full self apart top p a (fork z k y) b r eb w out h =
    turned_join t on_right c full self apart top p b k r y z eb
      (sym h.3.0 ∙ ap (child t on_left) eb) w out (refl, h.1, h.2, h.3, h.4)

module _ {P : Type 0} (t : RbTree P) (d : Side) (c : ℕ) (full : heir t d c ≢ t.black_nil)
    (self : c ≢ heir t d c) (apart : c ≢ mid t d c) (top : above t d c ≢ c) where
  -- The fork that a subtree with `c` stands below, seen from its side.
  below :
      (e : Side) (p a b : ℕ) (l r : Shape)
      → Parts l b r
      → (b == c) ≡ false
      → mem c l ≡ true
      → Fork t e p a l b r
      → IsTree (rotate t d c) b (moved t d c full self apart top (child t e b)) (rotate_at d c l)
      → IsTree
          (rotate t d c)
          p
          (moved t d c full self apart top a)
          (join e (rotate_at d c l) b (rotate_at d c r))
  below e p a b l r parts nb m f ih =
      let g : mem c r ≡ false = parts.apart c m in
      let na : moved t d c full self apart top a ≡ a = ground (arith, f.root, nb) in
      let up = climb t d c full self apart top e p a b l r parts f m (rotate_at d c l) ih in
      rw (na, rotate_at-absent d c r g) (Fork-join (rotate t d c) e p a (rotate_at d c l) b r up)

  rotated :
      (p a : ℕ) (s : Shape)
      → Distinct s
      → mem p s ≡ false
      → mem c s ≡ true
      → IsTree t p a s
      → IsTree (rotate t d c) p (moved t d c full self apart top a) (rotate_at d c s)
  rotated p a leaf w out m h = absurd (ground arith)
  rotated p a (fork l b r) w out m h =
      let parts = Distinct-Parts l b r w in
      elim (Bool-cases (b == c)) [
        | inl e ↦
            let ea : (a == c) ≡ true = ground (arith, h.0, e) in
            rw (e, ea) (root_turned t d c full self apart top p a l b r (==→eq b c e) w out h)
        | inr e ↦ elim (mem-cases c l b r m) [
          | inl i ↦ absurd (==→ne b c e (sym i))
          | inr (inl i) ↦ rw e (
              below on_left p a b l r parts e i (join-Fork t on_left p a l b r h)
                (rotated b (child t on_left b) l parts.left parts.not_left i h.3))
          | inr (inr i) ↦ rw e (
              below on_right p a b r l (flip l b r parts) e i (join-Fork t on_right p a r b l h)
                (rotated b (child t on_right b) r parts.right parts.not_right i h.4))
        ]
      ]

-- The node, its heir, the child between them and the node above are apart.
module _ {P : Type 0} (t : RbTree P) (d : Side) (c : ℕ) (full : heir t d c ≢ t.black_nil) where
  abbrev pub IsProper : Type 0
  IsProper = (c ≢ heir t d c) × (c ≢ mid t d c) × (above t d c ≢ c)

  proper_here :
      (p a : ℕ) (x : Shape) (b : ℕ) (q : Shape)
      → b ≡ c
      → Parts x b q
      → p ≢ b
      → Fork t d p a x b q
      → IsProper
  proper_here p a x b q e parts out f =
      let eh : child t (other d) b ≡ heir t d c = ap (child t (other d)) e in
      let lost : mem c q ≡ false = ap (λ n. mem n q) (sym e) ∙ parts.not_right in
      let m : mem (heir t d c) q ≡ true = elim (root-cases t b (child t (other d) b) q f.far) [
        | inl g ↦ absurd (full (sym eh ∙ g))
        | inr g ↦ ap (λ n. mem n q) (sym eh) ∙ g
      ] in
      let k : mid t d c ≢ c =
        elim (child-cases t b (child t (other d) b) q d f.far (heir t d c) m) [
          | inl g ↦ λ i. f.ne_nil (e ∙ sym i ∙ g)
          | inr g ↦ ne_of_mem (mid t d c) c q g lost
        ] in
      (
        λ i. ne_of_mem (heir t d c) c q m lost (sym i),
        λ i. k (sym i),
        λ i. out (sym f.parent ∙ ap (parent t) e ∙ i ∙ sym e),
      )

proper_root :
    {P : Type 0} (t : RbTree P) (d : Side) (c : ℕ) (full : heir t d c ≢ t.black_nil)
    → (p a : ℕ) (l : Shape) (b : ℕ) (r : Shape) → b ≡ c
    → Parts l b r
    → p ≢ b
    → IsTree t p a (fork l b r)
    → IsProper t d c full
proper_root t on_left c full p a l b r e parts out h =
    proper_here t on_left c full p a l b r e parts out (join-Fork t on_left p a l b r h)
proper_root t on_right c full p a l b r e parts out h =
    proper_here t on_right c full p a r b l e (flip l b r parts) out
      (join-Fork t on_right p a r b l h)

module _ {P : Type 0} (t : RbTree P) (d : Side) (c : ℕ) (full : heir t d c ≢ t.black_nil) where
  pub proper :
      (p a : ℕ) (s : Shape)
      → Distinct s
      → mem p s ≡ false
      → mem c s ≡ true
      → IsTree t p a s
      → IsProper t d c full
  proper p a leaf w out m h = absurd (ground arith)
  proper p a (fork l b r) w out m h =
      let parts = Distinct-Parts l b r w in
      elim (mem-cases c l b r m) [
        | inl i ↦ proper_root t d c full p a l b r (sym i) parts (==→ne p b (ground (arith, out))) h
        | inr (inl i) ↦ proper b (child t on_left b) l parts.left parts.not_left i h.3
        | inr (inr i) ↦ proper b (child t on_right b) r parts.right parts.not_right i h.4
      ]

  -- A rotation at a node of a tree, whose child on the other side is no leaf, makes the rotated
  -- tree, with the same nodes from left to right.
  pub rotate-IsTree :
      (p a : ℕ) (s : Shape)
      → Distinct s
      → mem p s ≡ false
      → mem c s ≡ true
      → IsTree t p a s
      → IsTree (rotate t d c) p (if a == c then heir t d c else a) (rotate_at d c s)
  rotate-IsTree p a s w out m h =
      let q = proper p a s w out m h in rotated t d c full q.0 q.1 q.2 p a s w out m h
