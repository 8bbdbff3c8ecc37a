-- ===== src/Mem/RbTree/TurnBelow.antt =====
-- A rotation in a subtree, seen from the fork above it.
use fzkernel.Base.{
  ℕ, ◌≡◌, ◌≢◌, refl, sym, ◌∙◌, ap, ◌⊎◌, inl, inr, true, false, not, ◌&&◌, ◌==◌, if◌then◌else◌,
  arith, Bool-cases, ==→eq, ne→==,
}
use fzkernel.Mem.RbTree.{RbTree, Side, on_left, on_right, other, parent, child, rotate}
use fzkernel.Mem.RbTree.Rotate.{
  heir, mid, above, rotate-nil, rotate-parent, rotate-child, rotate-other,
}
use fzkernel.Mem.RbTree.Shape.{
  Shape, leaf, fork, mem, Distinct, Parts, IsTree, not_nil, root-cases, root-parent, parent-cases,
  child-cases, SameLinks, frame, ne_of_mem,
}
use fzkernel.Mem.RbTree.Turn.{join, rotate_at, Fork}
use fzkernel.Mem.RbTree.TurnRoot.{spared, turned}

pub rotate_at-absent : (d : Side) (c : ℕ) (s : Shape) → mem c s ≡ false → rotate_at d c s ≡ s
rotate_at-absent d c leaf out = refl
rotate_at-absent d c (fork l b r) out =
    let e : (b == c) ≡ false = ground (arith, out) in
    let f : mem c l ≡ false = ground (arith, out) in
    let g : mem c r ≡ false = ground (arith, out) in
    rw (e, rotate_at-absent d c l f, rotate_at-absent d c r g) refl

pub flip : (l : Shape) (b : ℕ) (r : Shape) → Parts l b r → Parts r b l
flip l b r q = record {
  left = q.right;
  right = q.left;
  not_left = q.not_right;
  not_right = q.not_left;
  apart = λ n m. elim (Bool-cases (mem n l)) [
    | inl e ↦ absurd (ground (arith, q.apart n e, m))
    | inr e ↦ e
  ];
}

-- The two children of a node other than `c` and its heir.
module _ {P : Type 0} (t : RbTree P) (c b : ℕ) (nc : (b == c) ≡ false)
    (ne : (b == t.black_nil) ≡ false) where
  abbrev Linked : Side → Side → Type 0
  Linked d e =
      c ≢ heir t d c
      → c ≢ mid t d c
      → above t d c ≢ c
      → (b == heir t d c) ≡ false
      → ((c ≡ child t e b) × (above t d c ≡ b))
        ⊎ (((child t e b == c) ≡ false) × ((b == above t d c) ≡ false))
      → (child t (other e) b == c) ≡ false
      → (child (rotate t d c) e b ≡ (if child t e b == c then heir t d c else child t e b))
        × (child (rotate t d c) (other e) b ≡ child t (other e) b)

  linked : (d e : Side) → Linked d e
  linked on_left on_left self apart top nh (inl g) far = (
    ground (arith, rotate-child t on_left c self apart b),
    ground (arith, rotate-other t on_left c self apart b top),
  )
  linked on_left on_left self apart top nh (inr g) far = (
    ground (arith, rotate-child t on_left c self apart b),
    ground (arith, rotate-other t on_left c self apart b top),
  )
  linked on_left on_right self apart top nh (inl g) far = (
    ground (arith, rotate-other t on_left c self apart b top),
    ground (arith, rotate-child t on_left c self apart b),
  )
  linked on_left on_right self apart top nh (inr g) far = (
    ground (arith, rotate-other t on_left c self apart b top),
    ground (arith, rotate-child t on_left c self apart b),
  )
  linked on_right on_left self apart top nh (inl g) far = (
    ground (arith, rotate-other t on_right c self apart b top),
    ground (arith, rotate-child t on_right c self apart b),
  )
  linked on_right on_left self apart top nh (inr g) far = (
    ground (arith, rotate-other t on_right c self apart b top),
    ground (arith, rotate-child t on_right c self apart b),
  )
  linked on_right on_right self apart top nh (inl g) far = (
    ground (arith, rotate-child t on_right c self apart b),
    ground (arith, rotate-other t on_right c self apart b top),
  )
  linked on_right on_right self apart top nh (inr g) far = (
    ground (arith, rotate-child t on_right c self apart b),
    ground (arith, rotate-other t on_right c self apart b top),
  )

module _ {P : Type 0} (t : RbTree P) (d : Side) (c : ℕ) (full : heir t d c ≢ t.black_nil)
    (self : c ≢ heir t d c) (apart : c ≢ mid t d c) (top : above t d c ≢ c) where
  abbrev pub after : RbTree P
  after = rotate t d c

  abbrev pub moved : ℕ → ℕ
  moved a = if a == c then heir t d c else a

  -- Below a node of another fork: what the subtree with `c` has to do with the rest.
  module _ (e : Side) (p a b : ℕ) (l r : Shape) (parts : Parts l b r) (f : Fork t e p a l b r)
      (m : mem c l ≡ true) where
    heir-mem : mem (heir t d c) l ≡ true
    heir-mem = elim (child-cases t b (child t e b) l (other d) f.near c m) [
      | inl g ↦ absurd (full g)
      | inr g ↦ g
    ]

    not-mid :
        (n : ℕ) → mem n l ≡ false → (not (mid t d c == t.black_nil) && (n == mid t d c)) ≡ false
    not-mid n out = elim (child-cases t b (child t e b) l d f.near (heir t d c) heir-mem) [
      | inl g ↦ ground (arith, g)
      | inr g ↦ ground (arith, ne→== n (mid t d c) (λ q. ne_of_mem (mid t d c) n l g out (sym q)))
    ]

    above-cases : ((c ≡ child t e b) × (above t d c ≡ b)) ⊎ (mem (above t d c) l ≡ true)
    above-cases = parent-cases t b (child t e b) l f.near c m

    not_above : (n : ℕ) → mem n l ≡ false → n ≢ b → (n == above t d c) ≡ false
    not_above n out nb = elim above-cases [
      | inl g ↦ ground (arith, g, ne→== n b nb)
      | inr g ↦ ne→== n (above t d c) (λ q. ne_of_mem (above t d c) n l g out (sym q))
    ]

    not_far : (n : ℕ) → mem n r ≡ true → mem n l ≡ false
    not_far n k = elim (Bool-cases (mem n l)) [
      | inl g ↦ absurd (ground (arith, parts.apart n g, k))
      | inr g ↦ g
    ]

    far_same : (n : ℕ) → mem n r ≡ true → SameLinks t after n
    far_same n k =
        let out = not_far n k in
        let nb = ne_of_mem n b r k parts.not_right in
        spared t d c self apart top n (λ q. ne_of_mem c n l m out (sym q))
          (λ q. ne_of_mem (heir t d c) n l heir-mem out (sym q)) (not-mid n out)
          (ground (arith, not_above n out nb))

    fork_up : parent after b ≡ p
    fork_up =
        let nc : (b == c) ≡ false = ne→== b c (λ q. ne_of_mem c b l m parts.not_left (sym q)) in
        let nh : (b == heir t d c) ≡ false =
          ne→== b (heir t d c) (λ q. ne_of_mem (heir t d c) b l heir-mem parts.not_left (sym q)) in
        ground (arith, rotate-parent t d c self apart b, not-mid b parts.not_left, f.parent)

    far_not_c : (child t (other e) b == c) ≡ false
    far_not_c = elim (root-cases t b (child t (other e) b) r f.far) [
      | inl g ↦ rw g (ne→== t.black_nil c (λ q. not_nil t b (child t e b) l f.near c m (sym q)))
      | inr g ↦
          ne→== (child t (other e) b) c
            (λ q. ne_of_mem c (child t (other e) b) l m (not_far (child t (other e) b) g) (sym q))
    ]

    above_split :
        ((c ≡ child t e b) × (above t d c ≡ b))
        ⊎ (((child t e b == c) ≡ false) × ((b == above t d c) ≡ false))
    above_split = elim above-cases [
      | inl g ↦ inl g
      | inr g ↦ elim (Bool-cases (child t e b == c)) [
        | inl q ↦
            let i = ==→eq (child t e b) c q in
            let out = not_nil t b (child t e b) l f.near c m in
            inl (
              sym i,
              ap (parent t) (sym i) ∙ root-parent t b (child t e b) l f.near (λ k. out (sym i ∙ k)),
            )
        | inr q ↦
            inr
              (q, ne→== b (above t d c) (λ i. ne_of_mem (above t d c) b l g parts.not_left (sym i)))
      ]
    ]

    fork_kids :
        (child after e b ≡ moved (child t e b)) × (child after (other e) b ≡ child t (other e) b)
    fork_kids =
        linked t c b (ne→== b c (λ q. ne_of_mem c b l m parts.not_left (sym q)))
          (ne→== b t.black_nil f.ne_nil) d e self apart top
          (ne→== b (heir t d c) (λ q. ne_of_mem (heir t d c) b l heir-mem parts.not_left (sym q)))
          above_split far_not_c

    pub climb : (l' : Shape) → IsTree after b (moved (child t e b)) l' → Fork after e p a l' b r
    climb l' h =
        let nil = rotate-nil t d c self apart in
        record {
          root = f.root;
          ne_nil = rw nil f.ne_nil;
          parent = fork_up;
          near = rw fork_kids.0 h;
          far = rw fork_kids.1 (frame t after b (child t (other e) b) r nil far_same f.far);
        }

  pub turned_join :
      (p b k : ℕ) (x y z : Shape)
      → b ≡ c
      → k ≡ heir t d c
      → Distinct (join d x b (join d y k z))
      → mem p (join d x b (join d y k z)) ≡ false
      → IsTree t p b (join d x b (join d y k z))
      → IsTree after p (heir t d c) (join d (join d x b y) k z)
  turned_join p b k x y z eb ek =
      rw (eb, ek) (λ w out h. turned t d c self apart top p x y z w out h)
