-- ===== src/Mem/RbTree/Turn.antt =====
-- A rotation of the tree that the links make up.
use fzkernel.Base.{
  ℕ, ◌≡◌, ◌≢◌, refl, sym, ◌∙◌, inl, inr, true, false, ◌||◌, ◌==◌, if◌then◌else◌, ◌∷◌, arith,
  Bool-cases, ne→==,
}
use mathlib.Core.List.{append_assoc}
use fzkernel.Mem.RbTree.{RbTree, Side, on_left, on_right, other, parent, child}
use fzkernel.Mem.RbTree.Shape.{
  Shape, leaf, fork, inorder, mem, Distinct, Parts, Distinct-Parts, IsTree, SameLinks, frame,
  ne_of_mem,
}

abbrev pub join : Side → Shape → ℕ → Shape → Shape
join on_left l b r = fork l b r
join on_right l b r = fork r b l

abbrev pub turn : Side → Shape → Shape
turn on_left leaf = leaf
turn on_left (fork x c leaf) = fork x c leaf
turn on_left (fork x c (fork y h z)) = fork (fork x c y) h z
turn on_right leaf = leaf
turn on_right (fork leaf c x) = fork leaf c x
turn on_right (fork (fork z h y) c x) = fork z h (fork y c x)

-- The tree with a rotation at the node `c`.
abbrev pub rotate_at : Side → ℕ → Shape → Shape
rotate_at d c leaf = leaf
rotate_at d c (fork l b r) =
    let l' = rotate_at d c l in
    let r' = rotate_at d c r in if b == c then turn d (fork l b r) else fork l' b r'

inorder-turn : (d : Side) (s : Shape) → inorder (turn d s) ≡ inorder s
inorder-turn on_left leaf = refl
inorder-turn on_left (fork x c leaf) = refl
inorder-turn on_left (fork x c (fork y h z)) =
    append_assoc (inorder x) (c ∷ inorder y) (h ∷ inorder z)
inorder-turn on_right leaf = refl
inorder-turn on_right (fork leaf c x) = refl
inorder-turn on_right (fork (fork z h y) c x) =
    sym (append_assoc (inorder z) (h ∷ inorder y) (c ∷ inorder x))

pub inorder-rotate_at : (d : Side) (c : ℕ) (s : Shape) → inorder (rotate_at d c s) ≡ inorder s
inorder-rotate_at d c leaf = refl
inorder-rotate_at d c (fork l b r) = elim (Bool-cases (b == c)) [
  | inl e ↦ rw e (inorder-turn d (fork l b r))
  | inr e ↦ rw (e, inorder-rotate_at d c l, inorder-rotate_at d c r) refl
]

pub mem-join :
    (d : Side) (n : ℕ) (l : Shape) (b : ℕ) (r : Shape)
    → mem n (join d l b r) ≡ ((n == b) || mem n l || mem n r)
mem-join on_left n l b r = refl
mem-join on_right n l b r = ground arith

pub join-Parts : (d : Side) (l : Shape) (b : ℕ) (r : Shape) → Distinct (join d l b r) → Parts l b r
join-Parts on_left l b r u = Distinct-Parts l b r u
join-Parts on_right l b r u =
    let q = Distinct-Parts r b l u in
    record {
      left = q.right;
      right = q.left;
      not_left = q.not_right;
      not_right = q.not_left;
      apart = λ n m. elim (Bool-cases (mem n r)) [
        | inl e ↦ absurd (ground (arith, q.apart n e, m))
        | inr e ↦ e
      ];
    }

module _ {P : Type 0} (t : RbTree P) where
  -- A fork, seen from the side `d`.
  pub record Fork (d : Side) (p a : ℕ) (l : Shape) (b : ℕ) (r : Shape) : Type 0 where
    pub root : a ≡ b
    pub ne_nil : b ≢ t.black_nil
    pub parent : parent t b ≡ p
    pub near : IsTree t b (child t d b) l
    pub far : IsTree t b (child t (other d) b) r

  pub join-Fork :
      (d : Side) (p a : ℕ) (l : Shape) (b : ℕ) (r : Shape)
      → IsTree t p a (join d l b r)
      → Fork d p a l b r
  join-Fork on_left p a l b r h = record {
    root = h.0;
    ne_nil = h.1;
    parent = h.2;
    near = h.3;
    far = h.4;
  }
  join-Fork on_right p a l b r h = record {
    root = h.0;
    ne_nil = h.1;
    parent = h.2;
    near = h.4;
    far = h.3;
  }

  pub Fork-join :
      (d : Side) (p a : ℕ) (l : Shape) (b : ℕ) (r : Shape)
      → Fork d p a l b r
      → IsTree t p a (join d l b r)
  Fork-join on_left p a l b r f = (f.root, f.ne_nil, f.parent, f.near, f.far)
  Fork-join on_right p a l b r f = (f.root, f.ne_nil, f.parent, f.far, f.near)

-- A tree whose root is hung below another node.
pub rehang :
    {P : Type 0} (t u : RbTree P) (p q a : ℕ) (s : Shape)
    → Distinct s
    → u.black_nil ≡ t.black_nil
    → ((n : ℕ)
        → mem n s ≡ true
        → (child u on_left n ≡ child t on_left n) × (child u on_right n ≡ child t on_right n))
    → ((n : ℕ) → mem n s ≡ true → parent u n ≡ (if n == a then q else parent t n))
    → IsTree t p a s
    → IsTree u q a s
rehang t u p q a leaf w e kids up h = h ∙ sym e
rehang t u p q a (fork l b r) w e kids up h =
    let parts = Distinct-Parts l b r w in
    let same : (n : ℕ) → mem n (fork l b r) ≡ true → (n == b) ≡ false → SameLinks t u n = λ n m out.
      record {
        parent = ground (arith, up n m, h.0, out);
        left = (kids n m).0;
        right = (kids n m).1;
      } in
    let same_left : (n : ℕ) → mem n l ≡ true → SameLinks t u n =
      λ n m. same n (ground (arith, m)) (ne→== n b (ne_of_mem n b l m parts.not_left)) in
    let same_right : (n : ℕ) → mem n r ≡ true → SameLinks t u n =
      λ n m. same n (ground (arith, m)) (ne→== n b (ne_of_mem n b r m parts.not_right)) in
    let here : mem b (fork l b r) ≡ true = ground arith in
    (
      h.0,
      rw e h.1,
      ground (arith, up b here, h.0),
      rw (kids b here).0 (frame t u b (child t on_left b) l e same_left h.3),
      rw (kids b here).1 (frame t u b (child t on_right b) r e same_right h.4),
    )

pub kids_by_side :
    {P : Type 0} (t u : RbTree P) (n : ℕ) (d : Side)
    → child u d n ≡ child t d n
    → child u (other d) n ≡ child t (other d) n
    → (child u on_left n ≡ child t on_left n) × (child u on_right n ≡ child t on_right n)
kids_by_side t u n on_left f g = (f, g)
kids_by_side t u n on_right f g = (g, f)

pub by_side :
    {P : Type 0} (t u : RbTree P) (n : ℕ) (d : Side)
    → parent u n ≡ parent t n
    → child u d n ≡ child t d n
    → child u (other d) n ≡ child t (other d) n
    → SameLinks t u n
by_side t u n on_left e f g = record { parent = e; left = f; right = g }
by_side t u n on_right e f g = record { parent = e; left = g; right = f }
