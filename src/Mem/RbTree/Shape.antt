-- ===== src/Mem/RbTree/Shape.antt =====
-- The tree that the links of a memory make up.
use fzkernel.Base.{
  ℕ, ◌≡◌, ◌≢◌, refl, sym, ◌∙◌, ap, ◌⊎◌, inl, inr, Bool, true, false, ◌||◌, ◌==◌, List, [], ◌∷◌,
  ◌++◌, arith, Bool-cases, ==→eq,
}
use mathlib.Core.Bool.{false≢true}
use fzkernel.Mem.RbTree.{RbTree, Side, on_left, on_right, parent, child}

pub data Shape : Type 0 where
  leaf : Shape
  fork : Shape → ℕ → Shape → Shape

-- The nodes from left to right.
abbrev pub inorder : Shape → List ℕ
inorder leaf = []
inorder (fork l b r) = inorder l ++ (b ∷ inorder r)

abbrev pub mem : ℕ → Shape → Bool
mem n leaf = false
mem n (fork l b r) = (n == b) || mem n l || mem n r

abbrev pub has : ℕ → List ℕ → Bool
has n [] = false
has n (x ∷ xs) = (n == x) || has n xs

abbrev pub Unique : List ℕ → Type 0
Unique [] = Unit
Unique (x ∷ xs) = (has x xs ≡ false) × Unique xs

-- No node stands twice.
abbrev pub Distinct : Shape → Type 0
Distinct s = Unique (inorder s)

pub has-append : (n : ℕ) (xs ys : List ℕ) → has n (xs ++ ys) ≡ (has n xs || has n ys)
has-append n [] ys = refl
has-append n (x ∷ xs) ys = ground (arith, has-append n xs ys)

pub has-inorder : (n : ℕ) (s : Shape) → has n (inorder s) ≡ mem n s
has-inorder n leaf = refl
has-inorder n (fork l b r) =
    ground (arith, has-append n (inorder l) (b ∷ inorder r), has-inorder n l, has-inorder n r)

record Split (xs : List ℕ) (b : ℕ) (ys : List ℕ) : Type 0 where
  before : Unique xs
  after : Unique ys
  not_before : has b xs ≡ false
  not_after : has b ys ≡ false
  apart : (n : ℕ) → has n xs ≡ true → has n ys ≡ false

Unique-Split : (xs : List ℕ) (b : ℕ) (ys : List ℕ) → Unique (xs ++ (b ∷ ys)) → Split xs b ys
Unique-Split [] b ys u = record {
  before = tt;
  after = u.1;
  not_before = refl;
  not_after = u.0;
  apart = λ n h. absurd (ground arith);
}
Unique-Split (x ∷ xs) b ys u =
    let rest = Unique-Split xs b ys u.1 in
    let out = has-append x xs (b ∷ ys) in
    let p : has x xs ≡ false = ground (arith, u.0) in
    let q : has x ys ≡ false = ground (arith, u.0) in
    record {
      before = (p, rest.before);
      after = rest.after;
      not_before = ground (arith, rest.not_before, u.0);
      not_after = rest.not_after;
      apart = λ n h. elim (Bool-cases (n == x)) [
        | inl e ↦ rw (==→eq n x e) q
        | inr e ↦ rest.apart n (ground (arith, h))
      ];
    }

pub record Parts (l : Shape) (b : ℕ) (r : Shape) : Type 0 where
  pub left : Distinct l
  pub right : Distinct r
  pub not_left : mem b l ≡ false
  pub not_right : mem b r ≡ false
  pub apart : (n : ℕ) → mem n l ≡ true → mem n r ≡ false

pub Distinct-Parts : (l : Shape) (b : ℕ) (r : Shape) → Distinct (fork l b r) → Parts l b r
Distinct-Parts l b r u =
    let s = Unique-Split (inorder l) b (inorder r) u in
    record {
      left = s.before;
      right = s.after;
      not_left = sym (has-inorder b l) ∙ s.not_before;
      not_right = sym (has-inorder b r) ∙ s.not_after;
      apart = λ n h. sym (has-inorder n r) ∙ s.apart n (has-inorder n l ∙ h);
    }

-- A node of a tree is not one that the tree lacks.
pub ne_of_mem : (n b : ℕ) (s : Shape) → mem n s ≡ true → mem b s ≡ false → n ≢ b
ne_of_mem n b s m out e = false≢true (sym out ∙ ap (λ x. mem x s) (sym e) ∙ m)

pub mem-cases :
    (n : ℕ) (l : Shape) (b : ℕ) (r : Shape)
    → mem n (fork l b r) ≡ true
    → (n ≡ b) ⊎ ((mem n l ≡ true) ⊎ (mem n r ≡ true))
mem-cases n l b r m = elim (Bool-cases (n == b)) [
  | inl e ↦ inl (==→eq n b e)
  | inr e ↦ elim (Bool-cases (mem n l)) [ inl f ↦ inr (inl f) | inr f ↦ inr (inr (ground arith)) ]
]

module _ {P : Type 0} (t : RbTree P) where
  -- The link `a`, to a node below `p`, is the root of the tree `s`.
  abbrev pub IsTree : (p a : ℕ) → Shape → Type 0
  IsTree p a leaf = a ≡ t.black_nil
  IsTree p a (fork l b r) =
      (a ≡ b)
      × (b ≢ t.black_nil)
      × (parent t b ≡ p)
      × IsTree b (child t on_left b) l
      × IsTree b (child t on_right b) r

  pub not_nil : (p a : ℕ) (s : Shape) → IsTree p a s → (n : ℕ) → mem n s ≡ true → n ≢ t.black_nil
  not_nil p a leaf h n m = absurd (ground arith)
  not_nil p a (fork l b r) h n m = elim (mem-cases n l b r m) [
    | inl e ↦ rw e h.1
    | inr (inl e) ↦ not_nil b (child t on_left b) l h.3 n e
    | inr (inr e) ↦ not_nil b (child t on_right b) r h.4 n e
  ]

  pub root-cases : (p a : ℕ) (s : Shape) → IsTree p a s → (a ≡ t.black_nil) ⊎ (mem a s ≡ true)
  root-cases p a leaf h = inl h
  root-cases p a (fork l b r) h = inr (ground (arith, h.0))

  pub root-parent : (p a : ℕ) (s : Shape) → IsTree p a s → a ≢ t.black_nil → parent t a ≡ p
  root-parent p a leaf h out = absurd (out h)
  root-parent p a (fork l b r) h out = ap (parent t) h.0 ∙ h.2

  pub parent-cases :
      (p a : ℕ) (s : Shape)
      → IsTree p a s
      → (n : ℕ) → mem n s ≡ true
      → ((n ≡ a) × (parent t n ≡ p)) ⊎ (mem (parent t n) s ≡ true)
  parent-cases p a leaf h n m = absurd (ground arith)
  parent-cases p a (fork l b r) h n m = elim (mem-cases n l b r m) [
    | inl e ↦ rw e (inl (sym h.0, h.2))
    | inr (inl e) ↦ elim (parent-cases b (child t on_left b) l h.3 n e) [
      | inl f ↦ inr (ground (arith, f.1))
      | inr f ↦ inr (ground (arith, f))
    ]
    | inr (inr e) ↦ elim (parent-cases b (child t on_right b) r h.4 n e) [
      | inl f ↦ inr (ground (arith, f.1))
      | inr f ↦ inr (ground (arith, f))
    ]
  ]

  side-cases :
      (p a : ℕ) (l : Shape) (b : ℕ) (r : Shape)
      → IsTree p a (fork l b r)
      → (e : Side) → (child t e b ≡ t.black_nil) ⊎ (mem (child t e b) (fork l b r) ≡ true)
  side-cases p a l b r h on_left = elim (root-cases b (child t on_left b) l h.3) [
    | inl f ↦ inl f
    | inr f ↦ inr (ground (arith, f))
  ]
  side-cases p a l b r h on_right = elim (root-cases b (child t on_right b) r h.4) [
    | inl f ↦ inl f
    | inr f ↦ inr (ground (arith, f))
  ]

  pub child-cases :
      (p a : ℕ) (s : Shape) (e : Side)
      → IsTree p a s
      → (n : ℕ) → mem n s ≡ true
      → (child t e n ≡ t.black_nil) ⊎ (mem (child t e n) s ≡ true)
  child-cases p a leaf e h n m = absurd (ground arith)
  child-cases p a (fork l b r) e h n m = elim (mem-cases n l b r m) [
    | inl i ↦ elim (side-cases p a l b r h e) [
      | inl f ↦ inl (ap (child t e) i ∙ f)
      | inr f ↦ inr (ap (λ x. mem (child t e x) (fork l b r)) i ∙ f)
    ]
    | inr (inl i) ↦ elim (child-cases b (child t on_left b) l e h.3 n i) [
      | inl f ↦ inl f
      | inr f ↦ inr (ground (arith, f))
    ]
    | inr (inr i) ↦ elim (child-cases b (child t on_right b) r e h.4 n i) [
      | inl f ↦ inl f
      | inr f ↦ inr (ground (arith, f))
    ]
  ]

-- The links of `u` at `n` are those of `t`.
pub record SameLinks {P : Type 0} (t u : RbTree P) (n : ℕ) : Type 0 where
  pub parent : parent u n ≡ parent t n
  pub left : child u on_left n ≡ child t on_left n
  pub right : child u on_right n ≡ child t on_right n

-- A tree is still there where none of its nodes has changed its links.
pub frame :
    {P : Type 0} (t u : RbTree P) (p a : ℕ) (s : Shape)
    → u.black_nil ≡ t.black_nil
    → ((n : ℕ) → mem n s ≡ true → SameLinks t u n)
    → IsTree t p a s
    → IsTree u p a s
frame t u p a leaf e same h = h ∙ sym e
frame t u p a (fork l b r) e same h =
    let here = same b (ground arith) in
    let down = frame t u b (child t on_left b) l e (λ n m. same n (ground (arith, m))) h.3 in
    let down' = frame t u b (child t on_right b) r e (λ n m. same n (ground (arith, m))) h.4 in
    (h.0, rw e h.1, here.parent ∙ h.2, rw here.left down, rw here.right down')
