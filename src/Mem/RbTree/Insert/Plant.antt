-- ===== src/Mem/RbTree/Insert/Plant.antt =====
-- Where a new node goes in a tree, and in the list of its nodes.
use fzkernel.Base.{
  ℕ, suc, ◌≤◌, ◌≡◌, refl, sym, ◌∙◌, ap, ◌⊎◌, inl, inr, true, false, ◌||◌, ◌==◌, ltb, if◌then◌else◌,
  arith, Bool-cases, List, [], ◌∷◌, ◌++◌, length, All, ltb→lt, ltb→le, le→ltb,
}
use fzkernel.Mem.RbTree.Shape.{Shape, leaf, fork, inorder, mem, has, Unique}

inside_left :
    (l : Shape) (b : ℕ) (r : Shape) (n : ℕ) → (n ≡ b) ⊎ (mem n l ≡ true) → mem n (fork l b r) ≡ true
inside_left l b r n (inl e) = ground (arith, e)
inside_left l b r n (inr e) = ground (arith, e)

inside_right :
    (l : Shape) (b : ℕ) (r : Shape) (n : ℕ) → (n ≡ b) ⊎ (mem n r ≡ true) → mem n (fork l b r) ≡ true
inside_right l b r n (inl e) = ground (arith, e)
inside_right l b r n (inr e) = ground (arith, e)

module _ (key : ℕ → ℕ) (new_node : ℕ) where
  -- The new node below the last node of the walk, before the nodes with a greater key.
  abbrev pub plant : Shape → Shape
  plant leaf = fork leaf new_node leaf
  plant (fork l b r) =
      let l' = plant l in
      let r' = plant r in if ltb (key new_node) (key b) then fork l' b r else fork l b r'

  -- The last node of the walk, which comes from `p`.
  abbrev pub spot : Shape → ℕ → ℕ
  spot leaf p = p
  spot (fork l b r) p =
      let below = spot l b in
      let above = spot r b in if ltb (key new_node) (key b) then below else above

  abbrev pub insert_by : List ℕ → List ℕ
  insert_by [] = new_node ∷ []
  insert_by (x ∷ xs) =
      let rest = insert_by xs in
      if ltb (key new_node) (key x) then new_node ∷ (x ∷ xs) else x ∷ rest

  mem_fork :
      (l : Shape) (b : ℕ) (r : Shape) (p : ℕ)
      → (spot l b ≡ b) ⊎ (mem (spot l b) l ≡ true)
      → (spot r b ≡ b) ⊎ (mem (spot r b) r ≡ true)
      → mem (spot (fork l b r) p) (fork l b r) ≡ true
  mem_fork l b r p left right = elim (Bool-cases (ltb (key new_node) (key b))) [
    | inl e ↦
        let k : spot (fork l b r) p ≡ spot l b = rw e refl in
        ap (λ x. mem x (fork l b r)) k ∙ inside_left l b r (spot l b) left
    | inr e ↦
        let k : spot (fork l b r) p ≡ spot r b = rw e refl in
        ap (λ x. mem x (fork l b r)) k ∙ inside_right l b r (spot r b) right
  ]

  pub spot-cases : (s : Shape) (p : ℕ) → (spot s p ≡ p) ⊎ (mem (spot s p) s ≡ true)
  spot-cases leaf p = inl refl
  spot-cases (fork l b r) p = inr (mem_fork l b r p (spot-cases l b) (spot-cases r b))

  pub mem-spot :
      (l : Shape) (b : ℕ) (r : Shape) (p : ℕ) → mem (spot (fork l b r) p) (fork l b r) ≡ true
  mem-spot l b r p = mem_fork l b r p (spot-cases l b) (spot-cases r b)

abbrev pub IsSorted : (ℕ → ℕ) → List ℕ → Type 0
IsSorted key [] = Unit
IsSorted key (x ∷ xs) = All (λ y. key x ≤ key y) xs × IsSorted key xs

All-append : (Q : ℕ → Type 0) (xs ys : List ℕ) → All Q (xs ++ ys) → All Q xs × All Q ys
All-append Q [] ys a = (tt, a)
All-append Q (x ∷ xs) ys a = let r = All-append Q xs ys a.1 in ((a.0, r.0), r.1)

-- The parts of a sorted list around one of its nodes.
pub record Around (key : ℕ → ℕ) (xs : List ℕ) (b : ℕ) (ys : List ℕ) : Type 0 where
  pub before : IsSorted key xs
  pub after : IsSorted key ys
  pub below : All (λ x. key x ≤ key b) xs
  pub above : All (λ y. key b ≤ key y) ys

pub sorted-Around :
    (key : ℕ → ℕ) (xs : List ℕ) (b : ℕ) (ys : List ℕ)
    → IsSorted key (xs ++ (b ∷ ys))
    → Around key xs b ys
sorted-Around key [] b ys h = record { before = tt; after = h.1; below = tt; above = h.0 }
sorted-Around key (x ∷ xs) b ys h =
    let r = sorted-Around key xs b ys h.1 in
    let a = All-append (λ y. key x ≤ key y) xs (b ∷ ys) h.0 in
    record { before = (a.0, r.before); after = r.after; below = (a.1.0, r.below); above = r.above }

module _ (key : ℕ → ℕ) (new_node : ℕ) where
  before-insert_by :
      (xs : List ℕ) (b : ℕ) (ys : List ℕ)
      → ltb (key new_node) (key b) ≡ true
      → insert_by key new_node (xs ++ (b ∷ ys)) ≡ insert_by key new_node xs ++ (b ∷ ys)
  before-insert_by [] b ys e = rw e refl
  before-insert_by (x ∷ xs) b ys e = elim (Bool-cases (ltb (key new_node) (key x))) [
    | inl f ↦ rw f refl
    | inr f ↦ rw f (ap (λ r. x ∷ r) (before-insert_by xs b ys e))
  ]

  after-insert_by :
      (xs : List ℕ) (b : ℕ) (ys : List ℕ)
      → ltb (key new_node) (key b) ≡ false
      → All (λ x. key x ≤ key b) xs
      → insert_by key new_node (xs ++ (b ∷ ys)) ≡ xs ++ (b ∷ insert_by key new_node ys)
  after-insert_by [] b ys e a = rw e refl
  after-insert_by (x ∷ xs) b ys e a =
      let f : ltb (key new_node) (key x) ≡ false =
        le→ltb (key new_node) (key x) (omega (arith, a.0, ltb→le (key new_node) (key b) e)) in
      rw f (ap (λ r. x ∷ r) (after-insert_by xs b ys e a.1))

  pub inorder-plant :
      (s : Shape)
      → IsSorted key (inorder s)
      → inorder (plant key new_node s) ≡ insert_by key new_node (inorder s)
  inorder-plant leaf h = refl
  inorder-plant (fork l b r) h =
      let parts = sorted-Around key (inorder l) b (inorder r) h in
      elim (Bool-cases (ltb (key new_node) (key b))) [
        | inl e ↦ rw e (
            ap (λ x. x ++ (b ∷ inorder r)) (inorder-plant l parts.before)
            ∙ sym (before-insert_by (inorder l) b (inorder r) e))
        | inr e ↦ rw e (
            ap (λ x. inorder l ++ (b ∷ x)) (inorder-plant r parts.after)
            ∙ sym (after-insert_by (inorder l) b (inorder r) e parts.below))
      ]

  pub length-insert_by : (xs : List ℕ) → length (insert_by key new_node xs) ≡ suc (length xs)
  length-insert_by [] = refl
  length-insert_by (x ∷ xs) = elim (Bool-cases (ltb (key new_node) (key x))) [
    | inl f ↦ rw f refl
    | inr f ↦ rw f (omega (arith, length-insert_by xs))
  ]

  pub has-insert_by :
      (n : ℕ) (xs : List ℕ) → has n (insert_by key new_node xs) ≡ ((n == new_node) || has n xs)
  has-insert_by n [] = refl
  has-insert_by n (x ∷ xs) = elim (Bool-cases (ltb (key new_node) (key x))) [
    | inl f ↦ rw f refl
    | inr f ↦ rw f (ground (arith, has-insert_by n xs))
  ]

  pub insert_by-Unique :
      (xs : List ℕ) → has new_node xs ≡ false → Unique xs → Unique (insert_by key new_node xs)
  insert_by-Unique [] out u = (refl, tt)
  insert_by-Unique (x ∷ xs) out u =
      let a : has new_node xs ≡ false = ground (arith, out) in
      let ih = insert_by-Unique xs a u.1 in
      let b : has x (insert_by key new_node xs) ≡ false =
        ground (arith, has-insert_by x xs, u.0, out) in
      elim (Bool-cases (ltb (key new_node) (key x))) [
        | inl f ↦ rw f (out, u)
        | inr f ↦ rw f (b, ih)
      ]

  insert_by-All :
      (low : ℕ) (xs : List ℕ)
      → low ≤ key new_node
      → All (λ y. low ≤ key y) xs
      → All (λ y. low ≤ key y) (insert_by key new_node xs)
  insert_by-All low [] le a = (le, tt)
  insert_by-All low (x ∷ xs) le a =
      let ih = insert_by-All low xs le a.1 in
      elim (Bool-cases (ltb (key new_node) (key x))) [
        | inl f ↦ rw f (le, a)
        | inr f ↦ rw f (a.0, ih)
      ]

  All-weaken :
      (low high : ℕ) (xs : List ℕ)
      → low ≤ high
      → All (λ y. high ≤ key y) xs
      → All (λ y. low ≤ key y) xs
  All-weaken low high [] le a = tt
  All-weaken low high (x ∷ xs) le a = (omega (arith, le, a.0), All-weaken low high xs le a.1)

  pub insert_by-IsSorted :
      (xs : List ℕ) → IsSorted key xs → IsSorted key (insert_by key new_node xs)
  insert_by-IsSorted [] h = (tt, tt)
  insert_by-IsSorted (x ∷ xs) h =
      let ih = insert_by-IsSorted xs h.1 in
      elim (Bool-cases (ltb (key new_node) (key x))) [
        | inl f ↦
            let lt = ltb→lt (key new_node) (key x) f in
            let le : key new_node ≤ key x = omega (arith, lt) in
            rw f ((le, All-weaken (key new_node) (key x) xs le h.0), h)
        | inr f ↦ rw f (insert_by-All (key x) xs (ltb→le (key new_node) (key x) f) h.0, ih)
      ]
