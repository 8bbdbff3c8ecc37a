-- ===== src/Mem/RbTree/Kin.antt =====
-- Parents and children in a tree.
use fzkernel.Base.{
  ℕ, zero, suc, ◌+◌, ◌≡◌, ◌≢◌, sym, ◌∙◌, ap, ◌⊎◌, inl, inr, true, false, ◌||◌, arith, ◌≤◌, ◌∷◌,
  length, length-append,
}
use fzkernel.Mem.RbTree.{RbTree, Side, on_left, on_right, parent, child}
use fzkernel.Mem.RbTree.Shape.{
  Shape, leaf, fork, inorder, mem, Distinct, Parts, Distinct-Parts, IsTree, not_nil, root-cases,
  root-parent, child-cases, mem-cases, ne_of_mem,
}

module _ {P : Type 0} (t : RbTree P) where
  -- A child of the root of a tree stands in one of its two parts, and the two parts are apart.
  kid_root :
      (p a : ℕ) (l : Shape) (b : ℕ) (r : Shape) (e : Side)
      → IsTree t p a (fork l b r)
      → child t e b ≢ t.black_nil
      → (mem (child t e b) l || mem (child t e b) r) ≡ true
  kid_root p a l b r on_left h k = elim (root-cases t b (child t on_left b) l h.3) [
    | inl g ↦ absurd (k g)
    | inr g ↦ ground (arith, g)
  ]
  kid_root p a l b r on_right h k = elim (root-cases t b (child t on_right b) r h.4) [
    | inl g ↦ absurd (k g)
    | inr g ↦ ground (arith, g)
  ]

  not_root :
      (l : Shape) (b : ℕ) (r : Shape) → Parts l b r → (n : ℕ) → (mem n l || mem n r) ≡ true → n ≢ b
  not_root l b r parts n m e =
      let f : mem n l ≡ false = ap (λ x. mem x l) e ∙ parts.not_left in
      let g : mem n r ≡ false = ap (λ x. mem x r) e ∙ parts.not_right in
      absurd (ground (arith, m, f, g))

  pub kid-ne :
      (p a : ℕ) (s : Shape) (e : Side)
      → Distinct s
      → IsTree t p a s
      → (n : ℕ) → mem n s ≡ true
      → child t e n ≢ t.black_nil
      → child t e n ≢ n
  kid-ne p a leaf e w h n m k = absurd (ground arith)
  kid-ne p a (fork l b r) e w h n m k =
      let parts = Distinct-Parts l b r w in
      elim (mem-cases n l b r m) [
        | inl i ↦ λ q.
            not_root l b r parts (child t e b)
              (kid_root p a l b r e h (λ z. k (ap (child t e) i ∙ z)))
              (ap (child t e) (sym i) ∙ q ∙ i)
        | inr (inl i) ↦ kid-ne b (child t on_left b) l e parts.left h.3 n i k
        | inr (inr i) ↦ kid-ne b (child t on_right b) r e parts.right h.4 n i k
      ]

  grandkid_root :
      (p a : ℕ) (l : Shape) (b : ℕ) (r : Shape) (e f : Side)
      → IsTree t p a (fork l b r)
      → child t e b ≢ t.black_nil
      → child t f (child t e b) ≢ t.black_nil
      → (mem (child t f (child t e b)) l || mem (child t f (child t e b)) r) ≡ true
  grandkid_root p a l b r on_left f h k j = elim (root-cases t b (child t on_left b) l h.3) [
    | inl g ↦ absurd (k g)
    | inr g ↦ elim (child-cases t b (child t on_left b) l f h.3 (child t on_left b) g) [
      | inl q ↦ absurd (j q)
      | inr q ↦ ground (arith, q)
    ]
  ]
  grandkid_root p a l b r on_right f h k j = elim (root-cases t b (child t on_right b) r h.4) [
    | inl g ↦ absurd (k g)
    | inr g ↦ elim (child-cases t b (child t on_right b) r f h.4 (child t on_right b) g) [
      | inl q ↦ absurd (j q)
      | inr q ↦ ground (arith, q)
    ]
  ]

  pub grandkid-ne :
      (p a : ℕ) (s : Shape) (e f : Side)
      → Distinct s
      → IsTree t p a s
      → (n : ℕ) → mem n s ≡ true
      → child t e n ≢ t.black_nil
      → child t f (child t e n) ≢ t.black_nil
      → child t f (child t e n) ≢ n
  grandkid-ne p a leaf e f w h n m k j = absurd (ground arith)
  grandkid-ne p a (fork l b r) e f w h n m k j =
      let parts = Distinct-Parts l b r w in
      elim (mem-cases n l b r m) [
        | inl i ↦
            let c = ap (λ x. child t f (child t e x)) i in
            λ q.
              not_root l b r parts (child t f (child t e b))
                (grandkid_root p a l b r e f h (λ z. k (ap (child t e) i ∙ z)) (λ z. j (c ∙ z)))
                (sym c ∙ q ∙ i)
        | inr (inl i) ↦ grandkid-ne b (child t on_left b) l e f parts.left h.3 n i k j
        | inr (inr i) ↦ grandkid-ne b (child t on_right b) r e f parts.right h.4 n i k j
      ]

  pub kids-apart :
      (p a : ℕ) (s : Shape)
      → Distinct s
      → IsTree t p a s
      → (n : ℕ) → mem n s ≡ true
      → child t on_left n ≢ t.black_nil
      → child t on_left n ≢ child t on_right n
  kids-apart p a leaf w h n m k = absurd (ground arith)
  kids-apart p a (fork l b r) w h n m k =
      let parts = Distinct-Parts l b r w in
      elim (mem-cases n l b r m) [
        | inl i ↦ elim (root-cases t b (child t on_left b) l h.3) [
          | inl g ↦ absurd (k (ap (child t on_left) i ∙ g))
          | inr g ↦ elim (root-cases t b (child t on_right b) r h.4) [
            | inl z ↦ λ q. k (q ∙ ap (child t on_right) i ∙ z)
            | inr z ↦ λ q.
                ne_of_mem (child t on_right b) (child t on_left b) r z
                  (parts.apart (child t on_left b) g)
                  (sym (ap (child t on_right) i) ∙ sym q ∙ ap (child t on_left) i)
          ]
        ]
        | inr (inl i) ↦ kids-apart b (child t on_left b) l parts.left h.3 n i k
        | inr (inr i) ↦ kids-apart b (child t on_right b) r parts.right h.4 n i k
      ]

  -- A node other than the root is a child of its parent.
  pub side-cases :
      (p a : ℕ) (s : Shape)
      → IsTree t p a s
      → (n : ℕ) → mem n s ≡ true
      → (n ≡ a) ⊎ ((n ≡ child t on_left (parent t n)) ⊎ (n ≡ child t on_right (parent t n)))
  side-cases p a leaf h n m = absurd (ground arith)
  side-cases p a (fork l b r) h n m = elim (mem-cases n l b r m) [
    | inl i ↦ inl (i ∙ sym h.0)
    | inr (inl i) ↦ elim (side-cases b (child t on_left b) l h.3 n i) [
      | inl q ↦
          let z =
            root-parent t b (child t on_left b) l h.3
              (λ o. not_nil t b (child t on_left b) l h.3 n i (q ∙ o)) in
          inr (inl (q ∙ ap (child t on_left) (sym z ∙ ap (parent t) (sym q))))
      | inr q ↦ inr q
    ]
    | inr (inr i) ↦ elim (side-cases b (child t on_right b) r h.4 n i) [
      | inl q ↦
          let z =
            root-parent t b (child t on_right b) r h.4
              (λ o. not_nil t b (child t on_right b) r h.4 n i (q ∙ o)) in
          inr (inr (q ∙ ap (child t on_right) (sym z ∙ ap (parent t) (sym q))))
      | inr q ↦ inr q
    ]
  ]

  -- From `n` at most `k` steps to a parent lead to the leaf.
  abbrev pub Within : ℕ → ℕ → Type 0
  Within zero n = n ≡ t.black_nil
  Within (suc k) n = (n ≡ t.black_nil) ⊎ Within k (parent t n)

  pub Within-mono : (k j n : ℕ) → k ≤ j → Within k n → Within j n
  Within-mono zero zero n le h = h
  Within-mono zero (suc j) n le h = inl h
  Within-mono (suc k) zero n le h = absurd (omega arith)
  Within-mono (suc k) (suc j) n le (inl e) = inl e
  Within-mono (suc k) (suc j) n le (inr h) = inr (Within-mono k j (parent t n) (omega arith) h)

  Within-step : (k n p : ℕ) → parent t n ≡ p → Within k p → Within (suc k) n
  Within-step k n p e h = inr (rw e h)

  -- A node of a tree is no deeper than the tree has nodes.
  pub depth :
      (p a : ℕ) (s : Shape) (k : ℕ)
      → IsTree t p a s
      → Within k p
      → (n : ℕ) → mem n s ≡ true
      → Within (length (inorder s) + k) n
  depth p a leaf k h w n m = absurd (ground arith)
  depth p a (fork l b r) k h w n m =
      let len = length-append (inorder l) (b ∷ inorder r) in
      let step = Within-step k b p h.2 w in
      let all = length (inorder (fork l b r)) + k in
      elim (mem-cases n l b r m) [
        | inl i ↦ rw i (Within-mono (suc k) all b (omega (arith, len)) step)
        | inr (inl i) ↦
            Within-mono (length (inorder l) + suc k) all n (omega (arith, len))
              (depth b (child t on_left b) l (suc k) h.3 step n i)
        | inr (inr i) ↦
            Within-mono (length (inorder r) + suc k) all n (omega (arith, len))
              (depth b (child t on_right b) r (suc k) h.4 step n i)
      ]
