-- ===== src/Mem/RbTree/Remove/BestFit.antt =====
-- `find_best_node_fit` against the least size that fits.
use fzkernel.Base.{
  ℕ, ◌-◌, ◌≤◌, ◌<◌, ◌≡◌, ◌≢◌, refl, sym, ◌∙◌, ap, inl, inr, true, false, none, some, ◌==◌, ltb,
  arith, Bool-cases, length, eq→==, ne→==, ==→eq, ==→ne, ltb→lt, ltb→le, le→ltb, u64_mod,
}
use fzkernel.Base.Outcome.{done, ◌>>=◌}
use fzkernel.Mem.RbTree.{NodePayload, RbTree, size}
use fzkernel.Mem.RbTree.Remove.{Best, best_fit_loop, find_best_node_fit, remove_node}
use fzkernel.Mem.RbTree.Insert.Descend.{IsSearchTree}
use fzkernel.Mem.RbTree.Shape.{Shape, leaf, fork, inorder, mem, IsTree}
use fzkernel.Mem.RbTree.Remove.Walk.{best, walks}

module _ {P : Type 0} (I : NodePayload P) (t : RbTree P) (value : ℕ) where
  -- What a search for a best fit comes to.
  pub data Answer (fuel : ℕ) (s : Shape) : Type 0 where
    no_fit :
        ((n : ℕ) → mem n s ≡ true → size I t n < value)
        → find_best_node_fit I fuel t value ≡ done (t, none)
        → Answer fuel s
    best_fit :
        (node : ℕ)
        → mem node s ≡ true
        → value ≤ size I t node
        → ((n : ℕ) → mem n s ≡ true → value ≤ size I t n → size I t node ≤ size I t n)
        → find_best_node_fit I fuel t value
          ≡ (remove_node I fuel t node >>= λ left. done (left.0, some left.1))
        → Answer fuel s

  abbrev largest : ℕ
  largest = u64_mod - 1

  find-nil : (fuel : ℕ) → t.root ≡ t.black_nil → find_best_node_fit I fuel t value ≡ done (t, none)
  unfolding find_best_node_fit
  find-nil fuel e = rw (eq→== t.root t.black_nil e) refl

  find-none :
      (fuel : ℕ) (r : Best)
      → t.root ≢ t.black_nil
      → best_fit_loop I fuel t value t.root (best largest t.root) ≡ done r
      → (r.closest_size_match == largest) ≡ true
      → find_best_node_fit I fuel t value ≡ done (t, none)
  unfolding find_best_node_fit
  find-none fuel r live e f = elim (Bool-cases (ltb r.closest_size_match value)) [
    | inl g ↦ rw (ne→== t.root t.black_nil live, e, g) refl
    | inr g ↦ rw (ne→== t.root t.black_nil live, e, g, f) refl
  ]

  find-some :
      (fuel : ℕ) (r : Best)
      → t.root ≢ t.black_nil
      → best_fit_loop I fuel t value t.root (best largest t.root) ≡ done r
      → ltb r.closest_size_match value ≡ false
      → (r.closest_size_match == largest) ≡ false
      → find_best_node_fit I fuel t value
        ≡ (remove_node I fuel t r.to_remove >>= λ left. done (left.0, some left.1))
  unfolding find_best_node_fit
  find-some fuel r live e f g = rw (ne→== t.root t.black_nil live, e, f, g) refl

  empty : (a p : ℕ) (s : Shape) → IsTree t p a s → a ≡ t.black_nil → (n : ℕ) → mem n s ≡ false
  empty a p leaf h e n = refl
  empty a p (fork l b r) h e n = absurd (h.1 (sym h.0 ∙ e))

  -- On a search tree of sizes below the greatest 64-bit number, on any fuel above the number of
  -- nodes, a search for a 64-bit size finds nothing where every size is smaller, and leaves the
  -- tree; else it removes and gives a node of the least size in the tree that fits.
  pub find_best_node_fit-Answer :
      (fuel : ℕ) (s : Shape)
      → IsSearchTree I t s
      → length (inorder s) < fuel
      → value < u64_mod
      → ((n : ℕ) → mem n s ≡ true → size I t n < largest)
      → Answer fuel s
  find_best_node_fit-Answer fuel s st enough small sizes =
      elim (Bool-cases (t.root == t.black_nil)) [
        | inl e ↦
            let i = ==→eq t.root t.black_nil e in
            no_fit (λ n m. vacuous n s (empty t.root t.black_nil s st.holds.tree i n) m)
              (find-nil fuel i)
        | inr e ↦
            let live = ==→ne t.root t.black_nil e in
            let w =
              walks I t value fuel t.black_nil t.root s (best largest t.root) st.holds.tree
                st.sorted enough (omega (arith, small)) in
            elim (Bool-cases (w.result.closest_size_match == largest)) [
              | inl f ↦
                  let k = ==→eq w.result.closest_size_match largest f in
                  no_fit
                    (λ n m. elim (Bool-cases (ltb (size I t n) value)) [
                      | inl g ↦ ltb→lt (size I t n) value g
                      | inr g ↦ absurd (
                          omega
                            (arith, w.found.least n m (ltb→le (size I t n) value g), k, sizes n m))
                    ])
                    (find-none fuel w.result live w.runs f)
              | inr f ↦
                  let fits = le→ltb w.result.closest_size_match value w.found.fits in
                  let q : (mem w.result.to_remove s ≡ true)
                      × (size I t w.result.to_remove ≡ w.result.closest_size_match) =
                    elim w.found.node [
                      | inl g ↦ absurd (
                          ==→ne w.result.closest_size_match largest f
                            (ap (λ (z : Best). z.closest_size_match) g))
                      | inr g ↦ g
                    ] in
                  best_fit w.result.to_remove q.0 (omega (arith, w.found.fits, q.1))
                    (λ n m k. omega (arith, w.found.least n m k, q.1))
                    (find-some fuel w.result live w.runs fits f)
            ]
      ]
    where
      vacuous : (n : ℕ) (s : Shape) → mem n s ≡ false → mem n s ≡ true → size I t n < value
      vacuous n s a b = absurd (ground (arith, a, b))
