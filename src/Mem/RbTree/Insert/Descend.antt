-- ===== src/Mem/RbTree/Insert/Descend.antt =====
-- The walk of `insert_node`, and the search trees that it starts from and ends at.
use fzkernel.Base.{
  ℕ, zero, suc, ◌<◌, ◌≡◌, ◌≢◌, refl, sym, ◌∙◌, ap, fun_ext, inl, inr, true, false, ◌==◌, ltb, arith,
  Bool-cases, List, ◌∷◌, length, length-append, eq→==, ne→==,
}
use fzkernel.Base.Outcome.{done}
use fzkernel.Mem.AllocHeader.{black}
use fzkernel.Mem.RbTree.{NodePayload, RbTree, on_left, on_right, parent, child, size, is_red, paint}
use fzkernel.Mem.RbTree.Insert.{descend}
use fzkernel.Mem.RbTree.Insert.Plant.{spot, mem-spot, IsSorted}
use fzkernel.Mem.RbTree.Shape.{Shape, leaf, fork, inorder, IsTree, not_nil, SameLinks, frame}
use fzkernel.Mem.RbTree.Headers.{IsLawful, is_red-paint, root-paint, nil-paint, size-paint}
use fzkernel.Mem.RbTree.Holds.{Holds, paint-Holds}

-- The links of `t` make up the tree `s`, whose sizes ascend from left to right; the leaf and the
-- root are black.
pub record IsSearchTree {P : Type 0} (I : NodePayload P) (t : RbTree P) (s : Shape) : Type 0 where
  pub holds : Holds t s
  pub sorted : IsSorted (size I t) (inorder s)
  pub nil_black : is_red I t t.black_nil ≡ false
  pub root_black : is_red I t t.root ≡ false

module _ {P : Type 0} (I : NodePayload P) (t : RbTree P) (new_node : ℕ) where
  abbrev key : ℕ → ℕ
  key n = size I t n

  descend-left :
      (fuel at above : ℕ)
      → at ≢ t.black_nil
      → ltb (key new_node) (key at) ≡ true
      → descend I (suc fuel) t (key new_node) at above
        ≡ descend I fuel t (key new_node) (child t on_left at) at
  unfolding descend
  descend-left fuel at above live e = rw (ne→== at t.black_nil live, e) refl

  descend-right :
      (fuel at above : ℕ)
      → at ≢ t.black_nil
      → ltb (key new_node) (key at) ≡ false
      → descend I (suc fuel) t (key new_node) at above
        ≡ descend I fuel t (key new_node) (child t on_right at) at
  unfolding descend
  descend-right fuel at above live e = rw (ne→== at t.black_nil live, e) refl

  descend-leaf :
      (fuel at above : ℕ)
      → at ≡ t.black_nil
      → descend I (suc fuel) t (key new_node) at above ≡ done above
  unfolding descend
  descend-leaf fuel at above e = rw (eq→== at t.black_nil e) refl

  pub descend-spot :
      (fuel p a : ℕ) (s : Shape)
      → IsTree t p a s
      → length (inorder s) < fuel
      → descend I fuel t (key new_node) a p ≡ done (spot key new_node s p)
  descend-spot zero p a s h le = absurd (omega arith)
  descend-spot (suc fuel) p a leaf h le = descend-leaf fuel a p h
  descend-spot (suc fuel) p a (fork l b r) h le =
      let len = length-append (inorder l) (b ∷ inorder r) in
      let live : a ≢ t.black_nil = λ z. h.1 (sym h.0 ∙ z) in
      elim (Bool-cases (ltb (key new_node) (key b))) [
        | inl e ↦
            let k : spot key new_node (fork l b r) p ≡ spot key new_node l b = rw e refl in
            let down = descend-spot fuel b (child t on_left b) l h.3 (omega (arith, len, le)) in
            let there = descend-left fuel a p live (ap (λ n. ltb (key new_node) (key n)) h.0 ∙ e) in
            there
            ∙ ap (λ n. descend I fuel t (key new_node) (child t on_left n) n) h.0
            ∙ down
            ∙ ap done (sym k)
        | inr e ↦
            let k : spot key new_node (fork l b r) p ≡ spot key new_node r b = rw e refl in
            let down = descend-spot fuel b (child t on_right b) r h.4 (omega (arith, len, le)) in
            let there =
              descend-right fuel a p live (ap (λ n. ltb (key new_node) (key n)) h.0 ∙ e) in
            there
            ∙ ap (λ n. descend I fuel t (key new_node) (child t on_right n) n) h.0
            ∙ down
            ∙ ap done (sym k)
      ]

same_counted :
    {P : Type 0} (u : RbTree P) (count n : ℕ) → SameLinks u (record u { count = count }) n
unfolding parent child
same_counted u count n = record { parent = refl; left = refl; right = refl }

module _ {P : Type 0} (I : NodePayload P) (law : IsLawful I) where
  pub sorted_at : {f g : ℕ → ℕ} {xs ys : List ℕ} → f ≡ g → xs ≡ ys → IsSorted g ys → IsSorted f xs
  sorted_at e i h = rw (e, i) h

  pub search_painted :
      (u : RbTree P) (r : Shape)
      → Holds u r
      → IsSorted (size I u) (inorder r)
      → is_red I u u.black_nil ≡ false
      → IsSearchTree I (paint I u u.root black) r
  search_painted u r h up cold =
      let red_at = is_red-paint I law u u.root black in
      let e : size I (paint I u u.root black) ≡ size I u =
        fun_ext (size-paint I law u u.root black) in
      record {
        holds = paint-Holds u r h I law u.root black;
        sorted = sorted_at e refl up;
        nil_black =
            ap (is_red I (paint I u u.root black)) (nil-paint I law u u.root black)
            ∙ ground (arith, red_at u.black_nil, cold);
        root_black =
            ap (is_red I (paint I u u.root black)) (root-paint I law u u.root black)
            ∙ ground (arith, red_at u.root);
      }

  pub size_counted :
      (u : RbTree P) (count n : ℕ) → size I (record u { count = count }) n ≡ size I u n
  unfolding size
  size_counted u count n = refl

  pub search_counted :
      (u : RbTree P) (r : Shape) (count : ℕ)
      → IsSearchTree I u r
      → IsSearchTree I (record u { count = count }) r
  unfolding size is_red
  search_counted u r count h = record {
    holds = record {
      tree =
          frame u (record u { count = count }) u.black_nil u.root r refl
            (λ n m. same_counted u count n) h.holds.tree;
      distinct = h.holds.distinct;
    };
    sorted = h.sorted;
    nil_black = h.nil_black;
    root_black = h.root_black;
  }

  pub place_nil :
      (t : RbTree P) (new_node a : ℕ) (s : Shape)
      → IsTree t t.black_nil a s
      → (spot (size I t) new_node s t.black_nil == t.black_nil) ≡ (a == t.black_nil)
  place_nil t new_node a leaf h = ground (arith, h)
  place_nil t new_node a (fork l b r) h =
      let m = mem-spot (size I t) new_node l b r t.black_nil in
      ne→== (spot (size I t) new_node (fork l b r) t.black_nil) t.black_nil (
        not_nil t t.black_nil a (fork l b r) h (spot (size I t) new_node (fork l b r) t.black_nil)
          m)
      ∙ sym (ne→== a t.black_nil (λ z. h.1 (sym h.0 ∙ z)))
