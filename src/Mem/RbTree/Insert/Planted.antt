-- ===== src/Mem/RbTree/Insert/Planted.antt =====
-- The tree after the new node is hung below the last node of the walk.
use fzkernel.Base.{
  ℕ, ◌≡◌, ◌≢◌, refl, sym, ◌∙◌, ap, ◌⊎◌, inl, inr, true, false, ◌==◌, ltb, if◌then◌else◌, arith,
  Bool-cases, ==→ne, ne→==, ==→eq,
}
use mathlib.Core.Bool.{false≢true}
use fzkernel.Mem.RbTree.{NodePayload, RbTree, on_left, on_right, parent, child, size}
use fzkernel.Mem.RbTree.Insert.{attach}
use fzkernel.Mem.RbTree.Insert.Attach.{attach-nil, attach-parent, attach-left, attach-right}
use fzkernel.Mem.RbTree.Insert.Plant.{plant, spot, spot-cases, mem-spot}
use fzkernel.Mem.RbTree.Shape.{
  Shape, leaf, fork, mem, Distinct, Distinct-Parts, IsTree, SameLinks, frame, ne_of_mem,
}
use fzkernel.Mem.RbTree.TurnBelow.{flip}
use fzkernel.Mem.RbTree.Headers.{IsLawful}

module _ {P : Type 0} (I : NodePayload P) (law : IsLawful I) (t : RbTree P) (new_node q : ℕ)
    (real : new_node ≢ t.black_nil) where
  abbrev key : ℕ → ℕ
  key n = size I t n

  abbrev grown : RbTree P
  grown = attach I t new_node q

  abbrev filled : ℕ → ℕ
  filled a = if a == t.black_nil then new_node else a

  -- A node that is neither the new one nor the one above it.
  untouched : (n : ℕ) → n ≢ new_node → n ≢ q → SameLinks t grown n
  untouched n a b = record {
    parent = ground (arith, attach-parent I law t new_node q n, ne→== n new_node a);
    left = ground (arith, attach-left I law t new_node q n, ne→== n new_node a, ne→== n q b);
    right = ground (arith, attach-right I law t new_node q n, ne→== n new_node a, ne→== n q b);
  }

  single : (p a : ℕ) → a ≡ t.black_nil → q ≡ p → IsTree grown p (filled a) (fork leaf new_node leaf)
  single p a e f =
      let nil = attach-nil I law t new_node q in
      (
        ground (arith, e),
        λ z. real (z ∙ nil),
        ground (arith, attach-parent I law t new_node q new_node, f),
        ground (arith, attach-left I law t new_node q new_node, nil),
        ground (arith, attach-right I law t new_node q new_node, nil),
      )

  -- The node above the new one stands on one side of the root `b`: in `x`, or it is `b` itself.
  module _ (b : ℕ) (x : Shape) (at : q ≡ spot key new_node x b) where
    q_above : (q ≡ b) ⊎ (mem q x ≡ true)
    q_above = elim (spot-cases key new_node x b) [
      | inl e ↦ inl (at ∙ e)
      | inr e ↦ inr (ap (λ n. mem n x) at ∙ e)
    ]

    not_q : (n : ℕ) → n ≢ b → mem n x ≡ false → n ≢ q
    not_q n a c e = elim q_above [
      | inl f ↦ a (e ∙ f)
      | inr f ↦ false≢true (sym c ∙ ap (λ m. mem m x) e ∙ f)
    ]

  far_frame :
      (p a : ℕ) (y : Shape)
      → ((n : ℕ) → mem n y ≡ true → n ≢ q)
      → mem new_node y ≡ false
      → IsTree t p a y
      → IsTree grown p a y
  far_frame p a y apart out h =
      frame t grown p a y (attach-nil I law t new_node q)
        (λ n m. untouched n (ne_of_mem n new_node y m out) (apart n m)) h

  -- The child on the side of the walk.
  link_left :
      (b : ℕ) (x : Shape)
      → IsTree t b (child t on_left b) x
      → b ≢ t.black_nil
      → b ≢ new_node
      → mem b x ≡ false
      → q ≡ spot key new_node x b
      → ltb (key new_node) (key b) ≡ true
      → child grown on_left b ≡ filled (child t on_left b)
  link_left b leaf h live old out at e =
      let k : ltb (key new_node) (key q) ≡ true = ap (λ n. ltb (key new_node) (key n)) at ∙ e in
      ground (
        arith,
        attach-left I law t new_node q b,
        k,
        h,
        at,
        ne→== b t.black_nil live,
        ne→== b new_node old,
      )
  link_left b (fork l c r) h live old out at e =
      let m : mem q (fork l c r) ≡ true =
        ap (λ n. mem n (fork l c r)) at ∙ mem-spot key new_node l c r b in
      let k : (b == q) ≡ false = ne→== b q (λ z. ne_of_mem q b (fork l c r) m out (sym z)) in
      ground (
        arith,
        attach-left I law t new_node q b,
        k,
        h.0,
        ne→== c t.black_nil h.1,
        ne→== b new_node old,
      )

  link_right :
      (b : ℕ) (x : Shape)
      → IsTree t b (child t on_right b) x
      → b ≢ t.black_nil
      → b ≢ new_node
      → mem b x ≡ false
      → q ≡ spot key new_node x b
      → ltb (key new_node) (key b) ≡ false
      → child grown on_right b ≡ filled (child t on_right b)
  link_right b leaf h live old out at e =
      let k : ltb (key new_node) (key q) ≡ false = ap (λ n. ltb (key new_node) (key n)) at ∙ e in
      ground (
        arith,
        attach-right I law t new_node q b,
        k,
        h,
        at,
        ne→== b t.black_nil live,
        ne→== b new_node old,
      )
  link_right b (fork l c r) h live old out at e =
      let m : mem q (fork l c r) ≡ true =
        ap (λ n. mem n (fork l c r)) at ∙ mem-spot key new_node l c r b in
      let k : (b == q) ≡ false = ne→== b q (λ z. ne_of_mem q b (fork l c r) m out (sym z)) in
      ground (
        arith,
        attach-right I law t new_node q b,
        k,
        h.0,
        ne→== c t.black_nil h.1,
        ne→== b new_node old,
      )

  -- The child on the other side.
  far_right :
      (b : ℕ)
      → b ≢ new_node
      → ltb (key new_node) (key b) ≡ true
      → child grown on_right b ≡ child t on_right b
  far_right b old e = elim (Bool-cases (b == q)) [
    | inl f ↦
        let k : ltb (key new_node) (key q) ≡ true =
          ap (λ n. ltb (key new_node) (key n)) (sym (==→eq b q f)) ∙ e in
        ground (arith, attach-right I law t new_node q b, k, ne→== b new_node old)
    | inr f ↦ ground (arith, attach-right I law t new_node q b, f, ne→== b new_node old)
  ]

  far_left :
      (b : ℕ)
      → b ≢ new_node
      → ltb (key new_node) (key b) ≡ false
      → child grown on_left b ≡ child t on_left b
  far_left b old e = elim (Bool-cases (b == q)) [
    | inl f ↦
        let k : ltb (key new_node) (key q) ≡ false =
          ap (λ n. ltb (key new_node) (key n)) (sym (==→eq b q f)) ∙ e in
        ground (arith, attach-left I law t new_node q b, k, ne→== b new_node old)
    | inr f ↦ ground (arith, attach-left I law t new_node q b, f, ne→== b new_node old)
  ]

  pub planted :
      (p a : ℕ) (s : Shape)
      → Distinct s
      → mem new_node s ≡ false
      → q ≡ spot key new_node s p
      → IsTree t p a s
      → IsTree grown p (filled a) (plant key new_node s)
  planted p a leaf w out at h = single p a h at
  planted p a (fork l b r) w out at h =
      let parts = Distinct-Parts l b r w in
      let nil = attach-nil I law t new_node q in
      let old : b ≢ new_node = λ z. ==→ne new_node b (ground (arith, out)) (sym z) in
      let out_left : mem new_node l ≡ false = ground (arith, out) in
      let out_right : mem new_node r ≡ false = ground (arith, out) in
      let up : parent grown b ≡ p =
        ground (arith, attach-parent I law t new_node q b, ne→== b new_node old, h.2) in
      let root : filled a ≡ b = ground (arith, h.0, ne→== b t.black_nil h.1) in
      let live : b ≢ grown.black_nil = λ z. h.1 (z ∙ nil) in
      elim (Bool-cases (ltb (key new_node) (key b))) [
        | inl e ↦
            let k : spot key new_node (fork l b r) p ≡ spot key new_node l b = rw e refl in
            let at_left = at ∙ k in
            let down = planted b (child t on_left b) l parts.left out_left at_left h.3 in
            let apart = (flip l b r parts).apart in
            let far =
              far_frame b (child t on_right b) r
                (λ n m. not_q b l at_left n (ne_of_mem n b r m parts.not_right) (apart n m))
                out_right h.4 in
            rw e (
              root,
              live,
              up,
              rw (link_left b l h.3 h.1 old parts.not_left at_left e) down,
              rw (far_right b old e) far,
            )
        | inr e ↦
            let k : spot key new_node (fork l b r) p ≡ spot key new_node r b = rw e refl in
            let at_right = at ∙ k in
            let down = planted b (child t on_right b) r parts.right out_right at_right h.4 in
            let far =
              far_frame b (child t on_left b) l
                (λ n m. not_q b r at_right n (ne_of_mem n b l m parts.not_left) (parts.apart n m))
                out_left h.3 in
            rw e (
              root,
              live,
              up,
              rw (far_left b old e) far,
              rw (link_right b r h.4 h.1 old parts.not_right at_right e) down,
            )
      ]
