-- ===== src/Mem/RbTree/Insert/Search.antt =====
-- `insert_node` on a search tree.
use fzkernel.Base.{
  ℕ, ◌+◌, ◌<◌, ◌≡◌, ◌≢◌, refl, sym, ◌∙◌, ap, fun_ext, ◌⊎◌, inl, inr, Bool, true, false, ◌==◌,
  if◌then◌else◌, arith, Bool-cases, length, ne→==, ==→eq,
}
use fzkernel.Base.Outcome.{done}
use fzkernel.Mem.AllocHeader.{black}
use fzkernel.Mem.RbTree.{NodePayload, RbTree, size, is_red, paint}
use fzkernel.Mem.RbTree.Insert.{attach, fix_insert_rb_violation, insert_node}
use fzkernel.Mem.RbTree.Insert.Attach.{attach-nil, attach-root, attach-is_red, attach-SameSizes}
use fzkernel.Mem.RbTree.Insert.Plant.{
  plant, spot, insert_by, inorder-plant, length-insert_by, has-insert_by, insert_by-Unique,
  insert_by-IsSorted,
}
use fzkernel.Mem.RbTree.Insert.Planted.{planted}
use fzkernel.Mem.RbTree.Insert.Loop.{Repaired, repair}
use fzkernel.Mem.RbTree.Shape.{Shape, inorder, mem, has, has-inorder}
use fzkernel.Mem.RbTree.Headers.{IsLawful}
use fzkernel.Mem.RbTree.Kin.{depth}
use fzkernel.Mem.RbTree.Holds.{Holds, SameSizes, sizes_trans, tree_at, paint-SameSizes}
use fzkernel.Mem.RbTree.Insert.Descend.{
  IsSearchTree, descend-spot, sorted_at, search_painted, size_counted, search_counted, place_nil,
}

module _ {P : Type 0} (I : NodePayload P) (law : IsLawful I) where
  -- What a call of `insert_node` comes to.
  pub record Inserted (fuel : ℕ) (t : RbTree P) (s : Shape) (new_node : ℕ) : Type 0 where
    pub result : RbTree P
    pub shape : Shape
    pub runs : insert_node I fuel t new_node ≡ done result
    pub search : IsSearchTree I result shape
    pub order : inorder shape ≡ insert_by (size I t) new_node (inorder s)
    pub sizes : (n : ℕ) → size I result n ≡ size I t n
    pub count : result.count ≡ t.count + 1
    pub leaf_stays : result.black_nil ≡ t.black_nil

  module _ (fuel : ℕ) (t : RbTree P) (s : Shape) (new_node : ℕ) (st : IsSearchTree I t s)
      (real : new_node ≢ t.black_nil) (out : mem new_node s ≡ false) where
    abbrev place : ℕ
    place = spot (size I t) new_node s t.black_nil

    abbrev grown : RbTree P
    grown = attach I t new_node place

    abbrev grown_shape : Shape
    grown_shape = plant (size I t) new_node s

    order_grown : inorder grown_shape ≡ insert_by (size I t) new_node (inorder s)
    order_grown = inorder-plant (size I t) new_node s st.sorted

    root_grown : grown.root ≡ (if t.root == t.black_nil then new_node else t.root)
    root_grown =
        attach-root I law t new_node place
        ∙ ap (λ (b : Bool). if b then new_node else t.root)
            (place_nil I law t new_node t.root s st.holds.tree)

    Holds-grown : Holds grown grown_shape
    Holds-grown = record {
      tree = tree_at grown grown_shape (sym (attach-nil I law t new_node place)) (sym root_grown) (
          planted I law t new_node place real t.black_nil t.root s st.holds.distinct out refl
            st.holds.tree);
      distinct = rw order_grown (
          insert_by-Unique (size I t) new_node (inorder s) (has-inorder new_node s ∙ out)
            st.holds.distinct);
    }

    cold_grown : is_red I grown grown.black_nil ≡ false
    cold_grown =
        ap (is_red I grown) (attach-nil I law t new_node place)
        ∙ ground (
          arith,
          attach-is_red I law t new_node place t.black_nil,
          ne→== t.black_nil new_node (λ z. real (sym z)),
          st.nil_black,
        )

    mem_grown : mem new_node grown_shape ≡ true
    mem_grown =
        sym (has-inorder new_node grown_shape)
        ∙ ap (has new_node) order_grown
        ∙ ground (arith, has-insert_by (size I t) new_node new_node (inorder s))

    root_cold : (new_node ≡ grown.root) ⊎ (is_red I grown grown.root ≡ false)
    root_cold = elim (Bool-cases (t.root == t.black_nil)) [
      | inl e ↦ inl (ground (arith, root_grown, e))
      | inr e ↦
          let k : grown.root ≡ t.root = ground (arith, root_grown, e) in
          elim (Bool-cases (t.root == new_node)) [
            | inl f ↦ inl (sym (==→eq t.root new_node f) ∙ sym k)
            | inr f ↦ inr (
                ap (is_red I grown) k
                ∙ ground (arith, attach-is_red I law t new_node place t.root, f, st.root_black))
          ]
    ]

    module _ (enough : length (inorder s) < fuel) where
      repaired : Repaired I law fuel grown grown_shape new_node
      repaired =
          let len = ap length order_grown ∙ length-insert_by (size I t) new_node (inorder s) in
          let up =
            depth grown grown.black_nil grown.root grown_shape 0 Holds-grown.tree refl new_node
              mem_grown in
          repair I law fuel (length (inorder grown_shape) + 0) grown grown_shape new_node
            Holds-grown cold_grown mem_grown root_cold up (omega (arith, len, enough))

      abbrev fixed : RbTree P
      fixed = paint I repaired.result repaired.result.root black

      abbrev final : RbTree P
      final = record fixed { count = fixed.count + 1 }

      runs_final : insert_node I fuel t new_node ≡ done final
      unfolding insert_node fix_insert_rb_violation
      runs_final =
          rw
            (
              descend-spot I t new_node fuel t.black_nil t.root s st.holds.tree enough,
              repaired.runs,
            )
            refl

      sizes_fixed : SameSizes I t fixed
      sizes_fixed = sizes_trans I (attach-SameSizes I law t new_node place) (
          sizes_trans I repaired.keeps.sizes (
            paint-SameSizes repaired.result repaired.keeps.shape repaired.keeps.holds I law
              repaired.result.root black))

      -- In a search tree, a node that is not in it, nor the leaf, is inserted on any fuel above the
      -- number of nodes: the sizes ascend again from left to right, with the new node behind those
      -- of its size; no size changes, the leaf stays and the leaf and the root are black; and the
      -- count goes up by one.
      pub insert_node-Inserts : Inserted fuel t s new_node
      insert_node-Inserts =
          let e : size I repaired.result ≡ size I t =
            fun_ext
              (sizes_trans I (attach-SameSizes I law t new_node place) repaired.keeps.sizes).size in
          let same : inorder repaired.keeps.shape ≡ insert_by (size I t) new_node (inorder s) =
            repaired.keeps.order ∙ order_grown in
          let up =
            sorted_at I law e same (insert_by-IsSorted (size I t) new_node (inorder s) st.sorted) in
          record {
            result = final;
            shape = repaired.keeps.shape;
            runs = runs_final;
            search = search_counted I law fixed repaired.keeps.shape (fixed.count + 1) (
                search_painted I law repaired.result repaired.keeps.shape repaired.keeps.holds up
                  repaired.keeps.nil_black);
            order = same;
            sizes = λ n. size_counted I law fixed (fixed.count + 1) n ∙ sizes_fixed.size n;
            count = ap (λ n. n + 1) sizes_fixed.count;
            leaf_stays = sizes_fixed.nil;
          }
