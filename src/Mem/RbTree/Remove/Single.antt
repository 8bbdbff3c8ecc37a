-- ===== src/Mem/RbTree/Remove/Single.antt =====
-- `remove_node` on a tree of one node.
use fzkernel.Base.{ℕ, suc, ◌+◌, ◌-◌, ◌≡◌, refl, sym, ◌∙◌, ap, false, eq→==, u64, u64_mod}
use fzkernel.Base.Outcome.{done}
use fzkernel.Mem.AllocHeader.{black}
use fzkernel.Mem.RbTree.{
  NodePayload, RbTree, on_left, on_right, parent, child, size, is_red, paint, relink,
}
use fzkernel.Mem.RbTree.Remove.{swap_nodes, repair, fix_remove_loop, unlink, remove_node}
use fzkernel.Mem.RbTree.Shape.{leaf, fork}
use fzkernel.Mem.RbTree.Headers.{
  IsLawful, SameHeaders, same_trans, set_parent-SameHeaders, relink-SameHeaders, root-set_parent,
  root-relink, is_red-paint, root-paint, nil-paint, size-paint,
}
use fzkernel.Mem.RbTree.Insert.Descend.{IsSearchTree}

-- The tree is empty then, with the sizes and the leaf that there were.
pub record Emptied {P : Type 0} (I : NodePayload P) (fuel : ℕ) (t : RbTree P) (x : ℕ) : Type 0 where
  pub result : RbTree P
  pub runs : remove_node I fuel t x ≡ done (result, x)
  pub search : IsSearchTree I result leaf
  pub sizes : (n : ℕ) → size I result n ≡ size I t n
  pub leaf_stays : result.black_nil ≡ t.black_nil

module _ {P : Type 0} (I : NodePayload P) (law : IsLawful I) (t : RbTree P) (x : ℕ)
    (st : IsSearchTree I t (fork leaf x leaf)) where
  abbrev nil : ℕ
  nil = child t on_right x

  abbrev swapped : RbTree P
  swapped = swap_nodes t x nil

  nil_here : nil ≡ t.black_nil
  nil_here = st.holds.tree.4

  swapped-root : swapped.root ≡ nil
  unfolding swap_nodes
  swapped-root =
      root-set_parent (relink t on_left x nil) nil (parent (relink t on_left x nil) x)
      ∙ root-relink t on_left x nil
      ∙ rw (eq→== (parent t x) t.black_nil st.holds.tree.2) refl

  swapped-SameHeaders : SameHeaders t swapped
  unfolding swap_nodes
  swapped-SameHeaders =
      same_trans (relink-SameHeaders t on_left x nil)
        (set_parent-SameHeaders (relink t on_left x nil) nil (parent (relink t on_left x nil) x))

  loop-ends :
      (fuel : ℕ) → fix_remove_loop I (suc fuel) swapped nil ≡ done (paint I swapped nil black)
  unfolding fix_remove_loop
  loop-ends fuel = rw (eq→== nil swapped.root (sym swapped-root)) refl

  unlink-ends : (fuel : ℕ) → unlink I (suc fuel) t x ≡ done (paint I swapped nil black)
  unfolding unlink repair
  unlink-ends fuel =
      let black_node : is_red I t x ≡ false =
        ap (is_red I t) (sym st.holds.tree.0) ∙ st.root_black in
      rw (eq→== (child t on_left x) t.black_nil st.holds.tree.3, black_node) (loop-ends fuel)

  black_leaf : (n : ℕ) → n ≡ nil → is_red I (paint I swapped nil black) n ≡ false
  black_leaf n e = is_red-paint I law swapped nil black n ∙ rw (eq→== n nil e) refl

  size-swapped : (n : ℕ) → size I (paint I swapped nil black) n ≡ size I t n
  unfolding size
  size-swapped n = size-paint I law swapped nil black n ∙ ap I.value (swapped-SameHeaders.header n)

  empty : (paint I swapped nil black).root ≡ (paint I swapped nil black).black_nil
  empty =
      root-paint I law swapped nil black
      ∙ swapped-root
      ∙ nil_here
      ∙ sym (nil-paint I law swapped nil black ∙ swapped-SameHeaders.nil)

  pub remove_node-Emptied : (fuel : ℕ) → Emptied I (suc fuel) t x
  unfolding remove_node is_red size
  remove_node-Emptied fuel = record {
    result = record (paint I swapped nil black) {
      count = u64 ((paint I swapped nil black).count + (u64_mod - 1));
    };
    runs = rw (unlink-ends fuel) refl;
    search = record {
      holds = record { tree = empty; distinct = tt };
      sorted = tt;
      nil_black =
          black_leaf (paint I swapped nil black).black_nil
            (nil-paint I law swapped nil black ∙ swapped-SameHeaders.nil ∙ sym nil_here);
      root_black =
          black_leaf (paint I swapped nil black).root
            (root-paint I law swapped nil black ∙ swapped-root);
    };
    sizes = size-swapped;
    leaf_stays = nil-paint I law swapped nil black ∙ swapped-SameHeaders.nil;
  }
