-- ===== src/Mem/RbTree/Order.antt =====
-- The tree of `new_raw`, and the order of the nodes under a rotation.
use fzkernel.Base.{ℕ, ◌≡◌, ◌≢◌, refl, ◌∙◌, ap, true, false, arith, ne→==}
use fzkernel.Mem.RbTree.{
  NodePayload, Node, RbTree, Side, other, write, parent, child, rotate, is_red, is_red_color,
  new_raw,
}
use fzkernel.Mem.RbTree.Shape.{Shape, leaf, fork, inorder, mem}
use fzkernel.Mem.RbTree.Turn.{rotate_at, inorder-rotate_at}
use fzkernel.Mem.RbTree.Headers.{SameHeaders, rotate-SameHeaders, IsLawful}
use fzkernel.Mem.RbTree.Holds.{Holds, is_proper, rotate-Holds}
use fzkernel.Mem.RbTree.Insert.Descend.{IsSearchTree}

-- A rotation at a node with a child on the other side leaves a tree of the same nodes, each once
-- and in the same order from left to right, and changes no payload, nor the leaf or the count.
pub rotate-inorder :
    {P : Type 0} (t : RbTree P) (s : Shape) (d : Side) (c : ℕ)
    → Holds t s
    → mem c s ≡ true
    → child t (other d) c ≢ t.black_nil
    → Holds (rotate t d c) (rotate_at d c s)
      × (inorder (rotate_at d c s) ≡ inorder s)
      × SameHeaders t (rotate t d c)
rotate-inorder t s d c h m full =
    let p = is_proper t s h d c m full in
    (rotate-Holds t s h d c m full, inorder-rotate_at d c s, rotate-SameHeaders t d c p.0 p.1)

-- At two addresses, `new_raw` makes a search tree of the root alone.
pub new_raw-IsSearchTree :
    {P : Type 0} (I : NodePayload P)
    → IsLawful I
    → (memory : ℕ → Node P) (root_addr black_nil_addr : ℕ) → root_addr ≢ black_nil_addr
    → IsSearchTree I (new_raw I memory root_addr black_nil_addr) (fork leaf root_addr leaf)
unfolding new_raw write is_red parent child
new_raw-IsSearchTree I law memory root_addr black_nil_addr ne =
    let t = new_raw I memory root_addr black_nil_addr in
    let dark : (n : ℕ) → (t.nodes n).header ≡ I.null → is_red I t n ≡ false =
      λ n k. ap (λ x. is_red_color (I.get_color x)) k ∙ ap is_red_color law.null_black in
    let e = ne→== root_addr black_nil_addr ne in
    record {
      holds = record {
        tree = (refl, ne, ground arith, ground arith, ground arith);
        distinct = (refl, tt);
      };
      sorted = (tt, tt);
      nil_black = dark black_nil_addr (ground arith);
      root_black = dark root_addr (ground arith);
    }
