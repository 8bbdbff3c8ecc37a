-- ===== src/Mem/RbTree/Examples.antt =====
-- Runs of the tree operations on heap block headers, and the theorems at their trees.
use fzkernel.Base.{ℕ, ◌*◌, ◌≡◌, refl, none, some, List, [], ◌∷◌, ◌==◌, if◌then◌else◌, arith, u64}
use fzkernel.Base.Outcome.{Outcome, done, panic, hang, ◌>>=◌}
use fzkernel.Mem.AllocHeader.{get_size, get_color, set_color}
use fzkernel.Mem.RbTree.{
  Node, RbTree, on_left, on_right, write, parent, child, set_parent, set_child, set_header, relink,
  adopt, rotate, new_raw, color, is_red, size, paint,
}
use fzkernel.Mem.RbTree.Payload.{
  AllocHeader, alloc_header, alloc_header-IsLawful, u64_bound, size-bound,
}
use fzkernel.Mem.RbTree.Insert.{
  descend, attach, recolor, turn_out, fix_insert_step, parent_side, fix_insert_loop,
  fix_insert_rb_violation, insert_node,
}
use fzkernel.Mem.RbTree.Remove.{
  get_subtree_min, swap_nodes, red_sibling, near_nephew, far_nephew, fix_remove_step, node_side,
  fix_remove_loop, lift_min, replace_by_min, repair, unlink, remove_node, best_fit_loop,
  find_best_node_fit,
}
use fzkernel.Mem.RbTree.Shape.{Shape, leaf, fork, inorder}
use fzkernel.Mem.RbTree.Headers.{SameHeaders}
use fzkernel.Mem.RbTree.Holds.{Holds}
use fzkernel.Mem.RbTree.Insert.Search.{Inserted, insert_node-Inserts}
use fzkernel.Mem.RbTree.Insert.Descend.{IsSearchTree}
use fzkernel.Mem.RbTree.Remove.BestFit.{Answer, find_best_node_fit-Answer}
use fzkernel.Mem.RbTree.Order.{rotate-inorder, new_raw-IsSearchTree}

-- A free block at every address, of 16 times the address in bytes.
abbrev blocks : ℕ → Node AllocHeader
blocks n = record {
  header = record { inner = u64 (16 * n); bound = u64_bound (16 * n) };
  parent = 0;
  left = 0;
  right = 0;
}

-- The root is at 5, the leaf at 1.
abbrev start : RbTree AllocHeader
start = new_raw alloc_header blocks 5 1

abbrev insert_all : List ℕ → RbTree AllocHeader → Outcome (RbTree AllocHeader)
insert_all [] t = done t
insert_all (n ∷ ns) t = insert_node alloc_header 12 t n >>= insert_all ns

-- Root, number of nodes, and the links and color of a node.
abbrev links : ℕ → RbTree AllocHeader → List ℕ
links n t =
    t.root
    ∷ (t.count
        ∷ (child t on_left n
            ∷ (child t on_right n
                ∷ (parent t n ∷ ((if is_red alloc_header t n then 1 else 0) ∷ [])))))

abbrev show : ℕ → Outcome (RbTree AllocHeader) → List ℕ
show n (done t) = links n t
show n panic = []
show n hang = 0 ∷ []

-- The third node is turned above the second.
three_nodes : show 3 (insert_all (7 ∷ (3 ∷ [])) start) ≡ 3 ∷ (3 ∷ (5 ∷ (7 ∷ (1 ∷ (0 ∷ [])))))
unfolding alloc_header new_raw insert_node fix_insert_rb_violation fix_insert_loop fix_insert_step
    turn_out recolor attach descend parent_side rotate relink adopt set_parent set_child set_header
    write parent child paint is_red size get_size get_color set_color
three_nodes = refl

six_nodes :
    show 3 (insert_all (7 ∷ (3 ∷ (4 ∷ (9 ∷ (8 ∷ []))))) start)
    ≡ 3 ∷ (6 ∷ (5 ∷ (7 ∷ (1 ∷ (0 ∷ [])))))
unfolding alloc_header new_raw insert_node fix_insert_rb_violation fix_insert_loop fix_insert_step
    turn_out recolor attach descend parent_side rotate relink adopt set_parent set_child set_header
    write parent child paint is_red size get_size get_color set_color
six_nodes = refl

-- Of sizes 0, 48, 64, 112, 128 and 144, the fourth is the best fit for 100 bytes.
abbrev fit : ℕ → Outcome (RbTree AllocHeader) → Outcome (ℕ × List ℕ)
fit value t = t >>= λ t. find_best_node_fit alloc_header 12 t value >>= λ r.
    done (elim r.1 [ some n ↦ n | none ↦ 0 ], links 8 r.0)

fit_of_six :
    fit 100 (insert_all (7 ∷ (3 ∷ (4 ∷ (9 ∷ (8 ∷ []))))) start)
    ≡ done (7, 3 ∷ (5 ∷ (4 ∷ (9 ∷ (3 ∷ (1 ∷ []))))))
unfolding alloc_header new_raw insert_node fix_insert_rb_violation fix_insert_loop fix_insert_step
    turn_out recolor attach descend parent_side rotate relink adopt set_parent set_child set_header
    write parent child paint is_red size get_size get_color set_color get_subtree_min swap_nodes
    red_sibling near_nephew far_nephew fix_remove_step node_side fix_remove_loop lift_min
    replace_by_min repair unlink remove_node best_fit_loop find_best_node_fit color
fit_of_six = refl

-- A root of size 48 with a red node on either side.
abbrev node : (size parent left right : ℕ) → Node AllocHeader
node size parent left right = record {
  header = record { inner = u64 size; bound = u64_bound size };
  parent = parent;
  left = left;
  right = right;
}

abbrev three : RbTree AllocHeader
three = record {
  nodes = λ n.
      if n == 3
      then node 48 1 5 7
      else if n == 5
      then node 4 3 1 1
      else if n == 7
      then node 116 3 1 1
      else node (16 * n) 0 0 0;
  root = 3;
  black_nil = 1;
  count = 3;
}

abbrev three_shape : Shape
three_shape = fork (fork leaf 5 leaf) 3 (fork leaf 7 leaf)

three-Holds : Holds three three_shape
unfolding parent child
three-Holds = record { tree = omega arith; distinct = (refl, (refl, (refl, tt))) }

three-IsSearchTree : IsSearchTree alloc_header three three_shape
unfolding alloc_header size is_red get_size get_color parent child
three-IsSearchTree = record {
  holds = three-Holds;
  sorted = omega arith;
  nil_black = refl;
  root_black = refl;
}

rotate-inorder_example :
    Holds (rotate three on_left 3) (fork (fork (fork leaf 5 leaf) 3 leaf) 7 leaf)
    × (inorder (fork (fork (fork leaf 5 leaf) 3 leaf) 7 leaf) ≡ inorder three_shape)
    × SameHeaders three (rotate three on_left 3)
unfolding child
rotate-inorder_example = rotate-inorder three three_shape on_left 3 three-Holds refl (omega arith)

new_raw-IsSearchTree_example : IsSearchTree alloc_header start (fork leaf 5 leaf)
new_raw-IsSearchTree_example =
    new_raw-IsSearchTree alloc_header alloc_header-IsLawful blocks 5 1 (omega arith)

insert_node-Inserts_example : Inserted alloc_header alloc_header-IsLawful 4 three three_shape 4
insert_node-Inserts_example =
    insert_node-Inserts alloc_header alloc_header-IsLawful 4 three three_shape 4 three-IsSearchTree
      (omega arith) refl (omega arith)

find_best_node_fit-Answer_example : Answer alloc_header three 100 4 three_shape
find_best_node_fit-Answer_example =
    find_best_node_fit-Answer alloc_header three 100 4 three_shape three-IsSearchTree (omega arith)
      (omega arith) (λ n m. size-bound three n)
