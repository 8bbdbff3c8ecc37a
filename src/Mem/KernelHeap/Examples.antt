-- ===== src/Mem/KernelHeap/Examples.antt =====
-- A heap of 64 KB at 0x10000, and the theorems at it.
use fzkernel.Base.{
  ℕ, ◌+◌, ◌%◌, ◌≤◌, max, ◌<◌, ◌≡◌, refl, inl, inr, true, false, Option, some, List, [], ◌∷◌, ◌==◌,
  if◌then◌else◌, arith, u64,
}
use fzkernel.Base.Outcome.{Outcome, done, ◌>>=◌}
use fzkernel.Mem.Address.{virt_new, virt_add, virt_sub, virt_is_aligned_with}
use fzkernel.Mem.AllocHeader.{
  get_size, set_size, get_color, set_color, is_allocated, is_mapped, left_allocated, allocate,
  set_mapped, set_left_allocated, alloc_size_req_align,
}
use fzkernel.Mem.RbTree.{
  Node, write, parent, child, set_parent, set_child, set_header, relink, adopt, rotate, new_raw,
  color, is_red, size, paint, null_link,
}
use fzkernel.Mem.RbTree.Payload.{AllocHeader, alloc_header, u64_bound}
use fzkernel.Mem.RbTree.Insert.{
  descend, attach, recolor, turn_out, fix_insert_step, parent_side, fix_insert_loop,
  fix_insert_rb_violation, insert_node,
}
use fzkernel.Mem.RbTree.Remove.{
  get_subtree_min, swap_nodes, red_sibling, near_nephew, far_nephew, fix_remove_step, node_side,
  fix_remove_loop, lift_min, replace_by_min, repair, unlink, remove_node, best_fit_loop,
  find_best_node_fit,
}
use fzkernel.Mem.RbTree.Shape.{fork, leaf, mem, mem-cases}
use mathlib.Core.Bool.{false≢true}
use fzkernel.Mem.RbTree.Insert.Descend.{IsSearchTree}
use fzkernel.Mem.KernelHeap.Free.{Freed, init_free_node-Freed}
use fzkernel.Mem.KernelHeap.Split.{Split, split_alloc-Splits}
use fzkernel.Mem.KernelHeap.Serve.{kalloc_layout-refused, rounded-Covers}
use fzkernel.Mem.KernelHeap.{
  KernelHeapAllocator, Mapping, tree, put_tree, header, set_inner, change, init_node_header,
  init_node_end, get_block_right_neighbor, get_block_left_neighbor, get_block_start_addr,
  get_node_from_block_addr, init_free_node, init, give_whole, split_alloc, split_alloc_and_map,
  rounded, whole_pages, kalloc_layout,
}
use fzkernel.Mem.KernelHeap.Merge.{merge_scan_neighbors, remove_found, merge, kfree}

abbrev memory : ℕ → Node AllocHeader
memory n = record {
  header = record { inner = 0; bound = u64_bound 0 };
  parent = 0;
  left = 0;
  right = 0;
}

abbrev pages : ℕ → Option Mapping
pages n = some (record { frames = 8388608; page = 0; length = n })

-- The block that 100 bytes get, its header, and that of the block behind it.
abbrev one_block : Outcome (KernelHeapAllocator × ℕ) → Outcome (List ℕ)
one_block r = r >>= λ r. done (r.1 ∷ (header r.0 65536 ∷ (header r.0 65664 ∷ [])))

abbrev first : Outcome (KernelHeapAllocator × ℕ)
first = init memory 65536 65536 >>= λ h. kalloc_layout pages 5 h 100

first_block : one_block first ≡ done (65552 ∷ (115 ∷ (63362 ∷ [])))
unfolding init kalloc_layout virt_new virt_add virt_sub virt_is_aligned_with get_size set_size
    get_color set_color is_allocated is_mapped left_allocated allocate set_mapped set_left_allocated
    alloc_size_req_align write parent child set_parent set_child set_header relink adopt rotate
    new_raw color is_red size paint alloc_header descend attach recolor turn_out fix_insert_step
    parent_side fix_insert_loop fix_insert_rb_violation insert_node get_subtree_min swap_nodes
    red_sibling near_nephew far_nephew fix_remove_step node_side fix_remove_loop lift_min
    replace_by_min repair unlink remove_node best_fit_loop find_best_node_fit tree put_tree header
    set_inner change init_node_header init_node_end get_block_right_neighbor get_block_start_addr
    init_free_node give_whole split_alloc split_alloc_and_map rounded whole_pages
first_block = refl

-- The second block is given back; the flag of an allocated block stays set in its header.
abbrev two_blocks : Outcome (List ℕ)
two_blocks = do
  (h, a) ← first
  (h, b) ← kalloc_layout pages 5 h 200
  h ← kfree 5 h b
  done (a ∷ (b ∷ (header h 65664 ∷ [])))

freed_block : two_blocks ≡ done (65552 ∷ (65680 ∷ (215 ∷ [])))
unfolding init kalloc_layout virt_new virt_add virt_sub virt_is_aligned_with get_size set_size
    get_color set_color is_allocated is_mapped left_allocated allocate set_mapped set_left_allocated
    alloc_size_req_align write parent child set_parent set_child set_header relink adopt rotate
    new_raw color is_red size paint alloc_header descend attach recolor turn_out fix_insert_step
    parent_side fix_insert_loop fix_insert_rb_violation insert_node get_subtree_min swap_nodes
    red_sibling near_nephew far_nephew fix_remove_step node_side fix_remove_loop lift_min
    replace_by_min repair unlink remove_node best_fit_loop find_best_node_fit tree put_tree header
    set_inner change init_node_header init_node_end get_block_right_neighbor get_block_start_addr
    init_free_node give_whole split_alloc split_alloc_and_map rounded whole_pages kfree merge
    merge_scan_neighbors remove_found get_node_from_block_addr get_block_left_neighbor
freed_block = refl

-- A heap with a free mapped block at 3, an unmapped one at 5, and one of 512 bytes in no tree.
abbrev block : (inner : ℕ) → Node AllocHeader
block inner = record {
  header = record { inner = u64 inner; bound = u64_bound inner };
  parent = 1;
  left = 1;
  right = 1;
}

abbrev two : KernelHeapAllocator
two = record {
  memory = λ n.
      if n == 3
      then block 160
      else if n == 5
      then block 8192
      else if n == 1000
      then block 512
      else block 0;
  start = 3;
  end = 9000;
  size = 9000;
  mapped_alloc_tree = record { root = 3; black_nil = 1; count = 1 };
  unmapped_alloc_tree = record { root = 5; black_nil = 1; count = 1 };
  mappings = [];
}

mapped-IsSearchTree : IsSearchTree alloc_header (tree two true) (fork leaf 3 leaf)
unfolding tree alloc_header is_red get_color parent child
mapped-IsSearchTree = record {
  holds = record { tree = omega arith; distinct = (refl, tt) };
  sorted = (tt, tt);
  nil_black = refl;
  root_black = refl;
}

unmapped-IsSearchTree : IsSearchTree alloc_header (tree two false) (fork leaf 5 leaf)
unfolding tree alloc_header is_red get_color parent child
unmapped-IsSearchTree = record {
  holds = record { tree = omega arith; distinct = (refl, tt) };
  sorted = (tt, tt);
  nil_black = refl;
  root_black = refl;
}

-- A block of 160 bytes is too small for 10000, and one of 8192 for their pages.
low_mapped : (n : ℕ) → mem n (fork leaf 3 leaf) ≡ true → size alloc_header (tree two true) n < 10000
unfolding tree size alloc_header get_size
low_mapped n m = elim (mem-cases n leaf 3 leaf m) [
  | inl e ↦ rw e (omega arith)
  | inr (inl x) ↦ absurd (false≢true x)
  | inr (inr x) ↦ absurd (false≢true x)
]

low_unmapped :
    (n : ℕ) → mem n (fork leaf 5 leaf) ≡ true → size alloc_header (tree two false) n < 12288
unfolding tree size alloc_header get_size
low_unmapped n m = elim (mem-cases n leaf 5 leaf m) [
  | inl e ↦ rw e (omega arith)
  | inr (inl x) ↦ absurd (false≢true x)
  | inr (inr x) ↦ absurd (false≢true x)
]

kalloc_layout-refused_example : kalloc_layout pages 2 two 10000 ≡ done (two, null_link)
unfolding rounded whole_pages alloc_size_req_align
kalloc_layout-refused_example =
    kalloc_layout-refused pages 2 two 10000 (fork leaf 3 leaf) (fork leaf 5 leaf) (omega arith)
      mapped-IsSearchTree unmapped-IsSearchTree (omega arith) (omega arith) (omega arith)
      (omega arith) low_mapped low_unmapped

-- The block of 8192 bytes is the one that is mapped.
abbrev wide : KernelHeapAllocator
wide = record two {
  mapped_alloc_tree = record { root = 5; black_nil = 1; count = 1 };
  unmapped_alloc_tree = record { root = 3; black_nil = 1; count = 1 };
}

rounded-Covers_example :
    (200 ≤ rounded 200)
    × (64 ≤ rounded 200)
    × (rounded 200 < max 200 64 + 16)
    × (rounded 200 % 16 ≡ 0)
    × (rounded 200 ≤ whole_pages (rounded 200))
    × (whole_pages (rounded 200) % 4096 ≡ 0)
    × (whole_pages (rounded 200) < rounded 200 + 4096)
rounded-Covers_example = rounded-Covers 200

init_free_node-Freed_example : Freed 2 two 400 160 true (fork leaf 3 leaf)
unfolding tree virt_add get_block_right_neighbor
init_free_node-Freed_example =
    init_free_node-Freed two 400 160 refl (omega arith) true (fork leaf 3 leaf) mapped-IsSearchTree
      refl (omega arith) refl (omega arith) (omega arith) (omega arith) (omega arith) 2
      (omega arith)

split_alloc-Splits_example : Split 2 two 1000 208 (fork leaf 3 leaf)
unfolding tree header virt_add get_size get_block_right_neighbor
split_alloc-Splits_example =
    split_alloc-Splits 2 two 1000 208 (fork leaf 3 leaf) mapped-IsSearchTree (omega arith)
      (omega arith) refl refl (omega arith) (omega arith) refl (omega arith) refl (omega arith)
      (omega arith) (omega arith) (omega arith)
