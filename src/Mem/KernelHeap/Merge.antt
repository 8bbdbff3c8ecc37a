-- ===== src/Mem/KernelHeap/Merge.antt =====
-- `kfree` of src/mem/vmalloc/kheap.rs: a block is merged with its free neighbours and goes into the
-- tree of mapped blocks.
use fzkernel.Base.{ℕ, ◌+◌, Bool, true, false, not, ◌&&◌, ◌==◌, if◌then◌else◌, u64}
use fzkernel.Base.Outcome.{Outcome, done, ◌>>=◌}
use fzkernel.Mem.AllocHeader.{get_size, is_allocated, is_mapped, left_allocated}
use fzkernel.Mem.RbTree.{null_link}
use fzkernel.Mem.RbTree.Payload.{alloc_header}
use fzkernel.Mem.RbTree.Remove.{remove_node}
use fzkernel.Mem.KernelHeap.{
  KernelHeapAllocator, header_size, tree, put_tree, header, init_node_header,
  get_block_right_neighbor, get_block_left_neighbor, get_node_from_block_addr, init_free_node,
}

pub record BlockMergeResult : Type 0 where
  pub current : ℕ
  pub left : ℕ
  pub right : ℕ
  pub new_size : ℕ

abbrev pub same : Bool → Bool → Bool
same true b = b
same false b = not b

unfoldable pub merge_scan_neighbors : KernelHeapAllocator → ℕ → (mapped : Bool) → BlockMergeResult
unfolding header get_block_right_neighbor get_block_left_neighbor is_allocated is_mapped
    left_allocated
merge_scan_neighbors h node mapped =
    let start_size = get_size (header h node) in
    let right_node = get_block_right_neighbor node start_size in
    let takes_right =
      not (is_allocated (header h right_node)) && same mapped (is_mapped (header h right_node)) in
    let with_right =
      if takes_right
      then u64 (start_size + (get_size (header h right_node) + header_size))
      else start_size in
    let left_node = get_block_left_neighbor h node in
    let takes_left = not (node == h.start) && not (left_allocated (header h node)) in
    record {
      current = node;
      left = if takes_left then left_node else null_link;
      right = if takes_right then right_node else null_link;
      new_size =
          if takes_left
          then u64 (with_right + (get_size (header h left_node) + header_size))
          else with_right;
    }

-- A neighbour that was found leaves its tree.
unfoldable pub remove_found :
    (fuel : ℕ) → KernelHeapAllocator → (found : ℕ) → (mapped : Bool) → Outcome KernelHeapAllocator
unfolding tree put_tree
remove_found fuel h found mapped = if found == null_link then done h else (do
  (t, node) ← remove_node alloc_header fuel (tree h mapped) found
  done (put_tree h mapped t))

-- The heap, and the block that is left of the merge.
unfoldable pub merge :
    (fuel : ℕ)
    → KernelHeapAllocator
    → BlockMergeResult
    → (mapped : Bool) → Outcome (KernelHeapAllocator × ℕ)
unfolding remove_found init_node_header
merge fuel h scan_result mapped = do
  h ← remove_found fuel h scan_result.left mapped
  let current = if scan_result.left == null_link then scan_result.current else scan_result.left
  h ← remove_found fuel h scan_result.right mapped
  done (init_node_header h current scan_result.new_size, current)

unfoldable pub kfree : (fuel : ℕ) → KernelHeapAllocator → ℕ → Outcome KernelHeapAllocator
unfolding get_node_from_block_addr merge_scan_neighbors merge header init_free_node
kfree fuel h block = if block == null_link then done h else do
  (h, current) ← merge fuel h (merge_scan_neighbors h (get_node_from_block_addr block) true) true
  init_free_node fuel h current (get_size (header h current)) true
