-- ===== src/Mem/KernelHeap.antt =====
-- The kernel heap: `KernelHeapAllocator` of src/mem/vmalloc/kheap.rs, over the red-black trees of
-- RbTree. `memory` holds what the code reads and writes at an address: the header of a block or its
-- footer, and the links of a free block. The frames of a request come from `alloc_page`, a
-- parameter that gives the start and the length of a run of frames, and the calls of
-- `map_physical_memory` are kept in `mappings`.

pub mod Free
pub mod Merge
pub mod Only
pub mod Serve
pub mod Split
mod Examples
use fzkernel.Base.{
  ℕ, zero, suc, ◌+◌, ◌-◌, ◌*◌, ◌/◌, ◌%◌, ◌<◌, Bool, true, false, not, ◌&&◌, Option, none, some,
  List, [], ◌∷◌, ◌==◌, ltb, leb, if◌then◌else◌, u64, u64_mod, bit_and, arith,
}
use fzkernel.Base.Outcome.{Outcome, done, panic, hang, ◌>>=◌, ◌>>◌, assert}
use fzkernel.Mem.Address.{virt_add, virt_sub, virt_new, virt_is_aligned_with, align_4kb}
use fzkernel.Mem.AllocHeader.{
  NodeColor, red, get_size, set_size, is_allocated, is_mapped, left_allocated, min_kheap_align,
  alloc_size_req_align,
}
use fzkernel.Mem.AllocHeader.Refine.{Change, take, mark_mapped, mark_left, run}
use fzkernel.Mem.RbTree.{Node, RbTree, null_link, paint, new_raw}
use fzkernel.Mem.RbTree.Payload.{AllocHeader, alloc_header, u64_bound}
use fzkernel.Mem.RbTree.Insert.{insert_node}
use fzkernel.Mem.RbTree.Remove.{find_best_node_fit, remove_node}

abbrev pub page_size : ℕ
page_size = 4096

abbrev pub min_heap_size : ℕ
min_heap_size = 4096

abbrev pub min_block_size : ℕ
min_block_size = 128

abbrev pub min_alloc_size : ℕ
min_alloc_size = 64

-- `size_of::<AllocHeader>()` and `size_of::<Node<AllocHeader>>()`
abbrev pub header_size : ℕ
header_size = 16

abbrev pub node_size : ℕ
node_size = 40

-- What a tree keeps outside of the memory.
pub record Anchor : Type 0 where
  pub root : ℕ
  pub black_nil : ℕ
  pub count : ℕ

pub record Mapping : Type 0 where
  pub frames : ℕ
  pub page : ℕ
  pub length : ℕ

pub record KernelHeapAllocator : Type 0 where
  pub memory : ℕ → Node AllocHeader
  pub start : ℕ
  pub end : ℕ
  pub size : ℕ
  pub mapped_alloc_tree : Anchor
  pub unmapped_alloc_tree : Anchor
  pub mappings : List Mapping

abbrev pub tree_of : (ℕ → Node AllocHeader) → Anchor → RbTree AllocHeader
tree_of memory a = record {
  nodes = memory;
  root = a.root;
  black_nil = a.black_nil;
  count = a.count;
}

abbrev pub anchor_of : RbTree AllocHeader → Anchor
anchor_of t = record { root = t.root; black_nil = t.black_nil; count = t.count }

-- `if mapped { &mut self.mapped_alloc_tree } else { &mut self.unmapped_alloc_tree }`
unfoldable pub tree : KernelHeapAllocator → Bool → RbTree AllocHeader
tree h mapped = tree_of h.memory (if mapped then h.mapped_alloc_tree else h.unmapped_alloc_tree)

unfoldable pub put_tree : KernelHeapAllocator → Bool → RbTree AllocHeader → KernelHeapAllocator
put_tree h true t = record h { memory = t.nodes; mapped_alloc_tree = anchor_of t }
put_tree h false t = record h { memory = t.nodes; unmapped_alloc_tree = anchor_of t }

unfoldable pub header : KernelHeapAllocator → ℕ → ℕ
header h node = (h.memory node).header.inner

-- A write of the header at an address, of a 64-bit word.
unfoldable pub set_inner : KernelHeapAllocator → ℕ → ℕ → KernelHeapAllocator
set_inner h node inner =
    let n = h.memory node in
    let word = record n { header = record { inner = u64 inner; bound = u64_bound inner } } in
    record h { memory = λ b. if b == node then word else h.memory b }

unfoldable pub change : KernelHeapAllocator → ℕ → Change → KernelHeapAllocator
unfolding header set_inner
change h node c = set_inner h node (run c (header h node))

unfoldable pub init_node_header : KernelHeapAllocator → (node size : ℕ) → KernelHeapAllocator
unfolding header set_inner change set_size
init_node_header h node size = change (change h node (Change.resize size)) node (mark_left true)

-- The footer behind the block is a copy of its header.
unfoldable pub init_node_end : KernelHeapAllocator → (node size : ℕ) → KernelHeapAllocator
unfolding header set_inner virt_add
init_node_end h node size = set_inner h (virt_add node size) (header h node)

unfoldable pub get_block_right_neighbor : (node size : ℕ) → ℕ
unfolding virt_add
get_block_right_neighbor node size = virt_add (virt_add node size) header_size

unfoldable pub get_block_left_neighbor : KernelHeapAllocator → ℕ → ℕ
unfolding virt_sub header
get_block_left_neighbor h node =
    let left_footer = header h (virt_sub node header_size) in
    virt_sub (virt_sub node (get_size left_footer)) header_size

unfoldable pub get_block_start_addr : ℕ → ℕ
unfolding virt_add
get_block_start_addr node = virt_add node header_size

unfoldable pub get_node_from_block_addr : ℕ → ℕ
unfolding virt_sub
get_node_from_block_addr block = virt_sub block header_size

-- A free block goes into its tree.
unfoldable pub init_free_node :
    (fuel : ℕ)
    → KernelHeapAllocator
    → (node size : ℕ) → (mapped : Bool) → Outcome KernelHeapAllocator
unfolding change init_node_end get_block_right_neighbor tree put_tree
init_free_node fuel h node size mapped = do
  let h =
      change (change (change h node (Change.resize size)) node (Change.paint red)) node
        (mark_left true)
  let h = init_node_end h node size
  let h = change h (get_block_right_neighbor node size) (mark_left false)
  t ← insert_node alloc_header fuel (tree h mapped) node
  done (put_tree h mapped t)

unfoldable pub init :
    (memory : ℕ → Node AllocHeader) → (heap_start heap_size : ℕ) → Outcome KernelHeapAllocator
unfolding virt_add virt_sub change init_node_header init_node_end
init memory heap_start heap_size =
    let heap_end = virt_sub (virt_add heap_start heap_size) (2 * node_size) in
    let unmapped = new_raw alloc_header memory heap_start (virt_sub heap_end node_size) in
    let mapped = new_raw alloc_header unmapped.nodes heap_end (virt_add heap_end node_size) in
    let h : KernelHeapAllocator = record {
      memory = mapped.nodes;
      start = heap_start;
      end = heap_end;
      size = heap_size;
      mapped_alloc_tree = anchor_of mapped;
      unmapped_alloc_tree = anchor_of unmapped;
      mappings = [];
    } in
    let h = change (change h unmapped.black_nil take) mapped.black_nil take in
    let h = init_node_header h unmapped.root (heap_size - page_size / 2) in
    let h = init_node_header h mapped.root 0 in
    let h = init_node_end h unmapped.root (heap_size - page_size / 2) in
    assert (virt_is_aligned_with heap_start align_4kb)
    >> assert (ltb min_heap_size heap_size)
    >> done (init_node_end h mapped.root 0)

-- The free block is not split: all of it is given.
unfoldable pub give_whole : KernelHeapAllocator → (free_block block_size : ℕ) → KernelHeapAllocator
unfolding change init_node_header get_block_right_neighbor
give_whole h free_block block_size =
    let h = change h (get_block_right_neighbor free_block block_size) (mark_left true) in
    change (init_node_header h free_block block_size) free_block take

unfoldable pub split_alloc :
    (fuel : ℕ) → KernelHeapAllocator → (free_block size_req : ℕ) → Outcome (KernelHeapAllocator × ℕ)
unfolding header init_node_header change init_free_node get_block_right_neighbor
    get_block_start_addr give_whole
split_alloc fuel h free_block size_req =
    let block_size = get_size (header h free_block) in
    let right = get_block_right_neighbor free_block size_req in
    if leb (size_req + min_block_size) block_size
    then (do
      h ← init_free_node fuel h right (block_size - size_req - header_size) true
      let h = change (init_node_header h free_block size_req) right (mark_mapped true)
      done (change h free_block take, get_block_start_addr free_block))
    else done (give_whole h free_block block_size, get_block_start_addr free_block)

-- The size that a request is rounded to.
unfoldable pub rounded : ℕ → ℕ
unfolding alloc_size_req_align
rounded size = alloc_size_req_align (if ltb size min_alloc_size then min_alloc_size else size)

unfoldable pub whole_pages : ℕ → ℕ
whole_pages size =
    (if not (size % page_size == 0) then size / page_size + 1 else size / page_size) * page_size

module _ (alloc_page : ℕ → Option Mapping) where
  -- `alloc_page` gives the frames: `frames` and `length` of a `Mapping`.
  unfoldable pub split_alloc_and_map :
      (fuel : ℕ)
      → KernelHeapAllocator
      → (free_block size_req : ℕ) → Outcome (KernelHeapAllocator × ℕ)
  unfolding header init_node_header change init_free_node get_block_right_neighbor
      get_block_start_addr give_whole
  split_alloc_and_map fuel h free_block size_req =
      let block_size = get_size (header h free_block) in
      let page = virt_new (u64 (bit_and (virt_new free_block) (u64_mod - page_size) + page_size)) in
      let right = get_block_right_neighbor free_block size_req in
      elim (alloc_page ((size_req / page_size + 1) * page_size)) [
        | none ↦ done (h, null_link)
        | some pages ↦
            let h = record h { mappings = record pages { page = page } ∷ h.mappings } in
            if leb (size_req + min_block_size) block_size
            then (do
              h ← init_free_node fuel h right (block_size - size_req - header_size) false
              let h = init_node_header (change h right (mark_mapped false)) free_block size_req
              done (change h free_block take, get_block_start_addr free_block))
            else done (give_whole h free_block block_size, get_block_start_addr free_block)
      ]

  unfoldable pub kalloc_layout :
      (fuel : ℕ) → KernelHeapAllocator → ℕ → Outcome (KernelHeapAllocator × ℕ)
  unfolding split_alloc split_alloc_and_map rounded whole_pages tree put_tree
  kalloc_layout fuel h size =
      let alloc_size = rounded size in
      if size == 0 then done (h, null_link) else do
        (t, node) ← find_best_node_fit alloc_header fuel (tree h true) alloc_size
        let h = put_tree h true t
        elim node [
          | some n ↦ split_alloc fuel h n alloc_size
          | none ↦ (do
            (t, node) ← find_best_node_fit alloc_header fuel (tree h false) (whole_pages alloc_size)
            let h = put_tree h false t
            elim node [
              | some n ↦ split_alloc_and_map fuel h n alloc_size
              | none ↦ done (h, null_link)
            ])
        ]
