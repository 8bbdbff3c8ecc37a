-- ===== src/Mem/KernelHeap/Only.antt =====
-- `kalloc_layout` in a heap with one mapped block, from the search for it to its split.
use fzkernel.Base.{ℕ, suc, ◌+◌, ◌-◌, ◌≤◌, ◌≡◌, ◌≢◌, true, Option, ◌==◌}
use fzkernel.Base.Outcome.{done}
use fzkernel.Mem.Address.{virt_add}
use fzkernel.Mem.AllocHeader.{get_size, is_allocated}
use fzkernel.Mem.RbTree.{RbTree}
use fzkernel.Mem.RbTree.Payload.{AllocHeader, alloc_header, alloc_header-IsLawful}
use fzkernel.Mem.RbTree.Remove.Single.{Emptied, remove_node-Emptied}
use fzkernel.Mem.RbTree.Insert.Descend.{IsSearchTree}
use fzkernel.Mem.RbTree.Shape.{Shape, leaf, fork, mem}
use fzkernel.Mem.KernelHeap.{
  KernelHeapAllocator, Mapping, tree, put_tree, header, rounded, kalloc_layout,
  get_block_right_neighbor, get_block_start_addr,
}
use fzkernel.Mem.KernelHeap.Split.{Split}

module _ (h : KernelHeapAllocator) (block request : ℕ) where
  abbrev small : ℕ
  small = rounded request

  abbrev right : ℕ
  right = get_block_right_neighbor block small

  abbrev rest_of : ℕ → ℕ
  rest_of z = z - small - 16

  abbrev rest : ℕ
  rest = rest_of (get_size (header h block))

  abbrev foot : ℕ
  foot = virt_add right rest

  abbrev behind : ℕ
  behind = get_block_right_neighbor right rest

  -- The block has room for the request and a free block behind it, which lies apart from the block
  -- and the leaf, with its footer and the header behind it.
  pub record IsRoomy : Type 0 where
    pub room : small + 128 ≤ get_size (header h block)
    pub block_right : block ≢ right
    pub right_real : right ≢ (tree h true).black_nil
    pub foot_real : foot ≢ (tree h true).black_nil
    pub foot_right : foot ≢ right
    pub behind_right : behind ≢ right
    pub behind_foot : behind ≢ foot

  -- The request is served: the block has the size that it is rounded to, and the rest of the block
  -- is the only mapped block.
  pub record Served (alloc_page : ℕ → Option Mapping) (fuel : ℕ) : Type 0 where
    pub result : KernelHeapAllocator
    pub shape : Shape
    pub runs : kalloc_layout alloc_page fuel h request ≡ done (result, get_block_start_addr block)
    pub given : get_size (header result block) ≡ small
    pub taken : is_allocated (header result block) ≡ true
    pub left_over : get_size (header result right) ≡ rest
    pub whole : small + 16 + rest ≡ get_size (header h block)
    pub search : IsSearchTree alloc_header (tree result true) shape
    pub members : (n : ℕ) → mem n shape ≡ (n == right)

  module _ (st : IsSearchTree alloc_header (tree h true) (fork leaf block leaf)) (fuel : ℕ) where
    gone : Emptied alloc_header (suc (suc fuel)) (tree h true) block
    gone = remove_node-Emptied alloc_header alloc_header-IsLawful (tree h true) block st (suc fuel)

    abbrev left : KernelHeapAllocator
    left = put_tree h true gone.result
