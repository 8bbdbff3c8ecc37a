-- ===== src/Mem/KernelHeap/Serve.antt =====
-- `kalloc_layout`: the size a request is rounded to, and a request that no block serves.
use fzkernel.Base.{
  ℕ, ◌+◌, ◌%◌, ◌≤◌, ◌<◌, ◌≡◌, ◌≢◌, refl, Bool, true, false, Option, none, length, ltb,
  if◌then◌else◌, arith, u64_mod, ne→==, max,
}
use fzkernel.Base.Outcome.{done}
use fzkernel.Mem.AllocHeader.{alloc_size_req_align}
use fzkernel.Mem.RbTree.{size, null_link}
use fzkernel.Mem.RbTree.Payload.{alloc_header, size-bound}
use fzkernel.Mem.RbTree.Remove.{find_best_node_fit}
use fzkernel.Mem.RbTree.Remove.BestFit.{no_fit, best_fit, find_best_node_fit-Answer}
use fzkernel.Mem.RbTree.Insert.Descend.{IsSearchTree}
use fzkernel.Mem.RbTree.Shape.{Shape, inorder, mem}
use fzkernel.Mem.KernelHeap.{
  KernelHeapAllocator, Mapping, tree, put_tree, rounded, whole_pages, kalloc_layout,
}

put_tree-tree : (h : KernelHeapAllocator) (mapped : Bool) → put_tree h mapped (tree h mapped) ≡ h
unfolding put_tree tree
put_tree-tree h true = refl
put_tree-tree h false = refl

module _ (alloc_page : ℕ → Option Mapping) (fuel : ℕ) (h : KernelHeapAllocator) (request : ℕ)
    (s r : Shape) where
  abbrev small : ℕ
  small = rounded request

  abbrev pages : ℕ
  pages = whole_pages small

  -- No block of the mapped or unmapped tree has the size.
  abbrev pub TooSmall : Bool → Shape → ℕ → Type 0
  TooSmall mapped q least = (n : ℕ) → mem n q ≡ true → size alloc_header (tree h mapped) n < least

  kalloc_none :
      request ≢ 0
      → find_best_node_fit alloc_header fuel (tree h true) small ≡ done (tree h true, none)
      → find_best_node_fit alloc_header fuel (tree h false) pages ≡ done (tree h false, none)
      → kalloc_layout alloc_page fuel h request ≡ done (h, null_link)
  unfolding kalloc_layout
  kalloc_none live e f =
      rw (ne→== request 0 live, e, put_tree-tree h true, f, put_tree-tree h false) refl

  -- With a search tree that has no such block, on enough fuel, nothing is found.
  find_best_node_fit-none :
      (mapped : Bool) (q : Shape) (least : ℕ)
      → IsSearchTree alloc_header (tree h mapped) q
      → length (inorder q) < fuel
      → least < u64_mod
      → TooSmall mapped q least
      → find_best_node_fit alloc_header fuel (tree h mapped) least ≡ done (tree h mapped, none)
  find_best_node_fit-none mapped q least search enough fits low =
      elim (find_best_node_fit-Answer alloc_header (tree h mapped) least fuel q search enough fits
        (λ n m. size-bound (tree h mapped) n)) [
          | best_fit node m le best e ↦ absurd (omega (arith, low node m, le))
          | no_fit low' e ↦ e
        ]

  -- With search trees of mapped and unmapped blocks, on any fuel above the number of their nodes,
  -- a request for some bytes, whose rounded sizes are 64-bit numbers, ends with the null pointer and
  -- the heap as it was, where every mapped block is smaller than the rounded size and every unmapped
  -- one than its whole pages.
  pub kalloc_layout-refused :
      request ≢ 0
      → IsSearchTree alloc_header (tree h true) s
      → IsSearchTree alloc_header (tree h false) r
      → length (inorder s) < fuel
      → length (inorder r) < fuel
      → small < u64_mod
      → pages < u64_mod
      → TooSmall true s small
      → TooSmall false r pages
      → kalloc_layout alloc_page fuel h request ≡ done (h, null_link)
  kalloc_layout-refused live ss sr enough enough' fits fits' low low' =
      kalloc_none live (find_best_node_fit-none true s small ss enough fits low)
        (find_best_node_fit-none false r pages sr enough' fits' low')

alloc_size_req_align-bounds :
    (n : ℕ)
    → (n ≤ alloc_size_req_align n)
      × (alloc_size_req_align n < n + 16)
      × (alloc_size_req_align n % 16 ≡ 0)
unfolding alloc_size_req_align
alloc_size_req_align-bounds n = (ground arith, ground arith, ground arith)

whole_pages-bounds :
    (n : ℕ) → (n ≤ whole_pages n) × (whole_pages n % 4096 ≡ 0) × (whole_pages n < n + 4096)
unfolding whole_pages
whole_pages-bounds n = (ground arith, ground arith, ground arith)

-- A request of some bytes is rounded up to a multiple of 16, to at least 64 bytes and at most 15
-- more than the request or 64; its pages are the least whole number of pages that holds that.
pub rounded-Covers :
    (request : ℕ)
    → (request ≤ rounded request)
      × (64 ≤ rounded request)
      × (rounded request < max request 64 + 16)
      × (rounded request % 16 ≡ 0)
      × (rounded request ≤ whole_pages (rounded request))
      × (whole_pages (rounded request) % 4096 ≡ 0)
      × (whole_pages (rounded request) < rounded request + 4096)
unfolding rounded
rounded-Covers request =
    let n : ℕ = if ltb request 64 then 64 else request in
    let e : n ≡ max request 64 = ground arith in
    let a = alloc_size_req_align-bounds n in
    let b = whole_pages-bounds (rounded request) in
    (omega (arith, a.0, e), omega (arith, a.0, e), omega (arith, a.1, e), a.2, b.0, b.1, b.2)
