-- ===== src/Mem/KernelHeap/Split.antt =====
-- `split_alloc`: the block that serves a request, and the free block that is left of it.
use fzkernel.Base.{
  ℕ, ◌+◌, ◌-◌, ◌%◌, ◌≤◌, ◌<◌, ◌≡◌, ◌≢◌, refl, sym, ◌∙◌, ap, true, false, ◌||◌, length, ◌==◌, le→leb,
  arith, inl, inr, ne→==, u64_mod,
}
use fzkernel.Base.Outcome.{done}
use fzkernel.Mem.Address.{virt_add}
use fzkernel.Mem.AllocHeader.{get_size, get_color, is_allocated}
use fzkernel.Mem.AllocHeader.Refine.{
  Change, take, resize, mark_mapped, mark_left, run, get_size-value,
}
use fzkernel.Mem.RbTree.{size}
use fzkernel.Mem.RbTree.Payload.{alloc_header}
use fzkernel.Mem.RbTree.Insert.Plant.{has-insert_by}
use fzkernel.Mem.RbTree.Insert.Descend.{IsSearchTree}
use fzkernel.Mem.RbTree.Shape.{Shape, inorder, mem, has, has-inorder, ne_of_mem}
use fzkernel.Mem.KernelHeap.{
  KernelHeapAllocator, tree, header, change, init_node_header, get_block_right_neighbor,
  get_block_start_addr, split_alloc,
}
use fzkernel.Mem.KernelHeap.Free.{
  init_free_node-Freed, header_bound, Freed, header-change, change-Shows, search_same, SameTrees,
  SameTrees-trans, set_inner-SameTrees, IsQuiet, flag-same,
}

change-SameTrees : (h : KernelHeapAllocator) (n : ℕ) (c : Change) → SameTrees h (change h n c)
unfolding change
change-SameTrees h n c = set_inner-SameTrees h n (run c (header h n))

module _ (fuel : ℕ) (h : KernelHeapAllocator) (free_block request : ℕ) (s : Shape) where
  abbrev block_size : ℕ
  block_size = get_size (header h free_block)

  abbrev right : ℕ
  right = get_block_right_neighbor free_block request

  abbrev rest : ℕ
  rest = block_size - request - 16

  -- What a split comes to.
  pub record Split : Type 0 where
    pub result : KernelHeapAllocator
    pub shape : Shape
    pub runs :
        split_alloc fuel h free_block request ≡ done (result, get_block_start_addr free_block)
    pub given : get_size (header result free_block) ≡ request
    pub taken : is_allocated (header result free_block) ≡ true
    pub left_over : get_size (header result right) ≡ rest
    pub whole : request + 16 + rest ≡ block_size
    pub search : IsSearchTree alloc_header (tree result true) shape
    pub members : (n : ℕ) → mem n shape ≡ ((n == right) || mem n s)

  module _ (f : Freed fuel h right rest true s) (room : request + 128 ≤ block_size)
      (even : request % 16 ≡ 0) (small : request < u64_mod) (out : mem free_block s ≡ false)
      (real : free_block ≢ (tree f.result true).black_nil) (ne : free_block ≢ right) where
    abbrev sized : KernelHeapAllocator
    sized = change f.result free_block (resize request)

    abbrev headed : KernelHeapAllocator
    headed = change sized free_block (mark_left true)

    abbrev mapped : KernelHeapAllocator
    mapped = change headed right (mark_mapped true)

    abbrev final : KernelHeapAllocator
    final = change mapped free_block take

    runs_final :
        split_alloc fuel h free_block request ≡ done (final, get_block_start_addr free_block)
    unfolding split_alloc init_node_header
    runs_final = rw (le→leb (request + 128) block_size room, f.runs) refl

    final_same :
        (m : ℕ)
        → (get_size (header final m) ≡ get_size (header sized m))
          × (get_color (header final m) ≡ get_color (header sized m))
    final_same m =
        let a = flag-same mapped free_block take m tt in
        let b = flag-same headed right (mark_mapped true) m tt in
        let c = flag-same sized free_block (mark_left true) m tt in
        (a.0 ∙ b.0 ∙ c.0, a.1 ∙ b.1 ∙ c.1)

    sized_away : (m : ℕ) → (m == free_block) ≡ false → header sized m ≡ header f.result m
    sized_away m e =
        ground (arith, header-change f.result free_block (resize request) m (even, small))

    given_size : get_size (header final free_block) ≡ request
    given_size =
        let k : header sized free_block ≡ run (resize request) (header f.result free_block) =
          ground
            (arith, header-change f.result free_block (resize request) free_block (even, small)) in
        (final_same free_block).0
        ∙ ap get_size k
        ∙ (change-Shows f.result free_block (resize request) (even, small)).size

    taken_flag : is_allocated (header final free_block) ≡ true
    taken_flag =
        let k : header final free_block ≡ run take (header mapped free_block) =
          ground (arith, header-change mapped free_block take free_block tt) in
        ap is_allocated k ∙ (change-Shows mapped free_block take tt).allocated

    members_at : (n : ℕ) → mem n f.shape ≡ ((n == right) || mem n s)
    members_at n =
        sym (has-inorder n f.shape)
        ∙ ap (has n) f.order
        ∙ has-insert_by (size alloc_header (tree f.result true)) right n (inorder s)
        ∙ ap (λ x. (n == right) || x) (has-inorder n s)

    quiet : IsQuiet f.result final true f.shape
    quiet n m =
        let gone : (n == free_block) ≡ false = elim m [
          | inl k ↦ ne→== n free_block (
              ne_of_mem n free_block f.shape k
                (ground (arith, members_at free_block, out, ne→== free_block right ne)))
          | inr k ↦ ne→== n free_block (λ i. real (sym i ∙ k))
        ] in
        let e = sized_away n gone in
        ((final_same n).0 ∙ ap get_size e, (final_same n).1 ∙ ap get_color e)

    split_of : Split
    split_of = record {
      result = final;
      shape = f.shape;
      runs = runs_final;
      given = given_size;
      taken = taken_flag;
      left_over =
          (final_same right).0
          ∙ ap get_size (sized_away right (ne→== right free_block (λ i. ne (sym i))))
          ∙ f.header_size;
      whole = omega (arith, room);
      search =
          search_same f.result final true f.shape
            (SameTrees-trans (change-SameTrees f.result free_block (resize request)) (
              SameTrees-trans (change-SameTrees sized free_block (mark_left true)) (
                SameTrees-trans (change-SameTrees headed right (mark_mapped true))
                  (change-SameTrees mapped free_block take))))
            quiet f.search;
      members = members_at;
    }

  -- In a heap whose mapped blocks are a search tree, a request for a multiple of 16 bytes that
  -- leaves at least 128 bytes of a block, which is not in the tree, is served on any fuel above
  -- the number of nodes, where the block that is left is not in the tree either, with a footer
  -- that is no block and a block behind it: the given block has just the size of the request and
  -- is marked as allocated; the rest, less a header, is the size of the block behind it; and the
  -- mapped blocks are a search tree again, of the nodes that there were and that one.
  pub split_alloc-Splits :
      IsSearchTree alloc_header (tree h true) s
      → length (inorder s) < fuel
      → request + 128 ≤ block_size
      → request % 16 ≡ 0
      → mem free_block s ≡ false
      → free_block ≢ (tree h true).black_nil
      → free_block ≢ right
      → mem right s ≡ false
      → right ≢ (tree h true).black_nil
      → mem (virt_add right rest) s ≡ false
      → virt_add right rest ≢ (tree h true).black_nil
      → virt_add right rest ≢ right
      → get_block_right_neighbor right rest ≢ right
      → get_block_right_neighbor right rest ≢ virt_add right rest
      → Split
  split_alloc-Splits st enough room even out real ne r_out r_real f_out f_real f_right b_right
        b_foot =
      let bound = header_bound h free_block in
      let value = get_size-value (header h free_block) bound in
      let f =
        init_free_node-Freed h right rest (omega (arith, value, even, room))
          (omega (arith, value, bound)) true s st r_out r_real f_out f_real f_right b_right b_foot
          fuel enough in
      split_of f room even (omega (arith, value, bound, room)) out (λ z. real (z ∙ f.leaf_stays)) ne
