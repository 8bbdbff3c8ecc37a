-- ===== src/Mem/KernelHeap/Free.antt =====
-- `init_free_node`: a free block goes into a tree, with its size at both ends.
use fzkernel.Base.{
  ℕ, ◌%◌, ◌≤◌, ◌<◌, ◌≡◌, ◌≢◌, ◌⊎◌, refl, sym, ◌∙◌, ap, fun_ext, Bool, true, false, not, List, [],
  ◌∷◌, length, ◌==◌, if◌then◌else◌, arith, Bool-cases, inl, inr, ==→eq, ne→==, u64_mod, All,
}
use fzkernel.Base.Outcome.{done}
use fzkernel.Mem.Address.{virt_add}
use fzkernel.Mem.AllocHeader.{red, get_size, get_color}
use fzkernel.Mem.AllocHeader.Refine.{
  Change, paint, resize, take, release, mark_mapped, mark_left, Shows, IsAllowed, run, meaning,
  run-Shows,
}
use fzkernel.Mem.RbTree.{RbTree, parent, child, size, is_red, is_red_color}
use fzkernel.Mem.RbTree.Payload.{
  AllocHeader, alloc_header, alloc_header-IsLawful, fields, fields-Shows,
}
use fzkernel.Mem.RbTree.Insert.Plant.{IsSorted, insert_by}
use fzkernel.Mem.RbTree.Insert.Descend.{IsSearchTree}
use fzkernel.Mem.RbTree.Insert.Search.{Inserted, insert_node-Inserts}
use fzkernel.Mem.RbTree.Holds.{tree_at}
use fzkernel.Mem.RbTree.Shape.{
  Shape, inorder, mem, has, has-inorder, root-cases, SameLinks, frame, ne_of_mem,
}
use fzkernel.Mem.KernelHeap.{
  KernelHeapAllocator, tree, put_tree, header, set_inner, change, init_node_end,
  get_block_right_neighbor, init_free_node,
}

header-set_inner :
    (h : KernelHeapAllocator) (n w m : ℕ)
    → w < u64_mod
    → header (set_inner h n w) m ≡ (if m == n then w else header h m)
unfolding header set_inner
header-set_inner h n w m small = ground arith

pub header_bound : (h : KernelHeapAllocator) (n : ℕ) → header h n < u64_mod
unfolding header
header_bound h n = (h.memory n).header.bound

pub change-Shows :
    (h : KernelHeapAllocator) (n : ℕ) (c : Change)
    → IsAllowed c
    → Shows (run c (header h n)) (meaning c (fields (header h n)))
change-Shows h n c a = run-Shows c (fields-Shows (header h n) (header_bound h n)) a

pub header-change :
    (h : KernelHeapAllocator) (n : ℕ) (c : Change) (m : ℕ)
    → IsAllowed c
    → header (change h n c) m ≡ (if m == n then run c (header h n) else header h m)
unfolding change
header-change h n c m a = header-set_inner h n (run c (header h n)) m (change-Shows h n c a).word

-- `u` has the links and the trees of `h`.
pub record SameTrees (h u : KernelHeapAllocator) : Type 0 where
  pub links : (b : Bool) (n : ℕ) → SameLinks (tree h b) (tree u b) n
  pub roots : (b : Bool) → (tree u b).root ≡ (tree h b).root
  pub leaves : (b : Bool) → (tree u b).black_nil ≡ (tree h b).black_nil

pub SameTrees-trans : {h u v : KernelHeapAllocator} → SameTrees h u → SameTrees u v → SameTrees h v
SameTrees-trans a c = record {
  links = λ b n. record {
    parent = (c.links b n).parent ∙ (a.links b n).parent;
    left = (c.links b n).left ∙ (a.links b n).left;
    right = (c.links b n).right ∙ (a.links b n).right;
  };
  roots = λ b. c.roots b ∙ a.roots b;
  leaves = λ b. c.leaves b ∙ a.leaves b;
}

set_inner-SameLinks :
    (h : KernelHeapAllocator) (n w m : ℕ) (b : Bool)
    → SameLinks (tree h b) (tree (set_inner h n w) b) m
unfolding set_inner tree parent child
set_inner-SameLinks h n w m b = record {
  parent = ground arith;
  left = ground arith;
  right = ground arith;
}

pub set_inner-SameTrees : (h : KernelHeapAllocator) (n w : ℕ) → SameTrees h (set_inner h n w)
unfolding set_inner tree
set_inner-SameTrees h n w = record {
  links = λ b m. set_inner-SameLinks h n w m b;
  roots = λ b. refl;
  leaves = λ b. refl;
}

pub size-header :
    (h : KernelHeapAllocator) (b : Bool) (n : ℕ)
    → size alloc_header (tree h b) n ≡ get_size (header h n)
unfolding size alloc_header tree header
size-header h b n = refl

is_red-header :
    (h : KernelHeapAllocator) (b : Bool) (n : ℕ)
    → is_red alloc_header (tree h b) n ≡ is_red_color (get_color (header h n))
unfolding is_red alloc_header tree header
is_red-header h b n = refl

sorted_same :
    (f g : ℕ → ℕ) (xs : List ℕ)
    → ((n : ℕ) → has n xs ≡ true → g n ≡ f n)
    → IsSorted f xs
    → IsSorted g xs
sorted_same f g [] e h = tt
sorted_same f g (x ∷ xs) e h = (
  all_same xs (λ n m. e n (ground (arith, m))) h.0,
  sorted_same f g xs (λ n m. e n (ground (arith, m))) h.1,
)
  where
    all_same :
        (ys : List ℕ)
        → ((n : ℕ) → has n ys ≡ true → g n ≡ f n)
        → All (λ y. f x ≤ f y) ys
        → All (λ y. g x ≤ g y) ys
    all_same [] k a = tt
    all_same (y ∷ ys) k a = (
      omega (arith, a.0, k y (ground arith), e x (ground arith)),
      all_same ys (λ n m. k n (ground (arith, m))) a.1,
    )

-- At a node of the tree, or its leaf, neither the size nor the color changes.
abbrev pub IsQuiet : KernelHeapAllocator → KernelHeapAllocator → Bool → Shape → Type 0
IsQuiet h u b s =
    (n : ℕ)
    → (mem n s ≡ true) ⊎ (n ≡ (tree h b).black_nil)
    → (get_size (header u n) ≡ get_size (header h n))
      × (get_color (header u n) ≡ get_color (header h n))

root_in :
    (h : KernelHeapAllocator) (b : Bool) (s : Shape)
    → IsSearchTree alloc_header (tree h b) s
    → (mem (tree h b).root s ≡ true) ⊎ ((tree h b).root ≡ (tree h b).black_nil)
root_in h b s st =
    elim (root-cases (tree h b) (tree h b).black_nil (tree h b).root s st.holds.tree) [
      | inl e ↦ inr e
      | inr e ↦ inl e
    ]

dark_same :
    (h u : KernelHeapAllocator) (b : Bool) (m n : ℕ)
    → m ≡ n
    → get_color (header u n) ≡ get_color (header h n)
    → is_red alloc_header (tree h b) n ≡ false
    → is_red alloc_header (tree u b) m ≡ false
dark_same h u b m n i e f =
    ap (is_red alloc_header (tree u b)) i
    ∙ is_red-header u b n
    ∙ ap is_red_color e
    ∙ sym (is_red-header h b n)
    ∙ f

pub search_same :
    (h u : KernelHeapAllocator) (b : Bool) (s : Shape)
    → SameTrees h u
    → IsQuiet h u b s
    → IsSearchTree alloc_header (tree h b) s
    → IsSearchTree alloc_header (tree u b) s
search_same h u b s k q st = record {
  holds = record {
    tree = tree_at (tree u b) s (sym (k.leaves b)) (sym (k.roots b)) (
        frame (tree h b) (tree u b) (tree h b).black_nil (tree h b).root s (k.leaves b)
          (λ n m. k.links b n) st.holds.tree);
    distinct = st.holds.distinct;
  };
  sorted =
      sorted_same (size alloc_header (tree h b)) (size alloc_header (tree u b)) (inorder s)
        (λ n m.
          size-header u b n ∙ (q n (inl (sym (has-inorder n s) ∙ m))).0 ∙ sym (size-header h b n))
        st.sorted;
  nil_black =
      dark_same h u b (tree u b).black_nil (tree h b).black_nil (k.leaves b)
        (q (tree h b).black_nil (inr refl)).1 st.nil_black;
  root_black =
      dark_same h u b (tree u b).root (tree h b).root (k.roots b)
        (q (tree h b).root (root_in h b s st)).1 st.root_black;
}

pub tree-put_tree :
    (h : KernelHeapAllocator) (b : Bool) (t : RbTree AllocHeader) → tree (put_tree h b t) b ≡ t
unfolding tree put_tree
tree-put_tree h true t = refl
tree-put_tree h false t = refl

other-put_tree :
    (h : KernelHeapAllocator) (b : Bool) (t : RbTree AllocHeader)
    → ((tree (put_tree h b t) (not b)).root ≡ (tree h (not b)).root)
      × ((tree (put_tree h b t) (not b)).count ≡ (tree h (not b)).count)
unfolding tree put_tree
other-put_tree h true t = (refl, refl)
other-put_tree h false t = (refl, refl)

pub size-put_tree :
    (h : KernelHeapAllocator) (b : Bool) (t : RbTree AllocHeader) (n : ℕ)
    → get_size (header (put_tree h b t) n) ≡ size alloc_header t n
unfolding header put_tree size alloc_header
size-put_tree h true t n = refl
size-put_tree h false t n = refl

-- What a call of `init_free_node` comes to.
pub record Freed (fuel : ℕ) (h : KernelHeapAllocator) (node z : ℕ) (b : Bool) (s : Shape)
    : Type 0 where
  pub result : KernelHeapAllocator
  pub shape : Shape
  pub runs : init_free_node fuel h node z b ≡ done result
  pub search : IsSearchTree alloc_header (tree result b) shape
  pub order : inorder shape ≡ insert_by (size alloc_header (tree result b)) node (inorder s)
  pub header_size : get_size (header result node) ≡ z
  pub footer_size : get_size (header result (virt_add node z)) ≡ z
  pub other_sizes :
      (n : ℕ) → n ≢ node → n ≢ virt_add node z → get_size (header result n) ≡ get_size (header h n)
  pub leaf_stays : (tree result b).black_nil ≡ (tree h b).black_nil
  pub other_root : (tree result (not b)).root ≡ (tree h (not b)).root

flag_step :
    (h : KernelHeapAllocator) (n : ℕ) (c : Change) (m : ℕ)
    → IsAllowed c
    → (meaning c (fields (header h n))).size ≡ get_size (header h n)
    → (meaning c (fields (header h n))).color ≡ get_color (header h n)
    → (get_size (header (change h n c) m) ≡ get_size (header h m))
      × (get_color (header (change h n c) m) ≡ get_color (header h m))
flag_step h n c m a sz co = elim (Bool-cases (m == n)) [
  | inl e ↦
      let i = ==→eq m n e in
      let k : header (change h n c) m ≡ run c (header h n) =
        ground (arith, header-change h n c m a) in
      let w = change-Shows h n c a in
      (
        ap get_size k ∙ w.size ∙ sz ∙ ap (λ x. get_size (header h x)) (sym i),
        ap get_color k ∙ w.color ∙ co ∙ ap (λ x. get_color (header h x)) (sym i),
      )
  | inr e ↦
      let k : header (change h n c) m ≡ header h m = ground (arith, header-change h n c m a) in
      (ap get_size k, ap get_color k)
]

-- A change of a flag leaves sizes and colors.
abbrev pub IsFlag : Change → Type 0
IsFlag (paint c) = ⊥
IsFlag (resize n) = ⊥
IsFlag _ = Unit

pub flag-same :
    (h : KernelHeapAllocator) (n : ℕ) (c : Change) (m : ℕ)
    → IsFlag c
    → (get_size (header (change h n c) m) ≡ get_size (header h m))
      × (get_color (header (change h n c) m) ≡ get_color (header h m))
unfolding fields
flag-same h n (paint c) m f = absurd f
flag-same h n (resize z) m f = absurd f
flag-same h n take m f = flag_step h n take m tt refl refl
flag-same h n release m f = flag_step h n release m tt refl refl
flag-same h n (mark_mapped b) m f = flag_step h n (mark_mapped b) m tt refl refl
flag-same h n (mark_left b) m f = flag_step h n (mark_left b) m tt refl refl

module _ (h : KernelHeapAllocator) (node z : ℕ) where
  abbrev sized : KernelHeapAllocator
  sized = change h node (resize z)

  abbrev hued : KernelHeapAllocator
  hued = change sized node (paint red)

  abbrev flagged : KernelHeapAllocator
  flagged = change hued node (mark_left true)

  abbrev foot : ℕ
  foot = virt_add node z

  abbrev behind : ℕ
  behind = get_block_right_neighbor node z

  abbrev ended : KernelHeapAllocator
  ended = init_node_end flagged node z

  abbrev ready : KernelHeapAllocator
  ready = change ended behind (mark_left false)

  module _ (whole : z % 16 ≡ 0) (small : z < u64_mod) where
    header_flagged : (m : ℕ) → (m == node) ≡ false → header flagged m ≡ header h m
    header_flagged m e = ground (
      arith,
      header-change hued node (mark_left true) m tt,
      header-change sized node (paint red) m tt,
      header-change h node (resize z) m (whole, small),
    )

    size_flagged : get_size (header flagged node) ≡ z
    unfolding fields
    size_flagged =
        let a : header flagged node ≡ run (mark_left true) (header hued node) =
          ground (arith, header-change hued node (mark_left true) node tt) in
        let b : header hued node ≡ run (paint red) (header sized node) =
          ground (arith, header-change sized node (paint red) node tt) in
        let c : header sized node ≡ run (resize z) (header h node) =
          ground (arith, header-change h node (resize z) node (whole, small)) in
        let d : get_size (header sized node) ≡ z =
          ap get_size c ∙ (change-Shows h node (resize z) (whole, small)).size in
        ap get_size a
        ∙ (change-Shows hued node (mark_left true) tt).size
        ∙ ap get_size b
        ∙ (change-Shows sized node (paint red) tt).size
        ∙ d

    module _ (b : Bool) (s : Shape) (st : IsSearchTree alloc_header (tree h b) s)
        (out : mem node s ≡ false) (real : node ≢ (tree h b).black_nil)
        (foot_out : mem (foot) s ≡ false) (foot_real : foot ≢ (tree h b).black_nil)
        (foot_node : foot ≢ node) (behind_node : behind ≢ node) (behind_foot : behind ≢ foot) where
      header_ended : (m : ℕ) → (m == foot) ≡ false → header ended m ≡ header flagged m
      unfolding init_node_end
      header_ended m e =
          ground (
            arith,
            header-set_inner flagged foot (header flagged node) m (header_bound flagged node),
          )

      foot-ended : header ended foot ≡ header flagged node
      unfolding init_node_end
      foot-ended = ground (
        arith,
        header-set_inner flagged foot (header flagged node) foot (header_bound flagged node),
      )

      -- Behind the block, only the flag of the left neighbour changes.
      ready_same :
          (m : ℕ)
          → (get_size (header ready m) ≡ get_size (header ended m))
            × (get_color (header ready m) ≡ get_color (header ended m))
      ready_same m = flag-same ended behind (mark_left false) m tt

      away :
          (n : ℕ)
          → (mem n s ≡ true) ⊎ (n ≡ (tree h b).black_nil)
          → ((n == node) ≡ false) × ((n == foot) ≡ false)
      away n (inl m) =
          (ne→== n node (ne_of_mem n node s m out), ne→== n foot (ne_of_mem n foot s m foot_out))
      away n (inr e) =
          (ne→== n node (λ i. real (sym i ∙ e)), ne→== n foot (λ i. foot_real (sym i ∙ e)))

      quiet : IsQuiet h ready b s
      quiet n m =
          let a = away n m in
          let e = header_ended n a.1 ∙ header_flagged n a.0 in
          let r = ready_same n in (r.0 ∙ ap get_size e, r.1 ∙ ap get_color e)

      ready-SameTrees : SameTrees h ready
      unfolding change init_node_end
      ready-SameTrees =
          SameTrees-trans (set_inner-SameTrees h node (run (resize z) (header h node))) (
            SameTrees-trans (set_inner-SameTrees sized node (run (paint red) (header sized node))) (
              SameTrees-trans
                (set_inner-SameTrees hued node (run (mark_left true) (header hued node)))
                (SameTrees-trans (set_inner-SameTrees flagged foot (header flagged node)) (
                  set_inner-SameTrees ended behind (run (mark_left false) (header ended behind))))))

      size_node : get_size (header ready node) ≡ z
      size_node =
          (ready_same node).0
          ∙ ap get_size (header_ended node (ne→== node foot (λ i. foot_node (sym i))))
          ∙ size_flagged

      size_foot : get_size (header ready foot) ≡ z
      size_foot = (ready_same foot).0 ∙ ap get_size foot-ended ∙ size_flagged

      inserted :
          (fuel : ℕ)
          → length (inorder s) < fuel
          → Inserted alloc_header alloc_header-IsLawful fuel (tree ready b) s node
      inserted fuel enough =
          insert_node-Inserts alloc_header alloc_header-IsLawful fuel (tree ready b) s node
            (search_same h ready b s ready-SameTrees quiet st)
            (λ i. real (i ∙ ready-SameTrees.leaves b)) out enough

      -- In a heap whose tree is a search tree, a block of a 64-bit size that is a multiple of 16,
      -- which is not in the tree, with a footer that is no block of the tree and a block behind
      -- it, goes into the tree on any fuel above the number of nodes: the tree is a search tree
      -- again, with the block behind those of its size; header and footer both have the size; no
      -- other size changes, nor does the leaf or the root of the other tree.
      pub init_free_node-Freed : (fuel : ℕ) → length (inorder s) < fuel → Freed fuel h node z b s
      unfolding init_free_node
      init_free_node-Freed fuel enough =
          let r = inserted fuel enough in
          let u = put_tree ready b r.result in
          let sizes : (n : ℕ) → get_size (header u n) ≡ get_size (header ready n) =
            λ n. size-put_tree ready b r.result n ∙ r.sizes n ∙ size-header ready b n in
          let same = tree-put_tree ready b r.result in
          let keys : size alloc_header (tree ready b) ≡ size alloc_header (tree u b) =
            fun_ext (λ n. sym (r.sizes n) ∙ ap (λ t. size alloc_header t n) (sym same)) in
          record {
            result = u;
            shape = r.shape;
            runs = rw r.runs refl;
            search = rw same r.search;
            order = r.order ∙ ap (λ k. insert_by k node (inorder s)) keys;
            header_size = sizes node ∙ size_node;
            footer_size = sizes foot ∙ size_foot;
            other_sizes = λ n a c.
                sizes n
                ∙ (ready_same n).0
                ∙ ap get_size (header_ended n (ne→== n foot c) ∙ header_flagged n (ne→== n node a));
            leaf_stays =
                ap (λ (t : RbTree AllocHeader). t.black_nil) same
                ∙ r.leaf_stays
                ∙ ready-SameTrees.leaves b;
            other_root = (other-put_tree ready b r.result).0 ∙ ready-SameTrees.roots (not b);
          }
