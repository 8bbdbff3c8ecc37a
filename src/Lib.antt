-- ===== src/Lib.antt =====
-- A verification library for FrozenBoot (fzboot), an x86 boot loader and kernel in Rust.
--
-- The kernel's memory comes from three allocators. At boot, a buddy allocator serves the heap of
-- the boot loader (src/mem/bmalloc/heap.rs). The kernel opens a pool of physical frames on the
-- largest RAM segment of the memory map (src/x86/paging/page_alloc/frame_alloc.rs, src/mem/e820.rs),
-- from which the page tables (src/x86/paging/page_table) take their frames. The kernel heap
-- (src/mem/vmalloc/kheap.rs) keeps a header word in every block, and its free blocks in red-black
-- trees by their sizes (src/mem/vmalloc/rbtree.rs). The scheduler
-- (src/fzboot/scheduler) switches tasks in the timer interrupt; src/fzboot/time makes dates of time
-- stamps and of the clock chip; src/fs/ext4 reads a file system.
--
-- Files, and the code that each models:
--
--   Base.antt, Base/            shared names, Boolean tests, lists by native numbers, the laws of
--                               `&`, `|` and `^`, and `Outcome`: a result, a panic or a hang
--   Mem/Log2.antt               log2 and next_power_of_two of src/mem/bmalloc/heap.rs
--   Mem/Buddy.antt, Mem/Buddy/  BuddyAllocator of src/mem/bmalloc/heap.rs, one definition per
--                               function; its children prove, from chains of links (Chain) and
--                               covers of addresses (Cover), what each operation does
--   Mem/Address.antt            VirtAddr, PhyAddr and PhyAddr32 of src/mem/mod.rs
--   Mem/Utils.antt              src/mem/utils.rs
--   Mem/AllocHeader.antt        AllocHeader of src/mem/vmalloc/kheap.rs
--   Mem/RbTree.antt             nodes, links and rotations of src/mem/vmalloc/rbtree.rs, and in
--                               Insert and Remove its operations; Shape, Kin and Turn to TurnAt are
--                               about the tree that the links make up, the children of Insert and
--                               Remove prove the operations, and Payload puts AllocHeader in
--   Mem/KernelHeap.antt         KernelHeapAllocator of src/mem/vmalloc/kheap.rs, over RbTree, and in
--                               Merge its kfree; Serve and Only are about its requests,
--                               Free about the blocks in the trees and Split about what is left of
--                               a block
--   Mem/Stack.antt              VirtualKernelStackAllocator of src/mem/stack.rs
--   Mem/E820.antt               src/mem/e820.rs
--   Mem/FrameAlloc.antt         BuddyFrameAllocator and, in Pool, the pool of
--                               src/x86/paging/page_alloc/frame_alloc.rs; View reads its memory
--                               through the mapping, and Refine compares it with Mem/Buddy
--   Paging/Entry.antt           PageTableEntry and PageTableFlags of src/x86/paging/page_table/mod.rs
--   Paging/Translate.antt       src/x86/paging/page_table/translate.rs
--   Paging/Mapper.antt          the mapping of single pages of src/x86/paging/page_table/mapper.rs;
--                               Levels, Enter, Uses, Reaches and Walk
--                               prove what it does to the tables
--   Time.antt, Time/Rtc.antt    src/fzboot/time/mod.rs and src/fzboot/time/rtc.rs
--   Ext4/Extent.antt            src/fs/ext4/extent.rs; Search and Mapping are about its search
--   Ext4/Bitmap.antt            BlockBitmap of src/fs/ext4/bitmap.rs, and in Inodes InodeBitmap
--   Scheduler.antt              src/fzboot/scheduler, with its round-robin strategy
--
-- Numbers are native natural numbers, with the wrap of a release build written out where a sum or a
-- cast can wrap. A pointer is its address and the null pointer is 0. State is passed on explicitly:
-- the memory that holds the links of free blocks is a function from addresses in the record of the
-- allocator, and page tables are a function from a table's address and an index to an entry.
--
-- Loops without a bound in the code are given fuel. The walk along a free list ends with fuel beyond
-- the length of the list, the levels of an allocator are the fuel of its loops, the binary search
-- takes the length of the list, and the scan of the memory map the number of its entries; where
-- fuel runs out the outcome is `hang`. The loops of a red-black tree end on fuel beyond the number of
-- its nodes. The traversal of an extent tree takes the depth of the tree.
--
-- Not modelled: locks and atomic accesses (one caller at a time), assembly, port and device access,
-- checksums and formatted output, and the parts of the kernel that no file above names. The bit
-- vector of the crate vob is a parameter of the bitmaps, with the laws of its documentation, and the
-- registers of a task are one value of any type. The kernel heap takes the allocation of frames as a
-- parameter, and keeps a list of the runs of frames that it maps.
--
-- Simplified: the mapping of the frame allocator is any function from addresses to addresses, of
-- which View has PhysicalMemoryMapping::convert as one. A page table is named by its physical
-- address, as the mapper reads it through a fixed offset, and the calls of alloc_page take frames
-- from a list. The kernel heap has one node at every address, so a footer, a header or the links of
-- a free block that lie over each other at different addresses are not seen, and the field `extra`
-- of its header is left out. The size of a request is not bounded where alloc_size_req_align rounds
-- it up, while a sum near 2^64 wraps in the code; no Layout has such a size.
pub mod Base
pub mod Mem
pub mod Time
pub mod Paging
pub mod Ext4
pub mod Scheduler
