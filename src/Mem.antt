-- ===== src/Mem.antt =====
-- Memory management: src/mem and the physical frame pool of src/x86/paging/page_alloc.
pub mod Log2
pub mod Address
pub mod AllocHeader
pub mod Buddy
pub mod E820
pub mod Stack
pub mod Utils
pub mod RbTree
pub mod KernelHeap
pub mod FrameAlloc
