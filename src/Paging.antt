-- ===== src/Paging.antt =====
-- Paging: src/x86/paging and src/x86/paging/page_table.
pub mod Entry
pub mod Translate
pub mod Mapper
mod Examples
