-- ===== src/Ext4.antt =====
-- The ext4 file system: src/fs/ext4.
pub mod Bytes
pub mod Extent
pub mod Bitmap
