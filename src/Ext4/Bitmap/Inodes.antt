-- ===== src/Ext4/Bitmap/Inodes.antt =====
-- The inode bitmap: the same operations, on inode numbers.
use fzkernel.Base.{ℕ, ◌+◌, ◌/◌, Bool, true, false, List, [], ◌∷◌, ◌++◌, take, length, map, ◌==◌}
use fzkernel.Base.Outcome.{Outcome, done, ◌>>=◌, try_into}
use fzkernel.Ext4.Bitmap.{Vob, unwrap_or_false, from_some}

module _ {V : Type 0} (vob : Vob V) where
  pub inode_in_use : V → ℕ → Bool
  inode_in_use bitmap inode = unwrap_or_false (vob.get bitmap inode)

  pub set_inode_in_use : V → ℕ → Outcome (Bool × V)
  set_inode_in_use bitmap inode = from_some (vob.set bitmap inode true)

  pub free_inode : V → ℕ → Outcome (Bool × V)
  free_inode bitmap inode = from_some (vob.set bitmap inode false)

  pub available_inodes_in_range : V → ℕ → ℕ → List ℕ
  available_inodes_in_range bitmap first last = vob.iter_unset_bits bitmap first last

  pub get_some_available_inodes : V → ℕ → List ℕ
  get_some_available_inodes bitmap count =
      take count (vob.iter_unset_bits bitmap 0 (vob.len bitmap))

  pub mark_inode_range_used : V → ℕ → ℕ → V
  mark_inode_range_used bitmap first last = vob.set_bit_range bitmap first last

  pub free_inode_range : V → ℕ → ℕ → V
  free_inode_range bitmap first last = vob.clear_bit_range bitmap first last

  pub free_some_inodes : V → List ℕ → Outcome V
  unfolding free_inode
  free_some_inodes bitmap [] = done bitmap
  free_some_inodes bitmap (inode ∷ inodes) = do
    r ← free_inode bitmap inode
    free_some_inodes r.1 inodes

  pub count_free_inodes : V → Outcome ℕ
  count_free_inodes bitmap =
      try_into 4294967296 (length (vob.iter_unset_bits bitmap 0 (vob.len bitmap)))

  pub validate_inode_chksum : (List ℕ → ℕ) → (ℕ → ℕ) → V → List ℕ → ℕ → Bool
  validate_inode_chksum crc32c reverse_bits bitmap fs_uuid on_disk_chksum =
      crc32c
        (take (16 + vob.len bitmap / 8) (fs_uuid ++ map reverse_bits (vob.storage_bytes bitmap)))
      == on_disk_chksum
