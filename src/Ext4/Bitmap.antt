-- ===== src/Ext4/Bitmap.antt =====
-- The bitmaps of a block group, src/fs/ext4/bitmap.rs: which blocks and which inodes are in use.
--
-- The bits are kept in a `Vob` of the crate `vob`, which is a parameter: the operations that the
-- bitmaps call, and what its documentation says of them. The checksum function is a parameter too.
pub mod Inodes
pub mod Blocks
mod Examples
use fzkernel.Base.{
  ℕ, zero, suc, ◌+◌, ◌*◌, ◌-◌, ◌/◌, ◌<◌, ◌≤◌, ◌≡◌, ◌≢◌, Bool, true, false, not, Option, none, some,
  List, [], ◌∷◌, ◌++◌, bit_or, ltb, leb, ◌==◌, if◌then◌else◌, take, length, map, ◌<<<◌,
}
use fzkernel.Base.Outcome.{Outcome, done, panic, ◌>>=◌, try_into}

-- The operations of a bit vector of type `V`. `set` returns what the crate's call answers, and
-- panics out of bounds (`none`); a range is its first index and the index behind it.
pub record Vob (V : Type 0) : Type 0 where
  pub len : V → ℕ
  pub get : V → ℕ → Option Bool
  pub set : V → ℕ → Bool → Option (Bool × V)
  pub iter_unset_bits : V → ℕ → ℕ → List ℕ
  pub set_bit_range : V → ℕ → ℕ → V
  pub clear_bit_range : V → ℕ → ℕ → V
  pub storage_bytes : V → List ℕ
  pub from_bytes : List ℕ → V

-- What the documentation of the crate says.
pub record IsVob {V : Type 0} (vob : Vob V) : Type 0 where
  pub get_in_bounds : (v : V) (i : ℕ) → i < vob.len v → (b : Bool) × (vob.get v i ≡ some b)
  pub set_in_bounds :
      (v : V) (i : ℕ) (b : Bool)
      → i < vob.len v
      → (answer : Bool) × (after : V) × (vob.set v i b ≡ some (answer, after))
  pub get-set :
      (v after : V) (i : ℕ) (b answer : Bool)
      → vob.set v i b ≡ some (answer, after)
      → vob.get after i ≡ some b
  pub get-set_other :
      (v after : V) (i j : ℕ) (b answer : Bool)
      → vob.set v i b ≡ some (answer, after)
      → i ≢ j
      → vob.get after j ≡ vob.get v j
  pub len-set :
      (v after : V) (i : ℕ) (b answer : Bool)
      → vob.set v i b ≡ some (answer, after)
      → vob.len after ≡ vob.len v

abbrev pub unwrap_or_false : Option Bool → Bool
unwrap_or_false none = false
unwrap_or_false (some b) = b

abbrev pub from_some : {A : Type 0} → Option A → Outcome A
from_some none = panic
from_some (some a) = done a

module _ {V : Type 0} (vob : Vob V) where
  unfoldable pub blk_in_use : V → ℕ → Bool
  blk_in_use bitmap blk = unwrap_or_false (vob.get bitmap blk)

  pub set_blk_in_use : V → ℕ → Outcome (Bool × V)
  set_blk_in_use bitmap blk = from_some (vob.set bitmap blk true)

  pub free_blk : V → ℕ → Outcome (Bool × V)
  free_blk bitmap blk = from_some (vob.set bitmap blk false)

  pub available_blks_in_range : V → ℕ → ℕ → List ℕ
  available_blks_in_range bitmap first last = vob.iter_unset_bits bitmap first last

  pub get_some_available_blks : V → ℕ → List ℕ
  get_some_available_blks bitmap count = take count (vob.iter_unset_bits bitmap 0 (vob.len bitmap))

  pub mark_blk_range_used : V → ℕ → ℕ → V
  mark_blk_range_used bitmap first last = vob.set_bit_range bitmap first last

  pub free_blk_range : V → ℕ → ℕ → V
  free_blk_range bitmap first last = vob.clear_bit_range bitmap first last

  pub free_some_blks : V → List ℕ → Outcome V
  unfolding free_blk
  free_some_blks bitmap [] = done bitmap
  free_some_blks bitmap (blk ∷ blks) = do r ← free_blk bitmap blk; free_some_blks r.1 blks

  pub count_free : V → Outcome ℕ
  count_free bitmap = try_into 4294967296 (length (vob.iter_unset_bits bitmap 0 (vob.len bitmap)))

  -- `reverse_bits` on every byte of the storage, cut to the bytes that the bitmap has. `crc32c` is
  -- the checksum function.
  pub validate_chksum : (List ℕ → ℕ) → (ℕ → ℕ) → V → List ℕ → ℕ → Bool
  validate_chksum crc32c reverse_bits bitmap fs_uuid on_disk_chksum =
      crc32c
        (take (16 + vob.len bitmap / 8) (fs_uuid ++ map reverse_bits (vob.storage_bytes bitmap)))
      == on_disk_chksum

-- `BlockBitmapChksumLo + BlockBitmapChksumHi`
pub chksum_of : ℕ → ℕ → ℕ
chksum_of lo hi = bit_or lo (hi <<< 16)
