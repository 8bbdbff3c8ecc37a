-- ===== src/Ext4/Extent.antt =====
-- Extents of src/fs/ext4/extent.rs: the blocks of the extent tree, the traversal that collects the
-- extents of an inode, and the search for the extent of a block.
pub mod Search
pub mod Mapping
mod Examples
use fzkernel.Base.{
  ℕ, zero, suc, ◌+◌, ◌-◌, ◌*◌, ◌/◌, Bool, true, false, not, ◌&&◌, Option, none, some, List, [], ◌∷◌,
  ◌++◌, length, get_elem?, bit_or, ltb, leb, ◌==◌, if◌then◌else◌, u32, u64, u64_mod, ◌<<<◌,
}
use fzkernel.Base.Outcome.{Outcome, done, panic, hang, ◌>>=◌}
use fzkernel.Ext4.Bytes.{slice, le16, le32}

pub record Extent : Type 0 where
  pub block : ℕ
  pub len : ℕ
  pub start_hi : ℕ
  pub start_lo : ℕ

pub record ExtentIdx : Type 0 where
  pub block : ℕ
  pub leaf_lo : ℕ
  pub leaf_hi : ℕ
  pub unused : ℕ

pub record ExtentHeader : Type 0 where
  pub magic : ℕ
  pub entries : ℕ
  pub max : ℕ
  pub depth : ℕ
  pub generation : ℕ

abbrev pub valid_ext4_magic : ℕ
valid_ext4_magic = 62218

pub header_of : List ℕ → ExtentHeader
header_of bytes = record {
  magic = le16 bytes 0;
  entries = le16 bytes 2;
  max = le16 bytes 4;
  depth = le16 bytes 6;
  generation = le32 bytes 8;
}

-- `ExtentHeader::load`
pub load : List ℕ → Option ExtentHeader
unfolding header_of
load bytes = if (header_of bytes).magic == valid_ext4_magic then some (header_of bytes) else none

pub is_leaf : ExtentHeader → Bool
is_leaf header = header.depth == 0

-- The error with the depth as it was, or the new depth.
pub set_depth : ExtentHeader → ℕ → Bool × ExtentHeader
set_depth header new_depth =
    if ltb 5 new_depth then (false, header) else (true, record header { depth = new_depth })

pub get_header : List ℕ → Outcome ExtentHeader
unfolding header_of
get_header blk = do bytes ← slice blk 0 12; done (header_of bytes)

pub get_entry_bytes : List ℕ → ℕ → Outcome (Option (List ℕ))
unfolding get_header
get_entry_bytes blk entry = do
  header ← get_header blk
  if leb header.entries entry
      then done none
      else (do bytes ← slice blk (12 + entry * 12) (12 + (1 + entry) * 12); done (some bytes))

pub as_extent : List ℕ → Extent
as_extent bytes = record {
  block = le32 bytes 0;
  len = le16 bytes 4;
  start_hi = le16 bytes 6;
  start_lo = le32 bytes 8;
}

pub as_extent_idx : List ℕ → ExtentIdx
as_extent_idx bytes = record {
  block = le32 bytes 0;
  leaf_lo = le32 bytes 4;
  leaf_hi = le16 bytes 8;
  unused = le16 bytes 10;
}

pub is_initialized : ℕ → Bool
is_initialized len = leb len 32768

pub ext_length : ℕ → ℕ
unfolding is_initialized
ext_length len = if is_initialized len then len else len - 32768

-- `Ext4ExtentPtrLo + Ext4ExtentPtrHi`
pub start_blk : Extent → ℕ
start_blk e = bit_or e.start_lo (e.start_hi <<< 32)

pub leaf : ExtentIdx → ℕ
leaf e = bit_or e.leaf_lo (e.leaf_hi <<< 32)

pub contains : Extent → ℕ → Bool
contains e blk_id = leb e.block blk_id && leb blk_id (u32 (e.block + e.len))

-- What a traversal leaves: whether it came to its end (`Some(())`), and the extents pushed.
-- `for entry in 0..entries` over a leaf.
pub push_extents : List ℕ → ℕ → ℕ → List Extent → Outcome (Bool × List Extent)
unfolding get_entry_bytes as_extent
push_extents blk zero entry extents = done (true, extents)
push_extents blk (suc left) entry extents = do
  bytes ← get_entry_bytes blk entry
  elim bytes [
    | none ↦ done (false, extents)
    | some b ↦ push_extents blk left (suc entry) (extents ++ (as_extent b ∷ []))
  ]

-- The loop over the entries of an inner block. `read_blk` is the device: a block's bytes, or an
-- error. What the traversal of the lower layer returns is not read, nor whether the checksum was
-- right.
pub traverse_entries :
    (ℕ → Option (List ℕ))
    → (List ℕ → List Extent → Outcome (Bool × List Extent))
    → List ℕ
    → ℕ
    → ℕ
    → List Extent
    → Outcome (Bool × List Extent)
unfolding get_entry_bytes as_extent_idx leaf
traverse_entries read_blk lower blk zero entry extents = done (true, extents)
traverse_entries read_blk lower blk (suc left) entry extents = do
  bytes ← get_entry_bytes blk entry
  elim bytes [
    | none ↦ done (false, extents)
    | some b ↦ elim (read_blk (leaf (as_extent_idx b))) [
      | none ↦ done (false, extents)
      | some data_blk ↦ (do
        r ← lower data_blk extents
        traverse_entries read_blk lower blk left (suc entry) r.1)
    ]
  ]

-- The fuel bounds the depth.
pub traverse_extent_layer :
    ℕ → (ℕ → Option (List ℕ)) → List ℕ → List Extent → Outcome (Bool × List Extent)
unfolding get_header is_leaf push_extents traverse_entries
traverse_extent_layer zero read_blk blk extents = hang
traverse_extent_layer (suc fuel) read_blk blk extents = do
  header ← get_header blk
  if is_leaf header
      then push_extents blk header.entries 0 extents
      else traverse_entries read_blk (traverse_extent_layer fuel read_blk) blk header.entries 0
          extents

pub data Ordering : Type 0 where
  less equal greater : Ordering

-- The closure of `get_exact_blk_mapping`
pub compare_extent : ℕ → Extent → Ordering
unfolding contains
compare_extent blk_id ext =
    if contains ext blk_id then equal else if ltb blk_id ext.block then greater else less

abbrev pub is_greater : Ordering → Bool
is_greater greater = true
is_greater _ = false

abbrev pub is_equal : Ordering → Bool
is_equal equal = true
is_equal _ = false

abbrev pub nth_greater : List Extent → ℕ → ℕ → Bool
nth_greater extents blk_id i = elim (get_elem? extents i) [
  | none ↦ true
  | some e ↦ is_greater (compare_extent blk_id e)
]

-- The search of the standard library, which halves `size` until one element is left.
pub search_loop : ℕ → (ℕ → Bool) → ℕ → ℕ → Outcome ℕ
search_loop zero above base size = hang
search_loop (suc fuel) above base size =
    let half = size / 2 in
    let mid = base + half in
    let rest = search_loop fuel above (if above mid then base else mid) (size - half) in
    if ltb 1 size then rest else done base

-- The last comparison of the search.
pub check : ℕ → ℕ → Option Extent → Outcome (Option ℕ)
check blk_id base none = panic
check blk_id base (some x) =
    if is_equal (compare_extent blk_id x) then done (some base) else done none

-- `binary_search_by`: the index of an element that compares equal.
pub binary_search_by : List Extent → ℕ → Outcome (Option ℕ)
binary_search_by [] blk_id = done none
binary_search_by (e ∷ es) blk_id = do
  base ← search_loop (length (e ∷ es)) (nth_greater (e ∷ es) blk_id) 0 (length (e ∷ es))
  check blk_id base (get_elem? (e ∷ es) base)

-- `extent.start_blk() + offset_in_extent`, for the extent that was found.
pub physical : ℕ → Option Extent → Option ℕ
physical blk_id none = none
physical blk_id (some e) = some (u64 (start_blk e + u64 (blk_id + (u64_mod - e.block))))

pub get_exact_blk_mapping : List Extent → ℕ → Outcome (Option ℕ)
get_exact_blk_mapping extents blk_id = do
  ext_id ← binary_search_by extents blk_id
  elim ext_id [ none ↦ done none | some i ↦ done (physical blk_id (get_elem? extents i)) ]
