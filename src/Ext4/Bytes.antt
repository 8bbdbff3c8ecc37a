-- ===== src/Ext4/Bytes.antt =====
-- Fields of a structure that is read from raw bytes (`bytemuck::from_bytes`), on a little-endian
-- machine. A slice that ends behind its bytes panics.
use fzkernel.Base.{ℕ, ◌+◌, ◌-◌, ◌*◌, List, length, get_or, take, drop, leb, if◌then◌else◌}
use fzkernel.Base.Outcome.{Outcome, done, panic}

abbrev pub slice : List ℕ → ℕ → ℕ → Outcome (List ℕ)
slice bytes first last =
    if leb first last
    then if leb last (length bytes) then done (take (last - first) (drop first bytes)) else panic
    else panic

abbrev pub le16 : List ℕ → ℕ → ℕ
le16 bytes i = get_or bytes i 0 + get_or bytes (i + 1) 0 * 256

abbrev pub le32 : List ℕ → ℕ → ℕ
le32 bytes i = le16 bytes i + le16 bytes (i + 2) * 65536
