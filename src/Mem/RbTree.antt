-- ===== src/Mem/RbTree.antt =====
-- The red-black trees of the kernel heap: src/mem/vmalloc/rbtree.rs. A link is the address of a
-- node, `nodes` is the memory that the links point into, and `black_nil` is the node that all
-- leaves share. The two rotations, and the two branches of each repair, are mirror images in the
-- source, so each pair is one function of a side.
pub mod Insert
pub mod Links
pub mod Rotate
pub mod Shape
pub mod Turn
pub mod TurnRoot
pub mod TurnAt
pub mod TurnBelow
mod Examples
pub mod Headers
pub mod Kin
pub mod Holds
pub mod Order
pub mod Payload
pub mod Remove
use fzkernel.Base.{ℕ, ◌+◌, Bool, ◌==◌, if◌then◌else◌}
use fzkernel.Mem.AllocHeader.{NodeColor, red, black}

-- `trait NodePayload`: what the tree asks of the payload of a node
pub record NodePayload (P : Type 0) : Type 0 where
  pub null : P
  pub get_color : P → NodeColor
  pub set_color : P → NodeColor → P
  pub value : P → ℕ
  pub set_value : P → ℕ → P

pub record Node (P : Type 0) : Type 0 where
  pub header : P
  pub parent : ℕ
  pub left : ℕ
  pub right : ℕ

pub record RbTree (P : Type 0) : Type 0 where
  pub nodes : ℕ → Node P
  pub root : ℕ
  pub black_nil : ℕ
  pub count : ℕ

pub data Side : Type 0 where
  on_left on_right : Side

abbrev pub other : Side → Side
other on_left = on_right
other on_right = on_left

-- `matches!(color, NodeColor::Red)`
abbrev pub is_red_color : NodeColor → Bool
is_red_color red = Bool.true
is_red_color black = Bool.false

-- `null_mut()`
abbrev pub null_link : ℕ
null_link = 0

module _ {P : Type 0} where
  -- Reading and writing through a link: `get_node` and `get_node_mut`.
  unfoldable pub write : RbTree P → ℕ → Node P → RbTree P
  write t a n = record t { nodes = λ b. if b == a then n else t.nodes b }

  unfoldable pub parent : RbTree P → ℕ → ℕ
  parent t a = (t.nodes a).parent

  unfoldable pub child : RbTree P → Side → ℕ → ℕ
  child t on_left a = (t.nodes a).left
  child t on_right a = (t.nodes a).right

  unfoldable pub set_parent : RbTree P → ℕ → ℕ → RbTree P
  unfolding write
  set_parent t a p = let n = t.nodes a in write t a (record n { parent = p })

  unfoldable pub set_child : RbTree P → Side → ℕ → ℕ → RbTree P
  unfolding write
  set_child t on_left a c = let n = t.nodes a in write t a (record n { left = c })
  set_child t on_right a c = let n = t.nodes a in write t a (record n { right = c })

  unfoldable pub set_header : RbTree P → ℕ → P → RbTree P
  unfolding write
  set_header t a h = let n = t.nodes a in write t a (record n { header = h })

  -- `replacement` takes the place of `node` below the parent of `node`.
  unfoldable pub relink : RbTree P → Side → ℕ → ℕ → RbTree P
  relink t d node replacement =
      if parent t node == t.black_nil
      then record t { root = replacement }
      else if node == child t d (parent t node)
      then set_child t d (parent t node) replacement
      else set_child t (other d) (parent t node) replacement

  -- A child that is no leaf gets its parent.
  unfoldable pub adopt : RbTree P → ℕ → ℕ → RbTree P
  adopt t c p = if c == t.black_nil then t else set_parent t c p

  unfoldable pub rotate : RbTree P → Side → ℕ → RbTree P
  rotate t d center =
      let heir = child t (other d) center in
      let t = set_child t (other d) center (child t d heir) in
      let t = adopt t (child t d heir) center in
      let t = set_parent t heir (parent t center) in
      let t = relink t d center heir in
      let t = set_child t d heir center in set_parent t center heir

  unfoldable pub left_rotate : RbTree P → ℕ → RbTree P
  left_rotate t center = rotate t on_left center

  unfoldable pub right_rotate : RbTree P → ℕ → RbTree P
  right_rotate t center = rotate t on_right center

  module _ (I : NodePayload P) where
    unfoldable pub new_empty : Node P
    new_empty = record { header = I.null; parent = null_link; left = null_link; right = null_link }

    unfoldable pub new_isolated_with_value : ℕ → Node P
    new_isolated_with_value v = record {
      header = I.set_value I.null v;
      parent = null_link;
      left = null_link;
      right = null_link;
    }

    -- Two nodes are written to memory: the root, whose links are all to the leaf, and the leaf.
    unfoldable pub new_raw : (memory : ℕ → Node P) → (root_addr black_nil_addr : ℕ) → RbTree P
    unfolding write
    new_raw memory root_addr black_nil_addr =
        let t : RbTree P = record {
          nodes = memory;
          root = root_addr;
          black_nil = black_nil_addr;
          count = 1;
        } in
        let n : Node P = record {
          header = I.null;
          parent = black_nil_addr;
          left = black_nil_addr;
          right = black_nil_addr;
        } in
        write (write t root_addr n) black_nil_addr
          record { header = I.null; parent = null_link; left = null_link; right = null_link }

    unfoldable pub color : RbTree P → ℕ → NodeColor
    color t a = I.get_color (t.nodes a).header

    unfoldable pub is_red : RbTree P → ℕ → Bool
    is_red t a = is_red_color (I.get_color (t.nodes a).header)

    unfoldable pub size : RbTree P → ℕ → ℕ
    size t a = I.value (t.nodes a).header

    unfoldable pub paint : RbTree P → ℕ → NodeColor → RbTree P
    paint t a c = set_header t a (I.set_color (t.nodes a).header c)
