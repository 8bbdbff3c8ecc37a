-- ===== src/Mem/RbTree/Insert.antt =====
-- `insert_node` and the repair of the colors behind it.
pub mod Attach
pub mod Planted
pub mod Loop
pub mod Plant
pub mod Search
pub mod Descend
pub mod Repair
pub mod Rounds
use fzkernel.Base.{ℕ, zero, suc, ◌+◌, ◌==◌, ltb, if◌then◌else◌}
use fzkernel.Base.Outcome.{Outcome, done, hang, ◌>>=◌}
use fzkernel.Mem.AllocHeader.{red, black}
use fzkernel.Mem.RbTree.{
  NodePayload, RbTree, Side, on_left, on_right, other, parent, child, set_parent, set_child, rotate,
  is_red, size, paint,
}

module _ {P : Type 0} where
  unfoldable pub parent_side : RbTree P → ℕ → Side
  parent_side t new_node =
      if parent t new_node == child t on_left (parent t (parent t new_node))
      then on_left
      else on_right

module _ {P : Type 0} (I : NodePayload P) where
  -- The leaf where the walk from `at` ends, as the node above it.
  unfoldable pub descend : (fuel : ℕ) → RbTree P → (curr_size at above : ℕ) → Outcome ℕ
  descend zero t curr_size at above = hang
  descend (suc fuel) t curr_size at above =
      let below = child t (if ltb curr_size (size I t at) then on_left else on_right) at in
      let rest = descend fuel t curr_size below at in if at == t.black_nil then done above else rest

  -- The new node, red, below `above`.
  unfoldable pub attach : RbTree P → (new_node above : ℕ) → RbTree P
  attach t new_node above =
      let curr_size = size I t new_node in
      let t = set_parent t new_node above in
      let t =
        if above == t.black_nil
        then record t { root = new_node }
        else set_child t (if ltb curr_size (size I t above) then on_left else on_right) above
            new_node in
      let t = set_child t on_left new_node t.black_nil in
      let t = set_child t on_right new_node t.black_nil in paint I t new_node red

  -- The uncle is red: parent and uncle turn black, the grandparent red, and the repair goes on
  -- there.
  unfoldable pub recolor : RbTree P → (new_node uncle : ℕ) → RbTree P
  recolor t new_node uncle =
      let t = paint I t (parent t new_node) black in
      let t = paint I t uncle black in paint I t (parent t (parent t new_node)) red

  unfoldable pub turn_out : RbTree P → Side → ℕ → RbTree P
  turn_out t d new_node =
      let t = paint I t (parent t new_node) black in
      let t = paint I t (parent t (parent t new_node)) red in
      rotate t (other d) (parent t (parent t new_node))

  -- One round, where the parent is the child of the grandparent on the side `d`.
  unfoldable pub fix_insert_step : RbTree P → Side → ℕ → RbTree P × ℕ
  fix_insert_step t d new_node =
      let uncle = child t (other d) (parent t (parent t new_node)) in
      if is_red I t uncle
      then (recolor t new_node uncle, parent t (parent t new_node))
      else if new_node == child t (other d) (parent t new_node)
      then (turn_out (rotate t d (parent t new_node)) d (parent t new_node), parent t new_node)
      else (turn_out t d new_node, new_node)

  unfoldable pub fix_insert_loop : (fuel : ℕ) → RbTree P → ℕ → Outcome (RbTree P)
  fix_insert_loop zero t new_node = hang
  fix_insert_loop (suc fuel) t new_node =
      let next = fix_insert_step t (parent_side t new_node) new_node in
      let rest = fix_insert_loop fuel next.0 next.1 in
      if is_red I t (parent t new_node) then rest else done t

  unfoldable pub fix_insert_rb_violation : (fuel : ℕ) → RbTree P → ℕ → Outcome (RbTree P)
  fix_insert_rb_violation fuel t new_node = do
    t ← fix_insert_loop fuel t new_node
    done (paint I t t.root black)

  unfoldable pub insert_node : (fuel : ℕ) → RbTree P → ℕ → Outcome (RbTree P)
  insert_node fuel t new_node = do
    above ← descend fuel t (size I t new_node) t.root t.black_nil
    t ← fix_insert_rb_violation fuel (attach t new_node above) new_node
    done (record t { count = t.count + 1 })
