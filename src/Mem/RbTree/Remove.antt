-- ===== src/Mem/RbTree/Remove.antt =====
-- `remove_node`, the repair of the colors behind it, and `find_best_node_fit`.
pub mod BestFit
pub mod Walk
pub mod Single
use fzkernel.Base.{
  ℕ, zero, suc, ◌+◌, ◌-◌, Bool, not, ◌&&◌, ◌||◌, Option, none, some, ◌==◌, ltb, if◌then◌else◌, u64,
  u64_mod,
}
use fzkernel.Base.Outcome.{Outcome, done, hang, ◌>>=◌}
use fzkernel.Mem.AllocHeader.{red, black}
use fzkernel.Mem.RbTree.{
  NodePayload, RbTree, Side, on_left, on_right, other, parent, child, set_parent, set_child, rotate,
  relink, is_red, color, size, paint, null_link,
}

-- The size that fits best so far, and the node that has it.
pub record Best : Type 0 where
  pub closest_size_match : ℕ
  pub to_remove : ℕ

module _ {P : Type 0} where
  unfoldable pub get_subtree_min : (fuel : ℕ) → RbTree P → ℕ → Outcome ℕ
  get_subtree_min zero t subtree_root = hang
  get_subtree_min (suc fuel) t subtree_root =
      let rest = get_subtree_min fuel t (child t on_left subtree_root) in
      if child t on_left subtree_root == t.black_nil then done subtree_root else rest

  unfoldable pub swap_nodes : RbTree P → (node_to_remove replacement_node : ℕ) → RbTree P
  swap_nodes t node_to_remove replacement_node =
      let t = relink t on_left node_to_remove replacement_node in
      set_parent t replacement_node (parent t node_to_remove)

  unfoldable pub node_side : RbTree P → ℕ → Side
  node_side t node = if node == child t on_left (parent t node) then on_left else on_right

  -- The least node of the right subtree leaves its place, which its right child takes.
  unfoldable pub lift_min : RbTree P → (node_to_remove right_min : ℕ) → RbTree P
  lift_min t node_to_remove right_min =
      let extra_black = child t on_right right_min in
      if right_min == child t on_right node_to_remove
      then set_parent t extra_black right_min
      else (let t = swap_nodes t right_min (child t on_right right_min) in
          let t = set_child t on_right right_min (child t on_right node_to_remove) in
          set_parent t (child t on_right right_min) right_min)

module _ {P : Type 0} (I : NodePayload P) where
  -- A red sibling, seen from the child on the side `d`, is turned above the parent.
  unfoldable pub red_sibling : RbTree P → Side → (node sibling : ℕ) → RbTree P
  red_sibling t d node sibling =
      if is_red I t sibling
      then (let t = paint I t sibling black in
          let t = paint I t (parent t node) red in rotate t d (parent t node))
      else t

  -- A sibling whose far child is black gets its near child as the far one.
  unfoldable pub near_nephew : RbTree P → Side → ℕ → RbTree P
  near_nephew t d sibling =
      if is_red I t (child t (other d) sibling)
      then t
      else (let t = paint I t (child t d sibling) black in
          let t = paint I t sibling red in rotate t (other d) sibling)

  unfoldable pub far_nephew : RbTree P → Side → (node sibling : ℕ) → RbTree P
  far_nephew t d node sibling =
      let t = paint I t sibling (color I t (parent t node)) in
      let t = paint I t (parent t node) black in
      let t = paint I t (child t (other d) sibling) black in rotate t d (parent t node)

  -- One round, for a node on the side `d` of its parent.
  unfoldable pub fix_remove_step : RbTree P → Side → ℕ → RbTree P × ℕ
  fix_remove_step t d node =
      let t = red_sibling t d node (child t (other d) (parent t node)) in
      let sibling = child t (other d) (parent t node) in
      if is_red I t (child t on_left sibling) || is_red I t (child t on_right sibling)
      then (let t = near_nephew t d sibling in
          let t = far_nephew t d node (child t (other d) (parent t node)) in (t, t.root))
      else (paint I t sibling red, parent t node)

  unfoldable pub fix_remove_loop : (fuel : ℕ) → RbTree P → ℕ → Outcome (RbTree P)
  fix_remove_loop zero t node = hang
  fix_remove_loop (suc fuel) t node =
      let next = fix_remove_step t (node_side t node) node in
      let rest = fix_remove_loop fuel next.0 next.1 in
      if (node == t.root) || is_red I t node then done (paint I t node black) else rest

  -- A node with two children: `right_min` takes its place and its color.
  unfoldable pub replace_by_min : RbTree P → (node_to_remove right_min : ℕ) → RbTree P
  replace_by_min t node_to_remove right_min =
      let t = lift_min t node_to_remove right_min in
      let t = swap_nodes t node_to_remove right_min in
      let t = set_child t on_left right_min (child t on_left node_to_remove) in
      let t = set_parent t (child t on_left right_min) right_min in
      paint I t right_min (color I t node_to_remove)

  -- The repair follows where a black node has left its place.
  unfoldable pub repair :
      (fuel : ℕ) → RbTree P → (was_red : Bool) → (extra_black : ℕ) → Outcome (RbTree P)
  repair fuel t was_red extra_black = if was_red then done t else fix_remove_loop fuel t extra_black

  unfoldable pub unlink : (fuel : ℕ) → RbTree P → ℕ → Outcome (RbTree P)
  unlink fuel t node =
      let was_red = is_red I t node in
      if child t on_left node == t.black_nil
      then repair fuel (swap_nodes t node (child t on_right node)) was_red (child t on_right node)
      else if child t on_right node == t.black_nil
      then repair fuel (swap_nodes t node (child t on_left node)) was_red (child t on_left node)
      else do
        right_min ← get_subtree_min fuel t (child t on_right node)
        repair fuel (replace_by_min t node right_min) (is_red I t right_min)
            (child t on_right right_min)

  -- The tree, and the node that has left it.
  unfoldable pub remove_node : (fuel : ℕ) → RbTree P → ℕ → Outcome (RbTree P × ℕ)
  remove_node fuel t node_to_remove = do
    t ← unlink fuel t node_to_remove
    done (record t { count = u64 (t.count + (u64_mod - 1)) }, node_to_remove)

  unfoldable pub best_fit_loop : (fuel : ℕ) → RbTree P → (value walker : ℕ) → Best → Outcome Best
  best_fit_loop zero t value walker best = hang
  best_fit_loop (suc fuel) t value walker best =
      let walker_size = size I t walker in
      let here : Best = record { closest_size_match = walker_size; to_remove = walker } in
      let goes_left = ltb value walker_size in
      let next = if goes_left && ltb walker_size best.closest_size_match then here else best in
      let rest =
        best_fit_loop fuel t value (child t (if goes_left then on_left else on_right) walker)
          next in
      if walker == t.black_nil then done best else if value == walker_size then done here else rest

  unfoldable pub find_best_node_fit : (fuel : ℕ) → RbTree P → ℕ → Outcome (RbTree P × Option ℕ)
  find_best_node_fit fuel t value = if t.root == t.black_nil then done (t, none) else do
    best ←
        best_fit_loop fuel t value t.root
          record { closest_size_match = u64_mod - 1; to_remove = t.root }
    if ltb best.closest_size_match value || (best.closest_size_match == u64_mod - 1)
        then done (t, none)
        else (do (t, node) ← remove_node fuel t best.to_remove; done (t, some node))
