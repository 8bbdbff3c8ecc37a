-- ===== src/Mem/RbTree/Insert/Attach.antt =====
-- The links after the new node is hung below the last node of the walk.
use fzkernel.Base.{
  ℕ, ◌≡◌, refl, ◌∙◌, inl, inr, Bool, true, false, not, ◌&&◌, ◌==◌, ltb, if◌then◌else◌, arith,
  Bool-cases,
}
use fzkernel.Mem.AllocHeader.{red}
use fzkernel.Mem.RbTree.{
  NodePayload, RbTree, on_left, on_right, parent, child, set_parent, set_child, size, is_red, paint,
}
use fzkernel.Mem.RbTree.Insert.{attach}
use fzkernel.Mem.RbTree.Links.{
  parent-set_parent, child-set_parent, parent-set_child, child-set_child, other-set_child,
  child-set_other, nil-set_child, nil-set_parent, parent-root, child-root,
}
use fzkernel.Mem.RbTree.Headers.{
  SameHeaders, same_trans, set_parent-SameHeaders, set_child-SameHeaders, root-set_child,
  root-set_parent, IsLawful, parent-paint, child-paint, is_red-paint, size-paint, root-paint,
  nil-paint, count-paint,
}
use fzkernel.Mem.RbTree.Holds.{SameSizes, sizes_trans, headers-SameSizes, headers-is_red}

-- The step that hangs the node below `q`, on the left where `b` holds.
module _ {P : Type 0} (t : RbTree P) (b : Bool) (q new_node : ℕ) where
  abbrev hook : RbTree P
  hook =
      if q == t.black_nil
      then record t { root = new_node }
      else set_child t (if b then on_left else on_right) q new_node

  hook-SameHeaders : SameHeaders t hook
  hook-SameHeaders = elim (Bool-cases (q == t.black_nil)) [
    | inl e ↦ rw e record { header = λ n. refl; nil = refl; count = refl }
    | inr e ↦ rw e (set_child-SameHeaders t (if b then on_left else on_right) q new_node)
  ]

  hook-root : hook.root ≡ (if q == t.black_nil then new_node else t.root)
  hook-root = elim (Bool-cases (q == t.black_nil)) [
    | inl e ↦ rw e refl
    | inr e ↦ rw e (root-set_child t (if b then on_left else on_right) q new_node)
  ]

  hook-parent : (n : ℕ) → parent hook n ≡ parent t n
  hook-parent n = elim (Bool-cases (q == t.black_nil)) [
    | inl e ↦ rw e (parent-root t new_node n)
    | inr e ↦ rw e (parent-set_child t (if b then on_left else on_right) q new_node n)
  ]

hook-left :
    {P : Type 0} (t : RbTree P) (b : Bool) (q new_node n : ℕ)
    → child (hook t b q new_node) on_left n
      ≡ (if not (q == t.black_nil) && (n == q) && b then new_node else child t on_left n)
hook-left t true q new_node n = elim (Bool-cases (q == t.black_nil)) [
  | inl e ↦ rw e (child-root t on_left new_node n)
  | inr e ↦ rw e (ground (arith, child-set_child t on_left q new_node n))
]
hook-left t false q new_node n = elim (Bool-cases (q == t.black_nil)) [
  | inl e ↦ rw e (child-root t on_left new_node n)
  | inr e ↦ rw e (ground (arith, child-set_other t on_left q new_node n))
]

hook-right :
    {P : Type 0} (t : RbTree P) (b : Bool) (q new_node n : ℕ)
    → child (hook t b q new_node) on_right n
      ≡ (if not (q == t.black_nil) && (n == q) && not b then new_node else child t on_right n)
hook-right t true q new_node n = elim (Bool-cases (q == t.black_nil)) [
  | inl e ↦ rw e (child-root t on_right new_node n)
  | inr e ↦ rw e (ground (arith, other-set_child t on_left q new_node n))
]
hook-right t false q new_node n = elim (Bool-cases (q == t.black_nil)) [
  | inl e ↦ rw e (child-root t on_right new_node n)
  | inr e ↦ rw e (ground (arith, child-set_child t on_right q new_node n))
]

module _ {P : Type 0} (I : NodePayload P) (law : IsLawful I) (t : RbTree P) (new_node q : ℕ) where
  abbrev side : Bool
  side = ltb (size I t new_node) (size I t q)

  abbrev hung : RbTree P
  hung = set_parent t new_node q

  abbrev hooked : RbTree P
  hooked = hook hung side q new_node

  abbrev left_set : RbTree P
  left_set = set_child hooked on_left new_node hooked.black_nil

  abbrev both_set : RbTree P
  both_set = set_child left_set on_right new_node left_set.black_nil

  attach-paint : attach I t new_node q ≡ paint I both_set new_node red
  unfolding attach
  attach-paint =
      let e : size I hung q ≡ size I t q =
        (headers-SameSizes I t hung (set_parent-SameHeaders t new_node q)).size q in
      rw e refl

  set-SameHeaders : SameHeaders t both_set
  set-SameHeaders = same_trans (set_parent-SameHeaders t new_node q) (
      same_trans (hook-SameHeaders hung side q new_node) (
        same_trans (set_child-SameHeaders hooked on_left new_node hooked.black_nil)
          (set_child-SameHeaders left_set on_right new_node left_set.black_nil)))

  pub attach-nil : (attach I t new_node q).black_nil ≡ t.black_nil
  attach-nil = rw attach-paint (nil-paint I law both_set new_node red ∙ set-SameHeaders.nil)

  pub attach-SameSizes : SameSizes I t (attach I t new_node q)
  attach-SameSizes = rw attach-paint (
      sizes_trans I (headers-SameSizes I t both_set set-SameHeaders) record {
        size = size-paint I law both_set new_node red;
        nil = nil-paint I law both_set new_node red;
        count = count-paint I law both_set new_node red;
      })

  pub attach-is_red :
      (n : ℕ) → is_red I (attach I t new_node q) n ≡ (if n == new_node then true else is_red I t n)
  attach-is_red n = rw attach-paint (
      ground (
        arith,
        is_red-paint I law both_set new_node red n,
        headers-is_red I t both_set set-SameHeaders n,
      ))

  pub attach-root : (attach I t new_node q).root ≡ (if q == t.black_nil then new_node else t.root)
  attach-root = rw attach-paint (
      root-paint I law both_set new_node red
      ∙ root-set_child left_set on_right new_node left_set.black_nil
      ∙ root-set_child hooked on_left new_node hooked.black_nil
      ∙ ground (
        arith,
        hook-root hung side q new_node,
        root-set_parent t new_node q,
        nil-set_parent t new_node q,
      ))

  pub attach-parent :
      (n : ℕ) → parent (attach I t new_node q) n ≡ (if n == new_node then q else parent t n)
  attach-parent n = rw attach-paint (
      parent-paint I law both_set new_node red n
      ∙ parent-set_child left_set on_right new_node left_set.black_nil n
      ∙ parent-set_child hooked on_left new_node hooked.black_nil n
      ∙ hook-parent hung side q new_node n
      ∙ parent-set_parent t new_node q n)

  nil_hooked : hooked.black_nil ≡ t.black_nil
  nil_hooked = (hook-SameHeaders hung side q new_node).nil ∙ nil-set_parent t new_node q

  pub attach-left :
      (n : ℕ)
      → child (attach I t new_node q) on_left n ≡ (
          if n == new_node
          then t.black_nil
          else if not (q == t.black_nil) && (n == q) && side
          then new_node
          else child t on_left n)
  attach-left n = rw attach-paint (
      child-paint I law both_set new_node red on_left n
      ∙ child-set_other left_set on_left new_node left_set.black_nil n
      ∙ ground (
        arith,
        child-set_child hooked on_left new_node hooked.black_nil n,
        nil_hooked,
        hook-left hung side q new_node n,
        child-set_parent t on_left new_node q n,
        nil-set_parent t new_node q,
      ))

  pub attach-right :
      (n : ℕ)
      → child (attach I t new_node q) on_right n ≡ (
          if n == new_node
          then t.black_nil
          else if not (q == t.black_nil) && (n == q) && not side
          then new_node
          else child t on_right n)
  attach-right n = rw attach-paint (
      child-paint I law both_set new_node red on_right n
      ∙ ground (
        arith,
        child-set_child left_set on_right new_node left_set.black_nil n,
        other-set_child hooked on_left new_node hooked.black_nil n,
        nil-set_child hooked on_left new_node hooked.black_nil,
        nil_hooked,
        hook-right hung side q new_node n,
        child-set_parent t on_right new_node q n,
        nil-set_parent t new_node q,
      ))
