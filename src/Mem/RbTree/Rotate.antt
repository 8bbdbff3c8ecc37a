-- ===== src/Mem/RbTree/Rotate.antt =====
-- What every link is after a rotation.
use fzkernel.Base.{ℕ, ◌≡◌, ◌≢◌, refl, ◌∙◌, not, ◌&&◌, ◌==◌, if◌then◌else◌, arith}
use fzkernel.Mem.RbTree.{
  RbTree, Side, other, parent, child, set_parent, set_child, relink, adopt, rotate,
}
use fzkernel.Mem.RbTree.Links.{
  parent-set_parent, child-set_parent, parent-set_child, child-set_child, other-set_child,
  child-set_other, nil-set_child, nil-set_parent, parent-adopt, child-adopt, nil-adopt,
  parent-relink, child-relink, other-relink, nil-relink,
}

module _ {P : Type 0} (t : RbTree P) (d : Side) (c : ℕ) where
  abbrev pub heir : ℕ
  heir = child t (other d) c

  abbrev pub mid : ℕ
  mid = child t d heir

  abbrev pub above : ℕ
  above = parent t c

  -- The memory before the node above gets its new child.
  abbrev pub taken : RbTree P
  taken = set_child t (other d) c mid

  abbrev pub adopted : RbTree P
  adopted = adopt taken mid c

  abbrev pub raised : RbTree P
  raised = set_parent adopted heir above

  abbrev pub linked : RbTree P
  linked = relink raised d c heir

  abbrev pub lowered : RbTree P
  lowered = set_child linked d heir c

  pub raised-nil : raised.black_nil ≡ t.black_nil
  raised-nil =
      nil-set_parent adopted heir above ∙ nil-adopt taken mid c ∙ nil-set_child t (other d) c mid

  pub raised-parent :
      (n : ℕ)
      → parent raised n ≡ (
          if n == heir
          then above
          else if not (mid == t.black_nil) && (n == mid)
          then c
          else parent t n)
  raised-parent n = ground (
    arith,
    parent-set_parent adopted heir above n,
    parent-adopt taken mid c n,
    parent-set_child t (other d) c mid n,
    nil-set_child t (other d) c mid,
  )

  pub raised-child : (n : ℕ) → child raised d n ≡ child t d n
  raised-child n =
      child-set_parent adopted d heir above n
      ∙ child-adopt taken mid c d n
      ∙ child-set_other t d c mid n

  pub raised-other :
      (n : ℕ) → child raised (other d) n ≡ (if n == c then mid else child t (other d) n)
  raised-other n =
      child-set_parent adopted (other d) heir above n
      ∙ child-adopt taken mid c (other d) n
      ∙ child-set_child t (other d) c mid n

  module _ (self : c ≢ heir) (apart : c ≢ mid) where
    pub steps : rotate t d c ≡ set_parent lowered c heir
    unfolding rotate
    steps =
        let e : parent adopted c ≡ above =
          ground (arith, parent-adopt taken mid c c, parent-set_child t (other d) c mid c) in
        rw (child-set_other t d c mid heir, e) refl

    pub raised_above : parent raised c ≡ above
    raised_above = ground (arith, raised-parent c)

    pub rotate-nil : (rotate t d c).black_nil ≡ t.black_nil
    rotate-nil = rw steps (
        nil-set_parent lowered c heir
        ∙ nil-set_child linked d heir c
        ∙ nil-relink raised d c heir
        ∙ raised-nil)

    pub rotate-parent :
        (n : ℕ)
        → parent (rotate t d c) n ≡ (
            if n == c
            then heir
            else if n == heir
            then above
            else if not (mid == t.black_nil) && (n == mid)
            then c
            else parent t n)
    rotate-parent n = rw steps (
        ground (
          arith,
          parent-set_parent lowered c heir n,
          parent-set_child linked d heir c n,
          parent-relink raised d c heir n,
          raised-parent n,
        ))

    pub rotate-child :
        (n : ℕ)
        → child (rotate t d c) d n ≡ (
            if n == heir
            then c
            else if not (above == t.black_nil) && (n == above) && (c == child t d above)
            then heir
            else child t d n)
    rotate-child n = rw steps (
        ground (
          arith,
          child-set_parent lowered d c heir n,
          child-set_child linked d heir c n,
          child-relink raised d c heir n,
          raised-child n,
          raised-child above,
          raised_above,
          raised-nil,
        ))

    pub rotate-other :
        (n : ℕ)
        → above ≢ c
        → child (rotate t d c) (other d) n ≡ (
            if n == c
            then mid
            else if not (above == t.black_nil) && (n == above) && not (c == child t d above)
            then heir
            else child t (other d) n)
    rotate-other n h = rw steps (
        ground (
          arith,
          child-set_parent lowered (other d) c heir n,
          other-set_child linked d heir c n,
          other-relink raised d c heir n,
          raised-other n,
          raised-child above,
          raised_above,
          raised-nil,
        ))
