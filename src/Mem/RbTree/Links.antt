-- ===== src/Mem/RbTree/Links.antt =====
-- What is read through a link after a link was written.
use fzkernel.Base.{ℕ, ◌≡◌, refl, not, ◌&&◌, ◌==◌, if◌then◌else◌, arith, Bool-cases, inl, inr}
use fzkernel.Mem.RbTree.{
  RbTree, Side, on_left, on_right, other, write, parent, child, set_parent, set_child, relink,
  adopt,
}

module _ {P : Type 0} (t : RbTree P) where
  pub parent-set_parent :
      (a p n : ℕ) → parent (set_parent t a p) n ≡ (if n == a then p else parent t n)
  unfolding parent set_parent write
  parent-set_parent a p n = ground arith

  pub child-set_parent : (e : Side) (a p n : ℕ) → child (set_parent t a p) e n ≡ child t e n
  unfolding child set_parent write
  child-set_parent on_left a p n = ground arith
  child-set_parent on_right a p n = ground arith

  pub parent-set_child : (d : Side) (a c n : ℕ) → parent (set_child t d a c) n ≡ parent t n
  unfolding parent set_child write
  parent-set_child on_left a c n = ground arith
  parent-set_child on_right a c n = ground arith

  pub child-set_child :
      (d : Side) (a c n : ℕ) → child (set_child t d a c) d n ≡ (if n == a then c else child t d n)
  unfolding child set_child write
  child-set_child on_left a c n = ground arith
  child-set_child on_right a c n = ground arith

  pub other-set_child :
      (d : Side) (a c n : ℕ) → child (set_child t d a c) (other d) n ≡ child t (other d) n
  unfolding child set_child write
  other-set_child on_left a c n = ground arith
  other-set_child on_right a c n = ground arith

  pub child-set_other : (d : Side) (a c n : ℕ) → child (set_child t (other d) a c) d n ≡ child t d n
  unfolding child set_child write
  child-set_other on_left a c n = ground arith
  child-set_other on_right a c n = ground arith

  pub nil-set_child : (d : Side) (a c : ℕ) → (set_child t d a c).black_nil ≡ t.black_nil
  unfolding set_child write
  nil-set_child on_left a c = refl
  nil-set_child on_right a c = refl

  pub nil-set_parent : (a p : ℕ) → (set_parent t a p).black_nil ≡ t.black_nil
  unfolding set_parent write
  nil-set_parent a p = refl

  pub parent-root : (r n : ℕ) → parent (record t { root = r }) n ≡ parent t n
  unfolding parent
  parent-root r n = refl

  pub child-root : (e : Side) (r n : ℕ) → child (record t { root = r }) e n ≡ child t e n
  unfolding child
  child-root on_left r n = refl
  child-root on_right r n = refl

  module _ (c p : ℕ) where
    pub parent-adopt :
        (n : ℕ)
        → parent (adopt t c p) n ≡ (if not (c == t.black_nil) && (n == c) then p else parent t n)
    unfolding adopt
    parent-adopt n = elim (Bool-cases (c == t.black_nil)) [
      | inl e ↦ rw e refl
      | inr e ↦ rw e (parent-set_parent c p n)
    ]

    pub child-adopt : (e : Side) (n : ℕ) → child (adopt t c p) e n ≡ child t e n
    unfolding adopt
    child-adopt d n = elim (Bool-cases (c == t.black_nil)) [
      | inl e ↦ rw e refl
      | inr e ↦ rw e (child-set_parent d c p n)
    ]

    pub nil-adopt : (adopt t c p).black_nil ≡ t.black_nil
    unfolding adopt
    nil-adopt = elim (Bool-cases (c == t.black_nil)) [
      | inl e ↦ rw e refl
      | inr e ↦ rw e (nil-set_parent c p)
    ]

  module _ (d : Side) (a r : ℕ) where
    pub parent-relink : (n : ℕ) → parent (relink t d a r) n ≡ parent t n
    unfolding relink
    parent-relink n = elim (Bool-cases (parent t a == t.black_nil)) [
      | inl e ↦ rw e (parent-root r n)
      | inr e ↦ rw e (elim (Bool-cases (a == child t d (parent t a))) [
        | inl f ↦ rw f (parent-set_child d (parent t a) r n)
        | inr f ↦ rw f (parent-set_child (other d) (parent t a) r n)
      ])
    ]

    pub child-relink :
        (n : ℕ)
        → child (relink t d a r) d n ≡ (
            if not (parent t a == t.black_nil) && (n == parent t a) && (a == child t d (parent t a))
            then r
            else child t d n)
    unfolding relink
    child-relink n = elim (Bool-cases (parent t a == t.black_nil)) [
      | inl e ↦ rw e (child-root d r n)
      | inr e ↦ rw e (elim (Bool-cases (a == child t d (parent t a))) [
        | inl f ↦ rw f (ground (arith, child-set_child d (parent t a) r n))
        | inr f ↦ rw f (ground (arith, child-set_other d (parent t a) r n))
      ])
    ]

    pub other-relink :
        (n : ℕ)
        → child (relink t d a r) (other d) n ≡ (
            if not (parent t a == t.black_nil)
              && (n == parent t a)
              && not (a == child t d (parent t a))
            then r
            else child t (other d) n)
    unfolding relink
    other-relink n = elim (Bool-cases (parent t a == t.black_nil)) [
      | inl e ↦ rw e (child-root (other d) r n)
      | inr e ↦ rw e (elim (Bool-cases (a == child t d (parent t a))) [
        | inl f ↦ rw f (ground (arith, other-set_child d (parent t a) r n))
        | inr f ↦ rw f (ground (arith, child-set_child (other d) (parent t a) r n))
      ])
    ]

    pub nil-relink : (relink t d a r).black_nil ≡ t.black_nil
    unfolding relink
    nil-relink = elim (Bool-cases (parent t a == t.black_nil)) [
      | inl e ↦ rw e refl
      | inr e ↦ rw e (elim (Bool-cases (a == child t d (parent t a))) [
        | inl f ↦ rw f (nil-set_child d (parent t a) r)
        | inr f ↦ rw f (nil-set_child (other d) (parent t a) r)
      ])
    ]
