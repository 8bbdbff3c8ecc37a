-- ===== src/Mem/RbTree/Headers.antt =====
-- What the operations on links leave alone, and what `paint` does.
use fzkernel.Base.{
  ℕ, ◌≡◌, ◌≢◌, refl, sym, ◌∙◌, ap, ◌==◌, if◌then◌else◌, arith, Bool-cases, inl, inr, ==→eq,
}
use fzkernel.Mem.AllocHeader.{NodeColor, black}
use fzkernel.Mem.RbTree.{
  NodePayload, RbTree, Side, on_left, on_right, other, write, parent, child, set_parent, set_child,
  set_header, relink, adopt, rotate, is_red, is_red_color, size, paint,
}
use fzkernel.Mem.RbTree.Rotate.{
  heir, mid, above, taken, adopted, raised, linked, lowered, steps, raised_above, raised-nil,
}

-- `u` has the payloads and the number of nodes of `t`.
pub record SameHeaders {P : Type 0} (t u : RbTree P) : Type 0 where
  pub header : (n : ℕ) → (u.nodes n).header ≡ (t.nodes n).header
  pub nil : u.black_nil ≡ t.black_nil
  pub count : u.count ≡ t.count

module _ {P : Type 0} where
  pub same_refl : (t : RbTree P) → SameHeaders t t
  same_refl t = record { header = λ n. refl; nil = refl; count = refl }

  pub same_trans : {t u v : RbTree P} → SameHeaders t u → SameHeaders u v → SameHeaders t v
  same_trans a b = record {
    header = λ n. b.header n ∙ a.header n;
    nil = b.nil ∙ a.nil;
    count = b.count ∙ a.count;
  }

  pub set_parent-SameHeaders : (t : RbTree P) (a p : ℕ) → SameHeaders t (set_parent t a p)
  unfolding set_parent write
  set_parent-SameHeaders t a p = record { header = λ n. ground arith; nil = refl; count = refl }

  pub set_child-SameHeaders :
      (t : RbTree P) (d : Side) (a c : ℕ) → SameHeaders t (set_child t d a c)
  unfolding set_child write
  set_child-SameHeaders t on_left a c = record {
    header = λ n. ground arith;
    nil = refl;
    count = refl;
  }
  set_child-SameHeaders t on_right a c = record {
    header = λ n. ground arith;
    nil = refl;
    count = refl;
  }

  pub adopt-SameHeaders : (t : RbTree P) (c p : ℕ) → SameHeaders t (adopt t c p)
  unfolding adopt
  adopt-SameHeaders t c p = elim (Bool-cases (c == t.black_nil)) [
    | inl e ↦ rw e (same_refl t)
    | inr e ↦ rw e (set_parent-SameHeaders t c p)
  ]

  pub relink-SameHeaders : (t : RbTree P) (d : Side) (a r : ℕ) → SameHeaders t (relink t d a r)
  unfolding relink
  relink-SameHeaders t d a r = elim (Bool-cases (parent t a == t.black_nil)) [
    | inl e ↦ rw e record { header = λ n. refl; nil = refl; count = refl }
    | inr e ↦ rw e (elim (Bool-cases (a == child t d (parent t a))) [
      | inl f ↦ rw f (set_child-SameHeaders t d (parent t a) r)
      | inr f ↦ rw f (set_child-SameHeaders t (other d) (parent t a) r)
    ])
  ]

  pub rotate-SameHeaders :
      (t : RbTree P) (d : Side) (c : ℕ)
      → c ≢ heir t d c
      → c ≢ mid t d c
      → SameHeaders t (rotate t d c)
  rotate-SameHeaders t d c self apart = rw (steps t d c self apart) (
      same_trans (set_child-SameHeaders t (other d) c (mid t d c)) (
        same_trans (adopt-SameHeaders (taken t d c) (mid t d c) c) (
          same_trans (set_parent-SameHeaders (adopted t d c) (heir t d c) (above t d c)) (
            same_trans (relink-SameHeaders (raised t d c) d c (heir t d c)) (
              same_trans (set_child-SameHeaders (linked t d c) d (heir t d c) c)
                (set_parent-SameHeaders (lowered t d c) c (heir t d c)))))))

  pub root-set_parent : (t : RbTree P) (a p : ℕ) → (set_parent t a p).root ≡ t.root
  unfolding set_parent write
  root-set_parent t a p = refl

  pub root-set_child : (t : RbTree P) (d : Side) (a c : ℕ) → (set_child t d a c).root ≡ t.root
  unfolding set_child write
  root-set_child t on_left a c = refl
  root-set_child t on_right a c = refl

  root-adopt : (t : RbTree P) (c p : ℕ) → (adopt t c p).root ≡ t.root
  unfolding adopt
  root-adopt t c p = elim (Bool-cases (c == t.black_nil)) [
    | inl e ↦ rw e refl
    | inr e ↦ rw e (root-set_parent t c p)
  ]

  pub root-relink :
      (t : RbTree P) (d : Side) (a r : ℕ)
      → (relink t d a r).root ≡ (if parent t a == t.black_nil then r else t.root)
  unfolding relink
  root-relink t d a r = elim (Bool-cases (parent t a == t.black_nil)) [
    | inl e ↦ rw e refl
    | inr e ↦ rw e (elim (Bool-cases (a == child t d (parent t a))) [
      | inl f ↦ rw f (root-set_child t d (parent t a) r)
      | inr f ↦ rw f (root-set_child t (other d) (parent t a) r)
    ])
  ]

  pub rotate-root :
      (t : RbTree P) (d : Side) (c : ℕ)
      → c ≢ heir t d c
      → c ≢ mid t d c
      → (rotate t d c).root ≡ (if above t d c == t.black_nil then heir t d c else t.root)
  rotate-root t d c self apart = rw (steps t d c self apart) (
      root-set_parent (lowered t d c) c (heir t d c)
      ∙ root-set_child (linked t d c) d (heir t d c) c
      ∙ root-relink (raised t d c) d c (heir t d c)
      ∙ ground (
        arith,
        raised_above t d c self apart,
        raised-nil t d c,
        root-set_parent (adopted t d c) (heir t d c) (above t d c),
        root-adopt (taken t d c) (mid t d c) c,
        root-set_child t (other d) c (mid t d c),
      ))

-- What the methods of the payload must do.
pub record IsLawful {P : Type 0} (I : NodePayload P) : Type 0 where
  pub null_black : I.get_color I.null ≡ black
  pub color_set : (h : P) (c : NodeColor) → I.get_color (I.set_color h c) ≡ c
  pub value_set : (h : P) (c : NodeColor) → I.value (I.set_color h c) ≡ I.value h

module _ {P : Type 0} (I : NodePayload P) (law : IsLawful I) (t : RbTree P) (a : ℕ)
    (c : NodeColor) where
  pub parent-paint : (n : ℕ) → parent (paint I t a c) n ≡ parent t n
  unfolding paint set_header write parent
  parent-paint n = ground arith

  pub child-paint : (e : Side) (n : ℕ) → child (paint I t a c) e n ≡ child t e n
  unfolding paint set_header write child
  child-paint on_left n = ground arith
  child-paint on_right n = ground arith

  header-paint :
      (n : ℕ)
      → ((paint I t a c).nodes n).header
        ≡ (if n == a then I.set_color (t.nodes a).header c else (t.nodes n).header)
  unfolding paint set_header write
  header-paint n = ground arith

  pub is_red-paint :
      (n : ℕ) → is_red I (paint I t a c) n ≡ (if n == a then is_red_color c else is_red I t n)
  unfolding is_red
  is_red-paint n = elim (Bool-cases (n == a)) [
    | inl e ↦
        let h = header-paint n in
        let k : ((paint I t a c).nodes n).header ≡ I.set_color (t.nodes a).header c =
          ground arith in
        rw e (
          ap (λ x. is_red_color (I.get_color x)) k
          ∙ ap is_red_color (law.color_set (t.nodes a).header c))
    | inr e ↦
        let h = header-paint n in
        let k : ((paint I t a c).nodes n).header ≡ (t.nodes n).header = ground arith in
        rw e (ap (λ x. is_red_color (I.get_color x)) k)
  ]

  pub size-paint : (n : ℕ) → size I (paint I t a c) n ≡ size I t n
  unfolding size
  size-paint n = elim (Bool-cases (n == a)) [
    | inl e ↦
        let h = header-paint n in
        let k : ((paint I t a c).nodes n).header ≡ I.set_color (t.nodes a).header c =
          ground arith in
        ap I.value k
        ∙ law.value_set (t.nodes a).header c
        ∙ ap (λ x. I.value (t.nodes x).header) (sym (==→eq n a e))
    | inr e ↦
        let h = header-paint n in
        let k : ((paint I t a c).nodes n).header ≡ (t.nodes n).header = ground arith in ap I.value k
  ]

  pub root-paint : (paint I t a c).root ≡ t.root
  unfolding paint set_header write
  root-paint = refl

  pub nil-paint : (paint I t a c).black_nil ≡ t.black_nil
  unfolding paint set_header write
  nil-paint = refl

  pub count-paint : (paint I t a c).count ≡ t.count
  unfolding paint set_header write
  count-paint = refl
