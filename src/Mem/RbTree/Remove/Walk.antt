-- ===== src/Mem/RbTree/Remove/Walk.antt =====
-- The walk of `find_best_node_fit` down a search tree.
use fzkernel.Base.{
  ℕ, zero, suc, ◌≤◌, ◌<◌, ◌≡◌, ◌≢◌, refl, sym, ◌∙◌, ap, ◌⊎◌, inl, inr, true, false, ◌==◌, ltb,
  arith, Bool-cases, List, [], ◌∷◌, length, length-append, All, eq→==, ne→==, ==→eq, ==→ne, ltb→lt,
  ltb→le,
}
use fzkernel.Base.Outcome.{done}
use fzkernel.Mem.RbTree.{NodePayload, RbTree, on_left, on_right, child, size}
use fzkernel.Mem.RbTree.Remove.{Best, best_fit_loop}
use fzkernel.Mem.RbTree.Insert.Plant.{IsSorted, Around, sorted-Around}
use fzkernel.Mem.RbTree.Shape.{Shape, leaf, fork, inorder, mem, mem-cases, has, has-inorder, IsTree}

pub All-has : (Q : ℕ → Type 0) (xs : List ℕ) → All Q xs → (n : ℕ) → has n xs ≡ true → Q n
All-has Q [] a n m = absurd (ground arith)
All-has Q (x ∷ xs) a n m = elim (Bool-cases (n == x)) [
  | inl e ↦ rw (==→eq n x e) a.0
  | inr e ↦ All-has Q xs a.1 n (ground (arith, m, e))
]

abbrev pub best : ℕ → ℕ → Best
best closest node = record { closest_size_match = closest; to_remove = node }

module _ {P : Type 0} (I : NodePayload P) (t : RbTree P) (value : ℕ) where
  abbrev pub here : ℕ → Best
  here n = best (size I t n) n

  -- What the walk through `s` makes of `b`: a size that fits, no greater than the one before nor
  -- than any that fits in `s`, with its node.
  pub record Found (s : Shape) (b r : Best) : Type 0 where
    pub fits : value ≤ r.closest_size_match
    pub no_worse : r.closest_size_match ≤ b.closest_size_match
    pub least : (n : ℕ) → mem n s ≡ true → value ≤ size I t n → r.closest_size_match ≤ size I t n
    pub node :
        (r ≡ b) ⊎ ((mem r.to_remove s ≡ true) × (size I t r.to_remove ≡ r.closest_size_match))

  loop-leaf :
      (fuel w : ℕ) (b : Best) → w ≡ t.black_nil → best_fit_loop I (suc fuel) t value w b ≡ done b
  unfolding best_fit_loop
  loop-leaf fuel w b e = rw (eq→== w t.black_nil e) refl

  loop-here :
      (fuel w : ℕ) (b : Best)
      → w ≢ t.black_nil
      → (value == size I t w) ≡ true
      → best_fit_loop I (suc fuel) t value w b ≡ done (here w)
  unfolding best_fit_loop
  loop-here fuel w b live e = rw (ne→== w t.black_nil live, e) refl

  loop-better :
      (fuel w : ℕ) (b : Best)
      → w ≢ t.black_nil
      → (value == size I t w) ≡ false
      → ltb value (size I t w) ≡ true
      → ltb (size I t w) b.closest_size_match ≡ true
      → best_fit_loop I (suc fuel) t value w b
        ≡ best_fit_loop I fuel t value (child t on_left w) (here w)
  unfolding best_fit_loop
  loop-better fuel w b live e f g = rw (ne→== w t.black_nil live, e, f, g) refl

  loop-left :
      (fuel w : ℕ) (b : Best)
      → w ≢ t.black_nil
      → (value == size I t w) ≡ false
      → ltb value (size I t w) ≡ true
      → ltb (size I t w) b.closest_size_match ≡ false
      → best_fit_loop I (suc fuel) t value w b ≡ best_fit_loop I fuel t value (child t on_left w) b
  unfolding best_fit_loop
  loop-left fuel w b live e f g = rw (ne→== w t.black_nil live, e, f, g) refl

  loop-right :
      (fuel w : ℕ) (b : Best)
      → w ≢ t.black_nil
      → (value == size I t w) ≡ false
      → ltb value (size I t w) ≡ false
      → best_fit_loop I (suc fuel) t value w b ≡ best_fit_loop I fuel t value (child t on_right w) b
  unfolding best_fit_loop
  loop-right fuel w b live e f = rw (ne→== w t.black_nil live, e, f) refl

  -- A walk that ends at the best fit.
  pub record Walk (fuel w : ℕ) (s : Shape) (b : Best) : Type 0 where
    pub result : Best
    pub runs : best_fit_loop I fuel t value w b ≡ done result
    pub found : Found s b result

  module _ (l : Shape) (b : ℕ) (r : Shape)
      (up : IsSorted (λ n. size I t n) (inorder (fork l b r))) where
    parts : Around (λ n. size I t n) (inorder l) b (inorder r)
    parts = sorted-Around (λ n. size I t n) (inorder l) b (inorder r) up

    lower : (n : ℕ) → mem n l ≡ true → size I t n ≤ size I t b
    lower n m =
        All-has (λ x. size I t x ≤ size I t b) (inorder l) parts.below n (has-inorder n l ∙ m)

    upper : (n : ℕ) → mem n r ≡ true → size I t b ≤ size I t n
    upper n m =
        All-has (λ x. size I t b ≤ size I t x) (inorder r) parts.above n (has-inorder n r ∙ m)

    Found-here :
        (o : Best)
        → value ≡ size I t b
        → value ≤ o.closest_size_match
        → Found (fork l b r) o (here b)
    Found-here o e le = record {
      fits = omega (arith, e);
      no_worse = omega (arith, e, le);
      least = λ n m f. omega (arith, e, f);
      node = inr (ground arith, refl);
    }

    Found-left :
        (o q x : Best)
        → value < size I t b
        → Found l q x
        → q.closest_size_match ≤ size I t b
        → q.closest_size_match ≤ o.closest_size_match
        → (q ≡ o) ⊎ (q ≡ here b)
        → Found (fork l b r) o x
    Found-left o q x lt f le lo from = record {
      fits = f.fits;
      no_worse = omega (arith, f.no_worse, lo);
      least = λ n m k. elim (mem-cases n l b r m) [
        | inl e ↦ omega (arith, f.no_worse, le, ap (λ x. size I t x) e)
        | inr (inl e) ↦ f.least n e k
        | inr (inr e) ↦ omega (arith, f.no_worse, le, upper n e)
      ];
      node = elim f.node [
        | inl e ↦ elim from [
          | inl i ↦ inl (e ∙ i)
          | inr i ↦
              let j = e ∙ i in
              let k : x.to_remove ≡ b = ap (λ (z : Best). z.to_remove) j in
              inr (
                ground (arith, k),
                ap (λ n. size I t n) k ∙ sym (ap (λ (z : Best). z.closest_size_match) j),
              )
        ]
        | inr e ↦ inr (ground (arith, e.0), e.1)
      ];
    }

    Found-right : (o x : Best) → size I t b < value → Found r o x → Found (fork l b r) o x
    Found-right o x lt f = record {
      fits = f.fits;
      no_worse = f.no_worse;
      least = λ n m k. elim (mem-cases n l b r m) [
        | inl e ↦ absurd (omega (arith, lt, k, ap (λ x. size I t x) e))
        | inr (inl e) ↦ absurd (omega (arith, lt, k, lower n e))
        | inr (inr e) ↦ f.least n e k
      ];
      node = elim f.node [ inl e ↦ inl e | inr e ↦ inr (ground (arith, e.0), e.1) ];
    }

  pub walks :
      (fuel p a : ℕ) (s : Shape) (o : Best)
      → IsTree t p a s
      → IsSorted (λ n. size I t n) (inorder s)
      → length (inorder s) < fuel
      → value ≤ o.closest_size_match
      → Walk fuel a s o
  walks zero p a s o h up enough le = absurd (omega arith)
  walks (suc fuel) p a leaf o h up enough le = record {
    result = o;
    runs = loop-leaf fuel a o h;
    found = record {
      fits = le;
      no_worse = omega arith;
      least = λ n m. absurd (ground arith);
      node = inl refl;
    };
  }
  walks (suc fuel) p a (fork l b r) o h up enough le =
      let len = length-append (inorder l) (b ∷ inorder r) in
      let around = parts l b r up in
      let left_walk = λ (q : Best) (k : value ≤ q.closest_size_match).
        walks fuel b (child t on_left b) l q h.3 around.before (omega (arith, len, enough)) k in
      let right_walk =
        walks fuel b (child t on_right b) r o h.4 around.after (omega (arith, len, enough)) le in
      walk_at a b h.0 (elim (Bool-cases (value == size I t b)) [
        | inl e ↦ record {
          result = here b;
          runs = loop-here fuel b o h.1 e;
          found = Found-here l b r up o (==→eq value (size I t b) e) le;
        }
        | inr e ↦ elim (Bool-cases (ltb value (size I t b))) [
          | inl f ↦
              let lt = ltb→lt value (size I t b) f in
              elim (Bool-cases (ltb (size I t b) o.closest_size_match)) [
                | inl g ↦
                    let w = left_walk (here b) (omega (arith, lt)) in
                    record {
                      result = w.result;
                      runs = loop-better fuel b o h.1 e f g ∙ w.runs;
                      found =
                          Found-left l b r up o (here b) w.result lt w.found (omega arith)
                            (omega (arith, ltb→lt (size I t b) o.closest_size_match g)) (inr refl);
                    }
                | inr g ↦
                    let w = left_walk o le in
                    record {
                      result = w.result;
                      runs = loop-left fuel b o h.1 e f g ∙ w.runs;
                      found =
                          Found-left l b r up o o w.result lt w.found
                            (ltb→le (size I t b) o.closest_size_match g) (omega arith) (inl refl);
                    }
              ]
          | inr f ↦
              let lt : size I t b < value =
                omega (arith, ltb→le value (size I t b) f, ==→ne value (size I t b) e) in
              record {
                result = right_walk.result;
                runs = loop-right fuel b o h.1 e f ∙ right_walk.runs;
                found = Found-right l b r up o right_walk.result lt right_walk.found;
              }
        ]
      ])
    where
      walk_at :
          (x y : ℕ) → x ≡ y → Walk (suc fuel) y (fork l b r) o → Walk (suc fuel) x (fork l b r) o
      walk_at x y e w = rw e w
