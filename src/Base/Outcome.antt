-- ===== src/Base/Outcome.antt =====
-- What a call can come to: a result, a panic (a failed assertion, an index out of range, an
-- overflow that is checked), or a loop that is still running when the fuel is used up.
use mathlib.Core.Path.{◌≡◌, ap}
use Prim.Native.Nat.{ℕ, ◌<◌}
use fzkernel.Base.Test.{ltb, lt→ltb, if◌then◌else◌}
use mathlib.Core.Bool.{Bool, true, false}

pub data Outcome {ℓ} (A : Type ℓ) : Type ℓ where
  done : A → Outcome A
  panic : Outcome A
  hang : Outcome A

infixl 5 ◌>>=◌ ◌>>◌
abbrev pub ◌>>=◌ {ℓ κ} : {A : Type ℓ} {B : Type κ} → Outcome A → (A → Outcome B) → Outcome B
done a >>= f = f a
panic >>= f = panic
hang >>= f = hang

abbrev pub ◌>>◌ {ℓ} : {B : Type ℓ} → Outcome (Unit {0}) → Outcome B → Outcome B
m >> k = m >>= λ _. k

abbrev pub assert : Bool → Outcome (Unit {0})
assert true = done tt
assert false = panic

pub done-injective : {A : Type 0} {a b : A} → done a ≡ done b → a ≡ b
done-injective {A} {a} {b} e = ap (value a) e
  where
    value : A → Outcome A → A
    value d (done x) = x
    value d _ = d

-- `try_into().expect(…)` to a type whose values are below `bound`
abbrev pub try_into : ℕ → ℕ → Outcome ℕ
try_into bound n = if ltb n bound then done n else panic

pub try_into-done : (bound n : ℕ) → n < bound → try_into bound n ≡ done n
try_into-done bound n h = rw (lt→ltb n bound h)
