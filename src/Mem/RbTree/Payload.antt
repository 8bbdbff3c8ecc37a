-- ===== src/Mem/RbTree/Payload.antt =====
-- The header of a heap block as the payload of a node: `impl NodePayload for AllocHeader` of
-- src/mem/vmalloc/kheap.rs.
use fzkernel.Base.{ℕ, ◌-◌, ◌<◌, refl, arith, u64_mod, u64}
use fzkernel.Mem.AllocHeader.{
  NodeColor, get_size, set_size, is_allocated, is_mapped, left_allocated, get_color, set_color,
}
use fzkernel.Mem.AllocHeader.Refine.{Header, Shows, paint, get_size-value, run-Shows}
use fzkernel.Mem.RbTree.{NodePayload, RbTree, size}
use fzkernel.Mem.RbTree.Headers.{IsLawful}

-- `inner`, a 64-bit word
pub record AllocHeader : Type 0 where
  pub inner : ℕ
  pub bound : inner < u64_mod

unfoldable pub fields : ℕ → Header
fields n = record {
  size = get_size n;
  allocated = is_allocated n;
  left = left_allocated n;
  color = get_color n;
  mapped = is_mapped n;
}

pub fields-Shows : (n : ℕ) → n < u64_mod → Shows n (fields n)
unfolding fields
fields-Shows n h = record {
  word = h;
  size = refl;
  allocated = refl;
  left = refl;
  color = refl;
  mapped = refl;
}

painted :
    (h : AllocHeader) (c : NodeColor)
    → Shows (set_color h.inner c) (record (fields h.inner) { color = c })
painted h c = run-Shows (paint c) (fields-Shows h.inner h.bound) tt

pub set_color_bound : (h : AllocHeader) (c : NodeColor) → set_color h.inner c < u64_mod
set_color_bound h c = (painted h c).word

pub u64_bound : (n : ℕ) → u64 n < u64_mod
u64_bound n = omega arith

pub null_bound : 0 < u64_mod
null_bound = omega arith

unfoldable pub alloc_header : NodePayload AllocHeader
alloc_header = record {
  null = record { inner = 0; bound = null_bound };
  get_color = λ h. get_color h.inner;
  set_color = λ h c. record { inner = set_color h.inner c; bound = set_color_bound h c };
  value = λ h. get_size h.inner;
  set_value =
      λ h v. record { inner = u64 (set_size h.inner v); bound = u64_bound (set_size h.inner v) };
}

pub alloc_header-IsLawful : IsLawful alloc_header
unfolding alloc_header fields get_color
alloc_header-IsLawful = record {
  null_black = refl;
  color_set = λ h c. (painted h c).color;
  value_set = λ h c. (painted h c).size;
}

-- A size is a multiple of 16, so it is less than the greatest 64-bit number.
pub size-bound : (t : RbTree AllocHeader) (n : ℕ) → size alloc_header t n < u64_mod - 1
unfolding alloc_header size
size-bound t n =
    let h = (t.nodes n).header in omega (arith, get_size-value h.inner h.bound, h.bound)
