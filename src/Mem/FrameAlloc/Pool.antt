-- ===== src/Mem/FrameAlloc/Pool.antt =====
-- The pool of physical memory: a static that is opened once, on the largest RAM segment.
use fzkernel.Base.{
  ℕ, zero, suc, ◌+◌, ◌*◌, ◌≤◌, ◌<◌, ◌≡◌, refl, ap, ◌⊎◌, inl, inr, arith, Bool, true, false, ◌&&◌,
  Option, none, some, ltb, ltb→lt, ltb→le, Bool-cases, sym, ◌∙◌, ne→==, lt→leb, le→leb,
  length as count_of, get_elem?, get_elem?-some, get_elem?-lt, some-injective, if◌then◌else◌, u64,
}
use fzkernel.Base.Outcome.{Outcome, done, panic, hang, ◌>>=◌}
use fzkernel.Mem.E820.{
  AddressRangeDescriptor, E820MemType, ram, length, base_addr, default, E820MemoryMap, next,
}
use fzkernel.Mem.FrameAlloc.{
  BuddyFrameAllocator, FrameResult, ok, err, no_available_frame, allocate, dealloc,
  from_base_unchecked, FrameAllocation,
}

abbrev pub max_physical_mem_blk_size : ℕ
max_physical_mem_blk_size = 536870912

-- `PHYSICAL_MEMORY_POOL`
pub Pool : Type 0
Pool = Option BuddyFrameAllocator

abbrev pub is_ram : E820MemType → Bool
is_ram ram = true
is_ram _ = false

-- The body of `for entry in memory_map`
pub larger : AddressRangeDescriptor → AddressRangeDescriptor → AddressRangeDescriptor
larger largest_ram_segment entry =
    if is_ram entry.addr_type && ltb (length largest_ram_segment) (length entry)
    then entry
    else largest_ram_segment

-- The loop over the map; the fuel bounds its entries.
pub largest_loop : ℕ → E820MemoryMap → AddressRangeDescriptor → Outcome AddressRangeDescriptor
unfolding larger
largest_loop zero m largest_ram_segment = hang
largest_loop (suc fuel) m largest_ram_segment = do
  item ← next m
  elim item.0 [
    | none ↦ done largest_ram_segment
    | some entry ↦ largest_loop fuel item.1 (larger largest_ram_segment entry)
  ]

-- Where the pool starts: behind the kernel's image, if the segment holds it.
unfoldable pub segment_base : ℕ → ℕ → AddressRangeDescriptor → ℕ
segment_base kernel_load_addr kernel_sector_sz segment =
    if ltb (base_addr segment) kernel_load_addr
      && ltb kernel_load_addr (u64 (base_addr segment + length segment))
    then u64 (kernel_load_addr + u64 (kernel_sector_sz * 512))
    else base_addr segment

-- A second call panics. The pool has 18 levels, and the mapping is the offset of physical memory.
pub init_phys_memory_pool :
    Option BuddyFrameAllocator
    → ℕ
    → (ℕ → ℕ)
    → (ℕ → ℕ)
    → ℕ
    → ℕ
    → E820MemoryMap
    → Outcome (Option BuddyFrameAllocator)
unfolding largest_loop segment_base
init_phys_memory_pool pool fuel memory mapping kernel_load_addr kernel_sector_sz memory_map = do
  segment ← largest_loop fuel memory_map default
  elim pool [
    | some open_pool ↦ panic
    | none ↦ done (
        some (
          from_base_unchecked 18 memory mapping
            (segment_base kernel_load_addr kernel_sector_sz segment) max_physical_mem_blk_size))
  ]

-- A call on a pool that is not open finds no frame; `alloc_page` and `pm_alloc`.
pub alloc_page : Option BuddyFrameAllocator → ℕ → Outcome (FrameResult × Option BuddyFrameAllocator)
alloc_page none alloc_size = done (err no_available_frame, none)
alloc_page (some pool) alloc_size = do r ← allocate pool alloc_size; done (r.0, some r.1)

abbrev pub start_or_null : FrameResult → ℕ
start_or_null (ok frame) = frame.start
start_or_null (err e) = 0

pub pm_alloc : Option BuddyFrameAllocator → ℕ → Outcome (ℕ × Option BuddyFrameAllocator)
unfolding alloc_page
pm_alloc pool alloc_size = do r ← alloc_page pool alloc_size; done (start_or_null r.0, r.1)

pub free_page :
    ℕ → Option BuddyFrameAllocator → FrameAllocation → Outcome (Option BuddyFrameAllocator)
free_page fuel none frame = done none
free_page fuel (some pool) frame = do s ← dealloc fuel pool frame.start frame.length; done (some s)

pub pm_free : ℕ → Option BuddyFrameAllocator → ℕ → ℕ → Outcome (Option BuddyFrameAllocator)
unfolding free_page
pm_free fuel pool alloc_base alloc_size =
    free_page fuel pool (record { start = alloc_base; length = alloc_size })

-- A RAM entry of the map, from the cursor on.
pub record IsRamEntry (m : E820MemoryMap) (segment : AddressRangeDescriptor) : Type 0 where
  pub index : ℕ
  pub later : m.cursor ≤ index
  pub found : get_elem? m.entries index ≡ some segment
  pub usable : is_ram segment.addr_type ≡ true

-- What a scan from the cursor on ends with.
pub record IsLargest (m : E820MemoryMap) (first : AddressRangeDescriptor)
    (r : Outcome AddressRangeDescriptor) : Type 0 where
  pub segment : AddressRangeDescriptor
  pub returns : r ≡ done segment
  pub chosen : (segment ≡ first) ⊎ IsRamEntry m segment
  pub from_first : length first ≤ length segment
  pub longest :
      (i : ℕ) (e : AddressRangeDescriptor)
      → m.cursor ≤ i
      → get_elem? m.entries i ≡ some e
      → is_ram e.addr_type ≡ true
      → length e ≤ length segment

larger-first : (a e : AddressRangeDescriptor) → length a ≤ length (larger a e)
unfolding larger
larger-first a e = elim (Bool-cases (is_ram e.addr_type)) [
  | inl usable ↦ elim (Bool-cases (ltb (length a) (length e))) [
    | inl longer ↦ rw (usable, longer) (omega (arith, ltb→lt (length a) (length e) longer))
    | inr short ↦ rw (usable, short) (omega arith)
  ]
  | inr other ↦ rw other (omega arith)
]

larger-second :
    (a e : AddressRangeDescriptor) → is_ram e.addr_type ≡ true → length e ≤ length (larger a e)
unfolding larger
larger-second a e usable = elim (Bool-cases (ltb (length a) (length e))) [
  | inl longer ↦ rw (usable, longer) (omega arith)
  | inr short ↦ rw (usable, short) (ltb→le (length a) (length e) short)
]

larger-cases :
    (a e : AddressRangeDescriptor)
    → (larger a e ≡ a) ⊎ ((larger a e ≡ e) × (is_ram e.addr_type ≡ true))
unfolding larger
larger-cases a e = elim (Bool-cases (is_ram e.addr_type)) [
  | inl usable ↦ elim (Bool-cases (ltb (length a) (length e))) [
    | inl longer ↦ rw (usable, longer) (inr (refl, refl))
    | inr short ↦ rw (usable, short) (inl refl)
  ]
  | inr other ↦ rw other (inl refl)
]

abbrev advanced : E820MemoryMap → E820MemoryMap
advanced m = record m { cursor = m.cursor + 1 }

next-some :
    (m : E820MemoryMap) (x : AddressRangeDescriptor)
    → m.cursor < m.map_len
    → get_elem? m.entries m.cursor ≡ some x
    → next m ≡ done (some x, advanced m)
unfolding next
next-some m x more found = rw (
  ne→== m.map_len 0 (λ z. absurd (omega (arith, z, more))),
  lt→leb m.map_len m.cursor more,
  found,
)

next-none :
    (m : E820MemoryMap)
    → 0 < m.map_len
    → m.map_len ≤ m.cursor
    → next m ≡ done (none, record m { cursor = 0 })
unfolding next
next-none m some_entries over = rw (
  ne→== m.map_len 0 (λ z. absurd (omega (arith, z, some_entries))),
  le→leb m.map_len m.cursor over,
)

-- The segment that a scan of the rest has chosen, after a step.
chosen-further :
    (m : E820MemoryMap) (first x segment : AddressRangeDescriptor)
    → get_elem? m.entries m.cursor ≡ some x
    → (segment ≡ larger first x) ⊎ IsRamEntry (advanced m) segment
    → (segment ≡ first) ⊎ IsRamEntry m segment
chosen-further m first x segment found (inr r) =
    inr (record {
      index = r.index;
      later = omega (arith, r.later);
      found = r.found;
      usable = r.usable;
    })
chosen-further m first x segment found (inl e) = elim (larger-cases first x) [
  | inl old ↦ inl (e ∙ old)
  | inr new ↦
      let same : segment ≡ x = e ∙ new.0 in
      inr (record {
        index = m.cursor;
        later = omega arith;
        found = found ∙ ap some (sym same);
        usable = ap (λ d. is_ram d.addr_type) same ∙ new.1;
      })
]

largest_loop-further :
    (fuel : ℕ) (m : E820MemoryMap) (first x : AddressRangeDescriptor)
    → next m ≡ done (some x, advanced m)
    → largest_loop (suc fuel) m first ≡ largest_loop fuel (advanced m) (larger first x)
largest_loop-further fuel m first x e = unfold largest_loop in rw e

-- With a map that has just the number of entries that stands before it, at least one, and with fuel
-- beyond that number, the scan ends at a segment: the one that it started with, or a RAM entry of
-- the map from the cursor on. None of the RAM entries there is longer, nor is the segment that the
-- scan started with.
pub largest_loop-IsLargest :
    (fuel : ℕ) (m : E820MemoryMap) (first : AddressRangeDescriptor)
    → m.map_len ≡ count_of m.entries
    → 0 < m.map_len
    → m.cursor ≤ m.map_len
    → m.map_len < m.cursor + fuel
    → IsLargest m first (largest_loop fuel m first)
largest_loop-IsLargest zero m first whole some_entries low enough = absurd (omega arith)
largest_loop-IsLargest (suc fuel) m first whole some_entries low enough =
    elim (Bool-cases (ltb m.cursor m.map_len)) [
      | inr past ↦
          let over : m.map_len ≤ m.cursor = ltb→le m.cursor m.map_len past in
          record {
            segment = first;
            returns = unfold largest_loop in rw (next-none m some_entries (omega (arith, over)));
            chosen = inl refl;
            from_first = omega arith;
            longest = λ i e h found usable.
                absurd (omega (arith, whole, over, get_elem?-lt m.entries i e found));
          }
      | inl below ↦
          let more : m.cursor < m.map_len = ltb→lt m.cursor m.map_len below in
          let found = get_elem?-some m.entries m.cursor (omega (arith, whole, more)) in
          let x : AddressRangeDescriptor = found.0 in
          let rest =
            largest_loop-IsLargest fuel (advanced m) (larger first x) whole some_entries
              (omega arith) (omega arith) in
          record {
            segment = rest.segment;
            returns =
                largest_loop-further fuel m first x (next-some m x more found.1) ∙ rest.returns;
            chosen = chosen-further m first x rest.segment found.1 rest.chosen;
            from_first = omega (arith, rest.from_first, larger-first first x);
            longest = λ i e h at usable. elim (Bool-cases (ltb m.cursor i)) [
              | inl later ↦ rest.longest i e (omega (arith, ltb→lt m.cursor i later)) at usable
              | inr now ↦
                  let here : m.cursor ≡ i = omega (arith, h, ltb→le m.cursor i now) in
                  let same : x ≡ e =
                    some-injective (sym found.1 ∙ ap (get_elem? m.entries) here ∙ at) in
                  let long : length x ≤ length rest.segment = omega (
                    arith,
                    rest.from_first,
                    larger-second first x (ap (λ d. is_ram d.addr_type) same ∙ usable),
                  ) in
                  omega (arith, long, ap length same)
            ];
          }
    ]
