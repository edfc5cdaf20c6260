-- ===== src/Memory/Frames.antt =====
-- What the frame allocator hands out.
use new_os.Base.{
  ℕ, zero, suc, ◌+◌, ◌*◌, ◌/◌, ◌%◌, ◌^◌, ◌≤◌, ◌<◌, max, ◌≡◌, ◌≢◌, refl, sym, ap, ◌∙◌, ◌⊎◌, inl, inr,
  true, false, none, some, ltb, ltb→lt, lt→ltb, Bool-cases, Option-cases, arith, returned, panicked,
  bit_and-high, u64_mod,
}
use mathlib.Core.Option.{some-injective}
use native.Mathlib.Nat.{mul-le-mul_right}
use new_os.Memory.{
  BootMemoryDescriptor, BootMemoryMap, entry_count, get, next, usable_range, align_up,
  FrameAllocator, is_usable, Allocation, hand_out, in_range, loop, descriptor_at,
}

-- The first address behind a descriptor's memory.
abbrev pub end_of : BootMemoryDescriptor → ℕ
end_of d = d.phys_start + d.page_count * 4096

-- The first page boundary that a descriptor could give.
abbrev pub candidate : FrameAllocator → BootMemoryDescriptor → ℕ
candidate a d = (max a.next_address d.phys_start + 4095) / 4096 * 4096

-- A memory map of a machine whose physical addresses have 52 bits.
unfoldable pub InRange : BootMemoryMap → Type 0
InRange map = (i : ℕ) (d : BootMemoryDescriptor) → get map i ≡ some d → end_of d ≤ 2 ^ 52

-- Every usable descriptor from index `i` on has no page left.
unfoldable pub Exhausted : FrameAllocator → ℕ → Type 0
Exhausted a i =
    (j : ℕ) (d : BootMemoryDescriptor)
    → i ≤ j
    → get a.memory_map j ≡ some d
    → is_usable d ≡ true
    → end_of d ≤ candidate a d

-- A frame that starts in a usable descriptor, at the first page boundary of it that is not below the
-- allocator's next address.
unfoldable pub Handed : FrameAllocator → ℕ → Type 0
Handed a f =
    (a.next_address ≤ f)
    × (f % 4096 ≡ 0)
    × (j : ℕ) × (d : BootMemoryDescriptor) × (get a.memory_map j ≡ some d)
    × (is_usable d ≡ true)
    × (d.phys_start ≤ f)
    × (f < end_of d)
    × (f ≡ candidate a d)

unfoldable pub Allocated : ℕ → FrameAllocator → Allocation → Type 0
Allocated i a panicked = ⊥
Allocated i a (returned (none, b)) = (b ≡ a) × Exhausted a i
Allocated i a (returned (some f, b)) =
    (b ≡ record a { next_address = f.start_address + 4096 }) × Handed a f.start_address

align_up_lem : (v : ℕ) → v ≤ 2 ^ 53 → align_up v 4096 ≡ (v + 4095) / 4096 * 4096
unfolding align_up
align_up_lem v h =
    let small : ltb (v + 4095) u64_mod ≡ true = lt→ltb (v + 4095) u64_mod (omega arith) in
    rw small (bit_and-high 12 52 (v + 4095) (omega arith))

get-lt :
    (m : BootMemoryMap) (i : ℕ) (d : BootMemoryDescriptor) → get m i ≡ some d → i < entry_count m
unfolding get
get-lt m i d h = ground arith

range_lem :
    (d : BootMemoryDescriptor)
    → end_of d ≤ 2 ^ 52
    → usable_range d ≡ some (record { start = d.phys_start; end_address = end_of d })
unfolding usable_range
range_lem d h = ground arith

split : (i j : ℕ) → i ≤ j → (i ≡ j) ⊎ (i + 1 ≤ j)
split i j h = ground arith

Exhausted-at :
    (i : ℕ) (a : FrameAllocator) (d : BootMemoryDescriptor)
    → get a.memory_map i ≡ some d
    → end_of d ≤ candidate a d
    → Exhausted a (i + 1)
    → Exhausted a i
unfolding Exhausted
Exhausted-at i a d found here later j d' above found' usable = elim (split i j above) [
  | inl e ↦
      let same : some d ≡ some d' = sym found ∙ ap (get a.memory_map) e ∙ found' in
      rw (sym (some-injective d d' same)) here
  | inr h ↦ later j d' h found' usable
]

weaken :
    (i : ℕ) (a : FrameAllocator) (r : Allocation)
    → (Exhausted a (i + 1) → Exhausted a i)
    → Allocated (i + 1) a r
    → Allocated i a r
unfolding Allocated
weaken i a panicked here h = h
weaken i a (returned (some f, b)) here h = h
weaken i a (returned (none, b)) here (e, later) = (e, here later)

hand_out_lem :
    (a : FrameAllocator) (c : ℕ)
    → c < 2 ^ 52
    → hand_out c a
      ≡ returned (some (record { start_address = c }), record a { next_address = c + 4096 })
unfolding hand_out
hand_out_lem a c h = ground arith

ltb_no : (x y : ℕ) → ltb x y ≡ false → y ≤ x
ltb_no x y h = ground arith

in_range_lem :
    (i : ℕ) (a : FrameAllocator) (rest : Allocation) (d : BootMemoryDescriptor)
    → get a.memory_map i ≡ some d
    → is_usable d ≡ true
    → end_of d ≤ 2 ^ 52
    → a.next_address ≤ 2 ^ 53
    → Allocated (i + 1) a rest
    → Allocated i a (in_range a rest (record { start = d.phys_start; end_address = end_of d }))
unfolding in_range Allocated Handed
in_range_lem i a rest d found usable bound low more =
    let e = align_up_lem (max a.next_address d.phys_start) (omega arith) in
    elim (Bool-cases (ltb (candidate a d) (end_of d))) [
      | inl t ↦
          let inside = ltb→lt (candidate a d) (end_of d) t in
          rw (e, t, hand_out_lem a (candidate a d) (omega (arith, inside)))
            (refl, (omega arith, omega arith, i, d, found, usable, omega arith, inside, refl))
      | inr t ↦
          rw (e, t)
            (weaken i a rest (Exhausted-at i a d found (ltb_no (candidate a d) (end_of d) t)) more)
    ]

false_ne_true : false ≡ true → ⊥
false_ne_true h = ground arith

not_usable :
    (i : ℕ) (a : FrameAllocator) (d : BootMemoryDescriptor)
    → get a.memory_map i ≡ some d
    → is_usable d ≡ false
    → Exhausted a (i + 1)
    → Exhausted a i
unfolding Exhausted
not_usable i a d found unusable later j d' above found' usable = elim (split i j above) [
  | inl e ↦
      let same : some d ≡ some d' = sym found ∙ ap (get a.memory_map) e ∙ found' in
      absurd (false_ne_true (sym unusable ∙ ap is_usable (some-injective d d' same) ∙ usable))
  | inr h ↦ later j d' h found' usable
]

past_end : (i : ℕ) (a : FrameAllocator) → entry_count a.memory_map ≤ i → Exhausted a i
unfolding Exhausted
past_end i a over j d above found usable =
    absurd (let h = get-lt a.memory_map j d found in omega (arith, h, over, above))

get_down :
    (m : BootMemoryMap) (i j : ℕ) (d : BootMemoryDescriptor)
    → i ≤ j
    → get m j ≡ some d
    → get m i ≢ none
unfolding get descriptor_at
get_down m i j d h found missing =
    let scaled = mul-le-mul_right {m = i} {n = j} m.desc_size h in ground arith

get-none : (i : ℕ) (a : FrameAllocator) → get a.memory_map i ≡ none → Exhausted a i
unfolding Exhausted
get-none i a h j d above found usable = absurd (get_down a.memory_map i j d above found h)

pub loop_lem :
    (fuel i : ℕ) (a : FrameAllocator)
    → InRange a.memory_map
    → a.next_address ≤ 2 ^ 53
    → entry_count a.memory_map ≤ i + fuel
    → Allocated i a (loop fuel (record { map = a.memory_map; index = i }) a)
unfolding Allocated InRange loop next
loop_lem zero i a inside low enough = (refl, past_end i a (omega arith))
loop_lem (suc fuel) i a inside low enough =
    let more = loop_lem fuel (i + 1) a inside low (omega arith) in
    elim (Option-cases (get a.memory_map i)) [
      | inl e ↦ rw (loop, next, e) (refl, get-none i a e)
      | inr (d, e) ↦ elim (Bool-cases (is_usable d)) [
        | inl u ↦
            rw (loop, next, e, u, range_lem d (inside i d e))
              (in_range_lem i a (loop fuel (record { map = a.memory_map; index = i + 1 }) a) d e u
                (inside i d e) low more)
        | inr u ↦
            rw (loop, next, e, u)
              (weaken i a (loop fuel (record { map = a.memory_map; index = i + 1 }) a)
                (not_usable i a d e u) more)
      ]
    ]
