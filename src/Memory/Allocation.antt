-- ===== src/Memory/Allocation.antt =====
-- Successive calls of the frame allocator (kernel/src/memory.rs).
use new_os.Base.{◌+◌, ◌^◌, ◌≤◌, ◌≡◌, refl, ap, ◌∙◌, Option, none, some, arith, returned}
use mathlib.Core.Path.{subst}
use new_os.Memory.{entry_count, PhysFrame, FrameAllocator, allocate_physical_frame}
use new_os.Memory.Frames.{InRange, Handed, Allocated, loop_lem}

pub allocated_lem :
    (a : FrameAllocator)
    → InRange a.memory_map
    → a.next_address ≤ 2 ^ 53
    → Allocated 0 a (allocate_physical_frame a)
unfolding allocate_physical_frame
allocated_lem a inside low = loop_lem (entry_count a.memory_map) 0 a inside low (omega arith)

-- The allocator after any number of calls.
pub data Later (a : FrameAllocator) : FrameAllocator → Type 0 where
  now : Later a a
  call :
      {b c : FrameAllocator} {o : Option PhysFrame}
      → Later a b
      → allocate_physical_frame b ≡ returned (o, c)
      → Later a c

pub record Sound (a b : FrameAllocator) : Type 0 where
  pub same_map : b.memory_map ≡ a.memory_map
  pub inside : InRange b.memory_map
  pub low : b.next_address ≤ 2 ^ 53
  pub grows : a.next_address ≤ b.next_address

pub one_call :
    (b c : FrameAllocator) (o : Option PhysFrame)
    → InRange b.memory_map
    → b.next_address ≤ 2 ^ 53
    → Allocated 0 b (returned (o, c))
    → Sound b c
unfolding Allocated Handed InRange
one_call b c none inside low (e, done) =
    rw e (record { same_map = refl; inside = inside; low = low; grows = omega arith })
one_call b c (some f) inside low (e, (above, aligned, j, d, found, usable, lower, upper, first)) =
    let bound = inside j d found in
    rw e (record { same_map = refl; inside = inside; low = omega arith; grows = omega arith })

Later-Sound :
    {a b : FrameAllocator} → InRange a.memory_map → a.next_address ≤ 2 ^ 53 → Later a b → Sound a b
Later-Sound inside low now = record {
  same_map = refl;
  inside = inside;
  low = low;
  grows = omega arith;
}
Later-Sound inside low (call {b} {c} {o} before here) =
    let s = Later-Sound inside low before in
    let result = subst (Allocated 0 b) here (allocated_lem b s.inside s.low) in
    let t = one_call b c o s.inside s.low result in
    record {
      same_map = t.same_map ∙ s.same_map;
      inside = t.inside;
      low = t.low;
      grows = let p = s.grows in let q = t.grows in omega (arith, p, q);
    }

pub next_after :
    (b c : FrameAllocator) (f : PhysFrame)
    → Allocated 0 b (returned (some f, c))
    → (b.next_address ≤ f.start_address) × (c.next_address ≡ f.start_address + 4096)
unfolding Allocated Handed
next_after b c f (e, handed) = (handed.0, ap (λ (x : FrameAllocator). x.next_address) e)

-- Let the map's descriptors end at or below 2^52 and the next address be at or below 2^53. If a
-- call returns a frame and, after any number of further calls, another call returns a frame,
-- then the second frame starts at or behind the end of the first.
pub frames_disjoint :
    (a b c d : FrameAllocator) (f g : PhysFrame)
    → InRange a.memory_map
    → a.next_address ≤ 2 ^ 53
    → allocate_physical_frame a ≡ returned (some f, b)
    → Later b c
    → allocate_physical_frame c ≡ returned (some g, d)
    → f.start_address + 4096 ≤ g.start_address
frames_disjoint a b c d f g inside low first later second =
    let result = subst (Allocated 0 a) first (allocated_lem a inside low) in
    let s = one_call a b (some f) inside low result in
    let t = Later-Sound s.inside s.low later in
    let end_first = (next_after a b f result).1 in
    let start_second =
      (next_after c d g (subst (Allocated 0 c) second (allocated_lem c t.inside t.low))).0 in
    let grown = t.grows in omega (arith, end_first, start_second, grown)
