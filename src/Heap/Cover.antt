-- ===== src/Heap/Cover.antt =====
-- How often an address is covered by regions and blocks of the heap (kernel/src/memory/allocator).
use new_os.Base.{ℕ, ◌+◌, ◌-◌, ◌≤◌, arith, ◌&&◌, List, [], ◌∷◌, ltb, leb, if◌then◌else◌}
use new_os.Heap.{Region}

-- 1 at the addresses of a block, 0 elsewhere.
unfoldable pub in_block : ℕ → ℕ → ℕ → ℕ
in_block a addr size = if leb addr a && ltb a (addr + size) then 1 else 0

-- The number of regions that contain an address.
abbrev pub covers : ℕ → List Region → ℕ
covers a [] = 0
covers a (r ∷ rs) = in_block a r.addr r.size + covers a rs

-- A part of a block, and what is left of it behind the part.
pub in_block_split :
    (a addr size start part : ℕ)
    → addr ≤ start
    → start + part ≤ addr + size
    → in_block a start part + in_block a (start + part) (addr + size - (start + part))
      ≤ in_block a addr size
unfolding in_block
in_block_split a addr size start part low high = ground arith

pub in_block-le : (a addr part size : ℕ) → part ≤ size → in_block a addr part ≤ in_block a addr size
unfolding in_block
in_block-le a addr part size le = ground arith
