-- ===== src/Vfs/RamdiskLaws.antt =====
-- The loop of the ramdisk reader (kernel/src/vfs.rs) ends.

use new_os.Base.{
  ℕ, zero, suc, ◌+◌, ◌≤◌, ◌<◌, ◌≡◌, ◌≢◌, ◌⊎◌, inl, inr, refl, Bool-cases, Option, none, some, List,
  [], ◌∷◌, ◌++◌, arith, Run, returned, panicked, leb, length, Bytes,
}
use new_os.Vfs.{VfsEntry}
use new_os.Vfs.Ramdisk.{parse_record, scan, scan_all}

-- A record that is read ends behind its header and inside the data.
parse_record-bounds :
    (offset : ℕ) (data_bytes : Bytes) (e : VfsEntry) (offset' : ℕ)
    → parse_record offset data_bytes ≡ returned (some (e, offset'))
    → (offset + 72 ≤ offset') × (offset' ≤ length data_bytes)
unfolding parse_record
parse_record-bounds offset data_bytes e offset' h = (ground arith, ground arith)

-- The next state of the loop.
Round : ℕ → Bytes → Type 0
Round offset data_bytes =
    (parse_record offset data_bytes ≡ panicked)
    ⊎ (parse_record offset data_bytes ≡ returned none)
    ⊎ ((e : VfsEntry) × (offset' : ℕ) × (parse_record offset data_bytes
          ≡ returned (some (e, offset'))))

Round-cases : (offset : ℕ) (data_bytes : Bytes) → Round offset data_bytes
unfolding Round
Round-cases offset data_bytes = go (parse_record offset data_bytes) refl
  where
    go :
        (r : Run (Option (VfsEntry × ℕ)))
        → parse_record offset data_bytes ≡ r
        → (parse_record offset data_bytes ≡ panicked)
          ⊎ (parse_record offset data_bytes ≡ returned none)
          ⊎ ((e : VfsEntry) × (offset' : ℕ) × (parse_record offset data_bytes
                ≡ returned (some (e, offset'))))
    go panicked h = inl h
    go (returned none) h = inr (inl h)
    go (returned (some (e, offset'))) h = inr (inr (e, offset', h))

scan_ends :
    (fuel offset : ℕ) (data_bytes : Bytes) (es : List VfsEntry)
    → offset ≤ length data_bytes
    → length data_bytes < offset + fuel
    → scan fuel offset data_bytes es ≢ none
unfolding scan Round
scan_ends zero offset data_bytes es le h = absurd (omega arith)
scan_ends (suc fuel) offset data_bytes es le h =
    elim (Bool-cases (leb (offset + 72) (length data_bytes))) [
      | inr short ↦ λ e. cc (e, short)
      | inl room ↦ elim (Round-cases offset data_bytes) [
        | inl p ↦ rw (room, scan, p) (λ e. cc)
        | inr (inl p) ↦ rw (room, scan, p) (λ e. cc)
        | inr (inr (x, offset', p)) ↦
            let (above, below) = parse_record-bounds offset data_bytes x offset' p in
            rw (room, scan, p)
              (scan_ends fuel offset' data_bytes (es ++ x ∷ []) below (omega arith))
      ]
    ]

-- Whatever the bytes are, the loop of `init_from_ramdisk` ends: the rounds allowed suffice.
pub scan_all_ends :
    (data_bytes : Bytes) (es : List VfsEntry)
    → (r : Run (List VfsEntry)) × (scan_all data_bytes es ≡ some r)
scan_all_ends data_bytes es = go (scan_all data_bytes es) refl
  where
    go :
        (o : Option (Run (List VfsEntry)))
        → scan_all data_bytes es ≡ o
        → (r : Run (List VfsEntry)) × (scan_all data_bytes es ≡ some r)
    go none h =
        absurd (scan_ends (suc (length data_bytes)) 0 data_bytes es (omega arith) (omega arith) h)
    go (some r) h = (r, h)
