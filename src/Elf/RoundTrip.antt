-- ===== src/Elf/RoundTrip.antt =====
-- The fields that are laid out in an ELF header are those that kernel/src/elf.rs reads.
use new_os.Base.{
  ℕ, ◌^◌, ◌≤◌, ◌<◌, ◌≡◌, refl, ap, ◌∙◌, ◌⊎◌, inl, inr, false, ◌∷◌, ◌++◌, arith, ltb, length, take,
  drop, replicate, Bytes, from_le, to_le, from_le-to_le, bytes_eq,
}
use new_os.Elf
use new_os.Elf.{ElfHeader, Parse, ok, err, panics, ◌>>=◌, ◌>>◌, fail_if, parse_header}
use new_os.Elf.Safety.{field, checks, parse_header-checks}

-- A header as an ELF linker lays it out: the identification, the type, the machine, then the fields,
-- and whatever follows. `mid`, `flags` and `rest` are the parts that the parser does not look at.
abbrev pub layout : ℕ → ElfHeader → Bytes → Bytes
layout e_type h rest =
    Elf.elf_magic
    ++ (2 ∷ 1 ∷ replicate 10 0
        ++ (to_le 2 e_type
            ++ (to_le 2 62
                ++ (replicate 4 0
                    ++ (to_le 8 h.entry
                        ++ (to_le 8 h.program_header_offset
                            ++ (replicate 14 0
                                ++ (to_le 2 h.program_header_entry_size
                                    ++ (to_le 2 h.program_header_count
                                        ++ (replicate 6 0 ++ rest))))))))))

-- The values fit their fields, and the type and the entry size are accepted.
pub record Fits (e_type : ℕ) (h : ElfHeader) : Type 0 where
  pub e_type_known : (e_type ≡ 2) ⊎ (e_type ≡ 3)
  pub entry : h.entry < 2 ^ 64
  pub offset : h.program_header_offset < 2 ^ 64
  pub size : h.program_header_entry_size < 2 ^ 16
  pub size_min : 56 ≤ h.program_header_entry_size
  pub count : h.program_header_count < 2 ^ 16

module _ (e_type : ℕ) (h : ElfHeader) (rest : Bytes) where
  type_field : take 2 (drop 16 (layout e_type h rest)) ≡ to_le 2 e_type
  unfolding to_le
  type_field = refl

  entry_field : take 8 (drop 24 (layout e_type h rest)) ≡ to_le 8 h.entry
  unfolding to_le
  entry_field = refl

  offset_field : take 8 (drop 32 (layout e_type h rest)) ≡ to_le 8 h.program_header_offset
  unfolding to_le
  offset_field = refl

  size_field : take 2 (drop 54 (layout e_type h rest)) ≡ to_le 2 h.program_header_entry_size
  unfolding to_le
  size_field = refl

  count_field : take 2 (drop 56 (layout e_type h rest)) ≡ to_le 2 h.program_header_count
  unfolding to_le
  count_field = refl

  fixed_fields :
      (take 4 (layout e_type h rest) ≡ Elf.elf_magic)
      × (field (layout e_type h rest) 4 1 ≡ 2)
      × (field (layout e_type h rest) 5 1 ≡ 1)
      × (field (layout e_type h rest) 18 2 ≡ 62)
      × (64 ≤ length (layout e_type h rest))
  unfolding to_le from_le
  fixed_fields = (refl, refl, refl, refl, omega arith)

checks-ok :
    (bytes : Bytes) (h : ElfHeader)
    → 64 ≤ length bytes
    → take 4 bytes ≡ Elf.elf_magic
    → field bytes 4 1 ≡ 2
    → field bytes 5 1 ≡ 1
    → field bytes 18 2 ≡ 62
    → (field bytes 16 2 ≡ 2) ⊎ (field bytes 16 2 ≡ 3)
    → 56 ≤ h.program_header_entry_size
    → field bytes 24 8 ≡ h.entry
    → field bytes 32 8 ≡ h.program_header_offset
    → field bytes 54 2 ≡ h.program_header_entry_size
    → field bytes 56 2 ≡ h.program_header_count
    → checks bytes ≡ ok h
unfolding bytes_eq
checks-ok bytes h long magic class endian machine ty size_min entry offset size count =
    let enough : ltb (length bytes) 64 ≡ false = ground arith in
    let room : ltb h.program_header_entry_size 56 ≡ false = ground arith in
    elim ty [
      | inl exec ↦
          rw (enough, magic, class, endian, exec, machine, size, room, entry, offset, count)
      | inr dyn ↦ rw (enough, magic, class, endian, dyn, machine, size, room, entry, offset, count)
    ]

-- Reading an ELF header gives back the fields that were laid out in it, whatever follows it.
pub parse_header-layout :
    (e_type : ℕ) (h : ElfHeader) (rest : Bytes)
    → Fits e_type h
    → parse_header (layout e_type h rest) ≡ ok h
parse_header-layout e_type h rest fits = parse_header-checks (layout e_type h rest) ∙ passes
  where
    ty : field (layout e_type h rest) 16 2 ≡ e_type
    ty =
        ap from_le (type_field e_type h rest)
        ∙ from_le-to_le 2 e_type (ground (arith, fits.e_type_known))

    entry : field (layout e_type h rest) 24 8 ≡ h.entry
    entry =
        ap from_le (entry_field e_type h rest) ∙ from_le-to_le 8 h.entry (omega (arith, fits.entry))

    offset : field (layout e_type h rest) 32 8 ≡ h.program_header_offset
    offset =
        ap from_le (offset_field e_type h rest)
        ∙ from_le-to_le 8 h.program_header_offset (omega (arith, fits.offset))

    size : field (layout e_type h rest) 54 2 ≡ h.program_header_entry_size
    size =
        ap from_le (size_field e_type h rest)
        ∙ from_le-to_le 2 h.program_header_entry_size (omega (arith, fits.size))

    count : field (layout e_type h rest) 56 2 ≡ h.program_header_count
    count =
        ap from_le (count_field e_type h rest)
        ∙ from_le-to_le 2 h.program_header_count (omega (arith, fits.count))

    accepted_type :
        field (layout e_type h rest) 16 2 ≡ e_type
        → (e_type ≡ 2) ⊎ (e_type ≡ 3)
        → (field (layout e_type h rest) 16 2 ≡ 2) ⊎ (field (layout e_type h rest) 16 2 ≡ 3)
    accepted_type e (inl k) = inl (e ∙ k)
    accepted_type e (inr k) = inr (e ∙ k)

    passes : checks (layout e_type h rest) ≡ ok h
    passes =
        let (magic, class, endian, machine, long) = fixed_fields e_type h rest in
        checks-ok (layout e_type h rest) h long magic class endian machine
          (accepted_type ty fits.e_type_known) fits.size_min entry offset size count
