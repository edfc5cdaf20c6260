-- ===== src/Loader/Copies.antt =====
-- The second loop of `load_kernel` (boot/uefi-loader/src/elf.rs): where the segments are copied to.
use new_os.Base.{
  ℕ, zero, suc, ◌+◌, ◌-◌, ◌≤◌, ◌<◌, ◌≡◌, refl, ap, ◌∙◌, arith, Bool, false, ◌&&◌, Bool-cases, inl,
  inr, Option, none, some, List, [], ◌∷◌, ◌++◌, All, ltb, leb, le→leb, if◌then◌else◌, length,
  length-append, length-take, length-drop, take, drop, get_elem?, get_elem?-drop, Bytes, slice,
  slice-some, checked_add, u64_mod,
}
use new_os.Loader.{
  ProgramHeader, ok, ok_or, or_panic, or_strays, fail_if, panics, Extent, copy_to, copy_segment,
}
use new_os.Loader.Answers.{
  Answers, answer, Answers-bind, Answers-ok_or, Answers-or_panic, Answers-or_strays,
  Answers-fail_if,
}
use new_os.Loader.Survey.{added, Within}

-- The byte at a virtual address after the copies: that of the last segment whose bytes in the file
-- reach there, or what was there.
unfoldable pub loaded_byte : Bytes → List ProgramHeader → ℕ → Option ℕ → Option ℕ
loaded_byte image [] address old = old
loaded_byte image (s ∷ segments) address old = loaded_byte image segments address (
    if leb s.virtual_address address && ltb address (s.virtual_address + s.file_size)
    then get_elem? image (s.file_offset + (address - s.virtual_address))
    else old)

-- Bytes put over those at a place.
get_elem?-over_start :
    (pages source : Bytes) (i : ℕ)
    → length source ≤ length pages
    → get_elem? (source ++ drop (length source) pages) i
      ≡ (if ltb i (length source) then get_elem? source i else get_elem? pages i)
get_elem?-over_start pages [] i within = ground arith
get_elem?-over_start [] (b ∷ source) i within = absurd (omega arith)
get_elem?-over_start (p ∷ pages) (b ∷ source) zero within = ground arith
get_elem?-over_start (p ∷ pages) (b ∷ source) (suc i) within =
    ground (arith, get_elem?-over_start pages source i (omega arith))

get_elem?-over :
    (pages source : Bytes) (offset i end : ℕ)
    → end ≡ offset + length source
    → end ≤ length pages
    → get_elem? (take offset pages ++ source ++ drop end pages) i
      ≡ (if leb offset i && ltb i end then get_elem? source (i - offset) else get_elem? pages i)
get_elem?-over pages source zero i end e within =
    let here : end ≡ length source = omega (arith, e) in
    let same : i - 0 ≡ i = omega arith in
    rw (here, le→leb 0 i (omega arith), same) (get_elem?-over_start pages source i (omega arith))
get_elem?-over [] source (suc offset) i end e within = absurd (omega arith)
get_elem?-over (p ∷ pages) source (suc offset) i zero e within = absurd (omega arith)
get_elem?-over (p ∷ pages) source (suc offset) zero (suc end) e within = ground arith
get_elem?-over (p ∷ pages) source (suc offset) (suc i) (suc end) e within =
    ground (arith, get_elem?-over pages source offset i end (omega arith) (omega arith))

-- What the copies of segments do to the pages of a virtual base.
pub record Copied (image : Bytes) (virtual_base : ℕ) (segments : List ProgramHeader)
    (pages pages' : Bytes) : Type 0 where
  pub same_length : length pages' ≡ length pages
  pub bytes :
      (address : ℕ)
      → virtual_base ≤ address
      → get_elem? pages' (address - virtual_base)
        ≡ loaded_byte image segments address (get_elem? pages (address - virtual_base))

pub copy_to-ok :
    (base : ℕ) (pages source : Bytes) (offset : ℕ)
    → offset + length source ≤ length pages
    → copy_to base pages (base + offset) source
      ≡ ok (take offset pages ++ source ++ drop (offset + length source) pages)
unfolding copy_to
copy_to-ok base pages source offset within =
    let same : base + offset - base ≡ offset = omega arith in
    rw
      (
        same,
        le→leb base (base + offset) (omega arith),
        le→leb (offset + length source) (length pages) within,
      )
      refl

length-over :
    (pages source : Bytes) (offset : ℕ)
    → offset + length source ≤ length pages
    → length (take offset pages ++ source ++ drop (offset + length source) pages) ≡ length pages
length-over pages source offset within = omega (
  arith,
  length-append (take offset pages ++ source) (drop (offset + length source) pages),
  length-append (take offset pages) source,
  length-take offset pages,
  length-drop (offset + length source) pages,
)

module _ (image : Bytes) (virtual_base base : ℕ) (pages : Bytes) where
  pub length-source :
      (s : ProgramHeader) (source : Bytes)
      → source ≡ take s.file_size (drop s.file_offset image)
      → s.file_offset + s.file_size ≤ length image
      → length source ≡ s.file_size
  length-source s source e in_file = omega (
    arith,
    ap length e,
    length-take s.file_size (drop s.file_offset image),
    length-drop s.file_offset image,
  )

  Copied-over :
      (s : ProgramHeader) (source : Bytes)
      → virtual_base ≤ s.virtual_address
      → s.virtual_address - virtual_base + s.file_size ≤ length pages
      → s.file_offset + s.file_size ≤ length image
      → source ≡ take s.file_size (drop s.file_offset image)
      → Copied image virtual_base (s ∷ []) pages (
          take (s.virtual_address - virtual_base) pages
          ++ source
          ++ drop (s.virtual_address - virtual_base + length source) pages)
  unfolding loaded_byte
  Copied-over s source low high in_file e =
      let offset = s.virtual_address - virtual_base in
      let size = length-source s source e in_file in
      record {
        same_length = length-over pages source offset (omega (arith, size));
        bytes = λ a above.
            let over =
              get_elem?-over pages source offset (a - virtual_base) (offset + length source) refl
                (omega (arith, size)) in
            let test : (leb offset (a - virtual_base)
                  && ltb (a - virtual_base) (offset + length source))
                ≡ (leb s.virtual_address a && ltb a (s.virtual_address + s.file_size)) =
              ground (arith, size) in
            let choice = λ (b : Bool).
              if b
              then get_elem? source (a - virtual_base - offset)
              else get_elem? pages (a - virtual_base) in
            elim (Bool-cases (leb s.virtual_address a && ltb a (s.virtual_address + s.file_size))) [
              | inl inside ↦
                  let part =
                    get_elem?-drop image s.file_offset s.file_size (a - s.virtual_address)
                      (s.file_offset + (a - s.virtual_address)) (ground arith) refl in
                  let index : a - virtual_base - offset ≡ a - s.virtual_address = omega arith in
                  rw inside (
                    over
                    ∙ ap choice (test ∙ inside)
                    ∙ ap (get_elem? source) index
                    ∙ ap (λ t. get_elem? t (a - s.virtual_address)) e
                    ∙ part)
              | inr outside ↦ rw outside (over ∙ ap choice (test ∙ outside))
            ];
      }

  -- One round.
  pub copy_segment-Answers :
      (x : Extent) (found : Option ProgramHeader)
      → x.virtual_base ≡ virtual_base
      → x.virtual_end - virtual_base ≤ length pages
      → base + length pages < u64_mod
      → All (Within x) (added found [])
      → Answers
          (Copied image virtual_base (added found []) pages)
          (copy_segment image virtual_base base pages found)
  unfolding copy_segment loaded_byte
  copy_segment-Answers x none start room limit within =
      answer pages (record { same_length = refl; bytes = λ a above. refl })
  copy_segment-Answers x (some s) start room limit within =
      let segment = within.0 in
      let offset = s.virtual_address - virtual_base in
      let low : virtual_base ≤ s.virtual_address = omega (arith, segment.low, start) in
      let high : offset + s.file_size ≤ length pages =
        omega (arith, segment.fits, segment.high, low) in
      let above : ltb s.virtual_address virtual_base ≡ false = ground arith in
      let no_overflow : checked_add base offset ≡ some (base + offset) = ground arith in
      Answers-bind (ok_or (checked_add s.file_offset s.file_size) _) (Answers-ok_or _ _)
        (λ source_end sum.
          Answers-bind (fail_if (ltb (length image) source_end) _) (Answers-fail_if _ _)
            (λ _ inside.
              let end : source_end ≡ s.file_offset + s.file_size = ground arith in
              let in_file : source_end ≤ length image = ground arith in
              let count : source_end - s.file_offset ≡ s.file_size = omega (arith, end) in
              Answers-bind {P = λ o. o ≡ offset}
                (if ltb s.virtual_address virtual_base then panics else ok offset)
                (rw above (answer offset refl))
                (λ o same.
                  Answers-bind (or_panic (checked_add base o))
                    (Answers-or_panic _ _ (ap (checked_add base) same ∙ no_overflow))
                    (λ dest place.
                      Answers-bind (or_strays (slice image s.file_offset source_end))
                        (Answers-or_strays _ _
                          (slice-some image s.file_offset source_end (omega (arith, end)) in_file))
                        (λ source bytes.
                          let e : source ≡ take s.file_size (drop s.file_offset image) =
                            bytes ∙ ap (λ n. take n (drop s.file_offset image)) count in
                          let size : length source ≡ s.file_size =
                            length-source s source e (omega (arith, in_file, end)) in
                          rw
                            (place, copy_to-ok base pages source offset (omega (arith, size, high)))
                            (answer _
                              (Copied-over s source low high (omega (arith, in_file, end)) e)))))))
