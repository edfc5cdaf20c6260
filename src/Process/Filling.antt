-- ===== src/Process/Filling.antt =====
-- The writing of a segment's bytes, chunk by chunk (the two loops of `new_from_elf`,
-- kernel/src/process.rs).
use new_os.Base.{
  ℕ, zero, suc, ◌+◌, ◌-◌, ◌%◌, ◌≤◌, ◌<◌, ◌≡◌, ◌≢◌, refl, ap, ◌∙◌, inl, inr, min, true, false, some,
  List, length, get_elem?, ltb, Run, returned, Bool-cases, ltb→lt, arith,
}
use mathlib.Core.Path.{subst}
use native.Mathlib.Decide.{dec_lt}
use new_os.Paging.{Platform, Machine}
use new_os.Process.{Mapper, Memory, lay, write_chunk, write_chunks}
use new_os.Process.Chunks.{
  IsLaid, place, translate_place, place_injective, place_add, lay_inside, lay_outside,
}

-- `part` gives, from `lo` to `limit`, the bytes of `content`.
abbrev pub Supplies : (ℕ → ℕ) → ℕ → ℕ → (ℕ → ℕ → Run (List ℕ)) → Type 0
Supplies content lo limit part =
    (o n : ℕ)
    → lo ≤ o
    → o + n ≤ limit
    → (l : List ℕ) × (part o n ≡ returned l)
      × (length l ≡ n)
      × ((i : ℕ) → i < n → get_elem? l i ≡ some (content (o + i)))

module _ (p : Platform) (x : Mapper p) (s : Platform.PhysFrame p) (start size : ℕ) (base : ℕ → ℕ)
    (m : Machine p) (laid : IsLaid p x s start size base m) (content : ℕ → ℕ) where
  -- From `lo` to `hi` the region holds the content, and no other byte has changed.
  pub record Written (lo hi : ℕ) (bytes bytes' : ℕ → ℕ) : Type 0 where
    pub inside : (o : ℕ) → lo ≤ o → o < hi → bytes' (place base (start + o)) ≡ content o
    pub outside :
        (a : ℕ) → ((o : ℕ) → lo ≤ o → o < hi → a ≢ place base (start + o)) → bytes' a ≡ bytes a

  pub Written-append :
      (lo mid hi : ℕ) (b c d : ℕ → ℕ)
      → lo ≤ mid
      → mid ≤ hi
      → hi ≤ size
      → Written lo mid b c
      → Written mid hi c d
      → Written lo hi b d
  Written-append lo mid hi b c d low high within f g = record {
    inside = inside;
    outside = λ a far.
        g.outside a (λ o l h. far o (omega (arith, low, l)) h)
        ∙ f.outside a (λ o l h. far o l (omega (arith, high, h)));
  }
    where
      inside : (o : ℕ) → lo ≤ o → o < hi → d (place base (start + o)) ≡ content o
      inside o l h = elim (dec_lt o mid) [
        | yes early ↦
            g.outside (place base (start + o)) (λ u l' h' same.
              let e =
                place_injective p x s start size base m laid o u (omega (arith, h, within))
                  (omega (arith, h', within)) same in
              omega (arith, e, early, l'))
            ∙ f.inside o l early
        | no late ↦ g.inside o (ground (arith, late)) h
      ]

  Written-none : (lo hi : ℕ) (b : ℕ → ℕ) → hi ≤ lo → Written lo hi b b
  Written-none lo hi b none_left = record {
    inside = λ o l h. absurd (omega (arith, l, h, none_left));
    outside = λ a far. refl;
  }

  abbrev chunk : ℕ → ℕ → ℕ
  chunk limit offset = min (limit - offset) (4096 - (start + offset) % 4096)

  Written-lay :
      (limit offset : ℕ) (l : List ℕ) (b : ℕ → ℕ)
      → length l ≡ chunk limit offset
      → ((i : ℕ) → i < chunk limit offset → get_elem? l i ≡ some (content (offset + i)))
      → Written offset (offset + chunk limit offset) b (lay (place base (start + offset)) l b)
  Written-lay limit offset l b size_l holds = record { inside = inside; outside = outside }
    where
      short : (i : ℕ) → i < chunk limit offset → (start + offset) % 4096 + i < 4096
      short i h = omega (arith, h)

      inside :
          (o : ℕ)
          → offset ≤ o
          → o < offset + chunk limit offset
          → lay (place base (start + offset)) l b (place base (start + o)) ≡ content o
      inside o low high =
          let i = o - offset in
          let e : offset + i ≡ o = omega (arith, low) in
          let below : i < chunk limit offset = omega (arith, low, high) in
          subst (λ o. lay (place base (start + offset)) l b (place base (start + o)) ≡ content o) e
            (ap (lay (place base (start + offset)) l b)
                (place_add p x s start size base m laid offset i (short i below))
              ∙ lay_inside (place base (start + offset)) i (content (offset + i)) l b
                  (holds i below))

      outside :
          (a : ℕ)
          → ((o : ℕ) → offset ≤ o → o < offset + chunk limit offset → a ≢ place base (start + o))
          → lay (place base (start + offset)) l b a ≡ b a
      outside a far =
          let d = place base (start + offset) in
          elim (dec_lt a d) [
            | yes low ↦ lay_outside d l b a (inl low)
            | no above ↦ elim (dec_lt a (d + length l)) [
              | no high ↦ lay_outside d l b a (inr (ground (arith, high)))
              | yes within ↦
                  let i = a - d in
                  let d_le : d ≤ a = ground (arith, above) in
                  let below : i < chunk limit offset = omega (arith, within, d_le, size_l) in
                  let at = place_add p x s start size base m laid offset i (short i below) in
                  absurd (
                    far (offset + i) (omega arith) (omega (arith, below)) (omega (arith, at, d_le)))
            ]
          ]

  module _ (lo limit : ℕ) (within : limit ≤ size) (part : ℕ → ℕ → Run (List ℕ))
      (supplies : Supplies content lo limit part) where
    chunk_lem :
        (offset : ℕ) (b : ℕ → ℕ)
        → lo ≤ offset
        → offset < limit
        → (next : ℕ) × (c : ℕ → ℕ) × (write_chunk p x part s start limit offset
              (record { machine = m; bytes = b })
            ≡ returned (next, record { machine = m; bytes = c }))
          × (offset < next)
          × (next ≤ limit)
          × Written offset next b c
    unfolding write_chunk
    chunk_lem offset b from more =
        let inside : offset < size = omega (arith, more, within) in
        let fits = laid.fits in
        let ran =
          x.virt_add_lem start offset (laid.canonical offset inside)
            (omega (arith, fits, inside)) in
        let there = translate_place p x s start size base m laid offset inside in
        let (l, given, size_l, holds) =
          supplies offset (chunk limit offset) from (omega (arith, more)) in
        (
          offset + chunk limit offset,
          lay (place base (start + offset)) l b,
          rw (ran, there, given) refl,
          omega (arith, more),
          omega (arith, more),
          Written-lay limit offset l b size_l holds,
        )

    chunks_done :
        (fuel offset : ℕ) (b : Memory p x)
        → ltb offset limit ≡ false
        → write_chunks p x part s start limit (suc fuel) offset b ≡ returned b
    unfolding write_chunks
    chunks_done fuel offset b done = rw (done, write_chunks) refl

    chunks_more :
        (fuel offset next : ℕ) (b c : Memory p x)
        → ltb offset limit ≡ true
        → write_chunk p x part s start limit offset b ≡ returned (next, c)
        → write_chunks p x part s start limit (suc fuel) offset b
          ≡ write_chunks p x part s start limit fuel next c
    unfolding write_chunks
    chunks_more fuel offset next b c more ran = rw (more, write_chunks) (rw ran refl)

    -- The loop ends, with the content written from the offset to the limit.
    pub write_chunks_lem :
        (fuel offset : ℕ) (b : ℕ → ℕ)
        → lo ≤ offset
        → limit ≤ offset + fuel
        → (c : ℕ → ℕ) × (write_chunks p x part s start limit fuel offset
              (record { machine = m; bytes = b })
            ≡ returned (record { machine = m; bytes = c }))
          × Written offset limit b c
    unfolding write_chunks
    write_chunks_lem zero offset b from enough =
        (b, refl, Written-none offset limit b (omega (arith, enough)))
    write_chunks_lem (suc fuel) offset b from enough = elim (Bool-cases (ltb offset limit)) [
      | inr done ↦
          (b, chunks_done fuel offset _ done, Written-none offset limit b (ground (arith, done)))
      | inl more ↦
          let lt = ltb→lt offset limit more in
          let (next, c, ran, ahead, below, first) = chunk_lem offset b from lt in
          let (d, rest_ran, rest) =
            write_chunks_lem fuel next c (omega (arith, from, ahead))
              (omega (arith, ahead, enough)) in
          (
            d,
            chunks_more fuel offset next _ _ more ran ∙ rest_ran,
            Written-append offset next limit b c d (omega (arith, ahead)) below within first rest,
          )
    ]
