-- ===== src/Repl/Words.antt =====
-- Words and white space in the commands of kernel/src/shell.rs.
use new_os.Base.{
  ℕ, ◌≡◌, refl, sym, ap, ◌∙◌, arith, true, false, inl, inr, Bool-cases, ◌&&◌, List, [], ◌∷◌, ◌++◌,
  All,
}
use mathlib.Core.Path.{subst}
use new_os.Repl.{
  Text, is_whitespace, is_empty, trim_start, trim_end, parts, not_empty, split_whitespace,
}

-- A text without white space, which is not empty.
abbrev pub IsWord : Text → Type 0
IsWord w = All (λ c. is_whitespace c ≡ false) w × (is_empty w ≡ false)

-- What may stand behind a word: nothing, or white space.
abbrev pub EndsWord : Text → Type 0
EndsWord [] = Unit
EndsWord (c ∷ cs) = is_whitespace c ≡ true

-- The words of a text: white space is passed over, and a word goes on to the next white space.
pub data Reads : Text → List Text → Type 0 where
  nothing : Reads [] []
  space :
      {c : ℕ} {cs : Text} {ws : List Text}
      → is_whitespace c ≡ true
      → Reads cs ws
      → Reads (c ∷ cs) ws
  word :
      {w rest : Text} {ws : List Text}
      → IsWord w
      → EndsWord rest
      → Reads rest ws
      → Reads (w ++ rest) (w ∷ ws)

-- The first part of a text and the text behind it.
record FirstPart (text : Text) : Type 0 where
  part : Text
  others : List Text
  rest : Text
  split : parts text ≡ part ∷ others
  plain : All (λ c. is_whitespace c ≡ false) part
  stands : text ≡ part ++ rest
  ends : EndsWord rest
  behind : Reads rest (not_empty others)

-- A part that is not empty is a word.
with_part :
    (p rest : Text) (ps : List Text)
    → All (λ c. is_whitespace c ≡ false) p
    → EndsWord rest
    → Reads rest (not_empty ps)
    → Reads (p ++ rest) (not_empty (p ∷ ps))
with_part [] rest ps plain ends behind = behind
with_part (c ∷ p) rest ps plain ends behind = word (plain, refl) ends behind

Reads-first : (text : Text) → FirstPart text → Reads text (not_empty (parts text))
Reads-first text f =
    let r = with_part f.part f.rest f.others f.plain f.ends f.behind in
    rw (f.split) (subst (λ t. Reads t (not_empty (f.part ∷ f.others))) (sym f.stands) r)

first_part : (text : Text) → FirstPart text
unfolding parts
first_part [] = record {
  part = [];
  others = [];
  rest = [];
  split = refl;
  plain = tt;
  stands = refl;
  ends = tt;
  behind = nothing;
}
first_part (c ∷ cs) =
    let f = first_part cs in
    elim (Bool-cases (is_whitespace c)) [
      | inl blank ↦ record {
        part = [];
        others = parts cs;
        rest = c ∷ cs;
        split = rw blank refl;
        plain = tt;
        stands = refl;
        ends = blank;
        behind = space blank (Reads-first cs f);
      }
      | inr other ↦ record {
        part = c ∷ f.part;
        others = f.others;
        rest = f.rest;
        split = rw (other, f.split) refl;
        plain = (other, f.plain);
        stands = ap (λ (t : Text). c ∷ t) f.stands;
        ends = f.ends;
        behind = f.behind;
      }
    ]

pub split_whitespace-Reads : (text : Text) → Reads text (split_whitespace text)
unfolding split_whitespace
split_whitespace-Reads text = Reads-first text (first_part text)

-- White space at the start makes no part that is kept.
pub split_whitespace-trim_start :
    (text : Text) → split_whitespace (trim_start text) ≡ split_whitespace text
unfolding split_whitespace trim_start parts
split_whitespace-trim_start [] = refl
split_whitespace-trim_start (c ∷ cs) = elim (Bool-cases (is_whitespace c)) [
  | inl blank ↦ rw blank (split_whitespace-trim_start cs)
  | inr other ↦ rw (other, other) refl
]

-- Two texts with the same first part and the same parts behind it that are kept.
record SameParts (s t : Text) : Type 0 where
  part : Text
  of_s : List Text
  of_t : List Text
  split_s : parts s ≡ part ∷ of_s
  split_t : parts t ≡ part ∷ of_t
  same : not_empty of_s ≡ not_empty of_t

not_empty-cons :
    (p : Text) (ps qs : List Text)
    → not_empty ps ≡ not_empty qs
    → not_empty (p ∷ ps) ≡ not_empty (p ∷ qs)
not_empty-cons [] ps qs h = h
not_empty-cons (c ∷ p) ps qs h = ap (λ (ws : List Text). (c ∷ p) ∷ ws) h

same_parts : (s t : Text) → SameParts s t → not_empty (parts s) ≡ not_empty (parts t)
same_parts s t p = rw (p.split_s, p.split_t) (not_empty-cons p.part p.of_s p.of_t p.same)

is_empty-nil : (t : Text) → is_empty t ≡ true → t ≡ []
is_empty-nil [] h = refl
is_empty-nil (c ∷ t) h = absurd (ground (arith, h))

SameParts-cons : (c : ℕ) (s t : Text) → SameParts s t → SameParts (c ∷ s) (c ∷ t)
unfolding parts
SameParts-cons c s t p = elim (Bool-cases (is_whitespace c)) [
  | inl blank ↦ record {
    part = [];
    of_s = parts s;
    of_t = parts t;
    split_s = rw blank refl;
    split_t = rw blank refl;
    same = same_parts s t p;
  }
  | inr other ↦ record {
    part = c ∷ p.part;
    of_s = p.of_s;
    of_t = p.of_t;
    split_s = rw (other, p.split_s) refl;
    split_t = rw (other, p.split_t) refl;
    same = p.same;
  }
]

trim_end-SameParts : (text : Text) → SameParts (trim_end text) text
unfolding trim_end parts
trim_end-SameParts [] = record {
  part = [];
  of_s = [];
  of_t = [];
  split_s = refl;
  split_t = refl;
  same = refl;
}
trim_end-SameParts (c ∷ cs) =
    let p = trim_end-SameParts cs in
    elim (Bool-cases (is_whitespace c && is_empty (trim_end cs))) [
      | inr kept ↦ rw kept (SameParts-cons c (trim_end cs) cs p)
      | inl cut ↦
          let blank : is_whitespace c ≡ true = ground (arith, cut) in
          let no_rest : is_empty (trim_end cs) ≡ true = ground (arith, cut) in
          rw cut (record {
            part = [];
            of_s = [];
            of_t = parts cs;
            split_s = refl;
            split_t = rw blank refl;
            same =
                ap (λ (t : Text). not_empty (parts t)) (sym (is_empty-nil (trim_end cs) no_rest))
                ∙ same_parts (trim_end cs) cs p;
          })
    ]

pub split_whitespace-trim :
    (text : Text) → split_whitespace (trim_end (trim_start text)) ≡ split_whitespace text
unfolding split_whitespace
split_whitespace-trim text =
    same_parts (trim_end (trim_start text)) (trim_start text) (trim_end-SameParts (trim_start text))
    ∙ split_whitespace-trim_start text

pub split_whitespace-nil : (text : Text) → is_empty text ≡ true → split_whitespace text ≡ []
unfolding split_whitespace parts
split_whitespace-nil [] h = refl
split_whitespace-nil (c ∷ cs) h = absurd (ground (arith, h))
