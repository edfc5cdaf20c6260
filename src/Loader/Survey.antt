-- ===== src/Loader/Survey.antt =====
-- The first loop of `load_kernel` (boot/uefi-loader/src/elf.rs): how far the loadable segments reach.
use new_os.Base.{
  ℕ, zero, suc, ◌+◌, ◌≤◌, ◌≡◌, refl, arith, Option, none, some, List, [], ◌∷◌, All, length, Bytes,
  checked_add,
}
use new_os.Loader.{
  ElfHeader, ProgramHeader, Load, ok, err, panics, strays, ok_or, parse_program_header, Extent,
  extend, survey,
}
use new_os.Loader.Answers.{
  Answers, answer, Answers-bind, Answers-same, Answers-weaken, Answers-ok_or,
}
use new_os.Loader.Headers.{IsSegment, parse_program_header-Answers}

abbrev listed : Load (Option ProgramHeader) → List ProgramHeader → List ProgramHeader
listed (ok (some s)) rest = s ∷ rest
listed (ok none) rest = rest
listed (err e) rest = rest
listed panics rest = rest
listed strays rest = rest

-- The loadable segments of the records, `n` of them from an index on.
unfoldable pub segment_list : Bytes → ElfHeader → ℕ → ℕ → List ProgramHeader
segment_list image header zero index = []
segment_list image header (suc n) index =
    listed (parse_program_header image header index) (segment_list image header n (suc index))

-- A segment in an extent.
pub record Within (x : Extent) (s : ProgramHeader) : Type 0 where
  pub fits : s.file_size ≤ s.memory_size
  pub low : x.virtual_base ≤ s.virtual_address
  pub high : s.virtual_address + s.memory_size ≤ x.virtual_end

-- What an extent becomes with more segments.
pub record Extends (x : Extent) (segments : List ProgramHeader) (x' : Extent) : Type 0 where
  pub loadable : x'.loadable ≡ x.loadable + length segments
  pub low : x'.virtual_base ≤ x.virtual_base
  pub high : x.virtual_end ≤ x'.virtual_end
  pub all : All (Within x') segments

abbrev pub added : Option ProgramHeader → List ProgramHeader → List ProgramHeader
added none rest = rest
added (some s) rest = s ∷ rest

-- One round.
pub record Adds (x : Extent) (found : Option ProgramHeader) (x' : Extent) : Type 0 where
  pub step : Extends x (added found []) x'

pub extend-Answers :
    (x : Extent) (found : Option ProgramHeader)
    → IsSegment found
    → Answers (Adds x found) (extend x found)
unfolding extend
extend-Answers x none h = answer x (record {
  step = record { loadable = omega arith; low = omega arith; high = omega arith; all = tt };
})
extend-Answers x (some s) h =
    Answers-bind (ok_or (checked_add s.virtual_address s.memory_size) _) (Answers-ok_or _ _)
      (λ end sum.
        let same : end ≡ s.virtual_address + s.memory_size = ground arith in
        answer _ (record {
          step = record {
            loadable = omega arith;
            low = omega arith;
            high = omega arith;
            all = (record { fits = h.0; low = omega arith; high = omega (arith, same) }, tt);
          };
        }))

pub Extends-trans :
    (x y z : Extent) (found : Option ProgramHeader) (rest : List ProgramHeader)
    → Adds x found y
    → Extends y rest z
    → Extends x (added found rest) z
Extends-trans x y z none rest first then_rest = record {
  loadable = omega (arith, first.step.loadable, then_rest.loadable);
  low = omega (arith, first.step.low, then_rest.low);
  high = omega (arith, first.step.high, then_rest.high);
  all = then_rest.all;
}
Extends-trans x y z (some s) rest first then_rest =
    let here = first.step.all.0 in
    record {
      loadable = omega (arith, first.step.loadable, then_rest.loadable);
      low = omega (arith, first.step.low, then_rest.low);
      high = omega (arith, first.step.high, then_rest.high);
      all = (
        record {
          fits = here.fits;
          low = omega (arith, here.low, then_rest.low);
          high = omega (arith, here.high, then_rest.high);
        },
        then_rest.all,
      );
    }

pub listed-ok :
    (m : Load (Option ProgramHeader)) (found : Option ProgramHeader) (rest : List ProgramHeader)
    → m ≡ ok found
    → listed m rest ≡ added found rest
listed-ok m none rest e = rw e refl
listed-ok m (some s) rest e = rw e refl

-- The loop gives an error, or an extent that contains every loadable segment.
pub survey-Answers :
    (image : Bytes) (header : ElfHeader) (n index : ℕ) (x : Extent)
    → Answers (Extends x (segment_list image header n index)) (survey image header n index x)
unfolding survey segment_list
survey-Answers image header zero index x =
    answer x (record { loadable = omega arith; low = omega arith; high = omega arith; all = tt })
survey-Answers image header (suc n) index x =
    let m = parse_program_header image header index in
    let rest = segment_list image header n (suc index) in
    Answers-bind m (Answers-same m (parse_program_header-Answers image header index))
      (λ found (fits, parsed).
        Answers-bind (extend x found) (extend-Answers x found fits) (λ y adds.
          Answers-weaken (survey-Answers image header n (suc index) y) (λ z extends.
            rw (listed-ok m found rest parsed) (Extends-trans x y z found rest adds extends))))
