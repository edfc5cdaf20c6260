-- ===== src/Process/Fork.antt =====
-- The copy of a process (`fork` of kernel/src/process.rs).
use new_os.Base.{
  ℕ, suc, ◌+◌, ◌≤◌, ◌<◌, ◌≡◌, refl, sym, ap, ◌∙◌, true, some, List, [], ◌∷◌, Run, returned, ◌>>=◌,
  arith,
}
use mathlib.Core.Option
use mathlib.Core.Path.{subst}
use new_os.Paging.{Platform, Machine, clone_leaf, create_process_pml4, clone_user_mappings_cow}
use new_os.Paging.Trees.{Indices, sum_from-eq, Below-weaken}
use new_os.Paging.Entries.{Gives, IsShared, clone_leaf-IsShared}
use new_os.Paging.Copies.{Extends, cost-Extends}
use new_os.Paging.Spaces.{resolve, user_cost, IsSpace, Made, create_process_pml4_lem}
use new_os.Paging.CopyOnWrite.{
  SpaceCopied, clone_user_mappings_cow_lem, Made-IsCopyable, resolve-IsSpace, resolve-Copied,
}
use new_os.Process.{Mapper, ProcessInner, new_id}

module _ (p : Platform) (x : Mapper p) where
  open p use {Entry, PhysFrame, Used, is_unused}

  -- The copy of the process and the tables, with the counter of process ids.
  pub record Forked : Type 0 where
    pub child : ProcessInner p x
    pub machine : Machine p
    pub next_id : ℕ

  pub fork : ProcessInner p x → PhysFrame → ℕ → Machine p → Run Forked
  fork parent kernel next m = do
    (pml4, m') ← create_process_pml4 p kernel m
    m'' ← clone_user_mappings_cow p parent.pml4_frame pml4 m'
    returned (record {
      child = record {
        id = (new_id next).0;
        pml4_frame = pml4;
        entry_point = parent.entry_point;
        stack_top = parent.stack_top;
        threads = [];
      };
      machine = m'';
      next_id = (new_id next).1;
    })

  -- What a copy of the process `parent` is.
  pub record IsFork (parent : ProcessInner p x) (m : Machine p) (f : Forked) : Type 0 where
    pub new_root : ¬ Used m.allocator f.child.pml4_frame
    pub same_entry : f.child.entry_point ≡ parent.entry_point
    pub same_stack : f.child.stack_top ≡ parent.stack_top
    pub no_threads : f.child.threads ≡ []
    pub user :
        (i : ℕ) (path : List ℕ)
        → i < 256
        → Indices p path
        → resolve p f.child.pml4_frame (i ∷ path) f.machine.tables
          ≡ Option.map (clone_leaf p true) (resolve p parent.pml4_frame (i ∷ path) m.tables)
    pub shared :
        (i : ℕ) (path : List ℕ) (e : Entry)
        → i < 256
        → Indices p path
        → resolve p parent.pml4_frame (i ∷ path) m.tables ≡ some e
        → (e' : Entry) × (resolve p f.child.pml4_frame (i ∷ path) f.machine.tables ≡ some e')
          × IsShared p e e'
    pub kernel :
        (i : ℕ) (path : List ℕ)
        → 256 ≤ i
        → i < 512
        → Indices p path
        → resolve p f.child.pml4_frame (i ∷ path) f.machine.tables
          ≡ resolve p parent.pml4_frame (i ∷ path) m.tables
    pub unchanged :
        (i : ℕ) (path : List ℕ)
        → i < 512
        → Indices p path
        → resolve p parent.pml4_frame (i ∷ path) f.machine.tables
          ≡ resolve p parent.pml4_frame (i ∷ path) m.tables

  module _ (s kernel d : PhysFrame) (m n : Machine p) (sp : IsSpace p s m)
      (made : Made p kernel d m n) where
    is_old : (t : PhysFrame) → Used m.allocator t → ¬ (t ≡ d)
    is_old t was e = made.was_free (subst (Used m.allocator) e was)

    made_agree : (t : PhysFrame) → Used m.allocator t → (i : ℕ) → n.tables t i ≡ m.tables t i
    made_agree t was i = made.others t (is_old t was) i

    user_cost-Made : user_cost p s n ≡ user_cost p s m
    user_cost-Made =
        let ext : Extends p d (λ _. ⊥) m n = record {
          others = λ t used i free. made_agree t used i;
          kept = made.kept;
        } in
        sum_from-eq _ _ 256 0 (λ (i : ℕ) (low : 0 ≤ i) (h : i < 0 + 256).
          rw (made_agree s sp.root i) (
            cost-Extends p m n ext 3 (m.tables s i) (λ used.
              Below-weaken p (λ t was. (was, is_old t was)) 3 (m.tables s i) m.tables
                (sp.tables_used i (omega (arith, h)) used))))

    module _ (o : Machine p) (copied : SpaceCopied p s d n o) where
      copied_agree : (t : PhysFrame) → Used m.allocator t → (i : ℕ) → o.tables t i ≡ m.tables t i
      copied_agree t was i = copied.others t (made.kept t was) (is_old t was) i ∙ made_agree t was i

      user_half :
          (i : ℕ) (path : List ℕ)
          → i < 256
          → Indices p path
          → resolve p d (i ∷ path) o.tables
            ≡ Option.map (clone_leaf p true) (resolve p s (i ∷ path) m.tables)
      user_half i path low valid =
          resolve-Copied p s d n o i path (copied.copies i low) valid
          ∙ ap (Option.map (clone_leaf p true)) (
              resolve-IsSpace p s s m n i path sp made_agree (made_agree s sp.root i)
                (omega (arith, low)) valid)

  -- With a frame left for the root and for each table of the user half of the parent's space,
  -- whose tables are in use, `fork` returns. The child stands on a new root, has the parent's entry
  -- point and stack and no thread; each user address leads, in its space, to the copy-on-write copy
  -- of the page entry that it leads to in the parent's: the same frame, not writable, marked by
  -- bit 9, the other flags as they were; each address of the other half leads to the same entry; and
  -- the parent's space is what it was, its writable pages included.
  pub fork_lem :
      (k next : ℕ) (parent : ProcessInner p x) (kernel : PhysFrame) (m : Machine p)
      → IsSpace p parent.pml4_frame m
      → Used m.allocator kernel
      → Gives p (suc (user_cost p parent.pml4_frame m + k)) m.allocator
      → (f : Forked) × (fork parent kernel next m ≡ returned f) × IsFork parent m f
  unfolding fork
  fork_lem k next parent kernel m sp used gives =
      let s = parent.pml4_frame in
      let (d, n, made_ok, made, left) =
        create_process_pml4_lem p (user_cost p s m + k) kernel m used gives in
      let costs = user_cost-Made s kernel d m n sp made in
      let (o, copied_ok, copied, rest) =
        clone_user_mappings_cow_lem p k s d n (Made-IsCopyable p s kernel d m n sp made)
          (subst (λ c. Gives p (c + k) n.allocator) (sym costs) left) in
      (
        record {
          child = record {
            id = (new_id next).0;
            pml4_frame = d;
            entry_point = parent.entry_point;
            stack_top = parent.stack_top;
            threads = [];
          };
          machine = o;
          next_id = (new_id next).1;
        },
        rw (made_ok, copied_ok) refl,
        record {
          new_root = made.was_free;
          same_entry = refl;
          same_stack = refl;
          no_threads = refl;
          user = user_half s kernel d m n sp made o copied;
          shared = λ i path e low valid there. (
            clone_leaf p true e,
            user_half s kernel d m n sp made o copied i path low valid
                ∙ ap (Option.map (clone_leaf p true)) there,
            clone_leaf-IsShared p e,
          );
          kernel = λ i path low high valid.
              resolve-IsSpace p s d m o i path sp (copied_agree s kernel d m n sp made o copied)
                (copied.upper i low high ∙ made_agree s kernel d m n sp made s sp.root i) high
                valid;
          unchanged = λ i path high valid.
              resolve-IsSpace p s s m o i path sp (copied_agree s kernel d m n sp made o copied)
                (copied_agree s kernel d m n sp made o copied s sp.root i) high valid;
        },
      )
