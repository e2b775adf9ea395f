-- ===== src/Cli/Atomic.antt =====
-- __main__.py `_write_atomic`: the states of the disk that a write goes through.
use text.Mathlib.TextPositions.{eq_refl}
use checkseal.Common.{
  String, false, ◌≡◌, ◌≢◌, ◌⊎◌, inl, inr, refl, sym, ◌∙◌, arith, List, [], ◌∷◌, Option, none, some,
  str_eq, eq_iff, if◌then◌else◌, All,
}
use checkseal.Common.Outcome.{Outcome, Exn, ok, raise}
use checkseal.Platform.{Bytes}

-- The content of each path, where there is a file.
abbrev pub Disk : Type 0
Disk = String → Option Bytes

abbrev pub set_file : String → Option Bytes → Disk → Disk
set_file path content disk q = if str_eq path q then content else disk q

-- Writing, flushing and `os.fsync`: all of the content is on the disk, or something raises after a
-- part of it.
pub data WriteEnd : Type 0 where
  complete : WriteEnd
  failed : Bytes → Exn → WriteEnd

-- `os.unlink(temporary)`
pub data UnlinkEnd : Type 0 where
  removed not_found : UnlinkEnd
  unlink_failed : Exn → UnlinkEnd

-- How the system calls of one write end. `os.replace` is atomic: it takes effect or raises.
pub record WriteRun : Type 0 where
  pub make_temporary : Outcome String
  pub write : WriteEnd
  pub replace : Outcome (Unit {0})
  pub unlink : UnlinkEnd

-- The states of the disk after each system call, and how the function ends.
pub record Written : Type 0 where
  pub states : List Disk
  pub disk : Disk
  pub result : Outcome (Unit {0})

-- One more state before the others.
abbrev after_state : Disk → Written → Written
after_state disk w = record w { states = disk ∷ w.states }

-- The `except BaseException` clause.
clean_up : UnlinkEnd → String → Disk → Exn → Written
clean_up removed temporary disk e = record {
  states = set_file temporary none disk ∷ [];
  disk = set_file temporary none disk;
  result = raise e;
}
clean_up not_found temporary disk e = record { states = []; disk = disk; result = raise e }
clean_up (unlink_failed e') temporary disk e = record {
  states = [];
  disk = disk;
  result = raise e';
}

replace_file : Outcome (Unit {0}) → UnlinkEnd → String → String → Bytes → Disk → Written
unfolding clean_up
replace_file (ok _) unlink temporary path content disk = record {
  states = set_file path (some content) (set_file temporary none disk) ∷ [];
  disk = set_file path (some content) (set_file temporary none disk);
  result = ok tt;
}
replace_file (raise e) unlink temporary path content disk = clean_up unlink temporary disk e

fill_file : WriteRun → WriteEnd → String → String → Bytes → Disk → Written
unfolding replace_file clean_up
fill_file run complete temporary path content disk =
    after_state (set_file temporary (some content) disk) (
      replace_file run.replace run.unlink temporary path content
        (set_file temporary (some content) disk))
fill_file run (failed part e) temporary path content disk =
    after_state (set_file temporary (some part) disk)
      (clean_up run.unlink temporary (set_file temporary (some part) disk) e)

-- `tempfile.mkstemp`, and what comes after it.
start_write : WriteRun → Outcome String → String → Bytes → Disk → Written
unfolding fill_file
start_write run (raise e) path content disk = record { states = []; disk = disk; result = raise e }
start_write run (ok temporary) path content disk =
    after_state (set_file temporary (some []) disk)
      (fill_file run run.write temporary path content (set_file temporary (some []) disk))

-- `_write_atomic`
unfoldable pub write_atomic : WriteRun → String → Bytes → Disk → Written
unfolding start_write
write_atomic run path content disk = start_write run run.make_temporary path content disk

-- A state in which the path has its old content or all of the new, and only the temporary file
-- besides may differ.
abbrev pub OldOrNew : String → String → Bytes → Disk → Disk → Type 0
OldOrNew temporary path content disk state =
    ((state path ≡ disk path) ⊎ (state path ≡ some content))
    × ((q : String) → q ≢ path → q ≢ temporary → state q ≡ disk q)

-- How a write ends.
abbrev pub EndsWell :
    UnlinkEnd → String → String → Bytes → Disk → Disk → Outcome (Unit {0}) → Type 0
EndsWell unlink temporary path content disk final (ok _) =
    (final path ≡ some content) × (final temporary ≡ none)
EndsWell unlink temporary path content disk final (raise _) =
    (final path ≡ disk path) × (unlink ≡ removed → final temporary ≡ none)

ne-str_eq : (a b : String) → a ≢ b → str_eq a b ≡ false
ne-str_eq a b n = ground (arith, eq_iff a b)

set_file_other :
    (a b : String) (c : Option Bytes) (state : Disk) → a ≢ b → set_file a c state b ≡ state b
set_file_other a b c state n = rw (ne-str_eq a b n) refl

set_file_self : (a : String) (c : Option Bytes) (state : Disk) → set_file a c state a ≡ c
set_file_self a c state = rw (eq_refl a) refl

module _ (temporary path : String) (content : Bytes) (disk : Disk) (ne : temporary ≢ path) where
  -- Only the temporary file may differ.
  abbrev Before : Disk → Type 0
  Before state =
      (state path ≡ disk path) × ((q : String) → q ≢ path → q ≢ temporary → state q ≡ disk q)

  Before-OldOrNew : (state : Disk) → Before state → OldOrNew temporary path content disk state
  Before-OldOrNew state h = (inl h.0, h.1)

  Before-temporary :
      (c : Option Bytes) (state : Disk) → Before state → Before (set_file temporary c state)
  Before-temporary c state h = (
    set_file_other temporary path c state ne ∙ h.0,
    λ q n m. set_file_other temporary q c state (λ e. m (sym e)) ∙ h.1 q n m,
  )

  -- What holds of the states and of the end.
  abbrev IsAtomic : UnlinkEnd → Written → Type 0
  IsAtomic unlink w =
      All (OldOrNew temporary path content disk) w.states
      × OldOrNew temporary path content disk w.disk
      × EndsWell unlink temporary path content disk w.disk w.result

  clean_up-IsAtomic :
      (unlink : UnlinkEnd) (state : Disk) (e : Exn)
      → Before state
      → IsAtomic unlink (clean_up unlink temporary state e)
  unfolding clean_up
  clean_up-IsAtomic removed state e h =
      let gone = Before-temporary none state h in
      let same = Before-OldOrNew (set_file temporary none state) gone in
      ((same, tt), same, (gone.0, λ _. set_file_self temporary none state))
  clean_up-IsAtomic not_found state e h = (tt, Before-OldOrNew state h, (h.0, λ u. cc))
  clean_up-IsAtomic (unlink_failed e') state e h = (tt, Before-OldOrNew state h, (h.0, λ u. cc))

  replace_file-IsAtomic :
      (replaced : Outcome (Unit {0})) (unlink : UnlinkEnd) (state : Disk)
      → Before state
      → IsAtomic unlink (replace_file replaced unlink temporary path content state)
  unfolding replace_file
  replace_file-IsAtomic (raise e) unlink state h = clean_up-IsAtomic unlink state e h
  replace_file-IsAtomic (ok _) unlink state h =
      let gone = Before-temporary none state h in
      let moved = set_file_self path (some content) (set_file temporary none state) in
      let final : OldOrNew temporary path content disk
          (set_file path (some content) (set_file temporary none state)) =
        (
          inr moved,
          λ q n m.
              set_file_other path q (some content) (set_file temporary none state) (λ e. n (sym e))
              ∙ gone.1 q n m,
        ) in
      (
        (final, tt),
        final,
        (
          moved,
          set_file_other path temporary (some content) (set_file temporary none state)
                (λ e. ne (sym e))
              ∙ set_file_self temporary none state,
        ),
      )

  fill_file-IsAtomic :
      (run : WriteRun) (written : WriteEnd) (state : Disk)
      → Before state
      → IsAtomic run.unlink (fill_file run written temporary path content state)
  unfolding fill_file
  fill_file-IsAtomic run complete state h =
      let filled = Before-temporary (some content) state h in
      let (states, last, end) =
        replace_file-IsAtomic run.replace run.unlink (set_file temporary (some content) state)
          filled in
      ((Before-OldOrNew (set_file temporary (some content) state) filled, states), last, end)
  fill_file-IsAtomic run (failed part e) state h =
      let partly = Before-temporary (some part) state h in
      let (states, last, end) =
        clean_up-IsAtomic run.unlink (set_file temporary (some part) state) e partly in
      ((Before-OldOrNew (set_file temporary (some part) state) partly, states), last, end)

  start_write-IsAtomic :
      (run : WriteRun) → IsAtomic run.unlink (start_write run (ok temporary) path content disk)
  unfolding start_write
  start_write-IsAtomic run =
      let made = Before-temporary (some []) disk (refl, λ q n m. refl) in
      let (states, last, end) =
        fill_file-IsAtomic run run.write (set_file temporary (some []) disk) made in
      ((Before-OldOrNew (set_file temporary (some []) disk) made, states), last, end)

-- Where `mkstemp` makes a file of another name, the path holds its old content or all of the new
-- after every system call and at the end, and no third file is touched. If the function returns, the path has the
-- new content and the temporary file is gone; if it raises, the path has its old content, and the
-- temporary file is gone if it was unlinked.
pub write_atomic-IsAtomic :
    (run : WriteRun) (temporary path : String) (content : Bytes) (disk : Disk)
    → run.make_temporary ≡ ok temporary
    → temporary ≢ path
    → All (OldOrNew temporary path content disk) (write_atomic run path content disk).states
      × OldOrNew temporary path content disk (write_atomic run path content disk).disk
      × EndsWell run.unlink temporary path content disk
          (write_atomic run path content disk).disk
          (write_atomic run path content disk).result
unfolding write_atomic
write_atomic-IsAtomic run temporary path content disk made ne =
    rw (made) (start_write-IsAtomic temporary path content disk ne run)
