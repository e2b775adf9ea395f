-- ===== src/Sign/KeyFile/Laws.antt =====
-- A key is written to a file that only its owner may read.
use checkseal.Common.{
  String, false, ◌≡◌, ◌≢◌, refl, ◌∙◌, arith, [], Option, none, some, str_eq, eq_iff, All,
}
use text.Mathlib.TextPositions.{eq_refl}
use checkseal.Common.Outcome.{Outcome, Exn, ok, raise, os_error}
use checkseal.Platform.{Bytes}
use checkseal.Sign.KeyFile.{
  File, Files, KeyWrite, KeyRun, KeyWritten, owner_only, put, change, set_mode, set_content,
  fresh_file, close_and_raise, write_key, abandon, wrap_key, protect_key, create_key, open_key,
  write_private_pem, IsPrivate, EndsPrivate, complete, failed,
}

put_self : (path : String) (file : File) (files : Files) → put path file files path ≡ some file
put_self path file files = rw (eq_refl path) refl

put_other :
    (path q : String) (file : File) (files : Files) → q ≢ path → put path file files q ≡ files q
put_other path q file files n =
    let other : str_eq path q ≡ false = ground (arith, eq_iff path q) in rw (other) refl

change_self :
    (path : String) (f : File → File) (files : Files) (file : File)
    → files path ≡ some file
    → change path f files path ≡ some (f file)
change_self path f files file h = rw (eq_refl path, h) refl

change_other :
    (path q : String) (f : File → File) (files : Files) → q ≢ path → change path f files q ≡ files q
change_other path q f files n =
    let other : str_eq path q ≡ false = ground (arith, eq_iff path q) in rw (other) refl

no_file : (file : File) → ◌≡◌ {A = Option File} none (some file) → ⊥
no_file file h = cc

module _ (path : String) (pem : Bytes) (files : Files) where
  -- Only the file at the path may differ, and it is this one.
  abbrev Leaves : File → Files → Type 0
  Leaves file state = ((q : String) → q ≢ path → state q ≡ files q) × (state path ≡ some file)

  put-Leaves : (file : File) → Leaves file (put path file files)
  put-Leaves file = (λ q n. put_other path q file files n, put_self path file files)

  change-Leaves :
      (f : File → File) (file : File) (state : Files)
      → Leaves file state
      → Leaves (f file) (change path f state)
  change-Leaves f file state (h, there) =
      (λ q n. change_other path q f state n ∙ h q n, change_self path f state file there)

  Leaves-IsPrivate :
      (file : File) (state : Files)
      → Leaves file state
      → (file.content ≢ [] → file.mode ≡ owner_only)
      → IsPrivate path files state
  Leaves-IsPrivate file state (h, there) m = (h, λ file' e. ground (arith, e, m, there))

  abbrev IsSafe : KeyWritten → Type 0
  IsSafe w =
      All (IsPrivate path files) w.states
      × (w.opened ≡ w.closed)
      × EndsPrivate path pem w.files w.result

  close_and_raise-EndsPrivate :
      (close : Outcome (Unit {0})) (e : Exn) (state : Files)
      → EndsPrivate path pem state (close_and_raise close e)
  unfolding close_and_raise
  close_and_raise-EndsPrivate (ok _) e state = tt
  close_and_raise-EndsPrivate (raise e') e state = tt

  abandon-IsSafe : (run : KeyRun) (e : Exn) (state : Files) → IsSafe (abandon run e state)
  unfolding abandon
  abandon-IsSafe run e state = (tt, refl, close_and_raise-EndsPrivate run.close e state)

  -- The bytes are written to a file that only its owner may read.
  write_key-IsSafe :
      (write : KeyWrite) (file : File) (state : Files)
      → Leaves file state
      → file.mode ≡ owner_only
      → IsSafe (write_key write path pem state)
  unfolding write_key
  write_key-IsSafe complete file state h m =
      let after = change-Leaves (set_content pem) file state h in
      let private =
        Leaves-IsPrivate (set_content pem file) (change path (set_content pem) state) after
          (λ _. m) in
      ((private, tt), refl, rw (after.1, m) refl)
  write_key-IsSafe (failed part e) file state h m =
      let private =
        Leaves-IsPrivate (set_content part file) (change path (set_content part) state)
          (change-Leaves (set_content part) file state h) (λ _. m) in
      ((private, tt), refl, tt)

  wrap_key-IsSafe :
      (run : KeyRun) (wrapped : Outcome (Unit {0})) (file : File) (state : Files)
      → Leaves file state
      → file.mode ≡ owner_only
      → IsSafe (wrap_key run wrapped path pem state)
  unfolding wrap_key
  wrap_key-IsSafe run (ok _) file state h m = write_key-IsSafe run.write file state h m
  wrap_key-IsSafe run (raise e) file state h m = abandon-IsSafe run e state

  protect_key-IsSafe :
      (run : KeyRun) (chmod : Outcome (Unit {0})) (file : File) (state : Files)
      → Leaves file state
      → IsSafe (protect_key run chmod path pem state)
  unfolding protect_key
  protect_key-IsSafe run (ok _) file state h =
      let after = change-Leaves (set_mode owner_only) file state h in
      let protected : Files = change path (set_mode owner_only) state in
      let (states, balanced, end) =
        wrap_key-IsSafe run run.wrapped (set_mode owner_only file) protected after refl in
      let private = Leaves-IsPrivate (set_mode owner_only file) protected after (λ _. refl) in
      ((private, states), balanced, end)
  protect_key-IsSafe run (raise e) file state h = abandon-IsSafe run e state

  create_key-IsSafe :
      (run : KeyRun) (opened : Outcome (Unit {0})) → IsSafe (create_key run opened path pem files)
  unfolding create_key
  create_key-IsSafe run (ok _) =
      let after = put-Leaves (fresh_file run) in
      let created : Files = put path (fresh_file run) files in
      let (states, balanced, end) =
        protect_key-IsSafe run run.chmod (fresh_file run) created after in
      let private = Leaves-IsPrivate (fresh_file run) created after (λ n. absurd (n refl)) in
      ((private, states), balanced, end)
  create_key-IsSafe run (raise e) = (tt, refl, tt)

  open_key-IsSafe :
      (run : KeyRun) (there : Option File)
      → IsSafe (open_key run there path pem files)
        × ((file : File)
            → there ≡ some file
            → ((open_key run there path pem files).states ≡ [])
              × ((open_key run there path pem files).files ≡ files)
              × ((open_key run there path pem files).result ≡ raise os_error))
  unfolding open_key
  open_key-IsSafe run none = (create_key-IsSafe run run.opened, λ file e. absurd (no_file file e))
  open_key-IsSafe run (some file) = ((tt, refl, tt), λ file' e. (refl, refl, refl))

-- However its system calls end, writing a key touches no other file, never leaves bytes of the key
-- in a file whose permission bits are not 0o600, and closes the descriptor as often as it opened
-- it. A file that was there is kept as it was, and the function raises. If the function returns,
-- the file holds the key and has these bits.
pub write_private_pem-IsPrivate :
    (run : KeyRun) (path : String) (pem : Bytes) (files : Files)
    → All (IsPrivate path files) (write_private_pem run path pem files).states
      × ((write_private_pem run path pem files).opened
          ≡ (write_private_pem run path pem files).closed)
      × EndsPrivate path pem
          (write_private_pem run path pem files).files
          (write_private_pem run path pem files).result
      × ((file : File)
          → files path ≡ some file
          → ((write_private_pem run path pem files).states ≡ [])
            × ((write_private_pem run path pem files).files ≡ files)
            × ((write_private_pem run path pem files).result ≡ raise os_error))
unfolding write_private_pem
write_private_pem-IsPrivate run path pem files =
    let ((states, balanced, end), kept) = open_key-IsSafe path pem files run (files path) in
    (states, balanced, end, kept)
