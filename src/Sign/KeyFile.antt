-- ===== src/Sign/KeyFile.antt =====
-- sign/local.py `write_private_pem`: the states that the key's file goes through.
pub mod Laws
use checkseal.Common.{ℕ, String, ◌≡◌, ◌≢◌, List, [], ◌∷◌, Option, none, some, str_eq, if◌then◌else◌}
use checkseal.Common.Outcome.{Outcome, Exn, ok, raise, os_error}
use checkseal.Platform.{Bytes}

-- A file: its bytes, and its permission bits.
pub record File : Type 0 where
  pub content : Bytes
  pub mode : ℕ

abbrev pub Files : Type 0
Files = String → Option File

-- `0o600`
abbrev pub owner_only : ℕ
owner_only = 384

-- A new file at a path.
abbrev pub put : String → File → Files → Files
put path file files q = if str_eq path q then some file else files q

abbrev change_file : (File → File) → Option File → Option File
change_file f none = none
change_file f (some file) = some (f file)

-- A change of the file at a path, which is open.
abbrev pub change : String → (File → File) → Files → Files
change path f files q = if str_eq path q then change_file f (files q) else files q

-- What `os.fchmod` does to a file.
abbrev set_mode : ℕ → File → File
set_mode mode file = record file { mode = mode }

-- What `fh.write` does to a file.
abbrev set_content : Bytes → File → File
set_content content file = record file { content = content }

-- How the write of the bytes ends: all of them are in the file, or something raises after a part.
pub data KeyWrite : Type 0 where
  complete : KeyWrite
  failed : Bytes → Exn → KeyWrite

-- How the system calls of one write end. `opened` is what `os.open` does where there is no file, and
-- `masked` what the umask leaves of the permission bits of a new file.
pub record KeyRun : Type 0 where
  pub opened : Outcome (Unit {0})
  pub masked : ℕ → ℕ
  pub chmod : Outcome (Unit {0})
  pub wrapped : Outcome (Unit {0})
  pub write : KeyWrite
  pub close : Outcome (Unit {0})

-- The states of the files after each system call that changes them, how often the descriptor was
-- opened and closed, and how the function ends.
pub record KeyWritten : Type 0 where
  pub states : List Files
  pub files : Files
  pub opened : ℕ
  pub closed : ℕ
  pub result : Outcome (Unit {0})

-- `finally`, where the descriptor is still open: what `os.close` raises takes the place of `e`.
close_and_raise : Outcome (Unit {0}) → Exn → Outcome (Unit {0})
close_and_raise (ok _) e = raise e
close_and_raise (raise e') e = raise e'

-- `with os.fdopen(fd, "wb") as fh`, which closes the file when it ends.
write_key : KeyWrite → String → Bytes → Files → KeyWritten
write_key complete path pem files = record {
  states = change path (set_content pem) files ∷ [];
  files = change path (set_content pem) files;
  opened = 1;
  closed = 1;
  result = ok tt;
}
write_key (failed part e) path pem files = record {
  states = change path (set_content part) files ∷ [];
  files = change path (set_content part) files;
  opened = 1;
  closed = 1;
  result = raise e;
}

-- The descriptor is still open, so it is closed and the exception goes on.
abandon : KeyRun → Exn → Files → KeyWritten
unfolding close_and_raise
abandon run e files = record {
  states = [];
  files = files;
  opened = 1;
  closed = 1;
  result = close_and_raise run.close e;
}

wrap_key : KeyRun → Outcome (Unit {0}) → String → Bytes → Files → KeyWritten
unfolding write_key abandon
wrap_key run (ok _) path pem files = write_key run.write path pem files
wrap_key run (raise e) path pem files = abandon run e files

-- One more state before the others.
abbrev after_state : Files → KeyWritten → KeyWritten
after_state files w = record w { states = files ∷ w.states }

-- `os.fchmod(fd, 0o600)`
protect_key : KeyRun → Outcome (Unit {0}) → String → Bytes → Files → KeyWritten
unfolding wrap_key abandon
protect_key run (ok _) path pem files =
    after_state (change path (set_mode owner_only) files)
      (wrap_key run run.wrapped path pem (change path (set_mode owner_only) files))
protect_key run (raise e) path pem files = abandon run e files

-- The file that `os.open(path, …, 0o600)` makes.
abbrev fresh_file : KeyRun → File
fresh_file run = record { content = []; mode = run.masked owner_only }

create_key : KeyRun → Outcome (Unit {0}) → String → Bytes → Files → KeyWritten
unfolding protect_key
create_key run (ok _) path pem files =
    after_state (put path (fresh_file run) files)
      (protect_key run run.chmod path pem (put path (fresh_file run) files))
create_key run (raise e) path pem files = record {
  states = [];
  files = files;
  opened = 0;
  closed = 0;
  result = raise e;
}

-- `os.open` with `O_EXCL`: a file that is there is an error.
open_key : KeyRun → Option File → String → Bytes → Files → KeyWritten
unfolding create_key
open_key run (some file) path pem files = record {
  states = [];
  files = files;
  opened = 0;
  closed = 0;
  result = raise os_error;
}
open_key run none path pem files = create_key run run.opened path pem files

unfoldable pub write_private_pem : KeyRun → String → Bytes → Files → KeyWritten
unfolding open_key
write_private_pem run path pem files = open_key run (files path) path pem files

-- What holds of every state: no other file is touched, and where the file has bytes, only its owner
-- may read and write it.
abbrev pub IsPrivate : String → Files → Files → Type 0
IsPrivate path files state =
    ((q : String) → q ≢ path → state q ≡ files q)
    × ((file : File) → state path ≡ some file → file.content ≢ [] → file.mode ≡ owner_only)

abbrev pub EndsPrivate : String → Bytes → Files → Outcome (Unit {0}) → Type 0
EndsPrivate path pem files (ok _) = files path ≡ some (record { content = pem; mode = owner_only })
EndsPrivate path pem files (raise _) = Unit
