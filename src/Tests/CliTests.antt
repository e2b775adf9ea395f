-- ===== src/Tests/CliTests.antt =====
-- __main__.py: the loader of a proof root, and one atomic write; sign/local.py: one key file.
use checkseal.Common.{
  ◌≡◌, ◌≢◌, refl, true, false, String, Bool, [], ◌∷◌, none, some, All, str_eq, if◌then◌else◌, subst,
}
use checkseal.Common.Int.{pos}
use checkseal.Common.Text.{starts_with, drop}
use checkseal.Common.Outcome.{ok, raise, os_error}
use checkseal.Cli.Loader.{
  Shell, ProcessEnd, ReturnsAbsolute, IsConfined, confined, build_loader, build_loader-IsConfined,
  load_inside, is_inside, default_report_loader, without_scheme, join_path,
}
use checkseal.Cli.Atomic.{
  Disk, WriteEnd, UnlinkEnd, WriteRun, OldOrNew, EndsWell, write_atomic, write_atomic-IsAtomic,
}
use checkseal.Sign.KeyFile.{
  File, Files, KeyRun, KeyWrite, IsPrivate, EndsPrivate, write_private_pem,
}
use checkseal.Sign.KeyFile.Laws.{write_private_pem-IsPrivate}
use checkseal.Tests.Data.{machine}

-- `/proofs` is the one path that does not resolve to the root.
abbrev resolve : String → String
resolve path =
    if str_eq path "proofs"
    then "/proofs"
    else if str_eq path "/proofs/hb.json"
    then "/proofs/hb.json"
    else "/"

abbrev pub shell : Shell
shell = record {
  realpath = λ path. ok (resolve path);
  split = λ command. ok (command ∷ []);
  run = λ argv check_id config_ref. ok (ProcessEnd.exited (pos 0));
}

choice-absolute :
    (b c : Bool)
    → starts_with (if b then "/proofs" else if c then "/proofs/hb.json" else "/") "/" ≡ true
unfolding starts_with
choice-absolute true c = refl
choice-absolute false true = refl
choice-absolute false false = refl

shell-ReturnsAbsolute : ReturnsAbsolute shell
shell-ReturnsAbsolute path full h =
    subst (λ s. starts_with s "/" ≡ true) {x = resolve path} (cc h)
      (choice-absolute (str_eq path "proofs") (str_eq path "/proofs/hb.json"))

proofs-built :
    build_loader shell machine (some "proofs") ≡ ok (some (confined shell machine "/proofs"))
unfolding build_loader
proofs-built = refl

report-loaded : confined shell machine "/proofs" "file:///proofs/hb.json" ≡ ok (98 ∷ [])
unfolding confined load_inside is_inside default_report_loader without_scheme join_path starts_with
    drop
report-loaded = refl

build_loader-IsConfined_example :
    IsConfined machine shell "proofs" "file:///proofs/hb.json" (98 ∷ [])
build_loader-IsConfined_example =
    build_loader-IsConfined machine shell "proofs" (confined shell machine "/proofs")
      "file:///proofs/hb.json" {content = 98 ∷ []} shell-ReturnsAbsolute proofs-built report-loaded

-- A disk with one file, and a write whose `os.replace` raises.
abbrev disk : Disk
disk path = if str_eq path "seal.json" then some (1 ∷ []) else none

abbrev interrupted : WriteRun
interrupted = record {
  make_temporary = ok ".seal.json.tmp";
  write = WriteEnd.complete;
  replace = raise os_error;
  unlink = UnlinkEnd.removed;
}

temporary-ne : ◌≢◌ {A = String} ".seal.json.tmp" "seal.json"
temporary-ne h = cc

write_atomic-IsAtomic_example :
    All
      (OldOrNew ".seal.json.tmp" "seal.json" (2 ∷ []) disk)
      (write_atomic interrupted "seal.json" (2 ∷ []) disk).states
    × OldOrNew ".seal.json.tmp" "seal.json"
        (2 ∷ [])
        disk
        (write_atomic interrupted "seal.json" (2 ∷ []) disk).disk
    × EndsWell interrupted.unlink ".seal.json.tmp" "seal.json"
        (2 ∷ [])
        disk
        (write_atomic interrupted "seal.json" (2 ∷ []) disk).disk
        (write_atomic interrupted "seal.json" (2 ∷ []) disk).result
write_atomic-IsAtomic_example =
    write_atomic-IsAtomic interrupted ".seal.json.tmp" "seal.json" (2 ∷ []) disk refl temporary-ne

-- No file is there, and the write fails after a byte.
abbrev no_files : Files
no_files path = none

abbrev broken_write : KeyRun
broken_write = record {
  opened = ok tt;
  masked = λ mode. mode;
  chmod = ok tt;
  wrapped = ok tt;
  write = KeyWrite.failed (1 ∷ []) os_error;
  close = ok tt;
}

write_private_pem-IsPrivate_example :
    All
      (IsPrivate "key.pem" no_files)
      (write_private_pem broken_write "key.pem" (1 ∷ 2 ∷ []) no_files).states
    × ((write_private_pem broken_write "key.pem" (1 ∷ 2 ∷ []) no_files).opened
        ≡ (write_private_pem broken_write "key.pem" (1 ∷ 2 ∷ []) no_files).closed)
    × EndsPrivate "key.pem"
        (1 ∷ 2 ∷ [])
        (write_private_pem broken_write "key.pem" (1 ∷ 2 ∷ []) no_files).files
        (write_private_pem broken_write "key.pem" (1 ∷ 2 ∷ []) no_files).result
    × ((file : File)
        → no_files "key.pem" ≡ some file
        → ((write_private_pem broken_write "key.pem" (1 ∷ 2 ∷ []) no_files).states ≡ [])
          × ((write_private_pem broken_write "key.pem" (1 ∷ 2 ∷ []) no_files).files ≡ no_files)
          × ((write_private_pem broken_write "key.pem" (1 ∷ 2 ∷ []) no_files).result
              ≡ raise os_error))
write_private_pem-IsPrivate_example =
    write_private_pem-IsPrivate broken_write "key.pem" (1 ∷ 2 ∷ []) no_files
