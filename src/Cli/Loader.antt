-- ===== src/Cli/Loader.antt =====
-- __main__.py `_build_loader` and `_build_reexecutor`, with hbresolve.py `default_report_loader`.
use checkseal.Common.{
  String, ◌<>◌, Bool, true, false, ◌||◌, ◌≡◌, ◌≢◌, ◌⊎◌, inl, inr, refl, sym, subst, arith, Option,
  none, some, List, str_eq, eq_iff, if◌then◌else◌, Bool-cases,
}
use checkseal.Common.Int.{ℤ, pos}
use checkseal.Common.Text.{starts_with, drop, nonempty}
use checkseal.Common.Outcome.{
  Outcome, ok, raise, value_error, os_error, runtime_error, ◌>>=◌, >>=-eq-ok,
}
use checkseal.Platform.{Platform, Bytes}
use checkseal.HbResolve.{ReportLoader}
use checkseal.Verify.Entries.{ReExecutor}

-- How a subprocess ends: with a return code, or killed at the timeout.
pub data ProcessEnd : Type 0 where
  exited : ℤ → ProcessEnd
  timed_out : ProcessEnd

-- What the commands use of the operating system besides files.
pub record Shell : Type 0 where
  -- `os.path.realpath(path)`
  pub realpath : String → Outcome String
  -- `shlex.split(command)`
  pub split : String → Outcome (List String)
  -- `subprocess.run` of the words, with CHECKSEAL_CHECK_ID and CHECKSEAL_CONFIG_REF added to the
  -- environment
  pub run : List String → String → String → Outcome ProcessEnd

-- `uri[len("file://"):] if uri.startswith("file://") else uri`
unfoldable pub without_scheme : String → String
without_scheme uri = if starts_with uri "file://" then drop 7 uri else uri

unfoldable pub default_report_loader : Platform → ReportLoader
unfolding without_scheme
default_report_loader os uri =
    if starts_with (without_scheme uri) "http://" || starts_with (without_scheme uri) "https://"
    then raise (value_error "remote enforced_proof fetch is not enabled in the offline verifier")
    else os.read_file (without_scheme uri)

-- `path.endswith("/")`
ends_with_slash : String → Bool
ends_with_slash String.[] = false
ends_with_slash (String.◌∷◌ c String.[]) = str_eq (String.◌∷◌ c String.[]) "/"
ends_with_slash (String.◌∷◌ c (String.◌∷◌ d s)) = ends_with_slash (String.◌∷◌ d s)

-- `os.path.join(root, cand)`, whose second part may be absolute
unfoldable pub join_path : String → String → String
unfolding ends_with_slash
join_path root cand =
    if starts_with cand "/"
    then cand
    else if ends_with_slash root
    then root <> cand
    else root <> "/" <> cand

-- `full == root or full.startswith(root + os.sep)`
unfoldable pub is_inside : String → String → Bool
is_inside root full = str_eq full root || starts_with full (root <> "/")

-- `raise TimeoutError`, `raise RuntimeError`, or True
unfoldable pub process_result : ProcessEnd → Outcome Bool
process_result timed_out = raise os_error
process_result (exited (pos code)) = elim code [
  | Prim.Native.Nat.zero ↦ ok true
  | _ ↦ raise runtime_error
]
process_result (exited _) = raise runtime_error

abbrev pub ref_or_empty : Option String → String
ref_or_empty none = ""
ref_or_empty (some ref) = ref

module _ (shell : Shell) where
  -- The closure of `_build_reexecutor`.
  unfoldable pub reexecute_by : List String → ReExecutor
  reexecute_by argv entry = do
    end ← shell.run argv entry.check.id (ref_or_empty entry.check.config_ref)
    process_result end

  -- `_build_reexecutor(args.reexec) if args.reexec else None`
  unfoldable pub build_reexecutor : Option String → Outcome (Option ReExecutor)
  build_reexecutor none = ok none
  build_reexecutor (some command) =
      if nonempty command
      then (do argv ← shell.split command; ok (some (reexecute_by argv)))
      else ok none

  module _ (os : Platform) where
    -- What is read of a path that was resolved.
    unfoldable pub load_inside : String → String → Outcome Bytes
    load_inside root full =
        if is_inside root full
        then default_report_loader os full
        else raise (value_error "enforced_proof path escapes --proof-root")

    -- The closure of `_build_loader`.
    unfoldable pub confined : String → ReportLoader
    confined root uri = do
      full ← shell.realpath (join_path root (without_scheme uri))
      load_inside root full

    -- `_build_loader`
    unfoldable pub build_loader : Option String → Outcome (Option ReportLoader)
    build_loader none = ok none
    build_loader (some proof_root) =
        if nonempty proof_root
        then (do root ← shell.realpath proof_root; ok (some (confined root)))
        else ok none

-- `realpath` returns absolute paths.
abbrev pub ReturnsAbsolute : Shell → Type 0
ReturnsAbsolute shell =
    (path full : String) → shell.realpath path ≡ ok full → starts_with full "/" ≡ true

absolute-default_report_loader :
    (os : Platform) (full : String)
    → starts_with full "/" ≡ true
    → default_report_loader os full ≡ os.read_file full
unfolding default_report_loader starts_with
absolute-default_report_loader os String.[] h = cc
absolute-default_report_loader os (String.◌∷◌ c s) h = ground arith

none-ne-some :
    (loader : ReportLoader)
    → ◌≡◌ {A = Outcome (Option ReportLoader)} (ok none) (ok (some loader))
    → ⊥
none-ne-some loader h = cc

module _ (os : Platform) (shell : Shell) where
  -- What the loader of a proof root reads.
  pub record IsConfined (proof_root uri : String) (content : Bytes) : Type 0 where
    pub root : String
    pub resolved_root : shell.realpath proof_root ≡ ok root
    pub full : String
    pub resolved : shell.realpath (join_path root (without_scheme uri)) ≡ ok full
    pub inside : (full ≡ root) ⊎ (starts_with full (root <> "/") ≡ true)
    pub read : os.read_file full ≡ ok content

  load_inside-inside :
      (root full : String) {content : Bytes}
      → starts_with full "/" ≡ true
      → load_inside shell os root full ≡ ok content
      → ((full ≡ root) ⊎ (starts_with full (root <> "/") ≡ true)) × (os.read_file full ≡ ok content)
  unfolding load_inside is_inside
  load_inside-inside root full {content} abs h =
      ground (arith, eq_iff full root, absolute-default_report_loader os full abs)

  -- Where `realpath` returns absolute paths, the loader that a proof root makes reads only the file
  -- at a resolved path that is the resolved root or lies below it, whatever URI a seal names.
  pub build_loader-IsConfined :
      (proof_root : String) (loader : ReportLoader) (uri : String) {content : Bytes}
      → ReturnsAbsolute shell
      → build_loader shell os (some proof_root) ≡ ok (some loader)
      → loader uri ≡ ok content
      → IsConfined proof_root uri content
  unfolding build_loader confined
  build_loader-IsConfined proof_root loader uri {content} abs h load =
      elim (Bool-cases (nonempty proof_root)) [
        | inr blank ↦ absurd (none-ne-some loader (rw (blank) at h))
        | inl given ↦
            let (root, a, b) =
              >>=-eq-ok (shell.realpath proof_root) (λ root. ok (some (confined shell os root)))
                (rw (given) at h) in
            let same : confined shell os root ≡ loader = cc b in
            let (full, c, d) =
              >>=-eq-ok (shell.realpath (join_path root (without_scheme uri)))
                (load_inside shell os root)
                (subst (λ (f : ReportLoader). f uri ≡ ok content) (sym same) load) in
            let (inside, read) =
              load_inside-inside root full (abs (join_path root (without_scheme uri)) full c) d in
            record {
              root = root;
              resolved_root = a;
              full = full;
              resolved = c;
              inside = inside;
              read = read;
            }
      ]

  load_inside-escapes :
      (full : String)
      → full ≢ "/"
      → starts_with full "//" ≡ false
      → load_inside shell os "/" full
        ≡ raise (value_error "enforced_proof path escapes --proof-root")
  unfolding load_inside is_inside
  load_inside-escapes full n s = ground (arith, eq_iff full "/")

  -- With the file system's root as the proof root, which resolves to itself, every URI is refused
  -- whose path resolves to neither "/" nor a path with two leading slashes: "/" and the separator
  -- make "//", so the loader of `--proof-root /` reads nothing below it.
  pub build_loader-root :
      shell.realpath "/" ≡ ok "/"
      → (loader : ReportLoader) × (build_loader shell os (some "/") ≡ ok (some loader))
        × ((uri full : String)
            → shell.realpath (join_path "/" (without_scheme uri)) ≡ ok full
            → full ≢ "/"
            → starts_with full "//" ≡ false
            → loader uri ≡ raise (value_error "enforced_proof path escapes --proof-root"))
  unfolding build_loader confined
  build_loader-root h =
      (confined shell os "/", rw (h) refl, λ uri full r n s. rw (r) (load_inside-escapes full n s))
