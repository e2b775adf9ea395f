-- ===== src/Cli/Skillscan.antt =====
-- __main__.py `_cmd_seal_skillscan`: the store and the written files are its state.
pub mod Laws
use checkseal.Common.{
  ℕ, String, ◌<>◌, Bool, true, false, not, ◌&&◌, ◌||◌, Option, none, some, List, [], ◌∷◌, ◌++◌,
  if◌then◌else◌,
}
use checkseal.Common.Text.{nonempty}
use checkseal.Common.Outcome.{Outcome, ok, raise, vcr_error, value_error}
use checkseal.Model.Subject.{Subject}
use checkseal.Model.CheckEntry.{CheckEntry}
use checkseal.Platform.{Platform, Bytes}
use checkseal.Sign.Local.{Cryptography, local_signer, load_private_signer}
use checkseal.Seal.{sign_local, to_intoto_jsonl}
use checkseal.Store.{Lines, append}
use checkseal.Skillscan.{SkillscanSeed, BundlePath}
use checkseal.Cli.Commands.{Save}
use checkseal.Cli.Seed.{make_seed}

-- The store's file, and the files written so far.
pub record Shelf : Type 0 where
  pub store : Lines
  pub written : List (String × Bytes)

-- A statement of the command: the shelf afterwards, and its result or what it raises.
abbrev pub M : Type 0 → Type 0
M A = Shelf → Shelf × Outcome A

abbrev continue : {A B : Type 0} → (A → M B) → Shelf × Outcome A → Shelf × Outcome B
continue after (shelf, ok a) = after a shelf
continue after (shelf, raise e) = (shelf, raise e)

infixl 5 ◌>>=◌ ◌>>◌
abbrev pub ◌>>=◌ : {A B : Type 0} → M A → (A → M B) → M B
◌>>=◌ first after shelf = continue after (first shelf)

abbrev pub ◌>>◌ : {B : Type 0} → M (Unit {0}) → M B → M B
first >> after = first >>= λ _. after

-- What does not change the shelf.
abbrev pub lift : {A : Type 0} → Outcome A → M A
lift result shelf = (shelf, result)

pub record SkillscanArgs : Type 0 where
  pub report : String
  pub manifest_out : Option String
  pub key : Option String
  pub out : Option String
  pub authority : String
  pub runner : String

-- `bool(text)` for an argument
abbrev pub is_given : Option String → Bool
is_given none = false
is_given (some text) = nonempty text

-- `bool(args.key) != bool(args.out)`
abbrev differ : Bool → Bool → Bool
differ true b = not b
differ false b = b

abbrev text_of : Option String → String
text_of none = ""
text_of (some text) = text

-- `except VCRError`: no seed, and exit code 1.
unfoldable pub refused : Outcome SkillscanSeed → Outcome (Option SkillscanSeed)
refused (ok seed) = ok (some seed)
refused (raise (vcr_error _)) = ok none
refused (raise e) = raise e

append_end : {A : Type 0} → Shelf → Outcome (A × Lines) → Shelf × Outcome (Unit {0})
append_end shelf (ok appended) = (record shelf { store = appended.1 }, ok tt)
append_end shelf (raise e) = (shelf, raise e)

write_end : String → Bytes → Shelf → Outcome (Unit {0}) → Shelf × Outcome (Unit {0})
write_end path content shelf (ok _) =
    (record shelf { written = shelf.written ++ ((path, content) ∷ []) }, ok tt)
write_end path content shelf (raise e) = (shelf, raise e)

module _ (os : Platform) (save : Save) where
  -- `store.append`
  unfoldable pub append_entry : Subject → CheckEntry → M (Unit {0})
  unfolding append_end
  append_entry subject entry shelf =
      append_end shelf (append os shelf.store (record { subject = subject; entry = entry }) true)

  -- The loop over the checks of the seed.
  unfoldable pub append_all : Subject → List CheckEntry → M (Unit {0})
  append_all subject [] = lift (ok tt)
  append_all subject (entry ∷ entries) = append_entry subject entry >> append_all subject entries

  -- `_write_atomic`
  unfoldable pub write_file : String → Bytes → M (Unit {0})
  unfolding write_end
  write_file path content shelf = write_end path content shelf (save path content)

  -- The canonical manifest, for a directory.
  unfoldable pub write_manifest : Option Bytes → Option String → M (Unit {0})
  write_manifest none out = lift (ok tt)
  write_manifest (some manifest) out =
      if is_given out then write_file (text_of out) manifest else lift (ok tt)

  module _ (nfc : String → String) {PrivateKey PublicKey : Type 0}
      (crypto : Cryptography PrivateKey PublicKey) where
    -- Sealing at once.
    unfoldable pub seal_now : SkillscanSeed → String → String → M (Unit {0})
    seal_now seed key out = do
      signer ← lift (load_private_signer os crypto key)
      seal ← lift (sign_local os seed.predicate (local_signer os crypto signer) false)
      text ← lift (to_intoto_jsonl os seal)
      write_file out (os.encode_utf8 (text <> "\n"))

    unfoldable pub seal_if_asked : SkillscanSeed → Option String → Option String → M (Unit {0})
    seal_if_asked seed key out =
        if is_given key && is_given out
        then seal_now seed (text_of key) (text_of out)
        else if is_given key || is_given out
        then lift (raise (value_error "--key and --out must be supplied together"))
        else lift (ok tt)

    -- What comes after a seed was made.
    unfoldable pub store_seed : SkillscanArgs → SkillscanSeed → M ℕ
    store_seed args seed = do
      append_all seed.predicate.subject seed.predicate.checks
      write_manifest seed.manifest_bytes args.manifest_out
      seal_if_asked seed args.key args.out
      lift (ok 0)

    unfoldable pub store_or_refuse : SkillscanArgs → Option SkillscanSeed → M ℕ
    store_or_refuse args none = lift (ok 1)
    store_or_refuse args (some seed) = store_seed args seed

    -- `_cmd_seal_skillscan`
    unfoldable pub cmd_seal_skillscan : SkillscanArgs → BundlePath → M ℕ
    unfolding append_entry append_all
    cmd_seal_skillscan args bundle =
        if differ (is_given args.key) (is_given args.out)
        then lift (raise (value_error "--key and --out must be supplied together"))
        else do
          report_bytes ← lift (os.read_file args.report)
          seed ← lift (refused (make_seed os nfc args.authority args.runner bundle report_bytes))
          store_or_refuse args seed
