-- ===== src/Cli/Skillscan/Laws.antt =====
-- What `seal-skillscan` stores, and when.
use mathlib.Core.List.{append-nil, append_assoc}
use checkseal.Common.{
  ℕ, zero, suc, String, Bool, true, false, ◌&&◌, ◌||◌, ◌<>◌, ◌≡◌, ◌≢◌, refl, sym, ap, ◌∙◌, subst,
  arith, Option, none, some, List, [], ◌∷◌, ◌++◌, if◌then◌else◌,
}
use checkseal.Common.Lists.{length}
use checkseal.Common.Outcome.{
  Outcome, ok, raise, vcr_error, value_error, json_decode_error, unicode_decode_error, type_error,
  key_error, index_error, os_error, runtime_error, other_error,
}
use checkseal.Model.Subject.{Subject}
use checkseal.Model.CheckEntry.{CheckEntry}
use checkseal.Platform.{Platform, Bytes}
use checkseal.Sign.Local.{Cryptography, local_signer, load_private_signer}
use checkseal.Seal.{sign_local, to_intoto_jsonl}
use checkseal.Store.{CheckResult, Lines}
use checkseal.Store.Refinement.{Log, Represents, Persisting, append-Represents}
use checkseal.Skillscan.{SkillscanSeed, BundlePath}
use checkseal.Cli.Commands.{Save}
use checkseal.Cli.Seed.{make_seed}
use checkseal.Cli.Skillscan.{
  Shelf, M, continue, ◌>>=◌, lift, SkillscanArgs, is_given, differ, refused, append_entry,
  append_all, text_of, write_end, write_file, write_manifest, seal_now, seal_if_asked, store_seed,
  store_or_refuse, cmd_seal_skillscan,
}

-- The results that a seed's entries are stored as.
abbrev pub scan_log : Subject → List CheckEntry → Log
scan_log subject [] = []
scan_log subject (entry ∷ entries) =
    (record { subject = subject; entry = entry }, true) ∷ scan_log subject entries

-- A statement that leaves the store alone.
abbrev Keeps : {A : Type 0} → M A → Type 0
Keeps m = (shelf : Shelf) → (m shelf).0.store ≡ shelf.store

continue-Keeps :
    {A B : Type 0} (after : A → M B) (store : Lines) (ran : Shelf × Outcome A)
    → ((a : A) → Keeps (after a))
    → ran.0.store ≡ store
    → (continue after ran).0.store ≡ store
continue-Keeps after store (shelf, ok a) h e = h a shelf ∙ e
continue-Keeps after store (shelf, raise x) h e = e

>>=-Keeps :
    {A B : Type 0} (first : M A) (after : A → M B)
    → Keeps first
    → ((a : A) → Keeps (after a))
    → Keeps (first >>= after)
>>=-Keeps first after h k shelf = continue-Keeps after shelf.store (first shelf) k (h shelf)

length-snoc {ℓ} : {A : Type ℓ} (xs : List A) (x : A) → length (xs ++ (x ∷ [])) ≡ suc (length xs)
length-snoc [] x = refl
length-snoc (y ∷ xs) x = ap suc (length-snoc xs x)

write_end-store :
    (path : String) (content : Bytes) (shelf : Shelf) (end : Outcome (Unit {0}))
    → (write_end path content shelf end).0.store ≡ shelf.store
unfolding write_end
write_end-store path content shelf (ok _) = refl
write_end-store path content shelf (raise e) = refl

if-Keeps : {A : Type 0} (b : Bool) (m k : M A) → Keeps m → Keeps k → Keeps (if b then m else k)
if-Keeps true m k h h' = h
if-Keeps false m k h h' = h'

module _ (os : Platform) (save : Save) where
  write_file-Keeps : (path : String) (content : Bytes) → Keeps (write_file os save path content)
  unfolding write_file
  write_file-Keeps path content shelf = write_end-store path content shelf (save path content)

  write_manifest-Keeps :
      (manifest : Option Bytes) (out : Option String) → Keeps (write_manifest os save manifest out)
  unfolding write_manifest
  write_manifest-Keeps none out = λ shelf. refl
  write_manifest-Keeps (some manifest) out =
      if-Keeps (is_given out) (write_file os save (text_of out) manifest) (lift (ok tt))
        (write_file-Keeps (text_of out) manifest) (λ shelf. refl)

  append_all-Represents :
      (subject : Subject) (entries : List CheckEntry) (shelf : Shelf) (log : Log)
      → Represents os shelf.store log
      → Persisting os (suc (length log)) (scan_log subject entries)
      → (store : Lines) × (append_all os save subject entries shelf
          ≡ (record shelf { store = store }, ok tt))
        × Represents os store (log ++ scan_log subject entries)
  unfolding append_all append_entry
  append_all-Represents subject [] shelf log h p =
      (shelf.store, refl, subst (Represents os shelf.store) (sym (append-nil log)) h)
  append_all-Represents subject (entry ∷ entries) shelf log h p =
      let result : CheckResult = record { subject = subject; entry = entry } in
      let (store, a, b) = append-Represents os shelf.store log result true h p.0 in
      let (store', c, d) =
        append_all-Represents subject entries (record shelf { store = store })
          (log ++ ((result, true) ∷ [])) b
          (subst (λ n. Persisting os (suc n) (scan_log subject entries))
            (sym (length-snoc log (result, true))) p.1) in
      (
        store',
        rw (a) c,
        subst (Represents os store')
            (append_assoc log ((result, true) ∷ []) (scan_log subject entries)) d,
      )

same-differ : (a b : Bool) → a ≡ b → differ a b ≡ false
same-differ a b h = ground arith

lift-Keeps : {A : Type 0} (result : Outcome A) → Keeps (lift result)
lift-Keeps result shelf = refl

module _ (os : Platform) (save : Save) (nfc : String → String) {PrivateKey PublicKey : Type 0}
    (crypto : Cryptography PrivateKey PublicKey) where
  seal_now-Keeps :
      (seed : SkillscanSeed) (key out : String) → Keeps (seal_now os save nfc crypto seed key out)
  unfolding seal_now
  seal_now-Keeps seed key out =
      >>=-Keeps (lift (load_private_signer os crypto key)) _
        (lift-Keeps (load_private_signer os crypto key))
        (λ signer.
          >>=-Keeps (lift (sign_local os seed.predicate (local_signer os crypto signer) false)) _
            (lift-Keeps (sign_local os seed.predicate (local_signer os crypto signer) false))
            (λ seal.
              >>=-Keeps (lift (to_intoto_jsonl os seal)) _ (lift-Keeps (to_intoto_jsonl os seal))
                (λ text. write_file-Keeps os save out (os.encode_utf8 (text <> "\n")))))

  seal_if_asked-Keeps :
      (seed : SkillscanSeed) (key out : Option String)
      → Keeps (seal_if_asked os save nfc crypto seed key out)
  unfolding seal_if_asked
  seal_if_asked-Keeps seed key out =
      if-Keeps (is_given key && is_given out)
        (seal_now os save nfc crypto seed (text_of key) (text_of out)) _
        (seal_now-Keeps seed (text_of key) (text_of out))
        (if-Keeps (is_given key || is_given out)
          (lift (raise (value_error "--key and --out must be supplied together"))) (lift (ok tt))
          (λ shelf. refl) (λ shelf. refl))

  store_seed-Represents :
      (args : SkillscanArgs) (seed : SkillscanSeed) (shelf : Shelf) (log : Log)
      → Represents os shelf.store log
      → Persisting os (suc (length log)) (scan_log seed.predicate.subject seed.predicate.checks)
      → Represents os
          (store_seed os save nfc crypto args seed shelf).0.store
          (log ++ scan_log seed.predicate.subject seed.predicate.checks)
  unfolding store_seed
  store_seed-Represents args seed shelf log h p =
      let (store, a, b) =
        append_all-Represents os save seed.predicate.subject seed.predicate.checks shelf log h p in
      let rest =
        >>=-Keeps (write_manifest os save seed.manifest_bytes args.manifest_out)
          (λ _. seal_if_asked os save nfc crypto seed args.key args.out >>= λ _. lift (ok zero))
          (write_manifest-Keeps os save seed.manifest_bytes args.manifest_out)
          (λ _.
            >>=-Keeps (seal_if_asked os save nfc crypto seed args.key args.out)
              (λ _. lift (ok zero)) (seal_if_asked-Keeps seed args.key args.out)
              (λ _. lift-Keeps (ok zero))) in
      rw (a) (
        subst (λ s. Represents os s (log ++ scan_log seed.predicate.subject seed.predicate.checks))
          (sym (rest (record shelf { store = store }))) b)

  -- Where `--key` and `--out` were given together or not at all, a seed was made, the store holds a
  -- log, and the encodings read back for the seed's results, `seal-skillscan` leaves a store that
  -- holds the log with these results at its end, in their order, whatever becomes of the manifest and
  -- of the seal afterwards.
  pub cmd_seal_skillscan-Represents :
      (args : SkillscanArgs) (bundle : BundlePath) (shelf : Shelf) (log : Log) (content : Bytes)
      (seed : SkillscanSeed)
      → is_given args.key ≡ is_given args.out
      → os.read_file args.report ≡ ok content
      → make_seed os nfc args.authority args.runner bundle content ≡ ok seed
      → Represents os shelf.store log
      → Persisting os (suc (length log)) (scan_log seed.predicate.subject seed.predicate.checks)
      → Represents os
          (cmd_seal_skillscan os save nfc crypto args bundle shelf).0.store
          (log ++ scan_log seed.predicate.subject seed.predicate.checks)
  unfolding cmd_seal_skillscan refused store_or_refuse
  cmd_seal_skillscan-Represents args bundle shelf log content seed both read made h p =
      rw (same-differ (is_given args.key) (is_given args.out) both, read, made)
        (store_seed-Represents args seed shelf log h p)

  -- What a command that refuses does: the shelf is as before, and the exit code is not 0.
  Refuses : Shelf → Shelf × Outcome ℕ → Type 0
  Refuses shelf (after, result) = (after ≡ shelf) × (result ≢ ok 0)

  made-Refuses :
      (args : SkillscanArgs) (shelf : Shelf) (made : Outcome SkillscanSeed)
      → ((seed : SkillscanSeed) → made ≢ ok seed)
      → Refuses shelf ((lift (refused made) >>= store_or_refuse os save nfc crypto args) shelf)
  unfolding Refuses refused store_or_refuse
  made-Refuses args shelf (ok seed) h = absurd (h seed refl)
  made-Refuses args shelf (raise (vcr_error _)) h = (refl, λ e. cc e)
  made-Refuses args shelf (raise (value_error _)) h = (refl, λ e. cc e)
  made-Refuses args shelf (raise json_decode_error) h = (refl, λ e. cc e)
  made-Refuses args shelf (raise unicode_decode_error) h = (refl, λ e. cc e)
  made-Refuses args shelf (raise type_error) h = (refl, λ e. cc e)
  made-Refuses args shelf (raise key_error) h = (refl, λ e. cc e)
  made-Refuses args shelf (raise index_error) h = (refl, λ e. cc e)
  made-Refuses args shelf (raise os_error) h = (refl, λ e. cc e)
  made-Refuses args shelf (raise runtime_error) h = (refl, λ e. cc e)
  made-Refuses args shelf (raise (other_error _)) h = (refl, λ e. cc e)

  read-Refuses :
      (args : SkillscanArgs) (bundle : BundlePath) (shelf : Shelf) (read : Outcome Bytes)
      → ((content : Bytes) (seed : SkillscanSeed)
          → read ≡ ok content
          → make_seed os nfc args.authority args.runner bundle content ≢ ok seed)
      → Refuses shelf (
          (lift read >>= λ content.
          lift (refused (make_seed os nfc args.authority args.runner bundle content))
          >>= store_or_refuse os save nfc crypto args)
            shelf)
  unfolding Refuses
  read-Refuses args bundle shelf (ok content) h =
      made-Refuses args shelf (make_seed os nfc args.authority args.runner bundle content)
        (λ seed. h content seed refl)
  read-Refuses args bundle shelf (raise e) h = (refl, λ x. cc x)

  if-Refuses :
      (b : Bool) (message : String) (m : M ℕ) (shelf : Shelf)
      → Refuses shelf (m shelf)
      → Refuses shelf ((if b then lift (raise (value_error message)) else m) shelf)
  unfolding Refuses
  if-Refuses true message m shelf h = (refl, λ x. cc x)
  if-Refuses false message m shelf h = h

  -- If the report cannot be read or makes no seed, `seal-skillscan` stores and writes nothing, and
  -- does not exit with 0.
  pub cmd_seal_skillscan-refuses :
      (args : SkillscanArgs) (bundle : BundlePath) (shelf : Shelf)
      → ((content : Bytes) (seed : SkillscanSeed)
          → os.read_file args.report ≡ ok content
          → make_seed os nfc args.authority args.runner bundle content ≢ ok seed)
      → ((cmd_seal_skillscan os save nfc crypto args bundle shelf).0 ≡ shelf)
        × ((cmd_seal_skillscan os save nfc crypto args bundle shelf).1 ≢ ok 0)
  unfolding cmd_seal_skillscan Refuses
  cmd_seal_skillscan-refuses args bundle shelf none_made =
      if-Refuses (differ (is_given args.key) (is_given args.out))
        "--key and --out must be supplied together" _ shelf
        (read-Refuses args bundle shelf (os.read_file args.report) none_made)
