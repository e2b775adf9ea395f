-- ===== src/Store/Unreadable.antt =====
-- What a line that does not parse does to the store.
use checkseal.Common.{
  String, true, ◌≡◌, refl, List, [], ◌∷◌, ◌++◌, some, arith, Bool, Bool-cases, inl, inr,
}
use checkseal.Common.Text.{strip, nonempty}
use checkseal.Common.Outcome.{Exn, ok, raise, ◌>>=◌, >>=-eq-ok}
use checkseal.Model.Subject.{Subject}
use checkseal.Platform.{Platform}
use checkseal.Seal.{assemble}
use checkseal.Store.{CheckResult, T0Record, read_line, read_lines, read, read_for_subject, append}

module _ (os : Platform) where
  read_lines-bad :
      (before : List String) (bad : String) (after : List String) (rows : List T0Record) (e : Exn)
      → read_lines os before ≡ ok rows
      → nonempty (strip bad) ≡ true
      → read_line os (strip bad) ≡ raise e
      → read_lines os (before ++ (bad ∷ after)) ≡ raise e
  unfolding read_lines
  read_lines-bad [] bad after rows e h p q = ground arith
  read_lines-bad (first ∷ before) bad after rows e h p q =
      elim (Bool-cases (nonempty (strip first))) [
        | inr blank ↦ rw (blank) (read_lines-bad before bad after rows e (rw (blank) at h) p q)
        | inl printed ↦
            let (row, a, b) =
              >>=-eq-ok (read_line os (strip first))
                (λ row. read_lines os before >>= λ rest. ok (row ∷ rest)) (rw (printed) at h) in
            let (rest, c, d) = >>=-eq-ok (read_lines os before) (λ rest. ok (row ∷ rest)) b in
            ground (arith, read_lines-bad before bad after rest e c p q)
      ]

  -- The exception of the first line that is neither blank nor readable comes out of every operation:
  -- nothing is read, nothing is appended, and nothing is assembled, whatever stands after it.
  pub unreadable_line :
      (before : List String) (bad : String) (after : List String) (rows : List T0Record) (e : Exn)
      → read_lines os before ≡ ok rows
      → nonempty (strip bad) ≡ true
      → read_line os (strip bad) ≡ raise e
      → (read os (some (before ++ (bad ∷ after))) ≡ raise e)
        × ((r : CheckResult) (durable : Bool)
            → append os (some (before ++ (bad ∷ after))) r durable ≡ raise e)
        × ((digest : String)
            → read_for_subject os (some (before ++ (bad ∷ after))) digest ≡ raise e)
        × ((subject : Subject)
            → assemble (read_for_subject os (some (before ++ (bad ∷ after)))) subject ≡ raise e)
  unfolding read append read_for_subject assemble
  unreadable_line before bad after rows e h p q =
      let raised = read_lines-bad before bad after rows e h p q in
      (
        raised,
        (λ r durable. rw (raised) refl),
        (λ digest. rw (raised) refl),
        (λ subject. rw (raised) refl),
      )
