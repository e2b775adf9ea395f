-- ===== src/Model/CheckId/Regex.antt =====
-- The scanner of `CheckId` accepts exactly what the regular expression of model.py matches.
use Prim.Native.Char.{Char}
use Prim.Native.String.{[], ◌∷◌}
use checkseal.Common.{String, Bool, true, ◌≡◌, refl, ◌↔◌, arith, inl, inr, Bool-cases}
use checkseal.Model.CheckId.{is_alnum, is_segment_char, is_slash, Scan, scan, valid_check_id}

pub data Regex : Type 0 where
  one : (Char → Bool) → Regex
  seq : Regex → Regex → Regex
  star : Regex → Regex

-- `r` matches a prefix of the first text, and the second is what is left.
pub data Reads : Regex → String → String → Type 0 where
  one : {p : Char → Bool} (c : Char) {s : String} → p c ≡ true → Reads (Regex.one p) (c ∷ s) s
  seq : {a b : Regex} {s t u : String} → Reads a s t → Reads b t u → Reads (Regex.seq a b) s u
  done : {a : Regex} {s : String} → Reads (Regex.star a) s s
  more :
      {a : Regex} {s t u : String}
      → Reads a s t
      → Reads (Regex.star a) t u
      → Reads (Regex.star a) s u

-- `r+`
abbrev pub plus : Regex → Regex
plus r = Regex.seq r (Regex.star r)

-- `(/[a-z0-9-]+)*`
abbrev segments : Regex
segments = Regex.star (Regex.seq (Regex.one is_slash) (plus (Regex.one is_segment_char)))

-- `[a-z0-9]+(/[a-z0-9-]+)*`
abbrev pub check_id_pattern : Regex
check_id_pattern = Regex.seq (plus (Regex.one is_alnum)) segments

-- What the scanner accepts from each state, as derivations.
abbrev Accepts : Scan → String → Type 0
Accepts Scan.first s = Reads check_id_pattern s []
Accepts Scan.head s = Reads (Regex.seq (Regex.star (Regex.one is_alnum)) segments) s []
Accepts Scan.later s = Reads (Regex.seq (plus (Regex.one is_segment_char)) segments) s []
Accepts Scan.tail s = Reads (Regex.seq (Regex.star (Regex.one is_segment_char)) segments) s []

module _ (c : Char) (s : String) where
  first-alnum : is_alnum c ≡ true → Accepts Scan.head s → Accepts Scan.first (c ∷ s)
  first-alnum p (Reads.seq x y) = Reads.seq (Reads.seq (Reads.one c p) x) y

  head-alnum : is_alnum c ≡ true → Accepts Scan.head s → Accepts Scan.head (c ∷ s)
  head-alnum p (Reads.seq x y) = Reads.seq (Reads.more (Reads.one c p) x) y

  head-slash : is_slash c ≡ true → Accepts Scan.later s → Accepts Scan.head (c ∷ s)
  head-slash p (Reads.seq x y) = Reads.seq Reads.done (Reads.more (Reads.seq (Reads.one c p) x) y)

  later-char : is_segment_char c ≡ true → Accepts Scan.tail s → Accepts Scan.later (c ∷ s)
  later-char p (Reads.seq x y) = Reads.seq (Reads.seq (Reads.one c p) x) y

  tail-char : is_segment_char c ≡ true → Accepts Scan.tail s → Accepts Scan.tail (c ∷ s)
  tail-char p (Reads.seq x y) = Reads.seq (Reads.more (Reads.one c p) x) y

  tail-slash : is_slash c ≡ true → Accepts Scan.later s → Accepts Scan.tail (c ∷ s)
  tail-slash p (Reads.seq x y) = Reads.seq Reads.done (Reads.more (Reads.seq (Reads.one c p) x) y)

scan-Accepts : (at : Scan) (s : String) → scan at s ≡ true → Accepts at s
unfolding valid_check_id
scan-Accepts Scan.first [] h = cc
scan-Accepts Scan.head [] h = Reads.seq Reads.done Reads.done
scan-Accepts Scan.later [] h = cc
scan-Accepts Scan.tail [] h = Reads.seq Reads.done Reads.done
scan-Accepts Scan.first (c ∷ s) h = elim (Bool-cases (is_alnum c)) [
  | inl p ↦ first-alnum c s p (scan-Accepts Scan.head s (ground arith))
  | inr n ↦ ground arith
]
scan-Accepts Scan.head (c ∷ s) h = elim (Bool-cases (is_alnum c)) [
  | inl p ↦ head-alnum c s p (scan-Accepts Scan.head s (ground arith))
  | inr n ↦ elim (Bool-cases (is_slash c)) [
    | inl q ↦ head-slash c s q (scan-Accepts Scan.later s (ground arith))
    | inr m ↦ ground arith
  ]
]
scan-Accepts Scan.later (c ∷ s) h = elim (Bool-cases (is_segment_char c)) [
  | inl p ↦ later-char c s p (scan-Accepts Scan.tail s (ground arith))
  | inr n ↦ ground arith
]
scan-Accepts Scan.tail (c ∷ s) h = elim (Bool-cases (is_segment_char c)) [
  | inl p ↦ tail-char c s p (scan-Accepts Scan.tail s (ground arith))
  | inr n ↦ elim (Bool-cases (is_slash c)) [
    | inl q ↦ tail-slash c s q (scan-Accepts Scan.later s (ground arith))
    | inr m ↦ ground arith
  ]
]

alnums-scan :
    {s t : String}
    → Reads (Regex.star (Regex.one is_alnum)) s t
    → scan Scan.head t ≡ true
    → scan Scan.head s ≡ true
unfolding valid_check_id
alnums-scan Reads.done h = h
alnums-scan (Reads.more (Reads.one c p) r) h = ground (arith, alnums-scan r h)

chars-scan :
    {s t : String}
    → Reads (Regex.star (Regex.one is_segment_char)) s t
    → scan Scan.tail t ≡ true
    → scan Scan.tail s ≡ true
unfolding valid_check_id
chars-scan Reads.done h = h
chars-scan (Reads.more (Reads.one c p) r) h = ground (arith, chars-scan r h)

segments-scan :
    {s t : String}
    → Reads segments s t
    → (scan Scan.head t ≡ true) × (scan Scan.tail t ≡ true)
    → (scan Scan.head s ≡ true) × (scan Scan.tail s ≡ true)
unfolding valid_check_id
segments-scan Reads.done h = h
segments-scan (Reads.more (Reads.seq (Reads.one c p) (Reads.seq (Reads.one d q) r)) rest) h =
    let ih = chars-scan r (segments-scan rest h).1 in (ground arith, ground arith)

pattern-scan : {s : String} → Reads check_id_pattern s [] → scan Scan.first s ≡ true
unfolding valid_check_id
pattern-scan (Reads.seq (Reads.seq (Reads.one c p) x) y) =
    let ih = alnums-scan x (segments-scan y (refl, refl)).0 in ground arith

-- `_valid_check_id` accepts exactly the texts that `[a-z0-9]+(/[a-z0-9-]+)*` matches in full.
pub valid_check_id_iff : (s : String) → (valid_check_id s ≡ true) ↔ Reads check_id_pattern s []
unfolding valid_check_id
valid_check_id_iff s = (scan-Accepts Scan.first s, λ r. pattern-scan r)
