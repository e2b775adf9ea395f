-- ===== src/Dsse/Pae/Injective.antt =====
-- The bytes that a signature covers determine the payload type and the payload.
use checkseal.Common.{
  ℕ, zero, suc, ◌+◌, ◌*◌, ◌<◌, ◌-◌, false, [], ◌∷◌, ◌++◌, ◌≡◌, refl, ap, sym, ◌∙◌, ltb, leb, ◌&&◌,
  if◌then◌else◌, arith, Bool-cases, inl, inr,
}
use Prim.Native.Nat.{◌/◌, ◌%◌}
use mathlib.Core.List.{append_assoc, append-nil}
use checkseal.Platform.{Bytes}
use checkseal.Dsse.Pae.{length, decimal_from, decimal, framed, pae}

-- Reads a number in front of a text: its value, and what follows the digits.
read_number : ℕ → Bytes → ℕ × Bytes
read_number acc [] = (acc, [])
read_number acc (c ∷ cs) =
    let rest = read_number (10 * acc + (c - b'0')) cs in
    if leb b'0' c && leb c b'9' then rest else (acc, c ∷ cs)

value_of_digit : (d : ℕ) → (b'0' + d) - b'0' ≡ d
value_of_digit d = omega arith

read_number-digit :
    (acc d : ℕ) (rest : Bytes)
    → d < 10
    → read_number acc ((b'0' + d) ∷ rest) ≡ read_number (10 * acc + d) rest
unfolding read_number
read_number-digit acc d rest h = rw (value_of_digit d) (ground arith)

quotient-lt : (fuel n : ℕ) → n < suc fuel → ltb n 10 ≡ false → n / 10 < fuel
quotient-lt fuel n h e = grind arith

decimal_from-read :
    (fuel n : ℕ) (rest : Bytes)
    → n < fuel
    → read_number 0 (decimal_from fuel n rest) ≡ read_number n rest
unfolding decimal_from
decimal_from-read zero n rest h = ground arith
decimal_from-read (suc fuel) n rest h = elim (Bool-cases (ltb n 10)) [
  | inl e ↦
      rw (e)
        (read_number-digit 0 n rest (ground arith) ∙ ap (λ m. read_number m rest) (omega arith))
  | inr e ↦ rw (e) (
      decimal_from-read fuel (n / 10) ((b'0' + n % 10) ∷ rest) (quotient-lt fuel n h e)
      ∙ read_number-digit (n / 10) (n % 10) rest (omega arith)
      ∙ ap (λ m. read_number m rest) (omega arith))
]

decimal_from-append :
    (fuel n : ℕ) (rest s : Bytes) → decimal_from fuel n rest ++ s ≡ decimal_from fuel n (rest ++ s)
unfolding decimal_from
decimal_from-append zero n rest s = refl
decimal_from-append (suc fuel) n rest s =
    ground (arith, decimal_from-append fuel (n / 10) ((b'0' + n % 10) ∷ rest) s)

split_at : ℕ → Bytes → Bytes × Bytes
split_at zero s = ([], s)
split_at (suc n) [] = ([], [])
split_at (suc n) (c ∷ s) = let (a, r) = split_at n s in (c ∷ a, r)

split_at-length : (b rest : Bytes) → split_at (length b) (b ++ rest) ≡ (b, rest)
unfolding split_at
split_at-length [] rest = refl
split_at-length (c ∷ b) rest = rw (split_at-length b rest) refl

drop : ℕ → Bytes → Bytes
drop zero s = s
drop (suc n) [] = []
drop (suc n) (_ ∷ s) = drop n s

-- Takes a frame off: the reader of `framed`.
unframe : Bytes → Bytes × Bytes
unframe s = let (n, r) = read_number 0 s in split_at n (drop 1 r)

framed-read : (b rest : Bytes) → read_number 0 (framed b ++ rest) ≡ (length b, b' ' ∷ (b ++ rest))
unfolding framed decimal read_number
framed-read b rest =
    ap (read_number 0) (
      append_assoc (decimal (length b)) (b' ' ∷ b) rest
      ∙ decimal_from-append (suc (length b)) (length b) [] (b' ' ∷ (b ++ rest)))
    ∙ decimal_from-read (suc (length b)) (length b) (b' ' ∷ (b ++ rest)) (omega arith)

unframe-framed : (b rest : Bytes) → unframe (framed b ++ rest) ≡ (b, rest)
unfolding unframe drop
unframe-framed b rest = rw (framed-read b rest) (split_at-length b rest)

-- The whole reader, past `b"DSSEv1 "`.
unpae : Bytes → Bytes × Bytes
unpae s = let (t, r) = unframe (drop 7 s) in let (p, q) = unframe (drop 1 r) in (t, p)

unpae-pae : (t p : Bytes) → unpae (pae t p) ≡ (t, p)
unfolding unpae pae drop
unpae-pae t p = rw (unframe-framed t (b' ' ∷ framed p)) (
    ap (λ s. (t, (unframe s).0)) (sym (append-nil (framed p)))
    ∙ ap (λ (x : Bytes × Bytes). (t, x.0)) (unframe-framed p []))

-- Two payloads with their types have the same encoding only if they are the same, so a signature
-- over the encoding covers both.
pub pae-injective : (t t' p p' : Bytes) → pae t p ≡ pae t' p' → (t ≡ t') × (p ≡ p')
pae-injective t t' p p' h =
    let e : (t, p) ≡ (t', p') = sym (unpae-pae t p) ∙ ap unpae h ∙ unpae-pae t' p' in
    (ap (λ (x : Bytes × Bytes). x.0) e, ap (λ (x : Bytes × Bytes). x.1) e)
