-- ===== src/Dsse/Pae.antt =====
-- dsse.py `pae`: the bytes that a signature covers.
pub mod Injective
use checkseal.Common.{ℕ, zero, suc, ◌+◌, [], ◌∷◌, ◌++◌, ◌≡◌, refl, ltb, if◌then◌else◌}
use Prim.Native.Nat.{◌/◌, ◌%◌}
use checkseal.Platform.{Bytes}

-- `len(data)`
abbrev pub length : Bytes → ℕ
length [] = 0
length (_ ∷ xs) = suc (length xs)

-- The decimal digits of a number, most significant first, in front of `rest`. Each round drops a
-- digit, so a number below the fuel has enough of it.
decimal_from : ℕ → ℕ → Bytes → Bytes
decimal_from zero n rest = rest
decimal_from (suc fuel) n rest =
    let more = decimal_from fuel (n / 10) ((b'0' + n % 10) ∷ rest) in
    if ltb n 10 then (b'0' + n) ∷ rest else more

-- `b"%d" % n`
unfoldable pub decimal : ℕ → Bytes
unfolding decimal_from
decimal n = decimal_from (suc n) n []

-- `b"DSSEv1 "`
abbrev pub header : Bytes
header = b'D' ∷ b'S' ∷ b'S' ∷ b'E' ∷ b'v' ∷ b'1' ∷ b' ' ∷ []

-- A length, a space, the bytes.
unfoldable pub framed : Bytes → Bytes
unfolding decimal
framed b = decimal (length b) ++ (b' ' ∷ b)

-- `pae`, given the payload type in UTF-8.
unfoldable pub pae : Bytes → Bytes → Bytes
unfolding framed
pae payload_type payload = header ++ (framed payload_type ++ (b' ' ∷ framed payload))

pae-small :
    pae (b'a' ∷ b'b' ∷ []) (b'x' ∷ [])
    ≡ header ++ (b'2' ∷ b' ' ∷ b'a' ∷ b'b' ∷ b' ' ∷ b'1' ∷ b' ' ∷ b'x' ∷ [])
unfolding pae
pae-small = refl
