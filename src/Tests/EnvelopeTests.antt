-- ===== src/Tests/EnvelopeTests.antt =====
-- dsse.py at a concrete envelope, with a simple encoding of bytes as text.
use checkseal.Common.{
  ℕ, zero, suc, ◌+◌, ◌≡◌, refl, ap, ◌∙◌, String, [], ◌∷◌, none, some, arith, if◌then◌else◌,
}
use checkseal.Common.Text.{between}
use checkseal.Common.Outcome.{ok}
use checkseal.Platform.{Platform, Bytes}
use checkseal.Dsse.{Envelope, payload_type_in_toto, envelope_to_jsonable, envelope_from_jsonable}
use checkseal.Dsse.RoundTrip.{DecodesBase64, Envelope-round_trip}
use checkseal.Tests.Data.{machine}

-- A number in unary, with a stop.
tally : ℕ → String → String
tally zero rest = String.◌∷◌ "B" rest
tally (suc n) rest = String.◌∷◌ "A" (tally n rest)

pub write : Bytes → String
unfolding tally
write [] = ""
write (b ∷ bs) = tally b (write bs)

pub read_from : ℕ → String → Bytes
read_from n String.[] = []
read_from n (String.◌∷◌ c rest) =
    let more = read_from (suc n) rest in
    let next = read_from 0 rest in if between 65 65 c then more else n ∷ next

read_from-tally :
    (n k : ℕ) (rest : String) → read_from k (tally n rest) ≡ (n + k) ∷ read_from 0 rest
unfolding read_from tally
read_from-tally zero k rest = ap (λ m. m ∷ read_from 0 rest) (omega arith)
read_from-tally (suc n) k rest =
    read_from-tally n (suc k) rest ∙ ap (λ m. m ∷ read_from 0 rest) (omega arith)

read_from-write : (bs : Bytes) → read_from 0 (write bs) ≡ bs
unfolding read_from write
read_from-write [] = refl
read_from-write (b ∷ bs) =
    read_from-tally b 0 (write bs)
    ∙ ap (λ m. m ∷ read_from 0 (write bs)) (omega arith)
    ∙ ap (◌∷◌ b) (read_from-write bs)

abbrev pub coder : Platform
coder = record machine { encode_base64 = write; decode_base64 = λ s. ok (read_from 0 s) }

pub coder-DecodesBase64 : DecodesBase64 coder
coder-DecodesBase64 b = ap ok (read_from-write b)

abbrev two_signatures : Envelope
two_signatures = record {
  payload = 2 ∷ 0 ∷ [];
  payload_type = payload_type_in_toto;
  signatures =
      record { sig = 1 ∷ []; keyid = some "key"; cert = none }
      ∷ record { sig = 3 ∷ []; keyid = none; cert = some "cert" }
      ∷ [];
}

Envelope-round_trip_example :
    envelope_from_jsonable coder (envelope_to_jsonable coder two_signatures) ≡ ok two_signatures
Envelope-round_trip_example =
    Envelope-round_trip coder coder-DecodesBase64 two_signatures refl (refl, (refl, tt))
