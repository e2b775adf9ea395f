-- ===== src/Tests/SealTests.antt =====
-- json_utils.py, dsse.py and seal.py at concrete inputs.
use checkseal.Common.{◌≡◌, refl, false, [], ◌∷◌, none, some, if◌then◌else◌}
use checkseal.Common.Outcome.{ok, raise, vcr_error, ◌>>=◌}
use checkseal.JsonUtils.{loads_unique_json}
use checkseal.JsonUtils.Laws.{all_distinct, loads_unique_json-eq}
use checkseal.Statement.{build_statement}
use checkseal.Profile.{validate_n1_profile}
use checkseal.Trust.{check_invariant_e1}
use checkseal.AgentTooling.{is_agent_tooling_subject}
use checkseal.Platform.{Bytes}
use checkseal.Sign.{SigningTier, Signature, Signer}
use checkseal.Dsse.{payload_type_in_toto}
use checkseal.Dsse.Pae.Injective.{pae-injective}
use checkseal.Seal.{Seal, sign_local, validate_profiles, statement_bytes}
use checkseal.Seal.Laws.{IsMinted, sign_local-IsMinted}
use checkseal.Tests.Data.{machine, one_gate}
use checkseal.Tests.ModelTests.{one_gate-IsWellFormed}

loads_unique_json-eq_example : loads_unique_json machine "envelope" ≡ (
    machine.parse_json "envelope" >>= λ v.
    if all_distinct v then ok v else raise (vcr_error "duplicate JSON object member"))
loads_unique_json-eq_example = loads_unique_json-eq machine "envelope"

abbrev text_bytes : Bytes
text_bytes = 116 ∷ 120 ∷ 116 ∷ []

abbrev payload_bytes : Bytes
payload_bytes = 50 ∷ 32 ∷ []

pae-injective_example : (text_bytes ≡ text_bytes) × (payload_bytes ≡ payload_bytes)
pae-injective_example = pae-injective text_bytes text_bytes payload_bytes payload_bytes refl

abbrev signature : Signature
signature = record { sig = 7 ∷ []; keyid = none; cert = none }

abbrev signer : Signer
signer = record { tier = SigningTier.t1; sign = λ _. ok signature }

abbrev minted : Seal
minted = record {
  tier = SigningTier.t1;
  statement = build_statement one_gate;
  envelope = some (record {
    payload = statement_bytes machine one_gate;
    payload_type = payload_type_in_toto;
    signatures = signature ∷ [];
  });
  bundle_json = none;
}

one_gate-minted : sign_local machine one_gate signer false ≡ ok minted
unfolding sign_local validate_profiles validate_n1_profile check_invariant_e1
    is_agent_tooling_subject
one_gate-minted = refl

sign_local-IsMinted_example : IsMinted machine one_gate signer false minted
sign_local-IsMinted_example =
    sign_local-IsMinted machine one_gate signer false {seal = minted} one_gate-IsWellFormed
      one_gate-minted
