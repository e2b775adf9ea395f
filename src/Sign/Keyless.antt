-- ===== src/Sign/Keyless.antt =====
-- sign/keyless.py: `sign_statement_keyless`, with Sigstore as a parameter.
use checkseal.Common.{String, Bool, Option, none, some, if◌then◌else◌}
use checkseal.Common.Text.{nonempty}
use checkseal.Common.Outcome.{Outcome, ok, raise, vcr_error, ◌>>=◌, ◌>>◌, require}
use checkseal.Json.{Json}
use checkseal.Platform.{Platform, Bytes}

-- What the code uses of the `sigstore` package, which may be missing. `sign_dsse` is all of a signing
-- context: the trust configuration, `sign_dsse` and `to_json`.
pub record Sigstore (Token : Type 0) : Type 0 where
  pub installed : Bool
  pub detect_credential : Outcome (Option String)
  pub identity_token : String → Outcome Token
  pub sign_dsse : Bytes → Token → Outcome String

module _ (os : Platform) {Token : Type 0} (sigstore : Sigstore Token) where
  -- `identity_token or detect_credential()`
  unfoldable pub raw_token : Option String → Outcome (Option String)
  raw_token none = sigstore.detect_credential
  raw_token (some t) = if nonempty t then ok (some t) else sigstore.detect_credential

  unfoldable pub sign_statement_keyless : Json → Option String → Outcome String
  unfolding raw_token
  sign_statement_keyless statement identity_token = do
    require sigstore.installed "T2 keyless signing needs 'sigstore'"
    raw ← raw_token identity_token
    elim raw [
      | none ↦ raise (vcr_error "no ambient OIDC credential")
      | some t ↦
          sigstore.identity_token t
          >>= sigstore.sign_dsse (os.encode_utf8 (os.dump_ascii statement))
    ]
