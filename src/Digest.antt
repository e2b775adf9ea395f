-- ===== src/Digest.antt =====
-- digest.py: canonical bytes and digests.
use checkseal.Common.{String}
use checkseal.Common.Outcome.{Outcome, ok, ◌>>=◌}
use checkseal.Json.{Json}
use checkseal.Platform.{Platform, Bytes}

module _ (os : Platform) where
  -- The one place where bytes are made of a JSON value.
  unfoldable pub canonical_bytes : Json → Bytes
  canonical_bytes v = os.encode_utf8 (os.dump_json v)

  -- The digest of a file does not depend on the size of the blocks that it is read in.
  abbrev pub sha256_file : String → Outcome String
  sha256_file path = os.read_file path >>= λ content. ok (os.sha256_hex content)

  pub digest_of : Json → String
  unfolding canonical_bytes
  digest_of v = os.sha256_hex (canonical_bytes v)
