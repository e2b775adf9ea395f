-- ===== src/Platform.antt =====
-- What the program uses of code outside the repository: hashing, JSON text, base64, files, and the
-- Unicode tables. The model takes a `Platform` as a parameter and assumes nothing of it unless a
-- theorem says so.
use Prim.Native.Nat.{ℕ}
use Prim.Native.Char.{Char}
use checkseal.Common.Int.{ℤ}
use checkseal.Common.{String, Bool, List}
use checkseal.Common.Outcome.{Outcome}
use checkseal.Json.{Json}

abbrev pub Bytes : Type 0
Bytes = List ℕ

pub record Platform : Type 0 where
  -- `hashlib.sha256(data).hexdigest()`
  pub sha256_hex : Bytes → String
  -- `s.encode("utf-8")` and `b.decode("utf-8")`
  pub encode_utf8 : String → Bytes
  pub decode_utf8 : Bytes → Outcome String
  -- The syntax of `json.loads` on a text and on bytes. The members of an object are all there, in the
  -- order of the text: what becomes of a repeated name is the program's choice.
  pub parse_json : String → Outcome Json
  pub parse_json_bytes : Bytes → Outcome Json
  -- `json.dumps(v, sort_keys=True, separators=(",", ":"), ensure_ascii=False)`
  pub dump_json : Json → String
  -- `json.dumps(v, sort_keys=True, separators=(",", ":"))`, in ASCII
  pub dump_ascii : Json → String
  -- `str(v)` for a value that is no text
  pub text_of_value : Json → String
  -- `base64.standard_b64decode(s)`
  pub decode_base64 : String → Outcome Bytes
  -- `base64.standard_b64encode(b).decode("ascii")`
  pub encode_base64 : Bytes → String
  -- `open(path, "rb").read()`, and the first line of a text file
  pub read_file : String → Outcome Bytes
  pub read_first_line : String → Outcome String
  -- `int(s)` for a text
  pub int_of_text : String → Outcome ℤ
  -- `c.isdigit()`
  pub is_digit : Char → Bool
