-- ===== src/Common/Text.antt =====
-- What the code uses of Python's `str`: `len`, `strip`, `lower`, and character classes.
use text.Mathlib.TextLemmas.{nil-append, cons-append}
use mathlib.Core.List.{List, [], ◌∷◌}
use mathlib.Core.Option.{Option, none, some}
use Prim.Native.Nat.{ℕ, zero, suc, ◌-◌}
use Prim.Native.Char.{Char, code}
use Prim.Native.String.{String, [], ◌∷◌, ◌++◌, char_at}
use mathlib.Core.Path.{◌≡◌, refl}
use mathlib.Core.Bool.{Bool, true, false, ◌&&◌, ◌||◌, not}
use native.Mathlib.Omega.{arith}
use checkseal.Common.Tests.{leb, ◌==◌, if◌then◌else◌}

-- `len(s)`, in code points
unfoldable pub length : String → ℕ
length [] = 0
length (c ∷ s) = suc (length s)

unfoldable pub all_chars : (Char → Bool) → String → Bool
all_chars p [] = true
all_chars p (c ∷ s) = p c && all_chars p s

abbrev pub between : ℕ → ℕ → Char → Bool
between lo hi c = leb lo (code c) && leb (code c) hi

-- `str.isspace`
unfoldable pub is_space : Char → Bool
is_space c =
    between 9 13 c
    || between 28 32 c
    || code c == 133
    || code c == 160
    || code c == 5760
    || between 8192 8202 c
    || between 8232 8233 c
    || code c == 8239
    || code c == 8287
    || code c == 12288

-- `str.lower` on ASCII. Beyond ASCII, `lower` yields no character of the classes tested here.
unfoldable pub lower_char : Char → Char
lower_char c = if between 65 90 c then char_at "abcdefghijklmnopqrstuvwxyz" (code c - 65) else c

unfoldable pub lower : String → String
lower [] = []
lower (c ∷ s) = lower_char c ∷ lower s

abbrev pub nonempty : String → Bool
nonempty [] = false
nonempty (_ ∷ _) = true

lstrip : String → String
lstrip [] = []
lstrip (c ∷ s) = let rest = lstrip s in if is_space c then rest else c ∷ s

rstrip : String → String
rstrip [] = []
rstrip (c ∷ s) = let rest = rstrip s in if is_space c && not (nonempty rest) then [] else c ∷ rest

-- `s.strip()`
unfoldable pub strip : String → String
unfolding lstrip rstrip
strip s = rstrip (lstrip s)

-- `s.startswith(prefix)`
unfoldable pub starts_with : String → String → Bool
starts_with s [] = true
starts_with [] (d ∷ p) = false
starts_with (c ∷ s) (d ∷ p) = code c == code d && starts_with s p

-- `s.rsplit(sep, 1)[-1]` for a one-character separator: what follows the last one, or all.
last_from : ℕ → String → String → String
last_from sep best [] = best
last_from sep best (c ∷ s) = last_from sep (if code c == sep then s else best) s

unfoldable pub rsplit_last : ℕ → String → String
unfolding last_from
rsplit_last sep s = last_from sep s s

abbrev first_more : Char → Option (String × String) → Option (String × String)
first_more c none = none
first_more c (some (a, b)) = some (c ∷ a, b)

-- `s.split(sep, 1)`: the two parts, or `none` where the separator does not occur.
unfoldable pub split_once : ℕ → String → Option (String × String)
split_once sep [] = none
split_once sep (c ∷ s) =
    let rest = first_more c (split_once sep s) in if code c == sep then some ([], s) else rest

-- `s[n:]`
unfoldable pub drop : ℕ → String → String
drop zero s = s
drop (suc n) [] = []
drop (suc n) (c ∷ s) = drop n s

-- `s[:n]`
unfoldable pub take : ℕ → String → String
take zero s = []
take (suc n) [] = []
take (suc n) (c ∷ s) = c ∷ take n s

-- What reading a text file makes of "\r\n" and "\r", the flag telling of a "\r" just before.
translate_newlines : Bool → String → String
translate_newlines after_return [] = []
translate_newlines after_return (c ∷ s) =
    let rest = translate_newlines (code c == 13) s in
    if code c == 13
    then char_at "\n" 0 ∷ rest
    else if after_return && code c == 10
    then rest
    else c ∷ rest

unfoldable pub universal_newlines : String → String
unfolding translate_newlines
universal_newlines s = translate_newlines false s

-- A boundary of `splitlines`, once "\r" is translated.
abbrev is_line_break : Char → Bool
is_line_break c = between 10 13 c || between 28 30 c || code c == 133 || between 8232 8233 c

abbrev to_first : Char → List String → List String
to_first c [] = (c ∷ []) ∷ []
to_first c (line ∷ lines) = (c ∷ line) ∷ lines

-- `s.splitlines()`, for a text without "\r"
unfoldable pub splitlines : String → List String
splitlines [] = []
splitlines (c ∷ s) =
    let rest = splitlines s in if is_line_break c then [] ∷ rest else to_first c rest

-- `c in "0123456789abcdef"`
unfoldable pub is_hex : Char → Bool
is_hex c = between 48 57 c || between 97 102 c

hex-not-space : (c : Char) → is_hex c ≡ true → is_space c ≡ false
unfolding is_hex is_space
hex-not-space c h = ground arith

hex-lower_char : (c : Char) → is_hex c ≡ true → lower_char c ≡ c
unfolding is_hex lower_char
hex-lower_char c h = ground arith

lower-hex : (s : String) → all_chars is_hex s ≡ true → lower s ≡ s
unfolding all_chars lower
lower-hex [] h = refl
lower-hex (c ∷ s) h = ground (arith, hex-lower_char c, lower-hex s)

rstrip-hex : (s : String) → all_chars is_hex s ≡ true → rstrip s ≡ s
unfolding all_chars rstrip
rstrip-hex [] h = refl
rstrip-hex (c ∷ s) h = ground (arith, hex-not-space c, rstrip-hex s)

lstrip-hex : (s : String) → all_chars is_hex s ≡ true → lstrip s ≡ s
unfolding all_chars lstrip
lstrip-hex [] h = refl
lstrip-hex (c ∷ s) h = ground (arith, hex-not-space c)

-- On lowercase hexadecimal text `strip` and `lower` change nothing.
pub lower-strip-hex : (s : String) → all_chars is_hex s ≡ true → lower (strip s) ≡ s
unfolding strip
lower-strip-hex s h = rw (lstrip-hex s h, rstrip-hex s h) (lower-hex s h)

-- No character of the text is the separator.
unfoldable pub lacks : ℕ → String → Bool
lacks sep [] = true
lacks sep (c ∷ s) = not (code c == sep) && lacks sep s

last_from-lacks : (sep : ℕ) (best s : String) → lacks sep s ≡ true → last_from sep best s ≡ best
unfolding last_from lacks
last_from-lacks sep best [] h = refl
last_from-lacks sep best (c ∷ s) h = ground (arith, last_from-lacks sep best s)

last_from-append :
    (sep : ℕ) (best before : String) (c : Char) (s : String)
    → code c ≡ sep
    → lacks sep s ≡ true
    → last_from sep best (before ++ (c ∷ s)) ≡ s
unfolding last_from
last_from-append sep best [] c s e h =
    let same : (code c == sep) ≡ true = ground arith in
    rw (nil-append (c ∷ s), same) (last_from-lacks sep s s h)
last_from-append sep best (d ∷ before) c s e h =
    rw (cons-append d before (c ∷ s))
      (last_from-append sep (if code d == sep then before ++ (c ∷ s) else best) before c s e h)

-- What stands after a separator, and has none, is the last part.
pub rsplit_last-append :
    (sep : ℕ) (before : String) (c : Char) (s : String)
    → code c ≡ sep
    → lacks sep s ≡ true
    → rsplit_last sep (before ++ ((c ∷ []) ++ s)) ≡ s
unfolding rsplit_last
rsplit_last-append sep before c s e h =
    rw (cons-append c [] s, nil-append s) (last_from-append sep (before ++ (c ∷ s)) before c s e h)
