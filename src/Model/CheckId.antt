-- ===== src/Model/CheckId.antt =====
-- model.py `_valid_check_id`: `re.fullmatch(r"[a-z0-9]+(/[a-z0-9-]+)*", cid)` as a scanner.
pub mod Regex
use Prim.Native.Char.{Char, code}
use Prim.Native.String.{[], ◌∷◌}
use checkseal.Common.{String, Bool, true, false, Option, none, some, ◌||◌, ◌==◌, if◌then◌else◌}
use checkseal.Common.Text.{between}

-- `[a-z0-9]`
abbrev pub is_alnum : Char → Bool
is_alnum c = between 97 122 c || between 48 57 c

-- `[a-z0-9-]`
abbrev pub is_segment_char : Char → Bool
is_segment_char c = is_alnum c || code c == 45

abbrev pub is_slash : Char → Bool
is_slash c = code c == 47

-- Where the match stands: before and in the first segment, before and in a later one.
pub data Scan : Type 0 where
  first head later tail : Scan

pub next : Scan → Char → Option Scan
next Scan.first c = if is_alnum c then some Scan.head else none
next Scan.head c =
    if is_alnum c then some Scan.head else if is_slash c then some Scan.later else none
next Scan.later c = if is_segment_char c then some Scan.tail else none
next Scan.tail c =
    if is_segment_char c then some Scan.tail else if is_slash c then some Scan.later else none

pub ends : Scan → Bool
ends Scan.first = false
ends Scan.head = true
ends Scan.later = false
ends Scan.tail = true

pub scan : Scan → String → Bool
scan at [] = ends at
scan at (c ∷ s) = elim (next at c) [ none ↦ false | some at' ↦ scan at' s ]

unfoldable pub valid_check_id : String → Bool
unfolding scan next ends
valid_check_id = scan Scan.first
