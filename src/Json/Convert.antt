-- ===== src/Json/Convert.antt =====
-- Python's `int`, `str` and `bool` of a JSON value.
use Prim.Native.Nat.{◌/◌}
use checkseal.Common.{ℕ, zero, suc, String, Bool, true, false, not, ◌==◌}
use checkseal.Common.Int.{ℤ, pos, negsuc}
use checkseal.Common.Text.{nonempty}
use checkseal.Common.Outcome.{Outcome, ok, raise, value_error, type_error, other_error}
use checkseal.Json.{
  Json, nan, infinite, finite, null, bool, int, float, str, arr, obj, Items, Fields,
}
use checkseal.Platform.{Platform}

-- Python's truth of a value.
unfoldable pub truthy : Json → Bool
truthy null = false
truthy (bool b) = b
truthy (int (pos n)) = not (n == 0)
truthy (int (negsuc n)) = true
truthy (float (finite (pos n) d)) = not (n == 0)
truthy (float _) = true
truthy (str s) = nonempty s
truthy (arr xs) = elim xs [ Items.no_items ↦ false | _ ↦ true ]
truthy (obj d) = elim d [ Fields.no_fields ↦ false | _ ↦ true ]

-- A fraction, rounded towards zero.
truncate : ℤ → ℕ → ℤ
truncate (pos n) d = pos (n / suc d)
truncate (negsuc n) d = elim (suc n / suc d) [ zero ↦ pos 0 | suc q ↦ negsuc q ]

-- `int(v)`
unfoldable pub int_of : Platform → Json → Outcome ℤ
unfolding truncate
int_of os (int z) = ok z
int_of os (bool true) = ok (pos 1)
int_of os (bool false) = ok (pos 0)
int_of os (float (finite z d)) = ok (truncate z d)
int_of os (float nan) = raise (value_error "cannot convert float NaN to integer")
int_of os (float (infinite _)) = raise (other_error "OverflowError")
int_of os (str s) = os.int_of_text s
int_of os _ = raise type_error

-- `str(v)`
unfoldable pub str_of : Platform → Json → String
str_of os (str s) = s
str_of os v = os.text_of_value v
