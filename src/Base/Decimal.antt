-- ===== src/Base/Decimal.antt =====
-- Go's `strconv`: an int64 from its decimal digits.
use Prim.Native.Char.{code}
use stonesuite_notify.Base.{
  ℕ, ◌+◌, ◌-◌, ◌*◌, ◌^◌, String, Option, none, some, ltb, leb, nat_eq, if◌then◌else◌,
}
use stonesuite_notify.Base.Int.{ℤ, pos, negsuc}
use stonesuite_notify.Base.Text.{between}

-- strconv.ParseInt(s, 10, 64) and strconv.Atoi
unfoldable pub parse_digits : ℕ → String → Option ℕ
parse_digits n String.[] = some n
parse_digits n (String.◌∷◌ c s) =
    let rest = parse_digits (n * 10 + (code c - 48)) s in
    if between 48 57 (code c) then rest else none

unfoldable pub parse_nat : String → Option ℕ
unfolding parse_digits
parse_nat String.[] = none
parse_nat (String.◌∷◌ c s) = parse_digits 0 (String.◌∷◌ c s)

abbrev positive : Option ℕ → Option ℤ
positive none = none
positive (some n) = if ltb n (2 ^ 63) then some (pos n) else none

abbrev negative : Option ℕ → Option ℤ
negative none = none
negative (some n) =
    if nat_eq n 0 then some (pos 0) else if leb n (2 ^ 63) then some (negsuc (n - 1)) else none

unfoldable pub parse_int64 : String → Option ℤ
unfolding parse_nat
parse_int64 String.[] = none
parse_int64 (String.◌∷◌ c s) =
    if nat_eq (code c) 45
    then negative (parse_nat s)
    else if nat_eq (code c) 43
    then positive (parse_nat s)
    else positive (parse_nat (String.◌∷◌ c s))
