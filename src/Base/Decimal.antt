-- ===== src/Base/Decimal.antt =====
-- Go's strconv.Itoa and strconv.Atoi.
use Prim.Native.Char.{code}
use Prim.Native.Nat.{ℕ, zero, suc, ◌+◌, ◌-◌, ◌*◌, ◌/◌, ◌%◌, ◌^◌}
use Prim.Native.String.{String}
use mathlib.Core.Bool.{Bool, true, false, ◌&&◌}
use mathlib.Core.Option.{Option, none, some}
use mathlib.Core.Path.{◌≡◌, refl}
use terraform_provider_uapi.Base.Int.{ℤ, pos, negsuc}
use terraform_provider_uapi.Base.Tests.{leb, ltb, nat_eq, if◌then◌else◌}
use terraform_provider_uapi.Base.Text.{◌<>◌, is_empty}

-- The text of a digit.
abbrev digit : ℕ → String
digit d =
    if nat_eq d 0
    then "0"
    else if nat_eq d 1
    then "1"
    else if nat_eq d 2
    then "2"
    else if nat_eq d 3
    then "3"
    else if nat_eq d 4
    then "4"
    else if nat_eq d 5
    then "5"
    else if nat_eq d 6
    then "6"
    else if nat_eq d 7
    then "7"
    else if nat_eq d 8
    then "8"
    else "9"

-- The digits of `n` in front of `rest`; a number has at most as many digits as its value, plus one.
digits : ℕ → ℕ → String → String
digits zero n rest = rest
digits (suc fuel) n rest =
    let more = digits fuel (n / 10) (digit (n % 10) <> rest) in
    if ltb n 10 then digit n <> rest else more

-- The decimal digits of a natural number.
unfoldable pub show_nat : ℕ → String
unfolding digits
show_nat n = digits (suc n) n ""

-- strconv.Itoa, fmt's %d
unfoldable pub itoa : ℤ → String
unfolding show_nat
itoa (pos n) = show_nat n
itoa (negsuc n) = "-" <> show_nat (suc n)

unfoldable pub parse_digits : ℕ → String → Option ℕ
parse_digits acc String.[] = some acc
parse_digits acc (String.◌∷◌ c s) =
    let rest = parse_digits (acc * 10 + (code c - 48)) s in
    if leb 48 (code c) && leb (code c) 57 then rest else none

-- The magnitude behind the sign; a text without digits is an error.
unfoldable pub parse_nat : String → Option ℕ
unfolding parse_digits
parse_nat s = if is_empty s then none else parse_digits 0 s

-- A magnitude with its sign, if an int64 holds it.
unfoldable pub signed : Bool → ℕ → Option ℤ
signed false n = if ltb n (2 ^ 63) then some (pos n) else none
signed true zero = some (pos zero)
signed true (suc n) = if ltb n (2 ^ 63) then some (negsuc n) else none

abbrev with_sign : Bool → Option ℕ → Option ℤ
with_sign neg none = none
with_sign neg (some n) = signed neg n

-- strconv.Atoi: an optional sign, then decimal digits, in the range of an int64.
unfoldable pub atoi : String → Option ℤ
unfolding parse_nat signed
atoi String.[] = none
atoi (String.◌∷◌ c s) =
    if nat_eq (code c) b'-'
    then with_sign true (parse_nat s)
    else if nat_eq (code c) b'+'
    then with_sign false (parse_nat s)
    else with_sign false (parse_nat (String.◌∷◌ c s))

atoi_tests :
    (atoi "36" ≡ some (pos 36))
    × (atoi "-7" ≡ some (negsuc 6))
    × (atoi "auto" ≡ none)
    × (atoi "9223372036854775808" ≡ none)
    × (atoi "" ≡ none)
    × (itoa (negsuc 11) ≡ "-12")
    × (itoa (pos 404) ≡ "404")
unfolding atoi itoa
atoi_tests = (refl, refl, refl, refl, refl, refl, refl)
