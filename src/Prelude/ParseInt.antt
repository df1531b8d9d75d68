-- ===== src/Prelude/ParseInt.antt =====
-- strconv.ParseInt in base 10 for an int64: the bit pattern of the number, or `none` for its errors,
-- a text that is no number and a number that is out of range.
use Prim.Native.Nat.{ℕ, zero, ◌+◌, ◌-◌, ◌*◌, ◌^◌}
use Prim.Native.Char.{code}
use Prim.Native.String.{String, [], ◌∷◌}
use mathlib.Core.Bool.{Bool, true, false, ◌&&◌}
use mathlib.Core.Option.{Option, none, some}
use mathlib.Core.Path.{◌≡◌, refl}
use actor_cluster.Prelude.Tests.{leb, ltb, nat_beq, if◌then◌else◌}

unfoldable pub parse_digits : ℕ → String → Option ℕ
parse_digits acc [] = some acc
parse_digits acc (c ∷ s) =
    let rest = parse_digits (acc * 10 + (code c - 48)) s in
    if leb 48 (code c) && leb (code c) 57 then rest else none

parse_number : String → Option ℕ
unfolding parse_digits
parse_number [] = none
parse_number (c ∷ s) = parse_digits 0 (c ∷ s)

abbrev signed : Bool → Option ℕ → Option ℕ
signed negative none = none
signed false (some n) = if ltb n (2 ^ 63) then some n else none
signed true (some zero) = some 0
signed true (some n) = if leb n (2 ^ 63) then some (2 ^ 64 - n) else none

unfoldable pub parse_int : String → Option ℕ
unfolding parse_number
parse_int [] = none
parse_int (c ∷ s) =
    if nat_beq (code c) 45
    then signed true (parse_number s)
    else if nat_beq (code c) 43
    then signed false (parse_number s)
    else signed false (parse_number (c ∷ s))

parse_int_min : parse_int "-9223372036854775808" ≡ some (2 ^ 63)
unfolding parse_int
parse_int_min = refl

parse_int_past : parse_int "9223372036854775808" ≡ none
unfolding parse_int
parse_int_past = refl
