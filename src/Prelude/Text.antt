-- ===== src/Prelude/Text.antt =====
-- What the program does to texts: joining them, and printing integers in decimal (`%d`).
use Prim.Native.Nat.{ℕ, zero, suc, ◌-◌, ◌/◌, ◌%◌, ◌^◌}
use Prim.Native.String.{String, ◌++◌}
use mathlib.Core.List.{[], ◌∷◌}
use mathlib.Core.Path.{◌≡◌, refl}
use actor_cluster.Prelude.Tests.{ltb, if◌then◌else◌}
use actor_cluster.Prelude.Lists.{get_or}

infixl 65 ◌^^◌
-- s + t on Go strings.
abbrev pub ◌^^◌ : String → String → String
s ^^ t = s ++ t

abbrev pub digit : ℕ → String
digit n = get_or ("0" ∷ "1" ∷ "2" ∷ "3" ∷ "4" ∷ "5" ∷ "6" ∷ "7" ∷ "8" ∷ "9" ∷ []) n "0"

unfoldable pub show_digits : ℕ → ℕ → String → String
show_digits zero n acc = acc
show_digits (suc f) n acc =
    let rest = show_digits f (n / 10) (digit (n % 10) ^^ acc) in
    if ltb n 10 then digit n ^^ acc else rest

-- A uint64 in decimal: 20 digits are enough for 2 ^ 64.
unfoldable pub show_u64 : ℕ → String
unfolding show_digits
show_u64 n = show_digits 20 n ""

-- An int64, given by its bit pattern.
unfoldable pub show_i64 : ℕ → String
unfolding show_u64
show_i64 w = if ltb w (2 ^ 63) then show_u64 w else "-" ^^ show_u64 (2 ^ 64 - w)

show_u64_max : show_u64 (2 ^ 64 - 1) ≡ "18446744073709551615"
unfolding show_u64
show_u64_max = refl

show_i64_min : show_i64 (2 ^ 63) ≡ "-9223372036854775808"
unfolding show_i64
show_i64_min = refl
