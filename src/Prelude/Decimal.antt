-- ===== src/Prelude/Decimal.antt =====
-- Two numbers with the same decimal text are the same.
use Prim.Native.Nat.{ℕ, zero, suc, ◌+◌, ◌-◌, ◌*◌, ◌/◌, ◌%◌, ◌^◌, ◌<◌}
use Prim.Native.Char.{Char, code}
use Prim.Native.String.{String, [], ◌∷◌}
use text.Mathlib.TextLemmas.{cons-append, nil-append}
use mathlib.Core.Path.{◌≡◌, refl, sym, ap, ◌∙◌}
use mathlib.Core.Logic.{◌≢◌, inl, inr}
use mathlib.Core.Bool.{Bool, true, ◌&&◌}
use mathlib.Core.Option.{some, none, some-injective}
use native.Mathlib.Omega.{arith}
use actor_cluster.Prelude.Tests.{leb, ltb, Bool-cases, if◌then◌else◌}
use actor_cluster.Prelude.Text.{◌^^◌, digit, show_digits, show_u64}
use actor_cluster.Prelude.ParseInt.{parse_digits}

parse_digits-char :
    (a : ℕ) (c : Char) (s : String)
    → leb 48 (code c) && leb (code c) 57 ≡ true
    → parse_digits a ((c ∷ []) ^^ s) ≡ parse_digits (a * 10 + (code c - 48)) s
unfolding parse_digits
parse_digits-char a c s is_digit =
    ap (parse_digits a) (cons-append c [] s ∙ ap (λ (t : String). c ∷ t) (nil-append s))
    ∙ ap (λ (b : Bool). if b then parse_digits (a * 10 + (code c - 48)) s else none) is_digit

parse_digits-digit :
    (a d : ℕ) (s : String) → d < 10 → parse_digits a (digit d ^^ s) ≡ parse_digits (a * 10 + d) s
parse_digits-digit a zero s h = parse_digits-char a "0" s refl
parse_digits-digit a (suc zero) s h = parse_digits-char a "1" s refl
parse_digits-digit a (suc (suc zero)) s h = parse_digits-char a "2" s refl
parse_digits-digit a (suc (suc (suc zero))) s h = parse_digits-char a "3" s refl
parse_digits-digit a (suc (suc (suc (suc zero)))) s h = parse_digits-char a "4" s refl
parse_digits-digit a (suc (suc (suc (suc (suc zero))))) s h = parse_digits-char a "5" s refl
parse_digits-digit a (suc (suc (suc (suc (suc (suc zero)))))) s h = parse_digits-char a "6" s refl
parse_digits-digit a (suc (suc (suc (suc (suc (suc (suc zero))))))) s h =
    parse_digits-char a "7" s refl
parse_digits-digit a (suc (suc (suc (suc (suc (suc (suc (suc zero)))))))) s h =
    parse_digits-char a "8" s refl
parse_digits-digit a (suc (suc (suc (suc (suc (suc (suc (suc (suc zero))))))))) s h =
    parse_digits-char a "9" s refl
parse_digits-digit a (suc (suc (suc (suc (suc (suc (suc (suc (suc (suc d)))))))))) s h =
    ground (arith, h)

parse_digits-show_digits :
    (f n : ℕ) (acc : String)
    → n < 10 ^ f
    → 0 < f
    → parse_digits 0 (show_digits f n acc) ≡ parse_digits n acc
unfolding show_digits
parse_digits-show_digits zero n acc small some_fuel = ground (arith, some_fuel)
parse_digits-show_digits (suc f) n acc small some_fuel = elim (Bool-cases (ltb n 10)) [
  | inl one ↦
      rw (one, show_digits)
        (parse_digits-digit 0 n acc (ground (arith, one))
          ∙ ap (λ (m : ℕ). parse_digits m acc) (omega arith))
  | inr more ↦
      rw (more, show_digits)
        (parse_digits-show_digits f (n / 10) (digit (n % 10) ^^ acc) (omega (arith, small))
            (ground (arith, small, more))
          ∙ parse_digits-digit (n / 10) (n % 10) acc (omega arith)
          ∙ ap (λ (m : ℕ). parse_digits m acc) (omega arith))
]

parse_digits-show_u64 : (n : ℕ) → n < 2 ^ 64 → parse_digits 0 (show_u64 n) ≡ some n
unfolding show_u64 parse_digits
parse_digits-show_u64 n h = parse_digits-show_digits 20 n "" (omega (arith, h)) (omega arith)

pub show_u64_injective : (m n : ℕ) → m < 2 ^ 64 → n < 2 ^ 64 → show_u64 m ≡ show_u64 n → m ≡ n
show_u64_injective m n hm hn e =
    some-injective m n
      (sym (parse_digits-show_u64 m hm) ∙ ap (parse_digits 0) e ∙ parse_digits-show_u64 n hn)

pub show_u64_filled : (n : ℕ) → n < 2 ^ 64 → n ≢ 0 → show_u64 n ≢ ""
unfolding parse_digits
show_u64_filled n h ne e =
    ne (some-injective n 0 (sym (parse_digits-show_u64 n h) ∙ ap (parse_digits 0) e))
