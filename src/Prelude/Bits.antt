-- ===== src/Prelude/Bits.antt =====
-- Laws of the bitwise operations that the program uses, at every width.
use Prim.Native.Nat.{
  ℕ, zero, suc, ◌+◌, ◌*◌, ◌/◌, ◌%◌, ◌^◌, ◌≤◌, ◌<◌, min, digits, differ, bit_and, bit_xor,
  bit_and-bitwise, bit_xor-bitwise,
}
use mathlib.Core.Path.{◌≡◌, refl, sym, ap, ◌∙◌}
use native.Mathlib.Nat.{pow-suc}
use native.Mathlib.Omega.{arith}

-- `x & mask` is at most the mask.
digits-min-le : (n a b : ℕ) → digits (λ y. 0) min n a b ≤ b
digits-min-le zero a b = omega arith
digits-min-le (suc n) zero b = omega arith
digits-min-le (suc n) (suc a) b = omega (arith, digits-min-le n (suc a / 2) (b / 2))

pub bit_and-le : (a b : ℕ) → bit_and a b ≤ b
bit_and-le a b = rw (bit_and-bitwise a b) (digits-min-le a a b)

differ-bits : (x y : ℕ) → x < 2 → y < 2 → differ x y ≡ (x + y) % 2
differ-bits zero y h k = omega arith
differ-bits (suc zero) zero h k = refl
differ-bits (suc zero) (suc zero) h k = refl
differ-bits (suc zero) (suc (suc y)) h k = absurd (omega arith)
differ-bits (suc (suc x)) y h k = absurd (omega arith)

abbrev xor_digits : ℕ → ℕ → ℕ → ℕ
xor_digits = digits (λ y. y) differ

-- Any count of digits that is no less than `a` gives the same.
xor_digits_enough : (a n m b : ℕ) → a ≤ n → a ≤ m → xor_digits n a b ≡ xor_digits m a b
xor_digits_enough zero zero zero b h k = refl
xor_digits_enough zero zero (suc m) b h k = refl
xor_digits_enough zero (suc n) zero b h k = refl
xor_digits_enough zero (suc n) (suc m) b h k = refl
xor_digits_enough (suc a) zero m b h k = absurd (omega arith)
xor_digits_enough (suc a) (suc n) zero b h k = absurd (omega arith)
xor_digits_enough (suc a) (suc n) (suc m) b h k =
    omega (arith, xor_digits_enough (suc a / 2) n m (b / 2) (omega arith) (omega arith))

bit_xor-zero_left : (b : ℕ) → bit_xor 0 b ≡ b
bit_xor-zero_left b = bit_xor-bitwise 0 b

-- The lowest digit, and the digits above it.
bit_xor_step : (a b : ℕ) → bit_xor a b ≡ bit_xor (a / 2) (b / 2) * 2 + (a + b) % 2
bit_xor_step zero b = omega (arith, bit_xor-zero_left b, bit_xor-zero_left (b / 2))
bit_xor_step (suc a) b = omega (
  arith,
  bit_xor-bitwise (suc a) b,
  bit_xor-bitwise (suc a / 2) (b / 2),
  xor_digits_enough (suc a / 2) a (suc a / 2) (b / 2) (omega arith) (omega arith),
  differ-bits (suc a % 2) (b % 2) (omega arith) (omega arith),
)

bit_xor-half : (a b : ℕ) → bit_xor a b / 2 ≡ bit_xor (a / 2) (b / 2)
bit_xor-half a b = omega (arith, bit_xor_step a b)

-- Shifting a number right k times.
abbrev shr : ℕ → ℕ → ℕ
shr x zero = x
shr x (suc k) = shr (x / 2) k

bit_xor-shr : (k a b : ℕ) → shr (bit_xor a b) k ≡ bit_xor (shr a k) (shr b k)
bit_xor-shr zero a b = refl
bit_xor-shr (suc k) a b = ap (λ (x : ℕ). shr x k) (bit_xor-half a b) ∙ bit_xor-shr k (a / 2) (b / 2)

shr_33 : (x : ℕ) → shr x 33 ≡ x / 2 ^ 33
shr_33 x = omega arith

pub bit_xor-div_33 : (a b : ℕ) → bit_xor a b / 2 ^ 33 ≡ bit_xor (a / 2 ^ 33) (b / 2 ^ 33)
bit_xor-div_33 a b =
    sym (shr_33 (bit_xor a b))
    ∙ bit_xor-shr 33 a b
    ∙ ap (λ (x : ℕ). bit_xor x (shr b 33)) (shr_33 a)
    ∙ ap (bit_xor (a / 2 ^ 33)) (shr_33 b)

pub bit_xor-lt : (n a b : ℕ) → a < 2 ^ n → b < 2 ^ n → bit_xor a b < 2 ^ n
bit_xor-lt zero zero b h k = omega (arith, bit_xor-zero_left b)
bit_xor-lt zero (suc a) b h k = absurd (omega arith)
bit_xor-lt (suc n) a b h k =
    let two_n = pow-suc 2 n in
    omega (
      arith,
      two_n,
      bit_xor_step a b,
      bit_xor-lt n (a / 2) (b / 2) (omega (arith, two_n)) (omega (arith, two_n)),
    )

cancel_below : (n a b : ℕ) → a ≤ n → b ≤ n → bit_xor (bit_xor a b) b ≡ a
cancel_below zero zero zero h k = refl
cancel_below zero zero (suc b) h k = absurd (omega arith)
cancel_below zero (suc a) b h k = absurd (omega arith)
cancel_below (suc n) a b h k = omega (
  arith,
  bit_xor_step a b,
  bit_xor_step (bit_xor a b) b,
  ap (λ (x : ℕ). bit_xor x (b / 2)) (bit_xor-half a b),
  cancel_below n (a / 2) (b / 2) (omega arith) (omega arith),
)

-- x ^ y ^ y is x.
pub bit_xor_cancel : (a b : ℕ) → bit_xor (bit_xor a b) b ≡ a
bit_xor_cancel a b = cancel_below (a + b) a b (omega arith) (omega arith)

comm_below : (n a b : ℕ) → a ≤ n → b ≤ n → bit_xor a b ≡ bit_xor b a
comm_below zero zero zero h k = refl
comm_below zero zero (suc b) h k = absurd (omega arith)
comm_below zero (suc a) b h k = absurd (omega arith)
comm_below (suc n) a b h k = omega (
  arith,
  bit_xor_step a b,
  bit_xor_step b a,
  comm_below n (a / 2) (b / 2) (omega arith) (omega arith),
)

pub bit_xor_comm : (a b : ℕ) → bit_xor a b ≡ bit_xor b a
bit_xor_comm a b = comm_below (a + b) a b (omega arith) (omega arith)

-- Two keys that differ stay different under `x ^ y`, and under `x ^ x >> 33` below 2 ^ 66.
pub bit_xor_injective : (a b y : ℕ) → bit_xor a y ≡ bit_xor b y → a ≡ b
bit_xor_injective a b y e =
    sym (bit_xor_cancel a y) ∙ ap (λ (x : ℕ). bit_xor x y) e ∙ bit_xor_cancel b y

xorshift_undone :
    (x : ℕ) → x < 2 ^ 64 → let y = bit_xor x (x / 2 ^ 33) in bit_xor y (y / 2 ^ 33) ≡ x
xorshift_undone x h =
    let s = x / 2 ^ 33 in
    let top : s / 2 ^ 33 ≡ 0 = omega arith in
    rw (bit_xor-div_33 x s, top, bit_xor_comm s 0, bit_xor-zero_left s) (bit_xor_cancel x s)

pub xorshift_injective :
    (x y : ℕ) → x < 2 ^ 64 → y < 2 ^ 64 → bit_xor x (x / 2 ^ 33) ≡ bit_xor y (y / 2 ^ 33) → x ≡ y
xorshift_injective x y hx hy e =
    sym (xorshift_undone x hx) ∙ ap (λ (z : ℕ). bit_xor z (z / 2 ^ 33)) e ∙ xorshift_undone y hy
