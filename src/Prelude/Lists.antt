-- ===== src/Prelude/Lists.antt =====
-- Lists measured and indexed by native numbers, under the library's names.
use Prim.Native.Nat.{ℕ, zero, suc, ◌+◌, ◌-◌, ◌<◌, ◌≤◌, min}
use mathlib.Core.Option.{Option, none, some}
use mathlib.Core.Path.{◌≡◌, refl, ap, ◌∙◌}
use mathlib.Core.Logic.{◌≢◌}
use mathlib.Core.List.{List, [], ◌∷◌, ◌++◌}
use mathlib.Core.Bool.{Bool}
use native.Mathlib.Omega.{arith}
use actor_cluster.Prelude.Tests.{if◌then◌else◌}

module _ {ℓ} {A : Type ℓ} where
  abbrev pub length : List A → ℕ
  length [] = 0
  length (x ∷ xs) = suc (length xs)

  abbrev pub get_or : List A → ℕ → A → A
  get_or [] i d = d
  get_or (x ∷ xs) zero d = x
  get_or (x ∷ xs) (suc i) d = get_or xs i d

  -- A write out of bounds changes nothing.
  abbrev pub set : List A → ℕ → A → List A
  set [] i v = []
  set (x ∷ xs) zero v = v ∷ xs
  set (x ∷ xs) (suc i) v = x ∷ set xs i v

  abbrev pub take : ℕ → List A → List A
  take zero xs = []
  take (suc n) [] = []
  take (suc n) (x ∷ xs) = x ∷ take n xs

  abbrev pub drop : ℕ → List A → List A
  drop zero xs = xs
  drop (suc n) [] = []
  drop (suc n) (x ∷ xs) = drop n xs

  abbrev pub replicate : ℕ → A → List A
  replicate zero a = []
  replicate (suc n) a = a ∷ replicate n a

  -- `filter` by a Boolean test. (The library's takes a decision.)
  abbrev pub keep : (A → Bool) → List A → List A
  keep p [] = []
  keep p (x ∷ xs) = let rest = keep p xs in if p x then x ∷ rest else rest

module _ {ℓ} {A : Type ℓ} where
  pub length-append : (xs ys : List A) → length (xs ++ ys) ≡ length xs + length ys
  length-append [] ys = omega arith
  length-append (x ∷ xs) ys = omega (arith, length-append xs ys)

  pub length-set : (xs : List A) (i : ℕ) (v : A) → length (set xs i v) ≡ length xs
  length-set [] i v = refl
  length-set (x ∷ xs) zero v = refl
  length-set (x ∷ xs) (suc i) v = ap suc (length-set xs i v)

  pub get_or-set_self :
      (xs : List A) (i : ℕ) (v d : A) → i < length xs → get_or (set xs i v) i d ≡ v
  get_or-set_self [] i v d h = elim h [ ]
  get_or-set_self (x ∷ xs) zero v d h = refl
  get_or-set_self (x ∷ xs) (suc i) v d h = get_or-set_self xs i v d (omega arith)

  pub get_or-set_ne :
      (xs : List A) (i j : ℕ) (v d : A) → i ≢ j → get_or (set xs i v) j d ≡ get_or xs j d
  get_or-set_ne [] i j v d h = refl
  get_or-set_ne (x ∷ xs) zero zero v d h = absurd (h refl)
  get_or-set_ne (x ∷ xs) zero (suc j) v d h = refl
  get_or-set_ne (x ∷ xs) (suc i) zero v d h = refl
  get_or-set_ne (x ∷ xs) (suc i) (suc j) v d h = get_or-set_ne xs i j v d (λ e. h (ap suc e))

  pub take-append-drop : (n : ℕ) (xs : List A) → take n xs ++ drop n xs ≡ xs
  take-append-drop zero xs = refl
  take-append-drop (suc n) [] = refl
  take-append-drop (suc n) (x ∷ xs) = rw (take-append-drop n xs)

  pub length-take : (n : ℕ) (xs : List A) → length (take n xs) ≡ min n (length xs)
  length-take zero xs = omega arith
  length-take (suc n) [] = omega arith
  length-take (suc n) (x ∷ xs) = omega (arith, length-take n xs)

  pub length-drop : (n : ℕ) (xs : List A) → length (drop n xs) ≡ length xs - n
  length-drop zero xs = omega arith
  length-drop (suc n) [] = omega arith
  length-drop (suc n) (x ∷ xs) = omega (arith, length-drop n xs)

  pub length-replicate : (n : ℕ) (a : A) → length (replicate n a) ≡ n
  length-replicate zero a = refl
  length-replicate (suc n) a = ap suc (length-replicate n a)

  pub keep-append : (p : A → Bool) (xs ys : List A) → keep p (xs ++ ys) ≡ keep p xs ++ keep p ys
  keep-append p [] ys = refl
  keep-append p (x ∷ xs) ys = ground (arith, keep-append p xs ys)

module _ {ℓ} {A : Type ℓ} where
  abbrev pub nth : List A → ℕ → Option A
  nth [] i = none
  nth (x ∷ xs) zero = some x
  nth (x ∷ xs) (suc i) = nth xs i

  pub nth-append_old : (xs ys : List A) (i : ℕ) → i < length xs → nth (xs ++ ys) i ≡ nth xs i
  nth-append_old [] ys i h = elim h [ ]
  nth-append_old (x ∷ xs) ys zero h = refl
  nth-append_old (x ∷ xs) ys (suc i) h = nth-append_old xs ys i (omega arith)

  pub nth-append_new : (xs : List A) (y : A) → nth (xs ++ y ∷ []) (length xs) ≡ some y
  nth-append_new [] y = refl
  nth-append_new (x ∷ xs) y = nth-append_new xs y

  pub nth-lt : (xs : List A) (i : ℕ) → i < length xs → (x : A) × (nth xs i ≡ some x)
  nth-lt [] i h = elim h [ ]
  nth-lt (x ∷ xs) zero h = (x, refl)
  nth-lt (x ∷ xs) (suc i) h = nth-lt xs i (omega arith)

  pub drop-nth : (xs : List A) (i : ℕ) (x : A) → nth xs i ≡ some x → drop i xs ≡ x ∷ drop (suc i) xs
  drop-nth [] i x e = ground arith
  drop-nth (y ∷ xs) zero x e = ground arith
  drop-nth (y ∷ xs) (suc i) x e = drop-nth xs i x e

  pub take-next :
      (xs : List A) (i : ℕ) (x : A) → nth xs i ≡ some x → take (suc i) xs ≡ take i xs ++ x ∷ []
  take-next [] i x e = ground arith
  take-next (y ∷ xs) zero x e = ground arith
  take-next (y ∷ xs) (suc i) x e = ap (λ (r : List A). y ∷ r) (take-next xs i x e)

  pub take-append_le : (n : ℕ) (xs ys : List A) → n ≤ length xs → take n (xs ++ ys) ≡ take n xs
  take-append_le zero xs ys h = refl
  take-append_le (suc n) [] ys h = elim h [ ]
  take-append_le (suc n) (x ∷ xs) ys h =
      ap (λ (r : List A). x ∷ r) (take-append_le n xs ys (omega arith))

  pub drop_all : (xs : List A) → drop (length xs) xs ≡ []
  drop_all [] = refl
  drop_all (x ∷ xs) = drop_all xs

  pub nth-drop : (xs : List A) (n i : ℕ) → nth (drop n xs) i ≡ nth xs (n + i)
  nth-drop xs zero i = ap (nth xs) front
    where
      front : i ≡ 0 + i
      front = omega arith
  nth-drop [] (suc n) i = refl
  nth-drop (x ∷ xs) (suc n) i = nth-drop xs n i ∙ ap (nth (x ∷ xs)) behind
    where
      behind : suc (n + i) ≡ suc n + i
      behind = omega arith
