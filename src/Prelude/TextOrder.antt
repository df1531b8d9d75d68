-- ===== src/Prelude/TextOrder.antt =====
-- The order of texts by their bytes, which sort.Strings uses.
use Prim.Native.Nat.{ℕ, compare as compare_ℕ, Ordering}
use Prim.Native.Char.{Char, code}
use Prim.Native.String.{String, [], ◌∷◌, compare, then}
use Prim.Native.String.compare
use mathlib.Core.Path.{◌≡◌, refl, ap, ◌∙◌}
use mathlib.Core.Bool.{Bool, true, false}
use text.Mathlib.TextEquality.{Char-path}
use native.Mathlib.Omega.{arith}

abbrev is_gt : Ordering → Bool
is_gt Ordering.gt = true
is_gt _ = false

-- Whether s comes after t.
abbrev pub comes_after : String → String → Bool
comes_after s t = is_gt (compare s t)

-- One character, and then the rest.
gt-then :
    (a b : ℕ) (o : Ordering)
    → is_gt ((then) (compare_ℕ a b) o)
      ≡ (elim (compare_ℕ a b) [ Ordering.lt ↦ false | Ordering.eq ↦ is_gt o | Ordering.gt ↦ true ])
gt-then a b o = at (compare_ℕ a b)
  where
    at :
        (x : Ordering)
        → is_gt ((then) x o)
          ≡ (elim x [ Ordering.lt ↦ false | Ordering.eq ↦ is_gt o | Ordering.gt ↦ true ])
    at Ordering.lt = refl
    at Ordering.eq = refl
    at Ordering.gt = refl

after_cons :
    (c d : Char) (s t : String)
    → comes_after (c ∷ s) (d ∷ t) ≡ (elim (compare_ℕ (code c) (code d)) [
      | Ordering.lt ↦ false
      | Ordering.eq ↦ comes_after s t
      | Ordering.gt ↦ true
    ])
after_cons c d s t = ap is_gt (compare.cons-cons c d s t) ∙ gt-then (code c) (code d) (compare s t)

after-nil_cons : (d : Char) (t : String) → comes_after [] (d ∷ t) ≡ false
after-nil_cons d t = ap is_gt (compare.nil-cons d t)

after-cons_nil : (c : Char) (s : String) → comes_after (c ∷ s) [] ≡ true
after-cons_nil c s = ap is_gt (compare.cons-nil c s)

-- Not both ways.
pub after_asymmetric : (s t : String) → comes_after s t ≡ true → comes_after t s ≡ false
after_asymmetric [] [] h = ground (arith, h)
after_asymmetric [] (d ∷ t) h = ground (arith, h, after-nil_cons d t)
after_asymmetric (c ∷ s) [] h = after-nil_cons c s
after_asymmetric (c ∷ s) (d ∷ t) h =
    ground (arith, after_cons c d s t, after_cons d c t s, h, after_asymmetric s t)

-- One way, or equal.
pub after_total : (s t : String) → comes_after s t ≡ false → comes_after t s ≡ false → s ≡ t
after_total [] [] h g = refl
after_total [] (d ∷ t) h g = ground (arith, g, after-cons_nil d t)
after_total (c ∷ s) [] h g = ground (arith, h, after-cons_nil c s)
after_total (c ∷ s) (d ∷ t) h g = λ i. Char-path c d same_code i ∷ after_total s t rest.0 rest.1 i
  where
    same_code : code c ≡ code d
    same_code = ground (arith, after_cons c d s t, after_cons d c t s, h, g)

    rest : (comes_after s t ≡ false) × (comes_after t s ≡ false)
    rest = ground (arith, after_cons c d s t, after_cons d c t s, h, g, same_code)

-- The order is transitive.
pub after_transitive :
    (s t u : String) → comes_after s t ≡ false → comes_after t u ≡ false → comes_after s u ≡ false
after_transitive [] [] u h g = g
after_transitive [] (d ∷ t) [] h g = ground (arith, g, after-cons_nil d t)
after_transitive [] (d ∷ t) (e ∷ u) h g = after-nil_cons e u
after_transitive (c ∷ s) [] u h g = ground (arith, h, after-cons_nil c s)
after_transitive (c ∷ s) (d ∷ t) [] h g = ground (arith, g, after-cons_nil d t)
after_transitive (c ∷ s) (d ∷ t) (e ∷ u) h g = ground (
  arith,
  after_cons c d s t,
  after_cons d e t u,
  after_cons c e s u,
  h,
  g,
  after_transitive s t u,
)
