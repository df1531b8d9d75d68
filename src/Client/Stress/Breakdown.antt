-- ===== src/Client/Stress/Breakdown.antt =====
-- cmd/client/stress.go: the breakdown of the errors since the last reset.
use actor_cluster.Prelude.{
  ℕ, ◌-◌, ◌≡◌, refl, sym, ap, ◌∙◌, inl, inr, String, Bool, [], ◌∷◌, Option, none, some,
}
use actor_cluster.Prelude.Tests.{leb, string_eq, eq_iff, eq_refl, Bool-cases, if◌then◌else◌, ◌==◌}
use actor_cluster.Prelude.Dict.{Dict, lookup, insert, lookup-insert, Distinct}
use actor_cluster.Client.Stress.{diff_error_breakdown, value_or_zero}

-- The growth of one counter, if there is any.
abbrev pub growth : ℕ → ℕ → Option ℕ
growth value base = if leb value base then none else some (value - base)

abbrev pub growth_of : Option ℕ → ℕ → Option ℕ
growth_of none base = none
growth_of (some value) base = growth value base

-- In the difference of two breakdowns stands each code whose count has grown, with its growth, and
-- no other: the first breakdown has no code twice.
pub lookup-diff_error_breakdown :
    (key : String) (curr base : Dict String ℕ)
    → Distinct curr
    → lookup key (diff_error_breakdown curr base)
      ≡ growth_of (lookup key curr) (value_or_zero (lookup key base))
unfolding diff_error_breakdown lookup
lookup-diff_error_breakdown key [] base d = refl
lookup-diff_error_breakdown key ((k, v) ∷ curr) base d =
    let ih = lookup-diff_error_breakdown key curr base d.1 in
    elim (Bool-cases (k == key)) [
      | inl e ↦ rw e (at_key ((eq_iff k key).0 e) ih)
      | inr e ↦ rw e (elim (Bool-cases (leb v (value_or_zero (lookup k base)))) [
        | inl f ↦ rw f ih
        | inr f ↦ rw f (lookup-insert k key _ (diff_error_breakdown curr base) ∙ rw e ih)
      ])
    ]
  where
    at_key :
        k ≡ key
        → lookup key (diff_error_breakdown curr base)
          ≡ growth_of (lookup key curr) (value_or_zero (lookup key base))
        → lookup key (
            if leb v (value_or_zero (lookup k base))
            then diff_error_breakdown curr base
            else insert k (v - value_or_zero (lookup k base)) (diff_error_breakdown curr base))
          ≡ growth v (value_or_zero (lookup key base))
    at_key same ih =
        let gone : lookup key curr ≡ none = ap (λ (x : String). lookup x curr) (sym same) ∙ d.0 in
        elim (Bool-cases (leb v (value_or_zero (lookup k base)))) [
          | inl f ↦ rw f (
              ih
              ∙ ap (λ (o : Option ℕ). growth_of o (value_or_zero (lookup key base))) gone
              ∙ sym (
                  ap (λ (b : Bool). if b then none else some (v - value_or_zero (lookup key base)))
                    (ap (λ (x : String). leb v (value_or_zero (lookup x base))) (sym same) ∙ f)))
          | inr f ↦ rw f (
              lookup-insert k key _ (diff_error_breakdown curr base)
              ∙ ap
                  (λ (b : Bool).
                    if b
                    then some (v - value_or_zero (lookup k base))
                    else lookup key (diff_error_breakdown curr base))
                  (ap (λ (x : String). x == key) same ∙ eq_refl key)
              ∙ ap (λ (x : String). some (v - value_or_zero (lookup x base))) same
              ∙ sym (
                  ap (λ (b : Bool). if b then none else some (v - value_or_zero (lookup key base)))
                    (ap (λ (x : String). leb v (value_or_zero (lookup x base))) (sym same) ∙ f)))
        ]
