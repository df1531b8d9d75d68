-- ===== src/Discovery/Etcd/Prefix.antt =====
-- normalizeNodePrefix: what the registry and the resolver make of the prefix they are given.
use Prim.Native.Char.{Char, code}
use Prim.Native.String.{[], ◌∷◌}
use actor_cluster.Prelude.{◌≡◌, refl, ap, ◌∙◌, String, Bool, true, false, ◌&&◌}
use text.Mathlib.TextLemmas.{cons-append}
use actor_cluster.Prelude.Tests.{string_eq, nat_beq, ◌==◌, if◌then◌else◌}
use actor_cluster.Prelude.Text.{◌^^◌}
use actor_cluster.Prelude.Affixes.{trim_right}
use actor_cluster.Discovery.Etcd.{normalize_node_prefix}

trim_right-append : (s : String) → trim_right "/" (s ^^ "/") ≡ trim_right "/" s
unfolding trim_right
trim_right-append [] = refl
trim_right-append (c ∷ s) = rw (cons-append c s "/") (rw (trim_right-append s) refl)

-- What TrimRight does with a character in front of a text that it has trimmed.
abbrev dropped : Char → String → Bool
dropped c rest = nat_beq (code "/") (code c) && rest == ""

abbrev keep : Char → String → String
keep c rest = if dropped c rest then [] else c ∷ rest

trim_right-keep :
    (c : Char) (rest : String)
    → trim_right "/" rest ≡ rest
    → trim_right "/" (keep c rest) ≡ keep c rest
unfolding trim_right
trim_right-keep c rest h = at (dropped c rest) refl
  where
    at :
        (b : Bool)
        → dropped c rest ≡ b
        → trim_right "/" (if b then [] else c ∷ rest) ≡ (if b then [] else c ∷ rest)
    at true e = refl
    at false e = ap (keep c) h ∙ ap (λ (b : Bool). if b then [] else c ∷ rest) e

trim_right-trim_right : (s : String) → trim_right "/" (trim_right "/" s) ≡ trim_right "/" s
unfolding trim_right
trim_right-trim_right [] = refl
trim_right-trim_right (c ∷ s) = trim_right-keep c (trim_right "/" s) (trim_right-trim_right s)

-- The prefix of keys is settled by one normalisation: to normalise it again, or to give it a slash
-- more or less, changes nothing, so that a registry and a resolver agree.
pub normalize_node_prefix-stable :
    (prefix : String)
    → (normalize_node_prefix (normalize_node_prefix prefix) ≡ normalize_node_prefix prefix)
      × (normalize_node_prefix (prefix ^^ "/") ≡ normalize_node_prefix prefix)
unfolding normalize_node_prefix trim_right
normalize_node_prefix-stable prefix = (at (t == "") refl, rw (trim_right-append prefix) refl)
  where
    t : String
    t = trim_right "/" prefix

    at :
        (b : Bool)
        → (t == "") ≡ b
        → normalize_node_prefix (if b then "/" else t ^^ "/") ≡ (if b then "/" else t ^^ "/")
    at true e = refl
    at false e =
        ap (λ (u : String). if u == "" then "/" else u ^^ "/")
          (trim_right-append t ∙ trim_right-trim_right prefix)
        ∙ ap (λ (b : Bool). if b then "/" else t ^^ "/") e
