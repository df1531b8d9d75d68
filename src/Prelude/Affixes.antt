-- ===== src/Prelude/Affixes.antt =====
-- Go's strings.HasPrefix, TrimPrefix and TrimRight.
use Prim.Native.Char.{Char, code}
use Prim.Native.String.{String, [], ◌∷◌, len, slice}
use mathlib.Core.Bool.{Bool, true, ◌&&◌}
use mathlib.Core.Path.{◌≡◌}
use text.Mathlib.Text.{◌==◌ as str_eq, starts_with}
use text.Mathlib.TextPositions.{starts_with-append, slice-append_right, len-append}
use actor_cluster.Prelude.Tests.{nat_beq, if◌then◌else◌}
use actor_cluster.Prelude.Text.{◌^^◌}

-- strings.HasPrefix and strings.TrimPrefix.
abbrev pub has_prefix : String → String → Bool
has_prefix s prefix = starts_with s prefix

unfoldable pub trim_prefix : String → String → String
trim_prefix s prefix = if has_prefix s prefix then slice s (len prefix) (len s) else s

-- strings.TrimRight, for a set of one character.
unfoldable pub trim_right : Char → String → String
trim_right c [] = []
trim_right c (d ∷ s) =
    let rest = trim_right c s in
    if nat_beq (code c) (code d) && str_eq rest "" then [] else d ∷ rest

-- A prefix that is put in front is found and taken off again.
pub has_prefix-append : (prefix s : String) → has_prefix (prefix ^^ s) prefix ≡ true
has_prefix-append prefix s = starts_with-append prefix s

pub trim_prefix-append : (prefix s : String) → trim_prefix (prefix ^^ s) prefix ≡ s
unfolding trim_prefix
trim_prefix-append prefix s =
    rw (has_prefix-append prefix s) (rw (len-append prefix s) (slice-append_right prefix s))
