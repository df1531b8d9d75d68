-- ===== src/Client/Stress/Load.antt =====
-- The options after normalize, what the generators draw from them, and the drain.
use actor_cluster.Prelude.{
  ℕ, ◌*◌, ◌<◌, ◌≤◌, ◌≡◌, refl, sym, ap, ◌∙◌, ◌⊎◌, inl, inr, Bool, true, false, ◌&&◌, List, [], ◌∷◌,
  ◌++◌, Option, none, some, arith,
}
use actor_cluster.Prelude.Tests.{nat_beq, leb, string_eq, Bool-cases, if◌then◌else◌}
use actor_cluster.Prelude.Words.{u64_mod, i64_bound, add64, sub64, not_positive}
use actor_cluster.Client.Stress.{
  StressConfig, second, with_drain_window, with_uid_range, check_uid_range, normalize, uid_span,
  draw_uid, pacing, generates, Reading, drain_in_flight,
}

-- int64 fields.
abbrev pub IsWord : ℕ → Type 0
IsWord w = w < u64_mod

-- The options are usable: the drain window is positive and the range of uids is not empty.
pub record IsNormal (cfg : StressConfig) : Type 0 where
  pub drains : (0 < cfg.drain_window) × (cfg.drain_window < i64_bound)
  pub low : 0 < cfg.uid_min
  pub range : cfg.uid_min ≤ cfg.uid_max
  pub high : cfg.uid_max < i64_bound

drain_part :
    (cfg : StressConfig)
    → IsWord cfg.drain_window
    → let c = with_drain_window cfg in (0 < c.drain_window) × (c.drain_window < i64_bound)
drain_part cfg h = ground arith

checked_range :
    (cfg : StressConfig)
    → IsWord cfg.uid_min
    → IsWord cfg.uid_max
    → check_uid_range cfg ≡ none
    → (0 < cfg.uid_min) × (cfg.uid_min ≤ cfg.uid_max) × (cfg.uid_max < i64_bound)
checked_range cfg hl hh e = ground arith

uid_words :
    (cfg : StressConfig)
    → IsWord cfg.uid_min
    → IsWord cfg.uid_max
    → IsWord (with_uid_range (with_drain_window cfg)).uid_min
      × IsWord (with_uid_range (with_drain_window cfg)).uid_max
uid_words cfg hl hh = ground arith

drain_kept : (cfg : StressConfig) → (with_uid_range cfg).drain_window ≡ cfg.drain_window
drain_kept cfg = elim (Bool-cases (nat_beq cfg.uid_min 0 && nat_beq cfg.uid_max 0)) [
  | inl e ↦ rw e refl
  | inr e ↦ rw e refl
]

window_is_positive :
    (cfg : StressConfig)
    → IsWord cfg.drain_window
    → not_positive (with_drain_window cfg).drain_window ≡ false
window_is_positive cfg h = ground arith

window_fixed :
    (cfg : StressConfig) → not_positive cfg.drain_window ≡ false → with_drain_window cfg ≡ cfg
window_fixed cfg e =
    ap (λ (b : Bool). if b then record cfg { drain_window = 60 * second } else cfg) e

-- The second call finds nothing to replace.
range_twice :
    (cfg : StressConfig)
    → not_positive cfg.drain_window ≡ false
    → with_uid_range (with_drain_window (with_uid_range cfg)) ≡ with_uid_range cfg
range_twice cfg p = elim (Bool-cases (nat_beq cfg.uid_min 0 && nat_beq cfg.uid_max 0)) [
  | inl e ↦
      let s : with_uid_range cfg ≡ record cfg { uid_min = 1; uid_max = 100 } =
        ap (λ (b : Bool). if b then record cfg { uid_min = 1; uid_max = 100 } else cfg) e in
      ap (λ (c : StressConfig). with_uid_range (with_drain_window c)) s
      ∙ ap with_uid_range (window_fixed (record cfg { uid_min = 1; uid_max = 100 }) p)
      ∙ sym s
  | inr e ↦
      let s : with_uid_range cfg ≡ cfg =
        ap (λ (b : Bool). if b then record cfg { uid_min = 1; uid_max = 100 } else cfg) e in
      ap (λ (c : StressConfig). with_uid_range (with_drain_window c)) s
      ∙ ap with_uid_range (window_fixed cfg p)
]

-- Options of int64 fields that normalize accepts are usable: the drain window is positive, and the
-- uids range from a positive one to one that is not smaller. A second call changes nothing and
-- accepts them too.
pub normalize_accepts :
    (cfg : StressConfig)
    → IsWord cfg.drain_window
    → IsWord cfg.uid_min
    → IsWord cfg.uid_max
    → (normalize cfg).1 ≡ none
    → IsNormal (normalize cfg).0 × (normalize (normalize cfg).0 ≡ normalize cfg)
unfolding normalize
normalize_accepts cfg hd hl hh e = (
  record {
    drains = rw (drain_kept (with_drain_window cfg)) (drain_part cfg hd);
    low = range.0;
    range = range.1;
    high = range.2;
  },
  ap (λ (c : StressConfig). (c, check_uid_range c))
      (range_twice (with_drain_window cfg) (window_is_positive cfg hd)),
)
  where
    words :
        IsWord (with_uid_range (with_drain_window cfg)).uid_min
        × IsWord (with_uid_range (with_drain_window cfg)).uid_max
    words = uid_words cfg hl hh

    range :
        (0 < (with_uid_range (with_drain_window cfg)).uid_min)
        × ((with_uid_range (with_drain_window cfg)).uid_min
            ≤ (with_uid_range (with_drain_window cfg)).uid_max)
        × ((with_uid_range (with_drain_window cfg)).uid_max < i64_bound)
    range = checked_range (with_uid_range (with_drain_window cfg)) words.0 words.1 e

-- A generator draws its uids within the range of its options: the argument of rand.Int63n is
-- positive, and nothing wraps. Of rand.Int63n is asked what its documentation says, that it
-- answers below a positive argument.
pub draw_uid_in_range :
    (rand : ℕ → ℕ) (cfg : StressConfig)
    → ((n : ℕ) → 0 < n → n < i64_bound → rand n < n)
    → IsNormal cfg
    → (0 < uid_span cfg)
      × (uid_span cfg < i64_bound)
      × (cfg.uid_min ≤ draw_uid rand cfg)
      × (draw_uid rand cfg ≤ cfg.uid_max)
unfolding draw_uid
draw_uid_in_range rand cfg spec ok =
    let below =
      spec (uid_span cfg) (omega (arith, ok.range, ok.high, ok.low))
        (omega (arith, ok.range, ok.high, ok.low)) in
    (
      omega (arith, ok.range, ok.high, ok.low),
      omega (arith, ok.range, ok.high, ok.low),
      omega (arith, ok.range, ok.high, ok.low, below),
      omega (arith, ok.range, ok.high, ok.low, below),
    )

-- Where generators are started, their ticker has a positive interval, whatever overflows.
pub pacing_positive :
    (cfg : StressConfig) → IsWord cfg.tps_target → generates cfg ≡ true → 0 < pacing cfg
unfolding pacing
pacing_positive cfg h e = ground arith

abbrev pub AllWords : List Reading → Type 0
AllWords [] = Unit {0}
AllWords (r ∷ rs) = IsWord r.sent × AllWords rs

abbrev Verdict : Option (Bool × ℕ) → Type 0
Verdict v =
    (v ≡ some (true, 0)) ⊎ ((unfinished : ℕ) × (v ≡ some (false, unfinished)) × (0 < unfinished))

drain_late :
    (r : Reading) (rs : List Reading)
    → r.past_deadline ≡ true
    → IsWord r.sent
    → Verdict (drain_in_flight (r ∷ rs))
unfolding drain_in_flight
drain_late r rs late h = elim (Bool-cases (leb r.sent (add64 r.received r.errors))) [
  | inl e ↦ inl (rw e refl)
  | inr e ↦ inr (sub64 r.sent (add64 r.received r.errors), rw (e, late) refl, ground (arith, e))
]

-- By the first reading past the deadline, the drain has returned: with everything handled, or with
-- a positive number of unfinished requests. The counters read are words.
pub drain_in_flight_ends :
    (before after : List Reading) (r : Reading)
    → r.past_deadline ≡ true
    → AllWords (before ++ r ∷ after)
    → let v = drain_in_flight (before ++ r ∷ after) in
      (v ≡ some (true, 0)) ⊎ ((unfinished : ℕ) × (v ≡ some (false, unfinished)) × (0 < unfinished))
unfolding drain_in_flight
drain_in_flight_ends [] after r late words = drain_late r after late words.0
drain_in_flight_ends (x ∷ before) after r late words =
    elim (Bool-cases (leb x.sent (add64 x.received x.errors))) [
      | inl e ↦ inl (rw e refl)
      | inr e ↦ elim (Bool-cases x.past_deadline) [
        | inl p ↦ drain_late x (before ++ r ∷ after) p words.0
        | inr p ↦ rw (e, p) (drain_in_flight_ends before after r late words.1)
      ]
    ]
