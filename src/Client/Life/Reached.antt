-- ===== src/Client/Life/Reached.antt =====
-- How far FailAll is on its way through the shards.
use mathlib.Core.Path.{subst}
use actor_cluster.Prelude.{
  ℕ, suc, ◌*◌, ◌≤◌, ◌≡◌, refl, sym, ◌⊎◌, inl, inr, String, ◌&&◌, List, [], ◌∷◌, arith,
}
use actor_cluster.Prelude.Tests.{nat_eq, both, ltb, Bool-cases}
use actor_cluster.Prelude.Lists.{length}
use actor_cluster.Client.Life.{
  Phase, alive, failing, failed, Life, Step, stores, offers, withdraws, flushes, receives,
  receive_ends, fails_shard, closes_transport, stop_called, stop_ends, begin_fail, next_shard,
  close_transport, is_done, step, run, shards,
}
use actor_cluster.Client.Life.Keeps.{Keeps, step-flushes, step-receive_ends}

-- How often FailAll takes a shard, above `n`.
abbrev one_sweep : Step → ℕ → ℕ
one_sweep fails_shard n = suc n
one_sweep _ n = n

abbrev pub sweeps : ℕ → List Step → ℕ
sweeps n [] = n
sweeps n (st ∷ steps) = sweeps (one_sweep st n) steps

abbrev rank : Phase → ℕ
rank alive = 0
rank (failing err_code next) = suc next
rank failed = suc shards

-- `fail` has begun, and FailAll has passed at least `n` shards, or all of them.
abbrev pub Reached : ℕ → Phase → Type 0
Reached n p = (suc n ≤ rank p) ⊎ (suc shards ≤ rank p)

begin_fail-Reached :
    (n : ℕ) (err_code : String) (p : Phase) (s : Life)
    → Reached n p
    → Reached n s.phase
    → Reached n (begin_fail err_code p s).phase
begin_fail-Reached n err_code alive s h h' = ground (arith, h)
begin_fail-Reached n err_code (failing code next) s h h' = h'
begin_fail-Reached n err_code failed s h h' = h'

close_transport-Reached :
    (n : ℕ) (p : Phase) (s : Life) → Reached n s.phase → Reached n (close_transport p s).phase
close_transport-Reached n alive s h = h
close_transport-Reached n (failing err_code next) s h =
    both (λ (s' : Life). Reached n s'.phase) (ltb next shards) h (inr (omega arith))
close_transport-Reached n failed s h = h

next_shard-Reached :
    (n : ℕ) (p : Phase) (s : Life)
    → Reached n p
    → s.phase ≡ p
    → Reached (suc n) (next_shard p s).phase
next_shard-Reached n alive s h e = ground (arith, h)
next_shard-Reached n (failing err_code next) s h e = elim (Bool-cases (ltb next shards)) [
  | inl more ↦ rw (more) (ground (arith, h))
  | inr over ↦ rw (over) (subst (Reached (suc n)) (sym e) (inr (ground (arith, over))))
]
next_shard-Reached n failed s h e = subst (Reached (suc n)) (sym e) (inr (omega arith))

module _ (n : ℕ) where
  abbrev HasReached : Life → Type 0
  HasReached s = Reached n s.phase

  HasReached-Keeps : Keeps HasReached
  HasReached-Keeps = record {
    flusher = λ f s h. h;
    queue = λ queue s h. h;
    leaves = λ s h. h;
    begins = λ err_code s h. begin_fail-Reached n err_code s.phase s h h;
  }

step-Reached :
    (n target : ℕ) (st : Step) (s : Life)
    → Reached n s.phase
    → Reached (one_sweep st n) (step target st s).phase
unfolding step
step-Reached n target (stores j entry) s h = h
step-Reached n target (offers env) s h = both (HasReached n) (ltb (length s.queue) (target * 2)) h h
step-Reached n target (withdraws j) s h = h
step-Reached n target (flushes w) s h =
    step-flushes (HasReached n) (HasReached-Keeps n) target w s h
step-Reached n target (receives now res) s h = both (HasReached n) s.receiving h h
step-Reached n target (receive_ends ending) s h =
    step-receive_ends (HasReached n) (HasReached-Keeps n) target ending s h
step-Reached n target fails_shard s h = next_shard-Reached n s.phase s h refl
step-Reached n target closes_transport s h = close_transport-Reached n s.phase s h
step-Reached n target stop_called s h = both (HasReached n) s.receiver.dead h h
step-Reached n target stop_ends s h = both (HasReached n) (s.stopping && is_done s.phase s) h h

pub run-Reached :
    (n target : ℕ) (steps : List Step) (s : Life)
    → Reached n s.phase
    → Reached (sweeps n steps) (run target steps s).phase
unfolding run
run-Reached n target [] s h = h
run-Reached n target (st ∷ steps) s h =
    run-Reached (one_sweep st n) target steps (step target st s) (step-Reached n target st s h)

pub closed-failed :
    (p : Phase) (s : Life) → s.phase ≡ p → Reached shards p → (close_transport p s).phase ≡ failed
closed-failed alive s e h = ground (arith, h)
closed-failed (failing err_code next) s e h = elim (Bool-cases (ltb next shards)) [
  | inl more ↦ ground (arith, more, h)
  | inr over ↦ rw (over) refl
]
closed-failed failed s e h = e
