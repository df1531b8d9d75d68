-- ===== src/Client/Life/Clear.antt =====
-- A callback that FailAll has taken does not come back.
use mathlib.Core.Path.{subst}
use actor_cluster.Prelude.{
  ℕ, suc, ◌+◌, ◌*◌, ◌%◌, ◌≤◌, ◌≡◌, refl, sym, ap, ◌∙◌, ◌⊎◌, inl, inr, String, false, ◌&&◌, List, [],
  ◌∷◌, none, arith,
}
use actor_cluster.Prelude.Tests.{nat_eq, both, ltb, ◌==◌, Bool-cases, if◌then◌else◌}
use actor_cluster.Prelude.Lists.{length}
use actor_cluster.Prelude.Dict.{Dict, lookup, lookup-insert, lookup-delete}
use actor_cluster.Client.Callbacks.{CallbackEntry, CallbackMap, store, delete_callback}
use actor_cluster.Client.Streamer.Results.{callbacks-receive_result}
use actor_cluster.Client.Life.{
  Phase, alive, failing, failed, Life, Step, stores, offers, withdraws, flushes, receives,
  receive_ends, fails_shard, closes_transport, stop_called, stop_ends, out_of_shard, fail_shard,
  begin_fail, next_shard, close_transport, is_done, step, run, shards,
}
use actor_cluster.Client.Life.Conserved.{entries-delete_callback}
use actor_cluster.Client.Life.Shards.{lookup-out_of_shard}
use actor_cluster.Client.Life.Keeps.{Keeps, step-flushes, step-receive_ends}

-- How often a run stores a callback of the request.
abbrev pub one_store : ℕ → Step → ℕ
one_store k (stores req_id entry) = if req_id == k then 1 else 0
one_store k _ = 0

abbrev pub stores_of : ℕ → List Step → ℕ
stores_of k [] = 0
stores_of k (st ∷ steps) = one_store k st + stores_of k steps

-- FailAll has passed the shard of the request, and no callback of it is left; before `fail`, nothing
-- is said.
abbrev pub Clear : ℕ → Phase → Dict ℕ CallbackEntry → Type 0
Clear k alive entries = Unit {0}
Clear k (failing err_code next) entries = (next ≤ k % shards) ⊎ (lookup k entries ≡ none)
Clear k failed entries = lookup k entries ≡ none

Clear-none :
    (k : ℕ) (p : Phase) (entries entries' : Dict ℕ CallbackEntry)
    → (lookup k entries' ≡ lookup k entries) ⊎ (lookup k entries' ≡ none)
    → Clear k p entries
    → Clear k p entries'
Clear-none k alive entries entries' e h = tt
Clear-none k (failing err_code next) entries entries' e (inl h) = inl h
Clear-none k (failing err_code next) entries entries' (inl e) (inr h) = inr (e ∙ h)
Clear-none k (failing err_code next) entries entries' (inr e) (inr h) = inr e
Clear-none k failed entries entries' (inl e) h = e ∙ h
Clear-none k failed entries entries' (inr e) h = e

delete_callback-Clear :
    (k j : ℕ) (p : Phase) (sm : CallbackMap)
    → Clear k p sm.entries
    → Clear k p (delete_callback j sm).entries
delete_callback-Clear k j p sm h =
    Clear-none k p sm.entries (delete_callback j sm).entries
      (ground (arith, ap (lookup k) (entries-delete_callback j sm), lookup-delete j k sm.entries)) h

sweep :
    (k next : ℕ) (entries : Dict ℕ CallbackEntry)
    → (next ≤ k % shards) ⊎ (lookup k entries ≡ none)
    → (suc next ≤ k % shards) ⊎ (lookup k (out_of_shard next entries) ≡ none)
sweep k next entries h = ground (arith, lookup-out_of_shard next k entries, h)

module _ (k : ℕ) where
  abbrev pub IsClear : Life → Type 0
  IsClear s = Clear k s.phase s.receiver.callbacks.entries

  begin_fail-IsClear :
      (err_code : String) (s : Life) → IsClear s → IsClear (begin_fail err_code s.phase s)
  begin_fail-IsClear err_code s h = at s.phase refl
    where
      at : (p : Phase) → s.phase ≡ p → IsClear (begin_fail err_code p s)
      at alive e = inl (omega arith)
      at (failing code next) e = h
      at failed e = h

  IsClear-Keeps : Keeps IsClear
  IsClear-Keeps = record {
    flusher = λ f s h. h;
    queue = λ queue s h. h;
    leaves = λ s h. h;
    begins = begin_fail-IsClear;
  }

  next_shard-IsClear : (s : Life) → IsClear s → IsClear (next_shard s.phase s)
  unfolding fail_shard
  next_shard-IsClear s h = at s.phase refl
    where
      here :
          {code : String} {next : ℕ}
          → s.phase ≡ failing code next
          → Clear k (failing code next) s.receiver.callbacks.entries
      here e = subst (λ (p : Phase). Clear k p s.receiver.callbacks.entries) e h

      at : (p : Phase) → s.phase ≡ p → IsClear (next_shard p s)
      at alive e = h
      at (failing code next) e =
          both IsClear (ltb next shards) (sweep k next s.receiver.callbacks.entries (here e)) h
      at failed e = h

  close_transport-IsClear : (s : Life) → IsClear s → IsClear (close_transport s.phase s)
  close_transport-IsClear s h = at s.phase refl
    where
      at : (p : Phase) → s.phase ≡ p → IsClear (close_transport p s)
      at alive e = h
      at (failing code next) e = elim (Bool-cases (ltb next shards)) [
        | inl more ↦ rw (more) h
        | inr over ↦
            rw (over)
              (gone over (subst (λ (p : Phase). Clear k p s.receiver.callbacks.entries) e h))
      ]
        where
          gone :
              ltb next shards ≡ false
              → (next ≤ k % shards) ⊎ (lookup k s.receiver.callbacks.entries ≡ none)
              → lookup k s.receiver.callbacks.entries ≡ none
          gone over (inl low) = ground (arith, over, low)
          gone over (inr e') = e'
      at failed e = h

  pub step-IsClear :
      (target : ℕ) (st : Step) (s : Life)
      → one_store k st ≡ 0
      → IsClear s
      → IsClear (step target st s)
  unfolding step store
  step-IsClear target (stores j entry) s other h =
      Clear-none k s.phase s.receiver.callbacks.entries _
        (inl (ground (arith, lookup-insert j k entry s.receiver.callbacks.entries, other))) h
  step-IsClear target (offers env) s other h = both IsClear (ltb (length s.queue) (target * 2)) h h
  step-IsClear target (withdraws j) s other h =
      delete_callback-Clear k j s.phase s.receiver.callbacks h
  step-IsClear target (flushes w) s other h = step-flushes IsClear IsClear-Keeps target w s h
  step-IsClear target (receives now res) s other h =
      both IsClear s.receiving
        (subst (λ (sm : CallbackMap). Clear k s.phase sm.entries)
          (sym (callbacks-receive_result now res s.receiver))
          (delete_callback-Clear k res.request_id s.phase s.receiver.callbacks h))
        h
  step-IsClear target (receive_ends ending) s other h =
      step-receive_ends IsClear IsClear-Keeps target ending s h
  step-IsClear target fails_shard s other h = next_shard-IsClear s h
  step-IsClear target closes_transport s other h = close_transport-IsClear s h
  step-IsClear target stop_called s other h = both IsClear s.receiver.dead h h
  step-IsClear target stop_ends s other h = both IsClear (s.stopping && is_done s.phase s) h h

  pub run-IsClear :
      (target : ℕ) (steps : List Step) (s : Life)
      → stores_of k steps ≡ 0
      → IsClear s
      → IsClear (run target steps s)
  unfolding run
  run-IsClear target [] s other h = h
  run-IsClear target (st ∷ steps) s other h =
      run-IsClear target steps (step target st s) (omega (arith, other))
        (step-IsClear target st s (omega (arith, other)) h)
