-- ===== src/Client/Streamer/Sends.antt =====
-- What flusherLoop sends of the events that it meets, from its first round on.
use mathlib.Core.Path.{subst}
use actor_cluster.Prelude.{
  ℕ, ◌+◌, ◌%◌, ◌<◌, ◌≡◌, refl, sym, ap, ◌∙◌, inl, inr, true, false, List, [], ◌∷◌, ◌++◌, arith,
}
use mathlib.Core.List.{append_assoc}
use actor_cluster.Prelude.Tests.{Bool-cases}
use actor_cluster.Prelude.Lists.{length}
use actor_cluster.Prelude.Words.{u64_mod}
use actor_cluster.Message.{RemoteEnvelope}
use actor_cluster.Client.Streamer.{FlushEvent, Flusher, new_flusher, on_event, flusher_loop}
use actor_cluster.Client.Streamer.Batches.{
  concat, offered, Sized, passed, Filling, Between, on_event-Between, offered-cons, flush_round-if,
}

-- The loop has passed on a first part of what was offered, and left the rest, `later`.
abbrev Passed : ℕ → ℕ → List RemoteEnvelope → Flusher → Type 0
Passed target start want f =
    Filling target start f × ((later : List RemoteEnvelope) × (passed f ++ later ≡ want))

flusher_loop-stopped :
    (target : ℕ) (es : List FlushEvent) (f : Flusher)
    → f.running ≡ false
    → flusher_loop target f es ≡ f
flusher_loop-stopped target [] f over = refl
flusher_loop-stopped target (e ∷ es) f over =
    ap (λ (g : Flusher). flusher_loop target g es) (flush_round-if target f e false over)
    ∙ flusher_loop-stopped target es f over

stopped-Passed :
    (target start : ℕ) (es : List FlushEvent) (f : Flusher)
    → Filling target start f
    → f.running ≡ false
    → Passed target start (passed f ++ offered es) (flusher_loop target f es)
stopped-Passed target start es f i over =
    subst (Passed target start (passed f ++ offered es))
      (sym (flusher_loop-stopped target es f over)) (i, (offered es, refl))

flusher_loop-Passed :
    (target start : ℕ) (es : List FlushEvent) (f : Flusher)
    → 0 < target
    → Between target start f
    → Passed target start (passed f ++ offered es) (flusher_loop target f es)
flusher_loop-Passed target start [] f pos (i, _) = (i, ([], refl))
flusher_loop-Passed target start (e ∷ es) f pos (i, inr over) =
    stopped-Passed target start (e ∷ es) f i over
flusher_loop-Passed target start (e ∷ es) f pos (i, inl room) = elim (Bool-cases f.running) [
  | inr over ↦ stopped-Passed target start (e ∷ es) f i over
  | inl more ↦
      let (b, p) = on_event-Between target start e f pos i room in
      subst
        (λ (g : Flusher).
          Passed target start (passed f ++ offered (e ∷ es)) (flusher_loop target g es))
        (sym (flush_round-if target f e true more))
        (subst
          (λ (w : List RemoteEnvelope).
            Passed target start w (flusher_loop target (on_event target e f) es))
          (ap (λ (r : List RemoteEnvelope). r ++ offered es) p
            ∙ append_assoc (passed f) (offered (e ∷ [])) (offered es)
            ∙ ap (λ (r : List RemoteEnvelope). passed f ++ r) (offered-cons e es))
          (flusher_loop-Passed target start es (on_event target e f) pos b))
]

-- With a target size above zero, a flusher that starts with an empty slice and a uint64 counter
-- sends, in order and each once, a first part of the envelopes that its channel holds out: those
-- that it has sent and those that it still holds are that part. Each batch that it sent holds at
-- least one envelope and at most the target size, and the counter of the sent requests has grown by
-- as many envelopes, modulo 2 ^ 64.
flusher_sends :
    (target start : ℕ) (es : List FlushEvent)
    → 0 < target
    → start < u64_mod
    → let f = flusher_loop target (new_flusher start) es in
      Sized target f.sent
      × (f.req_sent ≡ (start + length (concat f.sent)) % u64_mod)
      × ((later : List RemoteEnvelope) × ((concat f.sent ++ f.batch) ++ later ≡ offered es))
flusher_sends target start es pos small =
    let (i, rest) = flusher_loop-Passed target start es (new_flusher start) pos (begun, inl pos) in
    (i.sizes, i.counted, rest)
  where
    begun : Filling target start (new_flusher start)
    begun = record { sizes = tt; counted = omega (arith, small); room = omega arith }
