-- ===== src/Client/Dispatch/Outcome.antt =====
-- What dispatchEnvelope leaves behind, whatever the streamers do.
use actor_cluster.Prelude.Words.{sub64}
use actor_cluster.Prelude.{
  ℕ, ◌≡◌, refl, ap, ◌∙◌, ◌⊎◌, inl, inr, String, Bool, true, false, List, [], ◌∷◌, ◌++◌, Option,
  none, some,
}
use actor_cluster.Prelude.Tests.{nat_eq, string_eq, eq_refl, both, ◌==◌, if◌then◌else◌}
use actor_cluster.Prelude.Dict.{
  Dict, is_some, lookup, insert, delete, lookup-insert_self, lookup-delete,
}
use actor_cluster.Message.{RemoteEnvelope, RemoteResult}
use actor_cluster.Discovery.Table.{NodeIp, found, err_table_not_initialized, err_no_owner}
use actor_cluster.Client.Callbacks.{CallbackEntry, store, delete_callback}
use actor_cluster.Client.Metrics.{fail_all}
use actor_cluster.Client.Dispatch.{
  NodeStreamer, new_node_streamer, Router, connected, usable, get_streamer, Turn, takes,
  fails_before_store, fails_after_store, fail_streamer, with_callback, with_envelope,
  without_callback, select_failed, offer, Attempt, got, after_offer, attempts_on, dispatch_envelope,
}

abbrev Free : ℕ → NodeStreamer → Type 0
Free req_id ns = lookup req_id ns.callbacks.entries ≡ none

abbrev pub AllFree : ℕ → Dict String NodeStreamer → Type 0
AllFree req_id [] = Unit {0}
AllFree req_id ((ip, ns) ∷ streamers) = Free req_id ns × AllFree req_id streamers

abbrev DetachedFree : ℕ → List NodeStreamer → Type 0
DetachedFree req_id [] = Unit {0}
DetachedFree req_id (ns ∷ detached) = Free req_id ns × DetachedFree req_id detached

-- No callback waits for the request, at any streamer.
abbrev pub NotWaiting : ℕ → Router → Type 0
NotWaiting req_id r = AllFree req_id r.streamers × DetachedFree req_id r.detached

-- The envelope is the last that a streamer was given: the one of the address, where the callback
-- waits, or one that has failed under the attempt.
abbrev pub Sent : String → RemoteEnvelope → ℕ → CallbackEntry → Router → Type 0
Sent ip env req_id entry r =
    (ns : NodeStreamer) × (((lookup ip r.streamers ≡ some ns)
        × (lookup req_id ns.callbacks.entries ≡ some entry))
      ⊎ ((rest : List NodeStreamer) × (r.detached ≡ ns ∷ rest)))
    × ((before : List RemoteEnvelope) × (ns.queue ≡ before ++ env ∷ []))

AllFree-delete :
    (req_id : ℕ) (ip : String) (m : Dict String NodeStreamer)
    → AllFree req_id m
    → AllFree req_id (delete ip m)
unfolding delete
AllFree-delete req_id ip [] h = tt
AllFree-delete req_id ip ((i, ns) ∷ m) (f, h) =
    both (AllFree req_id) (i == ip) (AllFree-delete req_id ip m h) (f, AllFree-delete req_id ip m h)

AllFree-insert :
    (req_id : ℕ) (ip : String) (ns : NodeStreamer) (m : Dict String NodeStreamer)
    → Free req_id ns
    → AllFree req_id m
    → AllFree req_id (insert ip ns m)
unfolding insert
AllFree-insert req_id ip ns [] f h = (f, tt)
AllFree-insert req_id ip ns ((i, other) ∷ m) f (g, h) =
    both (AllFree req_id) (i == ip) (f, h) (g, AllFree-insert req_id ip ns m f h)

pub without_callback-Free :
    (req_id : ℕ) (ns : NodeStreamer) → Free req_id (without_callback req_id ns)
unfolding delete_callback
without_callback-Free req_id ns = at (lookup req_id ns.callbacks.entries) refl
  where
    at :
        (o : Option CallbackEntry)
        → lookup req_id ns.callbacks.entries ≡ o
        → lookup req_id
            (if is_some o
              then record {
                pending = sub64 ns.callbacks.pending 1;
                entries = delete req_id ns.callbacks.entries;
              }
              else ns.callbacks).entries
          ≡ none
    at none e = e
    at (some entry) e =
        lookup-delete req_id req_id ns.callbacks.entries
        ∙ ap (λ (b : Bool). if b then none else lookup req_id ns.callbacks.entries) (eq_refl req_id)

connected-NotWaiting :
    (req_id : ℕ) (connects : Bool) (ip : String) (r : Router)
    → NotWaiting req_id r
    → NotWaiting req_id (connected connects ip r).0
unfolding lookup
connected-NotWaiting req_id true ip r (h, d) =
    (AllFree-insert req_id ip new_node_streamer r.streamers refl h, d)
connected-NotWaiting req_id false ip r h = h

get_streamer-NotWaiting :
    (req_id : ℕ) (connects : Bool) (ip : String) (r : Router)
    → NotWaiting req_id r
    → NotWaiting req_id (get_streamer connects ip r).0
unfolding get_streamer
get_streamer-NotWaiting req_id connects ip r (h, d) = at (lookup ip r.streamers)
  where
    at : (o : Option NodeStreamer) → NotWaiting req_id (usable o connects ip r).0
    at none = connected-NotWaiting req_id connects ip r (h, d)
    at (some ns) =
        both (λ (t : Router × Option NodeStreamer). NotWaiting req_id t.0) ns.dead
          (connected-NotWaiting req_id connects ip (record r { streamers = delete ip r.streamers })
            (AllFree-delete req_id ip r.streamers h, d))
          (h, d)

-- What an attempt leaves, by whether the send was taken; `none`: there was no streamer.
abbrev Offered : String → RemoteEnvelope → ℕ → CallbackEntry → Router × Option Bool → Type 0
Offered ip env req_id entry (r, none) = NotWaiting req_id r
Offered ip env req_id entry (r, some true) = Sent ip env req_id entry r
Offered ip env req_id entry (r, some false) = NotWaiting req_id r

select_failed-Offered :
    (taken : Bool) (ip : String) (env : RemoteEnvelope) (req_id : ℕ) (entry : CallbackEntry)
    (r : Router) (ns : NodeStreamer)
    → NotWaiting req_id r
    → let (r', t) = select_failed taken env req_id (r, ns) in
      Offered ip env req_id entry (r', some t)
select_failed-Offered true ip env req_id entry r ns h =
    (with_envelope env ns, inr (r.detached, refl), (ns.queue, refl))
select_failed-Offered false ip env req_id entry r ns (h, d) =
    (h, (without_callback-Free req_id ns, d))

offer-Offered :
    (turn : Turn) (ip : String) (env : RemoteEnvelope) (req_id : ℕ) (entry : CallbackEntry)
    (ns : NodeStreamer) (r : Router)
    → NotWaiting req_id r
    → let (r', t) = offer turn ip env req_id entry ns r in Offered ip env req_id entry (r', some t)
unfolding fail_streamer fail_all store
offer-Offered takes ip env req_id entry ns r h = (
  with_envelope env (with_callback req_id entry ns),
  inl (lookup-insert_self ip _ r.streamers, lookup-insert_self req_id entry ns.callbacks.entries),
  (ns.queue, refl),
)
offer-Offered (fails_before_store err_code taken) ip env req_id entry ns r (h, d) =
    select_failed-Offered taken ip env req_id entry _ _ (AllFree-delete req_id ip r.streamers h, d)
offer-Offered (fails_after_store err_code taken) ip env req_id entry ns r (h, d) =
    select_failed-Offered taken ip env req_id entry _ _ (AllFree-delete req_id ip r.streamers h, d)

got-Offered :
    (turn : Turn) (ip : String) (env : RemoteEnvelope) (req_id : ℕ) (entry : CallbackEntry)
    (t : Router × Option NodeStreamer)
    → NotWaiting req_id t.0
    → Offered ip env req_id entry (got turn ip env req_id entry t)
got-Offered turn ip env req_id entry (r, none) h = h
got-Offered turn ip env req_id entry (r, some ns) h = offer-Offered turn ip env req_id entry ns r h

-- What the loop leaves, by what it returns.
abbrev Dispatched :
    String → RemoteEnvelope → ℕ → CallbackEntry → Router × Option RemoteResult → Type 0
Dispatched ip env req_id entry (r, none) = Sent ip env req_id entry r
Dispatched ip env req_id entry (r, some res) = (res.success ≡ false) × NotWaiting req_id r

after_offer-Dispatched :
    (ip : String) (env : RemoteEnvelope) (req_id : ℕ) (entry : CallbackEntry)
    (t : Router × Option Bool) (again : Router → Router × Option RemoteResult)
    → Offered ip env req_id entry t
    → ((r : Router) → NotWaiting req_id r → Dispatched ip env req_id entry (again r))
    → Dispatched ip env req_id entry (after_offer env t again)
after_offer-Dispatched ip env req_id entry (r, none) again h k = (refl, h)
after_offer-Dispatched ip env req_id entry (r, some true) again h k = h
after_offer-Dispatched ip env req_id entry (r, some false) again h k = k r h

attempts_on-Dispatched :
    (ip : String) (env : RemoteEnvelope) (req_id : ℕ) (entry : CallbackEntry)
    (attempts : List Attempt) (r : Router)
    → NotWaiting req_id r
    → Dispatched ip env req_id entry (attempts_on ip env req_id entry attempts r)
attempts_on-Dispatched ip env req_id entry [] r h = (refl, h)
attempts_on-Dispatched ip env req_id entry (a ∷ more) r h =
    after_offer-Dispatched ip env req_id entry _ _
      (got-Offered a.turn ip env req_id entry (get_streamer a.connects ip r)
        (get_streamer-NotWaiting req_id a.connects ip r h))
      (λ (r' : Router) h'. attempts_on-Dispatched ip env req_id entry more r' h')

-- For a request that nothing waits for, dispatchEnvelope either returns a failure, and then no
-- callback of the request is left at any streamer; or it returns nothing, and then the resolver knew
-- an address, and the envelope is the last that a streamer was given: the one that stands in the table
-- for that address, where the callback waits, or one that has failed under the last attempt.
pub dispatch_leaves :
    (answer : NodeIp) (first second : Attempt) (env : RemoteEnvelope) (req_id : ℕ)
    (entry : CallbackEntry) (r : Router)
    → NotWaiting req_id r
    → let (r', immediate) = dispatch_envelope answer first second env req_id entry r in
      ((res : RemoteResult) × (immediate ≡ some res) × (res.success ≡ false) × NotWaiting req_id r')
      ⊎ ((ip : String) × (immediate ≡ none) × (answer ≡ found ip) × Sent ip env req_id entry r')
unfolding dispatch_envelope
dispatch_leaves (found ip) first second env req_id entry r h =
    at (attempts_on ip env req_id entry (first ∷ second ∷ []) r)
      (attempts_on-Dispatched ip env req_id entry (first ∷ second ∷ []) r h)
  where
    at :
        (t : Router × Option RemoteResult)
        → Dispatched ip env req_id entry t
        → ((res : RemoteResult) × (t.1 ≡ some res) × (res.success ≡ false) × NotWaiting req_id t.0)
          ⊎ ((ip' : String) × (t.1 ≡ none) × (found ip ≡ found ip') × Sent ip' env req_id entry t.0)
    at (r', some res) (bad, free) = inl (res, refl, bad, free)
    at (r', none) sent = inr (ip, refl, refl, sent)
dispatch_leaves err_table_not_initialized first second env req_id entry r h = inl (_, refl, refl, h)
dispatch_leaves err_no_owner first second env req_id entry r h = inl (_, refl, refl, h)
