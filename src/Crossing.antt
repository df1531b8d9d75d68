-- ===== src/Crossing.antt =====
-- From a streamer's channel (cmd/client/streamer.go) over its gRPC stream (pkg/remote/server.go) to
-- the node (internal/node/node.go), which cmd/node/main.go gives to the server as its handler.
mod Tests
use mathlib.Core.List.{append_assoc}
use mathlib.Core.Path.{subst}
use actor_cluster.Prelude.{
  ℕ, suc, ◌*◌, ◌<◌, ◌≤◌, ◌≡◌, refl, sym, ap, ◌∙◌, ◌⊎◌, inl, inr, String, Bool, true, false, List,
  [], ◌∷◌, ◌++◌, Option, none, some, map, arith,
}
use actor_cluster.Prelude.Tests.{leb, ltb, Bool-cases}
use actor_cluster.Prelude.Lists.{length}
use actor_cluster.Prelude.Words.{u64_mod}
use actor_cluster.Message.{RemoteEnvelope, BatchRequest}
use actor_cluster.Persistence.{Store}
use actor_cluster.Discovery.Table.{NodeIp}
use actor_cluster.Server.{HandlerError, Received, batch, stream_messages}
use actor_cluster.Node.Runtime.{Node, handle_batch}
use actor_cluster.Node.Replies.{
  Fates, NoNil, overload_answers, handle_batch-Fates, handle_batch_overloaded,
}
use actor_cluster.Client.Metrics.{Metrics}
use actor_cluster.Client.Streamer.Batches.{concat, concat-append, Sized}
use actor_cluster.Client.Life.{Life, Step, new_life, run}
use actor_cluster.Client.Life.Wire.{accepted, wire_in_order}

-- What sendBatch sends of its slice, and what Recv makes of it.
abbrev pub request_of : List RemoteEnvelope → BatchRequest
request_of es = record { envelopes = map some es }

abbrev pub arrival : List RemoteEnvelope → Received
arrival es = batch (some (request_of es))

request_of-NoNil : (es : List RemoteEnvelope) → NoNil (map some es)
request_of-NoNil [] = tt
request_of-NoNil (e ∷ es) = request_of-NoNil es

length-request_of : (es : List RemoteEnvelope) → length (request_of es).envelopes ≡ length es
length-request_of [] = refl
length-request_of (e ∷ es) = omega (arith, length-request_of es)

Sized-first :
    (target : ℕ) (bs cs : List (List RemoteEnvelope)) → Sized target (bs ++ cs) → Sized target bs
Sized-first target [] cs h = tt
Sized-first target (b ∷ bs) cs (low, high, h) = (low, high, Sized-first target bs cs h)

first_of :
    (cs bs : List (List RemoteEnvelope)) (b q : List RemoteEnvelope)
    → concat cs ++ ((concat bs ++ b) ++ q) ≡ (concat (cs ++ bs) ++ b) ++ q
first_of cs bs b q = simp (concat-append, append_assoc)

-- The i-th call of HandleBatch on the stream meets the tables db i, the time now i and the backlog
-- backlog i, after other goroutines have made between i n of the node n that the last call left.
module _ (st : Store) (resolver : Option (ℕ → ℕ → NodeIp)) (my_ip : String) (db : ℕ → st.Db)
    (now backlog : ℕ → ℕ) (between : ℕ → Node → Node) (stream : ℕ) where
  abbrev called : ℕ → BatchRequest → Node → Node × Bool
  called i b n = handle_batch st resolver my_ip (db i) (now i) (backlog i) b (some stream) n

  -- The node as the handler of the stream: HandleBatch returns nil on every way out.
  abbrev pub on_batch : Node × ℕ → BatchRequest → (Node × ℕ) × Option HandlerError
  on_batch (n, i) b = (((called i b (between i n)).0, suc i), none)

  -- A batch is worked off to its end, each envelope with its fate; or the node is overloaded, and
  -- refuses each.
  abbrev pub Worked : ℕ → List RemoteEnvelope → Node → Node → Type 0
  Worked i b n m =
      ((leb n.mailbox_limit (backlog i) ≡ false) × Fates stream (map some b) n m)
      ⊎ ((leb n.mailbox_limit (backlog i) ≡ true)
          × (m ≡ record n { result_ch = n.result_ch ++ overload_answers stream (map some b) }))

  -- The calls on the batches, from the i-th on, none of which panics.
  abbrev pub Crossed : ℕ → List (List RemoteEnvelope) → Node → Node → Type 0
  Crossed i [] n o = n ≡ o
  Crossed i (b ∷ bs) n o =
      (m : Node) × ((called i (request_of b) (between i n)).1 ≡ true)
      × Worked i b (between i n) m
      × Crossed (suc i) bs m o

  called-Worked :
      (i : ℕ) (b : List RemoteEnvelope) (n : Node)
      → let r = called i (request_of b) n in (r.1 ≡ true) × Worked i b n r.0
  called-Worked i b n = elim (Bool-cases (leb n.mailbox_limit (backlog i))) [
    | inl over ↦
        let e =
          handle_batch_overloaded st resolver my_ip (db i) (now i) (backlog i) stream (request_of b)
            n over in
        (ap (λ (r : Node × Bool). r.1) e, inr (over, ap (λ (r : Node × Bool). r.0) e))
    | inr calm ↦
        let (fine, fates) =
          handle_batch-Fates st resolver my_ip (db i) (now i) (backlog i) stream (request_of b) n
            calm (request_of-NoNil b) in
        (fine, inl (calm, fates))
  ]

  stream-Crossed :
      (target max i : ℕ) (bs : List (List RemoteEnvelope)) (n : Node)
      → target ≤ max
      → Sized target bs
      → let v = stream_messages on_batch max (n, i) (map arrival bs) in
        (v.ending ≡ none) × Crossed i bs n v.state.0
  unfolding stream_messages
  stream-Crossed target max i [] n fits h = (refl, refl)
  stream-Crossed target max i (b ∷ bs) n fits (low, high, h) =
      elim (Bool-cases (ltb max (length (request_of b).envelopes))) [
        | inl big ↦ absurd (ground (arith, big, length-request_of b))
        | inr small ↦
            let (fine, worked) = called-Worked i b (between i n) in
            let (open_end, crossed) =
              stream-Crossed target max (suc i) bs (called i (request_of b) (between i n)).0 fits
                h in
            rw small (open_end, ((called i (request_of b) (between i n)).0, fine, worked, crossed))
      ]

  -- With a target size above zero that is within the server's limit, and a uint64 counter: however the
  -- goroutines of a streamer interleave, when the first batches that it has sent have arrived at the
  -- node, the server has ended the stream for none of them; the node has worked them off in their
  -- order, each envelope with its fate, or has refused all the envelopes of a batch as overloaded,
  -- whatever its other goroutines did between the batches; and the envelopes that arrived are the first
  -- ones that the streamer's channel took.
  pub requests_cross :
      (target max : ℕ) (steps : List Step) (m : Metrics) (n : Node)
      (arrived rest : List (List RemoteEnvelope))
      → 0 < target
      → target ≤ max
      → m.req_sent < u64_mod
      → arrived ++ rest ≡ (run target steps (new_life m)).flusher.sent
      → let v = stream_messages on_batch max (n, 0) (map arrival arrived) in
        (v.ending ≡ none)
        × Crossed 0 arrived n v.state.0
        × ((later : List RemoteEnvelope) × (concat arrived ++ later
              ≡ accepted target steps (new_life m)))
  requests_cross target max steps m n arrived rest pos fits small first =
      let (open_end, crossed) = stream-Crossed target max 0 arrived n fits (
        Sized-first target arrived rest
          (subst (Sized target) (sym first) (wire_in_order target steps m pos small).1)) in
      (open_end, crossed, (_, on_wire))
    where
      s : Life
      s = run target steps (new_life m)

      on_wire :
          concat arrived ++ ((concat rest ++ s.flusher.batch) ++ s.queue)
          ≡ accepted target steps (new_life m)
      on_wire =
          first_of arrived rest s.flusher.batch s.queue
          ∙ ap (λ (bs : List (List RemoteEnvelope)). (concat bs ++ s.flusher.batch) ++ s.queue)
              first
          ∙ (wire_in_order target steps m pos small).0
