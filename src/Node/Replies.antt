-- ===== src/Node/Replies.antt =====
-- Batches, and the way of a reply back to the stream that sent the request.
use mathlib.Core.List.{append_assoc, append-nil}
use actor_cluster.Prelude.{
  ℕ, ◌≡◌, refl, sym, ap, ◌∙◌, inl, inr, String, Bool, true, false, List, [], ◌∷◌, ◌++◌, Option,
  none, some,
}
use actor_cluster.Prelude.Tests.{leb, Option-cases, string_eq}
use actor_cluster.Prelude.Dict.{lookup, delete}
use actor_cluster.Message.{RemoteEnvelope, RemoteResult, BatchRequest, err_node_overloaded}
use actor_cluster.Persistence.{Store}
use actor_cluster.Discovery.Table.{NodeIp}
use actor_cluster.Node.Keys.{ResultRouteKey, actor_key_eq, result_route_key_eq}
use actor_cluster.Node.Flush.{QueuedResult}
use actor_cluster.Node.Runtime.{
  Node, enqueue_result, refusal, handle_envelopes, unless_panicked, overload, handle_batch,
  reply_by_route,
}
use actor_cluster.Node.Rounds.{handle_envelope-Fate}
use actor_cluster.Node.Fate.{OthersKept, kept_of, Fate, result_for_sender, other_of_delete}

-- Each envelope of a batch has its fate, one after another. A nil envelope has none.
abbrev pub Fates : ℕ → List (Option RemoteEnvelope) → Node → Node → Type 0
Fates k [] n o = n ≡ o
Fates k (none ∷ envs) n o = ⊥
Fates k (some env ∷ envs) n o = (m : Node) × Fate k env n m × Fates k envs m o

abbrev pub NoNil : List (Option RemoteEnvelope) → Type 0
NoNil [] = Unit {0}
NoNil (none ∷ envs) = ⊥
NoNil (some env ∷ envs) = NoNil envs

-- The refusals of an overloaded node.
abbrev pub overload_answers : ℕ → List (Option RemoteEnvelope) → List QueuedResult
overload_answers k [] = []
overload_answers k (none ∷ envs) = overload_answers k envs
overload_answers k (some env ∷ envs) =
    result_for_sender
      (refusal env env.op_code err_node_overloaded
        "node mailbox backlog limit reached, please retry")
      k
    ∷ overload_answers k envs

module _ (st : Store) (resolver : Option (ℕ → ℕ → NodeIp)) (my_ip : String) where
  unless_panicked-Fates :
      (k : ℕ) (env : RemoteEnvelope) (envs : List (Option RemoteEnvelope)) (n : Node)
      (r : Node × Bool) (rest : Node → Node × Bool)
      → r.1 ≡ true
      → Fate k env n r.0
      → ((m : Node) → ((rest m).1 ≡ true) × Fates k envs m (rest m).0)
      → ((unless_panicked st r rest).1 ≡ true)
        × Fates k (some env ∷ envs) n (unless_panicked st r rest).0
  unless_panicked-Fates k env envs n (m, true) rest e f more = ((more m).0, (m, f, (more m).1))
  unless_panicked-Fates k env envs n (m, false) rest e f more = cc

  handle_envelopes-Fates :
      (db : st.Db) (now k : ℕ) (envs : List (Option RemoteEnvelope)) (n : Node)
      → NoNil envs
      → let r = handle_envelopes st resolver my_ip db now (some k) envs n in
        (r.1 ≡ true) × Fates k envs n r.0
  unfolding handle_envelopes
  handle_envelopes-Fates db now k [] n h = (refl, refl)
  handle_envelopes-Fates db now k (none ∷ envs) n h = absurd h
  handle_envelopes-Fates db now k (some env ∷ envs) n h =
      let (fine, fate) = handle_envelope-Fate st resolver my_ip db now k env n in
      unless_panicked-Fates k env envs n _ _ fine fate
        (λ m. handle_envelopes-Fates db now k envs m h)

  -- Below the backlog limit, a batch without nil envelopes is worked off to its end, and each of its
  -- envelopes has exactly one of the two fates.
  pub handle_batch-Fates :
      (db : st.Db) (now backlog k : ℕ) (batch : BatchRequest) (n : Node)
      → leb n.mailbox_limit backlog ≡ false
      → NoNil batch.envelopes
      → let r = handle_batch st resolver my_ip db now backlog batch (some k) n in
        (r.1 ≡ true) × Fates k batch.envelopes n r.0
  unfolding handle_batch
  handle_batch-Fates db now backlog k batch n calm full =
      rw (calm, handle_batch) (handle_envelopes-Fates db now k batch.envelopes n full)

  overload_lem :
      (k : ℕ) (envs : List (Option RemoteEnvelope)) (n : Node)
      → overload st resolver my_ip (some k) envs n
        ≡ record n { result_ch = n.result_ch ++ overload_answers k envs }
  unfolding overload enqueue_result
  overload_lem k [] n = λ i. record n { result_ch = sym (append-nil n.result_ch) i }
  overload_lem k (none ∷ envs) n = overload_lem k envs n
  overload_lem k (some env ∷ envs) n =
      let first =
        result_for_sender
          (refusal env env.op_code err_node_overloaded
            "node mailbox backlog limit reached, please retry")
          k in
      overload_lem k envs (record n { result_ch = n.result_ch ++ first ∷ [] })
      ∙ ap (λ (q : List QueuedResult). record n { result_ch = q })
          (append_assoc n.result_ch (first ∷ []) (overload_answers k envs))

  -- From the backlog limit on, every envelope of a batch that is not nil is refused, in its order,
  -- and nothing else of the node changes: no actor, no route, no message.
  pub handle_batch_overloaded :
      (db : st.Db) (now backlog k : ℕ) (batch : BatchRequest) (n : Node)
      → leb n.mailbox_limit backlog ≡ true
      → handle_batch st resolver my_ip db now backlog batch (some k) n
        ≡ (record n { result_ch = n.result_ch ++ overload_answers k batch.envelopes }, true)
  unfolding handle_batch
  handle_batch_overloaded db now backlog k batch n over =
      rw (over, handle_batch) (ap (λ (m : Node). (m, true)) (overload_lem k batch.envelopes n))

-- emit at a route that is there, and at one that is not.
pub reply_routed :
    (rk : ResultRouteKey) (res : RemoteResult) (n : Node) (k : ℕ)
    → lookup rk n.reply_routes ≡ some k
    → reply_by_route rk res n ≡ record n {
      reply_routes = delete rk n.reply_routes;
      result_ch = n.result_ch ++ result_for_sender res k ∷ [];
    }
reply_routed rk res n k e = rw (e, reply_by_route) refl

pub reply_unrouted :
    (rk : ResultRouteKey) (res : RemoteResult) (n : Node)
    → lookup rk n.reply_routes ≡ none
    → reply_by_route rk res n ≡ n
reply_unrouted rk res n e = rw (e, reply_by_route) refl

pub reply_others :
    (rk : ResultRouteKey) (res : RemoteResult) (n : Node)
    → OthersKept rk n.reply_routes (reply_by_route rk res n).reply_routes
reply_others rk res n =
    kept_of rk n.reply_routes (reply_by_route rk res n).reply_routes (λ other ne.
      elim (Option-cases (lookup rk n.reply_routes)) [
        | inl e ↦ rw (reply_unrouted rk res n e) refl
        | inr (k, e) ↦ rw (reply_routed rk res n k e) (other_of_delete rk other n.reply_routes ne)
      ])
