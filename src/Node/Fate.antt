-- ===== src/Node/Fate.antt =====
-- The fate of an envelope in HandleBatch: an answer, or a message in a mailbox with its reply route.
use mathlib.Core.Bool.{false≢true}
use mathlib.Core.Path.{subst}
use actor_cluster.Prelude.{
  ℕ, ◌≡◌, ◌≢◌, refl, sym, ap, ◌∙◌, ◌⊎◌, inl, inr, String, Bool, true, false, List, [], ◌∷◌, ◌++◌,
  some,
}
use actor_cluster.Prelude.Tests.{eq_iff, string_eq, Bool-cases, ◌==◌}
use actor_cluster.Prelude.Dict.{
  Dict, lookup, insert, delete, lookup-delete, lookup-insert, lookup-insert_self,
}
use actor_cluster.Message.{RemoteEnvelope, RemoteResult}
use actor_cluster.Mailbox.State.{Actor, send, send_envelope, is_alive}
use actor_cluster.Wallet.State.{BusinessActor}
use actor_cluster.Node.Keys.{ResultRouteKey, actor_key_eq, result_route_key_eq}
use actor_cluster.Node.Flush.{QueuedResult}
use actor_cluster.Node.Runtime.{
  Node, LiveActor, after_send, enqueue_result, route_of, result_route, refusal,
}

abbrev pub result_for_sender : RemoteResult → ℕ → QueuedResult
result_for_sender res k = record { res = some res; reply = some k }

-- The routes of other requests are as they were.
abbrev pub OthersKept : ResultRouteKey → (routes routes' : Dict ResultRouteKey ℕ) → Type 0
OthersKept rk routes routes' =
    (other : ResultRouteKey) → (rk ≡ other) ⊎ (lookup other routes' ≡ lookup other routes)

pub kept_of :
    (rk : ResultRouteKey) (n m : Dict ResultRouteKey ℕ)
    → ((other : ResultRouteKey) → rk ≢ other → lookup other m ≡ lookup other n)
    → OthersKept rk n m
kept_of rk n m h other = elim (Bool-cases (rk == other)) [
  | inl e ↦ inl ((eq_iff rk other).0 e)
  | inr e ↦ inr (h other (λ same. false≢true (sym e ∙ (eq_iff rk other).1 same)))
]

pub kept_at :
    (rk : ResultRouteKey) (n m : Dict ResultRouteKey ℕ) (other : ResultRouteKey)
    → OthersKept rk n m
    → rk ≢ other
    → lookup other m ≡ lookup other n
kept_at rk n m other kept ne = elim (kept other) [ inl e ↦ absurd (ne e) | inr e ↦ e ]

-- One refusal for this request is queued for the sender.
pub record Answered (k : ℕ) (env : RemoteEnvelope) (n m : Node) : Type 0 where
  pub res : RemoteResult
  pub queued : m.result_ch ≡ n.result_ch ++ result_for_sender res k ∷ []
  pub its_route : result_route res ≡ route_of env
  pub its_tx : res.tx_id ≡ env.tx_id
  pub refused : res.success ≡ false

-- The message is the last one in the mailbox of its wallet's actor, and the reply route is the
-- sender's. Nothing is queued.
pub record Accepted (k : ℕ) (env : RemoteEnvelope) (n m : Node) : Type 0 where
  pub quiet : m.result_ch ≡ n.result_ch
  pub routed : lookup (route_of env) m.reply_routes ≡ some k
  pub wallet : BusinessActor
  pub core : Actor
  pub delivered :
      lookup (env.tenant_id, env.uid) m.actors
      ≡ some (record { wallet = wallet; core = send_envelope env core })

pub record Fate (k : ℕ) (env : RemoteEnvelope) (n m : Node) : Type 0 where
  pub others : OthersKept (route_of env) n.reply_routes m.reply_routes
  pub outcome : Answered k env n m ⊎ Accepted k env n m

-- Nothing queued, and no other route touched.
pub record Silent (rk : ResultRouteKey) (n m : Node) : Type 0 where
  pub others : OthersKept rk n.reply_routes m.reply_routes
  pub quiet : m.result_ch ≡ n.result_ch

pub Silent-Fate :
    (k : ℕ) (env : RemoteEnvelope) (n m o : Node)
    → Silent (route_of env) n m
    → Fate k env m o
    → Fate k env n o
Silent-Fate k env n m o s f = record {
  others =
      kept_of _ _ _ (λ other ne. kept_at _ _ _ other f.others ne ∙ kept_at _ _ _ other s.others ne);
  outcome = elim f.outcome [
    | inl a ↦ inl (record {
      res = a.res;
      queued =
          a.queued ∙ ap (λ (q : List QueuedResult). q ++ result_for_sender a.res k ∷ []) s.quiet;
      its_route = a.its_route;
      its_tx = a.its_tx;
      refused = a.refused;
    })
    | inr a ↦ inr (record {
      quiet = a.quiet ∙ s.quiet;
      routed = a.routed;
      wallet = a.wallet;
      core = a.core;
      delivered = a.delivered;
    })
  ];
}

-- Queueing a refusal, whatever the actors.
pub enqueued-Fate :
    (k : ℕ) (env : RemoteEnvelope) (op : ℕ) (code msg : String) (n : Node)
    → Fate k env n (enqueue_result (some k) (refusal env op code msg) n)
unfolding enqueue_result
enqueued-Fate k env op code msg n = record {
  others = kept_of _ _ _ (λ other ne. refl);
  outcome = inl (record {
    res = refusal env op code msg;
    queued = refl;
    its_route = refl;
    its_tx = refl;
    refused = refl;
  });
}

-- A round that is over, or that has only taken a dead actor out.
abbrev pub RoundFate : ℕ → RemoteEnvelope → Node → Node × Bool → Type 0
RoundFate k env n (m, true) = Fate k env n m
RoundFate k env n (m, false) = Silent (route_of env) n m

pub other_of_delete :
    (rk other : ResultRouteKey) (m : List (ResultRouteKey × ℕ))
    → rk ≢ other
    → lookup other (delete rk m) ≡ lookup other m
other_of_delete rk other m ne = elim (Bool-cases (rk == other)) [
  | inl e ↦ absurd (ne ((eq_iff rk other).0 e))
  | inr e ↦ lookup-delete rk other m ∙ rw e refl
]

pub other_of_insert :
    (rk other : ResultRouteKey) (k : ℕ) (m : List (ResultRouteKey × ℕ))
    → rk ≢ other
    → lookup other (insert rk k m) ≡ lookup other m
other_of_insert rk other k m ne = elim (Bool-cases (rk == other)) [
  | inl e ↦ absurd (ne ((eq_iff rk other).0 e))
  | inr e ↦ lookup-insert rk other k m ∙ rw e refl
]

pub after_send-RoundFate :
    (k : ℕ) (env : RemoteEnvelope) (a : LiveActor) (n : Node)
    → RoundFate k env n (after_send (some k) env a n (send env a.core))
after_send-RoundFate k env a n = elim (Bool-cases (is_alive a.core.status)) [
  | inl e ↦
      subst (λ (r : Actor × Bool). RoundFate k env n (after_send (some k) env a n r))
        (sym (taken e))
        (record {
          others =
              kept_of _ _ _ (λ other ne. other_of_insert (route_of env) other k n.reply_routes ne);
          outcome = inr (record {
            quiet = refl;
            routed = lookup-insert_self (route_of env) k n.reply_routes;
            wallet = a.wallet;
            core = a.core;
            delivered = lookup-insert_self (env.tenant_id, env.uid) _ n.actors;
          });
        })
  | inr e ↦
      subst (λ (r : Actor × Bool). RoundFate k env n (after_send (some k) env a n r)) (sym (left e))
        (record {
          others =
              kept_of _ _ _ (λ other ne. other_of_delete (route_of env) other n.reply_routes ne);
          quiet = refl;
        })
]
  where
    taken : is_alive a.core.status ≡ true → send env a.core ≡ (send_envelope env a.core, true)
    taken e = unfold send in rw (e, send) refl

    left : is_alive a.core.status ≡ false → send env a.core ≡ (a.core, false)
    left e = unfold send in rw (e, send) refl
