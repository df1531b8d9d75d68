-- ===== src/Discovery/Etcd/Lease.antt =====
-- What a node's registration leaves in etcd.
use mathlib.Core.Path.{subst}
use mathlib.Core.List.{append_assoc}
use actor_cluster.Prelude.{
  ℕ, ◌≡◌, refl, sym, ap, ◌∙◌, String, Bool, true, false, List, [], ◌∷◌, ◌++◌, Option, none, some,
}
use actor_cluster.Prelude.Tests.{if◌then◌else◌}
use actor_cluster.Prelude.Text.{◌^^◌}
use actor_cluster.Discovery.Etcd.{
  EtcdRegistry, EtcdCall, grant, put, keep_alive, delete_key, Attempt, Outcome, registered, ctx_err,
  trying, attempt_calls, after_attempt, establish_registration, consume_keep_alive, Pass,
  after_loss, after_stream, maintain_registration, background, register,
}

-- The calls of an attempt whose three calls succeed.
abbrev pub full_registration : EtcdRegistry → String → ℕ → List EtcdCall
full_registration r key lease = grant r.lease_ttl ∷ put key r.value lease ∷ keep_alive lease ∷ []

-- A call that belongs to the registration of a key.
abbrev pub Own : EtcdRegistry → String → EtcdCall → Type 0
Own r key (grant ttl) = ttl ≡ r.lease_ttl
Own r key (put k v lease) = (k ≡ key) × (v ≡ r.value)
Own r key (keep_alive lease) = Unit {0}
Own r key (delete_key k) = ⊥

abbrev pub AllOwn : EtcdRegistry → String → List EtcdCall → Type 0
AllOwn r key [] = Unit {0}
AllOwn r key (c ∷ calls) = Own r key c × AllOwn r key calls

AllOwn-append :
    (r : EtcdRegistry) (key : String) (calls more : List EtcdCall)
    → AllOwn r key calls
    → AllOwn r key more
    → AllOwn r key (calls ++ more)
AllOwn-append r key [] more h k = k
AllOwn-append r key (c ∷ calls) more (o, h) k = (o, AllOwn-append r key calls more h k)

-- A loop that answers with a lease ends in the three calls for it.
abbrev Ended : EtcdRegistry → String → List EtcdCall → Outcome → Type 0
Ended r key calls (registered lease) =
    (before : List EtcdCall) × (calls ≡ before ++ full_registration r key lease)
Ended r key calls ctx_err = Unit {0}
Ended r key calls trying = Unit {0}

abbrev Proper : EtcdRegistry → String → List EtcdCall × Outcome → Type 0
Proper r key t = AllOwn r key t.0 × Ended r key t.0 t.1

Ended-after :
    (r : EtcdRegistry) (key : String) (calls more : List EtcdCall) (o : Outcome)
    → Ended r key more o
    → Ended r key (calls ++ more) o
Ended-after r key calls more (registered lease) (before, e) = (
  calls ++ before,
  ap (λ (m : List EtcdCall). calls ++ m) e
      ∙ sym (append_assoc calls before (full_registration r key lease)),
)
Ended-after r key calls more ctx_err h = tt
Ended-after r key calls more trying h = tt

abbrev AttemptProper : EtcdRegistry → String → List EtcdCall × Option ℕ → Type 0
AttemptProper r key (calls, none) = AllOwn r key calls
AttemptProper r key (calls, some lease) =
    AllOwn r key calls × (calls ≡ full_registration r key lease)

attempt_calls-Proper :
    (r : EtcdRegistry) (key : String) (lease : Option ℕ) (put_fine keep_alive_fine : Bool)
    → AttemptProper r key (attempt_calls r key lease put_fine keep_alive_fine)
attempt_calls-Proper r key none put_fine keep_alive_fine = (refl, tt)
attempt_calls-Proper r key (some lease) false keep_alive_fine = (refl, ((refl, refl), tt))
attempt_calls-Proper r key (some lease) true true = ((refl, ((refl, refl), (tt, tt))), refl)
attempt_calls-Proper r key (some lease) true false = (refl, ((refl, refl), (tt, tt)))

after_attempt-Proper :
    (r : EtcdRegistry) (key : String) (t : List EtcdCall × Option ℕ) (slept : Bool)
    (rest : List EtcdCall × Outcome)
    → AttemptProper r key t
    → Proper r key rest
    → Proper r key (after_attempt t slept rest)
after_attempt-Proper r key (calls, some lease) slept rest (own, e) h = (own, ([], e))
after_attempt-Proper r key (calls, none) true rest own (more, ended) =
    (AllOwn-append r key calls rest.0 own more, Ended-after r key calls rest.0 rest.1 ended)
after_attempt-Proper r key (calls, none) false rest own h = (own, tt)

establish_registration-Proper :
    (r : EtcdRegistry) (key : String) (attempts : List Attempt)
    → Proper r key (establish_registration r key attempts)
unfolding establish_registration
establish_registration-Proper r key [] = (tt, tt)
establish_registration-Proper r key (a ∷ more) = at a.ctx_done _ (
    after_attempt-Proper r key _ a.slept (establish_registration r key more)
      (attempt_calls-Proper r key a.lease a.put_fine a.keep_alive_fine)
      (establish_registration-Proper r key more))
  where
    at :
        (b : Bool) (t : List EtcdCall × Outcome)
        → Proper r key t
        → Proper r key (if b then ([], ctx_err) else t)
    at true t h = (tt, tt)
    at false t h = h

after_loss-Own :
    (r : EtcdRegistry) (key : String) (tried : List EtcdCall × Outcome)
    (rest : List EtcdCall × Bool)
    → AllOwn r key tried.0
    → AllOwn r key rest.0
    → AllOwn r key (after_loss tried rest).0
after_loss-Own r key (calls, registered lease) rest h k = AllOwn-append r key calls rest.0 h k
after_loss-Own r key (calls, ctx_err) rest h k = h
after_loss-Own r key (calls, trying) rest h k = h

after_stream-Own :
    (r : EtcdRegistry) (key : String) (met : Option Bool) (slept : Bool)
    (tried : List EtcdCall × Outcome) (rest : List EtcdCall × Bool)
    → AllOwn r key tried.0
    → AllOwn r key rest.0
    → AllOwn r key (after_stream met slept tried rest).0
after_stream-Own r key none slept tried rest h k = tt
after_stream-Own r key (some false) slept tried rest h k = tt
after_stream-Own r key (some true) false tried rest h k = tt
after_stream-Own r key (some true) true tried rest h k = after_loss-Own r key tried rest h k

maintain_registration-Own :
    (r : EtcdRegistry) (key : String) (passes : List Pass)
    → AllOwn r key (maintain_registration r key passes).0
unfolding maintain_registration
maintain_registration-Own r key [] = tt
maintain_registration-Own r key (p ∷ more) =
    after_stream-Own r key (consume_keep_alive p.stream) p.slept _ _
      (establish_registration-Proper r key p.attempts).0 (maintain_registration-Own r key more)

background-Own :
    (r : EtcdRegistry) (key : String) (o : Outcome) (calls : List EtcdCall)
    → AllOwn r key calls
    → AllOwn r key (background o calls)
background-Own r key (registered lease) calls h = h
background-Own r key ctx_err calls h = tt
background-Own r key trying calls h = tt

-- When Register returns no error, its last three calls granted a lease, put the node's key under it
-- and began to keep it alive, in this order; and neither it nor its goroutine ever puts another key.
pub register_leaves_key :
    (r : EtcdRegistry) (ip : String) (attempts : List Attempt) (passes : List Pass) (lease : ℕ)
    → (register r ip attempts passes).1 ≡ registered lease
    → let (calls, outcome, later) = register r ip attempts passes in
      ((before : List EtcdCall) × (calls
          ≡ before ++ full_registration r (r.node_prefix ^^ ip) lease))
      × AllOwn r (r.node_prefix ^^ ip) (calls ++ later)
unfolding register
register_leaves_key r ip attempts passes lease e = (
  subst (Ended r key t.0) e (establish_registration-Proper r key attempts).1,
  AllOwn-append r key t.0 _ (establish_registration-Proper r key attempts).0
      (background-Own r key t.1 _ (maintain_registration-Own r key passes)),
)
  where
    key : String
    key = r.node_prefix ^^ ip

    t : List EtcdCall × Outcome
    t = establish_registration r key attempts
