-- ===== src/Process/Serving.antt =====
-- The order in which a node becomes known and serves, and its address.
use Prim.Native.Char.{Char, code}
use Prim.Native.String.{[], ◌∷◌}
use actor_cluster.Prelude.{
  ◌≡◌, ◌≢◌, refl, ap, ◌⊎◌, inl, inr, String, Bool, true, false, ◌||◌, ◌&&◌, List, [], ◌∷◌, Option,
  none, some, arith,
}
use actor_cluster.Prelude.Tests.{nat_beq, string_eq, eq_iff, Bool-cases, ◌==◌, if◌then◌else◌}
use actor_cluster.Prelude.Text.{◌^^◌}
use actor_cluster.Prelude.Affixes.{trim_prefix}
use actor_cluster.Process.{
  Action, opens, closes, registers, deregisters, deregister_failed, dies, watches, listens, serves,
  graceful_stop, stops_node, cassandra_store, Ran,
}
use actor_cluster.Process.NodeMain.{
  Probe, local_ip, dial_failed, Resolved, resolved, unresolved, probed, resolve_my_ip, NodeOutcome,
}

-- What the outside sees of a node: whether its key is in etcd, whether its routing table is kept up,
-- whether its port is open, whether it answers calls, whether it has a store, and whether it has tried
-- to take its key away.
pub record Seen : Type 0 where
  pub known : Bool
  pub routing : Bool
  pub listening : Bool
  pub serving : Bool
  pub stored : Bool
  pub leaving : Bool

abbrev pub unseen : Seen
unseen = record {
  known = false;
  routing = false;
  listening = false;
  serving = false;
  stored = false;
  leaving = false;
}

abbrev when : Bool → Seen → Option Seen
when true s = some s
when false s = none

abbrev negation : Bool → Bool
negation b = if b then false else true

-- One action, where it is allowed: calls are answered only by a known node with a routing table, a
-- port and a store; a node that stops answering has first tried to take its key away; its actors
-- stop, and its store is closed, when it answers no more. A process that dies answers no more and has
-- no connections, and its key stays.
abbrev allow : Action → Seen → Option Seen
allow (registers ip) s = when (negation s.known) (record s { known = true })
allow (deregisters ip) s = when s.known (record s { known = false; leaving = true })
allow (deregister_failed ip) s = when s.known (record s { leaving = true })
allow watches s = some (record s { routing = true })
allow listens s = some (record s { listening = true })
allow serves s =
    when (s.known && s.routing && s.listening && s.stored) (record s { serving = true })
allow graceful_stop s = when (s.serving && s.leaving) (record s { serving = false })
allow stops_node s = when (negation s.serving) s
allow (opens cassandra_store) s = some (record s { stored = true })
allow (closes cassandra_store) s = when (negation s.serving) (record s { stored = false })
allow dies s = some (record s { serving = false; stored = false })
allow _ s = some s

abbrev pub allows : List Action → Option Seen → Option Seen
allows actions none = none
allows [] (some s) = some s
allows (a ∷ actions) (some s) = allows actions (allow a s)

-- Ended in order: nothing is served, and the key is gone unless main failed or Deregister did.
abbrev pub EndsInOrder : NodeOutcome → Ran → Type 0
EndsInOrder o r =
    (s : Seen) × (allows r.actions (some unseen) ≡ some s)
    × (s.serving ≡ false)
    × (s.stored ≡ false)
    × ((s.known ≡ false)
        ⊎ (((e : String) × (r.failure ≡ some e)) ⊎ ((e : String) × (o.deregister ≡ some e))))

-- A node that serves.
abbrev ready : Seen
ready = record {
  known = true;
  routing = true;
  listening = true;
  serving = true;
  stored = true;
  leaving = false;
}

-- A host without brackets, and a port without brackets and colons.
abbrev brackets : Char → Bool
brackets c = nat_beq (code c) 91 || nat_beq (code c) 93

unfoldable pub is_host : String → Bool
is_host [] = true
is_host (c ∷ s) = let rest = is_host s in if brackets c then false else rest

unfoldable pub is_port : String → Bool
is_port [] = true
is_port (c ∷ s) = let rest = is_port s in if brackets c || nat_beq (code c) 58 then false else rest

-- The address: the option, with the port if it has none; without an option the variable with the
-- port; without both the local address with the port. Or no way to find one.
abbrev pub Located :
    (String → Bool)
    → (String → String → String)
    → (flag_ip port pod_ip : String) → Probe
    → Resolved
    → Type 0
Located splits join_host_port flag_ip port pod_ip probe r =
    let Address : String → Type 0 = λ address. (r ≡ resolved address) × (splits address ≡ true) in
    let clean_port = trim_prefix port ":" in
    ((flag_ip ≢ "") × (splits flag_ip ≡ true) × Address flag_ip)
    ⊎ (((flag_ip ≢ "") × (splits flag_ip ≡ false) × Address (join_host_port flag_ip clean_port))
        ⊎ (((flag_ip ≡ "") × (pod_ip ≢ "") × Address (join_host_port pod_ip clean_port))
            ⊎ (((ip : String) × (flag_ip ≡ "")
                  × (pod_ip ≡ "")
                  × (probe ≡ local_ip ip)
                  × Address (join_host_port ip clean_port))
                ⊎ ((e : String) × (flag_ip ≡ "")
                    × (pod_ip ≡ "")
                    × (probe ≡ dial_failed e)
                    × (r ≡ unresolved ("UDP probe failed: " ^^ e))))))

abbrev pub ip_of : Probe → String
ip_of (local_ip ip) = ip
ip_of (dial_failed e) = ""

-- Of the net package is asked that it splits what it has joined of a host without brackets and a port
-- without brackets and colons. If the option splits or is such a host, the variable POD_IP and the
-- local address are such hosts, and the port is such a port once a leading colon is cut off, then the
-- address that is found splits into host and port. It is the option --ip as it stands if it is given
-- and splits, else joined with the port; if it is not given, POD_IP joined with the port; if that is
-- not given either, the local address joined with the port. None is found only if the option and the
-- variable are empty and the dial fails.
pub resolve_my_ip-Located :
    (splits : String → Bool) (join_host_port : String → String → String)
    (flag_ip port pod_ip : String) (probe : Probe)
    → ((host p : String)
        → is_host host ≡ true
        → is_port p ≡ true
        → splits (join_host_port host p) ≡ true)
    → (splits flag_ip ≡ true) ⊎ (is_host flag_ip ≡ true)
    → is_host pod_ip ≡ true
    → is_host (ip_of probe) ≡ true
    → is_port (trim_prefix port ":") ≡ true
    → Located splits join_host_port flag_ip port pod_ip probe
        (resolve_my_ip splits join_host_port flag_ip port pod_ip probe)
unfolding resolve_my_ip
resolve_my_ip-Located splits join_host_port flag_ip port pod_ip probe law flag pod local clean =
    elim (Bool-cases (flag_ip == "")) [
      | inr given ↦ rw given (by_option (given_option flag_ip given))
      | inl no_flag ↦ rw no_flag (elim (Bool-cases (pod_ip == "")) [
        | inr given ↦ rw given (
            inr (
              inr (
                inl (
                  (eq_iff flag_ip "").0 no_flag,
                  given_option pod_ip given,
                  (refl, law pod_ip clean_port pod clean),
                ))))
        | inl no_pod ↦
            rw no_pod
              (by_probe probe local ((eq_iff flag_ip "").0 no_flag) ((eq_iff pod_ip "").0 no_pod))
      ])
    ]
  where
    clean_port : String
    clean_port = trim_prefix port ":"

    given_option : (s : String) → (s == "") ≡ false → s ≢ ""
    given_option s e = λ f. absurd (grind (arith, (eq_iff s "").1 f, e))

    chosen : Bool → Resolved
    chosen b = resolved (if b then flag_ip else join_host_port flag_ip clean_port)

    by_option :
        flag_ip ≢ ""
        → Located splits join_host_port flag_ip port pod_ip probe
            (resolved (if splits flag_ip then flag_ip else join_host_port flag_ip clean_port))
    by_option given = elim (Bool-cases (splits flag_ip)) [
      | inl e ↦ inl (given, e, (ap chosen e, e))
      | inr e ↦ elim flag [
        | inl whole ↦ absurd (ground (arith, whole, e))
        | inr host ↦ inr (inl (given, e, (ap chosen e, law flag_ip clean_port host clean)))
      ]
    ]

    by_probe :
        (q : Probe)
        → is_host (ip_of q) ≡ true
        → flag_ip ≡ ""
        → pod_ip ≡ ""
        → Located splits join_host_port flag_ip port pod_ip q
            (probed splits join_host_port clean_port q)
    by_probe (local_ip ip) host e f =
        inr (inr (inr (inl (ip, e, f, refl, (refl, law ip clean_port host clean)))))
    by_probe (dial_failed m) host e f = inr (inr (inr (inr (m, e, f, refl, refl))))
