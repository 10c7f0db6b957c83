-- ===== src/Rendezvous/Registry/Upkeep.antt =====
-- pkg/rendezvous/punch_udp.go, heartbeat.go and the cleanup loop of server.go: punches, the purge of
-- silent nodes and of their metrics, and the status that a node's metrics add up to.
use servers.Base.{
  ℕ, ◌-◌, ◌+◌, ◌*◌, Bool, false, not, ◌&&◌, ◌||◌, [], ◌∷◌, ◌++◌, none, some, Text, Map, codes, eqt,
  is_empty, has_prefix, lookup, insert, retain, any, if◌then◌else◌, ◌==◌, ltb, two64,
}
use servers.Rendezvous.State.{ProxyInfo, Server, NodeMetric, Counts, UdpAddr, second}
use servers.Rendezvous.Cadence.{proxy_purge_or_default}
use servers.Rendezvous.Counters.{count_delta}
use servers.Rendezvous.Identity.{node_key}

unfoldable pub learn_addr : ProxyInfo → UdpAddr → ProxyInfo
learn_addr p src = record p {
  udp_addr = some src;
  addr = if p.addr_manual then p.addr else src.text;
}

unfoldable pub learn_public_addr : Server → Text → UdpAddr → Server
unfolding learn_addr
learn_public_addr s id src = elim (lookup (node_key id) s.proxies) [
  | none ↦ s
  | some p ↦
      if not (is_empty p.control_ip) && not (eqt src.ip p.control_ip)
      then s
      else record s { proxies = insert (node_key id) (learn_addr p src) s.proxies }
]

-- `now.Sub(p.LastSeen) > cutoff`
abbrev pub is_silent : ℕ → ℕ → ProxyInfo → Bool
is_silent cutoff now p = ltb cutoff (now - p.last_seen)

unfoldable pub purge_counts : ℕ → ℕ → Map ProxyInfo → Counts → Counts
purge_counts cutoff now [] c = c
purge_counts cutoff now ((id, p) ∷ m) c =
    purge_counts cutoff now m
      (if is_silent cutoff now p then count_delta p.role p.auth_mode (two64 - 1) c else c)

-- One round of the cleanup loop, on the registry.
unfoldable pub purge : Server → ℕ → Server
unfolding purge_counts
purge s now =
    let cutoff = proxy_purge_or_default s in
    record s {
      proxies = retain (λ id p. not (is_silent cutoff now p)) s.proxies;
      counts = purge_counts cutoff now s.proxies s.counts;
    }

-- A metric stays while the registry has its node under `m.NodeID`, seen not before the cutoff.
unfoldable pub prune_metrics : Server → ℕ → ℕ → Server
prune_metrics s d now = record s {
  metrics =
      retain
        (λ k m. elim (lookup m.node_id s.proxies) [
          | none ↦ false
          | some p ↦ not (ltb (p.last_seen + d) now)
        ])
        s.metrics;
}

-- The ticker's work; metrics are kept five minutes longer than heard of.
unfoldable pub cleanup : Server → ℕ → Server
unfolding purge prune_metrics
cleanup s now = prune_metrics (purge s now) (300 * second) now

unfoldable pub heartbeat_status : ℕ → Text
heartbeat_status v =
    if v == 1
    then codes "idle"
    else if v == 2
    then codes "busy"
    else if v == 3
    then codes "loading"
    else if v == 4
    then codes "stopped"
    else []

-- The rows of a node: by its id, or by a key that begins with the id and a slash.
owns : Text → Text × NodeMetric → Bool
owns id (k, m) = eqt m.node_id id || has_prefix k (id ++ (b'/' ∷ []))

has_status : Text → ℕ → Text × NodeMetric → Bool
unfolding owns
has_status id v row = owns id row && row.1.status == v

node_status : Text → Map NodeMetric → Text
unfolding owns has_status
node_status id rows =
    if not (any (owns id) rows)
    then []
    else if any (has_status id 2) rows
    then codes "busy"
    else if any (has_status id 3) rows
    then codes "loading"
    else if any (has_status id 1) rows
    then codes "idle"
    else codes "standby"

unfoldable pub aggregate_node_status : Server → Text → ℕ → Text
unfolding node_status
aggregate_node_status s id now =
    let seen : ℕ = elim (lookup (node_key id) s.proxies) [ none ↦ 0 | some p ↦ p.last_seen ] in
    if not (seen == 0) && ltb (5 * second) (now - seen) then [] else node_status id s.metrics
