-- ===== src/Rendezvous/Cadence.antt =====
-- pkg/rendezvous/server.go: the settings that the server hands out, with their defaults and limits,
-- and the liveness of a node by the age of its last sign of life. Settings are int64 words.
use servers.Base.{
  ℕ, ◌+◌, ◌*◌, ◌≤◌, ◌<◌, ◌-◌, Bool, false, ◌||◌, ◌⊎◌, [], ◌∷◌, none, some, Text, Map, codes, lookup,
  one_of, ltb, ◌==◌, if◌then◌else◌, is_neg, ◌≡◌, arith,
}
use servers.Rendezvous.State.{HolepunchPolicy, Server, second}

-- `d <= 0`
abbrev pub unset : ℕ → Bool
unset d = d == 0 || is_neg d

or_default : ℕ → ℕ → ℕ
or_default d standard = if unset d then standard else d

unfoldable pub effective_policy : HolepunchPolicy → HolepunchPolicy
unfolding or_default
effective_policy p = record {
  pre_punch_count = or_default p.pre_punch_count 5;
  pre_punch_interval_ms = or_default p.pre_punch_interval_ms 50;
  pre_dial_wait_ms = or_default p.pre_dial_wait_ms 100;
  reply_burst_count = or_default p.reply_burst_count 3;
  reply_burst_interval_ms = or_default p.reply_burst_interval_ms 50;
}

unfoldable pub proxy_purge_or_default : Server → ℕ
proxy_purge_or_default s = if unset s.proxy_purge then 120 * second else s.proxy_purge

unfoldable pub default_ping_interval : Text → ℕ
default_ping_interval role =
    if one_of role (codes "provider" ∷ codes "station" ∷ [])
    then 5 * second
    else if one_of role (codes "broker" ∷ codes "control" ∷ [])
    then 10 * second
    else 5 * second

-- `m[k]` on a map of numbers: a missing key reads as 0.
abbrev pub at_zero : Map ℕ → Text → ℕ
at_zero m k = elim (lookup k m) [ none ↦ 0 | some d ↦ d ]

clamp : ℕ → ℕ → ℕ → ℕ
clamp lo hi d = let d' : ℕ = if ltb d lo then lo else d in if ltb hi d' then hi else d'

unfoldable pub ping_interval_for : Server → Text → ℕ
unfolding clamp
ping_interval_for s role =
    let d = at_zero s.ping_intervals role in
    clamp (1 * second) (60 * second) (if unset d then default_ping_interval role else d)

unfoldable pub register_interval_for : Server → Text → ℕ
unfolding clamp
register_interval_for s role =
    let d = at_zero s.register_intervals role in
    clamp (30 * second) (3600 * second) (if unset d then 300 * second else d)

pub data ConnStatus : Type 0 where
  alive stale offline : ConnStatus

-- `computeConnStatus`, with the thresholds of `connStatusThresholds`.
unfoldable pub compute_conn_status : Server → Text → ℕ → ℕ → ConnStatus
compute_conn_status s role last_seen now =
    let age = now - last_seen in
    let base = ping_interval_for s role in
    if ltb (base * 5) age then offline else if ltb (base * 3) age then stale else alive

-- Every cadence that a register ack carries lies in its range, whatever the configuration says:
-- pings from 1 to 60 seconds apart, registers from 30 seconds to an hour.
intervals_bounds :
    (s : Server) (role : Text)
    → ((1 * second ≤ ping_interval_for s role) × (ping_interval_for s role ≤ 60 * second))
      × ((30 * second ≤ register_interval_for s role)
          × (register_interval_for s role ≤ 3600 * second))
unfolding ping_interval_for register_interval_for
intervals_bounds s role = ground arith

-- No field of the hole-punch policy that is shipped is zero or negative, and a policy once completed
-- is its own completion.
effective_policy_idem :
    (p : HolepunchPolicy)
    → (effective_policy (effective_policy p) ≡ effective_policy p)
      × (unset (effective_policy p).pre_punch_count ≡ false)
      × (unset (effective_policy p).pre_punch_interval_ms ≡ false)
      × (unset (effective_policy p).pre_dial_wait_ms ≡ false)
      × (unset (effective_policy p).reply_burst_count ≡ false)
      × (unset (effective_policy p).reply_burst_interval_ms ≡ false)
unfolding effective_policy
effective_policy_idem p = ground arith

abbrev pub severity : ConnStatus → ℕ
severity alive = 0
severity stale = 1
severity offline = 2

-- While nothing is heard of a node, its status only gets worse as time goes by; and a node that has
-- been heard of at most three seconds ago is alive under every configuration.
compute_conn_status_mono :
    (s : Server) (role : Text) (seen now later : ℕ)
    → now ≤ later
    → (severity (compute_conn_status s role seen now)
        ≤ severity (compute_conn_status s role seen later))
      × ((seen + 3 * second < later) ⊎ (compute_conn_status s role seen later ≡ alive))
unfolding compute_conn_status
compute_conn_status_mono s role seen now later h = ground (arith, (intervals_bounds s role).0)
