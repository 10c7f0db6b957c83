-- ===== src/Rendezvous/Registry/Counted/Updates.antt =====
-- Pings, punches and service events change what one entry holds, not what it counts for.
use servers.Base.{
  ℕ, refl, subst, not, ◌&&◌, List, [], ◌∷◌, Text, eqt, lookup, insert, arith, Option-cases,
  Bool-cases, Result-cases, inl, inr, is_empty,
}
use servers.Auth.Crypto.{Crypto}
use servers.Tunnel.Message.{RendezvousMsg, ServiceMetrics}
use servers.Rendezvous.State.{ProxyInfo, Server, ControlConn, UdpAddr}
use servers.Rendezvous.Identity.{node_key}
use servers.Rendezvous.Signature.{verify_ping_signature}
use servers.Rendezvous.Registry.Register.{apply_ping}
use servers.Rendezvous.Registry.Services.{
  apply_service_event, apply_service_metric, apply_service_lifecycle, apply_batch,
  lifecycle_services, patch_first, patch_metrics, node_metric,
}
use servers.Rendezvous.Registry.Upkeep.{learn_public_addr, learn_addr}
use servers.Rendezvous.Registry.Counted.Steps.{IsConsistent, update-IsConsistent}

pub learn_public_addr-IsConsistent :
    (s : Server) (id : Text) (src : UdpAddr)
    → IsConsistent s
    → IsConsistent (learn_public_addr s id src)
unfolding learn_public_addr learn_addr
learn_public_addr-IsConsistent s id src i = elim (Option-cases (lookup (node_key id) s.proxies)) [
  | inl h ↦ subst IsConsistent (ground arith) i
  | inr (p, h) ↦
      let kept = update-IsConsistent s (node_key id) p (learn_addr p src) h refl refl i in
      elim (Bool-cases (not (is_empty p.control_ip) && not (eqt src.ip p.control_ip))) [
        | inl e ↦ subst IsConsistent (ground arith) i
        | inr e ↦ subst IsConsistent (ground arith) kept
      ]
]

pub apply_ping-IsConsistent :
    (c : Crypto) (s : Server) (peer : ControlConn) (msg : RendezvousMsg) (now : ℕ)
    → IsConsistent s
    → IsConsistent (apply_ping c s peer msg now).0
unfolding apply_ping
apply_ping-IsConsistent c s peer msg now i = elim (Result-cases (verify_ping_signature c msg now)) [
  | inr (e, h) ↦ subst IsConsistent (ground arith) i
  | inl (u, h) ↦ elim (Option-cases (lookup (node_key msg.id) s.proxies)) [
    | inl g ↦ subst IsConsistent (ground arith) i
    | inr (p, g) ↦
        let p' : ProxyInfo = record p { last_seen = now } in
        let kept = update-IsConsistent s (node_key msg.id) p p' g refl refl i in
        elim (Bool-cases (is_empty msg.id)) [
          | inl e ↦ subst IsConsistent (ground arith) i
          | inr e ↦ subst IsConsistent (ground arith) kept
        ]
  ]
]

apply_service_metric-IsConsistent :
    (s : Server) (id : Text) (m : ServiceMetrics) (now : ℕ)
    → IsConsistent s
    → IsConsistent (apply_service_metric s id m now)
unfolding apply_service_metric
apply_service_metric-IsConsistent s id m now i =
    elim (Option-cases (lookup (node_key id) s.proxies)) [
      | inl g ↦ subst IsConsistent (ground arith) i
      | inr (p, g) ↦
          let p' : ProxyInfo = record p {
            last_seen = now;
            services = patch_first m.service (patch_metrics m) p.services;
          } in
          let kept = update-IsConsistent s (node_key id) p p' g refl refl i in
          let s' : Server = record s {
            proxies = insert (node_key id) p' s.proxies;
            metrics = insert id (node_metric id m) s.metrics;
          } in
          let kept' : IsConsistent s' = record {
            distinct = kept.distinct;
            counted = kept.counted;
          } in
          elim (Bool-cases (is_empty m.service)) [
            | inl e ↦ subst IsConsistent (ground arith) i
            | inr e ↦ subst IsConsistent (ground arith) kept'
          ]
    ]

apply_batch-IsConsistent :
    (id : Text) (ms : List ServiceMetrics) (now : ℕ) (s : Server)
    → IsConsistent s
    → IsConsistent (apply_batch id ms now s)
unfolding apply_batch
apply_batch-IsConsistent id [] now s i = i
apply_batch-IsConsistent id (m ∷ ms) now s i =
    apply_batch-IsConsistent id ms now (apply_service_metric s id m now)
      (apply_service_metric-IsConsistent s id m now i)

apply_service_lifecycle-IsConsistent :
    (s : Server) (msg : RendezvousMsg) (now : ℕ)
    → IsConsistent s
    → IsConsistent (apply_service_lifecycle s msg now)
unfolding apply_service_lifecycle
apply_service_lifecycle-IsConsistent s msg now i =
    elim (Option-cases (lookup (node_key msg.id) s.proxies)) [
      | inl g ↦ subst IsConsistent (ground arith) i
      | inr (p, g) ↦
          let p' : ProxyInfo = record p {
            last_seen = now;
            services = lifecycle_services msg p.services;
          } in
          let kept = update-IsConsistent s (node_key msg.id) p p' g refl refl i in
          elim (Bool-cases (is_empty msg.service_name)) [
            | inl e ↦ subst IsConsistent (ground arith) i
            | inr e ↦ subst IsConsistent (ground arith) kept
          ]
    ]

pub apply_service_event-IsConsistent :
    (s : Server) (msg : RendezvousMsg) (now : ℕ)
    → IsConsistent s
    → IsConsistent (apply_service_event s msg now)
unfolding apply_service_event
apply_service_event-IsConsistent s msg now i =
    let one = apply_service_lifecycle-IsConsistent s msg now i in
    let many = apply_batch-IsConsistent msg.id msg.metrics_batch now s i in
    elim (Bool-cases (is_empty msg.id)) [
      | inl e ↦ subst IsConsistent (ground arith) i
      | inr e ↦ elim (Bool-cases (not (is_empty msg.event) && not (is_empty msg.service_name))) [
        | inl f ↦ subst IsConsistent (ground arith) one
        | inr f ↦ elim (Bool-cases (is_empty msg.metrics_batch)) [
          | inr g ↦ subst IsConsistent (ground arith) many
          | inl g ↦ elim (Option-cases msg.metrics) [
            | inl h ↦ subst IsConsistent (ground arith) i
            | inr (m, h) ↦
                subst IsConsistent (ground arith)
                  (apply_service_metric-IsConsistent s msg.id m now i)
          ]
        ]
      ]
    ]
