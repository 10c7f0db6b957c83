-- ===== src/Rendezvous/Control/Untouched.antt =====
-- Frames and punches leave the table of control connections as it is.
use servers.Base.{
  ℕ, ◌≡◌, refl, ◌∙◌, List, [], ◌∷◌, Text, lookup, arith, Option-cases, Result-cases, inl, inr,
}
use servers.Auth.Crypto.{Crypto}
use servers.Tunnel.Message.{RendezvousMsg, ServiceMetrics}
use servers.Rendezvous.State.{Server, ControlConn, UdpAddr}
use servers.Rendezvous.Identity.{node_key}
use servers.Rendezvous.Signature.{verify_ping_signature}
use servers.Rendezvous.Registry.Register.{
  apply_register, apply_ping, check_register, store_register,
}
use servers.Rendezvous.Registry.Services.{
  apply_service_event, apply_service_metric, apply_service_lifecycle, apply_batch,
}
use servers.Rendezvous.Registry.Upkeep.{learn_public_addr, cleanup, purge, prune_metrics}
use servers.Rendezvous.Control.{dispatch}

apply_register-conns :
    (c : Crypto) (s : Server) (peer : ControlConn) (msg : RendezvousMsg) (now : ℕ)
    → (apply_register c s peer msg now).0.control_conns ≡ s.control_conns
unfolding apply_register store_register
apply_register-conns c s peer msg now = elim (Option-cases (check_register c s msg now)) [
  | inl h ↦ elim (Option-cases (lookup (node_key msg.id) s.proxies)) [
    | inl g ↦ ground arith
    | inr (p, g) ↦ ground arith
  ]
  | inr (r, h) ↦ ground arith
]

apply_ping-conns :
    (c : Crypto) (s : Server) (peer : ControlConn) (msg : RendezvousMsg) (now : ℕ)
    → (apply_ping c s peer msg now).0.control_conns ≡ s.control_conns
unfolding apply_ping
apply_ping-conns c s peer msg now = elim (Result-cases (verify_ping_signature c msg now)) [
  | inl (u, h) ↦ elim (Option-cases (lookup (node_key msg.id) s.proxies)) [
    | inl g ↦ ground arith
    | inr (p, g) ↦ ground arith
  ]
  | inr (r, h) ↦ ground arith
]

apply_service_metric-conns :
    (s : Server) (id : Text) (m : ServiceMetrics) (now : ℕ)
    → (apply_service_metric s id m now).control_conns ≡ s.control_conns
unfolding apply_service_metric
apply_service_metric-conns s id m now = elim (Option-cases (lookup (node_key id) s.proxies)) [
  | inl g ↦ ground arith
  | inr (p, g) ↦ ground arith
]

apply_batch-conns :
    (id : Text) (ms : List ServiceMetrics) (now : ℕ) (s : Server)
    → (apply_batch id ms now s).control_conns ≡ s.control_conns
unfolding apply_batch
apply_batch-conns id [] now s = refl
apply_batch-conns id (m ∷ ms) now s =
    apply_batch-conns id ms now (apply_service_metric s id m now)
    ∙ apply_service_metric-conns s id m now

apply_service_lifecycle-conns :
    (s : Server) (msg : RendezvousMsg) (now : ℕ)
    → (apply_service_lifecycle s msg now).control_conns ≡ s.control_conns
unfolding apply_service_lifecycle
apply_service_lifecycle-conns s msg now = elim (Option-cases (lookup (node_key msg.id) s.proxies)) [
  | inl g ↦ ground arith
  | inr (p, g) ↦ ground arith
]

apply_service_event-conns :
    (s : Server) (msg : RendezvousMsg) (now : ℕ)
    → (apply_service_event s msg now).control_conns ≡ s.control_conns
unfolding apply_service_event
apply_service_event-conns s msg now = elim (Option-cases msg.metrics) [
  | inl h ↦ ground (
    arith,
    apply_service_lifecycle-conns s msg now,
    apply_batch-conns msg.id msg.metrics_batch now s,
  )
  | inr (m, h) ↦ ground (
    arith,
    apply_service_lifecycle-conns s msg now,
    apply_batch-conns msg.id msg.metrics_batch now s,
    apply_service_metric-conns s msg.id m now,
  )
]

pub dispatch-conns :
    (c : Crypto) (s : Server) (peer : ControlConn) (msg : RendezvousMsg) (now : ℕ)
    → (dispatch c s peer msg now).0.control_conns ≡ s.control_conns
unfolding dispatch
dispatch-conns c s peer msg now =
    let own : RendezvousMsg = record msg { id = peer.node_id } in
    ground (
      arith,
      apply_register-conns c s peer own now,
      apply_ping-conns c s peer own now,
      apply_service_event-conns s own now,
    )

pub learn_public_addr-conns :
    (s : Server) (id : Text) (src : UdpAddr)
    → (learn_public_addr s id src).control_conns ≡ s.control_conns
unfolding learn_public_addr
learn_public_addr-conns s id src = elim (Option-cases (lookup (node_key id) s.proxies)) [
  | inl g ↦ ground arith
  | inr (p, g) ↦ ground arith
]

pub cleanup-conns : (s : Server) (now : ℕ) → (cleanup s now).control_conns ≡ s.control_conns
unfolding cleanup purge prune_metrics
cleanup-conns s now = refl
