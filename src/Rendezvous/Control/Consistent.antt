-- ===== src/Rendezvous/Control/Consistent.antt =====
-- The registry and its counters stay consistent under every event.
use servers.Base.{
  ℕ, subst, ◌||◌, List, [], ◌∷◌, codes, eqt, one_of, lookup, insert, remove, arith, ◌==◌,
  Option-cases, Bool-cases, inl, inr, is_empty, is_some,
}
use servers.Auth.Crypto.{Crypto}
use servers.Tunnel.Message.{RendezvousMsg}
use servers.Rendezvous.State.{Server, ControlConn}
use servers.Rendezvous.Identity.{node_key}
use servers.Rendezvous.Registry.Counted.Steps.{IsConsistent, apply_register-IsConsistent}
use servers.Rendezvous.Registry.Counted.Updates.{
  learn_public_addr-IsConsistent, apply_ping-IsConsistent, apply_service_event-IsConsistent,
}
use servers.Rendezvous.Registry.Counted.Purge.{cleanup-IsConsistent}
use servers.Rendezvous.Control.{
  World, Event, hello, frame, gone, punched, ticked, dispatch, step, run, accept, forget, find_conn,
}

dispatch-IsConsistent :
    (c : Crypto) (s : Server) (peer : ControlConn) (msg : RendezvousMsg) (now : ℕ)
    → IsConsistent s
    → IsConsistent (dispatch c s peer msg now).0
unfolding dispatch
dispatch-IsConsistent c s peer msg now i =
    let own : RendezvousMsg = record msg { id = peer.node_id } in
    let registered = apply_register-IsConsistent c s peer own now i in
    let pinged = apply_ping-IsConsistent c s peer own now i in
    let served = apply_service_event-IsConsistent s own now i in
    elim (Bool-cases (eqt msg.kind (codes "register"))) [
      | inl e ↦ subst IsConsistent (ground arith) registered
      | inr e ↦ elim (Bool-cases (eqt msg.kind (codes "connect"))) [
        | inl f ↦ subst IsConsistent (ground arith) i
        | inr f ↦ elim (Bool-cases (eqt msg.kind (codes "ping"))) [
          | inl g ↦ subst IsConsistent (ground arith) pinged
          | inr g ↦
              elim (Bool-cases
                (one_of msg.kind (codes "service_event" ∷ codes "status_update" ∷ []))) [
                  | inl h ↦ subst IsConsistent (ground arith) served
                  | inr h ↦ subst IsConsistent (ground arith) i
                ]
        ]
      ]
    ]

forget-IsConsistent :
    (s : Server) (peer : ControlConn) → IsConsistent s → IsConsistent (forget s peer)
unfolding forget
forget-IsConsistent s peer i =
    elim (Option-cases (lookup (node_key peer.node_id) s.control_conns)) [
      | inl e ↦ subst IsConsistent (ground arith) i
      | inr (held, e) ↦ elim (Bool-cases (held.conn == peer.conn)) [
        | inl f ↦
            let s' : Server = record s {
              control_conns = remove (node_key peer.node_id) s.control_conns;
            } in
            let i' : IsConsistent s' = record { distinct = i.distinct; counted = i.counted } in
            subst IsConsistent (ground arith) i'
        | inr f ↦ subst IsConsistent (ground arith) i
      ]
    ]

step-IsConsistent :
    (c : Crypto) (w : World) (now : ℕ) (e : Event)
    → IsConsistent w.server
    → IsConsistent (step c w now e).0.server
unfolding step accept forget
step-IsConsistent c w now (hello peer) i =
    elim (Bool-cases (is_empty peer.node_id || is_some (find_conn peer.conn w.live))) [
      | inl e ↦ subst IsConsistent (ground arith) i
      | inr e ↦
          let s' : Server = record w.server {
            control_conns = insert (node_key peer.node_id) peer w.server.control_conns;
          } in
          let i' : IsConsistent s' = record { distinct = i.distinct; counted = i.counted } in
          subst IsConsistent (ground arith) i'
    ]
step-IsConsistent c w now (frame n msg) i = elim (Option-cases (find_conn n w.live)) [
  | inl e ↦ subst IsConsistent (ground arith) i
  | inr (peer, e) ↦
      subst IsConsistent (ground arith) (dispatch-IsConsistent c w.server peer msg now i)
]
step-IsConsistent c w now (gone n) i = elim (Option-cases (find_conn n w.live)) [
  | inl e ↦ subst IsConsistent (ground arith) i
  | inr (peer, e) ↦ subst IsConsistent (ground arith) (forget-IsConsistent w.server peer i)
]
step-IsConsistent c w now (punched id src) i = learn_public_addr-IsConsistent w.server id src i
step-IsConsistent c w now ticked i = cleanup-IsConsistent w.server now i

-- Whatever happens on the control connections and the UDP port, at whatever times and in whatever
-- order, the registry holds each key once and the four discovery counters are, as 64-bit words,
-- what a scan of the registry counts, if both held at the start.
pub run-IsConsistent :
    (c : Crypto) (w : World) (es : List (ℕ × Event))
    → IsConsistent w.server
    → IsConsistent (run c w es).server
unfolding run
run-IsConsistent c w [] i = i
run-IsConsistent c w ((now, e) ∷ es) i =
    run-IsConsistent c (step c w now e).0 es (step-IsConsistent c w now e i)
