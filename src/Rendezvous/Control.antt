-- ===== src/Rendezvous/Control.antt =====
-- pkg/rendezvous/control_tcp.go: the life of a control connection. The server is driven by events in
-- any order, one for each time that a goroutine takes a lock or the environment acts; `live` are the
-- connections whose goroutines run the frame loop.
pub mod Connections
pub mod Untouched
pub mod Consistent
use servers.Base.{
  ℕ, ◌≡◌, ◌/◌, ◌%◌, refl, Bool, true, false, not, ◌&&◌, List, [], ◌∷◌, ◌++◌, Option, none, some,
  Text, Map, codes, eqt, is_empty, one_of, lookup, insert, remove, if◌then◌else◌, ◌==◌, is_some,
  ◌||◌,
}
use servers.Auth.Crypto.{Crypto}
use servers.Tunnel.Message.{RendezvousMsg}
use servers.Rendezvous.State.{Server, ControlConn, UdpAddr, second}
use servers.Rendezvous.Cadence.{effective_policy, ping_interval_for, register_interval_for}
use servers.Rendezvous.Identity.{node_key}
use servers.Rendezvous.Registry.Register.{
  Sent, reply, hello_ack, register_ack, apply_register, apply_ping, handle_connect,
}
use servers.Rendezvous.Registry.Services.{apply_service_event}
use servers.Rendezvous.Registry.Upkeep.{learn_public_addr, cleanup}

pub record World : Type 0 where
  pub server : Server
  pub live : List ControlConn

pub data Event : Type 0 where
  -- a connection whose first frame is a hello, with that id and role
  hello : ControlConn → Event
  frame : ℕ → RendezvousMsg → Event
  -- the read of a connection fails, or the peer is gone
  gone : ℕ → Event
  punched : Text → UdpAddr → Event
  ticked : Event

unfoldable pub find_conn : ℕ → List ControlConn → Option ControlConn
find_conn n [] = none
find_conn n (cc ∷ ccs) = if cc.conn == n then some cc else find_conn n ccs

unfoldable pub drop_conn : ℕ → List ControlConn → List ControlConn
drop_conn n [] = []
drop_conn n (cc ∷ ccs) = if cc.conn == n then drop_conn n ccs else cc ∷ drop_conn n ccs

-- `controlConns.Swap`: the last to say hello for a node is the node's connection.
unfoldable pub accept : Server → ControlConn → Server
accept s cc = record s { control_conns = insert (node_key cc.node_id) cc s.control_conns }

-- `controlConns.CompareAndDelete`
unfoldable pub forget : Server → ControlConn → Server
forget s cc = elim (lookup (node_key cc.node_id) s.control_conns) [
  | none ↦ s
  | some held ↦
      if held.conn == cc.conn
      then record s { control_conns = remove (node_key cc.node_id) s.control_conns }
      else s
]

register_reply : Server → ControlConn → List Sent
register_reply s cc = reply cc (
    register_ack (ping_interval_for s cc.role / second % 0x100000000)
      (register_interval_for s cc.role / second % 0x100000000) (effective_policy s.holepunch))

-- The frames that speak for the sender carry the id of the hello, whatever the wire says.
unfoldable pub dispatch : Crypto → Server → ControlConn → RendezvousMsg → ℕ → Server × List Sent
unfolding register_reply
dispatch c s cc msg now =
    let own : RendezvousMsg = record msg { id = cc.node_id } in
    if eqt msg.kind (codes "register")
    then (let (s', sent) = apply_register c s cc own now in (s', sent ++ register_reply s' cc))
    else if eqt msg.kind (codes "connect")
    then (s, handle_connect s cc msg)
    else if eqt msg.kind (codes "ping")
    then apply_ping c s cc own now
    else if one_of msg.kind (codes "service_event" ∷ codes "status_update" ∷ [])
    then (apply_service_event s own now, [])
    else (s, [])

unfoldable pub step : Crypto → World → ℕ → Event → World × List Sent
unfolding dispatch accept forget
step c w now (hello cc) =
    if is_empty cc.node_id || is_some (find_conn cc.conn w.live)
    then (w, [])
    else (record { server = accept w.server cc; live = cc ∷ w.live }, reply cc hello_ack)
step c w now (frame n msg) = elim (find_conn n w.live) [
  | none ↦ (w, [])
  | some cc ↦ let (s, sent) = dispatch c w.server cc msg now in (record w { server = s }, sent)
]
step c w now (gone n) = elim (find_conn n w.live) [
  | none ↦ (w, [])
  | some cc ↦ (record { server = forget w.server cc; live = drop_conn n w.live }, [])
]
step c w now (punched id src) = (record w { server = learn_public_addr w.server id src }, [])
step c w now ticked = (record w { server = cleanup w.server now }, [])

unfoldable pub run : Crypto → World → List (ℕ × Event) → World
unfolding step
run c w [] = w
run c w ((now, e) ∷ es) = run c (step c w now e).0 es
