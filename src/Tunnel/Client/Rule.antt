-- ===== src/Tunnel/Client/Rule.antt =====
-- pkg/tunnel/isannd_client.go: what the operations of a client keep, whatever it is.
use servers.Base.{
  Bool, true, false, List, [], ◌∷◌, none, some, Text, codes, eqt, is_empty, Bool-cases,
  Result-cases, inl, inr, ℕ,
}
use servers.Tunnel.Message.{RendezvousMsg}
use servers.Tunnel.Client.{
  Network, HeartbeatPing, IsanndClient, Action, mark_conn_dead, write_msg, connect, send_register,
  ping_frame, send_heartbeat, send_metrics, send_metrics_batch, send_frame, close, receive, act,
  act_all, connected, registered, beat, measured, batched, framed, closing, received, dropped,
}

-- A property of clients that a frame, a connection made, lost or closed, and a wish of the server keep.
module _ (net : Network) (P : IsanndClient → Type 0)
    (at_write : (msg : RendezvousMsg) (c : IsanndClient) → P c → P (write_msg net msg c).0)
    (at_connect : (id role : Text) (c : IsanndClient) → P c → P (connect net id role c).0)
    (at_loss : (k : ℕ) (c : IsanndClient) → P c → P (mark_conn_dead k c))
    (at_wish : (c : IsanndClient) (b : Bool) → P c → P (record c { need_register = b }))
    (at_close : (c : IsanndClient) → P c → P (close c)) where
  receive-rule : (msg : RendezvousMsg) (c : IsanndClient) → P c → P (receive msg c)
  unfolding receive
  receive-rule msg c i = elim (Bool-cases (eqt msg.kind (codes "need_register"))) [
    | inl e ↦ rw e (at_wish c true i)
    | inr e ↦ rw e i
  ]

  send_heartbeat-rule :
      (ping : HeartbeatPing) (c : IsanndClient) → P c → P (send_heartbeat net (some ping) c).0
  unfolding send_heartbeat
  send_heartbeat-rule ping c i =
      let j = at_write (ping_frame ping) c i in
      elim (Result-cases (write_msg net (ping_frame ping) c).1) [
        | inl (u, h) ↦
            rw (send_heartbeat, h) (at_wish (write_msg net (ping_frame ping) c).0 false j)
        | inr (e, h) ↦ rw (send_heartbeat, h) j
      ]

  send_frame-rule :
      (msg : RendezvousMsg) (c : IsanndClient) → P c → P (send_frame net (some msg) c).0
  unfolding send_frame
  send_frame-rule msg c i = elim (Bool-cases (is_empty msg.kind)) [
    | inl e ↦ rw (send_frame, e) i
    | inr e ↦ rw (send_frame, e) (at_write msg c i)
  ]

  act-rule : (c : IsanndClient) (a : Action) → P c → P (act net c a)
  unfolding act send_register send_heartbeat send_metrics send_metrics_batch send_frame
  act-rule c (connected id role) i = at_connect id role c i
  act-rule c (registered none) i = i
  act-rule c (registered (some msg)) i = at_write _ c i
  act-rule c (beat none) i = i
  act-rule c (beat (some ping)) i = send_heartbeat-rule ping c i
  act-rule c (measured none) i = i
  act-rule c (measured (some evt)) i = at_write _ c i
  act-rule c (batched id role batch) i = at_write _ c i
  act-rule c (framed none) i = i
  act-rule c (framed (some msg)) i = send_frame-rule msg c i
  act-rule c closing i = at_close c i
  act-rule c (received msg) i = receive-rule msg c i
  act-rule c (dropped k) i = at_loss k c i

  pub act_all-rule : (c : IsanndClient) (actions : List Action) → P c → P (act_all net c actions)
  unfolding act_all
  act_all-rule c [] i = i
  act_all-rule c (a ∷ more) i = act_all-rule (act net c a) more (act-rule c a i)
