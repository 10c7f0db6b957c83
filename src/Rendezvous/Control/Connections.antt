-- ===== src/Rendezvous/Control/Connections.antt =====
-- The table of control connections: the last to say hello for a node holds its key, and a connection
-- that goes takes out its own entry only.
use servers.Base.{
  ℕ, ◌≡◌, refl, sym, subst, List, [], ◌∷◌, ◌++◌, some, Text, codes, is_empty, lookup, arith,
  Option-cases, Bool-cases, inl, inr, ◌⊎◌, ◌==◌, ==_iff, All,
}
use servers.Auth.Crypto.{Crypto}
use servers.Tunnel.Message.{RendezvousMsg}
use servers.Rendezvous.State.{ControlConn}
use servers.Rendezvous.Identity.{node_key}
use servers.Rendezvous.Registry.Register.{
  Sent, handle_connect, push_to_node, Frame, error, punch, requester_addr, reply, proxy_info,
  candidates,
}
use servers.Rendezvous.Control.{World, frame, find_conn}

-- Each entry stands under the key of the id that its connection said hello with, and its
-- connection is served.
unfoldable pub IsConnected : World → Type 0
IsConnected w =
    (k : Text) (peer : ControlConn)
    → lookup k w.server.control_conns ≡ some peer
    → (k ≡ node_key peer.node_id) × (find_conn peer.conn w.live ≡ some peer)

find_conn-conn :
    (n : ℕ) (ccs : List ControlConn) (peer : ControlConn)
    → find_conn n ccs ≡ some peer
    → peer.conn ≡ n
unfolding find_conn
find_conn-conn n [] peer h = absurd (ground arith)
find_conn-conn n (x ∷ ccs) peer h = elim (Bool-cases (x.conn == n)) [
  | inl e ↦ ground (arith, ==_iff x.conn n)
  | inr e ↦ find_conn-conn n ccs peer (ground arith)
]

-- The receiver of a frame is the requester, or a served connection of the node asked for.
pub IsFor : World → ControlConn → Text → Sent → Type 0
IsFor w peer id s =
    (s.conn ≡ peer.conn)
    ⊎ ((target : ControlConn) × (find_conn s.conn w.live ≡ some target)
        × (node_key target.node_id ≡ node_key id))

push_to_node-live :
    (w : World) (peer : ControlConn) (id : Text) (f : Frame)
    → IsConnected w
    → All (IsFor w peer id) (push_to_node w.server id f)
unfolding push_to_node IsConnected IsFor
push_to_node-live w peer id f i =
    elim (Option-cases (lookup (node_key id) w.server.control_conns)) [
      | inl h ↦
          let none_sent : [] ≡ push_to_node w.server id f = ground arith in
          subst (All (IsFor w peer id)) none_sent tt
      | inr (target, h) ↦
          let (key, live) = i (node_key id) target h in
          let one_sent : record { conn = target.conn; frame = f } ∷ []
              ≡ push_to_node w.server id f =
            ground arith in
          subst (All (IsFor w peer id)) one_sent (inr (target, live, sym key), tt)
    ]

append-All : (P : Sent → Type 0) (xs ys : List Sent) → All P xs → All P ys → All P (xs ++ ys)
append-All P [] ys a b = b
append-All P (x ∷ xs) ys a b = (a.0, append-All P xs ys a.1 b)

-- With the table in order, a connect frame sends to the requester itself, or to a served
-- connection that said hello with the id that the frame asks for or another spelling of it.
handle_connect-live :
    (w : World) (peer : ControlConn) (msg : RendezvousMsg)
    → IsConnected w
    → All (IsFor w peer msg.id) (handle_connect w.server peer msg)
unfolding handle_connect IsFor
handle_connect-live w peer msg i =
    let from = requester_addr w.server peer in
    let hole : Frame = punch peer.node_id from in
    let pushed = push_to_node-live w peer msg.id hole i in
    let answer : (f : Frame) → All (IsFor w peer msg.id) (reply peer f) = (λ f. (inl refl, tt)) in
    elim (Bool-cases (is_empty msg.id)) [
      | inl e ↦
          subst (All (IsFor w peer msg.id))
            {x = reply peer (error [] (codes "connect: missing target id"))} (ground arith)
            (answer (error [] (codes "connect: missing target id")))
      | inr e ↦ elim (Option-cases (lookup (node_key msg.id) w.server.proxies)) [
        | inl h ↦
            subst (All (IsFor w peer msg.id))
              {x = reply peer (error msg.id (codes "target not found: " ++ msg.id))} (ground arith)
              (answer (error msg.id (codes "target not found: " ++ msg.id)))
        | inr (target, h) ↦
            let last : Frame = proxy_info msg.id target.addr (candidates target) in
            elim (Bool-cases (is_empty from)) [
              | inl g ↦
                  subst (All (IsFor w peer msg.id)) {x = reply peer last} (ground arith)
                    (answer last)
              | inr g ↦
                  subst (All (IsFor w peer msg.id))
                    {x = push_to_node w.server msg.id hole ++ reply peer last} (ground arith)
                    (append-All (IsFor w peer msg.id) (push_to_node w.server msg.id hole)
                      (reply peer last) pushed (answer last))
            ]
      ]
    ]
