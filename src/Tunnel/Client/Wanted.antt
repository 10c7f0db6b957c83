-- ===== src/Tunnel/Client/Wanted.antt =====
-- pkg/tunnel/isannd_client.go: the server's wish for a registration, which a heartbeat reports.
use servers.Base.{
  ℕ, ◌≡◌, refl, ap, ◌∙◌, inl, inr, Bool, true, false, ◌||◌, List, [], ◌∷◌, any, Option, none, some,
  Text, codes, eqt, Result, ok, err, Bool-cases, Option-cases, Result-cases, arith,
}
use servers.Tunnel.Message.{RendezvousMsg}
use servers.Tunnel.Client.{
  Network, HeartbeatPing, IsanndClient, ClientError, Action, write_bytes, write_on, dial_and_hello,
  mark_conn_dead, ensure_conn, claim, send_on, write_msg, connect, send_register, ping_frame,
  send_heartbeat, send_metrics, send_metrics_batch, send_frame, close, receive, act, act_all,
  connected, registered, beat, measured, batched, framed, closing, received, dropped,
}

write_on-need_register :
    (net : Network) (k : ℕ) (msg : RendezvousMsg) (c : IsanndClient)
    → (write_on net k msg c).0.need_register ≡ c.need_register
unfolding write_on write_bytes
write_on-need_register net k msg c = ground arith

dial_and_hello-need_register :
    (net : Network) (c : IsanndClient) → (dial_and_hello net c).0.need_register ≡ c.need_register
unfolding dial_and_hello write_on write_bytes
dial_and_hello-need_register net c = ground arith

ensure_conn-need_register :
    (net : Network) (c : IsanndClient) → (ensure_conn net c).0.need_register ≡ c.need_register
unfolding ensure_conn
ensure_conn-need_register net c = ground (arith, dial_and_hello-need_register net c)

mark_conn_dead-need_register :
    (k : ℕ) (c : IsanndClient) → (mark_conn_dead k c).need_register ≡ c.need_register
unfolding mark_conn_dead
mark_conn_dead-need_register k c = ground arith

send_on-need_register :
    (net : Network) (msg : RendezvousMsg) (c : IsanndClient)
    → (send_on net msg c).0.need_register ≡ c.need_register
unfolding send_on
send_on-need_register net msg c =
    let d = (ensure_conn net c).0 in
    let same : d.need_register ≡ c.need_register = ensure_conn-need_register net c in
    elim (Result-cases (ensure_conn net c).1) [
      | inr (e, h) ↦ rw (send_on, h) same
      | inl (k, h) ↦
          let e = (write_on net k msg d).0 in
          let kept : e.need_register ≡ c.need_register =
            write_on-need_register net k msg d ∙ same in
          elim (Bool-cases (write_on net k msg d).1) [
            | inl s ↦ rw (send_on, h, s) kept
            | inr s ↦ rw (send_on, h, s) (mark_conn_dead-need_register k e ∙ kept)
          ]
    ]

write_msg-need_register :
    (net : Network) (msg : RendezvousMsg) (c : IsanndClient)
    → (write_msg net msg c).0.need_register ≡ c.need_register
unfolding write_msg claim
write_msg-need_register net msg c = elim (Option-cases (claim msg c)) [
  | inl h ↦ ground arith
  | inr (d, h) ↦
      let same : d.need_register ≡ c.need_register = ground arith in
      ground (arith, send_on-need_register net msg d)
]

connect-need_register :
    (net : Network) (id role : Text) (c : IsanndClient)
    → (connect net id role c).0.need_register ≡ c.need_register
unfolding connect
connect-need_register net id role c =
    ground (arith, dial_and_hello-need_register net (record c { hello_id = id; hello_role = role }))

-- Whether the reader sees a frame that asks for a registration.
abbrev pub is_need : Action → Bool
is_need (received msg) = eqt msg.kind (codes "need_register")
is_need _ = false

abbrev Failed : IsanndClient × Result ClientError Bool → Type 0
Failed r = (e : ClientError) × (r.1 ≡ err e)

-- No heartbeat goes out.
abbrev pub IsQuiet : Network → IsanndClient → List Action → Type 0
IsQuiet net c [] = Unit
IsQuiet net c (beat ping ∷ more) =
    Failed (send_heartbeat net ping c) × IsQuiet net (act net c (beat ping)) more
IsQuiet net c (a ∷ more) = IsQuiet net (act net c a) more

send_heartbeat-Failed :
    (net : Network) (ping : Option HeartbeatPing) (c : IsanndClient)
    → Failed (send_heartbeat net ping c)
    → (send_heartbeat net ping c).0.need_register ≡ c.need_register
unfolding send_heartbeat
send_heartbeat-Failed net none c h = refl
send_heartbeat-Failed net (some ping) c (e, h) =
    ground (arith, write_msg-need_register net (ping_frame ping) c)

or_false : (b : Bool) → b ≡ (b || false)
or_false true = refl
or_false false = refl

or_assoc : (a b c : Bool) → ((a || b) || c) ≡ (a || (b || c))
or_assoc true b c = refl
or_assoc false b c = refl

act-need_register :
    (net : Network) (c : IsanndClient) (a : Action)
    → IsQuiet net c (a ∷ [])
    → (act net c a).need_register ≡ (c.need_register || is_need a)
unfolding act send_register send_metrics send_metrics_batch send_frame close receive
act-need_register net c (connected id role) q = ground (arith, connect-need_register net id role c)
act-need_register net c (registered none) q = ground arith
act-need_register net c (registered (some msg)) q =
    write_msg-need_register net _ c ∙ or_false c.need_register
act-need_register net c (beat ping) q = ground (arith, send_heartbeat-Failed net ping c q.0)
act-need_register net c (measured none) q = ground arith
act-need_register net c (measured (some evt)) q =
    write_msg-need_register net _ c ∙ or_false c.need_register
act-need_register net c (batched id role batch) q =
    write_msg-need_register net _ c ∙ or_false c.need_register
act-need_register net c (framed none) q = ground arith
act-need_register net c (framed (some msg)) q = ground (arith, write_msg-need_register net msg c)
act-need_register net c closing q = ground arith
act-need_register net c (received msg) q = ground arith
act-need_register net c (dropped k) q = ground (arith, mark_conn_dead-need_register k c)

IsQuiet-cons :
    (net : Network) (c : IsanndClient) (a : Action) (more : List Action)
    → IsQuiet net c (a ∷ more)
    → IsQuiet net c (a ∷ []) × IsQuiet net (act net c a) more
IsQuiet-cons net c (beat ping) more q = ((q.0, tt), q.1)
IsQuiet-cons net c a more q = (tt, q)

act_all-need_register :
    (net : Network) (c : IsanndClient) (actions : List Action)
    → IsQuiet net c actions
    → (act_all net c actions).need_register ≡ (c.need_register || any is_need actions)
unfolding act_all
act_all-need_register net c [] q = ground arith
act_all-need_register net c (a ∷ more) q =
    let (now, later) = IsQuiet-cons net c a more q in
    act_all-need_register net (act net c a) more later
    ∙ ap (λ b. b || any is_need more) (act-need_register net c a now)
    ∙ or_assoc c.need_register (is_need a) (any is_need more)

-- After a heartbeat went out, and before the next one does, the reader may see frames and the client
-- may send others, lose its connection and dial again: the next heartbeat that goes out reports that a
-- registration is wanted exactly if a frame in between asked for it, and the wish is then cleared.
pub send_heartbeat_reports :
    (net : Network) (c d : IsanndClient) (actions : List Action) (ping : Option HeartbeatPing)
    (wanted : Bool)
    → c.need_register ≡ false
    → IsQuiet net c actions
    → send_heartbeat net ping (act_all net c actions) ≡ (d, ok wanted)
    → (wanted ≡ any is_need actions) × (d.need_register ≡ false)
unfolding send_heartbeat
send_heartbeat_reports net c d actions none wanted f q h = absurd (ground arith)
send_heartbeat_reports net c d actions (some ping) wanted f q h =
    let e = act_all net c actions in
    let same = write_msg-need_register net (ping_frame ping) e in
    let seen = act_all-need_register net c actions q in (ground arith, ground arith)
