-- ===== src/Tunnel/Client/Received.antt =====
-- pkg/tunnel/isannd_client.go and pkg/signal/proto.go: what the server reads of the bytes that a client
-- wrote on a connection.
use servers.Base.{
  ◌⊎◌, ℕ, ◌+◌, ◌≡◌, refl, sym, ap, ◌∙◌, subst, inl, inr, Bool, List, [], none, some, Text, codes,
  is_empty, All, ◌==◌, Bool-cases, Option-cases, Result-cases, arith,
}
use servers.Tunnel.Message.{RendezvousMsg}
use servers.Signal.Proto.{Decodes}
use servers.Tunnel.Client.{
  Network, IsanndClient, Action, new_client, bare_msg, write_on, dial_and_hello, mark_conn_dead,
  ensure_conn, claim, send_on, write_msg, connect, close, act_all,
}
use servers.Tunnel.Client.Identity.{frames}
use servers.Tunnel.Client.Sending.{
  named_as, claim-cases, ensure_conn-some, ensure_conn-none, ensure_conn-conn,
}
use servers.Tunnel.Client.Faithful.{connect-cases}
use servers.Tunnel.Client.Rule.{act_all-rule}
use servers.Tunnel.Client.Stream.{stream_of, sent_on, nothing_read, stream_of-Reads, Reads}
use servers.Tunnel.Client.Writing.{write_on-Writes}
use servers.Tunnel.Client.Streamed.{
  IsStreamed, stream, whole-IsStreamed, broken-IsStreamed, conn-is, idle-IsStreamed,
}

module _ (net : Network) where
  dial_and_hello-IsStreamed :
      (c : IsanndClient) → IsStreamed net c → IsStreamed net (dial_and_hello net c).0
  unfolding dial_and_hello
  dial_and_hello-IsStreamed c i = elim (Bool-cases (is_empty c.hello_id)) [
    | inl e ↦ rw (dial_and_hello, e) (idle-IsStreamed net c c.attempts i (omega arith))
    | inr e ↦ elim (Bool-cases (net.answers c.attempts)) [
      | inr a ↦ rw (dial_and_hello, e, a) (idle-IsStreamed net c (c.attempts + 1) i (omega arith))
      | inl a ↦
          let k = c.attempts in
          let hello = bare_msg (codes "hello") c.hello_id c.hello_role in
          let d = record c { conn = none; attempts = k + 1 } in
          let j = idle-IsStreamed net c (k + 1) i (omega arith) in
          let whole : sent_on k d.sent ≡ stream net k d = i.new_whole k (omega arith) in
          let w = write_on-Writes net k hello d in
          elim w.outcome [
            | inl (t, wire, (json, fits, added)) ↦
                rw (dial_and_hello, e, a, t)
                  (whole-IsStreamed net k hello json d (write_on net k hello d) (some k) j whole
                    (omega arith) (λ x h. ground arith) w wire fits added)
            | inr (t, wire, short) ↦
                rw (dial_and_hello, e, a, t)
                  (subst (IsStreamed net) (conn-is net (write_on net k hello d).0 none w.conn) (
                    broken-IsStreamed net k hello d (write_on net k hello d) j whole (omega arith) w
                      wire short))
          ]
    ]
  ]

  ensure_conn-IsStreamed :
      (c : IsanndClient) → IsStreamed net c → IsStreamed net (ensure_conn net c).0
  ensure_conn-IsStreamed c h = elim (Option-cases c.conn) [
    | inr (k, e) ↦ subst (λ p. IsStreamed net p.0) (sym (ensure_conn-some net c k e)) h
    | inl e ↦
        subst (IsStreamed net) (sym (ensure_conn-none net c e)) (dial_and_hello-IsStreamed c h)
  ]

  mark_conn_dead-cases :
      (k : ℕ) (c : IsanndClient)
      → (mark_conn_dead k c ≡ c) ⊎ (mark_conn_dead k c ≡ record c { conn = none })
  unfolding mark_conn_dead
  mark_conn_dead-cases k c = elim (Option-cases c.conn) [
    | inl h ↦ inl (ground arith)
    | inr (j, h) ↦ elim (Bool-cases (j == k)) [
      | inl e ↦ inr (ground arith)
      | inr e ↦ inl (ground arith)
    ]
  ]

  mark_conn_dead-own :
      (k : ℕ) (c : IsanndClient) → c.conn ≡ some k → mark_conn_dead k c ≡ record c { conn = none }
  unfolding mark_conn_dead
  mark_conn_dead-own k c h = ground arith

  mark_conn_dead-IsStreamed :
      (k : ℕ) (c : IsanndClient) → IsStreamed net c → IsStreamed net (mark_conn_dead k c)
  mark_conn_dead-IsStreamed k c i = elim (mark_conn_dead-cases k c) [
    | inl h ↦ subst (IsStreamed net) (sym h) i
    | inr h ↦ subst (IsStreamed net) (sym h) (idle-IsStreamed net c c.attempts i (omega arith))
  ]

  send_on-IsStreamed :
      (msg : RendezvousMsg) (c : IsanndClient)
      → IsStreamed net c
      → IsStreamed net (send_on net msg c).0
  unfolding send_on
  send_on-IsStreamed msg c i =
      let d = (ensure_conn net c).0 in
      let j = ensure_conn-IsStreamed c i in
      elim (Result-cases (ensure_conn net c).1) [
        | inr (e, o) ↦ rw (send_on, o) j
        | inl (k, o) ↦
            let r = write_on net k msg d in
            let on : d.conn ≡ some k = ensure_conn-conn net c d k (ap (λ x. (d, x)) o) in
            let w = write_on-Writes net k msg d in
            elim w.outcome [
              | inl (t, wire, (json, fits, added)) ↦
                  rw (send_on, o, t)
                    (subst (IsStreamed net) (conn-is net r.0 (some k) (w.conn ∙ on)) (
                      whole-IsStreamed net k msg json d r (some k) j (j.open_whole k on)
                        (j.dialled k on) (λ x h. ground arith) w wire fits added))
              | inr (t, wire, short) ↦
                  rw (send_on, o, t)
                    (subst (IsStreamed net) (sym (mark_conn_dead-own k r.0 (w.conn ∙ on))) (
                      broken-IsStreamed net k msg d r j (j.open_whole k on) (j.dialled k on) w wire
                        short))
            ]
      ]

  named_as-IsStreamed :
      (c : IsanndClient) (id role : Text) → IsStreamed net c → IsStreamed net (named_as c id role)
  named_as-IsStreamed c id role i = record {
    cut = i.cut;
    open_whole = i.open_whole;
    new_whole = i.new_whole;
    dialled = i.dialled;
    encoded = i.encoded;
  }

  write_msg-IsStreamed :
      (msg : RendezvousMsg) (c : IsanndClient)
      → IsStreamed net c
      → IsStreamed net (write_msg net msg c).0
  unfolding write_msg
  write_msg-IsStreamed msg c i = elim (Option-cases (claim msg c)) [
    | inl o ↦ rw (write_msg, o) i
    | inr (d, o) ↦
        rw (write_msg, o)
          (elim (claim-cases msg c d o) [
            | inl (same, own) ↦
                subst (λ x. IsStreamed net (send_on net msg x).0) same (send_on-IsStreamed msg c i)
            | inr (unset, named) ↦
                subst (λ x. IsStreamed net (send_on net msg x).0) named
                  (send_on-IsStreamed msg (named_as c msg.id msg.role)
                    (named_as-IsStreamed c msg.id msg.role i))
          ])
  ]

  connect-IsStreamed :
      (id role : Text) (c : IsanndClient)
      → IsStreamed net c
      → IsStreamed net (connect net id role c).0
  connect-IsStreamed id role c i = elim (connect-cases net id role c) [
    | inl same ↦ subst (IsStreamed net) (sym same) i
    | inr (own, inl e) ↦ subst (IsStreamed net) (sym e) (named_as-IsStreamed c id role i)
    | inr (own, inr e) ↦
        subst (IsStreamed net) (sym e)
          (dial_and_hello-IsStreamed (named_as c id role) (named_as-IsStreamed c id role i))
  ]

  wish-IsStreamed :
      (c : IsanndClient) (b : Bool)
      → IsStreamed net c
      → IsStreamed net (record c { need_register = b })
  wish-IsStreamed c b i = record {
    cut = i.cut;
    open_whole = i.open_whole;
    new_whole = i.new_whole;
    dialled = i.dialled;
    encoded = i.encoded;
  }

  close-IsStreamed : (c : IsanndClient) → IsStreamed net c → IsStreamed net (close c)
  unfolding close
  close-IsStreamed c i = elim (Bool-cases c.closed) [
    | inl z ↦ simp (z) i
    | inr z ↦
        let j = idle-IsStreamed net c c.attempts i (omega arith) in
        rw z (record {
          cut = j.cut;
          open_whole = j.open_whole;
          new_whole = j.new_whole;
          dialled = j.dialled;
          encoded = j.encoded;
        })
  ]

  new_client-IsStreamed : IsStreamed net new_client
  unfolding frames sent_on stream_of
  new_client-IsStreamed = record {
    cut = λ k. ([], refl, nothing_read net.codec);
    open_whole = λ k h. absurd (ground arith);
    new_whole = λ k h. refl;
    dialled = λ k h. absurd (ground arith);
    encoded = λ k. tt;
  }

  -- Whatever a new client is asked, whichever dials fail and wherever a write breaks off, the server
  -- reads from the bytes that went out on a connection the frames that the client wrote on it as a whole,
  -- each as the message that was sent and in their order, and then finds the end of the stream, at
  -- most within one more frame, of which it reads nothing; the codec is to decode what it encodes of
  -- each of them.
  pub act_all-Reads :
      (actions : List Action) (k : ℕ)
      → All (Decodes net.codec) (frames k (act_all net new_client actions).wire)
      → Reads net.codec
          (sent_on k (act_all net new_client actions).sent)
          (frames k (act_all net new_client actions).wire)
  act_all-Reads actions k d =
      let i =
        act_all-rule net (IsStreamed net) write_msg-IsStreamed connect-IsStreamed
          mark_conn_dead-IsStreamed wish-IsStreamed close-IsStreamed new_client actions
          new_client-IsStreamed in
      let ms = frames k (act_all net new_client actions).wire in
      let (tail, h, short) = i.cut k in
      subst (λ s. Reads net.codec s ms) (sym h) (stream_of-Reads net ms tail (i.encoded k) d short)
