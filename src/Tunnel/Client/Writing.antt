-- ===== src/Tunnel/Client/Writing.antt =====
-- `writeFrameTo` of pkg/tunnel/isannd_client.go: the bytes that a frame leaves on a connection.
use servers.Base.{
  take-long, take, be32, length, ◌≤◌, ◌<◌, ◌⊎◌, append-nil, ℕ, ◌≡◌, refl, sym, ap, ◌∙◌, inl, inr,
  Bool, true, false, [], ◌∷◌, ◌++◌, append_assoc, Text, ◌==◌, ok, err, Bool-cases, Result-cases,
  if◌then◌else◌, arith,
}
use servers.Tunnel.Message.{RendezvousMsg}
use servers.Signal.Proto.{short_read, read_frame}
use servers.Tunnel.Client.{Network, IsanndClient, encode_frame, write_bytes, write_on}
use servers.Tunnel.Client.Stream.{
  framed, write_frame-encode_frame, read_frame-head, read_frame-body, sent_on, sent_on-append,
}

module _ (net : Network) where
  -- What a write on a connection adds to the bytes of that connection, and to no other: a whole frame,
  -- or a piece that no frame can be read from.
  pub record Writes (k : ℕ) (msg : RendezvousMsg) (c : IsanndClient) (r : IsanndClient × Bool)
      : Type 0 where
    pub added : Text
    pub conn : r.0.conn ≡ c.conn
    pub later : c.attempts ≤ r.0.attempts
    pub sent : (j : ℕ) → sent_on j r.0.sent ≡ sent_on j c.sent ++ (if k == j then added else [])
    pub outcome :
        ((r.1 ≡ true)
          × (r.0.wire ≡ c.wire ++ ((k, msg) ∷ []))
          × ((json : Text) × (encode_frame net.codec msg ≡ ok json) × (added ≡ framed json)))
        ⊎ ((r.1 ≡ false) × (r.0.wire ≡ c.wire) × (read_frame net.codec added ≡ err short_read))

  write_bytes-sent :
      (k j : ℕ) (bytes : Text) (c : IsanndClient)
      → sent_on j (write_bytes net k bytes c).0.sent
        ≡ sent_on j c.sent ++ (if k == j then take (net.takes c.attempts bytes) bytes else [])
  unfolding write_bytes
  write_bytes-sent k j bytes c = sent_on-append j k (take (net.takes c.attempts bytes) bytes) c.sent

  -- What the socket takes of the bytes.
  abbrev taken : Text → IsanndClient → Text
  taken bytes c = take (net.takes c.attempts bytes) bytes

  taken-all :
      (k : ℕ) (bytes : Text) (c : IsanndClient)
      → (write_bytes net k bytes c).1 ≡ true
      → taken bytes c ≡ bytes
  unfolding write_bytes
  taken-all k bytes c h = take-long (net.takes c.attempts bytes) bytes (ground arith)

  taken-less :
      (k : ℕ) (bytes : Text) (c : IsanndClient)
      → (write_bytes net k bytes c).1 ≡ false
      → net.takes c.attempts bytes < length bytes
  unfolding write_bytes
  taken-less k bytes c h = ground arith

  if_append :
      (b : Bool) (x t u : Text)
      → ((x ++ (if b then t else [])) ++ (if b then u else [])) ≡ x ++ (if b then t ++ u else [])
  if_append true x t u = append_assoc x t u
  if_append false x t u = append-nil (x ++ [])

  if_nil : (b : Bool) (x : Text) → x ≡ x ++ (if b then [] else [])
  if_nil true x = sym (append-nil x)
  if_nil false x = sym (append-nil x)

  both-sent :
      (k j : ℕ) (head json : Text) (c : IsanndClient)
      → let d = (write_bytes net k head c).0 in
        sent_on j (write_bytes net k json d).0.sent
        ≡ sent_on j c.sent ++ (if k == j then taken head c ++ taken json d else [])
  both-sent k j head json c =
      let d = (write_bytes net k head c).0 in
      write_bytes-sent k j json d
      ∙ ap (λ x. x ++ (if k == j then taken json d else [])) (write_bytes-sent k j head c)
      ∙ if_append (k == j) (sent_on j c.sent) (taken head c) (taken json d)

  no_write-Writes : (k : ℕ) (msg : RendezvousMsg) (c : IsanndClient) → Writes k msg c (c, false)
  unfolding read_frame
  no_write-Writes k msg c = record {
    added = [];
    conn = refl;
    later = omega arith;
    sent = λ j. if_nil (k == j) (sent_on j c.sent);
    outcome = inr (refl, refl, refl);
  }

  pub write_on-Writes :
      (k : ℕ) (msg : RendezvousMsg) (c : IsanndClient) → Writes k msg c (write_on net k msg c)
  unfolding write_on write_bytes
  write_on-Writes k msg c = elim (Result-cases (encode_frame net.codec msg)) [
    | inr (e, h) ↦ rw (write_on, h) (no_write-Writes k msg c)
    | inl (json, h) ↦
        let head = be32 (length json) in
        let d = (write_bytes net k head c).0 in
        elim (Bool-cases (write_bytes net k head c).1) [
          | inr a ↦
              rw (write_on, h, a)
                (record {
                  added = taken head c;
                  conn = refl;
                  later = omega arith;
                  sent = λ j. write_bytes-sent k j head c;
                  outcome = inr (
                    refl,
                    refl,
                    read_frame-head net.codec (length json) (net.takes c.attempts head)
                        (taken-less k head c a),
                  );
                })
          | inl a ↦ elim (Bool-cases (write_bytes net k json d).1) [
            | inl b ↦
                rw (write_on, h, a, b)
                  (record {
                    added = taken head c ++ taken json d;
                    conn = refl;
                    later = omega arith;
                    sent = λ j. both-sent k j head json c;
                    outcome = inl (
                      refl,
                      refl,
                      (
                        json,
                        h,
                        ap (λ x. x ++ taken json d) (taken-all k head c a)
                            ∙ ap (λ x. head ++ x) (taken-all k json d b),
                      ),
                    );
                  })
            | inr b ↦
                rw (write_on, h, a, b)
                  (record {
                    added = taken head c ++ taken json d;
                    conn = refl;
                    later = omega arith;
                    sent = λ j. both-sent k j head json c;
                    outcome = inr (
                      refl,
                      refl,
                      ap (λ x. read_frame net.codec (x ++ taken json d)) (taken-all k head c a)
                          ∙ read_frame-body net.codec json (net.takes d.attempts json)
                              (taken-less k json d b)
                              (write_frame-encode_frame net.codec msg json h).1,
                    );
                  })
          ]
        ]
  ]
