-- ===== src/Tunnel/Client/Streamed.antt =====
-- pkg/tunnel/isannd_client.go: whole frames are in the bytes of a connection, and at most a piece of one
-- behind them.
use servers.Base.{
  ◌≤◌, ◌<◌, append-nil, ℕ, ◌≡◌, sym, ap, ◌∙◌, subst, inl, inr, Bool, true, false, List, [], ◌∷◌,
  ◌++◌, Option, none, some, Text, All, All-append, ◌==◌, ==_iff, ok, err, Bool-cases, if◌then◌else◌,
  arith,
}
use servers.Tunnel.Message.{RendezvousMsg}
use servers.Signal.Proto.{short_read, read_frame}
use servers.Tunnel.Client.{Network, IsanndClient, encode_frame}
use servers.Tunnel.Client.Identity.{frames, frames-append}
use servers.Tunnel.Client.Delivery.{Fits}
use servers.Tunnel.Client.Stream.{
  framed, bytes_of, stream_of, stream_of-append, sent_on, nothing_read,
}
use servers.Tunnel.Client.Writing.{Writes}

module _ (net : Network) where
  abbrev pub stream : ℕ → IsanndClient → Text
  stream k c = stream_of net.codec (frames k c.wire)

  -- Of each connection the whole frames are in its bytes, and behind them at most a piece that no frame
  -- can be read from; but on the open connection, and those to come, there is none.
  pub record IsStreamed (c : IsanndClient) : Type 0 where
    pub cut :
        (k : ℕ)
        → (tail : Text) × (sent_on k c.sent ≡ stream k c ++ tail)
          × (read_frame net.codec tail ≡ err short_read)
    pub open_whole : (k : ℕ) → c.conn ≡ some k → sent_on k c.sent ≡ stream k c
    pub new_whole : (k : ℕ) → c.attempts ≤ k → sent_on k c.sent ≡ stream k c
    pub dialled : (k : ℕ) → c.conn ≡ some k → k < c.attempts
    pub encoded : (k : ℕ) → All (Fits net) (frames k c.wire)

  same-sent :
      (k j : ℕ) (msg : RendezvousMsg) (c : IsanndClient) (r : IsanndClient × Bool)
      (w : Writes net k msg c r)
      → (k == j) ≡ false
      → sent_on j r.0.sent ≡ sent_on j c.sent
  same-sent k j msg c r w other =
      w.sent j
      ∙ ap (λ b. sent_on j c.sent ++ (if b then w.added else [])) other
      ∙ append-nil (sent_on j c.sent)

  more-sent :
      (k j : ℕ) (msg : RendezvousMsg) (c : IsanndClient) (r : IsanndClient × Bool)
      (w : Writes net k msg c r)
      → (k == j) ≡ true
      → sent_on j c.sent ≡ stream j c
      → sent_on j r.0.sent ≡ stream j c ++ w.added
  more-sent k j msg c r w here whole =
      w.sent j
      ∙ ap (λ b. sent_on j c.sent ++ (if b then w.added else [])) here
      ∙ ap (λ x. x ++ w.added) whole

  stream-more :
      (k j : ℕ) (msg : RendezvousMsg) (c d : IsanndClient)
      → d.wire ≡ c.wire ++ ((k, msg) ∷ [])
      → stream j d ≡ stream j c ++ (if k == j then bytes_of (encode_frame net.codec msg) else [])
  stream-more k j msg c d h =
      ap (λ w. stream_of net.codec (frames j w)) h
      ∙ ap (stream_of net.codec) (frames-append j k msg c.wire)
      ∙ stream_of-if (k == j) (frames j c.wire)
    where
      stream_of-if :
          (b : Bool) (ms : List RendezvousMsg)
          → stream_of net.codec (if b then ms ++ (msg ∷ []) else ms)
            ≡ stream_of net.codec ms ++ (if b then bytes_of (encode_frame net.codec msg) else [])
      stream_of-if true ms = stream_of-append net.codec msg ms
      stream_of-if false ms = sym (append-nil (stream_of net.codec ms))

  -- A connection on which nothing was written, of a client that was `c` and is `d`.
  same-cut :
      (j : ℕ) (c d : IsanndClient)
      → IsStreamed c
      → sent_on j d.sent ≡ sent_on j c.sent
      → stream j d ≡ stream j c
      → (tail : Text) × (sent_on j d.sent ≡ stream j d ++ tail)
        × (read_frame net.codec tail ≡ err short_read)
  same-cut j c d i sent kept =
      let (tail, h, short) = i.cut j in (tail, sent ∙ h ∙ ap (λ x. x ++ tail) (sym kept), short)

  frames-Fits :
      (k j : ℕ) (msg : RendezvousMsg) (c d : IsanndClient)
      → d.wire ≡ c.wire ++ ((k, msg) ∷ [])
      → Fits net msg
      → All (Fits net) (frames j c.wire)
      → All (Fits net) (frames j d.wire)
  frames-Fits k j msg c d h fits all =
      subst (All (Fits net)) (sym (ap (frames j) h ∙ frames-append j k msg c.wire)) (more (k == j))
    where
      more :
          (b : Bool) → All (Fits net) (if b then frames j c.wire ++ (msg ∷ []) else frames j c.wire)
      more true = All-append (Fits net) (frames j c.wire) (msg ∷ []) all (fits, tt)
      more false = all

  -- A frame that was written as a whole, on a connection whose bytes were whole frames.
  pub whole-IsStreamed :
      (k : ℕ) (msg : RendezvousMsg) (json : Text) (c : IsanndClient) (r : IsanndClient × Bool)
      (o : Option ℕ)
      → IsStreamed c
      → sent_on k c.sent ≡ stream k c
      → k < c.attempts
      → ((j : ℕ) → o ≡ some j → k ≡ j)
      → (w : Writes net k msg c r) → r.0.wire ≡ c.wire ++ ((k, msg) ∷ [])
      → encode_frame net.codec msg ≡ ok json
      → w.added ≡ framed json
      → IsStreamed (record r.0 { conn = o })
  whole-IsStreamed k msg json c r o i whole lt only w wire fits added =
      let d = record r.0 { conn = o } in
      let at_k : (j : ℕ) → (k == j) ≡ true → sent_on j d.sent ≡ stream j d = λ j e.
        more-sent k j msg c r w e
          (subst (λ x. sent_on x c.sent ≡ stream x c) ((==_iff k j).0 e) whole)
        ∙ ap (λ x. stream j c ++ x) (added ∙ sym (ap bytes_of fits))
        ∙ sym (
            stream-more k j msg c d wire
            ∙ ap (λ b. stream j c ++ (if b then bytes_of (encode_frame net.codec msg) else []))
                e) in
      let kept : (j : ℕ) → (k == j) ≡ false → stream j d ≡ stream j c = λ j e.
        stream-more k j msg c d wire
        ∙ ap (λ b. stream j c ++ (if b then bytes_of (encode_frame net.codec msg) else [])) e
        ∙ append-nil (stream j c) in
      record {
        cut = λ j. elim (Bool-cases (k == j)) [
          | inl e ↦ ([], at_k j e ∙ sym (append-nil (stream j d)), nothing_read net.codec)
          | inr e ↦ same-cut j c d i (same-sent k j msg c r w e) (kept j e)
        ];
        open_whole = λ j h. at_k j ((==_iff k j).1 (only j h));
        new_whole = λ j le. elim (Bool-cases (k == j)) [
          | inl e ↦ at_k j e
          | inr e ↦
              same-sent k j msg c r w e ∙ i.new_whole j (omega (arith, w.later)) ∙ sym (kept j e)
        ];
        dialled = λ j h. omega (arith, only j h, w.later);
        encoded = λ j. frames-Fits k j msg c d wire (json, fits) (i.encoded j);
      }

  -- A piece of a frame, behind which the connection is given up.
  pub broken-IsStreamed :
      (k : ℕ) (msg : RendezvousMsg) (c : IsanndClient) (r : IsanndClient × Bool)
      → IsStreamed c
      → sent_on k c.sent ≡ stream k c
      → k < c.attempts
      → (w : Writes net k msg c r) → r.0.wire ≡ c.wire
      → read_frame net.codec w.added ≡ err short_read
      → IsStreamed (record r.0 { conn = none })
  broken-IsStreamed k msg c r i whole lt w wire short =
      let d = record r.0 { conn = none } in
      let kept : (j : ℕ) → stream j d ≡ stream j c =
        λ j. ap (λ x. stream_of net.codec (frames j x)) wire in
      record {
        cut = λ j. elim (Bool-cases (k == j)) [
          | inl e ↦ (
            w.added,
            more-sent k j msg c r w e
                  (subst (λ x. sent_on x c.sent ≡ stream x c) ((==_iff k j).0 e) whole)
                ∙ ap (λ x. x ++ w.added) (sym (kept j)),
            short,
          )
          | inr e ↦ same-cut j c d i (same-sent k j msg c r w e) (kept j)
        ];
        open_whole = λ j h. absurd (ground arith);
        new_whole = λ j le. elim (Bool-cases (k == j)) [
          | inl e ↦ absurd (omega (arith, (==_iff k j).0 e, w.later))
          | inr e ↦
              same-sent k j msg c r w e ∙ i.new_whole j (omega (arith, w.later)) ∙ sym (kept j)
        ];
        dialled = λ j h. absurd (ground arith);
        encoded = λ j. subst (λ x. All (Fits net) (frames j x)) (sym wire) (i.encoded j);
      }

  pub conn-is : (d : IsanndClient) (o : Option ℕ) → d.conn ≡ o → record d { conn = o } ≡ d
  conn-is d o h = sym (ap (λ x. record d { conn = x }) h)

  pub idle-IsStreamed :
      (c : IsanndClient) (n : ℕ)
      → IsStreamed c
      → c.attempts ≤ n
      → IsStreamed (record c { conn = none; attempts = n })
  idle-IsStreamed c n i le = record {
    cut = i.cut;
    open_whole = λ k h. absurd (ground arith);
    new_whole = λ k h. i.new_whole k (omega arith);
    dialled = λ k h. absurd (ground arith);
    encoded = i.encoded;
  }
