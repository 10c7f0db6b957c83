-- ===== src/Tunnel/Client/Sending.antt =====
-- pkg/tunnel/isannd_client.go: the dial and the write keep what a client is loyal to.
use servers.Base.{
  List, length, be32, ℕ, ◌≤◌, ◌+◌, ◌≡◌, ◌⊎◌, refl, sym, ap, ◌∙◌, subst, inl, inr, true, false, [],
  ◌∷◌, ◌++◌, Option, none, some, Text, codes, eqt, eqt_iff, is_empty, ◌==◌, if◌then◌else◌, ok,
  Result-cases, Bool-cases, Option-cases, arith,
}
use servers.Tunnel.Message.{RendezvousMsg}
use servers.Tunnel.Client.{
  Network, IsanndClient, bare_msg, encode_frame, write_bytes, write_on, dial_and_hello,
  mark_conn_dead, ensure_conn, claim, send_on, write_msg,
}
use servers.Tunnel.Client.Identity.{
  frames, IsOwn, IsFaithful, IsLoyal, appended-IsLoyal, greeting-IsLoyal,
}

pub idle-IsLoyal :
    (c : IsanndClient) (n : ℕ) (t : List (ℕ × Text))
    → IsLoyal c
    → c.attempts ≤ n
    → IsLoyal (record c { conn = none; attempts = n; sent = t })
idle-IsLoyal c n t i le = record {
  faithful = i.faithful;
  greeted = λ k h. absurd (ground arith);
  fresh = λ k h. i.fresh k (omega arith);
  named = λ h. ((i.named h).0, refl);
}

tried-IsLoyal :
    (c : IsanndClient) (n : ℕ) (t : List (ℕ × Text))
    → IsLoyal c
    → c.attempts ≤ n
    → IsLoyal (record c { attempts = n; sent = t })
tried-IsLoyal c n t i le = record {
  faithful = i.faithful;
  greeted = i.greeted;
  fresh = λ k h. i.fresh k (omega arith);
  named = i.named;
}

-- A frame is written as a whole, or is not one of the frames that are; bytes may have gone out anyway.
write_on-cases :
    (net : Network) (k : ℕ) (msg : RendezvousMsg) (c : IsanndClient)
    → (n : ℕ) × (t : List (ℕ × Text)) × (c.attempts ≤ n)
      × ((write_on net k msg c ≡ (record c { attempts = n; sent = t }, false))
          ⊎ (write_on net k msg c
              ≡ (record c { attempts = n; sent = t; wire = c.wire ++ ((k, msg) ∷ []) }, true)))
unfolding write_on write_bytes
write_on-cases net k msg c = elim (Result-cases (encode_frame net.codec msg)) [
  | inr (e, h) ↦ (c.attempts, c.sent, omega arith, inl (rw (write_on, h) refl))
  | inl (json, h) ↦
      let d = (write_bytes net k (be32 (length json)) c).0 in
      let e = (write_bytes net k json d).0 in
      elim (Bool-cases (write_bytes net k (be32 (length json)) c).1) [
        | inr a ↦ (d.attempts, d.sent, omega arith, inl (rw (write_on, h, a) refl))
        | inl a ↦ elim (Bool-cases (write_bytes net k json d).1) [
          | inl b ↦ (e.attempts, e.sent, omega arith, inr (rw (write_on, h, a, b) refl))
          | inr b ↦ (e.attempts, e.sent, omega arith, inl (rw (write_on, h, a, b) refl))
        ]
      ]
]

pub dial_and_hello-IsLoyal :
    (net : Network) (c : IsanndClient) → IsLoyal c → IsLoyal (dial_and_hello net c).0
unfolding dial_and_hello is_empty
dial_and_hello-IsLoyal net c i = elim (Bool-cases (is_empty c.hello_id)) [
  | inl e ↦ rw e (idle-IsLoyal c c.attempts c.sent i (omega arith))
  | inr e ↦ elim (Bool-cases (net.answers c.attempts)) [
    | inr a ↦ rw e (rw a (idle-IsLoyal c (c.attempts + 1) c.sent i (omega arith)))
    | inl a ↦
        let hello = bare_msg (codes "hello") c.hello_id c.hello_role in
        let dialled = record c { conn = none; attempts = c.attempts + 1 } in
        let (n, t, le, written) = write_on-cases net c.attempts hello dialled in
        elim written [
          | inl w ↦ rw e (rw a (rw w (idle-IsLoyal c n t i (omega arith))))
          | inr w ↦ rw e (
              rw a (
                rw w (
                  greeting-IsLoyal c c.attempts n t c.hello_role i
                    (λ h. absurd (ground (arith, ap is_empty h))) (omega arith) (omega arith))))
        ]
  ]
]

pub mark_conn_dead-IsLoyal : (k : ℕ) (c : IsanndClient) → IsLoyal c → IsLoyal (mark_conn_dead k c)
unfolding mark_conn_dead
mark_conn_dead-IsLoyal k c i = elim (Option-cases c.conn) [
  | inl h ↦ subst (λ o. IsLoyal (closed_of o)) (sym h) i
  | inr (j, h) ↦
      subst (λ o. IsLoyal (closed_of o)) (sym h)
        (elim (Bool-cases (j == k)) [
          | inl e ↦ rw e (idle-IsLoyal c c.attempts c.sent i (omega arith))
          | inr e ↦ rw e i
        ])
]
  where
    closed_of : Option ℕ → IsanndClient
    closed_of o = elim o [ none ↦ c | some j ↦ if j == k then record c { conn = none } else c ]

abbrev pub named_as : IsanndClient → Text → Text → IsanndClient
named_as c id role = record c { hello_id = id; hello_role = role }

pub named_as-IsLoyal :
    (c : IsanndClient) (id role : Text)
    → (c.hello_id ≡ []) ⊎ (c.hello_id ≡ id)
    → IsLoyal c
    → IsLoyal (named_as c id role)
unfolding frames IsFaithful
named_as-IsLoyal c id role (inl unset) i = record {
  faithful = λ k. subst (λ w. IsFaithful id (frames k w)) (sym (i.named unset).0) tt;
  greeted = i.greeted;
  fresh = i.fresh;
  named = λ _. i.named unset;
}
named_as-IsLoyal c id role (inr same) i = record {
  faithful = λ k. subst (λ x. IsFaithful x (frames k c.wire)) same (i.faithful k);
  greeted = i.greeted;
  fresh = i.fresh;
  named = λ h. i.named (same ∙ h);
}

pub is_empty→nil : (s : Text) → is_empty s ≡ true → s ≡ []
unfolding is_empty
is_empty→nil [] h = refl
is_empty→nil (x ∷ s) h = absurd (ground arith)

pub claim-cases :
    (msg : RendezvousMsg) (c d : IsanndClient)
    → claim msg c ≡ some d
    → ((c ≡ d) × IsOwn c.hello_id msg) ⊎ ((c.hello_id ≡ []) × (named_as c msg.id msg.role ≡ d))
unfolding claim
claim-cases msg c d h = elim (Bool-cases (is_empty msg.id)) [
  | inl m ↦ inl (ground arith, inl (is_empty→nil msg.id m))
  | inr m ↦ elim (Bool-cases (is_empty c.hello_id)) [
    | inl u ↦ inr (is_empty→nil c.hello_id u, ground arith)
    | inr u ↦ elim (Bool-cases (eqt c.hello_id msg.id)) [
      | inl q ↦ inl (ground arith, inr (sym ((eqt_iff c.hello_id msg.id).0 q)))
      | inr q ↦ absurd (ground arith)
    ]
  ]
]

pub ensure_conn-some :
    (net : Network) (c : IsanndClient) (k : ℕ) → c.conn ≡ some k → ensure_conn net c ≡ (c, ok k)
unfolding ensure_conn
ensure_conn-some net c k h = ground arith

pub ensure_conn-none :
    (net : Network) (c : IsanndClient)
    → c.conn ≡ none
    → (ensure_conn net c).0 ≡ (dial_and_hello net c).0
unfolding ensure_conn
ensure_conn-none net c h = ground arith

pub ensure_conn-conn :
    (net : Network) (c d : IsanndClient) (k : ℕ) → ensure_conn net c ≡ (d, ok k) → d.conn ≡ some k
unfolding ensure_conn
ensure_conn-conn net c d k h = ground arith

dial_and_hello-hello_id :
    (net : Network) (c : IsanndClient) → (dial_and_hello net c).0.hello_id ≡ c.hello_id
unfolding dial_and_hello write_on write_bytes
dial_and_hello-hello_id net c = ground arith

ensure_conn-hello_id :
    (net : Network) (c : IsanndClient) → (ensure_conn net c).0.hello_id ≡ c.hello_id
ensure_conn-hello_id net c = elim (Option-cases c.conn) [
  | inr (k, h) ↦ ap (λ p. p.0.hello_id) (ensure_conn-some net c k h)
  | inl h ↦ ap (λ d. d.hello_id) (ensure_conn-none net c h) ∙ dial_and_hello-hello_id net c
]

ensure_conn-IsLoyal : (net : Network) (c : IsanndClient) → IsLoyal c → IsLoyal (ensure_conn net c).0
ensure_conn-IsLoyal net c i = elim (Option-cases c.conn) [
  | inr (k, h) ↦ subst (λ p. IsLoyal p.0) (sym (ensure_conn-some net c k h)) i
  | inl h ↦ subst IsLoyal (sym (ensure_conn-none net c h)) (dial_and_hello-IsLoyal net c i)
]

send_on-IsLoyal :
    (net : Network) (msg : RendezvousMsg) (c : IsanndClient)
    → IsLoyal c
    → IsOwn c.hello_id msg
    → IsLoyal (send_on net msg c).0
unfolding send_on
send_on-IsLoyal net msg c i own =
    let d = (ensure_conn net c).0 in
    let j : IsLoyal d = ensure_conn-IsLoyal net c i in
    elim (Result-cases (ensure_conn net c).1) [
      | inr (e, h) ↦ rw (send_on, h) j
      | inl (k, h) ↦
          let greeted : is_empty (frames k d.wire) ≡ false =
            j.greeted k (ensure_conn-conn net c d k (ap (λ r. (d, r)) h)) in
          let (n, t, le, written) = write_on-cases net k msg d in
          elim written [
            | inl w ↦
                rw (send_on, h)
                  (rw w (
                    mark_conn_dead-IsLoyal k (record d { attempts = n; sent = t })
                      (tried-IsLoyal d n t j le)))
            | inr w ↦
                rw (send_on, h)
                  (rw w (
                    appended-IsLoyal d k n t msg j greeted
                      (subst (λ x. IsOwn x msg) (sym (ensure_conn-hello_id net c)) own) le))
          ]
    ]

pub write_msg-IsLoyal :
    (net : Network) (msg : RendezvousMsg) (c : IsanndClient)
    → IsLoyal c
    → IsLoyal (write_msg net msg c).0
unfolding write_msg
write_msg-IsLoyal net msg c i = elim (Option-cases (claim msg c)) [
  | inl h ↦ rw (write_msg, h) i
  | inr (d, h) ↦
      rw (write_msg, h)
        (elim (claim-cases msg c d h) [
          | inl (same, own) ↦
              subst (λ x. IsLoyal (send_on net msg x).0) same (send_on-IsLoyal net msg c i own)
          | inr (unset, named) ↦
              subst (λ x. IsLoyal (send_on net msg x).0) named
                (send_on-IsLoyal net msg (named_as c msg.id msg.role)
                  (named_as-IsLoyal c msg.id msg.role (inl unset) i) (inr refl))
        ])
]
