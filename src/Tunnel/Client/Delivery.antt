-- ===== src/Tunnel/Client/Delivery.antt =====
-- pkg/tunnel/isannd_client.go: a frame goes out when the network is up, over a new connection if the
-- client has none.
use servers.Base.{
  ◌≤◌, be32, length, ℕ, ◌+◌, ◌≡◌, refl, inl, inr, true, false, List, [], ◌∷◌, ◌++◌, none, some,
  Text, codes, eqt_iff, is_empty, append_assoc, ok, Option-cases, arith,
}
use servers.Tunnel.Message.{RendezvousMsg}
use servers.Tunnel.Client.{
  Network, IsanndClient, bare_msg, encode_frame, write_bytes, write_on, dial_and_hello, ensure_conn,
  claim, send_on, write_msg,
}

-- Isannd answers and its sockets take what is written.
pub record IsUp (net : Network) : Type 0 where
  pub answered : (n : ℕ) → net.answers n ≡ true
  pub taken : (n : ℕ) (bytes : Text) → length bytes ≤ net.takes n bytes

-- The message has a JSON text that is no larger than a frame may be.
abbrev pub Fits : Network → RendezvousMsg → Type 0
Fits net msg = (json : Text) × (encode_frame net.codec msg ≡ ok json)

-- A client after the two writes of a frame.
both_writes : Network → ℕ → Text → IsanndClient → IsanndClient
both_writes net k json c = (write_bytes net k json (write_bytes net k (be32 (length json)) c).0).0

abbrev written : Network → ℕ → RendezvousMsg → Text → IsanndClient → IsanndClient
written net k msg json c = record (both_writes net k json c) {
  wire = (both_writes net k json c).wire ++ ((k, msg) ∷ []);
}

write_bytes-IsUp :
    (net : Network) (k : ℕ) (bytes : Text) (c : IsanndClient)
    → IsUp net
    → (write_bytes net k bytes c).1 ≡ true
unfolding write_bytes
write_bytes-IsUp net k bytes c up = ground (arith, up.taken c.attempts bytes)

write_on-IsUp :
    (net : Network) (k : ℕ) (msg : RendezvousMsg) (json : Text) (c : IsanndClient)
    → IsUp net
    → encode_frame net.codec msg ≡ ok json
    → write_on net k msg c ≡ (written net k msg json c, true)
unfolding write_on both_writes
write_on-IsUp net k msg json c up fits =
    let d = (write_bytes net k (be32 (length json)) c).0 in
    rw
      (
        write_on,
        fits,
        write_bytes-IsUp net k (be32 (length json)) c up,
        write_bytes-IsUp net k json d up,
      )
      refl

abbrev pub greeting : IsanndClient → RendezvousMsg
greeting c = bare_msg (codes "hello") c.hello_id c.hello_role

abbrev dialled : IsanndClient → IsanndClient
dialled c = record c { conn = none; attempts = c.attempts + 1 }

abbrev greeted : Network → Text → IsanndClient → IsanndClient
greeted net json c = record (written net c.attempts (greeting c) json (dialled c)) {
  conn = some c.attempts;
}

dial_and_hello-IsUp :
    (net : Network) (json : Text) (c : IsanndClient)
    → IsUp net
    → encode_frame net.codec (greeting c) ≡ ok json
    → is_empty c.hello_id ≡ false
    → dial_and_hello net c ≡ (greeted net json c, ok tt)
unfolding dial_and_hello
dial_and_hello-IsUp net json c up fits known =
    rw (dial_and_hello, known, up.answered c.attempts)
      (rw (write_on-IsUp net c.attempts (greeting c) json (dialled c) up fits) refl)

-- What a client is after it wrote the frame.
delivered : Network → RendezvousMsg → Text → Text → IsanndClient → IsanndClient
delivered net msg json hello c = elim c.conn [
  | some k ↦ written net k msg json c
  | none ↦ written net c.attempts msg json (greeted net hello c)
]

send_on-IsUp :
    (net : Network) (msg : RendezvousMsg) (json hello : Text) (c : IsanndClient)
    → IsUp net
    → encode_frame net.codec msg ≡ ok json
    → encode_frame net.codec (greeting c) ≡ ok hello
    → is_empty c.hello_id ≡ false
    → send_on net msg c ≡ (delivered net msg json hello c, ok tt)
unfolding send_on ensure_conn delivered
send_on-IsUp net msg json hello c up fits fits_hello known = elim (Option-cases c.conn) [
  | inr (k, h) ↦ ground (arith, write_on-IsUp net k msg json c up fits)
  | inl h ↦ ground (
    arith,
    dial_and_hello-IsUp net hello c up fits_hello known,
    write_on-IsUp net c.attempts msg json (greeted net hello c) up fits,
  )
]

claim-own :
    (msg : RendezvousMsg) (c : IsanndClient)
    → c.hello_id ≡ msg.id
    → is_empty c.hello_id ≡ false
    → claim msg c ≡ some c
unfolding claim
claim-own msg c same known = ground (arith, eqt_iff c.hello_id msg.id)

-- The connection that the client has, or will dial.
abbrev pub channel : IsanndClient → ℕ
channel c = elim c.conn [ some k ↦ k | none ↦ c.attempts ]

abbrev pub preamble : IsanndClient → List (ℕ × RendezvousMsg)
preamble c = elim c.conn [ some k ↦ [] | none ↦ (c.attempts, greeting c) ∷ [] ]

-- While isannd answers and takes what is written, a client that has an identity succeeds with each
-- frame of that identity that fits: the frame stands at the end of what was written, on the client's
-- connection, behind a hello alone if the client had to dial. It is so in every state of the client,
-- whether it has been closed or not.
pub write_msg_delivers :
    (net : Network) (msg : RendezvousMsg) (c : IsanndClient)
    → IsUp net
    → Fits net msg
    → Fits net (greeting c)
    → is_empty c.hello_id ≡ false
    → c.hello_id ≡ msg.id
    → ((write_msg net msg c).1 ≡ ok tt)
      × ((write_msg net msg c).0.conn ≡ some (channel c))
      × ((write_msg net msg c).0.wire ≡ c.wire ++ (preamble c ++ ((channel c, msg) ∷ [])))
unfolding write_msg delivered both_writes write_bytes
write_msg_delivers net msg c up (json, fits) (hello, fits_hello) known same =
    let sent = send_on-IsUp net msg json hello c up fits fits_hello known in
    let own = claim-own msg c same known in
    elim (Option-cases c.conn) [
      | inr (k, h) ↦ (ground arith, ground arith, ground arith)
      | inl h ↦ (
        ground arith,
        ground arith,
        ground
            (arith, append_assoc c.wire ((c.attempts, greeting c) ∷ []) ((c.attempts, msg) ∷ [])),
      )
    ]
