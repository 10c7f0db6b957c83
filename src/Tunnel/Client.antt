-- ===== src/Tunnel/Client.antt =====
-- pkg/tunnel/isannd_client.go: the client that a backend hands its frames to, over one connection
-- to isannd that it dials anew whenever it is gone. A connection is the number of the attempt that
-- dialled it; dials and writes are numbered together. The network is a parameter: which dials succeed,
-- and how many bytes of a `Write` a socket takes, which by the contract of io.Writer fails when these
-- are not all. The operations and what the reader sees are taken one after the other.
use servers.Base.{
  take, leb, ℕ, ◌+◌, Bool, true, false, not, ◌&&◌, List, [], ◌∷◌, ◌++◌, Option, none, some, Text,
  codes, eqt, is_empty, be32, length, ltb, ◌==◌, if◌then◌else◌, Result, ok, err,
}
use servers.Tunnel.Message.{RendezvousMsg, ServiceMetrics}
use servers.Signal.Proto.{Codec, FrameError, no_json, frame_too_large, max_frame_size}
pub mod Identity
mod Sending
mod Streamed
mod Writing
mod Rule
pub mod Faithful
pub mod Wanted
pub mod Delivery
pub mod Received
pub mod Stream

pub data ClientError : Type 0 where
  client_closed other_identity identity_unset dial_failed hello_failed : ClientError
  no_conn write_failed nil_message no_type : ClientError

pub record Network : Type 0 where
  pub answers : ℕ → Bool
  pub takes : ℕ → Text → ℕ
  pub codec : Codec

-- `sent` holds the bytes that a socket took, a `Write` each, and `wire` the frames that were written as
-- a whole, oldest first and each with its connection.
pub record IsanndClient : Type 0 where
  pub hello_id : Text
  pub hello_role : Text
  pub conn : Option ℕ
  pub closed : Bool
  pub need_register : Bool
  pub attempts : ℕ
  pub sent : List (ℕ × Text)
  pub wire : List (ℕ × RendezvousMsg)

pub record HeartbeatPing : Type 0 where
  pub node_id : Text
  pub role : Text
  pub timestamp_ms : ℕ
  pub signature : Text

pub record MetricsEvent : Type 0 where
  pub node_id : Text
  pub role : Text
  pub service : ServiceMetrics

abbrev pub new_client : IsanndClient
new_client = record {
  hello_id = [];
  hello_role = [];
  conn = none;
  closed = false;
  need_register = false;
  attempts = 0;
  sent = [];
  wire = [];
}

abbrev pub Outcome : Type 0
Outcome = IsanndClient × Result ClientError (Unit {0})

-- A message of that type, id and role, its other fields empty.
unfoldable pub bare_msg : Text → Text → Text → RendezvousMsg
bare_msg kind id role = record {
  kind = kind;
  role = role;
  id = id;
  addr = [];
  local_addr = [];
  cert_hash = [];
  version = [];
  bin_hash = [];
  owner_address = [];
  emblem = [];
  auth_mode = [];
  hardware = none;
  services = none;
  full_sync = false;
  ek_cert = [];
  signature = [];
  timestamp_ms = 0;
  cred_sig = [];
  cred_issued_ms = 0;
  cred_expire_ms = 0;
  event = [];
  service_name = [];
  service_info = none;
  metrics = none;
  metrics_batch = [];
}

-- The body of a frame.
unfoldable pub encode_frame : Codec → RendezvousMsg → Result FrameError Text
encode_frame k msg = elim (k.marshal msg) [
  | none ↦ err no_json
  | some json ↦ if ltb max_frame_size (length json) then err frame_too_large else ok json
]

-- `w.Write`: the bytes that the socket takes, and whether these are all.
unfoldable pub write_bytes : Network → ℕ → Text → IsanndClient → IsanndClient × Bool
write_bytes net k bytes c =
    let n = net.takes c.attempts bytes in
    (
      record c { attempts = c.attempts + 1; sent = c.sent ++ ((k, take n bytes) ∷ []) },
      leb (length bytes) n,
    )

-- `writeFrameTo`: the length and then the body, and whether both went out as a whole.
unfoldable pub write_on : Network → ℕ → RendezvousMsg → IsanndClient → IsanndClient × Bool
write_on net k msg c = elim (encode_frame net.codec msg) [
  | err e ↦ (c, false)
  | ok json ↦
      let (d, headed) = write_bytes net k (be32 (length json)) c in
      if not headed
      then (d, false)
      else let (e, ended) = write_bytes net k json d in
        if ended then (record e { wire = e.wire ++ ((k, msg) ∷ []) }, true) else (e, false)
]

unfoldable pub dial_and_hello : Network → IsanndClient → Outcome
dial_and_hello net c =
    let idle = record c { conn = none } in
    if is_empty c.hello_id
    then (idle, err identity_unset)
    else let dialled = record idle { attempts = c.attempts + 1 } in
      if not (net.answers c.attempts)
      then (dialled, err dial_failed)
      else let (greeted, sent) =
          write_on net c.attempts (bare_msg (codes "hello") c.hello_id c.hello_role) dialled in
        if sent
        then (record greeted { conn = some c.attempts }, ok tt)
        else (greeted, err hello_failed)

unfoldable pub mark_conn_dead : ℕ → IsanndClient → IsanndClient
mark_conn_dead dead c = elim c.conn [
  | none ↦ c
  | some k ↦ if k == dead then record c { conn = none } else c
]

unfoldable pub ensure_conn : Network → IsanndClient → IsanndClient × Result ClientError ℕ
ensure_conn net c = elim c.conn [
  | some k ↦ (c, ok k)
  | none ↦
      let (d, dialled) = dial_and_hello net c in
      elim dialled [
        | err e ↦ (d, err e)
        | ok _ ↦ elim d.conn [ none ↦ (d, err no_conn) | some k ↦ (d, ok k) ]
      ]
]

-- The identity is that of the first frame that has an id.
unfoldable pub claim : RendezvousMsg → IsanndClient → Option IsanndClient
claim msg c =
    if is_empty c.hello_id && not (is_empty msg.id)
    then some (record c { hello_id = msg.id; hello_role = msg.role })
    else if not (is_empty msg.id) && not (eqt c.hello_id msg.id)
    then none
    else some c

-- `writeFrame`, where the identity is settled.
unfoldable pub send_on : Network → RendezvousMsg → IsanndClient → Outcome
send_on net msg c =
    let (d, got) = ensure_conn net c in
    elim got [
      | err e ↦ (d, err e)
      | ok k ↦
          let (e, sent) = write_on net k msg d in
          if sent then (e, ok tt) else (mark_conn_dead k e, err write_failed)
    ]

unfoldable pub write_msg : Network → RendezvousMsg → IsanndClient → Outcome
write_msg net msg c = elim (claim msg c) [
  | none ↦ (c, err other_identity)
  | some d ↦ send_on net msg d
]

unfoldable pub connect : Network → Text → Text → IsanndClient → Outcome
connect net node_id role c =
    if c.closed
    then (c, err client_closed)
    else if not (is_empty c.hello_id) && not (eqt c.hello_id node_id)
    then (c, err other_identity)
    else let named = record c { hello_id = node_id; hello_role = role } in
      elim c.conn [ some k ↦ (named, ok tt) | none ↦ dial_and_hello net named ]

unfoldable pub send_register : Network → Option RendezvousMsg → IsanndClient → Outcome
send_register net none c = (c, err nil_message)
send_register net (some msg) c =
    write_msg net (if is_empty msg.kind then record msg { kind = codes "register" } else msg) c

unfoldable pub ping_frame : HeartbeatPing → RendezvousMsg
ping_frame ping = record (bare_msg (codes "ping") ping.node_id ping.role) {
  timestamp_ms = ping.timestamp_ms;
  signature = ping.signature;
}

unfoldable pub send_heartbeat :
    Network → Option HeartbeatPing → IsanndClient → IsanndClient × Result ClientError Bool
send_heartbeat net none c = (c, err nil_message)
send_heartbeat net (some ping) c =
    let (d, sent) = write_msg net (ping_frame ping) c in
    elim sent [
      | err e ↦ (d, err e)
      | ok _ ↦ (record d { need_register = false }, ok d.need_register)
    ]

unfoldable pub send_metrics : Network → Option MetricsEvent → IsanndClient → Outcome
send_metrics net none c = (c, err nil_message)
send_metrics net (some evt) c =
    write_msg net
      (record (bare_msg (codes "service_event") evt.node_id evt.role) {
        metrics = some evt.service;
      })
      c

unfoldable pub send_metrics_batch :
    Network → Text → Text → List ServiceMetrics → IsanndClient → Outcome
send_metrics_batch net node_id role batch c =
    write_msg net (record (bare_msg (codes "service_event") node_id role) { metrics_batch = batch })
      c

unfoldable pub send_frame : Network → Option RendezvousMsg → IsanndClient → Outcome
send_frame net none c = (c, err nil_message)
send_frame net (some msg) c = if is_empty msg.kind then (c, err no_type) else write_msg net msg c

unfoldable pub close : IsanndClient → IsanndClient
close c = if c.closed then c else record c { closed = true; conn = none }

-- A frame that the reader of a connection has read; the callbacks are the caller's.
unfoldable pub receive : RendezvousMsg → IsanndClient → IsanndClient
receive msg c =
    if eqt msg.kind (codes "need_register") then record c { need_register = true } else c

-- What happens to a client: its operations, and its readers, a frame or the end of a connection.
pub data Action : Type 0 where
  connected : Text → Text → Action
  registered : Option RendezvousMsg → Action
  beat : Option HeartbeatPing → Action
  measured : Option MetricsEvent → Action
  batched : Text → Text → List ServiceMetrics → Action
  framed : Option RendezvousMsg → Action
  closing : Action
  received : RendezvousMsg → Action
  dropped : ℕ → Action

unfoldable pub act : Network → IsanndClient → Action → IsanndClient
act net c (connected id role) = (connect net id role c).0
act net c (registered msg) = (send_register net msg c).0
act net c (beat ping) = (send_heartbeat net ping c).0
act net c (measured evt) = (send_metrics net evt c).0
act net c (batched id role batch) = (send_metrics_batch net id role batch c).0
act net c (framed msg) = (send_frame net msg c).0
act net c closing = close c
act net c (received msg) = receive msg c
act net c (dropped k) = mark_conn_dead k c

unfoldable pub act_all : Network → IsanndClient → List Action → IsanndClient
act_all net c [] = c
act_all net c (a ∷ more) = act_all net (act net c a) more
