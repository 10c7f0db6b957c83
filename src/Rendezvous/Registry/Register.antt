-- ===== src/Rendezvous/Registry/Register.antt =====
-- pkg/rendezvous/control_tcp.go: register, ping and connect frames.
use servers.Base.{
  ℕ, true, false, not, ◌&&◌, ◌||◌, List, [], ◌∷◌, ◌++◌, Option, none, some, Text, codes, eqt,
  is_empty, lookup, insert, if◌then◌else◌, ok, err, two64, ◌-◌,
}
use servers.Auth.Crypto.{Crypto}
use servers.Tunnel.Message.{RendezvousMsg}
use servers.Rendezvous.State.{ProxyInfo, Server, ControlConn, HolepunchPolicy}
use servers.Rendezvous.Counters.{count_delta}
use servers.Rendezvous.Identity.{node_key}
use servers.Rendezvous.Signature.{
  hash_hardware_for_verify, verify_register_signature, verify_ping_signature,
}
use servers.Rendezvous.Admission.{mode_protected, admit_register, AdmitError}

-- The frames that the server sends. A register's ack carries the two intervals in seconds and the
-- hole-punch policy.
pub data Frame : Type 0 where
  hello_ack : Frame
  register_ack : ℕ → ℕ → HolepunchPolicy → Frame
  error : Text → Text → Frame
  admission_denied : Text → AdmitError → Frame
  need_register : Text → Frame
  punch : Text → Text → Frame
  proxy_info : Text → Text → List Text → Frame

-- A frame on its way to the connection with that identity. Whether the write succeeds, nobody asks.
pub record Sent : Type 0 where
  pub conn : ℕ
  pub frame : Frame

abbrev pub reply : ControlConn → Frame → List Sent
reply cc f = record { conn = cc.conn; frame = f } ∷ []

-- `&ProxyInfo{RegisteredAt: now}`
unfoldable pub new_proxy : ℕ → ProxyInfo
new_proxy now = record {
  id = [];
  role = [];
  addr = [];
  local_addr = [];
  cert_hash = [];
  version = [];
  bin_hash = [];
  owner_address = [];
  emblem = [];
  udp_addr = none;
  last_seen = 0;
  registered_at = now;
  addr_manual = false;
  control_ip = [];
  auth_mode = [];
  hardware = none;
  services = [];
  tpm_verified = false;
  ek_cert_issuer = [];
}

-- `if new != "" { old = new }`
abbrev pub override : Text → Text → Text
override old new = if is_empty new then old else new

abbrev pub override_some {ℓ} : {A : Type ℓ} → A → Option A → A
override_some old none = old
override_some old (some new) = new

abbrev pub override_option {ℓ} : {A : Type ℓ} → Option A → Option A → Option A
override_option old none = old
override_option old (some new) = some new

-- The common name of a certificate that was sent and parses.
ek_issuer : Crypto → Text → Option Text
ek_issuer c cert = if is_empty cert then none else c.parse_certificate cert

-- The entry with the frame merged into it.
unfoldable pub merge_register : Crypto → ControlConn → RendezvousMsg → ℕ → ProxyInfo → ProxyInfo
unfolding ek_issuer
merge_register c cc msg now p = record {
  id = node_key msg.id;
  role = msg.role;
  addr =
      if not (is_empty msg.addr)
      then msg.addr
      else if is_empty p.addr
      then cc.remote_addr
      else p.addr;
  local_addr = override p.local_addr msg.local_addr;
  cert_hash = override p.cert_hash msg.cert_hash;
  version = override p.version msg.version;
  bin_hash = override p.bin_hash msg.bin_hash;
  owner_address = override p.owner_address msg.owner_address;
  emblem = override p.emblem msg.emblem;
  udp_addr = p.udp_addr;
  last_seen = now;
  registered_at = p.registered_at;
  addr_manual = not (is_empty msg.addr) || p.addr_manual;
  control_ip = cc.remote_ip;
  auth_mode = override p.auth_mode msg.auth_mode;
  hardware = override_option p.hardware msg.hardware;
  services = override_some p.services msg.services;
  tpm_verified = elim (ek_issuer c msg.ek_cert) [ none ↦ p.tpm_verified | some _ ↦ true ];
  ek_cert_issuer = override_some p.ek_cert_issuer (ek_issuer c msg.ek_cert);
}

-- The part behind the checks: the entry is stored and the counters follow it.
unfoldable pub store_register : Crypto → Server → ControlConn → RendezvousMsg → ℕ → Server
unfolding merge_register new_proxy
store_register c s cc msg now =
    let key = node_key msg.id in
    elim (lookup key s.proxies) [
      | none ↦
          let p : ProxyInfo = merge_register c cc msg now (new_proxy now) in
          record s {
            proxies = insert key p s.proxies;
            counts = count_delta p.role p.auth_mode 1 s.counts;
          }
      | some old ↦
          let p : ProxyInfo = merge_register c cc msg now old in
          record s {
            proxies = insert key p s.proxies;
            counts =
                count_delta p.role p.auth_mode 1
                  (count_delta old.role old.auth_mode (two64 - 1) s.counts);
          }
    ]

-- The checks of a full register; a delta has none.
unfoldable pub check_register : Crypto → Server → RendezvousMsg → ℕ → Option Frame
check_register c s msg now =
    let admission : Option Frame = elim (admit_register c s.issuers msg now) [
      | ok _ ↦ none
      | err e ↦ some (admission_denied msg.id e)
    ] in
    let signed : Option Frame =
      elim (verify_register_signature c msg (hash_hardware_for_verify c msg.hardware) now) [
        | err _ ↦ some (error msg.id (codes "register signature invalid"))
        | ok _ ↦ if mode_protected s then admission else none
      ] in
    if msg.full_sync then signed else none

unfoldable pub apply_register :
    Crypto → Server → ControlConn → RendezvousMsg → ℕ → Server × List Sent
unfolding check_register store_register
apply_register c s cc msg now =
    if not (eqt msg.id cc.node_id)
    then (s, reply cc (error msg.id (codes "register id mismatch")))
    else elim (check_register c s msg now) [
      | some refusal ↦ (s, reply cc refusal)
      | none ↦ (store_register c s cc msg now, [])
    ]

unfoldable pub apply_ping : Crypto → Server → ControlConn → RendezvousMsg → ℕ → Server × List Sent
apply_ping c s cc msg now =
    if is_empty msg.id then (s, []) else elim (verify_ping_signature c msg now) [
      | err _ ↦ (s, [])
      | ok _ ↦ elim (lookup (node_key msg.id) s.proxies) [
        | none ↦ (s, reply cc (need_register msg.id))
        | some p ↦ (
          record s { proxies = insert (node_key msg.id) (record p { last_seen = now }) s.proxies },
          [],
        )
      ]
    ]

-- `PushToNode`: nothing is sent if the node is not connected.
unfoldable pub push_to_node : Server → Text → Frame → List Sent
push_to_node s id f = elim (lookup (node_key id) s.control_conns) [
  | none ↦ []
  | some cc ↦ record { conn = cc.conn; frame = f } ∷ []
]

-- Where the target should punch: the requester's registered address, or its connection's.
unfoldable pub requester_addr : Server → ControlConn → Text
requester_addr s cc = elim (lookup (node_key cc.node_id) s.proxies) [
  | none ↦ cc.remote_addr
  | some r ↦ if is_empty r.addr then cc.remote_addr else r.addr
]

unfoldable pub candidates : ProxyInfo → List Text
candidates p =
    (if not (is_empty p.local_addr) && not (eqt p.local_addr p.addr) then p.local_addr ∷ [] else [])
    ++ (if is_empty p.addr then [] else p.addr ∷ [])

unfoldable pub handle_connect : Server → ControlConn → RendezvousMsg → List Sent
unfolding push_to_node requester_addr candidates
handle_connect s cc msg =
    if is_empty msg.id
    then reply cc (error [] (codes "connect: missing target id"))
    else elim (lookup (node_key msg.id) s.proxies) [
      | none ↦ reply cc (error msg.id (codes "target not found: " ++ msg.id))
      | some target ↦
          let from = requester_addr s cc in
          let pushed : List Sent =
            if is_empty from then [] else push_to_node s msg.id (punch cc.node_id from) in
          pushed ++ reply cc (proxy_info msg.id target.addr (candidates target))
    ]
