-- ===== src/Tests/Data.antt =====
-- Values for the runs: a key whose signatures recover to one address, a server and frames.
use servers.Base.{
  ℕ, true, false, [], ◌∷◌, none, some, Text, codes, replicate, hex_encode, Map, ◌*◌, ◌+◌,
}
use servers.Auth.Crypto.{Crypto}
use servers.Tunnel.Message.{RendezvousMsg}
use servers.Rendezvous.State.{UdpAddr, IssuerPolicy, HolepunchPolicy, ControlConn, Server}
use servers.Rendezvous.Control.{World}

-- The hash is the text itself, and every signature is of one key.
abbrev pub toy : Crypto
toy = record {
  sha256 = λ s. s;
  keccak256 = λ s. s;
  sig_to_address = λ _ _. some (codes "0xa1");
  is_hex_address = λ _. true;
  hex_to_address = λ s. s;
  address_hex = λ s. s;
  marshal_hardware = λ _. none;
  parse_certificate = λ _. none;
  same_fold = λ _ _. false;
}

abbrev pub signature65 : Text
signature65 = replicate 65 0

abbrev pub start_ms : ℕ
start_ms = 1_700_000_000_000

abbrev pub start : ℕ
start = start_ms * 1_000_000

abbrev pub node : Text
node = codes "P:0xa1"

-- A register frame, signed and with a credential.
abbrev pub registered : RendezvousMsg
registered = record {
  kind = codes "register";
  role = codes "provider";
  id = node;
  addr = [];
  local_addr = [];
  cert_hash = [];
  version = codes "1.2";
  bin_hash = [];
  owner_address = codes "0xb2";
  emblem = [];
  auth_mode = codes "public";
  hardware = none;
  services = none;
  full_sync = true;
  ek_cert = [];
  signature = signature65;
  timestamp_ms = start_ms;
  cred_sig = hex_encode signature65;
  cred_issued_ms = start_ms;
  cred_expire_ms = start_ms + 1000;
  event = [];
  service_name = [];
  service_info = none;
  metrics = none;
  metrics_batch = [];
}

abbrev pub issuers : Map IssuerPolicy
issuers = (codes "0xa1", record { bind = codes "any" }) ∷ []

abbrev pub policy : HolepunchPolicy
policy = record {
  pre_punch_count = 0;
  pre_punch_interval_ms = 10;
  pre_dial_wait_ms = 0;
  reply_burst_count = 2;
  reply_burst_interval_ms = 0;
}

abbrev pub protected_server : Server
protected_server = record {
  control_conns = [];
  proxy_purge = 0;
  ping_intervals = [];
  register_intervals = [];
  mode = codes "protected";
  issuers = issuers;
  holepunch = policy;
  proxies = [];
  counts = record { station = 0; control = 0; passenger = 0; public = 0 };
  metrics = [];
}

abbrev pub peer : ControlConn
peer = record {
  conn = 7;
  node_id = node;
  role = codes "provider";
  connected_at = start;
  remote_addr = codes "1.2.3.4:5";
  remote_ip = codes "1.2.3.4";
}

abbrev pub punch_from : UdpAddr
punch_from = record { ip = codes "1.2.3.4"; text = codes "1.2.3.4:9" }

abbrev pub world : World
world = record { server = protected_server; live = [] }
