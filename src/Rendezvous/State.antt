-- ===== src/Rendezvous/State.antt =====
-- pkg/rendezvous/server.go: the registry entry, the server's state and its cadence settings.
-- A time is a count of nanoseconds since the Unix epoch, and 0 is Go's zero time. A `net.IP` is
-- its sixteen bytes (IPv4 mapped), which `Equal` compares, and empty if unset. A counter is a Go `int`, a 64-bit word.
use servers.Base.{ℕ, ◌/◌, Bool, List, Option, Text, Map}
use servers.Setup.{HardwareSpec, ServiceInfo}

pub record UdpAddr : Type 0 where
  pub ip : Text
  pub text : Text

pub record ProxyInfo : Type 0 where
  pub id : Text
  pub role : Text
  pub addr : Text
  pub local_addr : Text
  pub cert_hash : Text
  pub version : Text
  pub bin_hash : Text
  pub owner_address : Text
  pub emblem : Text
  pub udp_addr : Option UdpAddr
  pub last_seen : ℕ
  pub registered_at : ℕ
  pub addr_manual : Bool
  pub control_ip : Text
  pub auth_mode : Text
  pub hardware : Option HardwareSpec
  pub services : List ServiceInfo
  pub tpm_verified : Bool
  pub ek_cert_issuer : Text

-- The average is a float32, held by its bits.
pub record NodeMetric : Type 0 where
  pub node_id : Text
  pub service_name : Text
  pub status : ℕ
  pub queue_depth : ℕ
  pub total_jobs_done : ℕ
  pub avg_job_sec : ℕ
  pub last_job_ms : ℕ
  pub running_job_id : Text
  pub running_count : ℕ

-- `IssuerPolicy{Bind}`: "node", "none" or "any".
pub record IssuerPolicy : Type 0 where
  pub bind : Text

pub record HolepunchPolicy : Type 0 where
  pub pre_punch_count : ℕ
  pub pre_punch_interval_ms : ℕ
  pub pre_dial_wait_ms : ℕ
  pub reply_burst_count : ℕ
  pub reply_burst_interval_ms : ℕ

-- `conn` is the identity of the TCP connection, which pointers compare by.
pub record ControlConn : Type 0 where
  pub conn : ℕ
  pub node_id : Text
  pub role : Text
  pub connected_at : ℕ
  pub remote_addr : Text
  pub remote_ip : Text

pub record Counts : Type 0 where
  pub station : ℕ
  pub control : ℕ
  pub passenger : ℕ
  pub public : ℕ

pub record Server : Type 0 where
  pub control_conns : Map ControlConn
  pub proxy_purge : ℕ
  pub ping_intervals : Map ℕ
  pub register_intervals : Map ℕ
  pub mode : Text
  pub issuers : Map IssuerPolicy
  pub holepunch : HolepunchPolicy
  pub proxies : Map ProxyInfo
  pub counts : Counts
  pub metrics : Map NodeMetric

abbrev pub second : ℕ
second = 1_000_000_000

abbrev pub unix_milli : ℕ → ℕ
unix_milli t = t / 1_000_000
