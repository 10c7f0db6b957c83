-- ===== src/Tunnel/Message.antt =====
-- pkg/tunnel/rendezvous.go and metrics.go: the frames of the control connection, the fields that
-- the server reads. Of a JSON number only `int(v)`, an int64 word, is read, and of a member of an
-- array or object only the text that it may be.
use servers.Base.{ℕ, Bool, List, Option, Text, Map}
use servers.Setup.{HardwareSpec, ServiceInfo}

pub data Value : Type 0 where
  null : Value
  bool : Bool → Value
  number : ℕ → Value
  text : Text → Value
  array : List (Option Text) → Value
  object : Map (Option Text) → Value

-- The average is a float32, held by its bits.
pub record ServiceMetrics : Type 0 where
  pub service : Text
  pub status : Text
  pub queue_depth : ℕ
  pub running_count : ℕ
  pub total_jobs_done : ℕ
  pub avg_job_sec : ℕ
  pub last_job_ms : ℕ
  pub running_job_id : Text
  pub timestamp_ms : ℕ

pub record RendezvousMsg : Type 0 where
  pub kind : Text
  pub role : Text
  pub id : Text
  pub addr : Text
  pub local_addr : Text
  pub cert_hash : Text
  pub version : Text
  pub bin_hash : Text
  pub owner_address : Text
  pub emblem : Text
  pub auth_mode : Text
  pub hardware : Option HardwareSpec
  pub services : Option (List ServiceInfo)
  pub full_sync : Bool
  pub ek_cert : Text
  pub signature : Text
  pub timestamp_ms : ℕ
  pub cred_sig : Text
  pub cred_issued_ms : ℕ
  pub cred_expire_ms : ℕ
  pub event : Text
  pub service_name : Text
  pub service_info : Option (Map Value)
  pub metrics : Option ServiceMetrics
  pub metrics_batch : List ServiceMetrics
