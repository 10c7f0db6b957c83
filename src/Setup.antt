-- ===== src/Setup.antt =====
-- pkg/setup/detect.go: the hardware and service descriptions that nodes register. A float64 of
-- gigabytes is held in tenths, the precision at which the detector rounds, and one of megahertz as a
-- whole number. A nil slice and an empty one are the same list: their JSON leaves both out.
use servers.Base.{ℕ, Bool, false, List, [], Option, none, Text, Map}
pub mod Archive
pub mod Hardware

pub record CpuSpec : Type 0 where
  pub name : Text
  pub cores : ℕ
  pub clock_mhz : ℕ
  pub temp_c : ℕ

pub record GpuSpec : Type 0 where
  pub name : Text
  pub driver : Text
  pub vram_total : ℕ
  pub temp_c : ℕ
  pub util_pct : ℕ
  pub vram_free : ℕ

pub record RamSpec : Type 0 where
  pub total : ℕ
  pub free : ℕ

pub record HardwareSpec : Type 0 where
  pub cpus : List CpuSpec
  pub gpus : List GpuSpec
  pub ram : Option RamSpec

pub record ServiceInfo : Type 0 where
  pub name : Text
  pub kind : Text
  pub engine : Text
  pub launcher : Text
  pub version : Text
  pub bin_hash : Text
  pub model : Text
  pub model_hash : Text
  pub model_origin_url : Text
  pub server_ready : Bool
  pub server_loading : Bool
  pub child_pid : ℕ
  pub child_name : Text
  pub queue_depth : ℕ
  pub progress : ℕ
  pub estimated_wait_sec : Option ℕ
  pub last_job_at : ℕ
  pub total_jobs_done : ℕ
  pub avg_job_sec : Option ℕ
  pub max_queue : ℕ
  pub concurrency : ℕ
  pub queue_disabled : Bool
  pub inspect : Option (Map Text)
  pub inspect_labels : Option (Map Text)
  pub inspect_order : Option (List Text)

-- `setup.ServiceInfo{Name: name}`
unfoldable pub new_service : Text → ServiceInfo
new_service name = record {
  name = name;
  kind = [];
  engine = [];
  launcher = [];
  version = [];
  bin_hash = [];
  model = [];
  model_hash = [];
  model_origin_url = [];
  server_ready = false;
  server_loading = false;
  child_pid = 0;
  child_name = [];
  queue_depth = 0;
  progress = 0;
  estimated_wait_sec = none;
  last_job_at = 0;
  total_jobs_done = 0;
  avg_job_sec = none;
  max_queue = 0;
  concurrency = 0;
  queue_disabled = false;
  inspect = none;
  inspect_labels = none;
  inspect_order = none;
}
