-- ===== src/Rendezvous/Metrics.antt =====
-- pkg/rendezvous/server.go: handleMetrics, the live rows of nodes and services.
pub mod Listed
use servers.Base.{
  ℕ, ◌-◌, ◌*◌, Bool, true, false, not, ◌&&◌, ◌||◌, List, [], ◌∷◌, ◌++◌, Option, none, some, is_some,
  Text, Map, codes, eqt, is_empty, to_lower, one_of, split_byte, lookup, any, ltb, ◌==◌,
  if◌then◌else◌,
}
use servers.Recipe.Header.{Float64}
use servers.Rendezvous.State.{ProxyInfo, NodeMetric, Server, second, unix_milli}
use servers.Rendezvous.Cadence.{ConnStatus, compute_conn_status}
use servers.Rendezvous.Registry.Upkeep.{heartbeat_status}
use servers.Rendezvous.Directory.{get, asked_ids, has_gpu_name, max_gpu_vram}

-- A missing `updated_at` is the zero time's. The average is a float32, held by its bits.
pub record Row : Type 0 where
  pub node_id : Text
  pub service : Text
  pub status : Text
  pub queue_depth : ℕ
  pub running_count : ℕ
  pub total_jobs_done : ℕ
  pub avg_job_sec : ℕ
  pub last_job_ms : ℕ
  pub running_job_id : Text
  pub updated_at : Option ℕ
  pub conn_status : ConnStatus
  pub online : Bool

pub record Liveness : Type 0 where
  pub last_seen : ℕ
  pub role : Text

abbrev pub liveness : ProxyInfo → Liveness
liveness p = record { last_seen = p.last_seen; role = p.role }

-- `live[id]`
abbrev live_at : Map Liveness → Text → Liveness
live_at live id = elim (lookup id live) [ none ↦ record { last_seen = 0; role = [] } | some l ↦ l ]

unfoldable pub live_all : Map ProxyInfo → Map Liveness
live_all [] = []
live_all ((id, p) ∷ ps) = (id, liveness p) ∷ live_all ps

unfoldable pub live_of : Map ProxyInfo → List Text → Map Liveness
live_of ps [] = []
live_of ps (id ∷ ids) = elim (lookup id ps) [
  | none ↦ live_of ps ids
  | some p ↦ (id, liveness p) ∷ live_of ps ids
]

abbrev is_online : ℕ → Liveness → Bool
is_online now l = not (l.last_seen == 0) && ltb (now - l.last_seen) (60 * second)

abbrev updated : Liveness → Option ℕ
updated l = if l.last_seen == 0 then none else some (unix_milli l.last_seen)

unfoldable pub metric_row : Server → ℕ → Liveness → NodeMetric → Row
unfolding heartbeat_status compute_conn_status
metric_row s now l m = record {
  node_id = m.node_id;
  service = m.service_name;
  status = heartbeat_status m.status;
  queue_depth = m.queue_depth;
  running_count = m.running_count;
  total_jobs_done = m.total_jobs_done;
  avg_job_sec = m.avg_job_sec;
  last_job_ms = m.last_job_ms;
  running_job_id = m.running_job_id;
  updated_at = updated l;
  conn_status = compute_conn_status s l.role l.last_seen now;
  online = is_online now l;
}

-- The row of a node that has no metric.
unfoldable pub bare_row : Server → ℕ → Text → Liveness → Row
unfolding compute_conn_status
bare_row s now id l = record {
  node_id = id;
  service = [];
  status = [];
  queue_depth = 0;
  running_count = 0;
  total_jobs_done = 0;
  avg_job_sec = 0;
  last_job_ms = 0;
  running_job_id = [];
  updated_at = updated l;
  conn_status = compute_conn_status s l.role l.last_seen now;
  online = is_online now l;
}

module _ (fl : Float64) where
  pub record MetricQuery : Type 0 where
    pub ids : Option (List Text)
    pub service : Text
    pub model : Text
    pub gpu : Text
    pub status : Text
    pub min_vram : fl.F

  unfoldable pub metric_query : Map Text → MetricQuery
  unfolding asked_ids
  metric_query q =
      let raw = get fl q (codes "node_id") in
      let service = get fl q (codes "service") in
      record {
        ids = if is_empty raw then none else some (asked_ids (split_byte b',' raw));
        service = if is_empty service then get fl q (codes "src") else service;
        model = get fl q (codes "model");
        gpu = to_lower (get fl q (codes "gpu"));
        status = to_lower (get fl q (codes "status"));
        min_vram = elim (fl.parse (get fl q (codes "min_vram"))) [ none ↦ fl.zero | some x ↦ x ];
      }

  -- A filter on what a node registered with is in force.
  unfoldable pub needs_static : MetricQuery → Bool
  needs_static f = not (is_empty f.model) || (not (is_empty f.gpu) || fl.above_zero f.min_vram)

  unfoldable pub serves_model : MetricQuery → ProxyInfo → Bool
  serves_model f p =
      any (λ svc. eqt svc.model f.model && (is_empty f.service || eqt svc.name f.service))
        p.services

  unfoldable pub is_allowed : MetricQuery → ProxyInfo → Bool
  unfolding has_gpu_name max_gpu_vram serves_model
  is_allowed f p =
      (is_empty p.role || one_of p.role (codes "provider" ∷ codes "station" ∷ []))
      && ((is_empty f.gpu || has_gpu_name p.hardware f.gpu)
          && ((not (fl.above_zero f.min_vram)
                || not (fl.below (max_gpu_vram p.hardware) f.min_vram))
              && (is_empty f.model || serves_model f p)))

  abbrev allowed_id : Server → MetricQuery → Text → Bool
  allowed_id s f id = elim (lookup id s.proxies) [ none ↦ false | some p ↦ is_allowed f p ]

  -- The nodes that the answer may be about.
  unfoldable pub admits : Server → MetricQuery → Text → Bool
  unfolding needs_static is_allowed
  admits s f id = elim f.ids [
    | some ids ↦ one_of id ids
    | none ↦ not (needs_static f) || allowed_id s f id
  ]

  -- The filters on the metric itself, which do not apply where ids are asked for.
  unfoldable pub admits_metric : MetricQuery → NodeMetric → Bool
  unfolding heartbeat_status
  admits_metric f m =
      is_some f.ids
      || ((is_empty f.service || eqt m.service_name f.service)
          && (is_empty f.status || eqt (heartbeat_status m.status) f.status))

  unfoldable pub metric_rows : Server → MetricQuery → ℕ → Map Liveness → Map NodeMetric → List Row
  unfolding admits admits_metric metric_row
  metric_rows s f now live [] = []
  metric_rows s f now live ((k, m) ∷ ms) =
      if admits s f m.node_id && admits_metric f m
      then metric_row s now (live_at live m.node_id) m ∷ metric_rows s f now live ms
      else metric_rows s f now live ms

  abbrev pub has_row : List Row → Text → Bool
  has_row rows id = any (λ r. eqt r.node_id id) rows

  unfoldable pub bare_rows : Server → MetricQuery → ℕ → List Row → Map Liveness → List Row
  unfolding admits bare_row
  bare_rows s f now rows [] = []
  bare_rows s f now rows ((id, l) ∷ live) =
      if not (has_row rows id) && admits s f id
      then bare_row s now id l ∷ bare_rows s f now rows live
      else bare_rows s f now rows live

  -- The nodes that are looked at: those asked for, or all.
  unfoldable pub watched : Server → MetricQuery → Map Liveness
  unfolding live_all live_of
  watched s f = elim f.ids [ none ↦ live_all s.proxies | some ids ↦ live_of s.proxies ids ]

  unfoldable pub handle_metrics : Server → MetricQuery → ℕ → List Row
  unfolding watched metric_rows bare_rows
  handle_metrics s f now =
      let rows = metric_rows s f now (watched s f) s.metrics in
      if is_empty f.service && is_empty f.status
      then rows ++ bare_rows s f now rows (watched s f)
      else rows
