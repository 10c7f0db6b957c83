-- ===== src/Rendezvous/Registry/Services.antt =====
-- pkg/rendezvous/control_tcp.go and lifecycle.go: service events, which change the services of one
-- entry and the metric cache.
use servers.Base.{
  Bool, leb, two63, ◌^◌, ◌%◌, ◌-◌, ◌*◌, ◌+◌, ℕ, ◌/◌, true, false, not, ◌&&◌, ◌||◌, List, [], ◌∷◌,
  ◌++◌, Option, none, some, Text, Map, codes, eqt, is_empty, one_of, lookup, insert, if◌then◌else◌,
  ◌==◌, ltb, is_neg,
}
use servers.Setup.{ServiceInfo, new_service}
use servers.Tunnel.Message.{RendezvousMsg, ServiceMetrics, Value}
use servers.Rendezvous.State.{ProxyInfo, Server, NodeMetric}
use servers.Rendezvous.Identity.{node_key}

-- The first service of that name, changed; the others as they were.
unfoldable pub patch_first :
    Text → (ServiceInfo → ServiceInfo) → List ServiceInfo → List ServiceInfo
patch_first name f [] = []
patch_first name f (s ∷ ss) = if eqt s.name name then f s ∷ ss else s ∷ patch_first name f ss

unfoldable pub find_service : Text → List ServiceInfo → Option ServiceInfo
find_service name [] = none
find_service name (s ∷ ss) = if eqt s.name name then some s else find_service name ss

unfoldable pub drop_first : Text → List ServiceInfo → List ServiceInfo
drop_first name [] = []
drop_first name (s ∷ ss) = if eqt s.name name then ss else s ∷ drop_first name ss

unfoldable pub status_string_to_code : Text → ℕ
status_string_to_code s =
    if eqt s (codes "idle")
    then 1
    else if eqt s (codes "busy")
    then 2
    else if eqt s (codes "loading")
    then 3
    else if eqt s (codes "stopped")
    then 4
    else 0

ready_flags : Text → ServiceInfo → ServiceInfo
ready_flags status s =
    if one_of status (codes "idle" ∷ codes "busy" ∷ [])
    then record s { server_ready = true; server_loading = false }
    else if eqt status (codes "loading")
    then record s { server_ready = false; server_loading = true }
    else if eqt status (codes "stopped")
    then record s { server_ready = false; server_loading = false }
    else s

-- `v > 0` on a float32, by its bits: the positive numbers and the positive infinity.
unfoldable pub is_positive32 : ℕ → Bool
is_positive32 v = ltb 0 v && leb v 0x7F800000

-- `int(v)` on a positive float32: its whole part; beyond int64 what amd64 makes of it.
unfoldable pub int_of_float32 : ℕ → ℕ
int_of_float32 v =
    let exponent = v / 0x800000 in
    let significand = v % 0x800000 + 0x800000 in
    if ltb exponent 127
    then 0
    else if leb exponent 150
    then significand / 2 ^ (150 - exponent)
    else if ltb exponent 190
    then significand * 2 ^ (exponent - 150)
    else two63

-- The metric-like fields of a service. Times are int64 milliseconds.
pub patch_metrics : ServiceMetrics → ServiceInfo → ServiceInfo
unfolding ready_flags is_positive32 int_of_float32
patch_metrics m s =
    let counted : ServiceInfo = record s {
      queue_depth = m.queue_depth;
      total_jobs_done = m.total_jobs_done;
    } in
    let flagged : ServiceInfo = ready_flags m.status counted in
    let timed : ServiceInfo =
      (if is_positive32 m.avg_job_sec
        then record flagged { avg_job_sec = some (int_of_float32 m.avg_job_sec) }
        else flagged) in
    if not (m.last_job_ms == 0 || is_neg m.last_job_ms)
    then record timed { last_job_at = m.last_job_ms / 1000 }
    else timed

pub node_metric : Text → ServiceMetrics → NodeMetric
node_metric id m = record {
  node_id = id;
  service_name = m.service;
  status = status_string_to_code m.status;
  queue_depth = m.queue_depth;
  total_jobs_done = m.total_jobs_done;
  avg_job_sec = m.avg_job_sec;
  last_job_ms = m.last_job_ms;
  running_job_id = m.running_job_id;
  running_count = m.running_count;
}

-- The cache key is the node's id as it was said, not its `node_key`.
unfoldable pub apply_service_metric : Server → Text → ServiceMetrics → ℕ → Server
unfolding patch_first patch_metrics node_metric
apply_service_metric s id m now =
    if is_empty m.service then s else elim (lookup (node_key id) s.proxies) [
      | none ↦ s
      | some p ↦
          let patched : ProxyInfo = record p {
            last_seen = now;
            services = patch_first m.service (patch_metrics m) p.services;
          } in
          record s {
            proxies = insert (node_key id) patched s.proxies;
            metrics = insert id (node_metric id m) s.metrics;
          }
    ]

-- `info[k].(string)`
text_at : Map Value → Text → Option Text
text_at info k = elim (lookup k info) [ some (Value.text t) ↦ some t | _ ↦ none ]

or_keep : Text → Option Text → Text
or_keep old none = old
or_keep old (some t) = t

or_keep_filled : Text → Option Text → Text
or_keep_filled old none = old
or_keep_filled old (some t) = if is_empty t then old else t

-- The members that are texts and not empty; none at all reads as nothing said.
filled_texts : Map (Option Text) → Map Text
filled_texts [] = []
filled_texts ((k, none) ∷ m) = filled_texts m
filled_texts ((k, some t) ∷ m) = if is_empty t then filled_texts m else (k, t) ∷ filled_texts m

filled_items : List (Option Text) → List Text
filled_items [] = []
filled_items (none ∷ ts) = filled_items ts
filled_items (some t ∷ ts) = if is_empty t then filled_items ts else t ∷ filled_items ts

unless_empty {ℓ} : {A : Type ℓ} → Option (List A) → List A → Option (List A)
unless_empty old [] = old
unless_empty old (x ∷ xs) = some (x ∷ xs)

map_at : Map Value → Text → Option (Map Text) → Option (Map Text)
unfolding filled_texts unless_empty
map_at info k old = elim (lookup k info) [
  | some (Value.object m) ↦ unless_empty old (filled_texts m)
  | _ ↦ old
]

list_at : Map Value → Text → Option (List Text) → Option (List Text)
unfolding filled_items unless_empty
list_at info k old = elim (lookup k info) [
  | some (Value.array ts) ↦ unless_empty old (filled_items ts)
  | _ ↦ old
]

number_at : Map Value → Text → ℕ → ℕ
number_at info k old = elim (lookup k info) [ some (Value.number n) ↦ n | _ ↦ old ]

unfoldable pub apply_inspect_from_event : Map Value → ServiceInfo → ServiceInfo
unfolding map_at list_at
apply_inspect_from_event info s = record s {
  inspect = map_at info (codes "inspect") s.inspect;
  inspect_labels = map_at info (codes "inspect_labels") s.inspect_labels;
  inspect_order = list_at info (codes "inspect_order") s.inspect_order;
}

-- The fresh entry of a service that starts.
unfoldable pub starting_entry : Text → Option (Map Value) → ServiceInfo
unfolding text_at or_keep number_at apply_inspect_from_event
starting_entry name none = record (new_service name) { server_loading = true }
starting_entry name (some info) =
    let s : ServiceInfo = record (new_service name) {
      server_loading = true;
      version = or_keep [] (text_at info (codes "version"));
      bin_hash = or_keep [] (text_at info (codes "bin_hash"));
      model = or_keep [] (text_at info (codes "model"));
      model_hash = or_keep [] (text_at info (codes "model_hash"));
      model_origin_url = or_keep [] (text_at info (codes "model_origin_url"));
      child_pid = number_at info (codes "child_pid") 0;
      child_name = or_keep [] (text_at info (codes "child_name"));
    } in
    apply_inspect_from_event info s

-- `entry.Inspect == nil && prev.Inspect != nil`: the old inspection stays.
unfoldable pub inherit_inspect : ServiceInfo → ServiceInfo → ServiceInfo
inherit_inspect entry prev = elim entry.inspect [
  | some _ ↦ entry
  | none ↦ elim prev.inspect [
    | none ↦ entry
    | some i ↦ record entry {
      inspect = some i;
      inspect_labels = prev.inspect_labels;
      inspect_order = prev.inspect_order;
    }
  ]
]

unfoldable pub ready_entry : Option (Map Value) → ServiceInfo → ServiceInfo
unfolding text_at or_keep_filled apply_inspect_from_event
ready_entry none s = record s { server_loading = false; server_ready = true }
ready_entry (some info) s =
    let r : ServiceInfo = record s {
      server_loading = false;
      server_ready = true;
      model = or_keep_filled s.model (text_at info (codes "model"));
      model_hash = or_keep_filled s.model_hash (text_at info (codes "model_hash"));
      model_origin_url =
          or_keep_filled s.model_origin_url (text_at info (codes "model_origin_url"));
      version = or_keep_filled s.version (text_at info (codes "version"));
    } in
    apply_inspect_from_event info r

-- `append`, if the name was not found.
unfoldable pub put_service :
    Text → (ServiceInfo → ServiceInfo) → ServiceInfo → List ServiceInfo → List ServiceInfo
unfolding find_service patch_first
put_service name f fresh ss = elim (find_service name ss) [
  | none ↦ ss ++ (fresh ∷ [])
  | some _ ↦ patch_first name f ss
]

unfoldable pub lifecycle_services : RendezvousMsg → List ServiceInfo → List ServiceInfo
unfolding put_service starting_entry inherit_inspect ready_entry drop_first
lifecycle_services msg ss =
    let name = msg.service_name in
    let info = msg.service_info in
    if eqt msg.event (codes "service.starting")
    then put_service name (inherit_inspect (starting_entry name info)) (starting_entry name info) ss
    else if eqt msg.event (codes "service.ready")
    then put_service name (ready_entry info) (ready_entry info (new_service name)) ss
    else if eqt msg.event (codes "service.stopped")
    then drop_first name ss
    else ss

unfoldable pub apply_service_lifecycle : Server → RendezvousMsg → ℕ → Server
unfolding lifecycle_services
apply_service_lifecycle s msg now =
    if is_empty msg.service_name then s else elim (lookup (node_key msg.id) s.proxies) [
      | none ↦ s
      | some p ↦ record s {
        proxies =
            insert (node_key msg.id)
              (record p { last_seen = now; services = lifecycle_services msg p.services })
              s.proxies;
      }
    ]

unfoldable pub apply_batch : Text → List ServiceMetrics → ℕ → Server → Server
unfolding apply_service_metric
apply_batch id [] now s = s
apply_batch id (m ∷ ms) now s = apply_batch id ms now (apply_service_metric s id m now)

unfoldable pub apply_service_event : Server → RendezvousMsg → ℕ → Server
unfolding apply_batch apply_service_metric apply_service_lifecycle
apply_service_event s msg now =
    if is_empty msg.id
    then s
    else if not (is_empty msg.event) && not (is_empty msg.service_name)
    then apply_service_lifecycle s msg now
    else if not (is_empty msg.metrics_batch)
    then apply_batch msg.id msg.metrics_batch now s
    else elim msg.metrics [ none ↦ s | some m ↦ apply_service_metric s msg.id m now ]
