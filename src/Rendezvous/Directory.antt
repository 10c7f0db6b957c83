-- ===== src/Rendezvous/Directory.antt =====
-- pkg/rendezvous/server.go: handleNodes, the list of the nodes that are registered. Floating point is a
-- parameter. The nodes are sorted by their ids, of which no two are the same.
pub mod Pages
pub mod Roster
use servers.Base.{
  ℕ, ◌-◌, ◌*◌, ◌/◌, ◌%◌, Bool, true, false, not, ◌&&◌, ◌||◌, List, [], ◌∷◌, Option, none, some,
  is_some, Text, Map, codes, eqt, is_empty, to_lower, equal_fold, contains, trim_space, split_byte,
  lookup, keep, any, map, length, take, drop, ltb, leb, slt64, is_neg, add64, two64, parse_int, max,
  ◌==◌, if◌then◌else◌,
}
use servers.Setup.{GpuSpec, HardwareSpec, ServiceInfo}
use servers.Setup.Hardware.{stable_hardware}
use servers.Market.Versions.{text_less}
use servers.Recipe.Header.{Float64}
use servers.Rendezvous.State.{ProxyInfo, NodeMetric, Server, ControlConn, second}
use servers.Rendezvous.Identity.{node_key}
use servers.Rendezvous.Registry.Upkeep.{heartbeat_status}

-- What is said of a node. The times are in seconds, and missing if they are zero.
pub record Node : Type 0 where
  pub id : Text
  pub role : Text
  pub addr : Text
  pub started_at : Option ℕ
  pub connected_at : Option ℕ
  pub version : Text
  pub bin_hash : Text
  pub owner_address : Text
  pub emblem : Text
  pub auth_mode : Text
  pub hardware : Option HardwareSpec
  pub services : List ServiceInfo
  pub tpm_verified : Bool
  pub ek_cert_issuer : Text

abbrev in_seconds : ℕ → Option ℕ
in_seconds t = if t == 0 then none else some (t / second)

-- The fields that do not change while a service runs.
unfoldable pub static_service : ServiceInfo → ServiceInfo
static_service svc = record svc {
  engine = [];
  queue_depth = 0;
  progress = 0;
  estimated_wait_sec = none;
  last_job_at = 0;
  total_jobs_done = 0;
  avg_job_sec = none;
}

unfoldable pub emit_node : Server → ProxyInfo → Node
unfolding static_service
emit_node s p = record {
  id = p.id;
  role = p.role;
  addr = p.addr;
  started_at = in_seconds p.registered_at;
  connected_at = elim (lookup p.id s.control_conns) [
    | none ↦ none
    | some cc ↦ in_seconds cc.connected_at
  ];
  version = p.version;
  bin_hash = p.bin_hash;
  owner_address = p.owner_address;
  emblem = p.emblem;
  auth_mode = p.auth_mode;
  hardware = elim p.hardware [ none ↦ none | some hw ↦ some (stable_hardware hw) ];
  services = map static_service p.services;
  tpm_verified = p.tpm_verified;
  ek_cert_issuer = p.ek_cert_issuer;
}

unfoldable pub is_passenger : Text → Bool
is_passenger role = equal_fold role (codes "consumer") || equal_fold role (codes "passenger")

-- `needle` is in lower case.
unfoldable pub has_gpu_name : Option HardwareSpec → Text → Bool
has_gpu_name none needle = false
has_gpu_name (some hw) needle = any (λ g. contains (to_lower g.name) needle) hw.gpus

unfoldable pub max_gpu_vram : Option HardwareSpec → ℕ
max_gpu_vram none = 0
max_gpu_vram (some hw) = most hw.gpus
  where
    most : List GpuSpec → ℕ
    most [] = 0
    most (g ∷ gs) = max g.vram_total (most gs)

-- The ids of the `node_id` parameter, in the form of the registry's keys.
unfoldable pub asked_ids : List Text → List Text
unfolding node_key
asked_ids [] = []
asked_ids (raw ∷ raws) =
    let id = trim_space raw in
    let rest = asked_ids raws in
    if is_empty id then rest else if any (eqt (node_key id)) rest then rest else node_key id ∷ rest

module _ (fl : Float64) where
  -- The parameters of the query, those that are compared without case in lower case.
  pub record NodeQuery : Type 0 where
    pub search : Text
    pub online : Bool
    pub service : Text
    pub status : Text
    pub role : Text
    pub model : Text
    pub gpu : Text
    pub min_vram : fl.F

  abbrev pub get : Map Text → Text → Text
  get q key = elim (lookup key q) [ none ↦ [] | some v ↦ v ]

  unfoldable pub node_query : Map Text → NodeQuery
  node_query q = record {
    search = to_lower (get q (codes "q"));
    online = eqt (get q (codes "online")) (codes "true");
    service = to_lower (get q (codes "service"));
    status = to_lower (get q (codes "status"));
    role = to_lower (get q (codes "role"));
    model = get q (codes "model");
    gpu = to_lower (get q (codes "gpu"));
    min_vram = elim (fl.parse (get q (codes "min_vram"))) [ none ↦ fl.zero | some x ↦ x ];
  }

  -- A metric of the node, and of the service asked for, with the status asked for.
  unfoldable pub has_node_status : Server → NodeQuery → Text → Bool
  unfolding heartbeat_status
  has_node_status s f id =
      any
        (λ (k, m).
          eqt m.node_id id
          && (eqt (heartbeat_status m.status) f.status
              && (is_empty f.service || eqt (to_lower m.service_name) f.service)))
        s.metrics

  unfoldable pub has_service : NodeQuery → ProxyInfo → Bool
  has_service f p =
      any
        (λ svc.
          (is_empty f.service || eqt (to_lower svc.name) f.service)
          && (is_empty f.model || eqt svc.model f.model))
        p.services

  -- What the scan keeps.
  unfoldable pub passes : Server → NodeQuery → ℕ → ProxyInfo → Bool
  unfolding is_passenger has_node_status has_service has_gpu_name max_gpu_vram
  passes s f now p =
      not (is_passenger p.role)
      && ((not f.online || ltb (now - p.last_seen) (90 * second))
          && ((is_empty f.role || eqt (to_lower p.role) f.role)
              && ((is_empty f.status || has_node_status s f p.id)
                  && ((is_empty f.search
                        || (contains (to_lower p.id) f.search
                            || contains (to_lower p.owner_address) f.search))
                      && (((is_empty f.service && is_empty f.model) || has_service f p)
                          && ((is_empty f.gpu || has_gpu_name p.hardware f.gpu)
                              && (not (fl.above_zero f.min_vram)
                                  || not (fl.below (max_gpu_vram p.hardware) f.min_vram))))))))

  -- One entry for each id asked for.
  unfoldable pub targeted : Server → List Text → List Node
  unfolding emit_node is_passenger
  targeted s [] = []
  targeted s (id ∷ ids) = elim (lookup id s.proxies) [
    | none ↦ targeted s ids
    | some p ↦ if is_passenger p.role then targeted s ids else emit_node s p ∷ targeted s ids
  ]

  unfoldable pub scanned : Server → NodeQuery → ℕ → Map ProxyInfo → List Node
  unfolding emit_node passes
  scanned s f now [] = []
  scanned s f now ((id, p) ∷ ps) =
      if passes s f now p then emit_node s p ∷ scanned s f now ps else scanned s f now ps

  -- `sort.Slice` by id.
  unfoldable pub put_in_order : Node → List Node → List Node
  unfolding text_less
  put_in_order n [] = n ∷ []
  put_in_order n (x ∷ xs) = if text_less x.id n.id then x ∷ put_in_order n xs else n ∷ x ∷ xs

  unfoldable pub sort_nodes : List Node → List Node
  unfolding put_in_order
  sort_nodes [] = []
  sort_nodes (n ∷ ns) = put_in_order n (sort_nodes ns)

  unfoldable pub roster : Server → Map Text → ℕ → List Node
  unfolding asked_ids targeted scanned node_query sort_nodes
  roster s q now =
      let ids = get q (codes "node_id") in
      sort_nodes (
        if is_empty ids
        then scanned s (node_query q) now s.proxies
        else targeted s (asked_ids (split_byte b',' ids)))

unfoldable pub clip : ℕ → ℕ → ℕ
clip total n = if slt64 total n then total else n

-- `all[start:end]`; `none` is the panic of bounds that are out of range.
unfoldable pub slice : {A : Type 0} → List A → ℕ → ℕ → Option (List A)
slice all start end =
    if is_neg start || (is_neg end || ltb end start)
    then none
    else some (take (end - start) (drop start all))

unfoldable pub slice_page : {A : Type 0} → List A → ℕ → ℕ → Option (List A)
unfolding clip slice
slice_page all page limit =
    let total = length all in
    let start = clip total (((page - 1) * limit) % two64) in
    slice all start (clip total (add64 start limit))

-- `page` or `limit`, of which only positive numbers count.
unfoldable pub positive_or : ℕ → Text → ℕ
positive_or default text = elim (parse_int text) [
  | none ↦ default
  | some v ↦ if is_neg v || v == 0 then default else v
]

-- The nodes of the answer, with their number if it is one page: all of them without `page` and `limit`.
unfoldable pub handle_nodes : Float64 → Server → Map Text → ℕ → Option (List Node × Option ℕ)
unfolding roster slice_page positive_or
handle_nodes fl s q now =
    let all = roster fl s q now in
    let page = get fl q (codes "page") in
    let limit = get fl q (codes "limit") in
    if is_empty page && is_empty limit
    then some (all, none)
    else elim (slice_page all (positive_or 1 page) (positive_or 50 limit)) [
      | none ↦ none
      | some nodes ↦ some (nodes, some (length all))
    ]
