-- ===== src/Tests/Directory.antt =====
-- Runs of the rendezvous server's HTTP side: the limiter, the list of nodes and its pages.
use servers.Base.{
  ◌&&◌, one_of, ℕ, ◌+◌, ◌*◌, ◌≡◌, ◌⊎◌, refl, true, false, [], ◌∷◌, none, some, Text, List, codes,
  eqt, is_empty, lookup, any, take, All, min, arith, Map,
}
use servers.Rendezvous.State.{ProxyInfo, Server, second}
use servers.Rendezvous.Limiter.{Limiter}
use servers.Rendezvous.Limiter.Fair.{Requests, asked, passed, allow_fair}
use servers.Rendezvous.Directory.{emit_node, node_query, passes, roster, slice_page}
use servers.Rendezvous.Directory.Pages.{first_pages, first_pages-take}
use servers.Rendezvous.Directory.Roster.{is_shown, roster-any}
use servers.Rendezvous.Metrics.{MetricQuery}
use servers.Setup.{HardwareSpec}
use servers.Setup.Hardware.{
  stable_hardware, volatile_hardware, merge_hardware, merge_hardware-stable_hardware,
}
use servers.Tests.Data.{node, start, protected_server}
use servers.Tests.Parser.{no_floats}

abbrev limiter : Limiter
limiter = record { limit = 2; window = 0; hits = [] }

-- Three requests of one address and one of another, in the second 7.
abbrev requests : Requests
requests =
    (7_000_000_001, codes "1.1.1.1")
    ∷ (7_000_000_002, codes "2.2.2.2")
    ∷ (7_100_000_000, codes "1.1.1.1")
    ∷ (7_999_999_999, codes "1.1.1.1")
    ∷ []

allow_fair_example :
    passed limiter (codes "1.1.1.1") requests ≡ min 2 (asked (codes "1.1.1.1") requests)
allow_fair_example =
    allow_fair limiter (codes "1.1.1.1") 7 requests (omega arith) (refl, (refl, (refl, (refl, tt))))

abbrev numbers : List ℕ
numbers = 1 ∷ 2 ∷ 3 ∷ 4 ∷ 5 ∷ []

first_pages-take_example : first_pages numbers 2 3 ≡ some (take 6 numbers)
first_pages-take_example = first_pages-take numbers 2 3 (omega arith) (omega arith)

-- The product of a page's number and size wraps round to a negative offset.
overflows : slice_page numbers 0x4000000000000000 4 ≡ none
unfolding slice_page
overflows = refl

abbrev station : ProxyInfo
station = record {
  id = node;
  role = codes "station";
  addr = codes "1.2.3.4:9";
  local_addr = [];
  cert_hash = [];
  version = codes "1.2";
  bin_hash = [];
  owner_address = [];
  emblem = [];
  udp_addr = none;
  last_seen = start;
  registered_at = start;
  addr_manual = false;
  control_ip = [];
  auth_mode = codes "public";
  hardware = none;
  services = [];
  tpm_verified = false;
  ek_cert_issuer = [];
}

abbrev guest : ProxyInfo
guest = record station { id = codes "P:0xc3"; role = codes "Passenger" }

abbrev peopled : Server
peopled = record protected_server { proxies = (codes "P:0xc3", guest) ∷ (node, station) ∷ [] }

-- `?online=true&role=station`
abbrev question : Map Text
question = (codes "online", codes "true") ∷ (codes "role", codes "station") ∷ []

station_found : lookup node peopled.proxies ≡ some station
unfolding lookup eqt
station_found = refl

station_passes :
    passes no_floats peopled (node_query no_floats question) (start + second) station ≡ true
unfolding passes servers.Base.equal_fold node_query lookup is_empty
station_passes = refl

roster-any_example :
    any (λ n. eqt n.id node) (roster no_floats peopled question (start + second))
    ≡ any
        (λ (key, p).
          is_shown no_floats peopled question (start + second) key p
          && eqt (emit_node peopled p).id node)
        peopled.proxies
unfolding lookup eqt
roster-any_example =
    roster-any no_floats peopled question (start + second) (λ n. eqt n.id node) (refl, (refl, tt))

abbrev asked_for : MetricQuery no_floats
asked_for = record {
  ids = some (node ∷ []);
  service = [];
  model = codes "llama";
  gpu = [];
  status = [];
  min_vram = 0;
}

abbrev hardware : HardwareSpec
hardware = record {
  cpus = record { name = codes "cpu"; cores = 8; clock_mhz = 3_000; temp_c = 55 } ∷ [];
  gpus = [];
  ram = some (record { total = 640; free = 123 });
}

-- The second description has no CPU.
merge_hardware-stable_hardware_example :
    (merge_hardware (stable_hardware hardware) (volatile_hardware hardware) ≡ hardware)
    × (stable_hardware (merge_hardware hardware (record hardware { cpus = [] }))
        ≡ stable_hardware hardware)
merge_hardware-stable_hardware_example =
    merge_hardware-stable_hardware hardware (record hardware { cpus = [] })
