-- ===== src/Rendezvous/Metrics/Listed.antt =====
-- Which nodes have rows.
use servers.Base.{Bool, false, ℕ, false, ◌&&◌, Text, Map, eqt, any}
use servers.Recipe.Header.{Float64}
use servers.Rendezvous.State.{NodeMetric, Server}
use servers.Rendezvous.Metrics.{Liveness, MetricQuery, admits_metric}

abbrev has_id : Map Liveness → Text → Bool
has_id live id = any (λ (k, l). eqt k id) live

module _ (fl : Float64) (s : Server) (f : MetricQuery fl) (now : ℕ) where
  -- A metric under the id of that node, with the service and the status that are asked for.
  abbrev pub has_metric : Map NodeMetric → Text → Bool
  has_metric ms id = any (λ (k, m). eqt m.node_id id && admits_metric fl f m) ms
