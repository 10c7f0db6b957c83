-- ===== src/Rendezvous/Registry/Counted/Purge.antt =====
-- A round of the cleanup loop takes the purged entries out of the counters.
use servers.Base.{
  ℕ, ◌+◌, ◌-◌, ◌≡◌, subst, sym, Bool, not, [], ◌∷◌, Map, retain, if◌then◌else◌, arith, two64,
  retain-Distinct, Bool-cases, inl, inr,
}
use servers.Rendezvous.State.{ProxyInfo, Server, Counts}
use servers.Rendezvous.Counters.{role_bucket, count_delta, Bucket}
use servers.Rendezvous.Cadence.{proxy_purge_or_default}
use servers.Rendezvous.Registry.Upkeep.{is_silent, purge, purge_counts, prune_metrics, cleanup}
use servers.Rendezvous.Registry.Counted.{
  total, weight, is_free, Tally, totals, IsTallied, IsCounted, Grows, count_in-down,
}
use servers.Rendezvous.Registry.Counted.Steps.{IsConsistent}

-- What of a map is heard of within the cutoff.
abbrev heard_of : ℕ → ℕ → Map ProxyInfo → Map ProxyInfo
heard_of cutoff now m = retain (λ id p. not (is_silent cutoff now p)) m

-- The counters after a round of purging, with a tally of what stood before the rest of the map.
purge_counts-IsTallied :
    (cutoff now : ℕ) (m : Map ProxyInfo) (t : Tally) (c : Counts)
    → IsTallied (λ b f. t b f + totals m b f) c
    → IsTallied (λ b f. t b f + totals (heard_of cutoff now m) b f) (purge_counts cutoff now m c)
unfolding purge_counts total retain count_delta weight Grows
purge_counts-IsTallied cutoff now [] t c i = i
purge_counts-IsTallied cutoff now ((k, p) ∷ m) t c i =
    let rest : Map ProxyInfo = heard_of cutoff now m in
    let c' : Counts = count_delta p.role p.auth_mode (two64 - 1) c in
    let purged : Bool → Type 0 = (λ x.
      IsTallied (λ b f. t b f + totals (if not x then (k, p) ∷ rest else rest) b f)
        (purge_counts cutoff now m (if x then c' else c))) in
    elim (Bool-cases (is_silent cutoff now p)) [
      | inl e ↦
          let i' : IsTallied (λ b f. t b f + totals m b f) c' =
            count_in-down (λ b f. t b f + totals ((k, p) ∷ m) b f) (λ b f. t b f + totals m b f)
              (role_bucket p.role) (is_free p) c (λ b f. omega arith) i in
          subst purged (sym e) (purge_counts-IsTallied cutoff now m t c' i')
      | inr e ↦
          let assoc : (r : Map ProxyInfo) (b : Bucket) (f : Bool)
              → t b f + totals ((k, p) ∷ r) b f ≡ (t b f + weight b f p) + totals r b f =
            (λ r b f. omega arith) in
          let i' : IsTallied (λ b f. (t b f + weight b f p) + totals m b f) c =
            subst (λ u. IsTallied u c) (λ j b f. assoc m b f j) i in
          let r' = purge_counts-IsTallied cutoff now m (λ b f. t b f + weight b f p) c i' in
          subst purged (sym e) (
            subst (λ u. IsTallied u (purge_counts cutoff now m c)) (λ j b f. sym (assoc rest b f) j)
              r')
    ]

purge-IsConsistent : (s : Server) (now : ℕ) → IsConsistent s → IsConsistent (purge s now)
unfolding purge IsCounted
purge-IsConsistent s now i =
    let cutoff = proxy_purge_or_default s in
    let after : Map ProxyInfo = heard_of cutoff now s.proxies in
    let zero : (m : Map ProxyInfo) (b : Bucket) (f : Bool) → totals m b f ≡ 0 + totals m b f =
      (λ m b f. omega arith) in
    let at_start = subst (λ t. IsTallied t s.counts) (λ j b f. zero s.proxies b f j) i.counted in
    let at_end = purge_counts-IsTallied cutoff now s.proxies (λ b f. 0) s.counts at_start in
    record {
      distinct = retain-Distinct (λ id p. not (is_silent cutoff now p)) s.proxies i.distinct;
      counted =
          subst (λ t. IsTallied t (purge_counts cutoff now s.proxies s.counts))
            (λ j b f. sym (zero after b f) j) at_end;
    }

pub cleanup-IsConsistent : (s : Server) (now : ℕ) → IsConsistent s → IsConsistent (cleanup s now)
unfolding cleanup prune_metrics
cleanup-IsConsistent s now i =
    let p = purge-IsConsistent s now i in record { distinct = p.distinct; counted = p.counted }
