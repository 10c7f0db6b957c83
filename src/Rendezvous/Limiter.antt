-- ===== src/Rendezvous/Limiter.antt =====
-- pkg/rendezvous/server.go: the limit on requests of one address (healthRateLimiter) and handleHealth.
pub mod Fair
use servers.Base.{
  ℕ, ◌+◌, ◌-◌, ◌%◌, Bool, not, ◌&&◌, [], ◌∷◌, ◌++◌, Text, Map, codes, eqt, is_empty, insert, ltb,
  leb, add64, format_int, if◌then◌else◌,
}
use servers.Rendezvous.State.{Counts, Server, second}
use servers.Rendezvous.Cadence.{at_zero}

pub record Limiter : Type 0 where
  pub limit : ℕ
  pub window : ℕ
  pub hits : Map ℕ

-- `Truncate(time.Second)`
abbrev pub truncated : ℕ → ℕ
truncated t = t - t % second

-- The window of a request: the current one, or a new one.
unfoldable pub roll : Limiter → ℕ → Limiter
roll h now = if ltb h.window now then record h { window = now; hits = [] } else h

unfoldable pub allow : Limiter → Text → ℕ → Limiter × Bool
unfolding roll
allow h ip now =
    let h' = roll h (truncated now) in
    let n = at_zero h'.hits ip + 1 in (record h' { hits = insert ip n h'.hits }, leb n h'.limit)

-- The answer: 429, 304 with the tag, or 200 with the tag, the counts and their total.
pub data Health : Type 0 where
  limited : Health
  unchanged : Text → Health
  alive : Text → Counts → ℕ → Health

unfoldable pub health_tag : Counts → Text
health_tag c =
    codes "\"c-"
    ++ (format_int c.station
        ++ (b'-'
            ∷ (format_int c.control
                ++ (b'-'
                    ∷ (format_int c.passenger ++ (b'-' ∷ (format_int c.public ++ (b'"' ∷ []))))))))

-- `ip` is the host of the request's address, and `known` its If-None-Match.
unfoldable pub handle_health : Server → Limiter → Text → Text → ℕ → Limiter × Health
unfolding allow health_tag
handle_health s h ip known now =
    let (h', passed) = allow h ip now in
    let tag = health_tag s.counts in
    let answer : Health =
      if eqt known tag
      then unchanged tag
      else alive tag s.counts (add64 s.counts.station s.counts.control) in
    if is_empty ip then (h, answer) else (h', if passed then answer else limited)
