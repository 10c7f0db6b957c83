-- ===== src/Rendezvous/Registry/Counted.antt =====
-- The discovery counters against a scan of the registry.
pub mod Steps
pub mod Updates
pub mod Purge
use servers.Base.{
  ℕ, ◌+◌, ◌-◌, ◌%◌, ◌≤◌, ◌≡◌, subst, refl, ◌∙◌, ap, Bool, true, false, not, ◌&&◌, List, [], ◌∷◌,
  Option, none, some, Text, Map, codes, eqt, equal_fold, lookup, insert, retain, if◌then◌else◌,
  arith, add64, two64, length, Distinct, insert-Distinct, retain-Distinct, Option-cases, Bool-cases,
  inl, inr, is_empty,
}
use servers.Auth.Crypto.{Crypto}
use servers.Tunnel.Message.{RendezvousMsg, ServiceMetrics}
use servers.Rendezvous.State.{ProxyInfo, Server, Counts, ControlConn, UdpAddr}
use servers.Rendezvous.Counters.{
  Bucket, station, control, passenger, unknown, role_bucket, count_in, count_delta,
}
use servers.Rendezvous.Cadence.{proxy_purge_or_default}
use servers.Rendezvous.Identity.{node_key}
use servers.Rendezvous.Registry.Register.{
  apply_register, apply_ping, store_register, merge_register, check_register,
}
use servers.Rendezvous.Registry.Services.{apply_service_event}
use servers.Rendezvous.Registry.Upkeep.{learn_public_addr, is_silent, purge, purge_counts, cleanup}

-- The sum of a weight over a map.
unfoldable pub total {ℓ} : {V : Type ℓ} → (V → ℕ) → Map V → ℕ
total w [] = 0
total w ((k, v) ∷ m) = w v + total w m

unfoldable pub weight_of {ℓ} : {V : Type ℓ} → (V → ℕ) → Option V → ℕ
weight_of w none = 0
weight_of w (some v) = w v

-- An assignment takes the old value's weight out and puts the new one's in.
pub total-insert {ℓ} :
    {V : Type ℓ} (w : V → ℕ) (k : Text) (v : V) (m : Map V)
    → total w (insert k v m) + weight_of w (lookup k m) ≡ total w m + w v
unfolding total lookup insert weight_of
total-insert w k v [] = omega arith
total-insert w k v ((j, x) ∷ m) = ground (arith, total-insert w k v m)

pub lookup-total {ℓ} :
    {V : Type ℓ} (w : V → ℕ) (k : Text) (m : Map V) (v : V) → lookup k m ≡ some v → w v ≤ total w m
unfolding total lookup
lookup-total w k [] v h = absurd (ground arith)
lookup-total w k ((j, x) ∷ m) v h = elim (Bool-cases (eqt j k)) [
  | inl e ↦
      let same : x ≡ v = ground arith in
      let le : w x ≤ w v = subst (λ y. w x ≤ w y) same (omega arith) in
      let ge : w v ≤ w x = subst (λ y. w y ≤ w x) same (omega arith) in omega arith
  | inr e ↦ ground (arith, lookup-total w k m v (ground arith))
]

-- What one entry counts for, in each counter.
unfoldable pub in_bucket : Bucket → Bool → Bucket → Bool → ℕ
in_bucket station free_only station free = if free_only then (if free then 1 else 0) else 1
in_bucket control free_only control free = 1
in_bucket passenger free_only passenger free = 1
in_bucket _ _ _ _ = 0

abbrev pub is_free : ProxyInfo → Bool
is_free p = equal_fold p.auth_mode (codes "public")

unfoldable pub weight : Bucket → Bool → ProxyInfo → ℕ
unfolding in_bucket
weight b free_only p = in_bucket b free_only (role_bucket p.role) (is_free p)

-- What the counters are to hold: for stations, and those of them that are free, and so on.
abbrev pub Tally : Type 0
Tally = Bucket → Bool → ℕ

abbrev pub totals : Map ProxyInfo → Tally
totals m b f = total (weight b f) m

-- Each counter is its part of a tally, as a 64-bit word.
pub record IsTallied (t : Tally) (c : Counts) : Type 0 where
  pub stations : c.station ≡ t station false % two64
  pub controls : c.control ≡ t control false % two64
  pub passengers : c.passenger ≡ t passenger false % two64
  pub publics : c.public ≡ t station true % two64

-- The counters are a scan of the registry.
unfoldable pub IsCounted : Map ProxyInfo → Counts → Type 0
IsCounted m c = IsTallied (totals m) c

-- A tally, and that with one more entry of a bucket.
unfoldable pub Grows : Tally → Bucket → Bool → Tally → Type 0
Grows t b free t' = (b' : Bucket) (f : Bool) → t' b' f ≡ t b' f + in_bucket b' f b free

pub count_in-up :
    (t t' : Tally) (b : Bucket) (free : Bool) (c : Counts)
    → Grows t b free t'
    → IsTallied t c
    → IsTallied t' (count_in b free 1 c)
unfolding count_in in_bucket Grows
count_in-up t t' station true c g i = record {
  stations = ground (arith, i.stations, g station false);
  controls = ground (arith, i.controls, g control false);
  passengers = ground (arith, i.passengers, g passenger false);
  publics = ground (arith, i.publics, g station true);
}
count_in-up t t' station false c g i = record {
  stations = ground (arith, i.stations, g station false);
  controls = ground (arith, i.controls, g control false);
  passengers = ground (arith, i.passengers, g passenger false);
  publics = ground (arith, i.publics, g station true);
}
count_in-up t t' control free c g i = record {
  stations = ground (arith, i.stations, g station false);
  controls = ground (arith, i.controls, g control false);
  passengers = ground (arith, i.passengers, g passenger false);
  publics = ground (arith, i.publics, g station true);
}
count_in-up t t' passenger free c g i = record {
  stations = ground (arith, i.stations, g station false);
  controls = ground (arith, i.controls, g control false);
  passengers = ground (arith, i.passengers, g passenger false);
  publics = ground (arith, i.publics, g station true);
}
count_in-up t t' unknown free c g i = record {
  stations = ground (arith, i.stations, g station false);
  controls = ground (arith, i.controls, g control false);
  passengers = ground (arith, i.passengers, g passenger false);
  publics = ground (arith, i.publics, g station true);
}

pub count_in-down :
    (t t' : Tally) (b : Bucket) (free : Bool) (c : Counts)
    → Grows t' b free t
    → IsTallied t c
    → IsTallied t' (count_in b free (two64 - 1) c)
unfolding count_in in_bucket Grows
count_in-down t t' station true c g i = record {
  stations = ground (arith, i.stations, g station false);
  controls = ground (arith, i.controls, g control false);
  passengers = ground (arith, i.passengers, g passenger false);
  publics = ground (arith, i.publics, g station true);
}
count_in-down t t' station false c g i = record {
  stations = ground (arith, i.stations, g station false);
  controls = ground (arith, i.controls, g control false);
  passengers = ground (arith, i.passengers, g passenger false);
  publics = ground (arith, i.publics, g station true);
}
count_in-down t t' control free c g i = record {
  stations = ground (arith, i.stations, g station false);
  controls = ground (arith, i.controls, g control false);
  passengers = ground (arith, i.passengers, g passenger false);
  publics = ground (arith, i.publics, g station true);
}
count_in-down t t' passenger free c g i = record {
  stations = ground (arith, i.stations, g station false);
  controls = ground (arith, i.controls, g control false);
  passengers = ground (arith, i.passengers, g passenger false);
  publics = ground (arith, i.publics, g station true);
}
count_in-down t t' unknown free c g i = record {
  stations = ground (arith, i.stations, g station false);
  controls = ground (arith, i.controls, g control false);
  passengers = ground (arith, i.passengers, g passenger false);
  publics = ground (arith, i.publics, g station true);
}
