-- ===== src/Rendezvous/Registry/Counted/Steps.antt =====
-- Every operation on the registry keeps the counters equal to a scan of it.
use servers.Base.{
  ℕ, ◌+◌, ◌-◌, ◌≡◌, subst, Bool, none, some, Text, Map, eqt, lookup, insert, arith, two64, Distinct,
  insert-Distinct, Option-cases, Bool-cases, inl, inr,
}
use servers.Auth.Crypto.{Crypto}
use servers.Tunnel.Message.{RendezvousMsg}
use servers.Rendezvous.State.{ProxyInfo, Server, Counts, ControlConn}
use servers.Rendezvous.Counters.{Bucket, role_bucket, count_delta}
use servers.Rendezvous.Identity.{node_key}
use servers.Rendezvous.Registry.Register.{
  apply_register, store_register, merge_register, check_register, new_proxy,
}
use servers.Rendezvous.Registry.Counted.{
  weight, weight_of, total-insert, lookup-total, is_free, Tally, totals, IsTallied, IsCounted,
  Grows, count_in-up, count_in-down,
}

insert-total_new :
    (m : Map ProxyInfo) (k : Text) (p : ProxyInfo) (b : Bucket) (f : Bool)
    → lookup k m ≡ none
    → totals (insert k p m) b f ≡ totals m b f + weight b f p
unfolding weight_of
insert-total_new m k p b f h = ground (arith, total-insert (weight b f) k p m)

insert-total_old :
    (m : Map ProxyInfo) (k : Text) (old p : ProxyInfo) (b : Bucket) (f : Bool)
    → lookup k m ≡ some old
    → totals (insert k p m) b f ≡ (totals m b f - weight b f old) + weight b f p
unfolding weight_of
insert-total_old m k old p b f h =
    let le = lookup-total (weight b f) k m old h in ground (arith, total-insert (weight b f) k p m)

-- A new entry, counted.
pub insert-IsCounted_new :
    (m : Map ProxyInfo) (k : Text) (p : ProxyInfo) (c : Counts)
    → lookup k m ≡ none
    → IsCounted m c
    → IsCounted (insert k p m) (count_delta p.role p.auth_mode 1 c)
unfolding IsCounted count_delta weight Grows
insert-IsCounted_new m k p c h i =
    count_in-up (totals m) (totals (insert k p m)) (role_bucket p.role) (is_free p) c
      (λ b f. insert-total_new m k p b f h) i

-- A replaced entry, the old one counted out and the new one in.
pub insert-IsCounted_old :
    (m : Map ProxyInfo) (k : Text) (old p : ProxyInfo) (c : Counts)
    → lookup k m ≡ some old
    → IsCounted m c
    → IsCounted
        (insert k p m)
        (count_delta p.role p.auth_mode 1 (count_delta old.role old.auth_mode (two64 - 1) c))
unfolding IsCounted count_delta weight Grows
insert-IsCounted_old m k old p c h i =
    let t : Tally = (λ b f. totals m b f - weight b f old) in
    count_in-up t (totals (insert k p m)) (role_bucket p.role) (is_free p)
      (count_delta old.role old.auth_mode (two64 - 1) c) (λ b f. insert-total_old m k old p b f h)
      (count_in-down (totals m) t (role_bucket old.role) (is_free old) c
        (λ b f. let le = lookup-total (weight b f) k m old h in omega arith) i)

weight-same :
    (old p : ProxyInfo) (b : Bucket) (f : Bool)
    → old.role ≡ p.role
    → old.auth_mode ≡ p.auth_mode
    → weight b f old ≡ weight b f p
unfolding weight
weight-same old p b f r a = cc

-- A replaced entry that counts as before.
pub insert-IsCounted_same :
    (m : Map ProxyInfo) (k : Text) (old p : ProxyInfo) (c : Counts)
    → lookup k m ≡ some old
    → old.role ≡ p.role
    → old.auth_mode ≡ p.auth_mode
    → IsCounted m c
    → IsCounted (insert k p m) c
unfolding IsCounted
insert-IsCounted_same m k old p c h r a i = subst (λ t. IsTallied t c) (λ j b f. same b f j) i
  where
    same : (b : Bucket) (f : Bool) → totals m b f ≡ totals (insert k p m) b f
    same b f =
        let w : weight b f old ≡ weight b f p = weight-same old p b f r a in
        let le = lookup-total (weight b f) k m old h in
        ground (arith, insert-total_old m k old p b f h)

-- The registry is keyed by distinct ids, and the counters are a scan of it.
pub record IsConsistent (s : Server) : Type 0 where
  pub distinct : Distinct s.proxies
  pub counted : IsCounted s.proxies s.counts

-- A change of one entry that keeps what it counts for.
pub update-IsConsistent :
    (s : Server) (k : Text) (old p : ProxyInfo)
    → lookup k s.proxies ≡ some old
    → old.role ≡ p.role
    → old.auth_mode ≡ p.auth_mode
    → IsConsistent s
    → IsConsistent (record s { proxies = insert k p s.proxies })
update-IsConsistent s k old p h r a i = record {
  distinct = insert-Distinct k p s.proxies i.distinct;
  counted = insert-IsCounted_same s.proxies k old p s.counts h r a i.counted;
}

store_register-IsConsistent :
    (c : Crypto) (s : Server) (peer : ControlConn) (msg : RendezvousMsg) (now : ℕ)
    → IsConsistent s
    → IsConsistent (store_register c s peer msg now)
unfolding store_register
store_register-IsConsistent c s peer msg now i =
    let key = node_key msg.id in
    elim (Option-cases (lookup key s.proxies)) [
      | inl h ↦
          let p = merge_register c peer msg now (new_proxy now) in
          let s' : Server = record s {
            proxies = insert key p s.proxies;
            counts = count_delta p.role p.auth_mode 1 s.counts;
          } in
          let i' : IsConsistent s' = record {
            distinct = insert-Distinct key p s.proxies i.distinct;
            counted = insert-IsCounted_new s.proxies key p s.counts h i.counted;
          } in
          subst IsConsistent (ground arith) i'
      | inr (old, h) ↦
          let p = merge_register c peer msg now old in
          let s' : Server = record s {
            proxies = insert key p s.proxies;
            counts =
                count_delta p.role p.auth_mode 1
                  (count_delta old.role old.auth_mode (two64 - 1) s.counts);
          } in
          let i' : IsConsistent s' = record {
            distinct = insert-Distinct key p s.proxies i.distinct;
            counted = insert-IsCounted_old s.proxies key old p s.counts h i.counted;
          } in
          subst IsConsistent (ground arith) i'
    ]

pub apply_register-IsConsistent :
    (c : Crypto) (s : Server) (peer : ControlConn) (msg : RendezvousMsg) (now : ℕ)
    → IsConsistent s
    → IsConsistent (apply_register c s peer msg now).0
unfolding apply_register
apply_register-IsConsistent c s peer msg now i =
    let stored = store_register-IsConsistent c s peer msg now i in
    elim (Bool-cases (eqt msg.id peer.node_id)) [
      | inr e ↦ subst IsConsistent (ground arith) i
      | inl e ↦ elim (Option-cases (check_register c s msg now)) [
        | inl h ↦ subst IsConsistent (ground arith) stored
        | inr (f, h) ↦ subst IsConsistent (ground arith) i
      ]
    ]
