-- ===== src/Tunnel/Sessions.antt =====
-- pkg/tunnel/session.go: the cache of sessions, by token and by node. A nil session is not modelled.
use servers.Base.{
  ℕ, ◌+◌, ◌*◌, ◌≤◌, ◌≡◌, ◌≢◌, Bool, not, Option, none, some, Text, Map, lookup, insert, retain, ltb,
  eqt, eqt_iff, if◌then◌else◌, arith, Distinct, lookup-insert, lookup-retain, Option-cases,
  Bool-cases, inl, inr,
}

pub record Session : Type 0 where
  pub token : Text
  pub expires_at : ℕ

pub record SessionEntry : Type 0 where
  pub node_id : Text
  pub sess : Session

pub record SessionCache : Type 0 where
  pub by_token : Map SessionEntry
  pub by_node_id : Map SessionEntry
  pub replaced : Map ℕ

-- Five minutes, in nanoseconds.
abbrev pub session_grace : ℕ
session_grace = 300 * 1_000_000_000

abbrev pub is_expired : ℕ → Session → Bool
is_expired now s = ltb (s.expires_at + session_grace) now

unfoldable pub put : SessionCache → Text → Session → ℕ → SessionCache
put c node sess now =
    let entry : SessionEntry = record { node_id = node; sess = sess } in
    record {
      by_token = insert sess.token entry c.by_token;
      by_node_id = insert node entry c.by_node_id;
      replaced = elim (lookup node c.by_node_id) [
        | none ↦ c.replaced
        | some old ↦ insert old.sess.token (now + session_grace) c.replaced
      ];
    }

-- Both tests end in the entry that `byToken` holds.
unfoldable pub lookup_by_token : SessionCache → Text → ℕ → Option SessionEntry
lookup_by_token c token now = elim (lookup token c.by_token) [
  | none ↦ none
  | some e ↦ if not (is_expired now e.sess) then some e else elim (lookup token c.replaced) [
    | none ↦ none
    | some end ↦ if ltb now end then some e else none
  ]
]

unfoldable pub lookup_by_node_id : SessionCache → Text → ℕ → Option SessionEntry
lookup_by_node_id c node now = elim (lookup node c.by_node_id) [
  | none ↦ none
  | some e ↦ if is_expired now e.sess then none else some e
]

unfoldable pub prune : SessionCache → ℕ → SessionCache
prune c now = record {
  by_token = retain (λ _ e. not (is_expired now e.sess)) c.by_token;
  by_node_id = retain (λ _ e. not (is_expired now e.sess)) c.by_node_id;
  replaced = retain (λ _ end. not (ltb end now)) c.replaced;
}

-- A session that is put is found under its node until it expires, and other nodes' sessions are as
-- they were.
lookup_by_node_id-put :
    (c : SessionCache) (node other : Text) (sess : Session) (now t : ℕ)
    → lookup_by_node_id (put c node sess now) other t ≡ (
        if eqt node other
        then (if is_expired t sess then none else some (record { node_id = node; sess = sess }))
        else lookup_by_node_id c other t)
unfolding lookup_by_node_id put
lookup_by_node_id-put c node other sess now t =
    let entry : SessionEntry = record { node_id = node; sess = sess } in
    elim (Bool-cases (eqt node other)) [
      | inl e ↦ ground (arith, lookup-insert node other entry c.by_node_id)
      | inr e ↦ ground (arith, lookup-insert node other entry c.by_node_id)
    ]

-- A token of a node that a newer session with another token replaces is honoured until its own expiry
-- and the grace after that, however long after the replacement that is.
lookup_by_token-put :
    (c : SessionCache) (node : Text) (old : SessionEntry) (sess : Session) (now t : ℕ)
    → lookup node c.by_node_id ≡ some old
    → lookup old.sess.token c.by_token ≡ some old
    → sess.token ≢ old.sess.token
    → t ≤ old.sess.expires_at + session_grace
    → lookup_by_token (put c node sess now) old.sess.token t ≡ some old
unfolding lookup_by_token put
lookup_by_token-put c node old sess now t n k d l =
    let entry : SessionEntry = record { node_id = node; sess = sess } in
    ground (
      arith,
      lookup-insert sess.token old.sess.token entry c.by_token,
      eqt_iff sess.token old.sess.token,
    )

-- From a round of pruning on, each node's session is found as if nothing had been pruned, in a cache
-- that holds each node once.
lookup_by_node_id-prune :
    (c : SessionCache) (node : Text) (now t : ℕ)
    → Distinct c.by_node_id
    → now ≤ t
    → lookup_by_node_id (prune c now) node t ≡ lookup_by_node_id c node t
unfolding lookup_by_node_id prune
lookup_by_node_id-prune c node now t d h =
    let kept = lookup-retain (λ _ e. not (is_expired now e.sess)) node c.by_node_id d in
    elim (Option-cases (lookup node c.by_node_id)) [
      | inl f ↦ ground (arith, kept)
      | inr (e, f) ↦ elim (Bool-cases (is_expired now e.sess)) [
        | inl g ↦ ground (arith, kept)
        | inr g ↦ ground (arith, kept)
      ]
    ]
