-- ===== src/Rendezvous/Admission.antt =====
-- pkg/rendezvous/rv_auth.go: who may register, from auth.json and a credential. Reading the file and
-- its JSON is the environment's: `AuthSource` says how far that went.
pub mod Loading
use servers.Base.{
  ℕ, ◌≡◌, ◌⊎◌, inl, inr, refl, Bool, true, false, not, ◌&&◌, ◌||◌, List, [], ◌∷◌, Option, none,
  some, Text, Map, codes, eqt, is_empty, to_lower, trim_space, equal_fold, one_of, lookup, insert,
  if◌then◌else◌, ◌==◌, is_neg, slt64, arith, Result, ok, err, ◌>>=◌, ◌>>◌, guard, Option-cases,
  Result-cases, Bool-cases, subst, AllValues, insert-AllValues,
}
use servers.Auth.Crypto.{Crypto}
use servers.Auth.Ethereum.{recover_address}
use servers.Tunnel.Message.{RendezvousMsg}
use servers.Tunnel.Credential.{credential_message}
use servers.Rendezvous.State.{IssuerPolicy, Server, unix_milli}
use servers.Rendezvous.Identity.{addr_from_node_id}

pub record RvIssuer : Type 0 where
  pub address : Text
  pub bind : Text

pub data AuthSource : Type 0 where
  no_path missing unreadable malformed : AuthSource
  parsed : Text → List RvIssuer → AuthSource

pub data AuthError : Type 0 where
  read_failed parse_failed invalid_mode invalid_bind no_issuers : AuthError

abbrev pub allows_bound : IssuerPolicy → Bool
allows_bound p = eqt p.bind (codes "node") || eqt p.bind (codes "any")

abbrev pub allows_bearer : IssuerPolicy → Bool
allows_bearer p = eqt p.bind (codes "none") || eqt p.bind (codes "any")

-- The loop over the issuers of the file.
unfoldable pub load_issuers : List RvIssuer → Map IssuerPolicy → Result AuthError (Map IssuerPolicy)
load_issuers [] acc = ok acc
load_issuers (i ∷ rest) acc =
    let addr = to_lower (trim_space i.address) in
    let given = to_lower (trim_space i.bind) in
    let bind = if is_empty given then codes "node" else given in
    let skip = load_issuers rest acc in
    let more = load_issuers rest (insert addr (record { bind = bind }) acc) in
    if is_empty addr
    then skip
    else if one_of bind (codes "node" ∷ codes "none" ∷ codes "any" ∷ [])
    then more
    else err invalid_bind

-- What is checked once the mode is known.
unfoldable pub finish_auth : Text → List RvIssuer → Result AuthError (Text × Map IssuerPolicy)
finish_auth mode listed = do
  guard (one_of mode (codes "public" ∷ codes "protected" ∷ [])) invalid_mode
  issuers ← load_issuers listed []
  guard (not (eqt mode (codes "protected") && is_empty issuers)) no_issuers
  ok (mode, issuers)

unfoldable pub load_rv_auth : AuthSource → Result AuthError (Text × Map IssuerPolicy)
unfolding load_issuers finish_auth
load_rv_auth no_path = ok (codes "public", [])
load_rv_auth missing = ok (codes "public", [])
load_rv_auth unreadable = err read_failed
load_rv_auth malformed = err parse_failed
load_rv_auth (parsed given listed) =
    let lowered = to_lower (trim_space given) in
    let open_to_all = is_empty lowered || eqt lowered (codes "open") in
    finish_auth (if open_to_all then codes "public" else lowered) listed

unfoldable pub mode_protected : Server → Bool
mode_protected s = equal_fold s.mode (codes "protected")

pub data AdmitError : Type 0 where
  no_credential no_expiry bad_address expired no_issuer : AdmitError

-- What one of the two attempts comes to: the next one, a refusal, or admission.
pub data Attempt : Type 0 where
  next refused admitted : Attempt

judge : Bool → Bool → Option IssuerPolicy → Attempt
judge bound over none = next
judge bound over (some p) =
    if (if bound then allows_bound p else allows_bearer p)
    then (if over then refused else admitted)
    else next

attempt : Crypto → Map IssuerPolicy → Bool → Text → Text → Bool → Attempt
unfolding judge
attempt c issuers bound message sig over = elim (recover_address c message sig) [
  | none ↦ next
  | some issuer ↦ judge bound over (lookup (to_lower issuer) issuers)
]

decide_attempts : Attempt → Attempt → Result AdmitError (Unit {0})
decide_attempts admitted _ = ok tt
decide_attempts refused _ = err expired
decide_attempts next admitted = ok tt
decide_attempts next refused = err expired
decide_attempts next next = err no_issuer

-- `now > msg.CredExpireMs`
abbrev pub is_over : RendezvousMsg → ℕ → Bool
is_over msg now = slt64 msg.cred_expire_ms (unix_milli now)

abbrev pub bound_message : Crypto → RendezvousMsg → Text → Text
bound_message c msg addr =
    credential_message (c.address_hex addr) msg.cred_issued_ms msg.cred_expire_ms

abbrev pub bearer_message : RendezvousMsg → Text
bearer_message msg = credential_message [] msg.cred_issued_ms msg.cred_expire_ms

unfoldable pub try_both :
    Crypto → Map IssuerPolicy → RendezvousMsg → ℕ → Text → Result AdmitError (Unit {0})
unfolding attempt decide_attempts
try_both c issuers msg now addr =
    decide_attempts
      (attempt c issuers true (bound_message c msg addr) msg.cred_sig (is_over msg now))
      (attempt c issuers false (bearer_message msg) msg.cred_sig (is_over msg now))

unfoldable pub admit_register :
    Crypto → Map IssuerPolicy → RendezvousMsg → ℕ → Result AdmitError (Unit {0})
admit_register c issuers msg now = do
  guard (not (is_empty msg.cred_sig)) no_credential
  guard (not (msg.cred_expire_ms == 0 || is_neg msg.cred_expire_ms)) no_expiry
  elim (addr_from_node_id c msg.id) [
    | err _ ↦ err bad_address
    | ok addr ↦ try_both c issuers msg now addr
  ]

-- A listed issuer signed the message, and its policy allows the shape.
pub record Grants (c : Crypto) (issuers : Map IssuerPolicy) (bound : Bool) (message sig : Text)
    : Type 0 where
  pub issuer : Text
  pub recovers : recover_address c message sig ≡ some issuer
  pub policy : IssuerPolicy
  pub listed : lookup (to_lower issuer) issuers ≡ some policy
  pub allowed : (if bound then allows_bound policy else allows_bearer policy) ≡ true

attempt-Grants :
    (c : Crypto) (issuers : Map IssuerPolicy) (bound : Bool) (message sig : Text) (over : Bool)
    → attempt c issuers bound message sig over ≡ admitted
    → Grants c issuers bound message sig × (over ≡ false)
unfolding attempt
attempt-Grants c issuers bound message sig over h =
    elim (Option-cases (recover_address c message sig)) [
      | inl e ↦ absurd (ground arith)
      | inr (issuer, e) ↦ elim (Option-cases (lookup (to_lower issuer) issuers)) [
        | inl f ↦ absurd (ground arith)
        | inr (policy, f) ↦ (
          record {
            issuer = issuer;
            recovers = e;
            policy = policy;
            listed = f;
            allowed = ground arith;
          },
          ground arith,
        )
      ]
    ]

decide_attempts-ok : (a b : Attempt) → decide_attempts a b ≡ ok tt → (a ≡ admitted) ⊎ (b ≡ admitted)
unfolding decide_attempts
decide_attempts-ok a b h = ground arith

try_both-Grants :
    (c : Crypto) (issuers : Map IssuerPolicy) (msg : RendezvousMsg) (now : ℕ) (addr : Text)
    → try_both c issuers msg now addr ≡ ok tt
    → (is_over msg now ≡ false)
      × (Grants c issuers true (bound_message c msg addr) msg.cred_sig
          ⊎ Grants c issuers false (bearer_message msg) msg.cred_sig)
try_both-Grants c issuers msg now addr h = pick (decide_attempts-ok _ _ (unfold try_both in h))
  where
    pick :
        (attempt c issuers true (bound_message c msg addr) msg.cred_sig (is_over msg now)
            ≡ admitted)
          ⊎ (attempt c issuers false (bearer_message msg) msg.cred_sig (is_over msg now) ≡ admitted)
        → (is_over msg now ≡ false)
          × (Grants c issuers true (bound_message c msg addr) msg.cred_sig
              ⊎ Grants c issuers false (bearer_message msg) msg.cred_sig)
    pick (inl e) = let g = attempt-Grants c issuers true _ _ _ e in (g.1, inl g.0)
    pick (inr e) = let g = attempt-Grants c issuers false _ _ _ e in (g.1, inr g.0)

-- The admission check passes nobody but with an expiry that is positive and has not passed, and
-- a signature of a listed issuer: over the node's own address, where the issuer's policy allows bound
-- credentials, or over no address, where it allows bearers.
pub admit_register_sound :
    (c : Crypto) (issuers : Map IssuerPolicy) (msg : RendezvousMsg) (now : ℕ)
    → admit_register c issuers msg now ≡ ok tt
    → (addr : Text) × (addr_from_node_id c msg.id ≡ ok addr)
      × ((msg.cred_expire_ms == 0 || is_neg msg.cred_expire_ms) ≡ false)
      × (is_over msg now ≡ false)
      × (Grants c issuers true (bound_message c msg addr) msg.cred_sig
          ⊎ Grants c issuers false (bearer_message msg) msg.cred_sig)
unfolding admit_register
admit_register_sound c issuers msg now h = elim (Result-cases (addr_from_node_id c msg.id)) [
  | inr (x, a) ↦ absurd (ground arith)
  | inl (addr, a) ↦
      let g = try_both-Grants c issuers msg now addr (ground arith) in
      (addr, a, ground arith, g.0, g.1)
]
