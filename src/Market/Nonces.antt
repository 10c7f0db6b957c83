-- ===== src/Market/Nonces.antt =====
-- pkg/market/auth_write.go: signed requests, each accepted once. Times are Unix seconds, int64 words.
pub mod Replay
use servers.Base.{
  ℕ, ◌+◌, ◌≤◌, ◌<◌, ◌≡◌, ◌^◌, refl, sym, subst, Bool, true, false, not, ◌||◌, List, [], ◌∷◌, ◌⊎◌,
  inl, inr, Option, none, some, is_some, Text, Map, codes, is_empty, has_prefix, trim_prefix,
  trim_space, to_lower, hex_encode, parse_int, lookup, insert, retain, if◌then◌else◌, add64, sub64,
  slt64, two63, arith, Result, ok, err, Option-cases, Bool-cases, ltb, eqt, eqt_iff, eqt_refl,
  Distinct, insert-Distinct, retain-Distinct, lookup-insert, lookup-retain, two64,
}
use servers.Auth.Crypto.{Crypto}
use servers.Auth.Ethereum.{build_canonical, recover_address}

-- `sweep`: the expired entries go first.
unfoldable pub sweep : Map ℕ → ℕ → Map ℕ
sweep seen now = retain (λ _ expiry. not (slt64 expiry now)) seen

-- `none` if the nonce is spent; what the sweep took out is gone in either case.
unfoldable pub use_once : Map ℕ → Text → ℕ → ℕ → Map ℕ × Bool
unfolding sweep
use_once seen nonce expiry now =
    let swept = sweep seen now in
    if is_some (lookup nonce swept) then (swept, false) else (insert nonce expiry swept, true)

pub record Config : Type 0 where
  pub dev_insecure_skip_auth : Bool
  pub replay_win_s : ℕ

pub record Request : Type 0 where
  pub method : Text
  pub request_uri : Text
  pub body : Text
  pub authorization : Text
  pub nonce : Text
  pub timestamp : Text

pub data WriteError : Type 0 where
  no_authorization no_nonce bad_timestamp outside_window unrecoverable spent : WriteError

abbrev pub canonical : Crypto → Request → Text → Text
canonical c r target =
    build_canonical r.method r.request_uri (hex_encode (c.sha256 r.body)) (to_lower target) r.nonce
      r.timestamp

abbrev pub in_window : Config → ℕ → ℕ → Bool
in_window cfg ts now =
    not (slt64 ts (sub64 now cfg.replay_win_s) || slt64 (add64 now cfg.replay_win_s) ts)

-- What is left to do once the signature is recovered.
unfoldable pub spend : Map ℕ → Request → ℕ → ℕ → Text → Map ℕ × Result WriteError Text
spend seen r expiry now addr =
    let (seen', fresh) = use_once seen r.nonce expiry now in
    (seen', if fresh then ok (to_lower addr) else err spent)

unfoldable pub verify_write :
    Crypto → Config → Map ℕ → Request → Text → ℕ → Map ℕ × Result WriteError Text
unfolding spend
verify_write c cfg seen r target now =
    if cfg.dev_insecure_skip_auth
    then (seen, ok (to_lower target))
    else if not (has_prefix r.authorization (codes "ISANN "))
    then (seen, err no_authorization)
    else if is_empty r.nonce || is_empty r.timestamp
    then (seen, err no_nonce)
    else elim (parse_int r.timestamp) [
      | none ↦ (seen, err bad_timestamp)
      | some ts ↦
          if not (in_window cfg ts now)
          then (seen, err outside_window)
          else elim (recover_address c (canonical c r target)
              (trim_space (trim_prefix r.authorization (codes "ISANN ")))) [
                | none ↦ (seen, err unrecoverable)
                | some addr ↦ spend seen r (add64 ts cfg.replay_win_s) now addr
              ]
    ]

-- Requests in the order in which the server checks them, with their times.
unfoldable pub verify_all : Crypto → Config → Map ℕ → List (ℕ × Request × Text) → Map ℕ
unfolding verify_write
verify_all c cfg seen [] = seen
verify_all c cfg seen ((now, r, target) ∷ rs) =
    verify_all c cfg (verify_write c cfg seen r target now).0 rs

-- The clock does not run back, nor past the year 10^11.
abbrev pub IsOrdered : ℕ → List (ℕ × Request × Text) → ℕ → Type 0
IsOrdered t [] t' = t ≤ t'
IsOrdered t ((now, r, target) ∷ rs) t' = (t ≤ now) × IsOrdered now rs t'

-- What a request that is accepted has: a time that is read and lies in the window, a signature over
-- the request and the target from which the returned address is recovered, and a fresh nonce.
pub record IsAccepted (c : Crypto) (cfg : Config) (seen : Map ℕ) (r : Request) (target : Text)
    (now : ℕ) (signer : Text) : Type 0 where
  pub ts : ℕ
  pub timed : parse_int r.timestamp ≡ some ts
  pub inside : in_window cfg ts now ≡ true
  pub addr : Text
  pub recovers :
      recover_address c
        (canonical c r target)
        (trim_space (trim_prefix r.authorization (codes "ISANN ")))
      ≡ some addr
  pub lowered : to_lower addr ≡ signer
  pub fresh : lookup r.nonce (sweep seen now) ≡ none
  pub stored :
      (verify_write c cfg seen r target now).0
      ≡ insert r.nonce (add64 ts cfg.replay_win_s) (sweep seen now)

-- Unless checks are switched off, a request is accepted only if its time lies in the replay window, its signature covers the method,
-- the path, the body, the target, the nonce and the time, and its nonce is not remembered; the
-- address returned is the signer's, in lower case, and the nonce is then remembered.
pub verify_write_sound :
    (c : Crypto) (cfg : Config) (seen : Map ℕ) (r : Request) (target : Text) (now : ℕ)
    (signer : Text)
    → cfg.dev_insecure_skip_auth ≡ false
    → (verify_write c cfg seen r target now).1 ≡ ok signer
    → IsAccepted c cfg seen r target now signer
unfolding verify_write spend use_once
verify_write_sound c cfg seen r target now signer d h =
    elim (Option-cases (parse_int r.timestamp)) [
      | inl f ↦ absurd (ground arith)
      | inr (ts, f) ↦
          let sig = trim_space (trim_prefix r.authorization (codes "ISANN ")) in
          elim (Option-cases (recover_address c (canonical c r target) sig)) [
            | inl g ↦ absurd (ground arith)
            | inr (addr, g) ↦ elim (Option-cases (lookup r.nonce (sweep seen now))) [
              | inr (x, l) ↦ absurd (ground arith)
              | inl l ↦ record {
                ts = ts;
                timed = f;
                inside = ground arith;
                addr = addr;
                recovers = g;
                lowered = ground arith;
                fresh = l;
                stored = ground arith;
              }
            ]
          ]
    ]
