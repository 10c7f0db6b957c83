-- ===== src/Market/Nonces/Replay.antt =====
-- A nonce that was accepted is not accepted again with the same time.
use servers.Base.{
  ℕ, ◌≤◌, ◌<◌, ◌≡◌, ◌≢◌, ap, ◌∙◌, lookup-insert_self, ◌^◌, sym, subst, Bool, true, false, not, ◌||◌,
  List, [], ◌∷◌, ◌⊎◌, inl, inr, none, some, Text, Map, codes, is_empty, has_prefix, trim_prefix,
  trim_space, parse_int, lookup, insert, retain, add64, slt64, two63, arith, ok, Option-cases,
  Bool-cases, eqt, eqt_iff, Distinct, insert-Distinct, retain-Distinct, lookup-insert,
  lookup-retain,
}
use servers.Auth.Crypto.{Crypto}
use servers.Auth.Ethereum.{recover_address}
use servers.Market.Nonces.{
  sweep, use_once, Config, Request, canonical, in_window, spend, verify_write, verify_all,
  IsOrdered, verify_write_sound,
}

-- A nonce is remembered until its expiry has passed.
pub record IsSpent (nonce : Text) (expiry : ℕ) (now : ℕ) (seen : Map ℕ) : Type 0 where
  pub distinct : Distinct seen
  pub remembered : (lookup nonce seen ≡ some expiry) ⊎ (expiry < now)

sweep-IsSpent :
    (n : Text) (e t : ℕ) (seen : Map ℕ) (now : ℕ)
    → t ≤ now
    → now < two63
    → e < two63
    → IsSpent n e t seen
    → IsSpent n e now (sweep seen now)
unfolding sweep
sweep-IsSpent n e t seen now h k l s = record {
  distinct = retain-Distinct (λ _ x. not (slt64 x now)) seen s.distinct;
  remembered = still s.remembered;
}
  where
    still :
        (lookup n seen ≡ some e) ⊎ (e < t)
        → (lookup n (retain (λ _ x. not (slt64 x now)) seen) ≡ some e) ⊎ (e < now)
    still (inr f) = inr (omega arith)
    still (inl f) = elim (Bool-cases (slt64 e now)) [
      | inl g ↦ inr (ground arith)
      | inr g ↦ inl (ground (arith, lookup-retain (λ _ x. not (slt64 x now)) n seen s.distinct))
    ]

insert-IsSpent :
    (n : Text) (e : ℕ) (seen : Map ℕ) (nonce : Text) (expiry now : ℕ)
    → lookup nonce seen ≡ none
    → IsSpent n e now seen
    → IsSpent n e now (insert nonce expiry seen)
insert-IsSpent n e seen nonce expiry now f s = record {
  distinct = insert-Distinct nonce expiry seen s.distinct;
  remembered = still s.remembered;
}
  where
    still :
        (lookup n seen ≡ some e) ⊎ (e < now)
        → (lookup n (insert nonce expiry seen) ≡ some e) ⊎ (e < now)
    still (inr g) = inr g
    still (inl g) = elim (Bool-cases (eqt nonce n)) [
      | inr d ↦ inl (ground (arith, lookup-insert nonce n expiry seen))
      | inl d ↦ absurd (ground (arith, eqt_iff nonce n))
    ]

use_once-IsSpent :
    (n : Text) (e t : ℕ) (seen : Map ℕ) (nonce : Text) (expiry now : ℕ)
    → t ≤ now
    → now < two63
    → e < two63
    → IsSpent n e t seen
    → IsSpent n e now (use_once seen nonce expiry now).0
unfolding use_once
use_once-IsSpent n e t seen nonce expiry now h k l s =
    let swept = sweep-IsSpent n e t seen now h k l s in
    elim (Option-cases (lookup nonce (sweep seen now))) [
      | inl f ↦
          subst (IsSpent n e now) (ground arith)
            (insert-IsSpent n e (sweep seen now) nonce expiry now f swept)
      | inr (x, f) ↦ subst (IsSpent n e now) (ground arith) swept
    ]

later-IsSpent :
    (n : Text) (e t now : ℕ) (seen : Map ℕ) → t ≤ now → IsSpent n e t seen → IsSpent n e now seen
later-IsSpent n e t now seen h s = record { distinct = s.distinct; remembered = still s.remembered }
  where
    still : (lookup n seen ≡ some e) ⊎ (e < t) → (lookup n seen ≡ some e) ⊎ (e < now)
    still (inl f) = inl f
    still (inr f) = inr (omega arith)

-- Before the nonce is looked at.
abbrev is_refused : Config → Request → Bool
is_refused cfg r =
    not (has_prefix r.authorization (codes "ISANN ")) || (is_empty r.nonce || is_empty r.timestamp)

verify_write-seen :
    (c : Crypto) (cfg : Config) (seen : Map ℕ) (r : Request) (target : Text) (now : ℕ)
    → ((verify_write c cfg seen r target now).0 ≡ seen)
      ⊎ ((expiry : ℕ) × ((verify_write c cfg seen r target now).0
            ≡ (use_once seen r.nonce expiry now).0))
unfolding verify_write spend
verify_write-seen c cfg seen r target now =
    elim (Bool-cases (cfg.dev_insecure_skip_auth || is_refused cfg r)) [
      | inl d ↦ inl (ground arith)
      | inr d ↦ elim (Option-cases (parse_int r.timestamp)) [
        | inl f ↦ inl (ground arith)
        | inr (ts, f) ↦ elim (Bool-cases (in_window cfg ts now)) [
          | inr w ↦ inl (ground arith)
          | inl w ↦
              let sig = trim_space (trim_prefix r.authorization (codes "ISANN ")) in
              elim (Option-cases (recover_address c (canonical c r target) sig)) [
                | inl g ↦ inl (ground arith)
                | inr (addr, g) ↦ inr (add64 ts cfg.replay_win_s, ground arith)
              ]
        ]
      ]
    ]

verify_write-IsSpent :
    (c : Crypto) (cfg : Config) (n : Text) (e t : ℕ) (seen : Map ℕ) (r : Request) (target : Text)
    (now : ℕ)
    → t ≤ now
    → now < two63
    → e < two63
    → IsSpent n e t seen
    → IsSpent n e now (verify_write c cfg seen r target now).0
verify_write-IsSpent c cfg n e t seen r target now h k l s =
    elim (verify_write-seen c cfg seen r target now) [
      | inl same ↦ subst (IsSpent n e now) (sym same) (later-IsSpent n e t now seen h s)
      | inr (expiry, used) ↦
          subst (IsSpent n e now) (sym used)
            (use_once-IsSpent n e t seen r.nonce expiry now h k l s)
    ]

IsOrdered-le : (t : ℕ) (rs : List (ℕ × Request × Text)) (t' : ℕ) → IsOrdered t rs t' → t ≤ t'
IsOrdered-le t [] t' o = o
IsOrdered-le t ((now, r, target) ∷ rs) t' o =
    let b = IsOrdered-le now rs t' o.1 in omega (arith, o.0)

verify_all-IsSpent :
    (c : Crypto) (cfg : Config) (n : Text) (e t t' : ℕ) (seen : Map ℕ)
    (rs : List (ℕ × Request × Text))
    → IsOrdered t rs t'
    → t' < two63
    → e < two63
    → IsSpent n e t seen
    → IsSpent n e t' (verify_all c cfg seen rs)
unfolding verify_all
verify_all-IsSpent c cfg n e t t' seen [] o k l s = later-IsSpent n e t t' seen o s
verify_all-IsSpent c cfg n e t t' seen ((now, r, target) ∷ rs) o k l s =
    verify_all-IsSpent c cfg n e now t' (verify_write c cfg seen r target now).0 rs o.1 k l (
      verify_write-IsSpent c cfg n e t seen r target now o.0
        (let b = IsOrdered-le now rs t' o.1 in omega arith) l s)

sweep-Distinct : (seen : Map ℕ) (now : ℕ) → Distinct seen → Distinct (sweep seen now)
unfolding sweep
sweep-Distinct seen now d = retain-Distinct (λ _ x. not (slt64 x now)) seen d

window_end :
    (cfg : Config) (ts now : ℕ)
    → cfg.replay_win_s < 2 ^ 61
    → now < 2 ^ 62
    → in_window cfg ts now ≡ true
    → add64 ts cfg.replay_win_s < two63
window_end cfg ts now w n i = ground arith

window_open :
    (cfg : Config) (ts now later : ℕ)
    → cfg.replay_win_s ≤ now
    → cfg.replay_win_s < 2 ^ 61
    → later < 2 ^ 62
    → now ≤ later
    → in_window cfg ts now ≡ true
    → in_window cfg ts later ≡ true
    → later ≤ add64 ts cfg.replay_win_s
window_open cfg ts now later w w' l n i j = ground arith

-- Where checks are on and the cache holds each nonce once, a request that was accepted is refused
-- ever after: no request with its nonce and its time is accepted again, whatever else it says and
-- whatever requests come in between, as long as the clock does not run back and stays below 2^62,
-- and the window is below 2^61 and not longer than the clock's reading at the first request.
pub verify_write_once :
    (c : Crypto) (cfg : Config) (seen : Map ℕ) (r again : Request) (target target' : Text)
    (now later : ℕ) (signer signer' : Text) (between : List (ℕ × Request × Text))
    → Distinct seen
    → cfg.dev_insecure_skip_auth ≡ false
    → cfg.replay_win_s ≤ now
    → cfg.replay_win_s < 2 ^ 61
    → later < 2 ^ 62
    → IsOrdered now between later
    → again.nonce ≡ r.nonce
    → again.timestamp ≡ r.timestamp
    → (verify_write c cfg seen r target now).1 ≡ ok signer
    → (verify_write c cfg
        (verify_all c cfg (verify_write c cfg seen r target now).0 between)
        again
        target'
        later).1
      ≢ ok signer'
verify_write_once c cfg seen r again target target' now later signer signer' between d skip w w' l o
      n t h h' =
    let first = verify_write_sound c cfg seen r target now signer skip h in
    let seen' = (verify_write c cfg seen r target now).0 in
    let e = add64 first.ts cfg.replay_win_s in
    let all = verify_all c cfg seen' between in
    let second = verify_write_sound c cfg all again target' later signer' skip h' in
    let le = IsOrdered-le now between later o in
    let same : first.ts ≡ second.ts = ground (arith, first.timed, second.timed, t) in
    let small : e < two63 = window_end cfg first.ts now w' (omega arith) first.inside in
    let open_still : later ≤ e =
      window_open cfg first.ts now later w w' l le first.inside
        (ap (λ x. in_window cfg x later) same ∙ second.inside) in
    let swept = sweep seen now in
    let start : IsSpent r.nonce e now (insert r.nonce e swept) = record {
      distinct = insert-Distinct r.nonce e swept (sweep-Distinct seen now d);
      remembered = inl (lookup-insert_self r.nonce e swept);
    } in
    let spent =
      verify_all-IsSpent c cfg r.nonce e now later seen' between o (omega arith) small
        (subst (IsSpent r.nonce e now) (sym first.stored) start) in
    let after = sweep-IsSpent r.nonce e later all later (omega arith) (omega arith) small spent in
    let gone : lookup r.nonce (sweep all later) ≡ none =
      ap (λ x. lookup x (sweep all later)) (sym n) ∙ second.fresh in
    elim after.remembered [
      | inl k ↦ absurd (ground (arith, k, gone))
      | inr k ↦ absurd (omega arith)
    ]
