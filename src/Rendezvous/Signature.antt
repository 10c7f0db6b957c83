-- ===== src/Rendezvous/Signature.antt =====
-- pkg/rendezvous/session.go: the checks on signed register and ping frames.
use servers.Base.{
  ℕ, ◌+◌, ◌-◌, ◌%◌, ◌*◌, ◌≤◌, ◌<◌, ◌≡◌, ◌≢◌, ◌↔◌, ◌⊎◌, inl, inr, Bool, true, false, not, ◌&&◌, [],
  ◌∷◌, Option, none, some, Text, length, ltb, ◌==◌, if◌then◌else◌, sub64, neg64, is_neg, two63,
  two64, arith, Result, ok, guard, or_err, ◌>>=◌, ◌>>◌, equal_fold_bytes, equal_fold_bytes-Stray,
  equal_fold_bytes_refl, Stray, Result-cases, Option-cases,
}
use servers.Setup.{HardwareSpec}
use servers.Auth.Crypto.{Crypto}
use servers.Tunnel.Message.{RendezvousMsg}
use servers.Tunnel.Digest.{RegisterFields, register_digest, ping_digest}
use servers.Rendezvous.State.{unix_milli}
use servers.Rendezvous.Identity.{
  SigError, bad_length, no_timestamp, skewed, unrecoverable, wrong_signer, addr_from_node_id,
}
use Prim.Native.Nat.{bit_xor, zero, suc, ◌/◌}

fnv_loop : ℕ → Text → ℕ
fnv_loop h [] = h
fnv_loop h (b ∷ s) = fnv_loop (bit_xor h b * 1099511628211 % two64) s

hex_digit : ℕ → ℕ
hex_digit d = if ltb d 10 then d + b'0' else d - 10 + b'a'

-- The lowest digits, most significant first.
hex_digits : ℕ → ℕ → Text → Text
unfolding hex_digit
hex_digits zero n rest = rest
hex_digits (suc k) n rest = hex_digits k (n / 16) (hex_digit (n % 16) ∷ rest)

-- FNV-1a of the JSON, as `%016x`.
unfoldable pub hash_hardware_for_verify : Crypto → Option HardwareSpec → Text
unfolding fnv_loop hex_digits
hash_hardware_for_verify c none = []
hash_hardware_for_verify c (some hw) = elim (c.marshal_hardware hw) [
  | none ↦ []
  | some json ↦ hex_digits 16 (fnv_loop 14695981039346656037 json) []
]

-- `skew := now - ts; if skew < 0 { skew = -skew }; skew > 60_000`, on int64.
unfoldable pub skew_too_large : ℕ → ℕ → Bool
skew_too_large now_ms ts =
    let skew : ℕ = sub64 now_ms ts in
    let size : ℕ = if is_neg skew then neg64 skew else skew in not (is_neg size) && ltb 60000 size

-- What both checks do, given how the digest is made.
verify_signed : Crypto → Text → RendezvousMsg → ℕ → Result SigError (Unit {0})
unfolding skew_too_large
verify_signed c digest msg now = do
  guard (length msg.signature == 65) bad_length
  guard (not (msg.timestamp_ms == 0)) no_timestamp
  guard (not (skew_too_large (unix_milli now) msg.timestamp_ms)) skewed
  expected ← addr_from_node_id c msg.id
  recovered ← or_err (c.sig_to_address digest msg.signature) unrecoverable
  guard (equal_fold_bytes c.same_fold recovered expected) wrong_signer

abbrev pub register_fields : RendezvousMsg → Text → RegisterFields
register_fields msg hw_hash = record {
  node_id = msg.id;
  cert_hash = msg.cert_hash;
  version = msg.version;
  bin_hash = msg.bin_hash;
  owner_address = msg.owner_address;
  hardware_hash = hw_hash;
  timestamp_ms = msg.timestamp_ms;
}

unfoldable pub verify_register_signature :
    Crypto → RendezvousMsg → Text → ℕ → Result SigError (Unit {0})
unfolding verify_signed
verify_register_signature c msg hw_hash now =
    verify_signed c (register_digest c (register_fields msg hw_hash)) msg now

unfoldable pub verify_ping_signature : Crypto → RendezvousMsg → ℕ → Result SigError (Unit {0})
unfolding verify_signed
verify_ping_signature c msg now = verify_signed c (ping_digest c msg.role msg.timestamp_ms) msg now

-- The two times differ by a minute at most.
abbrev pub Near : ℕ → ℕ → Type 0
Near now ts = (now ≤ ts + 60000) × (ts ≤ now + 60000)

-- With a clock from one minute on, an int64 time passes the freshness check exactly when it is within
-- a minute of the clock, or 2^63 before the clock, where the difference overflows.
skew_too_large_iff :
    (now ts : ℕ)
    → now < two63
    → 60000 ≤ now
    → ts < two64
    → (skew_too_large now ts ≡ false) ↔ (Near now ts ⊎ (ts ≡ now + two63))
unfolding skew_too_large
skew_too_large_iff now ts h m t = (λ e. ground arith, λ e. ground arith)

-- A signature of 65 bytes over the digest, of an address that folds to the one in the message's id, and
-- a time that is not zero and is within a minute of the clock, or 2^63 ms before it.
pub record IsSigned (c : Crypto) (digest : Text) (msg : RendezvousMsg) (now : ℕ) : Type 0 where
  pub length_ok : length msg.signature ≡ 65
  pub timed : msg.timestamp_ms ≢ 0
  pub fresh : Near (unix_milli now) msg.timestamp_ms ⊎ (msg.timestamp_ms ≡ unix_milli now + two63)
  pub expected : Text
  pub addressed : addr_from_node_id c msg.id ≡ ok expected
  pub signer : Text
  pub recovers : c.sig_to_address digest msg.signature ≡ some signer
  pub folds : equal_fold_bytes c.same_fold signer expected ≡ true

-- The clock reads a minute or more, and both times are int64 milliseconds.
abbrev pub IsTimed : RendezvousMsg → ℕ → Type 0
IsTimed msg now = (60000 ≤ unix_milli now) × (unix_milli now < two63) × (msg.timestamp_ms < two64)

verify_signed-IsSigned :
    (c : Crypto) (digest : Text) (msg : RendezvousMsg) (now : ℕ)
    → IsTimed msg now
    → verify_signed c digest msg now ≡ ok tt
    → IsSigned c digest msg now
unfolding verify_signed
verify_signed-IsSigned c digest msg now (m, w, t) h =
    let fresh : skew_too_large (unix_milli now) msg.timestamp_ms ≡ false = ground arith in
    elim (Result-cases (addr_from_node_id c msg.id)) [
      | inr (x, a) ↦ absurd (ground arith)
      | inl (expected, a) ↦ elim (Option-cases (c.sig_to_address digest msg.signature)) [
        | inl s ↦ absurd (ground arith)
        | inr (signer, s) ↦ record {
          length_ok = ground arith;
          timed = λ z. ground arith;
          fresh = (skew_too_large_iff (unix_milli now) msg.timestamp_ms w m t).0 fresh;
          expected = expected;
          addressed = a;
          signer = signer;
          recovers = s;
          folds = ground arith;
        }
      ]
    ]

IsSigned-verify_signed :
    (c : Crypto) (digest : Text) (msg : RendezvousMsg) (now : ℕ)
    → IsTimed msg now
    → IsSigned c digest msg now
    → verify_signed c digest msg now ≡ ok tt
unfolding verify_signed
IsSigned-verify_signed c digest msg now (m, w, t) i =
    let fresh : skew_too_large (unix_milli now) msg.timestamp_ms ≡ false =
      (skew_too_large_iff (unix_milli now) msg.timestamp_ms w m t).1 i.fresh in
    rw (i.addressed, i.recovers, i.folds) (ground (arith, i.length_ok, i.timed, fresh))

-- With int64 times and a clock from one minute on, a register passes exactly if it carries a signature
-- of 65 bytes over the digest of its own fields and its time, the signer's address folds to the one in
-- its id, and its time is not zero and lies within a minute of the clock, before or after, or 2^63 ms
-- before the clock, which passes by overflow.
pub verify_register_signature_iff :
    (c : Crypto) (msg : RendezvousMsg) (hw_hash : Text) (now : ℕ)
    → IsTimed msg now
    → (verify_register_signature c msg hw_hash now ≡ ok tt)
      ↔ IsSigned c (register_digest c (register_fields msg hw_hash)) msg now
unfolding verify_register_signature
verify_register_signature_iff c msg hw_hash now t =
    (λ h. verify_signed-IsSigned c _ msg now t h, λ i. IsSigned-verify_signed c _ msg now t i)

-- The same of a ping, over the digest of its role and its time.
verify_ping_signature_iff :
    (c : Crypto) (msg : RendezvousMsg) (now : ℕ)
    → IsTimed msg now
    → (verify_ping_signature c msg now ≡ ok tt)
      ↔ IsSigned c (ping_digest c msg.role msg.timestamp_ms) msg now
unfolding verify_ping_signature
verify_ping_signature_iff c msg now t =
    (λ h. verify_signed-IsSigned c _ msg now t h, λ i. IsSigned-verify_signed c _ msg now t i)

-- A ping passes that has 65 bytes of signature and a time, passes the freshness check and names an
-- address in its id, if the signature recovers to that address.
verify_ping_signature_complete :
    (c : Crypto) (msg : RendezvousMsg) (now : ℕ) (node : Text)
    → length msg.signature ≡ 65
    → msg.timestamp_ms ≢ 0
    → skew_too_large (unix_milli now) msg.timestamp_ms ≡ false
    → addr_from_node_id c msg.id ≡ ok node
    → c.sig_to_address (ping_digest c msg.role msg.timestamp_ms) msg.signature ≡ some node
    → verify_ping_signature c msg now ≡ ok tt
unfolding verify_ping_signature
verify_ping_signature_complete c msg now node l t f a s =
    rw (a, s, equal_fold_bytes_refl c.same_fold node) (ground arith)

-- Where the node's address and another's consist of bytes from 0x80 to 0xBF alone and are of one
-- length, a register that is fresh passes with the other's signature for the node's: both read as
-- broken runes, which are equal.
pub verify_register_signature_confuses :
    (c : Crypto) (msg : RendezvousMsg) (hw_hash : Text) (now : ℕ) (node other : Text)
    → length msg.signature ≡ 65
    → msg.timestamp_ms ≢ 0
    → skew_too_large (unix_milli now) msg.timestamp_ms ≡ false
    → addr_from_node_id c msg.id ≡ ok node
    → c.sig_to_address (register_digest c (register_fields msg hw_hash)) msg.signature ≡ some other
    → length other ≡ length node
    → Stray node
    → Stray other
    → verify_register_signature c msg hw_hash now ≡ ok tt
unfolding verify_register_signature
verify_register_signature_confuses c msg hw_hash now node other l t f a s e x y =
    rw (a, s, equal_fold_bytes-Stray c.same_fold other node e y x) (ground arith)
