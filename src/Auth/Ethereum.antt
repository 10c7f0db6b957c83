-- ===== src/Auth/Ethereum.antt =====
-- pkg/auth/ethereum.go: the canonical string of a signed request, and personal signatures.
use servers.Base.{
  ℕ, zero, suc, ◌+◌, ◌-◌, ◌%◌, ◌≤◌, ◌<◌, ◌≡◌, ap, subst, ◌∙◌, Bool, [], ◌∷◌, ◌++◌, Option, none,
  some, Text, codes, join, length, set, get_elem?, leb, ◌==◌, if◌then◌else◌, trim_prefix,
  hex_encode, hex_decode, format_nat, All, IsByte, arith, hex_decode-hex_encode,
  trim_prefix-hex_encode, length-set, get_elem?-set_self, set-set, set-get_elem?, get_elem?-some,
  eqt, Option-cases, inl, inr,
}
use servers.Auth.Crypto.{Crypto}

unfoldable pub build_canonical : Text → Text → Text → Text → Text → Text → Text
build_canonical method path_query body_hash target nonce timestamp =
    join (b'\n' ∷ []) (method ∷ path_query ∷ body_hash ∷ target ∷ nonce ∷ timestamp ∷ [])

-- "\x19Ethereum Signed Message:\n%d", with the message behind it.
abbrev signed_bytes : Text → Text
signed_bytes message =
    0x19 ∷ (codes "Ethereum Signed Message:\n" ++ (format_nat (length message) ++ message))

-- `sig[64]`, at which the code looks only if there are 65 bytes.
abbrev pub recovery_id : Text → ℕ
recovery_id sig = elim (get_elem? sig 64) [ none ↦ 0 | some v ↦ v ]

-- `sigBytes[64] -= 27`, if it is 27 or more.
lower_v : Text → Text
lower_v sig = if leb 27 (recovery_id sig) then set sig 64 (recovery_id sig - 27) else sig

-- `sig[64] += 27`, on a byte.
raise_v : Text → Text
raise_v sig = set sig 64 ((recovery_id sig + 27) % 256)

-- The address of a decoded signature's signer, as bytes.
recover_bytes : Crypto → Text → Option Text → Option Text
unfolding lower_v
recover_bytes c message none = none
recover_bytes c message (some sig) =
    if length sig == 65
    then c.sig_to_address (c.keccak256 (signed_bytes message)) (lower_v sig)
    else none

hex_of : Crypto → Option Text → Option Text
hex_of c none = none
hex_of c (some addr) = some (c.address_hex addr)

is_address : Crypto → Text → Option Text → Option Bool
is_address c expected none = none
is_address c expected (some addr) = some (eqt addr (c.hex_to_address expected))

-- `none` is any of the errors.
unfoldable pub recover_address : Crypto → Text → Text → Option Text
unfolding recover_bytes hex_of
recover_address c message sig_hex =
    hex_of c (recover_bytes c message (hex_decode (trim_prefix sig_hex (codes "0x"))))

unfoldable pub verify_signature : Crypto → Text → Text → Text → Option Bool
unfolding recover_bytes is_address
verify_signature c message sig_hex expected =
    is_address c expected (recover_bytes c message (hex_decode (trim_prefix sig_hex (codes "0x"))))

-- `sign` is `crypto.Sign` with a private key.
unfoldable pub sign_message : Crypto → (Text → Option Text) → Text → Option Text
unfolding raise_v
sign_message c sign message = elim (sign (c.keccak256 (signed_bytes message))) [
  | none ↦ none
  | some sig ↦ some (hex_encode (raise_v sig))
]

-- What `crypto.Sign` documents of a key with this address: 65 bytes, the last 0 or 1, from which
-- `SigToPub` recovers the key.
pub record SignsFor (c : Crypto) (sign : Text → Option Text) (addr : Text) : Type 0 where
  pub size : (hash sig : Text) → sign hash ≡ some sig → length sig ≡ 65
  pub bytes : (hash sig : Text) → sign hash ≡ some sig → All IsByte sig
  pub parity : (hash sig : Text) → sign hash ≡ some sig → recovery_id sig ≤ 1
  pub recovers : (hash sig : Text) → sign hash ≡ some sig → c.sig_to_address hash sig ≡ some addr

lower_v-raise_v : (sig : Text) → length sig ≡ 65 → recovery_id sig ≤ 1 → lower_v (raise_v sig) ≡ sig
unfolding lower_v raise_v
lower_v-raise_v sig l p =
    let (v, e) = get_elem?-some sig 64 (omega arith) in
    let stored = get_elem?-set_self sig 64 ((v + 27) % 256) (omega arith) in
    let small : v ≤ 1 = rw (e, recovery_id) at p in
    let again : (v + 27) % 256 - 27 ≡ v = omega arith in
    let back =
      ap (set (set sig 64 ((v + 27) % 256)) 64) again
      ∙ set-set sig 64 ((v + 27) % 256) v
      ∙ set-get_elem? sig 64 v e in
    ground (arith, e, stored, back)

length-raise_v : (sig : Text) → length (raise_v sig) ≡ length sig
unfolding raise_v
length-raise_v sig = length-set sig 64 _

All-set : (s : Text) (i v : ℕ) → All IsByte s → v < 256 → All IsByte (set s i v)
All-set [] i v a h = tt
All-set (x ∷ s) zero v a h = (h, a.1)
All-set (x ∷ s) (suc i) v a h = (a.0, All-set s i v a.1 h)

raise_v-IsByte : (sig : Text) → All IsByte sig → All IsByte (raise_v sig)
unfolding raise_v
raise_v-IsByte sig a = All-set sig 64 _ a (omega arith)

recover_bytes-raise_v :
    (c : Crypto) (message sig : Text)
    → length sig ≡ 65
    → recovery_id sig ≤ 1
    → recover_bytes c message (some (raise_v sig))
      ≡ c.sig_to_address (c.keccak256 (signed_bytes message)) sig
unfolding recover_bytes
recover_bytes-raise_v c message sig l p =
    rw (length-raise_v sig, l)
      (ap (c.sig_to_address (c.keccak256 (signed_bytes message))) (lower_v-raise_v sig l p))

recover_bytes-signed :
    (c : Crypto) (message sig : Text)
    → length sig ≡ 65
    → All IsByte sig
    → recovery_id sig ≤ 1
    → recover_bytes c message (hex_decode (trim_prefix (hex_encode (raise_v sig)) (codes "0x")))
      ≡ c.sig_to_address (c.keccak256 (signed_bytes message)) sig
recover_bytes-signed c message sig l b p =
    rw
      (
        trim_prefix-hex_encode (raise_v sig),
        hex_decode-hex_encode (raise_v sig) (raise_v-IsByte sig b),
      )
      (recover_bytes-raise_v c message sig l p)

-- What a key signs, if `crypto.Sign` keeps its documentation, `RecoverAddress` recovers to the key's address, and `VerifySignature` accepts for
-- that address and for no other.
pub recover_address-sign_message :
    (c : Crypto) (sign : Text → Option Text) (addr message sig expected : Text)
    → SignsFor c sign addr
    → sign_message c sign message ≡ some sig
    → (recover_address c message sig ≡ some (c.address_hex addr))
      × (verify_signature c message sig expected ≡ some (eqt addr (c.hex_to_address expected)))
unfolding sign_message recover_address verify_signature
recover_address-sign_message c sign addr message sig expected k h =
    elim (Option-cases (sign (c.keccak256 (signed_bytes message)))) [
      | inl e ↦ absurd (ground arith)
      | inr (raw, e) ↦
          let hash = c.keccak256 (signed_bytes message) in
          let sent : hex_encode (raise_v raw) ≡ sig = ground arith in
          let found =
            recover_bytes-signed c message raw (k.size hash raw e) (k.bytes hash raw e)
              (k.parity hash raw e)
            ∙ k.recovers hash raw e in
          subst
            (λ s.
              (recover_address c message s ≡ some (c.address_hex addr))
              × (verify_signature c message s expected
                  ≡ some (eqt addr (c.hex_to_address expected))))
            sent (ap (hex_of c) found, ap (is_address c expected) found)
    ]
