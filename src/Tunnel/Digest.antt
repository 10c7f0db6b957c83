-- ===== src/Tunnel/Digest.antt =====
-- pkg/tunnel/session.go: the bytes that a register and a ping are signed over.
use servers.Base.{
  ℕ, ◌<◌, ◌≡◌, ◌≢◌, ◌++◌, length, Text, codes, be32, be64, be32_append_inj, append-inj,
  append_left-inj, be64-inj, head_eq, two64, arith,
}
use servers.Auth.Crypto.{Crypto}

-- `appendField`: a label, the length of the value in 32 bits, and the value.
append_field : Text → Text → Text → Text
append_field label value rest = label ++ (be32 (length value) ++ (value ++ rest))

pub record RegisterFields : Type 0 where
  pub node_id : Text
  pub cert_hash : Text
  pub version : Text
  pub bin_hash : Text
  pub owner_address : Text
  pub hardware_hash : Text
  pub timestamp_ms : ℕ

-- What `RegisterDigest` writes into the hash.
pub register_bytes : RegisterFields → Text
register_bytes f = append_field (codes "id") f.node_id (
    append_field (codes "cert") f.cert_hash (
      append_field (codes "ver") f.version (
        append_field (codes "bin") f.bin_hash (
          append_field (codes "own") f.owner_address
            (append_field (codes "hw") f.hardware_hash (codes "ts" ++ be64 f.timestamp_ms))))))

pub register_digest : Crypto → RegisterFields → Text
register_digest c f = c.sha256 (register_bytes f)

pub ping_bytes : Text → ℕ → Text
ping_bytes role timestamp_ms = append_field (codes "role") role (codes "ts" ++ be64 timestamp_ms)

pub ping_digest : Crypto → Text → ℕ → Text
ping_digest c role timestamp_ms = c.sha256 (ping_bytes role timestamp_ms)

append_field-inj :
    (label v w s t : Text)
    → length v < 0x100000000
    → length w < 0x100000000
    → append_field label v s ≡ append_field label w t
    → (v ≡ w) × (s ≡ t)
unfolding append_field
append_field-inj label v w s t hv hw h =
    let p =
      be32_append_inj (length v) (length w) (v ++ s) (w ++ t) hv hw (append_left-inj label _ _ h) in
    append-inj v w s t p.0 p.1

-- The fields are short enough for their 32-bit lengths, and the time is an int64 word.
pub record IsEncodable (f : RegisterFields) : Type 0 where
  pub node_id : length f.node_id < 0x100000000
  pub cert_hash : length f.cert_hash < 0x100000000
  pub version : length f.version < 0x100000000
  pub bin_hash : length f.bin_hash < 0x100000000
  pub owner_address : length f.owner_address < 0x100000000
  pub hardware_hash : length f.hardware_hash < 0x100000000
  pub timestamp_ms : f.timestamp_ms < two64

-- The bytes that a register signs determine every field of it: no part of one field can be read as
-- part of another, provided that the texts are shorter than 4 GiB and the time is an int64.
pub register_bytes-inj :
    (f g : RegisterFields)
    → IsEncodable f
    → IsEncodable g
    → register_bytes f ≡ register_bytes g
    → f ≡ g
unfolding register_bytes
register_bytes-inj f g a b h =
    let p1 = append_field-inj (codes "id") _ _ _ _ a.node_id b.node_id h in
    let p2 = append_field-inj (codes "cert") _ _ _ _ a.cert_hash b.cert_hash p1.1 in
    let p3 = append_field-inj (codes "ver") _ _ _ _ a.version b.version p2.1 in
    let p4 = append_field-inj (codes "bin") _ _ _ _ a.bin_hash b.bin_hash p3.1 in
    let p5 = append_field-inj (codes "own") _ _ _ _ a.owner_address b.owner_address p4.1 in
    let p6 = append_field-inj (codes "hw") _ _ _ _ a.hardware_hash b.hardware_hash p5.1 in
    let p7 = be64-inj _ _ a.timestamp_ms b.timestamp_ms (append_left-inj (codes "ts") _ _ p6.1) in
    λ i. record {
      node_id = p1.0 i;
      cert_hash = p2.0 i;
      version = p3.0 i;
      bin_hash = p4.0 i;
      owner_address = p5.0 i;
      hardware_hash = p6.0 i;
      timestamp_ms = p7 i;
    }

-- The bytes that a ping signs determine its role and its time, if roles are shorter than 4 GiB and
-- times are int64, and are never those of a register.
ping_bytes-inj :
    (role role' : Text) (ts ts' : ℕ) (f : RegisterFields)
    → length role < 0x100000000
    → length role' < 0x100000000
    → ts < two64
    → ts' < two64
    → ping_bytes role ts ≡ ping_bytes role' ts'
    → (role ≡ role') × (ts ≡ ts') × (ping_bytes role ts ≢ register_bytes f)
unfolding ping_bytes register_bytes append_field
ping_bytes-inj role role' ts ts' f hr hr' ht ht' h =
    let p = append_field-inj (codes "role") role role' _ _ hr hr' h in
    (
      p.0,
      be64-inj ts ts' ht ht' (append_left-inj (codes "ts") _ _ p.1),
      λ g. absurd (omega (arith, (head_eq g).0)),
    )
