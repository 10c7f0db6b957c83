-- ===== src/Tests/Wire.antt =====
-- Runs of what goes over the wire: digests, credentials, personal signatures, frames, sessions.
use servers.Base.{
  ℕ, ◌≡◌, subst, ◌≤◌, refl, [], ◌∷◌, ◌++◌, none, some, Option, Text, List, codes, arith, eqt,
  length, take, All, IsByte, hex_encode, to_lower, trim_space, replicate,
}
use servers.Auth.Ethereum.{
  recover_address, verify_signature, sign_message, SignsFor, recovery_id,
  recover_address-sign_message,
}
use servers.Tunnel.Digest.{RegisterFields, IsEncodable, register_bytes-inj}
use servers.Tunnel.Credential.{
  Grant, IsName, parse_access_message, access_message, parse_credential_message, credential_message,
  parse_access_message-access_message,
}
use servers.Signal.Proto.{Codec}
use servers.Tunnel.Mux.{
  Packet, Channels, dispatch_all, all_for, for_signal, for_punch, for_quic, dispatch_all_lem,
}
use servers.Tests.Data.{toy, signature65, start_ms, node, registered}

abbrev fields : RegisterFields
fields = record {
  node_id = node;
  cert_hash = [];
  version = codes "1.2";
  bin_hash = [];
  owner_address = [];
  hardware_hash = [];
  timestamp_ms = start_ms;
}

fields-IsEncodable : IsEncodable fields
fields-IsEncodable = record {
  node_id = omega arith;
  cert_hash = omega arith;
  version = omega arith;
  bin_hash = omega arith;
  owner_address = omega arith;
  hardware_hash = omega arith;
  timestamp_ms = omega arith;
}

register_bytes-inj_example : fields ≡ fields
register_bytes-inj_example =
    register_bytes-inj fields fields fields-IsEncodable fields-IsEncodable refl

buyer_lowered : to_lower (codes "0xb2") ≡ codes "0xb2"
unfolding to_lower
buyer_lowered = refl

buyer_trimmed : trim_space (codes "0xb2") ≡ codes "0xb2"
unfolding trim_space
buyer_trimmed = refl

buyer-IsName : IsName (codes "0xb2")
buyer-IsName = record { plain = ground arith; lowered = buyer_lowered; trimmed = buyer_trimmed }

parse_access_message-access_message_example :
    let g : Grant = record { who = codes "0xb2"; issued_ms = 5; expire_ms = start_ms } in
    (parse_access_message (access_message (codes "0xb2") 5 start_ms) ≡ some g)
    × (parse_credential_message (credential_message (codes "0xb2") 5 start_ms) ≡ some g)
    × (parse_access_message (credential_message (codes "0xb2") 5 start_ms) ≡ none)
    × (parse_credential_message (access_message (codes "0xb2") 5 start_ms) ≡ none)
parse_access_message-access_message_example =
    parse_access_message-access_message (codes "0xb2") 5 start_ms buyer-IsName (omega arith)
      (omega arith)

abbrev sign : Text → Option Text
sign _ = some signature65

sign-SignsFor : SignsFor toy sign (codes "0xa1")
sign-SignsFor = record {
  size = λ hash sig h. subst (λ s. length s ≡ 65) (signed_is sig h) refl;
  bytes = λ hash sig h. subst (λ s. All IsByte s) (signed_is sig h) (ground arith);
  parity = λ hash sig h. subst (λ s. recovery_id s ≤ 1) (signed_is sig h) (omega arith);
  recovers = λ hash sig h. refl;
}
  where
    signed_is :
        (sig : Text) → ◌≡◌ {A = Option Text} (some signature65) (some sig) → signature65 ≡ sig
    signed_is sig h = cc

abbrev sent : Text
sent = hex_encode (replicate 64 0 ++ (27 ∷ []))

sends : sign_message toy sign (codes "GET /") ≡ some sent
unfolding sign_message
sends = refl

recover_address-sign_message_example :
    (recover_address toy (codes "GET /") sent ≡ some (codes "0xa1"))
    × (verify_signature toy (codes "GET /") sent (codes "0xb2")
        ≡ some (eqt (codes "0xa1") (codes "0xb2")))
recover_address-sign_message_example =
    recover_address-sign_message toy sign (codes "0xa1") (codes "GET /") sent (codes "0xb2")
      sign-SignsFor sends

-- A codec that knows one message.
abbrev codec : Codec
codec = record { marshal = λ _. some (codes "{}"); unmarshal = λ _. some registered }

abbrev framed : Text
framed = 0 ∷ 0 ∷ 0 ∷ 2 ∷ codes "{}"

-- A signal, a QUIC packet, a punch and an empty packet.
abbrev arrivals : List (Packet ℕ)
arrivals =
    record { data_of = 0 ∷ codes "{}"; addr = 1 }
    ∷ record { data_of = 64 ∷ codes "x"; addr = 2 }
    ∷ record { data_of = 1 ∷ []; addr = 3 }
    ∷ record { data_of = []; addr = 4 }
    ∷ []

abbrev idle_channels : Channels ℕ
idle_channels = record { signal = []; punch = []; quic = [] }

dispatch_all_lem_example : dispatch_all ℕ idle_channels arrivals ≡ record {
  signal = take 64 ([] ++ all_for ℕ (for_signal ℕ) arrivals);
  punch = take 64 ([] ++ all_for ℕ (for_punch ℕ) arrivals);
  quic = take 512 ([] ++ all_for ℕ (for_quic ℕ) arrivals);
}
dispatch_all_lem_example =
    dispatch_all_lem ℕ idle_channels arrivals (omega arith) (omega arith) (omega arith)
