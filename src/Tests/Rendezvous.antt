-- ===== src/Tests/Rendezvous.antt =====
-- The rendezvous server at work: a node says hello, registers, is punched and goes.
use servers.Base.{
  ℕ, ◌≡◌, ◌≢◌, refl, true, false, [], ◌∷◌, none, some, Text, List, codes, ok, err, inl, inr, arith,
  to_lower, Map, if◌then◌else◌, ◌==◌, ◌||◌, is_neg, is_empty, one_of, eqt, lookup, insert, two63,
  length, All, AllValues, ◌+◌, ◌≤◌, ◌<◌, ◌&&◌, ◌*◌, ◌⊎◌, ◌↔◌, Stray,
}
use servers.Auth.Crypto.{Crypto}
use servers.Tunnel.Message.{RendezvousMsg}
use servers.Tunnel.Digest.{register_digest}
use servers.Rendezvous.State.{ProxyInfo, unix_milli, IssuerPolicy}
use servers.Rendezvous.Identity.{node_key, addr_from_node_id}
use servers.Rendezvous.Signature.{
  skew_too_large, verify_register_signature, hash_hardware_for_verify, register_fields, IsSigned,
  verify_register_signature_iff, verify_register_signature_confuses,
}
use servers.Rendezvous.Admission.{
  admit_register, admit_register_sound, mode_protected, is_over, Grants, bound_message,
  bearer_message, load_rv_auth, parsed, RvIssuer,
}
use servers.Rendezvous.Admission.Loading.{load_rv_auth_sound, IsPolicy}
use servers.Rendezvous.Registry.Register.{apply_register}
use servers.Rendezvous.Registry.Services.{is_positive32, int_of_float32}
use servers.Rendezvous.Registry.Upkeep.{learn_public_addr}
use servers.Rendezvous.Registry.Counted.{IsCounted, total}
use servers.Rendezvous.Registry.Counted.Steps.{IsConsistent}
use servers.Rendezvous.Registry.Guarded.{
  apply_register_sound, apply_register-delta, learn_public_addr_lem,
}
use servers.Rendezvous.Control.{Event, hello, frame, gone, punched, ticked, run}
use servers.Rendezvous.Control.Consistent.{run-IsConsistent}
use servers.Tests.Data.{
  toy, start, node, registered, issuers, protected_server, peer, punch_from, world,
}

abbrev day : List (ℕ × Event)
day =
    (start, hello peer)
    ∷ (start, frame 7 registered)
    ∷ (start, punched node punch_from)
    ∷ (start, ticked)
    ∷ (start, gone 7)
    ∷ []

empty-IsConsistent : IsConsistent protected_server
empty-IsConsistent = record {
  distinct = tt;
  counted =
      unfold IsCounted total in
      record { stations = refl; controls = refl; passengers = refl; publics = refl };
}

run-IsConsistent_example : IsConsistent (run toy world day).server
run-IsConsistent_example = run-IsConsistent toy world day empty-IsConsistent

apply_register_sound_example :
    ((apply_register toy protected_server peer registered start).0 ≡ protected_server)
    ⊎ ((registered.id ≡ peer.node_id)
        × (verify_register_signature toy registered
              (hash_hardware_for_verify toy registered.hardware)
              start
            ≡ ok tt)
        × ((mode_protected protected_server ≡ false)
            ⊎ (admit_register toy protected_server.issuers registered start ≡ ok tt)))
apply_register_sound_example = apply_register_sound toy protected_server peer registered start refl

abbrev delta : RendezvousMsg
delta = record registered { full_sync = false; signature = [] }

apply_register-delta_example :
    (p : ProxyInfo) × (lookup
        (node_key peer.node_id)
        (apply_register toy protected_server peer delta start).0.proxies
      ≡ some p)
    × (p.role ≡ delta.role)
    × (p.owner_address ≡ delta.owner_address)
    × (p.last_seen ≡ start)
apply_register-delta_example =
    apply_register-delta toy protected_server peer delta start refl refl (unfold is_empty in refl)

learn_public_addr_lem_example :
    (lookup node (learn_public_addr protected_server node punch_from).proxies
      ≡ lookup node protected_server.proxies)
    ⊎ ((p : ProxyInfo) × (node ≡ node_key node)
        × (lookup node protected_server.proxies ≡ some p)
        × ((is_empty p.control_ip ≡ true) ⊎ (punch_from.ip ≡ p.control_ip))
        × (lookup node (learn_public_addr protected_server node punch_from).proxies
            ≡ some (record p {
              udp_addr = some punch_from;
              addr = if p.addr_manual then p.addr else punch_from.text;
            })))
learn_public_addr_lem_example = learn_public_addr_lem protected_server node punch_from node

admitted : admit_register toy issuers registered start ≡ ok tt
unfolding admit_register is_empty servers.Base.hex_encode addr_from_node_id
    servers.Rendezvous.Admission.try_both servers.Auth.Ethereum.recover_address
    servers.Base.hex_decode servers.Base.trim_prefix lookup eqt to_lower
admitted = refl

admit_register_sound_example :
    (addr : Text) × (addr_from_node_id toy registered.id ≡ ok addr)
    × ((registered.cred_expire_ms == 0 || is_neg registered.cred_expire_ms) ≡ false)
    × (is_over registered start ≡ false)
    × (Grants toy issuers true (bound_message toy registered addr) registered.cred_sig
        ⊎ Grants toy issuers false (bearer_message registered) registered.cred_sig)
admit_register_sound_example = admit_register_sound toy issuers registered start admitted

signed : verify_register_signature toy registered [] start ≡ ok tt
unfolding verify_register_signature addr_from_node_id servers.Base.equal_fold_bytes
    servers.Base.cut_byte
signed = refl

verify_register_signature_iff_example :
    (verify_register_signature toy registered [] start ≡ ok tt)
    ↔ IsSigned toy (register_digest toy (register_fields registered [])) registered start
verify_register_signature_iff_example =
    verify_register_signature_iff toy registered [] start (omega arith, omega arith, omega arith)

fresh : skew_too_large (unix_milli start) registered.timestamp_ms ≡ false
unfolding skew_too_large
fresh = refl

-- Signatures of a key whose address is another run of broken bytes.
abbrev other_key : Crypto
other_key = record toy {
  sig_to_address = λ _ _. some (0x80 ∷ 0x81 ∷ []);
  hex_to_address = λ _. 0x90 ∷ 0xBF ∷ [];
}

stray_addressed : addr_from_node_id other_key registered.id ≡ ok (0x90 ∷ 0xBF ∷ [])
unfolding addr_from_node_id
stray_addressed = refl

verify_register_signature_confuses_example :
    verify_register_signature other_key registered [] start ≡ ok tt
verify_register_signature_confuses_example =
    verify_register_signature_confuses other_key registered [] start (0x90 ∷ 0xBF ∷ [])
      (0x80 ∷ 0x81 ∷ []) refl (λ h. omega (arith, h)) fresh stray_addressed refl refl stray_pair
      stray_other
  where
    stray_pair : Stray (0x90 ∷ 0xBF ∷ [])
    stray_pair = ground arith

    stray_other : Stray (0x80 ∷ 0x81 ∷ [])
    stray_other = ground arith

abbrev listed : List RvIssuer
listed = record { address = codes " 0xA1 "; bind = [] } ∷ []

abbrev loaded : Map IssuerPolicy
loaded = (codes "0xa1", record { bind = codes "node" }) ∷ []

loads : load_rv_auth (parsed (codes "Protected") listed) ≡ ok (codes "protected", loaded)
unfolding load_rv_auth one_of eqt is_empty to_lower servers.Base.trim_space insert
loads = refl

load_rv_auth_sound_example :
    (one_of (codes "protected") (codes "public" ∷ codes "protected" ∷ []) ≡ true)
    × ((eqt (codes "protected") (codes "protected") && is_empty loaded) ≡ false)
    × AllValues IsPolicy loaded
load_rv_auth_sound_example =
    load_rv_auth_sound (parsed (codes "Protected") listed) (codes "protected") loaded loads

-- 1.75, 90, 2 ^ 32, 2 ^ -149, which is the least positive number, 0 and -1.
averages :
    (int_of_float32 0x3FE00000 ≡ 1)
    × (int_of_float32 0x42B40000 ≡ 90)
    × (int_of_float32 0x4F800000 ≡ 4294967296)
    × (int_of_float32 1 ≡ 0)
    × (is_positive32 1 ≡ true)
    × (is_positive32 0 ≡ false)
    × (is_positive32 0xBF800000 ≡ false)
unfolding int_of_float32 is_positive32
averages = (refl, refl, refl, refl, refl, refl, refl)
