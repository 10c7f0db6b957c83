-- ===== src/Rendezvous/Registry/Guarded.antt =====
-- What registers, pings and punches can do to the registry.
use servers.Base.{
  ℕ, ◌≡◌, refl, sym, ap, ◌∙◌, true, false, not, ◌&&◌, none, some, Text, eqt, eqt_iff, is_empty,
  lookup, lookup-insert, lookup-insert_self, arith, Option-cases, Bool-cases, Result-cases, inl,
  inr, ok, ◌⊎◌, if◌then◌else◌,
}
use servers.Auth.Crypto.{Crypto}
use servers.Tunnel.Message.{RendezvousMsg}
use servers.Rendezvous.State.{ProxyInfo, Server, ControlConn, UdpAddr}
use servers.Rendezvous.Identity.{node_key}
use servers.Rendezvous.Admission.{mode_protected, admit_register}
use servers.Rendezvous.Signature.{verify_register_signature, hash_hardware_for_verify}
use servers.Rendezvous.Registry.Register.{
  apply_register, check_register, store_register, new_proxy, merge_register,
}
use servers.Rendezvous.Registry.Upkeep.{learn_public_addr, learn_addr}

check_register_sound :
    (c : Crypto) (s : Server) (msg : RendezvousMsg) (now : ℕ)
    → msg.full_sync ≡ true
    → check_register c s msg now ≡ none
    → (verify_register_signature c msg (hash_hardware_for_verify c msg.hardware) now ≡ ok tt)
      × ((mode_protected s ≡ false) ⊎ (admit_register c s.issuers msg now ≡ ok tt))
unfolding check_register
check_register_sound c s msg now f h =
    elim (Result-cases
      (verify_register_signature c msg (hash_hardware_for_verify c msg.hardware) now)) [
        | inr (e, v) ↦ absurd (ground arith)
        | inl (u, v) ↦ elim (Bool-cases (mode_protected s)) [
          | inr m ↦ (v, inl m)
          | inl m ↦ elim (Result-cases (admit_register c s.issuers msg now)) [
            | inl (u', g) ↦ (v, inr g)
            | inr (e, g) ↦ absurd (ground arith)
          ]
        ]
      ]

-- A register frame that states a full sync leaves the server as it was, unless it names the
-- sender, its signature is valid and, in the protected mode, an issuer admits it.
pub apply_register_sound :
    (c : Crypto) (s : Server) (peer : ControlConn) (msg : RendezvousMsg) (now : ℕ)
    → msg.full_sync ≡ true
    → ((apply_register c s peer msg now).0 ≡ s)
      ⊎ ((msg.id ≡ peer.node_id)
          × (verify_register_signature c msg (hash_hardware_for_verify c msg.hardware) now ≡ ok tt)
          × ((mode_protected s ≡ false) ⊎ (admit_register c s.issuers msg now ≡ ok tt)))
unfolding apply_register
apply_register_sound c s peer msg now f = elim (Bool-cases (eqt msg.id peer.node_id)) [
  | inr e ↦ inl (ground arith)
  | inl e ↦ elim (Option-cases (check_register c s msg now)) [
    | inr (r, h) ↦ inl (ground arith)
    | inl h ↦
        let (v, g) = check_register_sound c s msg now f h in
        inr ((eqt_iff msg.id peer.node_id).0 e, v, g)
  ]
]

store_register-lookup :
    (c : Crypto) (s : Server) (peer : ControlConn) (msg : RendezvousMsg) (now : ℕ)
    → (old : ProxyInfo) × (lookup (node_key msg.id) (store_register c s peer msg now).proxies
        ≡ some (merge_register c peer msg now old))
unfolding store_register
store_register-lookup c s peer msg now =
    let key = node_key msg.id in
    elim (Option-cases (lookup key s.proxies)) [
      | inl h ↦
          let p = merge_register c peer msg now (new_proxy now) in
          (new_proxy now, ground (arith, lookup-insert_self key p s.proxies))
      | inr (old, h) ↦
          let p = merge_register c peer msg now old in
          (old, ground (arith, lookup-insert_self key p s.proxies))
    ]

-- A register frame that does not state a full sync, and names an owner, is stored whatever its
-- signature and whatever the mode: on a connection that said hello with its id, the id's entry
-- exists afterwards, with the frame's role and owner and heard of now.
pub apply_register-delta :
    (c : Crypto) (s : Server) (peer : ControlConn) (msg : RendezvousMsg) (now : ℕ)
    → msg.full_sync ≡ false
    → msg.id ≡ peer.node_id
    → is_empty msg.owner_address ≡ false
    → (p : ProxyInfo) × (lookup (node_key peer.node_id) (apply_register c s peer msg now).0.proxies
        ≡ some p)
      × (p.role ≡ msg.role)
      × (p.owner_address ≡ msg.owner_address)
      × (p.last_seen ≡ now)
unfolding apply_register check_register merge_register
apply_register-delta c s peer msg now f e o =
    let (old, stored) = store_register-lookup c s peer msg now in
    let same : eqt msg.id peer.node_id ≡ true = (eqt_iff msg.id peer.node_id).1 e in
    let key : node_key msg.id ≡ node_key peer.node_id = ap node_key e in
    let after : (apply_register c s peer msg now).0 ≡ store_register c s peer msg now =
      ground arith in
    (
      merge_register c peer msg now old,
      ap (λ x. lookup (node_key peer.node_id) x.proxies) after
          ∙ (ap (λ k. lookup k (store_register c s peer msg now).proxies) (sym key) ∙ stored),
      refl,
      ground arith,
      refl,
    )

-- A UDP punch that names an id makes no entry and changes no entry but that id's; that one changes
-- only if the punch comes from its control connection's address or it has none, then only in its
-- public address, and the address that its registration set by hand stays.
pub learn_public_addr_lem :
    (s : Server) (id : Text) (src : UdpAddr) (k : Text)
    → (lookup k (learn_public_addr s id src).proxies ≡ lookup k s.proxies)
      ⊎ ((p : ProxyInfo) × (k ≡ node_key id)
          × (lookup k s.proxies ≡ some p)
          × ((is_empty p.control_ip ≡ true) ⊎ (src.ip ≡ p.control_ip))
          × (lookup k (learn_public_addr s id src).proxies
              ≡ some (record p {
                udp_addr = some src;
                addr = if p.addr_manual then p.addr else src.text;
              })))
unfolding learn_public_addr learn_addr
learn_public_addr_lem s id src k = elim (Option-cases (lookup (node_key id) s.proxies)) [
  | inl h ↦ inl (ground arith)
  | inr (p, h) ↦ elim (Bool-cases (eqt (node_key id) k)) [
    | inr g ↦ inl (ground (arith, lookup-insert (node_key id) k (learn_addr p src) s.proxies))
    | inl g ↦ elim (Bool-cases (not (is_empty p.control_ip) && not (eqt src.ip p.control_ip))) [
      | inl e ↦ inl (ground arith)
      | inr e ↦
          let same : k ≡ node_key id = sym ((eqt_iff (node_key id) k).0 g) in
          let there : lookup k s.proxies ≡ some p = ap (λ x. lookup x s.proxies) same ∙ h in
          let from : (is_empty p.control_ip ≡ true) ⊎ (src.ip ≡ p.control_ip) =
            ground (arith, eqt_iff src.ip p.control_ip) in
          inr (
            p,
            same,
            there,
            from,
            ground (arith, lookup-insert (node_key id) k (learn_addr p src) s.proxies),
          )
    ]
  ]
]
