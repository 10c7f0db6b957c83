-- ===== src/Rendezvous/Identity.antt =====
-- pkg/rendezvous/session.go: the key under which a node is registered, and its address.
use servers.Base.{
  ◌≡◌, refl, sym, ap, ◌∙◌, ◌↔◌, [], ◌∷◌, ◌++◌, none, some, Text, to_lower, to_upper, lower_byte,
  cut_byte, arith, Option-cases, inl, inr, Result, ok, guard, ◌>>◌,
}
use servers.Auth.Crypto.{Crypto}

-- Upper-case role, lower-case address.
unfoldable pub node_key : Text → Text
node_key id = elim (cut_byte b':' id) [
  | none ↦ to_lower id
  | some (role, addr) ↦ to_upper role ++ (b':' ∷ to_lower addr)
]

pub data SigError : Type 0 where
  bad_length no_timestamp skewed bad_node_id unrecoverable wrong_signer : SigError

unfoldable pub addr_from_node_id : Crypto → Text → Result SigError Text
addr_from_node_id c id =
    let s : Text = elim (cut_byte b':' id) [ none ↦ id | some (role, addr) ↦ addr ] in
    do guard (c.is_hex_address s) bad_node_id; ok (c.hex_to_address s)

cut_byte-to_lower :
    (s : Text)
    → cut_byte b':' (to_lower s)
      ≡ elim (cut_byte b':' s) [ none ↦ none | some (x, y) ↦ some (to_lower x, to_lower y) ]
unfolding cut_byte to_lower
cut_byte-to_lower [] = refl
cut_byte-to_lower (c ∷ s) = ground (arith, cut_byte-to_lower s)

cut_byte-some : (s x y : Text) → cut_byte b':' s ≡ some (x, y) → s ≡ x ++ (b':' ∷ y)
unfolding cut_byte
cut_byte-some [] x y h = cc
cut_byte-some (c ∷ s) x y h = elim (Option-cases (cut_byte b':' s)) [
  | inl e ↦ ground arith
  | inr ((x', y'), e) ↦ ground (arith, cut_byte-some s x' y' e)
]

to_lower_idem : (s : Text) → to_lower (to_lower s) ≡ to_lower s
unfolding to_lower
to_lower_idem [] = refl
to_lower_idem (c ∷ s) = ground (arith, to_lower_idem s)

to_upper-to_lower : (s : Text) → to_upper (to_lower s) ≡ to_upper s
unfolding to_lower to_upper
to_upper-to_lower [] = refl
to_upper-to_lower (c ∷ s) = ground (arith, to_upper-to_lower s)

to_lower-to_upper : (s : Text) → to_lower (to_upper s) ≡ to_lower s
unfolding to_lower to_upper
to_lower-to_upper [] = refl
to_lower-to_upper (c ∷ s) = ground (arith, to_lower-to_upper s)

to_lower-append : (s t : Text) → to_lower (s ++ t) ≡ to_lower s ++ to_lower t
unfolding to_lower
to_lower-append [] t = refl
to_lower-append (c ∷ s) t = ap (◌∷◌ (lower_byte c)) (to_lower-append s t)

node_key-to_lower : (id : Text) → node_key (to_lower id) ≡ node_key id
unfolding node_key
node_key-to_lower id = elim (Option-cases (cut_byte b':' id)) [
  | inl e ↦ rw (cut_byte-to_lower id, e, node_key) (to_lower_idem id)
  | inr ((x, y), e) ↦
      rw (cut_byte-to_lower id, e, node_key) (simp (to_upper-to_lower, to_lower_idem))
]

to_lower_colon : (y : Text) → to_lower (b':' ∷ to_lower y) ≡ to_lower (b':' ∷ y)
unfolding to_lower
to_lower_colon y = ap (◌∷◌ (lower_byte b':')) (to_lower_idem y)

to_lower-node_key : (id : Text) → to_lower (node_key id) ≡ to_lower id
unfolding node_key
to_lower-node_key id = elim (Option-cases (cut_byte b':' id)) [
  | inl e ↦ rw (e, node_key) (to_lower_idem id)
  | inr ((x, y), e) ↦
      rw (e, node_key)
        (to_lower-append (to_upper x) (b':' ∷ to_lower y)
          ∙ rw (to_lower-to_upper x, to_lower_colon y)
              (sym (to_lower-append x (b':' ∷ y)) ∙ ap to_lower (sym (cut_byte-some id x y e))))
]

-- Two ids have one key exactly when they differ in nothing but the case of their letters; so every
-- spelling of an address finds the same node, and no two nodes share a key.
node_key_iff : (a b : Text) → (node_key a ≡ node_key b) ↔ (to_lower a ≡ to_lower b)
node_key_iff a b = (
  λ h. sym (to_lower-node_key a) ∙ ap to_lower h ∙ to_lower-node_key b,
  λ h. sym (node_key-to_lower a) ∙ ap node_key h ∙ node_key-to_lower b,
)

pub node_key_idem : (id : Text) → node_key (node_key id) ≡ node_key id
node_key_idem id = (node_key_iff (node_key id) id).1 (to_lower-node_key id)
