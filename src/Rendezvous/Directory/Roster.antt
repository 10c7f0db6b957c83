-- ===== src/Rendezvous/Directory/Roster.antt =====
-- Which nodes the list shows.
use servers.Base.{
  any-if, Option, not, ◌&&◌, none, Distinct, one_of, if◌then◌else◌, ℕ, ◌≡◌, refl, sym, ap, ◌∙◌,
  Bool, false, ◌||◌, List, [], ◌∷◌, some, Text, Map, codes, eqt, eqt_iff, is_empty, lookup, any,
  arith, Bool-cases, Option-cases, inl, inr, split_byte,
}
use servers.Market.Versions.{text_less}
use servers.Recipe.Header.{Float64}
use servers.Rendezvous.State.{ProxyInfo, Server}
use servers.Rendezvous.Directory.{
  Node, emit_node, is_passenger, NodeQuery, node_query, passes, targeted, scanned, put_in_order,
  sort_nodes, asked_ids, get, roster,
}

one_more :
    (a b n o p : Bool) → a ≡ b → ((a && (n && p)) || ((n && o) && p)) ≡ ((n && (b || o)) && p)
one_more a b n o p h = ground arith

any-or :
    {A : Type 0} (P Q : A → Bool) (xs : List A) → any (λ x. P x || Q x) xs ≡ (any P xs || any Q xs)
any-or P Q [] = refl
any-or P Q (x ∷ xs) = ground (arith, any-or P Q xs)

any-cong :
    {A : Type 0} (P Q : A → Bool) → ((x : A) → P x ≡ Q x) → (xs : List A) → any P xs ≡ any Q xs
any-cong P Q h [] = refl
any-cong P Q h (x ∷ xs) = ap (λ b. b || any P xs) (h x) ∙ ap (◌||◌ (Q x)) (any-cong P Q h xs)

any-false : {A : Type 0} (P : A → Bool) → ((x : A) → P x ≡ false) → (xs : List A) → any P xs ≡ false
any-false P h [] = refl
any-false P h (x ∷ xs) = ap (λ b. b || any P xs) (h x) ∙ any-false P h xs

module _ (fl : Float64) where
  put_in_order-any :
      (p : Node → Bool) (n : Node) (xs : List Node)
      → any p (put_in_order fl n xs) ≡ (p n || any p xs)
  unfolding put_in_order
  put_in_order-any p n [] = refl
  put_in_order-any p n (x ∷ xs) = elim (Bool-cases (text_less x.id n.id)) [
    | inl e ↦ rw (e, put_in_order) (ground (arith, put_in_order-any p n xs))
    | inr e ↦ rw (e, put_in_order) refl
  ]

  sort_nodes-any : (p : Node → Bool) (xs : List Node) → any p (sort_nodes fl xs) ≡ any p xs
  unfolding sort_nodes
  sort_nodes-any p [] = refl
  sort_nodes-any p (x ∷ xs) =
      put_in_order-any p x (sort_nodes fl xs) ∙ ap (◌||◌ (p x)) (sort_nodes-any p xs)

  -- What the list is to show of the registry: no passenger, and the nodes that pass the filters or,
  -- where nodes are asked for by their ids, those under the ids.
  abbrev pub is_shown : Server → Map Text → ℕ → Text → ProxyInfo → Bool
  is_shown s q now key p =
      not (is_passenger p.role)
      && (if is_empty (get fl q (codes "node_id"))
          then passes fl s (node_query fl q) now p
          else one_of key (asked_ids (split_byte b',' (get fl q (codes "node_id")))))

  passes-shown :
      (s : Server) (f : NodeQuery fl) (now : ℕ) (p : ProxyInfo)
      → passes fl s f now p ≡ (not (is_passenger p.role) && passes fl s f now p)
  unfolding passes
  passes-shown s f now p = ground arith

  scanned-any :
      (s : Server) (f : NodeQuery fl) (now : ℕ) (P : Node → Bool) (ps : Map ProxyInfo)
      → any P (scanned fl s f now ps)
        ≡ any
            (λ (key, p). (not (is_passenger p.role) && passes fl s f now p) && P (emit_node s p))
            ps
  unfolding scanned
  scanned-any s f now P [] = refl
  scanned-any s f now P ((id, p) ∷ ps) =
      any-if P (passes fl s f now p) (emit_node s p) (scanned fl s f now ps)
      ∙ ap (λ b. (b && P (emit_node s p)) || any P (scanned fl s f now ps)) (passes-shown s f now p)
      ∙ ap (λ r. ((not (is_passenger p.role) && passes fl s f now p) && P (emit_node s p)) || r)
          (scanned-any s f now P ps)

  abbrev found : (ProxyInfo → Bool) → Option ProxyInfo → Bool
  found P o = elim o [ none ↦ false | some p ↦ P p ]

  -- An entry of a map that holds each key once, found by its key.
  any-lookup :
      (key : Text) (P : ProxyInfo → Bool) (m : Map ProxyInfo)
      → Distinct m
      → any (λ (k, p). eqt key k && P p) m ≡ found P (lookup key m)
  unfolding lookup
  any-lookup key P [] d = refl
  any-lookup key P ((k, p) ∷ m) d = elim (Bool-cases (eqt k key)) [
    | inl e ↦
        let same : k ≡ key = (eqt_iff k key).0 e in
        let gone : found P (lookup key m) ≡ false =
          ap (found P) (ap (λ x. lookup x m) (sym same) ∙ d.0) in
        let none_left = any-lookup key P m d.1 ∙ gone in
        rw (e, none_left) (ground (arith, (eqt_iff key k).1 (sym same)))
    | inr e ↦
        let other : eqt key k ≡ false = ground (arith, eqt_iff key k, eqt_iff k key) in
        rw (e, other) (any-lookup key P m d.1)
  ]

  targeted-cons :
      (s : Server) (P : Node → Bool) (id : Text) (ids : List Text)
      → any P (targeted fl s (id ∷ ids)) ≡ (
          found (λ p. not (is_passenger p.role) && P (emit_node s p)) (lookup id s.proxies)
          || any P (targeted fl s ids))
  unfolding targeted
  targeted-cons s P id ids = elim (Option-cases (lookup id s.proxies)) [
    | inl e ↦ rw (targeted, e) refl
    | inr (p, e) ↦ elim (Bool-cases (is_passenger p.role)) [
      | inl h ↦ rw (targeted, e) (rw h refl)
      | inr h ↦ rw (targeted, e) (rw h refl)
    ]
  ]

  targeted-any :
      (s : Server) (P : Node → Bool) (ids : List Text)
      → Distinct s.proxies
      → any P (targeted fl s ids)
        ≡ any
            (λ (key, p). (not (is_passenger p.role) && one_of key ids) && P (emit_node s p))
            s.proxies
  unfolding targeted one_of
  targeted-any s P [] d = sym (
      any-false (λ (key, p). (not (is_passenger p.role) && false) && P (emit_node s p))
        (λ (key, p). ground arith) s.proxies)
  targeted-any s P (id ∷ ids) d =
      let shown : ProxyInfo → Bool = λ p. not (is_passenger p.role) && P (emit_node s p) in
      targeted-cons s P id ids
      ∙ ap (λ b. b || any P (targeted fl s ids)) (sym (any-lookup id shown s.proxies d))
      ∙ ap (λ r. any (λ (key, p). eqt id key && shown p) s.proxies || r) (targeted-any s P ids d)
      ∙ sym (any-or (λ (key, p). eqt id key && shown p) _ s.proxies)
      ∙ any-cong _ _
          (λ (key, p).
            one_more (eqt id key) (eqt key id) (not (is_passenger p.role)) (one_of key ids)
              (P (emit_node s p)) (ground (arith, eqt_iff id key, eqt_iff key id)))
          s.proxies

  -- A registry that holds each key once is listed exactly, whatever is asked for: a node, as the list
  -- says it, stands in the list if and only if it is made from a registered node that is no passenger
  -- and passes the filters or, where nodes are asked for by their ids, stands under one of the ids. So
  -- it is of any property of nodes: one in the list has it just if one made from such an entry has it.
  pub roster-any :
      (s : Server) (q : Map Text) (now : ℕ) (P : Node → Bool)
      → Distinct s.proxies
      → any P (roster fl s q now)
        ≡ any (λ (key, p). is_shown s q now key p && P (emit_node s p)) s.proxies
  unfolding roster
  roster-any s q now P d =
      let ids = get fl q (codes "node_id") in
      let asked = asked_ids (split_byte b',' ids) in
      elim (Bool-cases (is_empty ids)) [
        | inl e ↦ rw e (
            sort_nodes-any P (scanned fl s (node_query fl q) now s.proxies)
            ∙ scanned-any s (node_query fl q) now P s.proxies)
        | inr e ↦ rw e (sort_nodes-any P (targeted fl s asked) ∙ targeted-any s P asked d)
      ]
