-- ===== src/Rendezvous/Registry/Lifecycle.antt =====
-- What a lifecycle event does to the services of a node.
use servers.Base.{
  ◌≡◌, ◌≢◌, refl, ap, ◌∙◌, subst, true, false, List, [], ◌∷◌, ◌++◌, Option, none, some, Text, Map,
  codes, eqt, eqt_iff, eqt_refl, arith, Option-cases, Bool-cases, inl, inr,
}
use servers.Setup.{ServiceInfo, new_service}
use servers.Tunnel.Message.{RendezvousMsg, Value}
use servers.Rendezvous.Registry.Services.{
  patch_first, find_service, drop_first, put_service, starting_entry, inherit_inspect, ready_entry,
  lifecycle_services, apply_inspect_from_event,
}

patch_first-other :
    (name other : Text) (f : ServiceInfo → ServiceInfo) (ss : List ServiceInfo)
    → eqt name other ≡ false
    → ((s : ServiceInfo) → s.name ≡ name → (f s).name ≡ name)
    → find_service other (patch_first name f ss) ≡ find_service other ss
unfolding patch_first find_service
patch_first-other name other f [] d k = refl
patch_first-other name other f (s ∷ ss) d k = elim (Bool-cases (eqt s.name name)) [
  | inr e ↦ ground (arith, patch_first-other name other f ss d k)
  | inl e ↦
      let same : s.name ≡ name = (eqt_iff s.name name).0 e in
      let kept = k s same in
      let left : eqt s.name other ≡ false = ap (λ n. eqt n other) same ∙ d in
      let right : eqt (f s).name other ≡ false = ap (λ n. eqt n other) kept ∙ d in ground arith
]

append-other :
    (other : Text) (fresh : ServiceInfo) (ss : List ServiceInfo)
    → eqt fresh.name other ≡ false
    → find_service other (ss ++ (fresh ∷ [])) ≡ find_service other ss
unfolding find_service
append-other other fresh [] d = ground arith
append-other other fresh (s ∷ ss) d = ground (arith, append-other other fresh ss d)

drop_first-other :
    (name other : Text) (ss : List ServiceInfo)
    → eqt name other ≡ false
    → find_service other (drop_first name ss) ≡ find_service other ss
unfolding drop_first find_service
drop_first-other name other [] d = refl
drop_first-other name other (s ∷ ss) d = elim (Bool-cases (eqt s.name name)) [
  | inr e ↦ ground (arith, drop_first-other name other ss d)
  | inl e ↦
      let left : eqt s.name other ≡ false = ap (λ n. eqt n other) ((eqt_iff s.name name).0 e) ∙ d in
      ground arith
]

put_service-other :
    (name other : Text) (f : ServiceInfo → ServiceInfo) (fresh : ServiceInfo)
    (ss : List ServiceInfo)
    → eqt name other ≡ false
    → fresh.name ≡ name
    → ((s : ServiceInfo) → s.name ≡ name → (f s).name ≡ name)
    → find_service other (put_service name f fresh ss) ≡ find_service other ss
unfolding put_service
put_service-other name other f fresh ss d n k = elim (Option-cases (find_service name ss)) [
  | inl e ↦ ground (arith, append-other other fresh ss (ap (λ x. eqt x other) n ∙ d))
  | inr (s, e) ↦ ground (arith, patch_first-other name other f ss d k)
]

starting_entry-name :
    (name : Text) (info : Option (Map Value)) → (starting_entry name info).name ≡ name
unfolding starting_entry apply_inspect_from_event new_service
starting_entry-name name none = refl
starting_entry-name name (some info) = refl

inherit_inspect-name : (entry prev : ServiceInfo) → (inherit_inspect entry prev).name ≡ entry.name
unfolding inherit_inspect
inherit_inspect-name entry prev = elim (Option-cases entry.inspect) [
  | inr (i, e) ↦ ground arith
  | inl e ↦ elim (Option-cases prev.inspect) [ inl f ↦ ground arith | inr (i, f) ↦ ground arith ]
]

ready_entry-name :
    (info : Option (Map Value)) (s : ServiceInfo) → (ready_entry info s).name ≡ s.name
unfolding ready_entry apply_inspect_from_event
ready_entry-name none s = refl
ready_entry-name (some info) s = refl

-- An event of a service's life, whichever it is, leaves what is found under every other name as it
-- was.
lifecycle_services-other :
    (msg : RendezvousMsg) (ss : List ServiceInfo) (other : Text)
    → msg.service_name ≢ other
    → find_service other (lifecycle_services msg ss) ≡ find_service other ss
unfolding lifecycle_services new_service
lifecycle_services-other msg ss other n =
    let name = msg.service_name in
    let info = msg.service_info in
    let d : eqt name other ≡ false = ground (arith, eqt_iff name other) in
    let start = starting_entry name info in
    let begun =
      put_service-other name other (inherit_inspect start) start ss d
        (starting_entry-name name info)
        (λ s e. inherit_inspect-name start s ∙ starting_entry-name name info) in
    let readied =
      put_service-other name other (ready_entry info) (ready_entry info (new_service name)) ss d
        (ready_entry-name info (new_service name)) (λ s e. ready_entry-name info s ∙ e) in
    let stopped = drop_first-other name other ss d in ground (arith, begun, readied, stopped)

patch_first_self :
    (name : Text) (f : ServiceInfo → ServiceInfo) (ss : List ServiceInfo) (s : ServiceInfo)
    → find_service name ss ≡ some s
    → ((s : ServiceInfo) → (f s).name ≡ s.name)
    → find_service name (patch_first name f ss) ≡ some (f s)
unfolding patch_first find_service
patch_first_self name f [] s h k = absurd (ground arith)
patch_first_self name f (x ∷ ss) s h k = elim (Bool-cases (eqt x.name name)) [
  | inr e ↦ ground (arith, patch_first_self name f ss s)
  | inl e ↦
      let same : eqt (f x).name name ≡ true = ap (λ n. eqt n name) (k x) ∙ e in
      let here : x ≡ s = ground arith in
      subst (λ y. find_service name (patch_first name f (x ∷ ss)) ≡ some (f y)) here (ground arith)
]

append_self :
    (name : Text) (fresh : ServiceInfo) (ss : List ServiceInfo)
    → find_service name ss ≡ none
    → eqt fresh.name name ≡ true
    → find_service name (ss ++ (fresh ∷ [])) ≡ some fresh
unfolding find_service
append_self name fresh [] h d = ground arith
append_self name fresh (s ∷ ss) h d = ground (arith, append_self name fresh ss)

ready_entry-ready :
    (info : Option (Map Value)) (s : ServiceInfo)
    → ((ready_entry info s).server_ready ≡ true) × ((ready_entry info s).server_loading ≡ false)
unfolding ready_entry apply_inspect_from_event
ready_entry-ready none s = (refl, refl)
ready_entry-ready (some info) s = (refl, refl)

ready_services : RendezvousMsg → List ServiceInfo → List ServiceInfo
ready_services msg ss =
    put_service msg.service_name (ready_entry msg.service_info)
      (ready_entry msg.service_info (new_service msg.service_name)) ss

new_service-name : (name : Text) → (new_service name).name ≡ name
unfolding new_service
new_service-name name = refl

ready_services_self :
    (msg : RendezvousMsg) (ss : List ServiceInfo)
    → (s : ServiceInfo) × (find_service msg.service_name (ready_services msg ss)
        ≡ some (ready_entry msg.service_info s))
unfolding ready_services put_service
ready_services_self msg ss =
    let name = msg.service_name in
    let info = msg.service_info in
    let fresh = ready_entry info (new_service name) in
    elim (Option-cases (find_service name ss)) [
      | inl e ↦
          let named : eqt fresh.name name ≡ true =
            ap (λ n. eqt n name) (ready_entry-name info (new_service name) ∙ new_service-name name)
            ∙ eqt_refl name in
          (new_service name, ground (arith, append_self name fresh ss e named))
      | inr (s, e) ↦ (
        s,
        ground (arith, patch_first_self name (ready_entry info) ss s e (ready_entry-name info)),
      )
    ]

-- After an event that says that a service is ready, the service is listed under its name, as ready
-- and not loading, whether it was listed before or not.
lifecycle_services-ready :
    (msg : RendezvousMsg) (ss : List ServiceInfo)
    → msg.event ≡ codes "service.ready"
    → (s : ServiceInfo) × (find_service msg.service_name (lifecycle_services msg ss) ≡ some s)
      × (s.server_ready ≡ true)
      × (s.server_loading ≡ false)
unfolding lifecycle_services ready_services
lifecycle_services-ready msg ss h =
    let (s, found) = ready_services_self msg ss in
    let (ready, loading) = ready_entry-ready msg.service_info s in
    let is_ready : eqt msg.event (codes "service.ready") ≡ true =
      (eqt_iff msg.event (codes "service.ready")).1 h in
    let not_starting : eqt msg.event (codes "service.starting") ≡ false =
      ap (λ e. eqt e (codes "service.starting")) h ∙ differ in
    (ready_entry msg.service_info s, ground (arith, found), ready, loading)
  where
    differ : eqt (codes "service.ready") (codes "service.starting") ≡ false
    differ = unfold eqt in refl
