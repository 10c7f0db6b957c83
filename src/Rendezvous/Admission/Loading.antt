-- ===== src/Rendezvous/Admission/Loading.antt =====
-- What auth.json loads as.
use servers.Base.{
  ◌≡◌, inl, inr, refl, true, false, ◌&&◌, ◌||◌, List, [], ◌∷◌, Text, Map, codes, eqt, is_empty,
  to_lower, trim_space, one_of, insert, if◌then◌else◌, arith, Result, ok, Result-cases, Bool-cases,
  subst, AllValues, insert-AllValues,
}
use servers.Rendezvous.State.{IssuerPolicy}
use servers.Rendezvous.Admission.{
  RvIssuer, AuthSource, no_path, missing, unreadable, malformed, parsed, AuthError, allows_bound,
  allows_bearer, load_issuers, finish_auth, load_rv_auth,
}

-- The policy lets one shape of credential pass, at least.
abbrev pub IsPolicy : IssuerPolicy → Type 0
IsPolicy p = (allows_bound p || allows_bearer p) ≡ true

one_of_bind-IsPolicy :
    (bind : Text)
    → one_of bind (codes "node" ∷ codes "none" ∷ codes "any" ∷ []) ≡ true
    → IsPolicy (record { bind = bind })
unfolding one_of
one_of_bind-IsPolicy bind h = ground arith

load_issuers-IsPolicy :
    (listed : List RvIssuer) (acc issuers : Map IssuerPolicy)
    → AllValues IsPolicy acc
    → load_issuers listed acc ≡ ok issuers
    → AllValues IsPolicy issuers
unfolding load_issuers
load_issuers-IsPolicy [] acc issuers a h = subst (AllValues IsPolicy) (ground arith) a
load_issuers-IsPolicy (i ∷ rest) acc issuers a h =
    let addr = to_lower (trim_space i.address) in
    let given = to_lower (trim_space i.bind) in
    let bind = if is_empty given then codes "node" else given in
    elim (Bool-cases (is_empty addr)) [
      | inl e ↦ load_issuers-IsPolicy rest acc issuers a (rw (e, if◌then◌else◌) at h)
      | inr e ↦ elim (Bool-cases (one_of bind (codes "node" ∷ codes "none" ∷ codes "any" ∷ []))) [
        | inr f ↦ absurd (ground arith)
        | inl f ↦
            load_issuers-IsPolicy rest (insert addr (record { bind = bind }) acc) issuers
              (insert-AllValues IsPolicy addr _ acc (one_of_bind-IsPolicy bind f) a) (ground arith)
      ]
    ]

abbrev AuthFacts : Text → Map IssuerPolicy → Type 0
AuthFacts mode issuers =
    (one_of mode (codes "public" ∷ codes "protected" ∷ []) ≡ true)
    × ((eqt mode (codes "protected") && is_empty issuers) ≡ false)
    × AllValues IsPolicy issuers

finish_auth_sound :
    (given mode : Text) (listed : List RvIssuer) (issuers : Map IssuerPolicy)
    → finish_auth given listed ≡ ok (mode, issuers)
    → AuthFacts mode issuers
unfolding finish_auth
finish_auth_sound given mode listed issuers h = elim (Result-cases (load_issuers listed [])) [
  | inr (x, e) ↦ absurd (ground arith)
  | inl (loaded, e) ↦
      let same : loaded ≡ issuers = ground arith in
      let name : given ≡ mode = ground arith in
      let valid : one_of given (codes "public" ∷ codes "protected" ∷ []) ≡ true = ground arith in
      let there : (eqt given (codes "protected") && is_empty loaded) ≡ false = ground arith in
      subst (AuthFacts mode) same (
        subst (λ m. AuthFacts m loaded) name
          (valid, there, load_issuers-IsPolicy listed [] loaded tt e))
]

default_facts :
    (mode : Text) (issuers : Map IssuerPolicy)
    → ◌≡◌ {A = Result AuthError (Text × Map IssuerPolicy)}
        (ok (codes "public", []))
        (ok (mode, issuers))
    → AuthFacts mode issuers
default_facts mode issuers h =
    let name : codes "public" ≡ mode = cc in
    let same : ◌≡◌ {A = Map IssuerPolicy} [] issuers = cc in
    subst (AuthFacts mode) same
      (subst (λ m. AuthFacts m []) name (unfold one_of eqt in (refl, refl, tt)))

-- What auth.json loads as, whatever it holds: the mode is "public" or "protected", a protected server
-- has an issuer, and each issuer may present one shape of credential at least.
pub load_rv_auth_sound :
    (src : AuthSource) (mode : Text) (issuers : Map IssuerPolicy)
    → load_rv_auth src ≡ ok (mode, issuers)
    → (one_of mode (codes "public" ∷ codes "protected" ∷ []) ≡ true)
      × ((eqt mode (codes "protected") && is_empty issuers) ≡ false)
      × AllValues IsPolicy issuers
unfolding load_rv_auth
load_rv_auth_sound (parsed given listed) mode issuers h = finish_auth_sound _ mode listed issuers h
load_rv_auth_sound no_path mode issuers h = default_facts mode issuers h
load_rv_auth_sound missing mode issuers h = default_facts mode issuers h
load_rv_auth_sound unreadable mode issuers h = absurd (ground arith)
load_rv_auth_sound malformed mode issuers h = absurd (ground arith)
