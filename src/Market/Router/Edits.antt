-- ===== src/Market/Router/Edits.antt =====
-- pkg/market/server.go: what the handlers of writes do to the tables.
use servers.Base.{
  ℕ, ◌≡◌, ◌⊎◌, inl, inr, ◌∙◌, ap, Bool, true, false, not, none, some, Text, codes, eqt, Option,
  ◌||◌, is_some, take, eqt_iff, is_empty, if◌then◌else◌, ok, arith, Bool-cases, Option-cases,
  Result-cases,
}
use servers.Market.Nonces.{verify_write}
use servers.Market.Store.{
  Db, PushInput, put_asset, set_visibility, set_price, set_meta, delete_asset, incr_downloads,
}
use servers.Market.Http.{
  HttpRequest, Response, Platform, Server, read_body, verify, verify_write_author,
}
use servers.Market.Writes.{
  normalize_tags, read_push, store_push, change_visibility, change_price, change_meta, remove_asset,
  signed_change, handle_push, handle_visibility, handle_price, handle_meta, handle_unpush,
}
use servers.Market.Writes.Pushing.{verify_write_author-db, read_push-author}

-- An operation of the store in the name of an author: the row that it works on is found by the
-- author's address.
pub data Edit (author : Text) (db db' : Db) : Type 0 where
  pushed : (i : PushInput) → i.author ≡ author → db' ≡ (put_asset db i).0 → Edit author db db'
  published :
      (kind name visibility : Text)
      → db' ≡ (set_visibility db kind author name visibility).0
      → Edit author db db'
  priced :
      (kind name price : Text) (token : Option Text)
      → db' ≡ (set_price db kind author name price token).0
      → Edit author db db'
  described :
      (kind name : Text) (tags summary : Option Text)
      → db' ≡ (set_meta db kind author name tags summary).0
      → Edit author db db'
  removed : (kind name : Text) → db' ≡ (delete_asset db kind author name).0 → Edit author db db'

-- The tables were edited in the name of an author, and the request was accepted as signed by that
-- author, over the part of its body that was read.
pub record IsSigned (pf : Platform) (now : ℕ) (s : Server) (r : HttpRequest) (s' : Server)
    : Type 0 where
  pub author : Text
  pub size : ℕ
  pub accepted :
      (verify_write pf.crypto s.cfg s.seen
        (record r.signed { body = take size r.signed.body })
        author
        now).1
      ≡ ok author
  pub edit : Edit author s.db s'.db

-- A download was counted.
pub record IsCounted (s : Server) (s' : Server) : Type 0 where
  pub kind : Text
  pub author : Text
  pub name : Text
  pub counted : s'.db ≡ incr_downloads s.db kind author name

pub if_elim {ℓ κ} :
    {A : Type ℓ} (P : A → Type κ) (b : Bool) {x y : A} → P x → P y → P (if b then x else y)
if_elim P true p q = p
if_elim P false p q = q

module _ (pf : Platform) (now : ℕ) (s : Server) (r : HttpRequest) where
  -- The tables are as they were, but for a download counted, or the request is signed.
  abbrev pub Allowed : Server × Response → Type 0
  Allowed (s', reply) = (s'.db ≡ s.db) ⊎ (IsCounted s s' ⊎ IsSigned pf now s r s')

  verify_write_author-accepted :
      (body author : Text) {signer : Text}
      → (verify_write_author pf now s r body author).1 ≡ ok signer
      → (verify_write pf.crypto s.cfg s.seen (record r.signed { body = body }) author now).1
        ≡ ok author
  unfolding verify_write_author verify
  verify_write_author-accepted body author {signer} h =
      let signed = record r.signed { body = body } in
      elim (Result-cases (verify_write pf.crypto s.cfg s.seen signed author now).1) [
        | inr (e, v) ↦ absurd (ground arith)
        | inl (found, v) ↦ elim (Bool-cases (is_empty found)) [
          | inl n ↦ absurd (ground arith)
          | inr n ↦ elim (Bool-cases (eqt found author)) [
            | inr q ↦ absurd (ground arith)
            | inl q ↦ v ∙ ap ok ((eqt_iff found author).0 q)
          ]
        ]
      ]

  -- What a change does to the tables.
  abbrev Edits : Text → Server × Response → Type 0
  Edits author (s', reply) = (s'.db ≡ s.db) ⊎ Edit author s.db s'.db

  accepted_change :
      (size : ℕ) (author : Text) (done : Server × Response)
      → (verify_write pf.crypto s.cfg s.seen
          (record r.signed { body = take size r.signed.body })
          author
          now).1
        ≡ ok author
      → Edits author done
      → Allowed done
  accepted_change size author done v (inl same) = inl same
  accepted_change size author done v (inr edit) =
      inr (inr (record { author = author; size = size; accepted = v; edit = edit }))

  signed_change-Allowed :
      (size : ℕ) (author : Text) (change : Server → Text → Server × Response)
      → ((body : Text) → Edits author (change (verify_write_author pf now s r body author).0 body))
      → Allowed (signed_change pf now s r (take size r.signed.body) author change)
  unfolding signed_change
  signed_change-Allowed size author change edits =
      let body = take size r.signed.body in
      elim (Result-cases (verify_write_author pf now s r body author).1) [
        | inl (signer, v) ↦
            rw (v, signed_change)
              (accepted_change size author
                (change (verify_write_author pf now s r body author).0 body)
                (verify_write_author-accepted body author v) (edits body))
        | inr (e, v) ↦ inl (rw (v, signed_change) (verify_write_author-db pf now s r body author))
      ]

  visibility-Edits :
      (kind author name body : Text)
      → Edits author (
          change_visibility pf now kind author name
            (verify_write_author pf now s r body author).0
            body)
  unfolding change_visibility
  visibility-Edits kind author name body = elim (Option-cases (pf.json.visibility body)) [
    | inl e ↦ inl (rw (e, change_visibility) (verify_write_author-db pf now s r body author))
    | inr (v, e) ↦
        rw (e, change_visibility)
          (if_elim (Edits author) (not (eqt v (codes "public") || eqt v (codes "private")))
            (inl (verify_write_author-db pf now s r body author))
            (inr (
              published kind name v (
                ap (λ d. (set_visibility d kind author name v).0)
                  (verify_write_author-db pf now s r body author)))))
  ]

  price-Edits :
      (kind author name body : Text)
      → Edits author
          (change_price pf now kind author name (verify_write_author pf now s r body author).0 body)
  unfolding change_price
  price-Edits kind author name body = elim (Option-cases (pf.json.price body)) [
    | inl e ↦ inl (rw (e, change_price) (verify_write_author-db pf now s r body author))
    | inr ((price, token, free), e) ↦
        rw (e, change_price)
          (if_elim (Edits author) (free || eqt price (codes "0"))
            (inr (
              priced kind name (codes "0") none (
                ap (λ d. (set_price d kind author name (codes "0") none).0)
                  (verify_write_author-db pf now s r body author))))
            (if_elim (Edits author) (is_empty price || is_empty token)
              (inl (verify_write_author-db pf now s r body author))
              (inr (
                priced kind name price (some token) (
                  ap (λ d. (set_price d kind author name price (some token)).0)
                    (verify_write_author-db pf now s r body author))))))
  ]

  meta-Edits :
      (kind author name body : Text)
      → Edits author
          (change_meta pf now kind author name (verify_write_author pf now s r body author).0 body)
  unfolding change_meta
  meta-Edits kind author name body = elim (Option-cases (pf.json.meta body)) [
    | inl e ↦ inl (rw (e, change_meta) (verify_write_author-db pf now s r body author))
    | inr ((raw, summary), e) ↦
        rw (e, change_meta)
          (let tags : Option Text = elim raw [ none ↦ none | some t ↦ some (normalize_tags t) ] in
            if_elim (Edits author) (not (is_some tags || is_some summary))
              (inl (verify_write_author-db pf now s r body author))
              (inr (
                described kind name tags summary (
                  ap (λ d. (set_meta d kind author name tags summary).0)
                    (verify_write_author-db pf now s r body author)))))
  ]

  unpush-Edits :
      (kind author name body : Text)
      → Edits author
          (remove_asset pf now kind author name (verify_write_author pf now s r body author).0 body)
  unfolding remove_asset
  unpush-Edits kind author name body = inr (
      removed kind name (
        ap (λ d. (delete_asset d kind author name).0)
          (verify_write_author-db pf now s r body author)))

  store_push-db :
      (body author : Text) (i : PushInput)
      → (store_push pf now (verify_write_author pf now s r body author).0 i).0.db
        ≡ (put_asset s.db i).0
  unfolding store_push
  store_push-db body author i =
      ap (λ d. (put_asset d i).0) (verify_write_author-db pf now s r body author)

  module _ (kind author name : Text) where
    pub push-Allowed : Allowed (handle_push pf now s r kind author name)
    unfolding handle_push read_body
    push-Allowed =
        let body = take 4194304 r.signed.body in
        let s' = (verify_write_author pf now s r body author).0 in
        elim (Result-cases (verify_write_author pf now s r body author).1) [
          | inr (e, v) ↦ inl (rw (v, handle_push) (verify_write_author-db pf now s r body author))
          | inl (signer, v) ↦ elim (Result-cases (read_push pf now kind author name body)) [
            | inr (e, p) ↦
                inl (rw (v, handle_push) (rw p (verify_write_author-db pf now s r body author)))
            | inl (i, p) ↦
                rw (v, handle_push)
                  (rw p (
                    accepted_change 4194304 author (store_push pf now s' i)
                      (verify_write_author-accepted body author v)
                      (inr (
                        pushed i (read_push-author pf now kind author name body i p)
                          (store_push-db body author i)))))
          ]
        ]

    pub visibility-Allowed : Allowed (handle_visibility pf now s r kind author name)
    unfolding handle_visibility read_body
    visibility-Allowed = signed_change-Allowed 65536 author _ (visibility-Edits kind author name)

    pub price-Allowed : Allowed (handle_price pf now s r kind author name)
    unfolding handle_price read_body
    price-Allowed = signed_change-Allowed 65536 author _ (price-Edits kind author name)

    pub meta-Allowed : Allowed (handle_meta pf now s r kind author name)
    unfolding handle_meta read_body
    meta-Allowed = signed_change-Allowed 65536 author _ (meta-Edits kind author name)

    pub unpush-Allowed : Allowed (handle_unpush pf now s r kind author name)
    unfolding handle_unpush
    unpush-Allowed = signed_change-Allowed 0 author _ (unpush-Edits kind author name)
