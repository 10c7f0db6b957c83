-- ===== src/Market/Writes/Pushing.antt =====
-- What a push goes through.
use servers.Base.{
  ℕ, ◌≡◌, ◌≢◌, ◌⊎◌, refl, sym, ap, ◌∙◌, inl, inr, true, false, ◌||◌, some, is_some, Text, codes,
  eqt, eqt_iff, equal_fold, is_empty, hex_encode, length, Result, ok, err, arith, Bool-cases,
  Option-cases, Result-cases,
}
use servers.Market.Nonces.{verify_write}
use servers.Market.Store.{PushInput, author_id, find_row, put_asset, get_recipe}
use servers.Market.Store.Pushed.{put_asset-stored}
use servers.Market.Meta.{MetaError, RecipeMeta, parse_recipe_meta, meta_of}
use servers.Market.AppRecipe.{validate_app_recipe}
use servers.Market.Http.{
  HttpRequest, Response, Platform, Server, read_body, verify, verify_write_author,
}
use servers.Recipe.Include.{parse}
use servers.Market.Writes.{push_input, read_push, store_push, handle_push}

module _ (pf : Platform) (now : ℕ) (kind author name : Text) where
  abbrev pub meta_of_recipe : Text → Result MetaError RecipeMeta
  meta_of_recipe text = parse_recipe_meta pf.float pf.paths pf.files (length pf.files) text

  -- A recipe that may be pushed: its metadata, its name that of the path, its author the signer if it
  -- names one, and the platforms of an app in order.
  pub record IsPushable (text : Text) (i : PushInput) : Type 0 where
    pub found : RecipeMeta
    pub parsed : meta_of_recipe text ≡ ok found
    pub named : found.asset.name ≡ name
    pub claimed : (is_empty found.author || equal_fold found.author author) ≡ true
    pub checked : (eqt kind (codes "app") ≡ false) ⊎ (validate_app_recipe text ≡ ok tt)
    pub input : i ≡ record {
      kind = kind;
      author = author;
      meta = found.asset;
      sha256 = hex_encode (pf.crypto.sha256 text);
      recipe_body = text;
    }

  push_input-IsPushable :
      (text : Text) (i : PushInput)
      → push_input pf now kind author name text ≡ ok i
      → IsPushable text i
  unfolding push_input
  push_input-IsPushable text i h = elim (Result-cases (meta_of_recipe text)) [
    | inr (e, p) ↦ absurd (ground arith)
    | inl (m, p) ↦ elim (Bool-cases (eqt m.asset.name name)) [
      | inr n ↦ absurd (ground arith)
      | inl n ↦ elim (Bool-cases (is_empty m.author || equal_fold m.author author)) [
        | inr a ↦ absurd (ground arith)
        | inl a ↦ elim (Result-cases (validate_app_recipe text)) [
          | inl (done, v) ↦ record {
            found = m;
            parsed = p;
            named = (eqt_iff m.asset.name name).0 n;
            claimed = a;
            checked = inr v;
            input = ground arith;
          }
          | inr (e, v) ↦ elim (Bool-cases (eqt kind (codes "app"))) [
            | inl k ↦ absurd (ground arith)
            | inr k ↦ record {
              found = m;
              parsed = p;
              named = (eqt_iff m.asset.name name).0 n;
              claimed = a;
              checked = inl k;
              input = ground arith;
            }
          ]
        ]
      ]
    ]
  ]

  pub read_push-IsPushable :
      (body : Text) (i : PushInput)
      → read_push pf now kind author name body ≡ ok i
      → (text : Text) × (pf.json.push_recipe body ≡ some text) × IsPushable text i
  unfolding read_push
  read_push-IsPushable body i h = elim (Option-cases (pf.json.push_recipe body)) [
    | inl e ↦ absurd (ground arith)
    | inr (text, e) ↦ elim (Bool-cases (is_empty text)) [
      | inl n ↦ absurd (ground arith)
      | inr n ↦ (text, e, push_input-IsPushable text i (ground arith))
    ]
  ]

  pub read_push-author :
      (body : Text) (i : PushInput)
      → read_push pf now kind author name body ≡ ok i
      → i.author ≡ author
  read_push-author body i h =
      let (text, e, p) = read_push-IsPushable body i h in let q = p.input in ground arith

parse_recipe_meta-version :
    (pf : Platform) (text : Text) (m : RecipeMeta)
    → parse_recipe_meta pf.float pf.paths pf.files (length pf.files) text ≡ ok m
    → is_empty m.asset.version ≡ false
unfolding parse_recipe_meta
parse_recipe_meta-version pf text m h =
    elim (Result-cases
      (parse pf.float pf.paths pf.files (length pf.files) (codes "install.ian") text)) [
        | inr (e, p) ↦ absurd (ground arith)
        | inl (rc, p) ↦
            let found = meta_of rc.min_isann_version rc.meta in
            elim (Bool-cases (is_empty found.asset.name)) [
              | inl n ↦ absurd (ground arith)
              | inr n ↦ elim (Bool-cases (is_empty found.asset.version)) [
                | inl v ↦ absurd (ground arith)
                | inr v ↦ ground arith
              ]
            ]
      ]

store_push-stored :
    (pf : Platform) (now : ℕ) (s : Server) (i : PushInput)
    → (store_push pf now s i).1.code ≡ 201
    → ((store_push pf now s i).0.db ≡ (put_asset s.db i).0) × ((put_asset s.db i).1 ≡ ok tt)
unfolding store_push
store_push-stored pf now s i h = elim (Result-cases (put_asset s.db i).1) [
  | inr (e, p) ↦ absurd (ground arith)
  | inl (done, p) ↦ (refl, p)
]

pub verify_write_author-db :
    (pf : Platform) (now : ℕ) (s : Server) (r : HttpRequest) (body author : Text)
    → (verify_write_author pf now s r body author).0.db ≡ s.db
unfolding verify_write_author verify
verify_write_author-db pf now s r body author = refl

verify_write_author-code :
    (pf : Platform) (now : ℕ) (s : Server) (r : HttpRequest) (body author : Text) (e : Response)
    → (verify_write_author pf now s r body author).1 ≡ err e
    → e.code ≢ 201
unfolding verify_write_author verify
verify_write_author-code pf now s r body author e h =
    let signed = record r.signed { body = body } in
    elim (Result-cases (verify_write pf.crypto s.cfg s.seen signed author now).1) [
      | inr (x, v) ↦ λ c. absurd (ground arith)
      | inl (found, v) ↦ λ c. absurd (ground arith)
    ]

read_push-code :
    (pf : Platform) (now : ℕ) (kind author name body : Text) (e : Response)
    → read_push pf now kind author name body ≡ err e
    → e.code ≢ 201
unfolding read_push push_input
read_push-code pf now kind author name body e h = elim (Option-cases (pf.json.push_recipe body)) [
  | inl n ↦ λ c. absurd (ground arith)
  | inr (text, n) ↦
      elim (Result-cases (parse_recipe_meta pf.float pf.paths pf.files (length pf.files) text)) [
        | inr (x, p) ↦ λ c. absurd (ground arith)
        | inl (m, p) ↦ λ c. absurd (ground arith)
      ]
]

-- A push that is answered by 201 has stored what it was sent: the recipe in its body, whose metadata
-- name the asset of the path and, if they name an author, the path's; whose platforms are in order,
-- if it is an app; and which is then served under the path and the version that it declares, with its
-- hash. An asset that the author did not have is private.
pub handle_push_sound :
    (pf : Platform) (now : ℕ) (s : Server) (r : HttpRequest) (kind author name : Text)
    → (handle_push pf now s r kind author name).1.code ≡ 201
    → (text : Text) × (i : PushInput) × (visibility : Text) × (pf.json.push_recipe
          (read_body 4194304 r)
        ≡ some text)
      × IsPushable pf now kind author name text i
      × (get_recipe (handle_push pf now s r kind author name).0.db kind author name i.meta.version
          ≡ some (text, hex_encode (pf.crypto.sha256 text), visibility))
      × ((is_some (find_row kind (author_id s.db author).1 name s.db.assets) ≡ true)
          ⊎ (visibility ≡ codes "private"))
handle_push_sound pf now s r kind author name h =
    let body = read_body 4194304 r in
    let s' = (verify_write_author pf now s r body author).0 in
    elim (Result-cases (verify_write_author pf now s r body author).1) [
      | inr (e, v) ↦ absurd (
          verify_write_author-code pf now s r body author e v
            (ap (λ x. x.1.code) (sym (refused e v)) ∙ h))
      | inl (signer, v) ↦ elim (Result-cases (read_push pf now kind author name body)) [
        | inr (e, p) ↦ absurd (
            read_push-code pf now kind author name body e p
              (ap (λ x. x.1.code) (sym (unreadable v p)) ∙ h))
        | inl (i, p) ↦
            let same = stored_as v p in
            let (written, done) =
              store_push-stored pf now s' i (ap (λ x. x.1.code) (sym same) ∙ h) in
            let (text, read, push) = read_push-IsPushable pf now kind author name body i p in
            let input = push.input in
            let there = verify_write_author-db pf now s r body author in
            let after : (handle_push pf now s r kind author name).0.db ≡ (put_asset s.db i).0 =
              ap (λ x. x.0.db) same ∙ written ∙ ap (λ d. (put_asset d i).0) there in
            let done' : (put_asset s.db i).1 ≡ ok tt =
              ap (λ d. (put_asset d i).1) (sym there) ∙ done in
            let kind_is : i.kind ≡ kind = ap (λ x. x.kind) input in
            let author_is : i.author ≡ author = ap (λ x. x.author) input in
            let name_is : i.meta.name ≡ name = ap (λ x. x.meta.name) input ∙ push.named in
            let text_is : i.recipe_body ≡ text = ap (λ x. x.recipe_body) input in
            let sha_is : i.sha256 ≡ hex_encode (pf.crypto.sha256 text) = ap (λ x. x.sha256) input in
            let versioned : is_empty i.meta.version ≡ false =
              ap (λ x. is_empty x.meta.version) input
              ∙ parse_recipe_meta-version pf text push.found push.parsed in
            let (visibility, served, fresh) = put_asset-stored s.db i versioned done' in
            (
              text,
              i,
              visibility,
              read,
              push,
              cc,
              elim fresh [
                | inl old ↦ inl (cc (old, kind_is, author_is, name_is))
                | inr new ↦ inr new
              ],
            )
      ]
    ]
  where
    refused :
        (e : Response)
        → (verify_write_author pf now s r (read_body 4194304 r) author).1 ≡ err e
        → handle_push pf now s r kind author name
          ≡ ((verify_write_author pf now s r (read_body 4194304 r) author).0, e)
    refused e v = unfold handle_push in rw (v, handle_push)

    unreadable :
        {signer : Text} {e : Response}
        → (verify_write_author pf now s r (read_body 4194304 r) author).1 ≡ ok signer
        → read_push pf now kind author name (read_body 4194304 r) ≡ err e
        → handle_push pf now s r kind author name
          ≡ ((verify_write_author pf now s r (read_body 4194304 r) author).0, e)
    unreadable v p = unfold handle_push in rw (v, handle_push) (rw p)

    stored_as :
        {signer : Text} {i : PushInput}
        → (verify_write_author pf now s r (read_body 4194304 r) author).1 ≡ ok signer
        → read_push pf now kind author name (read_body 4194304 r) ≡ ok i
        → handle_push pf now s r kind author name
          ≡ store_push pf now (verify_write_author pf now s r (read_body 4194304 r) author).0 i
    stored_as v p = unfold handle_push in rw (v, handle_push) (rw p)
