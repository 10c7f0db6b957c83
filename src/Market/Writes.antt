-- ===== src/Market/Writes.antt =====
-- pkg/market/server.go: the handlers that change assets.
pub mod Pushing
use servers.Base.{
  ℕ, Bool, true, false, not, ◌&&◌, ◌||◌, List, [], ◌∷◌, Option, none, some, is_some, Text, codes,
  eqt, equal_fold, is_empty, hex_encode, split_byte, join, length, if◌then◌else◌, Result, ok, err,
  guard, ◌>>◌, ◌>>=◌,
}
use servers.Recipe.Header.{keep_words}
use servers.Market.Store.{
  Db, AssetMeta, PushInput, StoreError, put_asset, set_visibility, set_price, set_meta,
  delete_asset,
}
use servers.Market.Browse.{get_asset}
use servers.Market.Meta.{RecipeMeta, parse_recipe_meta}
use servers.Market.AppRecipe.{validate_app_recipe}
use servers.Market.Http.{
  HttpRequest, Response, reply, Body, silent, error, status, asset, RawTags, several, one, other,
  Platform, Server, read_body, verify, verify_write_author,
}

abbrev pub bad_request : Response
bad_request = reply 400 (error (codes "bad_request"))

-- The current asset, or another answer if there is none.
unfoldable pub fresh_asset : ℕ → Body → Db → Text → Text → Text → Response
fresh_asset code otherwise db kind author name = elim (get_asset db kind author name []) [
  | none ↦ reply code otherwise
  | some (a, versions) ↦ reply code (asset a)
]

unfoldable pub write_mutation : Db → Text → Text → Text → Result StoreError Bool → Response
unfolding fresh_asset
write_mutation db kind author name (err e) = reply 404 (error (codes "not_found"))
write_mutation db kind author name (ok changed) =
    if not changed
    then reply 200 (status (codes "skip"))
    else fresh_asset 200 (status (codes "ok")) db kind author name

-- A change of the tables, and the answer to it.
unfoldable pub commit :
    Server → Text → Text → Text → Db × Result StoreError Bool → Server × Response
unfolding write_mutation
commit s kind author name (db, changed) =
    (record s { db = db }, write_mutation db kind author name changed)

unfoldable pub normalize_tags : RawTags → Text
normalize_tags (several tags) = join (b',' ∷ []) (keep_words tags)
normalize_tags (one text) = join (b',' ∷ []) (keep_words (split_byte b',' text))
normalize_tags other = []

module _ (pf : Platform) (now : ℕ) where
  -- What is pushed, once it is read from the recipe and checked.
  unfoldable pub push_input : Text → Text → Text → Text → Result Response PushInput
  push_input kind author name text =
      elim (parse_recipe_meta pf.float pf.paths pf.files (length pf.files) text) [
        | err e ↦ err bad_request
        | ok m ↦ do
          guard (eqt m.asset.name name) bad_request
          guard (is_empty m.author || equal_fold m.author author) bad_request
          guard
              (not (eqt kind (codes "app"))
                || elim (validate_app_recipe text) [ ok _ ↦ true | err _ ↦ false ])
              bad_request
          ok (record {
            kind = kind;
            author = author;
            meta = m.asset;
            sha256 = hex_encode (pf.crypto.sha256 text);
            recipe_body = text;
          })
      ]

  unfoldable pub read_push : Text → Text → Text → Text → Result Response PushInput
  unfolding push_input
  read_push kind author name body = elim (pf.json.push_recipe body) [
    | none ↦ err bad_request
    | some text ↦ if is_empty text then err bad_request else push_input kind author name text
  ]

  unfoldable pub store_push : Server → PushInput → Server × Response
  unfolding fresh_asset
  store_push s i =
      let (db, result) = put_asset s.db i in
      (
        record s { db = db },
        elim result [
          | err e ↦ reply 409 (error (codes "version_exists"))
          | ok _ ↦ fresh_asset 201 silent db i.kind i.author i.meta.name
        ],
      )

  -- The push compares the signer with the path's author itself.
  unfoldable pub handle_push : Server → HttpRequest → Text → Text → Text → Server × Response
  unfolding read_push store_push
  handle_push s r kind author name =
      let body = read_body 4194304 r in
      let (s', signed) = verify_write_author pf now s r body author in
      elim signed [
        | err e ↦ (s', e)
        | ok signer ↦ elim (read_push kind author name body) [
          | err e ↦ (s', e)
          | ok i ↦ store_push s' i
        ]
      ]

  -- A body of at most 64 KiB, signed by the author.
  unfoldable pub signed_change :
      Server → HttpRequest → Text → Text → (Server → Text → Server × Response) → Server × Response
  signed_change s r body author change =
      let (s', signed) = verify_write_author pf now s r body author in
      elim signed [ err e ↦ (s', e) | ok signer ↦ change s' body ]

  unfoldable pub change_visibility : Text → Text → Text → Server → Text → Server × Response
  unfolding commit
  change_visibility kind author name s body = elim (pf.json.visibility body) [
    | none ↦ (s, bad_request)
    | some v ↦
        if not (eqt v (codes "public") || eqt v (codes "private"))
        then (s, bad_request)
        else commit s kind author name (set_visibility s.db kind author name v)
  ]

  unfoldable pub handle_visibility : Server → HttpRequest → Text → Text → Text → Server × Response
  unfolding change_visibility
  handle_visibility s r kind author name =
      signed_change s r (read_body 65536 r) author (change_visibility kind author name)

  unfoldable pub change_price : Text → Text → Text → Server → Text → Server × Response
  unfolding commit
  change_price kind author name s body = elim (pf.json.price body) [
    | none ↦ (s, bad_request)
    | some (price, token, free) ↦
        if free || eqt price (codes "0")
        then commit s kind author name (set_price s.db kind author name (codes "0") none)
        else if is_empty price || is_empty token
        then (s, bad_request)
        else commit s kind author name (set_price s.db kind author name price (some token))
  ]

  unfoldable pub handle_price : Server → HttpRequest → Text → Text → Text → Server × Response
  unfolding change_price
  handle_price s r kind author name =
      signed_change s r (read_body 65536 r) author (change_price kind author name)

  unfoldable pub change_meta : Text → Text → Text → Server → Text → Server × Response
  unfolding commit normalize_tags
  change_meta kind author name s body = elim (pf.json.meta body) [
    | none ↦ (s, bad_request)
    | some (raw, summary) ↦
        let tags : Option Text = elim raw [ none ↦ none | some t ↦ some (normalize_tags t) ] in
        if not (is_some tags || is_some summary)
        then (s, bad_request)
        else commit s kind author name (set_meta s.db kind author name tags summary)
  ]

  unfoldable pub handle_meta : Server → HttpRequest → Text → Text → Text → Server × Response
  unfolding change_meta
  handle_meta s r kind author name =
      signed_change s r (read_body 65536 r) author (change_meta kind author name)

  unfoldable pub remove_asset : Text → Text → Text → Server → Text → Server × Response
  remove_asset kind author name s body =
      let (db, existed) = delete_asset s.db kind author name in
      (record s { db = db }, reply 200 (status (if existed then codes "deleted" else codes "skip")))

  -- The body is not read, and not signed.
  unfoldable pub handle_unpush : Server → HttpRequest → Text → Text → Text → Server × Response
  unfolding remove_asset
  handle_unpush s r kind author name = signed_change s r [] author (remove_asset kind author name)
