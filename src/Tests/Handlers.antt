-- ===== src/Tests/Handlers.antt =====
-- Runs of the market's handlers.
use servers.Base.{
  ℕ, zero, suc, ◌≡◌, ◌≢◌, ◌⊎◌, ◌↔◌, refl, Bool, true, false, is_some, [], ◌∷◌, ◌++◌, none, some,
  Text, Map, List, codes, Result, ok, err, arith, All, any, hex_encode, is_empty, to_lower, take,
  split_byte, eqt,
}
use servers.Market.Nonces.{no_authorization, Config, Request, verify_write}
use servers.Market.Store.{
  Db, AssetMeta, PushInput, AssetRow, VersionRow, StoreError, author_id, find_row, find_asset,
  find_version, get_recipe,
}
use servers.Market.Browse.{Asset, Version, ListFilter, Sql, list_assets, list_mine}
use servers.Market.Browse.Visible.{IsSql, list_assets-visible}
use servers.Market.Http.{
  HttpRequest, Body, versions, Response, reply, RawTags, Json, Platform, Server, read_body,
}
use servers.Market.Writes.{handle_push}
use servers.Market.Writes.Pushing.{IsPushable, handle_push_sound}
use servers.Market.Queries.{not_found, handle_versions, handle_get_meta, handle_install}
use servers.Market.Router.Hidden.{is_listed, private_hidden, handle_versions-shown}
use servers.Tests.Data.{toy}
use servers.Tests.Market.{config, request, db, empty_db}
use servers.Tests.Parser.{no_floats, flat}

-- Every pattern matches; the order is that of the table, on one page.
abbrev plain_sql : Sql
plain_sql = record {
  like = λ s p. true;
  order_by = λ column rows. rows;
  window = λ limit offset rows. take limit rows;
}

take-All :
    {A : Type 0} (p : A → Bool) (n : ℕ) (xs : List A)
    → All (λ x. p x ≡ true) xs
    → All (λ x. p x ≡ true) (take n xs)
take-All p zero xs h = tt
take-All p (suc n) [] h = tt
take-All p (suc n) (x ∷ xs) h = (h.0, take-All p n xs h.1)

plain_sql-IsSql : IsSql plain_sql
plain_sql-IsSql = record {
  ordered = λ p column rows h. h;
  windowed = λ p limit offset rows h. take-All p limit rows h;
}

abbrev any_asset : ListFilter
any_asset = record {
  kind = [];
  author = [];
  query = [];
  paid = none;
  sort = [];
  page = 1;
  limit = 20;
}

author_named : is_empty (to_lower (codes "0xA1")) ≡ false
unfolding is_empty to_lower
author_named = refl

list_assets-visible_example :
    All (λ a. a.visibility ≡ codes "public") (list_assets plain_sql db any_asset).0
    × All
        (λ a. a.author ≡ to_lower (codes "0xA1"))
        (list_mine plain_sql db (codes "0xA1") any_asset).0
list_assets-visible_example =
    list_assets-visible plain_sql db any_asset any_asset (codes "0xA1") plain_sql-IsSql author_named

-- The body of a push is the recipe itself.
abbrev raw_json : Json
raw_json = record {
  push_recipe = λ body. some body;
  visibility = λ body. some body;
  price = λ body. none;
  meta = λ body. none;
}

abbrev platform : Platform
platform = record {
  crypto = toy;
  json = raw_json;
  float = no_floats;
  paths = flat;
  files = [];
  sql = plain_sql;
}

abbrev server : Server
server = record { cfg = config; db = empty_db; seen = [] }

abbrev pushed_text : Text
pushed_text = codes "#pragma ISANN 1.0.0\n# name: chat\n# version: 1.0\nvar y = 1;"

abbrev push_request : HttpRequest
push_request = record {
  signed = record request {
    method = codes "POST";
    request_uri = codes "/v1/assets/skill/0xa1/chat";
    body = pushed_text;
  };
  path = codes "/v1/assets/skill/0xa1/chat";
  query = [];
}

push_created :
    (handle_push platform 1010 server push_request
      (codes "skill")
      (codes "0xa1")
      (codes "chat")).1.code
    ≡ 201
unfolding handle_push servers.Market.Http.verify_write_author verify_write servers.Base.has_prefix
    is_empty servers.Base.parse_int servers.Auth.Ethereum.recover_address servers.Base.hex_decode
    servers.Base.trim_prefix servers.Base.trim_space hex_encode servers.Market.Nonces.use_once
    servers.Base.lookup servers.Base.retain to_lower eqt read_body
    servers.Market.Meta.parse_recipe_meta servers.Recipe.Include.parse
    servers.Recipe.Header.parse_file split_byte servers.Base.unix_lines servers.Base.fields
    servers.Base.cut_text servers.Recipe.Semver.looks_like_semver
    servers.Recipe.Tokens.parse_statements servers.Recipe.Flow.validate_control_flow
    servers.Base.one_of servers.Base.cut_byte servers.Base.insert servers.Market.Writes.store_push
    servers.Market.Store.put_asset servers.Market.Browse.get_asset find_row find_version find_asset
    servers.Market.Versions.latest_of
push_created = refl

handle_push_sound_example :
    (text : Text) × (i : PushInput) × (visibility : Text) × (platform.json.push_recipe
        (read_body 4194304 push_request)
      ≡ some text)
    × IsPushable platform 1010 (codes "skill") (codes "0xa1") (codes "chat") text i
    × (get_recipe
          (handle_push platform 1010 server push_request
            (codes "skill")
            (codes "0xa1")
            (codes "chat")).0.db
          (codes "skill")
          (codes "0xa1")
          (codes "chat")
          i.meta.version
        ≡ some (text, hex_encode (platform.crypto.sha256 text), visibility))
    × ((is_some (
            find_row
              (codes "skill")
              (author_id server.db (codes "0xa1")).1
              (codes "chat")
              server.db.assets)
          ≡ true)
        ⊎ (visibility ≡ codes "private"))
handle_push_sound_example =
    handle_push_sound platform 1010 server push_request (codes "skill") (codes "0xa1")
      (codes "chat") push_created

abbrev private_row : AssetRow
private_row = record {
  id = 1;
  kind = codes "app";
  author_id = 1;
  name = codes "chat";
  latest_version = codes "1.0";
  summary = [];
  license = [];
  min_isann = [];
  tags = [];
  visibility = codes "private";
  price = codes "0";
  token = none;
  downloads = 4;
}

abbrev first_version : VersionRow
first_version = record {
  asset_id = 1;
  version = codes "1.0";
  sha256 = codes "h1";
  recipe_body = codes "r1";
}

abbrev private_server : Server
private_server = record {
  cfg = config;
  db = record db { assets = private_row ∷ []; versions = first_version ∷ [] };
  seen = [];
}

-- No signature at all.
abbrev stranger : HttpRequest
stranger = record {
  signed = record request { method = codes "GET"; authorization = [] };
  path = codes "/v1/assets/app/0xa1/chat";
  query = [];
}

private_found :
    find_asset private_server.db (codes "app") (codes "0xa1") (codes "chat") ≡ some private_row
unfolding find_asset servers.Base.lookup eqt to_lower
private_found = refl

version_found : find_version 1 (codes "1.0") private_server.db.versions ≡ some first_version
unfolding find_version eqt
version_found = refl

named : is_empty (codes "0xa1") ≡ false
unfolding is_empty
named = refl

ok_not_err : {A E : Type 0} (r : Result E A) (e : E) (a : A) → r ≡ err e → r ≢ ok a
ok_not_err r e a h k = absurd (ground arith)

turned_away :
    (verify_write toy config [] (record stranger.signed { body = [] }) (codes "0xa1") 1010).1
    ≡ err no_authorization
unfolding verify_write servers.Base.has_prefix
turned_away = refl

private_hidden_example :
    ((handle_get_meta platform 1010 private_server stranger
        (codes "app")
        (codes "0xa1")
        (codes "chat")).1
      ≡ not_found)
    × ((handle_install platform 1010 private_server stranger
          (codes "app")
          (codes "0xa1")
          (codes "chat")).1
        ≡ not_found)
    × ((handle_install platform 1010 private_server stranger
          (codes "app")
          (codes "0xa1")
          (codes "chat")).0.db
        ≡ private_server.db)
private_hidden_example =
    private_hidden platform 1010 private_server stranger (codes "app") (codes "0xa1") (codes "chat")
      private_row private_found refl named (ok_not_err _ _ _ turned_away)

handle_versions-shown_example :
    (vs : List Version) × (handle_versions platform 1010 private_server stranger
        (codes "app")
        (codes "0xa1")
        (codes "chat")
      ≡ reply 200 (versions vs))
    × (any (is_listed first_version) vs ≡ true)
handle_versions-shown_example =
    handle_versions-shown platform 1010 private_server stranger (codes "app") (codes "0xa1")
      (codes "chat") (codes "1.0") private_row first_version private_found version_found
