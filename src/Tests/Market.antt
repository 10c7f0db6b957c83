-- ===== src/Tests/Market.antt =====
-- Runs of the market: a signed request, its replay, and pushes.
use servers.Base.{
  ℕ, ◌≡◌, ◌≢◌, ◌⊎◌, inl, inr, refl, true, false, is_some, [], ◌∷◌, none, some, Text, Map, List,
  codes, ok, err, arith, hex_encode, Distinct, is_empty, ◌+◌, ◌++◌,
}
use servers.Market.Nonces.{Config, Request, verify_write, verify_all, IsAccepted, IsOrdered}
use servers.Market.Nonces.Replay.{verify_write_once}
use servers.Market.Store.{Db, AssetMeta, PushInput, put_asset, get_recipe}
use servers.Market.Store.Immutable.{put_asset-get_recipe}
use servers.Tests.Data.{toy, signature65}

abbrev pub config : Config
config = record { dev_insecure_skip_auth = false; replay_win_s = 300 }

abbrev pub request : Request
request = record {
  method = codes "PUT";
  request_uri = codes "/v1/assets/app/0xa1/chat";
  body = codes "{}";
  authorization = codes "ISANN " ++ hex_encode signature65;
  nonce = codes "n1";
  timestamp = codes "1000";
}

accepted : (verify_write toy config [] request (codes "0xA1") 1010).1 ≡ ok (codes "0xa1")
unfolding verify_write servers.Base.has_prefix is_empty servers.Base.parse_int
    servers.Auth.Ethereum.recover_address servers.Base.hex_decode servers.Base.trim_prefix
    servers.Base.trim_space hex_encode servers.Market.Nonces.use_once servers.Base.lookup
    servers.Base.retain servers.Base.to_lower
accepted = refl

abbrev other : Request
other = record request { nonce = codes "n2" }

abbrev between : List (ℕ × Request × Text)
between = (1020, other, codes "0xA1") ∷ []

verify_write_once_example :
    (verify_write toy config
      (verify_all toy config (verify_write toy config [] request (codes "0xA1") 1010).0 between)
      request
      (codes "0xA1")
      1100).1
    ≢ ok (codes "0xa1")
verify_write_once_example =
    verify_write_once toy config [] request request (codes "0xA1") (codes "0xA1") 1010 1100
      (codes "0xa1") (codes "0xa1") between tt refl (omega arith) (omega arith) (omega arith)
      (omega arith, omega arith) refl refl accepted

abbrev chat : AssetMeta
chat = record {
  name = codes "chat";
  version = codes "1.0";
  summary = [];
  license = [];
  min_isann = [];
  tags = [];
}

abbrev first_push : PushInput
first_push = record {
  kind = codes "app";
  author = codes "0xA1";
  meta = chat;
  sha256 = codes "h1";
  recipe_body = codes "r1";
}

abbrev second_push : PushInput
second_push = record first_push {
  meta = record chat { version = codes "1.1" };
  sha256 = codes "h2";
  recipe_body = codes "r2";
}

abbrev pub empty_db : Db
empty_db = record { authors = []; next_author = 1; assets = []; next_asset = 1; versions = [] }

abbrev pub db : Db
db = record {
  authors = (codes "0xa1", 1) ∷ [];
  next_author = 2;
  assets =
      record {
        id = 1;
        kind = codes "app";
        author_id = 1;
        name = codes "chat";
        latest_version = codes "1.0";
        summary = [];
        license = [];
        min_isann = [];
        tags = [];
        visibility = codes "public";
        price = codes "0";
        token = none;
        downloads = 4;
      }
      ∷ [];
  next_asset = 2;
  versions =
      record { asset_id = 1; version = codes "1.0"; sha256 = codes "h1"; recipe_body = codes "r1" }
      ∷ [];
}

served :
    get_recipe db (codes "app") (codes "0xa1") (codes "chat") (codes "1.0")
    ≡ some (codes "r1", codes "h1", codes "public")
unfolding get_recipe servers.Base.lookup servers.Base.eqt servers.Base.to_lower is_empty
served = refl

version_named : is_empty (codes "1.0") ≡ false
unfolding is_empty
version_named = refl

put_asset-get_recipe_example :
    get_recipe
      (put_asset db second_push).0
      (codes "app")
      (codes "0xa1")
      (codes "chat")
      (codes "1.0")
    ≡ some (codes "r1", codes "h1", codes "public")
put_asset-get_recipe_example =
    put_asset-get_recipe db second_push (codes "app") (codes "0xa1") (codes "chat") (codes "1.0")
      (codes "r1") (codes "h1") (codes "public") version_named served
