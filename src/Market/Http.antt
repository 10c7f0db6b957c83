-- ===== src/Market/Http.antt =====
-- pkg/market/server.go: requests, responses, and the checks that the handlers share. Failures of the
-- database and of reading a body are not modelled.
use servers.Base.{
  ℕ, Bool, not, List, [], ◌∷◌, Option, none, some, Text, Map, codes, eqt, is_empty, take, lookup,
  parse_int, if◌then◌else◌, Result, ok, err,
}
use servers.Auth.Crypto.{Crypto}
use servers.Recipe.Header.{Float64}
use servers.Recipe.Include.{FilePaths, Files}
use servers.Market.Nonces.{Config, Request, verify_write}
use servers.Market.Store.{Db}
use servers.Market.Browse.{Asset, Version, Sql}

-- A request with its path, decoded, and its query's values.
pub record HttpRequest : Type 0 where
  pub signed : Request
  pub path : Text
  pub query : Map Text

pub data Body : Type 0 where
  -- Nothing was written.
  silent : Body
  error : Text → Body
  status : Text → Body
  asset : Asset → Body
  detail : Asset → List Version → Body
  versions : List Version → Body
  recipe : Text → Text → Body
  listing : List Asset → ℕ → ℕ → ℕ → Body

pub record Response : Type 0 where
  pub code : ℕ
  pub body : Body

abbrev pub reply : ℕ → Body → Response
reply code body = record { code = code; body = body }

-- The `tags` of a metadata request: a list of strings, a string, or something else.
pub data RawTags : Type 0 where
  several : List Text → RawTags
  one : Text → RawTags
  other : RawTags

-- What `json.Unmarshal` reads from the bodies; a missing string is empty.
pub record Json : Type 0 where
  pub push_recipe : Text → Option Text
  pub visibility : Text → Option Text
  pub price : Text → Option (Text × Text × Bool)
  pub meta : Text → Option (Option RawTags × Option Text)

-- What the server is run with, from outside this repository.
pub record Platform : Type 1 where
  pub crypto : Crypto
  pub json : Json
  pub float : Float64
  pub paths : FilePaths
  pub files : Files
  pub sql : Sql

pub record Server : Type 0 where
  pub cfg : Config
  pub db : Db
  pub seen : Map ℕ

abbrev pub valid_types : List Text
valid_types =
    codes "preset"
    ∷ codes "skill"
    ∷ codes "profile"
    ∷ codes "recipe"
    ∷ codes "app"
    ∷ codes "model"
    ∷ codes "mesh"
    ∷ codes "package"
    ∷ []

-- `q.Get(key)`
unfoldable pub query_get : HttpRequest → Text → Text
query_get r key = elim (lookup key r.query) [ none ↦ [] | some v ↦ v ]

unfoldable pub query_int : Text → ℕ → ℕ
query_int s default =
    if is_empty s then default else elim (parse_int s) [ none ↦ default | some n ↦ n ]

-- `io.LimitReader`: what a handler reads of the body.
unfoldable pub read_body : ℕ → HttpRequest → Text
read_body size r = take size r.signed.body

module _ (pf : Platform) (now : ℕ) where
  -- `verifyWrite` over the part of the body that was read; what an error returns is empty.
  unfoldable pub verify : Server → HttpRequest → Text → Text → Server × Result Response Text
  verify s r body target =
      let (seen, result) =
        verify_write pf.crypto s.cfg s.seen (record r.signed { body = body }) target now in
      (
        record s { seen = seen },
        elim result [
          | err e ↦ err (reply 401 (error (codes "unauthorized")))
          | ok signer ↦ if is_empty signer then err (reply 200 silent) else ok signer
        ],
      )

  unfoldable pub verify_write_author :
      Server → HttpRequest → Text → Text → Server × Result Response Text
  unfolding verify
  verify_write_author s r body author =
      let (s', result) = verify s r body author in
      (
        s',
        elim result [
          | err e ↦ err e
          | ok signer ↦
              if not (eqt signer author)
              then err (reply 401 (error (codes "unauthorized")))
              else ok signer
        ],
      )

  -- The error that `verifyWrite` would write is dropped; its result is then empty.
  unfoldable pub private_read_ok : Server → HttpRequest → Text → Server × Bool
  private_read_ok s r author =
      let (seen, result) =
        verify_write pf.crypto s.cfg s.seen (record r.signed { body = [] }) author now in
      (
        record s { seen = seen },
        elim result [ err e ↦ eqt [] author | ok signer ↦ eqt signer author ],
      )
