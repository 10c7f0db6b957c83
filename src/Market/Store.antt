-- ===== src/Market/Store.antt =====
-- pkg/market/sqlstore.go: the three tables, as lists of rows in the order of insertion, and the
-- queries on them. A query that fails for another reason than a unique key is not modelled, nor are
-- handles, which nothing sets, the times of creation and update, and ratings.

pub mod Published
pub mod Immutable
pub mod Pushed
use servers.Base.{
  ℕ, zero, suc, ◌+◌, Bool, true, false, not, ◌&&◌, ◌||◌, List, [], ◌∷◌, ◌++◌, Option, none, some,
  is_some, Text, Map, codes, eqt, is_empty, to_lower, join, keep, lookup, insert, if◌then◌else◌,
  ◌==◌, Result, ok, err,
}
use servers.Market.Versions.{latest_of}

pub record AssetRow : Type 0 where
  pub id : ℕ
  pub kind : Text
  pub author_id : ℕ
  pub name : Text
  pub latest_version : Text
  pub summary : Text
  pub license : Text
  pub min_isann : Text
  pub tags : Text
  pub visibility : Text
  pub price : Text
  pub token : Option Text
  pub downloads : ℕ

pub record VersionRow : Type 0 where
  pub asset_id : ℕ
  pub version : Text
  pub sha256 : Text
  pub recipe_body : Text

pub record Db : Type 0 where
  pub authors : Map ℕ
  pub next_author : ℕ
  pub assets : List AssetRow
  pub next_asset : ℕ
  pub versions : List VersionRow

pub record AssetMeta : Type 0 where
  pub name : Text
  pub version : Text
  pub summary : Text
  pub license : Text
  pub min_isann : Text
  pub tags : List Text

pub record PushInput : Type 0 where
  pub kind : Text
  pub author : Text
  pub meta : AssetMeta
  pub sha256 : Text
  pub recipe_body : Text

pub data StoreError : Type 0 where
  version_exists not_found : StoreError

-- `authorID`: the row of an EOA, made if there is none.
unfoldable pub author_id : Db → Text → Db × ℕ
author_id db eoa = elim (lookup (to_lower eoa) db.authors) [
  | some id ↦ (db, id)
  | none ↦ (
    record db {
      authors = insert (to_lower eoa) db.next_author db.authors;
      next_author = suc db.next_author;
    },
    db.next_author,
  )
]

abbrev pub is_asset : Text → ℕ → Text → AssetRow → Bool
is_asset kind author name a = eqt a.kind kind && (a.author_id == author && eqt a.name name)

-- `WHERE type = ? AND author_id = ? AND name = ?`
unfoldable pub find_row : Text → ℕ → Text → List AssetRow → Option AssetRow
find_row kind author name [] = none
find_row kind author name (a ∷ rows) =
    if is_asset kind author name a then some a else find_row kind author name rows

-- The same, joined with the authors by EOA.
unfoldable pub find_asset : Db → Text → Text → Text → Option AssetRow
unfolding find_row
find_asset db kind eoa name = elim (lookup (to_lower eoa) db.authors) [
  | none ↦ none
  | some author ↦ find_row kind author name db.assets
]

unfoldable pub find_version : ℕ → Text → List VersionRow → Option VersionRow
find_version id version [] = none
find_version id version (v ∷ vs) =
    if v.asset_id == id && eqt v.version version then some v else find_version id version vs

-- `UPDATE assets SET ... WHERE id = ?`
unfoldable pub update_asset : ℕ → (AssetRow → AssetRow) → List AssetRow → List AssetRow
update_asset id f [] = []
update_asset id f (a ∷ rows) = (if a.id == id then f a else a) ∷ update_asset id f rows

versions_of : ℕ → List VersionRow → List Text
versions_of id [] = []
versions_of id (v ∷ vs) =
    if v.asset_id == id then v.version ∷ versions_of id vs else versions_of id vs

-- The update of `refreshLatest`.
unfoldable pub refresh_row : Text → AssetMeta → AssetRow → AssetRow
refresh_row latest meta a =
    if eqt latest meta.version
    then record a {
      latest_version = latest;
      summary = meta.summary;
      license = meta.license;
      min_isann = meta.min_isann;
      tags = join (b',' ∷ []) meta.tags;
    }
    else record a { latest_version = latest }

unfoldable pub refresh_latest : ℕ → AssetMeta → Db → Db
unfolding update_asset versions_of refresh_row
refresh_latest id meta db = record db {
  assets = update_asset id (refresh_row (latest_of (versions_of id db.versions)) meta) db.assets;
}

unfoldable pub new_row : ℕ → ℕ → PushInput → AssetRow
new_row id author i = record {
  id = id;
  kind = i.kind;
  author_id = author;
  name = i.meta.name;
  latest_version = i.meta.version;
  summary = i.meta.summary;
  license = i.meta.license;
  min_isann = i.meta.min_isann;
  tags = join (b',' ∷ []) i.meta.tags;
  visibility = codes "private";
  price = codes "0";
  token = none;
  downloads = 0;
}

-- The row of the pushed asset, made if there is none.
unfoldable pub ensure_asset : Db → ℕ → PushInput → Db × ℕ
unfolding new_row
ensure_asset db author i = elim (find_row i.kind author i.meta.name db.assets) [
  | some a ↦ (db, a.id)
  | none ↦ (
    record db {
      assets = db.assets ++ (new_row db.next_asset author i ∷ []);
      next_asset = suc db.next_asset;
    },
    db.next_asset,
  )
]

-- `INSERT INTO asset_versions`, which the unique key on the asset and the version may refuse.
unfoldable pub add_version : Db → ℕ → PushInput → Db × Result StoreError (Unit {0})
unfolding refresh_latest
add_version db id i = elim (find_version id i.meta.version db.versions) [
  | some _ ↦ (db, err version_exists)
  | none ↦
      let row : VersionRow = record {
        asset_id = id;
        version = i.meta.version;
        sha256 = i.sha256;
        recipe_body = i.recipe_body;
      } in
      (refresh_latest id i.meta (record db { versions = db.versions ++ (row ∷ []) }), ok tt)
]

-- No transaction holds the statements together: a refused version leaves the rows made before it.
unfoldable pub put_asset : Db → PushInput → Db × Result StoreError (Unit {0})
unfolding author_id ensure_asset add_version
put_asset db i =
    let (db1, author) = author_id db i.author in
    let (db2, id) = ensure_asset db1 author i in add_version db2 id i

-- `none` if no such recipe; an empty version is the latest.
unfoldable pub get_recipe : Db → Text → Text → Text → Text → Option (Text × Text × Text)
unfolding find_asset find_version
get_recipe db kind eoa name version = elim (find_asset db kind eoa name) [
  | none ↦ none
  | some a ↦
      elim (find_version a.id (if is_empty version then a.latest_version else version)
        db.versions) [ none ↦ none | some v ↦ some (v.recipe_body, v.sha256, a.visibility) ]
]

unfoldable pub set_visibility : Db → Text → Text → Text → Text → Db × Result StoreError Bool
unfolding find_asset update_asset
set_visibility db kind eoa name visibility = elim (find_asset db kind eoa name) [
  | none ↦ (db, err not_found)
  | some a ↦ if eqt a.visibility visibility then (db, ok false) else (
    record db { assets = update_asset a.id (λ r. record r { visibility = visibility }) db.assets },
    ok true,
  )
]

-- A null token and an empty one compare equal.
abbrev token_text : Option Text → Text
token_text none = []
token_text (some t) = t

unfoldable pub set_price :
    Db → Text → Text → Text → Text → Option Text → Db × Result StoreError Bool
unfolding find_asset update_asset
set_price db kind eoa name price token = elim (find_asset db kind eoa name) [
  | none ↦ (db, err not_found)
  | some a ↦
      if eqt a.price price && eqt (token_text a.token) (token_text token) then (db, ok false) else (
        record db {
          assets = update_asset a.id (λ r. record r { price = price; token = token }) db.assets;
        },
        ok true,
      )
]

-- What is given and differs from the row is set; one update for both.
unfoldable pub set_meta :
    Db → Text → Text → Text → Option Text → Option Text → Db × Result StoreError Bool
unfolding find_asset update_asset
set_meta db kind eoa name tags summary = elim (find_asset db kind eoa name) [
  | none ↦ (db, err not_found)
  | some a ↦
      let new_tags : Text = elim tags [ none ↦ a.tags | some t ↦ t ] in
      let new_summary : Text = elim summary [ none ↦ a.summary | some t ↦ t ] in
      if eqt new_tags a.tags && eqt new_summary a.summary then (db, ok false) else (
        record db {
          assets =
              update_asset a.id
                (λ r. record r {
                  tags = elim tags [ none ↦ r.tags | some t ↦ t ];
                  summary = elim summary [ none ↦ r.summary | some t ↦ t ];
                })
                db.assets;
        },
        ok true,
      )
]

unfoldable pub delete_asset : Db → Text → Text → Text → Db × Bool
unfolding find_asset
delete_asset db kind eoa name = elim (find_asset db kind eoa name) [
  | none ↦ (db, false)
  | some a ↦ (
    record db {
      versions = keep (λ v. not (v.asset_id == a.id)) db.versions;
      assets = keep (λ r. not (r.id == a.id)) db.assets;
    },
    true,
  )
]

unfoldable pub incr_downloads : Db → Text → Text → Text → Db
unfolding find_asset update_asset
incr_downloads db kind eoa name = elim (find_asset db kind eoa name) [
  | none ↦ db
  | some a ↦ record db {
    assets = update_asset a.id (λ r. record r { downloads = suc r.downloads }) db.assets;
  }
]
