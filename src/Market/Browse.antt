-- ===== src/Market/Browse.antt =====
-- pkg/market/sqlstore.go: what is read from the tables for display. LIKE, ORDER BY and LIMIT are
-- parameters; handles, ratings and times are not modelled.
pub mod Visible
use servers.Base.{
  ℕ, suc, ◌-◌, ◌*◌, ◌%◌, Bool, true, false, not, ◌&&◌, ◌||◌, List, [], ◌∷◌, ◌++◌, Option, none,
  some, Text, Map, codes, eqt, is_empty, to_lower, split_byte, lookup, keep, any, length, reverse,
  slt64, ltb, is_neg, ◌==◌, if◌then◌else◌, two64, map,
}
use servers.Market.Versions.{semver_less}
use servers.Market.Store.{AssetRow, VersionRow, Db, find_asset}

pub record Asset : Type 0 where
  pub kind : Text
  pub author : Text
  pub name : Text
  pub version : Text
  pub ref : Text
  pub summary : Text
  pub license : Text
  pub min_isann : Text
  pub tags : List Text
  pub visibility : Text
  pub price : Text
  pub token : Option Text
  pub downloads : ℕ

pub record Version : Type 0 where
  pub version : Text
  pub sha256 : Text

-- `ref` of an author, a name and a version
unfoldable pub ref_of : Text → Text → Text → Text
ref_of author name version = author ++ (b'/' ∷ (name ++ (b'@' ∷ version)))

-- `scanAsset`, on a row joined with its author.
unfoldable pub scan_asset : Text → AssetRow → Asset
unfolding ref_of
scan_asset eoa a = record {
  kind = a.kind;
  author = eoa;
  name = a.name;
  version = a.latest_version;
  ref = ref_of eoa a.name a.latest_version;
  summary = a.summary;
  license = a.license;
  min_isann = a.min_isann;
  tags = if is_empty a.tags then [] else split_byte b',' a.tags;
  visibility = a.visibility;
  price = a.price;
  token = a.token;
  downloads = a.downloads;
}

-- One round of the outer loop of `sortVersionsDesc`, on the sorted part from its end.
unfoldable pub sink : Version → List Version → List Version
unfolding semver_less
sink v [] = v ∷ []
sink v (p ∷ ps) = if semver_less p.version v.version then p ∷ sink v ps else v ∷ p ∷ ps

unfoldable pub sort_from : List Version → List Version → List Version
unfolding sink
sort_from sorted [] = reverse sorted
sort_from sorted (v ∷ vs) = sort_from (sink v sorted) vs

unfoldable pub sort_versions_desc : List Version → List Version
unfolding sort_from
sort_versions_desc = sort_from []

unfoldable pub version_rows : ℕ → List VersionRow → List Version
version_rows id [] = []
version_rows id (v ∷ vs) =
    if v.asset_id == id
    then record { version = v.version; sha256 = v.sha256 } ∷ version_rows id vs
    else version_rows id vs

unfoldable pub list_versions : Db → Text → Text → Text → List Version
unfolding find_asset version_rows sort_versions_desc
list_versions db kind eoa name = elim (find_asset db kind eoa name) [
  | none ↦ []
  | some a ↦ sort_versions_desc (version_rows a.id db.versions)
]

-- The asset shown at a version; an empty version is the latest.
unfoldable pub pinned : Asset → List Version → Text → Option Asset
unfolding ref_of
pinned a versions version =
    if is_empty version
    then some a
    else if any (λ v. eqt v.version version) versions
    then some (record a { version = version; ref = ref_of a.author a.name version })
    else none

unfoldable pub get_asset : Db → Text → Text → Text → Text → Option (Asset × List Version)
unfolding find_asset scan_asset list_versions pinned
get_asset db kind eoa name version = elim (find_asset db kind eoa name) [
  | none ↦ none
  | some row ↦
      let versions = list_versions db kind eoa name in
      elim (pinned (scan_asset (to_lower eoa) row) versions version) [
        | none ↦ none
        | some a ↦ some (a, versions)
      ]
]

pub record ListFilter : Type 0 where
  pub kind : Text
  pub author : Text
  pub query : Text
  pub paid : Option Bool
  pub sort : Text
  pub page : ℕ
  pub limit : ℕ

-- A row of the join of `assets` with `authors`.
abbrev pub Joined : Type 0
Joined = Text × AssetRow

-- LIKE, ORDER BY a column, and LIMIT and OFFSET, which are int64.
pub record Sql : Type 0 where
  pub like : Text → Text → Bool
  pub order_by : Text → List Joined → List Joined
  pub window : ℕ → ℕ → List Joined → List Joined

unfoldable pub eoa_of : ℕ → Map ℕ → Option Text
eoa_of id [] = none
eoa_of id ((eoa, k) ∷ authors) = if k == id then some eoa else eoa_of id authors

unfoldable pub joined : Map ℕ → List AssetRow → List Joined
unfolding eoa_of
joined authors [] = []
joined authors (a ∷ rows) = elim (eoa_of a.author_id authors) [
  | none ↦ joined authors rows
  | some eoa ↦ (eoa, a) ∷ joined authors rows
]

-- The keyword, over the name, the summary and the tags.
unfoldable pub matches_query : Sql → Text → AssetRow → Bool
matches_query sql query a =
    let pattern = b'%' ∷ (to_lower query ++ (b'%' ∷ [])) in
    sql.like (to_lower a.name) pattern
    || (sql.like (to_lower a.summary) pattern || sql.like (to_lower a.tags) pattern)

unfoldable pub matches_paid : Option Bool → AssetRow → Bool
matches_paid none a = true
matches_paid (some true) a = not (eqt a.price (codes "0"))
matches_paid (some false) a = eqt a.price (codes "0")

-- The WHERE clause.
unfoldable pub matches : Sql → ListFilter → Text → Bool → Joined → Bool
unfolding matches_query matches_paid
matches sql f mine public_only (eoa, a) =
    (not public_only || eqt a.visibility (codes "public"))
    && ((is_empty mine || eqt eoa mine)
        && ((is_empty f.kind || eqt a.kind f.kind)
            && ((is_empty f.author || eqt eoa (to_lower f.author))
                && ((is_empty f.query || matches_query sql f.query a) && matches_paid f.paid a))))

abbrev pub order_of : Text → Text
order_of sort =
    if eqt sort (codes "updated")
    then codes "a.updated_at DESC"
    else if eqt sort (codes "rating")
    then codes "a.avg_rating DESC"
    else codes "a.downloads DESC"

-- Sizes from 1 to 100 are kept, others are 20; pages count from 1.
unfoldable pub clamp_limit : ℕ → ℕ
clamp_limit n = if is_neg n || (n == 0 || ltb 100 n) then 20 else n

unfoldable pub clamp_page : ℕ → ℕ
clamp_page n = if slt64 n 1 then 1 else n

-- The page asked for, and the number of all rows that match.
unfoldable pub list_rows : Sql → Db → ListFilter → Text → Bool → List Asset × ℕ
unfolding joined matches clamp_limit clamp_page scan_asset
list_rows sql db f mine public_only =
    let rows = keep (matches sql f mine public_only) (joined db.authors db.assets) in
    let limit = clamp_limit f.limit in
    let offset = ((clamp_page f.page - 1) * limit) % two64 in
    (
      map (λ (eoa, a). scan_asset eoa a)
          (sql.window limit offset (sql.order_by (order_of f.sort) rows)),
      length rows,
    )

unfoldable pub list_assets : Sql → Db → ListFilter → List Asset × ℕ
unfolding list_rows
list_assets sql db f = list_rows sql db f [] true

unfoldable pub list_mine : Sql → Db → Text → ListFilter → List Asset × ℕ
unfolding list_rows
list_mine sql db eoa f = list_rows sql db f (to_lower eoa) false
