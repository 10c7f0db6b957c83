-- ===== src/Market/Store/Published.antt =====
-- What the rows say is published, and what appending and refreshing rows leave of it.
use servers.Base.{
  ℕ, ◌≡◌, inl, inr, refl, ap, ◌∙◌, true, false, ◌&&◌, List, [], ◌∷◌, ◌++◌, none, some, Text, eqt,
  is_empty, to_lower, lookup, if◌then◌else◌, ◌==◌, arith, Option-cases, Bool-cases,
}
use servers.Market.Store.{
  AssetRow, VersionRow, Db, AssetMeta, is_asset, find_row, find_asset, find_version, update_asset,
  refresh_row, get_recipe,
}

pub find_row-append :
    (kind : Text) (author : ℕ) (name : Text) (rows new : List AssetRow) (a : AssetRow)
    → find_row kind author name rows ≡ some a
    → find_row kind author name (rows ++ new) ≡ some a
unfolding find_row
find_row-append kind author name [] new a h = absurd (ground arith)
find_row-append kind author name (x ∷ rows) new a h =
    ground (arith, find_row-append kind author name rows new a)

pub find_row-append_last :
    (kind : Text) (author : ℕ) (name : Text) (rows : List AssetRow) (a : AssetRow)
    → find_row kind author name rows ≡ none
    → is_asset kind author name a ≡ true
    → find_row kind author name (rows ++ (a ∷ [])) ≡ some a
unfolding find_row
find_row-append_last kind author name [] a h g = ground arith
find_row-append_last kind author name (x ∷ rows) a h g =
    ground (arith, find_row-append_last kind author name rows a)

pub find_version-append :
    (id : ℕ) (version : Text) (rows new : List VersionRow) (v : VersionRow)
    → find_version id version rows ≡ some v
    → find_version id version (rows ++ new) ≡ some v
unfolding find_version
find_version-append id version [] new v h = absurd (ground arith)
find_version-append id version (x ∷ rows) new v h =
    ground (arith, find_version-append id version rows new v)

pub find_version-append_last :
    (id : ℕ) (version : Text) (rows : List VersionRow) (v : VersionRow)
    → find_version id version rows ≡ none
    → (v.asset_id == id && eqt v.version version) ≡ true
    → find_version id version (rows ++ (v ∷ [])) ≡ some v
unfolding find_version
find_version-append_last id version [] v h g = ground arith
find_version-append_last id version (x ∷ rows) v h g =
    ground (arith, find_version-append_last id version rows v)

refresh_row-key :
    (latest : Text) (meta : AssetMeta) (a : AssetRow) (kind : Text) (author : ℕ) (name : Text)
    → (is_asset kind author name (refresh_row latest meta a) ≡ is_asset kind author name a)
      × ((refresh_row latest meta a).id ≡ a.id)
      × ((refresh_row latest meta a).visibility ≡ a.visibility)
unfolding refresh_row
refresh_row-key latest meta a kind author name = elim (Bool-cases (eqt latest meta.version)) [
  | inl e ↦ ground arith
  | inr e ↦ ground arith
]

-- The row that the key of an asset finds, up to what a push refreshes.
pub record Row (rows : List AssetRow) (kind : Text) (author : ℕ) (name : Text) (id : ℕ)
    (visibility : Text) : Type 0 where
  pub row : AssetRow
  pub found : find_row kind author name rows ≡ some row
  pub id_is : row.id ≡ id
  pub visibility_is : row.visibility ≡ visibility

head-find_row :
    (kind : Text) (author : ℕ) (name : Text) (x : AssetRow) (rows : List AssetRow)
    → is_asset kind author name x ≡ true
    → find_row kind author name (x ∷ rows) ≡ some x
unfolding find_row
head-find_row kind author name x rows e = ground arith

tail-find_row :
    (kind : Text) (author : ℕ) (name : Text) (x : AssetRow) (rows : List AssetRow)
    → is_asset kind author name x ≡ false
    → find_row kind author name (x ∷ rows) ≡ find_row kind author name rows
unfolding find_row
tail-find_row kind author name x rows e = ground arith

updated-key :
    (target : ℕ) (latest : Text) (meta : AssetMeta) (x : AssetRow) (kind : Text) (author : ℕ)
    (name : Text)
    → let x' : AssetRow = if x.id == target then refresh_row latest meta x else x in
      (is_asset kind author name x' ≡ is_asset kind author name x)
      × (x'.id ≡ x.id)
      × (x'.visibility ≡ x.visibility)
updated-key target latest meta x kind author name = elim (Bool-cases (x.id == target)) [
  | inl e ↦ rw e (refresh_row-key latest meta x kind author name)
  | inr e ↦ rw e (refl, refl, refl)
]

pub update_asset-Row :
    (target : ℕ) (latest : Text) (meta : AssetMeta) (rows : List AssetRow) (kind : Text)
    (author : ℕ) (name : Text) (id : ℕ) (visibility : Text)
    → Row rows kind author name id visibility
    → Row (update_asset target (refresh_row latest meta) rows) kind author name id visibility
unfolding find_row update_asset
update_asset-Row target latest meta [] kind author name id visibility r =
    absurd (ground (arith, r.found))
update_asset-Row target latest meta (x ∷ rows) kind author name id visibility r =
    let x' : AssetRow = if x.id == target then refresh_row latest meta x else x in
    let rest = update_asset target (refresh_row latest meta) rows in
    let (key, same_id, same_visibility) = updated-key target latest meta x kind author name in
    elim (Bool-cases (is_asset kind author name x)) [
      | inl e ↦
          let is_row : x ≡ r.row = ground (arith, r.found) in
          record {
            row = x';
            found = head-find_row kind author name x' rest (key ∙ e);
            id_is = same_id ∙ (ap (λ a. a.id) is_row ∙ r.id_is);
            visibility_is = same_visibility ∙ (ap (λ a. a.visibility) is_row ∙ r.visibility_is);
          }
      | inr e ↦
          let older : Row rows kind author name id visibility = record {
            row = r.row;
            found = ground (arith, r.found);
            id_is = r.id_is;
            visibility_is = r.visibility_is;
          } in
          let found =
            update_asset-Row target latest meta rows kind author name id visibility older in
          record {
            row = found.row;
            found = tail-find_row kind author name x' rest (key ∙ e) ∙ found.found;
            id_is = found.id_is;
            visibility_is = found.visibility_is;
          }
    ]

-- What is published: the row of the author, the row of the asset, and the row of the version.
pub record Published (db : Db) (kind eoa name version : Text) (body sha visibility : Text)
    : Type 0 where
  pub author : ℕ
  pub author_is : lookup (to_lower eoa) db.authors ≡ some author
  pub id : ℕ
  pub asset : Row db.assets kind author name id visibility
  pub stored : VersionRow
  pub stored_is : find_version id version db.versions ≡ some stored
  pub body_is : stored.recipe_body ≡ body
  pub sha_is : stored.sha256 ≡ sha

pub get_recipe-Published :
    (db : Db) (kind eoa name version body sha visibility : Text)
    → is_empty version ≡ false
    → Published db kind eoa name version body sha visibility
    → get_recipe db kind eoa name version ≡ some (body, sha, visibility)
unfolding get_recipe find_asset
get_recipe-Published db kind eoa name version body sha visibility n p =
    let id = p.asset.id_is in
    let there : find_version p.asset.row.id version db.versions ≡ some p.stored =
      ap (λ i. find_version i version db.versions) id ∙ p.stored_is in
    ground (arith, p.author_is, p.asset.found, n, there, p.body_is, p.sha_is, p.asset.visibility_is)

pub Published-get_recipe :
    (db : Db) (kind eoa name version body sha visibility : Text)
    → is_empty version ≡ false
    → get_recipe db kind eoa name version ≡ some (body, sha, visibility)
    → Published db kind eoa name version body sha visibility
unfolding get_recipe find_asset
Published-get_recipe db kind eoa name version body sha visibility n h =
    elim (Option-cases (lookup (to_lower eoa) db.authors)) [
      | inl e ↦ absurd (ground arith)
      | inr (author, e) ↦ elim (Option-cases (find_row kind author name db.assets)) [
        | inl f ↦ absurd (ground arith)
        | inr (a, f) ↦ elim (Option-cases (find_version a.id version db.versions)) [
          | inl g ↦ absurd (ground arith)
          | inr (v, g) ↦ record {
            author = author;
            author_is = e;
            id = a.id;
            asset = record { row = a; found = f; id_is = refl; visibility_is = ground arith };
            stored = v;
            stored_is = g;
            body_is = ground arith;
            sha_is = ground arith;
          }
        ]
      ]
    ]
