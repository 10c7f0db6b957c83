-- ===== src/Market/Store/Immutable.antt =====
-- A version once pushed stays what it was.
use servers.Base.{
  ℕ, suc, ◌≡◌, inl, inr, subst, false, [], ◌∷◌, ◌++◌, some, Text, eqt_iff, is_empty, to_lower,
  lookup, insert, lookup-insert, arith, Option-cases,
}
use servers.Market.Store.{
  VersionRow, Db, AssetMeta, PushInput, author_id, find_row, find_version, refresh_latest, new_row,
  ensure_asset, add_version, put_asset, get_recipe,
}
use servers.Market.Store.Published.{
  Published, find_row-append, find_version-append, update_asset-Row, get_recipe-Published,
  Published-get_recipe,
}

author_id-Published :
    (db : Db) (who kind eoa name version body sha visibility : Text)
    → Published db kind eoa name version body sha visibility
    → Published (author_id db who).0 kind eoa name version body sha visibility
unfolding author_id
author_id-Published db who kind eoa name version body sha visibility p =
    elim (Option-cases (lookup (to_lower who) db.authors)) [
      | inr (x, e) ↦
          subst (λ d. Published d kind eoa name version body sha visibility) (ground arith) p
      | inl e ↦
          let db' : Db = record db {
            authors = insert (to_lower who) db.next_author db.authors;
            next_author = suc db.next_author;
          } in
          let still : lookup (to_lower eoa) (insert (to_lower who) db.next_author db.authors)
              ≡ some p.author =
            ground (
              arith,
              lookup-insert (to_lower who) (to_lower eoa) db.next_author db.authors,
              eqt_iff (to_lower who) (to_lower eoa),
              p.author_is,
            ) in
          let p' : Published db' kind eoa name version body sha visibility = record {
            author = p.author;
            author_is = still;
            id = p.id;
            asset = p.asset;
            stored = p.stored;
            stored_is = p.stored_is;
            body_is = p.body_is;
            sha_is = p.sha_is;
          } in
          subst (λ d. Published d kind eoa name version body sha visibility) (ground arith) p'
    ]

ensure_asset-Published :
    (db : Db) (author : ℕ) (i : PushInput) (kind eoa name version body sha visibility : Text)
    → Published db kind eoa name version body sha visibility
    → Published (ensure_asset db author i).0 kind eoa name version body sha visibility
unfolding ensure_asset
ensure_asset-Published db author i kind eoa name version body sha visibility p =
    elim (Option-cases (find_row i.kind author i.meta.name db.assets)) [
      | inr (x, e) ↦
          subst (λ d. Published d kind eoa name version body sha visibility) (ground arith) p
      | inl e ↦
          let new = new_row db.next_asset author i in
          let db' : Db = record db {
            assets = db.assets ++ (new ∷ []);
            next_asset = suc db.next_asset;
          } in
          let r = p.asset in
          let p' : Published db' kind eoa name version body sha visibility = record {
            author = p.author;
            author_is = p.author_is;
            id = p.id;
            asset = record {
              row = r.row;
              found = find_row-append kind p.author name db.assets (new ∷ []) r.row r.found;
              id_is = r.id_is;
              visibility_is = r.visibility_is;
            };
            stored = p.stored;
            stored_is = p.stored_is;
            body_is = p.body_is;
            sha_is = p.sha_is;
          } in
          subst (λ d. Published d kind eoa name version body sha visibility) (ground arith) p'
    ]

refresh_latest-Published :
    (db : Db) (target : ℕ) (meta : AssetMeta) (kind eoa name version body sha visibility : Text)
    → Published db kind eoa name version body sha visibility
    → Published (refresh_latest target meta db) kind eoa name version body sha visibility
unfolding refresh_latest
refresh_latest-Published db target meta kind eoa name version body sha visibility p = record {
  author = p.author;
  author_is = p.author_is;
  id = p.id;
  asset = update_asset-Row target _ meta db.assets kind p.author name p.id visibility p.asset;
  stored = p.stored;
  stored_is = p.stored_is;
  body_is = p.body_is;
  sha_is = p.sha_is;
}

add_version-Published :
    (db : Db) (target : ℕ) (i : PushInput) (kind eoa name version body sha visibility : Text)
    → Published db kind eoa name version body sha visibility
    → Published (add_version db target i).0 kind eoa name version body sha visibility
unfolding add_version
add_version-Published db target i kind eoa name version body sha visibility p =
    elim (Option-cases (find_version target i.meta.version db.versions)) [
      | inr (x, e) ↦
          subst (λ d. Published d kind eoa name version body sha visibility) (ground arith) p
      | inl e ↦
          let row : VersionRow = record {
            asset_id = target;
            version = i.meta.version;
            sha256 = i.sha256;
            recipe_body = i.recipe_body;
          } in
          let db' : Db = record db { versions = db.versions ++ (row ∷ []) } in
          let p' : Published db' kind eoa name version body sha visibility = record {
            author = p.author;
            author_is = p.author_is;
            id = p.id;
            asset = p.asset;
            stored = p.stored;
            stored_is =
                find_version-append p.id version db.versions (row ∷ []) p.stored p.stored_is;
            body_is = p.body_is;
            sha_is = p.sha_is;
          } in
          subst (λ d. Published d kind eoa name version body sha visibility) (ground arith)
            (refresh_latest-Published db' target i.meta kind eoa name version body sha visibility
              p')
    ]

-- Whatever is pushed, by whomever, a version that is published, asked for by its name, keeps its
-- recipe, its hash and its asset's visibility.
pub put_asset-get_recipe :
    (db : Db) (i : PushInput) (kind eoa name version body sha visibility : Text)
    → is_empty version ≡ false
    → get_recipe db kind eoa name version ≡ some (body, sha, visibility)
    → get_recipe (put_asset db i).0 kind eoa name version ≡ some (body, sha, visibility)
unfolding put_asset
put_asset-get_recipe db i kind eoa name version body sha visibility n h =
    let p = Published-get_recipe db kind eoa name version body sha visibility n h in
    let db1 = (author_id db i.author).0 in
    let author = (author_id db i.author).1 in
    let db2 = (ensure_asset db1 author i).0 in
    let p1 = author_id-Published db i.author kind eoa name version body sha visibility p in
    let p2 = ensure_asset-Published db1 author i kind eoa name version body sha visibility p1 in
    get_recipe-Published (put_asset db i).0 kind eoa name version body sha visibility n (
      add_version-Published db2 (ensure_asset db1 author i).1 i kind eoa name version body sha
        visibility p2)
