-- ===== src/Market/Router/Hidden.antt =====
-- What strangers see of a private asset.
use servers.Base.{
  ℕ, ◌≡◌, ◌≢◌, refl, ap, ◌∙◌, Bool, true, false, ◌&&◌, ◌||◌, List, [], ◌∷◌, ◌++◌, some, Text, codes,
  eqt, eqt_iff, eqt_refl, is_empty, if◌then◌else◌, ok, arith, Bool-cases, Option-cases,
  Result-cases, inl, inr, to_lower, reverse, any,
}
use mathlib.Core.List.{reverse-cons}
use servers.Market.Nonces.{verify_write}
use servers.Market.Store.{Db, AssetRow, VersionRow, find_asset, find_version, get_recipe}
use servers.Market.Browse.{
  Asset, Version, scan_asset, pinned, sink, sort_from, sort_versions_desc, version_rows,
  list_versions, get_asset,
}
use servers.Market.Http.{HttpRequest, reply, versions, Platform, Server, query_get, private_read_ok}
use servers.Market.Queries.{not_found, handle_get_meta, handle_versions, handle_install}

eqt-nil : (s : Text) → is_empty s ≡ false → eqt [] s ≡ false
unfolding eqt is_empty
eqt-nil [] h = absurd (ground arith)
eqt-nil (c ∷ s) h = refl

pinned-visibility :
    (a : Asset) (vs : List Version) (version : Text) (shown : Asset)
    → pinned a vs version ≡ some shown
    → shown.visibility ≡ a.visibility
unfolding pinned
pinned-visibility a vs version shown h = ground arith

get_asset-visibility :
    (db : Db) (kind author name version : Text) (row : AssetRow) (a : Asset) (vs : List Version)
    → find_asset db kind author name ≡ some row
    → get_asset db kind author name version ≡ some (a, vs)
    → a.visibility ≡ row.visibility
unfolding get_asset scan_asset
get_asset-visibility db kind author name version row a vs f h =
    let all = list_versions db kind author name in
    let view = scan_asset (to_lower author) row in
    elim (Option-cases (pinned view all version)) [
      | inl p ↦ absurd (ground arith)
      | inr (shown, p) ↦ ground (arith, pinned-visibility view all version shown p)
    ]

get_recipe-visibility :
    (db : Db) (kind author name version : Text) (row : AssetRow) (text sha visibility : Text)
    → find_asset db kind author name ≡ some row
    → get_recipe db kind author name version ≡ some (text, sha, visibility)
    → visibility ≡ row.visibility
unfolding get_recipe
get_recipe-visibility db kind author name version row text sha visibility f h =
    let at = if is_empty version then row.latest_version else version in
    elim (Option-cases (find_version row.id at db.versions)) [
      | inl v ↦ absurd (ground arith)
      | inr (v', v) ↦ ground arith
    ]

module _ (pf : Platform) (now : ℕ) (s : Server) (r : HttpRequest) (kind author name : Text)
    (row : AssetRow) (found : find_asset s.db kind author name ≡ some row)
    (private : row.visibility ≡ codes "private") where
  private_read_ok-false :
      is_empty author ≡ false
      → (verify_write pf.crypto s.cfg s.seen (record r.signed { body = [] }) author now).1
        ≢ ok author
      → (private_read_ok pf now s r author).1 ≡ false
  unfolding private_read_ok is_empty
  private_read_ok-false n refused =
      let signed = record r.signed { body = [] } in
      elim (Result-cases (verify_write pf.crypto s.cfg s.seen signed author now).1) [
        | inr (e, v) ↦ rw (v, private_read_ok) (eqt-nil author n)
        | inl (signer, v) ↦ elim (Bool-cases (eqt signer author)) [
          | inl q ↦ absurd (refused (v ∙ ap ok ((eqt_iff signer author).0 q)))
          | inr q ↦ rw (v, private_read_ok) q
        ]
      ]

  get_meta-hidden :
      (private_read_ok pf now s r author).1 ≡ false
      → (handle_get_meta pf now s r kind author name).1 ≡ not_found
  unfolding handle_get_meta
  get_meta-hidden shut =
      let version = query_get r (codes "version") in
      elim (Option-cases (get_asset s.db kind author name version)) [
        | inl e ↦ rw (e, handle_get_meta)
        | inr ((a, vs), e) ↦
            let same = get_asset-visibility s.db kind author name version row a vs found e in
            let hidden : eqt a.visibility (codes "private") ≡ true =
              (eqt_iff a.visibility (codes "private")).1 (same ∙ private) in
            rw (e, handle_get_meta) (rw hidden (rw shut))
      ]

  install-hidden :
      (private_read_ok pf now s r author).1 ≡ false
      → ((handle_install pf now s r kind author name).1 ≡ not_found)
        × ((handle_install pf now s r kind author name).0.db ≡ s.db)
  unfolding handle_install
  install-hidden shut =
      let version = query_get r (codes "version") in
      elim (Option-cases (get_recipe s.db kind author name version)) [
        | inl e ↦ (rw (e, handle_install), rw (e, handle_install))
        | inr ((text, sha, visibility), e) ↦
            let same =
              get_recipe-visibility s.db kind author name version row text sha visibility found e in
            let hidden : eqt visibility (codes "private") ≡ true =
              (eqt_iff visibility (codes "private")).1 (same ∙ private) in
            (
              rw (e, handle_install) (rw hidden (rw shut)),
              rw (e, handle_install) (rw hidden (rw (shut, handle_install) (kept author))),
            )
      ]
    where
      kept : (author : Text) → (private_read_ok pf now s r author).0.db ≡ s.db
      kept author = unfold private_read_ok in refl

-- A private asset is hidden: whatever version is asked for, who has no request accepted as signed by
-- its author is answered by the metadata and the install handler as if there were no such asset, and
-- no download is counted.
pub private_hidden :
    (pf : Platform) (now : ℕ) (s : Server) (r : HttpRequest) (kind author name : Text)
    (row : AssetRow)
    → find_asset s.db kind author name ≡ some row
    → row.visibility ≡ codes "private"
    → is_empty author ≡ false
    → (verify_write pf.crypto s.cfg s.seen (record r.signed { body = [] }) author now).1 ≢ ok author
    → ((handle_get_meta pf now s r kind author name).1 ≡ not_found)
      × ((handle_install pf now s r kind author name).1 ≡ not_found)
      × ((handle_install pf now s r kind author name).0.db ≡ s.db)
private_hidden pf now s r kind author name row found private n refused =
    let shut = private_read_ok-false pf now s r kind author name row found private n refused in
    let (hidden, kept) = install-hidden pf now s r kind author name row found private shut in
    (get_meta-hidden pf now s r kind author name row found private shut, hidden, kept)

any-append {ℓ} :
    {A : Type ℓ} (p : A → Bool) (xs ys : List A) → any p (xs ++ ys) ≡ (any p xs || any p ys)
any-append p [] ys = refl
any-append p (x ∷ xs) ys = ground (arith, any-append p xs ys)

any-reverse {ℓ} : {A : Type ℓ} (p : A → Bool) (xs : List A) → any p (reverse xs) ≡ any p xs
any-reverse p [] = refl
any-reverse p (x ∷ xs) =
    ap (any p) (reverse-cons x xs)
    ∙ (any-append p (reverse xs) (x ∷ []) ∙ ground (arith, any-reverse p xs))

-- The sort loses nothing.
any-sink :
    (p : Version → Bool) (v : Version) (vs : List Version) → any p (sink v vs) ≡ (p v || any p vs)
unfolding sink
any-sink p v [] = refl
any-sink p v (x ∷ vs) = ground (arith, any-sink p v vs)

any-sort_from :
    (p : Version → Bool) (sorted vs : List Version)
    → any p (sort_from sorted vs) ≡ (any p sorted || any p vs)
unfolding sort_from
any-sort_from p sorted [] = ground (arith, any-reverse p sorted)
any-sort_from p sorted (v ∷ vs) =
    ground (arith, any-sort_from p (sink v sorted) vs, any-sink p v sorted)

abbrev pub is_listed : VersionRow → Version → Bool
is_listed v x = eqt x.version v.version && eqt x.sha256 v.sha256

version_rows-is_listed :
    (id : ℕ) (version : Text) (rows : List VersionRow) (v : VersionRow)
    → find_version id version rows ≡ some v
    → any (is_listed v) (version_rows id rows) ≡ true
unfolding find_version version_rows
version_rows-is_listed id version [] v h = absurd (ground arith)
version_rows-is_listed id version (x ∷ rows) v h =
    ground (arith, version_rows-is_listed id version rows v, eqt_refl x.version, eqt_refl x.sha256)

some_of_any : (p : Version → Bool) (vs : List Version) → any p vs ≡ true → is_empty vs ≡ false
unfolding is_empty
some_of_any p [] h = absurd (ground arith)
some_of_any p (v ∷ vs) h = refl

-- The list of versions is not hidden: whoever asks, with no signature at all, and whatever the asset's
-- visibility, is sent the versions and the hashes of the asset, and every version that is stored is
-- among them.
pub handle_versions-shown :
    (pf : Platform) (now : ℕ) (s : Server) (r : HttpRequest) (kind author name version : Text)
    (row : AssetRow) (v : VersionRow)
    → find_asset s.db kind author name ≡ some row
    → find_version row.id version s.db.versions ≡ some v
    → (vs : List Version) × (handle_versions pf now s r kind author name ≡ reply 200 (versions vs))
      × (any (is_listed v) vs ≡ true)
unfolding handle_versions list_versions sort_versions_desc
handle_versions-shown pf now s r kind author name version row v found stored =
    let rows = version_rows row.id s.db.versions in
    let listed =
      any-sort_from (is_listed v) [] rows
      ∙ version_rows-is_listed row.id version s.db.versions v stored in
    (
      sort_from [] rows,
      rw (found, list_versions) (rw (some_of_any (is_listed v) (sort_from [] rows) listed)),
      listed,
    )
