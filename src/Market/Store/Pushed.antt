-- ===== src/Market/Store/Pushed.antt =====
-- What a push that succeeds stores, and when it is refused.
use servers.Base.{
  Option, refl, is_some, true, ◌⊎◌, inl, inr, ℕ, ◌≡◌, ap, ◌∙◌, subst, false, [], ◌∷◌, ◌++◌, none,
  some, Text, codes, eqt_refl, is_empty, to_lower, lookup, lookup-insert_self, ok, arith,
  Option-cases,
}
use servers.Market.Store.{
  AssetRow, VersionRow, Db, PushInput, author_id, is_asset, find_row, find_version, refresh_latest,
  new_row, ensure_asset, add_version, put_asset, get_recipe,
}
use servers.Market.Store.Published.{
  Row, Published, find_row-append_last, find_version-append_last, update_asset-Row,
  get_recipe-Published,
}

author_id-lookup :
    (db : Db) (who : Text)
    → (lookup (to_lower who) (author_id db who).0.authors ≡ some (author_id db who).1)
      × ((author_id db who).0.assets ≡ db.assets)
      × ((author_id db who).0.versions ≡ db.versions)
unfolding author_id
author_id-lookup db who = elim (Option-cases (lookup (to_lower who) db.authors)) [
  | inr (x, e) ↦ ground arith
  | inl e ↦ ground (arith, lookup-insert_self (to_lower who) db.next_author db.authors)
]

-- The row that a push writes its version under.
ensure_asset-Row :
    (db : Db) (author : ℕ) (i : PushInput)
    → (visibility : Text) × Row
        (ensure_asset db author i).0.assets
        i.kind
        author
        i.meta.name
        (ensure_asset db author i).1
        visibility
      × ((ensure_asset db author i).0.authors ≡ db.authors)
      × (find_row i.kind author i.meta.name db.assets ≡ none → visibility ≡ codes "private")
unfolding ensure_asset
ensure_asset-Row db author i = elim (Option-cases (find_row i.kind author i.meta.name db.assets)) [
  | inr (x, e) ↦ (
    x.visibility,
    record { row = x; found = ground arith; id_is = ground arith; visibility_is = refl },
    ground arith,
    λ f. absurd (ground arith),
  )
  | inl e ↦
      let new = new_row db.next_asset author i in
      let last =
        find_row-append_last i.kind author i.meta.name db.assets new e
          (new_row-key db.next_asset author i) in
      (
        codes "private",
        record {
          row = new;
          found = ground (arith, last);
          id_is = ground (arith, new_row-id db.next_asset author i);
          visibility_is = new_row-visibility db.next_asset author i;
        },
        ground arith,
        λ f. refl,
      )
]
  where
    new_row-key :
        (id author : ℕ) (i : PushInput)
        → is_asset i.kind author i.meta.name (new_row id author i) ≡ true
    new_row-key id author i =
        unfold new_row in ground (arith, eqt_refl i.kind, eqt_refl i.meta.name)

    new_row-id : (id author : ℕ) (i : PushInput) → (new_row id author i).id ≡ id
    new_row-id id author i = unfold new_row in refl

    new_row-visibility :
        (id author : ℕ) (i : PushInput) → (new_row id author i).visibility ≡ codes "private"
    new_row-visibility id author i = unfold new_row in refl

-- A version that succeeds is stored under its asset.
add_version-Published :
    (db : Db) (author id : ℕ) (i : PushInput) (visibility : Text)
    → lookup (to_lower i.author) db.authors ≡ some author
    → Row db.assets i.kind author i.meta.name id visibility
    → (add_version db id i).1 ≡ ok tt
    → Published
        (add_version db id i).0
        i.kind
        i.author
        i.meta.name
        i.meta.version
        i.recipe_body
        i.sha256
        visibility
unfolding add_version refresh_latest
add_version-Published db author id i visibility a r h =
    elim (Option-cases (find_version id i.meta.version db.versions)) [
      | inr (x, e) ↦ absurd (ground arith)
      | inl e ↦
          let row : VersionRow = record {
            asset_id = id;
            version = i.meta.version;
            sha256 = i.sha256;
            recipe_body = i.recipe_body;
          } in
          let db' : Db = record db { versions = db.versions ++ (row ∷ []) } in
          let p' : Published (refresh_latest id i.meta db') i.kind i.author i.meta.name
              i.meta.version i.recipe_body i.sha256 visibility =
            record {
              author = author;
              author_is = a;
              id = id;
              asset =
                  update_asset-Row id _ i.meta db.assets i.kind author i.meta.name id visibility r;
              stored = row;
              stored_is =
                  find_version-append_last id i.meta.version db.versions row e
                    (ground (arith, eqt_refl i.meta.version));
              body_is = refl;
              sha_is = refl;
            } in
          subst
            (λ d.
              Published d i.kind i.author i.meta.name i.meta.version i.recipe_body i.sha256
                visibility)
            (ground arith) p'
    ]

either_old :
    (o : Option AssetRow) (visibility : Text)
    → (o ≡ none → visibility ≡ codes "private")
    → (is_some o ≡ true) ⊎ (visibility ≡ codes "private")
either_old none visibility f = inr (f refl)
either_old (some a) visibility f = inl refl

-- A push of a version with a name that succeeds is then served under its author, name and version,
-- with the pushed recipe and hash; and an asset that the author did not have is private.
pub put_asset-stored :
    (db : Db) (i : PushInput)
    → is_empty i.meta.version ≡ false
    → (put_asset db i).1 ≡ ok tt
    → (visibility : Text) × (get_recipe
          (put_asset db i).0
          i.kind
          i.author
          i.meta.name
          i.meta.version
        ≡ some (i.recipe_body, i.sha256, visibility))
      × ((is_some (find_row i.kind (author_id db i.author).1 i.meta.name db.assets) ≡ true)
          ⊎ (visibility ≡ codes "private"))
unfolding put_asset
put_asset-stored db i n h =
    let db1 = (author_id db i.author).0 in
    let author = (author_id db i.author).1 in
    let (there, assets, versions) = author_id-lookup db i.author in
    let (visibility, row, authors, private) = ensure_asset-Row db1 author i in
    let kept = ap (λ m. lookup (to_lower i.author) m) authors ∙ there in
    let p =
      add_version-Published (ensure_asset db1 author i).0 author (ensure_asset db1 author i).1 i
        visibility kept row h in
    (
      visibility,
      get_recipe-Published (put_asset db i).0 i.kind i.author i.meta.name i.meta.version
          i.recipe_body i.sha256 visibility n p,
      either_old (find_row i.kind author i.meta.name db.assets) visibility
          (λ f. private (ap (find_row i.kind author i.meta.name) assets ∙ f)),
    )
