-- ===== src/Market/Browse/Visible.antt =====
-- What the listings show.
use servers.Base.{
  ℕ, ◌≡◌, inl, inr, Bool, true, false, List, [], ◌∷◌, Text, codes, eqt_iff, is_empty, to_lower,
  keep, All, map, arith, Bool-cases,
}
use servers.Market.Store.{AssetRow, Db}
use servers.Market.Browse.{
  Asset, scan_asset, ListFilter, Joined, Sql, joined, matches, order_of, list_rows, list_assets,
  list_mine,
}

-- ORDER BY, LIMIT and OFFSET bring no row in.
pub record IsSql (sql : Sql) : Type 0 where
  pub ordered :
      (p : Joined → Bool) (column : Text) (rows : List Joined)
      → All (λ r. p r ≡ true) rows
      → All (λ r. p r ≡ true) (sql.order_by column rows)
  pub windowed :
      (p : Joined → Bool) (limit offset : ℕ) (rows : List Joined)
      → All (λ r. p r ≡ true) rows
      → All (λ r. p r ≡ true) (sql.window limit offset rows)

keep-All {ℓ} : {A : Type ℓ} (p : A → Bool) (xs : List A) → All (λ x. p x ≡ true) (keep p xs)
keep-All p [] = tt
keep-All p (x ∷ xs) = elim (Bool-cases (p x)) [
  | inl e ↦ rw e (e, keep-All p xs)
  | inr e ↦ rw e (keep-All p xs)
]

All-scan :
    (sql : Sql) (f : ListFilter) (mine : Text) (public_only : Bool) (Q : Asset → Type 0)
    (rows : List Joined)
    → ((eoa : Text) (a : AssetRow)
        → matches sql f mine public_only (eoa, a) ≡ true
        → Q (scan_asset eoa a))
    → All (λ r. matches sql f mine public_only r ≡ true) rows
    → All Q (map (λ (eoa, a). scan_asset eoa a) rows)
All-scan sql f mine public_only Q [] q h = tt
All-scan sql f mine public_only Q ((eoa, a) ∷ rows) q h =
    (q eoa a h.0, All-scan sql f mine public_only Q rows q h.1)

list_rows-All :
    (sql : Sql) (db : Db) (f : ListFilter) (mine : Text) (public_only : Bool) (Q : Asset → Type 0)
    → IsSql sql
    → ((eoa : Text) (a : AssetRow)
        → matches sql f mine public_only (eoa, a) ≡ true
        → Q (scan_asset eoa a))
    → All Q (list_rows sql db f mine public_only).0
unfolding list_rows
list_rows-All sql db f mine public_only Q s q =
    let p = matches sql f mine public_only in
    let rows = keep p (joined db.authors db.assets) in
    All-scan sql f mine public_only Q _ q (
      s.windowed p _ _ _
        (s.ordered p (order_of f.sort) rows (keep-All p (joined db.authors db.assets))))

public_row :
    (sql : Sql) (f : ListFilter) (eoa : Text) (a : AssetRow)
    → matches sql f [] true (eoa, a) ≡ true
    → (scan_asset eoa a).visibility ≡ codes "public"
unfolding matches scan_asset
public_row sql f eoa a h = (eqt_iff a.visibility (codes "public")).0 (ground arith)

own_row :
    (sql : Sql) (f : ListFilter) (mine eoa : Text) (a : AssetRow)
    → is_empty mine ≡ false
    → matches sql f mine false (eoa, a) ≡ true
    → (scan_asset eoa a).author ≡ mine
unfolding matches scan_asset
own_row sql f mine eoa a n h = (eqt_iff eoa mine).0 (ground arith)

-- Whatever the filter, the tables and the page, the public list shows no asset but public ones, and
-- the list of an author's own assets no asset but the author's, if the database's ordering and
-- paging bring no row in.
pub list_assets-visible :
    (sql : Sql) (db : Db) (f g : ListFilter) (eoa : Text)
    → IsSql sql
    → is_empty (to_lower eoa) ≡ false
    → All (λ a. a.visibility ≡ codes "public") (list_assets sql db f).0
      × All (λ a. a.author ≡ to_lower eoa) (list_mine sql db eoa g).0
unfolding list_assets list_mine
list_assets-visible sql db f g eoa s n = (
  list_rows-All sql db f [] true (λ a. a.visibility ≡ codes "public") s (public_row sql f),
  list_rows-All sql db g (to_lower eoa) false (λ a. a.author ≡ to_lower eoa) s
      (λ eoa' a m. own_row sql g (to_lower eoa) eoa' a n m),
)
