-- ===== src/Market/Queries.antt =====
-- pkg/market/server.go: the handlers that show assets.
use servers.Base.{
  ℕ, Bool, not, ◌&&◌, ◌||◌, [], Option, none, some, Text, codes, eqt, is_empty, one_of, to_lower,
  if◌then◌else◌, ok, err,
}
use servers.Market.Store.{get_recipe, incr_downloads}
use servers.Market.Browse.{
  ListFilter, clamp_limit, get_asset, list_versions, list_assets, list_mine,
}
use servers.Market.Http.{
  HttpRequest, Response, reply, error, detail, versions, recipe, listing, Platform, Server,
  valid_types, query_get, query_int, verify, private_read_ok,
}

abbrev pub not_found : Response
not_found = reply 404 (error (codes "not_found"))

abbrev pub not_allowed : Response
not_allowed = reply 405 (error (codes "method_not_allowed"))

abbrev pub is_get : HttpRequest → Bool
is_get r = eqt r.signed.method (codes "GET")

unfoldable pub paid_of : Text → Option Bool
paid_of p = if is_empty p then none else some (eqt p (codes "true") || eqt p (codes "1"))

abbrev pub list_filter : HttpRequest → ListFilter
list_filter r = record {
  kind = query_get r (codes "type");
  author = query_get r (codes "author");
  query = query_get r (codes "q");
  paid = paid_of (query_get r (codes "paid"));
  sort = query_get r (codes "sort");
  page = query_int (query_get r (codes "page")) 1;
  limit = query_int (query_get r (codes "limit")) 20;
}

abbrev pub mine_filter : HttpRequest → ListFilter
mine_filter r = record {
  kind = query_get r (codes "type");
  author = [];
  query = [];
  paid = none;
  sort = [];
  page = query_int (query_get r (codes "page")) 1;
  limit = query_int (query_get r (codes "limit")) 20;
}

module _ (pf : Platform) (now : ℕ) where
  unfoldable pub handle_assets_list : Server → HttpRequest → Response
  unfolding paid_of
  handle_assets_list s r =
      let f = list_filter r in
      if not (is_get r)
      then not_allowed
      else if not (is_empty f.kind) && not (one_of f.kind valid_types)
      then reply 400 (error (codes "bad_request"))
      else (let (items, total) = list_assets pf.sql s.db f in
          reply 200 (listing items f.page (clamp_limit f.limit) total))

  unfoldable pub handle_get_meta : Server → HttpRequest → Text → Text → Text → Server × Response
  handle_get_meta s r kind author name =
      elim (get_asset s.db kind author name (query_get r (codes "version"))) [
        | none ↦ (s, not_found)
        | some (a, vs) ↦
            if eqt a.visibility (codes "private")
            then (let (s', passed) = private_read_ok pf now s r author in
                (s', if passed then reply 200 (detail a vs) else not_found))
            else (s, reply 200 (detail a vs))
      ]

  -- No check of the visibility.
  unfoldable pub handle_versions : Server → HttpRequest → Text → Text → Text → Response
  handle_versions s r kind author name =
      let vs = list_versions s.db kind author name in
      if is_empty vs then not_found else reply 200 (versions vs)

  abbrev install_reply : Server → Text → Text → Text → Text → Text → Server × Response
  install_reply s kind author name text sha =
      (record s { db = incr_downloads s.db kind author name }, reply 200 (recipe text sha))

  unfoldable pub handle_install : Server → HttpRequest → Text → Text → Text → Server × Response
  handle_install s r kind author name =
      elim (get_recipe s.db kind author name (query_get r (codes "version"))) [
        | none ↦ (s, not_found)
        | some (text, sha, visibility) ↦
            if eqt visibility (codes "private")
            then (let (s', passed) = private_read_ok pf now s r author in
                if passed then install_reply s' kind author name text sha else (s', not_found))
            else install_reply s kind author name text sha
      ]

  -- The author whose assets are shown: where checks are off, the one asked for.
  unfoldable pub mine_author : Server → HttpRequest → Text → Text
  mine_author s r signer =
      let asked = query_get r (codes "author") in
      if s.cfg.dev_insecure_skip_auth && not (is_empty asked) then to_lower asked else signer

  unfoldable pub handle_mine : Server → HttpRequest → Server × Response
  unfolding mine_author
  handle_mine s r =
      let (s', signed) = verify pf now s r [] (codes "mine") in
      if not (is_get r) then (s, not_allowed) else elim signed [
        | err e ↦ (s', e)
        | ok signer ↦
            let f = mine_filter r in
            let (items, total) = list_mine pf.sql s.db (mine_author s r signer) f in
            (s', reply 200 (listing items f.page (clamp_limit f.limit) total))
      ]
