-- ===== src/Market/Router.antt =====
-- pkg/market/server.go: which handler a request goes to.
pub mod Edits
pub mod Authorised
pub mod Hidden
use servers.Base.{
  ℕ, Bool, true, false, not, List, [], ◌∷◌, Option, none, some, Text, codes, eqt, is_empty, one_of,
  to_lower, trim_prefix, trim_byte, has_prefix, split_byte, if◌then◌else◌,
}
use servers.Market.Http.{
  HttpRequest, Response, reply, error, silent, status, Platform, Server, valid_types,
}
use servers.Market.Writes.{
  bad_request, handle_push, handle_visibility, handle_price, handle_meta, handle_unpush,
}
use servers.Market.Queries.{
  not_found, not_allowed, is_get, handle_assets_list, handle_get_meta, handle_versions,
  handle_install, handle_mine,
}

abbrev method_is : HttpRequest → Text → Bool
method_is r m = eqt r.signed.method m

module _ (pf : Platform) (now : ℕ) where
  -- `/v1/assets/{type}/{author}/{name}`
  unfoldable pub route_asset : Server → HttpRequest → Text → Text → Text → Server × Response
  unfolding handle_get_meta handle_push handle_visibility handle_unpush
  route_asset s r kind author name =
      if is_get r
      then handle_get_meta pf now s r kind author name
      else if method_is r (codes "POST")
      then handle_push pf now s r kind author name
      else if method_is r (codes "PATCH")
      then handle_visibility pf now s r kind author name
      else if method_is r (codes "DELETE")
      then handle_unpush pf now s r kind author name
      else (s, not_allowed)

  -- `/v1/assets/{type}/{author}/{name}/{sub}`
  unfoldable pub route_sub : Server → HttpRequest → Text → Text → Text → Text → Server × Response
  unfolding route_asset handle_versions handle_install handle_price handle_meta
  route_sub s r kind author name sub =
      if is_empty sub
      then route_asset s r kind author name
      else if eqt sub (codes "versions")
      then (if not (is_get r)
          then (s, not_allowed)
          else (s, handle_versions pf now s r kind author name))
      else if eqt sub (codes "install")
      then (if not (is_get r) then (s, not_allowed) else handle_install pf now s r kind author name)
      else if eqt sub (codes "price")
      then (if not (method_is r (codes "PATCH"))
          then (s, not_allowed)
          else handle_price pf now s r kind author name)
      else if eqt sub (codes "meta")
      then (if not (method_is r (codes "PATCH"))
          then (s, not_allowed)
          else handle_meta pf now s r kind author name)
      else (s, not_found)

  abbrev route_typed : Server → HttpRequest → Text → Text → Text → Text → Server × Response
  route_typed s r kind author name sub =
      if not (one_of kind valid_types)
      then (s, bad_request)
      else route_sub s r kind (to_lower author) name sub

  unfoldable pub route_segments : Server → HttpRequest → List Text → Server × Response
  unfolding route_sub handle_mine
  route_segments s r (kind ∷ author ∷ name ∷ []) = route_typed s r kind author name []
  route_segments s r (kind ∷ author ∷ name ∷ sub ∷ []) = route_typed s r kind author name sub
  route_segments s r (segment ∷ []) =
      if eqt segment (codes "mine") then handle_mine pf now s r else (s, not_found)
  route_segments s r segments = (s, not_found)

  unfoldable pub handle_assets_path : Server → HttpRequest → Server × Response
  unfolding route_segments
  handle_assets_path s r =
      let rest = trim_byte b'/' (trim_prefix r.path (codes "/v1/assets/")) in
      if is_empty rest then (s, not_found) else route_segments s r (split_byte b'/' rest)

  -- The mux, behind the middleware that answers OPTIONS.
  unfoldable pub serve : Server → HttpRequest → Server × Response
  unfolding handle_assets_path handle_assets_list
  serve s r =
      if method_is r (codes "OPTIONS")
      then (s, reply 200 silent)
      else if eqt r.path (codes "/health")
      then (s, reply 200 (status (codes "ok")))
      else if eqt r.path (codes "/v1/assets")
      then (s, handle_assets_list pf now s r)
      else if has_prefix r.path (codes "/v1/assets/")
      then handle_assets_path s r
      else if has_prefix r.path (codes "/v1/blob/")
      then (s, reply 501 (error (codes "not_implemented")))
      else (s, not_found)
