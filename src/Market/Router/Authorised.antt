-- ===== src/Market/Router/Authorised.antt =====
-- Who may change the tables.
use servers.Base.{ℕ}
use servers.Market.Http.{HttpRequest, Response, Platform, Server}
use servers.Market.Router.Edits.{Allowed}

module _ (pf : Platform) (now : ℕ) (s : Server) (r : HttpRequest) where
  abbrev Fine : Server × Response → Type 0
  Fine = Allowed pf now s r
