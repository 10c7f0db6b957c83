-- ===== src/Auth/Crypto.antt =====
-- What the servers take from code outside the repository, as one value: go-ethereum's signature and
-- address functions, the hashes, the JSON and X.509 codecs and the Unicode tables. An address and a
-- public key are bytes; `sig_to_address` is `SigToPub` followed by `PubkeyToAddress`.
use servers.Base.{ℕ, Bool, Option, Text}
use servers.Setup.{HardwareSpec}

pub record Crypto : Type 0 where
  pub sha256 : Text → Text
  pub keccak256 : Text → Text
  pub sig_to_address : Text → Text → Option Text
  pub is_hex_address : Text → Bool
  pub hex_to_address : Text → Text
  pub address_hex : Text → Text
  pub marshal_hardware : HardwareSpec → Option Text
  pub parse_certificate : Text → Option Text
  pub same_fold : ℕ → ℕ → Bool
