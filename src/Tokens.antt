-- ===== src/Tokens.antt =====
-- apps/api/plimsoll_api/security/tokens.py: the verified claims of an access token. The JWT library
-- signs and verifies; decoding is not modelled here.
use bonerepo.Prelude.{ℕ}
use bonerepo.Prelude.Texts.{Text}

pub record AccessClaims : Type 0 where
  pub user_id : ℕ
  pub organization_id : ℕ
  pub role : Text
